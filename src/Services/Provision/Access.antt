-- ===== src/Services/Provision/Access.antt =====
-- `provision` and `ensureAuthorized`: the roles of a provisioning may use its menus through the proxy.
use master_gateway_auth.Prelude.{
  ℕ, ◌+◌, String, Bool, true, false, ◌&&◌, List, [], ◌∷◌, ◌++◌, ◌≡◌, refl, sym, subst, inl, inr,
  arith, ◌==◌, eq_iff, Bool-cases, map, any, any-append, any-append_last, select, count_where, eqb,
  includes, length, IsDistinct-covers, count-keys,
}
use master_gateway_auth.Prog.{ok, run}
use master_gateway_auth.Db.{
  is_active, Role, Menu, RoleLink, ExternalService, World, role_is_active, module_is_active,
}
use master_gateway_auth.Platform.{Platform}
use master_gateway_auth.Roles.Protected.{HasUniqueRoles}
use master_gateway_auth.Proxy.Forward.{menu_is_open, assignments}
use master_gateway_auth.Services.Provision
use master_gateway_auth.Services.Provision.Steps.{leaves_at, leaf_ids}
use master_gateway_auth.Services.Provision.Grants.{menu_links, role_menu_links, after_links}
use master_gateway_auth.Services.Provision.Effect.{
  provisioned_world, new_menu_ids, provision-IsProvisioned,
}

counted_of_any :
    {A : Type 0} (p : A → Bool) (xs : List A) → any p xs ≡ true → eqb (count_where p xs) 0 ≡ false
counted_of_any p [] h = cc
counted_of_any p (x ∷ xs) h = elim (Bool-cases (p x)) [
  | inl hit ↦ rw hit (ground arith)
  | inr miss ↦ rw miss (counted_of_any p xs (ground arith))
]

module _ (pf : Platform) (actor : String) where
  -- A test that the assignment of the menu to the role passes, whatever its id.
  module _ (q : RoleLink → Bool) (role_id menu_id : String)
      (passes : (id : String) → q (Provision.link_row id role_id menu_id actor) ≡ true) where
    any-menu_links :
        (d : ℕ) (ms : List String)
        → includes menu_id ms ≡ true
        → any q (menu_links pf actor d role_id ms) ≡ true
    any-menu_links d [] h = cc
    any-menu_links d (m ∷ ms) h = elim (Bool-cases (menu_id == m)) [
      | inl here ↦
          let same : menu_id ≡ m = (eq_iff menu_id m).0 here in
          rw
            (subst (λ x. q (Provision.link_row (pf.uuid d) role_id x actor) ≡ true) same
              (passes (pf.uuid d)))
            refl
      | inr there ↦ ground (arith, any-menu_links (d + 1) ms)
    ]

    any-role_menu_links :
        (d : ℕ) (ms rs : List String)
        → includes menu_id ms ≡ true
        → includes role_id rs ≡ true
        → any q (role_menu_links pf actor d ms rs) ≡ true
    any-role_menu_links d ms [] hm hr = cc
    any-role_menu_links d ms (r ∷ rs) hm hr = elim (Bool-cases (role_id == r)) [
      | inl here ↦
          let same : role_id ≡ r = (eq_iff role_id r).0 here in
          any-append q (menu_links pf actor (d + 1) r ms) _ (
            subst (λ x. any q (menu_links pf actor (d + 1) x ms) ≡ true) same
              (any-menu_links (d + 1) ms hm))
      | inr there ↦
          any-append_last q (menu_links pf actor (d + 1) r ms)
            (role_menu_links pf actor (after_links pf actor (d + 1) ms) ms rs)
            (any-role_menu_links (after_links pf actor (d + 1) ms) ms rs hm (ground arith))
    ]

  -- Each new leaf is active and of the new module.
  any-leaves :
      (w : World) (module_id root_id menu_id : String) (d index : ℕ)
      (items : List Provision.ProvisionMenuItemDto)
      → module_is_active w module_id ≡ true
      → includes menu_id (leaf_ids pf actor d items) ≡ true
      → any
          (λ m. m.id == menu_id && is_active m.estado && module_is_active w m.module_id)
          (leaves_at pf actor module_id root_id d index items)
        ≡ true
  any-leaves w module_id root_id menu_id d index [] open' h = cc
  any-leaves w module_id root_id menu_id d index (item ∷ items) open' h =
      elim (Bool-cases (menu_id == pf.uuid d)) [
        | inl here ↦ ground (arith, eq_iff menu_id (pf.uuid d), eq_iff (pf.uuid d) menu_id)
        | inr there ↦
            ground (arith, any-leaves w module_id root_id menu_id (d + 1 + 1) (index + 1) items)
      ]

  among :
      (ids : List String) (r : String) (rs : List Role)
      → includes r (map (λ x. x.id) (select (λ x. includes x.id ids && is_active x.estado) rs))
        ≡ true
      → includes r ids ≡ true
  among ids r [] h = cc
  among ids r (x ∷ xs) h = elim (Bool-cases (includes x.id ids && is_active x.estado)) [
    | inr left ↦ among ids r xs (rw left at h)
    | inl kept ↦ elim (Bool-cases (r == x.id)) [
      | inl same ↦ subst (λ i. includes i ids ≡ true) (sym ((eq_iff r x.id).0 same)) (ground arith)
      | inr other ↦ among ids r xs (rw (kept, other) at h)
    ]
  ]

  role_active :
      (ids : List String) (r : String) (rs : List Role)
      → includes r (map (λ x. x.id) (select (λ x. includes x.id ids && is_active x.estado) rs))
        ≡ true
      → any (λ x. x.id == r && is_active x.estado) rs ≡ true
  role_active ids r [] h = cc
  role_active ids r (x ∷ xs) h = elim (Bool-cases (includes x.id ids && is_active x.estado)) [
    | inl kept ↦ ground (arith, role_active ids r xs, eq_iff r x.id, eq_iff x.id r)
    | inr left ↦ ground (arith, role_active ids r xs)
  ]

  -- The active roles among some ids, if the ids of roles are unique and there are as many as ids.
  role_listed :
      (w : World) (ids : List String) (role_id : String)
      → HasUniqueRoles w
      → eqb (length (Provision.active_roles w ids)) (length ids) ≡ true
      → includes role_id ids ≡ true
      → includes role_id (Provision.active_roles w ids) ≡ true
  role_listed w ids role_id unique counted h =
      IsDistinct-covers (Provision.active_roles w ids) ids
        (λ x. omega (
          arith,
          count-keys (λ r. r.id) (λ r. includes r.id ids && is_active r.estado) x w.roles,
          unique x,
        ))
        (λ x m. among ids x w.roles m) (ground arith) role_id h

  module _ (s : ExternalService) (id : String) (role_ids : List String)
      (items : List Provision.ProvisionMenuItemDto) (w : World) where
    abbrev after_provision : World
    after_provision = provisioned_world pf actor s id role_ids items w

    module_active : module_is_active after_provision (pf.uuid w.draws) ≡ true
    module_active =
        any-append_last (λ m. m.id == pf.uuid w.draws && is_active m.estado) w.modules
          (Provision.provisioned_module (pf.uuid w.draws) s actor ∷ [])
          (ground (arith, eq_iff (pf.uuid w.draws) (pf.uuid w.draws)))

    abbrev opens : String → Menu → Bool
    opens menu_id m =
        m.id == menu_id && is_active m.estado && module_is_active after_provision m.module_id

    abbrev new_root : Menu
    new_root = Provision.root_menu (pf.uuid (w.draws + 1)) s (pf.uuid w.draws) actor

    abbrev new_leaves : List Menu
    new_leaves =
        leaves_at pf actor (pf.uuid w.draws) (pf.uuid (w.draws + 1)) (w.draws + 1 + 1) 0 items

    menu_open :
        (menu_id : String)
        → includes menu_id (new_menu_ids pf actor items w) ≡ true
        → menu_is_open after_provision menu_id ≡ true
    menu_open menu_id h = elim (Bool-cases (menu_id == pf.uuid (w.draws + 1))) [
      | inl is_root ↦
          let same = sym ((eq_iff menu_id (pf.uuid (w.draws + 1))).0 is_root) in
          any-append (opens menu_id) (w.menus ++ new_root ∷ []) new_leaves (
            any-append_last (opens menu_id) w.menus (new_root ∷ [])
              (rw ((eq_iff (pf.uuid (w.draws + 1)) menu_id).1 same, module_active) refl))
      | inr is_leaf ↦ any-append_last (opens menu_id) (w.menus ++ new_root ∷ []) new_leaves (
          any-leaves after_provision (pf.uuid w.draws) (pf.uuid (w.draws + 1)) menu_id
            (w.draws + 1 + 1) 0 items module_active (ground arith))
    ]

    assigned :
        (role_id menu_id : String)
        → role_is_active w role_id ≡ true
        → includes role_id role_ids ≡ true
        → includes menu_id (new_menu_ids pf actor items w) ≡ true
        → eqb (assignments after_provision role_id menu_id) 0 ≡ false
    assigned role_id menu_id active listed new' = counted_of_any q after_provision.role_menus (
        any-append_last q w.role_menus _ (
          any-role_menu_links q role_id menu_id
            (λ x.
              rw
                (
                  (eq_iff role_id role_id).1 refl,
                  (eq_iff menu_id menu_id).1 refl,
                  active,
                  menu_open menu_id new',
                )
                refl)
            _ (new_menu_ids pf actor items w) role_ids new' listed))
      where
        q : RoleLink → Bool
        q l =
            l.role_id == role_id
            && l.target_id == menu_id
            && is_active l.estado
            && role_is_active after_provision l.role_id
            && menu_is_open after_provision l.target_id

  -- If the ids of roles are unique: right after a service was provisioned, each role that the request
  -- names passes the proxy's check of access to each of the new menus.
  pub provisioned-role_passes :
      (id : String) (dto : Provision.ProvisionServiceDto) (w : World) (p : Provision.Provisioned)
      (w' : World) (role_id menu_id : String)
      → HasUniqueRoles w
      → run (Provision.provision pf actor id dto) w ≡ (ok p, w')
      → includes role_id dto.role_ids ≡ true
      → includes menu_id (new_menu_ids pf actor dto.items w) ≡ true
      → eqb (assignments w' role_id menu_id) 0 ≡ false
  provisioned-role_passes id dto w p w' role_id menu_id unique e requested new' =
      let h = provision-IsProvisioned pf actor id dto w p w' e in
      let listed = role_listed w dto.role_ids role_id unique h.roles_active requested in
      subst (λ x. eqb (assignments x role_id menu_id) 0 ≡ false) (sym h.stored)
        (assigned h.service id (Provision.active_roles w dto.role_ids) dto.items w role_id menu_id
          (role_active dto.role_ids role_id w.roles listed) listed new')
