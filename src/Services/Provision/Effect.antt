-- ===== src/Services/Provision/Effect.antt =====
-- `provision`: what it demands, the state that it leaves, and its answer.
use master_gateway_auth.Prelude.{
  ◌+◌, String, true, false, not, some, List, [], ◌∷◌, ◌++◌, ◌≡◌, ◌∙◌, ap, arith, length, eqb,
}
use master_gateway_auth.Prog.{ok, run, database}
use master_gateway_auth.Prog.Runs.{
  run-bind_ok, run-insert_ok, run-guard_ok, run-some_or_ok, run-transaction_ok,
}
use master_gateway_auth.Prog.Outcomes.{outcome-eq}
use master_gateway_auth.Db.{ExternalService, World}
use master_gateway_auth.Platform.{Platform}
use master_gateway_auth.Services.{active_by_id}
use master_gateway_auth.Services.Updates.{with_service_changed, update_service_ok}
use master_gateway_auth.Services.Provision
use master_gateway_auth.Services.Provision.Steps.{
  leaf_ids, length-leaf_ids, with_leaves, create_leaves_ok,
}
use master_gateway_auth.Services.Provision.Grants.{with_grants, grant_roles_ok}

module _ (pf : Platform) (actor : String) where
  abbrev pub module_stored : ExternalService → World → World
  module_stored s w = record w {
    modules = w.modules ++ Provision.provisioned_module (pf.uuid w.draws) s actor ∷ [];
    draws = w.draws + 1;
  }

  abbrev pub root_stored : ExternalService → String → World → World
  root_stored s module_id w = record w {
    menus = w.menus ++ Provision.root_menu (pf.uuid w.draws) s module_id actor ∷ [];
    draws = w.draws + 1;
  }

  -- The ids of the new menus, the root first.
  abbrev pub new_menu_ids : List Provision.ProvisionMenuItemDto → World → List String
  new_menu_ids items w = pf.uuid (w.draws + 1) ∷ leaf_ids pf actor (w.draws + 1 + 1) items

  -- The new rows: a module, its root menu, a leaf and a route for each item, and for each role the
  -- assignments of the module and of all new menus; the service refers to the module.
  abbrev pub provisioned_world :
      ExternalService → String → List String → List Provision.ProvisionMenuItemDto → World → World
  provisioned_world s id role_ids items w =
      with_service_changed id (Provision.with_module pf actor (pf.uuid w.draws)) (
        with_grants pf actor (pf.uuid w.draws) (new_menu_ids items w) role_ids (
          with_leaves pf actor s (pf.uuid w.draws) (pf.uuid (w.draws + 1)) 0 items
            (root_stored s (pf.uuid w.draws) (module_stored s w))))

  provisioning_ok :
      (s : ExternalService) (id : String) (role_ids : List String)
      (items : List Provision.ProvisionMenuItemDto) (w : World) {p : Provision.Provisioned}
      {w' : World}
      → run (Provision.provisioning pf actor s id role_ids items) w ≡ (ok p, w')
      → (w' ≡ provisioned_world s id role_ids items w)
        × (p.routes ≡ length items)
        × (p.menus ≡ p.routes + 1)
  provisioning_ok s id role_ids items w e =
      let m = Provision.provisioned_module (pf.uuid w.draws) s actor in
      let (free, e1) =
        run-insert_ok (λ t. Provision.code_used t m.code)
          (λ t. record t { modules = t.modules ++ m ∷ [] }) (database "P2002") _
          (record w { draws = w.draws + 1 }) e in
      let rooted = root_stored s (pf.uuid w.draws) (module_stored s w) in
      let (leaves, v, e2, e3) =
        run-bind_ok
          (Provision.create_leaves pf actor s (pf.uuid w.draws) (pf.uuid (w.draws + 1)) 0 items) _
          rooted e1 in
      let (listed, leafed) =
        create_leaves_ok pf actor s (pf.uuid w.draws) (pf.uuid (w.draws + 1)) 0 items rooted e2 in
      let (u, x, e4, e5) =
        run-bind_ok
          (Provision.grant_roles pf actor (pf.uuid w.draws) (pf.uuid (w.draws + 1) ∷ leaves)
            role_ids)
          _ v e3 in
      let granted =
        grant_roles_ok pf actor (pf.uuid w.draws) (pf.uuid (w.draws + 1) ∷ leaves) role_ids v e4 in
      let (clash, row, found, e6) =
        update_service_ok id (Provision.with_module pf actor (pf.uuid w.draws)) _ x e5 in
      let (answer, state) = outcome-eq e6 in
      let grants = with_grants pf actor (pf.uuid w.draws) in
      (
        state
            ∙ ap (with_service_changed id (Provision.with_module pf actor (pf.uuid w.draws))) (
                granted
                ∙ ap (λ ids. grants (pf.uuid (w.draws + 1) ∷ ids) role_ids v) listed
                ∙ ap (grants (new_menu_ids items w) role_ids) leafed),
        ap (λ a. a.routes) answer
            ∙ ap length listed
            ∙ length-leaf_ids pf actor (w.draws + 1 + 1) items,
        omega (arith, ap (λ a. a.menus) answer, ap (λ a. a.routes) answer),
      )

  -- What `provision` has demanded and done when it succeeds.
  pub record IsProvisioned (id : String) (dto : Provision.ProvisionServiceDto) (w : World)
      (p : Provision.Provisioned) (w' : World) : Type 0 where
    pub service : ExternalService
    pub registered : active_by_id w id ≡ some service
    pub first_time : Provision.is_provisioned service ≡ false
    pub roles_active :
        eqb (length (Provision.active_roles w dto.role_ids)) (length dto.role_ids) ≡ true
    pub code_free : Provision.code_used w service.code ≡ false
    pub stored :
        w' ≡ provisioned_world service id (Provision.active_roles w dto.role_ids) dto.items w
    pub routes_counted : p.routes ≡ length dto.items
    pub menus_counted : p.menus ≡ p.routes + 1

  pub provision-IsProvisioned :
      (id : String) (dto : Provision.ProvisionServiceDto) (w : World) (p : Provision.Provisioned)
      (w' : World)
      → run (Provision.provision pf actor id dto) w ≡ (ok p, w')
      → IsProvisioned id dto w p w'
  unfolding Provision.provision
  provision-IsProvisioned id dto w p w' e =
      let (s, registered, e1) = run-some_or_ok _ (active_by_id w id) _ w e in
      let (first_time, e2) = run-guard_ok (not (Provision.is_provisioned s)) _ _ w e1 in
      let roles = Provision.active_roles w dto.role_ids in
      let (roles_active, e3) = run-guard_ok (eqb (length roles) (length dto.role_ids)) _ _ w e2 in
      let (code_free, e4) = run-guard_ok (not (Provision.code_used w s.code)) _ _ w e3 in
      let body = run-transaction_ok (Provision.provisioning pf actor s id roles dto.items) w e4 in
      let (stored, routes_counted, menus_counted) = provisioning_ok s id roles dto.items w body in
      record {
        service = s;
        registered = registered;
        first_time = ground arith;
        roles_active = roles_active;
        code_free = ground arith;
        stored = stored;
        routes_counted = routes_counted;
        menus_counted = menus_counted;
      }
