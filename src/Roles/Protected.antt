-- ===== src/Roles/Protected.antt =====
-- roles.service.ts: the roles SUPER_ADMIN and SUPERADMIN are out of reach for everybody else.
mod Views
pub use Views.{
  is_protected, among, links_among, View, view_with, protected_view, HasUniqueRoles, Spares,
  Spares-guard, Spares-guard_last, Spares-write, Spares-some_or, view-roles, is_link-role,
  link_free, links-set_estado, links-upsert, links-deactivate, view-with_links,
}
use master_gateway_auth.Prelude.{
  ℕ, ◌+◌, ◌≤◌, String, Bool, true, false, not, ◌||◌, Option, none, some, List, ◌≡◌, ◌≢◌, refl, sym,
  ◌∙◌, ap, subst, inl, inr, arith, ◌==◌, eq_iff, eqb, Bool-cases, select, any, count_where,
  update_where, none_both, unique_found, select-update_where, select-concat, or_else,
}
use master_gateway_auth.Prog.{Prog, Result, ok, err, atomic, run, guard, some_or, Failure, ◌>>=◌}
use master_gateway_auth.Db.{
  Estado, is_active, Role, RoleLink, World, activo, inactivo, Permission, user_is_active,
}
use master_gateway_auth.Platform.{Platform}
use master_gateway_auth.Roles
use master_gateway_auth.Roles.Delegation.{can_mutate_reads, can_mutate-IsAllowed, plain_target}
use master_gateway_auth.Prog.Runs.{continue, run-bind, run-reads}

module _ (pf : Platform) (a : Roles.Actor) (w : World) (unique : HasUniqueRoles w)
    (plain : Roles.is_super_admin_actor a ≡ false) where
  -- The role that an operation works on is not protected, and neither is its id.
  target_free :
      (id : String) (r : Role)
      → Roles.active_role w id ≡ some r
      → (not (is_protected r) || Roles.is_super_admin_actor a) ≡ true
      → among (select is_protected w.roles) id ≡ false
  target_free id r found may =
      unique_found (λ x. x.id == id) (λ x. is_active x.estado) is_protected w.roles (unique id)
        found (ground arith)

  -- An operation on a role that checks that it is not protected.
  Spares-target :
      {B : Type 0} (id : String) (k : Role → Prog World B)
      → ((r : Role) → among (select is_protected w.roles) id ≡ false → Spares (k r) w)
      → Spares
          (Roles.ensure_active_role id >>= λ r. Roles.can_manage_protected_role r a >>= λ _. k r)
          w
  Spares-target id k h = Spares-some_or _ (Roles.active_role w id) _ w λ r found.
      Spares-guard (not (is_protected r) || Roles.is_super_admin_actor a) _ (k r) w
        λ may. h r (target_free id r found may)

  Spares-upsert :
      (table : Roles.LinkTable) (role_id target_id : String)
      → among (select is_protected w.roles) role_id ≡ false
      → Spares (Roles.upsert pf table role_id target_id a.id) w
  Spares-upsert table role_id target_id free = view-with_links table w (w.draws + 1) _ (
      links-upsert (select is_protected w.roles) role_id target_id a.id free (pf.uuid w.draws)
        (Roles.links table w))

  Spares-deactivate :
      (table : Roles.LinkTable) (role_id target_id : String)
      → among (select is_protected w.roles) role_id ≡ false
      → Spares (Roles.deactivate table role_id target_id a.id) w
  Spares-deactivate table role_id target_id free =
      Spares-write
        (λ v.
          Roles.with_links table
            (Roles.deactivate_link role_id target_id a.id (Roles.links table v)) v)
        (λ v. any (Roles.is_link role_id target_id) (Roles.links table v)) (Roles.database "P2025")
        w
        (view-with_links table w w.draws _ (
          links-deactivate (select is_protected w.roles) role_id target_id a.id free
            (Roles.links table w)))

  -- The rows of one id change, and are not protected before or after.
  view-update_where :
      (id : String) (f : Role → Role)
      → ((r : Role) → is_protected r ≡ false → is_protected (f r) ≡ false)
      → among (select is_protected w.roles) id ≡ false
      → protected_view (record w { roles = update_where (λ r. r.id == id) f w.roles })
        ≡ protected_view w
  view-update_where id f same free =
      ap (λ rs. view_with rs w)
        (select-update_where (λ r. r.id == id) is_protected f w.roles (λ r hit. same r) free)

  view-update_row :
      (id : String) (dto : Roles.UpdateRoleDto)
      → among (select is_protected w.roles) id ≡ false
      → ((r : Role)
          → is_protected r ≡ false
          → Roles.is_protected_super_admin_role (or_else dto.name r.name) ≡ false)
      → protected_view (Roles.update_row id dto a.id w) ≡ protected_view w
  view-update_row id dto free same = elim (Bool-cases (any (Roles.renames_onto id dto) w.roles)) [
    | inl clash ↦ rw clash refl
    | inr alone ↦ rw alone (view-update_where id (Roles.apply_update dto a.id) same free)
  ]

  view-insert :
      (r : Role)
      → is_protected r ≡ false
      → protected_view (Roles.insert_role r w) ≡ protected_view w
  view-insert r out = elim (Bool-cases (Roles.name_taken w r.name)) [
    | inl clash ↦ rw clash refl
    | inr alone ↦ rw alone (ap (λ rs. view_with rs w) (select-concat is_protected w.roles r out))
  ]

  named_plain :
      (o : Option String) (name : String)
      → (not (Roles.is_protected_name o) || Roles.is_super_admin_actor a) ≡ true
      → Roles.is_protected_super_admin_role name ≡ false
      → Roles.is_protected_super_admin_role (or_else o name) ≡ false
  named_plain none name may h = h
  named_plain (some n) name may h = elim (Bool-cases (n == "")) [
    | inl empty ↦
        subst (λ m. Roles.is_protected_super_admin_role m ≡ false) (sym ((eq_iff n "").0 empty))
          refl
    | inr given ↦ ground arith
  ]

  Spares-create : (dto : Roles.CreateRoleDto) → Spares (Roles.create pf a dto) w
  unfolding Roles.create
  Spares-create dto =
      Spares-guard (not (Roles.is_protected_name (some dto.name)) || Roles.is_super_admin_actor a) _
        _ w
        λ may. Spares-guard (not (Roles.name_taken w dto.name)) _ _ w λ free.
          Spares-write (λ v. Roles.insert_role (Roles.new_role (pf.uuid v.draws) dto a.id) v)
            (λ v. not (Roles.name_taken v dto.name)) (Roles.database "P2002") w
            (view-insert (Roles.new_role (pf.uuid w.draws) dto a.id)
              (named_plain (some dto.name) "" may refl))

  Spares-update : (id : String) (dto : Roles.UpdateRoleDto) → Spares (Roles.update pf a id dto) w
  unfolding Roles.update
  Spares-update id dto = Spares-target id _ λ r free.
      Spares-guard (not (Roles.is_protected_name dto.name) || Roles.is_super_admin_actor a) _ _ w
        λ may.
          Spares-write (Roles.update_row id dto a.id)
            (λ v. not (any (Roles.renames_onto id dto) v.roles)) (Roles.database "P2002") w
            (view-update_row id dto free (λ x h. named_plain dto.name x.name may h))

  Spares-remove : (id : String) → Spares (Roles.remove pf a id) w
  unfolding Roles.remove
  Spares-remove id = Spares-target id _ λ r free.
      Spares-guard (eqb (Roles.active_assignments id w) 0) _ _ w
        λ none'. view-update_where id _ (λ x h. h) free

  Spares-assign_user :
      (role_id user_id : String) → Spares (Roles.assign_user pf a role_id user_id) w
  unfolding Roles.assign_user
  Spares-assign_user role_id user_id = Spares-target role_id _ λ r free.
      Spares-guard
        (not (Roles.is_privileged_user_assignment_role r.name) || Roles.is_super_admin_actor a) _ _
        w
        λ may.
          Spares-guard (user_is_active w user_id) _ _ w
            λ _. Spares-upsert Roles.user_table role_id user_id free

  Spares-unassign_user :
      (role_id user_id : String) → Spares (Roles.unassign_user pf a role_id user_id) w
  unfolding Roles.unassign_user
  Spares-unassign_user role_id user_id = Spares-target role_id _ λ r free.
      Spares-guard
        (not (Roles.is_privileged_user_assignment_role r.name) || Roles.is_super_admin_actor a) _ _
        w
        λ may.
          Spares-guard (user_is_active w user_id) _ _ w
            λ _. Spares-deactivate Roles.user_table role_id user_id free

  Spares-assign_target :
      (table : Roles.LinkTable) (message role_id target_id : String)
      → Spares (Roles.assign_target pf a table message role_id target_id) w
  Spares-assign_target table message role_id target_id = Spares-target role_id _ λ r free.
      Spares-guard (Roles.target_is_active table w target_id) _ _ w
        λ _. Spares-upsert table role_id target_id free

  Spares-unassign_target :
      (table : Roles.LinkTable) (message role_id target_id : String)
      → Spares (Roles.unassign_target pf a table message role_id target_id) w
  Spares-unassign_target table message role_id target_id = Spares-target role_id _ λ r free.
      Spares-guard (Roles.target_is_active table w target_id) _ _ w
        λ _. Spares-deactivate table role_id target_id free

  -- The checks of a permission change only read, and pass only for a role that is not protected.
  Spares-can_mutate :
      {B : Type 0} (m : Roles.PermissionMutation) (id : String) (target : Role) (p : Permission)
      (k : Prog World B)
      → Roles.active_role w id ≡ some target
      → (among (select is_protected w.roles) id ≡ false → Spares k w)
      → Spares (Roles.can_mutate_role_permission m a target p >>= λ _. k) w
  Spares-can_mutate m id target p k found h =
      subst (λ r. protected_view r.1 ≡ protected_view w)
        (sym (run-bind (Roles.can_mutate_role_permission m a target p) (λ _. k) w))
        (checked (run (Roles.can_mutate_role_permission m a target p) w) refl)
    where
      checked :
          (r : Result (Unit {0}) × World)
          → run (Roles.can_mutate_role_permission m a target p) w ≡ r
          → protected_view (continue r (λ _. k)).1 ≡ protected_view w
      checked (err x, v) e =
          ap protected_view (ap (λ r. r.1) (sym e) ∙ run-reads (can_mutate_reads m a target p) w)
      checked (ok u, v) e =
          let may = can_mutate-IsAllowed m a target p w e in
          subst (λ z. protected_view (run k z).1 ≡ protected_view w) (sym may.unchanged)
            (h (
              unique_found (λ x. x.id == id) (λ x. is_active x.estado) is_protected w.roles
                (unique id) found (plain_target may plain)))

  Spares-assign_permission :
      (role_id permission_id : String)
      → Spares (Roles.assign_permission pf a role_id permission_id) w
  unfolding Roles.assign_permission
  Spares-assign_permission role_id permission_id =
      Spares-some_or _ (Roles.active_role w role_id) _ w λ r found.
        Spares-some_or _ (Roles.active_permission w permission_id) _ w λ p _.
          Spares-can_mutate Roles.assign role_id r p _ found
            λ free. Spares-upsert Roles.permission_table role_id permission_id free

  Spares-unassign_permission :
      (role_id permission_id : String)
      → Spares (Roles.unassign_permission pf a role_id permission_id) w
  unfolding Roles.unassign_permission
  Spares-unassign_permission role_id permission_id =
      Spares-some_or _ (Roles.active_role w role_id) _ w λ r found.
        Spares-some_or _ (Roles.active_permission w permission_id) _ w λ p _.
          Spares-can_mutate Roles.unassign role_id r p _ found
            λ free. Spares-deactivate Roles.permission_table role_id permission_id free

-- Whoever is not SUPER_ADMIN leaves the protected roles as they are, whichever operation of the
-- service is called, and whether it succeeds or fails: the rows of the roles named SUPER_ADMIN or
-- SUPERADMIN and all their assignments of users, modules, menus and permissions are the same, and no
-- role becomes protected. The ids of roles are unique.
pub perform-spares_protected :
    (pf : Platform) (a : Roles.Actor) (op : Roles.Operation) (w : World)
    → HasUniqueRoles w
    → a.role_name ≢ "SUPER_ADMIN"
    → protected_view (run (Roles.perform pf a op) w).1 ≡ protected_view w
unfolding Roles.perform Roles.assign_module Roles.assign_menu Roles.unassign_module
    Roles.unassign_menu
perform-spares_protected pf a op w unique ordinary = cases op
  where
    plain : Roles.is_super_admin_actor a ≡ false
    plain = ground (arith, eq_iff a.role_name "SUPER_ADMIN")

    cases : (o : Roles.Operation) → Spares (Roles.perform pf a o) w
    cases (Roles.create_role dto) = Spares-create pf a w unique plain dto
    cases (Roles.update_role id dto) = Spares-update pf a w unique plain id dto
    cases (Roles.remove_role id) = Spares-remove pf a w unique plain id
    cases (Roles.give_user r u) = Spares-assign_user pf a w unique plain r u
    cases (Roles.take_user r u) = Spares-unassign_user pf a w unique plain r u
    cases (Roles.give_module r m) =
        Spares-assign_target pf a w unique plain Roles.module_table "Modulo no encontrado" r m
    cases (Roles.take_module r m) =
        Spares-unassign_target pf a w unique plain Roles.module_table "Modulo no encontrado" r m
    cases (Roles.give_menu r m) =
        Spares-assign_target pf a w unique plain Roles.menu_table "Menu no encontrado" r m
    cases (Roles.take_menu r m) =
        Spares-unassign_target pf a w unique plain Roles.menu_table "Menu no encontrado" r m
    cases (Roles.give_permission r p) = Spares-assign_permission pf a w unique plain r p
    cases (Roles.take_permission r p) = Spares-unassign_permission pf a w unique plain r p
