-- ===== src/Roles/Delegation.antt =====
-- roles.service.ts: who may change the permissions of a role.
use master_gateway_auth.Prelude.{
  String, true, false, some, ◌≡◌, ◌≢◌, refl, ◌∙◌, sym, subst, ◌⊎◌, inl, inr, arith, ◌==◌, eq_iff,
  Bool-cases,
}
use master_gateway_auth.Prog.{Prog, ok, run, ◌>>=◌}
use master_gateway_auth.Prog.Moves.{Moves, moves_rules}
use master_gateway_auth.Prog.Runs.{
  run-bind_ok, run-if_ok, run-if_true, run-if_false, run-guard_ok, run-guard_last, run-some_or_ok,
}
use master_gateway_auth.Db.{Role, Permission, World}
use master_gateway_auth.Platform.{Platform}
use master_gateway_auth.Roles

pub can_mutate_reads :
    (m : Roles.PermissionMutation) (a : Roles.Actor) (target : Role) (p : Permission)
    → Moves (λ (s s' : World). s' ≡ s) (Roles.can_mutate_role_permission m a target p)
unfolding Roles.can_mutate_role_permission
can_mutate_reads m a target p = search moves_rules depth 16

-- The actor's own right to make the change, where the actor is no SUPER_ADMIN.
pub record HasRight (m : Roles.PermissionMutation) (a : Roles.Actor) (target : Role)
    (p : Permission) (w : World) : Type 0 where
  pub ordinary_target : Roles.is_protected_super_admin_role target.name ≡ false
  pub has_required : Roles.has_permission w a.role_id (Roles.required_permission m) ≡ true
  pub has_code : Roles.has_permission w a.role_id p.code ≡ true
  pub delegable : Roles.may_delegate m p ≡ true

pub record IsAllowed (m : Roles.PermissionMutation) (a : Roles.Actor) (target : Role)
    (p : Permission) (w w' : World) : Type 0 where
  pub not_own : target.id ≢ a.role_id
  pub right : (a.role_name ≡ "SUPER_ADMIN") ⊎ HasRight m a target p w
  pub unchanged : w' ≡ w

pub can_mutate-IsAllowed :
    (m : Roles.PermissionMutation) (a : Roles.Actor) (target : Role) (p : Permission) (w : World)
    {u : Unit {0}} {w' : World}
    → run (Roles.can_mutate_role_permission m a target p) w ≡ (ok u, w')
    → IsAllowed m a target p w w'
unfolding Roles.can_mutate_role_permission
can_mutate-IsAllowed m a target p w e =
    let (b1, e1) = run-if_ok (target.id == a.role_id) _ _ w refl e in
    let not_own : target.id ≢ a.role_id = ground (arith, eq_iff target.id a.role_id) in
    elim (Bool-cases (Roles.is_super_admin_actor a)) [
      | inl super ↦
          let e2 = sym (run-if_true (Roles.is_super_admin_actor a) _ _ w super) ∙ e1 in
          record {
            not_own = not_own;
            right = inl ((eq_iff a.role_name "SUPER_ADMIN").0 super);
            unchanged = cc;
          }
      | inr ordinary ↦
          let e2 = sym (run-if_false (Roles.is_super_admin_actor a) _ _ w ordinary) ∙ e1 in
          let (b3, e3) =
            run-if_ok (Roles.is_protected_super_admin_role target.name) _ _ w refl e2 in
          let (b4, e4) =
            run-guard_ok (Roles.has_permission w a.role_id (Roles.required_permission m)) _ _ w
              e3 in
          let (b5, e5) = run-guard_ok (Roles.has_permission w a.role_id p.code) _ _ w e4 in
          let (b6, same) = run-guard_last (Roles.may_delegate m p) _ w e5 in
          record {
            not_own = not_own;
            right =
                inr (record {
                  ordinary_target = b3;
                  has_required = b4;
                  has_code = b5;
                  delegable = b6;
                });
            unchanged = same;
          }
    ]

pub plain_target :
    {m : Roles.PermissionMutation} {a : Roles.Actor} {target : Role} {p : Permission} {w w' : World}
    → IsAllowed m a target p w w'
    → Roles.is_super_admin_actor a ≡ false
    → Roles.is_protected_super_admin_role target.name ≡ false
plain_target {a} may plain = elim may.right [
  | inl super ↦ ground (arith, eq_iff a.role_name "SUPER_ADMIN")
  | inr right ↦ right.ordinary_target
]

-- `assignPermission` or `unassignPermission`
abbrev pub change :
    Platform → Roles.Actor → Roles.PermissionMutation → String → String → Prog World (Unit {0})
change pf a Roles.assign = Roles.assign_permission pf a
change pf a Roles.unassign = Roles.unassign_permission pf a

inverted :
    (a : Roles.Actor) (m : Roles.PermissionMutation) (role_id permission_id : String) (w : World)
    (k : Prog World (Unit {0})) {u : Unit {0}} {w' : World}
    → run
        (Roles.ensure_active_role role_id >>= λ target.
          Roles.ensure_active_permission permission_id >>= λ p.
          Roles.can_mutate_role_permission m a target p >>= λ _. k)
        w
      ≡ (ok u, w')
    → (target : Role) × (p : Permission) × (Roles.active_role w role_id ≡ some target)
      × (Roles.active_permission w permission_id ≡ some p)
      × IsAllowed m a target p w w
inverted a m role_id permission_id w k e =
    let (target, found, e1) = run-some_or_ok _ (Roles.active_role w role_id) _ w e in
    let (p, there, e2) = run-some_or_ok _ (Roles.active_permission w permission_id) _ w e1 in
    let (_, v, passed, e3) = run-bind_ok (Roles.can_mutate_role_permission m a target p) _ w e2 in
    let may = can_mutate-IsAllowed m a target p w passed in
    (target, p, found, there, subst (λ z. IsAllowed m a target p w z) may.unchanged may)

-- A permission is given to a role, or taken from it, only if the role is not the actor's own, and
-- the actor is SUPER_ADMIN or the role is not protected, the actor's role holds both the right to
-- change permissions in that way and the permission itself, and a permission that is given is
-- delegable.
pub permission_changes-IsAllowed :
    (pf : Platform) (a : Roles.Actor) (m : Roles.PermissionMutation)
    (role_id permission_id : String) (w w' : World)
    → run (change pf a m role_id permission_id) w ≡ (ok tt, w')
    → (target : Role) × (p : Permission) × (Roles.active_role w role_id ≡ some target)
      × (Roles.active_permission w permission_id ≡ some p)
      × IsAllowed m a target p w w
unfolding Roles.assign_permission Roles.unassign_permission
permission_changes-IsAllowed pf a Roles.assign role_id permission_id w w' e =
    inverted a Roles.assign role_id permission_id w _ e
permission_changes-IsAllowed pf a Roles.unassign role_id permission_id w w' e =
    inverted a Roles.unassign role_id permission_id w _ e
