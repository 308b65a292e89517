-- ===== src/Tests/Administration.antt =====
-- The administration of roles, at a concrete state.
use master_gateway_auth.Prelude.{
  String, true, false, some, ◌≡◌, ◌∙◌, sym, refl, inl, inr, arith, Bool-cases, ◌==◌, eq_iff,
}
use mathlib.Core.Bool.{false≢true}
use master_gateway_auth.Prog.{ok, run}
use master_gateway_auth.Db.{Role, Permission, World}
use master_gateway_auth.Roles
use master_gateway_auth.Roles.Protected.{HasUniqueRoles, protected_view, perform-spares_protected}
use master_gateway_auth.Roles.Delegation.{IsAllowed, change, permission_changes-IsAllowed}
use master_gateway_auth.Tests.Sample.{platform}
use master_gateway_auth.Tests.State.{world, manager}

apart : (s t id : String) → (s == id) ≡ true → (t == id) ≡ true → (s == t) ≡ false → ⊥
apart s t id a b other =
    false≢true (sym other ∙ (eq_iff s t).1 ((eq_iff s id).0 a ∙ sym ((eq_iff t id).0 b)))

pub world-HasUniqueRoles : HasUniqueRoles world
world-HasUniqueRoles id = elim (Bool-cases ("r0" == id)) [
  | inl a ↦ elim (Bool-cases ("r1" == id)) [
    | inl b ↦ absurd (apart "r0" "r1" id a b refl)
    | inr b ↦ elim (Bool-cases ("r2" == id)) [
      | inl c ↦ absurd (apart "r0" "r2" id a c refl)
      | inr c ↦ rw (a, b, c) (omega arith)
    ]
  ]
  | inr a ↦ elim (Bool-cases ("r1" == id)) [
    | inl b ↦ elim (Bool-cases ("r2" == id)) [
      | inl c ↦ absurd (apart "r1" "r2" id b c refl)
      | inr c ↦ rw (a, b, c) (omega arith)
    ]
    | inr b ↦ elim (Bool-cases ("r2" == id)) [
      | inl c ↦ rw (a, b, c) (omega arith)
      | inr c ↦ rw (a, b, c) (omega arith)
    ]
  ]
]

perform-spares_protected_example :
    protected_view (run (Roles.perform platform manager (Roles.give_user "r0" "u1")) world).1
    ≡ protected_view world
perform-spares_protected_example =
    perform-spares_protected platform manager (Roles.give_user "r0" "u1") world world-HasUniqueRoles
      (λ e. cc)

-- The manager gives a permission of her own role to the clerks.
abbrev given : World
given = (run (Roles.assign_permission platform manager "r2" "p2") world).1

gives : run (change platform manager Roles.assign "r2" "p2") world ≡ (ok tt, given)
unfolding Roles.assign_permission Roles.can_mutate_role_permission Roles.upsert_link
gives = refl

permission_changes-IsAllowed_example :
    (target : Role) × (p : Permission) × (Roles.active_role world "r2" ≡ some target)
    × (Roles.active_permission world "p2" ≡ some p)
    × IsAllowed Roles.assign manager target p world world
permission_changes-IsAllowed_example =
    permission_changes-IsAllowed platform manager Roles.assign "r2" "p2" world given gives
