-- ===== src/Permissions/Removal.antt =====
-- permissions.service.ts and auth.service.ts: a removed permission is in no new session.
use master_gateway_auth.Prelude.{
  String, Bool, false, ◌&&◌, Option, none, some, List, [], ◌∷◌, ◌≡◌, refl, sym, ◌∙◌, ap, inl, inr,
  arith, ◌==◌, eq_iff, find, any, update_where, includes, All, Bool-cases,
}
use master_gateway_auth.Prog.{ok, run, some_or, Failure, database}
use master_gateway_auth.Prog.Runs.{run-some_or_ok}
use master_gateway_auth.Db.{is_active, Permission, RoleLink, World}
use master_gateway_auth.Auth.Session.{permissions_in}
use master_gateway_auth.Auth.Session.Permissions.{
  has_code, is_granted, permissions_in-eq-is_granted,
}
use master_gateway_auth.Permissions

-- `code` is a unique column: the code belongs to the row `id`.
abbrev pub IsCodeOf : String → String → Permission → Type 0
IsCodeOf code id p = p.code ≡ code → p.id ≡ id

after_some_or :
    {A : Type 0} (e : Failure) (o : Option A) (w : World) {a : A} {w' : World}
    → run (some_or e o) w ≡ (ok a, w')
    → w' ≡ w
after_some_or e none w h = cc
after_some_or e (some a) w h = sym (ap (λ r. r.1) h)

remove_ok :
    (id : String) (w w' : World) (q : Permission)
    → run (Permissions.remove id) w ≡ (ok q, w')
    → w' ≡ Permissions.without id w
unfolding Permissions.remove
remove_ok id w w' q e =
    let (p, found, e1) = run-some_or_ok _ (Permissions.active_permission w id) _ w e in
    after_some_or (database "P2025") (find (λ x. x.id == id) (Permissions.without id w).permissions)
      (Permissions.without id w) e1

no_holder :
    (id code target : String) (ps : List Permission)
    → All (IsCodeOf code id) ps
    → any
        (λ p. p.id == target && has_code code p)
        (update_where (λ p. p.id == id) Permissions.retire ps)
      ≡ false
no_holder id code target [] h = refl
no_holder id code target (p ∷ ps) (own, h) = elim (Bool-cases (p.id == id)) [
  | inl hit ↦ rw hit (ground (arith, no_holder id code target ps h))
  | inr miss ↦
      let other : (code == p.code) ≡ false = ground (arith, eq_iff code p.code, eq_iff p.id id) in
      rw miss (ground (arith, no_holder id code target ps h))
]

no_link :
    (role_id : String) (t : RoleLink → Bool) (ls : List RoleLink)
    → ((l : RoleLink) → t l ≡ false)
    → any (λ l. l.role_id == role_id && is_active l.estado && t l) ls ≡ false
no_link role_id t [] h = refl
no_link role_id t (l ∷ ls) h = ground (arith, h l, no_link role_id t ls h)

-- After a permission was removed, no session that is issued for any role carries its code, whatever
-- the assignments, if the code belongs to no other row.
pub removed-permissions_in :
    (id role_id code : String) (w w' : World) (q : Permission)
    → run (Permissions.remove id) w ≡ (ok q, w')
    → All (IsCodeOf code id) w.permissions
    → includes code (permissions_in w' role_id) ≡ false
removed-permissions_in id role_id code w w' q e unique =
    permissions_in-eq-is_granted w' role_id code
    ∙ ap (λ v. is_granted v role_id code) (remove_ok id w w' q e)
    ∙ no_link role_id
        (λ l.
          any (λ p. p.id == l.target_id && has_code code p) (Permissions.without id w).permissions)
        w.role_permissions (λ l. no_holder id code l.target_id w.permissions unique)
