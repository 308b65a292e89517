-- ===== src/Users/Removal.antt =====
-- users.service.ts: what the removal of a user takes away, from the service itself and from
-- authentication.
use master_gateway_auth.Prelude.{
  String, false, not, ◌&&◌, List, ◌≡◌, ◌≢◌, refl, sym, subst, inl, inr, arith, ◌==◌, eq_iff, any,
  select, update_where, any-update_none, others_kept, Bool-cases,
}
use master_gateway_auth.Prog.{ok, run}
use master_gateway_auth.Prog.Runs.{run-some_or_ok, run-guard_ok, run-guard_last, run-transaction_ok}
use master_gateway_auth.Db.{is_active, User, World}
use master_gateway_auth.Users

-- The state after the removal.
abbrev pub removed : String → String → World → World
removed id actor w = record w {
  refresh_tokens =
      update_where (Users.own_token id) (Users.revoke_token w.clock actor) w.refresh_tokens;
  user_roles = update_where (Users.own_assignment id) (Users.retire_link actor) w.user_roles;
  users = update_where (λ u. u.id == id) (Users.retire_user actor) w.users;
}

pub remove_ok :
    (id actor : String) (w w' : World)
    → run (Users.remove id actor) w ≡ (ok tt, w')
    → (id ≢ actor) × (w' ≡ removed id actor w)
unfolding Users.remove
remove_ok id actor w w' e =
    let (u, found, e1) = run-some_or_ok _ (Users.active_user w id) _ w e in
    let (b2, e2) = run-guard_ok (not (id == actor)) _ _ w e1 in
    let e3 = run-transaction_ok (Users.removal id actor w.clock) w e2 in
    let (b4, same) = run-guard_last (any (λ u. u.id == id) w.users) _ (removed id actor w) e3 in
    (ground (arith, eq_iff id actor), same)

-- The user, the assignments and the tokens that are left to the user are inactive; those of the
-- others are as they were.
pub record IsRemoved (id : String) (w w' : World) : Type 0 where
  pub no_user : any (λ u. u.id == id && is_active u.estado) w'.users ≡ false
  pub no_assignment : any (Users.own_assignment id) w'.user_roles ≡ false
  pub no_token : any (Users.own_token id) w'.refresh_tokens ≡ false
  pub other_users : select (λ u. not (u.id == id)) w'.users ≡ select (λ u. not (u.id == id)) w.users
  pub other_assignments :
      select (λ l. not (l.target_id == id)) w'.user_roles
      ≡ select (λ l. not (l.target_id == id)) w.user_roles
  pub other_tokens :
      select (λ t. not (t.user_id == id)) w'.refresh_tokens
      ≡ select (λ t. not (t.user_id == id)) w.refresh_tokens

users_inactive :
    (id actor : String) (us : List User)
    → any
        (λ u. u.id == id && is_active u.estado)
        (update_where (λ u. u.id == id) (Users.retire_user actor) us)
      ≡ false
users_inactive id actor List.[] = refl
users_inactive id actor (List.◌∷◌ u us) = elim (Bool-cases (u.id == id)) [
  | inl hit ↦ rw (hit, hit) (users_inactive id actor us)
  | inr miss ↦ rw (miss, miss) (users_inactive id actor us)
]

-- A user is removed only by another one. Afterwards the user is inactive, and so are all the user's
-- assignments and refresh tokens; the users, assignments and tokens of others are as they were.
pub remove-IsRemoved :
    (id actor : String) (w w' : World)
    → run (Users.remove id actor) w ≡ (ok tt, w')
    → (id ≢ actor) × IsRemoved id w w'
remove-IsRemoved id actor w w' e =
    let (other, same) = remove_ok id actor w w' e in
    (
      other,
      subst (λ v. IsRemoved id w v) (sym same)
          (record {
            no_user = users_inactive id actor w.users;
            no_assignment =
                any-update_none (Users.own_assignment id) (Users.retire_link actor) w.user_roles
                  (λ l h. ground arith);
            no_token =
                any-update_none (Users.own_token id) (Users.revoke_token w.clock actor)
                  w.refresh_tokens (λ t h. ground arith);
            other_users =
                others_kept (λ u. u.id == id) (λ u. u.id == id) (Users.retire_user actor) w.users
                  (λ u h. h) (λ u. refl);
            other_assignments =
                others_kept (λ l. l.target_id == id) (Users.own_assignment id)
                  (Users.retire_link actor) w.user_roles (λ l h. ground arith) (λ l. refl);
            other_tokens =
                others_kept (λ t. t.user_id == id) (Users.own_token id)
                  (Users.revoke_token w.clock actor) w.refresh_tokens (λ t h. ground arith)
                  (λ t. refl);
          }),
    )
