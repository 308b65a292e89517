-- ===== src/Users/Password.antt =====
-- users.service.ts and auth.service.ts: a password that `update` sets, and a login with it.
use mathlib.Core.Option
use master_gateway_auth.Prelude.{
  ◌+◌, String, Bool, true, false, not, ◌&&◌, Option, some, List, [], ◌∷◌, ◌≡◌, refl, sym, ◌∙◌, ap,
  subst, ◌==◌, eq_iff, if◌then◌else◌, any, find, update_where, All, All-find, All-update_where,
}
use master_gateway_auth.Prog.{Prog, ok, run, atomic, guard, some_or, database, ◌>>=◌, ◌>>◌}
use master_gateway_auth.Prog.Moves.{Moves-some_or}
use master_gateway_auth.Prog.Runs.{run-some_or_ok, run-reads}
use master_gateway_auth.Db.{is_active, User, World}
use master_gateway_auth.Platform.{Platform, Hashes}
use master_gateway_auth.Auth.Login
use master_gateway_auth.Auth.Login.Roles.{answer, login-eq-answer}
use master_gateway_auth.Users

trivially : (us : List User) → All (λ u. Unit {0}) us
trivially [] = tt
trivially (u ∷ us) = (tt, trivially us)

-- The rows of the id have the hash.
abbrev pub HasHash : String → String → User → Type 0
HasHash id hash u = (u.id == id) ≡ true → u.password_hash ≡ hash

updated-HasHash :
    (id actor hash : String) (dto : Users.UpdateUserDto) (us : List User)
    → All
        (HasHash id hash)
        (update_where (λ u. u.id == id) (Users.apply_update dto (some hash) actor) us)
updated-HasHash id actor hash dto us =
    All-update_where (λ u. Unit {0}) (HasHash id hash) (λ u. u.id == id)
      (Users.apply_update dto (some hash) actor) us (λ u h hit e. refl) (λ u h miss e. cc)
      (trivially us)

module _ (pf : Platform) (id actor password : String) (dto : Users.UpdateUserDto)
    (w w' : World) where
  -- The hash that is stored.
  abbrev new_hash : String
  new_hash = pf.argon_hash w.draws password

  written :
      (clash : Bool) (v : World) (o : Option Login.SafeUser) (u : Login.SafeUser)
      → All (HasHash id new_hash) v.users
      → run
          (guard (not clash) (database "P2002") >> some_or (database "P2025") o)
          (if clash then record w { draws = w.draws + 1 } else v)
        ≡ (ok u, w')
      → All (HasHash id new_hash) w'.users
  written true v o u h e = cc
  written false v o u h e =
      let same : w' ≡ v =
        ap (λ r. r.1) (sym e) ∙ run-reads (Moves-some_or (database "P2025") o) v in
      subst (λ x. All (HasHash id new_hash) x.users) (sym same) h

  update_ok :
      (u : Login.SafeUser)
      → dto.password ≡ some password
      → run (Users.update pf id dto actor) w ≡ (ok u, w')
      → All (HasHash id new_hash) w'.users
  unfolding Users.update
  update_ok u given e =
      let store : Option String → Prog World Login.SafeUser = λ hash.
        atomic (Users.update_row id dto hash actor) λ v.
          guard (not (any (Users.moves_onto id dto) v.users)) (database "P2002")
          >> some_or (database "P2025") (
              Option.map Login.omit_password
                (find (λ u. u.id == id) (Users.update_row id dto hash actor v).users)) in
      let (found, there, e1) = run-some_or_ok _ (Users.active_user w id) _ w e in
      let e2 = subst (λ o. run (Users.hash_given pf o >>= store) w ≡ (ok u, w')) given e1 in
      written (any (Users.moves_onto id dto) w.users) _ _ u
        (updated-HasHash id actor new_hash dto w.users) e2

-- After an update that gives the user a new password, whoever made it and whatever the roles of the
-- user are, a login with that password succeeds, if the user is the first active one of the email: the
-- answer is for the user and offers all the user's roles.
pub updated-login :
    (pf : Platform) (id actor password email : String) (dto : Users.UpdateUserDto) (w w' : World)
    (u : Login.SafeUser) (row : User)
    → Hashes pf
    → dto.password ≡ some password
    → run (Users.update pf id dto actor) w ≡ (ok u, w')
    → Login.user_by_email w' email ≡ some row
    → row.id ≡ id
    → run (Login.login pf (record { email = email; password = password })) w'
      ≡ (ok (answer pf w' row), record w' { draws = w'.draws + 1 })
updated-login pf id actor password email dto w w' u row laws given e found own =
    let hashes = update_ok pf id actor password dto w w' u given e in
    let test = λ (v : User). v.email == email && is_active v.estado in
    let (kept, hit) =
      All-find (HasHash id (pf.argon_hash w.draws password)) test w'.users hashes found in
    let hash : row.password_hash ≡ pf.argon_hash w.draws password =
      kept ((eq_iff row.id id).1 own) in
    login-eq-answer pf (record { email = email; password = password }) w' row found
      (ap (λ h. pf.argon_verify h password) hash ∙ laws.verify_hash w.draws password)
