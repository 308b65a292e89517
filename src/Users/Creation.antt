-- ===== src/Users/Creation.antt =====
-- users.service.ts: what the creation of a user stores, and that the user can log in with it.
use master_gateway_auth.Prelude.{
  ◌+◌, String, true, false, not, ◌&&◌, none, some, [], ◌∷◌, ◌++◌, ◌≡◌, refl, sym, ◌∙◌, ap, subst,
  arith, ◌==◌, eq_iff, if◌then◌else◌, find, find_of_none, find-concat, find-holds, find-Within,
  Within, any, ◌⊎◌, inl, inr,
}
use master_gateway_auth.Prog.{Failure, Result, ok, err, run, ret, lift, after, ◌>>=◌}
use master_gateway_auth.Prog.Runs.{run-some_or_ok, run-guard_ok}
use master_gateway_auth.Db.{is_active, User, Role, World}
use master_gateway_auth.Platform.{Platform, Hashes}
use master_gateway_auth.Roles
use master_gateway_auth.Roles.Links.{is_linked, upsert-linked}
use master_gateway_auth.Auth.Login
use master_gateway_auth.Auth.Login.Roles.{answer, login-eq-answer}
use master_gateway_auth.Prog.Outcomes.{ok-eq, err-ne-ok, outcome-eq, outcome-guard}
use master_gateway_auth.Users

module _ (pf : Platform) (dto : Users.CreateUserDto) (actor : String) (w : World) where
  -- The row of the next draws, and the state with it and with its assignment to the default role.
  abbrev pub created : User
  created = Users.new_user pf dto actor w.draws (w.draws + 1)

  abbrev pub world_created : Role → World
  world_created role = record w {
    users = w.users ++ created ∷ [];
    user_roles =
        Roles.upsert_link (pf.uuid (w.draws + 1 + 1)) role.id created.id actor w.user_roles;
    draws = w.draws + 1 + 1 + 1;
  }

pub record IsCreated (pf : Platform) (dto : Users.CreateUserDto) (actor : String) (w w' : World)
    (u : Login.SafeUser) : Type 0 where
  pub free : any (λ x. x.email == dto.email) w.users ≡ false
  pub role : Role
  pub role_stored : Within role w.roles
  pub role_name : role.name ≡ "USER"
  pub role_active : is_active role.estado ≡ true
  pub answer : u ≡ Login.omit_password (created pf dto actor w)
  pub after : w' ≡ world_created pf dto actor w role
  pub linked : is_linked role.id (created pf dto actor w).id w'.user_roles ≡ true

module _ (pf : Platform) (dto : Users.CreateUserDto) (actor : String) (w w' : World) where
  with_user :
      Users.email_taken w dto.email ≡ false
      → (if Users.email_taken w dto.email
          then record w { draws = w.draws + 1 + 1 }
          else record w { users = w.users ++ created pf dto actor w ∷ []; draws = w.draws + 1 + 1 })
        ≡ record w { users = w.users ++ created pf dto actor w ∷ []; draws = w.draws + 1 + 1 }
  with_user free = rw free refl

  creation_ok :
      (c : User)
      → Users.email_taken w dto.email ≡ false
      → run (Users.creation pf dto actor) w ≡ (ok c, w')
      → (role : Role) × (Users.default_role w ≡ some role)
        × (c ≡ created pf dto actor w)
        × (w' ≡ world_created pf dto actor w role)
  creation_ok c free e =
      let (b1, e1) = run-guard_ok (not (Users.email_taken w dto.email)) _ _ _ e in
      let e2 =
        subst (λ v. run (Users.give_default_role pf actor (created pf dto actor w)) v ≡ (ok c, w'))
          (with_user free) e1 in
      let (role, found, e3) = run-some_or_ok _ (Users.default_role w) _ _ e2 in
      (role, found, ok-eq (sym (ap (λ r. r.0) e3)), sym (ap (λ r. r.1) e3))

module _ (pf : Platform) (dto : Users.CreateUserDto) (actor : String) (w : World) where
  -- A run that fails and leaves every table as it was, or one that succeeds with a new user.
  abbrev pub CreateOutcome : Result Login.SafeUser × World → Type 0
  CreateOutcome x =
      ((e : Failure) × (x ≡ (err e, w)))
      ⊎ ((u : Login.SafeUser) × (w' : World) × (x ≡ (ok u, w')) × IsCreated pf dto actor w w' u)

  -- What the transaction makes of the outcome of its body.
  transacted :
      (r : Result User × World)
      → run (Users.creation pf dto actor) w ≡ r
      → Users.email_taken w dto.email ≡ false
      → CreateOutcome (run (lift r.0 >>= λ u. ret (Login.omit_password u)) (after r w))
  transacted (err x, v) e free = inl (x, refl)
  transacted (ok c, v) e free =
      let (role, found, is_new, stored) = creation_ok pf dto actor w v c free e in
      let test = λ (r : Role). r.name == "USER" && is_active r.estado in
      let hit = find-holds test w.roles found in
      inr (
        Login.omit_password c,
        v,
        refl,
        record {
          free = free;
          role = role;
          role_stored = find-Within test w.roles found;
          role_name = (eq_iff role.name "USER").0 (ground arith);
          role_active = ground arith;
          answer = ap Login.omit_password is_new;
          after = stored;
          linked =
              subst (λ x. is_linked role.id (created pf dto actor w).id x.user_roles ≡ true)
                (sym stored)
                (upsert-linked role.id (created pf dto actor w).id actor (pf.uuid (w.draws + 1 + 1))
                  w.user_roles);
        },
      )

  -- The creation of a user is all or nothing. A run that fails leaves every table as it was, also
  -- where the row of the user was written before the failure. A run that succeeds had a free email,
  -- whatever the state of the rows, and an active role USER; it has stored the user and an active
  -- assignment to that role, and nothing else, and its answer is the row without its hash.
  pub create-IsCreated : CreateOutcome (run (Users.create pf dto actor) w)
  unfolding Users.create
  create-IsCreated =
      outcome-guard CreateOutcome (not (Users.email_taken w dto.email)) _ _ w (inl (_, refl))
        λ free. transacted (run (Users.creation pf dto actor) w) refl (ground arith)

  create_ok :
      (w' : World) (u : Login.SafeUser)
      → run (Users.create pf dto actor) w ≡ (ok u, w')
      → IsCreated pf dto actor w w' u
  create_ok w' u e = elim create-IsCreated [
    | inl (x, failed) ↦ absurd (err-ne-ok (ap (λ r. r.0) (sym failed ∙ e)))
    | inr (u', v, done, h) ↦
        let (same, after') = outcome-eq (sym done ∙ e) in
        subst (λ y. IsCreated pf dto actor w w' y) (sym same)
          (subst (λ x. IsCreated pf dto actor w x u') (sym after') h)
  ]

-- A user who was created can log in with the email and the password of the creation, right after it:
-- the answer is for the new user.
pub created-login :
    (pf : Platform) (dto : Users.CreateUserDto) (actor : String) (w w' : World) (u : Login.SafeUser)
    → Hashes pf
    → run (Users.create pf dto actor) w ≡ (ok u, w')
    → run (Login.login pf (record { email = dto.email; password = dto.password })) w'
      ≡ (ok (answer pf w' (created pf dto actor w)), record w' { draws = w'.draws + 1 })
created-login pf dto actor w w' u laws e =
    let c = create_ok pf dto actor w w' u e in
    let new = created pf dto actor w in
    let test = λ (v : User). v.email == dto.email && is_active v.estado in
    let none_before : find test w.users ≡ none =
      find_of_none (λ v. v.email == dto.email) test w.users c.free (λ v h. ground arith) in
    let found : Login.user_by_email (world_created pf dto actor w c.role) dto.email ≡ some new =
      find-concat test w.users new none_before (rw ((eq_iff dto.email dto.email).1 refl) refl) in
    login-eq-answer pf (record { email = dto.email; password = dto.password }) w' new
      (subst (λ v. Login.user_by_email v dto.email ≡ some new) (sym c.after) found)
      (laws.verify_hash w.draws dto.password)
