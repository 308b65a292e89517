-- ===== src/Auth/Login/Roles.antt =====
-- auth.service.ts: what a login and the choice of a role have established when they succeed.
use mathlib.Core.Bool.{false≢true}
use mathlib.Core.Option
use master_gateway_auth.Prelude.{
  ◌+◌, String, Bool, true, false, not, Option, none, some, List, [], ◌∷◌, ◌≡◌, refl, inl, inr, sym,
  ◌∙◌, ap, subst, Bool-cases, Option-cases, select, All, All-append, Within, find-holds,
  find-Within, any, arith, ◌&&◌, ◌==◌, eq_iff,
}
use master_gateway_auth.Prog.{
  raise, ok, err, run, query, catch, some_or, unauthorized, thrown, ◌>>=◌,
}
use master_gateway_auth.Prog.Runs.{continue, run-bind, run-if_true, run-if_false}
use master_gateway_auth.Db.{
  User, Role, RoleLink, World, role_by_id, is_active, user_is_active, role_is_active,
}
use master_gateway_auth.Platform.{Platform, TempToken}
use master_gateway_auth.Auth.Session.{SessionTokens}
use master_gateway_auth.Auth.Session.Issue.{session_at, world_after, issue_ok}
use master_gateway_auth.Prog.Outcomes.{err-ne-ok, ok-eq}
use master_gateway_auth.Auth.Login.{
  LoginDto, SelectRoleDto, LoginAnswer, RoleView, omit_password, role_view, user_by_email, own_role,
  views_of, views, roles_of_user, assigned, assigned_role, login_found, login, verify_temp_token,
  open_session, select_role,
}

-- The answer to a login that succeeds.
abbrev pub answer : Platform → World → User → LoginAnswer
answer pf w u = record {
  temp_token =
      pf.temp_sign (record { sub = u.id; jti = pf.uuid w.draws; email = u.email }) "5m" w.clock;
  user = omit_password u;
  roles = roles_of_user w u.id;
}

abbrev pub is_authentic : Platform → World → LoginDto → Option User → Bool
is_authentic pf w dto none = false
is_authentic pf w dto (some u) = pf.argon_verify u.password_hash dto.password

run-login :
    (pf : Platform) (dto : LoginDto) (w : World) (u : Option User)
    → user_by_email w dto.email ≡ u
    → run (login pf dto) w
      ≡ run (login_found pf dto (Option.map (λ v. (v, roles_of_user w v.id)) u)) w
unfolding login
run-login pf dto w u e =
    ap (λ o. run (login_found pf dto (Option.map (λ v. (v, roles_of_user w v.id)) o)) w) e

-- A login succeeds with the first active user of the email, if the password verifies against the
-- user's hash: the answer holds a temporary token for the user, and nothing but a draw is changed.
pub login-eq-answer :
    (pf : Platform) (dto : LoginDto) (w : World) (u : User)
    → user_by_email w dto.email ≡ some u
    → pf.argon_verify u.password_hash dto.password ≡ true
    → run (login pf dto) w ≡ (ok (answer pf w u), record w { draws = w.draws + 1 })
unfolding login_found
login-eq-answer pf dto w u found good =
    run-login pf dto w (some u) found
    ∙ run-if_false (not (pf.argon_verify u.password_hash dto.password)) _ _ w (ap not good)

-- A login with an unknown email, with the email of an inactive user or with a wrong password gets one
-- and the same answer, and nothing is changed.
pub login_refuses_alike :
    (pf : Platform) (dto : LoginDto) (w : World)
    → is_authentic pf w dto (user_by_email w dto.email) ≡ false
    → run (login pf dto) w ≡ (err (unauthorized "Credenciales invalidas"), w)
unfolding login_found
login_refuses_alike pf dto w h = elim (Option-cases (user_by_email w dto.email)) [
  | inl missing ↦ run-login pf dto w none missing
  | inr (u, found) ↦
      run-login pf dto w (some u) found
      ∙ run-if_true (not (pf.argon_verify u.password_hash dto.password)) _ _ w
          (ap not (subst (λ o. is_authentic pf w dto o ≡ false) found h))
]

-- A role of a login's answer is an active role that an active assignment gives to the user.
abbrev pub IsOffered : World → String → RoleView → Type 0
IsOffered w user_id v =
    (l : RoleLink) × (r : Role) × (own_role w user_id l ≡ true)
    × (role_by_id w l.role_id ≡ some r)
    × (v ≡ role_view r)

views-IsOffered :
    (w : World) (user_id : String) (ls : List RoleLink)
    → All (IsOffered w user_id) (views w (select (own_role w user_id) ls))
views-IsOffered w user_id [] = tt
views-IsOffered w user_id (l ∷ ls) = elim (Bool-cases (own_role w user_id l)) [
  | inl own ↦ rw own (
      All-append (IsOffered w user_id) (views_of (role_by_id w l.role_id)) _
        (offered (role_by_id w l.role_id) refl own) (views-IsOffered w user_id ls))
  | inr other ↦ rw other (views-IsOffered w user_id ls)
]
  where
    offered :
        (o : Option Role)
        → role_by_id w l.role_id ≡ o
        → own_role w user_id l ≡ true
        → All (IsOffered w user_id) (views_of o)
    offered none e own = tt
    offered (some r) e own = ((l, r, own, e, refl), tt)

-- A login that succeeds offers only roles that an active assignment gives to its user, and that are
-- active.
pub login-IsOffered :
    (pf : Platform) (dto : LoginDto) (w w' : World) (a : LoginAnswer)
    → run (login pf dto) w ≡ (ok a, w')
    → All (IsOffered w a.user.id) a.roles
login-IsOffered pf dto w w' a e =
    elim (Bool-cases (is_authentic pf w dto (user_by_email w dto.email))) [
      | inr refused ↦
          absurd (err-ne-ok (ap (λ r. r.0) (sym (login_refuses_alike pf dto w refused) ∙ e)))
      | inl good ↦ elim (Option-cases (user_by_email w dto.email)) [
        | inl missing ↦ absurd (false≢true (rw missing at good))
        | inr (u, found) ↦
            let same : answer pf w u ≡ a =
              ok-eq
                (ap (λ r. r.0) (sym (login-eq-answer pf dto w u found (rw found at good)) ∙ e)) in
            subst (λ b. All (IsOffered w b.user.id) b.roles) same
              (views-IsOffered w u.id w.user_roles)
      ]
    ]

-- What the choice of a role has established: the temporary token verifies; a row of the table of
-- assignments, which is active, names the token's user and the role of the request; a user with that
-- id and the role that is found with that id are active; and the session is for that user and role.
pub record IsChosen (pf : Platform) (dto : SelectRoleDto) (w w' : World) (s : SessionTokens)
    : Type 0 where
  pub payload : TempToken
  pub verified : pf.temp_verify w.clock dto.temp_token ≡ some payload
  pub link : RoleLink
  pub stored : Within link w.user_roles
  pub for_user : link.target_id ≡ payload.sub
  pub for_role : link.role_id ≡ dto.role_id
  pub link_active : is_active link.estado ≡ true
  pub user_active : any (λ u. u.id == payload.sub && is_active u.estado) w.users ≡ true
  pub role_active : any (λ r. r.id == dto.role_id && is_active r.estado) w.roles ≡ true
  pub role : Role
  pub role_stored : Within role w.roles
  pub role_same : role.id ≡ dto.role_id
  pub session : s ≡ session_at pf payload.sub role.id role.name w
  pub after : w' ≡ world_after pf payload.sub role.id role.name w

module _ (pf : Platform) (dto : SelectRoleDto) (w : World) where
  pub run-verify_temp_token :
      (o : Option TempToken)
      → pf.temp_verify w.clock dto.temp_token ≡ o
      → run (verify_temp_token pf dto.temp_token) w
        ≡ (elim o [ none ↦ err (unauthorized "TempToken invalido o expirado") | some p ↦ ok p ], w)
  unfolding verify_temp_token
  run-verify_temp_token o e =
      ap
        (λ x.
          run
            (catch (some_or (thrown "JsonWebTokenError") x)
              (raise (unauthorized "TempToken invalido o expirado")))
            w)
        e
      ∙ read o
    where
      read :
          (x : Option TempToken)
          → run
              (catch
                (some_or (thrown "JsonWebTokenError") x)
                (raise (unauthorized "TempToken invalido o expirado")))
              w
            ≡ (
              elim x [ none ↦ err (unauthorized "TempToken invalido o expirado") | some p ↦ ok p ],
              w,
            )
      read none = refl
      read (some p) = refl

module _ (pf : Platform) (dto : SelectRoleDto) (w w' : World) (s : SessionTokens) where
  chosen :
      (p : TempToken)
      → pf.temp_verify w.clock dto.temp_token ≡ some p
      → run (open_session pf p (assigned_role w p.sub dto.role_id)) w ≡ (ok s, w')
      → IsChosen pf dto w w' s
  unfolding open_session
  chosen p verified e = elim (Option-cases (assigned_role w p.sub dto.role_id)) [
    | inl missing ↦ absurd (err-ne-ok (ap (λ r. r.0) (rw missing at e)))
    | inr (role, found) ↦
        let (l, got, role_found) = (Option.bind-eq-some_iff _ _).0 found in
        let (same, after) = issue_ok pf p.sub role.id role.name w (rw found at e) in
        let hit = find-holds (assigned w p.sub dto.role_id) w.user_roles got in
        let for_user = (eq_iff l.target_id p.sub).0 (ground arith) in
        let for_role = (eq_iff l.role_id dto.role_id).0 (ground arith) in
        record {
          payload = p;
          verified = verified;
          link = l;
          stored = find-Within (assigned w p.sub dto.role_id) w.user_roles got;
          for_user = for_user;
          for_role = for_role;
          link_active = ground arith;
          user_active = subst (λ i. user_is_active w i ≡ true) for_user (ground arith);
          role_active = subst (λ i. role_is_active w i ≡ true) for_role (ground arith);
          role = role;
          role_stored = find-Within (λ r. r.id == l.role_id) w.roles role_found;
          role_same =
              (eq_iff role.id l.role_id).0 (find-holds (λ r. r.id == l.role_id) w.roles role_found)
              ∙ for_role;
          session = same;
          after = after;
        }
  ]

  by_assignment : run (select_role pf dto) w ≡ (ok s, w') → IsChosen pf dto w w' s
  unfolding select_role
  by_assignment e =
      let rest =
        λ (p : TempToken). query (λ u. assigned_role u p.sub dto.role_id) >>= open_session pf p in
      let split = run-bind (verify_temp_token pf dto.temp_token) rest w in
      elim (Option-cases (pf.temp_verify w.clock dto.temp_token)) [
        | inl bad ↦ absurd (
            err-ne-ok (
              ap (λ r. r.0)
                (sym (split ∙ ap (λ r. continue r rest) (run-verify_temp_token pf dto w none bad))
                  ∙ e)))
        | inr (p, good) ↦ chosen p good (
            sym (split ∙ ap (λ r. continue r rest) (run-verify_temp_token pf dto w (some p) good))
            ∙ e)
      ]

-- A session is opened, by a request that runs alone, only with a temporary token that verifies, and
-- for a role that an active row of the table of assignments gives to the token's user; a row of that
-- user and one of that role are active. The session is for that user and role, with the role's
-- permissions, and its refresh token is stored.
pub select_role-IsChosen :
    (pf : Platform) (dto : SelectRoleDto) (w w' : World) (s : SessionTokens)
    → run (select_role pf dto) w ≡ (ok s, w')
    → IsChosen pf dto w w' s
select_role-IsChosen pf dto w w' s e = by_assignment pf dto w w' s e
