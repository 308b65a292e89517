-- ===== src/Users/Lockout.antt =====
-- users.service.ts and auth.service.ts: a removed user has no way left to a session.
use mathlib.Core.Option
use mathlib.Core.Bool.{false≢true}
use master_gateway_auth.Prelude.{
  String, false, ◌&&◌, none, some, ◌≡◌, ◌≢◌, sym, ◌∙◌, ap, subst, inl, inr, arith, ◌==◌, eq_iff,
  any, find, find-none_any, find_of_none, find-holds, Bool-cases, Option-cases,
}
use master_gateway_auth.Prog.{ok, err, run, unauthorized, forbidden, query, ◌>>=◌}
use master_gateway_auth.Prog.Runs.{continue, run-bind}
use master_gateway_auth.Db.{is_active, Role, RefreshToken, World, role_by_id}
use master_gateway_auth.Platform.{Platform, TempToken}
use master_gateway_auth.Token.{Claims, TokenUse, verify_gateway_token}
use master_gateway_auth.Auth.Login
use master_gateway_auth.Auth.Login.Roles.{
  answer, is_authentic, login-eq-answer, login_refuses_alike, run-verify_temp_token,
}
use master_gateway_auth.Prog.Outcomes.{err-ne-ok, ok-eq}
use master_gateway_auth.Auth.Refresh
use master_gateway_auth.Auth.Refresh.Rotation.{run-refresh_verified}
use master_gateway_auth.Auth.Refresh.Replay.{run-inactive}
use master_gateway_auth.Users
use master_gateway_auth.Users.Removal.{remove-IsRemoved}

stored-inactive :
    (w : World) (id jti : String) (t : RefreshToken) (role : Role)
    → any (Users.own_token id) w.refresh_tokens ≡ false
    → Refresh.stored_token w jti ≡ some (t, role)
    → t.user_id ≡ id
    → is_active t.estado ≡ false
stored-inactive w id jti t role gone e own =
    let (u, found, rest) = (Option.bind-eq-some_iff _ _).0 e in
    let (r, got, pair) = (Option.map-eq-some_iff _ _).0 rest in
    let same : u ≡ t = ap (λ p. p.0) pair in
    let out : Users.own_token id t ≡ false =
      subst (λ v. Users.own_token id v ≡ false) same
        (find-none_any (Users.own_token id) (λ v. v.jti == jti) w.refresh_tokens gone found) in
    ground (arith, eq_iff t.user_id id)

-- After a user was removed, a refresh token whose row belongs to the user is refused, and nothing is
-- changed.
pub removed-refresh_refused :
    (pf : Platform) (id actor : String) (w w' : World) (token : String) (c : Claims)
    (t : RefreshToken) (role : Role)
    → run (Users.remove id actor) w ≡ (ok tt, w')
    → verify_gateway_token pf token w'.clock (some TokenUse.refresh) ≡ ok c
    → Refresh.stored_token w' c.jti ≡ some (t, role)
    → t.user_id ≡ id
    → run (Refresh.refresh pf token) w' ≡ (err (unauthorized "Refresh token invalido"), w')
removed-refresh_refused pf id actor w w' token c t role done verified stored own =
    let gone = (remove-IsRemoved id actor w w' done).1.no_token in
    run-refresh_verified pf token w' c verified
    ∙ ap (λ f. run (Refresh.refresh_found pf token f) w') stored
    ∙ run-inactive pf token t role w' (stored-inactive w' id c.jti t role gone stored own)

-- After a user was removed, no role can be chosen with a temporary token of the user, even one that
-- was issued before: the answer is that the role does not belong to the user, and nothing is changed.
pub removed-select_role_refused :
    (pf : Platform) (id actor : String) (w w' : World) (dto : Login.SelectRoleDto) (p : TempToken)
    → run (Users.remove id actor) w ≡ (ok tt, w')
    → pf.temp_verify w'.clock dto.temp_token ≡ some p
    → p.sub ≡ id
    → run (Login.select_role pf dto) w' ≡ (err (forbidden "El rol no pertenece al usuario"), w')
unfolding Login.select_role Login.open_session mathlib.Core.Option.bind
removed-select_role_refused pf id actor w w' dto p done verified own =
    let gone = (remove-IsRemoved id actor w w' done).1.no_assignment in
    let rest = λ (q : TempToken).
      query (λ u. Login.assigned_role u q.sub dto.role_id) >>= Login.open_session pf q in
    let none_left : find (Login.assigned w' p.sub dto.role_id) w'.user_roles ≡ none =
      find_of_none (Users.own_assignment id) (Login.assigned w' p.sub dto.role_id) w'.user_roles
        gone (λ l h. ground (arith, eq_iff l.target_id p.sub, eq_iff l.target_id id)) in
    run-bind (Login.verify_temp_token pf dto.temp_token) rest w'
    ∙ ap (λ r. continue r rest) (run-verify_temp_token pf dto w' (some p) verified)
    ∙ ap (λ l. run (Login.open_session pf p (Option.bind l (λ x. role_by_id w' x.role_id))) w')
        none_left

-- After a user was removed, no login is a login of the user, whatever the email and the password.
pub removed-login :
    (pf : Platform) (id actor : String) (w w' w'' : World) (dto : Login.LoginDto)
    (a : Login.LoginAnswer)
    → run (Users.remove id actor) w ≡ (ok tt, w')
    → run (Login.login pf dto) w' ≡ (ok a, w'')
    → a.user.id ≢ id
removed-login pf id actor w w' w'' dto a done e =
    let gone = (remove-IsRemoved id actor w w' done).1.no_user in
    elim (Bool-cases (is_authentic pf w' dto (Login.user_by_email w' dto.email))) [
      | inr refused ↦
          absurd (err-ne-ok (ap (λ r. r.0) (sym (login_refuses_alike pf dto w' refused) ∙ e)))
      | inl good ↦ elim (Option-cases (Login.user_by_email w' dto.email)) [
        | inl missing ↦ absurd (false≢true (rw missing at good))
        | inr (u, found) ↦
            let same : answer pf w' u ≡ a =
              ok-eq
                (ap (λ r. r.0) (sym (login-eq-answer pf dto w' u found (rw found at good)) ∙ e)) in
            let active =
              find-holds (λ v. v.email == dto.email && is_active v.estado) w'.users found in
            let out =
              find-none_any (λ v. v.id == id && is_active v.estado)
                (λ v. v.email == dto.email && is_active v.estado) w'.users gone found in
            let other : u.id ≢ id = ground (arith, eq_iff u.id id) in
            subst (λ b. b.user.id ≢ id) same other
      ]
    ]
