-- ===== src/Auth/Refresh/Steps.antt =====
-- Each step of `refresh` and `logout` is a change of the table that Auth/Life names.
use master_gateway_auth.Prelude.{
  ℕ, String, true, not, ◌||◌, Option, none, some, refl, inl, inr, ◌==◌, eqb, leb, is_some, has_text,
  Bool-cases, any,
}
use master_gateway_auth.Prog.{database}
use master_gateway_auth.Prog.Moves.{
  Moves, of_ret, of_raise, of_atomic, Moves-bind, Moves-catch, Moves-if, Moves-lift, Moves-query,
}
use master_gateway_auth.Db.{Role, RefreshToken, World, is_active, read_clock, draw}
use master_gateway_auth.Platform.{Platform}
use master_gateway_auth.Token.{verify_gateway_token, refresh}
use master_gateway_auth.Auth.Session.{
  store_token, taken, id_taken, session_of, session_row, permissions_in, revoke_row,
  revoke_token_family, issue_session_tokens, verify_refresh_token, in_family,
}
use master_gateway_auth.Auth.Life.{Retires, IsFresh, same, retire, create, EvolvesIn}
use master_gateway_auth.Auth.Refresh

revoke_row-Retires : (now : ℕ) → Retires (revoke_row now)
revoke_row-Retires now = record { id = λ t. refl; jti = λ t. refl; estado = λ t. refl }

pub spend-Retires : (now : ℕ) → Retires (Refresh.spend now)
spend-Retires now = record { id = λ t. refl; jti = λ t. refl; estado = λ t. refl }

replace-Retires : (now : ℕ) (jti : String) → Retires (Refresh.replace now jti)
replace-Retires now jti = record { id = λ t. refl; jti = λ t. refl; estado = λ t. refl }

idle : (w : World) → EvolvesIn w w
idle w = same

pub Moves-read_clock : Moves EvolvesIn read_clock
Moves-read_clock = Moves-query idle (λ w. w.clock)

Moves-draw : Moves EvolvesIn draw
Moves-draw = of_atomic (λ w. same) (λ w. of_ret w.draws)

Moves-store_token : (t : RefreshToken) → IsFresh t → Moves EvolvesIn (store_token t)
Moves-store_token t fresh =
    of_atomic
      (λ w. elim (Bool-cases (taken t w.refresh_tokens)) [
        | inl a ↦ rw a same
        | inr a ↦ elim (Bool-cases (id_taken t w.refresh_tokens)) [
          | inl b ↦ rw (a, b) same
          | inr b ↦ rw (a, b) (create a b fresh)
        ]
      ])
      (λ w.
        Moves-if (taken t w.refresh_tokens) (of_raise (database "P2002"))
          (Moves-if (id_taken t w.refresh_tokens) (of_raise (database "P2002")) (of_ret tt)))

pub Moves-revoke_token_family :
    (user_id role_id : String) → Moves EvolvesIn (revoke_token_family user_id role_id)
unfolding revoke_token_family
Moves-revoke_token_family user_id role_id = Moves-bind Moves-read_clock λ now.
    of_atomic (λ w. retire (in_family user_id role_id) (revoke_row-Retires now)) (λ w. of_ret tt)

pub Moves-update_token :
    (id : String) {f : RefreshToken → RefreshToken}
    → Retires f
    → Moves EvolvesIn (Refresh.update_token id f)
Moves-update_token id r =
    of_atomic (λ w. retire (λ t. t.id == id) r)
      (λ w.
        Moves-if (any (λ t. t.id == id) w.refresh_tokens) (of_ret tt) (of_raise (database "P2025")))

Moves-claim : (id : String) (now : ℕ) → Moves EvolvesIn (Refresh.claim id now)
unfolding Refresh.claim
Moves-claim id now =
    of_atomic (λ w. retire (Refresh.claimable id) (spend-Retires now)) (λ w. of_ret _)

module _ (pf : Platform) where
  pub Moves-issue_session_tokens :
      (user_id role_id role_name : String)
      → Moves EvolvesIn (issue_session_tokens pf user_id role_id role_name)
  unfolding issue_session_tokens
  Moves-issue_session_tokens user_id role_id role_name =
      of_atomic (λ w. same)
        λ a.
          of_atomic (λ w. same)
            λ b.
              of_atomic (λ w. same)
                λ ps.
                  of_atomic (λ w. same)
                    λ t.
                      of_atomic (λ w. same)
                        λ u.
                          of_atomic (λ w. same)
                            λ now.
                              of_atomic (λ w. same)
                                λ salt.
                                  of_atomic (λ w. same)
                                    λ row.
                                      let session =
                                        session_of pf user_id role_id role_name (pf.uuid a.draws)
                                          (pf.uuid b.draws) (permissions_in ps role_id) t.clock
                                          u.clock in
                                      Moves-bind
                                        (Moves-store_token
                                          (session_row pf user_id session (pf.uuid row.draws)
                                            salt.draws now.clock)
                                          (record {
                                            estado = refl;
                                            revoked = refl;
                                            replaced = refl;
                                          }))
                                        λ done. of_ret session

  pub Moves-verify_refresh_token :
      (token : String) → Moves EvolvesIn (verify_refresh_token pf token)
  unfolding verify_refresh_token
  Moves-verify_refresh_token token = Moves-bind Moves-read_clock λ now.
      Moves-catch (Moves-lift (verify_gateway_token pf token now (some refresh))) (of_raise _)

  pub Moves-refresh_claimed :
      (t : RefreshToken) (role : Role) (count : ℕ)
      → Moves EvolvesIn (Refresh.refresh_claimed pf t role count)
  unfolding Refresh.refresh_claimed
  Moves-refresh_claimed t role count =
      Moves-if (not (eqb count 1))
        (Moves-bind (Moves-revoke_token_family t.user_id t.role_id) (λ _. of_raise _))
        (Moves-bind (Moves-issue_session_tokens t.user_id t.role_id role.name) λ next.
          Moves-bind Moves-read_clock λ now.
            Moves-bind (Moves-update_token t.id (replace-Retires now next.refresh_token_jti))
              λ _. of_ret next)

  pub Moves-refresh_found :
      (token : String) (found : Option (RefreshToken × Role))
      → Moves EvolvesIn (Refresh.refresh_found pf token found)
  unfolding Refresh.refresh_found
  Moves-refresh_found token none = of_raise _
  Moves-refresh_found token (some (t, role)) = Moves-if (not (is_active t.estado)) (of_raise _) (
      Moves-if (is_some t.revoked_at || has_text t.replaced_by_jti)
        (Moves-bind (Moves-revoke_token_family t.user_id t.role_id) (λ _. of_raise _))
        (Moves-bind Moves-read_clock λ now.
          Moves-if (leb t.expires_at now)
            (Moves-bind Moves-read_clock λ revoked.
              Moves-bind (Moves-update_token t.id (spend-Retires revoked)) (λ _. of_raise _))
            (Moves-if (not (pf.argon_verify t.token_hash token)) (of_raise _) (
              Moves-bind Moves-read_clock
                λ spent. Moves-bind (Moves-claim t.id spent) (Moves-refresh_claimed t role)))))

  -- Every step of `refresh` evolves the table.
  pub Moves-refresh : (token : String) → Moves EvolvesIn (Refresh.refresh pf token)
  unfolding Refresh.refresh
  Moves-refresh token =
      Moves-bind (Moves-verify_refresh_token token)
        λ payload. Moves-bind (Moves-query idle _) (Moves-refresh_found token)

  -- So does every step of `logout`.
  pub Moves-logout : (user_id token : String) → Moves EvolvesIn (Refresh.logout pf user_id token)
  unfolding Refresh.logout
  Moves-logout user_id token =
      Moves-catch
        (Moves-bind (Moves-verify_refresh_token token) λ payload. Moves-bind Moves-read_clock λ now.
          of_atomic (λ w. retire (Refresh.logout_row user_id payload.jti) (spend-Retires now))
            (λ w. of_ret true))
        (of_ret true)
