-- ===== src/Requests/Ended.antt =====
-- auth.service.ts, `logout`, and users.service.ts, `remove`, followed by any other requests.
use master_gateway_auth.Prelude.{
  ℕ, String, true, false, some, List, [], ◌∷◌, ◌≡◌, refl, sym, ◌∙◌, ap, subst, arith, eq_iff, map,
  update_where, All, All-update_where, any,
}
use master_gateway_auth.Prog.{
  ok, err, Failure, run, atomic, catch, lift, raise, ret, unauthorized, ◌>>=◌,
}
use master_gateway_auth.Prog.Pool.{Event, interleave}
use master_gateway_auth.Db.{World, RefreshToken, activo, inactivo, Estado, is_active, read_clock}
use master_gateway_auth.Platform.{Platform}
use master_gateway_auth.Token.{Claims, TokenUse, verify_gateway_token}
use master_gateway_auth.Auth.Session.{verify_refresh_token}
use master_gateway_auth.Auth.Life.{IsSpent, retire}
use master_gateway_auth.Auth.Refresh
use master_gateway_auth.Auth.Refresh.Steps.{spend-Retires}
use master_gateway_auth.Auth.Refresh.Once.{IsStored, IsUsed, Names, wait, EvolvesIn-IsStored}
use master_gateway_auth.Users
use master_gateway_auth.Users.Removal.{remove-IsRemoved}
use master_gateway_auth.Requests.{Request, Surroundings, handle}
use master_gateway_auth.Requests.Spent.{spent-refused}

-- The rows of the id are the user's, with the jti.
abbrev pub IsOwn : String → String → String → RefreshToken → Type 0
IsOwn jti id user_id t = t.id ≡ id → (t.jti ≡ jti) × (t.user_id ≡ user_id)

abbrev logged_out : String → String → World → World
logged_out user_id jti w =
    Refresh.change_tokens (Refresh.logout_row user_id jti) (Refresh.spend w.clock) w

run-logout :
    (pf : Platform) (user_id token : String) (c : Claims) (w : World)
    → verify_gateway_token pf token w.clock (some TokenUse.refresh) ≡ ok c
    → (run (Refresh.logout pf user_id token) w).1 ≡ logged_out user_id c.jti w
unfolding Refresh.logout verify_refresh_token
run-logout pf user_id token c w verified =
    ap
      (λ r.
        (run
          (catch
            (catch (lift r) (raise (unauthorized "Refresh token invalido o expirado"))
              >>= λ payload. read_clock >>= λ now.
                  atomic
                    (Refresh.change_tokens (Refresh.logout_row user_id payload.jti)
                      (Refresh.spend now))
                    (λ v. ret true))
            (ret true))
          w).1)
      verified

inactive : (e : Estado) → is_active e ≡ false → e ≡ inactivo
inactive activo h = cc
inactive inactivo h = refl

logout-IsSpent :
    (jti id user_id : String) (now : ℕ) (ts : List RefreshToken)
    → All (IsOwn jti id user_id) ts
    → All (IsSpent id) (update_where (Refresh.logout_row user_id jti) (Refresh.spend now) ts)
logout-IsSpent jti id user_id now ts =
    All-update_where (IsOwn jti id user_id) (IsSpent id) (Refresh.logout_row user_id jti)
      (Refresh.spend now) ts (λ t own hit e. refl)
      (λ t own miss e.
        let (a, b) = own e in
        inactive t.estado (ground (arith, eq_iff t.jti jti, eq_iff t.user_id user_id)))

-- A logout with a refresh token ends its session for good, if the token verifies and its row, the only
-- one of its jti and id, is the user's: after any requests to the backend, of whichever users, in any
-- order of their steps and with pauses of any length, a refresh with the token is answered with an error
-- and changes nothing.
pub logged_out-refused :
    (s : Surroundings) (jti id user_id token : String) (qs : List Request) (es : List Event)
    (c : Claims) (w v : World)
    → IsStored jti id w
    → All (IsOwn jti id user_id) w.refresh_tokens
    → Names s.platform jti token
    → verify_gateway_token s.platform token w.clock (some TokenUse.refresh) ≡ ok c
    → (run (Refresh.logout s.platform user_id token) w).1 ≡ v
    → (e : Failure) × (run
          (Refresh.refresh s.platform token)
          (interleave wait es (map (handle s) qs) v).1
        ≡ (err e, (interleave wait es (map (handle s) qs) v).1))
logged_out-refused s jti id user_id token qs es c w v stored own names verified done =
    let named : logged_out user_id jti w ≡ v =
      subst (λ j. logged_out user_id j w ≡ v) (names w.clock c verified)
        (sym (run-logout s.platform user_id token c w verified) ∙ done) in
    let still =
      EvolvesIn-IsStored jti id w (logged_out user_id jti w)
        (retire (Refresh.logout_row user_id jti) (spend-Retires w.clock)) stored in
    spent-refused s jti id token qs es v (subst (IsStored jti id) named still)
      (subst (IsUsed id) named (logout-IsSpent jti id user_id w.clock w.refresh_tokens own)) names

removed-IsSpent :
    (jti id user_id : String) (ts : List RefreshToken)
    → any (Users.own_token user_id) ts ≡ false
    → All (IsOwn jti id user_id) ts
    → All (IsSpent id) ts
removed-IsSpent jti id user_id [] none_left own = tt
removed-IsSpent jti id user_id (t ∷ ts) none_left (o, own) = (
  (λ e. let (a, b) = o e in inactive t.estado (ground (arith, eq_iff t.user_id user_id))),
  removed-IsSpent jti id user_id ts (ground arith) own,
)

-- The removal of a user ends the user's sessions for good: a refresh with a token whose row, the only
-- one of its jti and id, is the user's is answered with an error and changes nothing, after any requests
-- to the backend, of whichever users, in any order of their steps and with pauses of any length.
pub removed-stays_refused :
    (s : Surroundings) (jti id user_id actor token : String) (qs : List Request) (es : List Event)
    (w v : World)
    → run (Users.remove user_id actor) w ≡ (ok tt, v)
    → IsStored jti id v
    → All (IsOwn jti id user_id) v.refresh_tokens
    → Names s.platform jti token
    → (e : Failure) × (run
          (Refresh.refresh s.platform token)
          (interleave wait es (map (handle s) qs) v).1
        ≡ (err e, (interleave wait es (map (handle s) qs) v).1))
removed-stays_refused s jti id user_id actor token qs es w v done stored own names =
    spent-refused s jti id token qs es v stored
      (removed-IsSpent jti id user_id v.refresh_tokens
        (remove-IsRemoved user_id actor w v done).1.no_token own)
      names
