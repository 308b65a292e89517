-- ===== src/Requests/Spent.antt =====
-- All handlers together, in any order of their steps, and a refresh token that was spent.
use master_gateway_auth.Prelude.{
  String, some, List, [], ◌∷◌, ◌≡◌, refl, ◌∙◌, ap, inl, inr, map, All, Option-cases,
}
use master_gateway_auth.Prog.{
  Prog, Result, ok, err, Failure, run, catch, lift, raise, query, unauthorized, ◌>>=◌,
}
use master_gateway_auth.Prog.Keeps.{Keeps}
use master_gateway_auth.Prog.Moves.{Moves, of_ret, Moves-bind, Moves-Keeps}
use master_gateway_auth.Prog.Pool.{Event, interleave}
use master_gateway_auth.Prog.Schedules.{interleave-Keeps}
use master_gateway_auth.Db.{World, is_active}
use master_gateway_auth.Platform.{Platform}
use master_gateway_auth.Token.{Claims, TokenUse, verify_gateway_token}
use master_gateway_auth.Auth.Session.{verify_refresh_token}
use master_gateway_auth.Auth.Life.{EvolvesIn, IsSpent, Evolves-IsSound}
use master_gateway_auth.Auth.Refresh
use master_gateway_auth.Auth.Refresh.Steps.{Moves-refresh, Moves-logout}
use master_gateway_auth.Auth.Refresh.Once.{
  IsStored, IsUsed, Names, wait, stored-id, EvolvesIn-IsStored, EvolvesIn-IsUsed,
}
use master_gateway_auth.Auth.Refresh.Rotation.{run-refresh_verified}
use master_gateway_auth.Auth.Refresh.Replay.{TableIsSound, All-stored, run-inactive}
use master_gateway_auth.Requests
use master_gateway_auth.Requests.{Request, Surroundings, answered, handle}
use master_gateway_auth.Requests.Rules.{SameTokens, SameTokens-EvolvesIn}
use master_gateway_auth.Requests.Sessions.{login-same, validate-same, select_role-Evolves}
use master_gateway_auth.Requests.Accounts.{
  perform-same, create_user-same, update_user-same, remove_user-Evolves,
}
use master_gateway_auth.Requests.Catalogue.{
  create_module-same, update_module-same, remove_module-same, create_permission-same,
  update_permission-same, remove_permission-same,
}
use master_gateway_auth.Requests.Navigation.{create_menu-same, update_menu-same, remove_menu-same}
use master_gateway_auth.Requests.Registry.{
  probe-same, create_service-same, update_service-same, probe_existing-same, rotate-same,
  remove_service-same, provision-same,
}

Moves-answered : {A : Type 0} {p : Prog World A} → Moves EvolvesIn p → Moves EvolvesIn (answered p)
Moves-answered h = Moves-bind h (λ a. of_ret tt)

quiet : {A : Type 0} {p : Prog World A} → Moves SameTokens p → Moves EvolvesIn (answered p)
quiet h = Moves-answered (SameTokens-EvolvesIn h)

handle-Evolves : (s : Surroundings) (q : Request) → Moves EvolvesIn (handle s q)
handle-Evolves s (Requests.log_in dto) = quiet (login-same s.platform dto)
handle-Evolves s (Requests.choose_role dto) = Moves-answered (select_role-Evolves s.platform dto)
handle-Evolves s (Requests.refresh_session token) = Moves-answered (Moves-refresh s.platform token)
handle-Evolves s (Requests.log_out user_id token) =
    Moves-answered (Moves-logout s.platform user_id token)
handle-Evolves s (Requests.validate api_key token service) =
    quiet (validate-same s.platform api_key token service)
handle-Evolves s (Requests.administer_roles actor op) = quiet (perform-same s.platform actor op)
handle-Evolves s (Requests.create_user dto actor) = quiet (create_user-same s.platform dto actor)
handle-Evolves s (Requests.update_user id dto actor) =
    quiet (update_user-same s.platform id dto actor)
handle-Evolves s (Requests.remove_user id actor) = Moves-answered (remove_user-Evolves id actor)
handle-Evolves s (Requests.create_module dto actor) =
    quiet (create_module-same s.platform dto actor)
handle-Evolves s (Requests.update_module id dto actor) = quiet (update_module-same id dto actor)
handle-Evolves s (Requests.remove_module id actor) = quiet (remove_module-same id actor)
handle-Evolves s (Requests.create_permission dto) = quiet (create_permission-same s.platform dto)
handle-Evolves s (Requests.update_permission id dto) = quiet (update_permission-same id dto)
handle-Evolves s (Requests.remove_permission id) = quiet (remove_permission-same id)
handle-Evolves s (Requests.create_menu dto actor) =
    quiet (create_menu-same s.platform s.network dto actor)
handle-Evolves s (Requests.update_menu rounds id dto actor) =
    quiet (update_menu-same s.platform s.network rounds id dto actor)
handle-Evolves s (Requests.remove_menu rounds id actor) = quiet (remove_menu-same rounds id actor)
handle-Evolves s (Requests.probe_service dto) = quiet (probe-same s.network s.internet dto)
handle-Evolves s (Requests.create_service dto actor) =
    quiet (create_service-same s.network s.internet s.platform dto actor)
handle-Evolves s (Requests.update_service id dto actor) = quiet (update_service-same id dto actor)
handle-Evolves s (Requests.probe_existing id actor) =
    quiet (probe_existing-same s.network s.internet id actor)
handle-Evolves s (Requests.rotate_api_key id actor) = quiet (rotate-same s.random_key id actor)
handle-Evolves s (Requests.remove_service id actor) = quiet (remove_service-same id actor)
handle-Evolves s (Requests.provision_service id dto actor) =
    quiet (provision-same s.platform actor id dto)

-- The row `id` is stored under the jti, and spent.
abbrev pub IsOver : String → String → World → Type 0
IsOver jti id w = IsStored jti id w × IsUsed id w

requests-Keeps :
    (s : Surroundings) (jti id : String) (qs : List Request)
    → All (Keeps (IsOver jti id)) (map (handle s) qs)
requests-Keeps s jti id [] = tt
requests-Keeps s jti id (q ∷ qs) = (
  Moves-Keeps
      (λ v w e over.
        (EvolvesIn-IsStored jti id v w e over.0, EvolvesIn-IsUsed jti id v w e over.0 over.1))
      (handle-Evolves s q),
  requests-Keeps s jti id qs,
)

over-found :
    (pf : Platform) (jti id token : String) (c : Claims) (w : World)
    → IsOver jti id w
    → verify_gateway_token pf token w.clock (some TokenUse.refresh) ≡ ok c
    → c.jti ≡ jti
    → (e : Failure) × (run (Refresh.refresh pf token) w ≡ (err e, w))
unfolding Refresh.refresh_found
over-found pf jti id token c w over verified named =
    let found = run-refresh_verified pf token w c verified in
    elim (Option-cases (Refresh.stored_token w c.jti)) [
      | inl missing ↦ (_, found ∙ ap (λ f. run (Refresh.refresh_found pf token f) w) missing)
      | inr ((t, role), there) ↦
          let own : Refresh.stored_token w jti ≡ some (t, role) = rw named at there in
          let mine = stored-id jti id pf w t role over.0 own in
          let spent = All-stored (IsSpent id) w jti t role over.1 own mine in
          (
            _,
            found
                ∙ ap (λ f. run (Refresh.refresh_found pf token f) w) there
                ∙ run-inactive pf token t role w (ap is_active spent),
          )
    ]

over-refused :
    (pf : Platform) (jti id token : String) (w : World)
    → IsOver jti id w
    → Names pf jti token
    → (r : Result Claims) → verify_gateway_token pf token w.clock (some TokenUse.refresh) ≡ r
    → (e : Failure) × (run (Refresh.refresh pf token) w ≡ (err e, w))
unfolding Refresh.refresh verify_refresh_token
over-refused pf jti id token w over names (ok c) verified =
    over-found pf jti id token c w over verified (names w.clock c verified)
over-refused pf jti id token w over names (err x) verified = (
  _,
  ap
      (λ r.
        run
          (catch (lift r) (raise (unauthorized "Refresh token invalido o expirado")) >>= λ payload.
            query (λ u. Refresh.stored_token u payload.jti) >>= Refresh.refresh_found pf token)
          w)
      verified,
)

-- A refresh token whose row is inactive, stored under the only jti that the token verifies to, stays
-- refused: after any requests to the backend, of whichever users, in any order of their steps and with
-- pauses of any length, a refresh with it is answered with an error and changes nothing.
pub spent-refused :
    (s : Surroundings) (jti id token : String) (qs : List Request) (es : List Event) (w : World)
    → IsStored jti id w
    → IsUsed id w
    → Names s.platform jti token
    → (e : Failure) × (run
          (Refresh.refresh s.platform token)
          (interleave wait es (map (handle s) qs) w).1
        ≡ (err e, (interleave wait es (map (handle s) qs) w).1))
spent-refused s jti id token qs es w stored used names =
    let later =
      interleave-Keeps (IsOver jti id) wait
        (λ n v over. (
          record {
            sound = over.0.sound;
            bound = over.0.bound;
            has_id = over.0.has_id;
            has_jti = over.0.has_jti;
          },
          over.1,
        ))
        es (map (handle s) qs) w (requests-Keeps s jti id qs) (stored, used) in
    over-refused s.platform jti id token _ later names _ refl

-- No active token was ever revoked or replaced: this stays so, whichever requests to the backend take
-- turns in whatever order of their steps.
pub requests-TableIsSound :
    (s : Surroundings) (qs : List Request) (es : List Event) (w : World)
    → TableIsSound w
    → TableIsSound (interleave wait es (map (handle s) qs) w).1
requests-TableIsSound s qs es w sound =
    interleave-Keeps TableIsSound wait (λ n v h. h) es (map (handle s) qs) w (kept qs) sound
  where
    kept : (rs : List Request) → All (Keeps TableIsSound) (map (handle s) rs)
    kept [] = tt
    kept (r ∷ rs) = (Moves-Keeps (λ v v' e. Evolves-IsSound e) (handle-Evolves s r), kept rs)
