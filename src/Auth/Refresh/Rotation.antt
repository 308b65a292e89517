-- ===== src/Auth/Refresh/Rotation.antt =====
-- auth.service.ts: a refresh that runs alone, from the checks to the new session.
use master_gateway_auth.Prelude.{
  any-append, any_of_count, ◌<◌, String, true, false, not, ◌||◌, Option, none, some, [], ◌∷◌, ◌≡◌,
  refl, sym, ◌∙◌, ap, arith, ◌==◌, leb, is_some, has_text, if◌then◌else◌, any, count_where,
}
use master_gateway_auth.Prog.{
  ret, raise, ok, err, Result, run, lift, catch, query, unauthorized, database, ◌>>=◌,
}
use master_gateway_auth.Prog.Runs.{run-bind, run-if_ok, run_ends, run-if_false}
use master_gateway_auth.Db.{activo, is_active, Role, RefreshToken, World}
use master_gateway_auth.Platform.{Platform}
use master_gateway_auth.Token.{Claims, TokenUse, verify_gateway_token}
use master_gateway_auth.Auth.Session.{
  SessionTokens, verify_refresh_token, revoke_token_family, issue_session_tokens,
}
use master_gateway_auth.Auth.Session.Issue.{
  session_at, row_at, HasRoom, world_after, issue_with_room,
}
use master_gateway_auth.Auth.Refresh
use master_gateway_auth.Auth.Life.{retire, Evolves-any_id}
use master_gateway_auth.Auth.Refresh.Steps.{spend-Retires}

-- The stored row passes every check of `refresh` at the state `w`.
pub record IsUsable (pf : Platform) (token : String) (t : RefreshToken) (role : Role) (w : World)
    : Type 0 where
  pub claims : Claims
  pub verified : verify_gateway_token pf token w.clock (some TokenUse.refresh) ≡ ok claims
  pub stored : Refresh.stored_token w claims.jti ≡ some (t, role)
  pub active : t.estado ≡ activo
  pub unrevoked : t.revoked_at ≡ none
  pub unreplaced : has_text t.replaced_by_jti ≡ false
  pub unexpired : w.clock < t.expires_at
  pub hash : pf.argon_verify t.token_hash token ≡ true

-- The state after the claim.
abbrev pub claimed : RefreshToken → World → World
claimed t w = Refresh.change_tokens (Refresh.claimable t.id) (Refresh.spend w.clock) w

module _ (pf : Platform) (t : RefreshToken) (role : Role) (w : World) where
  abbrev pub next_session : SessionTokens
  next_session = session_at pf t.user_id t.role_id role.name (claimed t w)

  -- The old row carries the new jti, and the new row is stored.
  abbrev pub rotated : World
  rotated =
      Refresh.change_tokens (λ u. u.id == t.id)
        (Refresh.replace w.clock next_session.refresh_token_jti)
        (world_after pf t.user_id t.role_id role.name (claimed t w))

module _ (pf : Platform) (token : String) where
  run-verify :
      (w : World) (c : Claims)
      → verify_gateway_token pf token w.clock (some TokenUse.refresh) ≡ ok c
      → run (verify_refresh_token pf token) w ≡ (ok c, w)
  unfolding verify_refresh_token
  run-verify w c e =
      ap (λ r. run (catch (lift r) (raise (unauthorized "Refresh token invalido o expirado"))) w) e

  pub run-refresh_verified :
      (w : World) (c : Claims)
      → verify_gateway_token pf token w.clock (some TokenUse.refresh) ≡ ok c
      → run (Refresh.refresh pf token) w
        ≡ run (Refresh.refresh_found pf token (Refresh.stored_token w c.jti)) w
  unfolding Refresh.refresh
  run-refresh_verified w c e = run-bind (verify_refresh_token pf token) _ w ∙ rw (run-verify w c e)

module _ (pf : Platform) (t : RefreshToken) (role : Role) (w : World) where
  still_there :
      any (λ u. u.id == t.id) w.refresh_tokens ≡ true
      → any
          (λ u. u.id == t.id)
          (world_after pf t.user_id t.role_id role.name (claimed t w)).refresh_tokens
        ≡ true
  still_there there =
      any-append (λ u. u.id == t.id) (claimed t w).refresh_tokens
        (row_at pf t.user_id t.role_id role.name (claimed t w) ∷ [])
        (Evolves-any_id t.id
          (retire {ts = w.refresh_tokens} (Refresh.claimable t.id) (spend-Retires w.clock)) there)

  -- Exactly one row was claimed.
  run-refresh_claimed :
      HasRoom pf t.user_id t.role_id role.name (claimed t w)
      → any (λ u. u.id == t.id) w.refresh_tokens ≡ true
      → run (Refresh.refresh_claimed pf t role 1) (claimed t w)
        ≡ (ok (next_session pf t role w), rotated pf t role w)
  unfolding Refresh.refresh_claimed
  run-refresh_claimed room there =
      run-bind (issue_session_tokens pf t.user_id t.role_id role.name) _ (claimed t w)
      ∙ rw (issue_with_room pf t.user_id t.role_id role.name (claimed t w) room) (
          ap
            (λ b.
              run
                ((if b then ret tt else raise (database "P2025")) >>= λ _.
                  ret (next_session pf t role w))
                (rotated pf t role w))
            (still_there there))

  run-refresh_found :
      (token : String)
      → t.estado ≡ activo
      → t.revoked_at ≡ none
      → has_text t.replaced_by_jti ≡ false
      → w.clock < t.expires_at
      → pf.argon_verify t.token_hash token ≡ true
      → count_where (Refresh.claimable t.id) w.refresh_tokens ≡ 1
      → HasRoom pf t.user_id t.role_id role.name (claimed t w)
      → any (λ u. u.id == t.id) w.refresh_tokens ≡ true
      → run (Refresh.refresh_found pf token (some (t, role))) w
        ≡ (ok (next_session pf t role w), rotated pf t role w)
  unfolding Refresh.refresh_found Refresh.claim
  run-refresh_found token active unrevoked unreplaced unexpired hash one room there =
      let b1 : is_active t.estado ≡ true = ap is_active active in
      let b2 : is_some t.revoked_at ≡ false = ap is_some unrevoked in
      let b3 : leb t.expires_at w.clock ≡ false = ground arith in
      run-if_false (not (is_active t.estado)) _ _ w (ap not b1)
      ∙ run-if_false (is_some t.revoked_at || has_text t.replaced_by_jti) _ _ w
          (rw (b2, unreplaced))
      ∙ run-if_false (leb t.expires_at w.clock) _ _ w b3
      ∙ run-if_false (not (pf.argon_verify t.token_hash token)) _ _ w (ap not hash)
      ∙ ap (λ n. run (Refresh.refresh_claimed pf t role n) (claimed t w)) one
      ∙ run-refresh_claimed room there

claimable-id :
    (id : String) (x : RefreshToken) → Refresh.claimable id x ≡ true → (x.id == id) ≡ true
claimable-id id x h = ground arith

pub refresh-eq-rotated :
    (pf : Platform) (token : String) (t : RefreshToken) (role : Role) (w : World)
    → IsUsable pf token t role w
    → count_where (Refresh.claimable t.id) w.refresh_tokens ≡ 1
    → HasRoom pf t.user_id t.role_id role.name (claimed t w)
    → run (Refresh.refresh pf token) w ≡ (ok (next_session pf t role w), rotated pf t role w)
refresh-eq-rotated pf token t role w u one room =
    run-refresh_verified pf token w u.claims u.verified
    ∙ ap (λ f. run (Refresh.refresh_found pf token f) w) u.stored
    ∙ run-refresh_found pf t role w token u.active u.unrevoked u.unreplaced u.unexpired u.hash one
        room
        (any_of_count (Refresh.claimable t.id) (λ x. x.id == t.id) w.refresh_tokens
          (λ x. claimable-id t.id x) (omega arith))

module _ (pf : Platform) (token : String) (w : World) {s : SessionTokens} {w' : World} where
  found-IsUsable :
      (c : Claims)
      → verify_gateway_token pf token w.clock (some TokenUse.refresh) ≡ ok c
      → (found : Option (RefreshToken × Role)) → Refresh.stored_token w c.jti ≡ found
      → run (Refresh.refresh_found pf token found) w ≡ (ok s, w')
      → (t : RefreshToken) × (role : Role) × IsUsable pf token t role w
  unfolding Refresh.refresh_found revoke_token_family
  found-IsUsable c verified none stored e = cc
  found-IsUsable c verified (some (t, role)) stored e =
      let (b1, e1) = run-if_ok (not (is_active t.estado)) _ _ w refl e in
      let (b2, e2) = run-if_ok (is_some t.revoked_at || has_text t.replaced_by_jti) _ _ w refl e1 in
      let (x, v, late) =
        run_ends (Refresh.update_token t.id (Refresh.spend w.clock))
          (unauthorized "Refresh token expirado") w in
      let (b3, e3) = run-if_ok (leb t.expires_at w.clock) _ _ w late e2 in
      let (b4, e4) = run-if_ok (not (pf.argon_verify t.token_hash token)) _ _ w refl e3 in
      (
        t,
        role,
        record {
          claims = c;
          verified = verified;
          stored = stored;
          active = ground arith;
          unrevoked = ground arith;
          unreplaced = ground arith;
          unexpired = ground arith;
          hash = ground arith;
        },
      )

  by_verdict :
      (r : Result Claims)
      → verify_gateway_token pf token w.clock (some TokenUse.refresh) ≡ r
      → run (Refresh.refresh pf token) w ≡ (ok s, w')
      → (t : RefreshToken) × (role : Role) × IsUsable pf token t role w
  unfolding Refresh.refresh verify_refresh_token
  by_verdict (ok c) v e =
      found-IsUsable c v (Refresh.stored_token w c.jti) refl
        (sym (run-refresh_verified pf token w c v) ∙ e)
  by_verdict (err x) v e =
      let refused =
        ap
          (λ r.
            run
              (catch (lift r) (raise (unauthorized "Refresh token invalido o expirado"))
                >>= λ payload.
                    query (λ u. Refresh.stored_token u payload.jti)
                    >>= Refresh.refresh_found pf token)
              w)
          v in
      cc

-- A refresh that succeeds, when no other request runs between its steps, was made with a refresh
-- token that verifies and whose stored row is active, neither revoked nor replaced, not expired, and
-- has the hash of the token.
pub refresh-IsUsable :
    (pf : Platform) (token : String) (w : World) (s : SessionTokens) (w' : World)
    → run (Refresh.refresh pf token) w ≡ (ok s, w')
    → (t : RefreshToken) × (role : Role) × IsUsable pf token t role w
refresh-IsUsable pf token w s w' =
    by_verdict pf token w (verify_gateway_token pf token w.clock (some TokenUse.refresh)) refl
