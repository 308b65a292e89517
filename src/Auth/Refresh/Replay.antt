-- ===== src/Auth/Refresh/Replay.antt =====
-- auth.service.ts: a refresh token that comes back, and the soundness of the table.
use master_gateway_auth.Prelude.{
  subst, String, true, false, not, ◌||◌, none, some, List, [], ◌∷◌, ◌≡◌, ◌≢◌, refl, ◌⊎◌, ◌∙◌, ap,
  inl, inr, arith, ◌==◌, is_some, has_text, update_where, All, All-find, any, Bool-cases, ℕ,
}
use mathlib.Core.Option
use master_gateway_auth.Prog.{ok, err, run, unauthorized}
use master_gateway_auth.Prog.Keeps.{Keeps}
use master_gateway_auth.Prog.Moves.{Moves-Keeps}
use master_gateway_auth.Prog.Runs.{run-if_true, run-if_false}
use master_gateway_auth.Db.{activo, is_active, Role, RefreshToken, World}
use master_gateway_auth.Platform.{Platform}
use master_gateway_auth.Token.{Claims, TokenUse, verify_gateway_token}
use master_gateway_auth.Auth.Session.{in_family, revoke_row, revoke_token_family}
use master_gateway_auth.Auth.Life.{IsSound, Evolves-IsSound}
use master_gateway_auth.Auth.Refresh
use master_gateway_auth.Auth.Refresh.Steps.{Moves-refresh, Moves-logout}
use master_gateway_auth.Auth.Refresh.Rotation.{run-refresh_verified}

-- No active token was ever revoked or replaced.
abbrev pub TableIsSound : World → Type 0
TableIsSound w = All IsSound w.refresh_tokens

-- Each step of a refresh and of a logout keeps the table sound, whatever other requests do between
-- the steps.
pub refresh-TableIsSound :
    (pf : Platform) (user_id token : String)
    → Keeps TableIsSound (Refresh.refresh pf token)
      × Keeps TableIsSound (Refresh.logout pf user_id token)
refresh-TableIsSound pf user_id token = (
  Moves-Keeps (λ s s' e. Evolves-IsSound e) (Moves-refresh pf token),
  Moves-Keeps (λ s s' e. Evolves-IsSound e) (Moves-logout pf user_id token),
)

-- What is found by its jti has what all rows have.
pub All-stored :
    (P : RefreshToken → Type 0) (w : World) (jti : String) (t : RefreshToken) (role : Role)
    → All P w.refresh_tokens
    → Refresh.stored_token w jti ≡ some (t, role)
    → P t
All-stored P w jti t role h e =
    let (u, found, rest) = (Option.bind-eq-some_iff _ _).0 e in
    let (r, got, pair) = (Option.map-eq-some_iff _ _).0 rest in
    let (holds, hit) = All-find P (λ v. v.jti == jti) w.refresh_tokens h found in
    subst P (ap (λ p. p.0) pair) holds

pub run-inactive :
    (pf : Platform) (token : String) (t : RefreshToken) (role : Role) (w : World)
    → is_active t.estado ≡ false
    → run (Refresh.refresh_found pf token (some (t, role))) w
      ≡ (err (unauthorized "Refresh token invalido"), w)
unfolding Refresh.refresh_found
run-inactive pf token t role w e = run-if_true (not (is_active t.estado)) _ _ w (ap not e)

sound-inactive :
    (t : RefreshToken)
    → IsSound t
    → (t.revoked_at ≢ none) ⊎ (t.replaced_by_jti ≢ none)
    → is_active t.estado ≡ false
sound-inactive t s (inl h) = ground arith
sound-inactive t s (inr h) = ground arith

-- In a sound table, presenting a token whose row was revoked or replaced changes nothing: the answer
-- is that the token is invalid, and no token of its family is revoked.
pub replay_changes_nothing :
    (pf : Platform) (token : String) (c : Claims) (t : RefreshToken) (role : Role) (w : World)
    → verify_gateway_token pf token w.clock (some TokenUse.refresh) ≡ ok c
    → Refresh.stored_token w c.jti ≡ some (t, role)
    → TableIsSound w
    → (t.revoked_at ≢ none) ⊎ (t.replaced_by_jti ≢ none)
    → run (Refresh.refresh pf token) w ≡ (err (unauthorized "Refresh token invalido"), w)
replay_changes_nothing pf token c t role w verified stored sound used =
    run-refresh_verified pf token w c verified
    ∙ ap (λ f. run (Refresh.refresh_found pf token f) w) stored
    ∙ run-inactive pf token t role w
        (sound-inactive t (All-stored IsSound w c.jti t role sound stored) used)

-- The state after the family of a user and a role is revoked.
abbrev pub family_revoked : String → String → World → World
family_revoked user_id role_id w = record w {
  refresh_tokens = update_where (in_family user_id role_id) (revoke_row w.clock) w.refresh_tokens;
}

revoked-rows :
    (user_id role_id : String) (now : ℕ) (ts : List RefreshToken)
    → any (in_family user_id role_id) (update_where (in_family user_id role_id) (revoke_row now) ts)
      ≡ false
revoked-rows user_id role_id now [] = refl
revoked-rows user_id role_id now (t ∷ ts) = elim (Bool-cases (in_family user_id role_id t)) [
  | inl hit ↦ rw hit (ground (arith, revoked-rows user_id role_id now ts))
  | inr miss ↦ rw miss (ground (arith, revoked-rows user_id role_id now ts))
]

run-reused :
    (pf : Platform) (token : String) (t : RefreshToken) (role : Role) (w : World)
    → is_active t.estado ≡ true
    → (is_some t.revoked_at || has_text t.replaced_by_jti) ≡ true
    → run (Refresh.refresh_found pf token (some (t, role))) w
      ≡ (err (unauthorized "Refresh token reutilizado"), family_revoked t.user_id t.role_id w)
unfolding Refresh.refresh_found revoke_token_family
run-reused pf token t role w active used =
    run-if_false (not (is_active t.estado)) _ _ w (ap not active)
    ∙ run-if_true (is_some t.revoked_at || has_text t.replaced_by_jti) _ _ w used

-- Where the stored row is active and yet revoked or replaced, the answer is that the token was
-- reused, and afterwards the table has no active row of its user and role.
pub reuse_revokes_family :
    (pf : Platform) (token : String) (c : Claims) (t : RefreshToken) (role : Role) (w : World)
    → verify_gateway_token pf token w.clock (some TokenUse.refresh) ≡ ok c
    → Refresh.stored_token w c.jti ≡ some (t, role)
    → t.estado ≡ activo
    → (is_some t.revoked_at || has_text t.replaced_by_jti) ≡ true
    → (run (Refresh.refresh pf token) w
        ≡ (err (unauthorized "Refresh token reutilizado"), family_revoked t.user_id t.role_id w))
      × (any (in_family t.user_id t.role_id) (run (Refresh.refresh pf token) w).1.refresh_tokens
          ≡ false)
reuse_revokes_family pf token c t role w verified stored active used =
    let same =
      run-refresh_verified pf token w c verified
      ∙ ap (λ f. run (Refresh.refresh_found pf token f) w) stored
      ∙ run-reused pf token t role w (ap is_active active) used in
    (
      same,
      ap (λ r. any (in_family t.user_id t.role_id) r.1.refresh_tokens) same
          ∙ revoked-rows t.user_id t.role_id w.clock w.refresh_tokens,
    )
