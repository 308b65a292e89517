-- ===== src/Auth/Refresh.antt =====
-- auth.service.ts: `refresh`, the rotation of a refresh token, and `logout`.
pub mod Steps
pub mod Once
pub mod Rotation
pub mod Replay
use master_gateway_auth.Prelude.{
  ℕ, String, Bool, true, not, ◌&&◌, ◌||◌, Option, none, some, ◌==◌, leb, eqb, if◌then◌else◌,
  is_some, has_text, find, count_where, update_where, any,
}
use mathlib.Core.Option
use master_gateway_auth.Prog.{
  Prog, ret, raise, atomic, unauthorized, database, query, catch, ◌>>=◌, ◌>>◌,
}
use master_gateway_auth.Db.{inactivo, is_active, Role, RefreshToken, World, read_clock, role_by_id}
use master_gateway_auth.Platform.{Platform}
use master_gateway_auth.Auth.Session.{
  SessionTokens, revoke_token_family, issue_session_tokens, verify_refresh_token,
}

-- `findUnique({ where: { jti }, include: { role: true } })`; the foreign key says that the role
-- is there.
abbrev pub with_role : World → RefreshToken → Option (RefreshToken × Role)
with_role w t = Option.map (λ r. (t, r)) (role_by_id w t.role_id)

abbrev pub token_by_jti : World → String → Option RefreshToken
token_by_jti w jti = find (λ t. t.jti == jti) w.refresh_tokens

abbrev pub stored_token : World → String → Option (RefreshToken × Role)
stored_token w jti = Option.bind (token_by_jti w jti) (with_role w)

-- `data: { revokedAt: new Date(), estado: INACTIVO }`
abbrev pub spend : ℕ → RefreshToken → RefreshToken
spend now t = record t { revoked_at = some now; estado = inactivo }

abbrev pub replace : ℕ → String → RefreshToken → RefreshToken
replace now jti t = record t {
  revoked_at = some now;
  replaced_by_jti = some jti;
  estado = inactivo;
}

abbrev pub change_tokens : (RefreshToken → Bool) → (RefreshToken → RefreshToken) → World → World
change_tokens p f w = record w { refresh_tokens = update_where p f w.refresh_tokens }

-- `prisma.refreshToken.update({ where: { id } })`: an error if there is no such row
abbrev pub update_token : String → (RefreshToken → RefreshToken) → Prog World (Unit {0})
update_token id f =
    atomic (change_tokens (λ t. t.id == id) f)
      (λ w. if any (λ t. t.id == id) w.refresh_tokens then ret tt else raise (database "P2025"))

-- The condition of the atomic claim.
abbrev pub claimable : String → RefreshToken → Bool
claimable id t =
    t.id == id
    && is_active t.estado
    && not (is_some t.revoked_at)
    && not (is_some t.replaced_by_jti)

-- `updateMany`: the number of rows that it changed
unfoldable pub claim : String → ℕ → Prog World ℕ
claim id now =
    atomic (change_tokens (claimable id) (spend now))
      (λ w. ret (count_where (claimable id) w.refresh_tokens))

-- `where: { userId, jti, estado: ACTIVO }`
abbrev pub logout_row : String → String → RefreshToken → Bool
logout_row user_id jti t = t.user_id == user_id && t.jti == jti && is_active t.estado

module _ (pf : Platform) where
  -- What follows the claim: `count` rows were claimed.
  unfoldable pub refresh_claimed : RefreshToken → Role → ℕ → Prog World SessionTokens
  refresh_claimed t role count =
      if not (eqb count 1)
      then (do
        revoke_token_family t.user_id t.role_id
        raise (unauthorized "Refresh token reutilizado"))
      else do
        next ← issue_session_tokens pf t.user_id t.role_id role.name
        now ← read_clock
        update_token t.id (replace now next.refresh_token_jti)
        ret next

  -- The checks on the stored row, in their order.
  unfoldable pub refresh_found : String → Option (RefreshToken × Role) → Prog World SessionTokens
  refresh_found token none = raise (unauthorized "Refresh token invalido")
  refresh_found token (some (t, role)) =
      if not (is_active t.estado)
      then raise (unauthorized "Refresh token invalido")
      else if is_some t.revoked_at || has_text t.replaced_by_jti
      then (do
        revoke_token_family t.user_id t.role_id
        raise (unauthorized "Refresh token reutilizado"))
      else do
        now ← read_clock
        if leb t.expires_at now
            then (do
              revoked ← read_clock
              update_token t.id (spend revoked)
              raise (unauthorized "Refresh token expirado"))
            else if not (pf.argon_verify t.token_hash token)
            then raise (unauthorized "Refresh token invalido")
            else do spent ← read_clock; count ← claim t.id spent; refresh_claimed t role count

  unfoldable pub refresh : String → Prog World SessionTokens
  refresh token = do
    payload ← verify_refresh_token pf token
    stored ← query (λ w. stored_token w payload.jti)
    refresh_found token stored

  -- Every path answers `{ success: true }`.
  unfoldable pub logout : String → String → Prog World Bool
  logout user_id token =
      catch
        (do
          payload ← verify_refresh_token pf token
          now ← read_clock
          atomic (change_tokens (logout_row user_id payload.jti) (spend now)) (λ w. ret true))
        (ret true)
