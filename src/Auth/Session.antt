-- ===== src/Auth/Session.antt =====
-- auth.service.ts: the tokens of a session, their storage, and how a family is revoked.
pub mod Issue
pub mod Permissions
use Prim.Native.Char.{code}
use master_gateway_auth.Prelude.{
  Option, ℕ, ◌+◌, ◌*◌, String, Bool, true, false, ◌&&◌, none, some, List, [], ◌∷◌, ◌++◌, ◌==◌, ltb,
  eqb, if◌then◌else◌, map, select, any, update_where,
}
use master_gateway_auth.Prog.{
  Prog, ret, raise, atomic, unauthorized, database, query, modify, lift, catch, ◌>>=◌, ◌>>◌,
}
use master_gateway_auth.Db.{
  activo, inactivo, is_active, Permission, RoleLink, RefreshToken, World, read_clock, draw,
}
use master_gateway_auth.Platform.{Platform}
use master_gateway_auth.Token.{
  Claims, SignInput, TokenUse, access, refresh, sign_gateway_token, verify_gateway_token,
}

pub record SessionTokens : Type 0 where
  pub access_token : String
  pub refresh_token : String
  pub refresh_token_jti : String
  pub token_type : String
  pub expires_in : String
  pub role_id : String
  pub role_name : String
  pub permissions : List String

-- The order of `Array.sort` on texts, by code points.
text_le : String → String → Bool
text_le String.[] t = true
text_le (String.◌∷◌ c s) String.[] = false
text_le (String.◌∷◌ c s) (String.◌∷◌ d t) =
    let rest = text_le s t in
    if ltb (code c) (code d) then true else if eqb (code c) (code d) then rest else false

insert_text : String → List String → List String
insert_text s [] = s ∷ []
insert_text s (t ∷ ts) = if text_le s t then s ∷ t ∷ ts else t ∷ insert_text s ts

-- `.sort()`
unfoldable pub sort : List String → List String
unfolding text_le insert_text
sort [] = []
sort (s ∷ ts) = insert_text s (sort ts)

abbrev code_of : List Permission → RoleLink → List String
code_of ps l = map (λ p. p.code) (select (λ p. p.id == l.target_id && is_active p.estado) ps)

abbrev codes_of : List Permission → List RoleLink → List String
codes_of ps [] = []
codes_of ps (l ∷ ls) = code_of ps l ++ codes_of ps ls

-- The codes of the active permissions of a role.
unfoldable pub permissions_in : World → String → List String
permissions_in w role_id = sort (
    codes_of w.permissions
      (select (λ l. l.role_id == role_id && is_active l.estado) w.role_permissions))

abbrev pub permissions_for_role : String → Prog World (List String)
permissions_for_role role_id = query (λ w. permissions_in w role_id)

-- `addDays(date, 7)` in milliseconds, on a clock without changes of daylight saving time
abbrev pub add_days : ℕ → ℕ → ℕ
add_days date days = date + days * 86400000

abbrev pub taken : RefreshToken → List RefreshToken → Bool
taken t ts = any (λ u. u.jti == t.jti) ts

abbrev pub id_taken : RefreshToken → List RefreshToken → Bool
id_taken t ts = any (λ u. u.id == t.id) ts

-- `prisma.refreshToken.create`: the unique columns `id` and `jti` are checked.
abbrev pub store_token : RefreshToken → Prog World (Unit {0})
store_token t =
    atomic
      (λ w.
        if taken t w.refresh_tokens
        then w
        else if id_taken t w.refresh_tokens
        then w
        else record w { refresh_tokens = w.refresh_tokens ++ t ∷ [] })
      (λ w.
        if taken t w.refresh_tokens
        then raise (database "P2002")
        else if id_taken t w.refresh_tokens
        then raise (database "P2002")
        else ret tt)

abbrev pub new_token : (id user_id role_id jti hash : String) → ℕ → RefreshToken
new_token id user_id role_id jti hash expires = record {
  id = id;
  user_id = user_id;
  role_id = role_id;
  jti = jti;
  token_hash = hash;
  expires_at = expires;
  revoked_at = none;
  replaced_by_jti = none;
  reuse_detected = false;
  estado = activo;
  created_by = some user_id;
  updated_by = none;
}

abbrev pub revoke_row : ℕ → RefreshToken → RefreshToken
revoke_row now t = record t { revoked_at = some now; reuse_detected = true; estado = inactivo }

abbrev pub in_family : String → String → RefreshToken → Bool
in_family user_id role_id t = t.user_id == user_id && t.role_id == role_id && is_active t.estado

-- The whole family of a user and a role is revoked.
unfoldable pub revoke_token_family : String → String → Prog World (Unit {0})
revoke_token_family user_id role_id = do
  now ← read_clock
  modify (λ w. record w {
    refresh_tokens = update_where (in_family user_id role_id) (revoke_row now) w.refresh_tokens;
  })

module _ (pf : Platform) where
  abbrev sign_input :
      (user_id role_id role_name jti : String)
      → TokenUse
      → Option (List String)
      → String
      → SignInput
  sign_input user_id role_id role_name jti use' permissions expires_in = record {
    sub = user_id;
    jti = jti;
    role_id = role_id;
    role_name = role_name;
    token_use = use';
    permissions = permissions;
    expires_in = expires_in;
  }

  -- The session for the ids that were drawn: `issued` and `issued_refresh` are the times at which
  -- the two tokens are signed.
  unfoldable pub session_of :
      (user_id role_id role_name access_jti refresh_jti : String)
      → List String
      → ℕ
      → ℕ
      → SessionTokens
  session_of user_id role_id role_name access_jti refresh_jti permissions issued issued_refresh =
      record {
        access_token =
            sign_gateway_token pf
              (sign_input user_id role_id role_name access_jti access (some permissions) "15m")
              issued;
        refresh_token =
            sign_gateway_token pf
              (sign_input user_id role_id role_name refresh_jti refresh none "7d") issued_refresh;
        refresh_token_jti = refresh_jti;
        token_type = "Bearer";
        expires_in = "15m";
        role_id = role_id;
        role_name = role_name;
        permissions = permissions;
      }

  -- The row of a session's refresh token.
  abbrev pub session_row : String → SessionTokens → (id : String) → ℕ → ℕ → RefreshToken
  session_row user_id s id salt now =
      new_token id user_id s.role_id s.refresh_token_jti (pf.argon_hash salt s.refresh_token)
        (add_days now 7)

  unfoldable pub issue_session_tokens :
      (user_id role_id role_name : String) → Prog World SessionTokens
  unfolding session_of permissions_in
  issue_session_tokens user_id role_id role_name = do
    access_draw ← draw
    refresh_draw ← draw
    permissions ← permissions_for_role role_id
    issued ← read_clock
    issued_refresh ← read_clock
    let session =
        session_of user_id role_id role_name (pf.uuid access_draw) (pf.uuid refresh_draw)
          permissions issued issued_refresh
    now ← read_clock
    salt ← draw
    row ← draw
    store_token (session_row user_id session (pf.uuid row) salt now)
    ret session

  unfoldable pub verify_refresh_token : String → Prog World Claims
  verify_refresh_token token = do
    now ← read_clock
    catch (lift (verify_gateway_token pf token now (some refresh)))
        (raise (unauthorized "Refresh token invalido o expirado"))
