-- ===== src/Token.antt =====
-- backend/src/common/auth/gateway-token.ts: the access and refresh tokens of the gateway.
pub mod Laws
use Prim.Native.String
use master_gateway_auth.Prelude.{
  ℕ, ◌+◌, ◌/◌, String, Bool, true, false, not, ◌&&◌, ◌||◌, Option, none, some, List, [], ◌∷◌, ◌==◌,
  or_else, has_text, if◌then◌else◌,
}
use master_gateway_auth.Prog.{Result, ok, err, Failure, thrown}
use master_gateway_auth.Platform.{Platform, Payload, VerifyOptions}

abbrev pub algorithm : String
algorithm = "RS256"

pub data TokenUse : Type 0 where
  access refresh : TokenUse

-- The text of the claim `token_use`.
abbrev pub use_text : TokenUse → String
use_text access = "access"
use_text refresh = "refresh"

-- `GatewayTokenClaims`: `sub`, `jti` and `roleId` are checked, the rest is cast.
pub record Claims : Type 0 where
  pub sub : String
  pub jti : String
  pub role_id : String
  pub role_name : Option String
  pub token_use : Option String
  pub permissions : Option (List String)
  pub iat : ℕ
  pub exp : ℕ

pub record SignInput : Type 0 where
  pub sub : String
  pub jti : String
  pub role_id : String
  pub role_name : String
  pub token_use : TokenUse
  pub permissions : Option (List String)
  pub expires_in : String

-- A refresh token carries no permissions.
abbrev pub permissions_claim : TokenUse → Option (List String) → Option (List String)
permissions_claim access ps = some (or_else ps [])
permissions_claim refresh ps = none

module _ (pf : Platform) where
  abbrev pub issuer_of : String
  issuer_of = or_else pf.jwt_issuer "master-gateway"

  abbrev pub audience_of : String
  audience_of = or_else pf.jwt_audience "master-gateway-clients"

  abbrev pub payload_of : SignInput → ℕ → Payload
  payload_of i now = record {
    sub = some i.sub;
    jti = some i.jti;
    role_id = some i.role_id;
    role_name = some i.role_name;
    token_use = some (use_text i.token_use);
    permissions = permissions_claim i.token_use i.permissions;
    iat = now / 1000;
    exp = now / 1000 + pf.seconds_of i.expires_in;
    iss = issuer_of;
    aud = audience_of;
  }

  -- `now` is the clock in milliseconds; `setIssuedAt` and the expiry count seconds.
  unfoldable pub sign_gateway_token : SignInput → ℕ → String
  sign_gateway_token i now = pf.jws_sign pf.private_key algorithm (payload_of i now)

abbrev claims_from : Payload → Option String → Option String → Option String → Option Claims
claims_from p (some sub) (some jti) (some role) =
    if not (sub == "") && not (jti == "") && not (role == "")
    then some (record {
      sub = sub;
      jti = jti;
      role_id = role;
      role_name = p.role_name;
      token_use = p.token_use;
      permissions = p.permissions;
      iat = p.iat;
      exp = p.exp;
    })
    else none
claims_from p _ _ _ = none

-- `!claims.sub || !claims.jti || !claims.roleId`
unfoldable pub claims_of : Payload → Option Claims
claims_of p = claims_from p p.sub p.jti p.role_id

-- `claims.token_use !== expectedUse` does not hold
abbrev pub use_is : TokenUse → Option String → Bool
use_is u none = false
use_is u (some s) = s == use_text u

abbrev pub wrong_use : TokenUse → Option String → String
wrong_use u given =
    String.◌++◌ "Se esperaba un token de tipo "
      (String.◌++◌ (use_text u) (String.◌++◌ " y llego " (or_else given "undefined")))

abbrev pub check_use : Option TokenUse → Claims → Result Claims
check_use none c = ok c
check_use (some u) c = if use_is u c.token_use then ok c else err (thrown (wrong_use u c.token_use))

abbrev pub check_claims : Option TokenUse → Option Claims → Result Claims
check_claims u none = err (thrown "Token del Gateway incompleto")
check_claims u (some c) = check_use u c

abbrev pub check_payload : Option TokenUse → Option Payload → Result Claims
check_payload u none = err (thrown "JWSInvalid")
check_payload u (some p) = check_claims u (claims_of p)

module _ (pf : Platform) where
  abbrev pub verify_options : VerifyOptions
  verify_options = record {
    issuer = issuer_of pf;
    audience = audience_of pf;
    algorithms = algorithm ∷ [];
  }

  unfoldable pub verify_gateway_token : String → ℕ → Option TokenUse → Result Claims
  unfolding claims_of
  verify_gateway_token token now expected =
      check_payload expected (pf.jws_verify pf.public_key verify_options (now / 1000) token)
