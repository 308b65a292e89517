-- ===== src/Platform.antt =====
-- What the handlers take from the packages `jose`, `argon2` and `@nestjs/jwt`, from `node:crypto`
-- and from the configuration: a record of functions, which the definitions take as a parameter.
use master_gateway_auth.Prelude.{ℕ, ◌<◌, String, Bool, true, Option, some, List, ◌≡◌, ◌≢◌, includes}

-- A JWT's claims, as `jwtVerify` returns them: nothing says that a claim is there.
pub record Payload : Type 0 where
  pub sub : Option String
  pub jti : Option String
  pub role_id : Option String
  pub role_name : Option String
  pub token_use : Option String
  pub permissions : Option (List String)
  pub iat : ℕ
  pub exp : ℕ
  pub iss : String
  pub aud : String

pub record VerifyOptions : Type 0 where
  pub issuer : String
  pub audience : String
  pub algorithms : List String

-- `TempTokenPayload` of auth.service.ts
pub record TempToken : Type 0 where
  pub sub : String
  pub jti : String
  pub email : String

pub record Platform : Type 0 where
  -- `randomUUID()`, and the ids that the database draws: the value of the n-th draw
  pub uuid : ℕ → String
  -- `argon2.hash`, with the salt that the n-th draw gives, and `argon2.verify`
  pub argon_hash : ℕ → String → String
  pub argon_verify : String → String → Bool
  -- `new SignJWT(claims).setProtectedHeader({ alg, typ }).….sign(privateKey)`
  pub jws_sign : String → String → Payload → String
  -- `jwtVerify(token, publicKey, options)` at a time in seconds
  pub jws_verify : String → VerifyOptions → ℕ → String → Option Payload
  -- the seconds that `setExpirationTime` reads in a text such as '15m'
  pub seconds_of : String → ℕ
  -- `JwtService.signAsync(payload, { expiresIn })`, `JwtService.verifyAsync`
  pub temp_sign : TempToken → String → ℕ → String
  pub temp_verify : ℕ → String → Option TempToken
  -- `KeysService.getPrivateKey`, `getPublicKey`
  pub private_key : String
  pub public_key : String
  -- `configService.get` and `process.env`
  pub jwt_issuer : Option String
  pub jwt_audience : Option String
  pub internal_api_key : Option String
  pub internal_allowed_services : Option String

-- The documented behaviour of `jose` on a key pair: a token that the private key signed verifies,
-- to the claims that were signed, while it has not expired and if issuer, audience and algorithm
-- are the expected ones.
pub record SignsAndVerifies (pf : Platform) : Type 0 where
  pub verify_sign :
      (alg : String) (p : Payload) (o : VerifyOptions) (now : ℕ)
      → p.iss ≡ o.issuer
      → p.aud ≡ o.audience
      → includes alg o.algorithms ≡ true
      → now < p.exp
      → pf.jws_verify pf.public_key o now (pf.jws_sign pf.private_key alg p) ≡ some p

-- The documented behaviour of `argon2`: a text verifies against its own hash.
pub record Hashes (pf : Platform) : Type 0 where
  pub verify_hash :
      (salt : ℕ) (text : String) → pf.argon_verify (pf.argon_hash salt text) text ≡ true

-- Random UUIDs do not repeat.
pub record DrawsApart (pf : Platform) : Type 0 where
  pub apart : (m n : ℕ) → m ≢ n → pf.uuid m ≢ pf.uuid n
