-- ===== src/Tests/Sample.antt =====
-- A platform that can be run, whose tokens are texts that hold what was signed. Its hours are short:
-- a text such as "15m" is read as that many seconds.
use master_gateway_auth.Prelude.{
  ℕ, ◌<◌, String, Bool, true, ◌&&◌, Option, none, some, List, ◌≡◌, refl, ap, ◌∙◌, arith, ◌==◌,
  eq_iff, ltb, if◌then◌else◌, includes,
}
use Prim.Native.String
use master_gateway_auth.Platform.{Platform, Payload, VerifyOptions, TempToken, SignsAndVerifies}
use master_gateway_auth.Tests.Codec

abbrev Part : Type 0
Part = Option String

abbrev Parts : Type 0
Parts =
    (Part × (Part × (Part × (Part × Part))))
    × ((Option (List String)) × ((ℕ × ℕ) × (String × String)))

abbrev to_parts : Payload → Parts
to_parts p = (
  (p.sub, (p.jti, (p.role_id, (p.role_name, p.token_use)))),
  (p.permissions, ((p.iat, p.exp), (p.iss, p.aud))),
)

abbrev of_parts : Parts → Payload
of_parts ((sub, (jti, (role, (name, use')))), (permissions, ((iat, exp), (iss, aud)))) = record {
  sub = sub;
  jti = jti;
  role_id = role;
  role_name = name;
  token_use = use';
  permissions = permissions;
  iat = iat;
  exp = exp;
  iss = iss;
  aud = aud;
}

abbrev part : Codec.Codec Part
part = Codec.option Codec.text

abbrev parts : Codec.Codec Parts
parts = Codec.pair (Codec.pair part (Codec.pair part (Codec.pair part (Codec.pair part part)))) (
    Codec.pair (Codec.option (Codec.list Codec.text))
      (Codec.pair (Codec.pair Codec.natural Codec.natural) (Codec.pair Codec.text Codec.text)))

-- The key, the algorithm and the payload.
abbrev signed : Codec.Codec (String × (String × Parts))
signed = Codec.pair Codec.text (Codec.pair Codec.text parts)

abbrev sign : String → String → Payload → String
sign key alg p = signed.put (key, (alg, to_parts p)) ""

abbrev accepts : String → VerifyOptions → ℕ → String → String → Payload → Bool
accepts key o now k alg p =
    k == key
    && (includes alg o.algorithms && (p.iss == o.issuer && (p.aud == o.audience && ltb now p.exp)))

abbrev checked :
    String → VerifyOptions → ℕ → Option ((String × (String × Parts)) × String) → Option Payload
checked key o now none = none
checked key o now (some ((k, (alg, t)), rest)) =
    if accepts key o now k alg (of_parts t) then some (of_parts t) else none

abbrev verify : String → VerifyOptions → ℕ → String → Option Payload
verify key o now token = checked key o now (signed.get token)

verify-sign :
    (key alg : String) (p : Payload) (o : VerifyOptions) (now : ℕ)
    → p.iss ≡ o.issuer
    → p.aud ≡ o.audience
    → includes alg o.algorithms ≡ true
    → now < p.exp
    → verify key o now (sign key alg p) ≡ some p
verify-sign key alg p o now iss aud listed fresh =
    let same : accepts key o now key alg p ≡ true =
      ground (arith, eq_iff key key, eq_iff p.iss o.issuer, eq_iff p.aud o.audience) in
    ap (checked key o now) (signed.law (key, (alg, to_parts p)) "") ∙ rw same refl

-- The temporary tokens: their three claims.
abbrev temporary : Codec.Codec (String × (String × String))
temporary = Codec.pair Codec.text (Codec.pair Codec.text Codec.text)

abbrev temp_sign : TempToken → String → ℕ → String
temp_sign t lifetime now = temporary.put (t.sub, (t.jti, t.email)) ""

abbrev temp_verify : ℕ → String → Option TempToken
temp_verify now token = elim (temporary.get token) [
  | none ↦ none
  | some ((sub, (jti, email)), rest) ↦ some (record { sub = sub; jti = jti; email = email })
]

abbrev pub platform : Platform
platform = record {
  uuid = λ n. Codec.natural.put n "";
  argon_hash = λ salt t. String.◌++◌ "hash:" t;
  argon_verify = λ hash t. hash == String.◌++◌ "hash:" t;
  jws_sign = sign;
  jws_verify = verify;
  seconds_of = λ t. if t == "15m" then 15 else 70;
  temp_sign = temp_sign;
  temp_verify = temp_verify;
  private_key = "key";
  public_key = "key";
  jwt_issuer = none;
  jwt_audience = none;
  internal_api_key = some "internal";
  internal_allowed_services = some "orders, billing";
}

pub platform-SignsAndVerifies : SignsAndVerifies platform
platform-SignsAndVerifies = record { verify_sign = verify-sign "key" }
