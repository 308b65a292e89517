-- ===== src/Token/Laws.antt =====
-- gateway-token.ts: what a token that verifies says, and that each use has tokens of its own.
use master_gateway_auth.Prelude.{
  ℕ, ◌+◌, ◌/◌, ◌<◌, String, Option, none, some, ◌∙◌, ◌≡◌, ◌≢◌, refl, inl, inr, arith, ◌==◌, eq_iff,
  if◌then◌else◌, Bool-cases, Option-cases, ap, subst,
}
use master_gateway_auth.Prog.{ok, err, Failure, thrown}
use master_gateway_auth.Platform.{Platform, Payload, SignsAndVerifies}
use master_gateway_auth.Token.{
  algorithm, TokenUse, access, refresh, use_text, Claims, SignInput, permissions_claim, payload_of,
  sign_gateway_token, claims_of, claims_from, use_is, wrong_use, check_use, check_claims,
  verify_options, verify_gateway_token,
}

-- The claims that a signed input verifies to.
abbrev pub claims_signed : Platform → SignInput → ℕ → Claims
claims_signed pf i now = record {
  sub = i.sub;
  jti = i.jti;
  role_id = i.role_id;
  role_name = some i.role_name;
  token_use = some (use_text i.token_use);
  permissions = permissions_claim i.token_use i.permissions;
  iat = now / 1000;
  exp = now / 1000 + pf.seconds_of i.expires_in;
}

abbrev pub IsComplete : SignInput → Type 0
IsComplete i = (i.sub ≢ "") × (i.jti ≢ "") × (i.role_id ≢ "")

claims_of-payload_of :
    (pf : Platform) (i : SignInput) (now : ℕ)
    → IsComplete i
    → claims_of (payload_of pf i now) ≡ some (claims_signed pf i now)
unfolding claims_of
claims_of-payload_of pf i now h =
    ground (arith, eq_iff i.sub "", eq_iff i.jti "", eq_iff i.role_id "")

-- A signed token reaches the check of its use, while it has not expired.
verify-sign :
    (pf : Platform) (i : SignInput) (issued now : ℕ) (u : Option TokenUse)
    → SignsAndVerifies pf
    → IsComplete i
    → now / 1000 < issued / 1000 + pf.seconds_of i.expires_in
    → verify_gateway_token pf (sign_gateway_token pf i issued) now u
      ≡ check_use u (claims_signed pf i issued)
unfolding verify_gateway_token sign_gateway_token
verify-sign pf i issued now u laws full fresh =
    rw
      (laws.verify_sign algorithm (payload_of pf i issued) (verify_options pf) (now / 1000) refl
        refl refl fresh)
      (rw (claims_of-payload_of pf i issued full))

use_same :
    (u : TokenUse) (c : Claims) → c.token_use ≡ some (use_text u) → check_use (some u) c ≡ ok c
use_same access c e = rw e
use_same refresh c e = rw e

use_other :
    (u v : TokenUse) (c : Claims)
    → u ≢ v
    → c.token_use ≡ some (use_text v)
    → check_use (some u) c ≡ err (thrown (wrong_use u c.token_use))
use_other access access c other e = absurd (other refl)
use_other refresh refresh c other e = absurd (other refl)
use_other access refresh c other e = rw e
use_other refresh access c other e = rw e

-- A token whose user, jti and role are not empty verifies for the use that it was signed for, until
-- it expires, to the claims that were signed: an access token carries its permissions, and a refresh token none.
pub verify-sign_same :
    (pf : Platform) (i : SignInput) (issued now : ℕ)
    → SignsAndVerifies pf
    → IsComplete i
    → now / 1000 < issued / 1000 + pf.seconds_of i.expires_in
    → verify_gateway_token pf (sign_gateway_token pf i issued) now (some i.token_use)
      ≡ ok (claims_signed pf i issued)
verify-sign_same pf i issued now laws full fresh =
    verify-sign pf i issued now (some i.token_use) laws full fresh
    ∙ use_same i.token_use (claims_signed pf i issued) refl

-- A token that was signed for one use, whose user, jti and role are not empty and which has not
-- expired, is refused for the other use.
pub verify-sign_other :
    (pf : Platform) (i : SignInput) (issued now : ℕ) (u : TokenUse)
    → SignsAndVerifies pf
    → IsComplete i
    → now / 1000 < issued / 1000 + pf.seconds_of i.expires_in
    → u ≢ i.token_use
    → verify_gateway_token pf (sign_gateway_token pf i issued) now (some u)
      ≡ err (thrown (wrong_use u (some (use_text i.token_use))))
verify-sign_other pf i issued now u laws full fresh other =
    verify-sign pf i issued now (some u) laws full fresh
    ∙ use_other u i.token_use (claims_signed pf i issued) other refl

-- What the verification of a token for a use has seen.
pub record IsVerified (pf : Platform) (token : String) (now : ℕ) (u : TokenUse) (c : Claims)
    : Type 0 where
  pub payload : Payload
  pub signed : pf.jws_verify pf.public_key (verify_options pf) (now / 1000) token ≡ some payload
  pub taken_from : claims_of payload ≡ some c
  pub has_use : c.token_use ≡ some (use_text u)
  pub has_sub : c.sub ≢ ""
  pub has_jti : c.jti ≢ ""
  pub has_role : c.role_id ≢ ""

not_ok : {A : Type 0} {e : Failure} {a : A} → err e ≡ ok a → ⊥
not_ok h = cc

use-eq_at :
    (u : TokenUse) (o : Option String) (e : Failure) (c d : Claims)
    → (if use_is u o then ok c else err e) ≡ ok d
    → (c ≡ d) × (o ≡ some (use_text u))
use-eq_at u none e c d h = cc
use-eq_at u (some s) e c d h = elim (Bool-cases (s == use_text u)) [
  | inl hit ↦ let h' : ok c ≡ ok d = rw hit at h in (cc, ap some ((eq_iff s (use_text u)).0 hit))
  | inr miss ↦ absurd (not_ok (rw miss at h))
]

use-eq :
    (u : TokenUse) (c d : Claims)
    → check_use (some u) c ≡ ok d
    → (c ≡ d) × (c.token_use ≡ some (use_text u))
use-eq u c d h = use-eq_at u c.token_use _ c d h

claims_from-full :
    (p : Payload) (sub jti role : Option String) (c : Claims)
    → claims_from p sub jti role ≡ some c
    → (c.sub ≢ "") × (c.jti ≢ "") × (c.role_id ≢ "")
claims_from-full p (some sub) (some jti) (some role) c h =
    ground (arith, eq_iff sub "", eq_iff jti "", eq_iff role "")
claims_from-full p none jti role c h = cc
claims_from-full p (some sub) none role c h = cc
claims_from-full p (some sub) (some jti) none c h = cc

claims_of-full :
    (p : Payload) (c : Claims)
    → claims_of p ≡ some c
    → (c.sub ≢ "") × (c.jti ≢ "") × (c.role_id ≢ "")
unfolding claims_of
claims_of-full p c h = claims_from-full p p.sub p.jti p.role_id c h

from_payload :
    (pf : Platform) (token : String) (now : ℕ) (u : TokenUse) (c : Claims) (p : Payload)
    → pf.jws_verify pf.public_key (verify_options pf) (now / 1000) token ≡ some p
    → check_claims (some u) (claims_of p) ≡ ok c
    → IsVerified pf token now u c
from_payload pf token now u c p signed e = elim (Option-cases (claims_of p)) [
  | inl incomplete ↦ absurd (not_ok (rw incomplete at e))
  | inr (d, read) ↦
      let (same, use') = use-eq u d c (rw read at e) in
      let read' : claims_of p ≡ some c = read ∙ ap some same in
      let (has_sub, has_jti, has_role) = claims_of-full p c read' in
      record {
        payload = p;
        signed = signed;
        taken_from = read';
        has_use = subst (λ x. x.token_use ≡ some (use_text u)) same use';
        has_sub = has_sub;
        has_jti = has_jti;
        has_role = has_role;
      }
]

-- A token that verifies for a use declares that use, its user, jti and role are not empty, and its
-- claims come from a payload that the verification of the signature returned.
pub verify-IsVerified :
    (pf : Platform) (token : String) (now : ℕ) (u : TokenUse) (c : Claims)
    → verify_gateway_token pf token now (some u) ≡ ok c
    → IsVerified pf token now u c
unfolding verify_gateway_token
verify-IsVerified pf token now u c e =
    elim (Option-cases (pf.jws_verify pf.public_key (verify_options pf) (now / 1000) token)) [
      | inl no_payload ↦ absurd (not_ok (rw no_payload at e))
      | inr (p, signed) ↦ from_payload pf token now u c p signed (rw signed at e)
    ]
