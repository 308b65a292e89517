-- ===== src/Auth/Internal/Laws.antt =====
-- auth.service.ts: whom `validateInternal` answers, and what it answers.
use master_gateway_auth.Prelude.{
  String, true, not, Option, none, some, List, [], ◌≡◌, ◌≢◌, refl, sym, arith, eq_iff, or_else,
  includes,
}
use master_gateway_auth.Prog.{Result, ok, err, run}
use master_gateway_auth.Prog.Runs.{run-if_ok}
use master_gateway_auth.Db.{World}
use master_gateway_auth.Platform.{Platform}
use master_gateway_auth.Token.{Claims, access, verify_gateway_token}
use master_gateway_auth.Token.Laws.{IsVerified, verify-IsVerified}
use master_gateway_auth.Auth.Internal.{
  Validation, valid, names_in, is_allowed_in, key_matches, validation_of,
  is_allowed_internal_service, validate_internal,
}

-- The caller knows the configured key and names a listed service; neither is empty.
pub record IsTrusted (pf : Platform) (api_key service : Option String) : Type 0 where
  pub key : String
  pub configured : pf.internal_api_key ≡ some key
  pub presented : api_key ≡ some key
  pub not_empty : key ≢ ""
  pub name : String
  pub named : service ≡ some name
  pub has_name : name ≢ ""
  pub listed : includes name (names_in pf.internal_allowed_services) ≡ true

key-eq :
    (expected given : Option String)
    → key_matches expected given ≡ true
    → (k : String) × (expected ≡ some k) × (given ≡ some k) × (k ≢ "")
key-eq none given h = cc
key-eq (some k) none h = cc
key-eq (some k) (some g) h =
    (k, refl, ground (arith, eq_iff g k, eq_iff k ""), ground (arith, eq_iff g k, eq_iff k ""))

name-listed :
    (names : List String) (service : Option String)
    → is_allowed_in names service ≡ true
    → (n : String) × (service ≡ some n) × (n ≢ "") × (includes n names ≡ true)
name-listed names none h = cc
name-listed names (some n) h = (n, refl, ground (arith, eq_iff n ""), ground arith)

-- Only a caller with the configured key and the name of a listed service, neither of them empty, gets
-- an answer; it is what the verification of the token at that time says, and nothing is changed.
pub validate_internal-IsTrusted :
    (pf : Platform) (api_key : Option String) (token : String) (service : Option String)
    (w w' : World) (v : Validation)
    → run (validate_internal pf api_key token service) w ≡ (ok v, w')
    → IsTrusted pf api_key service
      × (v ≡ validation_of (verify_gateway_token pf token w.clock (some access)))
      × (w' ≡ w)
unfolding validate_internal
validate_internal-IsTrusted pf api_key token service w w' v e =
    let (matches, e1) = run-if_ok (not (key_matches pf.internal_api_key api_key)) _ _ w refl e in
    let (allowed, e2) = run-if_ok (not (is_allowed_internal_service pf service)) _ _ w refl e1 in
    let (k, configured, presented, not_empty) = key-eq pf.internal_api_key api_key (ground arith) in
    let (n, named, has_name, listed) =
      name-listed (names_in pf.internal_allowed_services) service (ground arith) in
    (
      record {
        key = k;
        configured = configured;
        presented = presented;
        not_empty = not_empty;
        name = n;
        named = named;
        has_name = has_name;
        listed = listed;
      },
      cc,
      cc,
    )

validation-IsVerified :
    (pf : Platform) (token : String) (w : World) (r : Result Claims)
    → verify_gateway_token pf token w.clock (some access) ≡ r
    → (user_id role_id : String) (role_name : Option String) (permissions : List String)
    → validation_of r ≡ valid user_id role_id role_name permissions
    → (c : Claims) × IsVerified pf token w.clock access c
      × (c.sub ≡ user_id)
      × (c.role_id ≡ role_id)
      × (or_else c.permissions [] ≡ permissions)
validation-IsVerified pf token w (ok c) verified u r n ps e =
    (c, verify-IsVerified pf token w.clock access c verified, cc, cc, cc)
validation-IsVerified pf token w (err x) verified u r n ps e = cc

-- The answer `valid` reports the user, the role and the permissions of an access token that verifies
-- at that time.
pub validate_internal-IsVerified :
    (pf : Platform) (api_key : Option String) (token : String) (service : Option String)
    (w w' : World) (user_id role_id : String) (role_name : Option String)
    (permissions : List String)
    → run (validate_internal pf api_key token service) w
      ≡ (ok (valid user_id role_id role_name permissions), w')
    → (c : Claims) × IsVerified pf token w.clock access c
      × (c.sub ≡ user_id)
      × (c.role_id ≡ role_id)
      × (or_else c.permissions [] ≡ permissions)
validate_internal-IsVerified pf api_key token service w w' u r n ps e =
    let (trusted, same, unchanged) =
      validate_internal-IsTrusted pf api_key token service w w' (valid u r n ps) e in
    validation-IsVerified pf token w (verify_gateway_token pf token w.clock (some access)) refl u r
      n ps (sym same)
