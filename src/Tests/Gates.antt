-- ===== src/Tests/Gates.antt =====
-- Tokens and guards, at concrete tokens and endpoints.
use master_gateway_auth.Prelude.{
  String, true, false, Option, none, some, List, [], ◌∷◌, ◌≡◌, refl, arith, ◌⊎◌, ◌↔◌, has_text,
  or_else,
}
use Prim.Native.String
use master_gateway_auth.Prog.{ok, err, run, unauthorized, forbidden, thrown}
use master_gateway_auth.Token.{
  TokenUse, claims_of, wrong_use, sign_gateway_token, verify_gateway_token,
}
use master_gateway_auth.Token.Laws.{
  IsVerified, claims_signed, verify-sign_same, verify-sign_other, verify-IsVerified,
}
use master_gateway_auth.Text.{starts_with, drop_prefix}
use master_gateway_auth.Guards.{
  super_admin, demands, role_in, role_of, roles_guard, permissions_guard, authenticate,
  jwt_auth_guard,
}
use master_gateway_auth.Guards.Laws.{
  IsAuthentic, covers, permissions_guard_iff, roles_guard_iff, guards_fail_closed,
  jwt_auth_guard-IsAuthentic, jwt_auth_guard_refuses_refresh,
}
use master_gateway_auth.Guards.Policy.{
  OpaReply, answered, PolicyInput, Endpoint, input_of, policy_guard, guard_chain, evaluate,
}
use master_gateway_auth.Guards.Policy.Chain.{Allows, Passed, policy_guard_iff, guard_chain-Passed}
use master_gateway_auth.Tests.Sample.{platform, platform-SignsAndVerifies}
use master_gateway_auth.Tests.State.{
  world, old_input, old_token, access_input, access_token, access_claims,
}

verify-sign_same_example :
    verify_gateway_token platform
      (sign_gateway_token platform access_input 0)
      5000
      (some TokenUse.access)
    ≡ ok (claims_signed platform access_input 0)
verify-sign_same_example =
    verify-sign_same platform access_input 0 5000 platform-SignsAndVerifies
      ((λ e. cc), (λ e. cc), (λ e. cc)) (omega arith)

verify-sign_other_test :
    verify_gateway_token platform
      (sign_gateway_token platform access_input 0)
      5000
      (some TokenUse.refresh)
    ≡ err (thrown (wrong_use TokenUse.refresh (some "access")))
verify-sign_other_test =
    verify-sign_other platform access_input 0 5000 TokenUse.refresh platform-SignsAndVerifies
      ((λ e. cc), (λ e. cc), (λ e. cc)) (omega arith) (λ e. cc)

access_verified :
    verify_gateway_token platform access_token 5000 (some TokenUse.access) ≡ ok access_claims
unfolding verify_gateway_token claims_of
access_verified = refl

verify-IsVerified_test : IsVerified platform access_token 5000 TokenUse.access access_claims
verify-IsVerified_test =
    verify-IsVerified platform access_token 5000 TokenUse.access access_claims access_verified

abbrev header : String
header = String.◌++◌ "Bearer " access_token

passes : run (jwt_auth_guard platform (some header)) world ≡ (ok access_claims, world)
unfolding jwt_auth_guard authenticate starts_with drop_prefix verify_gateway_token claims_of
passes = refl

jwt_auth_guard-IsAuthentic_test : IsAuthentic platform (some header) world world access_claims
jwt_auth_guard-IsAuthentic_test =
    jwt_auth_guard-IsAuthentic platform (some header) world world access_claims passes

jwt_auth_guard_refuses_refresh_test :
    run (jwt_auth_guard platform (some (String.◌++◌ "Bearer " old_token))) world
    ≡ (err (unauthorized "Token invalido o expirado"), world)
unfolding starts_with drop_prefix sign_gateway_token
jwt_auth_guard_refuses_refresh_test =
    jwt_auth_guard_refuses_refresh platform (String.◌++◌ "Bearer " old_token) old_input 0 world
      platform-SignsAndVerifies ((λ e. cc), (λ e. cc), (λ e. cc)) refl (omega arith) refl refl

abbrev demanded : Option (List String)
demanded = some ("users:list" ∷ [])

permissions_guard_iff_test : (permissions_guard demanded (some access_claims) ≡ ok true) ↔ (
    (demands demanded ≡ [])
    ⊎ (access_claims.role_name ≡ some super_admin)
    ⊎ (covers (or_else access_claims.permissions []) (demands demanded) ≡ true))
permissions_guard_iff_test = permissions_guard_iff demanded access_claims

roles_guard_iff_test : (roles_guard (some ("CLERK" ∷ [])) (some access_claims) ≡ ok true) ↔ (
    (demands (some ("CLERK" ∷ [])) ≡ [])
    ⊎ (role_of (some access_claims) ≡ some super_admin)
    ⊎ (role_in (demands (some ("CLERK" ∷ []))) (role_of (some access_claims)) ≡ true))
roles_guard_iff_test = roles_guard_iff (some ("CLERK" ∷ [])) (some access_claims)

guards_fail_closed_test :
    (permissions_guard demanded none ≡ err (forbidden "Usuario autenticado requerido"))
    × (roles_guard demanded none ≡ err (forbidden "Rol no autorizado"))
guards_fail_closed_test = guards_fail_closed demanded (λ e. cc)

-- An engine that allows reading only.
abbrev engine : PolicyInput → OpaReply
engine i = answered true (some true)

abbrev endpoint : Endpoint
endpoint = record {
  roles = some ("CLERK" ∷ []);
  permissions = demanded;
  policy = none;
  method = some "GET";
  url = some "/users";
}

abbrev engine_url : Option String
engine_url = some "http://opa:8181/v1/data/gateway"

policy_guard_iff_test :
    (policy_guard engine_url engine endpoint (some access_claims) ≡ ok true)
    ↔ ((has_text engine_url ≡ false) ⊎ Allows (engine (input_of endpoint access_claims)))
policy_guard_iff_test = policy_guard_iff engine_url engine endpoint access_claims

guarded :
    run (guard_chain platform engine_url engine endpoint (some header)) world
    ≡ (ok access_claims, world)
unfolding guard_chain jwt_auth_guard authenticate starts_with drop_prefix verify_gateway_token
    claims_of roles_guard permissions_guard policy_guard evaluate
guarded = refl

guard_chain-Passed_example :
    Passed platform engine_url engine endpoint (some header) world world access_claims
guard_chain-Passed_example =
    guard_chain-Passed platform engine_url engine endpoint (some header) world world access_claims
      guarded
