-- ===== src/Tests/Proxying.antt =====
-- Requests to the proxy, at concrete inputs.
use master_gateway_auth.Prelude.{
  eqb, true, false, none, some, [], ◌∷◌, ◌≡◌, refl, inr, entry, first_some, if◌then◌else◌,
}
use master_gateway_auth.Prog.{ok, run}
use master_gateway_auth.Db.{World}
use master_gateway_auth.Text.{
  split, starts_with, drop_prefix, drop_chars, contains, to_lower, to_upper, join, drop_first_char,
  drop_last_char,
}
use master_gateway_auth.Ssrf
use master_gateway_auth.Proxy.{Outgoing}
use master_gateway_auth.Proxy.Paths.{parts, extract_public_path, match_path, fill, build_target_url}
use master_gateway_auth.Proxy.Headers.{
  Headers, gateway_headers, handed_on, headers_for, build_headers, build_body,
  copy_response_headers,
}
use master_gateway_auth.Proxy.Forward.{assignments, resolve_route, has_full_access, forward}
use master_gateway_auth.Proxy.Forwarded.{ForwardOutcome, IsForwarded, forward-IsForwarded}
use master_gateway_auth.Proxy.Identity.{
  last_value, last_entry, is_connection_header, entry-build_headers, blocked-eq-gateway,
  entry-copy_response_headers,
}
use master_gateway_auth.Proxy.Matching.{Fits, all_distinct, param_names, match_path-Fits}
use master_gateway_auth.Tests.State.{access_claims}
use master_gateway_auth.Tests.Gateway.{orders_service, request, up, net, checked, wire, resolved}

-- The identity of the gateway and of the user replaces what the client claims.
abbrev pub sent_headers : Headers
sent_headers =
    ("accept", "text/html,text/plain")
    ∷ ("x-request-id", "q1")
    ∷ ("x-gateway-user-id", "u1")
    ∷ ("x-gateway-role-id", "r2")
    ∷ ("x-gateway-role-name", "CLERK")
    ∷ ("x-gateway-permissions", "users:list")
    ∷ ("x-api-key", "k1")
    ∷ ("x-gateway-service", "master-gateway")
    ∷ []

built : build_headers up request access_claims orders_service ≡ some sent_headers
unfolding build_headers headers_for to_lower to_upper join
built = refl

abbrev pub sent_request : Outgoing
sent_request = record {
  target = "https://orders.example.org/items/7?full=1";
  method = "GET";
  headers = sent_headers;
  body = none;
  timeout_ms = 10000;
}

-- The request is handed on in every database in which its route is found and its role has access.
pub request-IsForwarded_in :
    (w : World)
    → resolve_route up w "/orders/7" ≡ ok (some resolved)
    → eqb (assignments w "r2" "n1") 0 ≡ false
    → IsForwarded up net w request sent_request
unfolding extract_public_path build_target_url fill split starts_with drop_prefix drop_chars
    contains to_lower to_upper join headers_for build_headers build_body has_full_access
    Ssrf.assert_safe_probe_target Ssrf.bare_hostname drop_first_char drop_last_char
    Ssrf.blocked_reason_for_ipv4 Ssrf.is_in_cidr Ssrf.ipv4_to_int Ssrf.number
request-IsForwarded_in w found assigned = record {
  user = access_claims;
  resolved = resolved;
  checked = checked;
  authenticated = refl;
  registered = found;
  allowed = refl;
  authorized = inr assigned;
  addressed = refl;
  safe = refl;
  composed = refl;
}

request-IsForwarded : IsForwarded up net wire.world request sent_request
unfolding resolve_route match_path split starts_with drop_prefix
request-IsForwarded = request-IsForwarded_in wire.world refl refl

forward-IsForwarded_example : ForwardOutcome up net request wire (run (forward up net request) wire)
forward-IsForwarded_example = forward-IsForwarded up net request wire

entry-build_headers_test :
    entry "accept" sent_headers
    ≡ first_some
        (last_value up "accept" (gateway_headers request access_claims orders_service))
        (last_value up "accept" (handed_on request.headers))
entry-build_headers_test =
    entry-build_headers up request access_claims orders_service "accept" built

blocked-eq-gateway_example :
    entry "x-api-key" sent_headers
    ≡ last_value up "x-api-key" (gateway_headers request access_claims orders_service)
blocked-eq-gateway_example =
    blocked-eq-gateway up request access_claims orders_service "x-api-key" refl built

entry-copy_response_headers_test :
    entry "connection" (copy_response_headers [] (("connection", "close") ∷ [])) ≡ (
      if is_connection_header "connection"
      then none
      else last_entry "connection" (("connection", "close") ∷ []))
entry-copy_response_headers_test =
    entry-copy_response_headers "connection" (("connection", "close") ∷ [])

matched : match_path up "/orders/:id" "/orders/7" ≡ ok (some (("id", "7") ∷ []))
unfolding match_path split starts_with drop_prefix
matched = refl

distinct_names : all_distinct (param_names (parts "/orders/:id")) ≡ true
unfolding split starts_with drop_prefix
distinct_names = refl

match_path-Fits_test : Fits up (("id", "7") ∷ []) (parts "/orders/:id") (parts "/orders/7")
match_path-Fits_test =
    match_path-Fits up "/orders/:id" "/orders/7" (("id", "7") ∷ []) distinct_names matched
