-- ===== src/Proxy/Headers.antt =====
-- service-proxy.service.ts: `buildHeaders`, `buildBody`, `copyResponseHeaders`, and
-- external-services/service-identity.service.ts: `headersFor`.
use master_gateway_auth.Prelude.{
  String, ◌||◌, Option, none, some, List, [], ◌∷◌, ◌++◌, ◌==◌, or_else, has_text, if◌then◌else◌,
  set_entry, includes,
}
use master_gateway_auth.Text.{to_lower, to_upper, join}
use master_gateway_auth.Db.{ExternalService}
use master_gateway_auth.Token.{Claims}
use master_gateway_auth.Proxy.{
  HeaderValue, one, many, missing, Body, undefined, null, text, buffer, value, Request, Upstream,
}

abbrev pub Headers : Type 0
Headers = List (String × String)

-- The headers of the client that are not handed on: those of one connection, and those by which
-- the gateway says who it is.
abbrev pub connection_request_headers : List String
connection_request_headers =
    "authorization" ∷ "connection" ∷ "content-length" ∷ "cookie" ∷ "host" ∷ "keep-alive"
    ∷ "proxy-authenticate" ∷ "proxy-authorization" ∷ "te" ∷ "trailer" ∷ "transfer-encoding"
    ∷ "upgrade" ∷ []

abbrev pub gateway_header_names : List String
gateway_header_names =
    "x-gateway-user-id" ∷ "x-gateway-role-id" ∷ "x-gateway-role-name" ∷ "x-gateway-permissions"
    ∷ "x-gateway-service" ∷ "x-api-key" ∷ []

-- `BLOCKED_REQUEST_HEADERS`
abbrev pub blocked_request_headers : List String
blocked_request_headers = connection_request_headers ++ gateway_header_names

-- `BLOCKED_RESPONSE_HEADERS`
abbrev pub blocked_response_headers : List String
blocked_response_headers =
    "connection" ∷ "content-encoding" ∷ "content-length" ∷ "keep-alive" ∷ "proxy-authenticate"
    ∷ "proxy-authorization" ∷ "te" ∷ "trailer" ∷ "transfer-encoding" ∷ "upgrade" ∷ []

abbrev pub service_api_key_header : String
service_api_key_header = "x-api-key"

abbrev pub service_identity_header : String
service_identity_header = "x-gateway-service"

-- `apiKeyHeaders`, without its warning
abbrev pub api_key_headers : Option String → Headers
api_key_headers none = []
api_key_headers (some key) =
    if key == ""
    then []
    else (service_api_key_header, key) ∷ (service_identity_header, "master-gateway") ∷ []

-- `headersFor`, without its warnings
unfoldable pub headers_for : ExternalService → Headers
headers_for service =
    let strategy = to_upper (or_else service.authentication_type "NONE") in
    if strategy == "API_KEY"
    then api_key_headers service.api_key
    else if strategy == "JWT" || strategy == "NONE"
    then (if has_text service.api_key then api_key_headers service.api_key else [])
    else []

-- `if (user.permissions?.length)`
abbrev pub permission_headers : Option (List String) → Headers
permission_headers none = []
permission_headers (some []) = []
permission_headers (some (p ∷ ps)) = ("x-gateway-permissions", join "," (p ∷ ps)) ∷ []

-- What the gateway sets, in its order. A role name that is not there is set as the text
-- 'undefined'.
abbrev pub gateway_headers : Request → Claims → ExternalService → Headers
gateway_headers request user service =
    ("x-request-id", or_else request.request_id "unknown")
      ∷ ("x-gateway-user-id", user.sub)
      ∷ ("x-gateway-role-id", user.role_id)
      ∷ ("x-gateway-role-name", or_else user.role_name "undefined")
      ∷ permission_headers user.permissions
    ++ headers_for service

abbrev pub sent_value : HeaderValue → Option String
sent_value (one v) = some v
sent_value (many vs) = some (join "," vs)
sent_value missing = none

-- The headers of the client that are handed on, in their order.
abbrev pub handed_on : List (String × HeaderValue) → Headers
handed_on [] = []
handed_on (h ∷ rest) =
    let others = handed_on rest in
    if includes (to_lower h.0) blocked_request_headers
    then others
    else elim (sent_value h.1) [ none ↦ others | some v ↦ (h.0, v) ∷ others ]

module _ (up : Upstream) where
  -- `headers.set(name, value)`: names are compared in lower case
  abbrev pub set_header : String → String → Headers → Option Headers
  set_header name v hs = elim (up.header_value name v) [
    | none ↦ none
    | some x ↦ some (set_entry (to_lower name) x hs)
  ]

  abbrev pub set_headers : Headers → Headers → Option Headers
  set_headers [] hs = some hs
  set_headers (h ∷ rest) hs = elim (set_header h.0 h.1 hs) [
    | none ↦ none
    | some hs' ↦ set_headers rest hs'
  ]

  -- `buildHeaders`; none where it throws
  unfoldable pub build_headers : Request → Claims → ExternalService → Option Headers
  build_headers request user service = elim (set_headers (handed_on request.headers) []) [
    | none ↦ none
    | some hs ↦ set_headers (gateway_headers request user service) hs
  ]

abbrev pub body_text : Body → Option String
body_text undefined = none
body_text null = none
body_text (text s) = some s
body_text (buffer s) = some s
body_text (value s) = some s

unfoldable pub build_body : Request → String → Option String
build_body request method =
    if method == "GET" || method == "HEAD" then none else body_text request.body

-- `copyResponseHeaders`, over the entries in their order
unfoldable pub copy_response_headers : Headers → Headers → Headers
copy_response_headers copied [] = copied
copy_response_headers copied (h ∷ hs) =
    let skipped = copy_response_headers copied hs in
    let taken = copy_response_headers (set_entry h.0 h.1 copied) hs in
    if includes (to_lower h.0) blocked_response_headers then skipped else taken
