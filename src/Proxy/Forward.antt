-- ===== src/Proxy/Forward.antt =====
-- service-proxy.service.ts: `resolveRoute`, `ensureAuthorized`, `hasFullAccess` and `forward`.
use master_gateway_auth.Prelude.{
  ℕ, String, Bool, false, not, ◌&&◌, Option, none, some, List, [], ◌∷◌, ◌++◌, ◌==◌, eqb, or_else,
  truthy, if◌then◌else◌, map, find, any, select, count_where, includes,
}
use master_gateway_auth.Prog.{
  Prog, ret, raise, Result, ok, err, query, lift, guard, some_or, forbidden, not_found,
  method_not_allowed, bad_gateway, gateway_timeout, thrown, ◌>>=◌, ◌>>◌,
}
use master_gateway_auth.Db.{
  is_active, ExternalService, ExternalServiceRoute, World, role_is_active, module_is_active,
}
use master_gateway_auth.Token.{Claims}
use master_gateway_auth.Text.{split, trim, to_upper}
use master_gateway_auth.Ssrf.{Network, assert_safe_probe_target}
use Prim.Native.String
use master_gateway_auth.Proxy.{
  Request, Outgoing, Fetched, answered, timed_out, failed, ProxyResult, Upstream, Wire, contact,
}
use master_gateway_auth.Proxy.Paths.{Params, extract_public_path, match_path, build_target_url}
use master_gateway_auth.Proxy.Headers.{build_headers, build_body, copy_response_headers}

abbrev pub full_access_role_names : List String
full_access_role_names = "SUPER_ADMIN" ∷ "SUPERADMIN" ∷ "ADMIN" ∷ []

abbrev pub default_timeout_ms : ℕ
default_timeout_ms = 10000

-- `menu: { estado: ACTIVO, module: { estado: ACTIVO } }`
abbrev pub menu_is_open : World → String → Bool
menu_is_open w id =
    any (λ m. m.id == id && is_active m.estado && module_is_active w m.module_id) w.menus

abbrev pub active_service : World → String → Option ExternalService
active_service w id = find (λ s. s.id == id && is_active s.estado) w.services

-- The active routes of active services under open menus, each with its service.
abbrev pub active_routes :
    World → List ExternalServiceRoute → List (ExternalServiceRoute × ExternalService)
active_routes w [] = []
active_routes w (r ∷ rs) =
    let rest = active_routes w rs in
    if is_active r.estado && menu_is_open w r.menu_id
    then elim (active_service w r.service_id) [ none ↦ rest | some s ↦ (r, s) ∷ rest ]
    else rest

pub record Resolved : Type 0 where
  pub route : ExternalServiceRoute
  pub service : ExternalService
  pub params : Params

-- `originalUrl ?? url`
abbrev pub request_url : Request → String
request_url request = or_else request.original_url request.url

-- The assignments that `ensureAuthorized` counts.
abbrev pub assignments : World → String → String → ℕ
assignments w role_id menu_id =
    count_where
      (λ l.
        l.role_id == role_id
        && l.target_id == menu_id
        && is_active l.estado
        && role_is_active w l.role_id
        && menu_is_open w l.target_id)
      w.role_menus

-- `configured ? configured.split(',').map((role) => role.trim()).filter(Boolean) : []`
abbrev pub configured_names : Option String → List String
configured_names none = []
configured_names (some s) = if s == "" then [] else select truthy (map trim (split b',' s))

abbrev pub is_name_of : Option String → List String → Bool
is_name_of none names = false
is_name_of (some name) names = includes name names

-- A round of the loop: the row if it matches, an error that is thrown, or the later rows.
abbrev pub match_or :
    ExternalServiceRoute × ExternalService
    → Result (Option Params)
    → Result (Option Resolved)
    → Result (Option Resolved)
match_or row (err e) rest = err e
match_or row (ok none) rest = rest
match_or row (ok (some ps)) rest =
    ok (some (record { route = row.0; service = row.1; params = ps }))

module _ (up : Upstream) where
  abbrev pub first_match :
      String → List (ExternalServiceRoute × ExternalService) → Result (Option Resolved)
  first_match path [] = ok none
  first_match path (row ∷ rows) =
      match_or row (match_path up row.0.public_path path) (first_match path rows)

  unfoldable pub resolve_route : World → String → Result (Option Resolved)
  resolve_route w path = first_match path (active_routes w w.service_routes)

  unfoldable pub has_full_access : Option String → Bool
  has_full_access role_name =
      is_name_of role_name (full_access_role_names ++ configured_names up.full_access_role_names)

  unfoldable pub ensure_authorized : Claims → String → Prog Wire (Unit {0})
  ensure_authorized user menu_id = if has_full_access user.role_name then ret tt else do
    n ← query (λ s. assignments s.world user.role_id menu_id)
    guard (not (eqb n 0)) (forbidden "El rol no tiene acceso a este item")

  abbrev pub proxy_timeout_ms : Option String → Option ℕ
  proxy_timeout_ms none = some default_timeout_ms
  proxy_timeout_ms (some s) = up.number_of s

  -- The arguments of `fetch`; none where one of them throws
  abbrev pub outgoing : Request → Claims → ExternalService → String → String → Option Outgoing
  outgoing request user service method target = elim (build_headers up request user service) [
    | none ↦ none
    | some hs ↦ elim (proxy_timeout_ms up.service_proxy_timeout_ms) [
      | none ↦ none
      | some ms ↦ some (record {
        target = target;
        method = method;
        headers = hs;
        body = build_body request method;
        timeout_ms = ms;
      })
    ]
  ]

  abbrev pub answer : Fetched → Prog Wire ProxyResult
  answer (answered status hs body) =
      ret (record { status_code = status; headers = copy_response_headers [] hs; body = body })
  answer timed_out = raise (gateway_timeout "Microservicio no respondio a tiempo")
  answer failed = raise (bad_gateway "No se pudo contactar el microservicio")

  -- The `try` block, with what is caught.
  abbrev pub exchange : Option Outgoing → Prog Wire ProxyResult
  exchange none = raise (bad_gateway "No se pudo contactar el microservicio")
  exchange (some o) = contact up o >>= answer

  module _ (net : Network) where
    unfoldable pub forward : Request → Prog Wire ProxyResult
    forward request = do
      user ← some_or (forbidden "Usuario autenticado requerido") request.user
      found ← query (λ s. resolve_route s.world (extract_public_path (request_url request)))
      match ← lift found
      resolved ← some_or (not_found "Endpoint de microservicio no registrado") match
      guard (includes (to_upper request.method) resolved.route.methods) (
          method_not_allowed (
            String.◌++◌ "Metodo "
              (String.◌++◌ (to_upper request.method) " no permitido para este endpoint")))
      ensure_authorized user resolved.route.menu_id
      target ← some_or (thrown "Invalid URL") (
          build_target_url up resolved.service.base_url resolved.route.target_path
            (request_url request) resolved.params)
      checked ← lift (assert_safe_probe_target net target)
      exchange (outgoing request user resolved.service (to_upper request.method) target)
