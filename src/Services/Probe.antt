-- ===== src/Services/Probe.antt =====
-- external-services.service.ts: `probe`, `discoverEndpoints` and `discoverMetadata`.
use Prim.Native.String
use master_gateway_auth.Prelude.{
  ℕ, ◌-◌, String, Bool, false, not, ◌&&◌, ◌||◌, Option, none, some, List, [], ◌∷◌, ◌++◌, ◌==◌, leb,
  or_else, has_text, if◌then◌else◌,
}
use master_gateway_auth.Prog.{Prog, ret, ok, err, lift, ◌>>=◌}
use master_gateway_auth.Db.{World, read_clock}
use master_gateway_auth.Text.{to_lower, to_upper, drop_trailing, take_chars}
use master_gateway_auth.Ssrf.{Network, assert_safe_probe_target}

abbrev pub probe_timeout_ms : ℕ
probe_timeout_ms = 5000

abbrev pub max_body_bytes : ℕ
max_body_bytes = 524288

-- What `fetch` and the read of the body come to: a status and a body, or an error.
pub data Reply : Type 0 where
  replied : ℕ → String → Reply
  timed_out : Reply
  failed : String → Reply

-- An operation of an OpenAPI document.
pub record Operation : Type 0 where
  pub summary : Option String
  pub operation_id : Option String

pub record DiscoveredEndpoint : Type 0 where
  pub name : String
  pub path : String
  pub method : String

-- `ServiceMetadata`: the two fields that are read, and the rest as it was received.
pub record ServiceMetadata : Type 0 where
  pub name : Option String
  pub version : Option String
  pub rest : String

pub record ProbeResult : Type 0 where
  pub reachable : Bool
  pub status_code : Option ℕ
  pub latency_ms : ℕ
  pub resolved_address : String
  pub error : Option String
  pub discovered_endpoints : List DiscoveredEndpoint
  pub metadata : Option ServiceMetadata

pub record ProbeServiceDto : Type 0 where
  pub base_url : String
  pub health_path : Option String
  pub open_api_path : Option String

-- `fetch` at a time, with a timeout of `probe_timeout_ms` and manual redirections; `JSON.parse`, which may throw, to
-- the entries of `paths` and to the metadata; the text of a number.
pub record Internet : Type 0 where
  pub get : ℕ → String → Reply
  pub parse_paths : String → Option (List (String × List (String × Option Operation)))
  pub parse_metadata : String → Option ServiceMetadata
  pub number_text : ℕ → String

-- `response.ok`
abbrev pub is_ok : ℕ → Bool
is_ok status = leb 200 status && leb status 299

-- `operation?.summary ?? operation?.operationId ?? path`
abbrev pub endpoint_name : Option Operation → String → String
endpoint_name none path = path
endpoint_name (some o) path = or_else o.summary (or_else o.operation_id path)

abbrev pub endpoints_of : String → List (String × Option Operation) → List DiscoveredEndpoint
endpoints_of path [] = []
endpoints_of path (o ∷ os) =
    let rest = endpoints_of path os in
    if not (to_lower o.0 == "get")
    then rest
    else record { name = endpoint_name o.1 path; path = path; method = to_upper o.0 } ∷ rest

abbrev pub endpoints : List (String × List (String × Option Operation)) → List DiscoveredEndpoint
endpoints [] = []
endpoints (p ∷ ps) = endpoints_of p.0 p.1 ++ endpoints ps

-- `baseUrl.replace(/\/+$/, '')` and a path
abbrev pub target_of : String → String → String
target_of base path = String.◌++◌ (drop_trailing b'/' base) path

module _ (net : Network) (internet : Internet) (now : ℕ) where
  -- The reply to a target that is safe; none where the check or the call throws.
  abbrev pub reply_from : String → Option (ℕ × String)
  reply_from target = elim (assert_safe_probe_target net target) [
    | err e ↦ none
    | ok t ↦ elim (internet.get now target) [
      | replied status body ↦ some (status, take_chars max_body_bytes body)
      | timed_out ↦ none
      | failed reason ↦ none
    ]
  ]

  abbrev pub endpoints_in : Option (ℕ × String) → List DiscoveredEndpoint
  endpoints_in none = []
  endpoints_in (some (status, body)) =
      if not (is_ok status)
      then []
      else elim (internet.parse_paths body) [ none ↦ [] | some ps ↦ endpoints ps ]

  unfoldable pub discover_endpoints : String → Option String → List DiscoveredEndpoint
  discover_endpoints base none = []
  discover_endpoints base (some path) =
      if path == "" then [] else endpoints_in (reply_from (target_of base path))

  abbrev pub complete : ServiceMetadata → Option ServiceMetadata
  complete m = if not (has_text m.name) || not (has_text m.version) then none else some m

  abbrev pub metadata_in : Option (ℕ × String) → Option ServiceMetadata
  metadata_in none = none
  metadata_in (some (status, body)) =
      if not (is_ok status)
      then none
      else elim (internet.parse_metadata body) [ none ↦ none | some m ↦ complete m ]

  unfoldable pub discover_metadata : String → Option ServiceMetadata
  discover_metadata base = metadata_in (reply_from (target_of base "/internal/metadata"))

-- `describeError`
abbrev pub timeout_text : Internet → String
timeout_text internet =
    String.◌++◌ "Sin respuesta en " (String.◌++◌ (internet.number_text probe_timeout_ms) " ms")

module _ (net : Network) (internet : Internet) where
  abbrev pub unreachable : ℕ → String → String → ProbeResult
  unreachable latency address reason = record {
    reachable = false;
    status_code = none;
    latency_ms = latency;
    resolved_address = address;
    error = some reason;
    discovered_endpoints = [];
    metadata = none;
  }

  abbrev pub no_error : ℕ → Option String
  no_error status =
      if is_ok status
      then none
      else some (String.◌++◌ "El servicio respondio " (internet.number_text status))

  -- What is made of the reply to the health check, at a time and after so many milliseconds.
  abbrev pub probed : ProbeServiceDto → ℕ → ℕ → String → Reply → ProbeResult
  probed dto now latency address (replied status body) = record {
    reachable = is_ok status;
    status_code = some status;
    latency_ms = latency;
    resolved_address = address;
    error = no_error status;
    discovered_endpoints = discover_endpoints net internet now dto.base_url dto.open_api_path;
    metadata = discover_metadata net internet now dto.base_url;
  }
  probed dto now latency address timed_out = unreachable latency address (timeout_text internet)
  probed dto now latency address (failed reason) = unreachable latency address reason

  abbrev pub health_target : ProbeServiceDto → String
  health_target dto = target_of dto.base_url (or_else dto.health_path "/health")

  unfoldable pub probe : ProbeServiceDto → Prog World ProbeResult
  probe dto = do
    target ← lift (assert_safe_probe_target net (health_target dto))
    started_at ← read_clock
    now ← read_clock
    ret (
        probed dto now (now - started_at) target.address
          (internet.get started_at (health_target dto)))
