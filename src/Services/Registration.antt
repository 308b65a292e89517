-- ===== src/Services/Registration.antt =====
-- external-services.service.ts: `create`, `update` and `probeExisting`.
use mathlib.Core.Option
use Prim.Native.String
use master_gateway_auth.Prelude.{
  ℕ, String, Bool, true, false, not, ◌||◌, Option, none, some, [], ◌∷◌, ◌++◌, ◌==◌, or_else, truthy,
  has_text, if◌then◌else◌, any,
}
use master_gateway_auth.Prog.{
  Prog, ret, atomic, query, guard, conflict, bad_request, database, thrown, ◌>>=◌, ◌>>◌,
}
use master_gateway_auth.Db.{activo, ExternalService, World, read_clock}
use master_gateway_auth.Platform.{Platform}
use master_gateway_auth.Ssrf.{Network}
use master_gateway_auth.Menus.{Field, absent, null, given, apply_field}
use master_gateway_auth.Menus.Routes.{draw_id}
use master_gateway_auth.Services.{
  PublicService, omit_api_key, same_key, find_active_or_throw, update_service,
}
use master_gateway_auth.Services.Probe.{ProbeServiceDto, ProbeResult, Internet, probe}

pub record CreateExternalServiceDto : Type 0 where
  pub code : String
  pub name : Field String
  pub description : Field String
  pub kind : Field String
  pub version : Field String
  pub base_url : String
  pub health_path : Field String
  pub metadata_endpoint : Field String
  pub open_api_path : Field String
  pub authentication_type : Field String
  pub api_key : Field String

pub record UpdateExternalServiceDto : Type 0 where
  pub name : Field String
  pub description : Field String
  pub kind : Field String
  pub version : Field String
  pub base_url : Field String
  pub health_path : Field String
  pub metadata_endpoint : Field String
  pub open_api_path : Field String
  pub authentication_type : Field String
  pub api_key : Field String

-- `...(field ? { field } : {})`
abbrev pub if_text : Field String → Option String
if_text absent = none
if_text null = none
if_text (given s) = if truthy s then some s else none

-- `field ?? fallback`
abbrev pub field_or : Field String → String → String
field_or absent d = d
field_or null d = d
field_or (given s) d = s

abbrev pub is_null : Field String → Bool
is_null absent = false
is_null null = true
is_null (given s) = false

abbrev pub code_exists : World → String → Bool
code_exists w code = any (λ s. s.code == code) w.services

-- The columns `code` and `apiKey` are unique.
abbrev pub service_clashes : ExternalService → World → Bool
service_clashes s w = any (λ t. t.code == s.code || same_key t.api_key s.api_key) w.services

abbrev pub insert_service : ExternalService → Prog World ExternalService
insert_service s =
    atomic (λ w. if service_clashes s w then w else record w { services = w.services ++ s ∷ [] })
      (λ w. guard (not (service_clashes s w)) (database "P2002") >> ret s)

-- `dto.name || result.metadata?.name || dto.code`
abbrev pub chosen_name : CreateExternalServiceDto → ProbeResult → String
chosen_name dto result = or_else (if_text dto.name) (
    or_else
      (if_text
        (elim (Option.bind result.metadata (λ m. m.name)) [ none ↦ absent | some n ↦ given n ]))
      dto.code)

-- The new row: a column that the request does not have gets its default.
abbrev pub new_service :
    (id : String)
    → CreateExternalServiceDto
    → ProbeResult
    → (now : ℕ) → (actor : String) → ExternalService
new_service id dto result now actor = record {
  id = id;
  code = dto.code;
  name = chosen_name dto result;
  description = apply_field dto.description none;
  kind = apply_field dto.kind (some "NATIVE");
  version = apply_field dto.version none;
  base_url = dto.base_url;
  health_path = field_or dto.health_path "/health";
  metadata_endpoint = apply_field dto.metadata_endpoint none;
  open_api_path = apply_field dto.open_api_path none;
  authentication_type = apply_field dto.authentication_type (some "JWT");
  api_key = apply_field dto.api_key none;
  last_probe_at = some now;
  last_probe_ok = some true;
  last_probe_ms = some result.latency_ms;
  status = some "UNKNOWN";
  last_sync = none;
  module_id = none;
  estado = activo;
  created_by = some actor;
  updated_by = none;
}

abbrev pub probe_of_create : CreateExternalServiceDto → ProbeServiceDto
probe_of_create dto = record {
  base_url = dto.base_url;
  health_path = if_text dto.health_path;
  open_api_path = if_text dto.open_api_path;
}

-- `${dto.baseUrl}${dto.healthPath ?? '/health'}: ${result.error}`
abbrev pub no_answer : CreateExternalServiceDto → ProbeResult → String
no_answer dto result = String.◌++◌ "El servicio no responde en " (
    String.◌++◌ dto.base_url (
      String.◌++◌ (field_or dto.health_path "/health")
        (String.◌++◌ ": " (or_else result.error "null"))))

module _ (net : Network) (internet : Internet) where
  -- The database client refuses `null` for a column that may not be null.
  unfoldable pub create : Platform → CreateExternalServiceDto → String → Prog World PublicService
  create pf dto actor = do
    existing ← query (λ w. code_exists w dto.code)
    guard (not existing) (conflict "El codigo de servicio ya existe")
    result ← probe net internet (probe_of_create dto)
    guard result.reachable (bad_request (no_answer dto result))
    now ← read_clock
    guard (not (is_null dto.health_path)) (thrown "PrismaClientValidationError")
    id ← draw_id pf
    created ← insert_service (new_service id dto result now actor)
    ret (omit_api_key created)

  abbrev pub record_probe : ℕ → ProbeResult → String → ExternalService → ExternalService
  record_probe now result actor s = record s {
    last_probe_at = some now;
    last_probe_ok = some result.reachable;
    last_probe_ms = some result.latency_ms;
    updated_by = some actor;
  }

  abbrev pub probe_of_row : ExternalService → ProbeServiceDto
  probe_of_row s = record {
    base_url = s.base_url;
    health_path = some s.health_path;
    open_api_path = if has_text s.open_api_path then s.open_api_path else none;
  }

  unfoldable pub probe_existing : String → String → Prog World ProbeResult
  probe_existing id actor = do
    service ← find_active_or_throw id
    result ← probe net internet (probe_of_row service)
    now ← read_clock
    updated ← update_service id (record_probe now result actor)
    ret result

abbrev pub apply_update : UpdateExternalServiceDto → String → ExternalService → ExternalService
apply_update dto actor s = record s {
  name = field_or dto.name s.name;
  description = apply_field dto.description s.description;
  kind = apply_field dto.kind s.kind;
  version = apply_field dto.version s.version;
  base_url = field_or dto.base_url s.base_url;
  health_path = field_or dto.health_path s.health_path;
  metadata_endpoint = apply_field dto.metadata_endpoint s.metadata_endpoint;
  open_api_path = apply_field dto.open_api_path s.open_api_path;
  authentication_type = apply_field dto.authentication_type s.authentication_type;
  api_key = apply_field dto.api_key s.api_key;
  updated_by = some actor;
}

-- A `null` for one of the columns that may not be null.
abbrev pub has_null : UpdateExternalServiceDto → Bool
has_null dto = is_null dto.name || is_null dto.base_url || is_null dto.health_path

unfoldable pub update : String → UpdateExternalServiceDto → String → Prog World PublicService
update id dto actor = do
  found ← find_active_or_throw id
  guard (not (has_null dto)) (thrown "PrismaClientValidationError")
  updated ← update_service id (apply_update dto actor)
  ret (omit_api_key updated)
