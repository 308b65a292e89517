-- ===== src/Services.antt =====
-- backend/src/external-services/external-services.service.ts: the registry of external services,
-- with common/utils/omit-api-key.ts. The module that is read with a service is left out.
pub mod Updates
pub mod Secrecy
pub mod Probe
pub mod Registration
pub mod Provision
use mathlib.Core.Option
use master_gateway_auth.Prelude.{
  ℕ, String, Bool, true, false, not, ◌&&◌, Option, none, some, List, [], ◌∷◌, ◌==◌, has_text, map,
  find, any, select, update_where, if◌then◌else◌,
}
use master_gateway_auth.Prog.{
  Prog, ret, raise, atomic, query, guard, some_or, not_found, database, ◌>>=◌, ◌>>◌,
}
use master_gateway_auth.Db.{inactivo, is_active, ExternalService, World, draw}
use master_gateway_auth.Text.{starts_with}
use master_gateway_auth.Menus.{implicit_route_service_prefix}

-- What `omitApiKey` returns: the row without its key (here with none), and `hasApiKey`.
pub record PublicService : Type 0 where
  pub entity : ExternalService
  pub has_api_key : Bool

unfoldable pub omit_api_key : ExternalService → PublicService
omit_api_key s = record { entity = record s { api_key = none }; has_api_key = has_text s.api_key }

-- `orderBy: { name: 'asc' }` is an order of the answer; the rows are in that of the table here.
abbrev pub is_listed : ExternalService → Bool
is_listed s = is_active s.estado && not (starts_with implicit_route_service_prefix s.code)

unfoldable pub find_all : Prog World (List PublicService)
find_all = query (λ w. map omit_api_key (select is_listed w.services))

abbrev pub active_by_id : World → String → Option ExternalService
active_by_id w id = find (λ s. s.id == id && is_active s.estado) w.services

abbrev pub find_active_or_throw : String → Prog World ExternalService
find_active_or_throw id =
    atomic (λ w. w) (λ w. some_or (not_found "Servicio externo no encontrado") (active_by_id w id))

unfoldable pub find_one : String → Prog World PublicService
find_one id = find_active_or_throw id >>= λ s. ret (omit_api_key s)

-- The column of keys is unique, but for rows without one.
abbrev pub same_key : Option String → Option String → Bool
same_key (some a) (some b) = a == b
same_key a b = false

abbrev pub key_clashes : String → (ExternalService → ExternalService) → List ExternalService → Bool
key_clashes id f ss =
    any (λ s. s.id == id && any (λ t. not (t.id == id) && same_key t.api_key (f s).api_key) ss) ss

-- `externalService.update({ where: { id } })`, which returns the row
abbrev pub changed : String → (ExternalService → ExternalService) → World → World
changed id f w =
    if key_clashes id f w.services
    then w
    else record w { services = update_where (λ s. s.id == id) f w.services }

abbrev pub update_service :
    String → (ExternalService → ExternalService) → Prog World ExternalService
update_service id f = atomic (changed id f) (λ w.
    guard (not (key_clashes id f w.services)) (database "P2002")
    >> some_or (database "P2025") (Option.map f (find (λ s. s.id == id) w.services)))

abbrev pub retire : String → ExternalService → ExternalService
retire actor s = record s { estado = inactivo; updated_by = some actor }

unfoldable pub remove : String → String → Prog World (Unit {0})
remove id actor = do
  found ← find_active_or_throw id
  updated ← update_service id (retire actor)
  ret tt

abbrev pub with_key : String → String → ExternalService → ExternalService
with_key key actor s = record s {
  api_key = some key;
  authentication_type = some "API_KEY";
  updated_by = some actor;
}

-- `rotateApiKey`: the key, which is drawn at random, is the answer
unfoldable pub rotate_api_key : (ℕ → String) → String → String → Prog World String
rotate_api_key random_key id actor = do
  found ← find_active_or_throw id
  n ← draw
  updated ← update_service id (with_key (random_key n) actor)
  ret (random_key n)
