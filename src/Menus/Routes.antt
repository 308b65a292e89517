-- ===== src/Menus/Routes.antt =====
-- menus.service.ts: the proxy route of a menu, and the service that is created for it.
use Prim.Native.String
use master_gateway_auth.Prelude.{
  ◌+◌, String, Bool, not, ◌&&◌, ◌||◌, Option, none, some, List, [], ◌∷◌, ◌++◌, ◌==◌, if◌then◌else◌,
  find, any, update_where,
}
use master_gateway_auth.Prog.{
  Prog, ret, raise, atomic, query, guard, some_or, conflict, database, ◌>>=◌, ◌>>◌,
}
use master_gateway_auth.Db.{
  activo, inactivo, is_active, ExternalService, ExternalServiceRoute, World,
}
use master_gateway_auth.Platform.{Platform}
use master_gateway_auth.Text.{contains}
use master_gateway_auth.Menus.{ProxyRoutePlan, implicit_code, is_implicit_service}

abbrev pub route_by_menu : World → String → Option ExternalServiceRoute
route_by_menu w menu_id = find (λ r. r.menu_id == menu_id) w.service_routes

abbrev pub service_by_id : World → String → Option ExternalService
service_by_id w id = find (λ s. s.id == id) w.services

-- The change gives the row `id` a public path that another row has.
abbrev pub path_clashes :
    String → (ExternalServiceRoute → ExternalServiceRoute) → List ExternalServiceRoute → Bool
path_clashes id f rs =
    any (λ r. r.id == id && any (λ s. not (s.id == id) && s.public_path == (f r).public_path) rs) rs

-- `externalServiceRoute.update({ where: { id } })`
abbrev pub update_route :
    String → (ExternalServiceRoute → ExternalServiceRoute) → Prog World (Unit {0})
update_route id f =
    atomic
      (λ w.
        if path_clashes id f w.service_routes
        then w
        else record w { service_routes = update_where (λ r. r.id == id) f w.service_routes })
      (λ w.
        guard (not (path_clashes id f w.service_routes)) (database "P2002")
        >> guard (any (λ r. r.id == id) w.service_routes) (database "P2025"))

-- `externalService.update({ where: { id } })`, where the code does not change
abbrev pub update_service : String → (ExternalService → ExternalService) → Prog World (Unit {0})
update_service id f =
    atomic (λ w. record w { services = update_where (λ s. s.id == id) f w.services })
      (λ w. guard (any (λ s. s.id == id) w.services) (database "P2025"))

-- `${publicPath}#retirada-${id}`
abbrev pub tombstone : String → String → String
tombstone path id = String.◌++◌ path (String.◌++◌ "#retirada-" id)

abbrev pub available_after : String → String → Option ExternalServiceRoute → Prog World (Unit {0})
available_after path menu_id none = ret tt
available_after path menu_id (some clash) =
    if clash.menu_id == menu_id
    then ret tt
    else if is_active clash.estado
    then raise (
        conflict
          (String.◌++◌ "La ruta publica " (String.◌++◌ path " ya esta en uso por otro menu")))
    else update_route clash.id (λ r. record r { public_path = tombstone path clash.id })

unfoldable pub ensure_public_path_available : String → String → Prog World (Unit {0})
ensure_public_path_available path menu_id = do
  clash ← query (λ w. find (λ r. r.public_path == path) w.service_routes)
  available_after path menu_id clash

abbrev pub service_taken : ExternalService → World → Bool
service_taken s w = any (λ t. t.code == s.code) w.services

abbrev pub create_service : ExternalService → Prog World (Unit {0})
create_service s =
    atomic (λ w. if service_taken s w then w else record w { services = w.services ++ s ∷ [] })
      (λ w. guard (not (service_taken s w)) (database "P2002"))

-- `menuId` and `publicPath` are unique columns.
abbrev pub route_taken : ExternalServiceRoute → World → Bool
route_taken r w =
    any (λ t. t.menu_id == r.menu_id || t.public_path == r.public_path) w.service_routes

abbrev pub create_route : ExternalServiceRoute → Prog World (Unit {0})
create_route r =
    atomic
      (λ w. if route_taken r w then w else record w { service_routes = w.service_routes ++ r ∷ [] })
      (λ w. guard (not (route_taken r w)) (database "P2002"))

abbrev pub draw_id : Platform → Prog World String
draw_id pf = atomic (λ w. record w { draws = w.draws + 1 }) (λ w. ret (pf.uuid w.draws))

abbrev pub implicit_service :
    (id menu_id menu_name : String) → ProxyRoutePlan → String → ExternalService
implicit_service id menu_id menu_name plan actor = record {
  id = id;
  code = implicit_code menu_id;
  name = String.◌++◌ "Ruta: " menu_name;
  description = some "Servicio creado automaticamente al enrutar un menu a un microservicio.";
  kind = some "NATIVE";
  version = none;
  base_url = plan.base_url;
  health_path = "/health";
  metadata_endpoint = none;
  open_api_path = none;
  authentication_type = some "JWT";
  api_key = none;
  last_probe_at = none;
  last_probe_ok = none;
  last_probe_ms = none;
  status = some "UNKNOWN";
  last_sync = none;
  module_id = none;
  estado = activo;
  created_by = some actor;
  updated_by = none;
}

abbrev pub route_for :
    (id service_id menu_id : String) → ProxyRoutePlan → String → ExternalServiceRoute
route_for id service_id menu_id plan actor = record {
  id = id;
  service_id = service_id;
  menu_id = menu_id;
  public_path = plan.public_path;
  target_path = plan.target_path;
  methods = plan.methods;
  estado = activo;
  created_by = some actor;
  updated_by = none;
}

unfoldable pub attach_proxy_route :
    Platform → String → String → ProxyRoutePlan → String → Prog World (Unit {0})
attach_proxy_route pf menu_id menu_name plan actor = do
  ensure_public_path_available plan.public_path menu_id
  service_id ← draw_id pf
  create_service (implicit_service service_id menu_id menu_name plan actor)
  route_id ← draw_id pf
  create_route (route_for route_id service_id menu_id plan actor)

-- The path under which a route that is taken down is kept.
abbrev pub retired_path : ExternalServiceRoute → String → String
retired_path route id =
    if contains "#retirada-" route.public_path
    then route.public_path
    else tombstone route.public_path id

abbrev pub retire_route :
    ExternalServiceRoute → String → String → ExternalServiceRoute → ExternalServiceRoute
retire_route route id actor r = record r {
  estado = inactivo;
  public_path = retired_path route id;
  updated_by = some actor;
}

abbrev pub retire_service : String → ExternalService → ExternalService
retire_service actor s = record s { estado = inactivo; updated_by = some actor }

-- The service of a route, which the foreign key says is there.
abbrev pub with_service :
    World → Option ExternalServiceRoute → Option (ExternalServiceRoute × ExternalService)
with_service w none = none
with_service w (some r) = elim (service_by_id w r.service_id) [ none ↦ none | some s ↦ some (r, s) ]

unfoldable pub detach_proxy_route : String → String → Prog World (Unit {0})
detach_proxy_route id actor = do
  found ← query (λ w. with_service w (find (λ r. r.id == id) w.service_routes))
  pair ← some_or (database "P2025") found
  update_route id (retire_route pair.0 id actor)
  if is_implicit_service pair.1.code pair.0.menu_id
      then update_service pair.0.service_id (retire_service actor)
      else ret tt
