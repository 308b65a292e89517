-- ===== src/Menus.antt =====
-- backend/src/menus/menus.service.ts: the menus of the navigation, and the proxy routes behind them.
-- The operations hand back the row of the menu; the route and the service that are read with it are
-- left out.
pub mod Tree
pub mod Routes
pub mod Operations
pub mod Cycles
pub mod Subtree
pub mod Orphans
pub mod Race
pub mod Untouched
pub mod Forest
use mathlib.Core.Option
use Prim.Native.String
use master_gateway_auth.Prelude.{
  ℕ, zero, suc, ◌+◌, String, Bool, true, false, not, ◌&&◌, ◌||◌, Option, none, some, List, [], ◌∷◌,
  ◌++◌, ◌==◌, or_else, truthy, has_text, if◌then◌else◌, map, find, any, select, update_where,
  includes,
}
use master_gateway_auth.Prog.{
  Prog, ret, raise, atomic, query, modify, lift, guard, some_or, transaction, not_found, conflict,
  bad_request, database, thrown, ◌>>=◌, ◌>>◌,
}
use master_gateway_auth.Db.{
  activo, inactivo, is_active, Menu, RoleLink, ExternalService, ExternalServiceRoute, World,
  module_is_active,
}
use master_gateway_auth.Platform.{Platform}
use master_gateway_auth.Text.{starts_with, drop_prefix, drop_chars, to_upper, contains}
use master_gateway_auth.Ssrf.{Network, assert_safe_probe_target}

-- A field of a request: not there, `null`, or a value.
pub data Field (A : Type 0) : Type 0 where
  absent null : Field A
  given : A → Field A

pub record CreateMenuDto : Type 0 where
  pub name : String
  pub url : Option String
  pub icon : Option String
  pub order : Option ℕ
  pub module_id : String
  pub parent_id : Option String
  pub target_url : Option String
  pub methods : List String

pub record UpdateMenuDto : Type 0 where
  pub name : Option String
  pub url : Field String
  pub icon : Field String
  pub order : Option ℕ
  pub module_id : Option String
  pub parent_id : Field String
  pub target_url : Field String
  pub methods : List String

-- What a field leaves of a column that may be null.
abbrev pub apply_field : {A : Type 0} → Field A → Option A → Option A
apply_field absent old = old
apply_field null old = none
apply_field (given a) old = some a

-- `ProxyRoutePlan`
pub record ProxyRoutePlan : Type 0 where
  pub base_url : String
  pub target_path : String
  pub public_path : String
  pub methods : List String

abbrev pub implicit_route_service_prefix : String
implicit_route_service_prefix = "_route_"

abbrev pub implicit_code : String → String
implicit_code menu_id = String.◌++◌ implicit_route_service_prefix menu_id

abbrev pub is_implicit_service : String → String → Bool
is_implicit_service code menu_id = code == implicit_code menu_id

-- `menuUrl.replace(/^\/app\/?/, '').replace(/^\/+/, '')`
abbrev strip_app : String → String
strip_app u =
    if starts_with "/app/" u
    then drop_prefix "/app/" u
    else if starts_with "/app" u
    then drop_prefix "/app" u
    else u

unfoldable pub to_proxy_public_path : String → String
to_proxy_public_path u = String.◌++◌ "/" (drop_chars b'/' (strip_app u))

-- `new Set(…)`: the first of each value
abbrev distinct_from : List String → List String → List String
distinct_from seen [] = []
distinct_from seen (s ∷ ss) =
    let with_s = s ∷ distinct_from (s ∷ seen) ss in
    let without_s = distinct_from seen ss in if includes s seen then without_s else with_s

abbrev or_get : List String → List String
or_get [] = "GET" ∷ []
or_get (m ∷ ms) = m ∷ ms

unfoldable pub normalize_methods : List String → List String
normalize_methods methods = distinct_from [] (map to_upper (or_get methods))

abbrev pub plan_for : Network → String → String → List String → Prog World ProxyRoutePlan
plan_for net menu_url target_url methods =
    lift (assert_safe_probe_target net target_url) >>= λ target. ret (record {
      base_url = target.url.origin;
      target_path = target.url.pathname;
      public_path = to_proxy_public_path menu_url;
      methods = normalize_methods methods;
    })

abbrev pub no_app_path : Prog World ProxyRoutePlan
no_app_path =
    raise (bad_request "Para enrutar a un microservicio, la ruta del menu debe empezar por /app/")

unfoldable pub build_proxy_plan :
    Network → Option String → String → List String → Prog World ProxyRoutePlan
build_proxy_plan net none target_url methods = no_app_path
build_proxy_plan net (some u) target_url methods =
    if not (starts_with "/app/" u) then no_app_path else plan_for net u target_url methods

abbrev pub active_menu : World → String → Option Menu
active_menu w id = find (λ m. m.id == id && is_active m.estado) w.menus

abbrev pub ensure_active_menu : String → Prog World Menu
ensure_active_menu id =
    atomic (λ w. w) (λ w. some_or (not_found "Menu no encontrado") (active_menu w id))

abbrev pub ensure_active_module : String → Prog World (Unit {0})
ensure_active_module id =
    atomic (λ w. w) (λ w. guard (module_is_active w id) (not_found "Modulo no encontrado"))

unfoldable pub ensure_parent_in_module : String → String → Prog World (Unit {0})
ensure_parent_in_module parent_id module_id = do
  found ← query (λ w. active_menu w parent_id)
  parent ← some_or (not_found "Menu padre no encontrado") found
  guard (parent.module_id == module_id)
      (bad_request "El menu padre debe pertenecer al mismo modulo")

-- An id that the loop goes on with: `while (currentParentId)`
abbrev pub nonempty : Option String → Option String
nonempty none = none
nonempty (some s) = if truthy s then some s else none

abbrev pub menu_by_id : World → String → Option Menu
menu_by_id w id = find (λ m. m.id == id) w.menus

-- `parent?.parentId ?? null`, as the loop reads it
abbrev pub parent_of : World → String → Option String
parent_of w id = nonempty (Option.bind (menu_by_id w id) (λ m. m.parent_id))

-- The loop of `assertNoCycle`, for at most so many rounds.
unfoldable pub climb : ℕ → String → Option String → Prog World (Unit {0})
climb n menu_id none = ret tt
climb zero menu_id (some p) = raise (thrown "out of rounds")
climb (suc n) menu_id (some p) =
    if p == menu_id
    then raise (bad_request "La jerarquia de menu no puede ser ciclica")
    else query (λ w. parent_of w p) >>= climb n menu_id

unfoldable pub assert_no_cycle : ℕ → String → String → Prog World (Unit {0})
assert_no_cycle rounds menu_id parent_id = climb rounds menu_id (nonempty (some parent_id))
