-- ===== src/Menus/Operations.antt =====
-- menus.service.ts: the operations that change menus.
use mathlib.Core.Option
use master_gateway_auth.Prelude.{
  ℕ, zero, suc, String, Bool, true, false, ◌&&◌, Option, none, some, List, [], ◌∷◌, ◌++◌, ◌==◌,
  or_else, truthy, if◌then◌else◌, map, select, update_where, includes,
}
use master_gateway_auth.Prog.{
  Prog, ret, raise, atomic, query, modify, some_or, transaction, database, thrown, ◌>>=◌, ◌>>◌,
}
use master_gateway_auth.Db.{
  activo, inactivo, is_active, Menu, RoleLink, ExternalService, ExternalServiceRoute, World,
}
use master_gateway_auth.Platform.{Platform}
use master_gateway_auth.Ssrf.{Network}
use master_gateway_auth.Menus
use master_gateway_auth.Menus.Routes

-- `dto.parentId ? … : …`, `dto.targetUrl ? … : …`
abbrev pub check_parent : Option String → String → Prog World (Unit {0})
check_parent none module_id = ret tt
check_parent (some p) module_id =
    if truthy p then Menus.ensure_parent_in_module p module_id else ret tt

abbrev pub plan_if :
    Network → Option String → Option String → List String → Prog World (Option Menus.ProxyRoutePlan)
plan_if net url none methods = ret none
plan_if net url (some t) methods =
    if truthy t
    then (Menus.build_proxy_plan net url t methods >>= (λ plan. ret (some plan)))
    else ret none

abbrev pub new_menu : String → Menus.CreateMenuDto → String → Menu
new_menu id dto actor = record {
  id = id;
  name = dto.name;
  url = dto.url;
  icon = dto.icon;
  order = or_else dto.order 0;
  module_id = dto.module_id;
  parent_id = dto.parent_id;
  estado = activo;
  created_by = some actor;
  updated_by = none;
}

abbrev pub attach_if :
    Platform → String → String → Option Menus.ProxyRoutePlan → String → Prog World (Unit {0})
attach_if pf menu_id menu_name none actor = ret tt
attach_if pf menu_id menu_name (some plan) actor =
    Routes.attach_proxy_route pf menu_id menu_name plan actor

unfoldable pub create : Platform → Network → Menus.CreateMenuDto → String → Prog World Menu
create pf net dto actor = do
  Menus.ensure_active_module dto.module_id
  check_parent dto.parent_id dto.module_id
  plan ← plan_if net dto.url dto.target_url dto.methods
  transaction (do
    id ← Routes.draw_id pf
    let menu = new_menu id dto actor
    modify (λ w. record w { menus = w.menus ++ menu ∷ [] })
    attach_if pf id dto.name plan actor
    ret menu)

abbrev pub apply_update : Menus.UpdateMenuDto → String → Menu → Menu
apply_update dto actor m = record m {
  name = or_else dto.name m.name;
  url = Menus.apply_field dto.url m.url;
  icon = Menus.apply_field dto.icon m.icon;
  order = or_else dto.order m.order;
  module_id = or_else dto.module_id m.module_id;
  parent_id = Menus.apply_field dto.parent_id m.parent_id;
  updated_by = some actor;
}

-- `menu.update({ where: { id } })`
abbrev pub update_menu : String → (Menu → Menu) → Prog World Menu
update_menu id f =
    atomic (λ w. record w { menus = update_where (λ m. m.id == id) f w.menus })
      (λ w. some_or (database "P2025") (Option.map f (Menus.menu_by_id w id)))

-- The checks on a parent that is given.
abbrev pub check_new_parent : ℕ → String → Menus.Field String → String → Prog World (Unit {0})
check_new_parent rounds id Menus.absent module_id = ret tt
check_new_parent rounds id Menus.null module_id = ret tt
check_new_parent rounds id (Menus.given p) module_id =
    Menus.assert_no_cycle rounds id p >> Menus.ensure_parent_in_module p module_id

abbrev pub clears_route : Menus.Field String → Bool
clears_route Menus.absent = false
clears_route Menus.null = true
clears_route (Menus.given t) = t == ""

-- The target of the request, if it sets one.
abbrev pub sets_route : Menus.Field String → Option String
sets_route Menus.absent = none
sets_route Menus.null = none
sets_route (Menus.given t) = some t

abbrev pub reroute : Menus.ProxyRoutePlan → String → ExternalServiceRoute → ExternalServiceRoute
reroute plan actor r = record r {
  public_path = plan.public_path;
  target_path = plan.target_path;
  methods = plan.methods;
  estado = activo;
  updated_by = some actor;
}

abbrev pub repoint : Menus.ProxyRoutePlan → String → ExternalService → ExternalService
repoint plan actor s = record s {
  base_url = plan.base_url;
  estado = activo;
  updated_by = some actor;
}

abbrev pub set_methods : List String → String → ExternalServiceRoute → ExternalServiceRoute
set_methods methods actor r = record r {
  methods = Menus.normalize_methods methods;
  updated_by = some actor;
}

abbrev pub change_methods : ExternalServiceRoute → List String → String → Prog World (Unit {0})
change_methods route [] actor = ret tt
change_methods route (m ∷ ms) actor = Routes.update_route route.id (set_methods (m ∷ ms) actor)

abbrev pub reroute_existing :
    String
    → ExternalServiceRoute × ExternalService
    → Menus.ProxyRoutePlan
    → String
    → Prog World (Unit {0})
reroute_existing id (route, service) plan actor = do
  Routes.ensure_public_path_available plan.public_path id
  Routes.update_route route.id (reroute plan actor)
  if Menus.is_implicit_service service.code id
      then Routes.update_service route.service_id (repoint plan actor)
      else ret tt

-- What becomes of the route: it is taken down, set, or only its methods change.
abbrev pub change_route :
    Platform
    → String
    → Menus.UpdateMenuDto
    → String
    → Option (ExternalServiceRoute × ExternalService)
    → Option Menus.ProxyRoutePlan
    → String
    → Prog World (Unit {0})
change_route pf id dto name none none actor = ret tt
change_route pf id dto name none (some plan) actor = Routes.attach_proxy_route pf id name plan actor
change_route pf id dto name (some (route, service)) none actor =
    if clears_route dto.target_url
    then Routes.detach_proxy_route route.id actor
    else change_methods route dto.methods actor
change_route pf id dto name (some pair) (some plan) actor = reroute_existing id pair plan actor

-- The body of the transaction.
abbrev pub update_rows :
    Platform
    → String
    → Menus.UpdateMenuDto
    → Option (ExternalServiceRoute × ExternalService)
    → Option Menus.ProxyRoutePlan
    → String
    → Prog World Menu
update_rows pf id dto existing plan actor = do
  menu ← update_menu id (apply_update dto actor)
  change_route pf id dto menu.name existing plan actor
  ret menu

unfoldable pub update :
    Platform → Network → ℕ → String → Menus.UpdateMenuDto → String → Prog World Menu
update pf net rounds id dto actor = do
  current ← Menus.ensure_active_menu id
  let next_module = or_else dto.module_id current.module_id
  Menus.ensure_active_module next_module
  check_new_parent rounds id dto.parent_id next_module
  existing ← query (λ w. Routes.with_service w (Routes.route_by_menu w id))
  plan ← plan_if net (Menus.apply_field dto.url current.url) (sets_route dto.target_url) dto.methods
  transaction (update_rows pf id dto existing plan actor)

abbrev pub children_of : List String → World → List String
children_of pending w =
    map (λ m. m.id)
      (select
        (λ m. elim m.parent_id [ none ↦ false | some p ↦ includes p pending ] && is_active m.estado)
        w.menus)

-- The loop of `collectActiveSubtreeIds`, for at most so many rounds.
unfoldable pub collect : ℕ → List String → List String → Prog World (List String)
collect n ids [] = ret ids
collect zero ids (p ∷ ps) = raise (thrown "out of rounds")
collect (suc n) ids (p ∷ ps) = query (children_of (p ∷ ps)) >>= collect n (ids ++ p ∷ ps)

abbrev pub retire_link : String → RoleLink → RoleLink
retire_link actor l = record l { estado = inactivo; updated_by = some actor }

abbrev pub retire_menu : String → Menu → Menu
retire_menu actor m = record m { estado = inactivo; updated_by = some actor }

abbrev pub active_routes : List String → World → List String
active_routes ids w =
    map (λ r. r.id) (select (λ r. includes r.menu_id ids && is_active r.estado) w.service_routes)

abbrev pub detach_all : List String → String → Prog World (Unit {0})
detach_all [] actor = ret tt
detach_all (r ∷ rs) actor = Routes.detach_proxy_route r actor >> detach_all rs actor

abbrev pub removal : List String → String → Prog World (Unit {0})
removal ids actor = do
  modify (λ w. record w {
    role_menus =
        update_where (λ l. includes l.target_id ids && is_active l.estado) (retire_link actor)
          w.role_menus;
  })
  routes ← query (active_routes ids)
  detach_all routes actor
  modify (λ w. record w {
    menus = update_where (λ m. includes m.id ids && is_active m.estado) (retire_menu actor) w.menus;
  })

unfoldable pub remove : ℕ → String → String → Prog World (Unit {0})
remove rounds id actor = do
  found ← Menus.ensure_active_menu id
  ids ← collect rounds [] (id ∷ [])
  transaction (removal ids actor)
