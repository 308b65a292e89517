-- ===== src/Tests/Provisioning.antt =====
-- Provisioning, removals of services and modules, and keys, at concrete inputs.
use master_gateway_auth.Prelude.{
  String, false, none, some, [], ◌∷◌, ◌≡◌, ◌≢◌, refl, inl, inr, ◌==◌, if◌then◌else◌, Bool-cases,
  eqb, includes, truthy,
}
use master_gateway_auth.Prog.{ok, err, run, conflict}
use master_gateway_auth.Db.{
  inactivo, SystemModule, Menu, ExternalService, ExternalServiceRoute, World,
}
use master_gateway_auth.Text.{split, starts_with, drop_prefix, drop_chars, to_lower, to_upper}
use master_gateway_auth.Menus.{to_proxy_public_path, normalize_methods}
use master_gateway_auth.Modules
use master_gateway_auth.Services
use master_gateway_auth.Services.{active_by_id, omit_api_key, find_all, find_one}
use master_gateway_auth.Services.Secrecy.{with_other_keys, reads_hide_keys}
use master_gateway_auth.Services.Provision
use master_gateway_auth.Services.Provision.Effect.{provisioned_world}
use master_gateway_auth.Services.Provision.Access.{provisioned-role_passes}
use master_gateway_auth.Services.Provision.Refusal.{
  IsAtomic, provision-IsAtomic, removed-provision_refused,
}
use master_gateway_auth.Proxy.Paths.{match_path}
use master_gateway_auth.Proxy.Forward.{assignments, resolve_route}
use master_gateway_auth.Proxy.Forwarded.{IsForwarded}
use master_gateway_auth.Proxy.Resolution.{ResolvesIn, resolve_route-ResolvesIn}
use master_gateway_auth.Proxy.Removed.{removed-service_unreached, removed-module_unreached}
use master_gateway_auth.Tests.Administration.{world-HasUniqueRoles}
use master_gateway_auth.Tests.Sample.{platform}
use master_gateway_auth.Tests.Gateway.{
  shop, shop_world, orders_service, orders_menu, orders_route, request, up, net,
}
use master_gateway_auth.Tests.Proxying.{sent_request, request-IsForwarded_in}

abbrev stock : ExternalService
stock = record orders_service {
  id = "s2";
  code = "STOCK";
  name = "Stock";
  api_key = none;
  module_id = none;
}

abbrev depot : SystemModule
depot = record shop { id = "m2"; code = "DEPOT" }

abbrev full_world : World
full_world = record shop_world {
  modules = shop ∷ depot ∷ [];
  services = orders_service ∷ stock ∷ [];
}

abbrev dto : Provision.ProvisionServiceDto
dto = record {
  role_ids = "r2" ∷ [];
  items =
      record {
        name = "Items";
        path = "/app/stock/items";
        target_path = none;
        methods = "get" ∷ "GET" ∷ [];
        icon = none;
      }
      ∷ [];
}

abbrev provisioned : World
provisioned = provisioned_world platform "u9" stock "s2" ("r2" ∷ []) dto.items full_world

abbrev answer : Provision.Provisioned
answer = record {
  service = omit_api_key (Provision.with_module platform "u9" (platform.uuid 2) stock);
  system_module = Provision.provisioned_module (platform.uuid 2) stock "u9";
  menus = 2;
  routes = 1;
}

provision-run :
    run (Provision.provision platform "u9" "s2" dto) full_world ≡ (ok answer, provisioned)
unfolding Provision.provision Provision.infer_target_path to_proxy_public_path normalize_methods
    starts_with drop_prefix drop_chars to_lower to_upper omit_api_key
provision-run = refl

provisioned-role_passes_example : eqb (assignments provisioned "r2" (platform.uuid 4)) 0 ≡ false
provisioned-role_passes_example =
    provisioned-role_passes platform "u9" "s2" dto full_world answer provisioned "r2"
      (platform.uuid 4) world-HasUniqueRoles provision-run refl refl

provision-IsAtomic_test :
    IsAtomic full_world (run (Provision.provision platform "u9" "s2" dto) full_world)
provision-IsAtomic_test = provision-IsAtomic platform "u9" "s2" dto full_world

-- The target of the item is its path without the code of the service.
target_test : Provision.infer_target_path "/app/stock/items" "STOCK" ≡ "/items"
unfolding Provision.infer_target_path to_proxy_public_path starts_with drop_prefix drop_chars
    to_lower
target_test = refl

abbrev without_shop : World
without_shop = (run (Modules.remove "m1" "u9") full_world).1

shop_removed : run (Modules.remove "m1" "u9") full_world ≡ (ok tt, without_shop)
unfolding Modules.remove
shop_removed = refl

removed-provision_refused_example :
    run (Provision.provision platform "u9" "s1" dto) without_shop ≡ (
      err (
          conflict
            "El servicio ya fue aprovisionado. Elimina el modulo antes de volver a generarlo."),
      without_shop,
    )
removed-provision_refused_example =
    removed-provision_refused platform "u9" "s1" "m1" "u9" dto full_world without_shop
      orders_service refl refl refl shop_removed

abbrev without_stock : World
without_stock = record full_world {
  services = orders_service ∷ record stock { estado = inactivo; updated_by = some "u9" } ∷ [];
}

stock_removed : run (Services.remove "s2" "u9") full_world ≡ (ok tt, without_stock)
unfolding Services.remove
stock_removed = refl

-- The module has a menu, whose route takes the requests for the orders as long as it is active.
abbrev depot_menu : Menu
depot_menu = record orders_menu { id = "n9"; module_id = "m2" }

abbrev depot_route : ExternalServiceRoute
depot_route = record orders_route { id = "x9"; menu_id = "n9" }

abbrev depot_world : World
depot_world = record full_world {
  menus = depot_menu ∷ orders_menu ∷ [];
  service_routes = depot_route ∷ orders_route ∷ [];
}

depot_serves :
    resolve_route up depot_world "/orders/7"
    ≡ ok
        (some (record { route = depot_route; service = orders_service; params = ("id", "7") ∷ [] }))
unfolding resolve_route match_path split starts_with drop_prefix
depot_serves = refl

abbrev without_depot : World
without_depot = (run (Modules.remove "m2" "u9") depot_world).1

depot_removed : run (Modules.remove "m2" "u9") depot_world ≡ (ok tt, without_depot)
unfolding Modules.remove
depot_removed = refl

still_forwarded : IsForwarded up net without_stock request sent_request
unfolding resolve_route match_path split starts_with drop_prefix
still_forwarded = request-IsForwarded_in without_stock refl refl

forwarded_beside : IsForwarded up net without_depot request sent_request
unfolding resolve_route match_path split starts_with drop_prefix Modules.remove
forwarded_beside = request-IsForwarded_in without_depot refl refl

-- After the removal the route of the removed menu is passed by.
resolve_route-ResolvesIn_example :
    ResolvesIn up without_depot "/orders/7" without_depot.service_routes
      (resolve_route up without_depot "/orders/7")
resolve_route-ResolvesIn_example = resolve_route-ResolvesIn up without_depot "/orders/7"

removed-service_unreached_test : still_forwarded.resolved.route.service_id ≢ "s2"
removed-service_unreached_test =
    removed-service_unreached up net "s2" "u9" full_world without_stock request sent_request
      stock_removed still_forwarded

removed-module_unreached_example :
    includes forwarded_beside.resolved.route.menu_id (Modules.menu_ids "m2" depot_world) ≡ false
removed-module_unreached_example =
    removed-module_unreached up net "m2" "u9" depot_world without_depot request sent_request
      depot_removed forwarded_beside

abbrev masked : String → String
masked k = if k == "" then "" else "other"

masked_kept : (k : String) → truthy (masked k) ≡ truthy k
masked_kept k = elim (Bool-cases (k == "")) [ inl empty ↦ rw empty refl | inr full ↦ rw full refl ]

reads_hide_keys_example :
    ((run find_all (with_other_keys masked full_world)).0 ≡ (run find_all full_world).0)
    × ((run (find_one "s1") (with_other_keys masked full_world)).0
        ≡ (run (find_one "s1") full_world).0)
reads_hide_keys_example = reads_hide_keys masked masked_kept "s1" full_world
