-- ===== src/Tests/Catalogue.antt =====
-- Modules and permissions, at a concrete state.
use master_gateway_auth.Prelude.{
  String, false, none, [], ◌∷◌, ◌≡◌, refl, sym, ◌∙◌, ◌==◌, All, includes, eq_iff,
}
use mathlib.Core.Bool.{false≢true}
use master_gateway_auth.Prog.{ok, run}
use master_gateway_auth.Db.{activo, SystemModule, Menu, ExternalServiceRoute, World}
use master_gateway_auth.Auth.Session.{permissions_in}
use master_gateway_auth.Modules
use master_gateway_auth.Modules.Removal.{IsRemoved, removed, module-IsRemoved}
use master_gateway_auth.Permissions
use master_gateway_auth.Permissions.Removal.{IsCodeOf, removed-permissions_in}
use master_gateway_auth.Tests.State.{world, link, permission}

abbrev menu : String → String → Menu
menu id module_id = record {
  id = id;
  name = "Orders";
  url = none;
  icon = none;
  order = 0;
  module_id = module_id;
  parent_id = none;
  estado = activo;
  created_by = none;
  updated_by = none;
}

abbrev module' : String → SystemModule
module' id = record {
  id = id;
  code = "ORDERS";
  name = "Orders";
  description = none;
  estado = activo;
  created_by = none;
  updated_by = none;
}

abbrev route : ExternalServiceRoute
route = record {
  id = "x1";
  service_id = "s1";
  menu_id = "n1";
  public_path = "/orders";
  target_path = "/";
  methods = "GET" ∷ [];
  estado = activo;
  created_by = none;
  updated_by = none;
}

abbrev furnished : World
furnished = record world {
  modules = module' "m1" ∷ [];
  menus = menu "n1" "m1" ∷ menu "n2" "m2" ∷ [];
  role_modules = link "c1" "r2" "m1" ∷ [];
  role_menus = link "d1" "r2" "n1" ∷ link "d2" "r2" "n2" ∷ [];
  service_routes = route ∷ [];
}

removes_module : run (Modules.remove "m1" "u9") furnished ≡ (ok tt, removed "m1" "u9" furnished)
unfolding Modules.remove
removes_module = refl

module-IsRemoved_example : IsRemoved "m1" furnished (removed "m1" "u9" furnished)
module-IsRemoved_example =
    module-IsRemoved "m1" "u9" furnished (removed "m1" "u9" furnished) removes_module

removes_permission :
    run (Permissions.remove "p2") world
    ≡ (ok (Permissions.retire (permission "p2" "users:list")), Permissions.without "p2" world)
unfolding Permissions.remove
removes_permission = refl

-- Another code has another row.
apart : (s t : String) {P : Type 0} → (s == t) ≡ false → s ≡ t → P
apart s t h e = absurd (false≢true (sym h ∙ (eq_iff s t).1 e))

only : All (IsCodeOf "users:list" "p2") world.permissions
only = (
  apart "roles:assign_permission" "users:list" refl,
  ((λ e. refl), (apart "roles:unassign_permission" "users:list" refl, tt)),
)

removed-permissions_in_example :
    includes "users:list" (permissions_in (Permissions.without "p2" world) "r1") ≡ false
removed-permissions_in_example =
    removed-permissions_in "p2" "r1" "users:list" world (Permissions.without "p2" world)
      (Permissions.retire (permission "p2" "users:list")) removes_permission only
