-- ===== src/Requests/Navigation.antt =====
-- menus.service.ts: the steps of its handlers, and the refresh tokens.
use master_gateway_auth.Prelude.{ℕ, zero, suc, ◌++◌, String, Option, none, some, List, [], ◌∷◌}
use master_gateway_auth.Prog.Moves.{Moves}
use master_gateway_auth.Db.{ExternalServiceRoute, ExternalService}
use master_gateway_auth.Platform.{Platform}
use master_gateway_auth.Ssrf.{Network}
use master_gateway_auth.Menus
use master_gateway_auth.Menus.Routes
use master_gateway_auth.Menus.Operations
use master_gateway_auth.Requests.Rules.{SameTokens, token_rules}

available_after-same :
    (path menu_id : String) (o : Option ExternalServiceRoute)
    → Moves SameTokens (Routes.available_after path menu_id o)
available_after-same path menu_id none = search token_rules
available_after-same path menu_id (some clash) = search token_rules depth 12

path_available-same :
    (path menu_id : String) → Moves SameTokens (Routes.ensure_public_path_available path menu_id)
unfolding Routes.ensure_public_path_available
path_available-same path menu_id = search (token_rules, available_after-same)

attach-same :
    (pf : Platform) (menu_id name : String) (plan : Menus.ProxyRoutePlan) (actor : String)
    → Moves SameTokens (Routes.attach_proxy_route pf menu_id name plan actor)
unfolding Routes.attach_proxy_route
attach-same pf menu_id name plan actor = search (token_rules, path_available-same) depth 16

detach-same : (id actor : String) → Moves SameTokens (Routes.detach_proxy_route id actor)
unfolding Routes.detach_proxy_route
detach-same id actor = search token_rules depth 16

module _ (net : Network) where
  build_plan-same :
      (url : Option String) (target : String) (methods : List String)
      → Moves SameTokens (Menus.build_proxy_plan net url target methods)
  unfolding Menus.build_proxy_plan
  build_plan-same none target methods = search token_rules
  build_plan-same (some u) target methods = search token_rules depth 12

  plan_if-same :
      (url target : Option String) (methods : List String)
      → Moves SameTokens (Operations.plan_if net url target methods)
  plan_if-same url none methods = search token_rules
  plan_if-same url (some t) methods = search (token_rules, build_plan-same) depth 12

parent_in_module-same :
    (p module_id : String) → Moves SameTokens (Menus.ensure_parent_in_module p module_id)
unfolding Menus.ensure_parent_in_module
parent_in_module-same p module_id = search token_rules depth 12

check_parent-same :
    (p : Option String) (module_id : String)
    → Moves SameTokens (Operations.check_parent p module_id)
check_parent-same none module_id = search token_rules
check_parent-same (some p) module_id = search (token_rules, parent_in_module-same) depth 12

climb-same : (n : ℕ) (id : String) (o : Option String) → Moves SameTokens (Menus.climb n id o)
unfolding Menus.climb
climb-same n id none = search token_rules
climb-same zero id (some p) = search token_rules
climb-same (suc n) id (some p) = let rest = climb-same n id in search (token_rules, rest) depth 12

check_new_parent-same :
    (rounds : ℕ) (id : String) (p : Menus.Field String) (module_id : String)
    → Moves SameTokens (Operations.check_new_parent rounds id p module_id)
unfolding Menus.assert_no_cycle
check_new_parent-same rounds id Menus.absent module_id = search token_rules
check_new_parent-same rounds id Menus.null module_id = search token_rules
check_new_parent-same rounds id (Menus.given p) module_id =
    search (token_rules, climb-same, parent_in_module-same) depth 12

change_methods-same :
    (route : ExternalServiceRoute) (methods : List String) (actor : String)
    → Moves SameTokens (Operations.change_methods route methods actor)
change_methods-same route [] actor = search token_rules
change_methods-same route (m ∷ ms) actor = search token_rules depth 12

change_route-same :
    (pf : Platform) (id : String) (dto : Menus.UpdateMenuDto) (name : String)
    (existing : Option (ExternalServiceRoute × ExternalService))
    (plan : Option Menus.ProxyRoutePlan) (actor : String)
    → Moves SameTokens (Operations.change_route pf id dto name existing plan actor)
change_route-same pf id dto name none none actor = search token_rules
change_route-same pf id dto name none (some plan) actor = search attach-same
change_route-same pf id dto name (some (route, service)) none actor =
    search (token_rules, detach-same, change_methods-same) depth 12
change_route-same pf id dto name (some (route, service)) (some plan) actor =
    search (token_rules, path_available-same) depth 16

attach_if-same :
    (pf : Platform) (id name : String) (plan : Option Menus.ProxyRoutePlan) (actor : String)
    → Moves SameTokens (Operations.attach_if pf id name plan actor)
attach_if-same pf id name none actor = search token_rules
attach_if-same pf id name (some plan) actor = search attach-same

collect-same :
    (n : ℕ) (ids pending : List String) → Moves SameTokens (Operations.collect n ids pending)
unfolding Operations.collect
collect-same n ids [] = search token_rules
collect-same zero ids (p ∷ ps) = search token_rules
collect-same (suc n) ids (p ∷ ps) =
    let rest = collect-same n (ids ++ p ∷ ps) in search (token_rules, rest) depth 12

detach_all-same :
    (rs : List String) (actor : String) → Moves SameTokens (Operations.detach_all rs actor)
detach_all-same [] actor = search token_rules
detach_all-same (r ∷ rs) actor =
    let rest = detach_all-same rs actor in search (token_rules, rest, detach-same)

pub create_menu-same :
    (pf : Platform) (net : Network) (dto : Menus.CreateMenuDto) (actor : String)
    → Moves SameTokens (Operations.create pf net dto actor)
unfolding Operations.create
create_menu-same pf net dto actor =
    search (token_rules, check_parent-same, plan_if-same, attach_if-same) depth 16

pub update_menu-same :
    (pf : Platform) (net : Network) (rounds : ℕ) (id : String) (dto : Menus.UpdateMenuDto)
    (actor : String)
    → Moves SameTokens (Operations.update pf net rounds id dto actor)
unfolding Operations.update
update_menu-same pf net rounds id dto actor =
    search (token_rules, check_new_parent-same, plan_if-same, change_route-same) depth 20

pub remove_menu-same :
    (rounds : ℕ) (id actor : String) → Moves SameTokens (Operations.remove rounds id actor)
unfolding Operations.remove
remove_menu-same rounds id actor = search (token_rules, collect-same, detach_all-same) depth 16
