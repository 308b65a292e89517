-- ===== src/Menus/Untouched.antt =====
-- menus.service.ts: what is done to a proxy route and its service leaves the menus alone.
use master_gateway_auth.Prelude.{
  String, Bool, true, false, Option, none, some, List, [], ◌∷◌, ◌≡◌, refl, ◌∙◌, if◌then◌else◌,
}
use master_gateway_auth.Prog.{Prog, run}
use master_gateway_auth.Prog.Moves.{Moves, of_ret, of_raise, of_atomic, moves_rules}
use master_gateway_auth.Db.{ExternalServiceRoute, ExternalService, World}
use master_gateway_auth.Platform.{Platform}
use master_gateway_auth.Menus
use master_gateway_auth.Menus.Routes
use master_gateway_auth.Menus.Operations

-- A step that leaves the menus alone.
abbrev pub SameMenus : World → World → Type 0
SameMenus w w' = w'.menus ≡ w.menus

if_menus :
    (b : Bool) (v v' w : World)
    → v.menus ≡ w.menus
    → v'.menus ≡ w.menus
    → (if b then v else v').menus ≡ w.menus
if_menus true v v' w e e' = e
if_menus false v v' w e e' = e'

ruleset menus_rules = (refl, if_menus, moves_rules)

Same-available_after :
    (path menu_id : String) (o : Option ExternalServiceRoute)
    → Moves SameMenus (Routes.available_after path menu_id o)
Same-available_after path menu_id none = search menus_rules
Same-available_after path menu_id (some clash) = search menus_rules depth 12

Same-ensure_public_path_available :
    (path menu_id : String) → Moves SameMenus (Routes.ensure_public_path_available path menu_id)
unfolding Routes.ensure_public_path_available
Same-ensure_public_path_available path menu_id = search (menus_rules, Same-available_after)

Same-attach_proxy_route :
    (pf : Platform) (menu_id name : String) (plan : Menus.ProxyRoutePlan) (actor : String)
    → Moves SameMenus (Routes.attach_proxy_route pf menu_id name plan actor)
unfolding Routes.attach_proxy_route
Same-attach_proxy_route pf menu_id name plan actor =
    search (menus_rules, Same-ensure_public_path_available) depth 16

pub Same-detach_proxy_route :
    (id actor : String) → Moves SameMenus (Routes.detach_proxy_route id actor)
unfolding Routes.detach_proxy_route
Same-detach_proxy_route id actor = search menus_rules depth 16

Same-change_methods :
    (route : ExternalServiceRoute) (methods : List String) (actor : String)
    → Moves SameMenus (Operations.change_methods route methods actor)
Same-change_methods route [] actor = search menus_rules
Same-change_methods route (m ∷ ms) actor = search menus_rules depth 12

pub Same-change_route :
    (pf : Platform) (id : String) (dto : Menus.UpdateMenuDto) (name : String)
    (existing : Option (ExternalServiceRoute × ExternalService))
    (plan : Option Menus.ProxyRoutePlan) (actor : String)
    → Moves SameMenus (Operations.change_route pf id dto name existing plan actor)
Same-change_route pf id dto name none none actor = search menus_rules
Same-change_route pf id dto name none (some plan) actor = search Same-attach_proxy_route
Same-change_route pf id dto name (some (route, service)) none actor =
    search (menus_rules, Same-detach_proxy_route, Same-change_methods) depth 12
Same-change_route pf id dto name (some (route, service)) (some plan) actor =
    search (menus_rules, Same-ensure_public_path_available) depth 16

pub run-same :
    {A : Type 0} {m : Prog World A} → Moves SameMenus m → (w : World) → (run m w).1.menus ≡ w.menus
run-same (of_ret a) w = refl
run-same (of_raise e) w = refl
run-same (of_atomic does next) w = run-same (next w) _ ∙ does w
