-- ===== src/Requests/Catalogue.antt =====
-- modules.service.ts and permissions.service.ts: the steps of their handlers, and the refresh tokens.
use master_gateway_auth.Prelude.{String, List, [], ◌∷◌}
use master_gateway_auth.Prog.Moves.{Moves}
use master_gateway_auth.Platform.{Platform}
use master_gateway_auth.Modules
use master_gateway_auth.Permissions
use master_gateway_auth.Requests.Rules.{SameTokens, token_rules}

retire_for_menus-same :
    (ids : List String) (actor : String) → Moves SameTokens (Modules.retire_for_menus ids actor)
retire_for_menus-same [] actor = search token_rules
retire_for_menus-same (i ∷ is) actor = search token_rules depth 12

pub create_module-same :
    (pf : Platform) (dto : Modules.CreateModuleDto) (actor : String)
    → Moves SameTokens (Modules.create pf dto actor)
unfolding Modules.create
create_module-same pf dto actor = search token_rules depth 12

pub update_module-same :
    (id : String) (dto : Modules.UpdateModuleDto) (actor : String)
    → Moves SameTokens (Modules.update id dto actor)
unfolding Modules.update
update_module-same id dto actor = search token_rules depth 12

pub remove_module-same : (id actor : String) → Moves SameTokens (Modules.remove id actor)
unfolding Modules.remove
remove_module-same id actor = search (token_rules, retire_for_menus-same) depth 12

pub create_permission-same :
    (pf : Platform) (dto : Permissions.CreatePermissionDto)
    → Moves SameTokens (Permissions.create pf dto)
unfolding Permissions.create
create_permission-same pf dto = search token_rules depth 12

pub update_permission-same :
    (id : String) (dto : Permissions.UpdatePermissionDto)
    → Moves SameTokens (Permissions.update id dto)
unfolding Permissions.update
update_permission-same id dto = search token_rules depth 12

pub remove_permission-same : (id : String) → Moves SameTokens (Permissions.remove id)
unfolding Permissions.remove
remove_permission-same id = search token_rules depth 12
