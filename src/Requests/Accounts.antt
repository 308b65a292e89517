-- ===== src/Requests/Accounts.antt =====
-- roles.service.ts and users.service.ts: the steps of their handlers, and the refresh tokens.
use master_gateway_auth.Prelude.{
  ℕ, String, Bool, true, false, Option, none, some, List, refl, any, ◌==◌,
}
use master_gateway_auth.Prog.{guard, database, run, after}
use master_gateway_auth.Prog.Moves.{moves_rules, Moves}
use master_gateway_auth.Db.{RoleLink, World, Role, Permission}
use master_gateway_auth.Platform.{Platform}
use master_gateway_auth.Auth.Life.{EvolvesIn, Retires, same, retire}
use master_gateway_auth.Roles
use master_gateway_auth.Users
use master_gateway_auth.Requests.Rules.{SameTokens, token_rules}

with_links-same :
    (table : Roles.LinkTable) (ls : List RoleLink) (v w : World)
    → SameTokens w v
    → SameTokens w (Roles.with_links table ls v)
with_links-same Roles.user_table ls v w h = h
with_links-same Roles.module_table ls v w h = h
with_links-same Roles.menu_table ls v w h = h
with_links-same Roles.permission_table ls v w h = h

can_use-same :
    (name : Option String) (a : Roles.Actor)
    → Moves SameTokens (Roles.can_use_protected_role_name name a)
can_use-same name a = search token_rules depth 12

can_mutate-same :
    (m : Roles.PermissionMutation) (a : Roles.Actor) (target : Role) (p : Permission)
    → Moves SameTokens (Roles.can_mutate_role_permission m a target p)
unfolding Roles.can_mutate_role_permission
can_mutate-same m a target p = search token_rules depth 16

ruleset link_rules = (token_rules, with_links-same, can_use-same, can_mutate-same)

module _ (pf : Platform) (a : Roles.Actor) where
  pub perform-same : (op : Roles.Operation) → Moves SameTokens (Roles.perform pf a op)
  unfolding Roles.perform Roles.create Roles.update Roles.remove Roles.assign_user
      Roles.unassign_user Roles.assign_module Roles.assign_menu Roles.unassign_module
      Roles.unassign_menu Roles.assign_permission Roles.unassign_permission
  perform-same (Roles.create_role dto) = search link_rules depth 16
  perform-same (Roles.update_role id dto) = search link_rules depth 16
  perform-same (Roles.remove_role id) = search link_rules depth 16
  perform-same (Roles.give_user r u) = search link_rules depth 16
  perform-same (Roles.take_user r u) = search link_rules depth 16
  perform-same (Roles.give_module r m) = search link_rules depth 16
  perform-same (Roles.take_module r m) = search link_rules depth 16
  perform-same (Roles.give_menu r m) = search link_rules depth 16
  perform-same (Roles.take_menu r m) = search link_rules depth 16
  perform-same (Roles.give_permission r p) = search link_rules depth 16
  perform-same (Roles.take_permission r p) = search link_rules depth 16

hash_given-same : (pf : Platform) (o : Option String) → Moves SameTokens (Users.hash_given pf o)
hash_given-same pf none = search token_rules
hash_given-same pf (some password) = search token_rules

pub create_user-same :
    (pf : Platform) (dto : Users.CreateUserDto) (actor : String)
    → Moves SameTokens (Users.create pf dto actor)
unfolding Users.create
create_user-same pf dto actor = search link_rules depth 16

pub update_user-same :
    (pf : Platform) (id : String) (dto : Users.UpdateUserDto) (actor : String)
    → Moves SameTokens (Users.update pf id dto actor)
unfolding Users.update
update_user-same pf id dto actor = search (token_rules, hash_given-same) depth 16

revoke-Retires : (now : ℕ) (actor : String) → Retires (Users.revoke_token now actor)
revoke-Retires now actor = record { id = λ t. refl; jti = λ t. refl; estado = λ t. refl }

rolled_back :
    (v w : World) (b : Bool)
    → EvolvesIn w v
    → EvolvesIn w (after (run (guard b (database "P2025")) v) w)
rolled_back v w true h = h
rolled_back v w false h = same

removal-Evolves :
    (id actor : String) (now : ℕ) (w : World)
    → EvolvesIn w (after (run (Users.removal id actor now) w) w)
removal-Evolves id actor now w =
    rolled_back _ w (any (λ u. u.id == id) w.users)
      (retire (Users.own_token id) (revoke-Retires now actor))

pub remove_user-Evolves : (id actor : String) → Moves EvolvesIn (Users.remove id actor)
unfolding Users.remove
remove_user-Evolves id actor = search (moves_rules, same, removal-Evolves) depth 12
