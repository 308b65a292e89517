-- ===== src/Requests/Registry.antt =====
-- external-services.service.ts: the steps of its handlers, and the refresh tokens.
use master_gateway_auth.Prelude.{ℕ, ◌+◌, String, List, [], ◌∷◌}
use master_gateway_auth.Prog.Moves.{Moves}
use master_gateway_auth.Db.{ExternalService}
use master_gateway_auth.Platform.{Platform}
use master_gateway_auth.Ssrf.{Network}
use master_gateway_auth.Services
use master_gateway_auth.Services.Probe
use master_gateway_auth.Services.Registration
use master_gateway_auth.Services.Provision
use master_gateway_auth.Requests.Rules.{SameTokens, token_rules}

pub remove_service-same : (id actor : String) → Moves SameTokens (Services.remove id actor)
unfolding Services.remove
remove_service-same id actor = search token_rules depth 12

pub rotate-same :
    (random_key : ℕ → String) (id actor : String)
    → Moves SameTokens (Services.rotate_api_key random_key id actor)
unfolding Services.rotate_api_key
rotate-same random_key id actor = search token_rules depth 12

pub update_service-same :
    (id : String) (dto : Registration.UpdateExternalServiceDto) (actor : String)
    → Moves SameTokens (Registration.update id dto actor)
unfolding Registration.update
update_service-same id dto actor = search token_rules depth 12

module _ (net : Network) (internet : Probe.Internet) where
  pub probe-same : (dto : Probe.ProbeServiceDto) → Moves SameTokens (Probe.probe net internet dto)
  unfolding Probe.probe
  probe-same dto = search token_rules depth 12

  pub create_service-same :
      (pf : Platform) (dto : Registration.CreateExternalServiceDto) (actor : String)
      → Moves SameTokens (Registration.create net internet pf dto actor)
  unfolding Registration.create
  create_service-same pf dto actor = search (token_rules, probe-same) depth 16

  pub probe_existing-same :
      (id actor : String) → Moves SameTokens (Registration.probe_existing net internet id actor)
  unfolding Registration.probe_existing
  probe_existing-same id actor = search (token_rules, probe-same) depth 16

module _ (pf : Platform) (actor : String) where
  create_leaves-same :
      (s : ExternalService) (module_id root_id : String) (index : ℕ)
      (items : List Provision.ProvisionMenuItemDto)
      → Moves SameTokens (Provision.create_leaves pf actor s module_id root_id index items)
  create_leaves-same s module_id root_id index [] = search token_rules
  create_leaves-same s module_id root_id index (item ∷ items) =
      let rest = create_leaves-same s module_id root_id (index + 1) items in
      search (token_rules, rest) depth 16

  grant_menus-same :
      (role_id : String) (menu_ids : List String)
      → Moves SameTokens (Provision.grant_menus pf actor role_id menu_ids)
  grant_menus-same role_id [] = search token_rules
  grant_menus-same role_id (m ∷ ms) =
      let rest = grant_menus-same role_id ms in search (token_rules, rest) depth 16

  grant_roles-same :
      (module_id : String) (menu_ids role_ids : List String)
      → Moves SameTokens (Provision.grant_roles pf actor module_id menu_ids role_ids)
  grant_roles-same module_id menu_ids [] = search token_rules
  grant_roles-same module_id menu_ids (r ∷ rs) =
      let rest = grant_roles-same module_id menu_ids rs in
      search (token_rules, rest, grant_menus-same) depth 16

  pub provision-same :
      (id : String) (dto : Provision.ProvisionServiceDto)
      → Moves SameTokens (Provision.provision pf actor id dto)
  unfolding Provision.provision
  provision-same id dto =
      search (token_rules, create_leaves-same, grant_roles-same) depth 20 fits 3000
