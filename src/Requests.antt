-- ===== src/Requests.antt =====
-- The requests of the backend that change its state, as the controllers hand them to the services, and
-- what they do together.
pub mod Rules
pub mod Catalogue
pub mod Accounts
pub mod Registry
pub mod Navigation
pub mod Sessions
pub mod Spent
pub mod Ended
use master_gateway_auth.Prelude.{ℕ, String, Option}
use master_gateway_auth.Prog.{Prog, ret, ◌>>=◌}
use master_gateway_auth.Db.{World}
use master_gateway_auth.Platform.{Platform}
use master_gateway_auth.Ssrf.{Network}
use master_gateway_auth.Auth.Internal
use master_gateway_auth.Auth.Login
use master_gateway_auth.Auth.Refresh
use master_gateway_auth.Roles
use master_gateway_auth.Users
use master_gateway_auth.Modules
use master_gateway_auth.Permissions
use master_gateway_auth.Menus
use master_gateway_auth.Menus.Operations
use master_gateway_auth.Services
use master_gateway_auth.Services.Probe
use master_gateway_auth.Services.Registration
use master_gateway_auth.Services.Provision

-- What the requests rely on outside the repository.
pub record Surroundings : Type 0 where
  pub platform : Platform
  pub network : Network
  pub internet : Probe.Internet
  pub random_key : ℕ → String

-- `actor` is the id of the user who asks; `rounds` bounds the loops over the table of menus.
pub data Request : Type 0 where
  log_in : Login.LoginDto → Request
  choose_role : Login.SelectRoleDto → Request
  refresh_session : (token : String) → Request
  log_out : (user_id token : String) → Request
  validate : (api_key : Option String) → (token : String) → (service : Option String) → Request
  administer_roles : Roles.Actor → Roles.Operation → Request
  create_user : Users.CreateUserDto → (actor : String) → Request
  update_user : (id : String) → Users.UpdateUserDto → (actor : String) → Request
  remove_user : (id actor : String) → Request
  create_module : Modules.CreateModuleDto → (actor : String) → Request
  update_module : (id : String) → Modules.UpdateModuleDto → (actor : String) → Request
  remove_module : (id actor : String) → Request
  create_permission : Permissions.CreatePermissionDto → Request
  update_permission : (id : String) → Permissions.UpdatePermissionDto → Request
  remove_permission : (id : String) → Request
  create_menu : Menus.CreateMenuDto → (actor : String) → Request
  update_menu : (rounds : ℕ) → (id : String) → Menus.UpdateMenuDto → (actor : String) → Request
  remove_menu : (rounds : ℕ) → (id actor : String) → Request
  probe_service : Probe.ProbeServiceDto → Request
  create_service : Registration.CreateExternalServiceDto → (actor : String) → Request
  update_service :
      (id : String) → Registration.UpdateExternalServiceDto → (actor : String) → Request
  probe_existing : (id actor : String) → Request
  rotate_api_key : (id actor : String) → Request
  remove_service : (id actor : String) → Request
  provision_service : (id : String) → Provision.ProvisionServiceDto → (actor : String) → Request

-- The answer is left out: what counts is what is done to the state.
abbrev pub answered : {A : Type 0} → Prog World A → Prog World (Unit {0})
answered p = p >>= λ a. ret tt

abbrev pub handle : Surroundings → Request → Prog World (Unit {0})
handle s (log_in dto) = answered (Login.login s.platform dto)
handle s (choose_role dto) = answered (Login.select_role s.platform dto)
handle s (refresh_session token) = answered (Refresh.refresh s.platform token)
handle s (log_out user_id token) = answered (Refresh.logout s.platform user_id token)
handle s (validate api_key token service) =
    answered (Internal.validate_internal s.platform api_key token service)
handle s (administer_roles actor op) = answered (Roles.perform s.platform actor op)
handle s (create_user dto actor) = answered (Users.create s.platform dto actor)
handle s (update_user id dto actor) = answered (Users.update s.platform id dto actor)
handle s (remove_user id actor) = answered (Users.remove id actor)
handle s (create_module dto actor) = answered (Modules.create s.platform dto actor)
handle s (update_module id dto actor) = answered (Modules.update id dto actor)
handle s (remove_module id actor) = answered (Modules.remove id actor)
handle s (create_permission dto) = answered (Permissions.create s.platform dto)
handle s (update_permission id dto) = answered (Permissions.update id dto)
handle s (remove_permission id) = answered (Permissions.remove id)
handle s (create_menu dto actor) = answered (Operations.create s.platform s.network dto actor)
handle s (update_menu rounds id dto actor) =
    answered (Operations.update s.platform s.network rounds id dto actor)
handle s (remove_menu rounds id actor) = answered (Operations.remove rounds id actor)
handle s (probe_service dto) = answered (Probe.probe s.network s.internet dto)
handle s (create_service dto actor) =
    answered (Registration.create s.network s.internet s.platform dto actor)
handle s (update_service id dto actor) = answered (Registration.update id dto actor)
handle s (probe_existing id actor) =
    answered (Registration.probe_existing s.network s.internet id actor)
handle s (rotate_api_key id actor) = answered (Services.rotate_api_key s.random_key id actor)
handle s (remove_service id actor) = answered (Services.remove id actor)
handle s (provision_service id dto actor) = answered (Provision.provision s.platform actor id dto)
