-- ===== src/Roles.antt =====
-- backend/src/roles/roles.service.ts: the operations of `RolesService` that change state. The rows
-- that some of them hand back to the client are left out: an operation succeeds or fails.
pub mod Protected
pub mod Reading
pub mod Delegation
pub mod Links
pub mod Effects
pub mod Tables
pub use Tables.{
  CreateRoleDto, UpdateRoleDto, LinkTable, links, with_links, is_link, set_estado, new_link, upsert,
  deactivate, new_role, name_taken, insert_role, apply_update, renames_onto, update_row,
  deactivate_role, active_assignments, user_table, module_table, menu_table, permission_table,
}
unfoldable pub use Tables.{upsert_link, deactivate_link}
use Prim.Native.String
use master_gateway_auth.Prelude.{
  ℕ, zero, ◌+◌, String, Bool, true, false, not, ◌&&◌, ◌||◌, Option, none, some, List, [], ◌∷◌, ◌++◌,
  ◌==◌, ltb, eqb, or_else, has_text, is_some, if◌then◌else◌, find, any, count_where, update_where,
  includes,
}
use master_gateway_auth.Prog.{
  Prog, Result, ok, err, ret, raise, atomic, query, lift, guard, some_or, Failure, not_found,
  conflict, forbidden, bad_request, database, ◌>>=◌, ◌>>◌,
}
use master_gateway_auth.Db.{
  Estado, activo, inactivo, is_active, User, Role, Permission, SystemModule, Menu, RoleLink, World,
  user_is_active, role_is_active,
}
use master_gateway_auth.Platform.{Platform}
use master_gateway_auth.Text.{to_upper}

abbrev pub super_admin_role : String
super_admin_role = "SUPER_ADMIN"

abbrev pub protected_super_admin_roles : List String
protected_super_admin_roles = super_admin_role ∷ "SUPERADMIN" ∷ []

abbrev pub privileged_user_assignment_roles : List String
privileged_user_assignment_roles = super_admin_role ∷ "SUPERADMIN" ∷ "ADMIN" ∷ []

-- Who asks: the claims `sub`, `roleId` and `roleName` of the token.
pub record Actor : Type 0 where
  pub id : String
  pub role_id : String
  pub role_name : String

abbrev pub is_super_admin_actor : Actor → Bool
is_super_admin_actor a = a.role_name == super_admin_role

unfoldable pub is_privileged_user_assignment_role : String → Bool
is_privileged_user_assignment_role name = includes (to_upper name) privileged_user_assignment_roles

abbrev pub is_protected_super_admin_role : String → Bool
is_protected_super_admin_role name = includes name protected_super_admin_roles

abbrev pub is_protected_name : Option String → Bool
is_protected_name none = false
is_protected_name (some name) = not (name == "") && is_protected_super_admin_role name

-- `assertCanUseProtectedRoleName`
abbrev pub can_use_protected_role_name : Option String → Actor → Prog World (Unit {0})
can_use_protected_role_name name a =
    guard (not (is_protected_name name) || is_super_admin_actor a)
      (forbidden "Solo SUPER_ADMIN puede crear o renombrar roles protegidos")

-- `assertCanAssignPrivilegedRole`
abbrev pub can_assign_privileged_role : Role → Actor → Prog World (Unit {0})
can_assign_privileged_role r a =
    guard (not (is_privileged_user_assignment_role r.name) || is_super_admin_actor a)
      (forbidden "Solo SUPER_ADMIN puede asignar o remover roles privilegiados")

-- `assertCanManageProtectedRole`
abbrev pub can_manage_protected_role : Role → Actor → Prog World (Unit {0})
can_manage_protected_role r a =
    guard (not (is_protected_super_admin_role r.name) || is_super_admin_actor a)
      (forbidden "Solo SUPER_ADMIN puede modificar el rol SUPER_ADMIN")

abbrev pub active_role : World → String → Option Role
active_role w id = find (λ r. r.id == id && is_active r.estado) w.roles

abbrev pub ensure_active_role : String → Prog World Role
ensure_active_role id =
    atomic (λ w. w) (λ w. some_or (not_found "Rol no encontrado") (active_role w id))

abbrev pub ensure : (World → Bool) → Failure → Prog World (Unit {0})
ensure test e = atomic (λ w. w) (λ w. guard (test w) e)

abbrev pub active_permission : World → String → Option Permission
active_permission w id = find (λ p. p.id == id && is_active p.estado) w.permissions

abbrev pub ensure_active_permission : String → Prog World Permission
ensure_active_permission id =
    atomic (λ w. w) (λ w. some_or (not_found "Permiso no encontrado") (active_permission w id))

pub data PermissionMutation : Type 0 where
  assign unassign : PermissionMutation

abbrev pub required_permission : PermissionMutation → String
required_permission assign = "roles:assign_permission"
required_permission unassign = "roles:unassign_permission"

-- `rolePermission.findFirst` of `ensureActorHasPermission`
abbrev pub has_permission : World → String → String → Bool
has_permission w role_id code =
    any
      (λ l.
        l.role_id == role_id
        && is_active l.estado
        && role_is_active w l.role_id
        && any (λ p. p.id == l.target_id && (p.code == code && is_active p.estado)) w.permissions)
      w.role_permissions

abbrev pub ensure_actor_has_permission : String → String → Prog World (Unit {0})
ensure_actor_has_permission role_id code =
    ensure (λ w. has_permission w role_id code)
      (forbidden (String.◌++◌ "Tu rol no tiene el permiso " code))

abbrev pub may_delegate : PermissionMutation → Permission → Bool
may_delegate assign p = p.delegable
may_delegate unassign p = true

-- `assertCanMutateRolePermission`
unfoldable pub can_mutate_role_permission :
    PermissionMutation → Actor → Role → Permission → Prog World (Unit {0})
can_mutate_role_permission m a target p =
    if target.id == a.role_id
    then raise (forbidden "No puedes modificar permisos del rol con el que estas autenticado")
    else if is_super_admin_actor a
    then ret tt
    else if is_protected_super_admin_role target.name
    then raise (forbidden "Solo SUPER_ADMIN puede modificar permisos de SUPER_ADMIN")
    else do
      ensure_actor_has_permission a.role_id (required_permission m)
      ensure_actor_has_permission a.role_id p.code
      guard (may_delegate m p) (forbidden "Solo SUPER_ADMIN puede asignar permisos no delegables")

-- The check that the target of an assignment is there and active.
abbrev pub target_is_active : LinkTable → World → String → Bool
target_is_active user_table w id = user_is_active w id
target_is_active module_table w id = any (λ m. m.id == id && is_active m.estado) w.modules
target_is_active menu_table w id = any (λ m. m.id == id && is_active m.estado) w.menus
target_is_active permission_table w id = any (λ p. p.id == id && is_active p.estado) w.permissions

module _ (pf : Platform) (a : Actor) where
  unfoldable pub create : CreateRoleDto → Prog World (Unit {0})
  create dto = do
    can_use_protected_role_name (some dto.name) a
    existing ← query (λ w. name_taken w dto.name)
    guard (not existing) (conflict "El rol ya existe")
    atomic (λ w. insert_role (new_role (pf.uuid w.draws) dto a.id) w)
        (λ w. guard (not (name_taken w dto.name)) (database "P2002"))

  unfoldable pub update : String → UpdateRoleDto → Prog World (Unit {0})
  update id dto = do
    target ← ensure_active_role id
    can_manage_protected_role target a
    can_use_protected_role_name dto.name a
    atomic (update_row id dto a.id)
        (λ w. guard (not (any (renames_onto id dto) w.roles)) (database "P2002"))

  unfoldable pub remove : String → Prog World (Unit {0})
  remove id = do
    target ← ensure_active_role id
    can_manage_protected_role target a
    assignments ← query (active_assignments id)
    guard (eqb assignments 0)
        (bad_request "No se puede inactivar un rol asignado a usuarios activos")
    atomic (deactivate_role id a.id) (λ w. ret tt)

  unfoldable pub assign_user : String → String → Prog World (Unit {0})
  assign_user role_id user_id = do
    target ← ensure_active_role role_id
    can_manage_protected_role target a
    can_assign_privileged_role target a
    ensure (λ w. user_is_active w user_id) (not_found "Usuario no encontrado")
    upsert pf user_table role_id user_id a.id

  unfoldable pub unassign_user : String → String → Prog World (Unit {0})
  unassign_user role_id user_id = do
    target ← ensure_active_role role_id
    can_manage_protected_role target a
    can_assign_privileged_role target a
    ensure (λ w. user_is_active w user_id) (not_found "Usuario no encontrado")
    deactivate user_table role_id user_id a.id

  -- `assignModule` and `assignMenu`, `unassignModule` and `unassignMenu`: the same steps on the
  -- table of the target.
  abbrev pub assign_target : LinkTable → String → String → String → Prog World (Unit {0})
  assign_target table message role_id target_id = do
    target ← ensure_active_role role_id
    can_manage_protected_role target a
    ensure (λ w. target_is_active table w target_id) (not_found message)
    upsert pf table role_id target_id a.id

  abbrev pub unassign_target : LinkTable → String → String → String → Prog World (Unit {0})
  unassign_target table message role_id target_id = do
    target ← ensure_active_role role_id
    can_manage_protected_role target a
    ensure (λ w. target_is_active table w target_id) (not_found message)
    deactivate table role_id target_id a.id

  unfoldable pub assign_module : String → String → Prog World (Unit {0})
  assign_module = assign_target module_table "Modulo no encontrado"

  unfoldable pub assign_menu : String → String → Prog World (Unit {0})
  assign_menu = assign_target menu_table "Menu no encontrado"

  unfoldable pub unassign_module : String → String → Prog World (Unit {0})
  unassign_module = unassign_target module_table "Modulo no encontrado"

  unfoldable pub unassign_menu : String → String → Prog World (Unit {0})
  unassign_menu = unassign_target menu_table "Menu no encontrado"

  unfoldable pub assign_permission : String → String → Prog World (Unit {0})
  assign_permission role_id permission_id = do
    target ← ensure_active_role role_id
    permission ← ensure_active_permission permission_id
    can_mutate_role_permission assign a target permission
    upsert pf permission_table role_id permission_id a.id

  unfoldable pub unassign_permission : String → String → Prog World (Unit {0})
  unassign_permission role_id permission_id = do
    target ← ensure_active_role role_id
    permission ← ensure_active_permission permission_id
    can_mutate_role_permission unassign a target permission
    deactivate permission_table role_id permission_id a.id

-- The operations of the service, as the controller calls them.
pub data Operation : Type 0 where
  create_role : CreateRoleDto → Operation
  update_role : String → UpdateRoleDto → Operation
  remove_role : String → Operation
  give_user take_user : (role_id user_id : String) → Operation
  give_module take_module : (role_id module_id : String) → Operation
  give_menu take_menu : (role_id menu_id : String) → Operation
  give_permission take_permission : (role_id permission_id : String) → Operation

unfoldable pub perform : Platform → Actor → Operation → Prog World (Unit {0})
perform pf a (create_role dto) = create pf a dto
perform pf a (update_role id dto) = update pf a id dto
perform pf a (remove_role id) = remove pf a id
perform pf a (give_user role_id user_id) = assign_user pf a role_id user_id
perform pf a (take_user role_id user_id) = unassign_user pf a role_id user_id
perform pf a (give_module role_id module_id) = assign_module pf a role_id module_id
perform pf a (take_module role_id module_id) = unassign_module pf a role_id module_id
perform pf a (give_menu role_id menu_id) = assign_menu pf a role_id menu_id
perform pf a (take_menu role_id menu_id) = unassign_menu pf a role_id menu_id
perform pf a (give_permission role_id permission_id) = assign_permission pf a role_id permission_id
perform pf a (take_permission role_id permission_id) =
    unassign_permission pf a role_id permission_id
