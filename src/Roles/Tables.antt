-- ===== src/Roles/Tables.antt =====
-- roles.service.ts: the rows of roles and assignments, and the writes of the database client on them.
use master_gateway_auth.Prelude.{
  ℕ, ◌+◌, String, Bool, false, not, ◌&&◌, Option, none, some, List, [], ◌∷◌, ◌++◌, ◌==◌, or_else,
  if◌then◌else◌, any, count_where, update_where,
}
use master_gateway_auth.Prog.{Prog, ret, atomic, guard, database}
use master_gateway_auth.Db.{
  Estado, activo, inactivo, is_active, Role, RoleLink, World, user_is_active,
}
use master_gateway_auth.Platform.{Platform}

pub record CreateRoleDto : Type 0 where
  pub name : String
  pub description : Option String

-- A field that is absent is not changed.
pub record UpdateRoleDto : Type 0 where
  pub name : Option String
  pub description : Option String

-- The four tables of assignments.
pub data LinkTable : Type 0 where
  user_table module_table menu_table permission_table : LinkTable

abbrev pub links : LinkTable → World → List RoleLink
links user_table w = w.user_roles
links module_table w = w.role_modules
links menu_table w = w.role_menus
links permission_table w = w.role_permissions

abbrev pub with_links : LinkTable → List RoleLink → World → World
with_links user_table ls w = record w { user_roles = ls }
with_links module_table ls w = record w { role_modules = ls }
with_links menu_table ls w = record w { role_menus = ls }
with_links permission_table ls w = record w { role_permissions = ls }

-- The unique key of an assignment.
abbrev pub is_link : String → String → RoleLink → Bool
is_link role_id target_id l = l.role_id == role_id && l.target_id == target_id

abbrev pub set_estado : Estado → String → RoleLink → RoleLink
set_estado e actor l = record l { estado = e; updated_by = some actor }

abbrev pub new_link : (id role_id target_id actor : String) → RoleLink
new_link id role_id target_id actor = record {
  id = id;
  role_id = role_id;
  target_id = target_id;
  estado = activo;
  created_by = some actor;
  updated_by = none;
}

-- `upsert`
unfoldable pub upsert_link : (id role_id target_id actor : String) → List RoleLink → List RoleLink
upsert_link id role_id target_id actor ls =
    if any (is_link role_id target_id) ls
    then update_where (is_link role_id target_id) (set_estado activo actor) ls
    else ls ++ new_link id role_id target_id actor ∷ []

unfoldable pub deactivate_link : (role_id target_id actor : String) → List RoleLink → List RoleLink
deactivate_link role_id target_id actor ls =
    update_where (is_link role_id target_id) (set_estado inactivo actor) ls

module _ (pf : Platform) where
  abbrev pub upsert : LinkTable → String → String → String → Prog World (Unit {0})
  upsert table role_id target_id actor =
      atomic
        (λ w.
          with_links table (upsert_link (pf.uuid w.draws) role_id target_id actor (links table w))
            (record w { draws = w.draws + 1 }))
        (λ w. ret tt)

-- `update({ where: { … } })`: an error if there is no such row
abbrev pub deactivate : LinkTable → String → String → String → Prog World (Unit {0})
deactivate table role_id target_id actor =
    atomic (λ w. with_links table (deactivate_link role_id target_id actor (links table w)) w)
      (λ w. guard (any (is_link role_id target_id) (links table w)) (database "P2025"))

abbrev pub new_role : String → CreateRoleDto → String → Role
new_role id dto actor = record {
  id = id;
  name = dto.name;
  description = dto.description;
  estado = activo;
  created_by = some actor;
  updated_by = none;
}

-- `name` is a unique column, whatever the row's `estado`.
abbrev pub name_taken : World → String → Bool
name_taken w name = any (λ r. r.name == name) w.roles

abbrev pub insert_role : Role → World → World
insert_role r w =
    if name_taken w r.name then w else record w { roles = w.roles ++ r ∷ []; draws = w.draws + 1 }

abbrev pub apply_update : UpdateRoleDto → String → Role → Role
apply_update dto actor r = record r {
  name = or_else dto.name r.name;
  description = elim dto.description [ none ↦ r.description | some d ↦ some d ];
  updated_by = some actor;
}

-- Another row has the new name.
abbrev pub renames_onto : String → UpdateRoleDto → Role → Bool
renames_onto id dto r = not (r.id == id) && elim dto.name [ none ↦ false | some n ↦ r.name == n ]

abbrev pub update_row : String → UpdateRoleDto → String → World → World
update_row id dto actor w =
    if any (renames_onto id dto) w.roles
    then w
    else record w { roles = update_where (λ r. r.id == id) (apply_update dto actor) w.roles }

abbrev pub deactivate_role : String → String → World → World
deactivate_role id actor w = record w {
  roles =
      update_where (λ r. r.id == id) (λ r. record r { estado = inactivo; updated_by = some actor })
        w.roles;
}

abbrev pub active_assignments : String → World → ℕ
active_assignments id w =
    count_where (λ l. l.role_id == id && is_active l.estado && user_is_active w l.target_id)
      w.user_roles
