-- ===== src/Roles/Reading.antt =====
-- roles.service.ts: `findAll` and `findOne`. The order of the list is left out.
use mathlib.Core.Option
use master_gateway_auth.Prelude.{
  ℕ, String, Bool, ◌&&◌, Option, none, some, List, [], ◌∷◌, ◌==◌, if◌then◌else◌, map, find, select,
}
use master_gateway_auth.Prog.{Prog, atomic, query, some_or, not_found}
use master_gateway_auth.Db.{
  Estado, is_active, User, Role, Permission, SystemModule, Menu, RoleLink, World,
}

-- What is read of a user: never the hash of the password. `findOne` leaves `estado` out.
pub record UserSummary : Type 0 where
  pub id : String
  pub email : String
  pub first_name : String
  pub last_name : Option String
  pub estado : Option Estado

pub record ModuleSummary : Type 0 where
  pub id : String
  pub code : String
  pub name : String
  pub description : Option String

pub record MenuSummary : Type 0 where
  pub id : String
  pub name : String
  pub url : Option String
  pub icon : Option String
  pub order : ℕ

-- A role of the list, with its assignments and what they refer to.
pub record RoleRow : Type 0 where
  pub role : Role
  pub users : List (RoleLink × UserSummary)
  pub modules : List (RoleLink × SystemModule)
  pub menus : List (RoleLink × (Menu × Option SystemModule))
  pub permissions : List (RoleLink × Permission)

pub record RoleDetails : Type 0 where
  pub role : Role
  pub users : List (RoleLink × UserSummary)
  pub modules : List (RoleLink × ModuleSummary)
  pub menus : List (RoleLink × MenuSummary)
  pub permissions : List (RoleLink × Permission)

-- The active assignments of a role whose target is found and passes the test, with what is read of
-- the target.
module _ {A B : Type 0} (by_id : String → Option A) (test : A → Bool) (read : A → B) where
  abbrev pub linked : String → List RoleLink → List (RoleLink × B)
  linked role_id [] = []
  linked role_id (l ∷ ls) =
      let rest = linked role_id ls in
      if l.role_id == role_id && is_active l.estado
      then elim (by_id l.target_id) [
        | none ↦ rest
        | some a ↦ if test a then (l, read a) ∷ rest else rest
      ]
      else rest

abbrev pub summary : User → UserSummary
summary u = record {
  id = u.id;
  email = u.email;
  first_name = u.first_name;
  last_name = u.last_name;
  estado = some u.estado;
}

abbrev pub brief : User → UserSummary
brief u = record (summary u) { estado = none }

abbrev pub module_summary : SystemModule → ModuleSummary
module_summary m = record { id = m.id; code = m.code; name = m.name; description = m.description }

abbrev pub menu_summary : Menu → MenuSummary
menu_summary m = record { id = m.id; name = m.name; url = m.url; icon = m.icon; order = m.order }

module _ (w : World) where
  abbrev pub user_by_id : String → Option User
  user_by_id id = find (λ u. u.id == id) w.users

  abbrev pub module_by_id : String → Option SystemModule
  module_by_id id = find (λ m. m.id == id) w.modules

  abbrev pub menu_by_id : String → Option Menu
  menu_by_id id = find (λ m. m.id == id) w.menus

  abbrev pub permission_by_id : String → Option Permission
  permission_by_id id = find (λ p. p.id == id) w.permissions

  abbrev pub with_module : Menu → Menu × Option SystemModule
  with_module m = (m, module_by_id m.module_id)

  abbrev pub role_row : Role → RoleRow
  role_row r = record {
    role = r;
    users = linked user_by_id (λ u. is_active u.estado) summary r.id w.user_roles;
    modules = linked module_by_id (λ m. is_active m.estado) (λ m. m) r.id w.role_modules;
    menus = linked menu_by_id (λ m. is_active m.estado) with_module r.id w.role_menus;
    permissions =
        linked permission_by_id (λ p. is_active p.estado) (λ p. p) r.id w.role_permissions;
  }

  abbrev pub role_details : Role → RoleDetails
  role_details r = record {
    role = r;
    users = linked user_by_id (λ u. is_active u.estado) brief r.id w.user_roles;
    modules = linked module_by_id (λ m. is_active m.estado) module_summary r.id w.role_modules;
    menus = linked menu_by_id (λ m. is_active m.estado) menu_summary r.id w.role_menus;
    permissions =
        linked permission_by_id (λ p. is_active p.estado) (λ p. p) r.id w.role_permissions;
  }

unfoldable pub find_all : Prog World (List RoleRow)
find_all = query (λ w. map (role_row w) (select (λ r. is_active r.estado) w.roles))

unfoldable pub find_one : String → Prog World RoleDetails
find_one id =
    atomic (λ w. w)
      (λ w.
        some_or (not_found "Rol no encontrado")
          (Option.map (role_details w) (find (λ r. r.id == id && is_active r.estado) w.roles)))
