-- ===== src/Db.antt =====
-- backend/prisma/schema.prisma: the rows of the database, and the state that requests share.
-- Ids are the texts of UUIDs. `fecha_creacion` and `fecha_actualizacion`, which the database client
-- writes and no modelled handler reads, are left out.
use master_gateway_auth.Prelude.{
  ℕ, ◌+◌, String, Bool, true, false, Option, List, ◌&&◌, ◌==◌, find, any,
}
use master_gateway_auth.Prog.{Prog, ret, atomic, query}

-- The soft-delete flag of every table.
pub data Estado : Type 0 where
  activo inactivo : Estado

abbrev pub is_active : Estado → Bool
is_active activo = true
is_active inactivo = false

pub record User : Type 0 where
  pub id : String
  pub email : String
  pub password_hash : String
  pub first_name : String
  pub last_name : Option String
  pub estado : Estado
  pub created_by : Option String
  pub updated_by : Option String

pub record Role : Type 0 where
  pub id : String
  pub name : String
  pub description : Option String
  pub estado : Estado
  pub created_by : Option String
  pub updated_by : Option String

pub record Permission : Type 0 where
  pub id : String
  pub code : String
  pub resource : String
  pub action : String
  pub description : Option String
  pub delegable : Bool
  pub estado : Estado

pub record SystemModule : Type 0 where
  pub id : String
  pub code : String
  pub name : String
  pub description : Option String
  pub estado : Estado
  pub created_by : Option String
  pub updated_by : Option String

pub record Menu : Type 0 where
  pub id : String
  pub name : String
  pub url : Option String
  pub icon : Option String
  pub order : ℕ
  pub module_id : String
  pub parent_id : Option String
  pub estado : Estado
  pub created_by : Option String
  pub updated_by : Option String

-- A row of `usuario_roles`, `rol_modulos`, `rol_menus` or `rol_permisos`: four tables of one
-- shape, which differ in what `target_id` refers to (userId, moduleId, menuId, permissionId).
pub record RoleLink : Type 0 where
  pub id : String
  pub role_id : String
  pub target_id : String
  pub estado : Estado
  pub created_by : Option String
  pub updated_by : Option String

pub record RefreshToken : Type 0 where
  pub id : String
  pub user_id : String
  pub role_id : String
  pub jti : String
  pub token_hash : String
  pub expires_at : ℕ
  pub revoked_at : Option ℕ
  pub replaced_by_jti : Option String
  pub reuse_detected : Bool
  pub estado : Estado
  pub created_by : Option String
  pub updated_by : Option String

-- `type` is `kind` here.
pub record ExternalService : Type 0 where
  pub id : String
  pub code : String
  pub name : String
  pub description : Option String
  pub kind : Option String
  pub version : Option String
  pub base_url : String
  pub health_path : String
  pub metadata_endpoint : Option String
  pub open_api_path : Option String
  pub authentication_type : Option String
  pub api_key : Option String
  pub last_probe_at : Option ℕ
  pub last_probe_ok : Option Bool
  pub last_probe_ms : Option ℕ
  pub status : Option String
  pub last_sync : Option ℕ
  pub module_id : Option String
  pub estado : Estado
  pub created_by : Option String
  pub updated_by : Option String

pub record ExternalServiceRoute : Type 0 where
  pub id : String
  pub service_id : String
  pub menu_id : String
  pub public_path : String
  pub target_path : String
  pub methods : List String
  pub estado : Estado
  pub created_by : Option String
  pub updated_by : Option String

-- The tables, how many random values were drawn, and the clock in milliseconds.
pub record World : Type 0 where
  pub users : List User
  pub roles : List Role
  pub permissions : List Permission
  pub modules : List SystemModule
  pub menus : List Menu
  pub user_roles : List RoleLink
  pub role_modules : List RoleLink
  pub role_menus : List RoleLink
  pub role_permissions : List RoleLink
  pub refresh_tokens : List RefreshToken
  pub services : List ExternalService
  pub service_routes : List ExternalServiceRoute
  pub draws : ℕ
  pub clock : ℕ

-- `new Date()`
abbrev pub read_clock : Prog World ℕ
read_clock = query (λ w. w.clock)

-- The number of the next random value; what the value is, the platform says.
abbrev pub draw : Prog World ℕ
draw = atomic (λ w. record w { draws = w.draws + 1 }) (λ w. ret w.draws)

abbrev pub role_by_id : World → String → Option Role
role_by_id w id = find (λ r. r.id == id) w.roles

-- The relation filter `role: { estado: ACTIVO }`, and its fellows.
abbrev pub role_is_active : World → String → Bool
role_is_active w id = any (λ r. r.id == id && is_active r.estado) w.roles

abbrev pub user_is_active : World → String → Bool
user_is_active w id = any (λ u. u.id == id && is_active u.estado) w.users

abbrev pub module_is_active : World → String → Bool
module_is_active w id = any (λ m. m.id == id && is_active m.estado) w.modules

abbrev pub menu_is_active : World → String → Bool
menu_is_active w id = any (λ m. m.id == id && is_active m.estado) w.menus
