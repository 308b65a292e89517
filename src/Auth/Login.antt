-- ===== src/Auth/Login.antt =====
-- auth.service.ts: `login`, which proves who the user is, and `selectRole`, which opens a session
-- for one of the user's roles.
pub mod Roles
use mathlib.Core.Option
use master_gateway_auth.Prelude.{
  ℕ, ◌+◌, String, Bool, true, false, not, ◌&&◌, Option, none, some, List, [], ◌∷◌, ◌++◌, map, ◌==◌,
  if◌then◌else◌, find, select,
}
use master_gateway_auth.Prog.{
  Prog, ret, raise, query, catch, some_or, unauthorized, forbidden, thrown, ◌>>=◌,
}
use master_gateway_auth.Db.{
  Estado, is_active, User, Role, RoleLink, World, read_clock, draw, user_is_active, role_is_active,
  role_by_id,
}
use master_gateway_auth.Platform.{Platform, TempToken}
use master_gateway_auth.Auth.Session.{SessionTokens, issue_session_tokens}

pub record LoginDto : Type 0 where
  pub email : String
  pub password : String

pub record SelectRoleDto : Type 0 where
  pub temp_token : String
  pub role_id : String

-- `omitPassword(user)`: the row without its `passwordHash`. The assignments that were read with it,
-- which the field `roles` of the answer repeats, are left out.
pub record SafeUser : Type 0 where
  pub id : String
  pub email : String
  pub first_name : String
  pub last_name : Option String
  pub estado : Estado
  pub created_by : Option String
  pub updated_by : Option String

pub record RoleView : Type 0 where
  pub id : String
  pub name : String
  pub description : Option String

pub record LoginAnswer : Type 0 where
  pub temp_token : String
  pub user : SafeUser
  pub roles : List RoleView

abbrev pub omit_password : User → SafeUser
omit_password u = record {
  id = u.id;
  email = u.email;
  first_name = u.first_name;
  last_name = u.last_name;
  estado = u.estado;
  created_by = u.created_by;
  updated_by = u.updated_by;
}

abbrev pub role_view : Role → RoleView
role_view r = record { id = r.id; name = r.name; description = r.description }

-- `where: { email, estado: ACTIVO }`
abbrev pub user_by_email : World → String → Option User
user_by_email w email = find (λ u. u.email == email && is_active u.estado) w.users

-- The included assignments of a user: `estado: ACTIVO` and `role: { estado: ACTIVO }`.
abbrev pub own_role : World → String → RoleLink → Bool
own_role w user_id l = l.target_id == user_id && is_active l.estado && role_is_active w l.role_id

abbrev pub views_of : Option Role → List RoleView
views_of none = []
views_of (some r) = role_view r ∷ []

abbrev pub views : World → List RoleLink → List RoleView
views w [] = []
views w (l ∷ ls) = views_of (role_by_id w l.role_id) ++ views w ls

abbrev pub roles_of_user : World → String → List RoleView
roles_of_user w user_id = views w (select (own_role w user_id) w.user_roles)

-- The user with the roles, from one query.
abbrev pub credentials : World → String → Option (User × List RoleView)
credentials w email = Option.map (λ u. (u, roles_of_user w u.id)) (user_by_email w email)

-- `where: { userId, roleId, estado, user: { estado }, role: { estado } }`
abbrev pub assigned : World → String → String → RoleLink → Bool
assigned w user_id role_id l =
    l.target_id == user_id
    && l.role_id == role_id
    && is_active l.estado
    && user_is_active w l.target_id
    && role_is_active w l.role_id

-- `findFirst({ …, include: { role: true } })`
abbrev pub assigned_role : World → String → String → Option Role
assigned_role w user_id role_id =
    Option.bind (find (assigned w user_id role_id) w.user_roles) (λ l. role_by_id w l.role_id)

module _ (pf : Platform) where
  unfoldable pub login_found : LoginDto → Option (User × List RoleView) → Prog World LoginAnswer
  login_found dto none = raise (unauthorized "Credenciales invalidas")
  login_found dto (some (u, roles)) =
      if not (pf.argon_verify u.password_hash dto.password)
      then raise (unauthorized "Credenciales invalidas")
      else do
        jti ← draw
        now ← read_clock
        let temp_token =
            pf.temp_sign (record { sub = u.id; jti = pf.uuid jti; email = u.email }) "5m" now
        ret (record { temp_token = temp_token; user = omit_password u; roles = roles })

  unfoldable pub login : LoginDto → Prog World LoginAnswer
  login dto = do user ← query (λ w. credentials w dto.email); login_found dto user

  unfoldable pub verify_temp_token : String → Prog World TempToken
  verify_temp_token token = do
    now ← read_clock
    catch (some_or (thrown "JsonWebTokenError") (pf.temp_verify now token))
        (raise (unauthorized "TempToken invalido o expirado"))

  unfoldable pub open_session : TempToken → Option Role → Prog World SessionTokens
  open_session payload none = raise (forbidden "El rol no pertenece al usuario")
  open_session payload (some role) = issue_session_tokens pf payload.sub role.id role.name

  unfoldable pub select_role : SelectRoleDto → Prog World SessionTokens
  select_role dto = do
    payload ← verify_temp_token dto.temp_token
    role ← query (λ w. assigned_role w payload.sub dto.role_id)
    open_session payload role
