-- ===== src/Guards.antt =====
-- backend/src/common/auth and backend/src/common/policy: the guards in front of the controllers.
pub mod Laws
pub mod Policy
use Prim.Native.String
use master_gateway_auth.Prelude.{
  ℕ, String, Bool, true, false, not, ◌&&◌, ◌||◌, Option, none, some, List, [], ◌∷◌, ◌==◌, or_else,
  if◌then◌else◌, select, includes,
}
use master_gateway_auth.Prog.{
  Prog, Result, ok, err, ret, raise, lift, catch, unauthorized, forbidden, ◌>>=◌, ◌>>◌,
}
use master_gateway_auth.Db.{World, read_clock}
use master_gateway_auth.Platform.{Platform}
use master_gateway_auth.Token.{Claims, access, verify_gateway_token}
use master_gateway_auth.Text.{starts_with, drop_prefix, join}

abbrev pub super_admin : String
super_admin = "SUPER_ADMIN"

-- `requiredRoles?.length`, `required?.length`
abbrev pub demands : Option (List String) → List String
demands none = []
demands (some names) = names

abbrev pub is_role : String → Option String → Bool
is_role name none = false
is_role name (some r) = r == name

-- `roleName && requiredRoles.includes(roleName)`
abbrev pub role_in : List String → Option String → Bool
role_in names none = false
role_in names (some r) = not (r == "") && includes r names

abbrev pub role_of : Option Claims → Option String
role_of none = none
role_of (some c) = c.role_name

abbrev pub check_role : List String → Option Claims → Result Bool
check_role [] user = ok true
check_role (n ∷ ns) user =
    if is_role super_admin (role_of user)
    then ok true
    else if role_in (n ∷ ns) (role_of user)
    then ok true
    else err (forbidden "Rol no autorizado")

-- `RolesGuard.canActivate`
unfoldable pub roles_guard : Option (List String) → Option Claims → Result Bool
roles_guard required user = check_role (demands required) user

abbrev pub missing_from : List String → List String → List String
missing_from granted required = select (λ p. not (includes p granted)) required

abbrev pub check_missing : List String → Result Bool
check_missing [] = ok true
check_missing (p ∷ ps) =
    err (forbidden (String.◌++◌ "El rol no tiene los permisos requeridos: " (join ", " (p ∷ ps))))

abbrev pub check_permissions : List String → Option Claims → Result Bool
check_permissions [] user = ok true
check_permissions (p ∷ ps) none = err (forbidden "Usuario autenticado requerido")
check_permissions (p ∷ ps) (some user) =
    if is_role super_admin user.role_name
    then ok true
    else check_missing (missing_from (or_else user.permissions []) (p ∷ ps))

-- `PermissionsGuard.canActivate`
unfoldable pub permissions_guard : Option (List String) → Option Claims → Result Bool
permissions_guard required user = check_permissions (demands required) user

module _ (pf : Platform) where
  -- The user that the guard puts on the request.
  unfoldable pub authenticate : String → Prog World Claims
  authenticate header =
      if not (starts_with "Bearer " header) then raise (unauthorized "Token requerido") else do
        now ← read_clock
        catch (lift (verify_gateway_token pf (drop_prefix "Bearer " header) now (some access)))
            (raise (unauthorized "Token invalido o expirado"))

  -- `JwtAuthGuard.canActivate`, with the `authorization` header
  unfoldable pub jwt_auth_guard : Option String → Prog World Claims
  jwt_auth_guard none = raise (unauthorized "Token requerido")
  jwt_auth_guard (some header) = authenticate header
