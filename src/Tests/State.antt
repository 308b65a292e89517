-- ===== src/Tests/State.antt =====
-- A small database for the tests: a user with one role, and the refresh token of her session.
use master_gateway_auth.Prelude.{String, true, false, none, some, List, [], ◌∷◌}
use master_gateway_auth.Db.{
  Estado, activo, inactivo, User, Role, Permission, RoleLink, RefreshToken, World,
}
use master_gateway_auth.Platform.{Payload}
use master_gateway_auth.Token.{algorithm, Claims, SignInput, access, refresh, payload_of}
use master_gateway_auth.Roles.{Actor}
use master_gateway_auth.Tests.Sample.{platform}

abbrev pub user : String → Estado → User
user id e = record {
  id = id;
  email = "ana@example.org";
  password_hash = "hash:secret";
  first_name = "Ana";
  last_name = some "Paz";
  estado = e;
  created_by = none;
  updated_by = none;
}

abbrev pub role : String → String → Role
role id name = record {
  id = id;
  name = name;
  description = none;
  estado = activo;
  created_by = none;
  updated_by = none;
}

abbrev pub permission : String → String → Permission
permission id code = record {
  id = id;
  code = code;
  resource = "";
  action = "";
  description = none;
  delegable = true;
  estado = activo;
}

abbrev pub link : String → String → String → RoleLink
link id role_id target_id = record {
  id = id;
  role_id = role_id;
  target_id = target_id;
  estado = activo;
  created_by = none;
  updated_by = none;
}

abbrev pub clerk : Role
clerk = role "r2" "CLERK"

abbrev pub old_input : SignInput
old_input = record {
  sub = "u1";
  jti = "old";
  role_id = "r2";
  role_name = "CLERK";
  token_use = refresh;
  permissions = none;
  expires_in = "7d";
}

-- The refresh token that was signed at the time 0, and its payload.
abbrev pub old_payload : Payload
old_payload = payload_of platform old_input 0

abbrev pub old_token : String
old_token = platform.jws_sign platform.private_key algorithm old_payload

abbrev pub old_row : RefreshToken
old_row = record {
  id = "t1";
  user_id = "u1";
  role_id = "r2";
  jti = "old";
  token_hash = platform.argon_hash 0 old_token;
  expires_at = 604800000;
  revoked_at = none;
  replaced_by_jti = none;
  reuse_detected = false;
  estado = activo;
  created_by = some "u1";
  updated_by = none;
}

abbrev pub world_with : List RefreshToken → World
world_with tokens = record {
  users = user "u1" activo ∷ user "u2" inactivo ∷ [];
  roles = role "r0" "SUPER_ADMIN" ∷ role "r1" "MANAGER" ∷ clerk ∷ [];
  permissions =
      permission "p1" "roles:assign_permission"
      ∷ permission "p2" "users:list"
      ∷ permission "p3" "roles:unassign_permission"
      ∷ [];
  modules = [];
  menus = [];
  user_roles = link "a1" "r2" "u1" ∷ [];
  role_modules = [];
  role_menus = [];
  role_permissions =
      link "b1" "r1" "p1" ∷ link "b2" "r1" "p2" ∷ link "b3" "r2" "p2" ∷ link "b4" "r0" "p2" ∷ [];
  refresh_tokens = tokens;
  services = [];
  service_routes = [];
  draws = 2;
  clock = 5000;
}

abbrev pub world : World
world = world_with (old_row ∷ [])

abbrev pub old_claims : Claims
old_claims = record {
  sub = "u1";
  jti = "old";
  role_id = "r2";
  role_name = some "CLERK";
  token_use = some "refresh";
  permissions = none;
  iat = 0;
  exp = 70;
}

-- An access token of the same user and role.
abbrev pub access_input : SignInput
access_input = record old_input {
  jti = "now";
  token_use = access;
  permissions = some ("users:list" ∷ []);
  expires_in = "15m";
}

abbrev pub access_token : String
access_token = platform.jws_sign platform.private_key algorithm (payload_of platform access_input 0)

abbrev pub access_claims : Claims
access_claims = record old_claims {
  jti = "now";
  token_use = some "access";
  permissions = some ("users:list" ∷ []);
  exp = 15;
}

abbrev pub manager : Actor
manager = record { id = "u9"; role_id = "r1"; role_name = "MANAGER" }
