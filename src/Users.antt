-- ===== src/Users.antt =====
-- backend/src/users/users.service.ts: the accounts of users.
pub mod Reading
pub mod Pages
pub mod Removal
pub mod Lockout
pub mod Password
pub mod Creation
use mathlib.Core.Option
use master_gateway_auth.Prelude.{
  ℕ, ◌+◌, String, Bool, true, false, not, ◌&&◌, Option, none, some, List, [], ◌∷◌, ◌++◌, ◌==◌,
  or_else, if◌then◌else◌, find, any, update_where,
}
use master_gateway_auth.Prog.{
  Prog, ret, raise, atomic, query, modify, guard, some_or, transaction, not_found, conflict,
  forbidden, database, ◌>>=◌, ◌>>◌,
}
use master_gateway_auth.Db.{
  Estado, activo, inactivo, is_active, User, Role, RoleLink, RefreshToken, World, read_clock, draw,
}
use master_gateway_auth.Platform.{Platform}
use master_gateway_auth.Menus.{Field, apply_field}
use master_gateway_auth.Auth.Login.{SafeUser, omit_password}
use master_gateway_auth.Roles.{user_table, upsert}

abbrev pub default_user_role : String
default_user_role = "USER"

pub record CreateUserDto : Type 0 where
  pub email : String
  pub password : String
  pub first_name : String
  pub last_name : Option String

-- The column of the last name may be null: `null` clears it. The other columns may not: the hash
-- of `null` throws, and the database's client refuses it, both before anything is written.
pub record UpdateUserDto : Type 0 where
  pub email : Option String
  pub password : Option String
  pub first_name : Option String
  pub last_name : Field String

abbrev pub active_user : World → String → Option User
active_user w id = find (λ u. u.id == id && is_active u.estado) w.users

abbrev pub ensure_active : String → Prog World User
ensure_active id =
    atomic (λ w. w) (λ w. some_or (not_found "Usuario no encontrado") (active_user w id))

-- The email is a unique column, whatever the row's `estado`.
abbrev pub email_taken : World → String → Bool
email_taken w email = any (λ u. u.email == email) w.users

abbrev pub insert_user : User → Prog World (Unit {0})
insert_user u =
    atomic (λ w. if email_taken w u.email then w else record w { users = w.users ++ u ∷ [] })
      (λ w. guard (not (email_taken w u.email)) (database "P2002"))

abbrev pub default_role : World → Option Role
default_role w = find (λ r. r.name == default_user_role && is_active r.estado) w.roles

-- What `update` writes: the fields that were given, and the hash of a password that was given.
abbrev pub apply_update : UpdateUserDto → Option String → String → User → User
apply_update dto hash actor u = record u {
  email = or_else dto.email u.email;
  first_name = or_else dto.first_name u.first_name;
  last_name = apply_field dto.last_name u.last_name;
  password_hash = or_else hash u.password_hash;
  updated_by = some actor;
}

-- Another row has the new email.
abbrev pub moves_onto : String → UpdateUserDto → User → Bool
moves_onto id dto u = not (u.id == id) && elim dto.email [ none ↦ false | some e ↦ u.email == e ]

abbrev pub update_row : String → UpdateUserDto → Option String → String → World → World
update_row id dto hash actor w =
    if any (moves_onto id dto) w.users
    then w
    else record w { users = update_where (λ u. u.id == id) (apply_update dto hash actor) w.users }

-- The changes of `remove`: tokens, assignments, and the row itself.
abbrev pub own_token : String → RefreshToken → Bool
own_token id t = t.user_id == id && is_active t.estado

abbrev pub revoke_token : ℕ → String → RefreshToken → RefreshToken
revoke_token now actor t = record t {
  estado = inactivo;
  revoked_at = some now;
  updated_by = some actor;
}

abbrev pub own_assignment : String → RoleLink → Bool
own_assignment id l = l.target_id == id && is_active l.estado

abbrev pub retire_link : String → RoleLink → RoleLink
retire_link actor l = record l { estado = inactivo; updated_by = some actor }

abbrev pub retire_user : String → User → User
retire_user actor u = record u { estado = inactivo; updated_by = some actor }

abbrev pub removal : String → String → ℕ → Prog World (Unit {0})
removal id actor now = do
  modify (λ w. record w {
    refresh_tokens = update_where (own_token id) (revoke_token now actor) w.refresh_tokens;
  })
  modify (λ w. record w {
    user_roles = update_where (own_assignment id) (retire_link actor) w.user_roles;
  })
  atomic (λ w. record w { users = update_where (λ u. u.id == id) (retire_user actor) w.users })
      (λ w. guard (any (λ u. u.id == id) w.users) (database "P2025"))

-- A password that was given is hashed with a new salt.
abbrev pub hash_given : Platform → Option String → Prog World (Option String)
hash_given pf none = ret none
hash_given pf (some password) = draw >>= λ salt. ret (some (pf.argon_hash salt password))

module _ (pf : Platform) where
  abbrev pub new_user : CreateUserDto → String → (salt id : ℕ) → User
  new_user dto actor salt id = record {
    id = pf.uuid id;
    email = dto.email;
    password_hash = pf.argon_hash salt dto.password;
    first_name = dto.first_name;
    last_name = dto.last_name;
    estado = activo;
    created_by = some actor;
    updated_by = none;
  }

  abbrev pub give_default_role : String → User → Prog World User
  give_default_role actor created = do
    found ← query default_role
    role ← some_or (not_found "Rol USER no encontrado") found
    upsert pf user_table role.id created.id actor
    ret created

  -- The body of the transaction.
  abbrev pub creation : CreateUserDto → String → Prog World User
  creation dto actor = do
    salt ← draw
    id ← draw
    let created = new_user dto actor salt id
    insert_user created
    give_default_role actor created

  unfoldable pub create : CreateUserDto → String → Prog World SafeUser
  create dto actor = do
    existing ← query (λ w. email_taken w dto.email)
    guard (not existing) (conflict "El email ya esta registrado")
    user ← transaction (creation dto actor)
    ret (omit_password user)

  -- `user.update`, which returns the row
  unfoldable pub update : String → UpdateUserDto → String → Prog World SafeUser
  update id dto actor = do
    found ← ensure_active id
    hash ← hash_given pf dto.password
    atomic (update_row id dto hash actor) (λ w.
        guard (not (any (moves_onto id dto) w.users)) (database "P2002")
        >> some_or (database "P2025") (
            Option.map omit_password
              (find (λ u. u.id == id) (update_row id dto hash actor w).users)))

unfoldable pub remove : String → String → Prog World (Unit {0})
remove id actor = do
  found ← ensure_active id
  guard (not (id == actor)) (forbidden "No puedes eliminar tu propio usuario")
  now ← read_clock
  transaction (removal id actor now)
