-- ===== src/Permissions.antt =====
-- backend/src/permissions/permissions.service.ts: the permissions that roles can be given.
pub mod Removal
use mathlib.Core.Option
use master_gateway_auth.Prelude.{
  ◌+◌, String, Bool, true, false, not, ◌&&◌, Option, none, some, List, [], ◌∷◌, ◌++◌, ◌==◌, or_else,
  if◌then◌else◌, find, any, select, update_where,
}
use master_gateway_auth.Prog.{
  Prog, ret, raise, atomic, query, guard, some_or, not_found, conflict, database, ◌>>=◌, ◌>>◌,
}
use master_gateway_auth.Db.{activo, inactivo, is_active, Permission, World}
use master_gateway_auth.Platform.{Platform}

pub record CreatePermissionDto : Type 0 where
  pub code : String
  pub resource : String
  pub action : String
  pub description : Option String
  pub delegable : Option Bool

pub record UpdatePermissionDto : Type 0 where
  pub code : Option String
  pub resource : Option String
  pub action : Option String
  pub description : Option String
  pub delegable : Option Bool

abbrev pub active_permission : World → String → Option Permission
active_permission w id = find (λ p. p.id == id && is_active p.estado) w.permissions

-- `ensureActive`, and `findOne`, which returns the row
abbrev pub ensure_active : String → Prog World Permission
ensure_active id =
    atomic (λ w. w) (λ w. some_or (not_found "Permiso no encontrado") (active_permission w id))

-- `findAll`: the order of the list is left out.
unfoldable pub find_all : Prog World (List Permission)
find_all = query (λ w. select (λ p. is_active p.estado) w.permissions)

abbrev pub code_taken : World → String → Bool
code_taken w code = any (λ p. p.code == code) w.permissions

-- The column `delegable` is false by default.
abbrev pub new_permission : String → CreatePermissionDto → Permission
new_permission id dto = record {
  id = id;
  code = dto.code;
  resource = dto.resource;
  action = dto.action;
  description = dto.description;
  delegable = or_else dto.delegable false;
  estado = activo;
}

abbrev pub insert_permission : Permission → World → World
insert_permission p w =
    if code_taken w p.code
    then w
    else record w { permissions = w.permissions ++ p ∷ []; draws = w.draws + 1 }

unfoldable pub create : Platform → CreatePermissionDto → Prog World Permission
create pf dto = do
  existing ← query (λ w. code_taken w dto.code)
  guard (not existing) (conflict "El permiso ya existe")
  atomic (λ w. insert_permission (new_permission (pf.uuid w.draws) dto) w)
      (λ w.
        guard (not (code_taken w dto.code)) (database "P2002")
        >> ret (new_permission (pf.uuid w.draws) dto))

abbrev pub apply_update : UpdatePermissionDto → Permission → Permission
apply_update dto p = record p {
  code = or_else dto.code p.code;
  resource = or_else dto.resource p.resource;
  action = or_else dto.action p.action;
  description = elim dto.description [ none ↦ p.description | some d ↦ some d ];
  delegable = or_else dto.delegable p.delegable;
}

-- Another row has the new code.
abbrev pub recodes_onto : String → UpdatePermissionDto → Permission → Bool
recodes_onto id dto p = not (p.id == id) && elim dto.code [ none ↦ false | some c ↦ p.code == c ]

abbrev pub update_row : String → UpdatePermissionDto → World → World
update_row id dto w =
    if any (recodes_onto id dto) w.permissions
    then w
    else record w { permissions = update_where (λ p. p.id == id) (apply_update dto) w.permissions }

unfoldable pub update : String → UpdatePermissionDto → Prog World Permission
update id dto = do
  found ← ensure_active id
  atomic (update_row id dto) (λ w.
      guard (not (any (recodes_onto id dto) w.permissions)) (database "P2002")
      >> some_or (database "P2025") (find (λ p. p.id == id) (update_row id dto w).permissions))

abbrev pub retire : Permission → Permission
retire p = record p { estado = inactivo }

abbrev pub without : String → World → World
without id w = record w { permissions = update_where (λ p. p.id == id) retire w.permissions }

unfoldable pub remove : String → Prog World Permission
remove id = do
  found ← ensure_active id
  atomic (without id)
      (λ w. some_or (database "P2025") (find (λ p. p.id == id) (without id w).permissions))
