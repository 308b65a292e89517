-- ===== src/Modules.antt =====
-- backend/src/modules/modules.service.ts: the modules of the navigation, and what goes with one.
pub mod Removal
use master_gateway_auth.Prelude.{
  String, Bool, true, false, not, ◌&&◌, Option, none, some, List, [], ◌∷◌, ◌++◌, ◌==◌, or_else, map,
  if◌then◌else◌, find, any, select, update_where, includes,
}
use master_gateway_auth.Prog.{
  Prog, ret, raise, atomic, query, modify, guard, some_or, transaction, not_found, conflict,
  database, ◌>>=◌, ◌>>◌,
}
use master_gateway_auth.Db.{
  activo, inactivo, is_active, SystemModule, Menu, RoleLink, ExternalServiceRoute, World,
}
use mathlib.Core.Option
use Prim.Native.Nat.{◌+◌}
use master_gateway_auth.Platform.{Platform}

pub record CreateModuleDto : Type 0 where
  pub code : String
  pub name : String
  pub description : Option String

pub record UpdateModuleDto : Type 0 where
  pub code : Option String
  pub name : Option String
  pub description : Option String

abbrev pub active_module : World → String → Option SystemModule
active_module w id = find (λ m. m.id == id && is_active m.estado) w.modules

abbrev pub ensure_active : String → Prog World SystemModule
ensure_active id =
    atomic (λ w. w) (λ w. some_or (not_found "Modulo no encontrado") (active_module w id))

-- `findAll`: the order of the list is left out.
unfoldable pub find_all : Prog World (List SystemModule)
find_all = query (λ w. select (λ m. is_active m.estado) w.modules)

-- `findOne`: the module with its active menus
unfoldable pub find_one : String → Prog World (SystemModule × List Menu)
find_one id =
    query (λ w.
      Option.map (λ m. (m, select (λ n. n.module_id == m.id && is_active n.estado) w.menus))
        (active_module w id))
    >>= some_or (not_found "Modulo no encontrado")

abbrev pub code_taken : World → String → Bool
code_taken w code = any (λ m. m.code == code) w.modules

abbrev pub new_module : String → CreateModuleDto → String → SystemModule
new_module id dto actor = record {
  id = id;
  code = dto.code;
  name = dto.name;
  description = dto.description;
  estado = activo;
  created_by = some actor;
  updated_by = none;
}

abbrev pub insert_module : SystemModule → World → World
insert_module m w =
    if code_taken w m.code
    then w
    else record w { modules = w.modules ++ m ∷ []; draws = w.draws + 1 }

unfoldable pub create : Platform → CreateModuleDto → String → Prog World SystemModule
create pf dto actor = do
  existing ← query (λ w. code_taken w dto.code)
  guard (not existing) (conflict "El codigo de modulo ya existe")
  atomic (λ w. insert_module (new_module (pf.uuid w.draws) dto actor) w)
      (λ w.
        guard (not (code_taken w dto.code)) (database "P2002")
        >> ret (new_module (pf.uuid w.draws) dto actor))

abbrev pub apply_update : UpdateModuleDto → String → SystemModule → SystemModule
apply_update dto actor m = record m {
  code = or_else dto.code m.code;
  name = or_else dto.name m.name;
  description = elim dto.description [ none ↦ m.description | some d ↦ some d ];
  updated_by = some actor;
}

-- Another row has the new code.
abbrev pub recodes_onto : String → UpdateModuleDto → SystemModule → Bool
recodes_onto id dto m = not (m.id == id) && elim dto.code [ none ↦ false | some c ↦ m.code == c ]

abbrev pub update_row : String → UpdateModuleDto → String → World → World
update_row id dto actor w =
    if any (recodes_onto id dto) w.modules
    then w
    else record w { modules = update_where (λ m. m.id == id) (apply_update dto actor) w.modules }

unfoldable pub update : String → UpdateModuleDto → String → Prog World SystemModule
update id dto actor = do
  found ← ensure_active id
  atomic (update_row id dto actor) (λ w.
      guard (not (any (recodes_onto id dto) w.modules)) (database "P2002")
      >> some_or (database "P2025") (find (λ m. m.id == id) (update_row id dto actor w).modules))

abbrev pub retire_link : String → RoleLink → RoleLink
retire_link actor l = record l { estado = inactivo; updated_by = some actor }

abbrev pub retire_route : String → ExternalServiceRoute → ExternalServiceRoute
retire_route actor r = record r { estado = inactivo; updated_by = some actor }

abbrev pub retire_menu : String → Menu → Menu
retire_menu actor m = record m { estado = inactivo; updated_by = some actor }

abbrev pub retire_module : String → SystemModule → SystemModule
retire_module actor m = record m { estado = inactivo; updated_by = some actor }

abbrev pub menu_in : String → Menu → Bool
menu_in id m = m.module_id == id && is_active m.estado

abbrev pub menu_ids : String → World → List String
menu_ids id w = map (λ m. m.id) (select (menu_in id) w.menus)

abbrev pub link_among : List String → RoleLink → Bool
link_among ids l = includes l.target_id ids && is_active l.estado

abbrev pub route_among : List String → ExternalServiceRoute → Bool
route_among ids r = includes r.menu_id ids && is_active r.estado

abbrev pub link_of : String → RoleLink → Bool
link_of id l = l.target_id == id && is_active l.estado

-- The assignments and the routes of the menus.
abbrev pub retire_for_menus : List String → String → Prog World (Unit {0})
retire_for_menus [] actor = ret tt
retire_for_menus (i ∷ is) actor = do
  modify (λ w. record w {
    role_menus = update_where (link_among (i ∷ is)) (retire_link actor) w.role_menus;
  })
  modify (λ w. record w {
    service_routes = update_where (route_among (i ∷ is)) (retire_route actor) w.service_routes;
  })

-- The body of the transaction.
abbrev pub removal : String → String → Prog World (Unit {0})
removal id actor = do
  ids ← query (menu_ids id)
  retire_for_menus ids actor
  modify (λ w. record w { menus = update_where (menu_in id) (retire_menu actor) w.menus })
  modify (λ w. record w {
    role_modules = update_where (link_of id) (retire_link actor) w.role_modules;
  })
  atomic
      (λ w. record w { modules = update_where (λ m. m.id == id) (retire_module actor) w.modules })
      (λ w. guard (any (λ m. m.id == id) w.modules) (database "P2025"))

unfoldable pub remove : String → String → Prog World (Unit {0})
remove id actor = do found ← ensure_active id; transaction (removal id actor)
