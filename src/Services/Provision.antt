-- ===== src/Services/Provision.antt =====
-- external-services.service.ts: `provision`, with `inferTargetPath`; `toProxyPublicPath` and
-- `normalizeMethods` are those of the menus.
pub mod Steps
pub mod Grants
pub mod Effect
pub mod Access
pub mod Refusal
use Prim.Native.Char.{code}
use Prim.Native.String
use Prim.Native.String.{◌∷◌}
use mathlib.Core.Option
use mathlib.Core.List.{List}
use master_gateway_auth.Prelude.{
  ℕ, ◌+◌, String, Bool, true, false, not, ◌&&◌, ◌||◌, Option, none, some, ◌==◌, is_some, or_else,
  truthy, if◌then◌else◌, leb, eqb, map, any, select, length, includes, ◌++◌,
}
use master_gateway_auth.Prog.{
  Prog, ret, raise, atomic, query, modify, guard, some_or, transaction, conflict, bad_request,
  database, ◌>>=◌, ◌>>◌,
}
use master_gateway_auth.Db.{
  activo, is_active, SystemModule, Menu, RoleLink, ExternalService, ExternalServiceRoute, World,
}
use master_gateway_auth.Platform.{Platform}
use master_gateway_auth.Text.{to_lower, starts_with, drop_prefix}
use master_gateway_auth.Menus.{to_proxy_public_path, normalize_methods}
use master_gateway_auth.Menus.Routes.{draw_id, create_route}
use master_gateway_auth.Services.{PublicService, omit_api_key, find_active_or_throw, update_service}

pub record ProvisionMenuItemDto : Type 0 where
  pub name : String
  pub path : String
  pub target_path : Option String
  pub methods : List String
  pub icon : Option String

pub record ProvisionServiceDto : Type 0 where
  pub role_ids : List String
  pub items : List ProvisionMenuItemDto

pub record Provisioned : Type 0 where
  pub service : PublicService
  pub system_module : SystemModule
  pub menus : ℕ
  pub routes : ℕ

-- `[a-z0-9]`
abbrev is_slug : ℕ → Bool
is_slug c = leb b'a' c && leb c b'z' || leb b'0' c && leb c b'9'

-- `replace(/[^a-z0-9]+/g, '-')`: outside and inside of a run of other characters
abbrev pub slug_from : Bool → String → String
slug_from inside String.[] = ""
slug_from inside (c ∷ s) =
    let kept = c ∷ slug_from false s in
    let skipped = slug_from true s in
    let dashed = String.◌++◌ "-" (slug_from true s) in
    if is_slug (code c) then kept else if inside then skipped else dashed

-- `(?=/|$)`: the text ends, or goes on with a slash
abbrev at_boundary : String → Bool
at_boundary s = s == "" || starts_with "/" s

abbrev without_slug : String → String → String
without_slug prefix path =
    if starts_with prefix path && at_boundary (drop_prefix prefix path)
    then drop_prefix prefix path
    else path

unfoldable pub infer_target_path : String → String → String
infer_target_path menu_path service_code =
    let proxy_path = to_proxy_public_path menu_path in
    let rest =
      without_slug (String.◌++◌ "/" (slug_from false (to_lower service_code))) proxy_path in
    if truthy rest then rest else proxy_path

abbrev pub provisioned_module : String → ExternalService → String → SystemModule
provisioned_module id s actor = record {
  id = id;
  code = s.code;
  name = s.name;
  description = some (or_else s.description (String.◌++◌ "Modulo generado desde " s.base_url));
  estado = activo;
  created_by = some actor;
  updated_by = none;
}

abbrev pub root_menu : String → ExternalService → String → String → Menu
root_menu id s module_id actor = record {
  id = id;
  name = s.name;
  url = none;
  icon = some "plug";
  order = 0;
  module_id = module_id;
  parent_id = none;
  estado = activo;
  created_by = some actor;
  updated_by = none;
}

abbrev pub leaf_menu :
    (id : String) → ProvisionMenuItemDto → (index : ℕ) → (module_id root_id actor : String) → Menu
leaf_menu id item index module_id root_id actor = record {
  id = id;
  name = item.name;
  url = some item.path;
  icon = some (or_else item.icon "link");
  order = index + 1;
  module_id = module_id;
  parent_id = some root_id;
  estado = activo;
  created_by = some actor;
  updated_by = none;
}

abbrev pub item_route :
    (id menu_id : String) → ProvisionMenuItemDto → ExternalService → String → ExternalServiceRoute
item_route id menu_id item s actor = record {
  id = id;
  service_id = s.id;
  menu_id = menu_id;
  public_path = to_proxy_public_path item.path;
  target_path = or_else item.target_path (infer_target_path item.path s.code);
  methods = normalize_methods item.methods;
  estado = activo;
  created_by = some actor;
  updated_by = none;
}

abbrev pub link_row : (id role_id target_id actor : String) → RoleLink
link_row id role_id target_id actor = record {
  id = id;
  role_id = role_id;
  target_id = target_id;
  estado = activo;
  created_by = some actor;
  updated_by = none;
}

abbrev pub code_used : World → String → Bool
code_used w c = any (λ m. m.code == c) w.modules

abbrev pub create_module : SystemModule → Prog World (Unit {0})
create_module m =
    atomic
      (λ w.
        if code_used w m.code then w else record w { modules = w.modules ++ List.◌∷◌ m List.[] })
      (λ w. guard (not (code_used w m.code)) (database "P2002"))

abbrev pub create_menu : Menu → Prog World (Unit {0})
create_menu m = modify (λ w. record w { menus = w.menus ++ List.◌∷◌ m List.[] })

-- The pairs of role and module, and of role and menu, are unique.
abbrev pub pair_used : RoleLink → List RoleLink → Bool
pair_used l ls = any (λ x. x.role_id == l.role_id && x.target_id == l.target_id) ls

abbrev pub create_role_module : RoleLink → Prog World (Unit {0})
create_role_module l =
    atomic
      (λ w.
        if pair_used l w.role_modules
        then w
        else record w { role_modules = w.role_modules ++ List.◌∷◌ l List.[] })
      (λ w. guard (not (pair_used l w.role_modules)) (database "P2002"))

abbrev pub create_role_menu : RoleLink → Prog World (Unit {0})
create_role_menu l =
    atomic
      (λ w.
        if pair_used l w.role_menus
        then w
        else record w { role_menus = w.role_menus ++ List.◌∷◌ l List.[] })
      (λ w. guard (not (pair_used l w.role_menus)) (database "P2002"))

abbrev pub active_roles : World → List String → List String
active_roles w ids = map (λ r. r.id) (select (λ r. includes r.id ids && is_active r.estado) w.roles)

abbrev pub is_provisioned : ExternalService → Bool
is_provisioned s = elim s.module_id [ none ↦ false | some m ↦ truthy m ]

module _ (pf : Platform) (actor : String) where
  -- The loop over the items, from an index on: the ids of the leaves
  abbrev pub create_leaves :
      ExternalService → String → String → ℕ → List ProvisionMenuItemDto → Prog World (List String)
  create_leaves s module_id root_id index List.[] = ret List.[]
  create_leaves s module_id root_id index (List.◌∷◌ item items) = do
    menu_id ← draw_id pf
    create_menu (leaf_menu menu_id item index module_id root_id actor)
    route_id ← draw_id pf
    create_route (item_route route_id menu_id item s actor)
    rest ← create_leaves s module_id root_id (index + 1) items
    ret (List.◌∷◌ menu_id rest)

  -- The loop over the menus, for a role
  abbrev pub grant_menus : String → List String → Prog World (Unit {0})
  grant_menus role_id List.[] = ret tt
  grant_menus role_id (List.◌∷◌ menu_id rest) = do
    id ← draw_id pf
    create_role_menu (link_row id role_id menu_id actor)
    grant_menus role_id rest

  -- The loop over the roles
  abbrev pub grant_roles : String → List String → List String → Prog World (Unit {0})
  grant_roles module_id menu_ids List.[] = ret tt
  grant_roles module_id menu_ids (List.◌∷◌ role_id rest) = do
    id ← draw_id pf
    create_role_module (link_row id role_id module_id actor)
    grant_menus role_id menu_ids
    grant_roles module_id menu_ids rest

  abbrev pub with_module : String → ExternalService → ExternalService
  with_module module_id s = record s { module_id = some module_id; updated_by = some actor }

  -- The body of the transaction.
  abbrev pub provisioning :
      ExternalService → String → List String → List ProvisionMenuItemDto → Prog World Provisioned
  provisioning s id role_ids items = do
    module_id ← draw_id pf
    create_module (provisioned_module module_id s actor)
    root_id ← draw_id pf
    create_menu (root_menu root_id s module_id actor)
    leaves ← create_leaves s module_id root_id 0 items
    grant_roles module_id (List.◌∷◌ root_id leaves) role_ids
    updated ← update_service id (with_module module_id)
    ret (record {
      service = omit_api_key updated;
      system_module = provisioned_module module_id s actor;
      menus = length (List.◌∷◌ root_id leaves);
      routes = length leaves;
    })

  unfoldable pub provision : String → ProvisionServiceDto → Prog World Provisioned
  provision id dto = do
    service ← find_active_or_throw id
    guard (not (is_provisioned service)) (
        conflict "El servicio ya fue aprovisionado. Elimina el modulo antes de volver a generarlo.")
    role_ids ← query (λ w. active_roles w dto.role_ids)
    guard (eqb (length role_ids) (length dto.role_ids))
        (bad_request "Alguno de los roles indicados no existe o esta inactivo")
    existing ← query (λ w. code_used w service.code)
    guard (not existing) (conflict (String.◌++◌ "Ya existe un modulo con el codigo " service.code))
    transaction (provisioning service id role_ids dto.items)
