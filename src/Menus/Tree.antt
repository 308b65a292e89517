-- ===== src/Menus/Tree.antt =====
-- menus.service.ts: the reads: `findAll`, `findOne`, `withTargetUrl` and `treeForRole`.
-- The tree is built from objects that refer to each other: here an object refers to another one by
-- its id.
pub mod Granted
pub mod Built
use mathlib.Core.Option
use Prim.Native.String
use master_gateway_auth.Prelude.{
  ℕ, String, Bool, true, false, not, ◌&&◌, ◌||◌, Option, none, some, List, [], ◌∷◌, ◌++◌, ◌==◌, ltb,
  eqb, truthy, if◌then◌else◌, map, find, any, select, includes, or_else, entry, set_entry,
  update_entry, sort_by,
}
use master_gateway_auth.Prog.{Prog, ret, atomic, query, some_or, not_found, ◌>>=◌}
use master_gateway_auth.Db.{
  is_active, SystemModule, Menu, RoleLink, ExternalService, ExternalServiceRoute, World,
  role_is_active, module_is_active,
}
use master_gateway_auth.Text.{drop_trailing}
use master_gateway_auth.Menus.{ensure_active_menu, nonempty}
use master_gateway_auth.Menus.Routes.{route_by_menu, with_service}

-- A menu with `targetUrl` and `methods`, as the form shows them.
pub record MenuWithTarget : Type 0 where
  pub menu : Menu
  pub target_url : Option String
  pub methods : List String

abbrev pub no_target : Menu → MenuWithTarget
no_target menu = record { menu = menu; target_url = none; methods = [] }

unfoldable pub with_target_url :
    Menu → Option (ExternalServiceRoute × ExternalService) → MenuWithTarget
with_target_url menu none = no_target menu
with_target_url menu (some (route, service)) =
    if is_active route.estado
    then record {
      menu = menu;
      target_url = some (String.◌++◌ (drop_trailing b'/' service.base_url) route.target_path);
      methods = route.methods;
    }
    else no_target menu

abbrev pub shown : World → Menu → MenuWithTarget
shown w m = with_target_url m (with_service w (route_by_menu w m.id))

abbrev pub is_visible : World → Menu → Bool
is_visible w m = is_active m.estado && module_is_active w m.module_id

-- The order of the list is left out.
unfoldable pub find_all : Prog World (List MenuWithTarget)
find_all = query (λ w. map (shown w) (select (is_visible w) w.menus))

unfoldable pub find_one : String → Prog World MenuWithTarget
find_one id =
    atomic (λ w. w)
      (λ w.
        some_or (not_found "Menu no encontrado")
          (Option.map (shown w) (find (λ m. m.id == id && is_active m.estado) w.menus)))

-- `MenuTreeNode` with `parentId` and `moduleId`: the children are ids.
pub record Node : Type 0 where
  pub id : String
  pub name : String
  pub url : Option String
  pub icon : Option String
  pub order : ℕ
  pub parent_id : Option String
  pub module_id : String
  pub children : List String

-- A module of the tree: its root menus are ids.
pub record ModuleNode : Type 0 where
  pub id : String
  pub code : String
  pub name : String
  pub menus : List String

pub record Tree : Type 0 where
  pub modules : List (String × ModuleNode)
  pub nodes : List (String × Node)

abbrev pub full_access_role_names : List String
full_access_role_names = "SUPER_ADMIN" ∷ "SUPERADMIN" ∷ "ADMIN" ∷ []

-- A menu with its module.
abbrev pub MenuRow : Type 0
MenuRow = Menu × SystemModule

abbrev pub active_module : World → String → Option SystemModule
active_module w id = find (λ m. m.id == id && is_active m.estado) w.modules

abbrev pub row_of : World → Menu → List MenuRow
row_of w m =
    if is_active m.estado
    then elim (active_module w m.module_id) [ none ↦ [] | some x ↦ (m, x) ∷ [] ]
    else []

abbrev pub all_rows : World → List Menu → List MenuRow
all_rows w [] = []
all_rows w (m ∷ ms) = row_of w m ++ all_rows w ms

-- `roles: { some: { roleId, estado: ACTIVO } }`
abbrev pub has_module : World → String → String → Bool
has_module w role_id module_id =
    any (λ l. l.role_id == role_id && l.target_id == module_id && is_active l.estado) w.role_modules

abbrev pub granted_row : World → String → Option Menu → List MenuRow
granted_row w role_id none = []
granted_row w role_id (some m) = if has_module w role_id m.module_id then row_of w m else []

abbrev pub is_grant : World → String → RoleLink → Bool
is_grant w role_id l = l.role_id == role_id && is_active l.estado && role_is_active w l.role_id

abbrev pub granted_rows : World → String → List RoleLink → List MenuRow
granted_rows w role_id [] = []
granted_rows w role_id (l ∷ ls) =
    let rest = granted_rows w role_id ls in
    if is_grant w role_id l
    then granted_row w role_id (find (λ m. m.id == l.target_id) w.menus) ++ rest
    else rest

abbrev pub is_full_access : Option String → Bool
is_full_access none = false
is_full_access (some name) = truthy name && includes name full_access_role_names

-- The object of the module, which keeps the menus that are in it.
abbrev pub module_node : SystemModule → Option ModuleNode → ModuleNode
module_node m none = record { id = m.id; code = m.code; name = m.name; menus = [] }
module_node m (some old) = record { id = m.id; code = m.code; name = m.name; menus = old.menus }

abbrev pub node_of : Menu → Node
node_of m = record {
  id = m.id;
  name = m.name;
  url = m.url;
  icon = m.icon;
  order = m.order;
  parent_id = m.parent_id;
  module_id = m.module_id;
  children = [];
}

-- The first loop: the objects of the modules and of the menus.
abbrev pub collect_nodes : List MenuRow → Tree → Tree
collect_nodes [] t = t
collect_nodes (row ∷ rows) t = collect_nodes rows (record {
  modules =
      set_entry row.0.module_id (module_node row.1 (entry row.0.module_id t.modules)) t.modules;
  nodes = set_entry row.0.id (node_of row.0) t.nodes;
})

abbrev pub push_child : String → Node → Node
push_child id n = record n { children = n.children ++ id ∷ [] }

abbrev pub push_menu : String → ModuleNode → ModuleNode
push_menu id m = record m { menus = m.menus ++ id ∷ [] }

-- A round of the second loop: a node goes to its parent, if that is there, or to its module.
abbrev pub place : Node → Option String → Tree → Tree
place n (some parent) t = record t { nodes = update_entry parent (push_child n.id) t.nodes }
place n none t = record t { modules = update_entry n.module_id (push_menu n.id) t.modules }

abbrev pub place_all : List Node → Tree → Tree
place_all [] t = t
place_all (n ∷ ns) t = place_all ns (place n (nonempty n.parent_id) t)

abbrev pub has_menus : ModuleNode → Bool
has_menus m = elim m.menus [ [] ↦ false | _ ∷ _ ↦ true ]

abbrev pub values : {A : Type 0} → List (String × A) → List A
values es = map (λ e. e.1) es

-- `localeCompare`, which says whether a name stands before another one, is a parameter; the
-- database orders names in the same way.
module _ (name_before : String → String → Bool) where
  abbrev pub node_before : Node → Node → Bool
  node_before a b = ltb a.order b.order || eqb a.order b.order && name_before a.name b.name

  abbrev pub row_before : MenuRow → MenuRow → Bool
  row_before a b =
      ltb a.0.order b.0.order || eqb a.0.order b.0.order && name_before a.0.name b.0.name

  abbrev pub order_before : MenuRow → MenuRow → Bool
  order_before a b = ltb a.0.order b.0.order

  abbrev pub read_rows : World → String → Option String → List MenuRow
  read_rows w role_id role_name =
      if is_full_access role_name
      then sort_by row_before (all_rows w w.menus)
      else sort_by order_before (granted_rows w role_id w.role_menus)

  abbrev pub collected : World → String → Option String → Tree
  collected w role_id role_name =
      collect_nodes (read_rows w role_id role_name) (record { modules = []; nodes = [] })

  abbrev pub built : Tree → Tree
  built t = place_all (sort_by node_before (values t.nodes)) t

  abbrev pub listed : Tree → Tree
  listed t = record t { modules = select (λ e. has_menus e.1) t.modules }

  unfoldable pub tree_for_role : String → Option String → Prog World Tree
  tree_for_role role_id role_name = query (λ w. listed (built (collected w role_id role_name)))
