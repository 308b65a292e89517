-- ===== src/Menus/Tree/Built.antt =====
-- `treeForRole`: the objects that refer to each other, against a description of each of them.
use mathlib.Core.Option
use mathlib.Core.List.{append-nil, append_assoc}
use master_gateway_auth.Prelude.{
  sort_by, String, Bool, true, false, Option, none, some, List, [], ◌∷◌, ◌++◌, ◌≡◌, refl, sym, ◌∙◌,
  ap, ◌==◌, eq_iff, if◌then◌else◌, map, select, entry, entry-set_entry, entry-update_entry,
  first_some, first_some-none, keep, entry-select, Apart, Apart-set_entry, Apart-update_entry,
}
use master_gateway_auth.Prog.{ok, run}
use master_gateway_auth.Prog.Outcomes.{outcome-eq}
use master_gateway_auth.Db.{World}
use master_gateway_auth.Menus.{nonempty}
use master_gateway_auth.Menus.Tree

abbrev is_parent : String → Option String → Bool
is_parent k none = false
is_parent k (some p) = k == p

-- The node is a child of the menu k, or a root menu of the module k.
abbrev pub child_of : String → Tree.Node → Bool
child_of k n = is_parent k (nonempty n.parent_id)

abbrev root_in : String → Option String → String → Bool
root_in k none module_id = k == module_id
root_in k (some p) module_id = false

abbrev pub root_of : String → Tree.Node → Bool
root_of k n = root_in k (nonempty n.parent_id) n.module_id

abbrev pub ids_of : List Tree.Node → List String
ids_of ns = map (λ n. n.id) ns

-- The node with the ids at the end of its children.
abbrev pub with_children : List String → Tree.Node → Tree.Node
with_children ids n = record n { children = n.children ++ ids }

abbrev pub with_menus : List String → Tree.ModuleNode → Tree.ModuleNode
with_menus ids m = record m { menus = m.menus ++ ids }

children-none : (o : Option Tree.Node) → o ≡ Option.map (with_children []) o
children-none none = refl
children-none (some n) = simp append-nil

children-push :
    (id : String) (ids : List String) (o : Option Tree.Node)
    → Option.map (with_children ids) (Option.map (Tree.push_child id) o)
      ≡ Option.map (with_children (id ∷ ids)) o
children-push id ids none = refl
children-push id ids (some n) = simp append_assoc

children-place :
    (k : String) (n : Tree.Node) (parent : Option String) (t : Tree.Tree)
    → entry k (Tree.place n parent t).nodes ≡ (
        if is_parent k parent
        then Option.map (Tree.push_child n.id) (entry k t.nodes)
        else entry k t.nodes)
children-place k n none t = refl
children-place k n (some p) t = entry-update_entry k p (Tree.push_child n.id) t.nodes

children-step :
    (b : Bool) (n : Tree.Node) (rest : List Tree.Node) (o : Option Tree.Node)
    → Option.map
        (with_children (ids_of rest))
        (if b then Option.map (Tree.push_child n.id) o else o)
      ≡ Option.map (with_children (ids_of (if b then n ∷ rest else rest))) o
children-step true n rest o = children-push n.id (ids_of rest) o
children-step false n rest o = refl

-- The loop gives each node the children that it reads, in their order.
children-place_all :
    (k : String) (ns : List Tree.Node) (t : Tree.Tree)
    → entry k (Tree.place_all ns t).nodes
      ≡ Option.map (with_children (ids_of (select (child_of k) ns))) (entry k t.nodes)
children-place_all k [] t = children-none (entry k t.nodes)
children-place_all k (n ∷ ns) t =
    children-place_all k ns (Tree.place n (nonempty n.parent_id) t)
    ∙ ap (Option.map (with_children (ids_of (select (child_of k) ns))))
        (children-place k n (nonempty n.parent_id) t)
    ∙ children-step (child_of k n) n (select (child_of k) ns) (entry k t.nodes)

menus-none : (o : Option Tree.ModuleNode) → o ≡ Option.map (with_menus []) o
menus-none none = refl
menus-none (some m) = simp append-nil

menus-push :
    (id : String) (ids : List String) (o : Option Tree.ModuleNode)
    → Option.map (with_menus ids) (Option.map (Tree.push_menu id) o)
      ≡ Option.map (with_menus (id ∷ ids)) o
menus-push id ids none = refl
menus-push id ids (some m) = simp append_assoc

menus-place :
    (k : String) (n : Tree.Node) (parent : Option String) (t : Tree.Tree)
    → entry k (Tree.place n parent t).modules ≡ (
        if root_in k parent n.module_id
        then Option.map (Tree.push_menu n.id) (entry k t.modules)
        else entry k t.modules)
menus-place k n none t = entry-update_entry k n.module_id (Tree.push_menu n.id) t.modules
menus-place k n (some p) t = refl

menus-step :
    (b : Bool) (n : Tree.Node) (rest : List Tree.Node) (o : Option Tree.ModuleNode)
    → Option.map (with_menus (ids_of rest)) (if b then Option.map (Tree.push_menu n.id) o else o)
      ≡ Option.map (with_menus (ids_of (if b then n ∷ rest else rest))) o
menus-step true n rest o = menus-push n.id (ids_of rest) o
menus-step false n rest o = refl

-- The loop gives each module the root menus that it reads, in their order.
menus-place_all :
    (k : String) (ns : List Tree.Node) (t : Tree.Tree)
    → entry k (Tree.place_all ns t).modules
      ≡ Option.map (with_menus (ids_of (select (root_of k) ns))) (entry k t.modules)
menus-place_all k [] t = menus-none (entry k t.modules)
menus-place_all k (n ∷ ns) t =
    menus-place_all k ns (Tree.place n (nonempty n.parent_id) t)
    ∙ ap (Option.map (with_menus (ids_of (select (root_of k) ns))))
        (menus-place k n (nonempty n.parent_id) t)
    ∙ menus-step (root_of k n) n (select (root_of k) ns) (entry k t.modules)

-- The last row of a menu.
abbrev pub last_row : String → List Tree.MenuRow → Option Tree.MenuRow
last_row k [] = none
last_row k (row ∷ rows) = first_some (last_row k rows) (if k == row.0.id then some row else none)

abbrev pub node_of_row : Option Tree.MenuRow → Option Tree.Node
node_of_row o = Option.map (λ row. Tree.node_of row.0) o

node-step :
    (b : Bool) (o : Option Tree.MenuRow) (row : Tree.MenuRow) (old : Option Tree.Node)
    → first_some (node_of_row o) (if b then some (Tree.node_of row.0) else old)
      ≡ first_some (node_of_row (first_some o (if b then some row else none))) old
node-step true none row old = refl
node-step false none row old = refl
node-step b (some x) row old = refl

nodes-collect_nodes :
    (k : String) (rows : List Tree.MenuRow) (t : Tree.Tree)
    → entry k (Tree.collect_nodes rows t).nodes
      ≡ first_some (node_of_row (last_row k rows)) (entry k t.nodes)
nodes-collect_nodes k [] t = refl
nodes-collect_nodes k (row ∷ rows) t =
    nodes-collect_nodes k rows _
    ∙ ap (first_some (node_of_row (last_row k rows)))
        (entry-set_entry k row.0.id (Tree.node_of row.0) t.nodes)
    ∙ node-step (k == row.0.id) (last_row k rows) row (entry k t.nodes)

-- The object of a module, from the rows of its menus.
abbrev pub module_of_rows :
    String → List Tree.MenuRow → Option Tree.ModuleNode → Option Tree.ModuleNode
module_of_rows k [] old = old
module_of_rows k (row ∷ rows) old =
    module_of_rows k rows (if k == row.0.module_id then some (Tree.module_node row.1 old) else old)

modules-collect_nodes :
    (k : String) (rows : List Tree.MenuRow) (t : Tree.Tree)
    → entry k (Tree.collect_nodes rows t).modules ≡ module_of_rows k rows (entry k t.modules)
modules-collect_nodes k [] t = refl
modules-collect_nodes k (row ∷ rows) t =
    modules-collect_nodes k rows _
    ∙ ap (module_of_rows k rows) (
        entry-set_entry k row.0.module_id (Tree.module_node row.1 (entry row.0.module_id t.modules))
          t.modules
        ∙ same_key (k == row.0.module_id) refl)
  where
    same_key :
        (b : Bool)
        → (k == row.0.module_id) ≡ b
        → (if b
            then some (Tree.module_node row.1 (entry row.0.module_id t.modules))
            else entry k t.modules)
          ≡ (if b then some (Tree.module_node row.1 (entry k t.modules)) else entry k t.modules)
    same_key true h =
        let same : k ≡ row.0.module_id = (eq_iff k row.0.module_id).0 h in
        ap (λ x. some (Tree.module_node row.1 (entry x t.modules))) (sym same)
    same_key false h = refl

-- No module stands twice in the tree.
collect_nodes-Apart :
    (rows : List Tree.MenuRow) (t : Tree.Tree)
    → Apart t.modules
    → Apart (Tree.collect_nodes rows t).modules
collect_nodes-Apart [] t h = h
collect_nodes-Apart (row ∷ rows) t h =
    collect_nodes-Apart rows _ (Apart-set_entry row.0.module_id _ t.modules h)

place-Apart :
    (n : Tree.Node) (parent : Option String) (t : Tree.Tree)
    → Apart t.modules
    → Apart (Tree.place n parent t).modules
place-Apart n (some p) t h = h
place-Apart n none t h = Apart-update_entry n.module_id (Tree.push_menu n.id) t.modules h

place_all-Apart :
    (ns : List Tree.Node) (t : Tree.Tree) → Apart t.modules → Apart (Tree.place_all ns t).modules
place_all-Apart [] t h = h
place_all-Apart (n ∷ ns) t h = place_all-Apart ns _ (place-Apart n (nonempty n.parent_id) t h)

module _ (name_before : String → String → Bool) (w : World) (role_id : String)
    (role_name : Option String) where
  abbrev pub rows_read : List Tree.MenuRow
  rows_read = Tree.read_rows name_before w role_id role_name

  -- The nodes in the order of the tree.
  abbrev pub in_order : List Tree.Node
  in_order =
      sort_by (Tree.node_before name_before)
        (Tree.values (Tree.collected name_before w role_id role_name).nodes)

  modules-built :
      (k : String)
      → entry k (Tree.built name_before (Tree.collected name_before w role_id role_name)).modules
        ≡ Option.map
            (with_menus (ids_of (select (root_of k) in_order)))
            (module_of_rows k rows_read none)
  modules-built k =
      menus-place_all k in_order (Tree.collected name_before w role_id role_name)
      ∙ ap (Option.map (with_menus (ids_of (select (root_of k) in_order))))
          (modules-collect_nodes k rows_read (record { modules = []; nodes = [] }))

  -- Every menu that is read for the role is a node of the tree, and no other is; its children are
  -- the nodes whose parent it is. Every module with a menu that is read is in the tree, if it has
  -- root menus among the nodes, and these are its menus. Both are in the order of the tree.
  pub tree_for_role-eq :
      (k : String) (t : Tree.Tree) (w' : World)
      → run (Tree.tree_for_role name_before role_id role_name) w ≡ (ok t, w')
      → (entry k t.nodes
          ≡ Option.map
              (with_children (ids_of (select (child_of k) in_order)))
              (node_of_row (last_row k rows_read)))
        × (entry k t.modules
            ≡ keep Tree.has_menus (
                Option.map
                  (with_menus (ids_of (select (root_of k) in_order)))
                  (module_of_rows k rows_read none)))
  unfolding Tree.tree_for_role
  tree_for_role-eq k t w' e =
      let start = Tree.collected name_before w role_id role_name in
      (
        ap (λ x. entry k x.nodes) (outcome-eq e).0
            ∙ children-place_all k in_order start
            ∙ ap (Option.map (with_children (ids_of (select (child_of k) in_order)))) (
                nodes-collect_nodes k rows_read (record { modules = []; nodes = [] })
                ∙ first_some-none (node_of_row (last_row k rows_read))),
        ap (λ x. entry k x.modules) (outcome-eq e).0
            ∙ entry-select k Tree.has_menus (Tree.built name_before start).modules
                (place_all-Apart in_order start (collect_nodes-Apart rows_read _ tt))
            ∙ ap (keep Tree.has_menus) (modules-built k),
      )
