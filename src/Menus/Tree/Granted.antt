-- ===== src/Menus/Tree/Granted.antt =====
-- `treeForRole`: a role sees only what it was given.
use master_gateway_auth.Prelude.{
  String, Bool, true, false, ◌&&◌, Option, none, some, List, [], ◌∷◌, ◌≡◌, refl, sym, subst, inl,
  inr, arith, ◌==◌, eq_iff, Bool-cases, Option-cases, find, find-holds, find-Within, Within,
  any-append_last, any, All, All-append, entry, EachValue, All-sort_by, sort_by,
  EachValue-set_entry, EachValue-update_entry, EachValue-entry, EachValue-map, All-select,
}
use master_gateway_auth.Prog.{ok, run}
use master_gateway_auth.Prog.Outcomes.{outcome-eq}
use master_gateway_auth.Db.{is_active, Menu, SystemModule, RoleLink, World, role_is_active}
use master_gateway_auth.Menus.{nonempty}
use master_gateway_auth.Menus.Tree

-- The id is that of an active row of the table of menus, whose module is an active row of the table
-- of modules; an active assignment gives the module to the role, and one gives it the menu; a row of
-- the role is active.
pub record IsGranted (w : World) (role_id id : String) : Type 0 where
  pub menu : Menu
  pub stored : Within menu w.menus
  pub same : menu.id ≡ id
  pub menu_active : is_active menu.estado ≡ true
  pub system_module : SystemModule
  pub module_stored : Within system_module w.modules
  pub module_same : system_module.id ≡ menu.module_id
  pub module_active : is_active system_module.estado ≡ true
  pub module_given :
      any
        (λ l. l.role_id == role_id && l.target_id == menu.module_id && is_active l.estado)
        w.role_modules
      ≡ true
  pub menu_given :
      any (λ l. l.role_id == role_id && l.target_id == id && is_active l.estado) w.role_menus ≡ true
  pub role_active : any (λ r. r.id == role_id && is_active r.estado) w.roles ≡ true

module _ (w : World) (role_id : String) where
  abbrev Given : String → Type 0
  Given id = IsGranted w role_id id

  abbrev RowGiven : Tree.MenuRow → Type 0
  RowGiven row = Given row.0.id

  -- The assignment that the query found.
  granted :
      (id : String) (ls : List RoleLink)
      → any (λ l. Tree.is_grant w role_id l && l.target_id == id) ls ≡ true
      → (any (λ l. l.role_id == role_id && l.target_id == id && is_active l.estado) ls ≡ true)
        × (role_is_active w role_id ≡ true)
  granted id [] h = cc
  granted id (l ∷ ls) h = elim (Bool-cases (Tree.is_grant w role_id l && l.target_id == id)) [
    | inl hit ↦ (
      ground arith,
      subst (λ i. role_is_active w i ≡ true) ((eq_iff l.role_id role_id).0 (ground arith))
          (ground arith),
    )
    | inr miss ↦
        let (given, active) = granted id ls (ground arith) in
        (any-append_last _ (l ∷ []) ls given, active)
  ]

  row_of-RowGiven :
      (m : Menu)
      → Within m w.menus
      → Tree.has_module w role_id m.module_id ≡ true
      → any (λ l. Tree.is_grant w role_id l && l.target_id == m.id) w.role_menus ≡ true
      → All RowGiven (Tree.row_of w m)
  row_of-RowGiven m stored given grant = elim (Bool-cases (is_active m.estado)) [
    | inr inactive ↦ rw inactive tt
    | inl active ↦ elim (Option-cases (Tree.active_module w m.module_id)) [
      | inl none' ↦ rw (active, none') tt
      | inr (x, found) ↦
          let hit = find-holds (λ y. y.id == m.module_id && is_active y.estado) w.modules found in
          rw (active, found)
            (
              record {
                menu = m;
                stored = stored;
                same = refl;
                menu_active = active;
                system_module = x;
                module_stored =
                    find-Within (λ y. y.id == m.module_id && is_active y.estado) w.modules found;
                module_same = (eq_iff x.id m.module_id).0 (ground arith);
                module_active = ground arith;
                module_given = given;
                menu_given = (granted m.id w.role_menus grant).0;
                role_active = (granted m.id w.role_menus grant).1;
              },
              tt,
            )
    ]
  ]

  granted_row-RowGiven :
      (l : RoleLink) (o : Option Menu)
      → find (λ m. m.id == l.target_id) w.menus ≡ o
      → any (λ x. Tree.is_grant w role_id x && x.target_id == l.target_id) w.role_menus ≡ true
      → All RowGiven (Tree.granted_row w role_id o)
  granted_row-RowGiven l none found grant = tt
  granted_row-RowGiven l (some m) found grant =
      let same =
        (eq_iff m.id l.target_id).0 (find-holds (λ x. x.id == l.target_id) w.menus found) in
      elim (Bool-cases (Tree.has_module w role_id m.module_id)) [
        | inr without ↦ rw without tt
        | inl given ↦ rw given (
            row_of-RowGiven m (find-Within (λ x. x.id == l.target_id) w.menus found) given (
              subst
                (λ i. any (λ x. Tree.is_grant w role_id x && x.target_id == i) w.role_menus ≡ true)
                (sym same) grant))
      ]

  -- The assignments that are still to be read are among all.
  granted_rows-RowGiven :
      (ls : List RoleLink)
      → ((id : String)
          → any (λ x. Tree.is_grant w role_id x && x.target_id == id) ls ≡ true
          → any (λ x. Tree.is_grant w role_id x && x.target_id == id) w.role_menus ≡ true)
      → All RowGiven (Tree.granted_rows w role_id ls)
  granted_rows-RowGiven [] among = tt
  granted_rows-RowGiven (l ∷ ls) among =
      let rest = granted_rows-RowGiven ls (λ id h. among id (ground arith)) in
      elim (Bool-cases (Tree.is_grant w role_id l)) [
        | inr other ↦ rw other rest
        | inl grant ↦ rw grant (
            All-append RowGiven
              (Tree.granted_row w role_id (find (λ m. m.id == l.target_id) w.menus))
              (Tree.granted_rows w role_id ls)
              (granted_row-RowGiven l (find (λ m. m.id == l.target_id) w.menus) refl
                (among l.target_id (ground (arith, eq_iff l.target_id l.target_id))))
              rest)
      ]

  -- All ids that the tree has.
  abbrev NodeGiven : Tree.Node → Type 0
  NodeGiven n = Given n.id × All Given n.children

  abbrev ModuleGiven : Tree.ModuleNode → Type 0
  ModuleGiven m = All Given m.menus

  -- The ids of all nodes, of their children and of the menus of all modules.
  pub record ShowsGranted (t : Tree.Tree) : Type 0 where
    pub nodes_given : EachValue NodeGiven t.nodes
    pub modules_given : EachValue ModuleGiven t.modules

  module_node-given :
      (x : SystemModule) (o : Option Tree.ModuleNode) (key : String)
      (es : List (String × Tree.ModuleNode))
      → entry key es ≡ o
      → EachValue ModuleGiven es
      → ModuleGiven (Tree.module_node x o)
  module_node-given x none key es found h = tt
  module_node-given x (some old) key es found h = EachValue-entry ModuleGiven key es h found

  collect_nodes-ShowsGranted :
      (rows : List Tree.MenuRow) (t : Tree.Tree)
      → All RowGiven rows
      → ShowsGranted t
      → ShowsGranted (Tree.collect_nodes rows t)
  collect_nodes-ShowsGranted [] t given h = h
  collect_nodes-ShowsGranted (row ∷ rows) t (p, given) h =
      collect_nodes-ShowsGranted rows _ given (record {
        nodes_given =
            EachValue-set_entry NodeGiven row.0.id (Tree.node_of row.0) t.nodes (p, tt)
              h.nodes_given;
        modules_given =
            EachValue-set_entry ModuleGiven row.0.module_id _ t.modules
              (module_node-given row.1 (entry row.0.module_id t.modules) row.0.module_id t.modules
                refl h.modules_given)
              h.modules_given;
      })

  place-ShowsGranted :
      (n : Tree.Node) (parent : Option String) (t : Tree.Tree)
      → Given n.id
      → ShowsGranted t
      → ShowsGranted (Tree.place n parent t)
  place-ShowsGranted n (some p) t given h = record {
    nodes_given =
        EachValue-update_entry NodeGiven p (Tree.push_child n.id) t.nodes
          (λ x (i, cs). (i, All-append Given x.children (n.id ∷ []) cs (given, tt))) h.nodes_given;
    modules_given = h.modules_given;
  }
  place-ShowsGranted n none t given h = record {
    nodes_given = h.nodes_given;
    modules_given =
        EachValue-update_entry ModuleGiven n.module_id (Tree.push_menu n.id) t.modules
          (λ m ms. All-append Given m.menus (n.id ∷ []) ms (given, tt)) h.modules_given;
  }

  place_all-ShowsGranted :
      (ns : List Tree.Node) (t : Tree.Tree)
      → All NodeGiven ns
      → ShowsGranted t
      → ShowsGranted (Tree.place_all ns t)
  place_all-ShowsGranted [] t given h = h
  place_all-ShowsGranted (n ∷ ns) t (p, given) h =
      place_all-ShowsGranted ns _ given (place-ShowsGranted n (nonempty n.parent_id) t p.0 h)

-- The tree of a role without full access shows only menus that the role was given: the root menus
-- of every module, all nodes and all their children are active rows of the table of menus, whose
-- modules are active rows of theirs; an active assignment gives the role the menu, and one the
-- module; and a row of the role is active.
pub tree_for_role-ShowsGranted :
    (name_before : String → String → Bool) (role_id : String) (role_name : Option String)
    (w w' : World) (t : Tree.Tree)
    → Tree.is_full_access role_name ≡ false
    → run (Tree.tree_for_role name_before role_id role_name) w ≡ (ok t, w')
    → ShowsGranted w role_id t
unfolding Tree.tree_for_role
tree_for_role-ShowsGranted name_before role_id role_name w w' t limited e =
    let rows = Tree.granted_rows w role_id w.role_menus in
    let sorted =
      All-sort_by (RowGiven w role_id) (Tree.order_before name_before) rows
        (granted_rows-RowGiven w role_id w.role_menus (λ id h. h)) in
    let read : All (RowGiven w role_id) (Tree.read_rows name_before w role_id role_name) =
      rw limited sorted in
    let collected =
      collect_nodes-ShowsGranted w role_id (Tree.read_rows name_before w role_id role_name)
        (record { modules = []; nodes = [] }) read
        (record { nodes_given = tt; modules_given = tt }) in
    let start = Tree.collected name_before w role_id role_name in
    let nodes =
      All-sort_by (NodeGiven w role_id) (Tree.node_before name_before) (Tree.values start.nodes)
        (EachValue-map (NodeGiven w role_id) start.nodes collected.nodes_given) in
    let built =
      place_all-ShowsGranted w role_id
        (sort_by (Tree.node_before name_before) (Tree.values start.nodes)) start nodes collected in
    subst (ShowsGranted w role_id) (sym (outcome-eq e).0) (record {
      nodes_given = built.nodes_given;
      modules_given =
          All-select (λ x. ModuleGiven w role_id x.1) (λ x. Tree.has_menus x.1)
            (Tree.built name_before start).modules built.modules_given;
    })
