-- ===== src/Tests/Navigation.antt =====
-- The tree of menus, at a concrete state.
use mathlib.Core.Option
use master_gateway_auth.Prelude.{
  ℕ, ◌+◌, String, true, false, Option, none, some, List, [], ◌∷◌, ◌≡◌, refl, sym, subst, inl, inr,
  ◌⊎◌, ◌==◌, Bool-cases, includes, all, not, ◌||◌,
}
use master_gateway_auth.Prog.{Result, ok, err, run, bad_request, thrown}
use master_gateway_auth.Prog.Pool.{Event, turn, interleave}
use master_gateway_auth.Auth.Refresh.Once.{wait}
use master_gateway_auth.Menus.Race.{IsPair, pair-hangs}
use master_gateway_auth.Db.{activo, Menu, SystemModule, World}
use master_gateway_auth.Menus
use master_gateway_auth.Menus.Operations
use master_gateway_auth.Menus.Cycles.{Ends, at_root, up, IsAbove, IsForest, assert_no_cycle-Decides}
use master_gateway_auth.Menus.Forest.{update-IsForest}
use master_gateway_auth.Menus.Subtree.{IsKeyed, is_child, collect-Ends}
use master_gateway_auth.Menus.Orphans.{no_orphans, remove-no_orphans}
use master_gateway_auth.Tests.Sample.{platform}
use master_gateway_auth.Tests.State.{world}
use master_gateway_auth.Tests.Probes.{net}

abbrev menu : String → Option String → Menu
menu id parent = record {
  id = id;
  name = "Orders";
  url = none;
  icon = none;
  order = 0;
  module_id = "m1";
  parent_id = parent;
  estado = activo;
  created_by = none;
  updated_by = none;
}

abbrev orders : SystemModule
orders = record {
  id = "m1";
  code = "ORDERS";
  name = "Orders";
  description = none;
  estado = activo;
  created_by = none;
  updated_by = none;
}

-- A root, its child, and another root.
abbrev tree : World
tree = record world {
  modules = orders ∷ [];
  menus = menu "n1" none ∷ menu "n2" (some "n1") ∷ menu "n3" none ∷ [];
}

root-Ends : Ends tree (some "n1")
unfolding mathlib.Core.Option.bind
root-Ends = up at_root

tree-IsForest : IsForest tree
unfolding mathlib.Core.Option.bind
tree-IsForest id = elim (Bool-cases ("n1" == id)) [
  | inl a ↦ up (subst (Ends tree) (sym (parent_1 a)) at_root)
  | inr a ↦ elim (Bool-cases ("n2" == id)) [
    | inl b ↦ up (subst (Ends tree) (sym (parent_2 a b)) root-Ends)
    | inr b ↦ elim (Bool-cases ("n3" == id)) [
      | inl c ↦ up (subst (Ends tree) (sym (parent_3 a b c)) at_root)
      | inr c ↦ up (subst (Ends tree) (sym (parent_none a b c)) at_root)
    ]
  ]
]
  where
    parent_1 : ("n1" == id) ≡ true → Menus.parent_of tree id ≡ none
    parent_1 a = rw a refl

    parent_2 : ("n1" == id) ≡ false → ("n2" == id) ≡ true → Menus.parent_of tree id ≡ some "n1"
    parent_2 a b = rw (a, b) refl

    parent_3 :
        ("n1" == id) ≡ false
        → ("n2" == id) ≡ false
        → ("n3" == id) ≡ true
        → Menus.parent_of tree id ≡ none
    parent_3 a b c = rw (a, b, c) refl

    parent_none :
        ("n1" == id) ≡ false
        → ("n2" == id) ≡ false
        → ("n3" == id) ≡ false
        → Menus.parent_of tree id ≡ none
    parent_none a b c = rw (a, b, c) refl

assert_no_cycle-Decides_example :
    (enough : ℕ) × (answer : Result (Unit {0})) × ((m : ℕ)
      → run (Menus.assert_no_cycle (enough + m) "n1" "n2") tree ≡ (answer, tree))
    × (((answer ≡ ok tt) × (IsAbove tree "n1" (Menus.nonempty (some "n2")) → ⊥))
        ⊎ ((answer ≡ err (bad_request "La jerarquia de menu no puede ser ciclica"))
            × IsAbove tree "n1" (Menus.nonempty (some "n2"))))
assert_no_cycle-Decides_example = assert_no_cycle-Decides tree "n1" "n2" tree-IsForest

-- The second root becomes a child of the child.
abbrev move : Menus.UpdateMenuDto
move = record {
  name = none;
  url = Menus.absent;
  icon = Menus.absent;
  order = none;
  module_id = none;
  parent_id = Menus.given "n2";
  target_url = Menus.absent;
  methods = [];
}

abbrev moved_menu : Menu
moved_menu = Operations.apply_update move "u9" (menu "n3" none)

abbrev moved : World
moved = record tree { menus = menu "n1" none ∷ menu "n2" (some "n1") ∷ moved_menu ∷ [] }

moves : run (Operations.update platform net 5 "n3" move "u9") tree ≡ (ok moved_menu, moved)
unfolding Operations.update Menus.assert_no_cycle Menus.climb Menus.ensure_parent_in_module
    mathlib.Core.Option.bind
moves = refl

update-IsForest_example : IsForest moved
update-IsForest_example =
    update-IsForest platform net 5 "n3" move "u9" tree moved moved_menu tree-IsForest moves

tree-IsKeyed : IsKeyed tree
tree-IsKeyed = ((refl, refl), ((refl, refl), ((refl, refl), tt)))

collect-Ends_example :
    (enough : ℕ) × (ids : List String) × ((m : ℕ)
      → run (Operations.collect (enough + m) [] ("n1" ∷ [])) tree ≡ (ok ids, tree))
    × (includes "n1" ids ≡ true)
    × (all (λ m. not (is_child ids m) || includes m.id ids) tree.menus ≡ true)
collect-Ends_example = collect-Ends tree "n1" tree-IsForest tree-IsKeyed refl

-- The first root is removed with its child.
abbrev without_n1 : World
without_n1 = record tree {
  menus =
      Operations.retire_menu "u9" (menu "n1" none)
      ∷ Operations.retire_menu "u9" (menu "n2" (some "n1"))
      ∷ menu "n3" none
      ∷ [];
}

removes : run (Operations.remove 5 "n1" "u9") tree ≡ (ok tt, without_n1)
unfolding Operations.remove Operations.collect mathlib.Core.Option.bind
removes = refl

remove-no_orphans_example : no_orphans without_n1.menus ≡ true
remove-no_orphans_example = remove-no_orphans 5 "n1" "u9" tree without_n1 refl removes

-- Two updates take turns: each makes a root the child of the other one. Both checks pass before either
-- row is written.
abbrev below : String → Menus.UpdateMenuDto
below parent = record move { parent_id = Menus.given parent }

abbrev roots : World
roots = record world {
  modules = orders ∷ [];
  menus = menu "n1" none ∷ menu "n2" none ∷ menu "n3" none ∷ [];
}

abbrev racing : List Event
racing =
    turn 0
    ∷ turn 0
    ∷ turn 0
    ∷ turn 0
    ∷ turn 0
    ∷ turn 1
    ∷ turn 1
    ∷ turn 1
    ∷ turn 1
    ∷ turn 1
    ∷ turn 0
    ∷ turn 1
    ∷ []

abbrev raced : World
raced =
    (interleave wait racing
      (Operations.update platform net 5 "n1" (below "n2") "u1"
        ∷ Operations.update platform net 5 "n2" (below "n1") "u2"
        ∷ [])
      roots).1

-- The table has a cycle now.
raced-IsPair : IsPair raced "n1" "n2"
unfolding Operations.update Menus.assert_no_cycle Menus.climb Menus.ensure_parent_in_module
    interleave mathlib.Core.Option.bind
raced-IsPair = record { over_a = refl; over_b = refl }

pair-hangs_example :
    run (Menus.assert_no_cycle 100 "n3" "n1") raced ≡ (err (thrown "out of rounds"), raced)
pair-hangs_example = pair-hangs raced "n1" "n2" "n3" 100 raced-IsPair refl refl refl
