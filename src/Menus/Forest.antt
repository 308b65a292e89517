-- ===== src/Menus/Forest.antt =====
-- menus.service.ts: the update of a menu leaves the table of menus without cycles.
use mathlib.Core.Option
use master_gateway_auth.Prelude.{
  ℕ, zero, suc, String, Bool, true, false, Option, none, some, List, [], ◌∷◌, ◌≡◌, ◌≢◌, refl, sym,
  ◌∙◌, ap, subst, inl, inr, arith, ◌==◌, eq_iff, Bool-cases, truthy, find, update_where,
  if◌then◌else◌, or_else,
}
use master_gateway_auth.Prog.{ok, run}
use master_gateway_auth.Prog.Moves.{Moves, moves_rules, Moves-bind, of_ret}
use master_gateway_auth.Prog.Runs.{
  run-bind_ok, run-if_ok, run-some_or_ok, run-guard_ok, run-transaction_ok, run-reads,
}
use master_gateway_auth.Db.{Menu, ExternalServiceRoute, ExternalService, World, module_is_active}
use master_gateway_auth.Platform.{Platform}
use master_gateway_auth.Ssrf.{Network}
use master_gateway_auth.Menus
use master_gateway_auth.Menus.Routes
use master_gateway_auth.Menus.Operations
use master_gateway_auth.Menus.Untouched.{Same-change_route, run-same}
use master_gateway_auth.Menus.Cycles.{
  Ends, at_root, up, IsAbove, here, higher, IsForest, IsAbove-step, IsAbove-root,
}

climb_ok :
    (n : ℕ) (id : String) (start : Option String) (w : World) {u : Unit {0}} {v : World}
    → run (Menus.climb n id start) w ≡ (ok u, v)
    → (IsAbove w id start → ⊥) × (v ≡ w)
unfolding Menus.climb
climb_ok zero id none w e = ((λ h. IsAbove-root w id none refl h), sym (ap (λ r. r.1) e))
climb_ok (suc n) id none w e = ((λ h. IsAbove-root w id none refl h), sym (ap (λ r. r.1) e))
climb_ok zero id (some p) w e = cc
climb_ok (suc n) id (some p) w e =
    let (other, e1) = run-if_ok (p == id) _ _ w refl e in
    let (free, same) = climb_ok n id (Menus.parent_of w p) w e1 in
    let apart : id ≢ p = ground (arith, eq_iff p id) in
    ((λ h. free (IsAbove-step w id p (some p) refl apart h)), same)

-- The parent of one menu changes, to one from which the way up does not meet the menu.
module _ (w w' : World) (id : String) (new : Option String)
    (others : (x : String) → x ≢ id → Menus.parent_of w' x ≡ Menus.parent_of w x)
    (own : Menus.parent_of w' id ≡ new) (free : IsAbove w id new → ⊥) where
  carried : {start : Option String} → Ends w start → (IsAbove w id start → ⊥) → Ends w' start
  carried at_root out = at_root
  carried (up {p} rest) out =
      let apart : p ≢ id = λ e. out (subst (λ i. IsAbove w i (some p)) e here) in
      up (subst (Ends w') (sym (others p apart)) (carried rest (λ h. out (higher h))))

  pub regrown : Ends w new → {start : Option String} → Ends w start → Ends w' start
  regrown top at_root = at_root
  regrown top (up {p} rest) = elim (Bool-cases (p == id)) [
    | inl same ↦ up (
        subst (Ends w') (sym (ap (Menus.parent_of w') ((eq_iff p id).0 same) ∙ own))
          (carried top free))
    | inr other ↦
        let apart : p ≢ id = ground (arith, eq_iff p id) in
        up (subst (Ends w') (sym (others p apart)) (regrown top rest))
  ]

-- No parent changes.
same_parents :
    (w w' : World)
    → ((x : String) → Menus.parent_of w' x ≡ Menus.parent_of w x)
    → {start : Option String} → Ends w start
    → Ends w' start
same_parents w w' same at_root = at_root
same_parents w w' same (up {p} rest) =
    up (subst (Ends w') (sym (same p)) (same_parents w w' same rest))

module _ (id actor : String) (dto : Menus.UpdateMenuDto) where
  abbrev changed : List Menu → List Menu
  changed ms = update_where (λ m. m.id == id) (Operations.apply_update dto actor) ms

  find-changed_same :
      (ms : List Menu)
      → find (λ m. m.id == id) (changed ms)
        ≡ Option.map (Operations.apply_update dto actor) (find (λ m. m.id == id) ms)
  find-changed_same [] = refl
  find-changed_same (m ∷ ms) = elim (Bool-cases (m.id == id)) [
    | inl hit ↦ rw (hit, hit) refl
    | inr miss ↦ rw (miss, miss) (find-changed_same ms)
  ]

  find-changed_other :
      (x : String) (ms : List Menu)
      → x ≢ id
      → find (λ m. m.id == x) (changed ms) ≡ find (λ m. m.id == x) ms
  find-changed_other x [] other = refl
  find-changed_other x (m ∷ ms) other = elim (Bool-cases (m.id == id)) [
    | inl hit ↦
        let miss : (m.id == x) ≡ false = ground (arith, eq_iff m.id id, eq_iff m.id x) in
        rw (hit, miss) (find-changed_other x ms other)
    | inr out ↦ elim (Bool-cases (m.id == x)) [
      | inl hit ↦ rw (out, hit) refl
      | inr miss ↦ rw (out, miss) (find-changed_other x ms other)
    ]
  ]

  module _ (w w' : World) (m : Menu) (there : Menus.menu_by_id w id ≡ some m)
      (after : w'.menus ≡ changed w.menus) where
    other_parents : (x : String) → x ≢ id → Menus.parent_of w' x ≡ Menus.parent_of w x
    other_parents x other =
        ap (λ ms. Menus.nonempty (Option.bind (find (λ n. n.id == x) ms) (λ n. n.parent_id))) after
        ∙ ap (λ o. Menus.nonempty (Option.bind o (λ n. n.parent_id)))
            (find-changed_other x w.menus other)

    own_parent :
        Menus.parent_of w' id ≡ Menus.nonempty (Menus.apply_field dto.parent_id m.parent_id)
    unfolding mathlib.Core.Option.bind
    own_parent =
        ap (λ ms. Menus.nonempty (Option.bind (find (λ n. n.id == id) ms) (λ n. n.parent_id))) after
        ∙ ap (λ o. Menus.nonempty (Option.bind o (λ n. n.parent_id)))
            (find-changed_same w.menus
              ∙ ap (λ o. Option.map (Operations.apply_update dto actor) o) there)

    old_parent : Menus.parent_of w id ≡ Menus.nonempty m.parent_id
    unfolding mathlib.Core.Option.bind
    old_parent = ap (λ o. Menus.nonempty (Option.bind o (λ n. n.parent_id))) there

    kept :
        (field : Menus.Field String)
        → dto.parent_id ≡ field
        → ((p : String) → field ≡ Menus.given p → IsAbove w id (Menus.nonempty (some p)) → ⊥)
        → IsForest w
        → IsForest w'
    kept Menus.absent e free forest x =
        same_parents w w'
          (λ y. elim (Bool-cases (y == id)) [
            | inl same ↦
                ap (Menus.parent_of w') ((eq_iff y id).0 same)
                ∙ own_parent
                ∙ ap (λ f. Menus.nonempty (Menus.apply_field f m.parent_id)) e
                ∙ sym old_parent
                ∙ sym (ap (Menus.parent_of w) ((eq_iff y id).0 same))
            | inr other ↦ other_parents y (ground (arith, eq_iff y id))
          ])
          (forest x)
    kept Menus.null e free forest x =
        regrown w w' id none other_parents
          (own_parent ∙ ap (λ f. Menus.nonempty (Menus.apply_field f m.parent_id)) e)
          (λ h. IsAbove-root w id none refl h) at_root (forest x)
    kept (Menus.given p) e free forest x =
        regrown w w' id (Menus.nonempty (some p)) other_parents
          (own_parent ∙ ap (λ f. Menus.nonempty (Menus.apply_field f m.parent_id)) e) (free p refl)
          (from (truthy p)) (forest x)
      where
        from : (b : Bool) → Ends w (if b then some p else none)
        from true = forest p
        from false = at_root

-- The checks on the new parent only read, and let through no parent below the menu.
Reads-ensure_parent :
    (p module_id : String)
    → Moves (λ (s s' : World). s' ≡ s) (Menus.ensure_parent_in_module p module_id)
unfolding Menus.ensure_parent_in_module
Reads-ensure_parent p module_id = search moves_rules depth 12

given-eq : {p q : String} → ◌≡◌ {A = Menus.Field String} (Menus.given p) (Menus.given q) → p ≡ q
given-eq h = cc

check_new_parent_ok :
    (rounds : ℕ) (id module_id : String) (field : Menus.Field String) (w : World) {u : Unit {0}}
    {v : World}
    → run (Operations.check_new_parent rounds id field module_id) w ≡ (ok u, v)
    → (v ≡ w) × ((p : String) → field ≡ Menus.given p → IsAbove w id (Menus.nonempty (some p)) → ⊥)
unfolding Menus.assert_no_cycle
check_new_parent_ok rounds id module_id Menus.absent w e = (sym (ap (λ r. r.1) e), λ p h. cc)
check_new_parent_ok rounds id module_id Menus.null w e = (sym (ap (λ r. r.1) e), λ p h. cc)
check_new_parent_ok rounds id module_id (Menus.given p) w e =
    let (_, v1, climbed, e2) = run-bind_ok (Menus.assert_no_cycle rounds id p) _ w e in
    let (free, same) = climb_ok rounds id (Menus.nonempty (some p)) w climbed in
    (
      ap (λ r. r.1) (sym e2) ∙ run-reads (Reads-ensure_parent p module_id) v1 ∙ same,
      λ q h. subst (λ r. IsAbove w id (Menus.nonempty (some r)) → ⊥) (given-eq h) free,
    )

Reads-plan_if :
    (net : Network) (url target : Option String) (methods : List String)
    → Moves (λ (s s' : World). s' ≡ s) (Operations.plan_if net url target methods)
unfolding Menus.build_proxy_plan
Reads-plan_if net url none methods = search moves_rules
Reads-plan_if net none (some t) methods = search moves_rules
Reads-plan_if net (some u) (some t) methods = search moves_rules depth 12

-- The transaction of the update: the row that was there, and the menus afterwards.
changed_rows :
    (pf : Platform) (id actor : String) (dto : Menus.UpdateMenuDto)
    (existing : Option (ExternalServiceRoute × ExternalService))
    (plan : Option Menus.ProxyRoutePlan) (w w' : World) (r : Menu)
    → run (Operations.update_rows pf id dto existing plan actor) w ≡ (ok r, w')
    → (m : Menu) × (Menus.menu_by_id w id ≡ some m) × (w'.menus ≡ changed id actor dto w.menus)
changed_rows pf id actor dto existing plan w w' r e =
    let (menu, found, e1) =
      run-some_or_ok _ (Option.map (Operations.apply_update dto actor) (Menus.menu_by_id w id)) _ _
        e in
    let (m, there, _) = (Option.map-eq-some_iff _ _).0 found in
    (
      m,
      there,
      ap (λ x. x.1.menus) (sym e1)
          ∙ run-same
              (Moves-bind (Same-change_route pf id dto menu.name existing plan actor)
                (λ _. of_ret menu))
              _,
    )

-- If the table of menus has no cycles, an update of a menu that succeeds and runs alone leaves it
-- without cycles, whatever parent, route and number of rounds are given.
pub update-IsForest :
    (pf : Platform) (net : Network) (rounds : ℕ) (id : String) (dto : Menus.UpdateMenuDto)
    (actor : String) (w w' : World) (r : Menu)
    → IsForest w
    → run (Operations.update pf net rounds id dto actor) w ≡ (ok r, w')
    → IsForest w'
unfolding Operations.update
update-IsForest pf net rounds id dto actor w w' r forest e =
    let (current, found, e1) = run-some_or_ok _ (Menus.active_menu w id) _ w e in
    let next_module = or_else dto.module_id current.module_id in
    let (b2, e2) = run-guard_ok (module_is_active w next_module) _ _ w e1 in
    let (_, v, checked, e3) =
      run-bind_ok (Operations.check_new_parent rounds id dto.parent_id next_module) _ w e2 in
    let (same, free) = check_new_parent_ok rounds id next_module dto.parent_id w checked in
    let (plan, x, planned, e4) =
      run-bind_ok
        (Operations.plan_if net (Menus.apply_field dto.url current.url)
          (Operations.sets_route dto.target_url) dto.methods)
        _ v e3 in
    let stays : x ≡ w =
      ap (λ y. y.1) (sym planned)
      ∙ run-reads
          (Reads-plan_if net (Menus.apply_field dto.url current.url)
            (Operations.sets_route dto.target_url) dto.methods)
          v
      ∙ same in
    let existing = Routes.with_service v (Routes.route_by_menu v id) in
    let body = run-transaction_ok (Operations.update_rows pf id dto existing plan actor) x e4 in
    let (m, there, after) = changed_rows pf id actor dto existing plan x w' r body in
    kept id actor dto w w' m (subst (λ y. Menus.menu_by_id y id ≡ some m) stays there)
      (after ∙ ap (λ y. changed id actor dto y.menus) stays) dto.parent_id refl free forest
