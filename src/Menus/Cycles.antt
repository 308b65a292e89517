-- ===== src/Menus/Cycles.antt =====
-- menus.service.ts: the check against cycles in the tree of menus, and what it protects.
use master_gateway_auth.Prelude.{
  ℕ, zero, suc, ◌+◌, ◌≤◌, String, Bool, true, false, Option, none, some, ◌≡◌, ◌≢◌, refl, ◌∙◌, subst,
  ◌⊎◌, inl, inr, arith, ◌==◌, eq_iff, Bool-cases, truthy, if◌then◌else◌,
}
use master_gateway_auth.Prog.{Result, ok, err, run, bad_request}
use master_gateway_auth.Prog.Runs.{run-if_true, run-if_false}
use master_gateway_auth.Db.{World}
use master_gateway_auth.Menus

-- The way up from a menu ends at a root.
pub data Ends (w : World) : Option String → Type 0 where
  at_root : Ends w none
  up : {p : String} → Ends w (Menus.parent_of w p) → Ends w (some p)

-- The menu lies on the way up.
pub data IsAbove (w : World) (id : String) : Option String → Type 0 where
  here : IsAbove w id (some id)
  higher : {p : String} → IsAbove w id (Menus.parent_of w p) → IsAbove w id (some p)

-- The table of menus has no cycles.
abbrev pub IsForest : World → Type 0
IsForest w = (id : String) → Ends w (some id)

-- From so many rounds on, the loop gives one answer: it fails exactly if the menu lies on the way up.
pub record Decides (w : World) (id : String) (start : Option String) : Type 0 where
  pub enough : ℕ
  pub answer : Result (Unit {0})
  pub settled : (n : ℕ) → enough ≤ n → run (Menus.climb n id start) w ≡ (answer, w)
  pub verdict :
      ((answer ≡ ok tt) × (IsAbove w id start → ⊥))
      ⊎ ((answer ≡ err (bad_request "La jerarquia de menu no puede ser ciclica"))
          × IsAbove w id start)

pub IsAbove-step :
    (w : World) (id p : String) (start : Option String)
    → start ≡ some p
    → id ≢ p
    → IsAbove w id start
    → IsAbove w id (Menus.parent_of w p)
IsAbove-step w id p start e other here = absurd (other (some-eq e))
  where
    some-eq : {a b : String} → some a ≡ some b → a ≡ b
    some-eq h = cc
IsAbove-step w id p start e other (higher {p = q} rest) =
    subst (λ r. IsAbove w id (Menus.parent_of w r)) (some-eq e) rest
  where
    some-eq : {a b : String} → some a ≡ some b → a ≡ b
    some-eq h = cc

pub IsAbove-root :
    (w : World) (id : String) (start : Option String) → start ≡ none → IsAbove w id start → ⊥
IsAbove-root w id start e here = cc
IsAbove-root w id start e (higher {p = q} rest) = cc

climb-Decides :
    (w : World) (id : String) (start : Option String) → Ends w start → Decides w id start
unfolding Menus.climb
climb-Decides w id start at_root = record {
  enough = 0;
  answer = ok tt;
  settled = λ n le. none_left n;
  verdict = inl (refl, IsAbove-root w id none refl);
}
  where
    none_left : (n : ℕ) → run (Menus.climb n id none) w ≡ (ok tt, w)
    none_left zero = refl
    none_left (suc n) = refl
climb-Decides w id start (up {p} rest) = elim (Bool-cases (p == id)) [
  | inl same ↦ record {
    enough = 1;
    answer = err (bad_request "La jerarquia de menu no puede ser ciclica");
    settled = λ n le. caught same n le;
    verdict = inr (refl, subst (λ i. IsAbove w i (some p)) ((eq_iff p id).0 same) here);
  }
  | inr other ↦
      let above = climb-Decides w id (Menus.parent_of w p) rest in
      let apart : id ≢ p = ground (arith, eq_iff p id) in
      record {
        enough = suc above.enough;
        answer = above.answer;
        settled = λ n le. passed other above n le;
        verdict = elim above.verdict [
          | inl (good, free) ↦ inl (good, λ h. free (IsAbove-step w id p (some p) refl apart h))
          | inr (bad, hit) ↦ inr (bad, higher hit)
        ];
      }
]
  where
    caught :
        (p == id) ≡ true
        → (n : ℕ) → 1 ≤ n
        → run (Menus.climb n id (some p)) w
          ≡ (err (bad_request "La jerarquia de menu no puede ser ciclica"), w)
    caught same zero le = absurd (omega (arith, le))
    caught same (suc n) le = run-if_true (p == id) _ _ w same

    passed :
        (p == id) ≡ false
        → (above : Decides w id (Menus.parent_of w p)) → (n : ℕ) → suc above.enough ≤ n
        → run (Menus.climb n id (some p)) w ≡ (above.answer, w)
    passed other above zero le = absurd (omega (arith, le))
    passed other above (suc n) le =
        run-if_false (p == id) _ _ w other ∙ above.settled n (omega (arith, le))

-- In a table without cycles the check of a new parent ends, from some number of rounds on with the
-- same answer and without a change: it refuses the parent exactly if the menu is the parent itself
-- or lies on the way up from it. A parent that is the empty text counts as none.
pub assert_no_cycle-Decides :
    (w : World) (id parent_id : String)
    → IsForest w
    → (enough : ℕ) × (answer : Result (Unit {0})) × ((m : ℕ)
        → run (Menus.assert_no_cycle (enough + m) id parent_id) w ≡ (answer, w))
      × (((answer ≡ ok tt) × (IsAbove w id (Menus.nonempty (some parent_id)) → ⊥))
          ⊎ ((answer ≡ err (bad_request "La jerarquia de menu no puede ser ciclica"))
              × IsAbove w id (Menus.nonempty (some parent_id))))
unfolding Menus.assert_no_cycle
assert_no_cycle-Decides w id parent_id forest =
    let d = climb-Decides w id (Menus.nonempty (some parent_id)) (start (truthy parent_id)) in
    (d.enough, d.answer, (λ m. d.settled (d.enough + m) (omega arith)), d.verdict)
  where
    start : (b : Bool) → Ends w (if b then some parent_id else none)
    start true = forest parent_id
    start false = at_root
