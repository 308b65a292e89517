-- ===== src/Menus/Race.antt =====
-- menus.service.ts, `assertNoCycle`, where the way up neither ends nor comes to the menu.
use master_gateway_auth.Prelude.{
  ℕ, zero, suc, String, true, false, Option, none, some, ◌≡◌, ◌≢◌, refl, ◌∙◌, subst, sym, inl, inr,
  ◌⊎◌, ◌==◌, eq_iff, truthy, Bool-cases,
}
use master_gateway_auth.Prog.{err, run, thrown}
use master_gateway_auth.Prog.Runs.{run-if_false}
use master_gateway_auth.Db.{World}
use master_gateway_auth.Menus
use master_gateway_auth.Menus.Cycles.{Ends, at_root, up, IsAbove, here, higher}

climb-hangs :
    (w : World) (id : String) (n : ℕ) (start : Option String)
    → (Ends w start → ⊥)
    → (IsAbove w id start → ⊥)
    → run (Menus.climb n id start) w ≡ (err (thrown "out of rounds"), w)
unfolding Menus.climb
climb-hangs w id n none endless free = absurd (endless at_root)
climb-hangs w id zero (some p) endless free = refl
climb-hangs w id (suc n) (some p) endless free = elim (Bool-cases (p == id)) [
  | inl same ↦ absurd (free (subst (λ i. IsAbove w i (some p)) ((eq_iff p id).0 same) here))
  | inr other ↦
      run-if_false (p == id) _ _ w other
      ∙ climb-hangs w id n (Menus.parent_of w p) (λ e. endless (up e)) (λ a. free (higher a))
]

-- Two menus that are each other's parents.
pub record IsPair (w : World) (a b : String) : Type 0 where
  pub over_a : Menus.parent_of w a ≡ some b
  pub over_b : Menus.parent_of w b ≡ some a

module _ (w : World) (a b : String) (pair : IsPair w a b) where
  pair-endless : {o : Option String} → (o ≡ some a) ⊎ (o ≡ some b) → Ends w o → ⊥
  pair-endless (inl h) at_root = cc
  pair-endless (inr h) at_root = cc
  pair-endless (inl h) (up {p} rest) =
      let same : p ≡ a = cc in
      pair-endless (inr (subst (λ x. Menus.parent_of w x ≡ some b) (sym same) pair.over_a)) rest
  pair-endless (inr h) (up {p} rest) =
      let same : p ≡ b = cc in
      pair-endless (inl (subst (λ x. Menus.parent_of w x ≡ some a) (sym same) pair.over_b)) rest

  pair-free :
      (id : String) {o : Option String}
      → id ≢ a
      → id ≢ b
      → (o ≡ some a) ⊎ (o ≡ some b)
      → IsAbove w id o
      → ⊥
  pair-free id na nb (inl h) here = na cc
  pair-free id na nb (inr h) here = nb cc
  pair-free id na nb (inl h) (higher {p} rest) =
      let same : p ≡ a = cc in
      pair-free id na nb (inr (subst (λ x. Menus.parent_of w x ≡ some b) (sym same) pair.over_a))
        rest
  pair-free id na nb (inr h) (higher {p} rest) =
      let same : p ≡ b = cc in
      pair-free id na nb (inl (subst (λ x. Menus.parent_of w x ≡ some a) (sym same) pair.over_b))
        rest

-- Where two menus are each other's parents, the check of one of them as the new parent of any third menu
-- does not end: no number of rounds is enough.
pub pair-hangs :
    (w : World) (a b id : String) (rounds : ℕ)
    → IsPair w a b
    → truthy a ≡ true
    → (id == a) ≡ false
    → (id == b) ≡ false
    → run (Menus.assert_no_cycle rounds id a) w ≡ (err (thrown "out of rounds"), w)
unfolding Menus.assert_no_cycle
pair-hangs w a b id rounds pair said na nb =
    let start : Menus.nonempty (some a) ≡ some a = rw said refl in
    climb-hangs w id rounds (Menus.nonempty (some a)) (pair-endless w a b pair (inl start))
      (pair-free w a b pair id (apart a na) (apart b nb) (inl start))
  where
    apart : (x : String) → (id == x) ≡ false → id ≢ x
    apart x miss h = cc ((eq_iff id x).1 h)
