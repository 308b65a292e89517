-- ===== src/Prelude/Sorting.antt =====
-- A stable sort by a test of which of two elements has to stand first.
use Prim.Native.Nat.{ℕ, suc, ◌≤◌}
use mathlib.Core.Path.{◌≡◌, refl, ap, ◌∙◌}
use mathlib.Core.Logic.{inl, inr}
use mathlib.Core.Bool.{Bool}
use mathlib.Core.List.{List, [], ◌∷◌, Perm}
use mathlib.Core.List.Perm
use native.Mathlib.Omega.{arith}
use master_gateway_auth.Prelude.Tests.{if◌then◌else◌, ltb, Bool-cases}
use master_gateway_auth.Prelude.Lists.{length, All, All-imp}

module _ {A : Type 0} (before : A → A → Bool) where
  abbrev pub insert_by : A → List A → List A
  insert_by x [] = x ∷ []
  insert_by x (y ∷ ys) = let rest = insert_by x ys in if before y x then y ∷ rest else x ∷ y ∷ ys

  -- `orderBy`, `Array.sort`: `before a b` says that a has to stand before b.
  abbrev pub sort_by : List A → List A
  sort_by [] = []
  sort_by (x ∷ xs) = insert_by x (sort_by xs)

  Perm-insert_by : (x : A) (xs : List A) → Perm (insert_by x xs) (x ∷ xs)
  Perm-insert_by x [] = Perm.refl (x ∷ [])
  Perm-insert_by x (y ∷ ys) = elim (Bool-cases (before y x)) [
    | inl later ↦ rw later (Perm.trans (Perm.cons y (Perm-insert_by x ys)) (Perm.swap x y ys))
    | inr first ↦ rw first (Perm.refl (x ∷ y ∷ ys))
  ]

  pub Perm-sort_by : (xs : List A) → Perm (sort_by xs) xs
  Perm-sort_by [] = Perm.refl []
  Perm-sort_by (x ∷ xs) = Perm.trans (Perm-insert_by x (sort_by xs)) (Perm.cons x (Perm-sort_by xs))

  length-insert_by : (x : A) (xs : List A) → length (insert_by x xs) ≡ suc (length xs)
  length-insert_by x [] = refl
  length-insert_by x (y ∷ ys) = elim (Bool-cases (before y x)) [
    | inl later ↦ rw later (ap suc (length-insert_by x ys))
    | inr first ↦ rw first refl
  ]

  pub length-sort_by : (xs : List A) → length (sort_by xs) ≡ length xs
  length-sort_by [] = refl
  length-sort_by (x ∷ xs) = length-insert_by x (sort_by xs) ∙ ap suc (length-sort_by xs)

module _ {A : Type 0} (P : A → Type 0) (before : A → A → Bool) where
  All-insert_by : (x : A) (xs : List A) → P x → All P xs → All P (insert_by before x xs)
  All-insert_by x [] p h = (p, tt)
  All-insert_by x (y ∷ ys) p (q, h) = elim (Bool-cases (before y x)) [
    | inl later ↦ rw later (q, All-insert_by x ys p h)
    | inr first ↦ rw first (p, (q, h))
  ]

  pub All-sort_by : (xs : List A) → All P xs → All P (sort_by before xs)
  All-sort_by [] h = tt
  All-sort_by (x ∷ xs) (p, h) = All-insert_by x (sort_by before xs) p (All-sort_by xs h)

module _ {A : Type 0} (key : A → ℕ) where
  -- Each element's key is at least that of every element after it.
  abbrev pub IsDescending : List A → Type 0
  IsDescending [] = Unit
  IsDescending (x ∷ xs) = All (λ y. key y ≤ key x) xs × IsDescending xs

  -- The greater key first.
  abbrev pub greater : A → A → Bool
  greater a b = ltb (key b) (key a)

  insert_by-IsDescending :
      (x : A) (xs : List A) → IsDescending xs → IsDescending (insert_by greater x xs)
  insert_by-IsDescending x [] h = (tt, tt)
  insert_by-IsDescending x (y ∷ ys) (top, h) = elim (Bool-cases (greater y x)) [
    | inl later ↦ rw later (
      All-insert_by (λ z. key z ≤ key y) greater x ys (ground arith) top,
      insert_by-IsDescending x ys h,
    )
    | inr first ↦
        let above : key y ≤ key x = ground arith in
        rw first (
          (above, All-imp (λ z. key z ≤ key y) (λ z. key z ≤ key x) (λ z l. omega arith) ys top),
          (top, h),
        )
  ]

  pub sort_by-IsDescending : (xs : List A) → IsDescending (sort_by greater xs)
  sort_by-IsDescending [] = tt
  sort_by-IsDescending (x ∷ xs) =
      insert_by-IsDescending x (sort_by greater xs) (sort_by-IsDescending xs)
