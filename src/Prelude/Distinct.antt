-- ===== src/Prelude/Distinct.antt =====
-- Texts without repetitions: as many different ones as a list has room for are all of the list.
use Prim.Native.Nat.{suc, ◌≤◌}
use Prim.Native.String.{String}
use mathlib.Core.Path.{◌≡◌, refl, sym, subst}
use mathlib.Core.Logic.{◌≢◌, inl, inr}
use mathlib.Core.Bool.{Bool, true, false}
use mathlib.Core.List.{List, [], ◌∷◌, map}
use native.Mathlib.Omega.{arith}
use text.Mathlib.Text.{◌==◌}
use text.Mathlib.TextEquality.{eq_iff}
use master_gateway_auth.Prelude.Tests.{if◌then◌else◌, Bool-cases}
use master_gateway_auth.Prelude.Lists.{length, select, count_where, includes}

-- The list without the first occurrence of a text.
abbrev remove : String → List String → List String
remove a [] = []
remove a (y ∷ ys) = let rest = remove a ys in if a == y then ys else y ∷ rest

length-remove :
    (a : String) (ys : List String) → includes a ys ≡ true → length ys ≡ suc (length (remove a ys))
length-remove a [] h = cc
length-remove a (y ∷ ys) h = elim (Bool-cases (a == y)) [
  | inl here ↦ rw here refl
  | inr there ↦ rw there (omega (arith, length-remove a ys (rw there at h)))
]

includes-remove :
    (x a : String) (ys : List String)
    → (x == a) ≡ false
    → includes x ys ≡ true
    → includes x (remove a ys) ≡ true
includes-remove x a [] other h = cc
includes-remove x a (y ∷ ys) other h = elim (Bool-cases (a == y)) [
  | inl here ↦
      let same : (x == y) ≡ false = subst (λ z. (x == z) ≡ false) ((eq_iff a y).0 here) other in
      rw here (rw same at h)
  | inr there ↦ elim (Bool-cases (x == y)) [
    | inl hit ↦ rw (there, hit) refl
    | inr miss ↦ rw (there, miss) (includes-remove x a ys other (rw miss at h))
  ]
]

includes-counted :
    (x : String) (ys : List String) → includes x ys ≡ true → count_where (λ y. y == x) ys ≢ 0
includes-counted x [] h = cc
includes-counted x (y ∷ ys) h = elim (Bool-cases (y == x)) [
  | inl hit ↦ rw hit (omega arith)
  | inr miss ↦ elim (Bool-cases (x == y)) [
    | inl same ↦ ground (arith, eq_iff x y, eq_iff y x)
    | inr other ↦ rw miss (includes-counted x ys (rw other at h))
  ]
]

-- No text stands twice in the list.
abbrev pub IsDistinct : List String → Type 0
IsDistinct xs = (x : String) → count_where (λ y. y == x) xs ≤ 1

IsDistinct-tail : (a : String) (xs : List String) → IsDistinct (a ∷ xs) → IsDistinct xs
IsDistinct-tail a xs d x = elim (Bool-cases (a == x)) [
  | inl hit ↦ omega (arith, rw hit at (d x))
  | inr miss ↦ rw miss at (d x)
]

-- What stands after the first text is another one.
IsDistinct-other :
    (a x : String) (xs : List String)
    → IsDistinct (a ∷ xs)
    → includes x xs ≡ true
    → (x == a) ≡ false
IsDistinct-other a x xs d h = elim (Bool-cases (x == a)) [
  | inr other ↦ other
  | inl same ↦
      let back : (a == x) ≡ true = (eq_iff a x).1 (sym ((eq_iff x a).0 same)) in
      absurd (includes-counted x xs h (omega (arith, rw back at (d x))))
]

-- Different texts of a list that is no longer than they are: each text of the list is among them.
pub IsDistinct-covers :
    (xs ys : List String)
    → IsDistinct xs
    → ((x : String) → includes x xs ≡ true → includes x ys ≡ true)
    → length ys ≤ length xs
    → (x : String) → includes x ys ≡ true
    → includes x xs ≡ true
IsDistinct-covers [] [] d sub short x h = cc
IsDistinct-covers [] (y ∷ ys) d sub short x h = absurd (omega arith)
IsDistinct-covers (a ∷ xs) ys d sub short x h =
    let here : includes a ys ≡ true = sub a (ground (arith, eq_iff a a)) in
    let shorter = length-remove a ys here in
    let rest =
      IsDistinct-covers xs (remove a ys) (IsDistinct-tail a xs d)
        (λ z m. includes-remove z a ys (IsDistinct-other a z xs d m) (sub z (ground arith)))
        (omega arith) in
    elim (Bool-cases (x == a)) [
      | inl hit ↦ rw hit refl
      | inr miss ↦ ground (arith, rest x (includes-remove x a ys miss h))
    ]

-- The keys of some rows of a table are counted no more often than the rows.
pub count-keys {ℓ} :
    {A : Type ℓ} (key : A → String) (q : A → Bool) (x : String) (rs : List A)
    → count_where (λ y. y == x) (map key (select q rs)) ≤ count_where (λ r. key r == x) rs
count-keys key q x [] = omega arith
count-keys key q x (r ∷ rs) =
    let ih = count-keys key q x rs in
    elim (Bool-cases (q r)) [
      | inl kept ↦ elim (Bool-cases (key r == x)) [
        | inl hit ↦ rw (kept, hit) (omega arith)
        | inr miss ↦ rw (kept, miss) ih
      ]
      | inr left ↦ elim (Bool-cases (key r == x)) [
        | inl hit ↦ rw (left, hit) (omega arith)
        | inr miss ↦ rw (left, miss) ih
      ]
    ]
