-- ===== src/Prelude/Lists.antt =====
-- Tables as lists of rows: search, selection, counting and updates by a Boolean test.
use Prim.Native.Nat.{ℕ, zero, suc, ◌+◌, ◌≤◌}
use native.Mathlib.Nat.{zero-add, suc-add}
use Prim.Native.String.{String}
use mathlib.Core.Path.{◌≡◌, refl, ap, subst}
use mathlib.Core.Logic.{◌≢◌, inl, inr}
use mathlib.Core.Bool.{Bool, true, false, ◌&&◌, ◌||◌}
use mathlib.Core.Option.{Option, none, some}
use mathlib.Core.List.{List, [], ◌∷◌, ◌++◌}
use native.Mathlib.Omega.{arith}
use text.Mathlib.Text.{◌==◌}
use master_gateway_auth.Prelude.Tests.{if◌then◌else◌, Bool-cases}

module _ {ℓ} {A : Type ℓ} where
  abbrev pub length : List A → ℕ
  length [] = 0
  length (x ∷ xs) = suc (length xs)

  -- `findFirst`, `findUnique`, `Array.find`
  abbrev pub find : (A → Bool) → List A → Option A
  find p [] = none
  find p (x ∷ xs) = let rest = find p xs in if p x then some x else rest

  -- `findMany`, `Array.filter`
  abbrev pub select : (A → Bool) → List A → List A
  select p [] = []
  select p (x ∷ xs) = let rest = select p xs in if p x then x ∷ rest else rest

  -- `count`
  abbrev pub count_where : (A → Bool) → List A → ℕ
  count_where p [] = 0
  count_where p (x ∷ xs) = let rest = count_where p xs in if p x then suc rest else rest

  abbrev pub any : (A → Bool) → List A → Bool
  any p [] = false
  any p (x ∷ xs) = p x || any p xs

  abbrev pub all : (A → Bool) → List A → Bool
  all p [] = true
  all p (x ∷ xs) = p x && all p xs

  -- `updateMany`: every row that passes the test is changed
  abbrev pub update_where : (A → Bool) → (A → A) → List A → List A
  update_where p f [] = []
  update_where p f (x ∷ xs) = (if p x then f x else x) ∷ update_where p f xs

module _ {ℓ} {A : Type ℓ} (q : A → Bool) where
  pub any-append : (xs ys : List A) → any q xs ≡ true → any q (xs ++ ys) ≡ true
  any-append [] ys h = cc
  any-append (x ∷ xs) ys h = ground (arith, any-append xs ys)

  -- An update that does not touch what `q` reads.
  pub any-update_where :
      (p : A → Bool) (f : A → A) (xs : List A)
      → ((x : A) → q (f x) ≡ q x)
      → any q (update_where p f xs) ≡ any q xs
  any-update_where p f [] h = refl
  any-update_where p f (x ∷ xs) h = elim (Bool-cases (p x)) [
    | inl hit ↦ rw (hit, h x, any-update_where p f xs h)
    | inr miss ↦ rw (miss, any-update_where p f xs h)
  ]

pub all-select {ℓ} : {A : Type ℓ} (p : A → Bool) (xs : List A) → all p (select p xs) ≡ true
all-select p [] = refl
all-select p (x ∷ xs) = elim (Bool-cases (p x)) [
  | inl hit ↦ rw (hit, hit) (all-select p xs)
  | inr miss ↦ rw miss (all-select p xs)
]

module _ {ℓ} {A : Type ℓ} (p q : A → Bool) where
  -- What is counted is there.
  pub any_of_count :
      (xs : List A) → ((x : A) → p x ≡ true → q x ≡ true) → count_where p xs ≢ 0 → any q xs ≡ true
  any_of_count [] h c = absurd (c refl)
  any_of_count (x ∷ xs) h c = elim (Bool-cases (p x)) [
    | inl hit ↦ rw (h x hit)
    | inr miss ↦ ground (arith, any_of_count xs h)
  ]

module _ {ℓ κ} {A : Type ℓ} (P : A → Type κ) where
  abbrev pub All : List A → Type κ
  All [] = Unit
  All (x ∷ xs) = P x × All xs

  pub All-append : (xs ys : List A) → All xs → All ys → All (xs ++ ys)
  All-append [] ys h k = k
  All-append (x ∷ xs) ys (p, h) k = (p, All-append xs ys h k)

  -- What every row has, a row that is found has, beside its test.
  pub All-find :
      (p : A → Bool) (xs : List A) {x : A} → All xs → find p xs ≡ some x → P x × (p x ≡ true)
  All-find p [] h e = cc
  All-find p (y ∷ xs) {x} (q, h) e = elim (Bool-cases (p y)) [
    | inl hit ↦
        let same : y ≡ x = ground arith in (subst P same q, subst (λ z. p z ≡ true) same hit)
    | inr miss ↦ All-find p xs h (ground arith)
  ]

-- An update changes the rows that pass the test; the rest keep what they had.
module _ {ℓ κ λ'} {A : Type ℓ} (P : A → Type κ) (Q : A → Type λ') where
  pub All-update_where :
      (p : A → Bool) (f : A → A) (xs : List A)
      → ((x : A) → P x → p x ≡ true → Q (f x))
      → ((x : A) → P x → p x ≡ false → Q x)
      → All P xs
      → All Q (update_where p f xs)
  All-update_where p f [] hit miss h = tt
  All-update_where p f (x ∷ xs) hit miss (q, h) =
      (row (p x) refl, All-update_where p f xs hit miss h)
    where
      row : (b : Bool) → p x ≡ b → Q (if b then f x else x)
      row true e = hit x q e
      row false e = miss x q e

-- `Array.includes`, `Set.has` over texts
abbrev pub includes : String → List String → Bool
includes s [] = false
includes s (x ∷ xs) = s == x || includes s xs

module _ {ℓ κ λ'} {A : Type ℓ} (P : A → Type κ) (Q : A → Type λ') where
  pub All-imp : ((x : A) → P x → Q x) → (xs : List A) → All P xs → All Q xs
  All-imp f [] h = tt
  All-imp f (x ∷ xs) (p, h) = (f x p, All-imp f xs h)

module _ {ℓ} {A : Type ℓ} (q : A → Bool) where
  pub any-append_last : (xs ys : List A) → any q ys ≡ true → any q (xs ++ ys) ≡ true
  any-append_last [] ys h = h
  any-append_last (x ∷ xs) ys h = ground (arith, any-append_last xs ys)

module _ {ℓ} {A : Type ℓ} where
  -- `slice(0, n)`, `slice(n)`
  abbrev pub take : ℕ → List A → List A
  take zero xs = []
  take (suc n) [] = []
  take (suc n) (x ∷ xs) = x ∷ take n xs

  abbrev pub drop : ℕ → List A → List A
  drop zero xs = xs
  drop (suc n) [] = []
  drop (suc n) (x ∷ xs) = drop n xs

  -- A prefix is no longer than what was asked for, and is the list where that is short enough.
  pub take_bounded :
      (xs : List A) (n : ℕ) → (length (take n xs) ≤ n) × (length xs ≤ n → take n xs ≡ xs)
  take_bounded [] zero = (omega arith, λ _. refl)
  take_bounded [] (suc n) = (omega arith, λ _. refl)
  take_bounded (x ∷ xs) zero = (omega arith, λ h. absurd (omega arith))
  take_bounded (x ∷ xs) (suc n) =
      let (short, whole) = take_bounded xs n in (omega arith, λ h. ap (◌∷◌ x) (whole (omega arith)))

  pub take-add : (m n : ℕ) (xs : List A) → take (m + n) xs ≡ take m xs ++ take n (drop m xs)
  take-add zero n xs = rw zero-add refl
  take-add (suc m) zero [] = rw (suc-add m zero) refl
  take-add (suc m) (suc n) [] = rw (suc-add m (suc n)) refl
  take-add (suc m) n (x ∷ xs) = rw (suc-add m n) (ap (◌∷◌ x) (take-add m n xs))

-- The element stands in the list, at some place.
abbrev pub Within {ℓ} : {A : Type ℓ} → A → List A → Type ℓ
Within {A} x xs = (before : List A) × (after : List A) × (xs ≡ before ++ x ∷ after)
