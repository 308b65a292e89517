-- ===== src/Prelude/Rows.antt =====
-- Rows with a unique key, and updates that pass by the rows of interest.
use Prim.Native.Nat.{◌≤◌}
use mathlib.Core.Path.{◌≡◌, refl, ◌∙◌, ap, sym, subst}
use mathlib.Core.Logic.{◌≢◌, inl, inr}
use mathlib.Core.Bool.{Bool, true, false, not, ◌&&◌, false≢true}
use mathlib.Core.Option.{none, some}
use mathlib.Core.List.{List, [], ◌∷◌, ◌++◌}
use native.Mathlib.Omega.{arith}
use master_gateway_auth.Prelude.Tests.{Bool-cases}
use master_gateway_auth.Prelude.Lists.{find, select, count_where, any, update_where, Within}

module _ {ℓ} {A : Type ℓ} (k : A → Bool) where
  pub none_selected :
      (q : A → Bool) (xs : List A) → count_where k xs ≡ 0 → any k (select q xs) ≡ false
  none_selected q [] h = refl
  none_selected q (x ∷ xs) h = elim (Bool-cases (k x)) [
    | inl hit ↦ absurd (omega (arith, rw hit at h))
    | inr miss ↦ elim (Bool-cases (q x)) [
      | inl yes' ↦ rw (yes', miss) (none_selected q xs (rw miss at h))
      | inr no' ↦ rw no' (none_selected q xs (rw miss at h))
    ]
  ]

  -- A row that is found has the key.
  pub find_counted :
      (a : A → Bool) (xs : List A) {y : A}
      → find (λ x. k x && a x) xs ≡ some y
      → count_where k xs ≢ 0
  find_counted a [] e = cc
  find_counted a (x ∷ xs) e = elim (Bool-cases (k x)) [
    | inl hit ↦ rw hit (omega arith)
    | inr miss ↦ rw miss (find_counted a xs (rw miss at e))
  ]

  -- If the key is unique and the row that is found fails the test, no row with the key passes it.
  pub unique_found :
      (a q : A → Bool) (xs : List A) {y : A}
      → count_where k xs ≤ 1
      → find (λ x. k x && a x) xs ≡ some y
      → q y ≡ false
      → any k (select q xs) ≡ false
  unique_found a q [] h e f = refl
  unique_found a q (x ∷ xs) {y} h e f = elim (Bool-cases (k x)) [
    | inr miss ↦ elim (Bool-cases (q x)) [
      | inl yes' ↦ rw (yes', miss) (unique_found a q xs (rw miss at h) (rw miss at e) f)
      | inr no' ↦ rw no' (unique_found a q xs (rw miss at h) (rw miss at e) f)
    ]
    | inl hit ↦
        let alone : count_where k xs ≡ 0 = omega (arith, rw hit at h) in
        elim (Bool-cases (a x)) [
          | inl active ↦
              let e' : some x ≡ some y = rw (hit, active) at e in
              let same : x ≡ y = cc in
              let out : q x ≡ false = subst (λ z. q z ≡ false) (sym same) f in
              rw out (none_selected q xs alone)
          | inr inactive ↦ absurd (find_counted a xs (rw (hit, inactive) at e) alone)
        ]
  ]

module _ {ℓ} {A : Type ℓ} (p q : A → Bool) (f : A → A) where
  pub none_both : (xs : List A) → ((x : A) → p x ≡ true → q x ≡ false) → any p (select q xs) ≡ false
  none_both [] out = refl
  none_both (x ∷ xs) out = elim (Bool-cases (q x)) [
    | inr no' ↦ rw no' (none_both xs out)
    | inl yes' ↦ elim (Bool-cases (p x)) [
      | inl hit ↦ absurd (false≢true (sym (out x hit) ∙ yes'))
      | inr miss ↦ rw (yes', miss) (none_both xs out)
    ]
  ]

  -- An update of rows that fail the test, before and after, is not seen through the test.
  pub select-update_where :
      (xs : List A)
      → ((x : A) → p x ≡ true → q x ≡ false → q (f x) ≡ false)
      → any p (select q xs) ≡ false
      → select q (update_where p f xs) ≡ select q xs
  select-update_where [] same out = refl
  select-update_where (x ∷ xs) same out = elim (Bool-cases (q x)) [
    | inr no' ↦ elim (Bool-cases (p x)) [
      | inl hit ↦ rw (hit, no', same x hit no') (select-update_where xs same (rw no' at out))
      | inr miss ↦ rw (miss, no') (select-update_where xs same (rw no' at out))
    ]
    | inl yes' ↦ elim (Bool-cases (p x)) [
      | inl hit ↦ absurd (false≢true (sym (rw (yes', hit) at out)))
      | inr miss ↦
          rw (miss, yes') (ap (λ ys. x ∷ ys) (select-update_where xs same (rw (yes', miss) at out)))
    ]
  ]

module _ {ℓ} {A : Type ℓ} (q : A → Bool) where
  pub select-concat : (xs : List A) (y : A) → q y ≡ false → select q (xs ++ y ∷ []) ≡ select q xs
  select-concat [] y h = rw h
  select-concat (x ∷ xs) y h = elim (Bool-cases (q x)) [
    | inl yes' ↦ rw yes' (ap (λ ys. x ∷ ys) (select-concat xs y h))
    | inr no' ↦ rw no' (select-concat xs y h)
  ]

module _ {ℓ} {A : Type ℓ} (p : A → Bool) where
  -- An update after which no row that it changed passes its test any more.
  pub any-update_none :
      (f : A → A) (xs : List A)
      → ((x : A) → p x ≡ true → p (f x) ≡ false)
      → any p (update_where p f xs) ≡ false
  any-update_none f [] h = refl
  any-update_none f (x ∷ xs) h = elim (Bool-cases (p x)) [
    | inl hit ↦ rw (hit, h x hit) (any-update_none f xs h)
    | inr miss ↦ rw (miss, miss) (any-update_none f xs h)
  ]

  -- Where no row passes the test, a row that is found by another does not pass it.
  pub find-none_any :
      (q : A → Bool) (xs : List A) {x : A} → any p xs ≡ false → find q xs ≡ some x → p x ≡ false
  find-none_any q [] h e = cc
  find-none_any q (y ∷ xs) {x} h e = elim (Bool-cases (q y)) [
    | inl hit ↦ let same : y ≡ x = ground arith in subst (λ z. p z ≡ false) same (ground arith)
    | inr miss ↦ find-none_any q xs (ground arith) (rw miss at e)
  ]

  pub find_of_none :
      (q : A → Bool) (xs : List A)
      → any p xs ≡ false
      → ((x : A) → q x ≡ true → p x ≡ true)
      → find q xs ≡ none
  find_of_none q [] h sub = refl
  find_of_none q (y ∷ xs) h sub = elim (Bool-cases (q y)) [
    | inl hit ↦ absurd (false≢true (sym (rw (sub y hit) at h)))
    | inr miss ↦ rw miss (find_of_none q xs (ground arith) sub)
  ]

some-ne-none {ℓ} : {A : Type ℓ} {x : A} → some x ≢ none
some-ne-none e = cc

module _ {ℓ} {A : Type ℓ} (p : A → Bool) where
  pub find-holds : (xs : List A) {x : A} → find p xs ≡ some x → p x ≡ true
  find-holds [] e = cc
  find-holds (y ∷ xs) {x} e = elim (Bool-cases (p y)) [
    | inl hit ↦ let same : y ≡ x = ground arith in subst (λ z. p z ≡ true) same hit
    | inr miss ↦ find-holds xs (rw miss at e)
  ]

  -- A new row at the end is what is found, where none was.
  pub find-concat :
      (xs : List A) (y : A) → find p xs ≡ none → p y ≡ true → find p (xs ++ y ∷ []) ≡ some y
  find-concat [] y h e = rw e refl
  find-concat (x ∷ xs) y h e = elim (Bool-cases (p x)) [
    | inl hit ↦ absurd (some-ne-none (rw hit at h))
    | inr miss ↦ rw miss (find-concat xs y (rw miss at h) e)
  ]

-- The update of rows with a key is not seen through the rows without it.
pub others_kept {ℓ} :
    {A : Type ℓ} (k p : A → Bool) (f : A → A) (xs : List A)
    → ((x : A) → p x ≡ true → k x ≡ true)
    → ((x : A) → k (f x) ≡ k x)
    → select (λ x. not (k x)) (update_where p f xs) ≡ select (λ x. not (k x)) xs
others_kept k p f xs sub same =
    select-update_where p (λ x. not (k x)) f xs (λ x hit out. ap not (same x) ∙ out)
      (none_both p (λ x. not (k x)) f xs (λ x hit. ap not (sub x hit)))

-- A row that is found is a row of the table.
pub find-Within {ℓ} :
    {A : Type ℓ} (p : A → Bool) (xs : List A) {x : A} → find p xs ≡ some x → Within x xs
find-Within p [] e = cc
find-Within p (y ∷ xs) {x} e = elim (Bool-cases (p y)) [
  | inl hit ↦ let same : y ≡ x = ground arith in ([], xs, ap (λ z. z ∷ xs) same)
  | inr miss ↦
      let (before, after, split) = find-Within p xs (rw miss at e) in
      (y ∷ before, after, ap (◌∷◌ y) split)
]
