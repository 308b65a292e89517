-- ===== src/Prelude/Values.antt =====
-- What holds of the values of all entries of an object.
use Prim.Native.String.{String}
use mathlib.Core.Path.{◌≡◌, refl, ◌∙◌, sym, subst}
use mathlib.Core.Bool.{Bool}
use mathlib.Core.Logic.{inl, inr}
use mathlib.Core.Option.{Option, none, some}
use mathlib.Core.List.{List, [], ◌∷◌, map}
use native.Mathlib.Omega.{arith}
use text.Mathlib.Text.{◌==◌}
use text.Mathlib.TextEquality.{eq_iff}
use master_gateway_auth.Prelude.Tests.{Bool-cases, if◌then◌else◌}
use master_gateway_auth.Prelude.Lists.{All, select}
use master_gateway_auth.Prelude.Entries.{
  entry, set_entry, update_entry, entry-set_entry, entry-update_entry,
}

module _ {ℓ κ} {A : Type ℓ} (P : A → Type κ) where
  abbrev pub EachValue : List (String × A) → Type κ
  EachValue es = All (λ e. P e.1) es

  pub EachValue-set_entry :
      (key : String) (a : A) (es : List (String × A))
      → P a
      → EachValue es
      → EachValue (set_entry key a es)
  EachValue-set_entry key a [] p h = (p, tt)
  EachValue-set_entry key a (e ∷ es) p (q, h) = elim (Bool-cases (key == e.0)) [
    | inl here ↦ rw here (p, h)
    | inr there ↦ rw there (q, EachValue-set_entry key a es p h)
  ]

  pub EachValue-update_entry :
      (key : String) (f : A → A) (es : List (String × A))
      → ((a : A) → P a → P (f a))
      → EachValue es
      → EachValue (update_entry key f es)
  EachValue-update_entry key f [] kept h = tt
  EachValue-update_entry key f (e ∷ es) kept (q, h) = elim (Bool-cases (key == e.0)) [
    | inl here ↦ rw here (kept e.1 q, h)
    | inr there ↦ rw there (q, EachValue-update_entry key f es kept h)
  ]

  pub EachValue-entry :
      (key : String) (es : List (String × A)) {a : A} → EachValue es → entry key es ≡ some a → P a
  EachValue-entry key [] h e = cc
  EachValue-entry key (x ∷ es) {a} (q, h) e = elim (Bool-cases (key == x.0)) [
    | inl here ↦ let same : x.1 ≡ a = ground arith in subst P same q
    | inr there ↦ EachValue-entry key es h (ground arith)
  ]

  pub EachValue-map : (es : List (String × A)) → EachValue es → All P (map (λ e. e.1) es)
  EachValue-map [] h = tt
  EachValue-map (e ∷ es) (p, h) = (p, EachValue-map es h)

  pub All-select : (q : A → Bool) (xs : List A) → All P xs → All P (select q xs)
  All-select q [] h = tt
  All-select q (x ∷ xs) (p, h) = elim (Bool-cases (q x)) [
    | inl kept ↦ rw kept (p, All-select q xs h)
    | inr left ↦ rw left (All-select q xs h)
  ]

-- Objects in which no key stands twice, and the entries of a filtered one.
module _ {ℓ} {A : Type ℓ} where
  abbrev pub Apart : List (String × A) → Type ℓ
  Apart [] = Unit
  Apart (e ∷ es) = (entry e.0 es ≡ none) × Apart es

  pub Apart-set_entry :
      (key : String) (a : A) (es : List (String × A)) → Apart es → Apart (set_entry key a es)
  Apart-set_entry key a [] h = (refl, tt)
  Apart-set_entry key a (e ∷ es) (alone, h) = elim (Bool-cases (key == e.0)) [
    | inl here ↦
        let same : key ≡ e.0 = (eq_iff key e.0).0 here in
        rw here (subst (λ k. entry k es ≡ none) (sym same) alone, h)
    | inr there ↦ rw there (
      ground (arith, entry-set_entry e.0 key a es, eq_iff key e.0, eq_iff e.0 key),
      Apart-set_entry key a es h,
    )
  ]

  pub Apart-update_entry :
      (key : String) (f : A → A) (es : List (String × A)) → Apart es → Apart (update_entry key f es)
  Apart-update_entry key f [] h = tt
  Apart-update_entry key f (e ∷ es) (alone, h) = elim (Bool-cases (key == e.0)) [
    | inl here ↦ rw here (alone, h)
    | inr there ↦ rw there (
      ground (arith, entry-update_entry e.0 key f es, eq_iff key e.0, eq_iff e.0 key),
      Apart-update_entry key f es h,
    )
  ]

  abbrev pub keep : (A → Bool) → Option A → Option A
  keep p none = none
  keep p (some a) = if p a then some a else none

  pub entry-select :
      (k : String) (p : A → Bool) (es : List (String × A))
      → Apart es
      → entry k (select (λ e. p e.1) es) ≡ keep p (entry k es)
  entry-select k p [] h = refl
  entry-select k p (e ∷ es) (alone, h) = elim (Bool-cases (k == e.0)) [
    | inr there ↦ elim (Bool-cases (p e.1)) [
      | inl kept ↦ rw (there, kept, there) (entry-select k p es h)
      | inr left ↦ rw (there, left) (entry-select k p es h)
    ]
    | inl here ↦ elim (Bool-cases (p e.1)) [
      | inl kept ↦ rw (here, kept, here) refl
      | inr left ↦
          let same : k ≡ e.0 = (eq_iff k e.0).0 here in
          let none' : entry k es ≡ none = subst (λ x. entry x es ≡ none) (sym same) alone in
          rw (here, left) (entry-select k p es h ∙ rw none' refl)
    ]
  ]
