-- ===== src/Prelude/Entries.antt =====
-- Objects with texts as keys (`Record<string, …>`, `Headers`), as lists of entries.
use Prim.Native.String.{String}
use mathlib.Core.Path.{◌≡◌, refl}
use mathlib.Core.Logic.{inl, inr}
use mathlib.Core.Option
use mathlib.Core.Option.{Option, none, some}
use mathlib.Core.List.{List, [], ◌∷◌}
use native.Mathlib.Omega.{arith}
use text.Mathlib.Text.{◌==◌}
use text.Mathlib.TextEquality.{eq_iff}
use master_gateway_auth.Prelude.Tests.{if◌then◌else◌, Bool-cases}

module _ {ℓ} {A : Type ℓ} where
  -- `o[key]`, `headers.get(key)`
  abbrev pub entry : String → List (String × A) → Option A
  entry key [] = none
  entry key (e ∷ es) = let rest = entry key es in if key == e.0 then some e.1 else rest

  -- `o[key] = value`, `headers.set(key, value)`
  abbrev pub set_entry : String → A → List (String × A) → List (String × A)
  set_entry key value [] = (key, value) ∷ []
  set_entry key value (e ∷ es) =
      let rest = set_entry key value es in if key == e.0 then (key, value) ∷ es else e ∷ rest

  pub entry-set_entry :
      (k key : String) (value : A) (es : List (String × A))
      → entry k (set_entry key value es) ≡ (if k == key then some value else entry k es)
  entry-set_entry k key value [] = refl
  entry-set_entry k key value (e ∷ es) = elim (Bool-cases (key == e.0)) [
    | inl here ↦
        let same : key ≡ e.0 = (eq_iff key e.0).0 here in
        ground (arith, eq_iff k key, eq_iff k e.0, eq_iff key e.0)
    | inr there ↦
        ground (arith, entry-set_entry k key value es, eq_iff k key, eq_iff k e.0, eq_iff key e.0)
  ]

  -- The first of two that is there.
  abbrev pub first_some : Option A → Option A → Option A
  first_some none o = o
  first_some (some a) o = some a

  pub first_some-none : (o : Option A) → first_some o none ≡ o
  first_some-none none = refl
  first_some-none (some a) = refl

  -- A change of the object that a key refers to, if there is one.
  abbrev pub update_entry : String → (A → A) → List (String × A) → List (String × A)
  update_entry key f [] = []
  update_entry key f (e ∷ es) =
      let rest = update_entry key f es in if key == e.0 then (e.0, f e.1) ∷ es else e ∷ rest

  pub entry-update_entry :
      (k key : String) (f : A → A) (es : List (String × A))
      → entry k (update_entry key f es)
        ≡ (if k == key then Option.map f (entry k es) else entry k es)
  entry-update_entry k key f [] = elim (Bool-cases (k == key)) [
    | inl same ↦ rw same refl
    | inr other ↦ rw other refl
  ]
  entry-update_entry k key f (e ∷ es) = elim (Bool-cases (key == e.0)) [
    | inl here ↦
        let same : key ≡ e.0 = (eq_iff key e.0).0 here in
        ground (arith, eq_iff k key, eq_iff k e.0, eq_iff key e.0)
    | inr there ↦
        ground (arith, entry-update_entry k key f es, eq_iff k key, eq_iff k e.0, eq_iff key e.0)
  ]
