-- ===== src/Prog/Outcomes.antt =====
-- What is proved of the outcome of a run, part by part: its result and the state that it leaves.
use master_gateway_auth.Prelude.{Bool, true, false, Option, none, some, ◌≡◌, ◌≢◌, refl, sym, ap}
use master_gateway_auth.Prog.{Prog, Failure, Result, ok, err, run, guard, some_or, lift, ◌>>=◌}

pub err-ne-ok : {A : Type 0} {x : Failure} {a : A} → err x ≢ ok a
err-ne-ok e = cc

pub ok-eq : {A : Type 0} {a b : A} → ok a ≡ ok b → a ≡ b
ok-eq e = cc

pub outcome-eq :
    {S A : Type 0} {a b : A} {s t : S}
    → ◌≡◌ {A = Result A × S} (ok a, s) (ok b, t)
    → (b ≡ a) × (t ≡ s)
outcome-eq e = (ok-eq (ap (λ x. x.0) (sym e)), ap (λ x. x.1) (sym e))

module _ {S B : Type 0} (P : Result B × S → Type 0) where
  pub outcome-some_or :
      {A : Type 0} (e : Failure) (o : Option A) (k : A → Prog S B) (s : S)
      → P (err e, s)
      → ((a : A) → o ≡ some a → P (run (k a) s))
      → P (run (some_or e o >>= k) s)
  outcome-some_or e none k s fails goes = fails
  outcome-some_or e (some a) k s fails goes = goes a refl

  pub outcome-lift :
      {A : Type 0} (r : Result A) (k : A → Prog S B) (s : S)
      → ((e : Failure) → P (err e, s))
      → ((a : A) → r ≡ ok a → P (run (k a) s))
      → P (run (lift r >>= k) s)
  outcome-lift (ok a) k s fails goes = goes a refl
  outcome-lift (err e) k s fails goes = fails e

  pub outcome-guard :
      (b : Bool) (e : Failure) (p : Prog S B) (s : S)
      → P (err e, s)
      → (b ≡ true → P (run p s))
      → P (run (guard b e >>= λ _. p) s)
  outcome-guard true e p s fails goes = goes refl
  outcome-guard false e p s fails goes = fails

-- A part that passes is left out of the run.
module _ {S B : Type 0} where
  pub passes-some_or :
      {A : Type 0} (e : Failure) (o : Option A) (k : A → Prog S B) (s : S) {a : A}
      → o ≡ some a
      → run (some_or e o >>= k) s ≡ run (k a) s
  passes-some_or e none k s h = cc
  passes-some_or e (some b) k s {a} h = let same : b ≡ a = cc in ap (λ x. run (k x) s) same

  pub passes-guard :
      (b : Bool) (e : Failure) (p : Prog S B) (s : S)
      → b ≡ true
      → run (guard b e >>= λ _. p) s ≡ run p s
  passes-guard true e p s h = refl
  passes-guard false e p s h = cc
