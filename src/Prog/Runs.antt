-- ===== src/Prog/Runs.antt =====
-- Running a program that is composed of parts.
use master_gateway_auth.Prelude.{
  Bool, true, false, not, ◌≡◌, refl, ◌∙◌, if◌then◌else◌, Option, none, some,
}
use master_gateway_auth.Prog.{
  Prog, ret, raise, atomic, Failure, Result, ok, err, run, guard, some_or, transaction, lift, after,
  ◌>>=◌,
}
use master_gateway_auth.Prog.Moves.{Moves, of_ret, of_raise, of_atomic}

module _ {S A B : Type 0} where
  abbrev pub continue : Result A × S → (A → Prog S B) → Result B × S
  continue (ok a, s) g = run (g a) s
  continue (err e, s) g = (err e, s)

  pub run-bind : (m : Prog S A) (g : A → Prog S B) (s : S) → run (m >>= g) s ≡ continue (run m s) g
  run-bind (ret a) g s = refl
  run-bind (raise e) g s = refl
  run-bind (atomic f k) g s = run-bind (k s) g (f s)

  -- Inversion of a run that succeeds: its first part did.
  pub run-bind_ok :
      (m : Prog S A) (g : A → Prog S B) (s : S) {b : B} {s' : S}
      → run (m >>= g) s ≡ (ok b, s')
      → (a : A) × (t : S) × (run m s ≡ (ok a, t)) × (run (g a) t ≡ (ok b, s'))
  run-bind_ok (ret a) g s e = (a, s, refl, e)
  run-bind_ok (raise x) g s e = cc
  run-bind_ok (atomic f k) g s e = run-bind_ok (k s) g (f s) e

module _ {S A : Type 0} where
  pub run-if_true :
      (b : Bool) (p q : Prog S A) (s : S) → b ≡ true → run (if b then p else q) s ≡ run p s
  run-if_true true p q s e = refl
  run-if_true false p q s e = cc

  pub run-if_false :
      (b : Bool) (p q : Prog S A) (s : S) → b ≡ false → run (if b then p else q) s ≡ run q s
  run-if_false false p q s e = refl
  run-if_false true p q s e = cc

  -- A run that succeeds did not take the branch that fails.
  pub run-if_ok :
      (b : Bool) (p q : Prog S A) (s : S) {a : A} {s' : S} {x : Failure} {t : S}
      → run p s ≡ (err x, t)
      → run (if b then p else q) s ≡ (ok a, s')
      → (b ≡ false) × (run q s ≡ (ok a, s'))
  run-if_ok true p q s fails e = cc
  run-if_ok false p q s fails e = (refl, e)

module _ {S A B : Type 0} where
  -- A program that ends by an exception fails, by that one or an earlier one.
  pub run_ends :
      (m : Prog S A) (e : Failure) (s : S)
      → (x : Failure) × (t : S) × (run (◌>>=◌ {B = B} m (λ _. raise e)) s ≡ (err x, t))
  run_ends (ret a) e s = (e, s, refl)
  run_ends (raise x) e s = (x, s, refl)
  run_ends (atomic f k) e s = run_ends (k s) e (f s)

module _ {S A : Type 0} where
  pub run-guard_ok :
      (b : Bool) (e : Failure) (p : Prog S A) (s : S) {a : A} {s' : S}
      → run (guard b e >>= λ _. p) s ≡ (ok a, s')
      → (b ≡ true) × (run p s ≡ (ok a, s'))
  run-guard_ok true e p s h = (refl, h)
  run-guard_ok false e p s h = cc

module _ {S A : Type 0} where
  -- A transaction that succeeds is its body.
  pub run-transaction_ok :
      (p : Prog S A) (s : S) {a : A} {s' : S}
      → run (transaction p) s ≡ (ok a, s')
      → run p s ≡ (ok a, s')
  run-transaction_ok p s {a} {s'} = body (run p s)
    where
      body : (r : Result A × S) → run (lift r.0) (after r s) ≡ (ok a, s') → r ≡ (ok a, s')
      body (ok b, t) e = e
      body (err x, t) e = cc

module _ {S A B : Type 0} where
  pub run-some_or_ok :
      (e : Failure) (o : Option A) (k : A → Prog S B) (s : S) {b : B} {s' : S}
      → run (some_or e o >>= k) s ≡ (ok b, s')
      → (a : A) × (o ≡ some a) × (run (k a) s ≡ (ok b, s'))
  run-some_or_ok e none k s h = cc
  run-some_or_ok e (some a) k s h = (a, refl, h)

pub run-guard_last :
    {S : Type 0} (b : Bool) (e : Failure) (s : S) {a : Unit {0}} {s' : S}
    → run (guard b e) s ≡ (ok a, s')
    → (b ≡ true) × (s' ≡ s)
run-guard_last true e s h = (refl, cc)
run-guard_last false e s h = cc

-- A program that only reads leaves the state as it was.
pub run-reads : {S A : Type 0} {m : Prog S A} → Moves (λ s s'. s' ≡ s) m → (s : S) → (run m s).1 ≡ s
run-reads (of_ret a) s = refl
run-reads (of_raise e) s = refl
run-reads (of_atomic does next) s = run-reads (next s) _ ∙ does s

module _ {S A : Type 0} where
  -- An insertion that a clash forbids, inside a run that succeeds: there was no clash.
  pub run-insert_ok :
      (c : S → Bool) (f : S → S) (e : Failure) (k : Unit {0} → Prog S A) (s : S) {a : A} {s' : S}
      → run (atomic (λ t. if c t then t else f t) (λ t. guard (not (c t)) e) >>= k) s ≡ (ok a, s')
      → (c s ≡ false) × (run (k tt) (f s) ≡ (ok a, s'))
  run-insert_ok c f e k s {a} {s'} h = free (c s) h
    where
      free :
          (b : Bool)
          → run (guard (not b) e >>= k) (if b then s else f s) ≡ (ok a, s')
          → (b ≡ false) × (run (k tt) (f s) ≡ (ok a, s'))
      free true h = cc
      free false h = (refl, h)
