-- ===== src/Prog/Keeps.antt =====
-- Invariants that hold at every step of a program, so whatever runs between its steps.
use master_gateway_auth.Prelude.{Bool, true, false, if◌then◌else◌}
use master_gateway_auth.Prog.{Prog, ret, raise, atomic, Failure, run, ◌>>=◌, catch}

-- Each step of `p` keeps `I`. What the program reads comes from a state in which `I` holds, but
-- not from the state that its last step left.
pub data Keeps {S A : Type 0} (I : S → Type 0) : Prog S A → Type 0 where
  of_ret : (a : A) → Keeps I (ret a)
  of_raise : (e : Failure) → Keeps I (raise e)
  of_atomic :
      {f : S → S} {k : S → Prog S A}
      → ((s : S) → I s → I (f s))
      → ((s : S) → I s → Keeps I (k s))
      → Keeps I (atomic f k)

module _ {S : Type 0} {I : S → Type 0} where
  -- Alone, a program that keeps `I` leaves a state in which it holds.
  pub Keeps-run : {A : Type 0} {p : Prog S A} → Keeps I p → (s : S) → I s → I (run p s).1
  Keeps-run (of_ret a) s h = h
  Keeps-run (of_raise e) s h = h
  Keeps-run (of_atomic kept next) s h = Keeps-run (next s h) _ (kept s h)

  pub Keeps-bind :
      {A B : Type 0} {m : Prog S A} {g : A → Prog S B}
      → Keeps I m
      → ((a : A) → Keeps I (g a))
      → Keeps I (m >>= g)
  Keeps-bind (of_ret a) kg = kg a
  Keeps-bind (of_raise e) kg = of_raise e
  Keeps-bind (of_atomic kept next) kg = of_atomic kept (λ s h. Keeps-bind (next s h) kg)

  pub Keeps-catch : {A : Type 0} {m h : Prog S A} → Keeps I m → Keeps I h → Keeps I (catch m h)
  Keeps-catch (of_ret a) kh = of_ret a
  Keeps-catch (of_raise e) kh = kh
  Keeps-catch (of_atomic kept next) kh = of_atomic kept (λ s i. Keeps-catch (next s i) kh)

  pub Keeps-if :
      {A : Type 0} (b : Bool) {p q : Prog S A}
      → Keeps I p
      → Keeps I q
      → Keeps I (if b then p else q)
  Keeps-if true kp kq = kp
  Keeps-if false kp kq = kq
