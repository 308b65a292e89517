-- ===== src/Prog/Moves.antt =====
-- What each step of a program does to the state, as a relation between the state before and after.
use master_gateway_auth.Prelude.{Bool, true, false, Option, none, some, if◌then◌else◌}
use master_gateway_auth.Prog.{
  Prog, ret, raise, atomic, Failure, Result, ok, err, guard, some_or, lift, ◌>>=◌, catch, query,
}
use master_gateway_auth.Prog.Keeps.{Keeps}

pub data Moves {S A : Type 0} (R : S → S → Type 0) : Prog S A → Type 0 where
  of_ret : (a : A) → Moves R (ret a)
  of_raise : (e : Failure) → Moves R (raise e)
  of_atomic :
      {f : S → S} {k : S → Prog S A}
      → ((s : S) → R s (f s))
      → ((s : S) → Moves R (k s))
      → Moves R (atomic f k)

module _ {S : Type 0} {R : S → S → Type 0} where
  pub Moves-bind :
      {A B : Type 0} {m : Prog S A} {g : A → Prog S B}
      → Moves R m
      → ((a : A) → Moves R (g a))
      → Moves R (m >>= g)
  Moves-bind (of_ret a) mg = mg a
  Moves-bind (of_raise e) mg = of_raise e
  Moves-bind (of_atomic does next) mg = of_atomic does (λ s. Moves-bind (next s) mg)

  pub Moves-catch : {A : Type 0} {m h : Prog S A} → Moves R m → Moves R h → Moves R (catch m h)
  Moves-catch (of_ret a) mh = of_ret a
  Moves-catch (of_raise e) mh = mh
  Moves-catch (of_atomic does next) mh = of_atomic does (λ s. Moves-catch (next s) mh)

  pub Moves-if :
      {A : Type 0} (b : Bool) {p q : Prog S A}
      → Moves R p
      → Moves R q
      → Moves R (if b then p else q)
  Moves-if true mp mq = mp
  Moves-if false mp mq = mq

  pub Moves-guard : (b : Bool) (e : Failure) → Moves R (guard b e)
  Moves-guard true e = of_ret tt
  Moves-guard false e = of_raise e

  pub Moves-some_or : {A : Type 0} (e : Failure) (o : Option A) → Moves R (some_or e o)
  Moves-some_or e none = of_raise e
  Moves-some_or e (some a) = of_ret a

  pub Moves-lift : {A : Type 0} (r : Result A) → Moves R (lift r)
  Moves-lift (ok a) = of_ret a
  Moves-lift (err e) = of_raise e

  -- A property that the relation hands on is an invariant of the program.
  pub Moves-Keeps :
      {A : Type 0} {I : S → Type 0} {m : Prog S A}
      → ((s s' : S) → R s s' → I s → I s')
      → Moves R m
      → Keeps I m
  Moves-Keeps kept (of_ret a) = Keeps.of_ret a
  Moves-Keeps kept (of_raise e) = Keeps.of_raise e
  Moves-Keeps kept (of_atomic does next) =
      Keeps.of_atomic (λ s i. kept s _ (does s) i) (λ s i. Moves-Keeps kept (next s))

  module _ (idle : (s : S) → R s s) where
    pub Moves-query : {A : Type 0} (g : S → A) → Moves R (query g)
    Moves-query g = of_atomic idle (λ s. of_ret (g s))

-- A rule for each way to build a program.
pub ruleset moves_rules = (
  of_ret, of_raise, of_atomic, Moves-bind, Moves-catch, Moves-if, Moves-guard, Moves-some_or,
  Moves-lift,
)
