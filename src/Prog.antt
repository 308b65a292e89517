-- ===== src/Prog.antt =====
-- Asynchronous handlers. Between two `await`s a handler runs alone; at an `await` other requests
-- may run. A program is thus a tree of atomic steps over the shared state: a step reads the state
-- to choose what the handler does next, and changes it. The same program runs alone (`run`), or
-- takes turns with others (Prog/Pool).
pub mod Keeps
pub mod Moves
pub mod Runs
pub mod Outcomes
pub mod Pool
pub mod Contest
pub mod Schedules
use master_gateway_auth.Prelude.{String, Bool, true, false, Option, none, some}

-- The exceptions that the handlers throw: those of @nestjs/common with their message, the error
-- codes of the database client, and a plain `Error`.
pub data Failure : Type 0 where
  unauthorized forbidden not_found conflict bad_request : String → Failure
  method_not_allowed bad_gateway gateway_timeout : String → Failure
  database : String → Failure
  thrown : String → Failure

pub data Result (A : Type 0) : Type 0 where
  ok : A → Result A
  err : Failure → Result A

pub data Prog (S A : Type 0) : Type 0 where
  ret : A → Prog S A
  raise : Failure → Prog S A
  atomic : (S → S) → (S → Prog S A) → Prog S A

module _ {S A : Type 0} where
  -- The program alone: its result, and the state that it leaves (also when it fails).
  abbrev pub run : Prog S A → S → Result A × S
  run (ret a) s = (ok a, s)
  run (raise e) s = (err e, s)
  run (atomic f k) s = run (k s) (f s)

  abbrev pub lift : Result A → Prog S A
  lift (ok a) = ret a
  lift (err e) = raise e

  -- A read of the state.
  abbrev pub query : (S → A) → Prog S A
  query g = atomic (λ s. s) (λ s. ret (g s))

  -- `try { … } catch { … }`
  abbrev pub catch : Prog S A → Prog S A → Prog S A
  catch (ret a) h = ret a
  catch (raise e) h = h
  catch (atomic f k) h = atomic f (λ s. catch (k s) h)

  abbrev pub some_or : Failure → Option A → Prog S A
  some_or e none = raise e
  some_or e (some a) = ret a

  abbrev pub after : Result A × S → S → S
  after (ok a, s') s = s'
  after (err e, s') s = s

  -- `$transaction`: one step, which leaves the state alone if the body fails
  abbrev pub transaction : Prog S A → Prog S A
  transaction p = atomic (λ s. after (run p s) s) (λ s. lift (run p s).0)

abbrev pub modify : {S : Type 0} → (S → S) → Prog S (Unit {0})
modify f = atomic f (λ s. ret tt)

abbrev pub guard : {S : Type 0} → Bool → Failure → Prog S (Unit {0})
guard true e = ret tt
guard false e = raise e

module _ {S A B : Type 0} where
  infixl 5 ◌>>=◌
  abbrev pub ◌>>=◌ : Prog S A → (A → Prog S B) → Prog S B
  ret a >>= g = g a
  raise e >>= g = raise e
  atomic f k >>= g = atomic f (λ s. k s >>= g)

infixl 5 ◌>>◌
abbrev pub ◌>>◌ : {S B : Type 0} → Prog S (Unit {0}) → Prog S B → Prog S B
m >> p = m >>= λ _. p
