-- ===== src/Prog/Pool.antt =====
-- Requests that take turns: any number of programs over one state, in any order of their steps.
use master_gateway_auth.Prelude.{ℕ, zero, suc, List, [], ◌∷◌, Option, some}
use master_gateway_auth.Prog.{Prog, ret, raise, atomic}

-- What the scheduler chooses: the program that makes its next step, or a pause.
pub data Event : Type 0 where
  turn : ℕ → Event
  pause : ℕ → Event

module _ {S A : Type 0} where
  abbrev pub step_prog : Prog S A → S → Prog S A
  step_prog (ret a) s = ret a
  step_prog (raise e) s = raise e
  step_prog (atomic f k) s = k s

  abbrev pub step_state : Prog S A → S → S
  step_state (ret a) s = s
  step_state (raise e) s = s
  step_state (atomic f k) s = f s

  -- A turn of a program that is not there does nothing.
  abbrev pub turn_progs : ℕ → List (Prog S A) → S → List (Prog S A)
  turn_progs n [] s = []
  turn_progs zero (p ∷ ps) s = step_prog p s ∷ ps
  turn_progs (suc n) (p ∷ ps) s = p ∷ turn_progs n ps s

  abbrev pub turn_state : ℕ → List (Prog S A) → S → S
  turn_state n [] s = s
  turn_state zero (p ∷ ps) s = step_state p s
  turn_state (suc n) (p ∷ ps) s = turn_state n ps s

module _ {S A : Type 0} (wait : ℕ → S → S) where
  -- The programs and the state after the events, in their order.
  unfoldable pub interleave : List Event → List (Prog S A) → S → List (Prog S A) × S
  interleave [] ps s = (ps, s)
  interleave (turn n ∷ es) ps s = interleave es (turn_progs n ps s) (turn_state n ps s)
  interleave (pause n ∷ es) ps s = interleave es ps (wait n s)

module _ {S A : Type 0} where
  -- How many programs have ended with a value.
  abbrev pub won : Prog S (Option A) → ℕ
  won (ret (some a)) = 1
  won p = 0
