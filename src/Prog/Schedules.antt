-- ===== src/Prog/Schedules.antt =====
-- Any number of programs that take turns: an invariant of their steps and of pauses holds after
-- every schedule.
use master_gateway_auth.Prelude.{ℕ, zero, suc, List, [], ◌∷◌, All}
use master_gateway_auth.Prog.{Prog}
use master_gateway_auth.Prog.Keeps.{Keeps}
use master_gateway_auth.Prog.Pool.{
  Event, turn, pause, step_prog, step_state, turn_progs, turn_state, interleave,
}

module _ {S A : Type 0} (I : S → Type 0) where
  step-Keeps :
      {p : Prog S A} → Keeps I p → (s : S) → I s → I (step_state p s) × Keeps I (step_prog p s)
  step-Keeps (Keeps.of_ret a) s i = (i, Keeps.of_ret a)
  step-Keeps (Keeps.of_raise e) s i = (i, Keeps.of_raise e)
  step-Keeps (Keeps.of_atomic kept next) s i = (kept s i, next s i)

  turn-Keeps :
      (n : ℕ) (ps : List (Prog S A)) (s : S)
      → All (Keeps I) ps
      → I s
      → I (turn_state n ps s) × All (Keeps I) (turn_progs n ps s)
  turn-Keeps n [] s h i = (i, tt)
  turn-Keeps zero (p ∷ ps) s (k, h) i = let (i', k') = step-Keeps k s i in (i', (k', h))
  turn-Keeps (suc n) (p ∷ ps) s (k, h) i = let (i', h') = turn-Keeps n ps s h i in (i', (k, h'))

  pub interleave-Keeps :
      (wait : ℕ → S → S)
      → ((n : ℕ) (s : S) → I s → I (wait n s))
      → (es : List Event) (ps : List (Prog S A)) (s : S) → All (Keeps I) ps
      → I s
      → I (interleave wait es ps s).1
  unfolding interleave
  interleave-Keeps wait waits [] ps s h i = i
  interleave-Keeps wait waits (turn n ∷ es) ps s h i =
      let (i', h') = turn-Keeps n ps s h i in
      interleave-Keeps wait waits es (turn_progs n ps s) (turn_state n ps s) h' i'
  interleave-Keeps wait waits (pause n ∷ es) ps s h i =
      interleave-Keeps wait waits es ps (wait n s) h (waits n s i)
