-- ===== src/Prog/Contest.antt =====
-- A resource that at most one of several interleaved programs can win.
use master_gateway_auth.Prelude.{
  ℕ, zero, suc, ◌+◌, ◌≤◌, ◌≡◌, refl, inl, inr, Bool, true, false, List, [], ◌∷◌, Option, none, some,
  arith, Bool-cases, All,
}
use master_gateway_auth.Prog.{Prog, ret, raise, atomic, Failure, ◌>>=◌}
use mathlib.Core.Bool.{false≢true}
use master_gateway_auth.Prog.Keeps.{Keeps}
use master_gateway_auth.Prog.Moves.{Moves, of_ret, of_raise, of_atomic}
use master_gateway_auth.Prog.Pool.{
  Event, turn, pause, step_prog, step_state, turn_progs, turn_state, interleave, won,
}

module _ {S A : Type 0} where
  -- The programs that have ended with a value.
  abbrev pub winners : List (Prog S (Option A)) → ℕ
  winners [] = 0
  winners (p ∷ ps) = won p + winners ps

-- `H` holds of every state; in a state with `Spent` the resource is gone, for good.
module _ {S : Type 0} (H Spent : S → Type 0) where
  abbrev pub Gone : S → Type 0
  Gone s = H s × Spent s

  -- A program that ends with a value only if one of its own steps spends the resource: the step
  -- whose test `t` holds.
  pub data Contender {A : Type 0} : Prog S (Option A) → Type 0 where
    lost : Contender (ret none)
    failed : (e : Failure) → Contender (raise e)
    moves :
        {f : S → S} {k : S → Prog S (Option A)} (t : S → Bool)
        → ((s : S) → H s → H (f s))
        → ((s : S) → H s → Spent s → Spent (f s))
        → ((s : S) → H s → t s ≡ false → Contender (k s))
        → ((s : S) → H s → t s ≡ true → (¬ Spent s) × Spent (f s) × Keeps Gone (k s))
        → Contender (atomic f k)

  module _ {A : Type 0} where
    -- One program has spent the resource, and the others have not.
    data OneWon : List (Prog S (Option A)) → Type 0 where
      here :
          {p : Prog S (Option A)} {ps : List (Prog S (Option A))}
          → Keeps Gone p
          → All Contender ps
          → OneWon (p ∷ ps)
      there :
          {p : Prog S (Option A)} {ps : List (Prog S (Option A))}
          → Contender p
          → OneWon ps
          → OneWon (p ∷ ps)

    data Fair (ps : List (Prog S (Option A))) (s : S) : Type 0 where
      open_to_all : H s → All Contender ps → Fair ps s
      decided : H s → Spent s → OneWon ps → Fair ps s

    winners-Contender : (ps : List (Prog S (Option A))) → All Contender ps → winners ps ≡ 0
    winners-Contender [] h = refl
    winners-Contender (p ∷ ps) (c, h) = omega (arith, zero_of p c, winners-Contender ps h)
      where
        zero_of : (q : Prog S (Option A)) → Contender q → won q ≡ 0
        zero_of (ret none) d = refl
        zero_of (ret (some a)) d = elim d [ ]
        zero_of (raise e) d = refl
        zero_of (atomic f k) d = refl

    won-le : (p : Prog S (Option A)) → won p ≤ 1
    won-le (ret (some a)) = omega arith
    won-le (ret none) = omega arith
    won-le (raise e) = omega arith
    won-le (atomic f k) = omega arith

    winners-OneWon : {ps : List (Prog S (Option A))} → OneWon ps → winners ps ≤ 1
    winners-OneWon (here {p} {ps} k h) = omega (arith, won-le p, winners-Contender ps h)
    winners-OneWon (there {p} {ps} c o) =
        omega (arith, winners-Contender (p ∷ []) (c, tt), winners-OneWon o)

    -- A step of a contender: it stays one, or it spends the resource.
    data Stepped (p : Prog S (Option A)) (s : S) : Type 0 where
      stays :
          H (step_state p s)
          → (Spent s → Spent (step_state p s))
          → Contender (step_prog p s)
          → Stepped p s
      spends :
          (¬ Spent s)
          → H (step_state p s)
          → Spent (step_state p s)
          → Keeps Gone (step_prog p s)
          → Stepped p s

    step : {p : Prog S (Option A)} → Contender p → (s : S) → H s → Stepped p s
    step lost s h = stays h (λ q. q) lost
    step (failed e) s h = stays h (λ q. q) (failed e)
    step (moves t kept still next win) s h = elim (Bool-cases (t s)) [
      | inl yes' ↦ let (fresh, spent, quiet) = win s h yes' in spends fresh (kept s h) spent quiet
      | inr no' ↦ stays (kept s h) (still s h) (next s h no')
    ]

    step-Keeps :
        {p : Prog S (Option A)}
        → Keeps Gone p
        → (s : S) → Gone s
        → Gone (step_state p s) × Keeps Gone (step_prog p s)
    step-Keeps (Keeps.of_ret a) s g = (g, Keeps.of_ret a)
    step-Keeps (Keeps.of_raise e) s g = (g, Keeps.of_raise e)
    step-Keeps (Keeps.of_atomic kept next) s g = (kept s g, next s g)

    -- One turn while nobody has won.
    data Turned (n : ℕ) (ps : List (Prog S (Option A))) (s : S) : Type 0 where
      still_open :
          H (turn_state n ps s)
          → (Spent s → Spent (turn_state n ps s))
          → All Contender (turn_progs n ps s)
          → Turned n ps s
      won_now :
          (¬ Spent s)
          → H (turn_state n ps s)
          → Spent (turn_state n ps s)
          → OneWon (turn_progs n ps s)
          → Turned n ps s

    turn_open :
        (n : ℕ) (ps : List (Prog S (Option A))) (s : S) → H s → All Contender ps → Turned n ps s
    turn_open n [] s h cs = still_open h (λ q. q) tt
    turn_open zero (p ∷ ps) s h (c, cs) = elim (step c s h) [
      | stays h' q c' ↦ still_open h' q (c', cs)
      | spends fresh h' spent quiet ↦ won_now fresh h' spent (here quiet cs)
    ]
    turn_open (suc n) (p ∷ ps) s h (c, cs) = elim (turn_open n ps s h cs) [
      | still_open h' q cs' ↦ still_open h' q (c, cs')
      | won_now fresh h' spent o ↦ won_now fresh h' spent (there c o)
    ]

    -- One turn after somebody has won.
    turn_decided :
        (n : ℕ) {ps : List (Prog S (Option A))} (s : S)
        → H s
        → Spent s
        → OneWon ps
        → Gone (turn_state n ps s) × OneWon (turn_progs n ps s)
    turn_decided zero s h q (here k cs) = let (g, k') = step-Keeps k s (h, q) in (g, here k' cs)
    turn_decided (suc n) s h q (here {p} {ps} k cs) = elim (turn_open n ps s h cs) [
      | still_open h' q' cs' ↦ ((h', q' q), here k cs')
      | won_now fresh h' spent o ↦ absurd (fresh q)
    ]
    turn_decided zero s h q (there c o) = elim (step c s h) [
      | stays h' q' c' ↦ ((h', q' q), there c' o)
      | spends fresh h' spent quiet ↦ absurd (fresh q)
    ]
    turn_decided (suc n) s h q (there c o) = let (g, o') = turn_decided n s h q o in (g, there c o')

    turn-Fair :
        (n : ℕ) (ps : List (Prog S (Option A))) (s : S)
        → Fair ps s
        → Fair (turn_progs n ps s) (turn_state n ps s)
    turn-Fair n ps s (open_to_all h cs) = elim (turn_open n ps s h cs) [
      | still_open h' q cs' ↦ open_to_all h' cs'
      | won_now fresh h' spent o ↦ decided h' spent o
    ]
    turn-Fair n ps s (decided h q o) = let (g, o') = turn_decided n s h q o in decided g.0 g.1 o'

    winners-Fair : {ps : List (Prog S (Option A))} {s : S} → Fair ps s → winners ps ≤ 1
    winners-Fair {ps} (open_to_all h cs) = omega (arith, winners-Contender ps cs)
    winners-Fair (decided h q o) = winners-OneWon o

  -- Steps that keep `H` and `Spent` bring no contender nearer to its end.
  module _ (R : S → S → Type 0) (kept : (s s' : S) → R s s' → H s → H s')
      (still : (s s' : S) → R s s' → H s → Spent s → Spent s') where
    pub Contender-bind :
        {A B : Type 0} {m : Prog S A} {g : A → Prog S (Option B)}
        → Moves R m
        → ((a : A) → Contender (g a))
        → Contender (m >>= g)
    Contender-bind (of_ret a) cg = cg a
    Contender-bind (of_raise e) cg = failed e
    Contender-bind (of_atomic does next) cg =
        moves (λ _. false) (λ s h. kept s _ (does s) h) (λ s h q. still s _ (does s) h q)
          (λ s h _. Contender-bind (next s) cg) (λ s h e. absurd (false≢true e))

    -- A program that ends by an exception wins nothing.
    pub Contender-ends :
        {A B C : Type 0} {m : Prog S A} (e : Failure) (g : B → Prog S (Option C))
        → Moves R m
        → Contender ((m >>= λ _. raise e) >>= g)
    Contender-ends e g (of_ret a) = failed e
    Contender-ends e g (of_raise e') = failed e'
    Contender-ends e g (of_atomic does next) =
        moves (λ _. false) (λ s h. kept s _ (does s) h) (λ s h q. still s _ (does s) h q)
          (λ s h _. Contender-ends e g (next s)) (λ s h e'. absurd (false≢true e'))

    pub Keeps-Moves : {A : Type 0} {m : Prog S A} → Moves R m → Keeps Gone m
    Keeps-Moves (of_ret a) = Keeps.of_ret a
    Keeps-Moves (of_raise e) = Keeps.of_raise e
    Keeps-Moves (of_atomic does next) =
        Keeps.of_atomic (λ s g. (kept s _ (does s) g.0, still s _ (does s) g.0 g.1))
          (λ s g. Keeps-Moves (next s))

  module _ {A : Type 0} (wait : ℕ → S → S) (wait_H : (n : ℕ) (s : S) → H s → H (wait n s))
      (wait_Spent : (n : ℕ) (s : S) → H s → Spent s → Spent (wait n s)) where
    interleave-Fair :
        (es : List Event) (ps : List (Prog S (Option A))) (s : S)
        → Fair ps s
        → Fair (interleave wait es ps s).0 (interleave wait es ps s).1
    unfolding interleave
    interleave-Fair [] ps s f = f
    interleave-Fair (turn n ∷ es) ps s f =
        interleave-Fair es (turn_progs n ps s) (turn_state n ps s) (turn-Fair n ps s f)
    interleave-Fair (pause n ∷ es) ps s (open_to_all h cs) =
        interleave-Fair es ps (wait n s) (open_to_all (wait_H n s h) cs)
    interleave-Fair (pause n ∷ es) ps s (decided h q o) =
        interleave-Fair es ps (wait n s) (decided (wait_H n s h) (wait_Spent n s h q) o)

    -- Whatever the order of the steps, at most one of the contenders ends with a value.
    pub winners-le-one :
        (es : List Event) (ps : List (Prog S (Option A))) (s : S)
        → H s
        → All Contender ps
        → winners (interleave wait es ps s).0 ≤ 1
    winners-le-one es ps s h cs = winners-Fair (interleave-Fair es ps s (open_to_all h cs))
