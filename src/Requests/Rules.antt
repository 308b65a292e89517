-- ===== src/Requests/Rules.antt =====
-- Steps that leave the stored refresh tokens alone: a rule for each way to build a handler.
use master_gateway_auth.Prelude.{
  ℕ, String, Bool, true, false, Option, none, some, ◌≡◌, refl, sym, subst, ◌∙◌, if◌then◌else◌,
}
use master_gateway_auth.Prog.{Prog, Result, ok, err, run, after, transaction}
use master_gateway_auth.Prog.Moves.{Moves, of_ret, of_raise, of_atomic, Moves-lift, moves_rules}
use master_gateway_auth.Db.{World}
use master_gateway_auth.Auth.Life.{Evolves, EvolvesIn, same}

abbrev pub SameTokens : World → World → Type 0
SameTokens w w' = w'.refresh_tokens ≡ w.refresh_tokens

pub keeps_if :
    (b : Bool) (v v' w : World)
    → SameTokens w v
    → SameTokens w v'
    → SameTokens w (if b then v else v')
keeps_if true v v' w e e' = e
keeps_if false v v' w e e' = e'

module _ {A : Type 0} where
  run-same : {m : Prog World A} → Moves SameTokens m → (w : World) → SameTokens w (run m w).1
  run-same (of_ret a) w = refl
  run-same (of_raise e) w = refl
  run-same (of_atomic does next) w = run-same (next w) _ ∙ does w

  after-same : (x : Result A × World) (w : World) → SameTokens w x.1 → SameTokens w (after x w)
  after-same (ok a, v) w h = h
  after-same (err e, v) w h = refl

  pub Moves-transaction : {m : Prog World A} → Moves SameTokens m → Moves SameTokens (transaction m)
  Moves-transaction {m} h =
      of_atomic (λ w. after-same (run m w) w (run-same h w)) (λ w. Moves-lift (run m w).0)

  pub SameTokens-EvolvesIn : {m : Prog World A} → Moves SameTokens m → Moves EvolvesIn m
  SameTokens-EvolvesIn (of_ret a) = of_ret a
  SameTokens-EvolvesIn (of_raise e) = of_raise e
  SameTokens-EvolvesIn (of_atomic {f} does next) =
      of_atomic (λ w. subst (λ ts. Evolves w.refresh_tokens ts) (sym (does w)) same)
        (λ w. SameTokens-EvolvesIn (next w))

pub ruleset token_rules = (refl, keeps_if, moves_rules, Moves-transaction)
