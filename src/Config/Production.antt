-- ===== src/Config/Production.antt =====
-- env.validation.ts: what an environment that starts in production has.
use master_gateway_auth.Prelude.{
  String, Bool, true, false, Option, none, some, List, [], ◌∷◌, ◌≡◌, refl, sym, ◌∙◌, ap, subst, ◌⊎◌,
  inl, inr, ◌==◌, eq_iff, Bool-cases, Option-cases, All, if◌then◌else◌, entry, set_entry,
  entry-set_entry, or_else,
}
use master_gateway_auth.Prog.{Result, ok}
use master_gateway_auth.Prog.Outcomes.{err-ne-ok, ok-eq}
use master_gateway_auth.Config

-- The key has a text that is more than white space and no weak secret.
abbrev pub IsStrong : Config.Env → String → Type 0
IsStrong next k =
    (s : String) × (Config.given_text (Config.read k next) ≡ some s) × (Config.is_weak s ≡ false)

-- The key has no text, or one that is no weak secret.
abbrev pub NotWeak : Config.Env → String → Type 0
NotWeak next k = (Config.given_text (Config.read k next) ≡ none) ⊎ IsStrong next k

required-IsStrong :
    (next : Config.Env) (ks : List String) (rest : Result Config.Env) {env : Config.Env}
    → Config.check_required true next ks rest ≡ ok env
    → All (IsStrong next) ks × (rest ≡ ok env)
required-IsStrong next [] rest e = (tt, e)
required-IsStrong next (k ∷ ks) rest e =
    elim (Option-cases (Config.given_text (Config.read k next))) [
      | inl none' ↦ absurd (err-ne-ok (rw (Config.check_required, none') at e))
      | inr (s, given) ↦ elim (Bool-cases (Config.is_weak s)) [
        | inl weak ↦ absurd (err-ne-ok (rw (Config.check_required, given, weak) at e))
        | inr strong ↦
            let (others, done) =
              required-IsStrong next ks rest (rw (Config.check_required, given, strong) at e) in
            (((s, given, strong), others), done)
      ]
    ]

seeds-NotWeak :
    (next : Config.Env) (ks : List String) (rest : Result Config.Env) {env : Config.Env}
    → Config.check_seeds next ks rest ≡ ok env
    → All (NotWeak next) ks × (rest ≡ ok env)
seeds-NotWeak next [] rest e = (tt, e)
seeds-NotWeak next (k ∷ ks) rest e = elim (Option-cases (Config.given_text (Config.read k next))) [
  | inl none' ↦
      let (others, done) = seeds-NotWeak next ks rest (rw (Config.check_seeds, none') at e) in
      ((inl none', others), done)
  | inr (s, given) ↦ elim (Bool-cases (Config.is_weak s)) [
    | inl weak ↦ absurd (err-ne-ok (rw (Config.check_seeds, given, weak) at e))
    | inr strong ↦
        let (others, done) =
          seeds-NotWeak next ks rest (rw (Config.check_seeds, given, strong) at e) in
        ((inr (s, given, strong), others), done)
  ]
]

or_default-production : (s : Config.Setting) (d : String) → Config.or_default true s d ≡ s
or_default-production (Config.text s) d = refl
or_default-production Config.other d = refl
or_default-production Config.undefined d = refl

read_if :
    (b : Bool) (s : Config.Setting) (o : Option Config.Setting) (t : Config.Setting)
    → (b ≡ true → s ≡ t)
    → or_else o Config.undefined ≡ t
    → or_else (if b then some s else o) Config.undefined ≡ t
read_if true s o t hit miss = hit refl
read_if false s o t hit miss = miss

-- In production no default is put in: each key reads as in the environment.
with_defaults-production :
    (k : String) (config : Config.Env) (ds : List (String × String)) (next : Config.Env)
    → Config.read k next ≡ Config.read k config
    → Config.read k (Config.with_defaults true config ds next) ≡ Config.read k config
with_defaults-production k config [] next h = h
with_defaults-production k config (d ∷ ds) next h =
    let value = Config.or_default true (Config.read d.0 config) d.1 in
    with_defaults-production k config ds (set_entry d.0 value next) (
      ap (λ o. or_else o Config.undefined) (entry-set_entry k d.0 value next)
      ∙ read_if (k == d.0) value (entry k next) (Config.read k config)
          (λ hit.
            or_default-production (Config.read d.0 config) d.1
            ∙ ap (λ x. Config.read x config) (sym ((eq_iff k d.0).0 hit)))
          h)

-- An environment that is accepted in production: each key reads as it was given, the required ones
-- have a text that is no weak secret, and so have the passwords of the seed, if they are given.
pub record IsSafe (config env : Config.Env) : Type 0 where
  pub as_given : (k : String) → Config.read k env ≡ Config.read k config
  pub required_strong : All (IsStrong env) (Config.required_for true)
  pub seeds_strong : All (NotWeak env) Config.seed_passwords

-- If the application starts in production, its settings read as in the environment, without the
-- defaults of the development; each required one is a text that is no known or default secret; and
-- the passwords of the seed are none either, if they are given.
pub production-IsSafe :
    (config env : Config.Env)
    → Config.read "NODE_ENV" config ≡ Config.text "production"
    → Config.validate_env config ≡ ok env
    → IsSafe config env
unfolding Config.validate_env
production-IsSafe config env production e =
    let next = Config.next_env true "production" config in
    let checked : Config.check_next true next ≡ ok env = rw production at e in
    let (required, e1) = required-IsStrong next (Config.required_for true) _ checked in
    let (seeds, e2) = seeds-NotWeak next Config.seed_passwords (ok next) e1 in
    let same : next ≡ env = ok-eq e2 in
    subst (IsSafe config) same (record {
      as_given = λ k.
          with_defaults-production k config Config.development_defaults
            (set_entry "NODE_ENV" (Config.text "production") config)
            (ap (λ o. or_else o Config.undefined)
                (entry-set_entry k "NODE_ENV" (Config.text "production") config)
              ∙ read_if (k == "NODE_ENV") (Config.text "production") (entry k config)
                  (Config.read k config)
                  (λ hit.
                    sym (ap (λ x. Config.read x config) ((eq_iff k "NODE_ENV").0 hit) ∙ production))
                  refl);
      required_strong = required;
      seeds_strong = seeds;
    })
