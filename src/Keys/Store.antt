-- ===== src/Keys/Store.antt =====
-- keys.service.ts: the service and a store of one pair of keys, over calls and restarts.
use master_gateway_auth.Prelude.{
  ℕ, String, true, false, ◌&&◌, none, List, [], ◌∷◌, ◌≡◌, refl, ◌∙◌, ap, ◌==◌, or_else,
}
use master_gateway_auth.Prog.{Prog, Result, ok, err, run, ◌>>=◌}
use master_gateway_auth.Prog.Runs.{continue, run-bind}
use master_gateway_auth.Keys.{
  Jwk, KeyTools, KeyState, Call, ask_private, ask_public, ask_jwks, restart, Answer, key_text,
  key_set, started, restarted,
}
use master_gateway_auth.Keys
use master_gateway_auth.Keys.Held.{published, Keeps, Holds-Keeps, ensure-Holds, jwks-Holds, ensured}

-- What a store answers that holds the pair for ever.
abbrev pub answer : KeyTools → String × String → Call → Result Answer
answer t pair ask_private = ok (key_text pair.0)
answer t pair ask_public = ok (key_text pair.1)
answer t pair ask_jwks = published (t.export_jwk pair.1)
answer t pair restart = ok started

abbrev pub and_answers : Result Answer → Result (List Answer) → Result (List Answer)
and_answers (ok a) (ok rest) = ok (a ∷ rest)
and_answers (ok a) (err e) = err e
and_answers (err e) rest = err e

abbrev pub answers : KeyTools → String × String → List Call → Result (List Answer)
answers t pair [] = ok []
answers t pair (c ∷ cs) = let rest = answers t pair cs in and_answers (answer t pair c) rest

-- A process that has not loaded the keys.
abbrev pub new_process : List (String × String) → ℕ → KeyState
new_process files n = record {
  files = files;
  generated = n;
  private_key = "";
  public_key = "";
  jwks_cache = none;
}

module _ (a : Answer) where
  listed :
      (x : Result (List Answer) × KeyState) (r : Result (List Answer))
      → x.0 ≡ r
      → (continue x (λ rest. Prog.ret (a ∷ rest))).0 ≡ and_answers (ok a) r
  listed (ok rest, s) r h = rw⁻¹ h refl
  listed (err e, s) r h = rw⁻¹ h refl

followed :
    (r : Result Answer) (p : Prog KeyState (List Answer)) (as_said : Result (List Answer))
    (s : KeyState)
    → (run p s).0 ≡ as_said
    → (continue (r, s) (λ a. p >>= λ rest. Prog.ret (a ∷ rest))).0 ≡ and_answers r as_said
followed (err x) p as_said s h = refl
followed (ok a) p as_said s h =
    ap (λ x. x.0) (run-bind p (λ rest. Prog.ret (a ∷ rest)) s) ∙ listed a (run p s) as_said h

module _ (t : KeyTools) where
  -- The paths differ, and the disk lets both files be written.
  module _ (apart : (Keys.priv_path t == Keys.pub_path t) ≡ false)
      (writable : (t.can_make (t.parent (Keys.priv_path t))
          && (t.can_write (Keys.priv_path t) && t.can_write (Keys.pub_path t)))
        ≡ true) where
    call-Keeps :
        (pair : String × String) (c : Call) (s : KeyState)
        → Keeps t pair s
        → (s' : KeyState) × (run (Keys.call t c) s ≡ (answer t pair c, s')) × Keeps t pair s'
    unfolding Keys.get_jwks
    call-Keeps pair ask_private s k =
        let (s', e, h) = ensure-Holds t apart writable pair s k in
        (
          s',
          ensured t _ _ s s' e ∙ ap (λ x. (ok (key_text x), s')) h.private_held,
          Holds-Keeps t pair s' h,
        )
    call-Keeps pair ask_public s k =
        let (s', e, h) = ensure-Holds t apart writable pair s k in
        (
          s',
          ensured t _ _ s s' e ∙ ap (λ x. (ok (key_text x), s')) h.public_held,
          Holds-Keeps t pair s' h,
        )
    call-Keeps pair ask_jwks s k =
        let (s1, e1, h1) = ensure-Holds t apart writable pair s k in
        let (s2, e2, h2) = jwks-Holds t pair s1.jwks_cache s1 h1 refl in
        (s2, ensured t _ _ s s1 e1 ∙ e2, Holds-Keeps t pair s2 h2)
    call-Keeps pair restart s k =
        let afresh : Keeps t pair (restarted s) = record { next = k.next; loaded = λ l. cc } in
        let (s', e, h) = ensure-Holds t apart writable pair (restarted s) afresh in
        (
          s',
          run-bind (Keys.ensure_keys_loaded t) (λ _. Prog.ret started) (restarted s)
              ∙ ap (λ x. continue x (λ _. Prog.ret started)) e,
          Holds-Keeps t pair s' h,
        )

    abbrev rest_of : List Call → Answer → Prog KeyState (List Answer)
    rest_of cs a = Keys.calls t cs >>= λ rest. Prog.ret (a ∷ rest)

    calls-eq :
        (pair : String × String) (cs : List Call) (s : KeyState)
        → Keeps t pair s
        → (run (Keys.calls t cs) s).0 ≡ answers t pair cs
    calls-eq pair [] s k = refl
    calls-eq pair (c ∷ cs) s k =
        let (s', e, k') = call-Keeps pair c s k in
        ap (λ x. x.0)
          (run-bind (Keys.call t c) (rest_of cs) s ∙ ap (λ x. continue x (rest_of cs)) e)
        ∙ followed (answer t pair c) (Keys.calls t cs) (answers t pair cs) s'
            (calls-eq pair cs s' k')

-- If the two files are not the same one and the disk lets them be written, a process that starts with
-- any files answers all calls, the ones after restarts too, like a store that holds one pair for
-- ever: the pair of the files if both are there, and else a new one. The set of public keys is the
-- public key of the pair, marked for signatures, or the failure to read it.
pub calls-eq-store :
    (t : KeyTools) (files : List (String × String)) (n : ℕ) (cs : List Call)
    → (Keys.priv_path t == Keys.pub_path t) ≡ false
    → (t.can_make (t.parent (Keys.priv_path t))
        && (t.can_write (Keys.priv_path t) && t.can_write (Keys.pub_path t)))
      ≡ true
    → (run (Keys.calls t cs) (new_process files n)).0
      ≡ answers t (or_else (Keys.stored t files) (t.generate_key_pair n)) cs
calls-eq-store t files n cs apart writable =
    calls-eq t apart writable (or_else (Keys.stored t files) (t.generate_key_pair n)) cs
      (new_process files n) (record { next = refl; loaded = λ l. cc })
