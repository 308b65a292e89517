-- ===== src/Keys/Held.antt =====
-- keys.service.ts, `ensureKeysLoaded` and `getJwks`: the files, the keys in memory and the cache.
use master_gateway_auth.Prelude.{
  ◌+◌, String, true, false, ◌&&◌, Option, none, some, List, [], ◌∷◌, ◌≡◌, refl, sym, ◌∙◌, ap, inl,
  inr, arith, ◌==◌, eq_iff, Bool-cases, or_else, subst, entry, set_entry, entry-set_entry,
}
use master_gateway_auth.Prog.{Prog, Result, ok, err, lift, run, ◌>>=◌, ◌>>◌}
use master_gateway_auth.Prog.Runs.{continue, run-bind, run-if_true, run-if_false}
use master_gateway_auth.Keys.{
  Jwk, KeyTools, KeyState, Call, ask_private, ask_public, ask_jwks, restart, Answer, key_text,
  key_set, started, restarted,
}
use master_gateway_auth.Keys

abbrev pub published : Result Jwk → Result Answer
published (ok jwk) = ok (key_set (Keys.as_signature_key jwk ∷ []))
published (err e) = err e

module _ (t : KeyTools) where
  abbrev pub IsCached : String × String → Option (List Jwk) → Type 0
  IsCached pair none = Unit {0}
  IsCached pair (some keys) = published (t.export_jwk pair.1) ≡ ok (key_set keys)

  pub record Holds (pair : String × String) (s : KeyState) : Type 0 where
    pub file_pair : Keys.stored t s.files ≡ some pair
    pub private_held : s.private_key ≡ pair.0
    pub public_held : s.public_key ≡ pair.1
    pub cached : IsCached pair s.jwks_cache

  -- The pair is on the disk, or the next one to be made; keys that are loaded are the pair.
  pub record Keeps (pair : String × String) (s : KeyState) : Type 0 where
    pub next : or_else (Keys.stored t s.files) (t.generate_key_pair s.generated) ≡ pair
    pub loaded : Keys.is_loaded s ≡ true → Holds pair s

  pub Holds-Keeps : (pair : String × String) (s : KeyState) → Holds pair s → Keeps pair s
  Holds-Keeps pair s h = record { next = rw h.file_pair refl; loaded = λ l. h }

  stored-written :
      (a b : String) (files : List (String × String))
      → (Keys.priv_path t == Keys.pub_path t) ≡ false
      → Keys.stored t (set_entry (Keys.pub_path t) b (set_entry (Keys.priv_path t) a files))
        ≡ some (a, b)
  stored-written a b files apart =
      let priv : entry (Keys.priv_path t)
            (set_entry (Keys.pub_path t) b (set_entry (Keys.priv_path t) a files))
          ≡ some a =
        entry-set_entry (Keys.priv_path t) (Keys.pub_path t) b
          (set_entry (Keys.priv_path t) a files)
        ∙ rw apart (
            entry-set_entry (Keys.priv_path t) (Keys.priv_path t) a files
            ∙ rw ((eq_iff (Keys.priv_path t) (Keys.priv_path t)).1 refl) refl) in
      let public : entry (Keys.pub_path t)
            (set_entry (Keys.pub_path t) b (set_entry (Keys.priv_path t) a files))
          ≡ some b =
        entry-set_entry (Keys.pub_path t) (Keys.pub_path t) b (set_entry (Keys.priv_path t) a files)
        ∙ rw ((eq_iff (Keys.pub_path t) (Keys.pub_path t)).1 refl) refl in
      rw (priv, public) refl

  -- The paths differ, and the disk lets both files be written.
  module _ (apart : (Keys.priv_path t == Keys.pub_path t) ≡ false)
      (writable : (t.can_make (t.parent (Keys.priv_path t))
          && (t.can_write (Keys.priv_path t) && t.can_write (Keys.pub_path t)))
        ≡ true) where
    load-Holds :
        (pair : String × String) (o : Option (String × String)) (s : KeyState)
        → Keys.stored t s.files ≡ o
        → or_else o (t.generate_key_pair s.generated) ≡ pair
        → (s' : KeyState) × (run (Keys.load_keys t o) s ≡ (ok tt, s')) × Holds pair s'
    unfolding Keys.generate_keys
    load-Holds pair (some p) s there same = (
      Keys.take_keys p s,
      refl,
      record {
        file_pair = there ∙ ap some same;
        private_held = ap (λ x. x.0) same;
        public_held = ap (λ x. x.1) same;
        cached = tt;
      },
    )
    load-Holds pair none s there same =
        let p = t.generate_key_pair s.generated in
        let make : t.can_make (t.parent (Keys.priv_path t)) ≡ true = ground arith in
        let priv : t.can_write (Keys.priv_path t) ≡ true = ground arith in
        let public : t.can_write (Keys.pub_path t) ≡ true = ground arith in
        let files = set_entry (Keys.pub_path t) p.1 (set_entry (Keys.priv_path t) p.0 s.files) in
        (
          Keys.take_keys p (record s { files = files; generated = s.generated + 1 }),
          rw (make, priv, public) refl,
          record {
            file_pair = stored-written p.0 p.1 s.files apart ∙ ap some same;
            private_held = ap (λ x. x.0) same;
            public_held = ap (λ x. x.1) same;
            cached = tt;
          },
        )

    pub ensure-Holds :
        (pair : String × String) (s : KeyState)
        → Keeps pair s
        → (s' : KeyState) × (run (Keys.ensure_keys_loaded t) s ≡ (ok tt, s')) × Holds pair s'
    unfolding Keys.ensure_keys_loaded
    ensure-Holds pair s keeps = elim (Bool-cases (Keys.is_loaded s)) [
      | inl l ↦ (s, run-if_true (Keys.is_loaded s) _ _ s l, keeps.loaded l)
      | inr l ↦
          let (s', e, h) = load-Holds pair (Keys.stored t s.files) s refl keeps.next in
          (s', run-if_false (Keys.is_loaded s) _ _ s l ∙ e, h)
    ]

  pub jwks-Holds :
      (pair : String × String) (o : Option (List Jwk)) (s : KeyState)
      → Holds pair s
      → s.jwks_cache ≡ o
      → (s' : KeyState) × (run (Keys.build_jwks t o >>= λ ks. Prog.ret (key_set ks)) s
          ≡ (published (t.export_jwk pair.1), s'))
        × Holds pair s'
  jwks-Holds pair (some ks) s h same =
      let c : IsCached pair (some ks) = subst (IsCached pair) same h.cached in (s, rw c refl, h)
  jwks-Holds pair none s h same = exported (t.export_jwk pair.1) refl
    where
      rebuilt : Result Jwk → Result Answer × KeyState
      rebuilt r = run ((lift r >>= Keys.cache_jwks) >>= λ ks. Prog.ret (key_set ks)) s

      exported :
          (r : Result Jwk)
          → t.export_jwk pair.1 ≡ r
          → (s' : KeyState) × (run (Keys.build_jwks t none >>= λ ks. Prog.ret (key_set ks)) s
              ≡ (published (t.export_jwk pair.1), s'))
            × Holds pair s'
      exported (ok jwk) e =
          let own : t.export_jwk s.public_key ≡ ok jwk = ap t.export_jwk h.public_held ∙ e in
          (
            record s { jwks_cache = some (Keys.as_signature_key jwk ∷ []) },
            ap rebuilt own ∙ rw e refl,
            record {
              file_pair = h.file_pair;
              private_held = h.private_held;
              public_held = h.public_held;
              cached = rw e refl;
            },
          )
      exported (err x) e =
          let own : t.export_jwk s.public_key ≡ err x = ap t.export_jwk h.public_held ∙ e in
          (s, ap rebuilt own ∙ rw e refl, h)

  pub ensured :
      {A B : Type 0} (p : Prog KeyState A) (k : A → Prog KeyState B) (s s' : KeyState)
      → run (Keys.ensure_keys_loaded t) s ≡ (ok tt, s')
      → run ((Keys.ensure_keys_loaded t >> p) >>= k) s ≡ run (p >>= k) s'
  ensured p k s s' e =
      run-bind (Keys.ensure_keys_loaded t >> p) k s
      ∙ ap (λ x. continue x k)
          (run-bind (Keys.ensure_keys_loaded t) (λ _. p) s ∙ ap (λ x. continue x (λ _. p)) e)
      ∙ sym (run-bind p k s')
