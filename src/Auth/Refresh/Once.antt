-- ===== src/Auth/Refresh/Once.antt =====
-- A refresh token is used once, whatever the order in which concurrent requests make their steps.
use mathlib.Core.Bool.{false≢true}
use mathlib.Core.Option
use master_gateway_auth.Prelude.{
  ap, map, ℕ, ◌≤◌, ◌+◌, String, Bool, true, false, not, ◌||◌, Option, none, some, List, [], ◌∷◌,
  ◌≡◌, refl, inl, inr, arith, ◌==◌, eq_iff, subst, sym, eqb, leb, is_some, has_text, if◌then◌else◌,
  Bool-cases, any, count_where, update_where, All, All-find, All-update_where,
}
use master_gateway_auth.Prog.{
  Failure, Prog, ret, raise, atomic, query, ok, err, Result, lift, catch, ◌>>=◌, unauthorized,
}
use master_gateway_auth.Prog.Moves.{Moves, Moves-bind, of_ret}
use master_gateway_auth.Prog.Pool.{Event, interleave}
use master_gateway_auth.Prog.Contest.{
  Contender, failed, moves, Contender-bind, Contender-ends, Keeps-Moves, winners, winners-le-one,
}
use master_gateway_auth.Db.{is_active, Role, RefreshToken, World}
use master_gateway_auth.Platform.{Platform}
use master_gateway_auth.Token.{Claims, TokenUse, verify_gateway_token}
use master_gateway_auth.Auth.Session.{SessionTokens, verify_refresh_token}
use master_gateway_auth.Auth.Life.{
  IsSound, IsSpent, IsBound, retire, EvolvesIn, Evolves-IsSound, Evolves-IsSpent, Evolves-IsBound,
  Evolves-any_id, Evolves-any_jti,
}
use master_gateway_auth.Auth.Refresh
use master_gateway_auth.Auth.Refresh.Steps.{
  Moves-update_token, Moves-revoke_token_family, Moves-refresh_claimed, spend-Retires,
}

-- The row `id` is stored under the jti, and it alone.
pub record IsStored (jti id : String) (w : World) : Type 0 where
  pub sound : All IsSound w.refresh_tokens
  pub bound : All (IsBound jti id) w.refresh_tokens
  pub has_id : any (λ t. t.id == id) w.refresh_tokens ≡ true
  pub has_jti : any (λ t. t.jti == jti) w.refresh_tokens ≡ true

-- The row `id` can no longer be claimed.
abbrev pub IsUsed : String → World → Type 0
IsUsed id w = All (IsSpent id) w.refresh_tokens

-- The text is a refresh token with this jti, at whatever time it is verified.
abbrev pub Names : Platform → String → String → Type 0
Names pf jti token =
    (now : ℕ) (c : Claims)
    → verify_gateway_token pf token now (some TokenUse.refresh) ≡ ok c
    → c.jti ≡ jti

-- A request for a refresh, as a contender: what it won is its session.
abbrev pub attempt : Platform → String → Prog World (Option SessionTokens)
attempt pf token = Refresh.refresh pf token >>= λ s. ret (some s)

-- Time passes between the steps.
abbrev pub wait : ℕ → World → World
wait n w = record w { clock = w.clock + n }

claimable-count :
    (id : String) (ts : List RefreshToken)
    → All (IsSpent id) ts
    → count_where (Refresh.claimable id) ts ≡ 0
claimable-count id [] h = refl
claimable-count id (t ∷ ts) (s, h) = elim (Bool-cases (t.id == id)) [
  | inl same ↦ rw (same, s ((eq_iff t.id id).0 same)) (claimable-count id ts h)
  | inr other ↦ rw other (claimable-count id ts h)
]

-- The claim leaves no row `id` active.
claim-IsUsed :
    (id : String) (now : ℕ) (ts : List RefreshToken)
    → All IsSound ts
    → All (IsSpent id) (update_where (Refresh.claimable id) (Refresh.spend now) ts)
claim-IsUsed id now ts =
    All-update_where IsSound (IsSpent id) (Refresh.claimable id) (Refresh.spend now) ts
      (λ t s e v. refl) (λ t s e v. ground (arith, eq_iff t.id id))

module _ (jti id : String) where
  pub EvolvesIn-IsStored : (w w' : World) → EvolvesIn w w' → IsStored jti id w → IsStored jti id w'
  EvolvesIn-IsStored w w' e h = record {
    sound = Evolves-IsSound e h.sound;
    bound = Evolves-IsBound jti id e h.has_jti h.bound;
    has_id = Evolves-any_id id e h.has_id;
    has_jti = Evolves-any_jti jti e h.has_jti;
  }

  pub EvolvesIn-IsUsed :
      (w w' : World) → EvolvesIn w w' → IsStored jti id w → IsUsed id w → IsUsed id w'
  EvolvesIn-IsUsed w w' e h = Evolves-IsSpent id e h.has_id

  abbrev Runner : Prog World (Option SessionTokens) → Type 0
  Runner = Contender (IsStored jti id) (IsUsed id)

  Runner-bind :
      {A : Type 0} {m : Prog World A} {g : A → Prog World (Option SessionTokens)}
      → Moves EvolvesIn m
      → ((a : A) → Runner (g a))
      → Runner (m >>= g)
  Runner-bind =
      Contender-bind (IsStored jti id) (IsUsed id) EvolvesIn EvolvesIn-IsStored EvolvesIn-IsUsed

  Runner-read :
      {k : World → Prog World (Option SessionTokens)}
      → ((w : World) → IsStored jti id w → Runner (k w))
      → Runner (atomic (λ w. w) k)
  Runner-read next =
      moves (λ _. false) (λ w h. h) (λ w h q. q) (λ w h _. next w h)
        (λ w h e. absurd (false≢true e))

  Runner-if :
      {A : Type 0} (b : Bool) (p q : Prog World A) (g : A → Prog World (Option SessionTokens))
      → Runner (p >>= g)
      → Runner (q >>= g)
      → Runner ((if b then p else q) >>= g)
  Runner-if true p q g rp rq = rp
  Runner-if false p q g rp rq = rq

  module _ (pf : Platform) where
    abbrev wrap : SessionTokens → Prog World (Option SessionTokens)
    wrap s = ret (some s)

    Runner-ends :
        {A B : Type 0} {m : Prog World A} (e : Failure) (g : B → Prog World (Option SessionTokens))
        → Moves EvolvesIn m
        → Runner ((m >>= λ _. raise e) >>= g)
    Runner-ends =
        Contender-ends (IsStored jti id) (IsUsed id) EvolvesIn EvolvesIn-IsStored EvolvesIn-IsUsed

    -- A request that claimed no row ends by an exception.
    Runner-lost :
        (t : RefreshToken) (role : Role) (n : ℕ)
        → eqb n 1 ≡ false
        → Runner (Refresh.refresh_claimed pf t role n >>= wrap)
    unfolding Refresh.refresh_claimed
    Runner-lost t role n e =
        rw e (Runner-ends _ wrap (Moves-revoke_token_family t.user_id t.role_id))

    -- The claim is the step that spends the row.
    Runner-claim :
        (t : RefreshToken) (role : Role) (now : ℕ)
        → Runner (Refresh.claim id now >>= Refresh.refresh_claimed pf t role >>= wrap)
    unfolding Refresh.claim
    Runner-claim t role now =
        let after =
          λ (w : World). Refresh.change_tokens (Refresh.claimable id) (Refresh.spend now) w in
        let retired = λ (w : World).
          retire {ts = w.refresh_tokens} (Refresh.claimable id) (spend-Retires now) in
        moves (λ w. eqb (count_where (Refresh.claimable id) w.refresh_tokens) 1)
          (λ w h. EvolvesIn-IsStored w (after w) (retired w) h)
          (λ w h q. EvolvesIn-IsUsed w (after w) (retired w) h q) (λ w h e. Runner-lost t role _ e)
          (λ w h e. (
            (λ q. absurd (false≢true (rw (claimable-count id w.refresh_tokens q) at e))),
            claim-IsUsed id now w.refresh_tokens h.sound,
            Keeps-Moves (IsStored jti id) (IsUsed id) EvolvesIn EvolvesIn-IsStored EvolvesIn-IsUsed
                (Moves-bind (Moves-refresh_claimed pf t role _) (λ s. of_ret (some s))),
          ))

    Runner-found :
        (token : String) (found : Option (RefreshToken × Role))
        → ((t : RefreshToken) (role : Role) → found ≡ some (t, role) → t.id ≡ id)
        → Runner (Refresh.refresh_found pf token found >>= wrap)
    unfolding Refresh.refresh_found
    Runner-found token none h = failed _
    Runner-found token (some (t, role)) h =
        Runner-if (not (is_active t.estado)) _ _ wrap (failed _) (
          Runner-if (is_some t.revoked_at || has_text t.replaced_by_jti) _ _ wrap
            (Runner-ends _ wrap (Moves-revoke_token_family t.user_id t.role_id))
            (Runner-read λ w _.
              Runner-if (leb t.expires_at w.clock) _ _ wrap
                (Runner-read
                  λ w' _. Runner-ends _ wrap (Moves-update_token t.id (spend-Retires w'.clock)))
                (Runner-if (not (pf.argon_verify t.token_hash token)) _ _ wrap (failed _) (
                  Runner-read λ w' _.
                    subst
                      (λ i.
                        Runner
                          (Refresh.claim i w'.clock >>= Refresh.refresh_claimed pf t role >>= wrap))
                      (sym (h t role refl)) (Runner-claim t role w'.clock)))))

    -- What the lookup by jti finds is the row `id`.
    pub stored-id :
        (w : World) (t : RefreshToken) (role : Role)
        → IsStored jti id w
        → Refresh.stored_token w jti ≡ some (t, role)
        → t.id ≡ id
    stored-id w t role h e =
        let (u, found, rest) = (Option.bind-eq-some_iff _ _).0 e in
        let (r, got, pair) = (Option.map-eq-some_iff _ _).0 rest in
        let (bound, hit) =
          All-find (IsBound jti id) (λ u. u.jti == jti) w.refresh_tokens h.bound found in
        let same : u ≡ t = ap (λ p. p.0) pair in
        subst (λ v. v.id ≡ id) same (bound ((eq_iff u.jti jti).0 hit))

    Runner-verified :
        (token : String)
        → Names pf jti token
        → (r : Result Claims) → ((c : Claims) → r ≡ ok c → c.jti ≡ jti)
        → Runner (
            catch (lift r) (raise (unauthorized "Refresh token invalido o expirado"))
            >>= (λ payload.
                query (λ w. Refresh.stored_token w payload.jti) >>= Refresh.refresh_found pf token)
            >>= wrap)
    Runner-verified token names (err e) h = failed _
    Runner-verified token names (ok c) h = Runner-read λ w stored.
        Runner-found token (Refresh.stored_token w c.jti) (λ t role e.
          stored-id w t role stored
            (subst (λ j. Refresh.stored_token w j ≡ some (t, role)) (h c refl) e))

    Runner-attempt : (token : String) → Names pf jti token → Runner (attempt pf token)
    unfolding Refresh.refresh verify_refresh_token
    Runner-attempt token names = Runner-read λ w _. Runner-verified token names _ (names w.clock)

    Runner-attempts :
        (tokens : List String) → All (Names pf jti) tokens → All Runner (map (attempt pf) tokens)
    Runner-attempts [] h = tt
    Runner-attempts (t ∷ ts) (n, h) = (Runner-attempt t n, Runner-attempts ts h)

-- Any number of refresh requests with tokens of one jti take turns in any order, with pauses of any
-- length between their steps: at most one of them ends with a session, if a row is stored under the
-- jti, the table is sound, and the tokens verify to that jti only.
pub refresh-wins_once :
    (pf : Platform) (jti id : String) (tokens : List String) (es : List Event) (w : World)
    → IsStored jti id w
    → All (Names pf jti) tokens
    → winners (interleave wait es (map (attempt pf) tokens) w).0 ≤ 1
refresh-wins_once pf jti id tokens es w stored names =
    winners-le-one (IsStored jti id) (IsUsed id) wait
      (λ n s h. record { sound = h.sound; bound = h.bound; has_id = h.has_id; has_jti = h.has_jti })
      (λ n s h q. q) es (map (attempt pf) tokens) w stored (Runner-attempts jti id pf tokens names)
