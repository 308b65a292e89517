-- ===== src/Auth/Life.antt =====
-- The life of a stored refresh token: the changes that the table `refresh_tokens` goes through.
use master_gateway_auth.Prelude.{
  any-append, any-update_where, ap, subst, String, Bool, true, false, none, List, [], ◌∷◌, ◌++◌,
  ◌≡◌, ◌==◌, any, update_where, All, All-append, All-update_where,
}
use master_gateway_auth.Db.{activo, inactivo, RefreshToken, World}
use master_gateway_auth.Auth.Session.{taken, id_taken}

-- A change to a row that keeps its identity and makes it inactive.
pub record Retires (f : RefreshToken → RefreshToken) : Type 0 where
  pub id : (t : RefreshToken) → (f t).id ≡ t.id
  pub jti : (t : RefreshToken) → (f t).jti ≡ t.jti
  pub estado : (t : RefreshToken) → (f t).estado ≡ inactivo

-- A row as it is created.
pub record IsFresh (t : RefreshToken) : Type 0 where
  pub estado : t.estado ≡ activo
  pub revoked : t.revoked_at ≡ none
  pub replaced : t.replaced_by_jti ≡ none

pub data Evolves : List RefreshToken → List RefreshToken → Type 0 where
  same : {ts : List RefreshToken} → Evolves ts ts
  retire :
      {ts : List RefreshToken} (p : RefreshToken → Bool) {f : RefreshToken → RefreshToken}
      → Retires f
      → Evolves ts (update_where p f ts)
  create :
      {ts : List RefreshToken} {t : RefreshToken}
      → taken t ts ≡ false
      → id_taken t ts ≡ false
      → IsFresh t
      → Evolves ts (ts ++ t ∷ [])

abbrev pub EvolvesIn : World → World → Type 0
EvolvesIn w w' = Evolves w.refresh_tokens w'.refresh_tokens

-- An active token was never revoked nor replaced.
abbrev pub IsSound : RefreshToken → Type 0
IsSound t = t.estado ≡ activo → (t.revoked_at ≡ none) × (t.replaced_by_jti ≡ none)

-- The row `id` is inactive.
abbrev pub IsSpent : String → RefreshToken → Type 0
IsSpent id t = t.id ≡ id → t.estado ≡ inactivo

-- The jti belongs to the row `id`.
abbrev pub IsBound : String → String → RefreshToken → Type 0
IsBound jti id t = t.jti ≡ jti → t.id ≡ id

Retires-IsSound : {f : RefreshToken → RefreshToken} → Retires f → (t : RefreshToken) → IsSound (f t)
Retires-IsSound r t e = cc (r.estado t)

pub Evolves-IsSound : {ts us : List RefreshToken} → Evolves ts us → All IsSound ts → All IsSound us
Evolves-IsSound same h = h
Evolves-IsSound (retire {ts} p {f} r) h =
    All-update_where IsSound IsSound p f ts (λ t q e. Retires-IsSound r t) (λ t q e. q) h
Evolves-IsSound (create {ts} {t} a b n) h =
    All-append IsSound ts (t ∷ []) h ((λ e. (n.revoked, n.replaced)), tt)

module _ (jti id : String) where
  -- A row that is there keeps its jti and its id from the rows that are created.
  pub Evolves-IsBound :
      {ts us : List RefreshToken}
      → Evolves ts us
      → any (λ t. t.jti == jti) ts ≡ true
      → All (IsBound jti id) ts
      → All (IsBound jti id) us
  Evolves-IsBound same k h = h
  Evolves-IsBound (retire {ts} p {f} r) k h =
      All-update_where (IsBound jti id) (IsBound jti id) p f ts
        (λ t q e v. cc (r.id t, q (cc (r.jti t)))) (λ t q e. q) h
  Evolves-IsBound (create {ts} {t} a b n) k h = All-append (IsBound jti id) ts (t ∷ []) h (
    (λ e.
        let a' : any (λ u. u.jti == jti) ts ≡ false =
          subst (λ j. any (λ u. u.jti == j) ts ≡ false) e a in
        cc),
    tt,
  )

module _ (id : String) where
  pub Evolves-IsSpent :
      {ts us : List RefreshToken}
      → Evolves ts us
      → any (λ t. t.id == id) ts ≡ true
      → All (IsSpent id) ts
      → All (IsSpent id) us
  Evolves-IsSpent same k h = h
  Evolves-IsSpent (retire {ts} p {f} r) k h =
      All-update_where (IsSpent id) (IsSpent id) p f ts (λ t q e v. r.estado t) (λ t q e. q) h
  Evolves-IsSpent (create {ts} {t} a b n) k h = All-append (IsSpent id) ts (t ∷ []) h (
    (λ e.
        let b' : any (λ u. u.id == id) ts ≡ false =
          subst (λ j. any (λ u. u.id == j) ts ≡ false) e b in
        cc),
    tt,
  )

-- Rows are never removed.
module _ (q : RefreshToken → Bool) where
  pub Evolves-any :
      ((f : RefreshToken → RefreshToken) → Retires f → (t : RefreshToken) → q (f t) ≡ q t)
      → {ts us : List RefreshToken} → Evolves ts us
      → any q ts ≡ true
      → any q us ≡ true
  Evolves-any keep same h = h
  Evolves-any keep (retire {ts} p {f} r) h = rw (any-update_where q p f ts (keep f r)) h
  Evolves-any keep (create {ts} {t} a b n) h = any-append q ts (t ∷ []) h

pub Evolves-any_id :
    (id : String) {ts us : List RefreshToken}
    → Evolves ts us
    → any (λ t. t.id == id) ts ≡ true
    → any (λ t. t.id == id) us ≡ true
Evolves-any_id id = Evolves-any (λ t. t.id == id) (λ f r t. ap (λ s. s == id) (r.id t))

pub Evolves-any_jti :
    (jti : String) {ts us : List RefreshToken}
    → Evolves ts us
    → any (λ t. t.jti == jti) ts ≡ true
    → any (λ t. t.jti == jti) us ≡ true
Evolves-any_jti jti = Evolves-any (λ t. t.jti == jti) (λ f r t. ap (λ s. s == jti) (r.jti t))
