-- ===== src/Guards/Laws.antt =====
-- What each guard lets through.
use master_gateway_auth.Prelude.{
  ℕ, ◌+◌, ◌/◌, ◌<◌, String, Bool, true, not, Option, none, some, List, [], ◌∷◌, ◌≡◌, ◌≢◌, refl, ◌∙◌,
  ap, sym, ◌⊎◌, inl, inr, ◌↔◌, arith, eq_iff, or_else, Bool-cases, all, includes,
}
use mathlib.Core.Bool.{false≢true}
use master_gateway_auth.Prog.{
  Result, ok, err, raise, run, lift, catch, unauthorized, forbidden, Failure,
}
use master_gateway_auth.Prog.Runs.{run-if_false, run-if_ok}
use master_gateway_auth.Db.{World}
use master_gateway_auth.Platform.{Platform, SignsAndVerifies}
use master_gateway_auth.Token.{
  Claims, SignInput, access, refresh, sign_gateway_token, verify_gateway_token,
}
use master_gateway_auth.Token.Laws.{IsVerified, verify-IsVerified, verify-sign_other, IsComplete}
use master_gateway_auth.Text.{starts_with, drop_prefix}
use master_gateway_auth.Guards.{
  super_admin, demands, is_role, role_in, role_of, check_role, roles_guard, missing_from,
  check_missing, check_permissions, permissions_guard, authenticate, jwt_auth_guard,
}

is_role_iff : (name : String) (o : Option String) → (is_role name o ≡ true) ↔ (o ≡ some name)
is_role_iff name none = (λ e. cc, λ e. cc)
is_role_iff name (some r) = (λ e. ap some ((eq_iff r name).0 e), λ e. (eq_iff r name).1 (cc))

-- All that is demanded is granted.
abbrev pub covers : List String → List String → Bool
covers granted required = all (λ p. includes p granted) required

check_missing-covers :
    (granted required : List String)
    → (check_missing (missing_from granted required) ≡ ok true) ↔ (covers granted required ≡ true)
check_missing-covers granted [] = (λ _. refl, λ _. refl)
check_missing-covers granted (p ∷ ps) =
    let ih = check_missing-covers granted ps in
    elim (Bool-cases (includes p granted)) [
      | inl has ↦ rw has ih
      | inr lacks ↦ rw lacks (λ e. cc, λ e. cc)
    ]

-- The permissions guard lets a user through exactly when the endpoint demands nothing, the user's
-- role is SUPER_ADMIN, or every demanded permission is in the token.
pub permissions_guard_iff :
    (required : Option (List String)) (user : Claims)
    → (permissions_guard required (some user) ≡ ok true) ↔ (
        (demands required ≡ [])
        ⊎ (user.role_name ≡ some super_admin)
        ⊎ (covers (or_else user.permissions []) (demands required) ≡ true))
unfolding permissions_guard
permissions_guard_iff required user = decide (demands required)
  where
    decide :
        (ps : List String)
        → (check_permissions ps (some user) ≡ ok true) ↔ (
            (ps ≡ [])
            ⊎ (user.role_name ≡ some super_admin)
            ⊎ (covers (or_else user.permissions []) ps ≡ true))
    decide [] = (λ _. inl refl, λ _. refl)
    decide (p ∷ ps) =
        let granted = check_missing-covers (or_else user.permissions []) (p ∷ ps) in
        elim (Bool-cases (is_role super_admin user.role_name)) [
          | inl admin ↦
              rw admin
                (λ _. inr (inl ((is_role_iff super_admin user.role_name).0 admin)), λ _. refl)
          | inr other ↦ rw other (
            λ e. inr (inr (granted.0 e)),
            λ h. elim h [
              | inl empty ↦ cc
              | inr (inl admin) ↦
                  absurd (false≢true (sym other ∙ (is_role_iff super_admin user.role_name).1 admin))
              | inr (inr all') ↦ granted.1 all'
            ],
          )
        ]

-- The roles guard lets a user through exactly when the endpoint demands no role, the user's role is
-- SUPER_ADMIN, or it is one of the demanded roles and not empty.
pub roles_guard_iff :
    (required : Option (List String)) (user : Option Claims)
    → (roles_guard required user ≡ ok true) ↔ (
        (demands required ≡ [])
        ⊎ (role_of user ≡ some super_admin)
        ⊎ (role_in (demands required) (role_of user) ≡ true))
unfolding roles_guard
roles_guard_iff required user = decide (demands required)
  where
    decide :
        (ns : List String)
        → (check_role ns user ≡ ok true)
          ↔ ((ns ≡ []) ⊎ (role_of user ≡ some super_admin) ⊎ (role_in ns (role_of user) ≡ true))
    decide [] = (λ _. inl refl, λ _. refl)
    decide (n ∷ ns) = elim (Bool-cases (is_role super_admin (role_of user))) [
      | inl admin ↦
          rw admin (λ _. inr (inl ((is_role_iff super_admin (role_of user)).0 admin)), λ _. refl)
      | inr other ↦ elim (Bool-cases (role_in (n ∷ ns) (role_of user))) [
        | inl listed ↦ rw (other, listed) (λ _. inr (inr refl), λ _. refl)
        | inr unlisted ↦
            rw (other, unlisted)
              (
                λ e. cc,
                λ h. elim h [
                  | inl empty ↦ cc
                  | inr (inl admin) ↦
                      absurd
                        (false≢true (sym other ∙ (is_role_iff super_admin (role_of user)).1 admin))
                  | inr (inr listed) ↦ cc
                ],
              )
      ]
    ]

-- Without a user, an endpoint that demands permissions is closed by the permissions guard, and one
-- that demands roles by the roles guard.
pub guards_fail_closed :
    (required : Option (List String))
    → demands required ≢ []
    → (permissions_guard required none ≡ err (forbidden "Usuario autenticado requerido"))
      × (roles_guard required none ≡ err (forbidden "Rol no autorizado"))
unfolding permissions_guard roles_guard
guards_fail_closed none h = absurd (h refl)
guards_fail_closed (some []) h = absurd (h refl)
guards_fail_closed (some (p ∷ ps)) h = (refl, refl)

-- What the JWT guard has seen of a request that it lets through.
pub record IsAuthentic (pf : Platform) (header : Option String) (w w' : World) (c : Claims)
    : Type 0 where
  pub text : String
  pub given : header ≡ some text
  pub prefixed : starts_with "Bearer " text ≡ true
  pub verified : IsVerified pf (drop_prefix "Bearer " text) w.clock access c
  pub unchanged : w' ≡ w

err-run :
    {A : Type 0} {x : Failure} {v w' : World} {a : A}
    → ¬ (◌≡◌ {A = Result A × World} (err x, v) (ok a, w'))
err-run e = cc

caught :
    (r : Result Claims) (w w' : World) (c : Claims)
    → run (catch (lift r) (raise (unauthorized "Token invalido o expirado"))) w ≡ (ok c, w')
    → (r ≡ ok c) × (w' ≡ w)
caught (ok d) w w' c e = (cc, cc)
caught (err x) w w' c e = cc

authenticate-IsAuthentic :
    (pf : Platform) (text : String) (w w' : World) (c : Claims)
    → run (authenticate pf text) w ≡ (ok c, w')
    → IsAuthentic pf (some text) w w' c
unfolding authenticate
authenticate-IsAuthentic pf text w w' c e =
    let (prefixed, e') = run-if_ok (not (starts_with "Bearer " text)) _ _ w refl e in
    let (verified, same) =
      caught (verify_gateway_token pf (drop_prefix "Bearer " text) w.clock (some access)) w w' c
        e' in
    record {
      text = text;
      given = refl;
      prefixed = ground arith;
      verified = verify-IsVerified pf (drop_prefix "Bearer " text) w.clock access c verified;
      unchanged = same;
    }

-- The JWT guard lets a request through only with a header that starts with "Bearer " and an access
-- token after it that verifies at the time of the request; the user is what the token says, and
-- nothing is changed.
pub jwt_auth_guard-IsAuthentic :
    (pf : Platform) (header : Option String) (w w' : World) (c : Claims)
    → run (jwt_auth_guard pf header) w ≡ (ok c, w')
    → IsAuthentic pf header w w' c
unfolding jwt_auth_guard
jwt_auth_guard-IsAuthentic pf none w w' c e = cc
jwt_auth_guard-IsAuthentic pf (some text) w w' c e = authenticate-IsAuthentic pf text w w' c e

-- The JWT guard refuses a refresh token after "Bearer ", although its user, jti and role are not
-- empty, it is signed and it has not expired, and nothing is changed.
pub jwt_auth_guard_refuses_refresh :
    (pf : Platform) (text : String) (i : SignInput) (issued : ℕ) (w : World)
    → SignsAndVerifies pf
    → IsComplete i
    → i.token_use ≡ refresh
    → w.clock / 1000 < issued / 1000 + pf.seconds_of i.expires_in
    → starts_with "Bearer " text ≡ true
    → drop_prefix "Bearer " text ≡ sign_gateway_token pf i issued
    → run (jwt_auth_guard pf (some text)) w ≡ (err (unauthorized "Token invalido o expirado"), w)
unfolding jwt_auth_guard authenticate
jwt_auth_guard_refuses_refresh pf text i issued w laws full use' fresh prefixed token =
    run-if_false (not (starts_with "Bearer " text)) _ _ w (ap not prefixed)
    ∙ ap
        (λ t.
          run
            (catch (lift (verify_gateway_token pf t w.clock (some access)))
              (raise (unauthorized "Token invalido o expirado")))
            w)
        token
    ∙ ap (λ r. run (catch (lift r) (raise (unauthorized "Token invalido o expirado"))) w)
        (verify-sign_other pf i issued w.clock access laws full fresh (λ e. cc))
