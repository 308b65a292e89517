-- ===== src/Guards/Policy/Chain.antt =====
-- The guards in their order: the policy engine only takes away.
use master_gateway_auth.Prelude.{
  String, Bool, true, false, Option, none, some, ◌≡◌, refl, subst, ◌⊎◌, inl, inr, ◌↔◌, has_text,
  List, [], ◌==◌, includes, all, or_else, arith, Bool-cases,
}
use master_gateway_auth.Prog.{Prog, Result, ok, err, run, ◌>>=◌}
use master_gateway_auth.Prog.Runs.{run-bind_ok}
use master_gateway_auth.Db.{World}
use master_gateway_auth.Platform.{Platform}
use master_gateway_auth.Token.{Claims}
use master_gateway_auth.Guards.{demands, role_in, roles_guard, permissions_guard, jwt_auth_guard}
use master_gateway_auth.Guards.Laws.{
  roles_guard_iff, permissions_guard_iff, IsAuthentic, jwt_auth_guard-IsAuthentic,
}
use master_gateway_auth.Guards.Policy.{
  OpaReply, answered, failed, PolicyInput, decision_of, Endpoint, input_of, enforce, policy_guard,
  pass, guard_chain,
}

-- The engine answered with success and with `allow: true`.
abbrev pub Allows : OpaReply → Type 0
Allows r = r ≡ answered true (some true)

enforce-decision_of : (r : OpaReply) → (enforce (decision_of r) ≡ ok true) ↔ Allows r
enforce-decision_of (answered true (some true)) = (λ _. refl, λ _. refl)
enforce-decision_of (answered true (some false)) = (λ e. cc, λ e. cc)
enforce-decision_of (answered true none) = (λ e. cc, λ e. cc)
enforce-decision_of (answered false allow) = (λ e. cc, λ e. cc)
enforce-decision_of failed = (λ e. cc, λ e. cc)

-- Where an engine is configured, the policy guard lets a user through exactly if the engine answers
-- with success and with `allow: true`: a failure, a timeout, another status and a body without
-- `allow` all deny. Where none is configured, every user passes.
pub policy_guard_iff :
    (url : Option String) (engine : PolicyInput → OpaReply) (e : Endpoint) (user : Claims)
    → (policy_guard url engine e (some user) ≡ ok true)
      ↔ ((has_text url ≡ false) ⊎ Allows (engine (input_of e user)))
unfolding policy_guard
policy_guard_iff url engine e user = elim (Bool-cases (has_text url)) [
  | inl on ↦ rw on (
    λ h. inr ((enforce-decision_of (engine (input_of e user))).0 h),
    λ h. elim h [
      | inl off ↦ cc
      | inr allows ↦ (enforce-decision_of (engine (input_of e user))).1 allows
    ],
  )
  | inr off ↦ rw off (λ _. inl refl, λ _. refl)
]

-- What the handler behind the guards may rely on: an access token that verifies; SUPER_ADMIN, or one
-- of the demanded roles; SUPER_ADMIN, or each of the demanded permissions; and the policy engine's
-- permission, where there is an engine.
pub record Passed (pf : Platform) (url : Option String) (engine : PolicyInput → OpaReply)
    (e : Endpoint) (header : Option String) (w w' : World) (c : Claims) : Type 0 where
  pub authentic : IsAuthentic pf header w w' c
  pub by_role :
      (demands e.roles ≡ [])
      ⊎ (c.role_name ≡ some "SUPER_ADMIN")
      ⊎ ((name : String) × (c.role_name ≡ some name)
          × (includes name (demands e.roles) ≡ true)
          × ((name == "") ≡ false))
  pub by_permissions :
      (demands e.permissions ≡ [])
      ⊎ (c.role_name ≡ some "SUPER_ADMIN")
      ⊎ (all (λ p. includes p (or_else c.permissions [])) (demands e.permissions) ≡ true)
  pub by_policy : (has_text url ≡ false) ⊎ Allows (engine (input_of e c))

-- One of the demanded roles, by its name.
named :
    (names : List String) (o : Option String)
    → role_in names o ≡ true
    → (name : String) × (o ≡ some name) × (includes name names ≡ true) × ((name == "") ≡ false)
named names none h = cc
named names (some r) h = (r, refl, ground arith, ground arith)

role_lem :
    (required : Option (List String)) (c : Claims)
    → roles_guard required (some c) ≡ ok true
    → (demands required ≡ [])
      ⊎ (c.role_name ≡ some "SUPER_ADMIN")
      ⊎ ((name : String) × (c.role_name ≡ some name)
          × (includes name (demands required) ≡ true)
          × ((name == "") ≡ false))
role_lem required c h = elim ((roles_guard_iff required (some c)).0 h) [
  | inl open' ↦ inl open'
  | inr (inl admin) ↦ inr (inl admin)
  | inr (inr listed) ↦ inr (inr (named (demands required) c.role_name listed))
]

pass_ok :
    (r : Result Bool) {B : Type 0} (p : Prog World B) (w : World) {b : B} {w' : World}
    → run (pass r >>= λ _. p) w ≡ (ok b, w')
    → (r ≡ ok true) × (run p w ≡ (ok b, w'))
pass_ok (ok true) p w e = (refl, e)
pass_ok (ok false) p w e = cc
pass_ok (err x) p w e = cc

-- A request that reaches its handler has a header with an access token that verifies, and the user is
-- what the token says; the user's role is SUPER_ADMIN or one of the demanded roles, if any is
-- demanded, and is SUPER_ADMIN or the token has every demanded permission; where a policy engine is
-- configured, it answered for this user and endpoint with success and with `allow: true`; and the
-- guards changed nothing.
pub guard_chain-Passed :
    (pf : Platform) (url : Option String) (engine : PolicyInput → OpaReply) (e : Endpoint)
    (header : Option String) (w w' : World) (c : Claims)
    → run (guard_chain pf url engine e header) w ≡ (ok c, w')
    → Passed pf url engine e header w w' c
unfolding guard_chain
guard_chain-Passed pf url engine e header w w' c h =
    let (user, v, authentic, h1) = run-bind_ok (jwt_auth_guard pf header) _ w h in
    let (role, h2) = pass_ok (roles_guard e.roles (some user)) _ v h1 in
    let (permission, h3) = pass_ok (permissions_guard e.permissions (some user)) _ v h2 in
    let (policy, h4) = pass_ok (policy_guard url engine e (some user)) _ v h3 in
    let same : user ≡ c = cc in
    let stays : v ≡ w' = cc in
    record {
      authentic = jwt_auth_guard-IsAuthentic pf header w w' c (
          subst (λ (x : Result Claims × World). run (jwt_auth_guard pf header) w ≡ x) h4 authentic);
      by_role = role_lem e.roles c (subst (λ u. roles_guard e.roles (some u) ≡ ok true) same role);
      by_permissions =
          (permissions_guard_iff e.permissions c).0
            (subst (λ u. permissions_guard e.permissions (some u) ≡ ok true) same permission);
      by_policy =
          (policy_guard_iff url engine e c).0
            (subst (λ u. policy_guard url engine e (some u) ≡ ok true) same policy);
    }
