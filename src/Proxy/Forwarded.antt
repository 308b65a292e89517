-- ===== src/Proxy/Forwarded.antt =====
-- service-proxy.service.ts, `forward`: when a service is contacted, and with what.
use master_gateway_auth.Prelude.{
  ℕ, String, Bool, true, false, not, Option, none, some, ◌≡◌, refl, ◌∙◌, ap, ◌⊎◌, inl, inr, arith,
  if◌then◌else◌, Option-cases, eqb, includes,
}
use master_gateway_auth.Prog.{Prog, ret, query, guard, Result, ok, err, Failure, run, ◌>>=◌}
use master_gateway_auth.Prog.Outcomes.{outcome-some_or, outcome-lift, outcome-guard}
use master_gateway_auth.Db.{ExternalService, World}
use master_gateway_auth.Token.{Claims}
use master_gateway_auth.Text.{to_upper}
use master_gateway_auth.Ssrf.{Network, ValidatedTarget, assert_safe_probe_target}
use master_gateway_auth.Proxy.{Request, Outgoing, ProxyResult, Upstream, Wire, contact}
use master_gateway_auth.Proxy.Paths.{extract_public_path, build_target_url}
use master_gateway_auth.Proxy.Headers.{build_headers}
use master_gateway_auth.Proxy.Forward.{
  Resolved, request_url, resolve_route, has_full_access, assignments, ensure_authorized,
  proxy_timeout_ms, outgoing, answer, exchange, forward,
}

module _ (up : Upstream) (net : Network) where
  -- What `forward` demands before it contacts a service: a user; an open route, the first that
  -- matches the path; one of its methods; full access, or an active assignment of the user's active
  -- role to the menu; and a target that is safe to contact. What is sent is put together from these.
  pub record IsForwarded (w : World) (request : Request) (o : Outgoing) : Type 0 where
    pub user : Claims
    pub resolved : Resolved
    pub checked : ValidatedTarget
    pub authenticated : request.user ≡ some user
    pub registered :
        resolve_route up w (extract_public_path (request_url request)) ≡ ok (some resolved)
    pub allowed : includes (to_upper request.method) resolved.route.methods ≡ true
    pub authorized :
        (has_full_access up user.role_name ≡ true)
        ⊎ (eqb (assignments w user.role_id resolved.route.menu_id) 0 ≡ false)
    pub addressed :
        build_target_url up resolved.service.base_url resolved.route.target_path
          (request_url request)
          resolved.params
        ≡ some o.target
    pub safe : assert_safe_probe_target net o.target ≡ ok checked
    pub composed :
        outgoing up request user resolved.service (to_upper request.method) o.target ≡ some o

module _ (up : Upstream) (net : Network) where
  -- A run that contacts no service and fails without a change, or one that contacts a service once.
  abbrev pub ForwardOutcome : Request → Wire → Result ProxyResult × Wire → Type 0
  ForwardOutcome request s x =
      ((e : Failure) × (x ≡ (err e, s)))
      ⊎ ((o : Outgoing) × (x ≡ run (contact up o >>= answer up) s)
          × IsForwarded up net s.world request o)

  exchanged :
      (request : Request) (s : Wire) (o : Option Outgoing)
      → ((x : Outgoing) → o ≡ some x → IsForwarded up net s.world request x)
      → ForwardOutcome request s (run (exchange up o) s)
  exchanged request s none h = inl (_, refl)
  exchanged request s (some o) h = inr (o, refl, h o refl)

  outgoing-target :
      (request : Request) (user : Claims) (service : ExternalService) (method target : String)
      (o : Outgoing)
      → outgoing up request user service method target ≡ some o
      → target ≡ o.target
  outgoing-target request user service method target o e =
      elim (Option-cases (build_headers up request user service)) [
        | inl none' ↦ ground arith
        | inr (hs, built) ↦ elim (Option-cases (proxy_timeout_ms up up.service_proxy_timeout_ms)) [
          | inl none' ↦ ground arith
          | inr (ms, read) ↦ ground arith
        ]
      ]

  -- The check of the role: passed at once, or by the count of the assignments.
  gate_outcome :
      (P : Result ProxyResult × Wire → Type 0) (b : Bool) (n : Wire → ℕ) (e : Failure)
      (k : Prog Wire ProxyResult) (s : Wire)
      → P (err e, s)
      → ((b ≡ true) ⊎ (eqb (n s) 0 ≡ false) → P (run k s))
      → P (run ((if b then ret tt else (query n >>= λ m. guard (not (eqb m 0)) e)) >>= λ _. k) s)
  gate_outcome P true n e k s fails goes = goes (inl refl)
  gate_outcome P false n e k s fails goes =
      outcome-guard P (not (eqb (n s) 0)) e k s fails (λ h. goes (inr (ground arith)))

  authorized_outcome :
      (P : Result ProxyResult × Wire → Type 0) (user : Claims) (menu_id : String)
      (k : Prog Wire ProxyResult) (s : Wire)
      → ((e : Failure) → P (err e, s))
      → ((has_full_access up user.role_name ≡ true)
            ⊎ (eqb (assignments s.world user.role_id menu_id) 0 ≡ false)
          → P (run k s))
      → P (run (ensure_authorized up user menu_id >>= λ _. k) s)
  unfolding ensure_authorized
  authorized_outcome P user menu_id k s fails goes =
      gate_outcome P (has_full_access up user.role_name)
        (λ w. assignments w.world user.role_id menu_id) _ k s (fails _) goes

  -- A request is refused without contact of any service and without a change, or exactly one
  -- service is contacted, once, and its outcome is the answer; then the request has a user, the
  -- route is the first open one that matches the path and allows the method, the user's role may use
  -- it, the target is a safe one, and what is sent is composed for that target, user and service.
  pub forward-IsForwarded :
      (request : Request) (s : Wire) → ForwardOutcome request s (run (forward up net request) s)
  unfolding forward
  forward-IsForwarded request s =
      let P = ForwardOutcome request s in
      let fails = λ (e : Failure). inl (e, refl) in
      outcome-some_or P _ request.user _ s (fails _) λ user authenticated.
        outcome-lift P (resolve_route up s.world (extract_public_path (request_url request))) _ s
          fails
          λ match found. outcome-some_or P _ match _ s (fails _) λ resolved matched.
            outcome-guard P (includes (to_upper request.method) resolved.route.methods) _ _ s
              (fails _)
              λ allowed. authorized_outcome P user resolved.route.menu_id _ s fails λ authorized.
                outcome-some_or P _
                  (build_target_url up resolved.service.base_url resolved.route.target_path
                    (request_url request) resolved.params)
                  _ s (fails _)
                  λ target addressed.
                    outcome-lift P (assert_safe_probe_target net target) _ s fails λ checked safe.
                      exchanged request s
                        (outgoing up request user resolved.service (to_upper request.method) target)
                        λ o composed.
                          let same =
                            outgoing-target request user resolved.service (to_upper request.method)
                              target o composed in
                          record {
                            user = user;
                            resolved = resolved;
                            checked = checked;
                            authenticated = authenticated;
                            registered = found ∙ ap ok matched;
                            allowed = allowed;
                            authorized = authorized;
                            addressed = addressed ∙ ap some same;
                            safe = rw same at safe;
                            composed = rw same at composed;
                          }
