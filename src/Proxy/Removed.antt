-- ===== src/Proxy/Removed.antt =====
-- Removals and the proxy: a service, or a module, that was removed is not reached any more.
use master_gateway_auth.Prelude.{
  Within, String, Bool, true, false, ◌&&◌, some, List, [], ◌∷◌, ◌≡◌, ◌≢◌, refl, sym, ◌∙◌, ap, subst,
  inl, inr, ◌==◌, eq_iff, Bool-cases, any, any-append_last, update_where, includes,
}
use mathlib.Core.Bool.{false≢true}
use master_gateway_auth.Prog.{ok, run}
use master_gateway_auth.Prog.Runs.{run-some_or_ok}
use master_gateway_auth.Prog.Outcomes.{outcome-eq}
use master_gateway_auth.Db.{is_active, ExternalService, World}
use master_gateway_auth.Ssrf.{Network}
use master_gateway_auth.Modules
use master_gateway_auth.Modules.Removal.{module-IsRemoved}
use master_gateway_auth.Services
use master_gateway_auth.Services.Updates.{with_service_changed, update_service_ok}
use master_gateway_auth.Proxy.{Request, Outgoing, Upstream}
use master_gateway_auth.Proxy.Paths.{extract_public_path}
use master_gateway_auth.Proxy.Forward.{request_url}
use master_gateway_auth.Proxy.Forwarded.{IsForwarded}
use master_gateway_auth.Proxy.Resolution.{IsServing, ResolvesIn, resolve_route-ResolvesIn}

any-Within :
    {A : Type 0} (p : A → Bool) (x : A) (xs : List A) → Within x xs → p x ≡ true → any p xs ≡ true
any-Within p x xs (before, after, e) h =
    subst (λ ys. any p ys ≡ true) (sym e) (any-append_last p before (x ∷ after) (rw h refl))

-- The route of a request that is handed on is stored, and it and its service are active.
module _ (up : Upstream) (net : Network) (w : World) (request : Request) (o : Outgoing)
    (h : IsForwarded up net w request o) where
  abbrev asked : String
  asked = extract_public_path (request_url request)

  forwarded-ResolvesIn : ResolvesIn up w asked w.service_routes (ok (some h.resolved))
  forwarded-ResolvesIn =
      subst (ResolvesIn up w asked w.service_routes) h.registered
        (resolve_route-ResolvesIn up w asked)

  forwarded-stored : Within h.resolved.route w.service_routes
  forwarded-stored =
      let ((before, after, split, passed), open', hit) = forwarded-ResolvesIn in
      (before, after, split)

  forwarded-IsServing : IsServing up w asked h.resolved.route h.resolved.service
  forwarded-IsServing = forwarded-ResolvesIn.1

remove_service_ok :
    (id actor : String) (w w' : World)
    → run (Services.remove id actor) w ≡ (ok tt, w')
    → w' ≡ with_service_changed id (Services.retire actor) w
unfolding Services.remove
remove_service_ok id actor w w' e =
    let (s, found, e1) = run-some_or_ok _ (Services.active_by_id w id) _ w e in
    let (clash, row, there, e2) = update_service_ok id (Services.retire actor) _ w e1 in
    (outcome-eq e2).1

-- After a service was removed, no request is handed on to it.
pub removed-service_unreached :
    (up : Upstream) (net : Network) (id actor : String) (w w' : World) (request : Request)
    (o : Outgoing)
    → run (Services.remove id actor) w ≡ (ok tt, w')
    → (h : IsForwarded up net w' request o) → h.resolved.route.service_id ≢ id
removed-service_unreached up net id actor w w' request o removal h same =
    let open' = forwarded-IsServing up net w' request o h in
    let there =
      any-Within (λ s. s.id == h.resolved.route.service_id && is_active s.estado) h.resolved.service
        w'.services open'.stored
        (rw
          (
            (eq_iff h.resolved.service.id h.resolved.route.service_id).1 open'.same,
            open'.service_active,
          )
          refl) in
    let gone : any (λ s. s.id == id && is_active s.estado) w'.services ≡ false =
      ap (λ v. any (λ s. s.id == id && is_active s.estado) v.services)
        (remove_service_ok id actor w w' removal)
      ∙ inactive w.services in
    let there' : any (λ s. s.id == id && is_active s.estado) w'.services ≡ true =
      subst (λ x. any (λ s. s.id == x && is_active s.estado) w'.services ≡ true) same there in
    cc
  where
    inactive :
        (ss : List ExternalService)
        → any
            (λ s. s.id == id && is_active s.estado)
            (update_where (λ s. s.id == id) (Services.retire actor) ss)
          ≡ false
    inactive [] = refl
    inactive (s ∷ ss) = elim (Bool-cases (s.id == id)) [
      | inl hit ↦ rw (hit, hit) (inactive ss)
      | inr miss ↦ rw (miss, miss) (inactive ss)
    ]

-- After a module was removed, no request is handed on to a route of a menu that the module had.
pub removed-module_unreached :
    (up : Upstream) (net : Network) (id actor : String) (w w' : World) (request : Request)
    (o : Outgoing)
    → run (Modules.remove id actor) w ≡ (ok tt, w')
    → (h : IsForwarded up net w' request o)
    → includes h.resolved.route.menu_id (Modules.menu_ids id w) ≡ false
removed-module_unreached up net id actor w w' request o removal h =
    let open' = forwarded-IsServing up net w' request o h in
    let gone = (module-IsRemoved id actor w w' removal).no_route in
    elim (Bool-cases (includes h.resolved.route.menu_id (Modules.menu_ids id w))) [
      | inr other ↦ other
      | inl among ↦
          let listed =
            any-Within (Modules.route_among (Modules.menu_ids id w)) h.resolved.route
              w'.service_routes (forwarded-stored up net w' request o h)
              (rw (among, open'.route_active) refl) in
          absurd (false≢true (sym gone ∙ listed))
    ]
