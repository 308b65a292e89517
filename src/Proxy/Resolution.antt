-- ===== src/Proxy/Resolution.antt =====
-- service-proxy.service.ts, `resolveRoute`: which route of the table serves a path.
use master_gateway_auth.Prelude.{
  String, Bool, true, false, ◌&&◌, Option, none, some, List, [], ◌∷◌, ◌++◌, ◌≡◌, refl, ap, ◌⊎◌, inl,
  inr, arith, ◌==◌, eq_iff, Bool-cases, Option-cases, any, All, Within, find, find-holds,
  find-Within,
}
use master_gateway_auth.Prog.{Result, ok, err}
use master_gateway_auth.Db.{is_active, ExternalService, ExternalServiceRoute, World}
use master_gateway_auth.Proxy.{Upstream}
use master_gateway_auth.Proxy.Paths.{Params, match_path}
use master_gateway_auth.Proxy.Forward.{
  active_service, active_routes, menu_is_open, Resolved, match_or, first_match, resolve_route,
}

any_of_none : {A : Type 0} (p : A → Bool) (xs : List A) → find p xs ≡ none → any p xs ≡ false
any_of_none p [] e = refl
any_of_none p (x ∷ xs) e = elim (Bool-cases (p x)) [
  | inl hit ↦ cc
  | inr miss ↦ rw miss (any_of_none p xs (rw miss at e))
]

module _ (up : Upstream) (w : World) (path : String) where
  -- An active menu with the id, whose module is active, is there.
  abbrev pub menu_stands : String → Bool
  menu_stands id =
      any
        (λ m.
          m.id == id
          && is_active m.estado
          && any (λ x. x.id == m.module_id && is_active x.estado) w.modules)
        w.menus

  -- The route may serve: it is active, its menu is open and its service, a row of the table of
  -- services, is active.
  pub record IsServing (r : ExternalServiceRoute) (s : ExternalService) : Type 0 where
    pub route_active : is_active r.estado ≡ true
    pub menu_open : menu_stands r.menu_id ≡ true
    pub stored : Within s w.services
    pub same : s.id ≡ r.service_id
    pub service_active : is_active s.estado ≡ true

  -- The route does not serve the path: it is closed, or it does not match.
  abbrev pub IsPassedBy : ExternalServiceRoute → Type 0
  IsPassedBy r =
      (is_active r.estado ≡ false)
      ⊎ (menu_stands r.menu_id ≡ false)
      ⊎ (any (λ s. s.id == r.service_id && is_active s.estado) w.services ≡ false)
      ⊎ (match_path up r.public_path path ≡ ok none)

  -- The route stands in the table after routes that do not serve the path.
  abbrev pub IsReached : List ExternalServiceRoute → ExternalServiceRoute → Type 0
  IsReached rs r =
      (before : List ExternalServiceRoute) × (after : List ExternalServiceRoute) × (rs
        ≡ before ++ r ∷ after)
      × All IsPassedBy before

  abbrev pub ResolvesIn : List ExternalServiceRoute → Result (Option Resolved) → Type 0
  ResolvesIn rs (ok none) = All IsPassedBy rs
  ResolvesIn rs (ok (some m)) =
      IsReached rs m.route
      × IsServing m.route m.service
      × (match_path up m.route.public_path path ≡ ok (some m.params))
  ResolvesIn rs (err e) =
      (r : ExternalServiceRoute) × (s : ExternalService) × IsReached rs r
      × IsServing r s
      × (match_path up r.public_path path ≡ err e)

  IsReached-later :
      (r x : ExternalServiceRoute) (rs : List ExternalServiceRoute)
      → IsPassedBy r
      → IsReached rs x
      → IsReached (r ∷ rs) x
  IsReached-later r x rs p (before, after, e, passed) =
      (r ∷ before, after, ap (◌∷◌ r) e, (p, passed))

  pass_by :
      (r : ExternalServiceRoute) (rs : List ExternalServiceRoute) (o : Result (Option Resolved))
      → IsPassedBy r
      → ResolvesIn rs o
      → ResolvesIn (r ∷ rs) o
  pass_by r rs (ok none) p h = (p, h)
  pass_by r rs (ok (some m)) p (at', open', hit) = (IsReached-later r m.route rs p at', open', hit)
  pass_by r rs (err e) p (x, s, at', open', hit) = (x, s, IsReached-later r x rs p at', open', hit)

  -- A round of the loop at a route that may serve.
  served :
      (r : ExternalServiceRoute) (s : ExternalService) (rs : List ExternalServiceRoute)
      (o : Result (Option Params)) (rest : Result (Option Resolved))
      → IsServing r s
      → match_path up r.public_path path ≡ o
      → ResolvesIn rs rest
      → ResolvesIn (r ∷ rs) (match_or (r, s) o rest)
  served r s rs (err e) rest open' hit h = (r, s, ([], rs, refl, tt), open', hit)
  served r s rs (ok none) rest open' miss h = pass_by r rs rest (inr (inr (inr miss))) h
  served r s rs (ok (some ps)) rest open' hit h = (([], rs, refl, tt), open', hit)

  serving :
      (r : ExternalServiceRoute) (s : ExternalService)
      → (is_active r.estado && menu_is_open w r.menu_id) ≡ true
      → active_service w r.service_id ≡ some s
      → IsServing r s
  serving r s open' found =
      let test = λ (x : ExternalService). x.id == r.service_id && is_active x.estado in
      let hit = find-holds test w.services found in
      record {
        route_active = ground arith;
        menu_open = ground arith;
        stored = find-Within test w.services found;
        same = (eq_iff s.id r.service_id).0 (ground arith);
        service_active = ground arith;
      }

  first_match-ResolvesIn :
      (rs : List ExternalServiceRoute) → ResolvesIn rs (first_match up path (active_routes w rs))
  first_match-ResolvesIn [] = tt
  first_match-ResolvesIn (r ∷ rs) =
      let rest = first_match-ResolvesIn rs in
      let later = first_match up path (active_routes w rs) in
      elim (Bool-cases (is_active r.estado && menu_is_open w r.menu_id)) [
        | inr closed ↦
            let passed : IsPassedBy r = elim (Bool-cases (is_active r.estado)) [
              | inr inactive ↦ inl inactive
              | inl active ↦ inr (inl (rw active at closed))
            ] in
            rw closed (pass_by r rs later passed rest)
        | inl open' ↦ elim (Option-cases (active_service w r.service_id)) [
          | inl none' ↦
              rw (open', none')
                (pass_by r rs later (inr (inr (inl (any_of_none _ w.services none')))) rest)
          | inr (s, found) ↦
              rw (open', found)
                (served r s rs (match_path up r.public_path path) later (serving r s open' found)
                  refl rest)
        ]
      ]

  -- The route of a path is the first one of the table that may serve it: it is active, under an
  -- active menu of an active module, with an active service, and it matches the path with the
  -- parameters of the answer; every route before it is closed or does not match. Where there is no
  -- answer, that is so of every route; an exception comes from the match of such a first route.
  pub resolve_route-ResolvesIn : ResolvesIn w.service_routes (resolve_route up w path)
  unfolding resolve_route
  resolve_route-ResolvesIn = first_match-ResolvesIn w.service_routes
