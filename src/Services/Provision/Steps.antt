-- ===== src/Services/Provision/Steps.antt =====
-- `provision`: the rows that its loops add, in closed form.
use master_gateway_auth.Prelude.{
  ℕ, suc, ◌+◌, String, List, [], ◌∷◌, ◌++◌, ◌≡◌, refl, ◌∙◌, ap, length,
}
use mathlib.Core.List.{append-nil, append_assoc}
use master_gateway_auth.Prog.{ret, ok, run, database, ◌>>=◌}
use master_gateway_auth.Prog.Runs.{run-bind_ok, run-insert_ok}
use master_gateway_auth.Prog.Outcomes.{outcome-eq}
use master_gateway_auth.Db.{Menu, ExternalService, ExternalServiceRoute, World}
use master_gateway_auth.Platform.{Platform}
use master_gateway_auth.Menus.Routes.{route_taken}
use master_gateway_auth.Services.Provision

module _ (pf : Platform) (actor : String) where
  -- The leaves and the routes of the items: the draws are numbered from d, the items from an index.
  module _ (module_id root_id : String) where
    abbrev pub leaves_at : ℕ → ℕ → List Provision.ProvisionMenuItemDto → List Menu
    leaves_at d index [] = []
    leaves_at d index (item ∷ items) =
        Provision.leaf_menu (pf.uuid d) item index module_id root_id actor
        ∷ leaves_at (d + 1 + 1) (index + 1) items

  abbrev pub routes_at :
      ExternalService → ℕ → List Provision.ProvisionMenuItemDto → List ExternalServiceRoute
  routes_at s d [] = []
  routes_at s d (item ∷ items) =
      Provision.item_route (pf.uuid (d + 1)) (pf.uuid d) item s actor
      ∷ routes_at s (d + 1 + 1) items

  abbrev pub draws_after : ℕ → List Provision.ProvisionMenuItemDto → ℕ
  draws_after d [] = d
  draws_after d (item ∷ items) = draws_after (d + 1 + 1) items

  abbrev pub leaf_ids : ℕ → List Provision.ProvisionMenuItemDto → List String
  leaf_ids d [] = []
  leaf_ids d (item ∷ items) = pf.uuid d ∷ leaf_ids (d + 1 + 1) items

  pub length-leaf_ids :
      (d : ℕ) (items : List Provision.ProvisionMenuItemDto)
      → length (leaf_ids d items) ≡ length items
  length-leaf_ids d [] = refl
  length-leaf_ids d (item ∷ items) = ap suc (length-leaf_ids (d + 1 + 1) items)

  abbrev pub with_leaves :
      ExternalService → String → String → ℕ → List Provision.ProvisionMenuItemDto → World → World
  with_leaves s module_id root_id index items w = record w {
    menus = w.menus ++ leaves_at module_id root_id w.draws index items;
    service_routes = w.service_routes ++ routes_at s w.draws items;
    draws = draws_after w.draws items;
  }

  -- A step of the loop: the leaf, and its route.
  abbrev leaf_stored : String → String → ℕ → Provision.ProvisionMenuItemDto → World → World
  leaf_stored module_id root_id index item w = record w {
    menus =
        w.menus ++ Provision.leaf_menu (pf.uuid w.draws) item index module_id root_id actor ∷ [];
    draws = w.draws + 1 + 1;
  }

  abbrev new_route : ExternalService → Provision.ProvisionMenuItemDto → World → ExternalServiceRoute
  new_route s item w = Provision.item_route (pf.uuid (w.draws + 1)) (pf.uuid w.draws) item s actor

  abbrev route_stored : ExternalServiceRoute → World → World
  route_stored r w = record w { service_routes = w.service_routes ++ r ∷ [] }

  with_leaves-step :
      (s : ExternalService) (module_id root_id : String) (index : ℕ)
      (item : Provision.ProvisionMenuItemDto) (items : List Provision.ProvisionMenuItemDto)
      (w : World)
      → with_leaves s module_id root_id
          (index + 1)
          items
          (route_stored (new_route s item w) (leaf_stored module_id root_id index item w))
        ≡ with_leaves s module_id root_id index (item ∷ items) w
  with_leaves-step s module_id root_id index item items w = simp append_assoc

  with_leaves-nil :
      (s : ExternalService) (module_id root_id : String) (index : ℕ) (w : World)
      → w ≡ with_leaves s module_id root_id index [] w
  with_leaves-nil s module_id root_id index w = simp append-nil

  pub create_leaves_ok :
      (s : ExternalService) (module_id root_id : String) (index : ℕ)
      (items : List Provision.ProvisionMenuItemDto) (w : World) {ids : List String} {w' : World}
      → run (Provision.create_leaves pf actor s module_id root_id index items) w ≡ (ok ids, w')
      → (ids ≡ leaf_ids w.draws items) × (w' ≡ with_leaves s module_id root_id index items w)
  create_leaves_ok s module_id root_id index [] w e =
      let (same, state) = outcome-eq e in
      (same, state ∙ with_leaves-nil s module_id root_id index w)
  create_leaves_ok s module_id root_id index (item ∷ items) w {ids} {w'} e =
      let r = new_route s item w in
      let stored = leaf_stored module_id root_id index item w in
      let (free, e1) =
        run-insert_ok (route_taken r) (route_stored r) (database "P2002")
          (λ _. Provision.create_leaves pf actor s module_id root_id (index + 1) items >>= λ rest.
            ret (pf.uuid w.draws ∷ rest))
          stored e in
      let (rest, v, e2, e3) =
        run-bind_ok (Provision.create_leaves pf actor s module_id root_id (index + 1) items)
          (λ rest. ret (pf.uuid w.draws ∷ rest)) (route_stored r stored) e1 in
      let (same, state) =
        create_leaves_ok s module_id root_id (index + 1) items (route_stored r stored) e2 in
      let (listed, state') = outcome-eq e3 in
      (
        listed ∙ ap (◌∷◌ (pf.uuid w.draws)) same,
        state' ∙ state ∙ with_leaves-step s module_id root_id index item items w,
      )
