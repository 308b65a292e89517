-- ===== src/Menus/Orphans.antt =====
-- menus.service.ts, `remove`: active menus whose parent is not active.
use mathlib.Core.Bool.{false≢true}
use mathlib.Core.List.{append-nil}
use master_gateway_auth.Prelude.{
  ℕ, zero, suc, String, Bool, true, false, not, ◌&&◌, ◌||◌, Option, none, some, List, [], ◌∷◌, ◌++◌,
  ◌≡◌, refl, sym, ◌∙◌, ap, subst, inl, inr, arith, ◌==◌, eq_iff, Bool-cases, map, any, select,
  update_where, includes, all, ◌⊎◌, if◌then◌else◌,
}
use master_gateway_auth.Prog.{ok, run}
use master_gateway_auth.Prog.Moves.{Moves, of_ret, Moves-bind}
use master_gateway_auth.Prog.Runs.{run-bind_ok, run-some_or_ok, run-transaction_ok}
use master_gateway_auth.Prog.Outcomes.{outcome-eq}
use master_gateway_auth.Db.{is_active, Menu, World}
use master_gateway_auth.Menus
use master_gateway_auth.Menus.Operations
use master_gateway_auth.Menus.Untouched.{SameMenus, Same-detach_proxy_route, run-same}
use master_gateway_auth.Menus.Subtree.{is_child, HoldsChildren, held-step, children-held, none_held}

-- However many rounds the collection takes, when it returns it holds all active children.
collect_ok :
    (n : ℕ) (ids pending : List String) (w : World) {out : List String} {w' : World}
    → HoldsChildren ids (ids ++ pending) w.menus
    → run (Operations.collect n ids pending) w ≡ (ok out, w')
    → HoldsChildren out out w.menus × (w' ≡ w)
unfolding Operations.collect
collect_ok n ids [] w held e =
    let (same, state) = outcome-eq e in
    let whole : HoldsChildren ids ids w.menus = rw append-nil at held in
    (subst (λ x. HoldsChildren x x w.menus) (sym same) whole, state)
collect_ok zero ids (p ∷ ps) w held e = cc
collect_ok (suc n) ids (p ∷ ps) w held e =
    let next = map (λ m. m.id) (select (is_child (p ∷ ps)) w.menus) in
    collect_ok n (ids ++ p ∷ ps) next w
      (held-step ids (p ∷ ps) next w.menus held (children-held (p ∷ ps) w.menus)) e

Same-detach_all :
    (rs : List String) (actor : String) → Moves SameMenus (Operations.detach_all rs actor)
Same-detach_all [] actor = of_ret tt
Same-detach_all (r ∷ rs) actor =
    Moves-bind (Same-detach_proxy_route r actor) (λ _. Same-detach_all rs actor)

-- The menus after a removal.
abbrev pub retired : List String → String → List Menu → List Menu
retired ids actor ms =
    update_where (λ m. includes m.id ids && is_active m.estado) (Operations.retire_menu actor) ms

remove_ok :
    (rounds : ℕ) (id actor : String) (w w' : World)
    → run (Operations.remove rounds id actor) w ≡ (ok tt, w')
    → (ids : List String) × HoldsChildren ids ids w.menus × (w'.menus ≡ retired ids actor w.menus)
unfolding Operations.remove
remove_ok rounds id actor w w' e =
    let (found, there, e1) = run-some_or_ok _ (Menus.active_menu w id) _ w e in
    let (ids, v, e2, e3) = run-bind_ok (Operations.collect rounds [] (id ∷ [])) _ w e1 in
    let (closed, same) = collect_ok rounds [] (id ∷ []) w (none_held (id ∷ []) w.menus) e2 in
    let body = run-transaction_ok (Operations.removal ids actor) v e3 in
    let granted : World = record v {
      role_menus =
          update_where (λ l. includes l.target_id ids && is_active l.estado)
            (Operations.retire_link actor) v.role_menus;
    } in
    let routes = Operations.active_routes ids granted in
    let (u, x, e4, e5) = run-bind_ok (Operations.detach_all routes actor) _ granted body in
    let kept : x.menus ≡ w.menus =
      sym (ap (λ r. r.1.menus) e4)
      ∙ run-same (Same-detach_all routes actor) granted
      ∙ ap (λ y. y.menus) same in
    (ids, closed, ap (λ y. y.menus) (outcome-eq e5).1 ∙ ap (retired ids actor) kept)

-- The parent that is referred to is active, if there is one.
abbrev pub parent_is_active : List Menu → Option String → Bool
parent_is_active ms none = true
parent_is_active ms (some p) = any (λ x. x.id == p && is_active x.estado) ms

abbrev pub is_attached : List Menu → Menu → Bool
is_attached ms m = not (is_active m.estado) || parent_is_active ms m.parent_id

-- Every active menu with a parent has an active one.
abbrev pub no_orphans : List Menu → Bool
no_orphans ms = all (is_attached ms) ms

module _ (ids : List String) (actor : String) where
  still_there :
      (p : String) (ms : List Menu)
      → includes p ids ≡ false
      → any (λ x. x.id == p && is_active x.estado) ms ≡ true
      → any (λ x. x.id == p && is_active x.estado) (retired ids actor ms) ≡ true
  still_there p [] free h = cc
  still_there p (m ∷ ms) free h = elim (Bool-cases (includes m.id ids && is_active m.estado)) [
    | inr kept ↦ rw kept (ground (arith, still_there p ms free))
    | inl gone ↦
        let other : (m.id == p) ≡ false = apart (Bool-cases (m.id == p)) gone in
        rw gone (ground (arith, still_there p ms free, other))
  ]
    where
      apart :
          ((m.id == p) ≡ true) ⊎ ((m.id == p) ≡ false)
          → (includes m.id ids && is_active m.estado) ≡ true
          → (m.id == p) ≡ false
      apart (inr miss) gone = miss
      apart (inl hit) gone =
          let same : m.id ≡ p = (eq_iff m.id p).0 hit in
          let free' : includes m.id ids ≡ false =
            subst (λ x. includes x ids ≡ false) (sym same) free in
          ground arith

  attached_still :
      (ms : List Menu) (m : Menu) (o : Option String) (b : Bool)
      → m.parent_id ≡ o
      → (includes m.id ids && is_active m.estado) ≡ b
      → (is_child ids m ≡ true → includes m.id ids ≡ true)
      → is_attached ms m ≡ true
      → is_attached (retired ids actor ms) (if b then Operations.retire_menu actor m else m) ≡ true
  attached_still ms m o true below gone closed h = refl
  attached_still ms m none false below kept closed h = rw below (ground arith)
  attached_still ms m (some p) false below kept closed h = elim (Bool-cases (is_active m.estado)) [
    | inr inactive ↦ rw inactive refl
    | inl active ↦ elim (Bool-cases (includes p ids)) [
      | inr free ↦ rw (below, active) (still_there p ms free (rw (below, active) at h))
      | inl among ↦
          let child : is_child ids m ≡ true = rw (below, among, active) refl in
          let listed = closed child in absurd (false≢true (sym kept ∙ rw (listed, active) refl))
    ]
  ]

  all_attached :
      (ms : List Menu) (xs : List Menu)
      → HoldsChildren ids ids xs
      → all (is_attached ms) xs ≡ true
      → all (is_attached (retired ids actor ms)) (retired ids actor xs) ≡ true
  all_attached ms [] closed h = refl
  all_attached ms (m ∷ xs) (c, closed) h =
      let own =
        attached_still ms m m.parent_id (includes m.id ids && is_active m.estado) refl refl c
          (ground arith) in
      rw own (all_attached ms xs closed (ground arith))

-- If every active menu with a parent has an active one, this is so after a menu was removed, however
-- many rounds were given.
pub remove-no_orphans :
    (rounds : ℕ) (id actor : String) (w w' : World)
    → no_orphans w.menus ≡ true
    → run (Operations.remove rounds id actor) w ≡ (ok tt, w')
    → no_orphans w'.menus ≡ true
remove-no_orphans rounds id actor w w' before e =
    let (ids, closed, menus) = remove_ok rounds id actor w w' e in
    subst (λ ms. no_orphans ms ≡ true) (sym menus)
      (all_attached ids actor w.menus w.menus closed before)
