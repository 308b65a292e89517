-- ===== src/Menus/Subtree.antt =====
-- menus.service.ts, `collectActiveSubtreeIds`: the rounds of the loop, and what it collects.
use mathlib.Core.Option
use master_gateway_auth.Prelude.{
  ℕ, zero, suc, ◌+◌, ◌≤◌, ◌<◌, String, Bool, true, false, ◌&&◌, ◌||◌, Option, none, some, List, [],
  ◌∷◌, ◌++◌, ◌≡◌, refl, sym, ap, subst, inl, inr, arith, ◌==◌, eq_iff, Bool-cases, truthy,
  if◌then◌else◌, map, select, includes, All, All-imp, all, not,
}
use mathlib.Core.List.{append-nil}
use native.Mathlib.Nat.{suc-add}
use master_gateway_auth.Prog.{ok, run}
use master_gateway_auth.Db.{is_active, Menu, World}
use master_gateway_auth.Menus
use master_gateway_auth.Menus.Operations
use master_gateway_auth.Menus.Cycles.{Ends, at_root, up, IsForest}

-- The number of menus on the way up.
steps : {w : World} {o : Option String} → Ends w o → ℕ
steps at_root = 0
steps (up rest) = suc (steps rest)

steps-same :
    {w : World} {o o' : Option String} (e : Ends w o) (e' : Ends w o') → o ≡ o' → steps e ≡ steps e'
unfolding steps
steps-same at_root at_root h = refl
steps-same at_root (up rest) h = cc
steps-same (up rest) at_root h = cc
steps-same {w} (up {p = p} rest) (up {p = q} rest') h =
    let same : p ≡ q = cc in ap suc (steps-same rest rest' (ap (Menus.parent_of w) same))

steps-up :
    {w : World} {o : Option String} {c : String} (e : Ends w (some c)) (e' : Ends w o)
    → Menus.parent_of w c ≡ o
    → steps e ≡ suc (steps e')
unfolding steps
steps-up (up rest) e' h = ap suc (steps-same rest e' h)

-- The menu is the only one of its id, which is not the empty text.
abbrev pub IsKeyed : World → Type 0
IsKeyed w = All (λ m. (Menus.menu_by_id w m.id ≡ some m) × (truthy m.id ≡ true)) w.menus

abbrev pub is_child : List String → Menu → Bool
is_child pending m =
    elim m.parent_id [ none ↦ false | some p ↦ includes p pending ] && is_active m.estado

-- Every active menu with a parent in the first list is in the second.
abbrev pub HoldsChildren : List String → List String → List Menu → Type 0
HoldsChildren parents ids ms = All (λ m. is_child parents m ≡ true → includes m.id ids ≡ true) ms

pub includes-append :
    (x : String) (xs ys : List String) → includes x (xs ++ ys) ≡ (includes x xs || includes x ys)
includes-append x [] ys = refl
includes-append x (y ∷ xs) ys = ground (arith, includes-append x xs ys)

module _ (w : World) (forest : IsForest w) where
  abbrev height : String → ℕ
  height id = steps (forest id)

  -- More than the height of every menu.
  abbrev total : List Menu → ℕ
  total [] = 0
  total (m ∷ ms) = suc (height m.id) + total ms

  abbrev InLevel : ℕ → ℕ → String → Type 0
  InLevel bound k p = (truthy p ≡ true) × (k ≤ height p) × (height p < bound)

  parent-of_row :
      (m : Menu) (p : String)
      → Menus.menu_by_id w m.id ≡ some m
      → m.parent_id ≡ some p
      → truthy p ≡ true
      → Menus.parent_of w m.id ≡ some p
  unfolding Option.bind
  parent-of_row m p found below said = rw (found, below, said) refl

  level_of :
      (bound k : ℕ) (p : String) (pending : List String)
      → All (InLevel bound k) pending
      → includes p pending ≡ true
      → InLevel bound k p
  level_of bound k p [] h e = cc
  level_of bound k p (q ∷ pending) (l, h) e = elim (Bool-cases (p == q)) [
    | inl here ↦ subst (InLevel bound k) (sym ((eq_iff p q).0 here)) l
    | inr there ↦ level_of bound k p pending h (ground arith)
  ]

  child-InLevel :
      (bound k : ℕ) (pending : List String) (m : Menu) (o : Option String)
      → m.parent_id ≡ o
      → All (InLevel bound k) pending
      → Menus.menu_by_id w m.id ≡ some m
      → truthy m.id ≡ true
      → height m.id < bound
      → elim o [ none ↦ false | some p ↦ includes p pending ] ≡ true
      → InLevel bound (suc k) m.id
  child-InLevel bound k pending m none below h found said low e = cc
  child-InLevel bound k pending m (some p) below h found said low e =
      let (said', high, lowp) = level_of bound k p pending h e in
      let higher = steps-up (forest m.id) (forest p) (parent-of_row m p found below said') in
      (said, omega (arith, higher, high), low)

  children-InLevel :
      (bound k : ℕ) (pending : List String) (ms : List Menu)
      → All (InLevel bound k) pending
      → All (λ m. (Menus.menu_by_id w m.id ≡ some m) × (truthy m.id ≡ true)) ms
      → total ms ≤ bound
      → All (InLevel bound (suc k)) (map (λ m. m.id) (select (is_child pending) ms))
  children-InLevel bound k pending [] h keyed low = tt
  children-InLevel bound k pending (m ∷ ms) h ((found, said), keyed) low =
      let rest = children-InLevel bound k pending ms h keyed (omega (arith, low)) in
      elim (Bool-cases (is_child pending m)) [
        | inr other ↦ rw other rest
        | inl child ↦ rw child (
          child-InLevel bound k pending m m.parent_id refl h found said (omega (arith, low))
              (ground arith),
          rest,
        )
      ]

included_first :
    (b : Bool) (m : Menu) (ms : List Menu)
    → b ≡ true
    → includes m.id (map (λ x. x.id) (if b then m ∷ ms else ms)) ≡ true
included_first true m ms h = ground (arith, eq_iff m.id m.id)
included_first false m ms h = cc

included_later :
    (b : Bool) (x : String) (m : Menu) (ms : List Menu)
    → includes x (map (λ y. y.id) ms) ≡ true
    → includes x (map (λ y. y.id) (if b then m ∷ ms else ms)) ≡ true
included_later true x m ms h = ground arith
included_later false x m ms h = h

pub children-held :
    (pending : List String) (ms : List Menu)
    → HoldsChildren pending (map (λ m. m.id) (select (is_child pending) ms)) ms
children-held pending [] = tt
children-held pending (m ∷ ms) = (
  included_first (is_child pending m) m (select (is_child pending) ms),
  All-imp
      (λ x.
        is_child pending x ≡ true
        → includes x.id (map (λ y. y.id) (select (is_child pending) ms)) ≡ true)
      (λ x.
        is_child pending x ≡ true
        → includes x.id (map (λ y. y.id) (select (is_child pending) (m ∷ ms))) ≡ true)
      (λ x held c.
        included_later (is_child pending m) x.id m (select (is_child pending) ms) (held c))
      ms (children-held pending ms),
)

is_child-append :
    (xs ys : List String) (m : Menu) → is_child (xs ++ ys) m ≡ (is_child xs m || is_child ys m)
is_child-append xs ys m = by_parent m.parent_id
  where
    by_parent :
        (o : Option String)
        → (elim o [ none ↦ false | some p ↦ includes p (xs ++ ys) ] && is_active m.estado) ≡ (
            (elim o [ none ↦ false | some p ↦ includes p xs ] && is_active m.estado)
            || (elim o [ none ↦ false | some p ↦ includes p ys ] && is_active m.estado))
    by_parent none = refl
    by_parent (some p) = ground (arith, includes-append p xs ys)

-- A round keeps it that no child of the menus that were handled is missed.
pub held-step :
    (ids pending next : List String) (ms : List Menu)
    → HoldsChildren ids (ids ++ pending) ms
    → HoldsChildren pending next ms
    → HoldsChildren (ids ++ pending) ((ids ++ pending) ++ next) ms
held-step ids pending next [] h g = tt
held-step ids pending next (m ∷ ms) (a, h) (b, g) = (
  (λ child.
      ground
        (arith, is_child-append ids pending m, includes-append m.id (ids ++ pending) next, a, b)),
  held-step ids pending next ms h g,
)

-- What the loop comes to.
pub record IsCollected (w : World) (n : ℕ) (ids pending : List String) : Type 0 where
  pub out : List String
  pub returns : (m : ℕ) → run (Operations.collect (n + m) ids pending) w ≡ (ok out, w)
  pub kept : (x : String) → includes x (ids ++ pending) ≡ true → includes x out ≡ true
  pub closed : HoldsChildren out out w.menus

module _ (w : World) (forest : IsForest w) (keyed : IsKeyed w) (bound : ℕ)
    (enough : total w forest w.menus ≤ bound) where
  collect_done :
      (n : ℕ) (ids : List String) → HoldsChildren ids (ids ++ []) w.menus → IsCollected w n ids []
  unfolding Operations.collect
  collect_done n ids held = record {
    out = ids;
    returns = λ m. refl;
    kept = λ x h. rw append-nil at h;
    closed = rw append-nil at held;
  }

  collect-IsCollected :
      (n k : ℕ) (ids pending : List String)
      → All (InLevel w forest bound k) pending
      → bound ≤ n + k
      → HoldsChildren ids (ids ++ pending) w.menus
      → IsCollected w n ids pending
  unfolding Operations.collect
  collect-IsCollected n k ids [] level fuel held = collect_done n ids held
  collect-IsCollected zero k ids (p ∷ ps) ((said, high, low), level) fuel held =
      absurd (omega (arith, high, low, fuel))
  collect-IsCollected (suc n) k ids (p ∷ ps) level fuel held =
      let next = map (λ m. m.id) (select (is_child (p ∷ ps)) w.menus) in
      let rest =
        collect-IsCollected n (suc k) (ids ++ p ∷ ps) next
          (children-InLevel w forest bound k (p ∷ ps) w.menus level keyed enough)
          (omega (arith, fuel))
          (held-step ids (p ∷ ps) next w.menus held (children-held (p ∷ ps) w.menus)) in
      record {
        out = rest.out;
        returns = λ m. rw (suc-add n m) (rest.returns m);
        kept = λ x h. rest.kept x (ground (arith, includes-append x (ids ++ p ∷ ps) next));
        closed = rest.closed;
      }

holds_all :
    (ids : List String) (ms : List Menu)
    → HoldsChildren ids ids ms
    → all (λ m. not (is_child ids m) || includes m.id ids) ms ≡ true
holds_all ids [] h = refl
holds_all ids (m ∷ ms) (a, h) = ground (arith, a, holds_all ids ms h)

childless :
    (o : Option String) (b : Bool) → (elim o [ none ↦ false | some p ↦ includes p [] ] && b) ≡ false
childless none b = refl
childless (some p) b = refl

pub none_held : (ids : List String) (ms : List Menu) → HoldsChildren [] ids ms
none_held ids [] = tt
none_held ids (m ∷ ms) =
    ((λ h. ground (arith, childless m.parent_id (is_active m.estado))), none_held ids ms)

-- In a table without cycles, whose menus have ids of their own, the collection of the menus under a
-- menu ends, from some number of rounds on with the same ids and without a change: the menu itself
-- is among them, and each active menu whose parent is among them.
pub collect-Ends :
    (w : World) (id : String)
    → IsForest w
    → IsKeyed w
    → truthy id ≡ true
    → (enough : ℕ) × (ids : List String) × ((m : ℕ)
        → run (Operations.collect (enough + m) [] (id ∷ [])) w ≡ (ok ids, w))
      × (includes id ids ≡ true)
      × (all (λ m. not (is_child ids m) || includes m.id ids) w.menus ≡ true)
collect-Ends w id forest keyed said =
    let bound = suc (height w forest id) + total w forest w.menus in
    let start : InLevel w forest bound 0 id = (said, omega arith, omega arith) in
    let c =
      collect-IsCollected w forest keyed bound (omega arith) bound 0 [] (id ∷ []) (start, tt)
        (omega arith) (none_held (id ∷ []) w.menus) in
    (
      bound,
      c.out,
      c.returns,
      c.kept id (ground (arith, eq_iff id id)),
      holds_all c.out w.menus c.closed,
    )
