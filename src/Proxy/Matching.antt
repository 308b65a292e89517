-- ===== src/Proxy/Matching.antt =====
-- service-proxy.service.ts, `matchPath`: which paths a pattern matches, and with which parameters.
use master_gateway_auth.Prelude.{
  String, Bool, true, false, not, ◌&&◌, ◌||◌, some, List, [], ◌∷◌, ◌≡◌, refl, ◌∙◌, ap, inl, inr,
  arith, eq_iff, truthy, if◌then◌else◌, Bool-cases, Option-cases, entry, set_entry, entry-set_entry,
  includes, length, eqb, all, ◌⊎◌, all-select, suc,
}
use master_gateway_auth.Prog.{ok}
use master_gateway_auth.Text.{split, starts_with, drop_prefix}
use master_gateway_auth.Proxy.{Upstream}
use master_gateway_auth.Proxy.Paths.{Params, parts, match_parts, match_path}

abbrev pub is_param : String → Bool
is_param part = starts_with ":" part

abbrev pub param_name : String → String
param_name part = drop_prefix ":" part

-- The names of the parameters of a pattern, in their order.
abbrev pub param_names : List String → List String
param_names [] = []
param_names (p ∷ ps) = if is_param p then param_name p ∷ param_names ps else param_names ps

abbrev pub all_distinct : List String → Bool
all_distinct [] = true
all_distinct (n ∷ ns) = not (includes n ns) && all_distinct ns

module _ (up : Upstream) where
  -- A part of a pattern and the part of the path at its place: a parameter has the decoded part as
  -- its value, anything else is the part itself.
  abbrev pub FitsPart : Params → String → String → Type 0
  FitsPart ps p a =
      ((is_param p ≡ true)
        × (d : String) × (up.decode_uri a ≡ some d)
        × (entry (param_name p) ps ≡ some d))
      ⊎ ((is_param p ≡ false) × (p ≡ a))

  -- The two lists have one length, and fit part by part.
  abbrev pub Fits : Params → List String → List String → Type 0
  Fits ps [] [] = Unit
  Fits ps [] (a ∷ actual) = ¬ Unit {0}
  Fits ps (p ∷ pattern) [] = ¬ Unit {0}
  Fits ps (p ∷ pattern) (a ∷ actual) = FitsPart ps p a × Fits ps pattern actual

  -- A round that goes on: with the value of a parameter, or past a part that is the same.
  step-cases :
      (p a : String) (pattern actual : List String) (acc ps : Params)
      → match_parts up (p ∷ pattern) (a ∷ actual) acc ≡ ok (some ps)
      → ((is_param p ≡ true)
          × (d : String) × (up.decode_uri a ≡ some d)
          × (match_parts up pattern actual (set_entry (param_name p) d acc) ≡ ok (some ps)))
        ⊎ ((is_param p ≡ false) × (p ≡ a) × (match_parts up pattern actual acc ≡ ok (some ps)))
  step-cases p a pattern actual acc ps e = elim (Bool-cases (not (truthy p) || not (truthy a))) [
    | inl empty ↦ ground arith
    | inr full ↦ elim (Bool-cases (is_param p)) [
      | inl param ↦ elim (Option-cases (up.decode_uri a)) [
        | inl fails ↦ ground arith
        | inr (d, decoded) ↦ inl (param, d, decoded, ground arith)
      ]
      | inr literal ↦ ground (arith, eq_iff p a)
    ]
  ]

  -- A name that the pattern does not have keeps its value.
  entry-match_parts :
      (k : String) (pattern actual : List String) (acc ps : Params)
      → includes k (param_names pattern) ≡ false
      → match_parts up pattern actual acc ≡ ok (some ps)
      → entry k ps ≡ entry k acc
  entry-match_parts k [] actual acc ps other e = ground arith
  entry-match_parts k (p ∷ pattern) [] acc ps other e = cc
  entry-match_parts k (p ∷ pattern) (a ∷ actual) acc ps other e =
      elim (step-cases p a pattern actual acc ps e) [
        | inl (param, d, decoded, rest) ↦
            entry-match_parts k pattern actual (set_entry (param_name p) d acc) ps (ground arith)
              rest
            ∙ entry-set_entry k (param_name p) d acc
            ∙ ground arith
        | inr (literal, same, rest) ↦ entry-match_parts k pattern actual acc ps (ground arith) rest
      ]

  match_parts-Fits :
      (pattern actual : List String) (acc ps : Params)
      → all_distinct (param_names pattern) ≡ true
      → match_parts up pattern actual acc ≡ ok (some ps)
      → length pattern ≡ length actual
      → Fits ps pattern actual
  match_parts-Fits [] [] acc ps distinct e same = tt
  match_parts-Fits [] (a ∷ actual) acc ps distinct e same = absurd (ground arith)
  match_parts-Fits (p ∷ pattern) [] acc ps distinct e same = absurd (ground arith)
  match_parts-Fits (p ∷ pattern) (a ∷ actual) acc ps distinct e same =
      elim (step-cases p a pattern actual acc ps e) [
        | inl (param, d, decoded, rest) ↦
            let value =
              entry-match_parts (param_name p) pattern actual (set_entry (param_name p) d acc) ps
                (ground arith) rest
              ∙ entry-set_entry (param_name p) (param_name p) d acc in
            (
              inl (param, d, decoded, ground (arith, eq_iff (param_name p) (param_name p))),
              match_parts-Fits pattern actual (set_entry (param_name p) d acc) ps (ground arith)
                  rest (ground arith),
            )
        | inr (literal, same', rest) ↦ (
          inr (literal, same'),
          match_parts-Fits pattern actual acc ps (ground arith) rest (ground arith),
        )
      ]

  -- Conversely, lists without empty parts that fit are matched, from any parameters on.
  Fits-match_parts :
      (pattern actual : List String) (acc ps : Params)
      → all truthy pattern ≡ true
      → all truthy actual ≡ true
      → Fits ps pattern actual
      → (qs : Params) × (match_parts up pattern actual acc ≡ ok (some qs))
  Fits-match_parts [] [] acc ps fp fa h = (acc, refl)
  Fits-match_parts [] (a ∷ actual) acc ps fp fa h = absurd (h tt)
  Fits-match_parts (p ∷ pattern) [] acc ps fp fa h = absurd (h tt)
  Fits-match_parts (p ∷ pattern) (a ∷ actual) acc ps fp fa (inl (param, d, decoded, value), h) =
      let (qs, e) =
        Fits-match_parts pattern actual (set_entry (param_name p) d acc) ps (ground arith)
          (ground arith) h in
      (qs, ground arith)
  Fits-match_parts (p ∷ pattern) (a ∷ actual) acc ps fp fa (inr (literal, same), h) =
      let (qs, e) = Fits-match_parts pattern actual acc ps (ground arith) (ground arith) h in
      (qs, ground (arith, eq_iff p a))

  parts_full : (path : String) → all truthy (parts path) ≡ true
  parts_full path = all-select truthy (split b'/' path)

  Fits-length :
      (ps : Params) (pattern actual : List String)
      → Fits ps pattern actual
      → length pattern ≡ length actual
  Fits-length ps [] [] h = refl
  Fits-length ps [] (a ∷ actual) h = absurd (h tt)
  Fits-length ps (p ∷ pattern) [] h = absurd (h tt)
  Fits-length ps (p ∷ pattern) (a ∷ actual) (f, h) = ap suc (Fits-length ps pattern actual h)

  -- The parameters that a match returns fit: the path has as many parts as the pattern, the value
  -- of each parameter is the decoded part at its place, and the other parts are the same; the names
  -- of the parameters differ.
  pub match_path-Fits :
      (pattern actual : String) (ps : Params)
      → all_distinct (param_names (parts pattern)) ≡ true
      → match_path up pattern actual ≡ ok (some ps)
      → Fits ps (parts pattern) (parts actual)
  unfolding match_path
  match_path-Fits pattern actual ps distinct e =
      elim (Bool-cases (eqb (length (parts pattern)) (length (parts actual)))) [
        | inr other ↦ ground arith
        | inl same ↦
            match_parts-Fits (parts pattern) (parts actual) [] ps distinct (ground arith)
              (ground arith)
      ]

  -- A path that fits the pattern, with some parameters, is matched.
  pub Fits-match_path :
      (pattern actual : String) (ps : Params)
      → Fits ps (parts pattern) (parts actual)
      → (qs : Params) × (match_path up pattern actual ≡ ok (some qs))
  unfolding match_path
  Fits-match_path pattern actual ps h =
      let (qs, e) =
        Fits-match_parts (parts pattern) (parts actual) [] ps (parts_full pattern)
          (parts_full actual) h in
      (qs, ground (arith, Fits-length ps (parts pattern) (parts actual) h))
