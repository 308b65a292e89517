-- ===== src/Proxy/Paths.antt =====
-- service-proxy.service.ts: `extractPublicPath`, `matchPath` and `buildTargetUrl`.
use Prim.Native.Char.{code}
use Prim.Native.String
use Prim.Native.String.{[], ◌∷◌}
use mathlib.Core.List.{List}
use master_gateway_auth.Prelude.{
  ℕ, String, Bool, true, not, ◌&&◌, ◌||◌, Option, none, some, ◌==◌, or_else, truthy, if◌then◌else◌,
  leb, eqb, select, length, entry, set_entry,
}
use master_gateway_auth.Prog.{Result, ok, err, thrown}
use master_gateway_auth.Text.{split, join, push, starts_with, drop_prefix, drop_chars, contains}
use master_gateway_auth.Proxy.{Upstream}

abbrev pub Params : Type 0
Params = List (String × String)

-- `split(c)[0] ?? ''`
abbrev pub first_part : List String → String
first_part List.[] = ""
first_part (List.◌∷◌ s ss) = s

-- `split(c).slice(1)`
abbrev pub other_parts : List String → List String
other_parts List.[] = List.[]
other_parts (List.◌∷◌ s ss) = ss

-- `s.replace(/^\/api\/proxy/, '') || '/'`
abbrev pub without_mount : String → String
without_mount s =
    let rest = if starts_with "/api/proxy" s then drop_prefix "/api/proxy" s else s in
    if truthy rest then rest else "/"

unfoldable pub extract_public_path : String → String
extract_public_path url =
    String.◌++◌ "/" (drop_chars b'/' (without_mount (first_part (split b'?' url))))

-- `path.split('/').filter(Boolean)`
abbrev pub parts : String → List String
parts path = select truthy (split b'/' path)

module _ (up : Upstream) where
  -- The loop over the two paths, whose lengths are equal.
  abbrev pub match_parts : List String → List String → Params → Result (Option Params)
  match_parts List.[] as' ps = ok (some ps)
  match_parts (List.◌∷◌ p pattern) List.[] ps = ok none
  match_parts (List.◌∷◌ p pattern) (List.◌∷◌ a actual) ps =
      let bound = λ (d : String). match_parts pattern actual (set_entry (drop_prefix ":" p) d ps) in
      let next = match_parts pattern actual ps in
      if not (truthy p) || not (truthy a)
      then ok none
      else if starts_with ":" p
      then elim (up.decode_uri a) [ none ↦ err (thrown "URI malformed") | some d ↦ bound d ]
      else if p == a
      then next
      else ok none

  unfoldable pub match_path : String → String → Result (Option Params)
  match_path pattern actual =
      if not (eqb (length (parts pattern)) (length (parts actual)))
      then ok none
      else match_parts (parts pattern) (parts actual) List.[]

  -- `[A-Za-z0-9_]`
  abbrev is_word : ℕ → Bool
  is_word c =
      leb b'A' c && leb c b'Z' || leb b'a' c && leb c b'z' || leb b'0' c && leb c b'9' || eqb c b'_'

  -- What stands for `:name`; a colon without a name stays.
  abbrev pub filled : Params → String → String
  filled ps name = if truthy name then up.encode_uri (or_else (entry name ps) "") else ":"

  -- `replace(/:([A-Za-z0-9_]+)/g, …)`: outside a name, and inside one that is being read
  abbrev pub fill_from : Params → Option String → String → String
  fill_from ps none [] = ""
  fill_from ps (some name) [] = filled ps name
  fill_from ps none (c ∷ s) =
      let inside = fill_from ps (some "") s in
      let outside = c ∷ fill_from ps none s in if eqb (code c) b':' then inside else outside
  fill_from ps (some name) (c ∷ s) =
      let longer = fill_from ps (some (push name c)) s in
      let inside = String.◌++◌ (filled ps name) (fill_from ps (some "") s) in
      let outside = String.◌++◌ (filled ps name) (c ∷ fill_from ps none s) in
      if is_word (code c) then longer else if eqb (code c) b':' then inside else outside

  unfoldable pub fill : Params → String → String
  fill ps target_path = fill_from ps none target_path

  -- The query of the request, with its question mark.
  abbrev pub query_of : String → String
  query_of url =
      if contains "?" url then String.◌++◌ "?" (join "?" (other_parts (split b'?' url))) else ""

  abbrev ends_with_slash : List String → Bool
  ends_with_slash List.[] = true
  ends_with_slash (List.◌∷◌ s List.[]) = s == ""
  ends_with_slash (List.◌∷◌ s (List.◌∷◌ t ts)) = ends_with_slash (List.◌∷◌ t ts)

  -- `baseUrl.endsWith('/')`: the last part is empty, if a slash is there
  abbrev pub normalized_base : String → String
  normalized_base base =
      if contains "/" base && ends_with_slash (split b'/' base) then base else String.◌++◌ base "/"

  -- `buildTargetUrl`, as a text
  unfoldable pub build_target_url : String → String → String → Params → Option String
  build_target_url base target_path url ps =
      up.resolve_url (String.◌++◌ (drop_chars b'/' (fill ps target_path)) (query_of url))
        (normalized_base base)
