-- ===== src/Text.antt =====
-- The operations of JavaScript's String that the handlers use, over code points.
use Prim.Native.Char.{Char, code}
use Prim.Native.String
use Prim.Native.String.{String, [], ◌∷◌}
use mathlib.Core.Bool.{Bool, true, false, ◌||◌, ◌&&◌}
use mathlib.Core.List.{List}
use master_gateway_auth.Prelude.{ℕ, zero, suc, ◌==◌, leb, eqb, if◌then◌else◌}

abbrev pub push : String → Char → String
push s c = String.◌++◌ s (c ∷ [])

-- `split` on one character: the part that is being read, then the parts
split_from : ℕ → String → String → List String
split_from sep part [] = List.◌∷◌ part List.[]
split_from sep part (c ∷ s) =
    let closed = List.◌∷◌ part (split_from sep "" s) in
    let longer = split_from sep (push part c) s in if eqb (code c) sep then closed else longer

unfoldable pub split : ℕ → String → List String
unfolding split_from
split sep s = split_from sep "" s

-- White space, as `trim` and `\s` read it: tab, line feed, vertical tab, form feed, carriage return,
-- space, no-break space, and the spaces and separators of Unicode.
abbrev pub is_space : ℕ → Bool
is_space c =
    leb 9 c && leb c 13
    || eqb c 32
    || eqb c 160
    || eqb c 5760
    || leb 8192 c && leb c 8202
    || eqb c 8232
    || eqb c 8233
    || eqb c 8239
    || eqb c 8287
    || eqb c 12288
    || eqb c 65279

unfoldable pub trim_start : String → String
trim_start [] = []
trim_start (c ∷ s) = let rest = trim_start s in if is_space (code c) then rest else c ∷ s

-- What is left when the white space at the end is gone.
unfoldable pub keep_from : Char → String → String
keep_from c [] = if is_space (code c) then [] else c ∷ []
keep_from c (d ∷ s) = c ∷ d ∷ s

unfoldable pub trim_end : String → String
trim_end [] = []
trim_end (c ∷ s) = keep_from c (trim_end s)

unfoldable pub trim : String → String
unfolding trim_start trim_end keep_from
trim s = trim_end (trim_start s)

-- `startsWith`
unfoldable pub starts_with : String → String → Bool
starts_with [] s = true
starts_with (c ∷ p) [] = false
starts_with (c ∷ p) (d ∷ s) = eqb (code c) (code d) && starts_with p s

-- `slice(n)` after a prefix: the text without the prefix
unfoldable pub drop_prefix : String → String → String
drop_prefix [] s = s
drop_prefix (c ∷ p) [] = []
drop_prefix (c ∷ p) (d ∷ s) = drop_prefix p s

-- The character at the place of `c` in the first text, taken from the second.
abbrev translate : String → String → Char → Char
translate [] bs c = c
translate (a ∷ as') [] c = c
translate (a ∷ as') (b ∷ bs) c =
    let rest = translate as' bs c in if eqb (code c) (code a) then b else rest

abbrev map_text : (Char → Char) → String → String
map_text f [] = []
map_text f (c ∷ s) = f c ∷ map_text f s

-- `toUpperCase` and `toLowerCase` on the letters whose other case is ASCII, with the dotless i, the
-- long s and the Kelvin sign among them. The other letters are left alone: what comes out is only
-- compared with ASCII words.
unfoldable pub to_upper : String → String
to_upper = map_text (translate "abcdefghijklmnopqrstuvwxyzıſ" "ABCDEFGHIJKLMNOPQRSTUVWXYZIS")

unfoldable pub to_lower : String → String
to_lower = map_text (translate "ABCDEFGHIJKLMNOPQRSTUVWXYZK" "abcdefghijklmnopqrstuvwxyzk")

-- `Array.join`
unfoldable pub join : String → List String → String
join sep List.[] = ""
join sep (List.◌∷◌ s List.[]) = s
join sep (List.◌∷◌ s (List.◌∷◌ t ts)) = String.◌++◌ s (String.◌++◌ sep (join sep (List.◌∷◌ t ts)))

-- `replaceAll` of one character
unfoldable pub replace_char : ℕ → String → String → String
replace_char old new [] = []
replace_char old new (c ∷ s) =
    let rest = replace_char old new s in if eqb (code c) old then String.◌++◌ new rest else c ∷ rest

-- The text without one trailing character of that code: `replace(/c$/, '')`
unfoldable pub drop_last_char : ℕ → String → String
drop_last_char c [] = []
drop_last_char c (d ∷ []) = if eqb (code d) c then [] else d ∷ []
drop_last_char c (d ∷ e ∷ s) = d ∷ drop_last_char c (e ∷ s)

-- `replace(/^c/, '')`
unfoldable pub drop_first_char : ℕ → String → String
drop_first_char c [] = []
drop_first_char c (d ∷ s) = if eqb (code d) c then s else d ∷ s

-- `replace(/^c+/, '')`
unfoldable pub drop_chars : ℕ → String → String
drop_chars c [] = []
drop_chars c (d ∷ s) = let rest = drop_chars c s in if eqb (code d) c then rest else d ∷ s

-- `includes` on texts
unfoldable pub contains : String → String → Bool
contains part [] = starts_with part []
contains part (c ∷ s) = starts_with part (c ∷ s) || contains part s

-- `replace(/c+$/, '')`
unfoldable pub drop_trailing : ℕ → String → String
drop_trailing c [] = []
drop_trailing c (d ∷ s) =
    let rest = drop_trailing c s in if rest == "" && eqb (code d) c then [] else d ∷ rest

-- `slice(0, n)`
unfoldable pub take_chars : ℕ → String → String
take_chars n [] = []
take_chars zero (c ∷ s) = []
take_chars (suc n) (c ∷ s) = c ∷ take_chars n s
