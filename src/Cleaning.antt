-- ===== src/Cleaning.antt =====
-- backend/src/common/decorators/sanitize.decorator.ts: how the texts of a request are cleaned.
pub mod Tags
use Prim.Native.Char.{Char, code}
use Prim.Native.String
use Prim.Native.String.{String, [], ◌∷◌}
use mathlib.Core.Bool.{Bool, true, false, not, ◌&&◌, ◌||◌}
use master_gateway_auth.Prelude.{ℕ, if◌then◌else◌, eqb}
use master_gateway_auth.Text.{trim, is_space}

-- `CONTROL_CHARACTER_CODES`
abbrev pub is_control : ℕ → Bool
is_control c = eqb c 0 || eqb c 8 || eqb c 9 || eqb c 10 || eqb c 13 || eqb c 26

unfoldable pub replace_control_characters : String → String
replace_control_characters [] = []
replace_control_characters (c ∷ s) =
    let rest = replace_control_characters s in if is_control (code c) then " " ∷ rest else c ∷ rest

abbrev pub has_char : ℕ → String → Bool
has_char n [] = false
has_char n (c ∷ s) = eqb (code c) n || has_char n s

-- `replace(/<[^>]*>/g, '')`: a tag begins where a `>` follows, and ends with the first one.
unfoldable pub strip_tags : Bool → String → String
strip_tags inside [] = []
strip_tags true (c ∷ s) =
    let ended = strip_tags false s in
    let going_on = strip_tags true s in if eqb (code c) b'>' then ended else going_on
strip_tags false (c ∷ s) =
    let in_tag = strip_tags true s in
    let kept = c ∷ strip_tags false s in
    if eqb (code c) b'<' && has_char b'>' s then in_tag else kept

-- `replace(/\s+/g, ' ')`: outside and inside of a run of white space
unfoldable pub collapse_spaces : Bool → String → String
collapse_spaces inside [] = []
collapse_spaces inside (c ∷ s) =
    let run = collapse_spaces true s in
    let first = " " ∷ collapse_spaces true s in
    let kept = c ∷ collapse_spaces false s in
    if is_space (code c) then if inside then run else first else kept

unfoldable pub sanitize_string : String → String
sanitize_string value =
    trim (collapse_spaces false (replace_control_characters (strip_tags false (trim value))))
