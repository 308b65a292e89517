-- ===== src/Cleaning/Tags.antt =====
-- sanitize.decorator.ts: no tag is left in a text that was cleaned.
use Prim.Native.Char.{Char, code}
use Prim.Native.String.{String, [], ◌∷◌}
use mathlib.Core.Bool.{Bool, true, false, not, ◌&&◌}
use master_gateway_auth.Prelude.{◌≡◌, refl, arith, eqb, if◌then◌else◌}
use master_gateway_auth.Text.{trim, trim_start, trim_end, keep_from, is_space}
use master_gateway_auth.Cleaning.{
  replace_control_characters, has_char, strip_tags, collapse_spaces, sanitize_string,
}

-- No `<` has a `>` after it.
abbrev pub no_tag : String → Bool
no_tag [] = true
no_tag (c ∷ s) = not (eqb (code c) b'<' && has_char b'>' s) && no_tag s

has-strip_tags :
    (inside : Bool) (s : String)
    → has_char b'>' (strip_tags inside s) ≡ true
    → has_char b'>' s ≡ true
unfolding strip_tags
has-strip_tags inside [] h = ground arith
has-strip_tags true (c ∷ s) h = ground (arith, has-strip_tags false s, has-strip_tags true s)
has-strip_tags false (c ∷ s) h = ground (arith, has-strip_tags false s, has-strip_tags true s)

no_tag-strip_tags : (inside : Bool) (s : String) → no_tag (strip_tags inside s) ≡ true
unfolding strip_tags
no_tag-strip_tags inside [] = refl
no_tag-strip_tags true (c ∷ s) = ground (arith, no_tag-strip_tags false s, no_tag-strip_tags true s)
no_tag-strip_tags false (c ∷ s) =
    ground (arith, no_tag-strip_tags false s, no_tag-strip_tags true s, has-strip_tags false s)

-- The other steps add neither `<` nor `>`.
has-replace :
    (s : String) → has_char b'>' (replace_control_characters s) ≡ true → has_char b'>' s ≡ true
unfolding replace_control_characters
has-replace [] h = ground arith
has-replace (c ∷ s) h = ground (arith, has-replace s)

no_tag-replace : (s : String) → no_tag s ≡ true → no_tag (replace_control_characters s) ≡ true
unfolding replace_control_characters
no_tag-replace [] h = refl
no_tag-replace (c ∷ s) h = ground (arith, no_tag-replace s, has-replace s)

has-collapse :
    (inside : Bool) (s : String)
    → has_char b'>' (collapse_spaces inside s) ≡ true
    → has_char b'>' s ≡ true
unfolding collapse_spaces
has-collapse inside [] h = ground arith
has-collapse inside (c ∷ s) h = ground (arith, has-collapse true s, has-collapse false s)

no_tag-collapse :
    (inside : Bool) (s : String) → no_tag s ≡ true → no_tag (collapse_spaces inside s) ≡ true
unfolding collapse_spaces
no_tag-collapse inside [] h = refl
no_tag-collapse inside (c ∷ s) h =
    ground (arith, no_tag-collapse true s, no_tag-collapse false s, has-collapse false s)

no_tag-trim_start : (s : String) → no_tag s ≡ true → no_tag (trim_start s) ≡ true
unfolding trim_start
no_tag-trim_start [] h = refl
no_tag-trim_start (c ∷ s) h = ground (arith, no_tag-trim_start s)

has-keep_from :
    (c : Char) (s : String) → has_char b'>' (keep_from c s) ≡ true → has_char b'>' (c ∷ s) ≡ true
unfolding keep_from
has-keep_from c [] h = last (is_space (code c)) h
  where
    last :
        (b : Bool) → has_char b'>' (if b then [] else c ∷ []) ≡ true → has_char b'>' (c ∷ []) ≡ true
    last true e = cc
    last false e = e
has-keep_from c (d ∷ s) h = h

no_tag-keep_from : (c : Char) (s : String) → no_tag (c ∷ s) ≡ true → no_tag (keep_from c s) ≡ true
unfolding keep_from
no_tag-keep_from c [] h = last (is_space (code c))
  where
    last : (b : Bool) → no_tag (if b then [] else c ∷ []) ≡ true
    last true = refl
    last false = h
no_tag-keep_from c (d ∷ s) h = h

has-trim_end : (s : String) → has_char b'>' (trim_end s) ≡ true → has_char b'>' s ≡ true
unfolding trim_end
has-trim_end [] h = h
has-trim_end (c ∷ s) h = ground (arith, has-keep_from c (trim_end s), has-trim_end s)

no_tag-trim_end : (s : String) → no_tag s ≡ true → no_tag (trim_end s) ≡ true
unfolding trim_end
no_tag-trim_end [] h = h
no_tag-trim_end (c ∷ s) h =
    no_tag-keep_from c (trim_end s) (ground (arith, no_tag-trim_end s, has-trim_end s))

no_tag-trim : (s : String) → no_tag s ≡ true → no_tag (trim s) ≡ true
unfolding trim
no_tag-trim s h = no_tag-trim_end (trim_start s) (no_tag-trim_start s h)

-- A text that was cleaned has no `<` with a `>` after it, so no tag, whatever it was.
pub no_tag-sanitize_string : (value : String) → no_tag (sanitize_string value) ≡ true
unfolding sanitize_string
no_tag-sanitize_string value =
    let stripped = strip_tags false (trim value) in
    no_tag-trim (collapse_spaces false (replace_control_characters stripped)) (
      no_tag-collapse false (replace_control_characters stripped)
        (no_tag-replace stripped (no_tag-strip_tags false (trim value))))
