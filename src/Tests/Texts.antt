-- ===== src/Tests/Texts.antt =====
-- The tests on concrete texts.
use master_gateway_auth.Prelude.{◌≡◌, refl, [], ◌∷◌}
use master_gateway_auth.Text.{split, trim, to_upper, join, drop_chars}

split_example : split b',' "a, b,,c" ≡ "a" ∷ " b" ∷ "" ∷ "c" ∷ []
unfolding split
split_example = refl

trim_example : trim "  a b  " ≡ "a b"
unfolding trim
trim_example = refl

to_upper_example : to_upper "Super_admın" ≡ "SUPER_ADMIN"
unfolding to_upper
to_upper_example = refl

join_example : join ", " ("a" ∷ "b" ∷ "c" ∷ []) ≡ "a, b, c"
unfolding join
join_example = refl

slashes_example : drop_chars b'/' "//a/b" ≡ "a/b"
unfolding drop_chars
slashes_example = refl
