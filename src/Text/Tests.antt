-- ===== src/Text/Tests.antt =====
-- The text operations at inputs that can be followed by eye.
use runlane.Prelude.{◌≡◌, refl, some, [], ◌∷◌}
use runlane.Text.{format, join, show_u64, to_ascii_lowercase, strip_prefix, first_segment}

lower_test : to_ascii_lowercase "Active: FAILED (exit 1)" ≡ "active: failed (exit 1)"
unfolding to_ascii_lowercase
lower_test = refl

show_test : format ("n-" ∷ show_u64 1203 ∷ "/" ∷ show_u64 0 ∷ []) ≡ "n-1203/0"
unfolding format show_u64
show_test = refl

strip_test :
    strip_prefix "system:node/web-01/service/sshd" "system:node/" ≡ some "web-01/service/sshd"
unfolding strip_prefix
strip_test = refl

segment_test : first_segment "web-01/service/sshd" ≡ "web-01"
unfolding first_segment
segment_test = refl

join_test : join ("a" ∷ "b" ∷ "c" ∷ []) ", " ≡ "a, b, c"
unfolding join
join_test = refl
