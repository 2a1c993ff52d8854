-- ===== src/Value/Strings.antt =====
-- When a JavaScript value is a string.
use veritrail.Prelude.{◌≡◌, ◌↔◌, true, some, arith}
use veritrail.Text.{Str, str_eq_iff}
use veritrail.Value.{Value, str, as_str, is_str}

pub as_str-eq-some_iff : {N : Type 0} (v : Value N) (s : Str) → (as_str v ≡ some s) ↔ (v ≡ str s)
unfolding as_str
as_str-eq-some_iff (str t) s = ground arith
as_str-eq-some_iff _ s = ground arith

pub is_str_iff : {N : Type 0} (s : Str) (v : Value N) → (is_str s v ≡ true) ↔ (v ≡ str s)
unfolding is_str
is_str_iff s (str t) = ground (arith, str_eq_iff t s)
is_str_iff s _ = ground arith
