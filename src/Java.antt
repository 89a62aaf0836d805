-- ===== src/Java.antt =====
-- The `long`, the `int` and the split text of Java.
use text.Mathlib.Text.{◌==◌ as str_eq}
use rabbitmq_perf_test.Base.{ℕ, ◌+◌, ◌-◌, ◌/◌, ◌%◌, Bool, String, List, [], ◌∷◌, ltb, if◌then◌else◌}

-- A `long` is given by its 64 bits, read without a sign.
abbrev pub wrap : ℕ
wrap = 18_446_744_073_709_551_616

abbrev pub half : ℕ
half = 9_223_372_036_854_775_808

abbrev pub add_long : ℕ → ℕ → ℕ
add_long a b = (a + b) % wrap

abbrev pub sub_long : ℕ → ℕ → ℕ
sub_long a b = (a + wrap - b) % wrap

abbrev pub neg_long : ℕ → ℕ
neg_long a = (wrap - a) % wrap

abbrev pub lt_long : ℕ → ℕ → Bool
lt_long a b = ltb ((a + half) % wrap) ((b + half) % wrap)

-- Division goes towards 0. No divisor of the code is 0: the counts are below 2 ^ 53.
abbrev pub div_long : ℕ → ℕ → ℕ
div_long a b =
    if ltb a half
    then (if ltb b half then a / b else neg_long (a / neg_long b))
    else (if ltb b half then neg_long (neg_long a / b) else neg_long a / neg_long b % wrap)

-- An `int` is given by its 32 bits.
abbrev pub int_range : ℕ
int_range = 4_294_967_296

abbrev pub lt_int : ℕ → ℕ → Bool
lt_int a b = ltb ((a + 2_147_483_648) % int_range) ((b + 2_147_483_648) % int_range)

-- `String.split` drops the empty words at the end.
unfoldable pub without_trailing : List String → List String
without_trailing [] = []
without_trailing (w ∷ ws) = elim (without_trailing ws) [
  | [] ↦ if str_eq w "" then [] else w ∷ []
  | v ∷ vs ↦ w ∷ v ∷ vs
]
