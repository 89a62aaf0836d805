-- ===== src/Tests/Indicators.antt =====
-- A rate of 200 for 6 seconds and of 1000 for 4 seconds.
use mathlib.Core.Option.{map as option_map}
use text.Mathlib.Text.{◌==◌ as str_eq}
use rabbitmq_perf_test.Base.{
  ℕ, ◌+◌, ◌-◌, ◌*◌, ◌/◌, ◌%◌, ◌<◌, ◌≡◌, refl, none, some, String, List, [], ◌∷◌, arith,
}
use rabbitmq_perf_test.Base.Text.{split, index_of}
use rabbitmq_perf_test.Java.{without_trailing}
use rabbitmq_perf_test.Indicator.{
  digits_value, unsigned, integer_value, validated, Interval, intervals_from,
  update_value_if_necessary, update,
}
use rabbitmq_perf_test.Indicator.Schedule.{parsed, value_at, settled, update-value_at}
use rabbitmq_perf_test.Indicator.Period.{
  gcd, read_duration, durations, scheduling_period, IsGcd, scheduling_period-IsGcd,
}
use rabbitmq_perf_test.Indicator.Period.Ticks.{update-scheduling_period}

abbrev definitions : List String
definitions = "200:6" ∷ "1000:4" ∷ []

abbrev intervals : List (Interval String)
intervals =
    record { start = 0; end = 6; value = "200" }
    ∷ record { start = 6; end = 10; value = "1000" }
    ∷ []

java : Unit {0}
unfolding validated split index_of without_trailing digits_value unsigned integer_value
    intervals_from update_value_if_necessary update parsed value_at gcd read_duration durations
    scheduling_period
java = tt

intervals_run : intervals_from (λ v. v) 0 definitions ≡ some intervals
unfolding java
intervals_run = refl

-- A plus sign, empty words at the end, and what is refused: no duration, a duration of 0, and a word
-- too many.
validated_run :
    (validated "+7:3::" ≡ some ("+7", 3))
    × (validated "7" ≡ none)
    × (validated "7:" ≡ none)
    × (validated "7:0" ≡ none)
    × (validated "-7:3" ≡ none)
    × (validated "-0:3" ≡ some ("-0", 3))
    × (validated "7:3:1" ≡ none)
    × (validated "7:2147483648" ≡ none)
unfolding java
validated_run = (refl, refl, refl, refl, refl, refl, refl, refl)

-- In the seventh second the value changes.
update_run :
    update str_eq intervals 5_000_000_000 11_999_999_999 "200" ≡ some ("1000", some ("200", "1000"))
unfolding java
update_run = refl

-- After 23 seconds of the cycle of 10, the value is the first one.
update-value_at_example :
    update str_eq intervals 0 23_000_000_000 "1000"
    ≡ option_map
        (λ next. settled str_eq "1000" next)
        (value_at (("200", 6) ∷ ("1000", 4) ∷ []) ((23_000_000_000 - 0) / 1_000_000_000 % 10))
unfolding java
update-value_at_example =
    update-value_at (λ v. v) str_eq definitions ("200", 6) (("1000", 4) ∷ []) intervals 0
      23_000_000_000 "1000" refl refl (omega arith)

scheduling_period_run :
    (g : ℕ) × (scheduling_period definitions ≡ some g) × (0 < g) × IsGcd g (6 ∷ 4 ∷ [])
unfolding java
scheduling_period_run = scheduling_period-IsGcd definitions ("200", 6) (("1000", 4) ∷ []) refl

-- An update at 17 seconds does what the one at 16 seconds does.
update-scheduling_period_example :
    update str_eq intervals 0 (0 + 17_500_000_000 / (2 * 1_000_000_000) * (2 * 1_000_000_000)) "200"
    ≡ update str_eq intervals 0 (0 + 17_500_000_000) "200"
unfolding java
update-scheduling_period_example =
    update-scheduling_period (λ v. v) str_eq definitions ("200", 6) (("1000", 4) ∷ []) intervals 0
      17_500_000_000 2 "200" refl refl refl (omega arith)
