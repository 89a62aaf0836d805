-- ===== src/Indicator.antt =====
-- A value that changes over time: com.rabbitmq.perf.VariableValueIndicator. An `int` is given by its
-- 32 bits; the digits of a number are ASCII. The clock and the scheduler are arguments: the time at
-- which an update runs.
pub mod Schedule
pub mod Period
use Prim.Native.Char.{code}
use Prim.Native.String
use text.Mathlib.Text.{◌==◌ as str_eq}
use rabbitmq_perf_test.Base.{
  ℕ, zero, suc, ◌+◌, ◌-◌, ◌*◌, ◌/◌, ◌%◌, Bool, true, false, not, ◌&&◌, ◌||◌, Option, none, some,
  String, List, [], ◌∷◌, is_some, ltb, ◌==◌, if◌then◌else◌,
}
use rabbitmq_perf_test.Java.{int_range, without_trailing}
use rabbitmq_perf_test.Base.Text.{split, index_of}

unfoldable pub digits_value : (acc : ℕ) → String → Option ℕ
digits_value acc String.[] = some acc
digits_value acc (String.◌∷◌ c s) =
    let more = digits_value (acc * 10 + (code c - 48)) s in
    if ltb (code c) 48 then none else (if ltb 57 (code c) then none else more)

-- A number of at least one digit, up to a limit.
unfoldable pub unsigned : (limit : ℕ) → String → Option ℕ
unfolding digits_value
unsigned limit s = elim (digits_value 0 s) [
  | none ↦ none
  | some n ↦ if str_eq s "" then none else (if ltb limit n then none else some n)
]

abbrev pub signed : Bool → Option ℕ → Option (Bool × ℕ)
signed negative none = none
signed negative (some n) = some (negative, n)

-- `Integer.valueOf`: whether there is a minus sign, and the digits' value; `none` is a
-- NumberFormatException.
unfoldable pub integer_value : String → Option (Bool × ℕ)
unfolding unsigned
integer_value String.[] = none
integer_value (String.◌∷◌ c s) =
    if code c == 45
    then signed true (unsigned 2_147_483_648 s)
    else (if code c == 43
        then signed false (unsigned 2_147_483_647 s)
        else signed false (unsigned 2_147_483_647 (String.◌∷◌ c s)))

-- The predicates for the two parts.
abbrev pub is_value : Option (Bool × ℕ) → Bool
is_value none = false
is_value (some (negative, n)) = not negative || n == 0

abbrev pub duration_of : Option (Bool × ℕ) → Option ℕ
duration_of none = none
duration_of (some (negative, n)) = if negative || n == 0 then none else some n

-- `validate`, and the two parts with the duration as a number; `none` is an
-- IllegalArgumentException.
unfoldable pub validated : (definition : String) → Option (String × ℕ)
unfolding without_trailing integer_value
validated definition =
    if is_some (index_of ":" definition)
    then elim (without_trailing (split b':' definition)) [
      | value ∷ duration ∷ [] ↦
          if is_value (integer_value value)
          then elim (duration_of (integer_value duration)) [
            | none ↦ none
            | some d ↦ some (value, d)
          ]
          else none
      | _ ↦ none
    ]
    else none

-- A `long` that is not negative against an `int`: whether it is below.
abbrev pub below_int : ℕ → ℕ → Bool
below_int a b = ltb a b && ltb b 2_147_483_648

-- `interval.isIn` for such a value.
pub record Interval (T : Type 0) : Type 0 where
  pub start : ℕ
  pub end : ℕ
  pub value : T

module _ {T : Type 0} where
  abbrev pub is_in : ℕ → Interval T → Bool
  is_in elapsed i = not (below_int elapsed i.start) && below_int elapsed i.end

  module _ (conversion : String → T) where
    -- The loop of `intervals`, from the start of the next one.
    unfoldable pub intervals_from : ℕ → List String → Option (List (Interval T))
    intervals_from start [] = some []
    intervals_from start (definition ∷ definitions) = elim (validated definition) [
      | none ↦ none
      | some (value, duration) ↦
          let last = (start + duration) % int_range in
          elim (intervals_from last definitions) [
            | none ↦ none
            | some later ↦
                some (record { start = start; end = last; value = conversion value } ∷ later)
          ]
    ]

  -- `intervals.get(intervals.size() - 1).end`
  abbrev pub cycle_duration : List (Interval T) → ℕ
  cycle_duration [] = 0
  cycle_duration (i ∷ []) = i.end
  cycle_duration (i ∷ j ∷ is) = cycle_duration (j ∷ is)

  -- The new value, and the old and the new one that the listeners are told, if it is another one.
  unfoldable pub update_value_if_necessary :
      (equals : T → T → Bool) → List (Interval T) → (elapsed : ℕ) → T → T × Option (T × T)
  update_value_if_necessary equals [] elapsed value = (value, none)
  update_value_if_necessary equals (i ∷ is) elapsed value =
      let later = update_value_if_necessary equals is elapsed value in
      if is_in elapsed i
      then (if equals value i.value then (value, none) else (i.value, some (value, i.value)))
      else later

  -- The scheduled update at the time `now`, in nanoseconds and not before the start; `none` is an
  -- ArithmeticException, which ends the schedule. The remainder of a `long` that is not negative has
  -- no sign, whatever the sign of the cycle's duration.
  unfoldable pub update :
      (equals : T → T → Bool)
      → List (Interval T)
      → (start_time now : ℕ) → T
      → Option (T × Option (T × T))
  unfolding update_value_if_necessary
  update equals is start_time now value =
      let cycle = cycle_duration is in
      let divisor = if ltb cycle 2_147_483_648 then cycle else int_range - cycle in
      let elapsed = (now - start_time) / 1_000_000_000 in
      if cycle == 0
      then none
      else some (update_value_if_necessary equals is (elapsed % divisor) value)
