-- ===== src/Indicator/Period.antt =====
-- com.rabbitmq.perf.VariableValueIndicator: how often the value is updated.
pub mod Ticks
use mathlib.Core.WellFounded.{Acc}
use Prim.Native.Nat.{◌∣◌}
use native.Mathlib.Nat.{
  dvd_refl, dvd_trans, dvd-zero, dvd-mod_iff, dvd-add, div-mul_cancel, pos_of_dvd_of_pos,
  mul-add-div_right, mul-div_cancel, div-div-eq-div-mul, mul_assoc, mul-add-mod_self_right,
  mod-eq_of_lt, mod-lt, div-mul-le_self, mul-le-mul_right, lt-div-mul-add, div-add-mod',
}
use rabbitmq_perf_test.Base.{
  ℕ, zero, suc, ◌+◌, ◌-◌, ◌*◌, ◌/◌, ◌%◌, ◌<◌, ◌≤◌, ◌≡◌, refl, ap, sym, ◌∙◌, Bool, true, false,
  Option, none, some, String, List, [], ◌∷◌, map, arith, ltb, All, Bool-cases, inl, inr,
  if◌then◌else◌,
}
use rabbitmq_perf_test.Base.Text.{split}
use rabbitmq_perf_test.Java.{without_trailing}
use rabbitmq_perf_test.Indicator.{
  integer_value, duration_of, validated, Interval, intervals_from, update,
}
use rabbitmq_perf_test.Indicator.Schedule.{
  parsed, value_at, total, settled, parsed-positive, update-value_at,
}

Acc-below : (n m : ℕ) → m < n → Acc ◌<◌ m
Acc-below zero m h = absurd (omega arith)
Acc-below (suc n) m h = Acc.intro m (λ k less. Acc-below n k (omega arith))

-- `gcd` of two durations.
gcd_acc : (a b : ℕ) → Acc ◌<◌ a → ℕ
gcd_acc zero b _ = b
gcd_acc (suc a) b (Acc.intro _ smaller) =
    gcd_acc (b % suc a) (suc a) (smaller (b % suc a) (omega arith))

unfoldable pub gcd : ℕ → ℕ → ℕ
unfolding gcd_acc Acc-below
gcd a b = gcd_acc a b (Acc-below (suc a) a (omega arith))

gcd_acc-dvd : (a b : ℕ) (w : Acc ◌<◌ a) → (gcd_acc a b w ∣ a) × (gcd_acc a b w ∣ b)
unfolding gcd_acc
gcd_acc-dvd zero b w = (dvd-zero b, dvd_refl b)
gcd_acc-dvd (suc a) b (Acc.intro _ smaller) =
    let (left, right) = gcd_acc-dvd (b % suc a) (suc a) (smaller (b % suc a) (omega arith)) in
    (right, (dvd-mod_iff _ right).0 left)

gcd_acc-greatest : (k a b : ℕ) (w : Acc ◌<◌ a) → k ∣ a → k ∣ b → k ∣ gcd_acc a b w
unfolding gcd_acc
gcd_acc-greatest k zero b w h l = l
gcd_acc-greatest k (suc a) b (Acc.intro _ smaller) h l =
    gcd_acc-greatest k (b % suc a) (suc a) (smaller (b % suc a) (omega arith))
      ((dvd-mod_iff k h).1 l) h

-- `gcd` of an array; `none` is an ArrayIndexOutOfBoundsException.
abbrev pub gcd_from : (result : ℕ) → List ℕ → ℕ
gcd_from result [] = result
gcd_from result (d ∷ ds) = gcd_from (gcd d result) ds

abbrev pub gcd_all : List ℕ → Option ℕ
gcd_all [] = none
gcd_all (d ∷ ds) = some (gcd_from d ds)

-- The number after the colon, of a definition that the constructor has accepted.
unfoldable pub read_duration : (definition : String) → Option ℕ
read_duration definition = elim (without_trailing (split b':' definition)) [
  | _ ∷ duration ∷ _ ↦ duration_of (integer_value duration)
  | _ ↦ none
]

unfoldable pub durations : List String → Option (List ℕ)
durations [] = some []
durations (definition ∷ definitions) = elim (read_duration definition) [
  | none ↦ none
  | some d ↦ elim (durations definitions) [ none ↦ none | some ds ↦ some (d ∷ ds) ]
]

-- The seconds between two updates.
unfoldable pub scheduling_period : List String → Option ℕ
scheduling_period definitions = elim (durations definitions) [
  | none ↦ none
  | some ds ↦ elim (gcd_all ds) [ none ↦ some 1 | some g ↦ some g ]
]

-- The greatest common divisor, in the order of divisibility.
abbrev pub IsGcd : ℕ → List ℕ → Type 0
IsGcd g ds = All (λ d. g ∣ d) ds × ((k : ℕ) → All (λ d. k ∣ d) ds → k ∣ g)

gcd_from-IsGcd : (result : ℕ) (ds : List ℕ) → IsGcd (gcd_from result ds) (result ∷ ds)
unfolding gcd
gcd_from-IsGcd result [] = ((dvd_refl result, tt), λ k (h, _). h)
gcd_from-IsGcd result (d ∷ ds) =
    let w = Acc-below (suc d) d (omega arith) in
    let (left, right) = gcd_acc-dvd d result w in
    let ((first, rest), greatest) = gcd_from-IsGcd (gcd_acc d result w) ds in
    (
      (dvd_trans _ first right, (dvd_trans _ first left, rest)),
      λ k (h, (l, m)). greatest k (gcd_acc-greatest k d result w l h, m),
    )

read_duration-validated :
    (definition : String) (slot : String × ℕ)
    → validated definition ≡ some slot
    → read_duration definition ≡ some slot.1
unfolding validated read_duration
read_duration-validated definition slot h = ground arith

durations-parsed :
    (definitions : List String) (slots : List (String × ℕ))
    → parsed definitions ≡ some slots
    → durations definitions ≡ some (map (λ slot. slot.1) slots)
unfolding parsed durations
durations-parsed [] [] h = refl
durations-parsed [] (slot ∷ slots) h = absurd (ground arith)
durations-parsed (definition ∷ definitions) [] h = absurd (ground arith)
durations-parsed (definition ∷ definitions) (slot ∷ slots) h =
    rw
      (
        durations,
        read_duration-validated definition slot (ground arith),
        durations-parsed definitions slots (ground arith),
      )
      refl

-- The updates happen every so many seconds as the greatest common divisor of the durations, when
-- all definitions are valid and there is one.
pub scheduling_period-IsGcd :
    (definitions : List String) (slot : String × ℕ) (slots : List (String × ℕ))
    → parsed definitions ≡ some (slot ∷ slots)
    → (g : ℕ) × (scheduling_period definitions ≡ some g)
      × (0 < g)
      × IsGcd g (map (λ slot. slot.1) (slot ∷ slots))
unfolding scheduling_period
scheduling_period-IsGcd definitions slot slots valid =
    let found = gcd_from-IsGcd slot.1 (map (λ slot. slot.1) slots) in
    (
      gcd_from slot.1 (map (λ slot. slot.1) slots),
      rw (scheduling_period, durations-parsed definitions (slot ∷ slots) valid) refl,
      pos_of_dvd_of_pos found.0.0 (parsed-positive definitions (slot ∷ slots) valid).0,
      found,
    )
