-- ===== src/Indicator/Period/Ticks.antt =====
-- com.rabbitmq.perf.VariableValueIndicator: updates at the scheduled times are enough.
use Prim.Native.Nat.{◌∣◌}
use native.Mathlib.Nat.{
  dvd-zero, dvd-add, div-mul_cancel, mul-add-div_right, mul-div_cancel, div-div-eq-div-mul,
  mul_assoc, mul-add-mod_self_right, mod-eq_of_lt, mod-lt, div-mul-le_self, lt-div-mul-add,
  div-add-mod',
}
use mathlib.Core.Path.{subst}
use rabbitmq_perf_test.Base.{
  All-of_map, ℕ, ◌+◌, ◌-◌, ◌*◌, ◌/◌, ◌%◌, ◌<◌, ◌≤◌, ◌≡◌, refl, ap, sym, ◌∙◌, Bool, some, String,
  List, [], ◌∷◌, arith, ltb, All, Bool-cases, inl, inr,
}
use rabbitmq_perf_test.Indicator.{Interval, intervals_from, update}
use rabbitmq_perf_test.Indicator.Schedule.{
  parsed, value_at, total, parsed-positive, update-value_at,
}
use rabbitmq_perf_test.Indicator.Period.{scheduling_period, scheduling_period-IsGcd}

floor_lt : (g k s : ℕ) → 0 < g → ltb (s / g * g) (k * g) ≡ ltb s (k * g)
floor_lt g k s pos = grind (arith, lt-div-mul-add {a = s} {b = g} pos, div-add-mod' s g)

floor_sub : (g k s : ℕ) → 0 < g → k * g ≤ s → (s - k * g) / g * g ≡ s / g * g - k * g
floor_sub g k s pos le =
    grind (arith, div-add-mod' s g, mul-add-div_right {m = g} pos k (s - k * g))

value_at-floor :
    (g : ℕ) (slots : List (String × ℕ)) (second : ℕ)
    → 0 < g
    → All (λ slot. g ∣ slot.1) slots
    → value_at slots (second / g * g) ≡ value_at slots second
unfolding value_at
value_at-floor g [] second pos h = refl
value_at-floor g (slot ∷ slots) second pos (divides, h) =
    let d : slot.1 / g * g ≡ slot.1 = div-mul_cancel g divides in
    let same : ltb (second / g * g) slot.1 ≡ ltb second slot.1 =
      cc (floor_lt g (slot.1 / g) second pos, d) in
    elim (Bool-cases (ltb second slot.1)) [
      | inl here ↦ rw (same, here) refl
      | inr later ↦
          let moved : (second - slot.1) / g * g ≡ second / g * g - slot.1 =
            ap (λ x. (second - x) / g * g) (sym d)
            ∙ (floor_sub g (slot.1 / g) second pos (rw d (ground arith))
                ∙ ap (λ x. second / g * g - x) d) in
          rw (same, later, sym moved) (value_at-floor g slots (second - slot.1) pos h)
    ]

mul-add-floor : (g x r : ℕ) → 0 < g → (x * g + r) / g * g ≡ x * g + r / g * g
mul-add-floor g x r pos = rw (mul-add-div_right {m = g} pos x r) (omega arith)

floor_mod : (g cycle n : ℕ) → 0 < g → 0 < cycle → g ∣ cycle → n / g * g % cycle ≡ n % cycle / g * g
floor_mod g cycle n pos some_time divides =
    let k = cycle / g in
    let kg : k * g ≡ cycle = div-mul_cancel g divides in
    let q = n / cycle in
    let r = n % cycle in
    let whole : q * k * g ≡ q * cycle = mul_assoc q k g ∙ ap (λ x. q * x) kg in
    let floor : n / g * g ≡ q * cycle + r / g * g =
      ap (λ x. x / g * g) (sym (div-add-mod' n cycle) ∙ ap (λ x. x + r) (sym whole))
      ∙ (mul-add-floor g (q * k) r pos ∙ ap (λ x. x + r / g * g) whole) in
    rw (floor, mul-add-mod_self_right q cycle (r / g * g))
      (mod-eq_of_lt (omega (arith, mod-lt n {m = cycle} some_time, div-mul-le_self r g)))

dvd-total : (g : ℕ) (slots : List (String × ℕ)) → All (λ slot. g ∣ slot.1) slots → g ∣ total slots
dvd-total g [] h = dvd-zero g
dvd-total g (slot ∷ slots) (d, h) = dvd-add _ d (dvd-total g slots h)

seconds_of_tick :
    (start_time elapsed g : ℕ)
    → (start_time + elapsed / (g * 1_000_000_000) * (g * 1_000_000_000) - start_time)
        / 1_000_000_000
      ≡ elapsed / 1_000_000_000 / g * g
seconds_of_tick start_time elapsed g =
    let x = elapsed / (g * 1_000_000_000) in
    let passed : start_time + x * (g * 1_000_000_000) - start_time ≡ x * g * 1_000_000_000 =
      omega arith in
    let order : 1_000_000_000 * g ≡ g * 1_000_000_000 = omega arith in
    rw
      (
        passed,
        mul-div_cancel (x * g) {n = 1_000_000_000} (omega arith),
        div-div-eq-div-mul elapsed 1_000_000_000 g,
        order,
      )
      refl

scheduling_period-dvd :
    (definitions : List String) (slot : String × ℕ) (slots : List (String × ℕ)) (g : ℕ)
    → parsed definitions ≡ some (slot ∷ slots)
    → scheduling_period definitions ≡ some g
    → (0 < g) × All (λ slot. g ∣ slot.1) (slot ∷ slots)
scheduling_period-dvd definitions slot slots g valid period =
    let (h, made, pos, (divides, _)) = scheduling_period-IsGcd definitions slot slots valid in
    let same : h ≡ g = cc in
    subst (λ x. (0 < x) × All (λ slot. x ∣ slot.1) (slot ∷ slots)) same
      (pos, All-of_map (λ d. h ∣ d) (λ slot. slot.1) (slot ∷ slots) divides)

module _ {T : Type 0} (conversion : String → T) (equals : T → T → Bool) where
  -- The last scheduled update before a time does to a value what an update at that time does, when
  -- all definitions are valid, there is one, and the durations' sum is below 2 ^ 31.
  pub update-scheduling_period :
      (definitions : List String) (slot : String × ℕ) (slots : List (String × ℕ))
      (is : List (Interval T)) (start_time elapsed g : ℕ) (value : T)
      → parsed definitions ≡ some (slot ∷ slots)
      → intervals_from conversion 0 definitions ≡ some is
      → scheduling_period definitions ≡ some g
      → total (slot ∷ slots) < 2_147_483_648
      → update equals is start_time
          (start_time + elapsed / (g * 1_000_000_000) * (g * 1_000_000_000))
          value
        ≡ update equals is start_time (start_time + elapsed) value
  update-scheduling_period definitions slot slots is start_time elapsed g value valid made period
        fits =
      let (pos, divides) = scheduling_period-dvd definitions slot slots g valid period in
      let lasts = parsed-positive definitions (slot ∷ slots) valid in
      let seconds : (start_time + elapsed - start_time) / 1_000_000_000 ≡ elapsed / 1_000_000_000 =
        ap (λ x. x / 1_000_000_000) (omega arith) in
      rw
        (
          update-value_at conversion equals definitions slot slots is start_time
              (start_time + elapsed / (g * 1_000_000_000) * (g * 1_000_000_000)) value valid made
              fits,
          update-value_at conversion equals definitions slot slots is start_time
              (start_time + elapsed) value valid made fits,
          seconds_of_tick start_time elapsed g,
          seconds,
          floor_mod g (total (slot ∷ slots)) (elapsed / 1_000_000_000) pos (omega (arith, lasts.0))
              (dvd-total g (slot ∷ slots) divides),
          value_at-floor g (slot ∷ slots) (elapsed / 1_000_000_000 % total (slot ∷ slots)) pos
              divides,
        )
        refl
