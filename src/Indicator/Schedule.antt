-- ===== src/Indicator/Schedule.antt =====
-- com.rabbitmq.perf.VariableValueIndicator: the value at each second of the cycle.
use mathlib.Core.Option.{map as option_map}
use rabbitmq_perf_test.Base.{
  ℕ, ◌+◌, ◌-◌, ◌/◌, ◌%◌, ◌<◌, ◌≤◌, ◌≡◌, refl, ap, sym, ◌∙◌, Bool, true, false, Option, none, some,
  String, List, [], ◌∷◌, arith, ltb, Option-cases, Bool-cases, inl, inr, All, if◌then◌else◌,
}
use rabbitmq_perf_test.Java.{int_range}
use rabbitmq_perf_test.Indicator.{
  validated, Interval, is_in, intervals_from, cycle_duration, update_value_if_necessary, update,
}

-- The definitions as values and durations, if all are valid.
unfoldable pub parsed : List String → Option (List (String × ℕ))
parsed [] = some []
parsed (definition ∷ definitions) = elim (validated definition) [
  | none ↦ none
  | some slot ↦ elim (parsed definitions) [ none ↦ none | some slots ↦ some (slot ∷ slots) ]
]

abbrev pub total : List (String × ℕ) → ℕ
total [] = 0
total (slot ∷ slots) = slot.1 + total slots

-- The value at a second of the cycle: each lasts for its duration, one after the other.
unfoldable pub value_at : List (String × ℕ) → ℕ → Option String
value_at [] second = none
value_at (slot ∷ slots) second =
    let later = value_at slots (second - slot.1) in if ltb second slot.1 then some slot.0 else later

value_at-first :
    (slot : String × ℕ) (slots : List (String × ℕ)) (second : ℕ) (next : String)
    → value_at (slot ∷ slots) second ≡ some next
    → (ltb second slot.1 ≡ true → slot.0 ≡ next)
      × (ltb second slot.1 ≡ false → value_at slots (second - slot.1) ≡ some next)
unfolding value_at
value_at-first slot slots second next v = ground arith

sub-sub_add : (a b c : ℕ) → a - b - c ≡ a - (b + c)
sub-sub_add a b c = omega arith

module _ {T : Type 0} where
  -- The value becomes `next`: what it is then, and what the listeners are told.
  abbrev pub settled : (equals : T → T → Bool) → T → T → T × Option (T × T)
  settled equals value next =
      if equals value next then (value, none) else (next, some (value, next))

  module _ (conversion : String → T) where
    abbrev pub laid_out : ℕ → List (String × ℕ) → List (Interval T)
    laid_out start [] = []
    laid_out start (slot ∷ slots) =
        record { start = start; end = (start + slot.1) % int_range; value = conversion slot.0 }
        ∷ laid_out ((start + slot.1) % int_range) slots

    intervals_from-laid_out :
        (start : ℕ) (definitions : List String)
        → intervals_from conversion start definitions
          ≡ option_map (laid_out start) (parsed definitions)
    unfolding intervals_from parsed
    intervals_from-laid_out start [] = refl
    intervals_from-laid_out start (definition ∷ definitions) =
        elim (Option-cases (validated definition)) [
          | inl e ↦ rw (intervals_from, parsed, e) refl
          | inr ((v, d), e) ↦
              rw
                (
                  intervals_from,
                  parsed,
                  e,
                  intervals_from-laid_out ((start + d) % int_range) definitions,
                )
                (elim (Option-cases (parsed definitions)) [
                  | inl k ↦ rw k refl
                  | inr (_, k) ↦ rw k refl
                ])
        ]

    is_in-laid_out :
        (start elapsed : ℕ) (slot : String × ℕ)
        → start + slot.1 < 2_147_483_648
        → start ≤ elapsed
        → is_in elapsed (record {
          start = start;
          end = (start + slot.1) % int_range;
          value = conversion slot.0;
        })
          ≡ ltb (elapsed - start) slot.1
    is_in-laid_out start elapsed slot fits h = ground arith

    -- Below 2 ^ 31 no end of an interval wraps, and the second that has passed finds the slot.
    update-laid_out :
        (equals : T → T → Bool) (start elapsed : ℕ) (slots : List (String × ℕ)) (value : T)
        (next : String)
        → start + total slots < 2_147_483_648
        → start ≤ elapsed
        → value_at slots (elapsed - start) ≡ some next
        → update_value_if_necessary equals (laid_out start slots) elapsed value
          ≡ settled equals value (conversion next)
    unfolding update_value_if_necessary value_at
    update-laid_out equals start elapsed [] value next fits h v = cc
    update-laid_out equals start elapsed (slot ∷ slots) value next fits h v =
        let wraps : (start + slot.1) % int_range ≡ start + slot.1 = omega arith in
        let (here_is, later_is) = value_at-first slot slots (elapsed - start) next v in
        rw (is_in-laid_out start elapsed slot (omega arith) h)
          (elim (Bool-cases (ltb (elapsed - start) slot.1)) [
            | inl here ↦ rw (here, here_is here) refl
            | inr later ↦
                rw (later, wraps)
                  (update-laid_out equals (start + slot.1) elapsed slots value next (omega arith)
                    (ground arith) (rw (sym (sub-sub_add elapsed start slot.1)) (later_is later)))
          ])

    cycle_duration-laid_out :
        (start : ℕ) (slot : String × ℕ) (slots : List (String × ℕ))
        → start + total (slot ∷ slots) < 2_147_483_648
        → cycle_duration (laid_out start (slot ∷ slots)) ≡ start + total (slot ∷ slots)
    cycle_duration-laid_out start slot [] fits = omega arith
    cycle_duration-laid_out start slot (next ∷ slots) fits =
        let wraps : (start + slot.1) % int_range ≡ start + slot.1 = omega arith in
        let rest = cycle_duration-laid_out (start + slot.1) next slots (omega arith) in
        ap (λ s. cycle_duration (laid_out s (next ∷ slots))) wraps ∙ (rest ∙ omega arith)

value_at-total :
    (slots : List (String × ℕ)) (second : ℕ)
    → second < total slots
    → (value : String) × (value_at slots second ≡ some value)
unfolding value_at
value_at-total [] second h = absurd (omega arith)
value_at-total (slot ∷ slots) second h = elim (Bool-cases (ltb second slot.1)) [
  | inl here ↦ (slot.0, rw here refl)
  | inr later ↦
      let (v, e) = value_at-total slots (second - slot.1) (ground arith) in (v, rw later e)
]

validated-positive :
    (definition : String) (slot : String × ℕ) → validated definition ≡ some slot → 0 < slot.1
unfolding validated
validated-positive definition slot h = ground arith

pub parsed-positive :
    (definitions : List String) (slots : List (String × ℕ))
    → parsed definitions ≡ some slots
    → All (λ slot. 0 < slot.1) slots
unfolding parsed
parsed-positive definitions [] h = tt
parsed-positive [] (slot ∷ slots) h = absurd (ground arith)
parsed-positive (definition ∷ definitions) (slot ∷ slots) h = (
  validated-positive definition slot (ground arith),
  parsed-positive definitions slots (ground arith),
)

module _ {T : Type 0} (conversion : String → T) (equals : T → T → Bool) where
  update-below :
      (is : List (Interval T)) (start_time now : ℕ) (value : T) (cycle : ℕ)
      → cycle_duration is ≡ cycle
      → 0 < cycle
      → cycle < 2_147_483_648
      → update equals is start_time now value
        ≡ some
            (update_value_if_necessary equals is ((now - start_time) / 1_000_000_000 % cycle) value)
  unfolding update
  update-below is start_time now value cycle c positive fits = rw c (ground arith)

  -- An update leaves the value of the definition whose slot of the cycle includes the second that
  -- has passed, and tells the listeners of it if it is another one, when all definitions are valid,
  -- there is one, and the durations' sum is below 2 ^ 31.
  pub update-value_at :
      (definitions : List String) (slot : String × ℕ) (slots : List (String × ℕ))
      (is : List (Interval T)) (start_time now : ℕ) (value : T)
      → parsed definitions ≡ some (slot ∷ slots)
      → intervals_from conversion 0 definitions ≡ some is
      → total (slot ∷ slots) < 2_147_483_648
      → update equals is start_time now value
        ≡ option_map
            (λ next. settled equals value (conversion next))
            (value_at (slot ∷ slots) ((now - start_time) / 1_000_000_000 % total (slot ∷ slots)))
  update-value_at definitions slot slots is start_time now value valid made fits =
      let placed : is ≡ laid_out conversion 0 (slot ∷ slots) =
        cc (made, valid, intervals_from-laid_out conversion 0 definitions) in
      let lasts = parsed-positive definitions (slot ∷ slots) valid in
      let length_of : cycle_duration is ≡ 0 + total (slot ∷ slots) =
        rw placed (cycle_duration-laid_out conversion 0 slot slots (omega arith)) in
      let second = (now - start_time) / 1_000_000_000 % total (slot ∷ slots) in
      let unmoved : second - 0 ≡ second = omega arith in
      let (next, e) = value_at-total (slot ∷ slots) second (omega (arith, lasts.0)) in
      rw
        (
          update-below is start_time now value (total (slot ∷ slots)) (omega (arith, length_of))
              (omega (arith, lasts.0)) fits,
          placed,
          update-laid_out conversion equals 0 second (slot ∷ slots) value next (omega arith)
              (omega arith) (ap (value_at (slot ∷ slots)) unmoved ∙ e),
          e,
        )
        refl
