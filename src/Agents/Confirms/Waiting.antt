-- ===== src/Agents/Confirms/Waiting.antt =====
-- The wait of a producer for the last confirms: `maybeWaitForPublishConfirms`.
use rabbitmq_perf_test.Base.{
  ℕ, zero, suc, ◌+◌, ◌*◌, ◌%◌, ◌<◌, ◌≤◌, ◌≡◌, refl, ap, ◌∙◌, inl, inr, Bool, true, false,
  Bool-cases, Option, none, some, arith, ltb, ◌||◌, if◌then◌else◌,
}

-- What the producer finds in a round: no message waits any more, or its sleep is interrupted.
pub record Round : Type 0 where
  pub is_empty : Bool
  pub interrupted : Bool

-- The loop, on fuel, from the round `i`; it gives the number of rounds made so far.
unfoldable pub wait_loop : (fuel timeout waited i : ℕ) → (ℕ → Round) → Option ℕ
wait_loop zero timeout waited i rounds = none
wait_loop (suc fuel) timeout waited i rounds =
    let waited_1 = if (rounds i).is_empty then timeout else waited in
    let waited_2 = if (rounds i).interrupted then timeout else waited_1 in
    let more = wait_loop fuel timeout (waited_2 + 100) (i + 1) rounds in
    if ltb timeout waited then some i else more

-- `this.confirmTimeout * 1000` is an `int`, given by its 32 bits. With a negative timeout there is
-- no round.
unfoldable pub maybe_wait_for_publish_confirms : (fuel confirm_timeout : ℕ) → (ℕ → Round) → Option ℕ
unfolding wait_loop
maybe_wait_for_publish_confirms fuel confirm_timeout rounds =
    let timeout = confirm_timeout * 1000 % 4_294_967_296 in
    if ltb timeout 2_147_483_648 then wait_loop fuel timeout 0 0 rounds else some 0

abbrev pub is_over : Round → Bool
is_over r = r.is_empty || r.interrupted

-- The number of rounds up to the first one that is over, that one included, or `most` if none of as
-- many is.
abbrev pub rounds_until_over : (most : ℕ) → (ℕ → Round) → (i : ℕ) → ℕ
rounds_until_over zero rounds i = 0
rounds_until_over (suc most) rounds i =
    let rest = rounds_until_over most rounds (i + 1) in if is_over (rounds i) then 1 else suc rest

-- The time behind a round.
abbrev waited_behind : (timeout waited : ℕ) → Round → ℕ
waited_behind timeout waited r =
    if r.interrupted then timeout else (if r.is_empty then timeout else waited)

waited_behind_over :
    (timeout waited : ℕ) (r : Round) → is_over r ≡ true → waited_behind timeout waited r ≡ timeout
waited_behind_over timeout waited r h = ground arith

waited_behind_open :
    (timeout waited : ℕ) (r : Round) → is_over r ≡ false → waited_behind timeout waited r ≡ waited
waited_behind_open timeout waited r h = ground arith

-- Behind the whole time the loop ends.
wait_loop_end :
    (fuel timeout i : ℕ) (rounds : ℕ → Round)
    → 0 < fuel
    → wait_loop fuel timeout (timeout + 100) i rounds ≡ some i
unfolding wait_loop
wait_loop_end zero timeout i rounds h = absurd (omega arith)
wait_loop_end (suc fuel) timeout i rounds h =
    let past : ltb timeout (timeout + 100) ≡ true = ground arith in rw past refl

-- As long as `most` rounds are left.
wait_loop_rounds :
    (fuel timeout waited i most : ℕ) (rounds : ℕ → Round)
    → waited + most * 100 ≡ timeout + 100
    → most < fuel
    → wait_loop fuel timeout waited i rounds ≡ some (i + rounds_until_over most rounds i)
unfolding wait_loop
wait_loop_rounds zero timeout waited i most rounds left h = absurd (omega arith)
wait_loop_rounds (suc fuel) timeout waited i zero rounds left h =
    let past : ltb timeout waited ≡ true = ground arith in rw past (ap some (omega arith))
wait_loop_rounds (suc fuel) timeout waited i (suc most) rounds left h =
    let early : ltb timeout waited ≡ false = ground arith in
    elim (Bool-cases (is_over (rounds i))) [
      | inl over ↦
          rw (early, waited_behind_over timeout waited (rounds i) over, over)
            (wait_loop_end fuel timeout (i + 1) rounds (omega arith))
      | inr more ↦
          let total : i + 1 + rounds_until_over most rounds (i + 1)
              ≡ i + suc (rounds_until_over most rounds (i + 1)) =
            omega arith in
          rw (early, waited_behind_open timeout waited (rounds i) more, more)
            (wait_loop_rounds fuel timeout (waited + 100) (i + 1) most rounds (omega (arith, left))
                (omega arith)
              ∙ ap some total)
    ]

-- The wait for the last confirms ends, whatever the producer finds: with a confirm timeout of n
-- seconds, at most 2147483, it makes a round for each 100 milliseconds of the timeout and one more,
-- that is n * 10 + 1, when some message waits through all of them and it is not interrupted, and
-- otherwise as many as there are up to the first round in which no message waits or its sleep is
-- interrupted.
pub maybe_wait_rounds :
    (confirm_timeout : ℕ) (rounds : ℕ → Round)
    → confirm_timeout ≤ 2_147_483
    → maybe_wait_for_publish_confirms (confirm_timeout * 10 + 2) confirm_timeout rounds
      ≡ some (rounds_until_over (confirm_timeout * 10 + 1) rounds 0)
unfolding maybe_wait_for_publish_confirms
maybe_wait_rounds confirm_timeout rounds fits =
    let same : confirm_timeout * 1000 % 4_294_967_296 ≡ confirm_timeout * 1000 =
      omega (arith, fits) in
    let positive : ltb (confirm_timeout * 1000) 2_147_483_648 ≡ true = ground arith in
    let all : 0 + rounds_until_over (confirm_timeout * 10 + 1) rounds 0
        ≡ rounds_until_over (confirm_timeout * 10 + 1) rounds 0 =
      omega arith in
    rw (same, positive)
      (wait_loop_rounds (confirm_timeout * 10 + 2) (confirm_timeout * 1000) 0 0
          (confirm_timeout * 10 + 1) rounds (omega arith) (omega arith)
        ∙ ap some all)
