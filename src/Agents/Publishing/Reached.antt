-- ===== src/Agents/Publishing/Reached.antt =====
-- A producer with a fixed rate that reaches its message limit.
use rabbitmq_perf_test.Base.{
  ◌+◌, ◌<◌, ◌≤◌, ◌≡◌, ap, ◌∙◌, inl, inr, true, false, Bool-cases, none, some, List, [], ◌∷◌, length,
  arith, All,
}
use rabbitmq_perf_test.Java.{lt_int}
use rabbitmq_perf_test.Agents.Publishing.Rounds.{IsGood, and_false, acquire-no_pool, track-no_pool}
use rabbitmq_perf_test.Agents.Publishing.{
  message_limit, Parameters, Turn, ProducerState, went, increment, handle_publish, keep_going,
  end_reason, returned, run_producer,
}
use rabbitmq_perf_test.Agents.Publishing.Limit.{
  numbers_from, one_round-handle_publish, run_producer_step, run_producer_end,
  run_producer-numbered,
}

module _ (p : Parameters) (fixed_rate : p.variable_rate ≡ false) (limited : 0 < p.msg_limit)
    (fits : p.msg_limit < 2_147_483_648) where
  keep_going_on :
      (t : Turn) (s : ProducerState)
      → t.interrupted ≡ false
      → lt_int s.msg_count p.msg_limit ≡ true
      → keep_going p t s ≡ true
  unfolding keep_going
  keep_going_on t s on below = ground arith

  keep_going_off :
      (t : Turn) (s : ProducerState)
      → lt_int s.msg_count p.msg_limit ≡ false
      → keep_going p t s ≡ false
  unfolding keep_going
  keep_going_off t s above = ground arith

  end_reason_limit :
      (s : ProducerState)
      → lt_int s.msg_count p.msg_limit ≡ false
      → end_reason p s ≡ some message_limit
  unfolding end_reason
  end_reason_limit s above = ground arith

  -- A good round without publisher confirms sends one message.
  handle_publish-good :
      (t : Turn) (s : ProducerState)
      → IsGood t
      → s.confirms.confirm_pool ≡ none
      → s.msg_count < p.msg_limit
      → handle_publish p t s ≡ went (s.msg_count ∷ []) (record s { msg_count = s.msg_count + 1 })
  unfolding handle_publish
  handle_publish-good t s (_, free, published, committed) pool lt =
      let small : increment s.msg_count ≡ s.msg_count + 1 = omega (arith, lt, fits) in
      rw (
        free,
        acquire-no_pool s.confirms pool,
        published,
        committed,
        and_false,
        small,
        track-no_pool t.publishing_id t.timestamp s.confirms pool,
      )

  run_producer-good :
      (ts : List Turn) (s : ProducerState)
      → All IsGood ts
      → s.confirms.confirm_pool ≡ none
      → s.msg_count ≤ p.msg_limit
      → p.msg_limit < s.msg_count + length ts
      → (run_producer p ts s).ended ≡ returned (some message_limit)
  run_producer-good [] s good pool le enough = absurd (omega arith)
  run_producer-good (t ∷ ts) s (g, good) pool le enough =
      elim (Bool-cases (lt_int s.msg_count p.msg_limit)) [
        | inl below ↦
            let lt : s.msg_count < p.msg_limit = ground arith in
            let on : keep_going p t s ≡ true = keep_going_on t s g.0 below in
            rw
              (
                run_producer_step p fixed_rate limited fits t ts s on,
                one_round-handle_publish p fixed_rate limited fits t s,
                handle_publish-good t s g pool lt,
              )
              (run_producer-good ts (record s { msg_count = s.msg_count + 1 }) good pool
                (omega (arith, lt)) (omega (arith, enough)))
        | inr above ↦
            let off : keep_going p t s ≡ false = keep_going_off t s above in
            rw (run_producer_end p fixed_rate limited fits t ts s off)
              (ap (λ r. returned r) (end_reason_limit s above))
      ]

  -- Without publisher confirms, and with more rounds than the limit in which nothing goes wrong, a
  -- producer with a fixed rate sends exactly as many messages as its limit says, numbered from 0,
  -- and returns with the reason of the limit.
  pub run_producer-limit :
      (ts : List Turn) (s : ProducerState)
      → All IsGood ts
      → s.confirms.confirm_pool ≡ none
      → s.msg_count ≡ 0
      → p.msg_limit < length ts
      → ((run_producer p ts s).ended ≡ returned (some message_limit))
        × ((run_producer p ts s).numbered ≡ numbers_from 0 p.msg_limit)
  run_producer-limit ts s good pool start enough =
      let ends =
        run_producer-good ts s good pool (omega (arith, start)) (omega (arith, start, enough)) in
      let (numbers, _, at_end) = run_producer-numbered p fixed_rate limited fits ts s start in
      let reached : (run_producer p ts s).state.msg_count ≡ p.msg_limit = rw ends at at_end in
      (ends, numbers ∙ ap (numbers_from 0) reached)
