-- ===== src/Agents/Publishing/Variable.antt =====
-- A producer with a variable rate: its message count starts again and again.
use rabbitmq_perf_test.Base.{
  ℕ, ◌<◌, ◌≡◌, refl, ap, true, false, none, List, [], ◌∷◌, length, arith, All,
}
use rabbitmq_perf_test.Java.{sub_long, lt_long}
use rabbitmq_perf_test.Agents.Messages.{zeros}
use rabbitmq_perf_test.Agents.Publishing.{
  Parameters, Turn, ProducerState, went, handle_publish, restart, one_round, keep_going, running,
  run_producer,
}
use rabbitmq_perf_test.Agents.Publishing.Rounds.{
  IsGood, acquire-no_pool, track-no_pool, and_false, run_producer-went,
}

-- The rounds end more than 1000 nanoseconds apart.
abbrev pub Spaced : (last_stats_time : ℕ) → List Turn → Type 0
Spaced last [] = Unit
Spaced last (t ∷ ts) = (lt_long 1000 (sub_long t.now last) ≡ true) × Spaced t.now ts

module _ (p : Parameters) (variable : p.variable_rate ≡ true) (limited : 1 < p.msg_limit)
    (fits : p.msg_limit < 2_147_483_648) where
  -- A good round of a producer that publishes.
  abbrev pub IsActive : Turn → Type 0
  IsActive t = IsGood t × (t.rate_is_zero ≡ false)

  handle_publish-first :
      (t : Turn) (s : ProducerState)
      → IsGood t
      → s.confirms.confirm_pool ≡ none
      → s.msg_count ≡ 0
      → handle_publish p t s ≡ went (0 ∷ []) (record s { msg_count = 1 })
  unfolding handle_publish
  handle_publish-first t s (_, free, published, committed) pool start = rw (
    free,
    acquire-no_pool s.confirms pool,
    published,
    committed,
    and_false,
    start,
    track-no_pool t.publishing_id t.timestamp s.confirms pool,
  )

  restart_spaced :
      (t : Turn) (s : ProducerState)
      → lt_long 1000 (sub_long t.now s.last_stats_time) ≡ true
      → restart p t s ≡ record s { last_stats_time = t.now; msg_count = 0 }
  unfolding restart
  restart_spaced t s h = rw (variable, h)

  keep_going_first :
      (t : Turn) (s : ProducerState)
      → t.interrupted ≡ false
      → s.msg_count ≡ 0
      → keep_going p t s ≡ true
  unfolding keep_going
  keep_going_first t s on start = ground arith

  one_round_variable :
      (t : Turn) (s : ProducerState)
      → IsActive t
      → lt_long 1000 (sub_long t.now s.last_stats_time) ≡ true
      → s.confirms.confirm_pool ≡ none
      → s.msg_count ≡ 0
      → one_round p t s ≡ went (0 ∷ []) (record s { last_stats_time = t.now; msg_count = 0 })
  unfolding one_round
  one_round_variable t s (g, busy) gap pool start = rw (
    variable,
    busy,
    handle_publish-first t s g pool start,
    restart_spaced t (record s { msg_count = 1 }) gap,
  )

  -- A producer whose rate is variable never reaches a message limit above 1, and gives every
  -- message the number 0, when its rounds end more than 1000 nanoseconds apart, however many rounds
  -- there are: in all of them nothing goes wrong, the rate is not 0, and there are no publisher
  -- confirms.
  pub run_producer-variable :
      (ts : List Turn) (s : ProducerState)
      → All IsActive ts
      → Spaced s.last_stats_time ts
      → s.confirms.confirm_pool ≡ none
      → s.msg_count ≡ 0
      → ((run_producer p ts s).ended ≡ running)
        × ((run_producer p ts s).numbered ≡ zeros (length ts))
  run_producer-variable [] s good spaced pool start = unfold run_producer in (refl, refl)
  run_producer-variable (t ∷ ts) s (active, good) (gap, spaced) pool start =
      let (e, f) =
        run_producer-variable ts (record s { last_stats_time = t.now; msg_count = 0 }) good spaced
          pool refl in
      rw
        (run_producer-went p t ts s _ (0 ∷ []) (keep_going_first t s active.0.0 start)
          (one_round_variable t s active gap pool start))
        (e, ap (λ ns. 0 ∷ ns) f)
