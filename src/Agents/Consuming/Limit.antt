-- ===== src/Agents/Consuming/Limit.antt =====
-- com.rabbitmq.perf.Consumer: its message limit.
use mathlib.Core.List.{append-nil}
use rabbitmq_perf_test.Base.{
  ℕ, suc, ◌+◌, ◌<◌, ◌≡◌, refl, ◌∙◌, true, false, not, ◌&&◌, List, [], ◌∷◌, ◌++◌, length,
  length-append, arith, ltb, ◌==◌, Bool-cases, inl, inr, All, if◌then◌else◌,
}
use rabbitmq_perf_test.Java.{lt_long}
use rabbitmq_perf_test.Agents.Publishing.{written}
use rabbitmq_perf_test.Agents.Consuming.{
  ConsumerParameters, Delivery, ConsumerState, Handled, StopReason, consumer_reached_message_limit,
  count_message, process, count_down, handle_message, maybe_handle_message, handle_deliveries,
  followed, quiet, new_consumer, is_within_limit,
}

-- A message with which no call fails.
abbrev pub IsCalm : Delivery → Type 0
IsCalm d = (d.is_open ≡ true) × (d.ack_write ≡ written) × (d.commit_write ≡ written)

module _ (p : ConsumerParameters) where
  -- What a message leaves before its end.
  abbrev IsProcessed : (measures : ℕ) → ConsumerState → Handled → Type 0
  IsProcessed measures s h =
      (h.is_failed ≡ false)
      × (length h.measured ≡ measures)
      × (h.reasons ≡ [])
      × (h.state.received_message_count ≡ s.received_message_count)
      × (h.state.completed ≡ s.completed)

  process-IsProcessed :
      (d : Delivery) (s : ConsumerState) → IsCalm d → IsProcessed 1 s (process p d s)
  unfolding process
  process-IsProcessed d s (open_one, acked, committed) = ground arith

  module _ (limited : 0 < p.msg_limit) (fits : p.msg_limit < 2_147_483_648) where
    -- What a message leaves of which `before` came before.
    record IsCounted (before : ℕ) (h : Handled) : Type 0 where
      going_on : h.is_failed ≡ false
      received : h.state.received_message_count ≡ before + 1
      measured : length h.measured ≡ (if ltb before p.msg_limit then 1 else 0)
      told :
          h.reasons
          ≡ (if before + 1 == p.msg_limit then consumer_reached_message_limit ∷ [] else [])
      completed : h.state.completed ≡ not (ltb (before + 1) p.msg_limit)

    end_of_message-IsCounted :
        (s : ConsumerState) (h : Handled) (before : ℕ)
        → IsProcessed (if ltb before p.msg_limit then 1 else 0) s h
        → s.received_message_count ≡ before + 1
        → s.completed ≡ not (ltb before p.msg_limit)
        → before + 1 < 9_223_372_036_854_775_808
        → IsCounted before (
            followed h λ t.
              if not (p.msg_limit == 0) && not (lt_long t.received_message_count p.msg_limit)
              then count_down consumer_reached_message_limit t
              else quiet t)
    unfolding count_down
    end_of_message-IsCounted s h before (going, one, none, same, kept) start done room =
        let received : h.state.received_message_count ≡ before + 1 = same ∙ start in
        elim (Bool-cases (ltb (before + 1) p.msg_limit)) [
          | inl more ↦
              let test : (not (p.msg_limit == 0)
                    && not (lt_long h.state.received_message_count p.msg_limit))
                  ≡ false =
                ground arith in
              rw (going, test, append-nil h.measured, append-nil h.reasons)
                record {
                  going_on = refl;
                  received = received;
                  measured = one;
                  told = ground arith;
                  completed = ground arith;
                }
          | inr enough ↦
              let test : (not (p.msg_limit == 0)
                    && not (lt_long h.state.received_message_count p.msg_limit))
                  ≡ true =
                ground arith in
              elim (Bool-cases (ltb before p.msg_limit)) [
                | inl last ↦
                    let open_one : h.state.completed ≡ false = ground arith in
                    rw (going, test, open_one)
                      record {
                        going_on = refl;
                        received = received;
                        measured = ground (arith, append-nil h.measured);
                        told = ground arith;
                        completed = ground arith;
                      }
                | inr over ↦
                    let closed : h.state.completed ≡ true = ground arith in
                    rw (going, test, closed)
                      record {
                        going_on = refl;
                        received = received;
                        measured = ground (arith, append-nil h.measured);
                        told = ground arith;
                        completed = ground arith;
                      }
              ]
        ]

    handle_message-IsCounted :
        (d : Delivery) (s : ConsumerState) (before : ℕ)
        → IsCalm d
        → s.received_message_count ≡ before
        → s.completed ≡ not (ltb before p.msg_limit)
        → before + 1 < 9_223_372_036_854_775_808
        → IsCounted before (maybe_handle_message p d s)
    unfolding handle_message
    handle_message-IsCounted d s before calm start done room =
        let t = count_message p d s in
        let received : t.received_message_count ≡ before + 1 = ground arith in
        elim (Bool-cases (ltb before p.msg_limit)) [
          | inl more ↦
              let within : is_within_limit p t ≡ true = ground arith in
              rw (calm.0, within)
                (end_of_message-IsCounted t (process p d t) before
                  (rw more (process-IsProcessed d t calm)) received done room)
          | inr enough ↦
              let within : is_within_limit p t ≡ false = ground arith in
              rw (calm.0, within)
                (end_of_message-IsCounted t (quiet t) before
                  (rw enough (refl, refl, refl, refl, refl)) received done room)
        ]

    -- The number of messages that are measured of a number that have come.
    abbrev within : ℕ → ℕ
    within n = if ltb n p.msg_limit then n else p.msg_limit

    measured_step :
        (before n first more : ℕ)
        → first ≡ (if ltb before p.msg_limit then 1 else 0)
        → more + within (before + 1) ≡ within (before + 1 + n)
        → first + more + within before ≡ within (before + suc n)
    measured_step before n first more one rest = ground arith

    -- The reasons of the messages behind `before` messages.
    abbrev told_by : (before n : ℕ) → List StopReason
    told_by before n =
        if ltb before p.msg_limit && not (ltb (before + n) p.msg_limit)
        then consumer_reached_message_limit ∷ []
        else []

    told_step :
        (before n : ℕ)
        → (if before + 1 == p.msg_limit then consumer_reached_message_limit ∷ [] else [])
            ++ told_by (before + 1) n
          ≡ told_by before (suc n)
    told_step before n = ground arith

    handle_deliveries-within :
        (ds : List Delivery) (s : ConsumerState) (before : ℕ)
        → All IsCalm ds
        → s.received_message_count ≡ before
        → s.completed ≡ not (ltb before p.msg_limit)
        → before + length ds < 9_223_372_036_854_775_808
        → (length (handle_deliveries p ds s).measured + within before ≡ within (before + length ds))
          × ((handle_deliveries p ds s).reasons ≡ told_by before (length ds))
    unfolding handle_deliveries
    handle_deliveries-within [] s before calm start done room = ground arith
    handle_deliveries-within (d ∷ ds) s before (calm, rest) start done room =
        let h = maybe_handle_message p d s in
        let c = handle_message-IsCounted d s before calm start done (ground arith) in
        let (more, told) =
          handle_deliveries-within ds h.state (before + 1) rest c.received c.completed
            (ground arith) in
        let later = handle_deliveries p ds h.state in
        rw (c.going_on, length-append h.measured later.measured, c.told, told)
          (
            measured_step before (length ds) (length h.measured) (length later.measured) c.measured
                more,
            told_step before (length ds),
          )

    -- With a limit, a new consumer measures each message as long as there are no more than the limit,
    -- and later ones no more; it counts down with the reason that the limit is reached, once, when as
    -- many messages have come as the limit says, and not before. The calls do not fail, also when the
    -- latency of a consumer is interrupted; the limit is above 0 and below 2^31, the number of
    -- messages is below 2^63.
    pub handle_deliveries-limit :
        (ds : List Delivery) (timestamp : ℕ)
        → All IsCalm ds
        → length ds < 9_223_372_036_854_775_808
        → (length (handle_deliveries p ds (new_consumer timestamp)).measured
            ≡ (if ltb (length ds) p.msg_limit then length ds else p.msg_limit))
          × ((handle_deliveries p ds (new_consumer timestamp)).reasons
              ≡ (if ltb (length ds) p.msg_limit then [] else consumer_reached_message_limit ∷ []))
    handle_deliveries-limit ds timestamp calm room =
        let (measured, told) =
          handle_deliveries-within ds (new_consumer timestamp) 0 calm refl (ground arith)
            (omega arith) in
        (ground (arith, measured), told ∙ ground arith)
