-- ===== src/Agents/Consuming/Stopped.antt =====
-- com.rabbitmq.perf.Consumer: what becomes of its messages when it stops, or cannot.
use rabbitmq_perf_test.Base.{
  All, ◌⊎◌, ℕ, ◌+◌, ◌-◌, ◌≡◌, refl, ap, ◌∙◌, true, false, ◌&&◌, List, [], ◌∷◌, ◌++◌, length,
  length-append, arith, ◌==◌, Bool-cases, inl, inr,
}
use rabbitmq_perf_test.Java.{wrap, lt_long}
use rabbitmq_perf_test.Agents.Publishing.{written, channel_closed}
use rabbitmq_perf_test.Agents.Publishing.Limit.{numbers_from}
use rabbitmq_perf_test.Agents.Consuming.{
  ConsumerParameters, Delivery, ConsumerState, Handled, StopReason, consumer_idle,
  consumer_queue_empty, count_down, handle_deliveries, maybe_ack_commit_before_exit, new_consumer,
}
use rabbitmq_perf_test.Agents.Consuming.Good.{AreGood, HasRoom}
use rabbitmq_perf_test.Agents.Consuming.Settled.{waiting_behind}
use rabbitmq_perf_test.Agents.Consuming.Exit.{handle_deliveries-settled}
use rabbitmq_perf_test.Agents.Consuming.Idle.{
  Check, ExitWhen, never, empty, stop, is_one_empty, is_cut_off, idle, is_idle, exit_fails,
  maybe_stop, check_all, one, handle_deliveries-IsOnce, maybe_stop-IsOnce,
}

module _ (p : ConsumerParameters) where
  stop_lem :
      (c : Check) (s : ConsumerState)
      → c.exit_when ≡ idle
      → c.ack_write ≡ written
      → c.commit_write ≡ written
      → (s.last_activity_timestamp == wrap - 1) ≡ false
      → is_idle c s ≡ true
      → ((maybe_stop p c s).operations ≡ maybe_ack_commit_before_exit p written c.commit_write s)
        × ((maybe_stop p c s).state.completed ≡ true)
  unfolding maybe_stop count_down
  stop_lem c s mode acked committed active late =
      let fine : exit_fails p c s ≡ false = ground arith in
      rw (mode, active, late, fine)
        (ap (λ w. maybe_ack_commit_before_exit p w c.commit_write s) acked, ground arith)

  -- When a consumer that exits when it is idle, and has no transactions, has handled messages, and
  -- more than a second went by behind its last activity, then the check settles all messages that
  -- were handled, no other one, and the consumer has counted down once, be it for its limit or as it
  -- is idle. Nothing goes wrong with a message, their number is below 2^63 and not above the limit,
  -- the consumer acks what it gets, and the ack and the commit before the exit do not fail.
  pub maybe_stop-settled :
      (acking : p.auto_ack ≡ false) (ds : List Delivery) (timestamp more : ℕ) (c : Check)
      → p.tx_size ≡ 0
      → AreGood 1 ds
      → HasRoom p acking (new_consumer timestamp) (length ds)
      → c.exit_when ≡ idle
      → c.ack_write ≡ written
      → c.commit_write ≡ written
      → ((handle_deliveries p ds (new_consumer timestamp)).state.last_activity_timestamp
          == wrap - 1)
        ≡ false
      → is_idle c (handle_deliveries p ds (new_consumer timestamp)).state ≡ true
      → (waiting_behind p
            ((handle_deliveries p ds (new_consumer timestamp)).operations
              ++ (maybe_stop p c
                  (handle_deliveries p ds (new_consumer timestamp)).state).operations)
            (numbers_from 1 (length ds + more))
          ≡ numbers_from (length ds + 1) more)
        × (length (
              (handle_deliveries p ds (new_consumer timestamp)).reasons
              ++ (maybe_stop p c (handle_deliveries p ds (new_consumer timestamp)).state).reasons)
            ≡ 1)
  maybe_stop-settled acking ds timestamp more c single good room mode acked committed active late =
      let h = handle_deliveries p ds (new_consumer timestamp) in
      let t = maybe_stop p c h.state in
      let (_, _, settled) =
        handle_deliveries-settled p acking ds timestamp more c.commit_write single good room in
      let (asked, done) = stop_lem c h.state mode acked committed active late in
      let first = handle_deliveries-IsOnce p ds (new_consumer timestamp) in
      let second : length t.reasons + one p h.state.completed ≡ 1 =
        maybe_stop-IsOnce p c h.state ∙ ap (one p) done in
      (rw asked settled, rw (length-append h.reasons t.reasons) (omega (arith, first, second)))

  -- Nothing is done.
  abbrev IsQuiet : ConsumerState → Handled → Type 0
  IsQuiet s h = (h.operations ≡ []) × (h.reasons ≡ []) × (h.state ≡ s)

  stop-IsQuiet :
      (reason : StopReason) (c : Check) (s : ConsumerState)
      → c.ack_write ≡ channel_closed
      → p.auto_ack ≡ false
      → lt_long s.last_acked_delivery_tag s.last_delivery_tag ≡ true
      → IsQuiet s (stop p reason c s)
  unfolding maybe_ack_commit_before_exit
  stop-IsQuiet reason c s shut acking late =
      let fails : exit_fails p c s ≡ true = rw (acking, late, shut) refl in
      rw (fails, shut, acking, late) (refl, refl, refl)

  mode_cases : (m : ExitWhen) → ((m ≡ never) ⊎ (m ≡ empty)) ⊎ (m ≡ idle)
  mode_cases never = inl (inl refl)
  mode_cases empty = inl (inr refl)
  mode_cases idle = inr refl

  maybe_stop-IsQuiet :
      (c : Check) (s : ConsumerState)
      → c.ack_write ≡ channel_closed
      → p.auto_ack ≡ false
      → lt_long s.last_acked_delivery_tag s.last_delivery_tag ≡ true
      → (s.last_activity_timestamp == wrap - 1) ≡ false
      → IsQuiet s (maybe_stop p c s)
  unfolding maybe_stop
  maybe_stop-IsQuiet c s shut acking late active = elim (mode_cases c.exit_when) [
    | inl (inl mode) ↦ rw mode (refl, refl, refl)
    | inl (inr mode) ↦ elim (Bool-cases (is_idle c s && is_cut_off c.queues)) [
      | inl cut ↦ rw (mode, active, cut) (refl, refl, refl)
      | inr whole ↦ elim (Bool-cases (is_idle c s && is_one_empty c.queues)) [
        | inl now ↦
            rw (mode, active, whole, now) (stop-IsQuiet consumer_queue_empty c s shut acking late)
        | inr later ↦ rw (mode, active, whole, later) (refl, refl, refl)
      ]
    ]
    | inr mode ↦ elim (Bool-cases (is_idle c s)) [
      | inl now ↦ rw (mode, active, now) (stop-IsQuiet consumer_idle c s shut acking late)
      | inr later ↦ rw (mode, active, later) (refl, refl, refl)
    ]
  ]

  -- The checks never count a consumer down that has messages to ack and whose channel each of them
  -- finds closed, however many checks there are and however long it is idle, and they leave its state
  -- as it was: the exception leaves a check before it counts down. The consumer acks what it gets,
  -- and has been active.
  pub check_all-stuck :
      (cs : List Check) (s : ConsumerState)
      → All (λ c. c.ack_write ≡ channel_closed) cs
      → p.auto_ack ≡ false
      → lt_long s.last_acked_delivery_tag s.last_delivery_tag ≡ true
      → (s.last_activity_timestamp == wrap - 1) ≡ false
      → ((check_all p cs s).operations ≡ [])
        × ((check_all p cs s).reasons ≡ [])
        × ((check_all p cs s).state ≡ s)
  unfolding check_all
  check_all-stuck [] s shut acking late active = (refl, refl, refl)
  check_all-stuck (c ∷ cs) s (shut, all) acking late active =
      let (asked, told, same) = maybe_stop-IsQuiet c s shut acking late active in
      rw (asked, told, same) (check_all-stuck cs s all acking late active)
