-- ===== src/Agents/Consuming/Idle.antt =====
-- com.rabbitmq.perf.Consumer: when it stops as its queues are empty or nothing comes any more. The
-- clock and the queues of the broker are given by a `Check`.
use rabbitmq_perf_test.Base.{
  ℕ, ◌+◌, ◌-◌, ◌≡◌, Bool, true, false, not, ◌&&◌, List, [], ◌∷◌, length, length-append, arith, ◌==◌,
  Bool-cases, inl, inr, if◌then◌else◌,
}
use rabbitmq_perf_test.Java.{wrap, div_long, lt_long}
use rabbitmq_perf_test.Agents.Messages.{get_difference}
use rabbitmq_perf_test.Agents.Publishing.{Write, connection_lost, channel_closed}
use rabbitmq_perf_test.Agents.Consuming.{
  ConsumerParameters, Delivery, ConsumerState, Handled, StopReason, consumer_idle,
  consumer_queue_empty, quiet, count_down, handle_message, maybe_handle_message, process,
  handle_deliveries, followed, count_message, is_within_limit, consumer_reached_message_limit,
  maybe_ack_commit_before_exit, is_written,
}

pub data ExitWhen : Type 0 where
  never empty idle : ExitWhen

-- What `queueDeclarePassive` gives: the number of messages, an `IOException`, or the exception of a
-- channel that is closed.
pub data QueueAnswer : Type 0 where
  has_messages : (count : ℕ) → QueueAnswer
  refused closed_already : QueueAnswer

pub record Check : Type 0 where
  pub exit_when : ExitWhen
  pub use_millis : Bool
  pub current_time : ℕ
  pub queues : List QueueAnswer
  pub ack_write : Write
  pub commit_write : Write

-- Whether one of the queues is empty.
abbrev pub is_one_empty : List QueueAnswer → Bool
is_one_empty [] = false
is_one_empty (has_messages n ∷ answers) = if n == 0 then true else is_one_empty answers
is_one_empty (_ ∷ answers) = is_one_empty answers

-- Whether an exception leaves the loop over the queues, which catches an `IOException`.
abbrev pub is_cut_off : List QueueAnswer → Bool
is_cut_off [] = false
is_cut_off (closed_already ∷ answers) = true
is_cut_off (_ ∷ answers) = is_cut_off answers

-- `difference(...).toMillis() > 1000`
abbrev pub is_idle : Check → ConsumerState → Bool
is_idle c s =
    let difference = get_difference c.current_time s.last_activity_timestamp in
    lt_long 1000 (if c.use_millis then difference else div_long difference 1_000_000)

module _ (p : ConsumerParameters) where
  -- Whether an exception leaves `maybeAckCommitBeforeExit`, which catches an `IOException`.
  abbrev pub is_escaping : Write → Bool
  is_escaping connection_lost = not p.recovery_enabled
  is_escaping channel_closed = true
  is_escaping w = false

  abbrev pub exit_fails : Check → ConsumerState → Bool
  exit_fails c s =
      not p.auto_ack
      && lt_long s.last_acked_delivery_tag s.last_delivery_tag
      && (if is_written c.ack_write
          then not (p.tx_size == 0) && is_escaping c.commit_write
          else is_escaping c.ack_write)

  -- What it asks for before it counts down.
  abbrev pub stop : StopReason → Check → ConsumerState → Handled
  stop reason c s =
      let asked = maybe_ack_commit_before_exit p c.ack_write c.commit_write s in
      if exit_fails c s
      then record (quiet s) { operations = asked; is_failed = true }
      else record (count_down reason s) { operations = asked }

  -- `maybeStopIfNoActivityOrQueueEmpty`
  unfoldable pub maybe_stop : Check → ConsumerState → Handled
  unfolding count_down maybe_ack_commit_before_exit
  maybe_stop c s = elim c.exit_when [
    | never ↦ quiet s
    | empty ↦
        if s.last_activity_timestamp == wrap - 1
        then quiet (record s { last_activity_timestamp = c.current_time })
        else if is_idle c s && is_cut_off c.queues
        then record (quiet s) { is_failed = true }
        else if is_idle c s && is_one_empty c.queues
        then stop consumer_queue_empty c s
        else quiet s
    | idle ↦
        if s.last_activity_timestamp == wrap - 1
        then quiet (record s { last_activity_timestamp = c.current_time })
        else if is_idle c s
        then stop consumer_idle c s
        else quiet s
  ]

  -- One check after another; an exception is only logged.
  unfoldable pub check_all : List Check → ConsumerState → Handled
  unfolding maybe_stop
  check_all [] s = quiet s
  check_all (c ∷ cs) s =
      followed (record (maybe_stop c s) { is_failed = false }) (λ t. check_all cs t)

  -- What is told in a part of the run, with what was told before it.
  abbrev pub one : Bool → ℕ
  one b = if b then 1 else 0

  abbrev pub IsOnce : ConsumerState → Handled → Type 0
  IsOnce s h = length h.reasons + one s.completed ≡ one h.state.completed

  IsOnce-followed :
      (s : ConsumerState) (h : Handled) (f : ConsumerState → Handled)
      → IsOnce s h
      → IsOnce h.state (f h.state)
      → IsOnce s (followed h f)
  IsOnce-followed s h f first second = elim (Bool-cases h.is_failed) [
    | inl failed ↦ rw failed first
    | inr going ↦
        rw (going, length-append h.reasons (f h.state).reasons) (omega (arith, first, second))
  ]

  count_down-IsOnce : (reason : StopReason) (s : ConsumerState) → IsOnce s (count_down reason s)
  unfolding count_down
  count_down-IsOnce reason s = ground arith

  process-IsOnce : (d : Delivery) (s : ConsumerState) → IsOnce s (process p d s)
  unfolding process
  process-IsOnce d s = ground arith

  -- The end of a message.
  abbrev at_limit : ConsumerState → Handled
  at_limit t =
      if not (p.msg_limit == 0) && not (lt_long t.received_message_count p.msg_limit)
      then count_down consumer_reached_message_limit t
      else quiet t

  at_limit-IsOnce : (t : ConsumerState) → IsOnce t (at_limit t)
  at_limit-IsOnce t =
      elim (Bool-cases
        (not (p.msg_limit == 0) && not (lt_long t.received_message_count p.msg_limit))) [
          | inl reached ↦ rw reached (count_down-IsOnce consumer_reached_message_limit t)
          | inr below ↦ rw below (omega arith)
        ]

  within-IsOnce :
      (d : Delivery) (t : ConsumerState)
      → IsOnce t (if is_within_limit p t then process p d t else quiet t)
  within-IsOnce d t = elim (Bool-cases (is_within_limit p t)) [
    | inl more ↦ rw more (process-IsOnce d t)
    | inr enough ↦ rw enough (omega arith)
  ]

  handle_message-IsOnce : (d : Delivery) (s : ConsumerState) → IsOnce s (maybe_handle_message p d s)
  unfolding handle_message
  handle_message-IsOnce d s =
      let t = count_message p d s in
      let h = if is_within_limit p t then process p d t else quiet t in
      elim (Bool-cases d.is_open) [
        | inl open_one ↦
            rw open_one (IsOnce-followed s h at_limit (within-IsOnce d t) (at_limit-IsOnce h.state))
        | inr shut ↦ rw shut (omega arith)
      ]

  pub handle_deliveries-IsOnce :
      (ds : List Delivery) (s : ConsumerState) → IsOnce s (handle_deliveries p ds s)
  unfolding handle_deliveries
  handle_deliveries-IsOnce [] s = omega arith
  handle_deliveries-IsOnce (d ∷ ds) s =
      let h = maybe_handle_message p d s in
      IsOnce-followed s h (λ t. handle_deliveries p ds t) (handle_message-IsOnce d s)
        (handle_deliveries-IsOnce ds h.state)

  pub maybe_stop-IsOnce : (c : Check) (s : ConsumerState) → IsOnce s (maybe_stop c s)
  unfolding maybe_stop
  maybe_stop-IsOnce c s =
      ground (arith, count_down-IsOnce consumer_idle s, count_down-IsOnce consumer_queue_empty s)
