-- ===== src/Agents/Consuming.antt =====
-- com.rabbitmq.perf.Consumer: what it does with a message, and before it exits. A `long` is given by
-- its 64 bits. The broker, the clock and the outcome of the calls of the channel are given by a
-- `Delivery`. `multi_ack_every` and `tx_size` are not negative.
pub mod Good
pub mod Settled
pub mod Exit
pub mod Uncommitted
pub mod Recovered
pub mod Limit
pub mod Idle
pub mod Stopped
use rabbitmq_perf_test.Base.{
  ℕ, ◌+◌, ◌-◌, ◌%◌, Bool, true, false, not, ◌&&◌, ◌||◌, List, [], ◌∷◌, ◌++◌, ltb, ◌==◌,
  if◌then◌else◌,
}
use rabbitmq_perf_test.Java.{int_range, wrap, half, add_long, sub_long, neg_long, lt_long}
use rabbitmq_perf_test.Agents.Messages.{get_difference}
use rabbitmq_perf_test.Agents.Publishing.{Write, written, is_thrown}

pub record ConsumerParameters : Type 0 where
  pub auto_ack : Bool
  pub multi_ack_every : ℕ
  pub tx_size : ℕ
  pub msg_limit : ℕ
  pub nack : Bool
  pub requeue : Bool
  pub rate_limitation : Bool
  pub recovery_enabled : Bool

pub record Delivery : Type 0 where
  pub is_open : Bool
  pub delivery_tag : ℕ
  pub message_timestamp : ℕ
  pub now_timestamp : ℕ
  -- What `simulateLatency` returns.
  pub latency_simulated : Bool
  pub ack_write : Write
  pub commit_write : Write
  pub now : ℕ

pub record ConsumerState : Type 0 where
  pub received_message_count : ℕ
  pub epoch_message_count : ℕ
  pub msg_count : ℕ
  pub last_stats_time : ℕ
  pub last_activity_timestamp : ℕ
  pub last_delivery_tag : ℕ
  pub last_acked_delivery_tag : ℕ
  pub completed : Bool

-- What the channel is asked for.
pub data Operation : Type 0 where
  basic_ack : (tag : ℕ) (multiple : Bool) → Operation
  basic_nack : (tag : ℕ) (multiple requeue : Bool) → Operation
  tx_commit : Operation

pub data StopReason : Type 0 where
  consumer_reached_message_limit consumer_idle consumer_queue_empty : StopReason

-- The operations that did not fail, the differences of time that are measured, the reasons with
-- which the consumer counts down, and whether an exception leaves the handler.
pub record Handled : Type 0 where
  pub operations : List Operation
  pub measured : List ℕ
  pub reasons : List StopReason
  pub is_failed : Bool
  pub state : ConsumerState

abbrev pub quiet : ConsumerState → Handled
quiet s = record { operations = []; measured = []; reasons = []; is_failed = false; state = s }

-- One part behind another, unless the first has failed.
abbrev pub followed : Handled → (ConsumerState → Handled) → Handled
followed a f =
    if a.is_failed
    then a
    else (let b = f a.state in
        record {
          operations = a.operations ++ b.operations;
          measured = a.measured ++ b.measured;
          reasons = a.reasons ++ b.reasons;
          is_failed = b.is_failed;
          state = b.state;
        })

-- `dealWithWriteOperation` of one operation, with what follows it in the same call.
abbrev pub write_operation :
    (recovery_enabled : Bool)
    → Write
    → List Operation
    → (after : ConsumerState) → ConsumerState
    → Handled
write_operation enabled written ops after s = record (quiet after) { operations = ops }
write_operation enabled failure ops after s = record (quiet s) {
  is_failed = is_thrown enabled failure;
}

abbrev pub is_written : Write → Bool
is_written written = true
is_written failure = false

-- `count % every == 0` for a `long` and an `int`.
abbrev pub is_multiple_of : (every count : ℕ) → Bool
is_multiple_of every count = (if ltb count half then count else neg_long count) % every == 0

module _ (p : ConsumerParameters) where
  abbrev pub ack_nack_operation : (tag : ℕ) (multiple : Bool) → Operation
  ack_nack_operation tag multiple =
      if p.nack then basic_nack tag multiple p.requeue else basic_ack tag multiple

  abbrev pub is_ack_due : (current_message_count : ℕ) → Bool
  is_ack_due n = p.multi_ack_every == 0 || is_multiple_of p.multi_ack_every n

  unfoldable pub ack_if_necessary : Delivery → ConsumerState → Handled
  ack_if_necessary d s =
      if not p.auto_ack && is_ack_due s.epoch_message_count
      then write_operation p.recovery_enabled d.ack_write
          (ack_nack_operation d.delivery_tag (not (p.multi_ack_every == 0)) ∷ [])
          (record s { last_acked_delivery_tag = d.delivery_tag }) s
      else quiet s

  unfoldable pub commit_transaction_if_necessary : Delivery → ConsumerState → Handled
  commit_transaction_if_necessary d s =
      if not (p.tx_size == 0) && is_multiple_of p.tx_size s.epoch_message_count
      then write_operation p.recovery_enabled d.commit_write (tx_commit ∷ []) s s
      else quiet s

  -- The last tag, and with a limited rate the count, which starts again when the clock is more than
  -- 1000 on.
  unfoldable pub note_delivery : Delivery → ConsumerState → Handled
  note_delivery d s =
      let noted = record s { last_delivery_tag = d.delivery_tag } in
      if p.rate_limitation && lt_long 1000 (sub_long d.now s.last_stats_time)
      then quiet (record noted { last_stats_time = d.now; msg_count = 0 })
      else quiet noted

  abbrev pub measure : Delivery → ConsumerState → Handled
  measure d s = record (quiet s) {
    measured = get_difference d.now_timestamp d.message_timestamp ∷ [];
  }

  -- The three counts, and the time.
  abbrev pub count_message : Delivery → ConsumerState → ConsumerState
  count_message d s = record s {
    received_message_count = add_long s.received_message_count 1;
    epoch_message_count = add_long s.epoch_message_count 1;
    msg_count = (s.msg_count + 1) % int_range;
    last_activity_timestamp = d.now_timestamp;
  }

  abbrev pub is_within_limit : ConsumerState → Bool
  is_within_limit s = p.msg_limit == 0 || not (lt_long p.msg_limit s.received_message_count)

  -- What is done with a message within the limit.
  unfoldable pub process : Delivery → ConsumerState → Handled
  unfolding ack_if_necessary commit_transaction_if_necessary note_delivery
  process d s = followed (measure d s) λ s.
      if d.latency_simulated
      then followed (ack_if_necessary d s)
          (λ s. followed (commit_transaction_if_necessary d s) (λ s. note_delivery d s))
      else quiet s

-- `countDown`: once.
unfoldable pub count_down : StopReason → ConsumerState → Handled
count_down reason s =
    if s.completed
    then quiet s
    else record (quiet (record s { completed = true })) { reasons = reason ∷ [] }

module _ (p : ConsumerParameters) where
  unfoldable pub handle_message : Delivery → ConsumerState → Handled
  unfolding process count_down
  handle_message d s =
      let t = count_message p d s in
      followed (if is_within_limit p t then process p d t else quiet t) λ t.
        if not (p.msg_limit == 0) && not (lt_long t.received_message_count p.msg_limit)
        then count_down consumer_reached_message_limit t
        else quiet t

  -- `maybeHandleMessage`
  abbrev pub maybe_handle_message : Delivery → ConsumerState → Handled
  maybe_handle_message d s = if d.is_open then handle_message d s else quiet s

  -- One message after another. An exception ends the deliveries.
  unfoldable pub handle_deliveries : List Delivery → ConsumerState → Handled
  unfolding handle_message
  handle_deliveries [] s = quiet s
  handle_deliveries (d ∷ ds) s = followed (maybe_handle_message d s) (λ t. handle_deliveries ds t)

  -- `maybeAckCommitBeforeExit`: what it asks for.
  unfoldable pub maybe_ack_commit_before_exit :
      (ack commit : Write) → ConsumerState → List Operation
  maybe_ack_commit_before_exit ack commit s =
      if not p.auto_ack && lt_long s.last_acked_delivery_tag s.last_delivery_tag && is_written ack
      then basic_ack s.last_delivery_tag true
        ∷ (if not (p.tx_size == 0) && is_written commit then tx_commit ∷ [] else [])
      else []

-- `recover`, as far as the counts go.
abbrev pub recover_consumer : ConsumerState → ConsumerState
recover_consumer s = record s { epoch_message_count = 0 }

-- A consumer that has seen no message; `timestamp` is the one of its last statistics.
abbrev pub new_consumer : (timestamp : ℕ) → ConsumerState
new_consumer timestamp = record {
  received_message_count = 0;
  epoch_message_count = 0;
  msg_count = 0;
  last_stats_time = timestamp;
  last_activity_timestamp = wrap - 1;
  last_delivery_tag = 0;
  last_acked_delivery_tag = 0;
  completed = false;
}
