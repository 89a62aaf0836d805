-- ===== src/Agents/Consuming/Good.antt =====
-- com.rabbitmq.perf.Consumer: what a message leaves with which nothing goes wrong.
use mathlib.Core.List.{append-nil}
use rabbitmq_perf_test.Base.{
  ℕ, ◌+◌, ◌<◌, ◌≤◌, ◌≡◌, ◌⊎◌, refl, true, false, not, ◌&&◌, List, [], ◌∷◌, ◌++◌, arith, ◌==◌,
  if◌then◌else◌,
}
use rabbitmq_perf_test.Java.{lt_long}
use rabbitmq_perf_test.Agents.Publishing.{written}
use rabbitmq_perf_test.Agents.Consuming.{
  ConsumerParameters, Delivery, ConsumerState, Operation, tx_commit, Handled, count_message,
  process, handle_message, is_ack_due, is_multiple_of, ack_nack_operation, maybe_handle_message,
  count_down, is_within_limit, followed, quiet, consumer_reached_message_limit,
}

-- A message with the tag, with which nothing goes wrong.
abbrev pub IsGood : (tag : ℕ) → Delivery → Type 0
IsGood tag d =
    (d.is_open ≡ true)
    × (d.delivery_tag ≡ tag)
    × (d.latency_simulated ≡ true)
    × (d.ack_write ≡ written)
    × (d.commit_write ≡ written)

-- Messages with tags one after another.
abbrev pub AreGood : (tag : ℕ) → List Delivery → Type 0
AreGood tag [] = Unit
AreGood tag (d ∷ ds) = IsGood tag d × AreGood (tag + 1) ds

module _ (p : ConsumerParameters) where
  abbrev pub acks : (tag count : ℕ) → List Operation
  acks tag count =
      if is_ack_due p count
      then ack_nack_operation p tag (not (p.multi_ack_every == 0)) ∷ []
      else []

  abbrev pub commits : (count : ℕ) → List Operation
  commits count =
      if not (p.tx_size == 0) && is_multiple_of p.tx_size count then tx_commit ∷ [] else []

  -- What a good message within the limit leaves.
  pub record IsHandled (tag : ℕ) (s : ConsumerState) (h : Handled) : Type 0 where
    pub made :
        h.operations ≡ acks tag (s.epoch_message_count + 1) ++ commits (s.epoch_message_count + 1)
    pub going_on : h.is_failed ≡ false
    pub epoch : h.state.epoch_message_count ≡ s.epoch_message_count + 1
    pub received : h.state.received_message_count ≡ s.received_message_count + 1
    pub last : h.state.last_delivery_tag ≡ tag
    pub last_acked :
        h.state.last_acked_delivery_tag
        ≡ (if is_ack_due p (s.epoch_message_count + 1) then tag else s.last_acked_delivery_tag)

  module _ (acking : p.auto_ack ≡ false) where
    process-IsHandled :
        (tag : ℕ) (d : Delivery) (s : ConsumerState) (t : ConsumerState)
        → IsGood tag d
        → t.epoch_message_count ≡ s.epoch_message_count + 1
        → t.received_message_count ≡ s.received_message_count + 1
        → t.last_acked_delivery_tag ≡ s.last_acked_delivery_tag
        → IsHandled tag s (process p d t)
    unfolding process
    process-IsHandled tag d s t (_, named, simulated, acked, committed) e r l = ground arith

    -- The counts stay below 2 ^ 63, and the limit is not passed.
    abbrev pub HasRoom : ConsumerState → ℕ → Type 0
    HasRoom s n =
        (s.epoch_message_count + n < 9_223_372_036_854_775_808)
        × (s.received_message_count + n < 9_223_372_036_854_775_808)
        × ((p.msg_limit ≡ 0)
            ⊎ (s.received_message_count + n ≤ p.msg_limit) × (p.msg_limit < 2_147_483_648))

    end_of_message-IsHandled :
        (tag : ℕ) (s : ConsumerState) (h : Handled)
        → IsHandled tag s h
        → IsHandled tag s (
            followed h λ t.
              if not (p.msg_limit == 0) && not (lt_long t.received_message_count p.msg_limit)
              then count_down consumer_reached_message_limit t
              else quiet t)
    unfolding count_down
    end_of_message-IsHandled tag s h i = ground (arith, append-nil h.operations)

    pub handle_message-IsHandled :
        (tag : ℕ) (d : Delivery) (s : ConsumerState)
        → IsGood tag d
        → HasRoom s 1
        → IsHandled tag s (maybe_handle_message p d s)
    unfolding handle_message
    handle_message-IsHandled tag d s good room =
        let t = count_message p d s in
        let within : is_within_limit p t ≡ true = ground arith in
        let h : IsHandled tag s (process p d t) =
          process-IsHandled tag d s t good (omega arith) (omega arith) refl in
        rw (good.0, within) (end_of_message-IsHandled tag s (process p d t) h)
