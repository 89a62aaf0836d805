-- ===== src/Agents/Consuming/Recovered.antt =====
-- com.rabbitmq.perf.Consumer: what it asks for behind a recovery.
use rabbitmq_perf_test.Base.{
  ℕ, ◌+◌, ◌≡◌, refl, ap, sym, ◌∙◌, false, List, [], ◌∷◌, ◌++◌, length, arith,
}
use rabbitmq_perf_test.Agents.Consuming.{
  ConsumerParameters, Delivery, ConsumerState, handle_deliveries, maybe_handle_message,
  recover_consumer, new_consumer,
}
use rabbitmq_perf_test.Agents.Consuming.Good.{
  AreGood, HasRoom, acks, commits, handle_message-IsHandled,
}

module _ (p : ConsumerParameters) (acking : p.auto_ack ≡ false) where
  -- What is asked for depends on the messages and on the number of those that came since the last
  -- recovery only.
  same_operations :
      (ds : List Delivery) (s t : ConsumerState) (tag : ℕ)
      → s.epoch_message_count ≡ t.epoch_message_count
      → AreGood tag ds
      → HasRoom p acking s (length ds)
      → HasRoom p acking t (length ds)
      → (handle_deliveries p ds s).operations ≡ (handle_deliveries p ds t).operations
  unfolding handle_deliveries
  same_operations [] s t tag same good room_s room_t = refl
  same_operations (d ∷ ds) s t tag same (g, good) room_s room_t =
      let a = maybe_handle_message p d s in
      let b = maybe_handle_message p d t in
      let h = handle_message-IsHandled p acking tag d s g (ground arith) in
      let i = handle_message-IsHandled p acking tag d t g (ground arith) in
      let made : a.operations ≡ b.operations =
        h.made ∙ (ap (λ n. acks p tag (n + 1) ++ commits p (n + 1)) same ∙ sym i.made) in
      let epochs : a.state.epoch_message_count ≡ b.state.epoch_message_count =
        h.epoch ∙ (ap (λ n. n + 1) same ∙ sym i.epoch) in
      let rest =
        same_operations ds a.state b.state (tag + 1) epochs good (ground arith) (ground arith) in
      rw (h.going_on, i.going_on, made, rest) refl

  -- Behind a recovery a consumer asks for the acks and the commits that a new consumer asks for when
  -- it gets the same messages, whatever its tags, its count of messages and its last ack were. Nothing
  -- goes wrong with a message, the tags follow one another, and the numbers of messages are below 2^63
  -- and not above the limit.
  pub recover_consumer-operations :
      (ds : List Delivery) (s : ConsumerState) (tag timestamp : ℕ)
      → AreGood tag ds
      → HasRoom p acking (recover_consumer s) (length ds)
      → HasRoom p acking (new_consumer timestamp) (length ds)
      → (handle_deliveries p ds (recover_consumer s)).operations
        ≡ (handle_deliveries p ds (new_consumer timestamp)).operations
  recover_consumer-operations ds s tag timestamp good room_s room_t =
      same_operations ds (recover_consumer s) (new_consumer timestamp) tag refl good room_s room_t
