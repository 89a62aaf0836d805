-- ===== src/Agents/Consuming/Exit.antt =====
-- com.rabbitmq.perf.Consumer: the ack before it exits.
use native.Mathlib.Nat.{mod-le, mod-lt, mod-one, zero-mod}
use rabbitmq_perf_test.Base.{
  ℕ, suc, ◌+◌, ◌-◌, ◌%◌, ◌<◌, ◌≡◌, refl, ap, sym, ◌∙◌, true, false, not, ◌&&◌, List, [], ◌∷◌, ◌++◌,
  length, arith, ◌==◌, Bool-cases, inl, inr, if◌then◌else◌,
}
use rabbitmq_perf_test.Java.{lt_long}
use rabbitmq_perf_test.Agents.Publishing.{Write, written}
use rabbitmq_perf_test.Agents.Publishing.Limit.{numbers_from}
use rabbitmq_perf_test.Agents.Consuming.{
  ConsumerParameters, Delivery, ConsumerState, is_ack_due, is_written, handle_deliveries,
  maybe_handle_message, maybe_ack_commit_before_exit, new_consumer,
}
use rabbitmq_perf_test.Agents.Consuming.Good.{AreGood, HasRoom, handle_message-IsHandled}
use rabbitmq_perf_test.Agents.Consuming.Settled.{
  settle_all, settle_all-append, waiting_behind, waiting_behind-no_transactions, without_first,
  period, mod_step, unsettled, handle_deliveries-unsettled,
}

module _ (p : ConsumerParameters) (acking : p.auto_ack ≡ false) where
  -- The consumer has seen `count` messages of this channel.
  abbrev pub HasSeen : (count : ℕ) → ConsumerState → Type 0
  HasSeen count s =
      (s.epoch_message_count ≡ count)
      × (s.last_delivery_tag ≡ count)
      × (s.last_acked_delivery_tag ≡ count - count % period p)

  last_acked_step :
      (j : ℕ)
      → j + 1 < 9_223_372_036_854_775_808
      → (if is_ack_due p (j + 1) then j + 1 else j - j % period p) ≡ j + 1 - (j + 1) % period p
  last_acked_step j fits = elim (Bool-cases (p.multi_ack_every == 0)) [
    | inl single ↦ rw (single, mod-one (j + 1)) (omega arith)
    | inr several ↦ elim (mod_step j p.multi_ack_every (ground arith)) [
      | inl (whole, full) ↦ rw several (ground (arith, whole))
      | inr (open_one, below) ↦ rw several (ground (arith, open_one))
    ]
  ]

  pub handle_deliveries-HasSeen :
      (ds : List Delivery) (s : ConsumerState) (j : ℕ)
      → HasSeen j s
      → AreGood (j + 1) ds
      → HasRoom p acking s (length ds)
      → HasSeen (j + length ds) (handle_deliveries p ds s).state
  unfolding handle_deliveries
  handle_deliveries-HasSeen [] s j seen good room =
      let none : j + 0 ≡ j = omega arith in rw none seen
  handle_deliveries-HasSeen (d ∷ ds) s j (e, l, a) (g, good) room =
      let t = maybe_handle_message p d s in
      let h = handle_message-IsHandled p acking (j + 1) d s g (ground arith) in
      let epoch : t.state.epoch_message_count ≡ j + 1 = omega (arith, h.epoch) in
      let acked : t.state.last_acked_delivery_tag ≡ j + 1 - (j + 1) % period p =
        h.last_acked
        ∙ (ap (λ c. if is_ack_due p (c + 1) then j + 1 else s.last_acked_delivery_tag) e
            ∙ (ap (λ x. if is_ack_due p (j + 1) then j + 1 else x) a
                ∙ last_acked_step j (ground arith))) in
      let total : j + suc (length ds) ≡ j + 1 + length ds = omega arith in
      rw (h.going_on, total)
        (handle_deliveries-HasSeen ds t.state (j + 1) (epoch, h.last, acked) good (ground arith))

  exit-settled :
      (s : ConsumerState) (count more : ℕ) (commit : Write)
      → HasSeen count s
      → count < 9_223_372_036_854_775_808
      → settle_all (maybe_ack_commit_before_exit p written commit s) (unsettled p count more)
        ≡ numbers_from (count + 1) more
  unfolding maybe_ack_commit_before_exit settle_all
  exit-settled s count more commit (e, l, a) fits = elim (Bool-cases (count % period p == 0)) [
    | inl whole ↦
        let none_left : count % period p ≡ 0 = ground arith in
        let up_to_date : lt_long s.last_acked_delivery_tag s.last_delivery_tag ≡ false =
          rw (a, l, none_left) (ground arith) in
        let start : count - 0 + 1 ≡ count + 1 = omega arith in
        let behind : 0 + more ≡ more = omega arith in
        rw (acking, up_to_date, none_left, start, behind) refl
    | inr part ↦
        let late : lt_long s.last_acked_delivery_tag s.last_delivery_tag ≡ true =
          rw (a, l) (ground (arith, mod-le count (period p))) in
        let first =
          without_first count (count - count % period p + 1) (count % period p + more) more
            (omega arith) (omega (arith, mod-le count (period p))) in
        elim (Bool-cases (not (p.tx_size == 0) && is_written commit)) [
          | inl also ↦ rw (acking, late, also, l) first
          | inr only ↦ rw (acking, late, only, l) first
        ]
  ]

  unsettled-zero : (more : ℕ) → unsettled p 0 more ≡ numbers_from 1 more
  unsettled-zero more =
      let behind : 0 + more ≡ more = omega arith in
      let start : 0 - 0 + 1 ≡ 1 = omega arith in rw (zero-mod (period p), behind) refl

  pub handle_deliveries-settled :
      (ds : List Delivery) (timestamp more : ℕ) (commit : Write)
      → p.tx_size ≡ 0
      → AreGood 1 ds
      → HasRoom p acking (new_consumer timestamp) (length ds)
      → (waiting_behind p
            (handle_deliveries p ds (new_consumer timestamp)).operations
            (numbers_from 1 (length ds + more))
          ≡ numbers_from (length ds - length ds % period p + 1) (length ds % period p + more))
        × (length ds % period p < period p)
        × (waiting_behind p
              ((handle_deliveries p ds (new_consumer timestamp)).operations
                ++ maybe_ack_commit_before_exit p written commit
                    (handle_deliveries p ds (new_consumer timestamp)).state)
              (numbers_from 1 (length ds + more))
            ≡ numbers_from (length ds + 1) more)
  handle_deliveries-settled ds timestamp more commit single good room =
      let h = handle_deliveries p ds (new_consumer timestamp) in
      let made = maybe_ack_commit_before_exit p written commit h.state in
      let waiting = numbers_from 1 (length ds + more) in
      let none : 0 + length ds ≡ length ds = omega arith in
      let seen : HasSeen 0 (new_consumer timestamp) = (refl, refl, rw (zero-mod (period p)) refl) in
      let at_end = handle_deliveries-HasSeen ds (new_consumer timestamp) 0 seen good room in
      let first : settle_all h.operations waiting ≡ unsettled p (length ds) more =
        ap (settle_all h.operations) (sym (unsettled-zero (length ds + more)))
        ∙ (handle_deliveries-unsettled p acking ds (new_consumer timestamp) 0 more refl good room
            ∙ ap (λ k. unsettled p k more) none) in
      (
        waiting_behind-no_transactions p h.operations waiting single ∙ first,
        mod-lt (length ds) {m = period p} (ground arith),
        waiting_behind-no_transactions p (h.operations ++ made) waiting single
            ∙ rw (settle_all-append h.operations made waiting, first)
                (exit-settled h.state (length ds) more commit (rw none at at_end) (omega arith)),
      )
