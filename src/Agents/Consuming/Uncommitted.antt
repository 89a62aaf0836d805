-- ===== src/Agents/Consuming/Uncommitted.antt =====
-- com.rabbitmq.perf.Consumer: the transaction that it leaves open when it exits.
use native.Mathlib.Nat.{mod-one, zero-mod}
use rabbitmq_perf_test.Base.{
  ℕ, suc, ◌+◌, ◌-◌, ◌%◌, ◌<◌, ◌≡◌, ◌⊎◌, refl, ap, ◌∙◌, Bool, true, false, List, [], ◌∷◌, ◌++◌,
  length, arith, ltb, ◌==◌, Bool-cases, inl, inr, if◌then◌else◌,
}
use mathlib.Core.List.{append-nil}
use rabbitmq_perf_test.Java.{half, lt_long}
use rabbitmq_perf_test.Agents.Publishing.{Write}
use rabbitmq_perf_test.Agents.Publishing.Limit.{numbers_from}
use rabbitmq_perf_test.Agents.Consuming.{
  ConsumerParameters, Delivery, ConsumerState, Operation, tx_commit, handle_deliveries,
  ack_nack_operation, maybe_handle_message, maybe_ack_commit_before_exit, new_consumer,
}
use rabbitmq_perf_test.Agents.Consuming.Good.{
  AreGood, acks, commits, HasRoom, handle_message-IsHandled,
}
use rabbitmq_perf_test.Agents.Consuming.Settled.{
  settle_all, is_commit, has_commit, committed, waiting_behind, settle-ack, without_one, mod_step,
}
use rabbitmq_perf_test.Agents.Consuming.Exit.{HasSeen, handle_deliveries-HasSeen}

committed_none : (os : List Operation) → has_commit os ≡ false → committed os ≡ []
committed_none [] h = refl
committed_none (o ∷ os) h = rw h refl

module _ (p : ConsumerParameters) where
  is_commit-ack :
      (tag : ℕ) (multiple : Bool) → is_commit (ack_nack_operation p tag multiple) ≡ false
  is_commit-ack tag multiple = elim (Bool-cases p.nack) [ inl e ↦ rw e refl | inr e ↦ rw e refl ]

  abbrev single_ack : ℕ → Operation
  single_ack tag = ack_nack_operation p tag false

  -- Of `k` messages behind the first `j`: what is committed of the operations, or that none is.
  abbrev IsCommitted : List Operation → (j k more : ℕ) → Type 0
  IsCommitted os j k more =
      (has_commit os ≡ true)
        × (settle_all (committed os) (numbers_from (j + 1) (k + more))
            ≡ numbers_from (j + k - (j + k) % p.tx_size + 1) ((j + k) % p.tx_size + more))
      ⊎ (has_commit os ≡ false) × ((j + k) % p.tx_size ≡ j % p.tx_size + k)

  settle_one :
      (us : List Operation) (j k : ℕ)
      → has_commit us ≡ true
      → settle_all (committed (single_ack (j + 1) ∷ us)) (numbers_from (j + 1) (suc k))
        ≡ settle_all (committed us) (numbers_from (j + 1 + 1) k)
  unfolding settle_all
  settle_one us j k some_commit =
      let opened : committed (single_ack (j + 1) ∷ us) ≡ single_ack (j + 1) ∷ committed us =
        rw (is_commit-ack (j + 1) false, some_commit) refl in
      let waiting = numbers_from (j + 1) (suc k) in
      ap (λ os. settle_all os waiting) opened
      ∙ ap (settle_all (committed us)) (settle-ack p (j + 1) false waiting ∙ without_one (j + 1) k)

  IsCommitted-ack :
      (us : List Operation) (j k more : ℕ)
      → (j + 1) % p.tx_size ≡ j % p.tx_size + 1
      → IsCommitted us (j + 1) k more
      → IsCommitted (single_ack (j + 1) ∷ us) j (suc k) more
  IsCommitted-ack us j k more step h =
      let count : suc k + more ≡ suc (k + more) = omega arith in
      let total : j + suc k ≡ j + 1 + k = omega arith in
      elim h [
        | inl (some_commit, e) ↦ inl (
          rw (is_commit-ack (j + 1) false) some_commit,
          rw (count, total) (settle_one us j (k + more) some_commit ∙ e),
        )
        | inr (no_commit, e) ↦
            inr (rw (is_commit-ack (j + 1) false) no_commit, rw total (omega (arith, e, step)))
      ]

  settle_commit :
      (us : List Operation) (waiting : List ℕ)
      → settle_all (committed (tx_commit ∷ us)) waiting ≡ settle_all (committed us) waiting
  unfolding settle_all
  settle_commit us waiting = refl

  IsCommitted-commit :
      (us : List Operation) (j k more : ℕ)
      → (j + 1) % p.tx_size ≡ 0
      → IsCommitted us (j + 1) k more
      → IsCommitted (single_ack (j + 1) ∷ tx_commit ∷ us) j (suc k) more
  unfolding settle_all
  IsCommitted-commit us j k more whole h =
      let count : suc k + more ≡ suc (k + more) = omega arith in
      let total : j + suc k ≡ j + 1 + k = omega arith in
      let first : settle_all (committed (single_ack (j + 1) ∷ tx_commit ∷ us))
            (numbers_from (j + 1) (suc (k + more)))
          ≡ settle_all (committed us) (numbers_from (j + 1 + 1) (k + more)) =
        settle_one (tx_commit ∷ us) j (k + more) refl in
      inl (
        rw (is_commit-ack (j + 1) false) refl,
        rw (count, total)
            (first ∙ elim h [
              | inl (_, e) ↦ e
              | inr (no_commit, e) ↦
                  let left : (j + 1 + k) % p.tx_size ≡ k = omega (arith, e, whole) in
                  let start : j + 1 + k - k + 1 ≡ j + 1 + 1 = omega arith in
                  rw (committed_none us no_commit, left, start) refl
            ]),
      )

  module _ (acking : p.auto_ack ≡ false) (each : p.multi_ack_every ≡ 0) (pos : 0 < p.tx_size) where
    -- The operations of one message, with those of the ones behind it.
    IsCommitted-message :
        (us : List Operation) (j k more : ℕ)
        → j + 1 < 9_223_372_036_854_775_808
        → IsCommitted us (j + 1) k more
        → IsCommitted ((acks p (j + 1) (j + 1) ++ commits p (j + 1)) ++ us) j (suc k) more
    IsCommitted-message us j k more fits h =
        let small : ltb (j + 1) half ≡ true = ground arith in
        let some_size : p.tx_size == 0 ≡ false = ground arith in
        elim (mod_step j p.tx_size pos) [
          | inl (whole, full) ↦
              let due : (j + 1) % p.tx_size == 0 ≡ true = ground (arith, whole) in
              rw (each, small, some_size, due) (IsCommitted-commit us j k more whole h)
          | inr (step, below) ↦
              let not_due : (j + 1) % p.tx_size == 0 ≡ false = ground (arith, step) in
              rw (each, small, some_size, not_due) (IsCommitted-ack us j k more step h)
        ]

    handle_deliveries-IsCommitted :
        (ds : List Delivery) (s : ConsumerState) (j more : ℕ)
        → s.epoch_message_count ≡ j
        → AreGood (j + 1) ds
        → HasRoom p acking s (length ds)
        → IsCommitted (handle_deliveries p ds s).operations j (length ds) more
    unfolding handle_deliveries
    handle_deliveries-IsCommitted [] s j more start good room =
        let none : j + 0 ≡ j = omega arith in inr (refl, rw none (omega arith))
    handle_deliveries-IsCommitted (d ∷ ds) s j more start (g, good) room =
        let t = maybe_handle_message p d s in
        let h = handle_message-IsHandled p acking (j + 1) d s g (ground arith) in
        let made : t.operations ≡ acks p (j + 1) (j + 1) ++ commits p (j + 1) =
          h.made ∙ ap (λ e. acks p (j + 1) (e + 1) ++ commits p (e + 1)) start in
        rw (h.going_on, made)
          (IsCommitted-message (handle_deliveries p ds t.state).operations j (length ds) more
            (omega arith)
            (handle_deliveries-IsCommitted ds t.state (j + 1) more (omega (arith, h.epoch)) good
              (ground arith)))

    -- The exit makes no commit, as no ack is missing.
    exit-none :
        (s : ConsumerState) (count : ℕ) (ack commit : Write)
        → HasSeen p acking count s
        → count < 9_223_372_036_854_775_808
        → maybe_ack_commit_before_exit p ack commit s ≡ []
    unfolding maybe_ack_commit_before_exit
    exit-none s count ack commit (e, l, a) fits =
        let whole : count % (if p.multi_ack_every == 0 then 1 else p.multi_ack_every) ≡ 0 =
          rw each (mod-one count) in
        let up_to_date : lt_long s.last_acked_delivery_tag s.last_delivery_tag ≡ false =
          rw (a, l, whole) (ground arith) in
        rw (acking, up_to_date) refl

    -- When a new consumer acks each message, in transactions, then behind its exit the broker still
    -- waits for the messages behind the last commit, as many as remain when the number of messages
    -- that it has handled is divided by the size of the transactions: it has acked them, and makes no
    -- commit before the exit, whatever would become of it. Nothing goes wrong with a message, and
    -- their number is below 2 ^ 63 and not above the limit.
    pub handle_deliveries-uncommitted :
        (ds : List Delivery) (timestamp more : ℕ) (ack commit : Write)
        → AreGood 1 ds
        → HasRoom p acking (new_consumer timestamp) (length ds)
        → waiting_behind p
            ((handle_deliveries p ds (new_consumer timestamp)).operations
              ++ maybe_ack_commit_before_exit p ack commit
                  (handle_deliveries p ds (new_consumer timestamp)).state)
            (numbers_from 1 (length ds + more))
          ≡ numbers_from (length ds - length ds % p.tx_size + 1) (length ds % p.tx_size + more)
    unfolding waiting_behind settle_all
    handle_deliveries-uncommitted ds timestamp more ack commit good room =
        let h = handle_deliveries p ds (new_consumer timestamp) in
        let n = length ds in
        let none : 0 + n ≡ n = omega arith in
        let some_size : p.tx_size == 0 ≡ false = ground arith in
        let seen : HasSeen p acking 0 (new_consumer timestamp) =
          (refl, refl, rw (each, zero-mod 1) refl) in
        let at_end =
          handle_deliveries-HasSeen p acking ds (new_consumer timestamp) 0 seen good room in
        let silent = exit-none h.state n ack commit (rw none at at_end) (omega arith) in
        rw (silent, append-nil h.operations, some_size)
          (elim (handle_deliveries-IsCommitted ds (new_consumer timestamp) 0 more refl good room) [
            | inl (_, e) ↦ rw none at e
            | inr (no_commit, e) ↦
                let left : n % p.tx_size ≡ n = (rw (none, zero-mod p.tx_size) at e) ∙ none in
                let start : n - n + 1 ≡ 1 = omega arith in
                rw (committed_none h.operations no_commit, left, start) refl
          ])
