-- ===== src/Agents/Consuming/Settled.antt =====
-- com.rabbitmq.perf.Consumer: which messages its acks settle.
use native.Mathlib.Nat.{mod-le, mod-one, suc-mod, mod-eq_of_lt, mod_self, mod-lt}
use rabbitmq_perf_test.Base.{
  ℕ, zero, suc, ◌+◌, ◌-◌, ◌%◌, ◌<◌, ◌≤◌, ◌≡◌, ◌⊎◌, refl, ap, ◌∙◌, Bool, true, false, not, ◌||◌,
  List, [], ◌∷◌, ◌++◌, length, arith, ltb, ◌==◌, Bool-cases, inl, inr, if◌then◌else◌,
}
use rabbitmq_perf_test.Java.{half}
use rabbitmq_perf_test.Agents.Publishing.Limit.{numbers_from}
use rabbitmq_perf_test.Agents.Consuming.{
  ConsumerParameters, Delivery, ConsumerState, Operation, basic_ack, basic_nack, tx_commit,
  handle_deliveries, ack_nack_operation, maybe_handle_message,
}
use rabbitmq_perf_test.Agents.Consuming.Good.{
  AreGood, acks, commits, HasRoom, handle_message-IsHandled,
}

-- The messages that a broker has delivered on a channel, by their tags: the ones for which it waits
-- behind an ack or a nack. With `multiple` these are about all tags up to the one they name.
abbrev pub without : (tag : ℕ) (multiple : Bool) → List ℕ → List ℕ
without tag multiple [] = []
without tag multiple (t ∷ ts) =
    if (if multiple then not (ltb tag t) else t == tag)
    then without tag multiple ts
    else t ∷ without tag multiple ts

abbrev pub settle : Operation → List ℕ → List ℕ
settle (basic_ack tag multiple) waiting = without tag multiple waiting
settle (basic_nack tag multiple requeue) waiting = without tag multiple waiting
settle tx_commit waiting = waiting

unfoldable pub settle_all : List Operation → List ℕ → List ℕ
settle_all [] waiting = waiting
settle_all (o ∷ os) waiting = settle_all os (settle o waiting)

-- A transaction takes effect when it is committed: what stands behind the last commit does not.
abbrev pub is_commit : Operation → Bool
is_commit tx_commit = true
is_commit (basic_ack tag multiple) = false
is_commit (basic_nack tag multiple requeue) = false

abbrev pub has_commit : List Operation → Bool
has_commit [] = false
has_commit (o ∷ os) = is_commit o || has_commit os

abbrev pub committed : List Operation → List Operation
committed [] = []
committed (o ∷ os) = if has_commit (o ∷ os) then o ∷ committed os else []

-- The messages that wait behind the operations of a consumer on its channel, which is transactional
-- when it has a size of transactions.
unfoldable pub waiting_behind : ConsumerParameters → List Operation → List ℕ → List ℕ
unfolding settle_all
waiting_behind p os waiting = settle_all (if p.tx_size == 0 then os else committed os) waiting

pub waiting_behind-no_transactions :
    (p : ConsumerParameters) (os : List Operation) (waiting : List ℕ)
    → p.tx_size ≡ 0
    → waiting_behind p os waiting ≡ settle_all os waiting
unfolding waiting_behind
waiting_behind-no_transactions p os waiting none = rw none refl

pub settle_all-append :
    (os us : List Operation) (waiting : List ℕ)
    → settle_all (os ++ us) waiting ≡ settle_all us (settle_all os waiting)
unfolding settle_all
settle_all-append [] us waiting = refl
settle_all-append (o ∷ os) us waiting = settle_all-append os us (settle o waiting)

-- An ack for several settles the first ones.
without_above :
    (tag k n : ℕ) (multiple : Bool)
    → tag < k
    → without tag multiple (numbers_from k n) ≡ numbers_from k n
without_above tag k zero multiple h = refl
without_above tag k (suc n) multiple h = ground (arith, without_above tag (k + 1) n multiple)

pub without_first :
    (tag k n m : ℕ)
    → k ≤ tag + 1
    → k + n ≡ tag + 1 + m
    → without tag true (numbers_from k n) ≡ numbers_from (tag + 1) m
without_first tag k zero m h e = let none_left : m ≡ 0 = omega arith in rw none_left refl
without_first tag k (suc n) m h e = elim (Bool-cases (ltb tag k)) [
  | inl above ↦
      let start : tag + 1 ≡ k = ground arith in
      let count : m ≡ suc n = omega arith in
      rw (start, count) (without_above tag k (suc n) true (ground arith))
  | inr below ↦ rw below (without_first tag (k + 1) n m (ground arith) (omega arith))
]

pub without_one : (k n : ℕ) → without k false (numbers_from k (suc n)) ≡ numbers_from (k + 1) n
without_one k n = ground (arith, without_above k (k + 1) n false)

-- The number of messages between two acks.
abbrev pub period : ConsumerParameters → ℕ
period p = if p.multi_ack_every == 0 then 1 else p.multi_ack_every

pub mod_step :
    (j m : ℕ)
    → 0 < m
    → (((j + 1) % m ≡ 0) × (j % m + 1 ≡ m)) ⊎ ((j + 1) % m ≡ j % m + 1) × (j % m + 1 < m)
mod_step j m pos =
    grind
      (arith, suc-mod j m, mod-eq_of_lt {n = suc (j % m)} {m = m}, mod_self m, mod-lt j {m = m} pos)

module _ (p : ConsumerParameters) where
  -- The messages that wait when `count` were handled, and `more` were delivered behind them.
  abbrev pub unsettled : (count more : ℕ) → List ℕ
  unsettled count more = numbers_from (count - count % period p + 1) (count % period p + more)

  settle_all-commits :
      (count : ℕ) (waiting : List ℕ) → settle_all (commits p count) waiting ≡ waiting
  unfolding settle_all
  settle_all-commits count waiting = ground arith

  pub settle-ack :
      (tag : ℕ) (multiple : Bool) (waiting : List ℕ)
      → settle (ack_nack_operation p tag multiple) waiting ≡ without tag multiple waiting
  settle-ack tag multiple waiting = elim (Bool-cases p.nack) [
    | inl e ↦ rw e refl
    | inr e ↦ rw e refl
  ]

  settle_all-single :
      (j more : ℕ)
      → p.multi_ack_every == 0 ≡ true
      → settle_all (acks p (j + 1) (j + 1)) (unsettled j (suc more)) ≡ unsettled (j + 1) more
  unfolding settle_all
  settle_all-single j more single =
      let first : j - 0 + 1 ≡ j + 1 = omega arith in
      let count : 0 + suc more ≡ suc more = omega arith in
      let second : j + 1 - 0 + 1 ≡ j + 1 + 1 = omega arith in
      let behind : 0 + more ≡ more = omega arith in
      rw
        (
          single,
          mod-one j,
          mod-one (j + 1),
          first,
          count,
          second,
          behind,
          settle-ack (j + 1) false (numbers_from (j + 1) (suc more)),
        )
        (without_one (j + 1) more)

  settle_all-several :
      (j more : ℕ)
      → p.multi_ack_every == 0 ≡ false
      → j + 1 < 9_223_372_036_854_775_808
      → settle_all (acks p (j + 1) (j + 1)) (unsettled j (suc more)) ≡ unsettled (j + 1) more
  unfolding settle_all
  settle_all-several j more several fits =
      let m = p.multi_ack_every in
      let small : ltb (j + 1) half ≡ true = ground arith in
      let second : j + 1 - 0 + 1 ≡ j + 1 + 1 = omega arith in
      let behind : 0 + more ≡ more = omega arith in
      elim (mod_step j m (ground arith)) [
        | inl (whole, full) ↦
            let yes_due : (j + 1) % m == 0 ≡ true = ground (arith, whole) in
            rw
              (
                several,
                small,
                yes_due,
                whole,
                second,
                behind,
                settle-ack (j + 1) true (numbers_from (j - j % m + 1) (j % m + suc more)),
              )
              (without_first (j + 1) (j - j % m + 1) (j % m + suc more) more (omega arith)
                (omega (arith, mod-le j m)))
        | inr (open_one, below) ↦
            let not_due : (j + 1) % m == 0 ≡ false = ground (arith, open_one) in
            let same : j + 1 - (j % m + 1) + 1 ≡ j - j % m + 1 = omega arith in
            let count : j % m + 1 + more ≡ j % m + suc more = omega arith in
            rw (several, small, not_due, open_one, same, count) refl
      ]

  settle_all-acks :
      (j more : ℕ)
      → j + 1 < 9_223_372_036_854_775_808
      → settle_all (acks p (j + 1) (j + 1)) (unsettled j (suc more)) ≡ unsettled (j + 1) more
  settle_all-acks j more fits = elim (Bool-cases (p.multi_ack_every == 0)) [
    | inl single ↦ settle_all-single j more single
    | inr several ↦ settle_all-several j more several fits
  ]

  pub handle_deliveries-unsettled :
      (acking : p.auto_ack ≡ false) (ds : List Delivery) (s : ConsumerState) (j more : ℕ)
      → s.epoch_message_count ≡ j
      → AreGood (j + 1) ds
      → HasRoom p acking s (length ds)
      → settle_all (handle_deliveries p ds s).operations (unsettled j (length ds + more))
        ≡ unsettled (j + length ds) more
  unfolding handle_deliveries
  handle_deliveries-unsettled acking [] s j more start good room =
      let none_more : 0 + more ≡ more = omega arith in
      let none_handled : j + 0 ≡ j = omega arith in
      rw (none_more, none_handled) (unfold settle_all in refl)
  handle_deliveries-unsettled acking (d ∷ ds) s j more start (g, good) room =
      let h1 = maybe_handle_message p d s in
      let h = handle_message-IsHandled p acking (j + 1) d s g (ground arith) in
      let rest =
        handle_deliveries-unsettled acking ds (maybe_handle_message p d s).state (j + 1) more
          (omega (arith, h.epoch)) good (ground arith) in
      let made : h1.operations ≡ acks p (j + 1) (j + 1) ++ commits p (j + 1) =
        h.made ∙ ap (λ e. acks p (j + 1) (e + 1) ++ commits p (e + 1)) start in
      let count : suc (length ds) + more ≡ suc (length ds + more) = omega arith in
      let total : j + suc (length ds) ≡ j + 1 + length ds = omega arith in
      rw
        (
          h.going_on,
          settle_all-append h1.operations (handle_deliveries p ds h1.state).operations
              (unsettled j (suc (length ds) + more)),
          made,
          settle_all-append (acks p (j + 1) (j + 1)) (commits p (j + 1))
              (unsettled j (suc (length ds) + more)),
          count,
          settle_all-acks j (length ds + more) (omega arith),
          settle_all-commits (j + 1) (unsettled (j + 1) (length ds + more)),
          total,
        )
        rest
