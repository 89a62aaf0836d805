-- ===== src/Agents/Publishing/Limit.antt =====
-- A producer with a fixed rate and a message limit.
use rabbitmq_perf_test.Base.{
  ℕ, zero, suc, ◌+◌, ◌<◌, ◌≤◌, ◌≡◌, ◌⊎◌, refl, ap, ◌∙◌, inl, inr, true, false, Bool-cases,
  Option-cases, none, some, List, [], ◌∷◌, ◌++◌, arith, ◌==◌,
}
use rabbitmq_perf_test.Java.{lt_int}
use rabbitmq_perf_test.Agents.Confirms.{acquire}
use rabbitmq_perf_test.Agents.Publishing.{
  is_thrown, message_limit, Parameters, Turn, ProducerState, Outcome, went, failed, increment,
  commit_fails, handle_publish, restart, one_round, keep_going, end_reason, Ended, running,
  returned, thrown, Progress, run_producer,
}

-- n numbers from k on.
abbrev pub numbers_from : (k n : ℕ) → List ℕ
numbers_from k zero = []
numbers_from k (suc n) = k ∷ numbers_from (k + 1) n

-- What was counted, and the count before and behind it.
abbrev Advances : ℕ → List ℕ → ℕ → Type 0
Advances c numbered d = ((numbered ≡ []) × (d ≡ c)) ⊎ ((numbered ≡ c ∷ []) × (d ≡ c + 1))

abbrev OutcomeAdvances : ℕ → Outcome → Type 0
OutcomeAdvances c (went numbered s) = Advances c numbered s.msg_count
OutcomeAdvances c (failed numbered s reason) = Advances c numbered s.msg_count

module _ (p : Parameters) (fixed_rate : p.variable_rate ≡ false) (limited : 0 < p.msg_limit)
    (fits : p.msg_limit < 2_147_483_648) where
  handle_publish-Advances :
      (t : Turn) (s : ProducerState)
      → s.msg_count < p.msg_limit
      → OutcomeAdvances s.msg_count (handle_publish p t s)
  unfolding handle_publish
  handle_publish-Advances t s lt = elim (Bool-cases t.is_recovering) [
    | inl busy ↦ rw busy (inl (refl, refl))
    | inr free ↦ elim (Option-cases (acquire s.confirms)) [
      | inl late ↦ rw (free, late) (inl (refl, refl))
      | inr (c, got) ↦ elim (Bool-cases (is_thrown p.recovery_enabled t.publish)) [
        | inl bad ↦ rw (free, got, bad) (inl (refl, refl))
        | inr fine ↦ elim (Bool-cases (commit_fails p t (increment s.msg_count))) [
          | inl bad ↦ rw (free, got, fine, bad) (inr (refl, omega (arith, lt, fits)))
          | inr good ↦ rw (free, got, fine, good) (inr (refl, omega (arith, lt, fits)))
        ]
      ]
    ]
  ]

  restart_fixed : (t : Turn) (s : ProducerState) → restart p t s ≡ s
  unfolding restart
  restart_fixed t s = rw fixed_rate

  pub one_round-handle_publish :
      (t : Turn) (s : ProducerState) → one_round p t s ≡ handle_publish p t s
  unfolding one_round
  one_round-handle_publish t s = by_outcome (handle_publish p t s) refl
    where
      by_outcome : (o : Outcome) → handle_publish p t s ≡ o → one_round p t s ≡ o
      by_outcome (went numbered s') e = rw (fixed_rate, e, restart_fixed t s')
      by_outcome (failed numbered s' reason) e = rw (fixed_rate, e)

  -- How the loop ends: a producer that returns with the reason of its limit has reached it, and one
  -- that returns without a reason has not.
  abbrev pub EndsAt : ℕ → Ended → Type 0
  EndsAt n running = Unit
  EndsAt n (thrown reason) = Unit
  EndsAt n (returned none) = n < p.msg_limit
  EndsAt n (returned (some message_limit)) = n ≡ p.msg_limit
  EndsAt n (returned (some _)) = ⊥

  abbrev IsLimited : ℕ → Progress → Type 0
  IsLimited c g =
      (n : ℕ) × (g.numbered ≡ numbers_from c n)
      × (g.state.msg_count ≡ c + n)
      × (g.state.msg_count ≤ p.msg_limit)
      × EndsAt g.state.msg_count g.ended

  EndsAt-end_reason :
      (s : ProducerState)
      → s.msg_count ≤ p.msg_limit
      → EndsAt s.msg_count (returned (end_reason p s))
  unfolding end_reason
  EndsAt-end_reason s le = elim (Bool-cases (lt_int s.msg_count p.msg_limit)) [
    | inl below ↦ rw below (ground arith)
    | inr above ↦
        let some_limit : (p.msg_limit == 0) ≡ false = ground arith in
        rw (above, some_limit) (ground arith)
  ]

  keep_going-lt :
      (t : Turn) (s : ProducerState)
      → s.msg_count ≤ p.msg_limit
      → keep_going p t s ≡ true
      → s.msg_count < p.msg_limit
  unfolding keep_going
  keep_going-lt t s le h = ground arith

  IsLimited-more :
      (c : ℕ) (numbered : List ℕ) (s : ProducerState) (g : Progress)
      → Advances c numbered s.msg_count
      → IsLimited s.msg_count g
      → IsLimited c (record g { numbered = numbered ++ g.numbered })
  IsLimited-more c numbered s g (inl (e, f)) (n, numbers, count, le, ends) =
      (n, rw e (numbers ∙ ap (λ k. numbers_from k n) f), omega (arith, count, f), le, ends)
  IsLimited-more c numbered s g (inr (e, f)) (n, numbers, count, le, ends) = (
    suc n,
    rw e (ap (λ ns. c ∷ ns) (numbers ∙ ap (λ k. numbers_from k n) f)),
    omega (arith, count, f),
    le,
    ends,
  )

  -- The rest of the loop behind a round.
  abbrev behind : List Turn → Outcome → Progress
  behind ts (went numbered s) = record (run_producer p ts s) {
    numbered = numbered ++ (run_producer p ts s).numbered;
  }
  behind ts (failed numbered s reason) = record {
    numbered = numbered;
    state = s;
    ended = thrown reason;
  }

  pub run_producer_step :
      (t : Turn) (ts : List Turn) (s : ProducerState)
      → keep_going p t s ≡ true
      → run_producer p (t ∷ ts) s ≡ behind ts (one_round p t s)
  unfolding run_producer
  run_producer_step t ts s on = by_outcome (one_round p t s) refl
    where
      by_outcome : (o : Outcome) → one_round p t s ≡ o → run_producer p (t ∷ ts) s ≡ behind ts o
      by_outcome (went numbered s') e = rw (on, e, run_producer)
      by_outcome (failed numbered s' reason) e = rw (on, e, run_producer)

  pub run_producer_end :
      (t : Turn) (ts : List Turn) (s : ProducerState)
      → keep_going p t s ≡ false
      → run_producer p (t ∷ ts) s
        ≡ record { numbered = []; state = s; ended = returned (end_reason p s) }
  unfolding run_producer
  run_producer_end t ts s off = rw (off, run_producer)

  IsLimited-behind :
      (c : ℕ) (ts : List Turn) (o : Outcome)
      → c < p.msg_limit
      → OutcomeAdvances c o
      → ((s : ProducerState)
          → s.msg_count ≤ p.msg_limit
          → IsLimited s.msg_count (run_producer p ts s))
      → IsLimited c (behind ts o)
  IsLimited-behind c ts (went numbered s) lt adv ih =
      IsLimited-more c numbered s (run_producer p ts s) adv (ih s (ground arith))
  IsLimited-behind c ts (failed numbered s reason) lt (inl (e, f)) ih =
      (0, e, omega (arith, f), omega (arith, f, lt), tt)
  IsLimited-behind c ts (failed numbered s reason) lt (inr (e, f)) ih =
      (1, e, omega (arith, f), omega (arith, f, lt), tt)

  run_producer-IsLimited :
      (ts : List Turn) (s : ProducerState)
      → s.msg_count ≤ p.msg_limit
      → IsLimited s.msg_count (run_producer p ts s)
  run_producer-IsLimited [] s le = unfold run_producer in (0, refl, omega arith, le, tt)
  run_producer-IsLimited (t ∷ ts) s le = elim (Bool-cases (keep_going p t s)) [
    | inl on ↦
        let lt = keep_going-lt t s le on in
        rw (run_producer_step t ts s on, one_round-handle_publish t s)
          (IsLimited-behind s.msg_count ts (handle_publish p t s) lt
            (handle_publish-Advances t s lt) (run_producer-IsLimited ts))
    | inr off ↦ rw (run_producer_end t ts s off) (0, refl, omega arith, le, EndsAt-end_reason s le)
  ]

  -- A producer with a fixed rate and a message limit numbers the messages that it counts 0, 1, 2 and
  -- so on, whatever happens in its rounds, and never counts more of them than the limit, which is
  -- above 0 and below 2^31, when it starts at 0; it returns with the reason of the limit only if it
  -- counted exactly that many, and without a reason only if it counted less. It counts a message that
  -- it sends, and one that it failed to send when the failure is ignored, as a recovery is to come.
  pub run_producer-numbered :
      (ts : List Turn) (s : ProducerState)
      → s.msg_count ≡ 0
      → let g = run_producer p ts s in
        (g.numbered ≡ numbers_from 0 g.state.msg_count)
        × (g.state.msg_count ≤ p.msg_limit)
        × EndsAt g.state.msg_count g.ended
  run_producer-numbered ts s start =
      let (n, numbers, count, le, ends) = run_producer-IsLimited ts s (omega (arith, start)) in
      (
        numbers
            ∙ ap (λ k. numbers_from k n) start
            ∙ ap (numbers_from 0) (omega (arith, count, start)),
        le,
        ends,
      )
