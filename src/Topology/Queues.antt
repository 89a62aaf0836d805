-- ===== src/Topology/Queues.antt =====
-- com.rabbitmq.perf.MulticastParams: what the configuration of a sequence of queues leaves.
use mathlib.Core.List.{append-nil, append_assoc}
use native.Mathlib.Nat.{mod-eq_of_lt}
use rabbitmq_perf_test.Base.{
  ℕ, suc, ◌+◌, ◌%◌, ◌<◌, ◌≡◌, refl, ap, sym, ◌∙◌, String, false, Option, none, some, List, [], ◌∷◌,
  ◌++◌, length, length-append, get_elem?, arith, All,
}
use rabbitmq_perf_test.Topology.{◌>>=◌}
use rabbitmq_perf_test.Topology.Handlers.{TopologyParameters, Broker, Run, sequence, next}
use rabbitmq_perf_test.Topology.Configuration.{configure_each}
use rabbitmq_perf_test.Topology.Spread.{next_index}
use rabbitmq_perf_test.Topology.Recorded.{HasQueue}
use rabbitmq_perf_test.Topology.Ready.{
  IsTaken, calls_for, calls_from, configure_queue-IsStep, get_elem?-append,
}

module _ (params : TopologyParameters) (broker : Broker) (connections : List ℕ)
    (queues : List String) (pos : 0 < length queues) (declares : params.predeclared ≡ false)
    (some_one : 0 < length connections) (fits : length queues < 2_147_483_648) where
  pub configure_each-HasQueue :
      (before qs : List String) (r : Run) (i : ℕ)
      → queues ≡ before ++ qs
      → length before ≡ i
      → r.handler ≡ sequence queues i none
      → All (IsTaken params broker connections) qs
      → length r.states ≡ length connections
      → (t : Run) × (configure_each params broker connections next i qs r ≡ some t)
        × (t.handler ≡ sequence queues (i + length qs) none)
        × (t.calls ≡ r.calls ++ calls_from params broker connections i qs)
        × (t.run_recording ≡ r.run_recording)
        × ((p : String) → HasQueue p r.states → HasQueue p t.states)
        × All (λ p. HasQueue p t.states) qs
  unfolding configure_each
  configure_each-HasQueue before [] r i whole at turn taken width =
      let none_more : i + 0 ≡ i = omega arith in
      (r, refl, rw none_more turn, sym (append-nil r.calls), refl, λ p h. h, tt)
  configure_each-HasQueue before (q ∷ qs) r i whole at turn (taken, rest) width =
      let total : length queues ≡ i + suc (length qs) =
        ap length whole ∙ (length-append before (q ∷ qs) ∙ ap (λ k. k + suc (length qs)) at) in
      let current : get_elem? queues (i % length queues) ≡ some q =
        rw (mod-eq_of_lt {n = i} {m = length queues} (omega (arith, total)), whole, ← at)
          (get_elem?-append before q qs) in
      let (s, done, step, here) =
        configure_queue-IsStep params broker connections queues pos declares some_one i q r taken
          current (omega (arith, total)) turn width in
      let moved : next s.handler ≡ sequence queues (i + 1) none =
        ap next (step.turn ∙ turn)
        ∙ ap (λ k. sequence queues k none) (next_index i (omega (arith, total))) in
      let split : queues ≡ (before ++ q ∷ []) ++ qs =
        whole ∙ sym (append_assoc before (q ∷ []) qs) in
      let count : length (before ++ q ∷ []) ≡ i + 1 =
        length-append before (q ∷ []) ∙ omega (arith, at) in
      let (t, more, turned, called, kept, old, new) =
        configure_each-HasQueue (before ++ q ∷ []) qs (record s { handler = next s.handler })
          (i + 1) split count moved rest (step.width ∙ width) in
      let last : i + 1 + length qs ≡ i + suc (length qs) = omega arith in
      (
        t,
        ap
              (λ (o : Option Run).
                o >>= λ u. configure_each params broker connections next (i + 1) qs u)
              done
            ∙ more,
        turned ∙ ap (λ k. sequence queues k none) last,
        called
            ∙ (ap (λ c. c ++ calls_from params broker connections (i + 1) qs) step.called
                ∙ append_assoc r.calls (calls_for params broker connections i q)
                    (calls_from params broker connections (i + 1) qs)),
        kept ∙ step.kept,
        λ p h. old p (step.old p h),
        (old q here, new),
      )
