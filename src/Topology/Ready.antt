-- ===== src/Topology/Ready.antt =====
-- com.rabbitmq.perf.MulticastParams: what the configuration of one queue of a sequence leaves.
use mathlib.Core.List.{append-nil, append_assoc}
use native.Mathlib.Nat.{mod-lt}
use rabbitmq_perf_test.Base.{
  ℕ, ◌+◌, ◌%◌, ◌<◌, ◌≡◌, refl, ap, sym, ◌∙◌, String, true, false, not, ◌||◌, Option, none, some,
  List, [], ◌∷◌, ◌++◌, length, get_elem?, arith, Bool-cases, inl, inr, if◌then◌else◌,
}
use rabbitmq_perf_test.Topology.{◌>>=◌}
use rabbitmq_perf_test.Topology.Handlers.{
  TopologyParameters, Broker, Run, Call, sequence, get_routing_key, declared_queue, bound, next,
  add_queue_name,
}
use rabbitmq_perf_test.Topology.Configuration.{
  configure_queue, is_bound, declare_queue, bind_queue, recorded_queue, declared_run, bound_run,
}
use rabbitmq_perf_test.Topology.Spread.{get_elem?-some, current_queue}
use rabbitmq_perf_test.Topology.Recorded.{
  HasQueue, HasQueue-update_at, update_at-HasQueue, length-update_at, HasRecorded-record_queue,
  find-put_if_absent,
}

pub get_elem?-append :
    (xs : List String) (y : String) (ys : List String)
    → get_elem? (xs ++ y ∷ ys) (length xs) ≡ some y
get_elem?-append [] y ys = refl
get_elem?-append (x ∷ xs) y ys = get_elem?-append xs y ys

module _ (params : TopologyParameters) (broker : Broker) (connections : List ℕ) where
  abbrev pub connection_of : ℕ → ℕ
  connection_of i = elim (get_elem? connections (i % length connections)) [ some c ↦ c | none ↦ 0 ]

  -- The calls for one queue, and for the queues from number `i` on.
  abbrev pub calls_for : (i : ℕ) → String → List Call
  calls_for i q =
      declared_queue (connection_of i) q q
      ∷ (if is_bound params broker then bound (connection_of i) q q ∷ [] else [])

  abbrev pub calls_from : (i : ℕ) → List String → List Call
  calls_from i [] = []
  calls_from i (q ∷ qs) = calls_for i q ++ calls_from (i + 1) qs

  -- The broker takes the name that it is given, and the binding.
  abbrev pub IsTaken : String → Type 0
  IsTaken q = ((n : ℕ) → broker.queue_declare n q ≡ some q) × (broker.queue_bind q q ≡ true)

  -- What a part of the loop keeps, with the calls it makes.
  pub record IsStep (calls : List Call) (r t : Run) : Type 0 where
    pub turn : t.handler ≡ r.handler
    pub called : t.calls ≡ r.calls ++ calls
    pub kept : t.run_recording ≡ r.run_recording
    pub width : length t.states ≡ length r.states
    pub old : (p : String) → HasQueue p r.states → HasQueue p t.states

  IsStep-trans :
      (xs ys : List Call) (r s t : Run) → IsStep xs r s → IsStep ys s t → IsStep (xs ++ ys) r t
  IsStep-trans xs ys r s t f g = record {
    turn = g.turn ∙ f.turn;
    called = g.called ∙ (ap (λ c. c ++ ys) f.called ∙ append_assoc r.calls xs ys);
    kept = g.kept ∙ f.kept;
    width = g.width ∙ f.width;
    old = λ p h. g.old p (f.old p h);
  }

  declared_run-IsStep :
      (i c : ℕ) (q : String) (r : Run)
      → IsStep (declared_queue c q q ∷ []) r (declared_run params broker i c q q r)
  declared_run-IsStep i c q r = record {
    turn = refl;
    called = refl;
    kept = refl;
    width = length-update_at _ i r.states;
    old = λ p.
        HasQueue-update_at p _
          (λ s h.
            HasRecorded-record_queue p (recorded_queue params broker q q)
              s.topology_recording.queues h)
          i r.states;
  }

  add_queue_name-IsStep : (i : ℕ) (q : String) (r : Run) → IsStep [] r (add_queue_name i q r)
  add_queue_name-IsStep i q r = record {
    turn = refl;
    called = sym (append-nil r.calls);
    kept = refl;
    width = length-update_at _ i r.states;
    old = λ p. HasQueue-update_at p _ (λ s h. h) i r.states;
  }

  bound_run-IsStep :
      (i c : ℕ) (q key : String) (r : Run)
      → IsStep (bound c q key ∷ []) r (bound_run params broker i c q key r)
  bound_run-IsStep i c q key r = record {
    turn = refl;
    called = refl;
    kept = refl;
    width = length-update_at _ i r.states;
    old = λ p. HasQueue-update_at p _ (λ s h. h) i r.states;
  }

  bind_queue-IsStep :
      (i c : ℕ) (q : String) (r : Run)
      → get_routing_key r.handler ≡ some q
      → broker.queue_bind q q ≡ true
      → (t : Run) × (bind_queue params broker i c q r ≡ some t)
        × IsStep (if is_bound params broker then bound c q q ∷ [] else []) r t
  bind_queue-IsStep i c q r key taken = elim (Bool-cases (is_bound params broker)) [
    | inl binds ↦ (
      bound_run params broker i c q q r,
      rw (binds, key, taken) refl,
      rw binds (bound_run-IsStep i c q q r),
    )
    | inr skips ↦ (
      r,
      rw skips refl,
      rw skips record {
        turn = refl;
        called = sym (append-nil r.calls);
        kept = refl;
        width = refl;
        old = λ p h. h;
      },
    )
  ]

  module _ (queues : List String) (pos : 0 < length queues) (declares : params.predeclared ≡ false)
      (some_one : 0 < length connections) where
    configure_queue_of :
        (i c : ℕ) (q : String) (r t : Run)
        → get_elem? connections (i % length connections) ≡ some c
        → broker.queue_declare r.declared q ≡ some q
        → bind_queue params broker (i % length connections) c q (
            add_queue_name
              (i % length connections)
              q
              (declared_run params broker (i % length connections) c q q r))
          ≡ some t
        → configure_queue params broker connections next i q r
          ≡ some (record t { handler = next t.handler })
    unfolding configure_queue
    configure_queue_of i c q r t found named binds =
        let k = i % length connections in
        let test : (not params.predeclared || not (broker.queue_exists q)) ≡ true = ground arith in
        let declared : declare_queue params broker k c q r
            ≡ some (q, declared_run params broker k c q q r) =
          ap
            (λ b.
              if b
              then (broker.queue_declare r.declared q >>= λ name.
                  some (name, declared_run params broker k c q name r))
              else some (q, r))
            test
          ∙ ap (λ o. o >>= λ name. some (name, declared_run params broker k c q name r)) named in
        let moved = λ (t : Run). record t { handler = next t.handler } in
        let bind_on = λ (c : ℕ) (x : String × Run).
          bind_queue params broker k c x.0 (add_queue_name k x.0 x.1) >>= λ t. some (moved t) in
        ap (λ (o : Option ℕ). o >>= λ c. declare_queue params broker k c q r >>= bind_on c) found
        ∙ (ap (λ (o : Option (String × Run)). o >>= bind_on c) declared
            ∙ ap (λ (o : Option Run). o >>= λ t. some (moved t)) binds)

    pub configure_queue-IsStep :
        (i : ℕ) (q : String) (r : Run)
        → IsTaken q
        → get_elem? queues (i % length queues) ≡ some q
        → i + 1 < 2_147_483_648
        → r.handler ≡ sequence queues i none
        → length r.states ≡ length connections
        → (t : Run) × (configure_queue params broker connections next i q r
            ≡ some (record t { handler = next t.handler }))
          × IsStep (calls_for i q) r t
          × HasQueue q t.states
    configure_queue-IsStep i q r (named, taken) current fits turn width =
        let k = i % length connections in
        let below : k < length connections = mod-lt i {m = length connections} some_one in
        let (c, found) = get_elem?-some connections k below in
        let (p, found_too, key) = current_queue queues pos i (omega arith) in
        let same : p ≡ q = cc in
        let routed : get_routing_key r.handler ≡ some q = rw (turn, key, same) refl in
        let s = declared_run params broker k c q q r in
        let u = add_queue_name k q s in
        let (t, binds, third) = bind_queue-IsStep k c q u routed taken in
        let first = declared_run-IsStep k c q r in
        let second = add_queue_name-IsStep k q s in
        let here : HasQueue q s.states =
          update_at-HasQueue q _
            (λ x.
              find-put_if_absent q (recorded_queue params broker q q) x.topology_recording.queues)
            k r.states (omega (arith, width)) in
        let from : connection_of i ≡ c = rw (connection_of, found) refl in
        let behind = if is_bound params broker then bound c q q ∷ [] else [] in
        (
          t,
          configure_queue_of i c q r t found (named r.declared) binds,
          rw from (
              IsStep-trans (declared_queue c q q ∷ []) behind r u t
                (IsStep-trans (declared_queue c q q ∷ []) [] r s u first second) third),
          third.old q (second.old q here),
        )
