-- ===== src/Topology/Served.antt =====
-- com.rabbitmq.perf.MulticastParams and MulticastSet: the queues, the bindings, the consumers and the
-- producers of a run whose queues are a sequence.
use mathlib.Core.Path.{subst}
use native.Mathlib.Nat.{zero-mod}
use rabbitmq_perf_test.Base.{
  ℕ, ◌+◌, ◌<◌, ◌≡◌, refl, ap, sym, ◌∙◌, String, Bool, true, false, not, ◌&&◌, ◌||◌, Option, none,
  some, List, [], ◌∷◌, ◌++◌, length, map, length-map, get_elem?, arith, ◌==◌, All, All-imp,
  if◌then◌else◌,
}
use rabbitmq_perf_test.Base.Assoc.{find}
use rabbitmq_perf_test.Topology.{
  ◌>>=◌, RunRecording, empty_recording, lookup_queue, record_exchange,
}
use rabbitmq_perf_test.Topology.Handlers.{
  TopologyParameters, Broker, Run, Configured, next, reset_cursor, new_state, unconfigured,
  declared_exchange, update_recording,
}
use rabbitmq_perf_test.Topology.Configuration.{
  declare_exchange, configure_each, configure_queues, configure_all_queues, exchange_exists,
}
use rabbitmq_perf_test.Topology.Clients.{
  Client, new_run, reset_topology_handler, channel_connections, create_clients,
}
use rabbitmq_perf_test.Topology.Spread.{get_elem?-some, AreInTurn, create_producers}
use rabbitmq_perf_test.Topology.Consumers.{IsReady, IsFound, IsServed, create_consumers}
use rabbitmq_perf_test.Topology.Recorded.{HasQueue, HasQueue-lookup_queue, length-update_at}
use rabbitmq_perf_test.Topology.Ready.{IsTaken, calls_from, connection_of}
use rabbitmq_perf_test.Topology.Queues.{configure_each-HasQueue}

module _ (params : TopologyParameters) (broker : Broker) (connections : List ℕ)
    (queues : List String) (pos : 0 < length queues) (declares : params.predeclared ≡ false)
    (some_one : 0 < length connections) (fits : length queues < 2_147_483_648)
    (shared : params.exclusive ≡ false) (made : broker.exchange_declare ≡ true)
    (taken : All (IsTaken params broker connections) queues) where
  -- What the run is when the exchange is declared.
  abbrev with_exchange : (first : ℕ) → Run
  with_exchange first =
      update_recording 0 (record_exchange params.exchange_name params.exchange_type)
        (record (new_run queues) {
          calls = declared_exchange first ∷ [];
          states = map new_state connections;
        })

  declare_exchange_lem :
      (first : ℕ)
      → declare_exchange params broker first
          (record (new_run queues) { states = map (new_state) connections })
        ≡ some (with_exchange first)
  declare_exchange_lem first =
      let test : (not params.predeclared
            || not (exchange_exists params broker params.exchange_name))
          ≡ true =
        ground arith in
      ap
        (λ b.
          if b
          then (if broker.exchange_declare then some (with_exchange first) else none)
          else some (record (new_run queues) { states = map new_state connections }))
        test
      ∙ ap (λ b. if b then some (with_exchange first) else none) made

  abbrev recorded_by : List Configured → RunRecording
  recorded_by ss = record { own = empty_recording; children = map (λ s. s.topology_recording) ss }

  HasQueue-recorded_by :
      (ss : List Configured) (p : String) → HasQueue p ss → IsFound p (recorded_by ss)
  unfolding lookup_queue find
  HasQueue-recorded_by ss p h = HasQueue-lookup_queue p ss h

  abbrev configured : Run → Run
  configured t = record t {
    run_recording = record t.run_recording {
      children = t.run_recording.children ++ map (λ s. s.topology_recording) t.states;
    };
  }

  configure_all_queues_of :
      (first : ℕ) (t : Run)
      → get_elem? connections 0 ≡ some first
      → configure_each params broker connections next 0 queues (with_exchange first) ≡ some t
      → configure_all_queues params broker connections (new_run queues)
        ≡ some (t.states, configured t)
  unfolding configure_all_queues configure_queues
  configure_all_queues_of first t found done =
      let some_queue : (not params.predeclared && length queues == 0) ≡ false = ground arith in
      let start = record (new_run queues) { states = map new_state connections } in
      let finish = λ (t : Run). some (t.states, configured t) in
      let each = λ (qs : List String) (r : Run).
        configure_each params broker connections next 0 qs r >>= finish in
      let asked = λ (b : Bool). if b then "" ∷ [] else queues in
      ap
        (λ b.
          if b
          then unconfigured connections (new_run queues)
          else configure_queues params broker connections queues next (new_run queues))
        shared
      ∙ (ap
            (λ (o : Option ℕ). o >>= λ first.
              declare_exchange params broker first start
              >>= each (asked (not params.predeclared && length queues == 0)))
            found
          ∙ (ap
                (λ (o : Option Run).
                  o >>= each (asked (not params.predeclared && length queues == 0)))
                (declare_exchange_lem first)
              ∙ (ap (λ b. each (asked b) (with_exchange first)) some_queue
                  ∙ ap (λ (o : Option Run). o >>= finish) done)))

  configure_all_queues-IsReady :
      (states : List Configured) × (t : Run) × (configure_all_queues params broker connections
          (new_run queues)
        ≡ some (states, t))
      × (t.calls
          ≡ declared_exchange (connection_of params broker connections 0)
            ∷ calls_from params broker connections 0 queues)
      × IsReady queues 0 (reset_topology_handler t)
  unfolding configure_all_queues configure_queues
  configure_all_queues-IsReady =
      let (first, found) = get_elem?-some connections 0 some_one in
      let width : length (with_exchange first).states ≡ length connections =
        length-update_at _ 0 (map new_state connections) ∙ length-map new_state connections in
      let (t, done, turn, called, kept, _, all) =
        configure_each-HasQueue params broker connections queues pos declares some_one fits []
          queues (with_exchange first) 0 refl refl refl taken width in
      let from : connection_of params broker connections 0 ≡ first =
        rw (connection_of, zero-mod (length connections), found) refl in
      (
        t.states,
        configured t,
        configure_all_queues_of first t found done,
        called
            ∙ ap (λ c. declared_exchange c ∷ calls_from params broker connections 0 queues)
                (sym from),
        record {
          turn = ap reset_cursor turn;
          unbound = ap (λ x. x.own.bindings) kept;
          recorded =
              subst (λ x. All (λ p. IsFound p x) queues)
                (sym (
                  ap
                    (λ (x : RunRecording). record x {
                      children = x.children ++ map (λ s. s.topology_recording) t.states;
                    })
                    kept))
                (All-imp (λ p. HasQueue-recorded_by t.states p) queues all);
        },
      )

  -- The configuration of a sequence of queues declares the exchange by the first connection, and then
  -- each queue in order, under its own name: the one with index `i` by the connection whose index is
  -- the remainder of `i` by the number of connections; with an exchange other than the default one,
  -- and unless bindings are skipped, it binds each queue behind its declaration, by the same
  -- connection, with its own name as routing key. There is a queue and a connection, and fewer than
  -- 2^31 queues; the queues are not exclusive nor declared before; no routing key is given; and the
  -- broker takes the names and the bindings.
  pub configure_all_queues-calls :
      (states : List Configured) × (t : Run) × (configure_all_queues params broker connections
          (new_run queues)
        ≡ some (states, t))
      × (t.calls
          ≡ declared_exchange (connection_of params broker connections 0)
            ∷ calls_from params broker connections 0 queues)
  configure_all_queues-calls =
      let (states, t, done, called, _) = configure_all_queues-IsReady in (states, t, done, called)

  -- Behind the configuration of a sequence of queues, the consumers and the producers are created
  -- without an exception. The channel with the number `k`, counted from 0 over the connections of the
  -- consumers, consumes one queue, the one whose index is the remainder of `k` by the number of
  -- queues; so does the routing key of the producers' channels go round, from the first queue on. A
  -- consumer records its queue only, no exchange and no binding. There is a queue and a connection of
  -- the configuration, and fewer than 2^31 queues, channels of consumers and channels of producers;
  -- the queues are not exclusive nor declared before; no routing key is given; and the broker takes
  -- the names and the bindings.
  pub create_clients-AreInTurn :
      (first consumers consumer_channels producers producer_channels : ℕ)
      → length (channel_connections first consumers consumer_channels) < 2_147_483_648
      → length (channel_connections (first + consumers) producers producer_channels) < 2_147_483_648
      → (cs ps : List Client) × (t : Run) × (create_clients params broker connections first
            consumers consumer_channels producers producer_channels
            (new_run queues)
          ≡ some (cs, ps, t))
        × AreInTurn queues 0 (channel_connections first consumers consumer_channels) cs
        × All IsServed cs
        × AreInTurn queues 0
            (channel_connections (first + consumers) producers producer_channels)
            ps
  unfolding create_clients
  create_clients-AreInTurn first consumers consumer_channels producers producer_channels few_c
        few_p =
      let (_, t, configured, _, ready) = configure_all_queues-IsReady in
      let (cs, u, consuming, turns, served, last) =
        create_consumers queues pos params broker
          (channel_connections first consumers consumer_channels) (reset_topology_handler t) 0
          shared declares ready (omega arith) in
      let (ps, v, producing, others) =
        create_producers queues pos params broker
          (channel_connections (first + consumers) producers producer_channels)
          (reset_topology_handler u) 0 made (ap reset_cursor last) (omega arith) in
      (cs, ps, v, rw (configured, consuming, producing) refl, turns, served, others)
