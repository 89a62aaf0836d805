-- ===== src/Topology/Configuration.antt =====
-- com.rabbitmq.perf.MulticastParams: how the topology handlers configure the queues.
use text.Mathlib.Text.{◌==◌ as str_eq, starts_with}
use rabbitmq_perf_test.Base.{
  ℕ, suc, ◌+◌, ◌%◌, String, Bool, not, ◌&&◌, ◌||◌, Option, none, some, List, [], ◌∷◌, ◌++◌, map,
  length, get_elem?, ◌==◌, if◌then◌else◌,
}
use rabbitmq_perf_test.Topology.{
  ◌>>=◌, RecordedQueue, record_exchange, record_queue, record_binding, sub_recording,
}
use rabbitmq_perf_test.Topology.Handlers.{
  Broker, Configured, Run, TopologyHandler, TopologyParameters, add_queue_name, get_routing_key,
  maybe_use_cached_connection, new_state, next, queue_names_for_client, unconfigured,
  update_recording, fixed_queues, sequence, declared_exchange, declared_queue, bound,
}

module _ (params : TopologyParameters) (broker : Broker) where
  -- `exchangeExists`
  abbrev pub exchange_exists : String → Bool
  exchange_exists name = str_eq name "" || starts_with name "amq." || broker.exchange_exists name

  abbrev pub declare_exchange : (connection : ℕ) → Run → Option Run
  declare_exchange connection r =
      if not params.predeclared || not (exchange_exists params.exchange_name)
      then (if broker.exchange_declare
          then some (
              update_recording 0 (record_exchange params.exchange_name params.exchange_type)
                (record r { calls = r.calls ++ declared_exchange connection ∷ [] }))
          else none)
      else some r

  abbrev pub recorded_queue : (asked name : String) → RecordedQueue
  recorded_queue asked name = record {
    name = name;
    durable = not params.exclusive;
    exclusive = params.exclusive;
    auto_delete = params.auto_delete;
    server_named = str_eq asked "";
  }

  abbrev pub declared_run : (state connection : ℕ) (asked name : String) → Run → Run
  declared_run i connection asked name r =
      update_recording i (record_queue (recorded_queue asked name)) (record r {
        declared = suc r.declared;
        calls = r.calls ++ declared_queue connection asked name ∷ [];
      })

  -- The name of the queue.
  abbrev pub declare_queue : (state connection : ℕ) → String → Run → Option (String × Run)
  declare_queue i connection asked r =
      if not params.predeclared || not (broker.queue_exists asked)
      then (broker.queue_declare r.declared asked >>= λ name.
          some (name, declared_run i connection asked name r))
      else some (asked, r)

  abbrev pub is_bound : Bool
  is_bound =
      not (str_eq params.exchange_name "")
      && not (str_eq params.exchange_name "amq.default")
      && not params.skip_binding_queues

  abbrev pub bound_run : (state connection : ℕ) (name routing_key : String) → Run → Run
  bound_run i connection name key r =
      update_recording i (record_binding name params.exchange_name key)
        (record r { calls = r.calls ++ bound connection name key ∷ [] })

  abbrev pub bind_queue : (state connection : ℕ) (name : String) → Run → Option Run
  bind_queue i connection name r =
      if is_bound
      then (get_routing_key r.handler >>= λ key.
          if broker.queue_bind name key then some (bound_run i connection name key r) else none)
      else some r

  -- One round of the loop over the queues.
  unfoldable pub configure_queue :
      (connections : List ℕ) (after : TopologyHandler → TopologyHandler) (i : ℕ)
      → String
      → Run
      → Option Run
  configure_queue connections after i asked r =
      get_elem? connections (i % length connections) >>= λ connection.
      declare_queue (i % length connections) connection asked r >>= λ (name, r).
      bind_queue (i % length connections) connection name
        (add_queue_name (i % length connections) name r)
      >>= λ r. some (record r { handler = after r.handler })

  unfoldable pub configure_each :
      (connections : List ℕ) (after : TopologyHandler → TopologyHandler) (i : ℕ)
      → List String
      → Run
      → Option Run
  unfolding configure_queue
  configure_each connections after i [] r = some r
  configure_each connections after i (q ∷ qs) r =
      configure_queue connections after i q r >>= λ r. configure_each connections after (i + 1) qs r

  -- `configureQueues`. Without connections there is no first state. The recordings of the states are
  -- children of the run's from the start; here they become that at the end.
  unfoldable pub configure_queues :
      (connections : List ℕ)
      → List String
      → (after : TopologyHandler → TopologyHandler) → Run
      → Option (List Configured × Run)
  unfolding configure_each
  configure_queues connections queues after r = get_elem? connections 0 >>= λ first.
      declare_exchange first (record r { states = map new_state connections }) >>= λ r.
      configure_each connections after 0
        (if not params.predeclared && length queues == 0 then "" ∷ [] else queues) r
      >>= λ r. some (
        r.states,
        record r {
          run_recording = record r.run_recording {
            children = r.run_recording.children ++ map (λ s. s.topology_recording) r.states;
          };
        },
      )

  unfoldable pub configure_all_queues :
      (connections : List ℕ) → Run → Option (List Configured × Run)
  unfolding configure_queues
  configure_all_queues connections r = elim r.handler [
    | fixed_queues key names ↦
        if (params.consumer_count == 0 && not (length names == 0)) && not params.exclusive
        then configure_queues connections names (λ h. h) r
        else unconfigured connections r
    | sequence queues index key ↦
        if params.exclusive
        then unconfigured connections r
        else configure_queues connections queues next r
  ]

  -- `configureQueues` for one connection.
  abbrev pub configure_for : (connection : ℕ) → List String → Run → Option (Configured × Run)
  configure_for connection queues r =
      configure_queues (connection ∷ []) queues (λ h. h) r >>= λ (states, r).
      get_elem? states 0 >>= λ s. some (s, r)

  abbrev pub configure_exclusive : (connection : ℕ) → List String → Run → Option (Configured × Run)
  configure_exclusive connection queues r =
      let (cached, r) = maybe_use_cached_connection queues connection r in
      configure_for cached queues r

  unfoldable pub configure_queues_for_client : (connection : ℕ) → Run → Option (Configured × Run)
  unfolding configure_queues maybe_use_cached_connection
  configure_queues_for_client connection r = elim r.handler [
    | fixed_queues key names ↦
        if params.exclusive
        then configure_exclusive connection names r
        else configure_for connection names r
    | sequence queues index key ↦ queue_names_for_client queues index >>= λ names.
        if params.exclusive
        then configure_exclusive connection names r
        else (sub_recording (if params.predeclared then [] else names) r.run_recording
            >>= λ (recording, run). some (
              record {
                connection = connection;
                configured_queues = names;
                topology_recording = recording;
              },
              record r { run_recording = run },
            ))
  ]
