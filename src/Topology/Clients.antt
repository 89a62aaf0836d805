-- ===== src/Topology/Clients.antt =====
-- The consumers and the producers of a run, as far as their queues and routing keys go:
-- `createConsumer` and `createProducer` of com.rabbitmq.perf.MulticastParams, and their loops and
-- order in MulticastSet.
use rabbitmq_perf_test.Base.{
  ℕ, zero, suc, ◌+◌, String, Bool, not, ◌&&◌, ◌||◌, Option, none, some, List, [], ◌∷◌, ◌++◌,
  if◌then◌else◌,
}
use rabbitmq_perf_test.Topology.{◌>>=◌, Recording, empty_recording, record_exchange}
use rabbitmq_perf_test.Topology.Handlers.{
  TopologyParameters, Broker, Run, sequence, declared_exchange, get_routing_key, next, reset_cursor,
}
use rabbitmq_perf_test.Topology.Configuration.{
  exchange_exists, configure_queues_for_client, configure_all_queues,
}

pub record Client : Type 0 where
  pub connection : ℕ
  pub queue_names : List String
  pub routing_key : String
  pub recording : Recording

abbrev pub move_on : Run → Run
move_on r = record r { handler = next r.handler }

-- `resetTopologyHandler`
abbrev pub reset_topology_handler : Run → Run
reset_topology_handler r = record r { handler = reset_cursor r.handler }

-- The handler of a run with the queues in sequence, before anything is configured.
abbrev pub new_run : List String → Run
new_run queues = record {
  handler = sequence queues 0 none;
  run_recording = record { own = empty_recording; children = [] };
  connection_cache = [];
  declared = 0;
  calls = [];
  states = [];
}

-- One after another, as long as there is no exception.
unfoldable pub create_each {ℓ} :
    {A B : Type ℓ} → (A → Run → Option (B × Run)) → List A → Run → Option (List B × Run)
create_each create [] r = some ([], r)
create_each create (x ∷ xs) r =
    create x r >>= λ (y, r). create_each create xs r >>= λ (ys, r). some (y ∷ ys, r)

abbrev pub repeated : ℕ → ℕ → List ℕ
repeated zero x = []
repeated (suc n) x = x ∷ repeated n x

-- The connections of the channels of `count` clients, of which the first has the connection `first`.
unfoldable pub channel_connections : (first count channels : ℕ) → List ℕ
channel_connections first zero channels = []
channel_connections first (suc count) channels =
    repeated channels first ++ channel_connections (suc first) count channels

module _ (params : TopologyParameters) (broker : Broker) where
  unfoldable pub create_consumer : (connection : ℕ) → Run → Option (Client × Run)
  unfolding configure_queues_for_client
  create_consumer connection r =
      configure_queues_for_client params broker connection r >>= λ (s, r).
      get_routing_key r.handler >>= λ key. some (
        record {
          connection = s.connection;
          queue_names = s.configured_queues;
          routing_key = key;
          recording = s.topology_recording;
        },
        move_on r,
      )

  abbrev pub declares_exchange : Bool
  declares_exchange =
      not params.predeclared || not (exchange_exists params broker params.exchange_name)

  abbrev pub new_producer : (connection : ℕ) (routing_key : String) → Client
  new_producer connection routing_key = record {
    connection = connection;
    queue_names = [];
    routing_key = routing_key;
    recording =
        if declares_exchange
        then record_exchange params.exchange_name params.exchange_type empty_recording
        else empty_recording;
  }

  abbrev pub declared_once : (connection : ℕ) → Run → Run
  declared_once connection r = record r {
    calls = if declares_exchange then r.calls ++ declared_exchange connection ∷ [] else r.calls;
  }

  unfoldable pub create_producer : (connection : ℕ) → Run → Option (Client × Run)
  create_producer connection r =
      if declares_exchange && not broker.exchange_declare
      then none
      else (get_routing_key r.handler >>= λ key.
          some (new_producer connection key, move_on (declared_once connection r)))

  -- What `run` does with the topology: the consumers' connections have numbers from `first` on, the
  -- producers' the numbers behind these.
  unfoldable pub create_clients :
      (connections : List ℕ) (first consumers consumer_channels producers producer_channels : ℕ)
      → Run
      → Option (List Client × List Client × Run)
  unfolding configure_all_queues create_each channel_connections create_consumer create_producer
  create_clients connections first consumers consumer_channels producers producer_channels r =
      configure_all_queues params broker connections r >>= λ (_, r).
      create_each create_consumer (channel_connections first consumers consumer_channels)
        (reset_topology_handler r)
      >>= λ (cs, r).
          create_each create_producer
            (channel_connections (first + consumers) producers producer_channels)
            (reset_topology_handler r)
          >>= λ (ps, r). some (cs, ps, r)
