-- ===== src/Tests/Queues.antt =====
-- Small runs with a sequence of queues.
use mathlib.Core.Logic.{◌≢◌}
use text.Mathlib.TextEquality.{eq_iff}
use rabbitmq_perf_test.Base.{
  ℕ, ◌+◌, ◌≡◌, refl, String, true, false, Option, none, some, List, [], ◌∷◌, arith, All, map,
}
use rabbitmq_perf_test.Base.Assoc.{find}
use rabbitmq_perf_test.Topology.{
  RecordedQueue, RecordedBinding, Recording, lookup_queue, bindings_for, add_bindings, add_queues,
  sub_recording,
}
use rabbitmq_perf_test.Topology.Handlers.{
  TopologyParameters, Broker, Run, Call, Configured, declared_exchange, declared_queue, bound,
  closed, maybe_use_cached_connection,
}
use rabbitmq_perf_test.Topology.Configuration.{
  configure_queue, configure_each, configure_queues, configure_all_queues,
  configure_queues_for_client,
}
use rabbitmq_perf_test.Topology.Clients.{
  Client, new_run, create_each, channel_connections, create_consumer, create_producer,
  create_clients,
}
use rabbitmq_perf_test.Topology.Spread.{AreInTurn}
use rabbitmq_perf_test.Topology.Consumers.{IsServed}
use rabbitmq_perf_test.Topology.Ready.{IsTaken, calls_from, connection_of}
use rabbitmq_perf_test.Topology.Recovery.{
  Answers, declare_again, bind_again, recover_queues, recover_recording, recover_queue_and_bindings,
  bindings_made, AreBoundAgain, recover_recording-lost,
}
use rabbitmq_perf_test.Topology.Served.{configure_all_queues-calls, create_clients-AreInTurn}

topology : Unit {0}
unfolding find lookup_queue bindings_for add_bindings add_queues sub_recording configure_queue
    configure_each configure_queues maybe_use_cached_connection configure_all_queues
    configure_queues_for_client create_each channel_connections create_consumer create_producer
    create_clients recover_queues recover_recording recover_queue_and_bindings bindings_made
topology = tt

abbrev direct : TopologyParameters
direct = record {
  predeclared = false;
  exclusive = false;
  auto_delete = true;
  skip_binding_queues = false;
  exchange_name = "direct";
  exchange_type = "direct";
  consumer_count = 2;
}

-- A broker that takes everything.
abbrev broker : Broker
broker = record {
  exchange_exists = λ name. true;
  exchange_declare = true;
  queue_exists = λ name. false;
  queue_declare = λ number name. some name;
  queue_bind = λ queue key. true;
}

abbrev three_queues : List String
three_queues = "perf-test-1" ∷ "perf-test-2" ∷ "perf-test-3" ∷ []

three_queues-IsTaken : All (IsTaken direct broker (7 ∷ 8 ∷ [])) three_queues
three_queues-IsTaken = ((λ n. refl, refl), ((λ n. refl, refl), ((λ n. refl, refl), tt)))

configure_all_queues-calls_example :
    (states : List Configured) × (t : Run) × (configure_all_queues direct broker
        (7 ∷ 8 ∷ [])
        (new_run three_queues)
      ≡ some (states, t))
    × (t.calls
        ≡ declared_exchange (connection_of direct broker (7 ∷ 8 ∷ []) 0)
          ∷ calls_from direct broker (7 ∷ 8 ∷ []) 0 three_queues)
configure_all_queues-calls_example =
    configure_all_queues-calls direct broker (7 ∷ 8 ∷ []) three_queues (omega arith) refl
      (omega arith) (omega arith) refl refl three_queues-IsTaken

calls_run :
    calls_from direct broker (7 ∷ 8 ∷ []) 0 three_queues
    ≡ declared_queue 7 "perf-test-1" "perf-test-1"
      ∷ bound 7 "perf-test-1" "perf-test-1"
      ∷ declared_queue 8 "perf-test-2" "perf-test-2"
      ∷ bound 8 "perf-test-2" "perf-test-2"
      ∷ declared_queue 7 "perf-test-3" "perf-test-3"
      ∷ bound 7 "perf-test-3" "perf-test-3"
      ∷ []
calls_run = refl

-- Two connections of consumers with two channels each, and one producer.
create_clients-AreInTurn_example :
    (cs ps : List Client) × (t : Run) × (create_clients direct broker
        (7 ∷ 8 ∷ [])
        10
        2
        2
        1
        1
        (new_run three_queues)
      ≡ some (cs, ps, t))
    × AreInTurn three_queues 0 (channel_connections 10 2 2) cs
    × All IsServed cs
    × AreInTurn three_queues 0 (channel_connections (10 + 2) 1 1) ps
unfolding topology
create_clients-AreInTurn_example =
    create_clients-AreInTurn direct broker (7 ∷ 8 ∷ []) three_queues (omega arith) refl
      (omega arith) (omega arith) refl refl three_queues-IsTaken 10 2 2 1 1 (omega arith)
      (omega arith)

-- With exclusive queues a connection is closed on which a channel consumes already: the one with the
-- number 11, whose first channel has the third queue.
abbrev exclusive_ones : TopologyParameters
exclusive_ones = record direct { exclusive = true }

abbrev connections_of : Option (List Client × List Client × Run) → List ℕ
connections_of none = []
connections_of (some (cs, _, _)) = map (λ c. c.connection) cs

abbrev closings : List Call → List ℕ
closings [] = []
closings (closed c ∷ calls) = c ∷ closings calls
closings (_ ∷ calls) = closings calls

abbrev closed_of : Option (List Client × List Client × Run) → List ℕ
closed_of none = []
closed_of (some (_, _, r)) = closings r.calls

exclusive_run :
    (connections_of
        (create_clients exclusive_ones broker (7 ∷ []) 10 2 2 0 0 (new_run three_queues))
      ≡ 10 ∷ 10 ∷ 11 ∷ 10 ∷ [])
    × (closed_of (create_clients exclusive_ones broker (7 ∷ []) 10 2 2 0 0 (new_run three_queues))
        ≡ 11 ∷ [])
unfolding topology
exclusive_run = (refl, refl)

-- A queue that the server named, and its binding. The first recovery gives it another name.
abbrev server_queue : RecordedQueue
server_queue = record {
  name = "amq.gen-1";
  durable = true;
  exclusive = false;
  auto_delete = true;
  server_named = true;
}

abbrev one_binding : RecordedBinding
one_binding = record { queue = "amq.gen-1"; exchange = "direct"; routing_key = "amq.gen-1" }

abbrev one_queue : Recording
one_queue = record {
  exchanges = [];
  queues = ("amq.gen-1", server_queue) ∷ [];
  bindings = one_binding ∷ [];
}

abbrev answers : Answers
answers = record { exists = λ key. false; declared = λ key. some "amq.gen-2" }

recover_recording_run :
    (recover_recording false answers one_queue).1
    ≡ declare_again "" ∷ bind_again "amq.gen-2" "direct" "amq.gen-2" ∷ []
unfolding topology
recover_recording_run = refl

names_change : ◌≢◌ {A = String} "amq.gen-1" "amq.gen-2"
names_change = ground (arith, eq_iff "amq.gen-1" "amq.gen-2")

recover_recording-lost_example :
    AreBoundAgain
      (recover_recording false answers one_queue).0.queues
      (one_binding ∷ [])
      (bindings_made (recover_recording false answers one_queue).1)
    × ((t : RecordedQueue) × (find "amq.gen-1" (recover_recording false answers one_queue).0.queues
          ≡ some t)
        × (t.name ≡ "amq.gen-2")
        × (bindings_made (
              recover_queue_and_bindings false false
                (some "amq.gen-3")
                (recover_recording false answers one_queue).0
                t)
            ≡ []))
unfolding topology
recover_recording-lost_example =
    recover_recording-lost false answers one_queue "amq.gen-1" "amq.gen-2" server_queue false
      (some "amq.gen-3") refl refl refl (names_change, tt)
