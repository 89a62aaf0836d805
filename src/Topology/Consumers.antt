-- ===== src/Topology/Consumers.antt =====
-- com.rabbitmq.perf.MulticastParams and TopologyRecording: the queue of a consumer, and what it
-- records of it, where the queues are a sequence and not exclusive.
use rabbitmq_perf_test.Base.{
  ℕ, zero, suc, ◌+◌, ◌%◌, ◌<◌, ◌≡◌, refl, ap, ◌∙◌, String, false, none, some, List, [], ◌∷◌, ◌++◌,
  length, get_elem?, arith, All, All-imp,
}
use rabbitmq_perf_test.Base.Assoc.{find}
use rabbitmq_perf_test.Topology.{
  Recording, RecordedQueue, RunRecording, child, empty_recording, add_queues, add_bindings,
  bindings_for, sub_recording, lookup_queue, lookup_queue_in_hierarchy,
}
use rabbitmq_perf_test.Topology.Handlers.{
  TopologyParameters, Broker, Run, sequence, get_routing_key,
}
use rabbitmq_perf_test.Topology.Configuration.{configure_queues_for_client}
use rabbitmq_perf_test.Topology.Clients.{Client, create_each, create_consumer, move_on}
use rabbitmq_perf_test.Topology.Spread.{current_queue, next_index, AreInTurn}

abbrev pub IsFound : String → RunRecording → Type 0
IsFound q run = (recorded : RecordedQueue) × (lookup_queue_in_hierarchy q run ≡ some recorded)

lookup_queue-append :
    (q : String) (rs ss : List Recording) (recorded : RecordedQueue)
    → lookup_queue q rs ≡ some recorded
    → lookup_queue q (rs ++ ss) ≡ some recorded
unfolding lookup_queue
lookup_queue-append q [] ss recorded h = cc
lookup_queue-append q (r ∷ rs) ss recorded h = ground (arith, lookup_queue-append q rs ss recorded)

All-get :
    (P : String → Type 0) (xs : List String) (i : ℕ) (x : String)
    → All P xs
    → get_elem? xs i ≡ some x
    → P x
All-get P [] i x h e = cc
All-get P (y ∷ ys) zero x (p, h) e = let same : x ≡ y = cc in rw same p
All-get P (y ∷ ys) (suc i) x (p, h) e = All-get P ys i x h e

-- What is recorded for a client of one queue.
abbrev pub sub_of : String → RecordedQueue → Recording
sub_of q recorded = record empty_recording { queues = (q, recorded) ∷ [] }

sub_recording-one :
    (q : String) (recorded : RecordedQueue) (run : RunRecording)
    → run.own.bindings ≡ []
    → lookup_queue_in_hierarchy q run ≡ some recorded
    → sub_recording (q ∷ []) run ≡ some (sub_of q recorded, child run (sub_of q recorded))
unfolding sub_recording add_queues add_bindings bindings_for find
sub_recording-one q recorded run none_bound found = rw (found, none_bound) refl

pub record IsReady (queues : List String) (i : ℕ) (r : Run) : Type 0 where
  pub turn : r.handler ≡ sequence queues i none
  pub unbound : r.run_recording.own.bindings ≡ []
  pub recorded : All (λ q. IsFound q r.run_recording) queues

-- What a consumer has: its queue, which is its routing key, and a record of it, without a binding.
abbrev pub IsServed : Client → Type 0
IsServed c =
    (c.queue_names ≡ c.routing_key ∷ [])
    × ((q : RecordedQueue) × (c.recording ≡ sub_of c.routing_key q))

module _ (queues : List String) (pos : 0 < length queues) (params : TopologyParameters)
    (broker : Broker) where
  -- Each queue of the sequence is recorded, in the recording of the run or in a child.
  create_consumer-current :
      (connection : ℕ) (r : Run) (i : ℕ)
      → params.exclusive ≡ false
      → params.predeclared ≡ false
      → IsReady queues i r
      → i + 1 < 2_147_483_648
      → (c : Client) × (t : Run) × (create_consumer params broker connection r ≡ some (c, t))
        × (get_elem? queues (i % length queues) ≡ some c.routing_key)
        × (c.connection ≡ connection)
        × IsServed c
        × IsReady queues (i + 1) t
  unfolding create_consumer configure_queues_for_client
  create_consumer-current connection r i shared declared ready fits =
      let (q, found, current) = current_queue queues pos i (omega arith) in
      let (recorded, known) =
        All-get (λ q. IsFound q r.run_recording) queues (i % length queues) q ready.recorded
          found in
      let sub = sub_recording-one q recorded r.run_recording ready.unbound known in
      let key : get_routing_key (sequence queues i none) ≡ some q = rw current refl in
      (
        record {
          connection = connection;
          queue_names = q ∷ [];
          routing_key = q;
          recording = sub_of q recorded;
        },
        move_on (record r { run_recording = child r.run_recording (sub_of q recorded) }),
        rw (ready.turn, current, shared, declared, sub) (rw current refl),
        found,
        refl,
        (refl, (recorded, refl)),
        record {
          turn = rw ready.turn (ap (λ k. sequence queues k none) (next_index i fits));
          unbound = ready.unbound;
          recorded =
              All-imp
                (λ p (x, h). (
                  x,
                  lookup_queue-append p (r.run_recording.own ∷ r.run_recording.children)
                      (sub_of q recorded ∷ []) x h,
                ))
                queues ready.recorded;
        },
      )

  pub create_consumers :
      (connections : List ℕ) (r : Run) (i : ℕ)
      → params.exclusive ≡ false
      → params.predeclared ≡ false
      → IsReady queues i r
      → i + length connections < 2_147_483_648
      → (cs : List Client) × (t : Run) × (create_each (create_consumer params broker) connections r
          ≡ some (cs, t))
        × AreInTurn queues i connections cs
        × All IsServed cs
        × (t.handler ≡ sequence queues (i + length connections) none)
  unfolding create_each
  create_consumers [] r i shared declared ready fits =
      let none_more : i + 0 ≡ i = omega arith in ([], r, refl, tt, tt, rw none_more ready.turn)
  create_consumers (x ∷ xs) r i shared declared ready fits =
      let (c, t, done, found, same, served, after) =
        create_consumer-current x r i shared declared ready (omega arith) in
      let (cs, u, rest, turns, all_served, last) =
        create_consumers xs t (i + 1) shared declared after (omega arith) in
      let total : i + 1 + length xs ≡ i + suc (length xs) = omega arith in
      (
        c ∷ cs,
        u,
        rw (done, rest) refl,
        ((found, same), turns),
        (served, all_served),
        last ∙ ap (λ k. sequence queues k none) total,
      )
