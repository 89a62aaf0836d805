-- ===== src/Topology.antt =====
-- The queues of a run: the topology handlers of com.rabbitmq.perf.MulticastParams, TopologyRecording,
-- and the loops of MulticastSet that create the consumers and the producers. What the broker answers
-- is the parameter `Broker`. An exception ends the run and is `none`. The arguments of a queue are
-- passed on only, and left out; no name of a queue is `null`.
pub mod Handlers
pub mod Configuration
pub mod Clients
pub mod Spread
pub mod Consumers
pub mod Recorded
pub mod Ready
pub mod Queues
pub mod Served
pub mod Recovery
use text.Mathlib.Text.{◌==◌ as str_eq}
use rabbitmq_perf_test.Base.{
  ℕ, zero, suc, ◌+◌, ◌%◌, String, ◌<>◌, Bool, true, false, not, ◌&&◌, ◌||◌, Option, none, some,
  List, [], ◌∷◌, ◌++◌, map, length, get_elem?, ◌==◌, if◌then◌else◌,
}
use rabbitmq_perf_test.Base.Text.{index_of}
use rabbitmq_perf_test.Base.Assoc.{find, put}
use rabbitmq_perf_test.Java.{int_range, lt_int}

infixl 5 ◌>>=◌
abbrev pub ◌>>=◌ {ℓ κ} : {A : Type ℓ} {B : Type κ} → Option A → (A → Option B) → Option B
none >>= f = none
some a >>= f = f a

pub record RecordedQueue : Type 0 where
  pub name : String
  pub durable : Bool
  pub exclusive : Bool
  pub auto_delete : Bool
  pub server_named : Bool

pub record RecordedBinding : Type 0 where
  pub queue : String
  pub exchange : String
  pub routing_key : String

-- `exchanges` has the type of each. The recordings that the run's recording has as its children
-- have none themselves.
pub record Recording : Type 0 where
  pub exchanges : List (String × String)
  pub queues : List (String × RecordedQueue)
  pub bindings : List RecordedBinding

pub record RunRecording : Type 0 where
  pub own : Recording
  pub children : List Recording

abbrev pub empty_recording : Recording
empty_recording = record { exchanges = []; queues = []; bindings = [] }

abbrev pub child : RunRecording → Recording → RunRecording
child r c = record r { children = r.children ++ c ∷ [] }

abbrev pub put_if_absent {ℓ} : {V : Type ℓ} → String → V → List (String × V) → List (String × V)
put_if_absent k v m = elim (find k m) [ some w ↦ m | none ↦ m ++ (k, v) ∷ [] ]

abbrev pub record_exchange : (name type : String) → Recording → Recording
record_exchange name type r = record r { exchanges = put_if_absent name type r.exchanges }

abbrev pub record_queue : RecordedQueue → Recording → Recording
record_queue q r = record r { queues = put_if_absent q.name q r.queues }

abbrev pub record_binding : (queue exchange routing_key : String) → Recording → Recording
record_binding queue exchange routing_key r = record r {
  bindings =
      r.bindings ++ record { queue = queue; exchange = exchange; routing_key = routing_key } ∷ [];
}

unfoldable pub bindings_for : String → List RecordedBinding → List RecordedBinding
bindings_for queue [] = []
bindings_for queue (b ∷ bs) =
    let rest = bindings_for queue bs in if str_eq b.queue queue then b ∷ rest else rest

unfoldable pub lookup_queue : String → List Recording → Option RecordedQueue
unfolding find
lookup_queue queue [] = none
lookup_queue queue (r ∷ rs) = elim (find queue r.queues) [
  | some q ↦ some q
  | none ↦ lookup_queue queue rs
]

-- `lookupQueueInHierarchy`: the own queues first.
abbrev pub lookup_queue_in_hierarchy : String → RunRecording → Option RecordedQueue
lookup_queue_in_hierarchy queue r = lookup_queue queue (r.own ∷ r.children)

-- A map does not take `null` as a value.
unfoldable pub add_bindings :
    List (String × String) → List RecordedBinding → Recording → Option Recording
add_bindings exchanges [] r = some r
add_bindings exchanges (b ∷ bs) r = find b.exchange exchanges >>= λ type.
    add_bindings exchanges bs
      (record r { bindings = r.bindings ++ b ∷ []; exchanges = put b.exchange type r.exchanges })

unfoldable pub add_queues : RunRecording → List String → Recording → Option Recording
unfolding lookup_queue bindings_for add_bindings
add_queues run [] r = some r
add_queues run (q ∷ qs) r = lookup_queue_in_hierarchy q run >>= λ recorded.
    add_bindings run.own.exchanges (bindings_for q run.own.bindings)
      (record r { queues = put_if_absent q recorded r.queues })
    >>= λ r. add_queues run qs r

-- The recording of a client, and the run's with it as a child.
unfoldable pub sub_recording : List String → RunRecording → Option (Recording × RunRecording)
unfolding add_queues
sub_recording queues run = add_queues run queues empty_recording >>= λ r. some (r, child run r)
