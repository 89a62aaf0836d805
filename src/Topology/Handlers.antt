-- ===== src/Topology/Handlers.antt =====
-- com.rabbitmq.perf.MulticastParams: the topology handlers, and how they configure the queues.
use rabbitmq_perf_test.Base.{
  ℕ, zero, suc, ◌+◌, ◌%◌, String, ◌<>◌, Bool, ◌||◌, Option, none, some, List, [], ◌∷◌, ◌++◌, map,
  length, get_elem?, ◌==◌, if◌then◌else◌,
}
use rabbitmq_perf_test.Base.Assoc.{find}
use rabbitmq_perf_test.Java.{int_range, lt_int}
use rabbitmq_perf_test.Topology.{◌>>=◌, Recording, RunRecording, empty_recording}

pub record TopologyParameters : Type 0 where
  pub predeclared : Bool
  pub exclusive : Bool
  pub auto_delete : Bool
  pub skip_binding_queues : Bool
  pub exchange_name : String
  pub exchange_type : String
  pub consumer_count : ℕ

-- What the broker answers: whether an exchange and a queue exist, the name of the queue that the
-- declaration of this number makes, and whether a binding is made. `none` is an exception.
pub record Broker : Type 0 where
  pub exchange_exists : String → Bool
  pub exchange_declare : Bool
  pub queue_exists : String → Bool
  pub queue_declare : (number : ℕ) (name : String) → Option String
  pub queue_bind : (queue routing_key : String) → Bool

pub data TopologyHandler : Type 0 where
  fixed_queues : (routing_key : String) (queue_names : List String) → TopologyHandler
  sequence : (queues : List String) (index : ℕ) (routing_key : Option String) → TopologyHandler

-- What a connection is asked for.
pub data Call : Type 0 where
  declared_exchange : (connection : ℕ) → Call
  declared_queue bound : (connection : ℕ) (queue key : String) → Call
  closed : (connection : ℕ) → Call

-- A `State`, and the `TopologyHandlerResult` that is made of it.
pub record Configured : Type 0 where
  pub connection : ℕ
  pub configured_queues : List String
  pub topology_recording : Recording

pub record Run : Type 0 where
  pub handler : TopologyHandler
  pub run_recording : RunRecording
  pub connection_cache : List (String × ℕ)
  pub declared : ℕ
  pub calls : List Call
  -- The states of the configuration that goes on.
  pub states : List Configured

-- `queues.get(index % queues.size())`, as a list of one; without a queue the division fails, and an
-- index behind 2 ^ 31 - 1 is negative.
abbrev pub queue_names_for_client : (queues : List String) (index : ℕ) → Option (List String)
queue_names_for_client queues index =
    if length queues == 0 || lt_int index 0
    then none
    else (get_elem? queues (index % length queues) >>= λ q. some (q ∷ []))

abbrev pub get_routing_key : TopologyHandler → Option String
get_routing_key (fixed_queues key names) = some key
get_routing_key (sequence queues index (some key)) = some key
get_routing_key (sequence queues index none) =
    queue_names_for_client queues index >>= λ names. get_elem? names 0

abbrev pub next : TopologyHandler → TopologyHandler
next (fixed_queues key names) = fixed_queues key names
next (sequence queues index key) = sequence queues ((index + 1) % int_range) key

abbrev pub reset_cursor : TopologyHandler → TopologyHandler
reset_cursor (fixed_queues key names) = fixed_queues key names
reset_cursor (sequence queues index key) = sequence queues 0 key

abbrev pub update_at {ℓ} : {A : Type ℓ} → ℕ → (A → A) → List A → List A
update_at i f [] = []
update_at zero f (x ∷ xs) = f x ∷ xs
update_at (suc i) f (x ∷ xs) = x ∷ update_at i f xs

abbrev pub update_recording : (state : ℕ) → (Recording → Recording) → Run → Run
update_recording i f r = record r {
  states = update_at i (λ s. record s { topology_recording = f s.topology_recording }) r.states;
}

abbrev pub add_queue_name : (state : ℕ) (name : String) → Run → Run
add_queue_name i name r = record r {
  states =
      update_at i (λ s. record s { configured_queues = s.configured_queues ++ name ∷ [] }) r.states;
}

abbrev pub new_state : ℕ → Configured
new_state connection = record {
  connection = connection;
  configured_queues = [];
  topology_recording = empty_recording;
}

-- `List.toString`
abbrev pub listed : List String → String
listed [] = ""
listed (q ∷ []) = q
listed (q ∷ p ∷ qs) = q <> ", " <> listed (p ∷ qs)

-- The connection that the cache has for the queues; another one that was made for them is closed.
unfoldable pub maybe_use_cached_connection : List String → ℕ → Run → ℕ × Run
maybe_use_cached_connection [] connection r = (connection, r)
maybe_use_cached_connection (q ∷ qs) connection r =
    let key = "[" <> listed (q ∷ qs) <> "]" in
    elim (find key r.connection_cache) [
      | none ↦
          (connection, record r { connection_cache = r.connection_cache ++ (key, connection) ∷ [] })
      | some cached ↦
          if connection == cached
          then (cached, r)
          else (cached, record r { calls = r.calls ++ closed connection ∷ [] })
    ]

-- The states without queues.
abbrev pub unconfigured : List ℕ → Run → Option (List Configured × Run)
unconfigured connections r = some (
  map new_state connections,
  record r {
    run_recording = record r.run_recording {
      children = r.run_recording.children ++ map (λ c. empty_recording) connections;
    };
  },
)
