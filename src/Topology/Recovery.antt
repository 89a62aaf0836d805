-- ===== src/Topology/Recovery.antt =====
-- com.rabbitmq.perf.TopologyRecording: the recovery of a recording, and of one of its queues. What the
-- broker answers is given: whether a queue exists, and the name of the queue that is declared, which
-- is `none` when there is an exception; it is only logged. Channels can be created, and bindings made.
use text.Mathlib.Text.{◌==◌ as str_eq}
use text.Mathlib.TextEquality.{eq_iff}
use mathlib.Core.List.{append-nil}
use rabbitmq_perf_test.Base.{
  String, ◌≡◌, ◌≢◌, ◌⊎◌, refl, ap, sym, ◌∙◌, Option-cases, Bool, false, not, ◌&&◌, Option, none,
  some, List, [], ◌∷◌, ◌++◌, map, All, arith, Bool-cases, inl, inr, if◌then◌else◌,
}
use rabbitmq_perf_test.Base.Assoc.{find}
use rabbitmq_perf_test.Topology.{RecordedQueue, RecordedBinding, Recording, bindings_for}

-- What the broker answers for the queue that was recorded under a name.
pub record Answers : Type 0 where
  pub exists : (key : String) → Bool
  pub declared : (key : String) → Option String

pub data RecoveryCall : Type 0 where
  declare_passive delete_queue : (name : String) → RecoveryCall
  declare_again : (asked : String) → RecoveryCall
  declare_exchange : (name type : String) → RecoveryCall
  bind_again : (queue exchange routing_key : String) → RecoveryCall

-- Whether it is looked up first.
abbrev pub is_checked : RecordedQueue → Bool
is_checked q = q.durable && q.server_named && not q.auto_delete && not q.exclusive

abbrev pub renamed : RecordedQueue → Option String → RecordedQueue
renamed q none = q
renamed q (some name) = record q { name = name }

-- `recoverQueue`, with what it asks for.
abbrev pub recovered_queue :
    (exists : Bool) (declared : Option String) → RecordedQueue → RecordedQueue
recovered_queue exists declared q = if is_checked q && exists then q else renamed q declared

abbrev pub recover_queue : (polling exists : Bool) → RecordedQueue → List RecoveryCall
recover_queue polling exists q =
    (if is_checked q then declare_passive q.name ∷ [] else [])
    ++ (if is_checked q && exists
        then []
        else declare_again (if q.server_named then "" else q.name) ∷ [])
    ++ (if polling && q.auto_delete && q.server_named && not q.exclusive
        then delete_queue q.name ∷ []
        else [])

unfoldable pub recover_queues :
    (polling : Bool)
    → Answers
    → List (String × RecordedQueue)
    → List (String × RecordedQueue) × List RecoveryCall
recover_queues polling a [] = ([], [])
recover_queues polling a ((key, q) ∷ queues) =
    let (rest, calls) = recover_queues polling a queues in
    (
      (key, recovered_queue (a.exists key) (a.declared key) q) ∷ rest,
      recover_queue polling (a.exists key) q ++ calls,
    )

-- The routing key follows the name of the queue where it was that name.
abbrev pub bind_under : (name : String) → RecordedBinding → RecoveryCall
bind_under name b =
    bind_again name b.exchange (if str_eq b.queue b.routing_key then name else b.routing_key)

abbrev pub current_name : List (String × RecordedQueue) → String → String
current_name queues key = elim (find key queues) [ some q ↦ q.name | none ↦ key ]

unfoldable pub recover_recording :
    (polling : Bool) → Answers → Recording → Recording × List RecoveryCall
unfolding recover_queues
recover_recording polling a r =
    let (queues, calls) = recover_queues polling a r.queues in
    (
      record r { queues = queues },
      calls
          ++ map (λ e. declare_exchange e.0 e.1) r.exchanges
          ++ map (λ b. bind_under (current_name queues b.queue) b) r.bindings,
    )

-- The calls of `recoverQueueAndBindings` for a recorded queue.
unfoldable pub recover_queue_and_bindings :
    (polling exists : Bool) (declared : Option String)
    → Recording
    → RecordedQueue
    → List RecoveryCall
unfolding bindings_for
recover_queue_and_bindings polling exists declared r q =
    recover_queue polling exists q
    ++ map (bind_under (recovered_queue exists declared q).name) (bindings_for q.name r.bindings)

-- The bindings among the calls.
unfoldable pub bindings_made : List RecoveryCall → List RecoveryCall
bindings_made [] = []
bindings_made (bind_again queue exchange key ∷ calls) =
    bind_again queue exchange key ∷ bindings_made calls
bindings_made (_ ∷ calls) = bindings_made calls

-- The name that a queue has in a recording, by the name under which it was recorded; and the routing
-- key of its binding: that name where it was the one under which the queue was recorded.
abbrev IsNameOf : List (String × RecordedQueue) → (key name : String) → Type 0
IsNameOf queues key name =
    ((q : RecordedQueue) × (find key queues ≡ some q) × (name ≡ q.name))
    ⊎ (find key queues ≡ none) × (name ≡ key)

abbrev IsKeyUnder : RecordedBinding → (name routing_key : String) → Type 0
IsKeyUnder b name routing_key =
    (b.routing_key ≡ b.queue) × (routing_key ≡ name)
    ⊎ (b.routing_key ≢ b.queue) × (routing_key ≡ b.routing_key)

-- Calls that make bindings, one for each, under the names of a recording.
pub data AreBoundAgain (queues : List (String × RecordedQueue))
    : List RecordedBinding → List RecoveryCall → Type 0 where
  none_bound : AreBoundAgain queues [] []
  bound_again :
      {bs : List RecordedBinding} {calls : List RecoveryCall} (b : RecordedBinding)
      (name routing_key : String)
      → IsNameOf queues b.queue name
      → IsKeyUnder b name routing_key
      → AreBoundAgain queues bs calls
      → AreBoundAgain queues (b ∷ bs) (bind_again name b.exchange routing_key ∷ calls)

current_name-IsNameOf :
    (queues : List (String × RecordedQueue)) (key : String)
    → IsNameOf queues key (current_name queues key)
current_name-IsNameOf queues key = elim (Option-cases (find key queues)) [
  | inl absent ↦ inr (absent, rw (current_name, absent) refl)
  | inr (q, found) ↦ inl (q, found, rw (current_name, found) refl)
]

-- The routing key under a name.
key_under : (name : String) → RecordedBinding → String
key_under name b = if str_eq b.queue b.routing_key then name else b.routing_key

key_under-IsKeyUnder : (name : String) (b : RecordedBinding) → IsKeyUnder b name (key_under name b)
unfolding key_under
key_under-IsKeyUnder name b = elim (Bool-cases (str_eq b.queue b.routing_key)) [
  | inl same ↦ inl (sym ((eq_iff b.queue b.routing_key).0 same), rw same refl)
  | inr other ↦ inr (ground (arith, eq_iff b.queue b.routing_key), rw other refl)
]

bind_under-AreBoundAgain :
    (queues : List (String × RecordedQueue)) (bs : List RecordedBinding)
    → AreBoundAgain queues bs (map (λ b. bind_under (current_name queues b.queue) b) bs)
unfolding key_under
bind_under-AreBoundAgain queues [] = none_bound
bind_under-AreBoundAgain queues (b ∷ bs) =
    let name = current_name queues b.queue in
    bound_again b name (key_under name b) (current_name-IsNameOf queues b.queue)
      (key_under-IsKeyUnder name b) (bind_under-AreBoundAgain queues bs)

find-recover_queues :
    (polling : Bool) (a : Answers) (queues : List (String × RecordedQueue)) (key : String)
    (q : RecordedQueue)
    → find key queues ≡ some q
    → find key (recover_queues polling a queues).0
      ≡ some (recovered_queue (a.exists key) (a.declared key) q)
unfolding recover_queues find
find-recover_queues polling a [] key q h = cc
find-recover_queues polling a ((k, p) ∷ queues) key q h = elim (Bool-cases (str_eq k key)) [
  | inl same ↦
      let name : k ≡ key = ground (arith, eq_iff k key) in
      let queue : p ≡ q = ground (arith, same) in rw (same, name, queue) refl
  | inr other ↦ rw other (find-recover_queues polling a queues key q (ground (arith, other)))
]

bindings_for-none :
    (name : String) (bs : List RecordedBinding)
    → All (λ b. b.queue ≢ name) bs
    → bindings_for name bs ≡ []
unfolding bindings_for
bindings_for-none name [] h = refl
bindings_for-none name (b ∷ bs) (other, h) =
    ground (arith, eq_iff b.queue name, bindings_for-none name bs h)

bindings_made-append :
    (xs ys : List RecoveryCall) → bindings_made (xs ++ ys) ≡ bindings_made xs ++ bindings_made ys
unfolding bindings_made
bindings_made-append [] ys = refl
bindings_made-append (bind_again q e k ∷ xs) ys =
    ap (λ t. bind_again q e k ∷ t) (bindings_made-append xs ys)
bindings_made-append (declare_passive n ∷ xs) ys = bindings_made-append xs ys
bindings_made-append (delete_queue n ∷ xs) ys = bindings_made-append xs ys
bindings_made-append (declare_again n ∷ xs) ys = bindings_made-append xs ys
bindings_made-append (declare_exchange n t ∷ xs) ys = bindings_made-append xs ys

bindings_made-recover_queue :
    (polling exists : Bool) (q : RecordedQueue)
    → bindings_made (recover_queue polling exists q) ≡ []
unfolding bindings_made
bindings_made-recover_queue polling exists q = ground arith

bindings_made-recover_queues :
    (polling : Bool) (a : Answers) (queues : List (String × RecordedQueue))
    → bindings_made (recover_queues polling a queues).1 ≡ []
unfolding recover_queues bindings_made
bindings_made-recover_queues polling a [] = refl
bindings_made-recover_queues polling a ((key, q) ∷ queues) =
    bindings_made-append (recover_queue polling (a.exists key) q)
      (recover_queues polling a queues).1
    ∙ rw (bindings_made-recover_queue polling (a.exists key) q)
        (bindings_made-recover_queues polling a queues)

bindings_made-declare_exchange :
    (es : List (String × String)) → bindings_made (map (λ e. declare_exchange e.0 e.1) es) ≡ []
unfolding bindings_made
bindings_made-declare_exchange [] = refl
bindings_made-declare_exchange (e ∷ es) = bindings_made-declare_exchange es

bindings_made-bind_under :
    (f : RecordedBinding → String) (bs : List RecordedBinding)
    → bindings_made (map (λ b. bind_under (f b) b) bs) ≡ map (λ b. bind_under (f b) b) bs
unfolding bindings_made
bindings_made-bind_under f [] = refl
bindings_made-bind_under f (b ∷ bs) =
    ap (λ t. bind_under (f b) b ∷ t) (bindings_made-bind_under f bs)

-- A recovery makes one call for each recorded binding, in order: it binds the queue under the name
-- that it has in the recording now (the recorded one, where the queue is not in the recording), to the
-- exchange, with that name as the routing key where the routing key was the recorded name, and with
-- the routing key as it was elsewhere. When the recovery gave a queue another name, which is that of no recorded binding, then a later recovery of this
-- queue with its bindings binds nothing, whatever the broker answers: the queue stays unbound. The
-- queue is not one that was looked up and found, and its declaration was answered.
pub recover_recording-lost :
    (polling : Bool) (a : Answers) (r : Recording) (key new : String) (q : RecordedQueue)
    (exists : Bool) (declared : Option String)
    → find key r.queues ≡ some q
    → a.declared key ≡ some new
    → (is_checked q && a.exists key) ≡ false
    → All (λ b. b.queue ≢ new) r.bindings
    → AreBoundAgain
        (recover_recording polling a r).0.queues
        r.bindings
        (bindings_made (recover_recording polling a r).1)
      × ((t : RecordedQueue) × (find key (recover_recording polling a r).0.queues ≡ some t)
          × (t.name ≡ new)
          × (bindings_made (
                recover_queue_and_bindings polling exists declared
                  (recover_recording polling a r).0
                  t)
              ≡ []))
unfolding recover_recording recover_queue_and_bindings
recover_recording-lost polling a r key new q exists declared known answered gone free =
    let (queues, calls) = recover_queues polling a r.queues in
    let t = record q { name = new } in
    let name = λ (b : RecordedBinding). current_name queues b.queue in
    let es = map (λ e. declare_exchange e.0 e.1) r.exchanges in
    let bs = map (λ b. bind_under (name b) b) r.bindings in
    let made : bindings_made ((calls ++ es) ++ bs) ≡ bs =
      bindings_made-append (calls ++ es) bs
      ∙ (ap (λ c. c ++ bindings_made bs)
            (bindings_made-append calls es
              ∙ (ap (λ c. c ++ bindings_made es) (bindings_made-recover_queues polling a r.queues)
                  ∙ bindings_made-declare_exchange r.exchanges))
          ∙ bindings_made-bind_under name r.bindings) in
    (
      rw made (bind_under-AreBoundAgain queues r.bindings),
      (
        t,
        find-recover_queues polling a r.queues key q known ∙ rw (gone, answered) refl,
        refl,
        ap
              (λ b. bindings_made (
                recover_queue polling exists t
                ++ map (bind_under (recovered_queue exists declared t).name) b))
              (bindings_for-none new r.bindings free)
            ∙ (ap bindings_made (append-nil (recover_queue polling exists t))
                ∙ bindings_made-recover_queue polling exists t),
      ),
    )
