-- ===== src/Topology/Recorded.antt =====
-- com.rabbitmq.perf.MulticastParams: which queues the states of a configuration record.
use text.Mathlib.TextEquality.{eq_iff}
use rabbitmq_perf_test.Base.{
  ℕ, zero, suc, ◌<◌, ◌≡◌, ◌⊎◌, refl, ap, String, Option, none, some, List, [], ◌∷◌, ◌++◌, length,
  map, arith, inl, inr,
}
use rabbitmq_perf_test.Base.Assoc.{find}
use rabbitmq_perf_test.Topology.{RecordedQueue, lookup_queue, put_if_absent}
use rabbitmq_perf_test.Topology.Handlers.{Configured, update_at}

-- A queue of this name is recorded by a state.
abbrev pub HasRecorded : String → Configured → Type 0
HasRecorded q s = (x : RecordedQueue) × (find q s.topology_recording.queues ≡ some x)

abbrev pub HasQueue : String → List Configured → Type 0
HasQueue q [] = ⊥
HasQueue q (s ∷ ss) = HasRecorded q s ⊎ HasQueue q ss

pub HasQueue-update_at :
    (q : String) (f : Configured → Configured)
    → ((s : Configured) → HasRecorded q s → HasRecorded q (f s))
    → (k : ℕ) (ss : List Configured) → HasQueue q ss
    → HasQueue q (update_at k f ss)
HasQueue-update_at q f kept k [] h = h
HasQueue-update_at q f kept zero (s ∷ ss) (inl h) = inl (kept s h)
HasQueue-update_at q f kept zero (s ∷ ss) (inr h) = inr h
HasQueue-update_at q f kept (suc k) (s ∷ ss) (inl h) = inl h
HasQueue-update_at q f kept (suc k) (s ∷ ss) (inr h) = inr (HasQueue-update_at q f kept k ss h)

pub update_at-HasQueue :
    (q : String) (f : Configured → Configured)
    → ((s : Configured) → HasRecorded q (f s))
    → (k : ℕ) (ss : List Configured) → k < length ss
    → HasQueue q (update_at k f ss)
update_at-HasQueue q f made k [] h = absurd (omega arith)
update_at-HasQueue q f made zero (s ∷ ss) h = inl (made s)
update_at-HasQueue q f made (suc k) (s ∷ ss) h =
    inr (update_at-HasQueue q f made k ss (omega arith))

pub length-update_at :
    (f : Configured → Configured) (k : ℕ) (ss : List Configured)
    → length (update_at k f ss) ≡ length ss
length-update_at f k [] = refl
length-update_at f zero (s ∷ ss) = refl
length-update_at f (suc k) (s ∷ ss) = ap suc (length-update_at f k ss)

find-append :
    (q : String) (m n : List (String × RecordedQueue)) (x : RecordedQueue)
    → find q m ≡ some x
    → find q (m ++ n) ≡ some x
unfolding find
find-append q [] n x h = cc
find-append q ((k, y) ∷ m) n x h = ground (arith, find-append q m n x)

pub HasRecorded-record_queue :
    (p : String) (x : RecordedQueue) (m : List (String × RecordedQueue))
    → (y : RecordedQueue) × (find p m ≡ some y)
    → (y : RecordedQueue) × (find p (put_if_absent x.name x m) ≡ some y)
HasRecorded-record_queue p x m (y, h) =
    elim (find x.name m)
      as (λ o.
        (z : RecordedQueue) × (find p (elim o [ some w ↦ m | none ↦ m ++ (x.name, x) ∷ [] ])
          ≡ some z)) [ some w ↦ (y, h) | none ↦ (y, find-append p m ((x.name, x) ∷ []) y h) ]

find-end :
    (q : String) (x : RecordedQueue) (m : List (String × RecordedQueue))
    → find q m ≡ none
    → find q (m ++ (q, x) ∷ []) ≡ some x
unfolding find
find-end q x [] h = ground (arith, eq_iff q q)
find-end q x ((k, y) ∷ m) h = ground (arith, find-end q x m)

-- A key is there, or it is not.
abbrev known_or {ℓ} : {A : Type ℓ} (o : Option A) → ((y : A) × (o ≡ some y)) ⊎ (o ≡ none)
known_or none = inr refl
known_or (some y) = inl (y, refl)

pub find-put_if_absent :
    (q : String) (x : RecordedQueue) (m : List (String × RecordedQueue))
    → (y : RecordedQueue) × (find q (put_if_absent q x m) ≡ some y)
find-put_if_absent q x m = elim (known_or (find q m)) [
  | inl (y, h) ↦ (y, rw (put_if_absent, h) h)
  | inr h ↦ (x, rw (put_if_absent, h) (find-end q x m h))
]

pub HasQueue-lookup_queue :
    (q : String) (ss : List Configured)
    → HasQueue q ss
    → (x : RecordedQueue) × (lookup_queue q (map (λ s. s.topology_recording) ss) ≡ some x)
unfolding lookup_queue
HasQueue-lookup_queue q [] h = absurd h
HasQueue-lookup_queue q (s ∷ ss) (inl (x, h)) = (x, rw (lookup_queue, h) refl)
HasQueue-lookup_queue q (s ∷ ss) (inr h) =
    let (x, later) = HasQueue-lookup_queue q ss h in
    elim (find q s.topology_recording.queues)
      as (λ o.
        (z : RecordedQueue) × (elim o [
          | some y ↦ some y
          | none ↦ lookup_queue q (map (λ s. s.topology_recording) ss)
        ]
          ≡ some z)) [ some y ↦ (y, refl) | none ↦ (x, later) ]
