-- ===== src/Agents/Confirms.antt =====
-- The confirms of a producer: the semaphore and the map of com.rabbitmq.perf.Producer. The map is
-- ordered by the sequence numbers, which are positive `long`s. What is logged is left out. The
-- semaphore's `int` is a number: it is bounded by the number of messages that wait.
pub mod Balance
pub mod Multiple
pub mod Recovery
pub mod Excess
pub mod Waiting
use rabbitmq_perf_test.Base.{
  ℕ, zero, suc, ◌+◌, ◌-◌, ◌*◌, ◌%◌, Bool, Option, none, some, List, [], ◌∷◌, map, length, ltb, ◌==◌,
  if◌then◌else◌,
}
use rabbitmq_perf_test.Agents.Messages.{get_difference}

-- Sequence numbers with the times of their messages.
abbrev pub Unconfirmed : Type 0
Unconfirmed = List (ℕ × ℕ)

-- `confirmPool` holds the available permits; `none` where there are no publisher confirms.
pub record Confirms : Type 0 where
  pub confirm_pool : Option ℕ
  pub max_outstanding_confirms : ℕ
  pub unconfirmed : Unconfirmed

-- `(int) confirm` of a `long`. A semaphore with a negative number of permits gives none, and none is
-- ever given back to it, as with 0.
abbrev pub permits_of : (confirm : ℕ) → ℕ
permits_of confirm =
    let permits = confirm % 4_294_967_296 in if ltb permits 2_147_483_648 then permits else 0

-- The constructor's part, for `confirm` as the producer's parameters give it (negative is 0 here).
unfoldable pub new_confirms : (confirm : ℕ) → Confirms
new_confirms confirm = record {
  confirm_pool = if ltb 0 confirm then some (permits_of confirm) else none;
  max_outstanding_confirms = permits_of confirm;
  unconfirmed = [];
}

-- `unconfirmed.put`
unfoldable pub tracked : (seq_no timestamp : ℕ) → Unconfirmed → Unconfirmed
tracked seq timestamp [] = (seq, timestamp) ∷ []
tracked seq timestamp ((k, t) ∷ m) =
    let later = tracked seq timestamp m in
    if ltb seq k
    then (seq, timestamp) ∷ (k, t) ∷ m
    else (if k == seq then (k, timestamp) ∷ m else (k, t) ∷ later)

-- `unconfirmed.remove`: the value that was there, and the rest.
unfoldable pub remove : (seq_no : ℕ) → Unconfirmed → Option ℕ × Unconfirmed
remove seq [] = (none, [])
remove seq ((k, t) ∷ m) =
    let (found, rest) = remove seq m in if k == seq then (some t, m) else (found, (k, t) ∷ rest)

-- `unconfirmed.headMap(seqNo, true)`, and what `clear` on it leaves.
unfoldable pub head_map : (seq_no : ℕ) → Unconfirmed → Unconfirmed
head_map seq [] = []
head_map seq ((k, t) ∷ m) = if ltb seq k then head_map seq m else (k, t) ∷ head_map seq m

unfoldable pub cleared : (seq_no : ℕ) → Unconfirmed → Unconfirmed
cleared seq [] = []
cleared seq ((k, t) ∷ m) = if ltb seq k then (k, t) ∷ cleared seq m else cleared seq m

-- The latencies of confirmed messages.
abbrev pub latencies_of : (current_time : ℕ) → Unconfirmed → List ℕ
latencies_of now m = map (λ (k, t). get_difference now t) m

abbrev pub latency_of : (current_time : ℕ) → Option ℕ → List ℕ
latency_of now none = []
latency_of now (some t) = get_difference now t ∷ []

-- What a handler leaves and reports: `confirmed(num_confirms, latencies)` for an ack,
-- `nacked(num_confirms)` for a nack.
pub record Answer : Type 0 where
  pub confirms : Confirms
  pub num_confirms : ℕ
  pub latencies : List ℕ

unfoldable pub process_ack : (current_time seq_no : ℕ) (multiple : Bool) → Confirms → Answer
unfolding head_map cleared remove
process_ack now seq multiple c =
    if multiple
    then record {
      confirms = record c { unconfirmed = cleared seq c.unconfirmed };
      num_confirms = length (head_map seq c.unconfirmed);
      latencies = latencies_of now (head_map seq c.unconfirmed);
    }
    else record {
      confirms = record c { unconfirmed = (remove seq c.unconfirmed).1 };
      num_confirms = 1;
      latencies = latency_of now (remove seq c.unconfirmed).0;
    }

-- `none` is the exception that the missing timestamp of a single message gives.
unfoldable pub process_nack : (seq_no : ℕ) (multiple : Bool) → Confirms → Option Answer
unfolding head_map cleared remove
process_nack seq multiple c =
    if multiple
    then some (record {
      confirms = record c { unconfirmed = cleared seq c.unconfirmed };
      num_confirms = length (head_map seq c.unconfirmed);
      latencies = [];
    })
    else elim (remove seq c.unconfirmed).0 [
      | none ↦ none
      | some timestamp ↦ some (record {
        confirms = record c { unconfirmed = (remove seq c.unconfirmed).1 };
        num_confirms = 1;
        latencies = [];
      })
    ]

abbrev pub released : ℕ → Option ℕ → Option ℕ
released n none = none
released n (some permits) = some (permits + n)

-- `confirmPool.release`, where there is a pool and something was confirmed.
unfoldable pub release : Answer → Answer
release a = record a {
  confirms = record a.confirms { confirm_pool = released a.num_confirms a.confirms.confirm_pool };
}

-- `handleAck` and `handleNack`, by `handleAckNack`
unfoldable pub handle_ack : (current_time seq_no : ℕ) (multiple : Bool) → Confirms → Answer
unfolding release process_ack
handle_ack now seq multiple c = release (process_ack now seq multiple c)

unfoldable pub handle_nack : (seq_no : ℕ) (multiple : Bool) → Confirms → Option Answer
unfolding release process_nack
handle_nack seq multiple c = elim (process_nack seq multiple c) [
  | none ↦ none
  | some a ↦ some (release a)
]

-- `maybeWaitIfTooManyOutstandingPublishConfirms`; `none` where there is no permit: then the
-- producer waits, and fails if that takes longer than the timeout.
unfoldable pub acquire : Confirms → Option Confirms
acquire c = elim c.confirm_pool [
  | none ↦ some c
  | some zero ↦ none
  | some (suc permits) ↦ some (record c { confirm_pool = some permits })
]

-- The part of `publish` in front of `basicPublish`.
unfoldable pub track : (publishing_id timestamp : ℕ) → Confirms → Confirms
unfolding tracked
track seq timestamp c = elim c.confirm_pool [
  | none ↦ c
  | some permits ↦ record c { unconfirmed = tracked seq timestamp c.unconfirmed }
]

-- `maybeResetConfirmPool`; `none` is the exception for a negative number of permits.
unfoldable pub recover : Confirms → Option Confirms
recover c = elim c.confirm_pool [
  | none ↦ some c
  | some permits ↦
      if ltb c.max_outstanding_confirms permits
      then none
      else some
          (record c { confirm_pool = some (permits + (c.max_outstanding_confirms - permits)) })
]
