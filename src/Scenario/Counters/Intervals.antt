-- ===== src/Scenario/Counters/Intervals.antt =====
-- com.rabbitmq.perf.Stats: the intervals of a run, read off the calls of its handlers alone.
use rabbitmq_perf_test.Base.{
  ℕ, ◌+◌, ◌≡◌, refl, List, [], ◌∷◌, ◌++◌, length, ◌==◌, if◌then◌else◌, arith,
}
use rabbitmq_perf_test.Java.{sub_long, lt_long}
use rabbitmq_perf_test.Scenario.Counters.{Event, send, return_back, confirm, nack, recv}

-- An interval that is closed: the messages that were sent and received in it, and its length in
-- nanoseconds.
pub record Interval : Type 0 where
  pub sends : ℕ
  pub recvs : ℕ
  pub elapsed : ℕ

-- The interval that is open: its messages so far, and when it began.
pub record Open : Type 0 where
  pub sends : ℕ
  pub recvs : ℕ
  pub since : ℕ

abbrev pub opened : ℕ → Open
opened now = record { sends = 0; recvs = 0; since = now }

-- An event is one message that is sent, one that is received, or neither.
abbrev pub tally : Event → Open → Open
tally send o = record o { sends = o.sends + 1 }
tally return_back o = o
tally (confirm n) o = o
tally (nack n) o = o
tally (recv latency) o = record o { recvs = o.recvs + 1 }

abbrev pub closed : ℕ → Open → Interval
closed elapsed o = record { sends = o.sends; recvs = o.recvs; elapsed = elapsed }

-- An interval of fewer nanoseconds than `interval` stays open.
module _ (interval : ℕ) where
  abbrev pub closes : ℕ → Open → List Interval
  closes now o =
      if lt_long (sub_long now o.since) interval then [] else closed (sub_long now o.since) o ∷ []

  abbrev pub behind : ℕ → Open → Open
  behind now o = if lt_long (sub_long now o.since) interval then o else opened now

  -- The intervals that a sequence of events closes, and the one that it leaves open.
  unfoldable pub intervals : List (ℕ × Event) → Open → List Interval
  intervals [] o = []
  intervals ((now, e) ∷ es) o = closes now (tally e o) ++ intervals es (behind now (tally e o))

  unfoldable pub left_open : List (ℕ × Event) → Open → Open
  left_open [] o = o
  left_open ((now, e) ∷ es) o = left_open es (behind now (tally e o))

abbrev pub total : (Interval → ℕ) → List Interval → ℕ
total f [] = 0
total f (i ∷ is) = f i + total f is

pub total-append :
    (f : Interval → ℕ) (is : List Interval) (j : Interval)
    → total f (is ++ j ∷ []) ≡ total f is + f j
total-append f [] j = omega arith
total-append f (i ∷ is) j = omega (arith, total-append f is j)

-- All intervals while there are less than four, and those behind the first four from then on.
abbrev pub counted : List Interval → List Interval
counted (a ∷ b ∷ c ∷ d ∷ is) = is
counted (a ∷ b ∷ c ∷ []) = a ∷ b ∷ c ∷ []
counted (a ∷ b ∷ []) = a ∷ b ∷ []
counted (a ∷ []) = a ∷ []
counted [] = []

pub counted-append :
    (is : List Interval) (j : Interval)
    → counted (is ++ j ∷ []) ≡ (if length is == 3 then [] else counted is ++ j ∷ [])
counted-append [] j = refl
counted-append (a ∷ []) j = refl
counted-append (a ∷ b ∷ []) j = refl
counted-append (a ∷ b ∷ c ∷ []) j = refl
counted-append (a ∷ b ∷ c ∷ d ∷ is) j = ground arith
