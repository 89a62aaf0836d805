-- ===== src/Agents/Publishing/Rounds.antt =====
-- Rounds in which nothing goes wrong, and producers without publisher confirms.
use rabbitmq_perf_test.Base.{
  ℕ, ◌≡◌, refl, Bool, true, false, ◌&&◌, none, some, List, ◌∷◌, ◌++◌, arith,
}
use rabbitmq_perf_test.Agents.Confirms.{Confirms, acquire, track}
use rabbitmq_perf_test.Agents.Publishing.{
  written, Turn, Parameters, ProducerState, went, one_round, keep_going, run_producer,
}

-- A round in which nothing goes wrong.
abbrev pub IsGood : Turn → Type 0
IsGood t =
    (t.interrupted ≡ false)
    × (t.is_recovering ≡ false)
    × (t.publish ≡ written)
    × (t.commit ≡ written)

pub and_false : (a b : Bool) → (a && b && false) ≡ false
and_false true true = refl
and_false true false = refl
and_false false b = refl

pub acquire-no_pool : (c : Confirms) → c.confirm_pool ≡ none → acquire c ≡ some c
unfolding acquire
acquire-no_pool c pool = ground arith

pub track-no_pool : (seq t : ℕ) (c : Confirms) → c.confirm_pool ≡ none → track seq t c ≡ c
unfolding track
track-no_pool seq t c pool = ground arith

-- The loop behind a round without an exception.
pub run_producer-went :
    (p : Parameters) (t : Turn) (ts : List Turn) (s s' : ProducerState) (numbered : List ℕ)
    → keep_going p t s ≡ true
    → one_round p t s ≡ went numbered s'
    → run_producer p (t ∷ ts) s
      ≡ record (run_producer p ts s') { numbered = numbered ++ (run_producer p ts s').numbered }
unfolding run_producer
run_producer-went p t ts s s' numbered on e = rw (on, e, run_producer)
