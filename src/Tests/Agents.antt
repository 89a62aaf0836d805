-- ===== src/Tests/Agents.antt =====
-- A message, the confirms of a small producer, and its loop.
use rabbitmq_perf_test.Base.{
  ℕ, ◌+◌, ◌*◌, ◌-◌, ◌≤◌, ◌≡◌, refl, inl, true, false, some, List, [], ◌∷◌, length, arith, ltb,
  if◌then◌else◌,
}
use rabbitmq_perf_test.Agents.Messages.{new_source, create, extract, get_difference}
use rabbitmq_perf_test.Agents.Messages.Latency.{create_all, get_difference-extract}
use rabbitmq_perf_test.Agents.Confirms.{
  Confirms, new_confirms, head_map, acquire, track, handle_ack, recover,
}
use rabbitmq_perf_test.Agents.Confirms.Balance.{
  Waits, Flow, takes, tracks, Reach, here, next, first_flow, Reach-permits,
}
use rabbitmq_perf_test.Agents.Confirms.Multiple.{ack_each, numbers, handle_ack-ack_each}
use rabbitmq_perf_test.Agents.Confirms.Recovery.{recover-Reach, Waits-recover}
use rabbitmq_perf_test.Agents.Confirms.Waiting.{
  Round, maybe_wait_for_publish_confirms, rounds_until_over, maybe_wait_rounds,
}
use rabbitmq_perf_test.Agents.Publishing.{
  written, message_limit, Parameters, Turn, ProducerState, running, returned, run_producer,
}
use rabbitmq_perf_test.Agents.Publishing.Limit.{numbers_from, EndsAt, run_producer-numbered}
use rabbitmq_perf_test.Agents.Publishing.Reached.{run_producer-limit}
use rabbitmq_perf_test.Agents.Publishing.Variable.{run_producer-variable}

java : Unit {0}
unfolding create_all extract get_difference new_source head_map acquire track handle_ack recover
    new_confirms run_producer ack_each
java = tt

get_difference-extract_example :
    let made = (create 5000 20 7 (create_all ((1, 20, 6) ∷ []) (new_source (20 ∷ [])))).0 in
    (get_difference 6000 (extract made.body) ≡ 6000 - 5000)
    × (length made.body ≡ (if ltb 20 12 then 12 else 20))
get_difference-extract_example =
    get_difference-extract (20 ∷ []) ((1, 20, 6) ∷ []) 5000 20 7 6000 (inl refl) (omega arith)
      (omega arith)

-- Two messages are sent, with a limit of two.
abbrev one_taken : Flow
one_taken = record {
  confirms = record (new_confirms 2) { confirm_pool = some 1 };
  held = 1;
  next_publish_seq_no = 1;
}

abbrev one_waits : Flow
one_waits = record {
  confirms = record {
    confirm_pool = some 1;
    max_outstanding_confirms = 2;
    unconfirmed = (1, 40) ∷ [];
  };
  held = 0;
  next_publish_seq_no = 2;
}

Reach-one_waits : Reach (first_flow 2) one_waits
unfolding java
Reach-one_waits =
    next (next here (takes (first_flow 2) one_taken.confirms refl)) (tracks one_taken 0 40 refl)

Reach-permits_example :
    (permits : ℕ) × (one_waits.confirms.confirm_pool ≡ some permits)
    × (permits + length one_waits.confirms.unconfirmed + one_waits.held ≡ 2)
Reach-permits_example = Reach-permits 2 one_waits (omega arith) (omega arith) Reach-one_waits

recover-Reach_example :
    recover one_waits.confirms ≡ some (record one_waits.confirms { confirm_pool = some 2 })
recover-Reach_example = recover-Reach 2 one_waits (omega arith) (omega arith) Reach-one_waits

abbrev recovered : Confirms
recovered = record one_waits.confirms { confirm_pool = some 2 }

Waits-recover_example : Waits 1 recovered.unconfirmed
Waits-recover_example =
    Waits-recover 2 1 one_waits (record one_waits { confirms = recovered; next_publish_seq_no = 1 })
      recovered (omega arith) Reach-one_waits (inl refl) recover-Reach_example here (omega arith)

abbrev three_wait : Confirms
three_wait = record {
  confirm_pool = some 0;
  max_outstanding_confirms = 3;
  unconfirmed = (4, 40) ∷ (5, 50) ∷ (6, 60) ∷ [];
}

handle_ack-ack_each_example :
    ack_each 100 (numbers (head_map 5 three_wait.unconfirmed)) three_wait
    ≡ ((handle_ack 100 5 true three_wait).confirms, (handle_ack 100 5 true three_wait).latencies)
handle_ack-ack_each_example = handle_ack-ack_each 100 5 three_wait

abbrev empty_at_3 : ℕ → Round
empty_at_3 i = record { is_empty = ltb 2 i; interrupted = false }

maybe_wait_rounds_example :
    maybe_wait_for_publish_confirms (30 * 10 + 2) 30 empty_at_3
    ≡ some (rounds_until_over (30 * 10 + 1) empty_at_3 0)
maybe_wait_rounds_example = maybe_wait_rounds 30 empty_at_3 (omega arith)

-- The wait that is over early, and one that is never over.
wait_run :
    (rounds_until_over (30 * 10 + 1) empty_at_3 0 ≡ 4)
    × (rounds_until_over (2 * 10 + 1) (λ i. record { is_empty = false; interrupted = false }) 0
        ≡ 2 * 10 + 1)
wait_run = (refl, refl)

abbrev two_messages : Parameters
two_messages = record { msg_limit = 2; tx_size = 0; variable_rate = false; recovery_enabled = true }

abbrev turn_at : ℕ → Turn
turn_at now = record {
  interrupted = false;
  rate_is_zero = false;
  is_recovering = false;
  publish = written;
  commit = written;
  publishing_id = 0;
  timestamp = 0;
  now = now;
}

abbrev first_state : ProducerState
first_state = record { msg_count = 0; last_stats_time = 0; confirms = new_confirms 0 }

abbrev turns : List Turn
turns = turn_at 2000 ∷ turn_at 4000 ∷ turn_at 6000 ∷ []

run_producer-numbered_example :
    let g = run_producer two_messages turns first_state in
    (g.numbered ≡ numbers_from 0 g.state.msg_count)
    × (g.state.msg_count ≤ 2)
    × EndsAt two_messages refl (omega arith) (omega arith) g.state.msg_count g.ended
run_producer-numbered_example =
    run_producer-numbered two_messages refl (omega arith) (omega arith) turns first_state refl

run_producer-limit_example :
    ((run_producer two_messages turns first_state).ended ≡ returned (some message_limit))
    × ((run_producer two_messages turns first_state).numbered ≡ numbers_from 0 2)
unfolding java
run_producer-limit_example =
    run_producer-limit two_messages refl (omega arith) (omega arith) turns first_state
      ((refl, refl, refl, refl), ((refl, refl, refl, refl), ((refl, refl, refl, refl), tt))) refl
      refl (omega arith)

run_producer-variable_example :
    ((run_producer (record two_messages { variable_rate = true }) turns first_state).ended
      ≡ running)
    × ((run_producer (record two_messages { variable_rate = true }) turns first_state).numbered
        ≡ 0 ∷ 0 ∷ 0 ∷ [])
unfolding java
run_producer-variable_example =
    run_producer-variable (record two_messages { variable_rate = true }) refl (omega arith)
      (omega arith) turns first_state
      (
        ((refl, refl, refl, refl), refl),
        (((refl, refl, refl, refl), refl), (((refl, refl, refl, refl), refl), tt)),
      )
      (refl, (refl, (refl, tt))) refl refl
