-- ===== src/Tests/Consumers.antt =====
-- Small runs of a consumer.
use rabbitmq_perf_test.Base.{
  ℕ, ◌+◌, ◌≡◌, refl, inl, true, false, List, [], ◌∷◌, ◌++◌, length, arith, ltb, if◌then◌else◌,
}
use rabbitmq_perf_test.Agents.Messages.{get_difference}
use rabbitmq_perf_test.Agents.Publishing.{written, channel_closed}
use rabbitmq_perf_test.Agents.Publishing.Limit.{numbers_from}
use rabbitmq_perf_test.Agents.Consuming.{
  ConsumerParameters, ConsumerState, Delivery, basic_ack, tx_commit, handle_deliveries,
  handle_message, count_down, process, ack_if_necessary, note_delivery,
  commit_transaction_if_necessary, maybe_ack_commit_before_exit, recover_consumer, new_consumer,
  consumer_reached_message_limit,
}
use rabbitmq_perf_test.Agents.Consuming.Settled.{waiting_behind}
use rabbitmq_perf_test.Agents.Consuming.Uncommitted.{handle_deliveries-uncommitted}
use rabbitmq_perf_test.Agents.Consuming.Recovered.{recover_consumer-operations}
use rabbitmq_perf_test.Agents.Consuming.Limit.{handle_deliveries-limit}
use rabbitmq_perf_test.Agents.Consuming.Idle.{Check, idle, maybe_stop, check_all}
use rabbitmq_perf_test.Agents.Consuming.Stopped.{maybe_stop-settled, check_all-stuck}

java : Unit {0}
unfolding handle_deliveries handle_message count_down process ack_if_necessary note_delivery
    commit_transaction_if_necessary maybe_ack_commit_before_exit waiting_behind maybe_stop check_all
    get_difference
java = tt

-- An ack for every two messages.
abbrev by_two : ConsumerParameters
by_two = record {
  auto_ack = false;
  multi_ack_every = 2;
  tx_size = 0;
  msg_limit = 0;
  nack = false;
  requeue = true;
  rate_limitation = false;
  recovery_enabled = true;
}

abbrev message : (tag : ℕ) → Delivery
message tag = record {
  is_open = true;
  delivery_tag = tag;
  message_timestamp = 100;
  now_timestamp = 100 + tag;
  latency_simulated = true;
  ack_write = written;
  commit_write = written;
  now = 0;
}

abbrev three : List Delivery
three = message 1 ∷ message 2 ∷ message 3 ∷ []

-- A second and a half behind.
abbrev check : Check
check = record {
  exit_when = idle;
  use_millis = true;
  current_time = 1603;
  queues = [];
  ack_write = written;
  commit_write = written;
}

handle_all_run :
    (handle_deliveries by_two three (new_consumer 0)).operations ≡ basic_ack 2 true ∷ []
unfolding java
handle_all_run = refl

maybe_stop_run :
    (maybe_stop by_two check (handle_deliveries by_two three (new_consumer 0)).state).operations
    ≡ basic_ack 3 true ∷ []
unfolding java
maybe_stop_run = refl

-- An ack for each message, in transactions of two: of three messages the last one is not committed.
abbrev in_pairs : ConsumerParameters
in_pairs = record by_two { multi_ack_every = 0; tx_size = 2 }

in_pairs_test :
    (handle_deliveries in_pairs three (new_consumer 0)).operations
    ≡ basic_ack 1 false ∷ basic_ack 2 false ∷ tx_commit ∷ basic_ack 3 false ∷ []
unfolding java
in_pairs_test = refl

handle_deliveries-uncommitted_example :
    waiting_behind in_pairs
      ((handle_deliveries in_pairs three (new_consumer 0)).operations
        ++ maybe_ack_commit_before_exit in_pairs written written
            (handle_deliveries in_pairs three (new_consumer 0)).state)
      (numbers_from 1 (length three + 1))
    ≡ 3 ∷ 4 ∷ []
handle_deliveries-uncommitted_example =
    handle_deliveries-uncommitted in_pairs refl refl (omega arith) three 0 1 written written
      (
        (refl, refl, refl, refl, refl),
        ((refl, refl, refl, refl, refl), ((refl, refl, refl, refl, refl), tt)),
      )
      (omega arith, omega arith, inl refl)

maybe_stop-settled_example :
    (waiting_behind by_two
        ((handle_deliveries by_two three (new_consumer 0)).operations
          ++ (maybe_stop by_two check
              (handle_deliveries by_two three (new_consumer 0)).state).operations)
        (numbers_from 1 (length three + 1))
      ≡ numbers_from (length three + 1) 1)
    × (length (
          (handle_deliveries by_two three (new_consumer 0)).reasons
          ++ (maybe_stop by_two check
              (handle_deliveries by_two three (new_consumer 0)).state).reasons)
        ≡ 1)
unfolding java
maybe_stop-settled_example =
    maybe_stop-settled by_two refl three 0 1 check refl
      (
        (refl, refl, refl, refl, refl),
        ((refl, refl, refl, refl, refl), ((refl, refl, refl, refl, refl), tt)),
      )
      (omega arith, omega arith, inl refl) refl refl refl refl refl

-- Four messages are acked.
abbrev after_four : ConsumerState
after_four = record (new_consumer 0) { last_delivery_tag = 4; last_acked_delivery_tag = 4 }

-- Behind a recovery the next two messages have the tags 5 and 6.
recover_consumer-operations_example :
    (handle_deliveries by_two (message 5 ∷ message 6 ∷ []) (recover_consumer after_four)).operations
    ≡ (handle_deliveries by_two (message 5 ∷ message 6 ∷ []) (new_consumer 0)).operations
recover_consumer-operations_example =
    recover_consumer-operations by_two refl (message 5 ∷ message 6 ∷ []) after_four 5 0
      ((refl, refl, refl, refl, refl), ((refl, refl, refl, refl, refl), tt))
      (omega arith, omega arith, inl refl) (omega arith, omega arith, inl refl)

abbrev two_only : ConsumerParameters
two_only = record by_two { msg_limit = 2 }

handle_deliveries-limit_example :
    (length (handle_deliveries two_only three (new_consumer 0)).measured
      ≡ (if ltb (length three) 2 then length three else 2))
    × ((handle_deliveries two_only three (new_consumer 0)).reasons
        ≡ (if ltb (length three) 2 then [] else consumer_reached_message_limit ∷ []))
handle_deliveries-limit_example =
    handle_deliveries-limit two_only (omega arith) (omega arith) three 0
      ((refl, refl, refl), ((refl, refl, refl), ((refl, refl, refl), tt))) (omega arith)

-- Two checks of a consumer whose third message is not acked.
abbrev on_closed : Check
on_closed = record check { ack_write = channel_closed }

abbrev behind_three : ConsumerState
behind_three = record (new_consumer 0) {
  last_activity_timestamp = 103;
  last_delivery_tag = 3;
  last_acked_delivery_tag = 2;
}

check_all-stuck_example :
    ((check_all by_two (on_closed ∷ on_closed ∷ []) behind_three).operations ≡ [])
    × ((check_all by_two (on_closed ∷ on_closed ∷ []) behind_three).reasons ≡ [])
    × ((check_all by_two (on_closed ∷ on_closed ∷ []) behind_three).state ≡ behind_three)
check_all-stuck_example =
    check_all-stuck by_two (on_closed ∷ on_closed ∷ []) behind_three (refl, (refl, tt)) refl refl
      refl
