-- ===== src/Examples/Specifications.antt =====
-- html/examples/various-spec.js and publish-consume-spec.js: the scenarios that PerfTest is to run.
use rabbitmq_perf_test.Base.{ℕ, String, List, [], ◌∷◌, map}
use rabbitmq_perf_test.Js.Number.{Number, of_ℕ}
use rabbitmq_perf_test.Js.Value.{Value, num, str, arr, obj, Fields, Items, of_list, end, field}

module _ (N : Number) where
  abbrev number : ℕ → Value N
  number n = num (of_ℕ N n)

  -- One set of parameters, and a variable.
  abbrev pub time_limit : Fields N → Value N
  time_limit more = obj (field "time-limit" (number 30) more)

  abbrev pub varied : String → List (Value N) → Value N
  varied name values = obj (field "name" (str name) (field "values" (arr (of_list values)) end))

  abbrev specified : (name type : String) → Items N → Fields N → Fields N
  specified name type params more =
      field "name" (str name) (field "type" (str type) (field "params" (arr params) more))

  abbrev pub no_ack_spec : Fields N
  no_ack_spec = specified "no-ack" "simple" (of_list (time_limit end ∷ [])) end

  abbrev pub without_consumers : Items N
  without_consumers = of_list (time_limit (field "consumer-count" (number 0) end) ∷ [])

  abbrev pub size_values : List (Value N)
  size_values = map number (0 ∷ 1000 ∷ 10_000 ∷ 100_000 ∷ [])

  abbrev pub producer_counts : List (Value N)
  producer_counts = map number (1 ∷ 2 ∷ 3 ∷ 4 ∷ 5 ∷ 6 ∷ 7 ∷ 8 ∷ 9 ∷ 10 ∷ [])

  abbrev pub message_sizes_and_producers_spec : Fields N
  message_sizes_and_producers_spec =
      specified "message-sizes-and-producers" "varying" without_consumers (
        field "variables"
          (arr (
            of_list
              (varied "min-msg-size" size_values ∷ varied "producer-count" producer_counts ∷ [])))
          end)

  abbrev pub message_sizes_large_spec : Fields N
  message_sizes_large_spec =
      specified "message-sizes-large" "varying" (of_list (time_limit end ∷ [])) (
        field "variables"
          (arr (
            of_list (
              varied "min-msg-size"
                (map number (5000 ∷ 10_000 ∷ 50_000 ∷ 100_000 ∷ 500_000 ∷ 1_000_000 ∷ []))
              ∷ [])))
          end)

  abbrev pub rate_vs_latency_spec : Fields N
  rate_vs_latency_spec =
      specified "rate-vs-latency" "rate-vs-latency" (of_list (time_limit end ∷ [])) end

  abbrev pub various_spec : List (Fields N)
  various_spec =
      no_ack_spec ∷ message_sizes_and_producers_spec ∷ message_sizes_large_spec
      ∷ rate_vs_latency_spec ∷ []

  abbrev pub publish_consume_spec : Fields N
  publish_consume_spec =
      specified "consume" "simple"
        (of_list (
          time_limit (field "producer-count" (number 4) (field "consumer-count" (number 2) end))
          ∷ []))
        end
