-- ===== src/Tests/Counters.antt =====
-- A run whose reports close an interval with every second message.
use rabbitmq_perf_test.Js.Value.{num, end, field}
use rabbitmq_perf_test.Scenario.Counters.{latency_fields, reset}
use rabbitmq_perf_test.Scenario.Counters.Latency.{recv_all, latency_fields-recv_all}
use rabbitmq_perf_test.Base.{
  ◌≤◌, arith, ℕ, ◌+◌, ◌*◌, ◌%◌, ◌≡◌, refl, List, [], ◌∷◌, map, length, some, if◌then◌else◌,
}
use rabbitmq_perf_test.Java.{wrap}
use rabbitmq_perf_test.Scenario.Counters.{
  Event, send, recv, confirm, started, run_results, rate, handle_all, get_send_rate, get_recv_rate,
}
use rabbitmq_perf_test.Scenario.Counters.Intervals.{total, counted, opened, intervals, left_open}
use rabbitmq_perf_test.Scenario.Counters.Laws.{get_send_rate-handle_all}
use rabbitmq_perf_test.Scenario.Counters.Samples.{rate_over, time_series-run_results}
use rabbitmq_perf_test.Base.Result.{ok}
use rabbitmq_perf_test.Js.Value.Read.{read}
use rabbitmq_perf_test.Perf.Drawing.{attr_is}
use rabbitmq_perf_test.Perf.Time.{time_series}
use rabbitmq_perf_test.Perf.Time.Laws.{expected_line, rates, rates_and_latency}
use rabbitmq_perf_test.Tests.Html.{Attributes, html, html-IsLawful}
use rabbitmq_perf_test.Tests.Fixed.{fixed, unit}

abbrev second : ℕ
second = 1_000_000_000

abbrev double : ℕ → fixed.Num
double n = some (n * unit)

-- Six reports, the last one over two messages, and a message in the open interval.
abbrev events : List (ℕ × Event)
events =
    (second, send)
    ∷ (2 * second, send)
    ∷ (3 * second, recv 5000)
    ∷ (4 * second, confirm 7)
    ∷ (4 * second + 5, send)
    ∷ (5 * second, send)
    ∷ (7 * second, send)
    ∷ (7 * second + 1, send)
    ∷ []

six :
    (length (intervals second events (opened 0)) ≡ 6)
    × ((left_open second events (opened 0)).sends ≡ 1)
unfolding intervals left_open
six = (refl, refl)

get_send_rate-handle_all_example :
    let s = handle_all fixed double second events (started 0 100) in
    let is = intervals second events (opened 0) in
    let o = left_open second events (opened 0) in
    let elapsed = total (λ i. i.elapsed) (counted is) % wrap in
    (length s.samples ≡ length is)
    × (get_send_rate fixed double s
        ≡ rate fixed double ((total (λ i. i.sends) (counted is) + o.sends) % wrap) elapsed)
    × (get_recv_rate fixed double s
        ≡ rate fixed double ((total (λ i. i.recvs) (counted is) + o.recvs) % wrap) elapsed)
get_send_rate-handle_all_example = get_send_rate-handle_all fixed double second events 0 100

abbrev chart_element : Attributes
chart_element = ("class", "chart") ∷ ("data-type", "time") ∷ ("data-latency", "true") ∷ []

time_series-run_results_example :
    let s = handle_all fixed double second events (started 0 100) in
    let is = intervals second events (opened 0) in
    (time_series (html [] []) chart_element (run_results fixed double s)
      ≡ ok (
          map (expected_line (html [] []) s.samples) (
            if attr_is (html [] []) chart_element "data-latency" "true"
            then rates_and_latency (html [] [])
            else rates (html [] []))))
    × (map (λ v. read v "send-msg-rate") s.samples
        ≡ map (λ i. rate_over fixed double second (i.sends % wrap) i.elapsed) is)
    × (map (λ v. read v "recv-msg-rate") s.samples
        ≡ map (λ i. rate_over fixed double second (i.recvs % wrap) i.elapsed) is)
time_series-run_results_example =
    time_series-run_results fixed double second (html [] []) (html-IsLawful [] []) events 0 100
      chart_element

latency_fields-recv_all_example :
    (low mean high : ℕ) × (latency_fields fixed double
        (recv_all (9000 ∷ 2000 ∷ 5500 ∷ []) (reset 3 (started {N = fixed} 0 100)))
      ≡ field "avg-latency"
          (num (double mean))
          (field "min-latency" (num (double low)) (field "max-latency" (num (double high)) end)))
    × (low ≤ mean)
    × (mean ≤ high)
latency_fields-recv_all_example =
    latency_fields-recv_all double 3 9000 (2000 ∷ 5500 ∷ []) (started 0 100) (omega arith)
      (omega arith)
