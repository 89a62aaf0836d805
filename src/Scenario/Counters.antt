-- ===== src/Scenario/Counters.antt =====
-- The counters of a run: com.rabbitmq.perf.Stats and SimpleScenarioStats. The handlers are called
-- one after another, each with the time that `System.nanoTime` gives it, so that no report finds
-- another one under way. Histograms and gauges are left out.
pub mod Intervals
pub mod Laws
pub mod Samples
pub mod Latency
use rabbitmq_perf_test.Base.{
  ℕ, ◌+◌, ◌-◌, ◌*◌, ◌/◌, ◌%◌, Bool, not, Option, none, some, List, [], ◌∷◌, ◌++◌, length, ltb, ◌==◌,
  if◌then◌else◌,
}
use rabbitmq_perf_test.Java.{wrap, half, add_long, sub_long, neg_long, lt_long, div_long}
use rabbitmq_perf_test.Js.Number.{Number, of_ℕ}
use rabbitmq_perf_test.Js.Value.{Value, num, arr, obj, Fields, end, field, of_list}

pub data Event : Type 0 where
  send return_back : Event
  confirm nack : (count : ℕ) → Event
  recv : (latency : ℕ) → Event

abbrev pub ignore_first : ℕ
ignore_first = 3

pub record Stats (N : Number) : Type 0 where
  pub last_stats_time : ℕ
  pub send_count_interval : ℕ
  pub return_count_interval : ℕ
  pub confirm_count_interval : ℕ
  pub nack_count_interval : ℕ
  pub recv_count_interval : ℕ
  pub send_count_total : ℕ
  pub recv_count_total : ℕ
  pub latency_count_interval : ℕ
  pub latency_count_total : ℕ
  pub min_latency : ℕ
  pub max_latency : ℕ
  pub cumulative_latency_interval : ℕ
  pub cumulative_latency_total : ℕ
  pub elapsed_interval : ℕ
  pub elapsed_total : ℕ
  pub samples : List (Value N)
  pub elapsed_total_to_ignore : ℕ
  pub min_msg_size : ℕ

abbrev pub average : ℕ → ℕ → ℕ
average total n = div_long total (1000 * n % wrap)

module _ {N : Number} where
  -- `Stats.reset`
  unfoldable pub reset : ℕ → Stats N → Stats N
  reset t s = record s {
    last_stats_time = t;
    send_count_interval = 0;
    return_count_interval = 0;
    confirm_count_interval = 0;
    nack_count_interval = 0;
    recv_count_interval = 0;
    min_latency = half - 1;
    max_latency = half;
    latency_count_interval = 0;
    cumulative_latency_interval = 0;
  }

  -- A new object at the time `t`, after `setup`.
  unfoldable pub started : (t size : ℕ) → Stats N
  unfolding reset
  started t size = reset t (record {
    last_stats_time = 0;
    send_count_interval = 0;
    return_count_interval = 0;
    confirm_count_interval = 0;
    nack_count_interval = 0;
    recv_count_interval = 0;
    send_count_total = 0;
    recv_count_total = 0;
    latency_count_interval = 0;
    latency_count_total = 0;
    min_latency = 0;
    max_latency = 0;
    cumulative_latency_interval = 0;
    cumulative_latency_total = 0;
    elapsed_interval = 0;
    elapsed_total = 0;
    samples = [];
    elapsed_total_to_ignore = 0;
    min_msg_size = size;
  })

  -- The counters that a handler changes before it reports.
  unfoldable pub count : Event → Stats N → Stats N
  count send s = record s {
    send_count_interval = add_long s.send_count_interval 1;
    send_count_total = add_long s.send_count_total 1;
  }
  count return_back s = record s { return_count_interval = add_long s.return_count_interval 1 }
  count (confirm n) s = record s { confirm_count_interval = add_long s.confirm_count_interval n }
  count (nack n) s = record s { nack_count_interval = add_long s.nack_count_interval n }
  count (recv latency) s =
      let counted = record s {
        recv_count_interval = add_long s.recv_count_interval 1;
        recv_count_total = add_long s.recv_count_total 1;
      } in
      if lt_long latency 0 then counted else record counted {
        min_latency = if lt_long latency s.min_latency then latency else s.min_latency;
        max_latency = if lt_long s.max_latency latency then latency else s.max_latency;
        cumulative_latency_interval = add_long s.cumulative_latency_interval latency;
        cumulative_latency_total = add_long s.cumulative_latency_total latency;
        latency_count_interval = add_long s.latency_count_interval 1;
        latency_count_total = add_long s.latency_count_total 1;
      }

-- `double` is the conversion of a `long`.
module _ (N : Number) (double : ℕ → N.Num) where
  -- `rate`, of an elapsed time that it takes to be in milliseconds.
  unfoldable pub rate : ℕ → ℕ → N.Num
  rate n elapsed =
      if elapsed == 0 then of_ℕ N 0 else N.mul (of_ℕ N 1000) (N.div (double n) (double elapsed))

  -- The properties of a latency, where one was measured.
  abbrev pub latency_fields : Stats N → Fields N
  latency_fields s =
      if lt_long 0 s.latency_count_interval
      then field "avg-latency"
          (num (double (average s.cumulative_latency_interval s.latency_count_interval)))
          (field "min-latency" (num (double (div_long s.min_latency 1000)))
            (field "max-latency" (num (double (div_long s.max_latency 1000))) end))
      else end

  unfoldable pub sample_of : Stats N → Value N
  unfolding rate
  sample_of s =
      let elapsed_time = s.elapsed_interval / 1_000_000 in
      let sends = rate s.send_count_interval elapsed_time in
      let recvs = rate s.recv_count_interval elapsed_time in
      obj (
        field "send-msg-rate" (num sends) (
          field "send-bytes-rate" (num (N.mul sends (double s.min_msg_size))) (
            field "recv-msg-rate" (num recvs) (
              field "recv-bytes-rate" (num (N.mul recvs (double s.min_msg_size))) (
                field "elapsed" (num (double (div_long s.elapsed_total 1_000_000)))
                  (latency_fields s))))))

  -- `SimpleScenarioStats.report`
  unfoldable pub report_sample : Stats N → Stats N
  unfolding sample_of
  report_sample s =
      let cleared = record s {
        cumulative_latency_total = 0;
        latency_count_total = 0;
        send_count_total = 0;
        recv_count_total = 0;
        elapsed_total_to_ignore = s.elapsed_total;
      } in
      let t = if length s.samples == ignore_first then cleared else s in
      record t { samples = t.samples ++ sample_of t ∷ [] }

  abbrev pub overall_average_latency : Stats N → ℕ
  overall_average_latency s = average s.cumulative_latency_total s.latency_count_total

  unfoldable pub get_send_rate : Stats N → N.Num
  unfolding rate
  get_send_rate s = rate s.send_count_total (sub_long s.elapsed_total s.elapsed_total_to_ignore)

  unfoldable pub get_recv_rate : Stats N → N.Num
  unfolding rate
  get_recv_rate s = rate s.recv_count_total (sub_long s.elapsed_total s.elapsed_total_to_ignore)

  -- `SimpleScenarioStats.results`
  unfoldable pub run_results : Stats N → Value N
  unfolding get_send_rate get_recv_rate
  run_results s =
      let samples = field "samples" (arr (of_list s.samples)) end in
      obj (
        field "send-msg-rate" (num (get_send_rate s)) (
          field "send-bytes-rate" (num (N.mul (get_send_rate s) (double s.min_msg_size))) (
            field "recv-msg-rate" (num (get_recv_rate s)) (
              field "recv-bytes-rate" (num (N.mul (get_recv_rate s) (double s.min_msg_size))) (
                if lt_long 0 s.latency_count_total
                then field "avg-latency" (num (double (overall_average_latency s))) samples
                else samples)))))

  -- `interval` counts nanoseconds.
  module _ (interval : ℕ) where
    -- `Stats.report`, at the time `now`.
    unfoldable pub report : ℕ → Stats N → Stats N
    unfolding report_sample reset
    report now s =
        let timed = record s { elapsed_interval = sub_long now s.last_stats_time } in
        if lt_long timed.elapsed_interval interval
        then timed
        else reset now (
            report_sample
              (record timed { elapsed_total = add_long s.elapsed_total timed.elapsed_interval }))

    -- `handleSend`, `handleReturn`, `handleConfirm`, `handleNack` and `handleRecv`
    unfoldable pub handle : ℕ × Event → Stats N → Stats N
    unfolding report count
    handle (now, e) s = report now (count e s)

    unfoldable pub handle_all : List (ℕ × Event) → Stats N → Stats N
    unfolding handle
    handle_all [] s = s
    handle_all (e ∷ es) s = handle_all es (handle e s)
