-- ===== src/Perf/Time.antt =====
-- `plot_time`: rates, and the latency on request, over the elapsed time.
pub mod Laws
use rabbitmq_perf_test.Base.{String, some, List, [], ◌∷◌, is_some, if◌then◌else◌}
use rabbitmq_perf_test.Base.Result.{Result, ok, traverse, ◌>>=◌}
use rabbitmq_perf_test.Base.Text.{index_of}
use rabbitmq_perf_test.Js.Number.{Number, of_ℕ}
use rabbitmq_perf_test.Js.Value.{Value, num, get, to_number}
use rabbitmq_perf_test.Perf.JQuery.{JQuery}
use rabbitmq_perf_test.Perf.Drawing.{Series, axes, Run, done, with_value, attr_is}
use rabbitmq_perf_test.Perf.Ticks.{axes_rate_and_latency}
use rabbitmq_perf_test.Perf.Options.{plot_data}

module _ {N : Number} (J : JQuery N) where
  -- `keys`
  unfoldable pub time_keys : J.Div → List String
  time_keys div =
      if attr_is J div "data-latency" "true"
      then "send-msg-rate" ∷ "recv-msg-rate" ∷ "avg-latency" ∷ []
      else "send-msg-rate" ∷ "recv-msg-rate" ∷ []

  -- `[sample['elapsed'] / 1000, sample[plot_key]]`
  unfoldable pub time_point : String → Value N → Result (Value N × Value N)
  time_point plot_key sample = do
    elapsed ← get sample "elapsed"
    y ← get sample plot_key
    ok (num (N.div (to_number elapsed) (of_ℕ N 1000)), y)

  -- One round of the loop over the keys.
  unfoldable pub time_line : Value N → String → Result (Series N)
  unfolding time_point
  time_line results plot_key = do
    samples ← get results "samples"
    rounds ← J.each samples
    d ← traverse (time_point plot_key) rounds
    ok (record {
      label = plot_key;
      points = d;
      yaxis = some (if is_some (index_of "latency" plot_key) then 2 else 1);
    })

  unfoldable pub time_series : J.Div → Value N → Result (List (Series N))
  unfolding time_keys time_line
  time_series div results = traverse (time_line results) (time_keys div)

  unfoldable pub plot_time : J.Div → Value N → Run J
  unfolding time_series
  plot_time div results = with_value (time_series div results) λ chart_data.
      done (plot_data J div chart_data (some (("yaxes", axes (axes_rate_and_latency N)) ∷ [])))
