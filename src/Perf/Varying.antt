-- ===== src/Perf/Varying.antt =====
-- The charts of a scenario that varies parameters: `plot_series`, `plot_x_y` and `plot_r_l`.
pub mod Reads
pub mod Grid
pub mod Lines
use rabbitmq_perf_test.Base.{
  ◌<>◌, String, Bool, Option, none, some, List, [], ◌∷◌, is_some, if◌then◌else◌,
}
use rabbitmq_perf_test.Base.Result.{Result, ok, traverse, ◌>>=◌}
use rabbitmq_perf_test.Base.Text.{shown, split, index_of}
use rabbitmq_perf_test.Js.Number.{Number}
use rabbitmq_perf_test.Js.Value.{Value, get, index, to_string, loose_eq}
use rabbitmq_perf_test.Perf.JQuery.{JQuery}
use rabbitmq_perf_test.Perf.Drawing.{Series, axes, Settings, Run, done, with_value, attr_or_default}
use rabbitmq_perf_test.Perf.Ticks.{axes_rate_and_latency, axes_rate_and_bytes}
use rabbitmq_perf_test.Perf.Options.{plot_data}

module _ {N : Number} (J : JQuery N) where
  -- `v[a][b]`
  unfoldable pub get_in : Value N → Value N → String → Result (Value N)
  get_in v a b = get v (to_string a) >>= λ w. get w b

  -- `[x_val, val[plot_key]]` of `plot_series`
  unfoldable pub series_point :
      Bool → String → Value N → Value N → Value N → Result (Value N × Value N)
  unfolding get_in
  series_point series_first plot_key results s_val x_val = do
    val ←
        if series_first
        then get_in results s_val (to_string x_val)
        else get_in results x_val (to_string s_val)
    y ← get val plot_key
    ok (x_val, y)

  -- One round of the loop over the series.
  unfoldable pub series_line :
      Bool → String → Option String → Value N → Value N → Value N → Result (Series N)
  unfolding series_point
  series_line series_first plot_key series_key x_values results s_val = do
    rounds ← J.each x_values
    d ← traverse (series_point series_first plot_key results s_val) rounds
    ok (record { label = shown series_key <> (" = " <> to_string s_val); points = d; yaxis = none })

  unfoldable pub series_chart : J.Div → Value N → Value N → Value N → Result (List (Series N))
  unfolding series_line attr_or_default
  series_chart div dimensions dimension_values results = do
    let x_key = J.attr div "data-x-key"
    let series_key = J.attr div "data-series-key"
    first ← index dimensions 0
    let series_first = loose_eq first series_key
    series_values ← get dimension_values (shown series_key)
    x_values ← get dimension_values (shown x_key)
    let plot_key = attr_or_default J div "plot-key" "send-msg-rate"
    rounds ← J.each series_values
    traverse (series_line series_first plot_key series_key x_values results) rounds

  unfoldable pub plot_series : J.Div → Value N → Value N → Value N → Run J
  unfolding series_chart
  plot_series div dimensions dimension_values results =
      with_value (series_chart div dimensions dimension_values results)
        λ chart_data. done (plot_data J div chart_data none)

  -- `[x_val, data[x_val][plot_key]]`
  unfoldable pub x_y_point : Value N → String → Value N → Result (Value N × Value N)
  unfolding get_in
  x_y_point results plot_key x_val = get_in results x_val plot_key >>= λ y. ok (x_val, y)

  -- The points of one key over all values of x.
  unfoldable pub x_y_points : Value N → Value N → String → Result (List (Value N × Value N))
  unfolding x_y_point
  x_y_points x_values results plot_key =
      J.each x_values >>= λ rounds. traverse (x_y_point results plot_key) rounds

  -- The loop over the keys, with `extra` as it stands before the round.
  unfoldable pub x_y_loop :
      Value N → Value N → List String → Settings N → Result (List (Series N) × Settings N)
  unfolding x_y_points
  x_y_loop x_values results [] extra = ok ([], extra)
  x_y_loop x_values results (plot_key ∷ keys) extra = do
    d ← x_y_points x_values results plot_key
    let bytes = is_some (index_of "bytes" plot_key)
    (lines, final) ←
        x_y_loop x_values results keys
          (if bytes then ("yaxes", axes (axes_rate_and_bytes N)) ∷ [] else extra)
    ok (
      record { label = plot_key; points = d; yaxis = some (if bytes then 2 else 1) } ∷ lines,
      final,
    )

  unfoldable pub x_y_chart : J.Div → Value N → Value N → Result (List (Series N) × Settings N)
  unfolding x_y_loop attr_or_default
  x_y_chart div dimension_values results = do
    x_values ← get dimension_values (shown (J.attr div "data-x-key"))
    x_y_loop x_values results (split b' ' (attr_or_default J div "plot-keys" "send-msg-rate")) []

  unfoldable pub plot_x_y : J.Div → Value N → Value N → Value N → Run J
  unfolding x_y_chart
  plot_x_y div dimensions dimension_values results =
      with_value (x_y_chart div dimension_values results)
        λ (chart_data, extra). done (plot_data J div chart_data (some extra))

  unfoldable pub r_l_chart : Value N → Value N → Result (List (Series N))
  unfolding x_y_points
  r_l_chart dimension_values results = do
    x_values ← get dimension_values "producerRateLimit"
    rates ← x_y_points x_values results "send-msg-rate"
    latencies ← x_y_points x_values results "avg-latency"
    ok (
        record { label = "rate achieved"; points = rates; yaxis = some 1 }
        ∷ record { label = "latency (us)"; points = latencies; yaxis = some 2 }
        ∷ [])

  unfoldable pub plot_r_l : J.Div → Value N → Value N → Value N → Run J
  unfolding r_l_chart
  plot_r_l div dimensions dimension_values results =
      with_value (r_l_chart dimension_values results) λ chart_data.
        done (plot_data J div chart_data (some (("yaxes", axes (axes_rate_and_latency N)) ∷ [])))
