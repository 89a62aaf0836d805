-- ===== src/Perf/Page.antt =====
-- `render_graphs`, `plot` and `plot0`: which chart an element gets, and the charts of a page.
pub mod Draws
pub mod Order
use rabbitmq_perf_test.Base.{◌<>◌, String, Option, none, some, [], ◌∷◌, if◌then◌else◌}
use rabbitmq_perf_test.Base.Result.{Result, ok, ◌>>=◌}
use rabbitmq_perf_test.Base.Text.{shown}
use rabbitmq_perf_test.Js.Number.{Number}
use rabbitmq_perf_test.Js.Value.{Value, get}
use rabbitmq_perf_test.Perf.JQuery.{JQuery}
use rabbitmq_perf_test.Perf.Drawing.{
  ajax, alert, Run, done, and_then, with_value, for_each, attr_is,
}
use rabbitmq_perf_test.Perf.Time.{plot_time}
use rabbitmq_perf_test.Perf.Varying.{plot_series, plot_x_y, plot_r_l}
use rabbitmq_perf_test.Perf.Summary.{summarise}

module _ {N : Number} (J : JQuery N) where
  -- The three properties that `plot0` reads of a scenario.
  unfoldable pub scenario_parts : J.Div → Value N → Result (Value N × Value N × Value N)
  scenario_parts div results = do
    let scenario = shown (J.attr div "data-scenario")
    dimensions ← get results scenario >>= λ s. get s "dimensions"
    dimension_values ← get results scenario >>= λ s. get s "dimension-values"
    values ← get results scenario >>= λ s. get s "data"
    ok (dimensions, dimension_values, values)

  -- The chart of a scenario that varies parameters; of an unknown type there is none.
  unfoldable pub plot_varying : J.Div → Value N → Value N → Value N → Run J
  plot_varying div dimensions dimension_values values =
      if attr_is J div "data-type" "series"
      then plot_series J div dimensions dimension_values values
      else if attr_is J div "data-type" "x-y"
      then plot_x_y J div dimensions dimension_values values
      else if attr_is J div "data-type" "r-l"
      then plot_r_l J div dimensions dimension_values values
      else done []

  unfoldable pub plot0 : J.Div → Value N → Run J
  unfolding plot_varying scenario_parts
  plot0 div results =
      if attr_is J div "data-type" "time"
      then with_value (get results (shown (J.attr div "data-scenario"))) (plot_time J div)
      else with_value (scenario_parts div results) λ (dimensions, dimension_values, values).
        plot_varying div dimensions dimension_values values

  -- With a `data-file` the chart waits for the answer to a request.
  unfoldable pub plot : J.Div → Value N → Run J
  unfolding plot0
  plot div results = elim (J.attr div "data-file") [
    | none ↦ plot0 div results
    | some file ↦ done (ajax div file ∷ [])
  ]

  -- The handlers `success` and `fail` of the request.
  unfoldable pub on_success : J.Div → String → Run J
  unfolding plot0
  on_success div answer = with_value (J.parse answer) (plot0 div)

  unfoldable pub on_fail : String → Run J
  on_fail file = done (alert ("error loading " <> file) ∷ [])

  unfoldable pub render_graphs : Value N → Option J.Node → Run J
  unfolding plot
  render_graphs results parent =
      and_then (for_each (λ div. plot div results) (J.find parent ".chart, .small-chart"))
        (for_each (λ div. summarise J div results) (J.find parent ".summary"))
