-- ===== src/Tests/Pages.antt =====
-- Whole pages: tests, and the theorems at them.
use rabbitmq_perf_test.Base.{
  ℕ, suc, ◌*◌, ◌≡◌, ◌<>◌, refl, false, Option, none, some, List, [], ◌∷◌, ◌++◌, arith,
}
use rabbitmq_perf_test.Base.Result.{type_error, traverse}
use rabbitmq_perf_test.Base.Text.{split, index_of, join, split-join}
use rabbitmq_perf_test.Base.Assoc.{find, put, put_all}
use rabbitmq_perf_test.Js.Value.{undefined, obj, end, get, index, add, to_number, to_string}
use rabbitmq_perf_test.Js.Value.Read.{read}
use rabbitmq_perf_test.Perf.JQuery.{JQuery}
use rabbitmq_perf_test.Perf.Drawing.{
  append, alert, done, failed, attr_or_default, for_each, axes, Settings, legend_show,
}
use rabbitmq_perf_test.Perf.Ticks.{log_ticks, log_x_axis, axes_rate_and_latency}
use rabbitmq_perf_test.Perf.Ticks.Laws.{IsDecades, log_ticks-IsDecades, log_ticks-none}
use rabbitmq_perf_test.Perf.Options.{chrome, default_chrome, plot_data, table}
use rabbitmq_perf_test.Perf.Options.Laws.{plots, plots-plot_data, find-chrome}
use rabbitmq_perf_test.Perf.Time.{plot_time}
use rabbitmq_perf_test.Perf.Summary.{summarise}
use rabbitmq_perf_test.Perf.Summary.Rates.{mode_rate, summarise_lem, summarise-throw}
use rabbitmq_perf_test.Perf.Page.{plot0, plot, render_graphs, on_success, on_fail}
use rabbitmq_perf_test.Perf.Page.Draws.{DrawsOr, elements, plot-DrawsOr}
use rabbitmq_perf_test.Perf.Page.Order.{calls_of, render_graphs-done, render_graphs-stopped}
use rabbitmq_perf_test.Examples.PublishConsume.{publish_consume, consume}
use rabbitmq_perf_test.Tests.Fixed.{fixed, unit, fixed-IsOrdered, write, read_digits}
use rabbitmq_perf_test.Tests.Html.{Attributes, html, html_select}

browser : Unit {0}
unfolding get index add to_number to_string read find put put_all split index_of write read_digits
    traverse attr_or_default for_each html_select summarise plot_time plot_data chrome
    default_chrome plot0 plot render_graphs on_success log_ticks table log_x_axis
    axes_rate_and_latency
browser = tt

abbrev units : ℕ → Option ℕ
units n = fixed.decimal n 0

-- The ticks of an axis from 1 to 5000.
ticks_test :
    log_ticks fixed 9 (units 1) (units 5000)
    ≡ some (units 1 ∷ units 10 ∷ units 100 ∷ units 1000 ∷ units 10000 ∷ [])
unfolding browser
ticks_test = refl

log_ticks-IsDecades_example :
    (more : List (Option ℕ)) × (log_ticks fixed (suc (5000 * unit)) (units 1) (units 5000)
      ≡ some (units 1 ∷ more))
    × IsDecades fixed (units 5000) (units 1) more
log_ticks-IsDecades_example =
    log_ticks-IsDecades fixed fixed-IsOrdered (5000 * unit) (units 1) (units 5000) refl
      (omega arith)

log_ticks-none_example : log_ticks fixed 50 (units 0) (units 5000) ≡ none
log_ticks-none_example = log_ticks-none fixed (units 0) (units 5000) refl refl 50

-- sample.html with a summary behind its chart.
abbrev time_element : Attributes
time_element =
    ("class", "chart")
    ∷ ("data-type", "time")
    ∷ ("data-latency", "true")
    ∷ ("data-y-axis", "rate (msg/s)")
    ∷ ("data-scenario", "consume")
    ∷ []

abbrev summary_element : Attributes
summary_element = ("class", "summary") ∷ ("data-mode", "recv") ∷ ("data-scenario", "consume") ∷ []

-- A chart of a scenario that the results do not have.
abbrev lost_element : Attributes
lost_element = ("class", "small-chart") ∷ ("data-type", "x-y") ∷ ("data-scenario", "lost") ∷ []

abbrev good_page : JQuery fixed
good_page = html (time_element ∷ summary_element ∷ []) []

abbrev bad_page : JQuery fixed
bad_page = html (time_element ∷ lost_element ∷ time_element ∷ summary_element ∷ []) []

-- The received messages of the example, 81773.03846153847 a second, as the page shows them.
summarise_test :
    (summarise good_page summary_element (publish_consume fixed)).calls
    ≡ append summary_element "<strong>81773</strong>msg/s" ∷ []
unfolding browser
summarise_test = refl

summary_rate_run :
    summarise good_page summary_element (publish_consume fixed)
    ≡ done (
        append summary_element (
          "<strong>"
          <> (fixed.to_string (
                mode_rate good_page summary_element
                  (fixed.decimal 40820692307692305 12)
                  (fixed.decimal 8177303846153847 11))
              <> "</strong>msg/s"))
        ∷ [])
unfolding browser
summary_rate_run =
    summarise_lem good_page summary_element (publish_consume fixed) (consume fixed)
      (fixed.decimal 40820692307692305 12) (fixed.decimal 8177303846153847 11) refl refl refl

summarise_run : summarise good_page summary_element (obj end) ≡ failed type_error
unfolding browser
summarise_run = summarise-throw good_page summary_element (obj end) undefined refl refl

plot_run : DrawsOr (lost_element ∷ []) (plot bad_page lost_element (publish_consume fixed))
unfolding browser
plot_run = plot-DrawsOr bad_page lost_element (publish_consume fixed)

render_graphs-done_example :
    (render_graphs good_page (publish_consume fixed) none
      ≡ done (
          calls_of (λ div. plot good_page div (publish_consume fixed)) (time_element ∷ [])
          ++ calls_of
              (λ div. summarise good_page div (publish_consume fixed))
              (summary_element ∷ [])))
    × (elements good_page
          (plots good_page (render_graphs good_page (publish_consume fixed) none).calls)
        ≡ time_element ∷ [])
unfolding browser
render_graphs-done_example =
    render_graphs-done good_page (publish_consume fixed) none (refl, tt) (refl, tt)

render_graphs-stopped_example : render_graphs bad_page (publish_consume fixed) none ≡ record {
  calls = calls_of (λ div. plot bad_page div (publish_consume fixed)) (time_element ∷ []);
  error = some type_error;
}
unfolding browser
render_graphs-stopped_example =
    render_graphs-stopped bad_page (publish_consume fixed) none (time_element ∷ [])
      (time_element ∷ []) lost_element type_error refl (refl, tt) refl

-- The options of a small chart with a logarithmic x axis, and with the axes for latency.
abbrev small_element : Attributes
small_element = ("class", "small-chart") ∷ ("data-x-axis-log", "true") ∷ []

abbrev latency_axes : Settings fixed
latency_axes = ("yaxes", axes (axes_rate_and_latency fixed)) ∷ []

chrome_run :
    find "legend" (chrome good_page small_element (some latency_axes)) ≡ some (legend_show false)
unfolding browser
chrome_run = find-chrome good_page "legend" small_element latency_axes (refl, tt)

plot_data_run :
    plots good_page (plot_data good_page small_element [] (some latency_axes))
    ≡ (small_element, [], chrome good_page small_element (some latency_axes)) ∷ []
plot_data_run = plots-plot_data good_page small_element [] (some latency_axes)

-- The answer to a request draws the chart; a file that is not there is only told.
abbrev filed : Attributes
filed =
    ("class", "chart")
    ∷ ("data-type", "time")
    ∷ ("data-scenario", "consume")
    ∷ ("data-file", "a.js")
    ∷ []

abbrev waiting_page : JQuery fixed
waiting_page = html (filed ∷ []) (("A", publish_consume fixed) ∷ [])

answer_test :
    (elements waiting_page (plots waiting_page (on_success waiting_page filed "A").calls)
      ≡ filed ∷ [])
    × (on_fail waiting_page "a.js" ≡ done (alert "error loading a.js" ∷ []))
unfolding browser on_fail
answer_test = (refl, refl)

split_run :
    split b' ' (join " " ("send-msg-rate" ∷ "avg-latency" ∷ []))
    ≡ "send-msg-rate" ∷ "avg-latency" ∷ []
unfolding browser
split_run = split-join " " ("send-msg-rate" ∷ "avg-latency" ∷ []) (λ e. cc) (omega arith)
