-- ===== src/Tests/Scenarios.antt =====
-- Scenarios of two variables and of one, from their runs to their charts.
use text.Mathlib.TextEquality.{eq_iff}
use mathlib.Core.Logic.{◌≢◌}
use rabbitmq_perf_test.Base.{
  ◌≡◌, refl, String, true, none, some, [], ◌∷◌, map, arith, All, if◌then◌else◌,
}
use rabbitmq_perf_test.Base.Assoc.{find}
use rabbitmq_perf_test.Js.Value.{Value, num, str, obj, end, field, get}
use rabbitmq_perf_test.Js.Value.Read.{has_properties}
use rabbitmq_perf_test.Perf.Drawing.{axes, done, attr_or_default}
use rabbitmq_perf_test.Perf.JQuery.{JQuery}
use rabbitmq_perf_test.Perf.Options.{plot_data}
use rabbitmq_perf_test.Perf.Varying.Grid.{entry_line}
use rabbitmq_perf_test.Perf.Page.{plot0}
use rabbitmq_perf_test.Scenario.Runs.{Key, run}
use rabbitmq_perf_test.Scenario.Results.{data_tree, results, dimension_lists}
use rabbitmq_perf_test.Scenario.Results.Values.{distinct, grid, find-dimension_lists}
use rabbitmq_perf_test.Scenario.Results.Tree.{KeyPresent, entries, KeyPresent-data_tree}
use rabbitmq_perf_test.Scenario.Results.Charted.{written_scenario, written_data, plot0-results}
use rabbitmq_perf_test.Scenario.Results.Single.{
  line_scenario, line_data, charted, plot0-x_y_results, plot0-r_l_results,
}
use rabbitmq_perf_test.Base.Text.{split}
use rabbitmq_perf_test.Perf.Ticks.{axes_rate_and_latency}
use rabbitmq_perf_test.Perf.Varying.Lines.{value_line, value_point, any_bytes, bytes_axes}
use rabbitmq_perf_test.Tests.Fixed.{fixed}
use rabbitmq_perf_test.Tests.Html.{Attributes, html, html-IsLawful}

java : Unit {0}
unfolding get find results run data_tree dimension_lists distinct attr_or_default
java = tt

abbrev one_rate : Key → Value fixed
one_rate k = obj (field "send-msg-rate" (num (some 7)) end)

one_rate_fine : (k : Key) → has_properties (one_rate k) ≡ true
one_rate_fine k = refl

names_differ : ◌≢◌ {A = String} "minMsgSize" "producerCount"
names_differ = ground (arith, eq_iff "minMsgSize" "producerCount")

abbrev chart_element : Attributes
chart_element =
    ("class", "chart")
    ∷ ("data-type", "series")
    ∷ ("data-scenario", "sizes")
    ∷ ("data-x-key", "producerCount")
    ∷ ("data-series-key", "minMsgSize")
    ∷ []

abbrev empty_page : JQuery fixed
empty_page = html [] []

-- A size that is listed twice is charted once.
abbrev written : Value fixed
written =
    written_scenario "minMsgSize" "producerCount" "0" "1" ("1000" ∷ "0" ∷ []) ("2" ∷ [])
      names_differ one_rate one_rate_fine

plot0-results_example :
    plot0 empty_page chart_element (obj (field "sizes" written end))
    ≡ done (
        plot_data empty_page chart_element
          (map
            (entry_line empty_page true "send-msg-rate"
              (some "minMsgSize")
              (str "1" ∷ str "2" ∷ [])
              (written_data "minMsgSize" "producerCount" "0" "1"
                ("1000" ∷ "0" ∷ [])
                ("2" ∷ [])
                names_differ
                one_rate
                one_rate_fine))
            (str "0" ∷ str "1000" ∷ []))
          none)
unfolding java
plot0-results_example =
    plot0-results "minMsgSize" "producerCount" "0" "1" ("1000" ∷ "0" ∷ []) ("2" ∷ []) names_differ
      one_rate one_rate_fine empty_page (html-IsLawful [] []) chart_element refl refl written
      (obj (field "sizes" written end)) refl refl refl

dimension_lists_run :
    (find "minMsgSize"
        (dimension_lists (grid "minMsgSize" "producerCount" ("0" ∷ "0" ∷ []) ("1" ∷ [])) [])
      ≡ some ("0" ∷ []))
    × (find "producerCount"
          (dimension_lists (grid "minMsgSize" "producerCount" ("0" ∷ "0" ∷ []) ("1" ∷ [])) [])
        ≡ some ("1" ∷ []))
unfolding java
dimension_lists_run =
    find-dimension_lists "minMsgSize" "producerCount" names_differ "0" ("0" ∷ []) "1" []

data_tree_run :
    All
      (KeyPresent (data_tree (entries one_rate (grid "a" "b" ("0" ∷ "5" ∷ []) ("1" ∷ []))) end))
      (grid "a" "b" ("0" ∷ "5" ∷ []) ("1" ∷ []))
data_tree_run =
    KeyPresent-data_tree one_rate one_rate_fine (grid "a" "b" ("0" ∷ "5" ∷ []) ("1" ∷ [])) end
      (tt, (tt, tt))

abbrev x_y_element : Attributes
x_y_element =
    ("class", "chart")
    ∷ ("data-type", "x-y")
    ∷ ("data-scenario", "sizes")
    ∷ ("data-x-key", "minMsgSize")
    ∷ ("data-plot-keys", "send-msg-rate send-bytes-rate")
    ∷ []

abbrev sizes_line : Value fixed
sizes_line = line_scenario one_rate one_rate_fine "minMsgSize" "0" ("1000" ∷ "0" ∷ [])

plot0-x_y_results_example :
    let keys = split b' ' (attr_or_default empty_page x_y_element "plot-keys" "send-msg-rate") in
    plot0 empty_page x_y_element (obj (field "sizes" sizes_line end))
    ≡ done (
        plot_data empty_page x_y_element
          (map
            (value_line empty_page
              (charted one_rate one_rate_fine "minMsgSize" "0" ("1000" ∷ "0" ∷ []))
              (line_data one_rate one_rate_fine "minMsgSize" "0" ("1000" ∷ "0" ∷ [])))
            keys)
          (some (if any_bytes keys then bytes_axes empty_page else [])))
unfolding java
plot0-x_y_results_example =
    plot0-x_y_results one_rate one_rate_fine "minMsgSize" "0" ("1000" ∷ "0" ∷ []) empty_page
      (html-IsLawful [] []) x_y_element sizes_line (obj (field "sizes" sizes_line end)) refl refl
      refl refl

abbrev r_l_element : Attributes
r_l_element = ("class", "chart") ∷ ("data-type", "r-l") ∷ ("data-scenario", "limits") ∷ []

abbrev limits_line : Value fixed
limits_line = line_scenario one_rate one_rate_fine "producerRateLimit" "20" ("40" ∷ [])

plot0-r_l_results_example :
    let limits = charted one_rate one_rate_fine "producerRateLimit" "20" ("40" ∷ []) in
    let data_of = line_data one_rate one_rate_fine "producerRateLimit" "20" ("40" ∷ []) in
    plot0 empty_page r_l_element (obj (field "limits" limits_line end))
    ≡ done (
        plot_data empty_page r_l_element
          (record {
            label = "rate achieved";
            points = map (value_point empty_page data_of "send-msg-rate") limits;
            yaxis = some 1;
          }
            ∷ record {
              label = "latency (us)";
              points = map (value_point empty_page data_of "avg-latency") limits;
              yaxis = some 2;
            }
            ∷ [])
          (some (("yaxes", axes (axes_rate_and_latency fixed)) ∷ [])))
unfolding java
plot0-r_l_results_example =
    plot0-r_l_results one_rate one_rate_fine "20" ("40" ∷ []) empty_page (html-IsLawful [] [])
      r_l_element limits_line (obj (field "limits" limits_line end)) refl refl refl
