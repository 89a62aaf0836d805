-- ===== src/Tests/Charts.antt =====
-- The charts of html/examples, and of a small grid: tests, and the theorems at them.
use rabbitmq_perf_test.Base.{ℕ, ◌≡◌, refl, true, some, List, [], ◌∷◌, ◌++◌, map, if◌then◌else◌}
use rabbitmq_perf_test.Base.Result.{type_error, ok, throw, all, traverse}
use rabbitmq_perf_test.Base.Text.{split, index_of}
use rabbitmq_perf_test.Base.Assoc.{find}
use rabbitmq_perf_test.Js.Value.{
  Value, num, str, arr, obj, end, field, items, of_list, get, index, loose_eq, to_string,
}
use rabbitmq_perf_test.Js.Value.Read.{has_properties, read}
use rabbitmq_perf_test.Perf.JQuery.{JQuery}
use rabbitmq_perf_test.Perf.Drawing.{attr_or_default}
use rabbitmq_perf_test.Perf.Time.{time_series}
use rabbitmq_perf_test.Perf.Time.Laws.{expected_line, rates_and_latency, time_series_lem}
use rabbitmq_perf_test.Perf.Varying.{get_in, series_chart, x_y_chart, r_l_chart}
use rabbitmq_perf_test.Perf.Varying.Reads.{reaches}
use rabbitmq_perf_test.Perf.Varying.Grid.{
  has_entry, entry_line, series_chart_lem, series_chart_transposed,
}
use rabbitmq_perf_test.Perf.Varying.Lines.{
  value_line, value_point, bytes_axes, x_y_chart_lem, r_l_chart_lem,
}
use rabbitmq_perf_test.Examples.PublishConsume.{consume, consume_first, consume_rest}
use rabbitmq_perf_test.Examples.Sizes.{sizes_values, sizes_data}
use rabbitmq_perf_test.Tests.Fixed.{fixed, write, read_digits}
use rabbitmq_perf_test.Tests.Html.{Attributes, html, html-IsLawful}

javascript : Unit {0}
unfolding get index loose_eq to_string read find split index_of write read_digits traverse
    attr_or_default
javascript = tt

abbrev blank : JQuery fixed
blank = html [] []

-- The chart of sample.html.
abbrev sample_chart : Attributes
sample_chart =
    ("class", "chart")
    ∷ ("data-type", "time")
    ∷ ("data-latency", "true")
    ∷ ("data-x-axis", "time (s)")
    ∷ ("data-y-axis", "rate (msg/s)")
    ∷ ("data-y-axis2", "latency (μs)")
    ∷ ("data-scenario", "consume")
    ∷ []

time_series_lem_example : time_series blank sample_chart (consume fixed) ≡ (
    if all has_properties (items (of_list (consume_first fixed ++ consume_rest fixed)))
    then ok (
        map
          (expected_line blank (items (of_list (consume_first fixed ++ consume_rest fixed))))
          (rates_and_latency blank))
    else throw type_error)
unfolding javascript
time_series_lem_example =
    time_series_lem blank (html-IsLawful [] []) (consume fixed)
      (of_list (consume_first fixed ++ consume_rest fixed)) refl sample_chart

-- The chart "x-y" of various.html.
abbrev x_y_element : Attributes
x_y_element =
    ("class", "chart")
    ∷ ("data-type", "x-y")
    ∷ ("data-x-key", "minMsgSize")
    ∷ ("data-plot-keys", "send-msg-rate send-bytes-rate")
    ∷ ("data-legend", "ne")
    ∷ []

abbrev sizes : List (Value fixed)
sizes = str "5000" ∷ str "10000" ∷ str "50000" ∷ str "100000" ∷ str "500000" ∷ str "1000000" ∷ []

x_y_chart_lem_example : x_y_chart blank x_y_element (sizes_values fixed) (sizes_data fixed) ≡ (
    if all (reaches (sizes_data fixed)) sizes
    then ok (
      map (value_line blank sizes (sizes_data fixed)) ("send-msg-rate" ∷ "send-bytes-rate" ∷ []),
      bytes_axes blank,
    )
    else throw type_error)
unfolding javascript
x_y_chart_lem_example =
    x_y_chart_lem blank (html-IsLawful [] []) (of_list sizes) (sizes_data fixed) x_y_element
      (sizes_values fixed) refl

-- Every size of the example has its entry.
sizes_reached : all (reaches (sizes_data fixed)) sizes ≡ true
unfolding javascript
sizes_reached = refl

-- A grid of two dimensions, and its transpose.
abbrev rate : ℕ → Value fixed
rate n = obj (field "send-msg-rate" (num (some n)) end)

abbrev by_size : Value fixed
by_size = obj (
    field "0" (obj (field "1" (rate 10) (field "2" (rate 20) end)))
      (field "1000" (obj (field "1" (rate 30) (field "2" (rate 40) end))) end))

abbrev by_producers : Value fixed
by_producers = obj (
    field "1" (obj (field "0" (rate 10) (field "1000" (rate 30) end)))
      (field "2" (obj (field "0" (rate 20) (field "1000" (rate 40) end))) end))

abbrev two_sizes : List (Value fixed)
two_sizes = str "0" ∷ str "1000" ∷ []

abbrev two_producers : List (Value fixed)
two_producers = str "1" ∷ str "2" ∷ []

abbrev grid_values : Value fixed
grid_values = obj (
    field "minMsgSize" (arr (of_list two_sizes))
      (field "producerCount" (arr (of_list two_producers)) end))

abbrev sizes_first : Value fixed
sizes_first = arr (of_list (str "minMsgSize" ∷ str "producerCount" ∷ []))

abbrev producers_first : Value fixed
producers_first = arr (of_list (str "producerCount" ∷ str "minMsgSize" ∷ []))

abbrev series_element : Attributes
series_element =
    ("class", "chart")
    ∷ ("data-type", "series")
    ∷ ("data-x-key", "producerCount")
    ∷ ("data-series-key", "minMsgSize")
    ∷ []

series_chart_lem_example : series_chart blank series_element sizes_first grid_values by_size ≡ (
    if all (λ s. all (has_entry blank true by_size s) two_producers) two_sizes
    then ok (
        map
          (entry_line blank true "send-msg-rate" (some "minMsgSize") two_producers by_size)
          two_sizes)
    else throw type_error)
unfolding javascript
series_chart_lem_example =
    series_chart_lem blank (html-IsLawful [] []) (of_list two_producers) series_element sizes_first
      grid_values by_size (str "minMsgSize") (of_list two_sizes) refl refl refl

series_chart_transposed_example :
    series_chart blank series_element sizes_first grid_values by_size
    ≡ series_chart blank series_element producers_first grid_values by_producers
unfolding javascript get_in
series_chart_transposed_example =
    series_chart_transposed blank (html-IsLawful [] []) (of_list two_producers) series_element
      sizes_first producers_first grid_values by_size by_producers (str "minMsgSize")
      (str "producerCount") (of_list two_sizes) refl refl refl refl refl refl
      ((refl, (refl, tt)), ((refl, (refl, tt)), tt))

-- The rate limits of a scenario of type "r-l".
abbrev limited : ℕ → ℕ → Value fixed
limited r l = obj (field "send-msg-rate" (num (some r)) (field "avg-latency" (num (some l)) end))

abbrev limits : List (Value fixed)
limits = str "315" ∷ str "6317" ∷ []

abbrev limit_values : Value fixed
limit_values = obj (field "producerRateLimit" (arr (of_list limits)) end)

abbrev by_limit : Value fixed
by_limit = obj (field "315" (limited 314 524) (field "6317" (limited 6319 756) end))

r_l_chart_lem_example : r_l_chart blank limit_values by_limit ≡ (
    if all (reaches by_limit) limits
    then ok (
        record {
          label = "rate achieved";
          points = map (value_point blank by_limit "send-msg-rate") limits;
          yaxis = some 1;
        }
        ∷ record {
          label = "latency (us)";
          points = map (value_point blank by_limit "avg-latency") limits;
          yaxis = some 2;
        }
        ∷ [])
    else throw type_error)
unfolding javascript
r_l_chart_lem_example =
    r_l_chart_lem blank (html-IsLawful [] []) (of_list limits) by_limit limit_values refl
