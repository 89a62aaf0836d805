-- ===== src/Scenario/Results/Single.antt =====
-- A scenario of one variable, from its run to its chart.
use mathlib.Core.Option.{some-injective}
use text.Mathlib.TextPositions.{eq_refl}
use rabbitmq_perf_test.Base.{
  ◌≡◌, refl, sym, ap, ◌∙◌, String, true, false, some, List, [], ◌∷◌, map, if◌then◌else◌, All,
  All-imp,
}
use rabbitmq_perf_test.Base.Assoc.{find, find-put}
use rabbitmq_perf_test.Base.Result.{ok, all}
use rabbitmq_perf_test.Base.Text.{shown, split}
use rabbitmq_perf_test.Js.Number.{Number}
use rabbitmq_perf_test.Js.Value.{
  Value, str, obj, Fields, end, field, items, of_list, lookup, get, to_string,
}
use rabbitmq_perf_test.Js.Value.Read.{has_properties, read, items-of_list}
use rabbitmq_perf_test.Perf.JQuery.{JQuery, IsLawful}
use rabbitmq_perf_test.Perf.Drawing.{axes, done, attr_is, attr_or_default}
use rabbitmq_perf_test.Perf.Varying.{plot_x_y, plot_r_l}
use rabbitmq_perf_test.Perf.Varying.Reads.{reaches}
use rabbitmq_perf_test.Perf.Varying.Lines.{
  value_line, value_point, any_bytes, bytes_axes, x_y_chart_lem, r_l_chart_lem,
}
use rabbitmq_perf_test.Perf.Page.{scenario_parts, plot_varying, plot0}
use rabbitmq_perf_test.Perf.Options.{plot_data}
use rabbitmq_perf_test.Perf.Ticks.{axes_rate_and_latency}
use rabbitmq_perf_test.Scenario.Runs.{Variable, Key, value_of, run_values, run}
use rabbitmq_perf_test.Scenario.Results.{
  texts, value_fields, add_value, note_key, dimension_lists, store, data_tree, results,
}
use rabbitmq_perf_test.Scenario.Results.Values.{add_values, distinct, All-distinct, noted}
use rabbitmq_perf_test.Scenario.Results.Tree.{
  entries, lookup-put_field_self, has_properties-put_field,
}
use rabbitmq_perf_test.Scenario.Results.Charted.{lookup-value_fields, keys_of-entries, all-str}

abbrev pub one_variable : (a : String) → List String → List Variable
one_variable a vs = record { name = a; values = vs } ∷ []

-- The keys of one variable.
abbrev pub line : String → List String → List Key
line a [] = []
line a (v ∷ vs) = (value_of a v ∷ []) ∷ line a vs

run-line : (a : String) (vs : List String) → run (one_variable a vs) [] ≡ line a vs
unfolding run run_values
run-line a [] = refl
run-line a (v ∷ vs) = ap (◌∷◌ (value_of a v ∷ [])) (run-line a vs)

find-note :
    (a v : String) (m : List (String × List String))
    → find a (note_key (value_of a v ∷ []) m) ≡ some (add_value v (noted a m))
unfolding note_key
find-note a v m = rw (find-put a a (add_value v (noted a m)) m, eq_refl a)

find-line :
    (a v : String) (vs : List String) (m : List (String × List String))
    → find a (dimension_lists (line a (v ∷ vs)) m) ≡ some (add_values (v ∷ vs) (noted a m))
unfolding dimension_lists add_values
find-line a v [] m = find-note a v m
find-line a v (w ∷ vs) m = find-line a w vs (note_key (value_of a v ∷ []) m) ∙ rw (find-note a v m)

module _ {N : Number} (measured : Key → Value N)
    (fine : (k : Key) → has_properties (measured k) ≡ true) where
  abbrev Found : Fields N → String → Type 0
  Found node v = has_properties (lookup v node) ≡ true

  Found-data_tree :
      (a x : String) (vs : List String) (node : Fields N)
      → Found node x
      → Found (data_tree (entries measured (line a vs)) node) x
  unfolding data_tree store
  Found-data_tree a x [] node h = h
  Found-data_tree a x (v ∷ vs) node h = Found-data_tree a x vs _ (
      has_properties-put_field x v (measured (value_of a v ∷ [])) node (fine (value_of a v ∷ [])) h)

  All-Found :
      (a : String) (vs : List String) (node : Fields N)
      → All (Found (data_tree (entries measured (line a vs)) node)) vs
  unfolding data_tree store
  All-Found a [] node = tt
  All-Found a (v ∷ vs) node =
      let r = measured (value_of a v ∷ []) in
      (
        Found-data_tree a v vs _ (rw (lookup-put_field_self v r node) (fine (value_of a v ∷ []))),
        All-Found a vs _,
      )

  reaches_of_Found :
      (v : String) (node : Fields N) → Found node v → reaches (obj node) (str v) ≡ true
  unfolding read get to_string
  reaches_of_Found v node h = h

  module _ (a v : String) (vs : List String) where
    abbrev pub line_values : Value N
    line_values = obj (value_fields (dimension_lists (line a (v ∷ vs)) []))

    abbrev pub line_data : Value N
    line_data = obj (data_tree (entries measured (line a (v ∷ vs))) end)

    abbrev pub charted : List (Value N)
    charted = map str (distinct (v ∷ vs))

    get-line_values : get line_values a ≡ ok (texts (distinct (v ∷ vs)))
    unfolding get distinct find
    get-line_values = ap ok (lookup-value_fields a _ (find-line a v vs []))

    all_reached : all (reaches line_data) (items (of_list charted)) ≡ true
    all_reached = all-str (reaches line_data) (distinct (v ∷ vs)) (
        All-distinct _ (v ∷ vs)
          (All-imp (λ w h. reaches_of_Found w _ h) (v ∷ vs) (All-Found a (v ∷ vs) end)))

    abbrev pub line_scenario : Value N
    line_scenario = obj (
        field "dimensions" (texts (a ∷ []))
          (field "dimension-values" line_values (field "data" line_data end)))

    line_written :
        (scenario : Value N)
        → results (entries measured (run (one_variable a (v ∷ vs)) [])) ≡ some scenario
        → line_scenario ≡ scenario
    unfolding results
    line_written scenario h =
        some-injective line_scenario scenario
          (rw (run-line a (v ∷ vs), keys_of-entries measured (line a (v ∷ vs))) at h)

    module _ (J : JQuery N) (L : IsLawful J) (div : J.Div) where
      parts_written :
          (scenario page_results : Value N)
          → results (entries measured (run (one_variable a (v ∷ vs)) [])) ≡ some scenario
          → get page_results (shown (J.attr div "data-scenario")) ≡ ok scenario
          → scenario_parts J div page_results ≡ ok (texts (a ∷ []), line_values, line_data)
      unfolding scenario_parts get lookup
      parts_written scenario page_results written found =
          rw (found ∙ ap ok (sym (line_written scenario written)))

      -- Every scenario of one variable is charted as "x-y", whatever the single runs measured. Let
      -- the variable have one value or more, let every run have results (not `undefined` or
      -- `null`), and let an element of type "x-y" name the variable as its x axis, and the
      -- scenario. Then `VaryingScenario` and `VaryingScenarioStats` write results from which
      -- `plot0` draws the chart, with no exception: one line for each word of `data-plot-keys`,
      -- with one point for each distinct value of the variable, in the order of the runs.
      pub plot0-x_y_results :
          (scenario page_results : Value N)
          → J.attr div "data-type" ≡ some "x-y"
          → J.attr div "data-x-key" ≡ some a
          → results (entries measured (run (one_variable a (v ∷ vs)) [])) ≡ some scenario
          → get page_results (shown (J.attr div "data-scenario")) ≡ ok scenario
          → let keys = split b' ' (attr_or_default J div "plot-keys" "send-msg-rate") in
            plot0 J div page_results
            ≡ done (
                plot_data J div
                  (map (value_line J charted line_data) keys)
                  (some (if any_bytes keys then bytes_axes J else [])))
      unfolding plot0 plot_varying plot_x_y
      plot0-x_y_results scenario page_results kind x_axis written found =
          let lines =
            x_y_chart_lem J L (of_list charted) line_data div line_values
              (rw x_axis get-line_values) in
          let is_time : attr_is J div "data-type" "time" ≡ false = rw (kind, attr_is) in
          let is_series : attr_is J div "data-type" "series" ≡ false = rw (kind, attr_is) in
          let is_x_y : attr_is J div "data-type" "x-y" ≡ true = rw (kind, attr_is) in
          rw (is_time, parts_written scenario page_results written found)
            (rw (is_series, is_x_y) (rw (lines, all_reached, items-of_list charted)))

  -- Every scenario of rate limits is charted as "r-l", whatever the single runs measured: where
  -- `producerRateLimit` is the one variable and has one value or more, and every run has results
  -- (not `undefined` or `null`), `VaryingScenario` and `VaryingScenarioStats` write results from
  -- which `plot0` draws the two lines of an element of type "r-l" that names the scenario, with no
  -- exception, each with one point for each distinct limit, in the order of the runs.
  pub plot0-r_l_results :
      (v : String) (vs : List String) (J : JQuery N)
      → IsLawful J
      → (div : J.Div) (scenario page_results : Value N) → J.attr div "data-type" ≡ some "r-l"
      → results (entries measured (run (one_variable "producerRateLimit" (v ∷ vs)) []))
        ≡ some scenario
      → get page_results (shown (J.attr div "data-scenario")) ≡ ok scenario
      → let limits = charted "producerRateLimit" v vs in
        let data_of = line_data "producerRateLimit" v vs in
        plot0 J div page_results
        ≡ done (
            plot_data J div
              (record {
                label = "rate achieved";
                points = map (value_point J data_of "send-msg-rate") limits;
                yaxis = some 1;
              }
                ∷ record {
                  label = "latency (us)";
                  points = map (value_point J data_of "avg-latency") limits;
                  yaxis = some 2;
                }
                ∷ [])
              (some (("yaxes", axes (axes_rate_and_latency N)) ∷ [])))
  unfolding plot0 plot_varying plot_r_l
  plot0-r_l_results v vs J L div scenario page_results kind written found =
      let a : String = "producerRateLimit" in
      let lines =
        r_l_chart_lem J L (of_list (charted a v vs)) (line_data a v vs) (line_values a v vs)
          (get-line_values a v vs) in
      let is_time : attr_is J div "data-type" "time" ≡ false = rw (kind, attr_is) in
      let is_series : attr_is J div "data-type" "series" ≡ false = rw (kind, attr_is) in
      let is_x_y : attr_is J div "data-type" "x-y" ≡ false = rw (kind, attr_is) in
      let is_r_l : attr_is J div "data-type" "r-l" ≡ true = rw (kind, attr_is) in
      rw (is_time, parts_written a v vs J L div scenario page_results written found)
        (rw (is_series, is_x_y, is_r_l)
          (rw (lines, all_reached a v vs, items-of_list (charted a v vs))))
