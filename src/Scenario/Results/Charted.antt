-- ===== src/Scenario/Results/Charted.antt =====
-- A scenario of two variables, from its run to its chart.
use text.Mathlib.Text.{◌==◌ as str_eq}
use mathlib.Core.Option.{some-injective}
use text.Mathlib.TextPositions.{eq_refl}
use rabbitmq_perf_test.Base.{
  ◌≡◌, ◌≢◌, refl, sym, ap, ◌∙◌, String, Bool, true, false, inl, inr, Bool-cases, none, some, List,
  [], ◌∷◌, map, All, All-append, All-split, All-imp,
}
use rabbitmq_perf_test.Base.Assoc.{find}
use rabbitmq_perf_test.Base.Result.{ok, all}
use rabbitmq_perf_test.Base.Text.{shown}
use rabbitmq_perf_test.Js.Number.{Number}
use rabbitmq_perf_test.Js.Value.{
  Value, str, obj, Fields, end, field, items, of_list, lookup, get, index, loose_eq, to_string,
}
use rabbitmq_perf_test.Js.Value.Read.{has_properties, read, items-of_list}
use rabbitmq_perf_test.Perf.JQuery.{JQuery, IsLawful}
use rabbitmq_perf_test.Perf.Drawing.{Series, done, with_value, attr_is, attr_or_default}
use rabbitmq_perf_test.Perf.Options.{plot_data}
use rabbitmq_perf_test.Perf.Varying.{series_chart, plot_series}
use rabbitmq_perf_test.Perf.Varying.Grid.{has_entry, entry_line, series_chart_lem}
use rabbitmq_perf_test.Perf.Page.{scenario_parts, plot_varying, plot0}
use rabbitmq_perf_test.Scenario.Runs.{Variable, Key, value_of, run_values, run}
use rabbitmq_perf_test.Scenario.Results.{
  texts, names, value_fields, dimension_lists, data_tree, keys_of, results,
}
use rabbitmq_perf_test.Scenario.Results.Values.{
  distinct, All-distinct, pair, row, grid, find-dimension_lists,
}
use rabbitmq_perf_test.Scenario.Results.Tree.{
  Present, IsPair, KeyPresent, entries, KeyPresent-data_tree,
}

abbrev pub two_variables : (a b : String) → List String → List String → List Variable
two_variables a b vs ws = record { name = a; values = vs } ∷ record { name = b; values = ws } ∷ []

run-row :
    (a b v : String) (ws : List String)
    → run_values (run []) b ws (value_of a v ∷ []) ≡ row a b v ws
unfolding run run_values
run-row a b v [] = refl
run-row a b v (w ∷ ws) = rw (run-row a b v ws)

run-grid : (a b : String) (vs ws : List String) → run (two_variables a b vs ws) [] ≡ grid a b vs ws
unfolding run run_values
run-grid a b [] ws = refl
run-grid a b (v ∷ vs) ws = rw (run-row a b v ws, run-grid a b vs ws)

IsPair-row : (a b v : String) (ws : List String) → All IsPair (row a b v ws)
IsPair-row a b v [] = tt
IsPair-row a b v (w ∷ ws) = (tt, IsPair-row a b v ws)

IsPair-grid : (a b : String) (vs ws : List String) → All IsPair (grid a b vs ws)
IsPair-grid a b [] ws = tt
IsPair-grid a b (v ∷ vs) ws =
    All-append IsPair (row a b v ws) (grid a b vs ws) (IsPair-row a b v ws) (IsPair-grid a b vs ws)

module _ {N : Number} where
  Present-row :
      (a b v : String) (ws : List String) (node : Fields N)
      → All (KeyPresent node) (row a b v ws)
      → All (λ w. Present v w node) ws
  Present-row a b v [] node h = tt
  Present-row a b v (w ∷ ws) node (p, h) = (p, Present-row a b v ws node h)

  Present-grid :
      (a b : String) (vs ws : List String) (node : Fields N)
      → All (KeyPresent node) (grid a b vs ws)
      → All (λ v. All (λ w. Present v w node) ws) vs
  Present-grid a b [] ws node h = tt
  Present-grid a b (v ∷ vs) ws node h =
      let (here, later) = All-split (KeyPresent node) (row a b v ws) (grid a b vs ws) h in
      (Present-row a b v ws node here, Present-grid a b vs ws node later)

  pub lookup-value_fields :
      (n : String) (m : List (String × List String)) {vs : List String}
      → find n m ≡ some vs
      → lookup n (value_fields m) ≡ texts {N = N} vs
  unfolding find lookup
  lookup-value_fields n [] e = cc
  lookup-value_fields n ((k, ws) ∷ m) {vs} e = elim (Bool-cases (str_eq k n)) [
    | inl h ↦ rw h (ap texts (some-injective ws vs (rw h at e)))
    | inr h ↦ rw h (lookup-value_fields n m (rw h at e))
  ]

  pub keys_of-entries :
      (measured : Key → Value N) (ks : List Key) → keys_of (entries measured ks) ≡ ks
  keys_of-entries measured [] = refl
  keys_of-entries measured (k ∷ ks) = rw (keys_of-entries measured ks)

  has_entry_of_Present :
      (J : JQuery N) (v w : String) (node : Fields N)
      → Present v w node
      → has_entry J true (obj node) (str v) (str w) ≡ true
  unfolding read get to_string
  has_entry_of_Present J v w node (fs, found, p) = rw (found, p)

  pub all-str :
      (p : Value N → Bool) (vs : List String)
      → All (λ v. p (str v) ≡ true) vs
      → all p (items (of_list (map str vs))) ≡ true
  all-str p [] h = refl
  all-str p (v ∷ vs) (q, h) = rw (q, all-str p vs h)

  -- The dimensions, their values and the data that a run over two variables writes.
  module _ (a b v w : String) (vs ws : List String) (differ : a ≢ b) (measured : Key → Value N)
      (fine : (k : Key) → has_properties (measured k) ≡ true) where
    abbrev pub keys : List Key
    keys = grid a b (v ∷ vs) (w ∷ ws)

    abbrev pub written_values : Value N
    written_values = obj (value_fields (dimension_lists keys []))

    abbrev pub written_data : Value N
    written_data = obj (data_tree (entries measured keys) end)

    get_first : get written_values a ≡ ok (texts (distinct (v ∷ vs)))
    unfolding get
    get_first = ap ok (lookup-value_fields a _ (find-dimension_lists a b differ v vs w ws).0)

    get_second : get written_values b ≡ ok (texts (distinct (w ∷ ws)))
    unfolding get
    get_second = ap ok (lookup-value_fields b _ (find-dimension_lists a b differ v vs w ws).1)

    all_present :
        (J : JQuery N)
        → all
            (λ s.
              all (has_entry J true written_data s) (items (of_list (map str (distinct (w ∷ ws))))))
            (items (of_list (map str (distinct (v ∷ vs)))))
          ≡ true
    all_present J = all-str _ (distinct (v ∷ vs)) (
        All-distinct _ (v ∷ vs) (
          All-imp
            (λ s h. all-str (has_entry J true written_data (str s)) (distinct (w ∷ ws)) (
              All-distinct _ (w ∷ ws) (All-imp (λ x p. has_entry_of_Present J s x _ p) (w ∷ ws) h)))
            (v ∷ vs)
            (Present-grid a b (v ∷ vs) (w ∷ ws) _
              (KeyPresent-data_tree measured fine keys end (IsPair-grid a b (v ∷ vs) (w ∷ ws))))))

    abbrev pub written_scenario : Value N
    written_scenario = obj (
        field "dimensions" (texts (names (pair a b v w)))
          (field "dimension-values" written_values (field "data" written_data end)))

    written_as :
        (scenario : Value N)
        → results (entries measured (run (two_variables a b (v ∷ vs) (w ∷ ws)) [])) ≡ some scenario
        → written_scenario ≡ scenario
    unfolding results
    written_as scenario h =
        some-injective written_scenario scenario
          (rw (run-grid a b (v ∷ vs) (w ∷ ws), keys_of-entries measured keys) at h)

    module _ (J : JQuery N) (L : IsLawful J) (div : J.Div)
        (series : J.attr div "data-series-key" ≡ some a)
        (x_axis : J.attr div "data-x-key" ≡ some b) where
      abbrev pub lines : List (Series N)
      lines =
          map
            (entry_line J true (attr_or_default J div "plot-key" "send-msg-rate") (some a)
              (map str (distinct (w ∷ ws))) written_data)
            (map str (distinct (v ∷ vs)))

      series_chart_written :
          series_chart J div (texts (names (pair a b v w))) written_values written_data ≡ ok lines
      unfolding index loose_eq
      series_chart_written =
          series_chart_lem J L (of_list (map str (distinct (w ∷ ws)))) div
            (texts (names (pair a b v w))) written_values written_data (str a)
            (of_list (map str (distinct (v ∷ vs)))) refl (rw series get_first)
            (rw x_axis get_second)
          ∙ rw (series, eq_refl a, all_present J)
              (rw (
                items-of_list (map str (distinct (w ∷ ws))),
                items-of_list (map str (distinct (v ∷ vs))),
              ))

      plot0-series :
          (page_results : Value N)
          → J.attr div "data-type" ≡ some "series"
          → plot0 J div page_results
            ≡ with_value
                (scenario_parts J div page_results)
                (λ (d, vals, t). plot_series J div d vals t)
      unfolding plot0 plot_varying
      plot0-series page_results kind =
          let is_time : attr_is J div "data-type" "time" ≡ false = rw (kind, attr_is) in
          let is_series : attr_is J div "data-type" "series" ≡ true = rw (kind, attr_is) in
          rw (is_time, is_series)

      scenario_parts-written :
          (page_results : Value N)
          → get page_results (shown (J.attr div "data-scenario")) ≡ ok written_scenario
          → scenario_parts J div page_results
            ≡ ok (texts (names (pair a b v w)), written_values, written_data)
      unfolding scenario_parts get lookup
      scenario_parts-written page_results found = rw found

      -- Every scenario of two variables is charted, whatever the single runs measured. Let the
      -- variables have different names and one value or more, let every run have results (not
      -- `undefined` or `null`), and let an element of type "series" name the first variable as its
      -- series, the second as its x axis, and the scenario. Then `VaryingScenario` and
      -- `VaryingScenarioStats` write results from which `plot0` draws the chart, with no exception:
      -- one line for each distinct value of the first variable, with one point for each distinct
      -- value of the second, both in the order in which they were run.
      pub plot0-results :
          (scenario page_results : Value N)
          → J.attr div "data-type" ≡ some "series"
          → results (entries measured (run (two_variables a b (v ∷ vs) (w ∷ ws)) []))
            ≡ some scenario
          → get page_results (shown (J.attr div "data-scenario")) ≡ ok scenario
          → plot0 J div page_results ≡ done (plot_data J div lines none)
      unfolding plot_series
      plot0-results scenario page_results kind written found =
          rw
            (
              plot0-series page_results kind,
              scenario_parts-written page_results
                  (found ∙ ap ok (sym (written_as scenario written))),
            )
            (rw series_chart_written)
