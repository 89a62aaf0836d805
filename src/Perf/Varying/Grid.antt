-- ===== src/Perf/Varying/Grid.antt =====
-- `plot_series`: the lines of a two-dimensional scenario.
use rabbitmq_perf_test.Base.{
  ◌≡◌, Bool, true, false, inl, inr, Bool-cases, ◌<>◌, String, Option, none, List, ◌&&◌, map,
  if◌then◌else◌, All, All-imp,
}
use rabbitmq_perf_test.Base.Result.{type_error, ok, throw, all, traverse-test, traverse_ext}
use rabbitmq_perf_test.Base.Text.{shown}
use rabbitmq_perf_test.Js.Number.{Number}
use rabbitmq_perf_test.Js.Value.{Value, arr, Items, items, get, index, to_string, loose_eq}
use rabbitmq_perf_test.Js.Value.Read.{has_properties, read, get_then-read}
use rabbitmq_perf_test.Perf.JQuery.{JQuery, IsLawful}
use rabbitmq_perf_test.Perf.Drawing.{Series, attr_or_default}
use rabbitmq_perf_test.Perf.Varying.{get_in, series_point, series_line, series_chart}
use rabbitmq_perf_test.Perf.Varying.Reads.{if-bind, reaches, read_in, get_in-read}

module _ {N : Number} (J : JQuery N) where
  -- The entry of the grid: the series leads if it is the scenario's first dimension.
  abbrev pub entry : Bool → Value N → Value N → Value N → Value N
  entry first results s x =
      if first then read_in results s (to_string x) else read_in results x (to_string s)

  abbrev pub has_entry : Bool → Value N → Value N → Value N → Bool
  has_entry first results s x =
      (if first then reaches results s else reaches results x)
      && has_properties (entry first results s x)

  abbrev pub entry_point : Bool → String → Value N → Value N → Value N → Value N × Value N
  entry_point first key results s x = (x, read (entry first results s x) key)

  series_point-read :
      (first : Bool) (key : String) (results s x : Value N)
      → series_point J first key results s x ≡ (
          if has_entry first results s x
          then ok (entry_point first key results s x)
          else throw type_error)
  unfolding series_point
  series_point-read true key results s x =
      rw (get_in-read J results s (to_string x))
        (if-bind (reaches results s) _ _ _ _ (get_then-read _ key (λ y. (x, y))))
  series_point-read false key results s x =
      rw (get_in-read J results x (to_string s))
        (if-bind (reaches results x) _ _ _ _ (get_then-read _ key (λ y. (x, y))))

  -- The line of one value of the series, over all values of x.
  abbrev pub entry_line :
      Bool → String → Option String → List (Value N) → Value N → Value N → Series N
  entry_line first key series_key xs results s = record {
    label = shown series_key <> (" = " <> to_string s);
    points = map (entry_point first key results s) xs;
    yaxis = none;
  }

  module _ (L : IsLawful J) (xs : Items N) where
    series_line-read :
        (first : Bool) (key : String) (series_key : Option String) (results s : Value N)
        → series_line J first key series_key (arr xs) results s ≡ (
            if all (has_entry first results s) (items xs)
            then ok (entry_line first key series_key (items xs) results s)
            else throw type_error)
    unfolding series_line
    series_line-read first key series_key results s =
        rw
          (
            L.each_arr xs,
            traverse-test (series_point J first key results s) (has_entry first results s)
                (entry_point first key results s) type_error (series_point-read first key results s)
                (items xs),
          )
          (elim (Bool-cases (all (has_entry first results s) (items xs))) [
            | inl h ↦ rw h
            | inr h ↦ rw h
          ])

    -- Where both dimensions have arrays of values, the chart has one line for each value of the
    -- series, in order, each with one point for each value of x, in order, whose height is the
    -- property `data-plot-key` of the entry for the two; the series leads into the grid exactly if
    -- it is the scenario's first dimension. If a single entry is missing there is an exception.
    pub series_chart_lem :
        (div : J.Div) (dimensions dimension_values results first : Value N) (ss : Items N)
        → index dimensions 0 ≡ ok first
        → get dimension_values (shown (J.attr div "data-series-key")) ≡ ok (arr ss)
        → get dimension_values (shown (J.attr div "data-x-key")) ≡ ok (arr xs)
        → let leads = loose_eq first (J.attr div "data-series-key") in
          series_chart J div dimensions dimension_values results ≡ (
            if all (λ s. all (has_entry leads results s) (items xs)) (items ss)
            then ok (
                map
                  (entry_line leads
                    (attr_or_default J div "plot-key" "send-msg-rate")
                    (J.attr div "data-series-key")
                    (items xs)
                    results)
                  (items ss))
            else throw type_error)
    unfolding series_chart
    series_chart_lem div dimensions dimension_values results first ss f s x =
        rw (f, s, x, L.each_arr ss)
          (traverse-test _ _ _ type_error
            (series_line-read (loose_eq first (J.attr div "data-series-key"))
              (attr_or_default J div "plot-key" "send-msg-rate") (J.attr div "data-series-key")
              results)
            (items ss))

    line_transposed :
        (key : String) (series_key : Option String) (by_series by_x s : Value N)
        → All (λ x. get_in J by_series s (to_string x) ≡ get_in J by_x x (to_string s)) (items xs)
        → series_line J true key series_key (arr xs) by_series s
          ≡ series_line J false key series_key (arr xs) by_x s
    unfolding series_line series_point
    line_transposed key series_key by_series by_x s h = rw (
      L.each_arr xs,
      traverse_ext (series_point J true key by_series s) (series_point J false key by_x s)
          (items xs) (All-imp (λ x e. rw e) (items xs) h),
    )

    -- The chart does not depend on the order of the scenario's dimensions: a scenario whose first
    -- dimension is the series and one whose first is not give the same chart, or the same exception,
    -- if their grids are transposes of one another at the values that are charted.
    pub series_chart_transposed :
        (div : J.Div) (rows columns dimension_values by_series by_x first second : Value N)
        (ss : Items N)
        → index rows 0 ≡ ok first
        → index columns 0 ≡ ok second
        → loose_eq first (J.attr div "data-series-key") ≡ true
        → loose_eq second (J.attr div "data-series-key") ≡ false
        → get dimension_values (shown (J.attr div "data-series-key")) ≡ ok (arr ss)
        → get dimension_values (shown (J.attr div "data-x-key")) ≡ ok (arr xs)
        → All
            (λ s.
              All
                (λ x. get_in J by_series s (to_string x) ≡ get_in J by_x x (to_string s))
                (items xs))
            (items ss)
        → series_chart J div rows dimension_values by_series
          ≡ series_chart J div columns dimension_values by_x
    unfolding series_chart
    series_chart_transposed div rows columns dimension_values by_series by_x first second ss f g
          leads follows s x h =
        rw (f, g, s, x, L.each_arr ss)
          (rw (leads, follows)
            (traverse_ext _ _ (items ss) (
              All-imp
                (λ t.
                  line_transposed (attr_or_default J div "plot-key" "send-msg-rate")
                    (J.attr div "data-series-key") by_series by_x t)
                (items ss) h)))
