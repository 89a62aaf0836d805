-- ===== src/Perf/Varying/Lines.antt =====
-- `plot_x_y` and `plot_r_l`: the lines of a one-dimensional scenario, and their axes.
use rabbitmq_perf_test.Base.{
  ◌≡◌, ◌≢◌, refl, ap, Bool, true, false, inl, inr, Bool-cases, String, some, List, [], ◌∷◌, ◌||◌,
  map, if◌then◌else◌, is_some,
}
use rabbitmq_perf_test.Base.Result.{type_error, ok, throw, all, traverse-test}
use rabbitmq_perf_test.Base.Text.{shown, split, split-ne-nil, index_of}
use rabbitmq_perf_test.Js.Number.{Number}
use rabbitmq_perf_test.Js.Value.{Value, arr, Items, items, get}
use rabbitmq_perf_test.Perf.JQuery.{JQuery, IsLawful}
use rabbitmq_perf_test.Perf.Drawing.{Series, Settings, axes, attr_or_default}
use rabbitmq_perf_test.Perf.Ticks.{axes_rate_and_bytes}
use rabbitmq_perf_test.Perf.Varying.{x_y_point, x_y_points, x_y_loop, x_y_chart, r_l_chart}
use rabbitmq_perf_test.Perf.Varying.Reads.{reaches, read_in, get_in-read}

abbrev pub is_bytes : String → Bool
is_bytes key = is_some (index_of "bytes" key)

abbrev pub any_bytes : List String → Bool
any_bytes [] = false
any_bytes (key ∷ keys) = is_bytes key || any_bytes keys

if-or :
    {A : Type 0} (b c : Bool) (x y : A)
    → (if c then x else if b then x else y) ≡ (if b || c then x else y)
if-or true true x y = refl
if-or true false x y = refl
if-or false c x y = refl

module _ {N : Number} (J : JQuery N) where
  abbrev pub value_point : Value N → String → Value N → Value N × Value N
  value_point results key x = (x, read_in results x key)

  -- The line of a key: on the second axis if it counts bytes.
  abbrev pub value_line : List (Value N) → Value N → String → Series N
  value_line xs results key = record {
    label = key;
    points = map (value_point results key) xs;
    yaxis = some (if is_bytes key then 2 else 1);
  }

  abbrev pub bytes_axes : Settings N
  bytes_axes = ("yaxes", axes (axes_rate_and_bytes N)) ∷ []

  x_y_point-read :
      (results : Value N) (key : String) (x : Value N)
      → x_y_point J results key x
        ≡ (if reaches results x then ok (value_point results key x) else throw type_error)
  unfolding x_y_point
  x_y_point-read results key x =
      rw (get_in-read J results x key)
        (elim (Bool-cases (reaches results x)) [ inl h ↦ rw h | inr h ↦ rw h ])

  module _ (L : IsLawful J) (xs : Items N) (results : Value N) where
    x_y_points-read :
        (key : String)
        → x_y_points J (arr xs) results key ≡ (
            if all (reaches results) (items xs)
            then ok (map (value_point results key) (items xs))
            else throw type_error)
    unfolding x_y_points
    x_y_points-read key = rw (L.each_arr xs) (
        traverse-test (x_y_point J results key) (reaches results) (value_point results key)
          type_error (x_y_point-read results key) (items xs))

    x_y_loop-ok :
        (keys : List String) (extra : Settings N)
        → all (reaches results) (items xs) ≡ true
        → x_y_loop J (arr xs) results keys extra
          ≡ ok (
            map (value_line (items xs) results) keys,
            if any_bytes keys then bytes_axes else extra,
          )
    unfolding x_y_loop
    x_y_loop-ok [] extra h = refl
    x_y_loop-ok (key ∷ keys) extra h =
        rw (x_y_points-read key, h, x_y_loop-ok keys (if is_bytes key then bytes_axes else extra) h)
          (ap
            (λ e.
              ok (value_line (items xs) results key ∷ map (value_line (items xs) results) keys, e))
            (if-or (is_bytes key) (any_bytes keys) bytes_axes extra))

    x_y_loop-throw :
        (keys : List String) (extra : Settings N)
        → keys ≢ []
        → all (reaches results) (items xs) ≡ false
        → x_y_loop J (arr xs) results keys extra ≡ throw type_error
    unfolding x_y_loop
    x_y_loop-throw [] extra n h = absurd (n refl)
    x_y_loop-throw (key ∷ keys) extra n h = rw (x_y_points-read key, h)

    -- Where the dimension has an array of values, an x-y chart has one line for each word of
    -- `data-plot-keys`, in order, with one point for each value of x, in order. A line is on the
    -- second axis exactly if its key names bytes, and the chart has the axes for bytes exactly if
    -- some line is. If the entry of a single value is missing there is an exception.
    pub x_y_chart_lem :
        (div : J.Div) (dimension_values : Value N)
        → get dimension_values (shown (J.attr div "data-x-key")) ≡ ok (arr xs)
        → let keys = split b' ' (attr_or_default J div "plot-keys" "send-msg-rate") in
          x_y_chart J div dimension_values results ≡ (
            if all (reaches results) (items xs)
            then ok (
              map (value_line (items xs) results) keys,
              if any_bytes keys then bytes_axes else [],
            )
            else throw type_error)
    unfolding x_y_chart
    x_y_chart_lem div dimension_values found =
        rw found (elim (Bool-cases (all (reaches results) (items xs))) [
          | inl h ↦ rw h (x_y_loop-ok _ [] h)
          | inr h ↦ rw h (x_y_loop-throw _ [] (split-ne-nil b' ' _) h)
        ])

    -- Where the rate limits have an array of values, the chart has the achieved rate on the first
    -- axis and the latency on the second, each with one point for each limit, in order, unless the
    -- entry of a limit is missing: then there is an exception.
    pub r_l_chart_lem :
        (dimension_values : Value N)
        → get dimension_values "producerRateLimit" ≡ ok (arr xs)
        → r_l_chart J dimension_values results ≡ (
            if all (reaches results) (items xs)
            then ok (
                record {
                  label = "rate achieved";
                  points = map (value_point results "send-msg-rate") (items xs);
                  yaxis = some 1;
                }
                ∷ record {
                  label = "latency (us)";
                  points = map (value_point results "avg-latency") (items xs);
                  yaxis = some 2;
                }
                ∷ [])
            else throw type_error)
    unfolding r_l_chart
    r_l_chart_lem dimension_values found =
        rw (found, x_y_points-read "send-msg-rate", x_y_points-read "avg-latency")
          (elim (Bool-cases (all (reaches results) (items xs))) [ inl h ↦ rw h | inr h ↦ rw h ])
