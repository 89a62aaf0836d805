-- ===== src/Perf/Time/Laws.antt =====
-- `plot_time`: which lines a chart has, and when it throws.
use rabbitmq_perf_test.Base.{
  ℕ, ◌≡◌, ◌≢◌, inl, inr, Bool-cases, String, some, List, [], ◌∷◌, map, arith, is_some,
  if◌then◌else◌,
}
use rabbitmq_perf_test.Base.Result.{type_error, ok, throw, all, all_const, traverse-test}
use rabbitmq_perf_test.Base.Text.{index_of}
use rabbitmq_perf_test.Js.Number.{Number, of_ℕ}
use rabbitmq_perf_test.Js.Value.{Value, num, arr, Items, items, get, to_number}
use rabbitmq_perf_test.Js.Value.Read.{has_properties, read, get-read}
use rabbitmq_perf_test.Perf.JQuery.{JQuery, IsLawful}
use rabbitmq_perf_test.Perf.Drawing.{Series, attr_is}
use rabbitmq_perf_test.Perf.Time.{time_keys, time_point, time_line, time_series}

module _ {N : Number} (J : JQuery N) where
  -- The point of one sample.
  abbrev pub sample_point : String → Value N → Value N × Value N
  sample_point key sample =
      (num (N.div (to_number (read sample "elapsed")) (of_ℕ N 1000)), read sample key)

  -- The line of one key: a point for each sample, on the second axis if it is a latency.
  abbrev pub key_line : List (Value N) → String → Series N
  key_line samples key = record {
    label = key;
    points = map (sample_point key) samples;
    yaxis = some (if is_some (index_of "latency" key) then 2 else 1);
  }

  abbrev pub rates : List (String × ℕ)
  rates = ("send-msg-rate", 1) ∷ ("recv-msg-rate", 1) ∷ []

  abbrev pub rates_and_latency : List (String × ℕ)
  rates_and_latency = ("send-msg-rate", 1) ∷ ("recv-msg-rate", 1) ∷ ("avg-latency", 2) ∷ []

  -- The line of a key on an axis.
  abbrev pub expected_line : List (Value N) → String × ℕ → Series N
  expected_line samples (key, axis) = record {
    label = key;
    points = map (sample_point key) samples;
    yaxis = some axis;
  }

  time_keys-ne-nil : (div : J.Div) → time_keys J div ≢ []
  unfolding time_keys
  time_keys-ne-nil div = ground arith

  time_point-read :
      (key : String) (sample : Value N)
      → time_point J key sample
        ≡ (if has_properties sample then ok (sample_point key sample) else throw type_error)
  unfolding time_point
  time_point-read key sample = elim (Bool-cases (has_properties sample)) [
    | inl h ↦ rw (get-read sample "elapsed", get-read sample key, h)
    | inr h ↦ rw (get-read sample "elapsed", h)
  ]

  module _ (L : IsLawful J) (results : Value N) (samples : Items N)
      (found : get results "samples" ≡ ok (arr samples)) where
    time_line-read :
        (key : String)
        → time_line J results key ≡ (
            if all has_properties (items samples)
            then ok (key_line (items samples) key)
            else throw type_error)
    unfolding time_line
    time_line-read key =
        rw
          (
            found,
            L.each_arr samples,
            traverse-test (time_point J key) has_properties (sample_point key) type_error
                (time_point-read key) (items samples),
          )
          (elim (Bool-cases (all has_properties (items samples))) [ inl h ↦ rw h | inr h ↦ rw h ])

    time_series_of_keys :
        (div : J.Div)
        → time_series J div results ≡ (
            if all has_properties (items samples)
            then ok (map (key_line (items samples)) (time_keys J div))
            else throw type_error)
    unfolding time_series
    time_series_of_keys div = rw (
      traverse-test (time_line J results) (λ _. all has_properties (items samples))
          (key_line (items samples)) type_error time_line-read (time_keys J div),
      all_const (all has_properties (items samples)) (time_keys J div) (time_keys-ne-nil div),
    )

    -- Where the scenario has an array of samples, none of them `undefined` or `null`, the chart has
    -- a line for the sent and one for the received messages on the first axis, and one for the
    -- latency on the second exactly if the element asks for it. Each line has one point for each
    -- sample, in order: its time in seconds and its value. With a sample that is `undefined` or
    -- `null` there is an exception.
    pub time_series_lem :
        (div : J.Div)
        → time_series J div results ≡ (
            if all has_properties (items samples)
            then ok (
                map
                  (expected_line (items samples))
                  (if attr_is J div "data-latency" "true" then rates_and_latency else rates))
            else throw type_error)
    unfolding time_keys index_of
    time_series_lem div =
        rw (time_series_of_keys div)
          (elim (Bool-cases (attr_is J div "data-latency" "true")) [ inl h ↦ rw h | inr h ↦ rw h ])
