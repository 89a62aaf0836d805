-- ===== src/Perf/Summary/Rates.antt =====
-- `summarise`: which rate an element shows.
use rabbitmq_perf_test.Base.{◌≡◌, ◌<>◌, false, inl, inr, Bool-cases, [], ◌∷◌, if◌then◌else◌}
use rabbitmq_perf_test.Base.Result.{type_error, ok}
use rabbitmq_perf_test.Base.Text.{shown}
use rabbitmq_perf_test.Js.Number.{Number, of_ℕ}
use rabbitmq_perf_test.Js.Value.{Value, num, get, add, to_number}
use rabbitmq_perf_test.Js.Value.Read.{has_properties, get-read}
use rabbitmq_perf_test.Perf.JQuery.{JQuery}
use rabbitmq_perf_test.Perf.Drawing.{append, done, failed, attr_is}
use rabbitmq_perf_test.Perf.Summary.{summarise}

module _ {N : Number} (J : JQuery N) where
  -- The rate that is documented for the mode of an element.
  abbrev pub mode_rate : J.Div → (sent received : N.Num) → N.Num
  mode_rate div sent received = N.round (
      if attr_is J div "data-mode" "send"
      then sent
      else if attr_is J div "data-mode" "recv"
      then received
      else N.div (N.add sent received) (of_ℕ N 2))

  -- Where the scenario has both rates as numbers, the element gets the rounded rate of its mode: the
  -- sent messages, the received ones, or the mean of the two if the mode is neither.
  pub summarise_lem :
      (div : J.Div) (results scenario : Value N) (sent received : N.Num)
      → get results (shown (J.attr div "data-scenario")) ≡ ok scenario
      → get scenario "send-msg-rate" ≡ ok (num sent)
      → get scenario "recv-msg-rate" ≡ ok (num received)
      → summarise J div results
        ≡ done (
            append div
              ("<strong>" <> (N.to_string (mode_rate div sent received) <> "</strong>msg/s"))
            ∷ [])
  unfolding summarise add to_number
  summarise_lem div results scenario sent received found s r =
      elim (Bool-cases (attr_is J div "data-mode" "send")) [
        | inl h ↦ rw (found, s, r, h, mode_rate)
        | inr h ↦ elim (Bool-cases (attr_is J div "data-mode" "recv")) [
          | inl k ↦ rw (found, s, r, h, k, mode_rate)
          | inr k ↦ rw (found, s, r, h, k, mode_rate)
        ]
      ]

  -- Without the scenario the summary throws, whatever the mode of the element.
  pub summarise-throw :
      (div : J.Div) (results scenario : Value N)
      → get results (shown (J.attr div "data-scenario")) ≡ ok scenario
      → has_properties scenario ≡ false
      → summarise J div results ≡ failed type_error
  unfolding summarise
  summarise-throw div results scenario found h =
      elim (Bool-cases (attr_is J div "data-mode" "send")) [
        | inl k ↦ rw (found, k, get-read scenario "send-msg-rate", h)
        | inr k ↦ elim (Bool-cases (attr_is J div "data-mode" "recv")) [
          | inl l ↦ rw (found, k, l, get-read scenario "recv-msg-rate", h)
          | inr l ↦ rw (found, k, l, get-read scenario "send-msg-rate", h)
        ]
      ]
