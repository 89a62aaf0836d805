-- ===== src/Perf/Summary.antt =====
-- `summarise`: the message rate of a scenario as a line of text.
pub mod Rates
use rabbitmq_perf_test.Base.{◌<>◌, [], ◌∷◌, if◌then◌else◌}
use rabbitmq_perf_test.Base.Result.{Result, ok, ◌>>=◌}
use rabbitmq_perf_test.Base.Text.{shown}
use rabbitmq_perf_test.Js.Number.{Number, of_ℕ}
use rabbitmq_perf_test.Js.Value.{Value, get, add, to_number}
use rabbitmq_perf_test.Perf.JQuery.{JQuery}
use rabbitmq_perf_test.Perf.Drawing.{append, Run, done, with_value, attr_is}

module _ {N : Number} (J : JQuery N) where
  -- The three branches that compute `rate`.
  unfoldable pub summary_rate : J.Div → Value N → Result N.Num
  summary_rate div results =
      let sent = get results "send-msg-rate" >>= λ v. ok (N.round (to_number v)) in
      let received = get results "recv-msg-rate" >>= λ v. ok (N.round (to_number v)) in
      let average = (do
        s ← get results "send-msg-rate"
        r ← get results "recv-msg-rate"
        ok (N.round (N.div (to_number (add s r)) (of_ℕ N 2)))) in
      if attr_is J div "data-mode" "send"
      then sent
      else if attr_is J div "data-mode" "recv"
      then received
      else average

  unfoldable pub summarise : J.Div → Value N → Run J
  unfolding summary_rate
  summarise div results =
      with_value
        (do scenario ← get results (shown (J.attr div "data-scenario")); summary_rate div scenario)
        λ rate. done (append div ("<strong>" <> (N.to_string rate <> "</strong>msg/s")) ∷ [])
