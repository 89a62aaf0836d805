-- ===== src/Scenario/Counters/Samples.antt =====
-- The samples of a run, and the chart of type "time" that is drawn from them.
use mathlib.Core.List.{append-nil, append_assoc, map-append}
use mathlib.Core.Bool.{true≢false}
use rabbitmq_perf_test.Base.{
  ℕ, ◌/◌, ◌%◌, ◌≡◌, refl, ap, sym, ◌∙◌, inl, inr, Bool, true, Bool-cases, List, [], ◌∷◌, ◌++◌, map,
  length, ◌==◌, if◌then◌else◌,
}
use rabbitmq_perf_test.Base.Result.{ok, all}
use rabbitmq_perf_test.Js.Number.{Number}
use rabbitmq_perf_test.Js.Value.{Value, num, arr, of_list, get, lookup}
use rabbitmq_perf_test.Js.Value.Read.{has_properties, read, items-of_list}
use rabbitmq_perf_test.Perf.JQuery.{JQuery, IsLawful}
use rabbitmq_perf_test.Perf.Drawing.{attr_is}
use rabbitmq_perf_test.Perf.Time.{time_series}
use rabbitmq_perf_test.Perf.Time.Laws.{expected_line, rates, rates_and_latency, time_series_lem}
use rabbitmq_perf_test.Java.{wrap, add_long, sub_long, lt_long}
use rabbitmq_perf_test.Scenario.Counters.{
  Event, send, return_back, confirm, nack, recv, Stats, reset, started, count, rate, sample_of,
  report_sample, report, handle, handle_all, run_results,
}
use rabbitmq_perf_test.Scenario.Counters.Intervals.{
  Interval, Open, opened, tally, closed, closes, behind, intervals,
}
use rabbitmq_perf_test.Scenario.Counters.Laws.{
  IsTallied, IsTallied-count, IsTallied-handle, IsTallied-started,
}

all-append :
    {A : Type 0} (p : A → Bool) (xs : List A) (x : A)
    → all p xs ≡ true
    → p x ≡ true
    → all p (xs ++ x ∷ []) ≡ true
all-append p [] x h e = rw e
all-append p (y ∷ xs) x h e = elim (Bool-cases (p y)) [
  | inl q ↦ rw q (all-append p xs x (rw q at h) e)
  | inr q ↦ absurd (true≢false (sym (rw q at h)))
]

module _ (N : Number) (double : ℕ → N.Num) (interval : ℕ) where
  -- Messages per second over an interval of that many nanoseconds, to the millisecond.
  abbrev pub rate_over : ℕ → ℕ → Value N
  rate_over messages elapsed = num (rate N double messages (elapsed / 1_000_000))

  abbrev IsSampled : List Interval → List (Value N) → Type 0
  IsSampled is vs =
      (all has_properties vs ≡ true)
      × (map (λ v. read v "send-msg-rate") vs ≡ map (λ i. rate_over (i.sends % wrap) i.elapsed) is)
      × (map (λ v. read v "recv-msg-rate") vs ≡ map (λ i. rate_over (i.recvs % wrap) i.elapsed) is)

  samples-count : (e : Event) (s : Stats N) → (count e s).samples ≡ s.samples
  unfolding count
  samples-count send s = refl
  samples-count return_back s = refl
  samples-count (confirm n) s = refl
  samples-count (nack n) s = refl
  samples-count (recv latency) s = elim (Bool-cases (lt_long latency 0)) [
    | inl e ↦ rw e
    | inr e ↦ rw e
  ]

  IsSampled-append :
      (is : List Interval) (vs : List (Value N)) (i : Interval) (v : Value N)
      → IsSampled is vs
      → has_properties v ≡ true
      → read v "send-msg-rate" ≡ rate_over (i.sends % wrap) i.elapsed
      → read v "recv-msg-rate" ≡ rate_over (i.recvs % wrap) i.elapsed
      → IsSampled (is ++ i ∷ []) (vs ++ v ∷ [])
  IsSampled-append is vs i v (p, a, b) q c d = (
    all-append has_properties vs v p q,
    map-append (λ w. read w "send-msg-rate") vs (v ∷ [])
        ∙ rw (a, c)
            (sym (map-append (λ (j : Interval). rate_over (j.sends % wrap) j.elapsed) is (i ∷ []))),
    map-append (λ w. read w "recv-msg-rate") vs (v ∷ [])
        ∙ rw (b, d)
            (sym (map-append (λ (j : Interval). rate_over (j.recvs % wrap) j.elapsed) is (i ∷ []))),
  )

  IsSampled-report_sample :
      (is : List Interval) (o : Open) (s : Stats N)
      → IsTallied N double interval o s
      → IsSampled is s.samples
      → IsSampled (is ++ closed s.elapsed_interval o ∷ []) (report_sample N double s).samples
  unfolding report_sample sample_of read get lookup
  IsSampled-report_sample is o s (a, b, _) h =
      let i = closed s.elapsed_interval o in
      let elapsed = s.elapsed_interval / 1_000_000 in
      let sends : read (sample_of N double s) "send-msg-rate"
          ≡ rate_over (o.sends % wrap) s.elapsed_interval =
        ap (λ n. num (rate N double n elapsed)) a in
      let recvs : read (sample_of N double s) "recv-msg-rate"
          ≡ rate_over (o.recvs % wrap) s.elapsed_interval =
        ap (λ n. num (rate N double n elapsed)) b in
      let more = IsSampled-append is s.samples i (sample_of N double s) h refl sends recvs in
      elim (Bool-cases (length s.samples == 3)) [ inl e ↦ rw e more | inr e ↦ rw e more ]

  IsSampled-report :
      (now : ℕ) (is : List Interval) (o : Open) (s : Stats N)
      → IsTallied N double interval o s
      → IsSampled is s.samples
      → IsSampled (is ++ closes interval now o) (report N double interval now s).samples
  unfolding report reset
  IsSampled-report now is o s (a, b, began) h =
      elim (Bool-cases (lt_long (sub_long now s.last_stats_time) interval)) [
        | inl e ↦ rw (← began, e, append-nil is) h
        | inr e ↦
            rw (← began, e)
              (IsSampled-report_sample is o
                (record s {
                  elapsed_interval = sub_long now s.last_stats_time;
                  elapsed_total = add_long s.elapsed_total (sub_long now s.last_stats_time);
                })
                (a, b, began) h)
      ]

  IsSampled-handle_all :
      (es : List (ℕ × Event)) (is : List Interval) (o : Open) (s : Stats N)
      → IsTallied N double interval o s
      → IsSampled is s.samples
      → IsSampled (is ++ intervals interval es o) (handle_all N double interval es s).samples
  unfolding handle_all handle intervals
  IsSampled-handle_all [] is o s tallied h = rw (append-nil is) h
  IsSampled-handle_all ((now, e) ∷ es) is o s tallied h =
      let u = tally e o in
      let more = closes interval now u in
      rw (← append_assoc is more (intervals interval es (behind interval now u))) (
        IsSampled-handle_all es (is ++ more) (behind interval now u)
          (handle N double interval (now, e) s)
          (IsTallied-handle N double interval now e o s tallied)
          (IsSampled-report now is u (count e s) (IsTallied-count N double interval e o s tallied)
            (rw (samples-count e s) h)))

  get-run_results :
      (s : Stats N) → get (run_results N double s) "samples" ≡ ok (arr (of_list s.samples))
  unfolding run_results get lookup
  get-run_results s = elim (Bool-cases (lt_long 0 s.latency_count_total)) [
    | inl e ↦ rw e
    | inr e ↦ rw e
  ]

  -- A run is always charted over time. After any sequence of handlers, each called once with a
  -- time, `plot_time` computes its lines from the results with no exception, one point for each
  -- sample, and the latency exactly if the element asks for it; and the samples that it draws give,
  -- in order, the messages per second of each closed interval: those for which `handleSend` and
  -- `handleRecv` were called in it, counted modulo 2^64.
  pub time_series-run_results :
      (J : JQuery N)
      → IsLawful J
      → (es : List (ℕ × Event)) (t size : ℕ) (div : J.Div)
      → let s = handle_all N double interval es (started t size) in
        let is = intervals interval es (opened t) in
        (time_series J div (run_results N double s)
          ≡ ok (
              map
                (expected_line J s.samples)
                (if attr_is J div "data-latency" "true" then rates_and_latency J else rates J)))
        × (map (λ v. read v "send-msg-rate") s.samples
            ≡ map (λ i. rate_over (i.sends % wrap) i.elapsed) is)
        × (map (λ v. read v "recv-msg-rate") s.samples
            ≡ map (λ i. rate_over (i.recvs % wrap) i.elapsed) is)
  unfolding started reset
  time_series-run_results J L es t size div =
      let s = handle_all N double interval es (started t size) in
      let (p, a, b) =
        IsSampled-handle_all es [] (opened t) (started t size)
          (IsTallied-started N double interval t size) (refl, refl, refl) in
      (
        time_series_lem J L (run_results N double s) (of_list s.samples) (get-run_results s) div
            ∙ rw (items-of_list s.samples, p),
        a,
        b,
      )
