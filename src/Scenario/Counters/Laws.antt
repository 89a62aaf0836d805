-- ===== src/Scenario/Counters/Laws.antt =====
-- What the totals of a run count, and which time the overall rates are taken over.
use mathlib.Core.List.{append-nil, append_assoc}
use rabbitmq_perf_test.Base.{
  ℕ, ◌+◌, ◌%◌, ◌<◌, ◌≡◌, refl, inl, inr, Bool-cases, List, [], ◌∷◌, ◌++◌, length, length-append,
  ◌==◌, arith,
}
use rabbitmq_perf_test.Js.Number.{Number}
use rabbitmq_perf_test.Java.{wrap, add_long, sub_long, lt_long}
use rabbitmq_perf_test.Scenario.Counters.{
  Event, send, return_back, confirm, nack, recv, Stats, reset, started, count, rate, report_sample,
  report, handle, handle_all, get_send_rate, get_recv_rate,
}
use rabbitmq_perf_test.Scenario.Counters.Intervals.{
  Interval, Open, opened, tally, closed, closes, behind, intervals, left_open, total, total-append,
  counted, counted-append,
}

longer {ℓ κ} :
    {A : Type ℓ} {B : Type κ} (xs : List A) (ys : List B) (x : A) (y : B)
    → length xs ≡ length ys
    → length (xs ++ x ∷ []) ≡ length (ys ++ y ∷ [])
longer xs ys x y e = omega (arith, e, length-append xs (x ∷ []), length-append ys (y ∷ []))

module _ (N : Number) (double : ℕ → N.Num) (interval : ℕ) where
  -- The counters of the interval are those of its messages.
  abbrev pub IsTallied : Open → Stats N → Type 0
  IsTallied o s =
      (s.send_count_interval ≡ o.sends % wrap)
      × (s.recv_count_interval ≡ o.recvs % wrap)
      × (s.last_stats_time ≡ o.since)

  pub IsTallied-count :
      (e : Event) (o : Open) (s : Stats N) → IsTallied o s → IsTallied (tally e o) (count e s)
  unfolding count
  IsTallied-count send o s (a, b, c) = (omega (arith, a), b, c)
  IsTallied-count return_back o s h = h
  IsTallied-count (confirm n) o s h = h
  IsTallied-count (nack n) o s h = h
  IsTallied-count (recv latency) o s (a, b, c) = elim (Bool-cases (lt_long latency 0)) [
    | inl e ↦ rw e (a, omega (arith, b), c)
    | inr e ↦ rw e (a, omega (arith, b), c)
  ]

  IsTallied-report :
      (now : ℕ) (o : Open) (s : Stats N)
      → IsTallied o s
      → IsTallied (behind interval now o) (report N double interval now s)
  unfolding report reset report_sample
  IsTallied-report now o s (a, b, c) = elim (Bool-cases (lt_long (sub_long now o.since) interval)) [
    | inl e ↦ rw (c, e) (a, b, refl)
    | inr e ↦ rw (c, e) (refl, refl, refl)
  ]

  pub IsTallied-handle :
      (now : ℕ) (e : Event) (o : Open) (s : Stats N)
      → IsTallied o s
      → IsTallied (behind interval now (tally e o)) (handle N double interval (now, e) s)
  unfolding handle
  IsTallied-handle now e o s h =
      IsTallied-report now (tally e o) (count e s) (IsTallied-count e o s h)

  pub IsTallied-started : (t size : ℕ) → IsTallied (opened t) (started t size)
  unfolding started reset
  IsTallied-started t size = (refl, refl, refl)

  abbrev IsCounted : List Interval → Open → Stats N → Type 0
  IsCounted is o s =
      (length s.samples ≡ length is)
      × (s.send_count_total ≡ (total (λ i. i.sends) (counted is) + o.sends) % wrap)
      × (s.recv_count_total ≡ (total (λ i. i.recvs) (counted is) + o.recvs) % wrap)
      × (s.elapsed_total ≡ (s.elapsed_total_to_ignore + total (λ i. i.elapsed) (counted is)) % wrap)
      × (s.elapsed_total_to_ignore < wrap)

  IsCounted-started : (t size : ℕ) → IsCounted [] (opened t) (started t size)
  unfolding started reset
  IsCounted-started t size = (refl, refl, refl, refl, omega arith)

  IsCounted-count :
      (e : Event) (is : List Interval) (o : Open) (s : Stats N)
      → IsCounted is o s
      → IsCounted is (tally e o) (count e s)
  unfolding count
  IsCounted-count send is o s (l, a, b, c, d) = (l, omega (arith, a), b, c, d)
  IsCounted-count return_back is o s h = h
  IsCounted-count (confirm n) is o s h = h
  IsCounted-count (nack n) is o s h = h
  IsCounted-count (recv latency) is o s (l, a, b, c, d) = elim (Bool-cases (lt_long latency 0)) [
    | inl e ↦ rw e (l, a, omega (arith, b), c, d)
    | inr e ↦ rw e (l, a, omega (arith, b), c, d)
  ]

  -- A report closes the interval: it is counted, or with the fourth all before it are forgotten.
  IsCounted-closed :
      (now : ℕ) (is : List Interval) (o : Open) (s : Stats N) (elapsed : ℕ)
      → IsCounted is o s
      → IsCounted (is ++ closed elapsed o ∷ []) (opened now) (
          reset now (
            report_sample N double (record s {
              elapsed_interval = elapsed;
              elapsed_total = add_long s.elapsed_total elapsed;
            })))
  unfolding reset report_sample
  IsCounted-closed now is o s elapsed (l, a, b, c, d) = elim (Bool-cases (length is == 3)) [
    | inl e ↦
        rw (l, counted-append is (closed elapsed o), e)
          (longer s.samples is _ _ l, refl, refl, omega arith, omega arith)
    | inr e ↦
        rw
          (
            l,
            counted-append is (closed elapsed o),
            e,
            total-append (λ j. j.sends) (counted is) (closed elapsed o),
            total-append (λ j. j.recvs) (counted is) (closed elapsed o),
            total-append (λ j. j.elapsed) (counted is) (closed elapsed o),
          )
          (longer s.samples is _ _ l, omega (arith, a), omega (arith, b), omega (arith, c), d)
  ]

  IsCounted-report :
      (now : ℕ) (is : List Interval) (o : Open) (s : Stats N)
      → s.last_stats_time ≡ o.since
      → IsCounted is o s
      → IsCounted
          (is ++ closes interval now o)
          (behind interval now o)
          (report N double interval now s)
  unfolding report
  IsCounted-report now is o s began h =
      elim (Bool-cases (lt_long (sub_long now s.last_stats_time) interval)) [
        | inl e ↦ rw (← began, e, append-nil is) h
        | inr e ↦ rw (← began, e) (IsCounted-closed now is o s (sub_long now s.last_stats_time) h)
      ]

  IsCounted-handle_all :
      (es : List (ℕ × Event)) (is : List Interval) (o : Open) (s : Stats N)
      → IsTallied o s
      → IsCounted is o s
      → IsCounted
          (is ++ intervals interval es o)
          (left_open interval es o)
          (handle_all N double interval es s)
  unfolding handle_all handle intervals left_open
  IsCounted-handle_all [] is o s tallied h = rw (append-nil is) h
  IsCounted-handle_all ((now, e) ∷ es) is o s tallied h =
      let u = tally e o in
      let more = closes interval now u in
      let (_, _, began) = IsTallied-count e o s tallied in
      rw (← append_assoc is more (intervals interval es (behind interval now u))) (
        IsCounted-handle_all es (is ++ more) (behind interval now u)
          (handle N double interval (now, e) s) (IsTallied-handle now e o s tallied)
          (IsCounted-report now is u (count e s) began (IsCounted-count e is o s h)))

  -- The totals of a run do not count its first four intervals (the first three, by the name of the
  -- constant). After any sequence of handlers, each called once with a time, the overall rates are
  -- `rate` of the messages for which `handleSend` and `handleRecv` were called behind the first four
  -- closed intervals (from the start on, as long as there are less than four), those of the open
  -- interval included, over the length of the closed ones of these intervals in nanoseconds, where
  -- the rates of a sample are over milliseconds; and there is one sample for each closed interval.
  -- An interval is closed by the first call that comes `interval` nanoseconds or more behind its
  -- start, the message of this call included. Messages and nanoseconds are counted modulo 2^64.
  pub get_send_rate-handle_all :
      (es : List (ℕ × Event)) (t size : ℕ)
      → let s = handle_all N double interval es (started t size) in
        let is = intervals interval es (opened t) in
        let o = left_open interval es (opened t) in
        let elapsed = total (λ i. i.elapsed) (counted is) % wrap in
        (length s.samples ≡ length is)
        × (get_send_rate N double s
            ≡ rate N double ((total (λ i. i.sends) (counted is) + o.sends) % wrap) elapsed)
        × (get_recv_rate N double s
            ≡ rate N double ((total (λ i. i.recvs) (counted is) + o.recvs) % wrap) elapsed)
  unfolding get_send_rate get_recv_rate
  get_send_rate-handle_all es t size =
      let s = handle_all N double interval es (started t size) in
      let is = intervals interval es (opened t) in
      let (l, a, b, c, d) =
        IsCounted-handle_all es [] (opened t) (started t size) (IsTallied-started t size)
          (IsCounted-started t size) in
      let elapsed : sub_long s.elapsed_total s.elapsed_total_to_ignore
          ≡ total (λ i. i.elapsed) (counted is) % wrap =
        omega (arith, c, d) in
      (l, rw (elapsed, ← a), rw (elapsed, ← b))
