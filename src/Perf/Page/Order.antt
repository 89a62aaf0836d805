-- ===== src/Perf/Page/Order.antt =====
-- A page: the order of its charts and summaries, and what an exception leaves undone.
use rabbitmq_perf_test.Base.{◌≡◌, refl, Option, none, some, String, List, [], ◌∷◌, ◌++◌, All}
use mathlib.Core.List.{append_assoc, append-nil}
use rabbitmq_perf_test.Base.Result.{Error, Result, ok, throw}
use rabbitmq_perf_test.Js.Number.{Number}
use rabbitmq_perf_test.Js.Value.{Value}
use rabbitmq_perf_test.Perf.JQuery.{JQuery}
use rabbitmq_perf_test.Perf.Drawing.{Call, append, Run, done, with_value, for_each}
use rabbitmq_perf_test.Perf.Options.Laws.{plots, plots-append}
use rabbitmq_perf_test.Perf.Summary.{summarise}
use rabbitmq_perf_test.Perf.Page.{plot, render_graphs}
use rabbitmq_perf_test.Perf.Page.Draws.{
  elements, elements-append, drawn_of_DrawsOr, untouched_of_DrawsOr, at_once, plot-DrawsOr,
}

module _ {N : Number} {J : JQuery N} (f : J.Div → Run J) where
  -- What the rounds of a loop call if none of them throws.
  abbrev pub calls_of : List J.Div → List (Call J)
  calls_of [] = []
  calls_of (d ∷ ds) = (f d).calls ++ calls_of ds

  abbrev pub Succeeds : J.Div → Type 0
  Succeeds d = (f d).error ≡ none

  pub for_each-done : (ds : List J.Div) → All Succeeds ds → for_each f ds ≡ done (calls_of ds)
  unfolding for_each
  for_each-done [] h = refl
  for_each-done (d ∷ ds) (p, h) = rw (for_each-done ds h, p)

  pub for_each-stopped :
      (before after : List J.Div) (d : J.Div) (e : Error)
      → All Succeeds before
      → (f d).error ≡ some e
      → for_each f (before ++ d ∷ after)
        ≡ record { calls = calls_of before ++ (f d).calls; error = some e }
  unfolding for_each
  for_each-stopped [] after d e h q = rw q
  for_each-stopped (b ∷ before) after d e (p, h) q =
      rw (for_each-stopped before after d e h q, p, append_assoc)

module _ {N : Number} (J : JQuery N) (results : Value N) where
  abbrev draw : J.Div → Run J
  draw div = plot J div results

  abbrev sum_up : J.Div → Run J
  sum_up div = summarise J div results

  abbrev pub all_at_once : List J.Div → List J.Div
  all_at_once [] = []
  all_at_once (d ∷ ds) = at_once J d ++ all_at_once ds

  drawn-calls_of :
      (ds : List J.Div)
      → All (Succeeds draw) ds
      → elements J (plots J (calls_of draw ds)) ≡ all_at_once ds
  drawn-calls_of [] h = refl
  drawn-calls_of (d ∷ ds) (p, h) = rw (
    plots-append J (draw d).calls (calls_of draw ds),
    elements-append J (plots J (draw d).calls) (plots J (calls_of draw ds)),
    drawn_of_DrawsOr (at_once J d) (draw d) p (plot-DrawsOr J d results),
    drawn-calls_of ds h,
  )

  plots_of_append :
      {A : Type 0} (m : Result A) (d : J.Div) (s : A → String)
      → plots J (with_value {J = J} m (λ a. done (append d (s a) ∷ []))).calls ≡ []
  plots_of_append (ok a) d s = refl
  plots_of_append (throw e) d s = refl

  plots-sum_up : (d : J.Div) → plots J (sum_up d).calls ≡ []
  unfolding summarise
  plots-sum_up d = plots_of_append _ d _

  plots-sums : (ds : List J.Div) → plots J (calls_of sum_up ds) ≡ []
  plots-sums [] = refl
  plots-sums (d ∷ ds) =
      rw (plots-append J (sum_up d).calls (calls_of sum_up ds), plots-sum_up d, plots-sums ds)

  render_graphs_calls :
      (parent : Option J.Node)
      → All (Succeeds draw) (J.find parent ".chart, .small-chart")
      → All (Succeeds sum_up) (J.find parent ".summary")
      → render_graphs J results parent
        ≡ done (
            calls_of draw (J.find parent ".chart, .small-chart")
            ++ calls_of sum_up (J.find parent ".summary"))
  unfolding render_graphs
  render_graphs_calls parent h k = rw (
    for_each-done draw (J.find parent ".chart, .small-chart") h,
    for_each-done sum_up (J.find parent ".summary") k,
  )

  -- If no chart and no summary of the page throws, then neither does `render_graphs`; it makes the
  -- calls of the charts and then those of the summaries, in document order, and draws each chart
  -- that needs no request exactly once, in document order.
  pub render_graphs-done :
      (parent : Option J.Node)
      → All (Succeeds draw) (J.find parent ".chart, .small-chart")
      → All (Succeeds sum_up) (J.find parent ".summary")
      → let charts = J.find parent ".chart, .small-chart" in
        (render_graphs J results parent
          ≡ done (calls_of draw charts ++ calls_of sum_up (J.find parent ".summary")))
        × (elements J (plots J (render_graphs J results parent).calls) ≡ all_at_once charts)
  render_graphs-done parent h k = (
    render_graphs_calls parent h k,
    rw
        (
          render_graphs_calls parent h k,
          plots-append J (calls_of draw (J.find parent ".chart, .small-chart"))
              (calls_of sum_up (J.find parent ".summary")),
          plots-sums (J.find parent ".summary"),
          append-nil,
        )
        (drawn-calls_of (J.find parent ".chart, .small-chart") h),
  )

  -- A chart that throws takes the rest of the page with it: the charts before it are there, and
  -- neither it nor a chart behind it nor any summary is.
  pub render_graphs-stopped :
      (parent : Option J.Node) (before after : List J.Div) (d : J.Div) (e : Error)
      → J.find parent ".chart, .small-chart" ≡ before ++ d ∷ after
      → All (Succeeds draw) before
      → (draw d).error ≡ some e
      → render_graphs J results parent ≡ record { calls = calls_of draw before; error = some e }
  unfolding render_graphs
  render_graphs-stopped parent before after d e found h q = rw (
    found,
    for_each-stopped draw before after d e h q,
    untouched_of_DrawsOr (at_once J d) (draw d) e q (plot-DrawsOr J d results),
    append-nil,
  )
