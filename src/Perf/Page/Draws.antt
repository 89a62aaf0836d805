-- ===== src/Perf/Page/Draws.antt =====
-- A page: what an exception leaves undone, and that the charts are drawn once each.
use rabbitmq_perf_test.Base.{
  ◌≡◌, ap, refl, Bool, inl, inr, Bool-cases, Option, none, some, is_some, Option-cases, List, [],
  ◌∷◌, ◌++◌, ◌||◌, if◌then◌else◌,
}
use rabbitmq_perf_test.Base.Result.{Error, Result, ok, throw}
use rabbitmq_perf_test.Js.Number.{Number}
use rabbitmq_perf_test.Js.Value.{Value, get}
use rabbitmq_perf_test.Base.Text.{shown}
use rabbitmq_perf_test.Perf.JQuery.{JQuery}
use rabbitmq_perf_test.Perf.Drawing.{Series, Settings, Run, done, with_value, attr_is}
use rabbitmq_perf_test.Perf.Options.{plot_data}
use rabbitmq_perf_test.Perf.Options.Laws.{plots, plots-plot_data}
use rabbitmq_perf_test.Perf.Time.{plot_time}
use rabbitmq_perf_test.Perf.Varying.{plot_series, plot_x_y, plot_r_l}
use rabbitmq_perf_test.Perf.Page.{scenario_parts, plot_varying, plot0, plot}

module _ {N : Number} (J : JQuery N) where
  -- The elements of a list of charts.
  abbrev pub elements : List (J.Div × List (Series N) × Settings N) → List J.Div
  elements [] = []
  elements ((d, _, _) ∷ ps) = d ∷ elements ps

  pub elements-append :
      (ps qs : List (J.Div × List (Series N) × Settings N))
      → elements (ps ++ qs) ≡ elements ps ++ elements qs
  elements-append [] qs = refl
  elements-append ((d, _, _) ∷ ps) qs = rw (elements-append ps qs)

module _ {N : Number} {J : JQuery N} where
  -- A run that throws has made no call, and one that does not has drawn one chart on each of these
  -- elements.
  abbrev pub DrawsOr : List J.Div → Run J → Type 0
  DrawsOr ds r = elim r.error [ none ↦ elements J (plots J r.calls) ≡ ds | some e ↦ r.calls ≡ [] ]

  pub drawn_of_DrawsOr :
      (ds : List J.Div) (r : Run J)
      → r.error ≡ none
      → DrawsOr ds r
      → elements J (plots J r.calls) ≡ ds
  drawn_of_DrawsOr ds r e h = rw e at h

  pub untouched_of_DrawsOr :
      (ds : List J.Div) (r : Run J) (e : Error) → r.error ≡ some e → DrawsOr ds r → r.calls ≡ []
  untouched_of_DrawsOr ds r e q h = rw q at h

module _ {N : Number} (J : JQuery N) (div : J.Div) where
  DrawsOr-plot :
      {A : Type 0} (m : Result A) (lines : A → List (Series N)) (extra : A → Option (Settings N))
      → DrawsOr (div ∷ []) (with_value m (λ a. done (plot_data J div (lines a) (extra a))))
  DrawsOr-plot (ok a) lines extra = ap (elements J) (plots-plot_data J div (lines a) (extra a))
  DrawsOr-plot (throw e) lines extra = refl

  DrawsOr-with_value :
      {A : Type 0} (ds : List J.Div) (m : Result A) (f : A → Run J)
      → ((a : A) → DrawsOr ds (f a))
      → DrawsOr ds (with_value m f)
  DrawsOr-with_value ds (ok a) f h = h a
  DrawsOr-with_value ds (throw e) f h = refl

  -- The four types of chart.
  abbrev pub is_chart : Bool
  is_chart =
      attr_is J div "data-type" "time"
      || attr_is J div "data-type" "series"
      || attr_is J div "data-type" "x-y"
      || attr_is J div "data-type" "r-l"

  plot_varying-DrawsOr :
      (dimensions dimension_values values : Value N)
      → DrawsOr
          (if attr_is J div "data-type" "series"
              || attr_is J div "data-type" "x-y"
              || attr_is J div "data-type" "r-l"
            then div ∷ []
            else [])
          (plot_varying J div dimensions dimension_values values)
  unfolding plot_varying plot_series plot_x_y plot_r_l
  plot_varying-DrawsOr dimensions dimension_values values =
      elim (Bool-cases (attr_is J div "data-type" "series")) [
        | inl h ↦ rw h (DrawsOr-plot _ _ _)
        | inr h ↦ rw h (elim (Bool-cases (attr_is J div "data-type" "x-y")) [
          | inl h ↦ rw h (DrawsOr-plot _ _ _)
          | inr h ↦ rw h (elim (Bool-cases (attr_is J div "data-type" "r-l")) [
            | inl h ↦ rw h (DrawsOr-plot _ _ _)
            | inr h ↦ rw h refl
          ])
        ])
      ]

  plot_time-DrawsOr : (v : Value N) → DrawsOr (div ∷ []) (plot_time J div v)
  unfolding plot_time
  plot_time-DrawsOr v = DrawsOr-plot _ _ _

  plot0-DrawsOr :
      (results : Value N) → DrawsOr (if is_chart then div ∷ [] else []) (plot0 J div results)
  unfolding plot0
  plot0-DrawsOr results = elim (Bool-cases (attr_is J div "data-type" "time")) [
    | inl h ↦ rw h (
        DrawsOr-with_value (div ∷ []) (get results (shown (J.attr div "data-scenario")))
          (plot_time J div) plot_time-DrawsOr)
    | inr h ↦ rw h (
        DrawsOr-with_value _ (scenario_parts J div results) _
          (λ (a, b, c). plot_varying-DrawsOr a b c))
  ]

  -- The charts that `plot` draws with no request.
  abbrev pub at_once : List J.Div
  at_once = if is_some (J.attr div "data-file") then [] else if is_chart then div ∷ [] else []

  pub plot-DrawsOr : (results : Value N) → DrawsOr at_once (plot J div results)
  unfolding plot
  plot-DrawsOr results = elim (Option-cases (J.attr div "data-file")) [
    | inl e ↦ rw (e, plot) (plot0-DrawsOr results)
    | inr (file, e) ↦ rw (e, plot) refl
  ]
