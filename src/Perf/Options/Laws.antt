-- ===== src/Perf/Options/Laws.antt =====
-- `plot_data`: which options win, and that the chart is drawn once.
use rabbitmq_perf_test.Base.{
  ◌≡◌, refl, ap, false, inl, inr, Bool-cases, Option, none, some, String, List, [], ◌∷◌, ◌++◌, ◌&&◌,
  if◌then◌else◌,
}
use rabbitmq_perf_test.Base.Assoc.{find, put_all, find-put, find-put_all, or_else, HasDistinctKeys}
use text.Mathlib.Text.{◌==◌ as str_eq}
use rabbitmq_perf_test.Js.Number.{Number}
use rabbitmq_perf_test.Perf.JQuery.{JQuery}
use rabbitmq_perf_test.Perf.Drawing.{
  Series, legend_show, one_axis, Settings, Call, wrap, before, after, append, plot_with, ajax,
  alert, attr_or_default, attr_is,
}
use rabbitmq_perf_test.Perf.Ticks.{log_x_axis}
use rabbitmq_perf_test.Perf.Options.{
  default_chrome, hide_legend, scale_x, label_after, second_label, chrome, table, plot_data,
}

module _ {N : Number} (J : JQuery N) where
  find-scale_x :
      (j : String) (div : J.Div) (m : Settings N)
      → find j (scale_x J div m) ≡ (
          if str_eq (attr_or_default J div "x-axis-log" "false") "true" && str_eq "xaxis" j
          then some (one_axis (log_x_axis N))
          else find j m)
  find-scale_x j div m =
      elim (Bool-cases (str_eq (attr_or_default J div "x-axis-log" "false") "true")) [
        | inl h ↦ rw (h, find-put j "xaxis" (one_axis (log_x_axis N)) m)
        | inr h ↦ rw h
      ]

  find-hide_legend :
      (j : String) (div : J.Div) (m : Settings N)
      → find j (hide_legend J div m) ≡ (
          if attr_is J div "class" "small-chart" && str_eq "legend" j
          then some (legend_show false)
          else find j m)
  find-hide_legend j div m = elim (Bool-cases (attr_is J div "class" "small-chart")) [
    | inl h ↦ rw (h, find-put j "legend" (legend_show false) m)
    | inr h ↦ rw h
  ]

  -- Each option of a chart comes from the first of these that has it: the logarithmic x axis, if the
  -- element asks for it; the options of the chart's type, no key of which stands twice; the hidden
  -- legend, if the element is a small chart; the defaults.
  pub find-chrome :
      (j : String) (div : J.Div) (extra : Settings N)
      → HasDistinctKeys extra
      → find j (chrome J div (some extra)) ≡ (
          if str_eq (attr_or_default J div "x-axis-log" "false") "true" && str_eq "xaxis" j
          then some (one_axis (log_x_axis N))
          else or_else (find j extra) (
              if attr_is J div "class" "small-chart" && str_eq "legend" j
              then some (legend_show false)
              else find j (default_chrome J div)))
  unfolding chrome
  find-chrome j div extra h = rw (
    find-scale_x j div (put_all extra (hide_legend J div (default_chrome J div))),
    find-put_all j extra (hide_legend J div (default_chrome J div)) h,
    find-hide_legend j div (default_chrome J div),
  )

  -- The charts that a run draws, in order.
  abbrev pub plots : List (Call J) → List (J.Div × List (Series N) × Settings N)
  plots [] = []
  plots (wrap d p s ∷ cs) = plots cs
  plots (before d p s ∷ cs) = plots cs
  plots (after d p s ∷ cs) = plots cs
  plots (append d s ∷ cs) = plots cs
  plots (plot_with d lines m ∷ cs) = (d, lines, m) ∷ plots cs
  plots (ajax d u ∷ cs) = plots cs
  plots (alert s ∷ cs) = plots cs

  pub plots-append : (cs ds : List (Call J)) → plots (cs ++ ds) ≡ plots cs ++ plots ds
  plots-append [] ds = refl
  plots-append (wrap d p s ∷ cs) ds = plots-append cs ds
  plots-append (before d p s ∷ cs) ds = plots-append cs ds
  plots-append (after d p s ∷ cs) ds = plots-append cs ds
  plots-append (append d s ∷ cs) ds = plots-append cs ds
  plots-append (plot_with d lines m ∷ cs) ds = rw (plots-append cs ds)
  plots-append (ajax d u ∷ cs) ds = plots-append cs ds
  plots-append (alert s ∷ cs) ds = plots-append cs ds

  plots-label_after : (div : J.Div) (o : Option String) → plots (label_after J div o) ≡ []
  plots-label_after div none = refl
  plots-label_after div (some s) = elim (Bool-cases (str_eq s "")) [ inl e ↦ rw e | inr e ↦ rw e ]

  plots-table : (div : J.Div) → plots (table J div) ≡ []
  unfolding table
  plots-table div =
      rw (plots-append (second_label J div) _)
        (ap (λ cs. cs ++ []) (plots-label_after div (J.attr div "data-y-axis2")))

  -- `plot_data` draws one chart, on the given element, with the given lines.
  pub plots-plot_data :
      (div : J.Div) (lines : List (Series N)) (extra : Option (Settings N))
      → plots (plot_data J div lines extra) ≡ (div, lines, chrome J div extra) ∷ []
  unfolding plot_data
  plots-plot_data div lines extra =
      rw (
        plots-append (table J div) (plot_with div lines (chrome J div extra) ∷ []),
        plots-table div,
      )
