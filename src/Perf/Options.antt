-- ===== src/Perf/Options.antt =====
-- `plot_data`: the options of a chart, and the table round it. Its last call is that of flot's
-- `$.plot`, which is taken to return; flot throws for an element without dimensions.

pub mod Laws
use rabbitmq_perf_test.Base.{
  ◌<>◌, String, true, false, Option, none, some, List, [], ◌∷◌, ◌++◌, if◌then◌else◌,
}
use rabbitmq_perf_test.Base.Text.{shown}
use rabbitmq_perf_test.Base.Assoc.{put, put_all}
use text.Mathlib.Text.{◌==◌ as str_eq}
use rabbitmq_perf_test.Js.Number.{Number}
use rabbitmq_perf_test.Perf.JQuery.{JQuery}
use rabbitmq_perf_test.Perf.Drawing.{
  Series, lines, grid, tick_color, legend_at, legend_show, one_axis, Settings, chart, cell, row,
  Call, wrap, before, after, plot_with, attr_or_default, attr_is,
}
use rabbitmq_perf_test.Perf.Ticks.{log_x_axis}

module _ {N : Number} (J : JQuery N) where
  -- The literal `chrome`.
  unfoldable pub default_chrome : J.Div → Settings N
  unfolding attr_or_default
  default_chrome div =
      ("series", lines true)
      ∷ ("grid", grid 2 "#aaa")
      ∷ ("xaxis", tick_color "#fff")
      ∷ ("yaxis", tick_color "#eee")
      ∷ ("legend", legend_at (attr_or_default J div "legend" "se") (N.decimal 5 1))
      ∷ []

  abbrev hide_legend : J.Div → Settings N → Settings N
  hide_legend div m =
      if attr_is J div "class" "small-chart" then put "legend" (legend_show false) m else m

  abbrev add_extra : Option (Settings N) → Settings N → Settings N
  add_extra none m = m
  add_extra (some extra) m = put_all extra m

  abbrev scale_x : J.Div → Settings N → Settings N
  scale_x div m =
      if str_eq (attr_or_default J div "x-axis-log" "false") "true"
      then put "xaxis" (one_axis (log_x_axis N)) m
      else m

  -- The value of `chrome` that `$.plot` receives.
  unfoldable pub chrome : J.Div → Option (Settings N) → Settings N
  unfolding default_chrome
  chrome div extra = scale_x div (add_extra extra (hide_legend div (default_chrome div)))

  -- `if (div.attr('data-y-axis2'))`: the attribute is there and not empty.
  abbrev label_after : J.Div → Option String → List (Call J)
  label_after div none = []
  label_after div (some s) =
      if str_eq s "" then [] else after div cell ("<td class=\"yaxis\">" <> (s <> "</td>")) ∷ []

  abbrev second_label : J.Div → List (Call J)
  second_label div = label_after div (J.attr div "data-y-axis2")

  -- The calls that lay out the table.
  unfoldable pub table : J.Div → List (Call J)
  table div =
      wrap div chart "<td />"
      ∷ wrap div cell "<tr/>"
      ∷ wrap div row ("<table class=\"" <> (shown (J.attr div "class") <> "-wrapper\"/>"))
      ∷ before div cell ("<td class=\"yaxis\">" <> (shown (J.attr div "data-y-axis") <> "</td>"))
      ∷ (second_label div
          ++ after div row (
              "<tr><td></td><td class=\"xaxis\">"
              <> (shown (J.attr div "data-x-axis") <> "</td><td></td></tr>"))
            ∷ [])

  unfoldable pub plot_data : J.Div → List (Series N) → Option (Settings N) → List (Call J)
  unfolding table chrome
  plot_data div chart_data extra = table div ++ plot_with div chart_data (chrome div extra) ∷ []
