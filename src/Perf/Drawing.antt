-- ===== src/Perf/Drawing.antt =====
-- What a chart consists of, and the calls by which html/perf.js puts it on the page.
use rabbitmq_perf_test.Base.{ℕ, ◌<>◌, String, Bool, Option, none, some, List, [], ◌∷◌, ◌++◌}
use rabbitmq_perf_test.Base.Result.{Error, Result, ok, throw}
use rabbitmq_perf_test.Js.Number.{Number}
use rabbitmq_perf_test.Js.Value.{Value}
use rabbitmq_perf_test.Perf.JQuery.{JQuery}
use text.Mathlib.Text.{◌==◌ as str_eq}

-- An element of `chart_data`; a series with no `yaxis` property goes by the first axis.
pub record Series (N : Number) : Type 0 where
  pub label : String
  pub points : List (Value N × Value N)
  pub yaxis : Option ℕ

pub record Axis (N : Number) : Type 0 where
  pub min : N.Num
  pub transform : Option (N.Num → N.Num)
  -- `ticks(axis)` of the axis' `min` and `max`, on fuel.
  pub ticks : Option (ℕ → N.Num → N.Num → Option (List N.Num))
  pub position : Option String

-- The values of the options that are handed to flot.
pub data Setting (N : Number) : Type 0 where
  lines : (show : Bool) → Setting N
  grid : (border_width : ℕ) → (border_color : String) → Setting N
  tick_color : String → Setting N
  legend_at : (position : String) → (background_opacity : N.Num) → Setting N
  legend_show : Bool → Setting N
  one_axis : Axis N → Setting N
  axes : List (Axis N) → Setting N

abbrev pub Settings : Number → Type 0
Settings N = List (String × Setting N)

-- The elements that `plot_data` names: the chart, the cell and the row that it wraps round it.
pub data Place : Type 0 where
  chart cell row : Place

module _ {N : Number} where
  pub data Call (J : JQuery N) : Type 0 where
    wrap : J.Div → Place → String → Call J
    before : J.Div → Place → String → Call J
    after : J.Div → Place → String → Call J
    append : J.Div → String → Call J
    plot_with : J.Div → List (Series N) → Settings N → Call J
    ajax : J.Div → (url : String) → Call J
    alert : String → Call J

  -- A run of a function: its calls, and the exception that ended it, if one did.
  pub record Run (J : JQuery N) : Type 0 where
    pub calls : List (Call J)
    pub error : Option Error

  module _ {J : JQuery N} where
    abbrev pub done : List (Call J) → Run J
    done cs = record { calls = cs; error = none }

    abbrev pub failed : Error → Run J
    failed e = record { calls = []; error = some e }

    -- Statements that follow an exception are not run.
    abbrev pub and_then : Run J → Run J → Run J
    and_then r s = elim r.error [
      | none ↦ record { calls = r.calls ++ s.calls; error = s.error }
      | some e ↦ r
    ]

    -- A value is computed, which can fail, and handed on.
    abbrev pub with_value {ℓ} : {A : Type ℓ} → Result A → (A → Run J) → Run J
    with_value (ok a) f = f a
    with_value (throw e) f = failed e

    -- `divs.map(function() { f($(this)); })`
    unfoldable pub for_each : (J.Div → Run J) → List J.Div → Run J
    for_each f [] = done []
    for_each f (d ∷ ds) = and_then (f d) (for_each f ds)

  module _ (J : JQuery N) where
    -- `attr_or_default`
    unfoldable pub attr_or_default : J.Div → String → String → String
    attr_or_default div key def = elim (J.attr div ("data-" <> key)) [ none ↦ def | some res ↦ res ]

    -- `div.attr(name) == s`
    abbrev pub attr_is : J.Div → String → String → Bool
    attr_is div name s = elim (J.attr div name) [ none ↦ Bool.false | some t ↦ str_eq t s ]
