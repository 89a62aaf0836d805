-- ===== src/Perf/JQuery.antt =====
-- What html/perf.js takes from jQuery and from the browser. These are no code of the repository
-- (html/lib holds copies of them), so they are a parameter.
use rabbitmq_perf_test.Base.{◌≡◌, Bool, String, Option, List}
use rabbitmq_perf_test.Base.Result.{Result, ok}
use rabbitmq_perf_test.Js.Number.{Number}
use rabbitmq_perf_test.Js.Value.{Value, Items, arr, items}

pub record JQuery (N : Number) : Type 1 where
  -- An element of the page, and `$(this).attr(name)`.
  pub Div : Type 0
  pub attr : Div → String → Option String
  -- The elements that `$(selector)` selects in the document, or `node.find(selector)` below a node.
  pub Node : Type 0
  pub find : Option Node → String → List Div
  -- The values that `$.each(collection, f)` calls `f` with, in order; it throws on `undefined`.
  pub each : Value N → Result (List (Value N))
  -- Whether `$.ajax` runs a function that its settings call `fail`; its documentation names only
  -- `success`, `error` and `complete`.
  pub fail_option : Bool
  -- `JSON.parse`
  pub parse : String → Result (Value N)

-- jQuery documents of `$.each` that it walks over an array by its indices.
pub record IsLawful {N : Number} (J : JQuery N) : Type 0 where
  pub each_arr : (vs : Items N) → J.each (arr vs) ≡ ok (items vs)
