-- ===== src/Tests/Html.antt =====
-- A page as a list of elements with their attributes. An element is selected by its class, and the
-- texts that parse are listed with their values.
use rabbitmq_perf_test.Base.{
  refl, String, ◌<>◌, Bool, false, Option, none, some, List, [], ◌∷◌, is_some, if◌then◌else◌,
}
use rabbitmq_perf_test.Base.Assoc.{find}
use rabbitmq_perf_test.Base.Result.{syntax_error, type_error, Result, ok, throw}
use rabbitmq_perf_test.Base.Text.{index_of}
use rabbitmq_perf_test.Js.Value.{Value, arr, items}
use rabbitmq_perf_test.Perf.JQuery.{JQuery, IsLawful}
use rabbitmq_perf_test.Tests.Fixed.{fixed}

abbrev pub Attributes : Type 0
Attributes = List (String × String)

abbrev pub html_attr : Attributes → String → Option String
unfolding find
html_attr div name = find name div

abbrev pub html_class : Option String → String → Bool
unfolding index_of
html_class none selector = false
html_class (some c) selector = is_some (index_of ("." <> c) selector)

unfoldable pub html_select : List Attributes → String → List Attributes
unfolding html_attr html_class
html_select [] selector = []
html_select (d ∷ ds) selector =
    let more = html_select ds selector in
    if html_class (html_attr d "class") selector then d ∷ more else more

abbrev pub html_each : Value fixed → Result (List (Value fixed))
html_each (arr vs) = ok (items vs)
html_each v = throw type_error

abbrev pub html_parse : List (String × Value fixed) → String → Result (Value fixed)
html_parse [] s = throw syntax_error
html_parse texts s = elim (find s texts) [ none ↦ throw syntax_error | some v ↦ ok v ]

abbrev pub html : List Attributes → List (String × Value fixed) → JQuery fixed
html document texts = record {
  Div = Attributes;
  attr = λ div name. find name div;
  Node = List Attributes;
  find = λ parent selector. elim parent [
    | none ↦ html_select document selector
    | some node ↦ html_select node selector
  ];
  each = html_each;
  fail_option = false;
  parse = html_parse texts;
}

pub html-IsLawful :
    (document : List Attributes) (texts : List (String × Value fixed))
    → IsLawful (html document texts)
html-IsLawful document texts = record { each_arr = λ vs. refl }
