-- ===== src/Factory/Accepted.antt =====
-- com.rabbitmq.perf.ScenarioFactory: what is known of a specification that is accepted.
use text.Mathlib.TextEquality.{eq_iff}
use rabbitmq_perf_test.Base.{ℕ, ◌≡◌, refl, ap, ◌∙◌, String, List, arith}
use rabbitmq_perf_test.Js.Number.{Number}
use rabbitmq_perf_test.Js.Value.{Value, undefined, null, bool, num, str, arr, obj, Fields, lookup}
use rabbitmq_perf_test.Factory.{
  Fallible, returned, failed, ◌>>=◌, fill_array, as_string, as_list, as_double, read_value, read,
  read_or, Environment, Scenario, simple, rate_vs_latency, varying, params_from_json, set_uri,
  scenario_of, from_json, Failure,
}

module _ {P : Type 0} where
  -- The type and the name of a scenario.
  abbrev pub type_of : Scenario P → String
  type_of (simple name interval params) = "simple"
  type_of (rate_vs_latency name params) = "rate-vs-latency"
  type_of (varying name params variables) = "varying"

  abbrev pub name_of : Scenario P → String
  name_of (simple name interval params) = name
  name_of (rate_vs_latency name params) = name
  name_of (varying name params variables) = name

bind-returned :
    {A B : Type 0} (m : Fallible A) (f : A → Fallible B) (b : B)
    → (m >>= f) ≡ returned b
    → (a : A) × (m ≡ returned a) × (f a ≡ returned b)
bind-returned (returned a) f b h = (a, refl, h)
bind-returned (failed e) f b h = cc

module _ {N : Number} where
  read_value-string :
      (key : String) (e : Failure) (v : Value N) (s : String)
      → read_value as_string (failed e) key v ≡ returned s
      → v ≡ str s
  unfolding read_value
  read_value-string key e undefined s h = cc
  read_value-string key e null s h = cc
  read_value-string key e (bool b) s h = cc
  read_value-string key e (num x) s h = cc
  read_value-string key e (str t) s h = cc
  read_value-string key e (arr vs) s h = cc
  read_value-string key e (obj fs) s h = cc

module _ {N : Number} {P : Type 0} (E : Environment N P) where
  scenario_of-type_of :
      (type name : String) (interval : ℕ) (made : List P) (json : Fields N) (s : Scenario P)
      → scenario_of E type name interval made json ≡ returned s
      → (type ≡ type_of s) × (name ≡ name_of s)
  unfolding scenario_of
  scenario_of-type_of type name interval made json s h =
      ground (arith, eq_iff type "simple", eq_iff type "rate-vs-latency", eq_iff type "varying")

  -- A specification that is accepted names its type, which is one of the three, and its name as
  -- texts, and the scenario is of that type and has that name.
  pub from_json-type_of :
      (thousand : N.Num) (json : Fields N) (s : Scenario P)
      → from_json E thousand json ≡ returned s
      → (lookup "type" json ≡ str (type_of s)) × (lookup "name" json ≡ str (name_of s))
  unfolding from_json read
  from_json-type_of thousand json s h =
      let (type, has_type, h1) = bind-returned (read as_string "type" json) _ s h in
      let (name, has_name, h2) = bind-returned (read as_string "name" json) _ s h1 in
      let (interval, _, h3) = bind-returned (read_or as_double "interval" json thousand) _ s h2 in
      let (params_json, _, h4) = bind-returned (read as_list "params" json) _ s h3 in
      let (_, _, h5) = bind-returned (set_uri E json) _ s h4 in
      let (params, _, h6) = bind-returned (fill_array (params_from_json E) params_json) _ s h5 in
      let (is_type, is_name) =
        scenario_of-type_of type name (E.int_value interval) params json s h6 in
      (
        read_value-string "type" _ (lookup "type" json) (type_of s)
            (has_type ∙ ap returned is_type),
        read_value-string "name" _ (lookup "name" json) (name_of s)
            (has_name ∙ ap returned is_name),
      )
