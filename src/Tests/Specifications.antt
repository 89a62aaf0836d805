-- ===== src/Tests/Specifications.antt =====
-- The scenarios of html/examples/various-spec.js, with the letters from a to z, and parameters that
-- note what is set.
use Prim.Native.Char.{Char, char, code, nul, IsScalar}
use Prim.Native.Nat.{compare, Ordering}
use native.Mathlib.Decide.{dec_lt}
use text.Mathlib.Text.{◌==◌ as str_eq}
use text.Mathlib.TextEquality.{Char-path, eq_iff}
use rabbitmq_perf_test.Base.{
  ℕ, ◌+◌, ◌-◌, ◌<◌, ◌≡◌, refl, ◌∙◌, String, true, ◌&&◌, List, [], ◌∷◌, ◌++◌, map, length, arith,
  ltb, if◌then◌else◌,
}
use rabbitmq_perf_test.Base.Text.{split, join}
use rabbitmq_perf_test.Java.{without_trailing}
use rabbitmq_perf_test.Js.Number.{of_ℕ}
use rabbitmq_perf_test.Js.Value.{Value, null, bool, num, str, obj, end, field, lookup, to_string}
use rabbitmq_perf_test.Scenario.Runs.{run}
use rabbitmq_perf_test.Examples.Specifications.{
  size_values, producer_counts, without_consumers, message_sizes_and_producers_spec,
  rate_vs_latency_spec,
}
use rabbitmq_perf_test.Factory.{
  key_not_found, no_property, null_pointer, out_of_bounds, Fallible, returned, failed, fill_array,
  Case, camel_parts, hyphens_to_camel, map_json_field_to_property_name, read_value, read, read_or,
  Environment, rate_vs_latency, varying, invoke, set_value, set_values, params_from_json,
  variable_from_json, set_uri, scenario_of, from_json,
}
use rabbitmq_perf_test.Factory.Names.{HasCapitals, map_json_field_to_property_name-join}
use rabbitmq_perf_test.Factory.Described.{
  Planned, planned_variable, every_combination, from_json-planned,
}
use rabbitmq_perf_test.Factory.Accepted.{from_json-type_of}
use rabbitmq_perf_test.Tests.Fixed.{fixed}

small-IsScalar : (n : ℕ) → n < 55_296 → IsScalar n
small-IsScalar n h = let e : compare n 55_296 ≡ Ordering.lt = ground arith in rw e tt

character : ℕ → Char
unfolding small-IsScalar
character n = elim (dec_lt n 55_296) [ yes h ↦ char n (small-IsScalar n h) | no _ ↦ nul ]

code-character : (n : ℕ) → n < 55_296 → code (character n) ≡ n
unfolding character
code-character n h =
    elim (dec_lt n 55_296)
      as (λ d. code (elim d [ yes h ↦ char n (small-IsScalar n h) | no _ ↦ nul ]) ≡ n) [
        | yes _ ↦ refl
        | no k ↦ absurd (k h)
      ]

abbrev letters : Case
letters = record {
  upper = λ c.
      if ltb 96 (code c) && ltb (code c) 123
      then String.◌∷◌ (character (code c - 32)) ""
      else String.◌∷◌ c "";
  lower = λ c.
      if ltb 64 (code c) && ltb (code c) 91
      then String.◌∷◌ (character (code c + 32)) ""
      else String.◌∷◌ c "";
}

letters-HasCapitals : HasCapitals letters
letters-HasCapitals c low high =
    let d = character (code c - 32) in
    let e : code d ≡ code c - 32 = code-character (code c - 32) (omega arith) in
    let back : character (code d + 32) ≡ c =
      Char-path (character (code d + 32)) c
        (code-character (code d + 32) (omega (arith, e)) ∙ omega (arith, e)) in
    (d, ground arith, rw back (ground (arith, e)))

abbrev Assignments : Type 0
Assignments = List (String × Value fixed)

abbrev note : String → Value fixed → Assignments → Fallible Assignments
note name value settings = returned (settings ++ (name, value) ∷ [])

abbrev environment : Environment fixed Assignments
environment = record {
  letter_case = letters;
  new_params = ("autoDelete", bool true) ∷ [];
  methods =
      ("setTimeLimit", note "timeLimit")
      ∷ ("setConsumerCount", note "consumerCount")
      ∷ ("setProducerCount", note "producerCount")
      ∷ [];
  is_uri = λ uri. str_eq uri "amqp://localhost";
  int_value = λ x. 1000;
  to_text = to_string;
}

java : Unit {0}
unfolding character small-IsScalar dec_lt without_trailing split camel_parts hyphens_to_camel
    map_json_field_to_property_name read_value read read_or invoke set_value set_values
    params_from_json variable_from_json set_uri scenario_of fill_array from_json lookup to_string
    join
java = tt

hyphens_to_camel_run :
    (hyphens_to_camel letters "min-msg-size" ≡ returned "minMsgSize")
    × (hyphens_to_camel letters "" ≡ failed out_of_bounds)
    × (hyphens_to_camel letters "a--b" ≡ failed out_of_bounds)
unfolding java
hyphens_to_camel_run = (refl, refl, refl)

map_json_field_to_property_name-join_example :
    map_json_field_to_property_name letters "min-msg-size" ≡ returned "minMsgSize"
unfolding java
map_json_field_to_property_name-join_example =
    map_json_field_to_property_name-join letters letters-HasCapitals "m" "in"
      (("m", "sg") ∷ ("s", "ize") ∷ []) (omega arith) (omega arith) (ground arith)
      (ground (arith, eq_iff "min-msg-size" "body")) (ground (arith, eq_iff "min-msg-size" "rate"))
      (ground (arith, eq_iff "min-msg-size" "consumer-rate"))

-- The keys that have a property of their own.
own_property_run :
    (map_json_field_to_property_name letters "body" ≡ returned "bodyFiles")
    × (map_json_field_to_property_name letters "consumer-rate" ≡ returned "consumerRateLimit")
unfolding java
own_property_run = (refl, refl)

abbrev planned : List (Planned fixed)
planned =
    record { name = "min-msg-size"; property = "minMsgSize"; values = size_values fixed }
    ∷ record { name = "producer-count"; property = "producerCount"; values = producer_counts fixed }
    ∷ []

abbrev made : List Assignments
made =
    (("autoDelete", bool true)
      ∷ ("timeLimit", num (of_ℕ fixed 30))
      ∷ ("consumerCount", num (of_ℕ fixed 0))
      ∷ [])
    ∷ []

-- Forty runs.
from_json-planned_example :
    (from_json environment (of_ℕ fixed 1000) (message_sizes_and_producers_spec fixed)
      ≡ returned
          (varying "message-sizes-and-producers" made (map (planned_variable environment) planned)))
    × (run (map (planned_variable environment) planned) [] ≡ every_combination environment planned)
    × (length (every_combination environment planned) ≡ 40)
unfolding java
from_json-planned_example =
    from_json-planned environment (of_ℕ fixed 1000) "message-sizes-and-producers"
      (without_consumers fixed) made planned (message_sizes_and_producers_spec fixed)
      (record {
        has_type = refl;
        has_name = refl;
        has_params = refl;
        has_variables = refl;
        no_interval = refl;
        no_uri = refl;
      })
      refl refl (refl, (refl, tt))

from_json_type_run :
    (lookup "type" (rate_vs_latency_spec fixed) ≡ str "rate-vs-latency")
    × (lookup "name" (rate_vs_latency_spec fixed) ≡ str "rate-vs-latency")
unfolding java
from_json_type_run =
    from_json-type_of environment (of_ℕ fixed 1000) (rate_vs_latency_spec fixed)
      (rate_vs_latency "rate-vs-latency"
        (("autoDelete", bool true) ∷ ("timeLimit", num (of_ℕ fixed 30)) ∷ []))
      refl

-- What is refused.
from_json_run :
    (from_json environment (of_ℕ fixed 1000) (field "name" (str "x") end)
      ≡ failed (key_not_found "type"))
    × (from_json environment (of_ℕ fixed 1000) (field "type" (str "simple") (field "name" null end))
        ≡ failed null_pointer)
    × (params_from_json environment (obj (field "time-limits" (num (of_ℕ fixed 1)) end))
        ≡ failed (no_property "timeLimits"))
unfolding java
from_json_run = (refl, refl, refl)
