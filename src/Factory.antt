-- ===== src/Factory.antt =====
-- The scenarios of a specification file: com.rabbitmq.perf.ScenarioFactory, and `setValue` of
-- PerfUtil. The file is parsed by a library into maps, lists, texts, numbers and truth values, which
-- are the values of Js.Value without `undefined`; reading `undefined` from a map means that it has
-- no such key.
pub mod Names
pub mod Described
pub mod Accepted
use Prim.Native.Char.{Char}
use Prim.Native.String
use text.Mathlib.Text.{◌==◌ as str_eq}
use rabbitmq_perf_test.Base.{
  ℕ, String, ◌<>◌, Bool, true, false, Option, none, some, List, [], ◌∷◌, map, if◌then◌else◌,
}
use rabbitmq_perf_test.Base.Text.{split}
use rabbitmq_perf_test.Js.Number.{Number}
use rabbitmq_perf_test.Js.Value.{
  Value, undefined, null, bool, num, str, arr, obj, items, Fields, end, field, lookup,
}
use rabbitmq_perf_test.Java.{without_trailing}
use rabbitmq_perf_test.Scenario.Runs.{Variable}

-- The exceptions: the code's own, with the key, name or type that they tell, and Java's.
pub data Failure : Type 0 where
  key_not_found wrong_class no_property unknown_type malformed_uri : String → Failure
  illegal_argument null_pointer class_cast out_of_bounds : Failure

pub data Fallible (A : Type 0) : Type 0 where
  returned : A → Fallible A
  failed : Failure → Fallible A

infixl 5 ◌>>=◌
abbrev pub ◌>>=◌ : {A B : Type 0} → Fallible A → (A → Fallible B) → Fallible B
returned a >>= f = f a
failed e >>= f = failed e

-- A loop that fills an array.
unfoldable pub fill_array : {A B : Type 0} → (A → Fallible B) → List A → Fallible (List B)
fill_array f [] = returned []
fill_array f (x ∷ xs) = f x >>= λ y. fill_array f xs >>= λ ys. returned (y ∷ ys)

-- `toUpperCase` and `toLowerCase` of a text of one character.
pub record Case : Type 0 where
  pub upper : Char → String
  pub lower : Char → String

module _ (C : Case) where
  -- `part.substring(0, 1).toUpperCase() + part.substring(1)`
  abbrev pub capitalised : String → Fallible String
  capitalised String.[] = failed out_of_bounds
  capitalised (String.◌∷◌ c s) = returned (C.upper c <> s)

  abbrev pub lower_first : String → Fallible String
  lower_first String.[] = failed out_of_bounds
  lower_first (String.◌∷◌ c s) = returned (C.lower c <> s)

  -- The loop of `hyphensToCamel`.
  unfoldable pub camel_parts : (out : String) → List String → Fallible String
  camel_parts out [] = returned out
  camel_parts out (part ∷ parts) = capitalised part >>= λ p. camel_parts (out <> p) parts

  unfoldable pub hyphens_to_camel : (name : String) → Fallible String
  hyphens_to_camel name = camel_parts "" (without_trailing (split b'-' name)) >>= lower_first

  -- `JSON_FIELDS_TO_PROPERTY_NAMES` first.
  unfoldable pub map_json_field_to_property_name : (json_field : String) → Fallible String
  map_json_field_to_property_name json_field =
      if str_eq json_field "body"
      then returned "bodyFiles"
      else if str_eq json_field "rate"
      then returned "producerRateLimit"
      else if str_eq json_field "consumer-rate"
      then returned "consumerRateLimit"
      else hyphens_to_camel json_field

abbrev pub cast : {A : Type 0} → String → Option A → Fallible A
cast key none = failed (wrong_class key)
cast key (some a) = returned a

module _ {N : Number} where
  -- The instances of a class.
  abbrev pub as_string : Value N → Option String
  as_string (str s) = some s
  as_string v = none

  abbrev pub as_double : Value N → Option N.Num
  as_double (num x) = some x
  as_double v = none

  abbrev pub as_list : Value N → Option (List (Value N))
  as_list (arr vs) = some (items vs)
  as_list v = none

  -- `read0`, and the two `read`.
  unfoldable pub read_value :
      {A : Type 0} → (Value N → Option A) → (absent : Fallible A) → String → Value N → Fallible A
  read_value clazz absent key undefined = absent
  read_value clazz absent key null = failed null_pointer
  read_value clazz absent key v = cast key (clazz v)

  unfoldable pub read : {A : Type 0} → (Value N → Option A) → String → Fields N → Fallible A
  read clazz key json = read_value clazz (failed (key_not_found key)) key (lookup key json)

  unfoldable pub read_or : {A : Type 0} → (Value N → Option A) → String → Fields N → A → Fallible A
  read_or clazz key json def = read_value clazz (returned def) key (lookup key json)

  -- `(Map) v`, and a method of the map.
  abbrev pub as_map : Value N → Fallible (Fields N)
  as_map (obj fs) = returned fs
  as_map null = failed null_pointer
  as_map v = failed class_cast

-- `getDeclaredMethods` of the parameters of a run, and `setUri`, which may refuse a text; what
-- `convert` and a method do; the number of milliseconds that `intValue` gives; and `toString` of
-- a value.
pub record Environment (N : Number) (P : Type 0) : Type 0 where
  pub letter_case : Case
  pub new_params : P
  pub methods : List (String × (Value N → P → Fallible P))
  pub is_uri : String → Bool
  pub int_value : N.Num → ℕ
  pub to_text : Value N → String

pub data Scenario (P : Type 0) : Type 0 where
  simple : (name : String) (interval : ℕ) (params : List P) → Scenario P
  rate_vs_latency : (name : String) (params : P) → Scenario P
  varying : (name : String) (params : List P) (variables : List Variable) → Scenario P

module _ {N : Number} {P : Type 0} (E : Environment N P) where
  -- The first method of that name.
  unfoldable pub invoke :
      (name setter : String) → List (String × (Value N → P → Fallible P)) → Value N → P → Fallible P
  invoke name setter [] value params = failed (no_property name)
  invoke name setter (m ∷ ms) value params =
      if str_eq m.0 setter then m.1 value params else invoke name setter ms value params

  -- `PerfUtil.setValue`
  unfoldable pub set_value : (name : String) → Value N → P → Fallible P
  set_value String.[] value params = failed illegal_argument
  set_value (String.◌∷◌ c s) value params =
      invoke (String.◌∷◌ c s) ("set" <> (E.letter_case.upper c <> s)) E.methods value params

  unfoldable pub set_values : Fields N → P → Fallible P
  set_values end params = returned params
  set_values (field key value fs) params =
      map_json_field_to_property_name E.letter_case key >>= λ name.
      set_value name value params >>= λ next. set_values fs next

  -- `paramsFromJSON((Map) value)`; the new parameters are those with `setAutoDelete(true)`.
  unfoldable pub params_from_json : Value N → Fallible P
  params_from_json value = as_map value >>= λ json. set_values json E.new_params

  unfoldable pub variable_from_json : Value N → Fallible Variable
  variable_from_json value = as_map value >>= λ json.
      read_or as_string "type" json "multicast" >>= λ type. read as_string "name" json >>= λ name.
      read as_list "values" json >>= λ values.
      if str_eq type "multicast"
      then (map_json_field_to_property_name E.letter_case name >>= λ property.
          returned (record { name = property; values = map E.to_text values }))
      else failed (unknown_type type)

  -- `read` of the URI and `setUri`, in one `try`.
  unfoldable pub set_uri : Fields N → Fallible Unit
  set_uri json = elim (read_or as_string "uri" json "amqp://localhost") [
    | failed _ ↦ failed (malformed_uri "amqp://localhost")
    | returned uri ↦ if E.is_uri uri then returned tt else failed (malformed_uri uri)
  ]

  abbrev pub first_params : List P → Fallible P
  first_params [] = failed out_of_bounds
  first_params (p ∷ ps) = returned p

  -- The choice by the type.
  unfoldable pub scenario_of : (type name : String) → ℕ → List P → Fields N → Fallible (Scenario P)
  scenario_of type name interval params json =
      if str_eq type "simple"
      then returned (simple name interval params)
      else if str_eq type "rate-vs-latency"
      then (first_params params >>= λ p. returned (rate_vs_latency name p))
      else if str_eq type "varying"
      then (read as_list "variables" json >>= λ variables_json.
          fill_array variable_from_json variables_json >>= λ variables.
          returned (varying name params variables))
      else failed (unknown_type type)

  -- `fromJSON`; `thousand` is the default interval.
  unfoldable pub from_json : (thousand : N.Num) → Fields N → Fallible (Scenario P)
  from_json thousand json = read as_string "type" json >>= λ type.
      read as_string "name" json >>= λ name.
      read_or as_double "interval" json thousand >>= λ interval.
      read as_list "params" json >>= λ params_json. set_uri json >>= λ _.
      fill_array params_from_json params_json >>= λ params.
      scenario_of type name (E.int_value interval) params json
