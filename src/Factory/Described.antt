-- ===== src/Factory/Described.antt =====
-- com.rabbitmq.perf.ScenarioFactory: from the specification of a varying scenario to its runs.
use mathlib.Core.List.{append-nil, append_assoc, map-append}
use rabbitmq_perf_test.Base.{
  ℕ, ◌*◌, ◌≡◌, refl, ap, sym, ◌∙◌, String, true, List, [], ◌∷◌, ◌++◌, map, length, length-append,
  length-map, arith, All,
}
use rabbitmq_perf_test.Js.Number.{Number}
use rabbitmq_perf_test.Js.Value.{
  Value, undefined, str, arr, obj, items, of_list, Items, Fields, end, field, lookup,
}
use rabbitmq_perf_test.Js.Value.Read.{items-of_list}
use rabbitmq_perf_test.Scenario.Runs.{Variable, VariableValue, Key, run, run_values, value_of}
use rabbitmq_perf_test.Factory.{
  returned, fill_array, map_json_field_to_property_name, read_value, read, read_or, Environment,
  varying, params_from_json, variable_from_json, set_uri, scenario_of, from_json,
}

-- A variable of a specification, and the property that its name stands for.
pub record Planned (N : Number) : Type 0 where
  pub name : String
  pub property : String
  pub values : List (Value N)

module _ {N : Number} where
  abbrev pub described : Planned N → Value N
  described p = obj (field "name" (str p.name) (field "values" (arr (of_list p.values)) end))

abbrev pub planned_runs : {N : Number} → List (Planned N) → ℕ
planned_runs [] = 1
planned_runs (p ∷ ps) = length p.values * planned_runs ps

module _ {N : Number} {P : Type 0} (E : Environment N P) where
  abbrev pub planned_variable : Planned N → Variable
  planned_variable p = record { name = p.property; values = map E.to_text p.values }

  abbrev pub IsNamed : Planned N → Type 0
  IsNamed p = map_json_field_to_property_name E.letter_case p.name ≡ returned p.property

  -- One value for each variable, in all ways: those with the first value of the first variable come
  -- first.
  abbrev pub with_each : (name : String) → List (Value N) → List Key → List Key
  with_each name [] keys = []
  with_each name (v ∷ vs) keys =
      map (λ key. value_of name (E.to_text v) ∷ key) keys ++ with_each name vs keys

  abbrev pub every_combination : List (Planned N) → List Key
  every_combination [] = [] ∷ []
  every_combination (p ∷ ps) = with_each p.property p.values (every_combination ps)

  length-with_each :
      (name : String) (vs : List (Value N)) (keys : List Key)
      → length (with_each name vs keys) ≡ length vs * length keys
  length-with_each name [] keys = omega arith
  length-with_each name (v ∷ vs) keys =
      let one = map (λ key. value_of name (E.to_text v) ∷ key) keys in
      rw
        (
          length-append one (with_each name vs keys),
          length-map (λ key. value_of name (E.to_text v) ∷ key) keys,
          length-with_each name vs keys,
        )
        (omega arith)

  length-every_combination :
      (ps : List (Planned N)) → length (every_combination ps) ≡ planned_runs ps
  length-every_combination [] = refl
  length-every_combination (p ∷ ps) =
      length-with_each p.property p.values (every_combination ps)
      ∙ ap (λ n. length p.values * n) (length-every_combination ps)

  -- What stands before the values of a variable.
  prefixed :
      (before : Key) (v : VariableValue) (keys : List Key)
      → map (λ key. (before ++ v ∷ []) ++ key) keys
        ≡ map (λ key. before ++ key) (map (λ key. v ∷ key) keys)
  prefixed before v [] = refl
  prefixed before v (key ∷ keys) =
      rw (append_assoc before (v ∷ []) key, prefixed before v keys) refl

  run_values-with_each :
      (rest : Key → List Key) (keys : List Key) (name : String) (vs : List (Value N)) (before : Key)
      → ((key : Key) → rest key ≡ map (λ k. key ++ k) keys)
      → run_values rest name (map E.to_text vs) before
        ≡ map (λ k. before ++ k) (with_each name vs keys)
  unfolding run_values
  run_values-with_each rest keys name [] before h = refl
  run_values-with_each rest keys name (v ∷ vs) before h =
      let x = value_of name (E.to_text v) in
      rw
        (
          h (before ++ x ∷ []),
          prefixed before x keys,
          run_values-with_each rest keys name vs before h,
        )
        (sym (map-append (λ k. before ++ k) (map (λ k. x ∷ k) keys) (with_each name vs keys)))

  run-every_combination :
      (ps : List (Planned N)) (before : Key)
      → run (map planned_variable ps) before ≡ map (λ k. before ++ k) (every_combination ps)
  unfolding run
  run-every_combination [] before = rw (append-nil before) refl
  run-every_combination (p ∷ ps) before =
      run_values-with_each (run (map planned_variable ps)) (every_combination ps) p.property
        p.values before (run-every_combination ps)

  same : (keys : List Key) → map (λ k. k) keys ≡ keys
  same [] = refl
  same (key ∷ keys) = ap (λ ks. key ∷ ks) (same keys)

  variable_from_json-described :
      (p : Planned N)
      → IsNamed p
      → variable_from_json E (described p) ≡ returned (planned_variable p)
  unfolding variable_from_json read read_or read_value lookup
  variable_from_json-described p named = rw (items-of_list p.values, named) refl

  fill_array-described :
      (ps : List (Planned N))
      → All IsNamed ps
      → fill_array (variable_from_json E) (map described ps) ≡ returned (map planned_variable ps)
  unfolding fill_array
  fill_array-described [] h = refl
  fill_array-described (p ∷ ps) (named, h) =
      rw (variable_from_json-described p named, fill_array-described ps h) refl

  -- The values of the keys that a specification of a varying scenario has.
  pub record IsSpecification (name : String) (params : Items N) (ps : List (Planned N))
      (json : Fields N) : Type 0 where
    pub has_type : lookup "type" json ≡ str "varying"
    pub has_name : lookup "name" json ≡ str name
    pub has_params : lookup "params" json ≡ arr params
    pub has_variables : lookup "variables" json ≡ arr (of_list (map described ps))
    pub no_interval : lookup "interval" json ≡ undefined
    pub no_uri : lookup "uri" json ≡ undefined

  set_uri_default :
      (json : Fields N)
      → lookup "uri" json ≡ undefined
      → E.is_uri "amqp://localhost" ≡ true
      → set_uri E json ≡ returned tt
  unfolding set_uri read_or read_value
  set_uri_default json absent good = rw (set_uri, read_or, absent, good) refl

  scenario_of-planned :
      (name : String) (interval : ℕ) (made : List P) (ps : List (Planned N)) (json : Fields N)
      → lookup "variables" json ≡ arr (of_list (map described ps))
      → All IsNamed ps
      → scenario_of E "varying" name interval made json
        ≡ returned (varying name made (map planned_variable ps))
  unfolding scenario_of read read_value
  scenario_of-planned name interval made ps json found named =
      rw (scenario_of, read, found, items-of_list (map described ps), fill_array-described ps named)
        refl

  -- A specification of a varying scenario makes that scenario. Its runs are the combinations of the
  -- values of its variables, each variable with its property, in order: those with the first value
  -- of the first variable come first, and among them those with the first value of the second. There
  -- are as many as the product of the numbers of values. The names of the variables stand for
  -- properties, all parameters can be set, and there is no interval and no URI, where the default is
  -- a URI.
  pub from_json-planned :
      (thousand : N.Num) (name : String) (params : Items N) (made : List P) (ps : List (Planned N))
      (json : Fields N)
      → IsSpecification name params ps json
      → E.is_uri "amqp://localhost" ≡ true
      → fill_array (params_from_json E) (items params) ≡ returned made
      → All IsNamed ps
      → (from_json E thousand json ≡ returned (varying name made (map planned_variable ps)))
        × (run (map planned_variable ps) [] ≡ every_combination ps)
        × (length (every_combination ps) ≡ planned_runs ps)
  unfolding from_json read read_or read_value
  from_json-planned thousand name params made ps json is good all_made named =
      rw
        (
          is.has_type,
          is.has_name,
          is.no_interval,
          is.has_params,
          set_uri_default json is.no_uri good,
          all_made,
          scenario_of-planned name (E.int_value thousand) made ps json is.has_variables named,
        )
        (
          refl,
          run-every_combination ps [] ∙ same (every_combination ps),
          length-every_combination ps,
        )
