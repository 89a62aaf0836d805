-- ===== src/Scenario/Runs.antt =====
-- `VaryingScenario.run`: the keys for which it asks for statistics, in order.
use rabbitmq_perf_test.Base.{String, List, [], ◌∷◌, ◌++◌}

-- A value of a variable, by the text that `getValue().toString()` gives.
pub record VariableValue : Type 0 where
  pub name : String
  pub value : String

pub record Variable : Type 0 where
  pub name : String
  pub values : List String

abbrev pub Key : Type 0
Key = List VariableValue

-- `MulticastVariable.getValues`
abbrev pub value_of : String → String → VariableValue
value_of n v = record { name = n; value = v }

-- The loop over the values of a variable, and in it the run over the other variables, which is the
-- second argument.
unfoldable pub run_values : (Key → List Key) → String → List String → Key → List Key
run_values rest n [] values = []
run_values rest n (v ∷ vs) values =
    rest (values ++ value_of n v ∷ []) ++ run_values rest n vs values

unfoldable pub run : List Variable → Key → List Key
unfolding run_values
run [] values = values ∷ []
run (variable ∷ rest) values = run_values (run rest) variable.name variable.values values
