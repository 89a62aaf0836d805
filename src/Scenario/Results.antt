-- ===== src/Scenario/Results.antt =====
-- `VaryingScenarioStats.results`: the dimensions, their values, and the data as a tree of maps. The
-- results of the single runs are given with their keys. A map is the object that it is written as.
pub mod Values
pub mod Tree
pub mod Charted
pub mod Single
use text.Mathlib.Text.{◌==◌ as str_eq}
use rabbitmq_perf_test.Base.{
  String, Bool, true, false, Option, none, some, List, [], ◌∷◌, ◌++◌, ◌||◌, map, if◌then◌else◌,
}
use rabbitmq_perf_test.Base.Assoc.{find, put, or_else}
use rabbitmq_perf_test.Js.Number.{Number}
use rabbitmq_perf_test.Js.Value.{
  Value, undefined, str, arr, obj, Fields, end, field, of_list, lookup,
}
use rabbitmq_perf_test.Scenario.Runs.{VariableValue, Key}

-- `values.contains(value)`
unfoldable pub contains : String → List String → Bool
contains v [] = false
contains v (w ∷ ws) = str_eq w v || contains v ws

unfoldable pub add_value : String → List String → List String
unfolding contains
add_value v vs = if contains v vs then vs else vs ++ v ∷ []

abbrev pub list_or_new : Option (List String) → List String
list_or_new none = []
list_or_new (some vs) = vs

-- One round of the inner loop over the elements of a key.
unfoldable pub note_value :
    VariableValue → List (String × List String) → List (String × List String)
unfolding add_value
note_value e m = put e.name (add_value e.value (list_or_new (find e.name m))) m

unfoldable pub note_key : Key → List (String × List String) → List (String × List String)
unfolding note_value
note_key [] m = m
note_key (e ∷ es) m = note_key es (note_value e m)

unfoldable pub dimension_lists :
    List Key → List (String × List String) → List (String × List String)
unfolding note_key
dimension_lists [] m = m
dimension_lists (k ∷ ks) m = dimension_lists ks (note_key k m)

abbrev pub names : Key → List String
names [] = []
names (e ∷ es) = e.name ∷ names es

module _ {N : Number} where
  -- `map.put`
  unfoldable pub put_field : String → Value N → Fields N → Fields N
  put_field k v end = field k v end
  put_field k v (field j w fs) =
      let rest = put_field k v fs in if str_eq j k then field k v fs else field j w rest

  -- The map at a key of a node: a new one if there is none.
  abbrev pub node_or_new : Value N → Fields N
  node_or_new (obj fs) = fs
  node_or_new v = end

  -- The loop over the elements of one key, from the root of the data.
  unfoldable pub store : Key → Value N → Fields N → Fields N
  unfolding put_field lookup
  store [] results node = node
  store (e ∷ []) results node = put_field e.value results node
  store (e ∷ f ∷ es) results node =
      put_field e.value (obj (store (f ∷ es) results (node_or_new (lookup e.value node)))) node

  unfoldable pub data_tree : List (Key × Value N) → Fields N → Fields N
  unfolding store
  data_tree [] node = node
  data_tree ((k, results) ∷ ks) node = data_tree ks (store k results node)

  abbrev pub texts : List String → Value N
  texts vs = arr (of_list (map str vs))

  abbrev pub value_fields : List (String × List String) → Fields N
  value_fields [] = end
  value_fields ((n, vs) ∷ m) = field n (texts vs) (value_fields m)

  abbrev pub keys_of : List (Key × Value N) → List Key
  keys_of [] = []
  keys_of ((k, _) ∷ ks) = k ∷ keys_of ks

  -- `keys.get(0)` throws if there was no run.
  unfoldable pub results : List (Key × Value N) → Option (Value N)
  unfolding data_tree dimension_lists
  results [] = none
  results ((k, r) ∷ ks) = some (
      obj (
        field "dimensions" (texts (names k)) (
          field "dimension-values" (obj (value_fields (dimension_lists (keys_of ((k, r) ∷ ks)) [])))
            (field "data" (obj (data_tree ((k, r) ∷ ks) end)) end))))
