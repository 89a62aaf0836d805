-- ===== src/Js/Value.antt =====
-- Values, and the operators that html/perf.js applies to them. Objects are as `JSON.parse` makes
-- them: a key at most once, and own properties only (a key such as "constructor", which every
-- object inherits, reads `undefined` here).
pub mod Read
use Prim.Native.String
use text.Mathlib.Text.{◌==◌ as str_eq}
use rabbitmq_perf_test.Base.{
  ℕ, zero, suc, String, ◌<>◌, Bool, true, false, Option, none, some, List, [], ◌∷◌, length,
  if◌then◌else◌,
}
use rabbitmq_perf_test.Base.Result.{type_error, Result, ok, throw}
use rabbitmq_perf_test.Js.Number.{Number, of_ℕ}

mutual
  pub data Value (N : Number) : Type 0 where
    undefined null : Value N
    bool : Bool → Value N
    num : N.Num → Value N
    str : String → Value N
    arr : Items N → Value N
    obj : Fields N → Value N

  pub data Items (N : Number) : Type 0 where
    nil : Items N
    cons : Value N → Items N → Items N

  pub data Fields (N : Number) : Type 0 where
    end : Fields N
    field : String → Value N → Fields N → Fields N

module _ {N : Number} where
  abbrev pub items : Items N → List (Value N)
  items nil = []
  items (cons v vs) = v ∷ items vs

  abbrev pub of_list : List (Value N) → Items N
  of_list [] = nil
  of_list (v ∷ vs) = cons v (of_list vs)

  -- The property of an object; `undefined` if it has none of that name.
  unfoldable pub lookup : String → Fields N → Value N
  lookup key end = undefined
  lookup key (field k v fs) = if str_eq k key then v else lookup key fs

  -- The element whose index, written as a text, is the key; `i` is the index of the first.
  unfoldable pub item_at : ℕ → String → List (Value N) → Value N
  item_at i key [] = undefined
  item_at i key (v ∷ vs) = if str_eq (N.to_string (of_ℕ N i)) key then v else item_at (suc i) key vs

  -- The same for the characters of a text (one code unit each).
  unfoldable pub char_at : ℕ → String → String → Value N
  char_at i key String.[] = undefined
  char_at i key (String.◌∷◌ c s) =
      if str_eq (N.to_string (of_ℕ N i)) key
      then str (String.◌∷◌ c String.[])
      else char_at (suc i) key s

  -- `v[key]` for a text
  unfoldable pub get : Value N → String → Result (Value N)
  unfolding lookup
  get undefined key = throw type_error
  get null key = throw type_error
  get (obj fs) key = ok (lookup key fs)
  get (arr vs) key =
      ok
        (if str_eq key "length" then num (of_ℕ N (length (items vs))) else item_at 0 key (items vs))
  get (str s) key =
      ok (if str_eq key "length" then num (of_ℕ N (String.count s)) else char_at 0 key s)
  get (bool b) key = ok undefined
  get (num x) key = ok undefined

  abbrev nth : ℕ → List (Value N) → Value N
  nth i [] = undefined
  nth zero (v ∷ vs) = v
  nth (suc i) (v ∷ vs) = nth i vs

  abbrev nth_char : ℕ → String → Value N
  nth_char i String.[] = undefined
  nth_char zero (String.◌∷◌ c s) = str (String.◌∷◌ c String.[])
  nth_char (suc i) (String.◌∷◌ c s) = nth_char i s

  -- `v[i]` for an index, which is the property of that name of an object.
  unfoldable pub index : Value N → ℕ → Result (Value N)
  unfolding lookup
  index undefined i = throw type_error
  index null i = throw type_error
  index (obj fs) i = ok (lookup (N.to_string (of_ℕ N i)) fs)
  index (arr vs) i = ok (nth i (items vs))
  index (str s) i = ok (nth_char i s)
  index (bool b) i = ok undefined
  index (num x) i = ok undefined

-- What `join` writes for an element whose `String(v)` is the second argument.
abbrev element : {N : Number} → Value N → String → String
element undefined s = ""
element null s = ""
element v s = s

-- `String(v)`, which a key and a concatenation use; of an array it is `join(",")`.
unfoldable mutual
  pub to_string : {N : Number} → Value N → String
  to_string undefined = "undefined"
  to_string null = "null"
  to_string (bool b) = if b then "true" else "false"
  to_string {N} (num x) = N.to_string x
  to_string (str s) = s
  to_string (arr vs) = join_items vs
  to_string (obj fs) = "[object Object]"

  pub join_items : {N : Number} → Items N → String
  join_items nil = ""
  join_items (cons v vs) = element v (to_string v) <> join_more vs

  pub join_more : {N : Number} → Items N → String
  join_more nil = ""
  join_more (cons v vs) = "," <> (element v (to_string v) <> join_more vs)

module _ {N : Number} where
  unfoldable pub to_number : Value N → N.Num
  unfolding to_string
  to_number undefined = N.nan
  to_number null = of_ℕ N 0
  to_number (bool b) = of_ℕ N (if b then 1 else 0)
  to_number (num x) = x
  to_number (str s) = N.parse s
  to_number (arr vs) = N.parse (to_string (arr vs))
  to_number (obj fs) = N.nan

  -- The operand of `+` as a primitive value.
  to_primitive : Value N → Value N
  unfolding to_string
  to_primitive (arr vs) = str (to_string (arr vs))
  to_primitive (obj fs) = str (to_string (obj fs))
  to_primitive v = v

  add_primitives : Value N → Value N → Value N
  unfolding to_string to_number
  add_primitives (str s) w = str (s <> to_string w)
  add_primitives v (str t) = str (to_string v <> t)
  add_primitives v w = num (N.add (to_number v) (to_number w))

  -- `v + w`
  unfoldable pub add : Value N → Value N → Value N
  unfolding to_primitive add_primitives
  add v w = add_primitives (to_primitive v) (to_primitive w)

  -- `v == a` for an attribute, which is a text or `undefined`.
  unfoldable pub loose_eq : Value N → Option String → Bool
  unfolding to_string to_number
  loose_eq undefined none = true
  loose_eq null none = true
  loose_eq undefined (some t) = false
  loose_eq null (some t) = false
  loose_eq v none = false
  loose_eq (str s) (some t) = str_eq s t
  loose_eq (num x) (some t) = N.eq x (N.parse t)
  loose_eq (bool b) (some t) = N.eq (to_number (bool b)) (N.parse t)
  loose_eq (arr vs) (some t) = str_eq (to_string (arr vs)) t
  loose_eq (obj fs) (some t) = str_eq (to_string (obj fs)) t
