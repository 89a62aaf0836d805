-- ===== src/Js/Value/Read.antt =====
-- Reading properties as a total function, for statements: `undefined` has no property here, where
-- the code throws.
use rabbitmq_perf_test.Base.{◌≡◌, refl, Bool, true, false, String, List, [], ◌∷◌, if◌then◌else◌}
use rabbitmq_perf_test.Base.Result.{type_error, Result, ok, throw, ◌>>=◌}
use rabbitmq_perf_test.Js.Number.{Number}
use rabbitmq_perf_test.Js.Value.{Value, undefined, null, items, of_list, get}

module _ {N : Number} where
  -- Not `undefined` and not `null`.
  abbrev pub has_properties : Value N → Bool
  has_properties undefined = false
  has_properties null = false
  has_properties v = true

  abbrev pub value_or_undefined : Result (Value N) → Value N
  value_or_undefined (ok v) = v
  value_or_undefined (throw e) = undefined

  unfoldable pub read : Value N → String → Value N
  unfolding get
  read v key = value_or_undefined (get v key)

  -- A property read throws exactly on `undefined` and `null`.
  pub get-read :
      (v : Value N) (key : String)
      → get v key ≡ (if has_properties v then ok (read v key) else throw type_error)
  unfolding get read
  get-read undefined key = refl
  get-read null key = refl
  get-read _ key = refl

  pub get_then-read :
      {B : Type 0} (v : Value N) (key : String) (g : Value N → B)
      → (get v key >>= λ w. ok (g w))
        ≡ (if has_properties v then ok (g (read v key)) else throw type_error)
  unfolding get read
  get_then-read undefined key g = refl
  get_then-read null key g = refl
  get_then-read _ key g = refl

  pub items-of_list : (vs : List (Value N)) → items (of_list vs) ≡ vs
  items-of_list [] = refl
  items-of_list (v ∷ vs) = rw (items-of_list vs)
