-- ===== src/Scenario/Results/Values.antt =====
-- The values of the dimensions: what the loop over the keys of two variables notes.
use text.Mathlib.TextEquality.{eq_iff}
use text.Mathlib.TextPositions.{eq_refl}
use mathlib.Core.List.{append-nil}
use rabbitmq_perf_test.Base.{
  ◌≡◌, ◌≢◌, refl, ap, ◌∙◌, String, true, inl, inr, Bool-cases, some, List, [], ◌∷◌, ◌++◌, ◌||◌,
  arith, All, All-append,
}
use rabbitmq_perf_test.Base.Assoc.{find, put, find-put}
use rabbitmq_perf_test.Scenario.Runs.{value_of, Key}
use rabbitmq_perf_test.Scenario.Results.{
  contains, add_value, list_or_new, note_key, dimension_lists,
}

-- The values of a list in the order in which they are first met.
unfoldable pub add_values : List String → List String → List String
add_values [] vs = vs
add_values (w ∷ ws) vs = add_values ws (add_value w vs)

unfoldable pub distinct : List String → List String
unfolding add_values
distinct ws = add_values ws []

contains-append :
    (u : String) (vs ws : List String) → contains u (vs ++ ws) ≡ (contains u vs || contains u ws)
unfolding contains
contains-append u [] ws = refl
contains-append u (v ∷ vs) ws = ground (arith, contains-append u vs ws)

contains-add_value_self : (v : String) (vs : List String) → contains v (add_value v vs) ≡ true
unfolding add_value contains
contains-add_value_self v vs = ground (arith, contains-append v vs (v ∷ []), eq_refl v)

contains-add_value :
    (u v : String) (vs : List String) → contains u vs ≡ true → contains u (add_value v vs) ≡ true
unfolding add_value
contains-add_value u v vs h = ground (arith, contains-append u vs (v ∷ []))

add_value_again : (v : String) (vs : List String) → contains v vs ≡ true → add_value v vs ≡ vs
unfolding add_value
add_value_again v vs h = rw h

contains-add_values :
    (u : String) (ws vs : List String) → contains u vs ≡ true → contains u (add_values ws vs) ≡ true
unfolding add_values
contains-add_values u [] vs h = h
contains-add_values u (w ∷ ws) vs h =
    contains-add_values u ws (add_value w vs) (contains-add_value u w vs h)

abbrev Contained : List String → List String → Type 0
Contained vs ws = All (λ w. contains w vs ≡ true) ws

add_values-Contained : (ws vs : List String) → Contained (add_values ws vs) ws
unfolding add_values
add_values-Contained [] vs = tt
add_values-Contained (w ∷ ws) vs = (
  contains-add_values w ws (add_value w vs) (contains-add_value_self w vs),
  add_values-Contained ws (add_value w vs),
)

add_values_of_Contained : (ws vs : List String) → Contained vs ws → add_values ws vs ≡ vs
unfolding add_values
add_values_of_Contained [] vs h = refl
add_values_of_Contained (w ∷ ws) vs (p, h) =
    rw (add_value_again w vs p) (add_values_of_Contained ws vs h)

-- Noting the same values again changes nothing.
add_values_again : (ws vs : List String) → add_values ws (add_values ws vs) ≡ add_values ws vs
add_values_again ws vs = add_values_of_Contained ws (add_values ws vs) (add_values-Contained ws vs)

module _ {κ} (P : String → Type κ) where
  All-add_value : (w : String) (vs : List String) → P w → All P vs → All P (add_value w vs)
  unfolding add_value
  All-add_value w vs p h = elim (Bool-cases (contains w vs)) [
    | inl e ↦ rw e h
    | inr e ↦ rw e (All-append P vs (w ∷ []) h (p, tt))
  ]

  All-add_values : (ws vs : List String) → All P ws → All P vs → All P (add_values ws vs)
  unfolding add_values
  All-add_values [] vs h k = k
  All-add_values (w ∷ ws) vs (p, h) k =
      All-add_values ws (add_value w vs) h (All-add_value w vs p k)

  -- What holds of all values holds of the distinct ones.
  pub All-distinct : (ws : List String) → All P ws → All P (distinct ws)
  unfolding distinct
  All-distinct ws h = All-add_values ws [] h tt

-- The values that are noted for a variable.
abbrev pub noted : String → List (String × List String) → List String
noted n m = list_or_new (find n m)

-- The keys of one value of the first variable, and of all its values.
abbrev pub pair : (a b v w : String) → Key
pair a b v w = value_of a v ∷ value_of b w ∷ []

abbrev pub row : (a b v : String) → List String → List Key
row a b v [] = []
row a b v (w ∷ ws) = pair a b v w ∷ row a b v ws

abbrev pub grid : (a b : String) → List String → List String → List Key
grid a b [] ws = []
grid a b (v ∷ vs) ws = row a b v ws ++ grid a b vs ws

dimension_lists-append :
    (ks ls : List Key) (m : List (String × List String))
    → dimension_lists (ks ++ ls) m ≡ dimension_lists ls (dimension_lists ks m)
unfolding dimension_lists
dimension_lists-append [] ls m = refl
dimension_lists-append (k ∷ ks) ls m = dimension_lists-append ks ls (note_key k m)

module _ (a b : String) (differ : a ≢ b) where
  find-note_first :
      (v w : String) (m : List (String × List String))
      → find a (note_key (pair a b v w) m) ≡ some (add_value v (noted a m))
  unfolding note_key
  find-note_first v w m = ground (
    arith,
    eq_iff a b,
    eq_iff b a,
    eq_refl a,
    find-put a a (add_value v (noted a m)) m,
    find-put a b (add_value w (noted b (put a (add_value v (noted a m)) m)))
        (put a (add_value v (noted a m)) m),
  )

  find-note_second :
      (v w : String) (m : List (String × List String))
      → find b (note_key (pair a b v w) m) ≡ some (add_value w (noted b m))
  unfolding note_key
  find-note_second v w m = ground (
    arith,
    eq_iff a b,
    eq_refl b,
    find-put b a (add_value v (noted a m)) m,
    find-put b b (add_value w (noted b (put a (add_value v (noted a m)) m)))
        (put a (add_value v (noted a m)) m),
  )

  -- One row notes its value for the first variable, and all the values for the second.
  noted-row_first :
      (v w : String) (ws : List String) (m : List (String × List String))
      → find a (dimension_lists (row a b v (w ∷ ws)) m) ≡ some (add_value v (noted a m))
  unfolding dimension_lists
  noted-row_first v w [] m = find-note_first v w m
  noted-row_first v w (x ∷ ws) m =
      noted-row_first v x ws (note_key (pair a b v w) m)
      ∙ rw (find-note_first v w m)
          (ap some (add_value_again v _ (contains-add_value_self v (noted a m))))

  noted-row_second :
      (v w : String) (ws : List String) (m : List (String × List String))
      → find b (dimension_lists (row a b v (w ∷ ws)) m) ≡ some (add_values (w ∷ ws) (noted b m))
  unfolding dimension_lists add_values
  noted-row_second v w [] m = find-note_second v w m
  noted-row_second v w (x ∷ ws) m =
      noted-row_second v x ws (note_key (pair a b v w) m) ∙ rw (find-note_second v w m)

  noted-grid_first :
      (v : String) (vs : List String) (w : String) (ws : List String)
      (m : List (String × List String))
      → find a (dimension_lists (grid a b (v ∷ vs) (w ∷ ws)) m)
        ≡ some (add_values (v ∷ vs) (noted a m))
  unfolding add_values
  noted-grid_first v [] w ws m = rw (append-nil (row a b v (w ∷ ws))) (noted-row_first v w ws m)
  noted-grid_first v (u ∷ vs) w ws m =
      rw (dimension_lists-append (row a b v (w ∷ ws)) (grid a b (u ∷ vs) (w ∷ ws)) m) (
        noted-grid_first u vs w ws (dimension_lists (row a b v (w ∷ ws)) m)
        ∙ rw (noted-row_first v w ws m))

  noted-grid_second :
      (v : String) (vs : List String) (w : String) (ws : List String)
      (m : List (String × List String))
      → find b (dimension_lists (grid a b (v ∷ vs) (w ∷ ws)) m)
        ≡ some (add_values (w ∷ ws) (noted b m))
  noted-grid_second v [] w ws m = rw (append-nil (row a b v (w ∷ ws))) (noted-row_second v w ws m)
  noted-grid_second v (u ∷ vs) w ws m =
      rw (dimension_lists-append (row a b v (w ∷ ws)) (grid a b (u ∷ vs) (w ∷ ws)) m) (
        noted-grid_second u vs w ws (dimension_lists (row a b v (w ∷ ws)) m)
        ∙ rw (noted-row_second v w ws m) (ap some (add_values_again (w ∷ ws) (noted b m))))

  -- Each of the two variables gets its distinct values, in the order in which they were run.
  pub find-dimension_lists :
      (v : String) (vs : List String) (w : String) (ws : List String)
      → (find a (dimension_lists (grid a b (v ∷ vs) (w ∷ ws)) []) ≡ some (distinct (v ∷ vs)))
        × (find b (dimension_lists (grid a b (v ∷ vs) (w ∷ ws)) []) ≡ some (distinct (w ∷ ws)))
  unfolding distinct find
  find-dimension_lists v vs w ws = (noted-grid_first v vs w ws [], noted-grid_second v vs w ws [])
