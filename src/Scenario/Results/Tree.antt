-- ===== src/Scenario/Results/Tree.antt =====
-- The data of the results: what the loop over the keys leaves in the tree of maps.
use text.Mathlib.Text.{◌==◌ as str_eq}
use text.Mathlib.TextEquality.{eq_iff}
use text.Mathlib.TextPositions.{eq_refl}
use rabbitmq_perf_test.Base.{
  ◌≡◌, refl, String, true, inl, inr, Bool-cases, List, [], ◌∷◌, if◌then◌else◌, arith, All,
}
use rabbitmq_perf_test.Js.Number.{Number}
use rabbitmq_perf_test.Js.Value.{Value, obj, Fields, end, field, lookup}
use rabbitmq_perf_test.Js.Value.Read.{has_properties}
use rabbitmq_perf_test.Scenario.Runs.{VariableValue, Key}
use rabbitmq_perf_test.Scenario.Results.{put_field, node_or_new, store, data_tree}

-- A key over two variables.
abbrev pub IsPair : Key → Type 0
IsPair (e ∷ f ∷ []) = Unit
IsPair _ = ⊥

module _ {N : Number} where
  lookup-put_field :
      (j k : String) (v : Value N) (fs : Fields N)
      → lookup j (put_field k v fs) ≡ (if str_eq k j then v else lookup j fs)
  unfolding lookup put_field
  lookup-put_field j k v end = refl
  lookup-put_field j k v (field i w fs) =
      ground (arith, eq_iff k j, eq_iff i k, eq_iff i j, lookup-put_field j k v fs)

  pub lookup-put_field_self :
      (k : String) (v : Value N) (fs : Fields N) → lookup k (put_field k v fs) ≡ v
  lookup-put_field_self k v fs = rw (lookup-put_field k k v fs, eq_refl k)

  -- At the end of the path there is a value that has properties.
  abbrev pub Present : String → String → Fields N → Type 0
  Present s x node =
      (fs : Fields N) × (lookup s node ≡ obj fs) × (has_properties (lookup x fs) ≡ true)

  Present-store_self :
      (e f : VariableValue) (r : Value N) (node : Fields N)
      → has_properties r ≡ true
      → Present e.value f.value (store (e ∷ f ∷ []) r node)
  unfolding store
  Present-store_self e f r node h = (
    put_field f.value r (node_or_new (lookup e.value node)),
    lookup-put_field_self e.value _ node,
    rw (lookup-put_field_self f.value r (node_or_new (lookup e.value node))) h,
  )

  pub has_properties-put_field :
      (x k : String) (r : Value N) (fs : Fields N)
      → has_properties r ≡ true
      → has_properties (lookup x fs) ≡ true
      → has_properties (lookup x (put_field k r fs)) ≡ true
  has_properties-put_field x k r fs h p = elim (Bool-cases (str_eq k x)) [
    | inl e ↦ rw (lookup-put_field x k r fs, e) h
    | inr e ↦ rw (lookup-put_field x k r fs, e) p
  ]

  Present-store :
      (s x : String) (e f : VariableValue) (r : Value N) (node : Fields N)
      → has_properties r ≡ true
      → Present s x node
      → Present s x (store (e ∷ f ∷ []) r node)
  unfolding store
  Present-store s x e f r node h (fs, found, p) = elim (Bool-cases (str_eq e.value s)) [
    | inl same ↦ (
      put_field f.value r fs,
      rw (
        lookup-put_field s e.value (obj (put_field f.value r (node_or_new (lookup e.value node))))
            node,
        same,
        (eq_iff e.value s).0 same,
        found,
      ),
      has_properties-put_field x f.value r fs h p,
    )
    | inr other ↦ (
      fs,
      rw
          (
            lookup-put_field s e.value
                (obj (put_field f.value r (node_or_new (lookup e.value node)))) node,
            other,
          )
          found,
      p,
    )
  ]

  abbrev pub KeyPresent : Fields N → Key → Type 0
  KeyPresent node (e ∷ f ∷ []) = Present e.value f.value node
  KeyPresent node _ = ⊥

  -- The keys with their results.
  abbrev pub entries : (Key → Value N) → List Key → List (Key × Value N)
  entries measured [] = []
  entries measured (k ∷ ks) = (k, measured k) ∷ entries measured ks

  module _ (measured : Key → Value N) (fine : (k : Key) → has_properties (measured k) ≡ true) where
    Present-data_tree :
        (s x : String) (ks : List Key) (node : Fields N)
        → All IsPair ks
        → Present s x node
        → Present s x (data_tree (entries measured ks) node)
    unfolding data_tree
    Present-data_tree s x [] node h p = p
    Present-data_tree s x ((e ∷ f ∷ []) ∷ ks) node (_, h) p =
        Present-data_tree s x ks _ h
          (Present-store s x e f (measured (e ∷ f ∷ [])) node (fine (e ∷ f ∷ [])) p)
    Present-data_tree s x ([] ∷ ks) node (q, h) p = absurd q
    Present-data_tree s x ((e ∷ []) ∷ ks) node (q, h) p = absurd q
    Present-data_tree s x ((e ∷ f ∷ g ∷ es) ∷ ks) node (q, h) p = absurd q

    -- Every key of two elements is found in the tree, whatever is stored behind it.
    pub KeyPresent-data_tree :
        (ks : List Key) (node : Fields N)
        → All IsPair ks
        → All (KeyPresent (data_tree (entries measured ks) node)) ks
    unfolding data_tree
    KeyPresent-data_tree [] node h = tt
    KeyPresent-data_tree ((e ∷ f ∷ []) ∷ ks) node (_, h) = (
      Present-data_tree e.value f.value ks _ h
          (Present-store_self e f (measured (e ∷ f ∷ [])) node (fine (e ∷ f ∷ []))),
      KeyPresent-data_tree ks _ h,
    )
    KeyPresent-data_tree ([] ∷ ks) node (q, h) = absurd q
    KeyPresent-data_tree ((e ∷ []) ∷ ks) node (q, h) = absurd q
    KeyPresent-data_tree ((e ∷ f ∷ g ∷ es) ∷ ks) node (q, h) = absurd q
