-- ===== src/Base/Assoc.antt =====
-- Objects that the code writes to: an assignment replaces the property of that name, or adds one
-- behind the others.
use Prim.Native.String.{String}
use mathlib.Core.Path.{◌≡◌, refl}
use mathlib.Core.Option.{Option, none, some}
use mathlib.Core.List.{List, [], ◌∷◌}
use native.Mathlib.Omega.{arith}
use text.Mathlib.Text.{◌==◌}
use text.Mathlib.TextEquality.{eq_iff}
use rabbitmq_perf_test.Base.Tests.{if◌then◌else◌}

module _ {ℓ} {V : Type ℓ} where
  unfoldable pub find : String → List (String × V) → Option V
  find k [] = none
  find k ((j, v) ∷ m) = if j == k then some v else find k m

  -- `m[k] = v`
  unfoldable pub put : String → V → List (String × V) → List (String × V)
  put k v [] = (k, v) ∷ []
  put k v ((j, w) ∷ m) = if j == k then (k, v) ∷ m else (j, w) ∷ put k v m

  -- `for (var k in extra) { m[k] = extra[k]; }`
  unfoldable pub put_all : List (String × V) → List (String × V) → List (String × V)
  put_all [] m = m
  put_all ((k, v) ∷ extra) m = put_all extra (put k v m)

  pub find-put :
      (j k : String) (v : V) (m : List (String × V))
      → find j (put k v m) ≡ (if k == j then some v else find j m)
  unfolding find put
  find-put j k v [] = refl
  find-put j k v ((i, w) ∷ m) = ground (arith, eq_iff k j, eq_iff i k, eq_iff i j, find-put j k v m)

  abbrev pub or_else : Option V → Option V → Option V
  or_else none d = d
  or_else (some v) d = some v

  -- No key stands twice.
  abbrev pub HasDistinctKeys : List (String × V) → Type ℓ
  HasDistinctKeys [] = Unit
  HasDistinctKeys ((k, v) ∷ m) = (find k m ≡ none) × HasDistinctKeys m

  -- What was written last wins, and the other properties stay.
  pub find-put_all :
      (j : String) (extra m : List (String × V))
      → HasDistinctKeys extra
      → find j (put_all extra m) ≡ or_else (find j extra) (find j m)
  unfolding put_all find
  find-put_all j [] m h = refl
  find-put_all j ((k, v) ∷ extra) m (fresh, h) =
      rw (find-put_all j extra (put k v m) h, find-put j k v m) (ground (arith, eq_iff k j))
