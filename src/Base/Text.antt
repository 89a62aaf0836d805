-- ===== src/Base/Text.antt =====
-- `String.prototype.split` at one character, `indexOf`, and concatenation with a value that may be
-- `undefined`.
use Prim.Native.Char.{Char, code}
use Prim.Native.String.{String, [], ◌∷◌, ◌++◌}
use Prim.Native.Nat.{ℕ, suc}
use mathlib.Core.Path.{◌≡◌, refl, sym, ap}
use mathlib.Core.Logic.{◌≢◌, inl, inr}
use mathlib.Core.Bool.{true}
use mathlib.Core.Option.{Option, none, some}
use mathlib.Core.Option
use mathlib.Core.List.{List, [], ◌∷◌}
use native.Mathlib.Omega.{arith}
use text.Mathlib.Text.{starts_with}
use text.Mathlib.TextEquality.{Char-path}
use text.Mathlib.TextLemmas.{nil-append, cons-append}
use rabbitmq_perf_test.Base.Tests.{◌==◌, if◌then◌else◌, Bool-cases}
use rabbitmq_perf_test.Base.Lists.{All}

-- An absent attribute in a concatenation reads "undefined".
abbrev pub shown : Option String → String
shown none = "undefined"
shown (some s) = s

-- The character in front of the first word.
abbrev pub push_front : Char → List String → List String
push_front c [] = (c ∷ "") ∷ []
push_front c (w ∷ ws) = (c ∷ w) ∷ ws

unfoldable pub split : ℕ → String → List String
split sep [] = "" ∷ []
split sep (c ∷ s) =
    let words = split sep s in if code c == sep then "" ∷ words else push_front c words

-- The position of the first occurrence; `none` is -1.
unfoldable pub index_of : String → String → Option ℕ
index_of p [] = if starts_with [] p then some 0 else none
index_of p (c ∷ s) = if starts_with (c ∷ s) p then some 0 else Option.map suc (index_of p s)

-- `Array.prototype.join`, the way back from `split`.
unfoldable pub join : Char → List String → String
join sep [] = ""
join sep (w ∷ []) = w
join sep (w ∷ v ∷ ws) = w ++ (sep ∷ join sep (v ∷ ws))

abbrev pub Free : ℕ → String → Type 0
Free sep [] = Unit
Free sep (c ∷ s) = (code c ≢ sep) × Free sep s

join-push_front :
    (sep c : Char) (ws : List String) → ws ≢ [] → join sep (push_front c ws) ≡ c ∷ join sep ws
unfolding join
join-push_front sep c [] h = absurd (h refl)
join-push_front sep c (w ∷ []) h = refl
join-push_front sep c (w ∷ v ∷ ws) h = rw cons-append

pub split-ne-nil : (sep : ℕ) (s : String) → split sep s ≢ []
unfolding split
split-ne-nil sep [] = cc
split-ne-nil sep (c ∷ s) = ground (arith, split-ne-nil sep s)

Char_eq : (c d : Char) → (code c == code d) ≡ true → c ≡ d
Char_eq c d h = Char-path c d (ground arith)

join_cons : (sep : Char) (ws : List String) → ws ≢ [] → join sep ("" ∷ ws) ≡ sep ∷ join sep ws
unfolding join
join_cons sep [] h = absurd (h refl)
join_cons sep (v ∷ ws) h = nil-append _

-- Joining the words gives the text back.
join-split : (sep : Char) (s : String) → join sep (split (code sep) s) ≡ s
unfolding split
join-split sep [] = unfold join in refl
join-split sep (c ∷ s) = elim (Bool-cases (code c == code sep)) [
  | inl same ↦
      rw (same, join_cons sep _ (split-ne-nil (code sep) s), join-split sep s)
        (ap (λ d. d ∷ s) (sym (Char_eq c sep same)))
  | inr other ↦ rw (other, join-push_front sep c _ (split-ne-nil (code sep) s), join-split sep s)
]

Free-push :
    (sep : ℕ) (c : Char) (ws : List String)
    → code c ≢ sep
    → All (Free sep) ws
    → All (Free sep) (push_front c ws)
Free-push sep c [] p h = ((p, tt), tt)
Free-push sep c (w ∷ ws) p (q, h) = ((p, q), h)

-- No word holds the separator.
split-Free : (sep : ℕ) (s : String) → All (Free sep) (split sep s)
unfolding split
split-Free sep [] = (tt, tt)
split-Free sep (c ∷ s) = ground (arith, split-Free sep s, Free-push sep c (split sep s))

split_of_Free : (sep : ℕ) (w : String) → Free sep w → split sep w ≡ w ∷ []
unfolding split
split_of_Free sep [] h = refl
split_of_Free sep (c ∷ w) (p, h) = rw (split_of_Free sep w h) (ground arith)

-- A separator behind a word ends it.
split_at :
    (sep : Char) (w s : String)
    → Free (code sep) w
    → split (code sep) (w ++ (sep ∷ s)) ≡ w ∷ split (code sep) s
unfolding split
split_at sep [] s h = rw nil-append (ground arith)
split_at sep (c ∷ w) s (p, h) = simp (cons-append, split_at sep w s h) (ground arith)

-- Splitting what was joined gives the words back, if none holds the separator.
pub split-join :
    (sep : Char) (ws : List String)
    → ws ≢ []
    → All (Free (code sep)) ws
    → split (code sep) (join sep ws) ≡ ws
unfolding join
split-join sep [] n h = absurd (n refl)
split-join sep (w ∷ []) n h = split_of_Free (code sep) w h.0
split-join sep (w ∷ v ∷ ws) n (p, h) = rw (split_at sep w _ p, split-join sep (v ∷ ws) (λ e. cc) h)
