-- ===== src/Factory/Names.antt =====
-- com.rabbitmq.perf.ScenarioFactory: the property that a hyphenated key names.
use Prim.Native.Char.{Char, code}
use text.Mathlib.Text.{◌==◌ as str_eq}
use text.Mathlib.TextEquality.{eq_iff}
use text.Mathlib.TextLemmas.{nil-append, cons-append, append-nil, append_assoc}
use rabbitmq_perf_test.Base.{
  ◌≤◌, ◌≡◌, ◌≢◌, false, refl, ap, String, ◌<>◌, List, [], ◌∷◌, map, All, Bool-cases, inl, inr,
  if◌then◌else◌,
}
use rabbitmq_perf_test.Base.Text.{join, Free, split-join}
use rabbitmq_perf_test.Java.{without_trailing}
use rabbitmq_perf_test.Factory.{
  Case, returned, camel_parts, hyphens_to_camel, map_json_field_to_property_name,
}

-- The small letters from a to z have capital ones.
abbrev pub HasCapitals : Case → Type 0
HasCapitals C =
    (c : Char)
    → 97 ≤ code c
    → code c ≤ 122
    → (d : Char) × (C.upper c ≡ String.◌∷◌ d "") × (C.lower d ≡ String.◌∷◌ c "")

-- A word by its first character and the rest.
abbrev pub word : Char × String → String
word (c, s) = String.◌∷◌ c s

module _ (C : Case) where
  -- The words behind the first one.
  abbrev pub capitals : List (Char × String) → String
  capitals [] = ""
  capitals ((c, s) ∷ ws) = (C.upper c <> s) <> capitals ws

  camel_parts-capitals :
      (out : String) (ws : List (Char × String))
      → camel_parts C out (map word ws) ≡ returned (out <> capitals ws)
  unfolding camel_parts
  camel_parts-capitals out [] = rw (append-nil out) refl
  camel_parts-capitals out ((c, s) ∷ ws) =
      rw (camel_parts-capitals (out <> (C.upper c <> s)) ws)
        (ap returned (append_assoc out (C.upper c <> s) (capitals ws)))

without_trailing_words : (ws : List (Char × String)) → without_trailing (map word ws) ≡ map word ws
unfolding without_trailing
without_trailing_words [] = refl
without_trailing_words ((c, s) ∷ ws) = rw (without_trailing_words ws) (kept ws)
  where
    kept :
        (vs : List (Char × String))
        → (elim (map word vs) [
          | [] ↦ if str_eq (word (c, s)) "" then [] else word (c, s) ∷ []
          | v ∷ us ↦ word (c, s) ∷ v ∷ us
        ])
          ≡ word (c, s) ∷ map word vs
    kept [] = elim (Bool-cases (str_eq (word (c, s)) "")) [
      | inl empty ↦ absurd (cc ((eq_iff (word (c, s)) "").0 empty))
      | inr some_text ↦ rw some_text refl
    ]
    kept (v ∷ vs) = refl

module _ (C : Case) (capitals_of : HasCapitals C) where
  hyphens_to_camel-join :
      (c : Char) (s : String) (ws : List (Char × String))
      → 97 ≤ code c
      → code c ≤ 122
      → All (Free b'-') (map word ((c, s) ∷ ws))
      → hyphens_to_camel C (join "-" (map word ((c, s) ∷ ws)))
        ≡ returned (word (c, s) <> capitals C ws)
  unfolding hyphens_to_camel camel_parts
  hyphens_to_camel-join c s ws low high free =
      let (d, up, down) = capitals_of c low high in
      rw
        (
          split-join "-" (map word ((c, s) ∷ ws)) (λ e. cc) free,
          without_trailing_words ((c, s) ∷ ws),
          camel_parts,
          camel_parts-capitals C ("" <> (C.upper c <> s)) ws,
          up,
          nil-append ((String.◌∷◌ d "") <> s),
          cons-append d "" s,
          nil-append s,
          cons-append d s (capitals C ws),
          down,
          cons-append c "" (s <> capitals C ws),
          nil-append (s <> capitals C ws),
          cons-append c s (capitals C ws),
        )
        refl

  is_not : (k l : String) → k ≢ l → str_eq k l ≡ false
  is_not k l h = elim (Bool-cases (str_eq k l)) [
    | inl same ↦ absurd (h ((eq_iff k l).0 same))
    | inr other ↦ other
  ]

  -- A key of hyphenated words, the first of which begins with a small letter from a to z, names the
  -- property that is the words in one, all but the first with a capital, unless it is one of the
  -- three keys with a property of their own: "body", "rate" and "consumer-rate". No word is empty or
  -- has a hyphen in it, and a letter from a to z has a capital.
  pub map_json_field_to_property_name-join :
      (c : Char) (s : String) (ws : List (Char × String))
      → 97 ≤ code c
      → code c ≤ 122
      → All (Free b'-') (map word ((c, s) ∷ ws))
      → join "-" (map word ((c, s) ∷ ws)) ≢ "body"
      → join "-" (map word ((c, s) ∷ ws)) ≢ "rate"
      → join "-" (map word ((c, s) ∷ ws)) ≢ "consumer-rate"
      → map_json_field_to_property_name C (join "-" (map word ((c, s) ∷ ws)))
        ≡ returned (word (c, s) <> capitals C ws)
  unfolding map_json_field_to_property_name
  map_json_field_to_property_name-join c s ws low high free no_body no_rate no_consumer_rate =
      let key = join "-" (map word ((c, s) ∷ ws)) in
      rw
        (
          is_not key "body" no_body,
          is_not key "rate" no_rate,
          is_not key "consumer-rate" no_consumer_rate,
        )
        (hyphens_to_camel-join c s ws low high free)
