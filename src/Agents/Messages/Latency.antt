-- ===== src/Agents/Messages/Latency.antt =====
-- The way of a timestamp from the producer to the latency that the consumer measures.
use mathlib.Core.List.{append-nil}
use rabbitmq_perf_test.Base.{
  ℕ, zero, suc, ◌-◌, ◌<◌, ◌≤◌, ◌≡◌, refl, ap, inl, inr, Bool-cases, List, [], ◌∷◌, ◌++◌, length,
  length-append, map, sym, ◌∙◌, ◌⊎◌, arith, ltb, ◌==◌, if◌then◌else◌,
}
use rabbitmq_perf_test.Java.{wrap}
use rabbitmq_perf_test.Agents.Messages.{
  do_create, drop, Source, array_copy, zeros, new_source, fill, create, extract, incorrect_value,
  get_difference,
}

extract-do_create :
    (time n : ℕ) (rest : List ℕ) → time < wrap → extract (do_create time n ++ rest) ≡ time
unfolding extract do_create
extract-do_create time n rest h = omega arith

-- A body begins with the written number and time.
fill_prefix :
    (size : ℕ) (m : List ℕ) (s : Source) → (rest : List ℕ) × ((fill size m s).0 ≡ m ++ rest)
unfolding fill
fill_prefix size m [] = ([], sym (append-nil m))
fill_prefix size m (message ∷ messages) = elim (Bool-cases (length message == size)) [
  | inl here ↦ elim (Bool-cases (ltb (length message) (length m))) [
    | inl short ↦ rw (here, short) ([], sym (append-nil m))
    | inr long ↦ rw (here, long) (drop (length m) message, refl)
  ]
  | inr later ↦ rw later (fill_prefix size m messages)
]

extract-create :
    (time size n : ℕ) (s : Source) → time < wrap → extract (create time size n s).0.body ≡ time
unfolding create
extract-create time size n s h =
    let (rest, e) = fill_prefix size (do_create time n) s in rw e (extract-do_create time n rest h)

get_difference_lem :
    (now time : ℕ) → time ≤ now → now < incorrect_value → get_difference now time ≡ now - time
unfolding get_difference
get_difference_lem now time h k = ground arith

length-drop {ℓ} : {A : Type ℓ} (n : ℕ) (xs : List A) → length (drop n xs) ≡ length xs - n
length-drop zero xs = omega arith
length-drop (suc n) [] = omega arith
length-drop (suc n) (x ∷ xs) = omega (arith, length-drop n xs)

length-do_create : (time n : ℕ) → length (do_create time n) ≡ 12
unfolding do_create
length-do_create time n = refl

length-array_copy :
    (m message : List ℕ)
    → length m ≤ length message
    → length (array_copy m message) ≡ length message
length-array_copy m message h =
    omega (arith, length-append m (drop (length m) message), length-drop (length m) message)

lengths-fill : (size : ℕ) (m : List ℕ) (s : Source) → map length (fill size m s).1 ≡ map length s
unfolding fill
lengths-fill size m [] = refl
lengths-fill size m (message ∷ messages) = elim (Bool-cases (length message == size)) [
  | inl here ↦ elim (Bool-cases (ltb (length message) (length m))) [
    | inl short ↦ rw (here, short)
    | inr long ↦ rw (here, long, length-array_copy m message (ground arith))
  ]
  | inr later ↦ rw (later, lengths-fill size m messages)
]

-- One of the numbers is `n`.
abbrev pub Among : ℕ → List ℕ → Type 0
Among n [] = ⊥
Among n (k ∷ ks) = (k ≡ n) ⊎ Among n ks

length-fill :
    (size : ℕ) (m : List ℕ) (s : Source)
    → Among size (map length s)
    → length (fill size m s).0 ≡ (if ltb size (length m) then length m else size)
unfolding fill
length-fill size m [] h = absurd h
length-fill size m (message ∷ messages) h = elim (Bool-cases (length message == size)) [
  | inl here ↦ elim (Bool-cases (ltb (length message) (length m))) [
    | inl short ↦ rw (here, short) (ground arith)
    | inr long ↦ rw (here, long, length-array_copy m message (ground arith)) (ground arith)
  ]
  | inr later ↦ rw later (length-fill size m messages (ground arith))
]

lengths-new_source : (sizes : List ℕ) → map length (new_source sizes) ≡ sizes
unfolding new_source
lengths-new_source [] = refl
lengths-new_source (size ∷ sizes) = rw (length-zeros size, lengths-new_source sizes)
  where
    length-zeros : (n : ℕ) → length (zeros n) ≡ n
    length-zeros zero = refl
    length-zeros (suc n) = ap suc (length-zeros n)

-- The calls of `create` one after another, by the time, the size and the sequence number of each.
unfoldable pub create_all : List (ℕ × ℕ × ℕ) → Source → Source
unfolding create
create_all [] s = s
create_all ((time, size, n) ∷ calls) s = create_all calls (create time size n s).1

lengths-create_all :
    (calls : List (ℕ × ℕ × ℕ)) (s : Source) → map length (create_all calls s) ≡ map length s
unfolding create_all
lengths-create_all [] s = refl
lengths-create_all ((time, size, n) ∷ calls) s =
    lengths-create_all calls (create time size n s).1
    ∙ unfold create in lengths-fill size (do_create time n) s

-- Whatever messages a source made before, a consumer reads from the body of the next one the time
-- at which it was made, so that it measures the time that passed since, and the body has the size
-- that was asked for, or the 12 bytes of the number and the time if these are more. The size is one
-- of those the source was made for, and the clock has not gone backwards nor past the largest time.
pub get_difference-extract :
    (sizes : List ℕ) (calls : List (ℕ × ℕ × ℕ)) (time size n now : ℕ)
    → Among size sizes
    → time ≤ now
    → now < incorrect_value
    → let made = (create time size n (create_all calls (new_source sizes))).0 in
      (get_difference now (extract made.body) ≡ now - time)
      × (length made.body ≡ (if ltb size 12 then 12 else size))
get_difference-extract sizes calls time size n now among past fits =
    let s = create_all calls (new_source sizes) in
    (
      rw (extract-create time size n s (omega (arith, past, fits)))
          (get_difference_lem now time past fits),
      unfold create in
          (length-fill size (do_create time n) s
              (rw (lengths-create_all calls (new_source sizes), lengths-new_source sizes) among)
            ∙ rw (length-do_create time n)),
    )
