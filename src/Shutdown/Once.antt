-- ===== src/Shutdown/Once.antt =====
-- com.rabbitmq.perf.ShutdownService: how often and in which order callbacks are called.
use rabbitmq_perf_test.Base.{
  ℕ, zero, suc, ◌+◌, ◌<◌, ◌≤◌, ◌≡◌, refl, ap, ◌∙◌, Bool, true, false, List, [], ◌∷◌, ◌++◌, length,
  arith, ltb, ◌==◌, Bool-cases, inl, inr, if◌then◌else◌,
}
use rabbitmq_perf_test.Shutdown.{
  Closeables, wrap_callback, is_open, set_closed, close_one, close_from, close, Use, wrapped,
  close_callback, close_service, use_once, use_all,
}

abbrev is_closed : ℕ → Closeables → Bool
is_closed k [] = false
is_closed zero (c ∷ cs) = c
is_closed (suc k) (c ∷ cs) = is_closed k cs

abbrev one : Bool → ℕ
one b = if b then 1 else 0

abbrev pub times : ℕ → List ℕ → ℕ
times k [] = 0
times k (i ∷ is) = one (i == k) + times k is

times-append : (k : ℕ) (xs ys : List ℕ) → times k (xs ++ ys) ≡ times k xs + times k ys
times-append k [] ys = omega arith
times-append k (x ∷ xs) ys = omega (arith, times-append k xs ys)

-- The calls of each callback are those that its mark tells.
abbrev IsOnce : Closeables → Closeables × List ℕ → Type 0
IsOnce cs r = (k : ℕ) → times k r.1 + one (is_closed k cs) ≡ one (is_closed k r.0)

close_one-IsOnce : (i : ℕ) (cs : Closeables) → IsOnce cs (close_one i cs)
close_one-IsOnce i [] k = refl
close_one-IsOnce zero (c ∷ cs) zero = ground arith
close_one-IsOnce zero (c ∷ cs) (suc k) = ground arith
close_one-IsOnce (suc i) (c ∷ cs) zero = ground arith
close_one-IsOnce (suc i) (c ∷ cs) (suc k) = ground (arith, close_one-IsOnce i cs k)

IsOnce-append :
    (cs : Closeables) (r s : Closeables × List ℕ)
    → IsOnce cs r
    → IsOnce r.0 s
    → IsOnce cs (s.0, r.1 ++ s.1)
IsOnce-append cs r s first second k = rw (times-append k r.1 s.1) (omega (arith, first k, second k))

close_from-IsOnce : (i : ℕ) (cs : Closeables) → IsOnce cs (close_from i cs)
unfolding close_from
close_from-IsOnce zero cs = λ k. omega arith
close_from-IsOnce (suc i) cs =
    IsOnce-append cs (close_one i cs) (close_from i (close_one i cs).0) (close_one-IsOnce i cs)
      (close_from-IsOnce i (close_one i cs).0)

wrap_callback-IsOnce : (cs : Closeables) → IsOnce cs (wrap_callback cs, [])
wrap_callback-IsOnce [] zero = refl
wrap_callback-IsOnce [] (suc k) = refl
wrap_callback-IsOnce (c ∷ cs) zero = omega arith
wrap_callback-IsOnce (c ∷ cs) (suc k) = wrap_callback-IsOnce cs k

use_all-IsOnce : (us : List Use) (cs : Closeables) → IsOnce cs (use_all us cs)
unfolding use_all use_once close
use_all-IsOnce [] cs = λ k. omega arith
use_all-IsOnce (wrapped ∷ us) cs =
    IsOnce-append cs (wrap_callback cs, []) (use_all us (wrap_callback cs))
      (wrap_callback-IsOnce cs) (use_all-IsOnce us (wrap_callback cs))
use_all-IsOnce (close_callback i ∷ us) cs =
    IsOnce-append cs (close_one i cs) (use_all us (set_closed i cs)) (close_one-IsOnce i cs)
      (use_all-IsOnce us (set_closed i cs))
use_all-IsOnce (close_service ∷ us) cs =
    IsOnce-append cs (close cs) (use_all us (close cs).0) (close_from-IsOnce (length cs) cs)
      (use_all-IsOnce us (close cs).0)

-- A close leaves no callback below its start open.
length-set_closed : (i : ℕ) (cs : Closeables) → length (set_closed i cs) ≡ length cs
length-set_closed i [] = refl
length-set_closed zero (c ∷ cs) = refl
length-set_closed (suc i) (c ∷ cs) = ap suc (length-set_closed i cs)

is_closed-set_closed :
    (i : ℕ) (cs : Closeables) → i < length cs → is_closed i (set_closed i cs) ≡ true
is_closed-set_closed i [] h = absurd (omega arith)
is_closed-set_closed zero (c ∷ cs) h = refl
is_closed-set_closed (suc i) (c ∷ cs) h = is_closed-set_closed i cs (omega arith)

is_closed-kept :
    (i k : ℕ) (cs : Closeables) → is_closed k cs ≡ true → is_closed k (set_closed i cs) ≡ true
is_closed-kept i k [] h = h
is_closed-kept zero zero (c ∷ cs) h = refl
is_closed-kept zero (suc k) (c ∷ cs) h = h
is_closed-kept (suc i) zero (c ∷ cs) h = h
is_closed-kept (suc i) (suc k) (c ∷ cs) h = is_closed-kept i k cs h

close_from-kept :
    (i k : ℕ) (cs : Closeables) → is_closed k cs ≡ true → is_closed k (close_from i cs).0 ≡ true
unfolding close_from
close_from-kept zero k cs h = h
close_from-kept (suc i) k cs h = close_from-kept i k (set_closed i cs) (is_closed-kept i k cs h)

close_from-closed :
    (i : ℕ) (cs : Closeables)
    → i ≤ length cs
    → (k : ℕ) → k < i
    → is_closed k (close_from i cs).0 ≡ true
unfolding close_from
close_from-closed zero cs h k below = absurd (omega arith)
close_from-closed (suc i) cs h k below = elim (Bool-cases (k == i)) [
  | inl last ↦
      let same : k ≡ i = ground arith in
      rw same (close_from-kept i i (set_closed i cs) (is_closed-set_closed i cs (omega arith)))
  | inr earlier ↦
      close_from-closed i (set_closed i cs) (omega (arith, length-set_closed i cs)) k (ground arith)
]

-- The numbers fall, from below the bound.
abbrev pub AreFalling : (bound : ℕ) → List ℕ → Type 0
AreFalling bound [] = Unit
AreFalling bound (i ∷ is) = (i < bound) × AreFalling i is

AreFalling-weaken : (a b : ℕ) (is : List ℕ) → a ≤ b → AreFalling a is → AreFalling b is
AreFalling-weaken a b [] h f = tt
AreFalling-weaken a b (i ∷ is) h (below, f) = (omega arith, f)

close_from-AreFalling : (i : ℕ) (cs : Closeables) → AreFalling i (close_from i cs).1
unfolding close_from
close_from-AreFalling zero cs = tt
close_from-AreFalling (suc i) cs =
    let rest = close_from-AreFalling i (set_closed i cs) in
    elim (Bool-cases (is_open i cs)) [
      | inl now ↦ rw now (omega arith, rest)
      | inr before ↦ rw before (AreFalling-weaken i (suc i) _ (omega arith) rest)
    ]

length-close_from : (i : ℕ) (cs : Closeables) → length (close_from i cs).0 ≡ length cs
unfolding close_from
length-close_from zero cs = refl
length-close_from (suc i) cs = length-close_from i (set_closed i cs) ∙ length-set_closed i cs

is_closed-beyond : (k : ℕ) (cs : Closeables) → length cs ≤ k → is_closed k cs ≡ false
is_closed-beyond k [] h = refl
is_closed-beyond zero (c ∷ cs) h = absurd (omega arith)
is_closed-beyond (suc k) (c ∷ cs) h = is_closed-beyond k cs (omega arith)

-- However the callbacks of a service were registered and closed before, each on its own or all at
-- once, and in whatever order, a close calls those that are open in the reverse order of their
-- registration; behind it each registered callback was called exactly once, and no other.
pub use_all-close :
    (us : List Use)
    → AreFalling (length (use_all us []).0) (close (use_all us []).0).1
      × ((k : ℕ)
          → times k ((use_all us []).1 ++ (close (use_all us []).0).1)
            ≡ (if ltb k (length (use_all us []).0) then 1 else 0))
unfolding close
use_all-close us =
    let cs = (use_all us []).0 in
    (
      close_from-AreFalling (length cs) cs,
      λ k.
          let once =
            IsOnce-append [] (use_all us []) (close cs) (use_all-IsOnce us [])
              (close_from-IsOnce (length cs) cs) k in
          elim (Bool-cases (ltb k (length cs))) [
            | inl registered ↦
                let done = close_from-closed (length cs) cs (omega arith) k (ground arith) in
                rw registered (ground (arith, once, done))
            | inr beyond ↦
                let free =
                  is_closed-beyond k (close cs).0
                    (ground (arith, length-close_from (length cs) cs)) in
                rw beyond (ground (arith, once, free))
          ],
    )
