-- ===== src/Base/Result.antt =====
-- What a JavaScript expression gives: a value, or the exception that it throws.
use mathlib.Core.Path.{◌≡◌, refl}
use mathlib.Core.Logic.{◌≢◌}
use mathlib.Core.Bool.{Bool, true, false, ◌&&◌}
use mathlib.Core.List.{List, [], ◌∷◌, map}
use rabbitmq_perf_test.Base.Tests.{if◌then◌else◌}
use rabbitmq_perf_test.Base.Lists.{All}

-- Reading a property of `undefined` or `null`, and text that is not JSON.
pub data Error : Type 0 where
  type_error syntax_error : Error

pub data Result {ℓ} (A : Type ℓ) : Type ℓ where
  ok : A → Result A
  throw : Error → Result A

infixl 5 ◌>>=◌
abbrev pub ◌>>=◌ {ℓ κ} : {A : Type ℓ} {B : Type κ} → Result A → (A → Result B) → Result B
ok a >>= f = f a
throw e >>= f = throw e

-- Whether a test holds of every element.
abbrev pub all {ℓ} : {A : Type ℓ} → (A → Bool) → List A → Bool
all p [] = true
all p (x ∷ xs) = p x && all p xs

pub all_const {ℓ} : {A : Type ℓ} (b : Bool) (xs : List A) → xs ≢ [] → all (λ _. b) xs ≡ b
all_const b [] h = absurd (h refl)
all_const true (x ∷ []) h = refl
all_const true (x ∷ y ∷ xs) h = all_const true (y ∷ xs) (λ e. cc)
all_const false (x ∷ xs) h = refl

pub all_of_All {ℓ} :
    {A : Type ℓ} (p : A → Bool) (xs : List A) → All (λ x. p x ≡ true) xs → all p xs ≡ true
all_of_All p [] h = refl
all_of_All p (x ∷ xs) (q, h) = rw (q, all_of_All p xs h)

-- A loop that pushes one element per round, and is left by the first exception.
module _ {ℓ κ} {A : Type ℓ} {B : Type κ} where
  unfoldable pub traverse : (A → Result B) → List A → Result (List B)
  traverse f [] = ok []
  traverse f (x ∷ xs) = f x >>= λ y. traverse f xs >>= λ ys. ok (y ∷ ys)

  pub traverse_ext :
      (f g : A → Result B) (xs : List A) → All (λ x. f x ≡ g x) xs → traverse f xs ≡ traverse g xs
  unfolding traverse
  traverse_ext f g [] h = refl
  traverse_ext f g (x ∷ xs) (p, h) = rw (p, traverse_ext f g xs h)

  -- Where one round fails with `e` unless its test holds, the loop does so unless all of them hold.
  pub traverse-test :
      (f : A → Result B) (p : A → Bool) (g : A → B) (e : Error)
      → ((x : A) → f x ≡ (if p x then ok (g x) else throw e))
      → (xs : List A) → traverse f xs ≡ (if all p xs then ok (map g xs) else throw e)
  unfolding traverse
  traverse-test f p g e h [] = refl
  traverse-test f p g e h (x ∷ xs) = rw (h x, traverse-test f p g e h xs) (step (p x) (all p xs))
    where
      step :
          (b c : Bool)
          → ((if b then ok (g x) else throw e) >>= λ y.
              (if c then ok (map g xs) else throw e) >>= λ ys. ok (y ∷ ys))
            ≡ (if b && c then ok (g x ∷ map g xs) else throw e)
      step true true = refl
      step true false = refl
      step false c = refl
