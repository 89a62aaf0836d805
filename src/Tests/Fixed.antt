-- ===== src/Tests/Fixed.antt =====
-- Numbers with a fixed point, 12 decimals and no sign, with NaN as `none`: they meet what the
-- theorems assume of numbers.
use mathlib.Core.Option.{get_or}
use rabbitmq_perf_test.Base.{
  ℕ, zero, suc, ◌+◌, ◌*◌, ◌/◌, ◌%◌, ◌<◌, ◌^◌, ◌≡◌, String, ◌<>◌, Bool, true, false, Option, none,
  some, [], ◌∷◌, get_elem?, arith, ltb, ◌==◌, if◌then◌else◌,
}
use Prim.Native.Char.{code}
use rabbitmq_perf_test.Js.Number.{Number, of_ℕ, IsOrdered}

abbrev pub unit : ℕ
unit = 1_000_000_000_000

abbrev lift2 : (ℕ → ℕ → Option ℕ) → Option ℕ → Option ℕ → Option ℕ
lift2 f (some a) (some b) = f a b
lift2 f _ none = none
lift2 f none b = none

abbrev test2 : (ℕ → ℕ → Bool) → Option ℕ → Option ℕ → Bool
test2 f (some a) (some b) = f a b
test2 f _ none = false
test2 f none b = false

digit : ℕ → String
digit d = get_or (get_elem? ("0" ∷ "1" ∷ "2" ∷ "3" ∷ "4" ∷ "5" ∷ "6" ∷ "7" ∷ "8" ∷ "9" ∷ []) d) ""

-- The decimal digits, on fuel, in front of a text.
digits : ℕ → ℕ → String → String
digits zero n s = s
digits (suc fuel) n s =
    let more = digits fuel (n / 10) (digit (n % 10) <> s) in if ltb n 10 then digit n <> s else more

-- The decimals without the zeros at their end; `k` of them are left to write.
decimals : ℕ → ℕ → String
decimals zero n = ""
decimals (suc k) n =
    let more = digit (n / 10 ^ k) <> decimals k (n % 10 ^ k) in if n == 0 then "" else more

unfoldable pub write : Option ℕ → String
unfolding digit digits decimals
write none = "NaN"
write (some n) =
    digits 40 (n / unit) "" <> (if n % unit == 0 then "" else "." <> decimals 12 (n % unit))

-- A text of digits alone; anything else is NaN.
unfoldable pub read_digits : ℕ → String → Option ℕ
read_digits acc String.[] = some (acc * unit)
read_digits acc (String.◌∷◌ c s) =
    let more = read_digits (acc * 10 + (code c % 48)) s in
    if ltb (code c) 58 then (if ltb 47 (code c) then more else none) else none

abbrev pub fixed : Number
fixed = record {
  Num = Option ℕ;
  nan = none;
  decimal = λ n k. some (n * unit / 10 ^ k);
  add = lift2 (λ a b. some (a + b));
  mul = lift2 (λ a b. some (a * b / unit));
  div = lift2 (λ a b. if b == 0 then none else some (a * unit / b));
  lt = test2 ltb;
  eq = test2 ◌==◌;
  round = lift2 (λ a b. some ((b + unit / 2) / unit * unit)) (some 0);
  log = λ x. x;
  to_string = write;
  parse = read_digits 0;
}

abbrev pub fixed_place : Option ℕ → ℕ
fixed_place none = 0
fixed_place (some n) = n

pub fixed_place_lt : (a b : Option ℕ) → test2 ltb a b ≡ true → fixed_place a < fixed_place b
fixed_place_lt a b h = ground arith

pub fixed_times_ten :
    (a b : Option ℕ)
    → fixed.lt (of_ℕ fixed 0) a ≡ true
    → fixed.lt a b ≡ true
    → (fixed.lt (of_ℕ fixed 0) (fixed.mul a (of_ℕ fixed 10)) ≡ true)
      × (fixed.lt a (fixed.mul a (of_ℕ fixed 10)) ≡ true)
fixed_times_ten a b h k = ground arith

abbrev pub fixed-IsOrdered : IsOrdered fixed
fixed-IsOrdered = record {
  place = fixed_place;
  place_lt = fixed_place_lt;
  times_ten = fixed_times_ten;
}
