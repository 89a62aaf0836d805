-- ===== src/Js/Number.antt =====
-- The numbers of JavaScript. A double is no value of this library: the type and the operations
-- that html/perf.js applies are a parameter, and a theorem that needs more than the operations
-- names it as a hypothesis.
use rabbitmq_perf_test.Base.{ℕ, ◌<◌, ◌≡◌, Bool, true, String}

pub record Number : Type 1 where
  pub Num : Type 0
  pub nan : Num
  -- The literal with these digits, the second of them counted behind the point.
  pub decimal : ℕ → ℕ → Num
  pub add : Num → Num → Num
  pub mul : Num → Num → Num
  pub div : Num → Num → Num
  pub lt : Num → Num → Bool
  pub eq : Num → Num → Bool
  -- `Math.round` and `Math.log`
  pub round : Num → Num
  pub log : Num → Num
  -- `String(x)`, and `Number(s)` of a text
  pub to_string : Num → String
  pub parse : String → Num

abbrev pub of_ℕ : (N : Number) → ℕ → N.Num
of_ℕ N n = N.decimal n 0

-- What is known of the order of doubles: there are finitely many, so each has a place in it; and
-- ten times a positive number is above it, unless the number is the greatest.
pub record IsOrdered (N : Number) : Type 0 where
  pub place : N.Num → ℕ
  pub place_lt : (a b : N.Num) → N.lt a b ≡ true → place a < place b
  pub times_ten :
      (a b : N.Num)
      → N.lt (of_ℕ N 0) a ≡ true
      → N.lt a b ≡ true
      → (N.lt (of_ℕ N 0) (N.mul a (of_ℕ N 10)) ≡ true) × (N.lt a (N.mul a (of_ℕ N 10)) ≡ true)
