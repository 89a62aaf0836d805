-- ===== src/Scenario/Counters/Latency.antt =====
-- The latencies of an interval: what a sample says of them.
use native.Mathlib.Nat.{mod-eq_of_lt, mul-le-mul_left, le-div_iff_mul-le, div-lt_iff_lt-mul}
use rabbitmq_perf_test.Base.{
  ℕ, ◌+◌, ◌-◌, ◌*◌, ◌/◌, ◌<◌, ◌≤◌, ◌≡◌, true, false, List, [], ◌∷◌, length, arith, if◌then◌else◌,
}
use rabbitmq_perf_test.Js.Number.{Number}
use rabbitmq_perf_test.Java.{wrap, half, add_long, lt_long, div_long}
use rabbitmq_perf_test.Scenario.Counters.{average, recv, Stats, reset, count, latency_fields}
use rabbitmq_perf_test.Js.Value.{num, end, field}

abbrev pub sum : List ℕ → ℕ
sum [] = 0
sum (l ∷ ls) = l + sum ls

lower_factor : (n k low c : ℕ) → k * 1000 ≤ low → n * low ≤ c → k * (1000 * n) ≤ c
lower_factor n k low c e h = omega (arith, h, mul-le-mul_left n e)

upper_factor :
    (n k high c : ℕ) → 0 < n → high < (k + 1) * 1000 → c ≤ n * high → c < (k + 1) * (1000 * n)
upper_factor n k high c p e h = omega (arith, p, h, mul-le-mul_left n e)

positive : (n : ℕ) → 0 < n → 0 < 1000 * n
positive n p = omega (arith, p)

-- The mean of n numbers between two bounds, in thousands.
average_lower : (n low c : ℕ) → 0 < n → n * low ≤ c → low / 1000 ≤ c / (1000 * n)
average_lower n low c p h =
    (le-div_iff_mul-le (positive n p)).1 (lower_factor n (low / 1000) low c (omega arith) h)

average_upper : (n high c : ℕ) → 0 < n → c ≤ n * high → c / (1000 * n) ≤ high / 1000
average_upper n high c p h = omega (
  arith,
  (div-lt_iff_lt-mul (positive n p)).1 (upper_factor n (high / 1000) high c p (omega arith) h),
)

lower_step : (n low l c : ℕ) (m : ℕ) → n * low ≤ c → m ≤ low → m ≤ l → (n + 1) * m ≤ c + l
lower_step n low l c m h p q = omega (arith, h, q, mul-le-mul_left n p)

upper_step : (n high l c : ℕ) (m : ℕ) → c ≤ n * high → high ≤ m → l ≤ m → c + l ≤ (n + 1) * m
upper_step n high l c m h p q = omega (arith, h, q, mul-le-mul_left n p)

div_long_lem : (a b : ℕ) → a < half → b < half → div_long a b ≡ a / b
div_long_lem a b p q = ground arith

fits_wrap : (a : ℕ) → a < half → a < wrap
fits_wrap a h = omega (arith, h)

module _ {N : Number} where
  -- Latencies that are received one after another.
  unfoldable pub recv_all : List ℕ → Stats N → Stats N
  unfolding count
  recv_all [] s = s
  recv_all (l ∷ ls) s = recv_all ls (count (recv l) s)

  abbrev Within : Stats N → Type 0
  Within s =
      (0 < s.latency_count_interval)
      × (s.latency_count_interval * s.min_latency ≤ s.cumulative_latency_interval)
      × (s.cumulative_latency_interval ≤ s.latency_count_interval * s.max_latency)
      × (s.max_latency < half)
      × (s.min_latency < half)

  -- No count and no sum leaves the range of a `long`.
  abbrev Fits : List ℕ → Stats N → Type 0
  Fits ls s =
      (s.cumulative_latency_interval + sum ls < half)
      × (1000 * (s.latency_count_interval + length ls) < half)

  Within-count :
      (l : ℕ) (ls : List ℕ) (s : Stats N)
      → Fits (l ∷ ls) s
      → Within s
      → Fits ls (count (recv l) s) × Within (count (recv l) s)
  unfolding count
  Within-count l ls s (f, g) (p, a, b, c, d) =
      let is_long : lt_long l 0 ≡ false = ground arith in
      rw is_long
        let counts : add_long s.latency_count_interval 1 ≡ s.latency_count_interval + 1 =
            omega (arith, g) in
          let sums : add_long s.cumulative_latency_interval l ≡ s.cumulative_latency_interval + l =
            omega (arith, f) in
          rw (counts, sums)
            (
              (omega (arith, f), omega (arith, g)),
              (
                omega arith,
                lower_step s.latency_count_interval s.min_latency l s.cumulative_latency_interval _
                    a (ground arith) (ground arith),
                upper_step s.latency_count_interval s.max_latency l s.cumulative_latency_interval _
                    b (ground arith) (ground arith),
                ground arith,
                ground arith,
              ),
            )

  Within-recv_all :
      (ls : List ℕ) (s : Stats N)
      → Fits ls s
      → Within s
      → Fits [] (recv_all ls s) × Within (recv_all ls s)
  unfolding recv_all
  Within-recv_all [] s f h = (f, h)
  Within-recv_all (l ∷ ls) s f h =
      let (g, k) = Within-count l ls s f h in Within-recv_all ls (count (recv l) s) g k

  -- The first latency of an interval is its least and its greatest.
  Within-first :
      (t l : ℕ) (ls : List ℕ) (s : Stats N)
      → sum (l ∷ ls) < half
      → 1000 * length (l ∷ ls) < half
      → Fits ls (count (recv l) (reset t s)) × Within (count (recv l) (reset t s))
  unfolding count reset
  Within-first t l ls s f g =
      let small : l < half = omega (arith, f) in
      let is_long : lt_long l 0 ≡ false = ground arith in
      let least : (if lt_long l (half - 1) then l else half - 1) ≡ l = ground arith in
      let greatest : (if lt_long half l then l else half) ≡ l = ground arith in
      let sums : add_long 0 l ≡ l = omega arith in
      rw (is_long, least, greatest, sums)
        ((f, omega (arith, g)), (omega arith, omega arith, omega arith, small, small))

  Fits-div_long :
      (u : Stats N)
      → Fits [] u
      → Within u
      → (div_long u.min_latency 1000
          ≤ average u.cumulative_latency_interval u.latency_count_interval)
        × (average u.cumulative_latency_interval u.latency_count_interval
            ≤ div_long u.max_latency 1000)
        × (lt_long 0 u.latency_count_interval ≡ true)
  Fits-div_long u (f, g) (p, a, b, c, d) =
      let n = u.latency_count_interval in
      let sum = u.cumulative_latency_interval in
      let mean : average sum n ≡ sum / (1000 * n) =
        rw (mod-eq_of_lt (fits_wrap (1000 * n) (omega (arith, g))))
          (div_long_lem sum (1000 * n) (omega (arith, f)) (omega (arith, g))) in
      let count_fits : n < half = omega (arith, g) in
      (
        rw (div_long_lem u.min_latency 1000 d (omega arith), mean)
            (average_lower n u.min_latency sum p a),
        rw (div_long_lem u.max_latency 1000 c (omega arith), mean)
            (average_upper n u.max_latency sum p b),
        ground arith,
      )

  -- Of an interval in which one latency or more is received, the sample shows an average that lies
  -- between the least and the greatest latency that it shows, as long as the sum of the latencies
  -- and 1000 times their number are in the range of a `long`.
  pub latency_fields-recv_all :
      (double : ℕ → N.Num) (t l : ℕ) (ls : List ℕ) (s : Stats N)
      → sum (l ∷ ls) < half
      → 1000 * length (l ∷ ls) < half
      → (low mean high : ℕ) × (latency_fields N double (recv_all (l ∷ ls) (reset t s))
          ≡ field "avg-latency" (num (double mean)) (
              field "min-latency" (num (double low)) (field "max-latency" (num (double high)) end)))
        × (low ≤ mean)
        × (mean ≤ high)
  unfolding recv_all
  latency_fields-recv_all double t l ls s f g =
      let u = recv_all (l ∷ ls) (reset t s) in
      let (fits, first) = Within-first t l ls s f g in
      let (still, within) = Within-recv_all ls (count (recv l) (reset t s)) fits first in
      let (lower, upper, some_latency) = Fits-div_long u still within in
      (
        div_long u.min_latency 1000,
        average u.cumulative_latency_interval u.latency_count_interval,
        div_long u.max_latency 1000,
        rw some_latency,
        lower,
        upper,
      )
