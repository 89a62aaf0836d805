-- ===== src/Perf/Varying/Reads.antt =====
-- Reads of two levels, `v[a][b]`, as a total function with a test.
use rabbitmq_perf_test.Base.{◌≡◌, refl, Bool, true, false, String, ◌&&◌, if◌then◌else◌}
use rabbitmq_perf_test.Base.Result.{type_error, Result, ok, throw, ◌>>=◌}
use rabbitmq_perf_test.Js.Number.{Number}
use rabbitmq_perf_test.Js.Value.{Value, to_string}
use rabbitmq_perf_test.Js.Value.Read.{has_properties, read, get-read}
use rabbitmq_perf_test.Perf.JQuery.{JQuery}
use rabbitmq_perf_test.Perf.Varying.{get_in}

-- Behind a test that throws, a test that throws is one.
pub if-bind :
    {A B : Type 0} (b c : Bool) (x : A) (f : A → Result B) (y : B)
    → f x ≡ (if c then ok y else throw type_error)
    → ((if b then ok x else throw type_error) >>= f) ≡ (if b && c then ok y else throw type_error)
if-bind true c x f y e = e
if-bind false c x f y e = refl

module _ {N : Number} where
  -- `v[a]` can be read, and has properties itself.
  abbrev pub reaches : Value N → Value N → Bool
  reaches v a = has_properties v && has_properties (read v (to_string a))

  abbrev pub read_in : Value N → Value N → String → Value N
  read_in v a b = read (read v (to_string a)) b

  pub get_in-read :
      (J : JQuery N) (v a : Value N) (b : String)
      → get_in J v a b ≡ (if reaches v a then ok (read_in v a b) else throw type_error)
  unfolding get_in
  get_in-read J v a b = rw (get-read v (to_string a)) (
      if-bind (has_properties v) (has_properties (read v (to_string a))) _ _ _
        (get-read (read v (to_string a)) b))
