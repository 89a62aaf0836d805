-- ===== src/Perf/Ticks.antt =====
-- The logarithmic axes: `log_transform`, `log_ticks` and the three axis constants.
pub mod Laws
use rabbitmq_perf_test.Base.{ℕ, zero, suc, true, false, Option, none, some, List, [], ◌∷◌, ◌++◌}
use rabbitmq_perf_test.Js.Number.{Number, of_ℕ}
use rabbitmq_perf_test.Perf.Drawing.{Axis}

module _ (N : Number) where
  log_transform : N.Num → N.Num
  log_transform v = N.log v

  -- The loop of `log_ticks`, with the array built so far; `none` means that the fuel ran out.
  unfoldable pub ticks_from : ℕ → N.Num → N.Num → List N.Num → Option (List N.Num)
  ticks_from zero max val res = none
  ticks_from (suc fuel) max val res =
      let next = N.mul val (of_ℕ N 10) in
      elim (N.lt val max) [ true ↦ ticks_from fuel max next (res ++ next ∷ []) | false ↦ some res ]

  unfoldable pub log_ticks : ℕ → N.Num → N.Num → Option (List N.Num)
  unfolding ticks_from
  log_ticks fuel min max = ticks_from fuel max min (min ∷ [])

  abbrev pub plain_axis : Axis N
  plain_axis = record { min = of_ℕ N 0; transform = none; ticks = none; position = none }

  unfoldable pub axes_rate_and_latency : List (Axis N)
  unfolding log_transform log_ticks
  axes_rate_and_latency =
      plain_axis
      ∷ record {
        min = of_ℕ N 100;
        transform = some log_transform;
        ticks = some log_ticks;
        position = some "right";
      }
      ∷ []

  unfoldable pub axes_rate_and_bytes : List (Axis N)
  axes_rate_and_bytes = plain_axis ∷ record plain_axis { position = some "right" } ∷ []

  unfoldable pub log_x_axis : Axis N
  unfolding log_transform log_ticks
  log_x_axis = record {
    min = of_ℕ N 1;
    transform = some log_transform;
    ticks = some log_ticks;
    position = none;
  }
