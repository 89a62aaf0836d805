-- ===== src/Perf/Ticks/Laws.antt =====
-- `log_ticks`: when its loop ends, and what it returns.
use rabbitmq_perf_test.Base.{
  ℕ, zero, suc, ◌+◌, ◌≤◌, ap, ◌≡◌, refl, sym, ◌∙◌, inl, inr, true, false, Bool-cases, none, some,
  List, [], ◌∷◌, ◌++◌, arith,
}
use mathlib.Core.List.{append_assoc, append-nil}
use rabbitmq_perf_test.Js.Number.{Number, of_ℕ, IsOrdered}
use rabbitmq_perf_test.Perf.Ticks.{ticks_from, log_ticks}

module _ (N : Number) where
  abbrev tenfold : N.Num → N.Num
  tenfold v = N.mul v (of_ℕ N 10)

  -- The numbers from `v` on, each ten times the one before it: all but the last are below `max`,
  -- and the last is not.
  abbrev pub IsDecades : N.Num → N.Num → List N.Num → Type 0
  IsDecades max v [] = N.lt v max ≡ false
  IsDecades max v (w ∷ ws) = (N.lt v max ≡ true) × (w ≡ N.mul v (of_ℕ N 10)) × IsDecades max w ws

  -- The round that ends the loop, or the step to the next.
  module _ (O : IsOrdered N) where
    ticks_from_total :
        (fuel : ℕ) (max val : N.Num) (res : List N.Num)
        → N.lt (of_ℕ N 0) val ≡ true
        → O.place max ≤ fuel + O.place val
        → (more : List N.Num) × (ticks_from N (suc fuel) max val res ≡ some (res ++ more))
          × IsDecades max val more
    unfolding ticks_from
    ticks_from_total zero max val res p h = elim (Bool-cases (N.lt val max)) [
      | inl below ↦ absurd (omega (arith, O.place_lt val max below))
      | inr above ↦ ([], rw (above, ticks_from) (ap some (sym (append-nil res))), above)
    ]
    ticks_from_total (suc fuel) max val res p h = elim (Bool-cases (N.lt val max)) [
      | inl below ↦
          let (p', up) = O.times_ten val max p below in
          let (more, e, d) =
            ticks_from_total fuel max (tenfold val) (res ++ tenfold val ∷ []) p'
              (omega (arith, O.place_lt _ _ up)) in
          (
            tenfold val ∷ more,
            rw (below, ticks_from) (e ∙ ap some (append_assoc res (tenfold val ∷ []) more)),
            (below, refl, d),
          )
      | inr above ↦ ([], rw (above, ticks_from) (ap some (sym (append-nil res))), above)
    ]

    -- From a positive minimum `log_ticks` ends, within as many rounds as there are numbers between
    -- the ends of the axis, and returns the minimum followed by its decades: each tick is ten times
    -- the one before it, all but the last lie below the maximum, and the last does not.
    pub log_ticks-IsDecades :
        (fuel : ℕ) (min max : N.Num)
        → N.lt (of_ℕ N 0) min ≡ true
        → O.place max ≤ fuel + O.place min
        → (more : List N.Num) × (log_ticks N (suc fuel) min max ≡ some (min ∷ more))
          × IsDecades max min more
    unfolding log_ticks
    log_ticks-IsDecades fuel min max p h = ticks_from_total fuel max min (min ∷ []) p h

  ticks_from-none :
      (fuel : ℕ) (max val : N.Num) (res : List N.Num)
      → N.mul val (of_ℕ N 10) ≡ val
      → N.lt val max ≡ true
      → ticks_from N fuel max val res ≡ none
  unfolding ticks_from
  ticks_from-none zero max val res fixed below = refl
  ticks_from-none (suc fuel) max val res fixed below =
      rw (below, fixed, ticks_from) (ticks_from-none fuel max val (res ++ val ∷ []) fixed below)

  -- From a minimum that ten times itself does not change, such as 0, and that lies below the
  -- maximum, the loop never ends: no number of rounds is enough.
  pub log_ticks-none :
      (min max : N.Num)
      → N.mul min (of_ℕ N 10) ≡ min
      → N.lt min max ≡ true
      → (fuel : ℕ) → log_ticks N fuel min max ≡ none
  unfolding log_ticks
  log_ticks-none min max fixed below fuel = ticks_from-none fuel max min (min ∷ []) fixed below
