-- ===== src/Tests/Shutdown.antt =====
-- The callbacks of a small run.
use rabbitmq_perf_test.Base.{ℕ, ◌≡◌, refl, List, [], ◌∷◌, ◌++◌, length, ltb, if◌then◌else◌}
use rabbitmq_perf_test.Shutdown.{
  Use, wrapped, close_callback, close_service, close_from, close, use_once, use_all,
}
use rabbitmq_perf_test.Shutdown.Once.{times, AreFalling, use_all-close}

-- Four callbacks, of which the third is closed on its own.
abbrev uses : List Use
uses = wrapped ∷ wrapped ∷ wrapped ∷ close_callback 2 ∷ close_callback 2 ∷ wrapped ∷ []

uses_run : ((use_all uses []).1 ≡ 2 ∷ []) × ((close (use_all uses []).0).1 ≡ 3 ∷ 1 ∷ 0 ∷ [])
unfolding close_from close use_once use_all
uses_run = (refl, refl)

twice_run : (close (use_all (wrapped ∷ close_service ∷ []) []).0).1 ≡ []
unfolding close_from close use_once use_all
twice_run = refl

use_all-close_example :
    AreFalling (length (use_all uses []).0) (close (use_all uses []).0).1
    × ((k : ℕ)
        → times k ((use_all uses []).1 ++ (close (use_all uses []).0).1)
          ≡ (if ltb k (length (use_all uses []).0) then 1 else 0))
use_all-close_example = use_all-close uses
