-- ===== src/Shutdown.antt =====
-- com.rabbitmq.perf.ShutdownService. A callback is named by the number of those that were registered
-- before it, and is called with or without an exception: it is marked before it is called, and `close`
-- catches the exception. A callback does not use the service itself.
pub mod Once
use native.Mathlib.Nat.{add_assoc}
use rabbitmq_perf_test.Base.{
  ℕ, zero, suc, ◌+◌, ◌<◌, ◌≤◌, ◌≡◌, refl, ap, sym, ◌∙◌, Bool, true, false, not, List, [], ◌∷◌, ◌++◌,
  length, length-append, arith, ltb, ◌==◌, Bool-cases, inl, inr, if◌then◌else◌,
}

-- For each callback, whether it is closing or closed.
abbrev pub Closeables : Type 0
Closeables = List Bool

abbrev pub wrap_callback : Closeables → Closeables
wrap_callback cs = cs ++ false ∷ []

abbrev pub is_open : ℕ → Closeables → Bool
is_open i [] = false
is_open zero (c ∷ cs) = not c
is_open (suc i) (c ∷ cs) = is_open i cs

abbrev pub set_closed : ℕ → Closeables → Closeables
set_closed i [] = []
set_closed zero (c ∷ cs) = true ∷ cs
set_closed (suc i) (c ∷ cs) = c ∷ set_closed i cs

-- The callback that was wrapped as number `i`, closed on its own.
abbrev pub close_one : ℕ → Closeables → Closeables × List ℕ
close_one i cs = (set_closed i cs, if is_open i cs then i ∷ [] else [])

-- The loop of `close` from `i - 1` down.
unfoldable pub close_from : ℕ → Closeables → Closeables × List ℕ
close_from zero cs = (cs, [])
close_from (suc i) cs =
    let (ds, first) = close_one i cs in let (es, rest) = close_from i ds in (es, first ++ rest)

unfoldable pub close : Closeables → Closeables × List ℕ
unfolding close_from
close cs = close_from (length cs) cs

pub data Use : Type 0 where
  wrapped : Use
  close_callback : ℕ → Use
  close_service : Use

unfoldable pub use_once : Use → Closeables → Closeables × List ℕ
unfolding close
use_once wrapped cs = (wrap_callback cs, [])
use_once (close_callback i) cs = close_one i cs
use_once close_service cs = close cs

-- The callbacks that are called, in order.
unfoldable pub use_all : List Use → Closeables → Closeables × List ℕ
unfolding use_once
use_all [] cs = (cs, [])
use_all (u ∷ us) cs =
    let (ds, first) = use_once u cs in let (es, rest) = use_all us ds in (es, first ++ rest)
