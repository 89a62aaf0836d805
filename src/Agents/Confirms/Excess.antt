-- ===== src/Agents/Confirms/Excess.antt =====
-- The confirms of a producer over two reconnections: a permit that is taken before the first one and
-- given back behind it.
use rabbitmq_perf_test.Base.{ℕ, false}
use rabbitmq_perf_test.Agents.Confirms.{Confirms, handle_ack, track}

-- Confirms with a full pool, after a message that is tracked and confirmed: its permit was taken
-- before.
abbrev one_more : (timestamp now : ℕ) → Confirms → Confirms
one_more t now c = (handle_ack now 1 false (track 1 t c)).confirms
