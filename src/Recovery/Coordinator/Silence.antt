-- ===== src/Recovery/Coordinator/Silence.antt =====
-- Reconcile of internal/recovery/coordinator.go and the adapter.

use pulse_agent.Prelude.Result.{Result}
use pulse_agent.Recovery.Journal
use pulse_agent.Recovery.Coordinator.Deps.{Deps}
