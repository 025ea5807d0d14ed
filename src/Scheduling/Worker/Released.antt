-- ===== src/Scheduling/Worker/Released.antt =====
-- The worker of backend/app/scheduling/worker.py with the calculator that it calls.
use autonomous_agent_runtime.Scheduling.Worker.{Worker}
