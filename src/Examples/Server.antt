-- ===== src/Examples/Server.antt =====
-- A shutdown with one drains_in_time and one closer.
use ancore.Common.{ℕ, ◌≤◌, true, false, some, [], ◌∷◌}
use ancore.Server.Shutdown.{Work, returns, ShutdownOptions, last_end, drain_all, run_shutdown}
use ancore.Server.Draining.{run_shutdown_bounds}

abbrev drains_in_time : ℕ → Work
drains_in_time timeout_ms = returns 40 true

abbrev options : ShutdownOptions
options = record {
  server = some (some 30);
  drainables = drains_in_time ∷ [];
  closers = returns 5 false ∷ [];
  timeout_ms = 1000;
}

run_shutdown_bounds_example :
    ((run_shutdown options).at ≤ 1000) × (last_end (drain_all options) ≤ (run_shutdown options).at)
run_shutdown_bounds_example = run_shutdown_bounds options
