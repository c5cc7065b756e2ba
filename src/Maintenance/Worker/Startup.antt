-- ===== src/Maintenance/Worker/Startup.antt =====
-- What `maintenanceWorker` of workers/maintenance.worker.ts does before its first run.
use vpn_relay.Prelude.{ℕ, Bool, List, [], ◌∷◌}
use vpn_relay.Prelude.Dict.{put}
use vpn_relay.Maintenance.Job.{Job, Jobs, get_active_jobs}
use vpn_relay.Maintenance.Service.{Probe, reconcile_on_startup}
use vpn_relay.Maintenance.Worker.{Worker, on_terminal}

-- The rows that the reconciliation on startup has resolved; an `onTerminal` that throws is caught.
unfoldable pub announce_resolved : Bool → List Job → Worker → Worker
unfolding on_terminal
announce_resolved telegram_ok [] w = w
announce_resolved telegram_ok (job ∷ rest) w =
    announce_resolved telegram_ok rest
      (on_terminal telegram_ok job (record w { announced = put w.announced job.id job.status })).0

-- What is still active was announced by the process before this one.
unfoldable pub mark_announced : List Job → Worker → Worker
mark_announced [] w = w
mark_announced (job ∷ rest) w =
    mark_announced rest (record w { announced = put w.announced job.id job.status })

abbrev announce_reconciled : Bool → Worker → Jobs × List Job → Worker
announce_reconciled telegram_ok w (jobs, resolved) =
    announce_resolved telegram_ok resolved (record w { jobs = jobs })

-- The chain behind `reconcileOnStartup` in `maintenanceWorker`, up to the first run.
unfoldable pub start_worker : Bool → ℕ → (Job → Probe) → Worker → Worker
unfolding announce_resolved mark_announced get_active_jobs reconcile_on_startup
start_worker telegram_ok now probe w =
    let w' = announce_reconciled telegram_ok w (reconcile_on_startup now probe w.jobs) in
    mark_announced (get_active_jobs w'.jobs) w'
