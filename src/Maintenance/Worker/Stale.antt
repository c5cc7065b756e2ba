-- ===== src/Maintenance/Worker/Stale.antt =====
-- `setInterval` of workers/maintenance.worker.ts starts a run while another still waits for its probe,
-- so a tick may act on a row that has been finished since it was read.
use vpn_relay.Prelude.{ℕ, text_eq_refl, Bool, true, false, some, ◌≡◌, ap, arith, ◌∙◌}
use vpn_relay.Prelude.Dict.{remove}
use vpn_relay.Maintenance.Job.{
  Job, Jobs, JobUpdate, running, is_terminal, get_job, update_job, updated_row,
}
use vpn_relay.Maintenance.Job.Table.{write_of_update, get_job-write_job}
use vpn_relay.Maintenance.Service.{
  AgentState, agent_running, job_status, Probe, apply_agent_state, agent_update,
}
use vpn_relay.Maintenance.Worker.{
  Worker, tick_job, tick_mirror, tick_stall, tick_applied, stamp_reboot, log_phase,
}
use vpn_relay.Maintenance.Worker.Ticks.{announce_transition-jobs, log_phase-jobs}

tick_stall-alive :
    (ok : Bool) (now : ℕ) (updated : Job) (probe : Probe) (w : Worker)
    → probe.unit_alive ≡ some true
    → (tick_stall ok now updated probe w).0.jobs ≡ w.jobs
unfolding tick_stall
tick_stall-alive ok now updated probe w alive = ground (
  arith,
  announce_transition-jobs ok updated.id
      (record w { dead_unit_ticks = remove w.dead_unit_ticks updated.id }),
)

stamp_reboot-running :
    (now : ℕ) (updated : Job) (w : Worker)
    → updated.status ≡ running
    → (stamp_reboot now updated w).jobs ≡ w.jobs
unfolding stamp_reboot
stamp_reboot-running now updated w h = ground arith

tick_applied-alive :
    (ok : Bool) (now : ℕ) (job updated : Job) (probe : Probe) (w : Worker) (jobs : Jobs)
    → get_job jobs job.id ≡ some updated
    → updated.status ≡ running
    → probe.unit_alive ≡ some true
    → (tick_applied ok now job probe w (some jobs)).0.jobs ≡ jobs
tick_applied-alive ok now job updated probe w jobs found runs alive =
    let applied : Worker = record w { jobs = jobs } in
    rw found (
      tick_stall-alive ok now updated probe (stamp_reboot now updated (log_phase updated applied))
        alive
      ∙ (stamp_reboot-running now updated (log_phase updated applied) runs
          ∙ log_phase-jobs updated applied))

applied-row :
    (job row : Job) (u : JobUpdate) (w : Worker) (jobs : Jobs)
    → get_job w.jobs job.id ≡ some row
    → update_job job.id u w.jobs ≡ some jobs
    → get_job jobs job.id ≡ some (updated_row u row)
applied-row job row u w jobs read e =
    rw (write_of_update job.id u w.jobs e, get_job-write_job, text_eq_refl job.id, read)

-- A tick on a row that it read as running, with a state file that says running and a live unit, makes
-- the row running again, also where the row has been finished in the meantime (failed by the stall
-- detection of another run, say), unless another job has become active on the server since.
pub stale_tick_reopens :
    (telegram_ok : Bool) (now : ℕ) (job row : Job) (state : AgentState) (probe : Probe) (w : Worker)
    (jobs : Jobs)
    → job.status ≡ running
    → get_job w.jobs job.id ≡ some row
    → is_terminal row.status ≡ true
    → probe.unreachable ≡ false
    → probe.state ≡ some state
    → state.status ≡ agent_running
    → probe.unit_alive ≡ some true
    → apply_agent_state job state probe.log_tail w.jobs ≡ some jobs
    → get_job (tick_job telegram_ok now job probe w).0.jobs job.id
      ≡ some (updated_row (agent_update state probe.log_tail) row)
unfolding tick_job tick_mirror apply_agent_state updated_row agent_update
stale_tick_reopens ok now job row state probe w jobs runs read done up seen agent alive applied =
    let u = agent_update state probe.log_tail in
    let found = applied-row job row u w jobs read applied in
    let ended =
      tick_applied-alive ok now job (updated_row u row) probe w jobs found (ap job_status agent)
        alive in
    rw (runs, up, seen, applied) (ap (λ (js : Jobs). get_job js job.id) ended ∙ found)
