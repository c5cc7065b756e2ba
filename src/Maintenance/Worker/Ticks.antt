-- ===== src/Maintenance/Worker/Ticks.antt =====
-- Which rows a tick of the maintenance worker changes.
use vpn_relay.Prelude.{
  ℕ, ◌+◌, Text, text_eq, text_eq-eq, subst, Bool, true, false, Option, none, some, List, [], ◌∷◌,
  ◌≡◌, refl, All, arith, ap, ◌∙◌, Bool-cases, inl, inr,
}
use vpn_relay.Prelude.Dict.{put, remove, get}
use vpn_relay.Maintenance.Job.{
  Job, Jobs, JobUpdate, Status, queued, is_active, is_terminal, not_back, never_started,
  helper_died, get_job, get_active_jobs, update_job,
}
use vpn_relay.Maintenance.Job.Table.{get_job-write_job, write_of_update, get_job-id}
use vpn_relay.Maintenance.Service.{AgentState, Probe, reboot_done, apply_agent_state, agent_update}
use vpn_relay.Maintenance.Worker.{
  Worker, clear_updates, announce_status, announce_row, announce_after, or_same, reboot_stamp,
  ticks_of, log_phase, tick_applied, tick_updated, tick_observed, failure, announce_transition,
  resolve, tick_rebooting, tick_no_state, tick_stall, tick_mirror, tick_job, run_jobs, run,
  stamp_reboot,
}

clear_updates-jobs : (job : Job) (w : Worker) → (clear_updates job w).jobs ≡ w.jobs
unfolding clear_updates
clear_updates-jobs job w = ground arith

announce_status-jobs :
    (ok : Bool) (s : Status) (job : Job) (w : Worker) → (announce_status ok s job w).0.jobs ≡ w.jobs
unfolding announce_status
announce_status-jobs ok queued job w = refl
announce_status-jobs ok s job w = ground (arith, clear_updates-jobs job w)

announce_row-jobs :
    (ok : Bool) (row : Option Job) (w : Worker) → (announce_row ok row w).0.jobs ≡ w.jobs
announce_row-jobs ok none w = refl
announce_row-jobs ok (some job) w = ground (
  arith,
  announce_status-jobs ok job.status job
      (record w { announced = put w.announced job.id job.status }),
)

pub announce_transition-jobs :
    (ok : Bool) (id : Text) (w : Worker) → (announce_transition ok id w).0.jobs ≡ w.jobs
unfolding announce_transition
announce_transition-jobs ok id w = announce_row-jobs ok (get_job w.jobs id) w

-- The row of an id other than the one that is written.
update_job-other :
    (id : Text) (u : JobUpdate) (jobs : Jobs) (j : Text) {jobs' : Jobs}
    → update_job id u jobs ≡ some jobs'
    → text_eq id j ≡ false
    → get_job jobs' j ≡ get_job jobs j
update_job-other id u jobs j h n = rw (write_of_update id u jobs h, get_job-write_job, n)

announce_after-other :
    (ok : Bool) (id : Text) (u : JobUpdate) (w : Worker) (j : Text) (o : Option Jobs)
    → update_job id u w.jobs ≡ o
    → text_eq id j ≡ false
    → get_job (announce_after ok id w o).0.jobs j ≡ get_job w.jobs j
announce_after-other ok id u w j none e n = refl
announce_after-other ok id u w j (some jobs) e n =
    rw announce_transition-jobs (update_job-other id u w.jobs j e n)

resolve-other :
    (ok : Bool) (id : Text) (u : JobUpdate) (w : Worker) (j : Text)
    → text_eq id j ≡ false
    → get_job (resolve ok id u w).0.jobs j ≡ get_job w.jobs j
unfolding resolve
resolve-other ok id u w j n = announce_after-other ok id u w j (update_job id u w.jobs) refl n

tick_rebooting-other :
    (ok : Bool) (now : ℕ) (job : Job) (probe : Probe) (w : Worker) (j : Text)
    → text_eq job.id j ≡ false
    → get_job (tick_rebooting ok now job probe w).0.jobs j ≡ get_job w.jobs j
unfolding tick_rebooting
tick_rebooting-other ok now job probe w j n = ground (
  arith,
  resolve-other ok job.id (reboot_done now probe.log_tail) w j n,
  resolve-other ok job.id (failure now not_back probe) w j n,
)

tick_no_state-other :
    (ok : Bool) (now : ℕ) (job : Job) (probe : Probe) (w : Worker) (j : Text)
    → text_eq job.id j ≡ false
    → get_job (tick_no_state ok now job probe w).0.jobs j ≡ get_job w.jobs j
unfolding tick_no_state
tick_no_state-other ok now job probe w j n =
    ground (arith, resolve-other ok job.id (failure now never_started probe) w j n)

stamped-other :
    (id : Text) (u : JobUpdate) (jobs : Jobs) (j : Text) (o : Option Jobs)
    → update_job id u jobs ≡ o
    → text_eq id j ≡ false
    → get_job (or_same jobs o) j ≡ get_job jobs j
stamped-other id u jobs j none e n = refl
stamped-other id u jobs j (some jobs') e n = update_job-other id u jobs j e n

stamp_reboot-other :
    (now : ℕ) (updated : Job) (w : Worker) (j : Text)
    → text_eq updated.id j ≡ false
    → get_job (stamp_reboot now updated w).jobs j ≡ get_job w.jobs j
unfolding stamp_reboot
stamp_reboot-other now updated w j n = ground (
  arith,
  stamped-other updated.id (reboot_stamp now) w.jobs j
      (update_job updated.id (reboot_stamp now) w.jobs) refl n,
)

tick_stall-other :
    (ok : Bool) (now : ℕ) (updated : Job) (probe : Probe) (w : Worker) (j : Text)
    → text_eq updated.id j ≡ false
    → get_job (tick_stall ok now updated probe w).0.jobs j ≡ get_job w.jobs j
unfolding tick_stall
tick_stall-other ok now updated probe w j n =
    let ticks = ticks_of (get w.dead_unit_ticks updated.id) + 1 in
    let counted = record w { dead_unit_ticks = put w.dead_unit_ticks updated.id ticks } in
    let reset = record w { dead_unit_ticks = remove w.dead_unit_ticks updated.id } in
    ground (
      arith,
      resolve-other ok updated.id (failure now (helper_died updated.phase) probe) counted j n,
      announce_transition-jobs ok updated.id counted,
      announce_transition-jobs ok updated.id reset,
    )

pub log_phase-jobs : (updated : Job) (w : Worker) → (log_phase updated w).jobs ≡ w.jobs
log_phase-jobs updated w = ground arith

tick_updated-other :
    (ok : Bool) (now : ℕ) (probe : Probe) (row : Option Job) (w : Worker) (id j : Text)
    → get_job w.jobs id ≡ row
    → text_eq id j ≡ false
    → get_job (tick_updated ok now probe row w).0.jobs j ≡ get_job w.jobs j
tick_updated-other ok now probe none w id j e n = refl
tick_updated-other ok now probe (some updated) w id j e n =
    let same : updated.id ≡ id = get_job-id w.jobs id e in
    let other : text_eq updated.id j ≡ false = rw same n in
    tick_stall-other ok now updated probe (stamp_reboot now updated (log_phase updated w)) j other
    ∙ (stamp_reboot-other now updated (log_phase updated w) j other
        ∙ ap (λ (js : Jobs). get_job js j) (log_phase-jobs updated w))

tick_applied-other :
    (ok : Bool) (now : ℕ) (job : Job) (u : JobUpdate) (probe : Probe) (w : Worker) (j : Text)
    (o : Option Jobs)
    → update_job job.id u w.jobs ≡ o
    → text_eq job.id j ≡ false
    → get_job (tick_applied ok now job probe w o).0.jobs j ≡ get_job w.jobs j
tick_applied-other ok now job u probe w j none e n = refl
tick_applied-other ok now job u probe w j (some jobs) e n =
    tick_updated-other ok now probe (get_job jobs job.id) (record w { jobs = jobs }) job.id j refl n
    ∙ update_job-other job.id u w.jobs j e n

tick_mirror-other :
    (ok : Bool) (now : ℕ) (job : Job) (state : AgentState) (probe : Probe) (w : Worker) (j : Text)
    → text_eq job.id j ≡ false
    → get_job (tick_mirror ok now job state probe w).0.jobs j ≡ get_job w.jobs j
unfolding tick_mirror apply_agent_state
tick_mirror-other ok now job state probe w j n =
    tick_applied-other ok now job (agent_update state probe.log_tail) probe w j
      (update_job job.id (agent_update state probe.log_tail) w.jobs) refl n

tick_observed-other :
    (ok : Bool) (now : ℕ) (job : Job) (probe : Probe) (w : Worker) (o : Option AgentState)
    (j : Text)
    → text_eq job.id j ≡ false
    → get_job (tick_observed ok now job probe w o).0.jobs j ≡ get_job w.jobs j
tick_observed-other ok now job probe w none j n = tick_no_state-other ok now job probe w j n
tick_observed-other ok now job probe w (some state) j n =
    tick_mirror-other ok now job state probe w j n

-- A tick changes no row but that of its job.
pub tick_job-other :
    (ok : Bool) (now : ℕ) (job : Job) (probe : Probe) (w : Worker) (j : Text)
    → text_eq job.id j ≡ false
    → get_job (tick_job ok now job probe w).0.jobs j ≡ get_job w.jobs j
unfolding tick_job
tick_job-other ok now job probe w j n = ground (
  arith,
  tick_rebooting-other ok now job probe w j n,
  tick_observed-other ok now job probe w probe.state j n,
)

run_jobs-other :
    (ok : Bool) (now : ℕ) (probe : Job → Probe) (jobs : List Job) (w : Worker) (j : Text)
    → All (λ job. text_eq job.id j ≡ false) jobs
    → get_job (run_jobs ok now probe jobs w).jobs j ≡ get_job w.jobs j
unfolding run_jobs
run_jobs-other ok now probe [] w j h = refl
run_jobs-other ok now probe (job ∷ rest) w j h =
    let step = tick_job ok now job (probe job) w in
    ground (
      arith,
      tick_job-other ok now job (probe job) w j h.0,
      run_jobs-other ok now probe rest step.0 j h.1,
    )

-- The ids are the table's primary key: no two rows share one.
abbrev pub NodupIds : Jobs → Type 0
NodupIds [] = Unit
NodupIds (job ∷ jobs) = All (λ other. text_eq other.id job.id ≡ false) jobs × NodupIds jobs

active-ids :
    (jobs : Jobs) (j : Text)
    → All (λ job. text_eq job.id j ≡ false) jobs
    → All (λ job. text_eq job.id j ≡ false) (get_active_jobs jobs)
unfolding get_active_jobs
active-ids [] j h = tt
active-ids (job ∷ jobs) j h = elim (Bool-cases (is_active job.status)) [
  | inl e ↦ rw e (h.0, active-ids jobs j h.1)
  | inr n ↦ rw n (active-ids jobs j h.1)
]

active-ne_terminal :
    (jobs : Jobs) (j : Text) {row : Job}
    → NodupIds jobs
    → get_job jobs j ≡ some row
    → is_terminal row.status ≡ true
    → All (λ job. text_eq job.id j ≡ false) (get_active_jobs jobs)
unfolding get_active_jobs get_job
active-ne_terminal [] j d g t = tt
active-ne_terminal (job ∷ jobs) j {row} d g t = elim (Bool-cases (text_eq job.id j)) [
  | inl e ↦
      let found : job ≡ row = ground arith in
      let done : is_active job.status ≡ false = rw (found, t) refl in
      let here : job.id ≡ j = text_eq-eq job.id j e in
      rw done
        (active-ids jobs j (subst (λ k. All (λ other. text_eq other.id k ≡ false) jobs) here d.0))
  | inr n ↦ elim (Bool-cases (is_active job.status)) [
    | inl a ↦ rw a (n, active-ne_terminal jobs j d.1 (rw n at g) t)
    | inr q ↦ rw q (active-ne_terminal jobs j d.1 (rw n at g) t)
  ]
]

-- A finished job stays finished: whatever the hosts report, a run of the worker that starts from a
-- table in which no two rows share an id leaves every row that is succeeded, failed or unknown as
-- it is.
pub run-keeps_terminal :
    (ok : Bool) (now : ℕ) (probe : Job → Probe) (w : Worker) (j : Text) (row : Job)
    → NodupIds w.jobs
    → get_job w.jobs j ≡ some row
    → is_terminal row.status ≡ true
    → get_job (run ok now probe w).jobs j ≡ some row
unfolding run
run-keeps_terminal ok now probe w j row d g t =
    run_jobs-other ok now probe (get_active_jobs w.jobs) w j (active-ne_terminal w.jobs j d g t) ∙ g
