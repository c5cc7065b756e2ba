-- ===== src/Maintenance/Service.antt =====
-- services/maintenance.service.ts. `now` is `Date.now()` in milliseconds. What is read from the hosts
-- (the helper's state file, the boot id, the unit's state) enters as a `Probe`.
pub mod Starting
pub mod Reconcile
use vpn_relay.Prelude.{
  ℕ, zero, suc, ◌+◌, ◌*◌, ◌/◌, Text, text, text_eq, length, all, ltb, leb, ◌==◌, if◌then◌else◌,
  Bool, true, false, not, ◌&&◌, ◌||◌, Option, none, some, List, [], ◌∷◌, ◌++◌,
}
use vpn_relay.Maintenance.Job.{
  ServerId, a, b, Action, Status, Source, JobError, Job, Jobs, JobUpdate, no_update, queued,
  running, rebooting, succeeded, failed, unknown, arm_failed, apt_failed, unexpected_reboot,
  no_status_file, is_terminal, get_job, get_active_job, get_last_terminal_job, get_active_jobs,
  update_job, insert_job,
}

abbrev pub planned_boot_window_ms : ℕ
planned_boot_window_ms = 15 * 60000

abbrev pub post_terminal_grace_ms : ℕ
post_terminal_grace_ms = 3 * 60000

abbrev pub young_job_ms : ℕ
young_job_ms = 60000

pub data AgentStatus : Type 0 where
  agent_running agent_rebooting agent_succeeded agent_failed : AgentStatus

abbrev pub job_status : AgentStatus → Status
job_status agent_running = running
job_status agent_rebooting = rebooting
job_status agent_succeeded = succeeded
job_status agent_failed = failed

-- The root helper's jobs/<id>.json, of schema 1 (`parseAgentState` gives `none` for any other).
pub record AgentState : Type 0 where
  pub status : AgentStatus
  pub phase : Text
  pub boot_id : Text
  pub started_at : ℕ
  pub finished_at : Option ℕ
  pub exit_code : Option ℕ
  pub upgraded : ℕ
  pub packages : Text

pub record Probe : Type 0 where
  pub state : Option AgentState
  pub boot_id : Option Text
  pub unit_alive : Option Bool
  pub log_tail : Option Text
  pub unreachable : Bool

-- `sqlUtcToMs` of a DATETIME that is not NULL
abbrev pub sql_utc_to_ms : ℕ → ℕ
sql_utc_to_ms seconds = seconds * 1000

-- `nowSqlUtc`
abbrev pub now_sql_utc : ℕ → ℕ
now_sql_utc now = now / 1000

-- `isInProgress`
unfoldable pub is_in_progress : ServerId → Jobs → Bool
is_in_progress server jobs = elim (get_active_job jobs server) [ none ↦ false | some _ ↦ true ]

abbrev pub ended_at : Job → ℕ
ended_at job = elim job.finished_at [ none ↦ job.created_at | some finished ↦ finished ]

-- Date.now() - endedMs < POST_TERMINAL_GRACE_MS
abbrev pub in_grace : ℕ → Option Job → Bool
in_grace now none = false
in_grace now (some last) = ltb now (sql_utc_to_ms (ended_at last) + post_terminal_grace_ms)

-- `shouldSuppressAlerts`
unfoldable pub should_suppress_alerts : ℕ → ServerId → Jobs → Bool
unfolding is_in_progress
should_suppress_alerts now server jobs =
    if is_in_progress server jobs then true else in_grace now (get_last_terminal_job jobs server)

abbrev rebooted_recently : ℕ → Option ℕ → Bool
rebooted_recently now none = false
rebooted_recently now (some reboot_at) = ltb now (sql_utc_to_ms reboot_at + planned_boot_window_ms)

abbrev pub is_planned_by : ℕ → Option Job → Bool
is_planned_by now none = false
is_planned_by now (some job) = rebooted_recently now job.reboot_at

-- `isPlannedBoot`
unfoldable pub is_planned_boot : ℕ → ServerId → Jobs → Bool
is_planned_boot now server jobs =
    is_planned_by now (get_active_job jobs server)
    || is_planned_by now (get_last_terminal_job jobs server)

-- What `startJob` throws: a `MaintenanceError` with its HTTP status, or the error of `requireCascade`.
pub data StartError : Type 0 where
  unknown_action already_running standalone_mode : StartError
  could_not_start : Text → StartError

pub data Started : Type 0 where
  ok : Job → Started
  err : StartError → Started

-- A character of JOB_ID_RE, /^[0-9a-f]{32}$/
abbrev is_hex : ℕ → Bool
is_hex c = (leb b'0' c && leb c b'9') || (leb b'a' c && leb c b'f')

unfoldable pub is_job_id : Text → Bool
is_job_id id = length id == 32 && all is_hex id

-- What the outer world answers to one request: `systemd-run` over SSH for Server A, the write of the
-- trigger file for Server B. `none` is success, `some` the message of the error thrown.
pub record ArmReply : Type 0 where
  pub server_a : Option Text
  pub server_b : Option Text

abbrev malformed_id : Text
malformed_id = text "Refusing to launch: malformed job id"

-- `armServerA` and `armServerB`
unfoldable pub arm : ServerId → Text → ArmReply → Option Text
unfolding is_job_id
arm a id reply = if is_job_id id then reply.server_a else some malformed_id
arm b id reply = reply.server_b

unfoldable pub new_job : Text → ServerId → Action → Source → ℕ → Job
new_job id server action requested_by now = record {
  id = id;
  server_id = server;
  action = action;
  status = queued;
  phase = none;
  requested_by = requested_by;
  boot_id = none;
  created_at = now_sql_utc now;
  started_at = none;
  finished_at = none;
  reboot_at = none;
  exit_code = none;
  error = none;
  packages_upgraded = none;
  packages = none;
  log_tail = none;
}

-- The update of a job that could not be armed.
abbrev pub arm_failure : Text → Text → ℕ → JobUpdate
arm_failure phase message now = record no_update {
  status = some failed;
  phase = some phase;
  error = some (arm_failed message);
  finished_at = some (now_sql_utc now);
}

abbrev arm_phase : Text
arm_phase = text "arm"

abbrev or_same : Jobs → Option Jobs → Jobs
or_same jobs none = jobs
or_same jobs (some jobs') = jobs'

-- The second `try` of `startJob`, and the `return` behind it.
unfoldable pub arm_inserted : Job → Option Text → ℕ → Jobs → Jobs × Started
arm_inserted job none now jobs =
    (jobs, elim (get_job jobs job.id) [ none ↦ ok job | some row ↦ ok row ])
arm_inserted job (some message) now jobs = (
  or_same jobs (update_job job.id (arm_failure arm_phase message now) jobs),
  err (could_not_start message),
)

abbrev insert_then_arm : Job → Option Text → ℕ → Jobs → Option Jobs → Jobs × Started
insert_then_arm job armed now jobs none = (jobs, err already_running)
insert_then_arm job armed now jobs (some jobs') = arm_inserted job armed now jobs'

abbrev pub needs_cascade : ServerId → Bool → Bool
needs_cascade a standalone = standalone
needs_cascade b standalone = false

-- `startJob`. `action` is `none` for a text that is no action; `id` is the random id.
unfoldable pub start_job :
    Bool → ServerId → Option Action → Source → Text → ArmReply → ℕ → Jobs → Jobs × Started
unfolding arm arm_inserted new_job is_in_progress
start_job standalone server none requested_by id reply now jobs = (jobs, err unknown_action)
start_job standalone server (some action) requested_by id reply now jobs =
    if needs_cascade server standalone
    then (jobs, err standalone_mode)
    else if is_in_progress server jobs
    then (jobs, err already_running)
    else (let job = new_job id server action requested_by now in
        insert_then_arm job (arm server id reply) now jobs (insert_job job jobs))

abbrev nonzero : ℕ → Option ℕ
nonzero zero = none
nonzero (suc n) = some (suc n)

abbrev nonzero? : Option ℕ → Option ℕ
nonzero? none = none
nonzero? (some n) = nonzero n

abbrev nonempty : Text → Option Text
nonempty [] = none
nonempty (c ∷ s) = some (c ∷ s)

abbrev agent_error : AgentStatus → Text → Option ℕ → Option JobError
agent_error agent_failed phase exit_code = some (apt_failed phase exit_code)
agent_error agent_running phase exit_code = none
agent_error agent_rebooting phase exit_code = none
agent_error agent_succeeded phase exit_code = none

-- The update of `applyAgentState`.
unfoldable pub agent_update : AgentState → Option Text → JobUpdate
agent_update state log_tail = record {
  status = some (job_status state.status);
  phase = some state.phase;
  boot_id = some state.boot_id;
  started_at = nonzero state.started_at;
  finished_at = nonzero? state.finished_at;
  reboot_at = none;
  exit_code = state.exit_code;
  error = agent_error state.status state.phase state.exit_code;
  packages_upgraded = some state.upgraded;
  packages = nonempty state.packages;
  log_tail = log_tail;
}

-- `applyAgentState`; `none` when the UPDATE throws
unfoldable pub apply_agent_state : Job → AgentState → Option Text → Jobs → Option Jobs
unfolding agent_update
apply_agent_state job state log_tail jobs = update_job job.id (agent_update state log_tail) jobs

-- `!!(state && bootId && state.boot_id !== bootId)`
abbrev pub has_rebooted : AgentState → Option Text → Bool
has_rebooted state none = false
has_rebooted state (some []) = false
has_rebooted state (some (c ∷ boot_id)) = not (text_eq state.boot_id (c ∷ boot_id))

abbrev is_rebooting : AgentStatus → Bool
is_rebooting agent_rebooting = true
is_rebooting agent_running = false
is_rebooting agent_succeeded = false
is_rebooting agent_failed = false

abbrev done_phase : Text
done_phase = text "done"

-- The update of a reboot that came back, here and in the worker.
abbrev pub reboot_done : ℕ → Option Text → JobUpdate
reboot_done now log_tail = record no_update {
  status = some succeeded;
  phase = some done_phase;
  exit_code = some 0;
  finished_at = some (now_sql_utc now);
  log_tail = log_tail;
}

abbrev interrupted : ℕ → Text → Option Text → JobUpdate
interrupted now phase log_tail = record no_update {
  status = some failed;
  phase = some phase;
  error = some unexpected_reboot;
  finished_at = some (now_sql_utc now);
  log_tail = log_tail;
}

abbrev outcome_unknown : ℕ → JobUpdate
outcome_unknown now = record no_update {
  status = some unknown;
  error = some no_status_file;
  finished_at = some (now_sql_utc now);
}

-- The decision table of `reconcileOne`: the update to make, or `none` to leave the job to the worker.
unfoldable pub reconcile_decision :
    ℕ → Job → Option AgentState → Option Text → Option Text → Option JobUpdate
unfolding agent_update
reconcile_decision now job (some state) boot_id log_tail =
    if is_terminal (job_status state.status)
    then some (agent_update state log_tail)
    else if is_rebooting state.status && has_rebooted state boot_id
    then some (reboot_done now log_tail)
    else if has_rebooted state boot_id
    then some (interrupted now state.phase log_tail)
    else none
reconcile_decision now job none boot_id log_tail =
    if ltb now (sql_utc_to_ms job.created_at + young_job_ms)
    then none
    else some (outcome_unknown now)

abbrev pub resolved_row : Option Job → List Job
resolved_row none = []
resolved_row (some row) = row ∷ []

-- An UPDATE that throws is caught by the caller, and leaves the table.
abbrev pub resolved_after : Text → Jobs → Option Jobs → Jobs × List Job
resolved_after id jobs none = (jobs, [])
resolved_after id jobs (some jobs') = (jobs', resolved_row (get_job jobs' id))

abbrev pub reconcile_decided : Text → Jobs → Option JobUpdate → Jobs × List Job
reconcile_decided id jobs none = (jobs, [])
reconcile_decided id jobs (some u) = resolved_after id jobs (update_job id u jobs)

-- `reconcileOne` with the `catch` of its caller.
unfoldable pub reconcile_one : ℕ → Job → Probe → Jobs → Jobs × List Job
unfolding reconcile_decision
reconcile_one now job probe jobs =
    reconcile_decided job.id jobs
      (reconcile_decision now job probe.state probe.boot_id probe.log_tail)

-- A host that cannot be reached is passed over.
unfoldable pub reconcile_reached : ℕ → Job → Probe → Jobs → Jobs × List Job
unfolding reconcile_one
reconcile_reached now job probe jobs =
    if probe.unreachable then (jobs, []) else reconcile_one now job probe jobs

-- The loop of `reconcileOnStartup` over the active jobs.
unfoldable pub reconcile_each : ℕ → (Job → Probe) → List Job → Jobs → Jobs × List Job
unfolding reconcile_reached
reconcile_each now probe [] jobs = (jobs, [])
reconcile_each now probe (job ∷ rest) jobs =
    let (jobs', resolved) = reconcile_reached now job (probe job) jobs in
    let (jobs'', more) = reconcile_each now probe rest jobs' in (jobs'', resolved ++ more)

unfoldable pub reconcile_on_startup : ℕ → (Job → Probe) → Jobs → Jobs × List Job
unfolding reconcile_each get_active_jobs
reconcile_on_startup now probe jobs = reconcile_each now probe (get_active_jobs jobs) jobs
