-- ===== src/Maintenance/Job.antt =====
-- The table maintenance_jobs (bot/packages/server/src/db/index.ts) and its queries
-- (bot/packages/server/src/db/queries.ts). A row's DATETIME is the number of seconds since the epoch;
-- the list of rows is in the order of rowid. `status_index` is the partial unique index.
pub mod Table
use vpn_relay.Prelude.{
  ℕ, ◌*◌, ◌/◌, Text, text_eq, leb, if◌then◌else◌, Bool, true, false, not, ◌&&◌, ◌||◌, Option, none,
  some, List, [], ◌∷◌, ◌++◌, any,
}

pub data ServerId : Type 0 where
  a b : ServerId

pub data Action : Type 0 where
  update update_reboot reboot : Action

pub data Status : Type 0 where
  queued running rebooting succeeded failed unknown : Status

pub data Source : Type 0 where
  tma bot : Source

-- The texts of the column `error`, one constructor for each template.
pub data JobError : Type 0 where
  arm_failed : Text → JobError
  apt_failed : Text → Option ℕ → JobError
  unexpected_reboot no_status_file not_back never_started : JobError
  helper_died : Option Text → JobError

pub record Job : Type 0 where
  pub id : Text
  pub server_id : ServerId
  pub action : Action
  pub status : Status
  pub phase : Option Text
  pub requested_by : Source
  pub boot_id : Option Text
  pub created_at : ℕ
  pub started_at : Option ℕ
  pub finished_at : Option ℕ
  pub reboot_at : Option ℕ
  pub exit_code : Option ℕ
  pub error : Option JobError
  pub packages_upgraded : Option ℕ
  pub packages : Option Text
  pub log_tail : Option Text

abbrev pub same_server : ServerId → ServerId → Bool
same_server a a = true
same_server b b = true
same_server a b = false
same_server b a = false

-- `isTerminal`
abbrev pub is_terminal : Status → Bool
is_terminal succeeded = true
is_terminal failed = true
is_terminal unknown = true
is_terminal queued = false
is_terminal running = false
is_terminal rebooting = false

-- status IN ('queued', 'running', 'rebooting')
abbrev pub is_active : Status → Bool
is_active status = not (is_terminal status)

abbrev pub Jobs : Type 0
Jobs = List Job

-- The rows that the partial unique index idx_maint_active holds for a server.
abbrev pub active_on : ServerId → Job → Bool
active_on server job = same_server job.server_id server && is_active job.status

-- `getMaintenanceJob`
unfoldable pub get_job : Jobs → Text → Option Job
get_job [] id = none
get_job (job ∷ jobs) id = if text_eq job.id id then some job else get_job jobs id

-- `getActiveMaintenanceJob`
unfoldable pub get_active_job : Jobs → ServerId → Option Job
get_active_job [] server = none
get_active_job (job ∷ jobs) server =
    if active_on server job then some job else get_active_job jobs server

-- `getActiveMaintenanceJobs`, in insertion order (created_at never falls along the rowids)
unfoldable pub get_active_jobs : Jobs → Jobs
get_active_jobs [] = []
get_active_jobs (job ∷ jobs) =
    let rest = get_active_jobs jobs in if is_active job.status then job ∷ rest else rest

abbrev newer_of : Job → Option Job → Option Job
newer_of job none = some job
newer_of job (some other) = if leb job.created_at other.created_at then some other else some job

-- `getLastTerminalMaintenanceJob`: ORDER BY created_at DESC, rowid DESC LIMIT 1
unfoldable pub get_last_terminal_job : Jobs → ServerId → Option Job
get_last_terminal_job [] server = none
get_last_terminal_job (job ∷ jobs) server =
    let rest = get_last_terminal_job jobs server in
    if same_server job.server_id server && is_terminal job.status then newer_of job rest else rest

-- The first argument of a field of `updates`: `none` is `undefined`, and leaves the column alone.
abbrev pub set_or_keep {ℓ} : {A : Type ℓ} → Option A → Option A → Option A
set_or_keep none old = old
set_or_keep (some v) old = some v

abbrev pub status_or_keep : Option Status → Status → Status
status_or_keep none old = old
status_or_keep (some s) old = s

pub record JobUpdate : Type 0 where
  pub status : Option Status
  pub phase : Option Text
  pub boot_id : Option Text
  pub started_at : Option ℕ
  pub finished_at : Option ℕ
  pub reboot_at : Option ℕ
  pub exit_code : Option ℕ
  pub error : Option JobError
  pub packages_upgraded : Option ℕ
  pub packages : Option Text
  pub log_tail : Option Text

-- Every column left alone.
abbrev pub no_update : JobUpdate
no_update = record {
  status = none;
  phase = none;
  boot_id = none;
  started_at = none;
  finished_at = none;
  reboot_at = none;
  exit_code = none;
  error = none;
  packages_upgraded = none;
  packages = none;
  log_tail = none;
}

unfoldable pub updated_row : JobUpdate → Job → Job
updated_row u job = record job {
  status = status_or_keep u.status job.status;
  phase = set_or_keep u.phase job.phase;
  boot_id = set_or_keep u.boot_id job.boot_id;
  started_at = set_or_keep u.started_at job.started_at;
  finished_at = set_or_keep u.finished_at job.finished_at;
  reboot_at = set_or_keep u.reboot_at job.reboot_at;
  exit_code = set_or_keep u.exit_code job.exit_code;
  error = set_or_keep u.error job.error;
  packages_upgraded = set_or_keep u.packages_upgraded job.packages_upgraded;
  packages = set_or_keep u.packages job.packages;
  log_tail = set_or_keep u.log_tail job.log_tail;
}

-- UPDATE maintenance_jobs SET … WHERE id = ?
unfoldable pub write_job : Text → JobUpdate → Jobs → Jobs
unfolding updated_row
write_job id u [] = []
write_job id u (job ∷ jobs) =
    (if text_eq job.id id then updated_row u job else job) ∷ write_job id u jobs

-- The index idx_maint_active: no two active rows of one server.
unfoldable pub status_index : Jobs → Bool
status_index [] = true
status_index (job ∷ jobs) =
    not (is_active job.status && any (active_on job.server_id) jobs) && status_index jobs

-- `updateMaintenanceJob`: an UPDATE that breaks the index throws, and changes nothing (`none`).
unfoldable pub update_job : Text → JobUpdate → Jobs → Option Jobs
unfolding write_job status_index
update_job id u jobs =
    let jobs' = write_job id u jobs in if status_index jobs' then some jobs' else none

-- The INSERT breaks the primary key or the index.
unfoldable pub insert_clashes : Job → Jobs → Bool
insert_clashes job jobs =
    any (λ (other : Job). text_eq other.id job.id) jobs
    || (is_active job.status && any (active_on job.server_id) jobs)

-- `insertMaintenanceJob`: throws (`none`), or appends the row.
unfoldable pub insert_job : Job → Jobs → Option Jobs
insert_job job jobs = if insert_clashes job jobs then none else some (jobs ++ job ∷ [])
