-- ===== src/Maintenance/Worker.antt =====
-- workers/maintenance.worker.ts. The state of the process and the table make a `Worker`; what the
-- worker does to the rest of the program is the list of its `Effect`s, in order. `telegram_ok` says
-- whether `sendMarkdown` returns; if it throws, so does the tick.
pub mod Startup
pub mod Ticks
pub mod Stale
pub mod Stall
use vpn_relay.Prelude.{
  ℕ, zero, suc, ◌+◌, ◌*◌, Text, text_eq, ltb, leb, ◌==◌, if◌then◌else◌, Bool, true, false, not,
  ◌&&◌, ◌||◌, Option, none, some, List, [], ◌∷◌, ◌++◌,
}
use vpn_relay.Prelude.Dict.{Dict, get, put, remove}
use vpn_relay.Maintenance.Job.{
  ServerId, a, b, Action, update, update_reboot, reboot, Status, Job, Jobs, JobError, JobUpdate,
  no_update, queued, running, rebooting, succeeded, failed, unknown, not_back, never_started,
  helper_died, is_terminal, get_job, get_active_jobs, update_job, same_server,
}
use vpn_relay.Maintenance.Service.{
  AgentState, Probe, apply_agent_state, reboot_done, now_sql_utc, sql_utc_to_ms,
}

abbrev pub stall_queued_ms : ℕ
stall_queued_ms = 60000

abbrev pub stall_ticks : ℕ
stall_ticks = 2

abbrev pub reboot_deadline_ms : ℕ
reboot_deadline_ms = 10 * 60000

pub data Effect : Type 0 where
  notify_started notify_rebooting notify_summary : Job → Effect
  clear_updates_pending invalidate_metrics : ServerId → Effect
  sync_routing : Effect

pub record Worker : Type 0 where
  pub jobs : Jobs
  pub dead_unit_ticks : Dict ℕ
  pub announced : Dict Status
  pub logged_phase : Dict Text
  -- the servers whose alert `updates_pending:<server>` is fired
  pub updates_pending : ServerId → Bool
  pub effects : List Effect

abbrev pub emit : Effect → Worker → Worker
emit e w = record w { effects = w.effects ++ e ∷ [] }

abbrev is_reboot_only : Action → Bool
is_reboot_only update = false
is_reboot_only update_reboot = false
is_reboot_only reboot = true

abbrev clear_pending : ServerId → (ServerId → Bool) → ServerId → Bool
clear_pending server fired other = if same_server server other then false else fired other

-- The block of `onTerminal` for a job that upgraded packages.
unfoldable pub clear_updates : Job → Worker → Worker
clear_updates job w =
    if not (is_reboot_only job.action) && w.updates_pending job.server_id
    then record w {
      updates_pending = clear_pending job.server_id w.updates_pending;
      effects = w.effects ++ clear_updates_pending job.server_id ∷ [];
    }
    else w

abbrev assert_routing : ServerId → Worker → Worker
assert_routing a w = emit sync_routing w
assert_routing b w = w

abbrev pub when_succeeded : Status → Job → Worker → Worker
when_succeeded succeeded job w =
    assert_routing job.server_id (emit (invalidate_metrics job.server_id) (clear_updates job w))
when_succeeded queued job w = emit (invalidate_metrics job.server_id) w
when_succeeded running job w = emit (invalidate_metrics job.server_id) w
when_succeeded rebooting job w = emit (invalidate_metrics job.server_id) w
when_succeeded failed job w = emit (invalidate_metrics job.server_id) w
when_succeeded unknown job w = emit (invalidate_metrics job.server_id) w

-- `onTerminal`, up to its last statement, which a failed `notify` skips.
unfoldable pub on_terminal : Bool → Job → Worker → Worker × Bool
unfolding clear_updates
on_terminal telegram_ok job w =
    let w' = emit (notify_summary job) (when_succeeded job.status job w) in
    if telegram_ok
    then (record w' { logged_phase = remove w'.logged_phase job.id }, true)
    else (w', false)

abbrev pub forget_job : Text → Worker × Bool → Worker × Bool
forget_job id (w, true) = (
  record w { announced = remove w.announced id; dead_unit_ticks = remove w.dead_unit_ticks id },
  true,
)
forget_job id (w, false) = (w, false)

-- The three `if`s of `announceTransition`, behind `announced.set`.
unfoldable pub announce_status : Bool → Status → Job → Worker → Worker × Bool
unfolding on_terminal
announce_status telegram_ok queued job w = (w, true)
announce_status telegram_ok running job w = (emit (notify_started job) w, telegram_ok)
announce_status telegram_ok rebooting job w = (emit (notify_rebooting job) w, telegram_ok)
announce_status telegram_ok succeeded job w = forget_job job.id (on_terminal telegram_ok job w)
announce_status telegram_ok failed job w = forget_job job.id (on_terminal telegram_ok job w)
announce_status telegram_ok unknown job w = forget_job job.id (on_terminal telegram_ok job w)

abbrev pub same_status : Status → Status → Bool
same_status queued queued = true
same_status running running = true
same_status rebooting rebooting = true
same_status succeeded succeeded = true
same_status failed failed = true
same_status unknown unknown = true
same_status _ _ = false

abbrev pub was_announced : Option Status → Status → Bool
was_announced none status = false
was_announced (some before) status = same_status before status

abbrev pub announce_row : Bool → Option Job → Worker → Worker × Bool
announce_row telegram_ok none w = (w, true)
announce_row telegram_ok (some job) w =
    if was_announced (get w.announced job.id) job.status
    then (w, true)
    else announce_status telegram_ok job.status job
        (record w { announced = put w.announced job.id job.status })

-- `announceTransition`; the flag is false when it throws
unfoldable pub announce_transition : Bool → Text → Worker → Worker × Bool
unfolding announce_status
announce_transition telegram_ok id w = announce_row telegram_ok (get_job w.jobs id) w

abbrev pub failure : ℕ → JobError → Probe → JobUpdate
failure now error probe = record no_update {
  status = some failed;
  error = some error;
  finished_at = some (now_sql_utc now);
  log_tail = probe.log_tail;
}

-- `announceTransition` behind an UPDATE; one that throws ends the tick.
abbrev pub announce_after : Bool → Text → Worker → Option Jobs → Worker × Bool
announce_after telegram_ok id w none = (w, false)
announce_after telegram_ok id w (some jobs) =
    announce_transition telegram_ok id (record w { jobs = jobs })

-- One UPDATE followed by `announceTransition`.
unfoldable pub resolve : Bool → Text → JobUpdate → Worker → Worker × Bool
unfolding announce_transition
resolve telegram_ok id u w = announce_after telegram_ok id w (update_job id u w.jobs)

-- `probe.bootId && job.boot_id && probe.bootId !== job.boot_id`
abbrev pub boot_changed : Option Text → Option Text → Bool
boot_changed (some (c ∷ s)) (some (d ∷ t)) = not (text_eq (c ∷ s) (d ∷ t))
boot_changed _ _ = false

abbrev pub is_past : ℕ → ℕ → Option ℕ → Bool
is_past now limit none = false
is_past now limit (some since) = ltb (sql_utc_to_ms since + limit) now

-- The branch of `tickJob` for a job whose server is rebooting.
unfoldable pub tick_rebooting : Bool → ℕ → Job → Probe → Worker → Worker × Bool
unfolding resolve
tick_rebooting telegram_ok now job probe w =
    if boot_changed probe.boot_id job.boot_id
    then resolve telegram_ok job.id (reboot_done now probe.log_tail) w
    else if is_past now reboot_deadline_ms job.reboot_at
    then resolve telegram_ok job.id (failure now not_back probe) w
    else (w, true)

abbrev is_queued : Status → Bool
is_queued queued = true
is_queued running = false
is_queued rebooting = false
is_queued succeeded = false
is_queued failed = false
is_queued unknown = false

-- The branch for a job whose state file is not there.
unfoldable pub tick_no_state : Bool → ℕ → Job → Probe → Worker → Worker × Bool
unfolding resolve
tick_no_state telegram_ok now job probe w =
    if is_queued job.status && ltb (sql_utc_to_ms job.created_at + stall_queued_ms) now
    then resolve telegram_ok job.id (failure now never_started probe) w
    else (w, true)

abbrev pub ticks_of : Option ℕ → ℕ
ticks_of none = 0
ticks_of (some n) = n

abbrev pub is_dead : Option Bool → Bool
is_dead none = false
is_dead (some alive) = not alive

abbrev pub is_rebooting_status : Status → Bool
is_rebooting_status rebooting = true
is_rebooting_status queued = false
is_rebooting_status running = false
is_rebooting_status succeeded = false
is_rebooting_status failed = false
is_rebooting_status unknown = false

-- The stall detection of `tickJob` on the updated row, with the announcement behind it.
unfoldable pub tick_stall : Bool → ℕ → Job → Probe → Worker → Worker × Bool
unfolding resolve
tick_stall telegram_ok now updated probe w =
    if not (is_terminal updated.status)
      && not (is_rebooting_status updated.status)
      && is_dead probe.unit_alive
    then (let ticks = ticks_of (get w.dead_unit_ticks updated.id) + 1 in
        let w' = record w { dead_unit_ticks = put w.dead_unit_ticks updated.id ticks } in
        if leb stall_ticks ticks
        then resolve telegram_ok updated.id (failure now (helper_died updated.phase) probe) w'
        else announce_transition telegram_ok updated.id w')
    else announce_transition telegram_ok updated.id
        (record w { dead_unit_ticks = remove w.dead_unit_ticks updated.id })

-- The phase log of `tickJob`: `loggedPhase` follows the row's phase.
abbrev pub log_phase_of : Text → Option Text → Worker → Worker
log_phase_of id none w = w
log_phase_of id (some []) w = w
log_phase_of id (some (c ∷ s)) w = record w { logged_phase = put w.logged_phase id (c ∷ s) }

abbrev pub log_phase : Job → Worker → Worker
log_phase updated w = log_phase_of updated.id updated.phase w

abbrev pub reboot_stamp : ℕ → JobUpdate
reboot_stamp now = record no_update { reboot_at = some (now_sql_utc now) }

abbrev pub is_unset : Option ℕ → Bool
is_unset none = true
is_unset (some n) = false

abbrev pub or_same : Jobs → Option Jobs → Jobs
or_same jobs none = jobs
or_same jobs (some jobs') = jobs'

-- First sighting of `rebooting`: the clock of the deadline starts.
unfoldable pub stamp_reboot : ℕ → Job → Worker → Worker
stamp_reboot now updated w =
    if is_rebooting_status updated.status && is_unset updated.reboot_at
    then record w { jobs = or_same w.jobs (update_job updated.id (reboot_stamp now) w.jobs) }
    else w

abbrev pub tick_updated : Bool → ℕ → Probe → Option Job → Worker → Worker × Bool
tick_updated telegram_ok now probe none w = (w, true)
tick_updated telegram_ok now probe (some updated) w =
    tick_stall telegram_ok now updated probe (stamp_reboot now updated (log_phase updated w))

-- The rest of `tickJob` behind `applyAgentState`.
abbrev pub tick_applied : Bool → ℕ → Job → Probe → Worker → Option Jobs → Worker × Bool
tick_applied telegram_ok now job probe w none = (w, false)
tick_applied telegram_ok now job probe w (some jobs) =
    tick_updated telegram_ok now probe (get_job jobs job.id) (record w { jobs = jobs })

-- The part of `tickJob` that mirrors the helper's state.
unfoldable pub tick_mirror : Bool → ℕ → Job → AgentState → Probe → Worker → Worker × Bool
unfolding tick_stall stamp_reboot apply_agent_state
tick_mirror telegram_ok now job state probe w =
    tick_applied telegram_ok now job probe w (apply_agent_state job state probe.log_tail w.jobs)

abbrev pub tick_observed : Bool → ℕ → Job → Probe → Worker → Option AgentState → Worker × Bool
tick_observed telegram_ok now job probe w none = tick_no_state telegram_ok now job probe w
tick_observed telegram_ok now job probe w (some state) =
    tick_mirror telegram_ok now job state probe w

-- `tickJob`: `job` is the row that `run` has read, `probe` the observation made since.
unfoldable pub tick_job : Bool → ℕ → Job → Probe → Worker → Worker × Bool
unfolding tick_rebooting tick_no_state tick_mirror
tick_job telegram_ok now job probe w =
    if is_rebooting_status job.status
    then tick_rebooting telegram_ok now job probe w
    else if probe.unreachable
    then (w, true)
    else tick_observed telegram_ok now job probe w probe.state

-- The `for` loop of `run`; a tick that throws ends it.
unfoldable pub run_jobs : Bool → ℕ → (Job → Probe) → List Job → Worker → Worker
unfolding tick_job
run_jobs telegram_ok now probe [] w = w
run_jobs telegram_ok now probe (job ∷ rest) w =
    let (w', returned) = tick_job telegram_ok now job (probe job) w in
    let w'' = run_jobs telegram_ok now probe rest w' in if returned then w'' else w'

unfoldable pub run : Bool → ℕ → (Job → Probe) → Worker → Worker
unfolding run_jobs get_active_jobs
run telegram_ok now probe w = run_jobs telegram_ok now probe (get_active_jobs w.jobs) w
