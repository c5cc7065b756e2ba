-- ===== src/Tests/Jobs.antt =====
-- One job on Server B, queued, running and finished.
use vpn_relay.Prelude.{Text, text, text_eq, ◌≡◌, refl, true, false, none, some, [], ◌∷◌, All}
use vpn_relay.Maintenance.Job.{
  Job, Jobs, b, update, tma, running, queued, succeeded, is_terminal, get_job, get_active_job,
  status_index, update_job, write_job, no_update, updated_row,
}
use vpn_relay.Maintenance.Job.Table.{update_job-active}
use vpn_relay.Maintenance.Service.{
  AgentState, agent_running, Probe, ArmReply, arm, start_job, ok, err, already_running,
  apply_agent_state, agent_update, reconcile_on_startup,
}
use vpn_relay.Maintenance.Service.Starting.{IsQueuedFor, start_job-accepted}
use vpn_relay.Maintenance.Service.Reconcile.{reconcile_on_startup-final}
use vpn_relay.Maintenance.Worker.{Worker, run, tick_job, announce_transition}
use vpn_relay.Maintenance.Worker.Ticks.{run-keeps_terminal}
use vpn_relay.Maintenance.Worker.Stale.{stale_tick_reopens}
use vpn_relay.Maintenance.Worker.Stall.{announce_transition-once}

abbrev id : Text
id = text "0123456789abcdef0123456789abcdef"

abbrev fresh_job : Job
fresh_job = record {
  id = id;
  server_id = b;
  action = update;
  status = queued;
  phase = none;
  requested_by = tma;
  boot_id = none;
  created_at = 10;
  started_at = none;
  finished_at = none;
  reboot_at = none;
  exit_code = none;
  error = none;
  packages_upgraded = none;
  packages = none;
  log_tail = none;
}

abbrev running_job : Job
running_job = record fresh_job { status = running }

abbrev done_job : Job
done_job = record fresh_job { status = succeeded }

abbrev agent : AgentState
agent = record {
  status = agent_running;
  phase = text "apt";
  boot_id = text "boot";
  started_at = 11;
  finished_at = none;
  exit_code = none;
  upgraded = 0;
  packages = [];
}

abbrev alive : Probe
alive = record {
  state = some agent;
  boot_id = some (text "boot");
  unit_alive = some true;
  log_tail = none;
  unreachable = false;
}

abbrev dead : Probe
dead = record alive { unit_alive = some false }

abbrev worker : Jobs → Worker
worker jobs = record {
  jobs = jobs;
  dead_unit_ticks = [];
  announced = [];
  logged_phase = [];
  updates_pending = λ s. false;
  effects = [];
}

found_done : get_job (done_job ∷ []) id ≡ some done_job
unfolding get_job text_eq
found_done = refl

found_running : get_job (running_job ∷ []) id ≡ some running_job
unfolding get_job text_eq
found_running = refl

one_running : status_index (running_job ∷ []) ≡ true
unfolding status_index
one_running = refl

update_job-active_example :
    update_job id no_update (running_job ∷ []) ≡ some (write_job id no_update (running_job ∷ []))
update_job-active_example =
    update_job-active id no_update (running_job ∷ []) one_running (λ e. refl, tt)

abbrev reply : ArmReply
reply = record { server_a = none; server_b = none }

abbrev denied : ArmReply
denied = record { server_a = none; server_b = some (text "EACCES") }

armed : arm b id reply ≡ none
unfolding arm
armed = refl

none_active : get_active_job [] b ≡ none
unfolding get_active_job
none_active = refl

start_job-accepted_example :
    let first = start_job true b (some update) tma id reply 10000 [] in
    (row : Job) × (first ≡ (row ∷ [], ok row))
    × IsQueuedFor b update tma id row
    × (start_job true b (some update) tma (text "2") reply 20000 first.0
        ≡ (first.0, err already_running))
start_job-accepted_example =
    start_job-accepted b update update tma tma id (text "2") reply reply 10000 20000 [] true refl
      none_active refl armed

reconcile_on_startup-final_example :
    All
      (λ row. is_terminal row.status ≡ true)
      (reconcile_on_startup 20000 (λ j. dead) (running_job ∷ [])).1
reconcile_on_startup-final_example = reconcile_on_startup-final 20000 (λ j. dead) (running_job ∷ [])

run-keeps_terminal_example :
    get_job (run true 20000 (λ j. alive) (worker (done_job ∷ []))).jobs id ≡ some done_job
run-keeps_terminal_example =
    run-keeps_terminal true 20000 (λ j. alive) (worker (done_job ∷ [])) id done_job (tt, tt)
      found_done refl

applied :
    apply_agent_state running_job agent none (done_job ∷ [])
    ≡ some (updated_row (agent_update agent none) done_job ∷ [])
unfolding apply_agent_state agent_update updated_row update_job text_eq
applied = refl

stale_tick_reopens_example :
    get_job (tick_job true 20000 running_job alive (worker (done_job ∷ []))).0.jobs id
    ≡ some (updated_row (agent_update agent none) done_job)
stale_tick_reopens_example =
    stale_tick_reopens true 20000 running_job done_job agent alive (worker (done_job ∷ []))
      (updated_row (agent_update agent none) done_job ∷ []) refl found_done refl refl refl refl refl
      applied

announce_transition-once_example :
    announce_transition true id (announce_transition false id (worker (running_job ∷ []))).0
    ≡ ((announce_transition false id (worker (running_job ∷ []))).0, true)
announce_transition-once_example =
    announce_transition-once false true running_job (worker (running_job ∷ [])) found_running refl
