-- ===== src/Backup/Worker.antt =====
-- workers/backup.worker.ts: what a run's result, a start and a restore's receipt do. `delivers` says
-- whether Telegram takes the messages.
use vpn_relay.Prelude.{
  ℕ, Text, text, text_eq, if◌then◌else◌, Bool, true, false, ◌&&◌, Option, none, some, List, [], ◌∷◌,
  ◌++◌,
}
use vpn_relay.Prelude.Int.{pos, ◌-ℤ◌, pos_part}
use vpn_relay.Prelude.Dict.{Dict, get, put, remove}
use vpn_relay.Alert.{
  Alerts, AlertState, is_enabled, get_cooldown, may_fire, upsert_fired, upsert_clear, has_fired,
}
use vpn_relay.Backup.Schedule.{next_slot, is_catch_up_due}
use vpn_relay.Backup.Run.{RunStatus, running, success, degraded, failed, RunResult}

pub data Message : Type 0 where
  succeeded_again passphrase_note : Message
  not_delivered run_failed : Message
  restore_receipt : Message

pub record Keeper : Type 0 where
  pub alerts : Alerts
  pub sent : List Message

abbrev failed_key : Text
failed_key = text "backup_failed"

abbrev note_key : Text
note_key = text "backup_passphrase_note"

abbrev with_states : (Dict AlertState → Dict AlertState) → Keeper → Keeper
with_states f k =
    let alerts = k.alerts in record k { alerts = record alerts { states = f alerts.states } }

abbrev send : Bool → Message → Keeper → Keeper
send delivers m k = if delivers then record k { sent = k.sent ++ m ∷ [] } else k

-- `shouldFire`
unfoldable pub should_fire : ℕ → Text → ℕ → Keeper → Bool
unfolding get_cooldown get text_eq
should_fire now key default_cooldown_min k =
    may_fire now (get_cooldown key default_cooldown_min k.alerts) (get k.alerts.states key)

-- `maybeSendPassphraseNote`: marked only once the note is delivered
unfoldable pub maybe_send_passphrase_note : Bool → ℕ → Keeper → Keeper
unfolding get put remove text_eq upsert_fired
maybe_send_passphrase_note delivers now k =
    if has_fired (get k.alerts.states note_key)
    then k
    else if delivers
    then with_states (upsert_fired now note_key) (send true passphrase_note k)
    else k

abbrev clear_failed : Bool → ℕ → Keeper → Keeper
clear_failed delivers now k =
    if has_fired (get k.alerts.states failed_key)
    then send delivers succeeded_again (with_states (upsert_clear now failed_key) k)
    else k

abbrev message_for : RunStatus → Message
message_for degraded = not_delivered
message_for running = run_failed
message_for success = run_failed
message_for failed = run_failed

abbrev raise : Bool → ℕ → RunStatus → Keeper → Keeper
raise delivers now status k =
    if is_enabled failed_key k.alerts && should_fire now failed_key 360 k
    then send delivers (message_for status) (with_states (upsert_fired now failed_key) k)
    else k

abbrev after_run : Bool → ℕ → RunStatus → Keeper → Keeper
after_run delivers now success k =
    maybe_send_passphrase_note delivers now (clear_failed delivers now k)
after_run delivers now degraded k = raise delivers now degraded k
after_run delivers now failed k = raise delivers now failed k
after_run delivers now running k = raise delivers now running k

-- `runOnce`; `none` where runBackup throws, as it does when one is in progress
unfoldable pub run_once : Bool → ℕ → Option RunResult → Keeper → Keeper
unfolding maybe_send_passphrase_note should_fire is_enabled upsert_fired upsert_clear get text_eq
run_once delivers now none k = k
run_once delivers now (some result) k = after_run delivers now result.status k

-- `deliverRestoreReceipt`: the marker goes, delivered or not
unfoldable pub deliver_restore_receipt : Bool → Bool → Keeper → Keeper × Bool
deliver_restore_receipt delivers false k = (k, false)
deliver_restore_receipt delivers true k = (send delivers restore_receipt k, false)

pub record Timers : Type 0 where
  -- the delays of the scheduled run and of the catch-up, in milliseconds
  pub scheduled_in : Option ℕ
  pub catch_up_in : Option ℕ

-- `scheduleNext`
unfoldable pub schedule_next : Bool → ℕ → ℕ → ℕ → Option ℕ
unfolding next_slot
schedule_next enabled now hour_utc interval_days =
    if enabled then some (pos_part (next_slot now hour_utc interval_days -ℤ pos now)) else none

-- The timers that the worker arms when it starts; `last` is the end of the last run that left a bundle.
unfoldable pub start_timers : Bool → ℕ → ℕ → ℕ → Option ℕ → Timers
unfolding schedule_next is_catch_up_due
start_timers enabled now hour_utc interval_days last = record {
  scheduled_in = schedule_next enabled now hour_utc interval_days;
  catch_up_in =
      if enabled && is_catch_up_due last now hour_utc interval_days then some 120000 else none;
}
