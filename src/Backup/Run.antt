-- ===== src/Backup/Run.antt =====
-- `runBackup` of services/backup.service.ts, in two steps: up to its first await, and from there to the
-- end. What the calls of the file system, of SQLite, tar, Server A and Telegram give is the record
-- `Calls`; the texts of errors are shortened. With the table backup_runs of db/queries.ts.
pub mod Alone
use vpn_relay.Prelude.{
  ℕ, ◌+◌, Text, text, text_eq, ltb, if◌then◌else◌, Bool, true, false, not, ◌&&◌, ◌||◌, Option, none,
  some, List, [], ◌∷◌, ◌++◌, any, keep,
}
use vpn_relay.Prelude.Result.{Result, ok, err, ◌>>=◌, ◌>>◌}
use vpn_relay.Backup.Bundle.{UtcDate, bundle_label, bundle_name}
use vpn_relay.Backup.Rotation.{rotate, is_bundle}

pub data Trigger : Type 0 where
  scheduled manual : Trigger

pub data RunStatus : Type 0 where
  running success degraded failed : RunStatus

pub record BackupRun : Type 0 where
  pub id : Text
  pub trigger : Trigger
  pub status : RunStatus
  pub started_at : ℕ
  pub finished_at : Option ℕ
  pub bundle_bytes : Option ℕ
  pub db_bytes : Option ℕ
  pub telegram_ok : Option Bool
  pub local_path : Option Text
  pub wg_key_included : Option Bool
  pub error : Option Text

abbrev pub Runs : Type 0
Runs = List BackupRun

abbrev pub new_run : Text → Trigger → ℕ → BackupRun
new_run id trigger now = record {
  id = id;
  trigger = trigger;
  status = running;
  started_at = now;
  finished_at = none;
  bundle_bytes = none;
  db_bytes = none;
  telegram_ok = none;
  local_path = none;
  wg_key_included = none;
  error = none;
}

-- `insertBackupRun`: `none` for an error; the id is the primary key
unfoldable pub insert_backup_run : Text → Trigger → ℕ → Runs → Option Runs
insert_backup_run id trigger now runs =
    if any (λ r. text_eq r.id id) runs then none else some (runs ++ new_run id trigger now ∷ [])

-- `finishBackupRun`, with the other columns that it sets
unfoldable pub finish_backup_run : ℕ → Text → (BackupRun → BackupRun) → Runs → Runs
finish_backup_run now id set [] = []
finish_backup_run now id set (r ∷ rs) =
    (if text_eq r.id id then record (set r) { finished_at = some now } else r)
    ∷ finish_backup_run now id set rs

abbrev pub is_running : RunStatus → Bool
is_running running = true
is_running success = false
is_running degraded = false
is_running failed = false

abbrev reap : ℕ → BackupRun → BackupRun
reap now r = record r {
  status = failed;
  error = some (text "interrupted by restart");
  finished_at = some now;
}

-- `failStuckBackupRuns`
unfoldable pub fail_stuck_backup_runs : ℕ → ℕ → Runs → Runs
fail_stuck_backup_runs now process_start [] = []
fail_stuck_backup_runs now process_start (r ∷ rs) =
    (if is_running r.status && ltb r.started_at process_start then reap now r else r)
    ∷ fail_stuck_backup_runs now process_start rs

-- A call that may throw.
abbrev pub Outcome : Type 0 → Type 0
Outcome A = Result Text A

pub record Host : Type 0 where
  pub standalone : Bool
  pub hy2_enabled : Bool
  pub tma_domain : Option Text
  pub server_b_host : Text
  pub backup_retention : ℕ

pub record Manifest : Type 0 where
  pub created_at : UtcDate
  pub trigger : Trigger
  pub host : Text
  pub label : Text
  pub standalone : Bool
  pub hy2_enabled : Bool
  pub wg_key_included : Bool
  pub clients : ℕ
  pub db_bytes : ℕ
  pub reality_pub : Text

-- What the calls out of the process give during one run.
pub record Calls : Type 0 where
  -- ensureDirs and the stage directory
  pub make_dirs : Outcome (Unit {0})
  -- db.backup and the size of the copy
  pub snapshot : Outcome ℕ
  -- `copyKey`: the content, trimmed
  pub copy_key : Text → Outcome Text
  pub copy_obfs : Outcome (Unit {0})
  -- the passphrase file, trimmed, and its copy
  pub passphrase : Outcome Text
  pub copy_passphrase : Outcome (Unit {0})
  -- `cat` of Server A's key, trimmed
  pub wg_key : Outcome Text
  pub write_wg_key : Outcome (Unit {0})
  pub count_clients : Outcome ℕ
  -- tar, encryptContainer, the write of the .part file and its rename: the size of the bundle
  pub land : Text → Manifest → Text → Outcome ℕ
  -- whether the closing UPDATE throws, that of the `try` block and that of the `catch` block
  pub finish : Outcome (Unit {0})
  pub finish_failed : Outcome (Unit {0})
  -- `none` where no API is given
  pub send_document : Option (Outcome (Unit {0}))

-- `readPassphrase`
abbrev pub nonempty_passphrase : Text → Outcome Text
nonempty_passphrase [] = err (text "Backup passphrase file is empty")
nonempty_passphrase (c ∷ s) = ok (c ∷ s)

-- `fetchWgServerKey`
abbrev fetch_wg_server_key : Outcome Text → Option Text
fetch_wg_server_key (err e) = none
fetch_wg_server_key (ok []) = none
fetch_wg_server_key (ok (c ∷ s)) = some (c ∷ s)

abbrev fatal_key : Outcome Text → Outcome Text
fatal_key (ok s) = ok s
fatal_key (err e) = err (text "Cannot read reality.key" ++ e)

abbrev include_key : Calls → Option Text → Outcome Bool
include_key calls none = ok false
include_key calls (some key) = calls.write_wg_key >> ok true

abbrev include_wg_key : Host → Calls → Outcome Bool
include_wg_key host calls =
    if host.standalone then ok false else include_key calls (fetch_wg_server_key calls.wg_key)

-- Steps 1 to 5, up to the manifest, with the passphrase.
unfoldable pub gather : Host → Calls → Trigger → UtcDate → Outcome (Manifest × Text)
unfolding bundle_label
gather host calls trigger now = do
  calls.make_dirs
  db_bytes ← calls.snapshot
  reality_pub ← calls.copy_key (text "reality.pub")
  calls.copy_key (text "shortid")
  fatal_key (calls.copy_key (text "reality.key"))
  (if host.hy2_enabled then calls.copy_obfs else ok tt)
  read ← calls.passphrase
  passphrase ← nonempty_passphrase read
  calls.copy_passphrase
  wg_key_included ← include_wg_key host calls
  clients ← calls.count_clients
  ok (
    record {
      created_at = now;
      trigger = trigger;
      host = host.server_b_host;
      label = bundle_label host.tma_domain host.server_b_host;
      standalone = host.standalone;
      hy2_enabled = host.hy2_enabled;
      wg_key_included = wg_key_included;
      clients = clients;
      db_bytes = db_bytes;
      reality_pub = reality_pub;
    },
    passphrase,
  )

abbrev telegram_send_limit : ℕ
telegram_send_limit = 47185920

abbrev sent : Outcome (Unit {0}) → Bool × Option Text
sent (ok _) = (true, none)
sent (err e) = (false, some (text "Telegram delivery failed: " ++ e))

-- Step 8: whether the bundle is delivered, and the error if not.
unfoldable pub deliver : ℕ → Option (Outcome (Unit {0})) → Bool × Option Text
deliver bundle_bytes none = (false, some (text "Telegram delivery skipped (no API available)"))
deliver bundle_bytes (some send) =
    if ltb telegram_send_limit bundle_bytes
    then (false, some (text "over the send limit; kept locally only"))
    else sent send

pub record RunResult : Type 0 where
  pub id : Text
  pub status : RunStatus
  pub local_path : Option Text
  pub bundle_bytes : Option ℕ
  pub db_bytes : Option ℕ
  pub telegram_ok : Bool
  pub wg_key_included : Bool
  pub error : Option Text

-- The service's flag with the run in flight, the table, the directories backup-<id> of STAGING_DIR, by their
-- ids, and BACKUP_DIR. The directories restore-<id> stand in Backup/Restore.
pub record Backups : Type 0 where
  pub running : Bool
  pub in_flight : Option Text
  pub runs : Runs
  pub stages : List Text
  pub names : Option (List Text)

pub data Start : Type 0 where
  started busy insert_failed : Start

abbrev pub begin_with : Text → Backups → Option Runs → Backups × Start
begin_with id s none = (record s { running = true }, insert_failed)
begin_with id s (some runs) = (
  record s { running = true; in_flight = some id; runs = runs; stages = s.stages ++ id ∷ [] },
  started,
)

-- `runBackup` up to its first await. The insert stands outside the `try`.
unfoldable pub begin_run : Text → Trigger → ℕ → Backups → Backups × Start
unfolding insert_backup_run
begin_run id trigger now s =
    if s.running then (s, busy) else begin_with id s (insert_backup_run id trigger now s.runs)

abbrev add_name : Text → Option (List Text) → Option (List Text)
add_name name none = none
add_name name (some names) =
    if any (text_eq name) names then some names else some (names ++ name ∷ [])

abbrev pub without : Text → List Text → List Text
without id = keep (λ d. not (text_eq d id))

-- The `finally` block; the removal of the directory is taken to succeed.
abbrev pub settle : Text → Backups → Backups
settle id s = record s { running = false; in_flight = none; stages = without id s.stages }

abbrev pub set_failed : Text → BackupRun → BackupRun
set_failed message r = record r { status = failed; error = some message }

abbrev failed_result : Text → Text → RunResult
failed_result id message = record {
  id = id;
  status = failed;
  local_path = none;
  bundle_bytes = none;
  db_bytes = none;
  telegram_ok = false;
  wg_key_included = false;
  error = some message;
}

-- The `catch` block: its UPDATE may throw in turn, and then `runBackup` throws.
abbrev pub fail_with : Outcome (Unit {0}) → Text → ℕ → Text → Backups → Backups × Outcome RunResult
fail_with (ok _) id at message s = (
  record s { runs = finish_backup_run at id (set_failed message) s.runs },
  ok (failed_result id message),
)
fail_with (err e) id at message s = (s, err e)

abbrev pub set_result : RunResult → BackupRun → BackupRun
set_result result r = record r {
  status = result.status;
  bundle_bytes = result.bundle_bytes;
  db_bytes = result.db_bytes;
  telegram_ok = some result.telegram_ok;
  local_path = result.local_path;
  wg_key_included = some result.wg_key_included;
  error = result.error;
}

abbrev result_of : Text → Manifest → Text → ℕ → Bool × Option Text → RunResult
result_of id manifest name bundle_bytes (telegram_ok, error) = record {
  id = id;
  status = if telegram_ok then success else degraded;
  local_path = some name;
  bundle_bytes = some bundle_bytes;
  db_bytes = some manifest.db_bytes;
  telegram_ok = telegram_ok;
  wg_key_included = manifest.wg_key_included;
  error = error;
}

-- The UPDATE of the `try` block, with the step to the `catch` block if it throws.
abbrev pub close_run :
    Outcome (Unit {0}) → Calls → ℕ → RunResult → Backups → Backups × Outcome RunResult
close_run (ok _) calls at result s =
    (record s { runs = finish_backup_run at result.id (set_result result) s.runs }, ok result)
close_run (err e) calls at result s = fail_with calls.finish_failed result.id at e s

-- Steps 6 to 8: the bundle lands, the rotation runs, the bundle is sent, the row is closed.
abbrev pub land_bundle :
    Host → Calls → Text → ℕ → Manifest → Text → Outcome ℕ → Backups → Backups × Outcome RunResult
land_bundle host calls id at manifest name (err e) s = fail_with calls.finish_failed id at e s
land_bundle host calls id at manifest name (ok bundle_bytes) s =
    close_run calls.finish calls at
      (result_of id manifest name bundle_bytes (deliver bundle_bytes calls.send_document))
      (record s { names = rotate is_bundle host.backup_retention (add_name name s.names) })

abbrev pub assemble :
    Host
    → Calls
    → UtcDate
    → Text
    → ℕ
    → Outcome (Manifest × Text)
    → Backups
    → Backups × Outcome RunResult
assemble host calls now id at (err e) s = fail_with calls.finish_failed id at e s
assemble host calls now id at (ok (manifest, passphrase)) s =
    let name = bundle_name manifest.label now in
    land_bundle host calls id at manifest name (calls.land name manifest passphrase) s

-- `runBackup` from its first await to its end; `at` is the time then
unfoldable pub end_run :
    Host → Calls → Trigger → UtcDate → Text → ℕ → Backups → Backups × Outcome RunResult
unfolding gather deliver rotate is_bundle finish_backup_run bundle_name
end_run host calls trigger now id at s =
    let ended = assemble host calls now id at (gather host calls trigger now) s in
    (settle id ended.0, ended.1)

-- `commitRestore` up to its first await: it never gives the flag back, as it ends the process.
unfoldable pub begin_commit : Backups → Backups × Start
begin_commit s = if s.running then (s, busy) else (record s { running = true }, started)

-- The service when the worker has reaped the table and wiped the staging directory.
unfoldable pub startup : ℕ → ℕ → Runs → Option (List Text) → Backups
unfolding fail_stuck_backup_runs
startup now process_start runs names = record {
  running = false;
  in_flight = none;
  runs = fail_stuck_backup_runs now process_start runs;
  stages = [];
  names = names;
}
