-- ===== src/Backup/Restore.antt =====
-- `stageRestore`, `cancelStaged` and `commitRestore` of services/backup.service.ts. The reader of
-- archives, JSON.parse and SQLite are the parameter `Readers`.
pub mod Checked
pub mod Crash
use vpn_relay.Prelude.{
  ℕ, ◌+◌, Text, text, text_eq, ltb, ◌==◌, if◌then◌else◌, Bool, true, false, not, ◌&&◌, Option, none,
  some, List, [], ◌∷◌, ◌++◌, keep,
}
use vpn_relay.Prelude.Dict.{Dict, get, put, remove}
use vpn_relay.Prelude.Result.{Result, ok, err, ◌>>=◌, ◌>>◌}
use vpn_relay.Backup.Container.{
  Bytes, Crypto, Opened, truncated, bad_magic, auth_failed, decrypt_container,
}
use vpn_relay.Backup.Container
use vpn_relay.Backup.Bundle.{Entry, Violation, too_many, max_entries, check_entry}

-- A file of an archive: its header and its content.
pub record File : Type 0 where
  pub entry : Entry
  pub content : Bytes

-- What a restore reads of manifest.json.
pub record Claims : Type 0 where
  pub format : ℕ
  pub created_at : Text
  -- trimmed
  pub reality_pub : Text

pub data DbReport : Type 0 where
  clients : ℕ → DbReport
  unreadable corrupt no_clients_table : DbReport

-- The files of a .tar.gz in order, JSON.parse of a manifest, and the checks of a database;
-- `none` where the reader throws.
pub record Readers : Type 0 where
  pub files : Bytes → Option (List File)
  pub manifest : Bytes → Option Claims
  pub database : Bytes → DbReport

pub data StageError : Type 0 where
  not_opened : Opened → StageError
  no_passphrase bad_archive no_manifest bad_manifest bad_format no_db : StageError
  rejected : List Violation → StageError
  bad_db : DbReport → StageError

pub record StagedRestore : Type 0 where
  pub id : Text
  pub db : Bytes
  pub created_at : Text
  pub clients_in_bundle : ℕ
  pub clients_current : ℕ
  pub same_server : Bool
  pub staged_at : ℕ

-- The staged restore, the id of its timer, and the directories restore-<id> under the staging one.
pub record Staging : Type 0 where
  pub staged : Option StagedRestore
  pub timer : Option Text
  pub dirs : List Text

abbrev is_staged : Text → Option StagedRestore → Bool
is_staged id none = false
is_staged id (some r) = text_eq r.id id

abbrev pub without : Text → List Text → List Text
without id = keep (λ d. not (text_eq d id))

abbrev drop_staged : Option StagedRestore → List Text → List Text
drop_staged none dirs = dirs
drop_staged (some r) dirs = without r.id dirs

abbrev drop_all : Staging → Staging
drop_all s = record { staged = none; timer = none; dirs = drop_staged s.staged s.dirs }

-- `cancelStaged`; an id that is empty counts as none
unfoldable pub cancel_staged : Option Text → Staging → Staging
unfolding text_eq
cancel_staged none s = drop_all s
cancel_staged (some []) s = drop_all s
cancel_staged (some (c ∷ id)) s = if is_staged (c ∷ id) s.staged then drop_all s else s

-- `getStaged`
unfoldable pub get_staged : Text → Staging → Option StagedRestore
unfolding text_eq
get_staged id s = if is_staged id s.staged then s.staged else none

abbrev pub unpack :
    File → Option Violation → Dict Bytes × List Violation → Dict Bytes × List Violation
unpack f none (files, violations) = (put files f.entry.path f.content, violations)
unpack f (some v) (files, violations) = (files, violations ++ v ∷ [])

-- The filter of `tar.extract`, with the files unpacked and the violations so far.
unfoldable pub extract : ℕ → List File → Dict Bytes × List Violation → Dict Bytes × List Violation
unfolding check_entry put remove
extract seen [] acc = acc
extract seen (f ∷ fs) acc =
    extract (seen + 1) fs
      (unpack f (if ltb max_entries (seen + 1) then some too_many else check_entry f.entry) acc)

abbrev pub opened : Opened → Result StageError Bytes
opened (Container.ok plain) = ok plain
opened truncated = err (not_opened truncated)
opened bad_magic = err (not_opened bad_magic)
opened auth_failed = err (not_opened auth_failed)

abbrev pub nonempty_passphrase : Option Text → Result StageError Text
nonempty_passphrase none = err no_passphrase
nonempty_passphrase (some []) = err no_passphrase
nonempty_passphrase (some (c ∷ s)) = ok (c ∷ s)

abbrev pub or_error : {A : Type 0} → StageError → Option A → Result StageError A
or_error e none = err e
or_error e (some a) = ok a

abbrev pub all_allowed : Dict Bytes × List Violation → Result StageError (Dict Bytes)
all_allowed (files, []) = ok files
all_allowed (files, v ∷ vs) = err (rejected (v ∷ vs))

abbrev of_format : Claims → Result StageError Claims
of_format c = if c.format == 1 then ok c else err bad_format

-- `validateStagedDb`
abbrev validate_staged_db : DbReport → Result StageError ℕ
validate_staged_db (clients n) = ok n
validate_staged_db unreadable = err (bad_db unreadable)
validate_staged_db corrupt = err (bad_db corrupt)
validate_staged_db no_clients_table = err (bad_db no_clients_table)

abbrev pub stage_with :
    Text → Result StageError StagedRestore → Staging → Staging × Result StageError StagedRestore
stage_with id (err e) s = (record s { dirs = without id s.dirs }, err e)
stage_with id (ok r) s = (record s { staged = some r; timer = some id }, ok r)

module _ (crypto : Crypto) (readers : Readers) where
  -- The `try` block, up to the checked files.
  unfoldable pub open_bundle : Bytes → Option Text → Result StageError (Dict Bytes)
  unfolding decrypt_container extract
  open_bundle container passphrase = do
    p ← nonempty_passphrase passphrase
    plain ← opened (decrypt_container crypto container p)
    fs ← or_error bad_archive (readers.files plain)
    all_allowed (extract 0 fs ([], []))

  -- The rest of it: the staged restore. `current_pub` is this node's Reality key, or empty.
  unfoldable pub read_bundle : Text → ℕ → ℕ → Text → Dict Bytes → Result StageError StagedRestore
  unfolding get text_eq
  read_bundle id now clients_current current_pub files = do
    json ← or_error no_manifest (get files (text "manifest.json"))
    parsed ← or_error bad_manifest (readers.manifest json)
    manifest ← of_format parsed
    db ← or_error no_db (get files (text "data.db"))
    clients_in_bundle ← validate_staged_db (readers.database db)
    ok (record {
      id = id;
      db = db;
      created_at = manifest.created_at;
      clients_in_bundle = clients_in_bundle;
      clients_current = clients_current;
      same_server = text_eq manifest.reality_pub current_pub;
      staged_at = now;
    })

  -- `stageRestore`
  unfoldable pub stage_restore :
      Text
      → ℕ
      → Bytes
      → Option Text
      → ℕ
      → Text
      → Staging
      → Staging × Result StageError StagedRestore
  unfolding cancel_staged open_bundle read_bundle
  stage_restore id now container passphrase clients_current current_pub s =
      let cleared = cancel_staged none s in
      stage_with id
        (open_bundle container passphrase >>= read_bundle id now clients_current current_pub)
        (record cleared { dirs = cleared.dirs ++ id ∷ [] })

-- What the swap of `commitRestore` writes, in order, once the teardown is over.
pub data Write : Type 0 where
  drop_wal drop_shm swap_db write_marker drop_stage : Write

pub record Disk : Type 0 where
  pub db : Bytes
  -- the files beside it, which SQLite replays into it when it opens it
  pub wal : Option Bytes
  pub shm : Option Bytes
  -- restore-done.json: the clients of the bundle
  pub marker : Option ℕ
  pub dirs : List Text

unfoldable pub commit_writes : List Write
commit_writes = drop_wal ∷ drop_shm ∷ swap_db ∷ write_marker ∷ drop_stage ∷ []

unfoldable pub apply_write : StagedRestore → Write → Disk → Disk
apply_write r drop_wal d = record d { wal = none }
apply_write r drop_shm d = record d { shm = none }
apply_write r swap_db d = record d { db = r.db }
apply_write r write_marker d = record d { marker = some r.clients_in_bundle }
apply_write r drop_stage d = record d { dirs = without r.id d.dirs }

unfoldable pub apply_writes : StagedRestore → List Write → Disk → Disk
unfolding apply_write
apply_writes r [] d = d
apply_writes r (w ∷ ws) d = apply_writes r ws (apply_write r w d)
