-- ===== src/Tests/Backups.antt =====
-- A schedule of every third day at 03:00, and a container under a cipher that is none.
use vpn_relay.Prelude.{◌*◌}
use vpn_relay.Prelude.{
  ◌≤◌, text_eq, map, All, length, none, false, List, true, ℕ, zero, suc, Text, text, ◌≡◌, refl,
  some, [], ◌∷◌, arith,
}
use vpn_relay.Prelude.Int.{ℤ, pos, ◌≤ℤ◌, ◌<ℤ◌, ◌+ℤ◌, scale}
use vpn_relay.Backup.Schedule.{last_due_slot, next_slot}
use vpn_relay.Backup.Schedule.Grid.{last_due_slot_bounds, last_due_slot-grid}
use vpn_relay.Prelude.Dict.{get}
use vpn_relay.Prelude.Result.{ok, err}
use vpn_relay.Backup.Container
use vpn_relay.Backup.Container.{Bytes, Crypto, encrypt_container, decrypt_container}
use vpn_relay.Backup.Container.RoundTrip.{decrypt-encrypt}
use vpn_relay.Backup.Bundle.{max_entries, UtcDate}
use vpn_relay.Backup.Rotation.{Dated, dated, name_of, is_bundle, select_for_rotation}
use vpn_relay.Backup.Rotation.Oldest.{Rotated, select_for_rotation-oldest}
use vpn_relay.Backup.Run.{Backups, Host, Calls, manual, new_run, startup, begin_run, end_run}
use vpn_relay.Backup.Run.Alone.{IsClosed, initially, later, begins, ends, idle-settled}
use vpn_relay.Backup.Restore.{
  File, clients, Readers, Staging, stage_restore, open_bundle, read_bundle, extract,
}
use vpn_relay.Backup.Restore.Checked.{IsAllowed, stage_restore-checked}

last_due_slot_bounds_example :
    (last_due_slot 1700000000000 3 3 ≤ℤ pos 1700000000000)
    × (pos 1700000000000 <ℤ next_slot 1700000000000 3 3)
last_due_slot_bounds_example = last_due_slot_bounds 1700000000000 3 3 (omega arith) (omega arith)

last_due_slot-grid_example :
    (q : ℤ) × (last_due_slot 1700000000000 3 3
      ≡ scale (scale q 3 +ℤ pos 4) 86400000 +ℤ pos (3 * 3600000))
last_due_slot-grid_example = last_due_slot-grid 1700000000000 3 3 (omega arith)

abbrev zeros : ℕ → Bytes
zeros zero = []
zeros (suc n) = 0 ∷ zeros n

-- The key is the passphrase, and the text stays as it is.
abbrev plain : Crypto
plain = record {
  Key = Text;
  derive_key = λ passphrase salt. passphrase;
  seal = λ k iv p. (p, zeros 16);
  unseal = λ k iv t c. some c;
  tag_length = λ k iv p. refl;
  unseal-seal = λ k iv p. refl;
}

decrypt-encrypt_example :
    decrypt_container plain
      (encrypt_container plain (zeros 16) (zeros 12) (1 ∷ 2 ∷ []) (text "secret"))
      (text "secret")
    ≡ Container.ok (1 ∷ 2 ∷ [])
decrypt-encrypt_example =
    decrypt-encrypt plain (zeros 16) (zeros 12) (1 ∷ 2 ∷ []) (text "secret") refl refl

-- The label has changed between the two bundles, so their names do not sort as their stamps do.
abbrev bundles : List Text
bundles =
    text "vpn-backup-a-20250102-0300Z.tar.gz.enc"
    ∷ text "vpn-backup-b-20250101-0300Z.tar.gz.enc"
    ∷ text "notes.txt"
    ∷ []

select_for_rotation-oldest_example :
    (old : List Dated) × (select_for_rotation is_bundle 1 bundles ≡ map name_of old)
    × Rotated 1 (dated is_bundle bundles) old
select_for_rotation-oldest_example = select_for_rotation-oldest is_bundle 1 bundles

abbrev host : Host
host = record {
  standalone = true;
  hy2_enabled = false;
  tma_domain = none;
  server_b_host = text "10.0.0.1";
  backup_retention = 7;
}

-- The copy of the database fails.
abbrev calls : Calls
calls = record {
  make_dirs = ok tt;
  snapshot = err (text "disk full");
  copy_key = λ name. ok name;
  copy_obfs = ok tt;
  passphrase = ok (text "secret");
  copy_passphrase = ok tt;
  wg_key = ok [];
  write_wg_key = ok tt;
  count_clients = ok 1;
  land = λ name manifest passphrase. ok 1000;
  finish = ok tt;
  finish_failed = ok tt;
  send_document = none;
}

abbrev at_noon : UtcDate
at_noon = record { year = 2025; month = 1; day = 2; hour = 12; minute = 0 }

abbrev fresh_start : Backups
unfolding startup
fresh_start = startup 100 100 (new_run (text "0") manual 50 ∷ []) none

abbrev in_progress : Backups
unfolding startup begin_run
in_progress = (begin_run (text "1") manual 200 fresh_start).0

abbrev ended : Backups
unfolding startup begin_run end_run
ended = (end_run host calls manual at_noon (text "1") 300 in_progress).0

-- The disk stays full: the next run cannot close its row.
abbrev full_disk : Calls
full_disk = record calls { finish_failed = err (text "disk full") }

abbrev after_both : Backups
unfolding startup begin_run end_run
after_both =
    (end_run host full_disk manual at_noon (text "2") 500
      (begin_run (text "2") manual 400 ended).0).0

idle-settled_example : All (IsClosed (text "2" ∷ [])) after_both.runs × (after_both.stages ≡ [])
unfolding startup begin_run end_run text_eq
idle-settled_example =
    idle-settled 100 100 (new_run (text "0") manual 50 ∷ []) none {s = after_both}
      {thrown = text "2" ∷ []} (omega arith, tt)
      (later (ends host full_disk manual at_noon (text "2") 500 refl) (
        later (begins (text "2") manual 400) (
          later (ends host calls manual at_noon (text "1") 300 refl)
            (later (begins (text "1") manual 200) initially))))
      refl

abbrev files : List File
files =
    record {
      entry = record { path = text "manifest.json"; type = text "File"; size = 2 };
      content = [];
    }
    ∷ record {
      entry = record { path = text "data.db"; type = text "File"; size = 1 };
      content = 7 ∷ [];
    }
    ∷ []

abbrev readers : Readers
readers = record {
  files = λ plain. some files;
  manifest = λ json. some (record { format = 1; created_at = []; reality_pub = [] });
  database = λ db. clients 3;
}

abbrev nothing_staged : Staging
nothing_staged = record { staged = none; timer = none; dirs = [] }

abbrev sealed : Bytes
unfolding encrypt_container
sealed = encrypt_container plain (zeros 16) (zeros 12) (1 ∷ 2 ∷ []) (text "secret")

stage_restore-checked_example :
    (p : Text) × (content : Bytes) × (fs : List File) × (some (text "secret") ≡ some p)
    × (decrypt_container plain sealed p ≡ Container.ok content)
    × (some files ≡ some fs)
    × (length fs ≤ max_entries)
    × All IsAllowed fs
unfolding stage_restore open_bundle read_bundle extract get text_eq encrypt_container
    decrypt_container
stage_restore-checked_example =
    stage_restore-checked plain readers (text "r") 0 sealed (some (text "secret")) 2 []
      nothing_staged refl
