-- ===== src/Backup/Schedule.antt =====
-- services/backup.schedule.ts. An instant is a number of milliseconds since the epoch: `now` a natural
-- number, a slot an integer, since it may lie before the epoch.
pub mod Grid
use vpn_relay.Prelude.{
  ℕ, ◌+◌, ◌*◌, ◌/◌, ltb, leb, min, max, if◌then◌else◌, Bool, true, Option, none, some, Text, text,
  ◌==◌,
}
use vpn_relay.Prelude.Int.{ℤ, pos, ◌+ℤ◌, ◌-ℤ◌, scale, rem, sub_ℕ, pos_part, neg_part}

abbrev pub day_ms : ℕ
day_ms = 86400000

abbrev pub hour_ms : ℕ
hour_ms = 3600000

abbrev pub anchor_day : ℕ
anchor_day = 4

abbrev pub min_interval_days : ℕ
min_interval_days = 1

abbrev pub max_interval_days : ℕ
max_interval_days = 30

unfoldable pub slot_at : ℤ → ℕ → ℤ
slot_at day hour_utc = scale day day_ms +ℤ pos (hour_utc * hour_ms)

-- Today, or yesterday while today's slot has not arrived.
unfoldable pub slot_day : ℕ → ℕ → ℤ
slot_day now hour_utc =
    let today = now / day_ms in
    if ltb now (today * day_ms + hour_utc * hour_ms) then sub_ℕ today 1 else pos today

-- `(((day - ANCHOR_DAY) % intervalDays) + intervalDays) % intervalDays`
unfoldable pub grid_offset : ℤ → ℕ → ℤ
grid_offset day interval_days =
    rem (rem (day -ℤ pos anchor_day) interval_days +ℤ pos interval_days) interval_days

unfoldable pub due_day : ℕ → ℕ → ℕ → ℤ
unfolding slot_day grid_offset
due_day now hour_utc interval_days =
    let day = slot_day now hour_utc in day -ℤ grid_offset day interval_days

unfoldable pub last_due_slot : ℕ → ℕ → ℕ → ℤ
unfolding due_day slot_at
last_due_slot now hour_utc interval_days = slot_at (due_day now hour_utc interval_days) hour_utc

unfoldable pub next_slot : ℕ → ℕ → ℕ → ℤ
unfolding last_due_slot
next_slot now hour_utc interval_days =
    last_due_slot now hour_utc interval_days +ℤ pos (interval_days * day_ms)

abbrev pub before : ℕ → ℤ → Bool
before t slot = ltb (t + neg_part slot) (pos_part slot)

-- `isCatchUpDue`; `none` is a finished_at that is missing or cannot be parsed
unfoldable pub is_catch_up_due : Option ℕ → ℕ → ℕ → ℕ → Bool
unfolding last_due_slot
is_catch_up_due none now hour_utc interval_days = true
is_catch_up_due (some finished_at) now hour_utc interval_days =
    before finished_at (last_due_slot now hour_utc interval_days)

-- `staleAfterHours`, both sides in thousandths of an hour
unfoldable pub stale_after_hours : ℕ → ℕ → ℕ
stale_after_hours interval_days grace_hours = interval_days * 24 * 1000 + grace_hours

-- `Math.min(MAX, Math.max(MIN, Math.round(days)))` of a finite number, which is given rounded
-- (a rounded number below 0 clamps like 0); `none` is a number that is not finite.
unfoldable pub clamp_interval_days : ℕ → Option ℕ → ℕ
clamp_interval_days env_days none = env_days
clamp_interval_days env_days (some days) = min max_interval_days (max min_interval_days days)

unfoldable pub clamp_hour_utc : ℕ → Option ℕ → ℕ
clamp_hour_utc env_hour none = env_hour
clamp_hour_utc env_hour (some hour) = min 23 (max 0 hour)

-- The rows of app_settings that drive the schedule, as `getAppSettingInt` reads them: `none` falls
-- back to the environment.
pub record Settings : Type 0 where
  pub backup_enabled : Option ℕ
  pub backup_interval_days : Option ℕ
  pub backup_hour_utc : Option ℕ

pub record Env : Type 0 where
  pub backup_enabled : Bool
  pub backup_interval_days : ℕ
  pub backup_hour_utc : ℕ

pub record BackupConfig : Type 0 where
  pub enabled : Bool
  pub interval_days : ℕ
  pub hour_utc : ℕ
  pub next_run : ℤ

abbrev pub or_env : ℕ → Option ℕ → ℕ
or_env def none = def
or_env def (some v) = v

abbrev one_if : Bool → ℕ
one_if b = if b then 1 else 0

unfoldable pub get_backup_config : Env → Settings → ℕ → BackupConfig
unfolding clamp_interval_days clamp_hour_utc next_slot
get_backup_config env s now =
    let interval_days =
      clamp_interval_days env.backup_interval_days
        (some (or_env env.backup_interval_days s.backup_interval_days)) in
    let hour_utc =
      clamp_hour_utc env.backup_hour_utc (some (or_env env.backup_hour_utc s.backup_hour_utc)) in
    record {
      enabled = or_env (one_if env.backup_enabled) s.backup_enabled == 1;
      interval_days = interval_days;
      hour_utc = hour_utc;
      next_run = next_slot now hour_utc interval_days;
    }

-- The argument of `setBackupConfig`: `none` is `undefined`, `some none` a number that is not finite.
pub record ConfigPatch : Type 0 where
  pub enabled : Option Bool
  pub interval_days : Option (Option ℕ)
  pub hour_utc : Option (Option ℕ)

abbrev set_enabled : Option Bool → Option ℕ → Option ℕ
set_enabled none old = old
set_enabled (some b) old = some (one_if b)

abbrev set_clamped : (Option ℕ → ℕ) → Option (Option ℕ) → Option ℕ → Option ℕ
set_clamped clamp none old = old
set_clamped clamp (some v) old = some (clamp v)

unfoldable pub set_backup_config : Env → ConfigPatch → Settings → Settings
unfolding clamp_interval_days clamp_hour_utc
set_backup_config env patch s = record {
  backup_enabled = set_enabled patch.enabled s.backup_enabled;
  backup_interval_days =
      set_clamped (clamp_interval_days env.backup_interval_days) patch.interval_days
        s.backup_interval_days;
  backup_hour_utc =
      set_clamped (clamp_hour_utc env.backup_hour_utc) patch.hour_utc s.backup_hour_utc;
}
