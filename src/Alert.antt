-- ===== src/Alert.antt =====
-- workers/alert.worker.ts: the helpers that decide when an alert fires and clears, over the tables
-- alert_settings and alert_state (db/queries.ts). `now` is `Date.now()`; a DATETIME is a number of
-- seconds. A REAL setting is a number of thousandths.
pub mod Checks
pub mod Cooldown
pub mod Sustained
use vpn_relay.Prelude.{
  ℕ, ◌+◌, ◌*◌, ◌/◌, Text, text, text_eq, leb, ◌==◌, if◌then◌else◌, Bool, true, false, ◌&&◌, Option,
  none, some, List, [], ◌∷◌, ◌++◌,
}
use vpn_relay.Prelude.Dict.{Dict, get, put, remove}

pub record AlertSetting : Type 0 where
  pub enabled : Bool
  pub threshold : Option ℕ
  pub threshold2 : Option ℕ
  pub cooldown_min : Option ℕ

pub data AlertStatus : Type 0 where
  fired clear : AlertStatus

pub record AlertState : Type 0 where
  pub status : AlertStatus
  pub fired_at : Option ℕ
  pub cleared_at : Option ℕ

-- What the worker does besides its tables: the messages of `fireAlert` and `clearAlert`, and the call
-- of `suspendClient` in `checkAbnormalTraffic`.
pub data Effect : Type 0 where
  fire_message clear_message : Text → Effect
  suspend_abnormal : Text → Effect

pub record Alerts : Type 0 where
  pub settings : Dict AlertSetting
  pub states : Dict AlertState
  -- `sustainStart`
  pub sustain_start : Dict ℕ
  pub effects : List Effect

abbrev setting_enabled : Option AlertSetting → Bool
setting_enabled none = true
setting_enabled (some s) = s.enabled

-- `isEnabled`
unfoldable pub is_enabled : Text → Alerts → Bool
is_enabled alert_key w = setting_enabled (get w.settings alert_key)

abbrev pub or_default : ℕ → Option ℕ → ℕ
or_default def none = def
or_default def (some v) = v

abbrev setting_number : (AlertSetting → Option ℕ) → Option AlertSetting → Option ℕ
setting_number field none = none
setting_number field (some s) = field s

-- `getThreshold` of the fields `threshold` and `threshold2`, and `getCooldown`
unfoldable pub get_threshold : Text → ℕ → Alerts → ℕ
get_threshold alert_key def w =
    or_default def (setting_number (λ s. s.threshold) (get w.settings alert_key))

unfoldable pub get_threshold2 : Text → ℕ → Alerts → ℕ
get_threshold2 alert_key def w =
    or_default def (setting_number (λ s. s.threshold2) (get w.settings alert_key))

unfoldable pub get_cooldown : Text → ℕ → Alerts → ℕ
get_cooldown alert_key def w =
    or_default def (setting_number (λ s. s.cooldown_min) (get w.settings alert_key))

-- `stateKey.split(":")[0]`
unfoldable pub base_key : Text → Text
base_key [] = []
base_key (c ∷ s) = let rest = base_key s in if c == b':' then [] else c ∷ rest

-- Date.now() - firedAt >= cooldownMin * 60_000
abbrev cooled_down : ℕ → ℕ → Option ℕ → Bool
cooled_down now cooldown_min none = true
cooled_down now cooldown_min (some fired_at) = leb (fired_at * 1000 + cooldown_min * 60000) now

abbrev pub may_fire : ℕ → ℕ → Option AlertState → Bool
may_fire now cooldown_min none = true
may_fire now cooldown_min (some state) = elim state.status [
  | clear ↦ true
  | fired ↦ cooled_down now cooldown_min state.fired_at
]

-- `shouldFire`
unfoldable pub should_fire : ℕ → Text → Alerts → Bool
unfolding get_cooldown
should_fire now state_key w =
    may_fire now (get_cooldown (base_key state_key) 30 w) (get w.states state_key)

abbrev old_fired_at : Option AlertState → Option ℕ
old_fired_at none = none
old_fired_at (some state) = state.fired_at

abbrev old_cleared_at : Option AlertState → Option ℕ
old_cleared_at none = none
old_cleared_at (some state) = state.cleared_at

-- `upsertAlertState`, the two statements
unfoldable pub upsert_fired : ℕ → Text → Dict AlertState → Dict AlertState
upsert_fired now key states = put states key (record {
  status = fired;
  fired_at = some (now / 1000);
  cleared_at = old_cleared_at (get states key);
})

unfoldable pub upsert_clear : ℕ → Text → Dict AlertState → Dict AlertState
upsert_clear now key states = put states key (record {
  status = clear;
  fired_at = old_fired_at (get states key);
  cleared_at = some (now / 1000);
})

-- `fireAlert` and `clearAlert`; a message that cannot be sent is logged, and changes nothing
unfoldable pub fire_alert : ℕ → Text → Alerts → Alerts
unfolding upsert_fired
fire_alert now key w = record w {
  states = upsert_fired now key w.states;
  effects = w.effects ++ fire_message key ∷ [];
}

unfoldable pub clear_alert : ℕ → Text → Alerts → Alerts
unfolding upsert_clear
clear_alert now key w = record w {
  states = upsert_clear now key w.states;
  effects = w.effects ++ clear_message key ∷ [];
}

abbrev pub has_fired : Option AlertState → Bool
has_fired none = false
has_fired (some state) = elim state.status [ fired ↦ true | clear ↦ false ]

abbrev started : ℕ → Option ℕ → ℕ
started now none = now
started now (some t) = t

-- `evalSustained`: the new map, and whether the condition has lasted
unfoldable pub eval_sustained : ℕ → Text → Bool → ℕ → Dict ℕ → Dict ℕ × Bool
eval_sustained now key true duration_ms starts =
    let start = started now (get starts key) in
    (put starts key start, leb (start + duration_ms) now)
eval_sustained now key false duration_ms starts = (remove starts key, false)

-- The `if … else if` at the end of a check: fire if `firing` and the cooldown is over, or else clear if
-- `clearing` and the alert is fired.
unfoldable pub fire_or_clear : ℕ → Text → Bool → Bool → Alerts → Alerts
unfolding should_fire fire_alert clear_alert
fire_or_clear now key firing clearing w =
    if firing && should_fire now key w
    then fire_alert now key w
    else if clearing && has_fired (get w.states key)
    then clear_alert now key w
    else w
