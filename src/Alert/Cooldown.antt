-- ===== src/Alert/Cooldown.antt =====
-- shouldFire, fireAlert and clearAlert of workers/alert.worker.ts: the cooldown and the recovery.
use vpn_relay.Prelude.{
  ℕ, ◌+◌, ◌*◌, ◌/◌, ◌<◌, Text, text_eq_refl, leb, Bool, true, false, ◌≡◌, arith, Bool-cases, inl,
  inr,
}
use vpn_relay.Prelude.Dict.{get, get-put}
use vpn_relay.Alert.{
  Alerts, base_key, get_cooldown, should_fire, fire_alert, clear_alert, fire_or_clear, has_fired,
  upsert_clear,
}

-- An alert that has fired may fire again exactly when its cooldown, counted from the second in which
-- it fired, is over.
pub should_fire-fire_alert :
    (now later : ℕ) (key : Text) (w : Alerts)
    → should_fire later key (fire_alert now key w)
      ≡ leb (now / 1000 * 1000 + get_cooldown (base_key key) 30 w * 60000) later
unfolding should_fire fire_alert get_cooldown
should_fire-fire_alert now later key w = rw (get-put, text_eq_refl key)

-- While its cooldown lasts, an alert that has fired sends nothing, and nothing changes, as long as the
-- check does not call for its end.
pub fire_or_clear-cooling :
    (now later : ℕ) (key : Text) (firing : Bool) (w : Alerts)
    → later < now / 1000 * 1000 + get_cooldown (base_key key) 30 w * 60000
    → fire_or_clear later key firing false (fire_alert now key w) ≡ fire_alert now key w
unfolding fire_or_clear
fire_or_clear-cooling now later key firing w h =
    rw (should_fire-fire_alert now later key w) (ground arith)

has_fired-clear_alert :
    (now : ℕ) (key : Text) (w : Alerts) → has_fired (get (clear_alert now key w).states key) ≡ false
unfolding clear_alert upsert_clear
has_fired-clear_alert now key w = rw (get-put, text_eq_refl key)

-- The end of an alert is announced at most once: a second call at any time, with the condition still
-- false, changes nothing.
pub fire_or_clear-recovered :
    (now later : ℕ) (key : Text) (w : Alerts)
    → fire_or_clear later key false true (fire_or_clear now key false true w)
      ≡ fire_or_clear now key false true w
unfolding fire_or_clear
fire_or_clear-recovered now later key w = elim (Bool-cases (has_fired (get w.states key))) [
  | inl e ↦ rw e (rw (has_fired-clear_alert now key w))
  | inr n ↦ rw n (rw n)
]
