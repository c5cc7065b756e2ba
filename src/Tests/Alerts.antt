-- ===== src/Tests/Alerts.antt =====
-- Alerts with one rule, and the metrics cache with a counter for the readings.
use vpn_relay.Prelude.{
  ℕ, ◌+◌, ◌*◌, ◌/◌, ◌≤◌, Text, text, ◌≡◌, refl, true, false, none, some, List, [], ◌∷◌, leb,
}
use vpn_relay.Alert.{
  Alerts, get_cooldown, base_key, should_fire, fire_alert, fire_or_clear, eval_sustained,
}
use vpn_relay.Alert.Cooldown.{should_fire-fire_alert, fire_or_clear-recovered}
use vpn_relay.Alert.Sustained.{eval_sustained-lasted, observe_true}
use vpn_relay.Metrics.{Slot, at_once, Event, read, resolved, get_status_b, invalidate, steps}
use vpn_relay.Metrics.Freshness.{read-after-invalidate}

abbrev no_alerts : Alerts
no_alerts = record { settings = []; states = []; sustain_start = []; effects = [] }

abbrev key : Text
key = text "disk_full:b"

should_fire-fire_alert_example :
    should_fire 90000 key (fire_alert 60500 key no_alerts)
    ≡ leb (60500 / 1000 * 1000 + get_cooldown (base_key key) 30 no_alerts * 60000) 90000
should_fire-fire_alert_example = should_fire-fire_alert 60500 90000 key no_alerts

fire_or_clear-recovered_example :
    fire_or_clear 95000 key false true
      (fire_or_clear 90000 key false true (fire_alert 60500 key no_alerts))
    ≡ fire_or_clear 90000 key false true (fire_alert 60500 key no_alerts)
fire_or_clear-recovered_example =
    fire_or_clear-recovered 90000 95000 key (fire_alert 60500 key no_alerts)

eval_sustained-lasted_example :
    (eval_sustained 400 key true 300 (
      observe_true key 300
        (200 ∷ 300 ∷ [])
        (eval_sustained 100 key true 300 (eval_sustained 50 key false 300 []).0).0)).1
    ≡ leb (100 + 300) 400
eval_sustained-lasted_example = eval_sustained-lasted key 300 50 100 400 (200 ∷ 300 ∷ []) []

abbrev measure : ℕ → ℕ
measure k = k

-- Fetch 0 was in flight when the slot was invalidated; fetch 1 is started afterwards.
abbrev slot : Slot ℕ
slot = record { cache = none; fetching = some 0; issued = 1 }

abbrev events : List Event
events = read 100 ∷ resolved 0 200 ∷ resolved 1 300 ∷ []

answered : (get_status_b 400 (steps measure events (invalidate slot))).1 ≡ at_once 1
unfolding get_status_b steps invalidate
answered = refl

read-after-invalidate_example : (k : ℕ) × (1 ≤ k) × (1 ≡ measure k)
read-after-invalidate_example = read-after-invalidate measure slot events 400 1 answered
