-- ===== src/Health.antt =====
-- workers/health.worker.ts: the outage alarm of Server A.
pub mod Outage
use vpn_relay.Prelude.{
  ℕ, suc, ◌+◌, leb, if◌then◌else◌, Bool, true, false, not, ◌&&◌, List, [], ◌∷◌, ◌++◌,
}

abbrev pub failure_threshold : ℕ
failure_threshold = 3

pub data Notice : Type 0 where
  back_online : Notice
  unreachable : ℕ → Notice

pub record Health : Type 0 where
  pub consecutive_failures : ℕ
  pub alert_sent : Bool
  pub was_reachable : Bool
  pub notices : List Notice

abbrev pub at_start : Health
at_start = record {
  consecutive_failures = 0;
  alert_sent = false;
  was_reachable = false;
  notices = [];
}

-- What one run meets: whether the ping comes back, and whether Telegram takes a message.
pub record Probe : Type 0 where
  pub reachable : Bool
  pub delivers : Bool

abbrev recovered : Health → Health
recovered h = record h { consecutive_failures = 0; alert_sent = false; was_reachable = true }

abbrev pub reached : Bool → Health → Health
reached delivers h =
    if h.alert_sent && leb failure_threshold h.consecutive_failures
    then (if delivers
        then recovered (record h { notices = h.notices ++ back_online ∷ [] })
        else record h { was_reachable = true })
    else recovered h

abbrev pub missed : Bool → Health → Health
missed delivers h =
    let n = h.consecutive_failures + 1 in
    if leb failure_threshold n && not h.alert_sent
    then record h {
      consecutive_failures = n;
      was_reachable = false;
      alert_sent = true;
      notices = if delivers then h.notices ++ unreachable n ∷ [] else h.notices;
    }
    else record h { consecutive_failures = n; was_reachable = false }

-- `run`, without the measurement of the ping. A message that cannot be sent throws out of the block:
-- the counters of a recovery stay.
unfoldable pub run_health : Bool → Probe → Health → Health
run_health standalone p h =
    if standalone then h else if p.reachable then reached p.delivers h else missed p.delivers h

unfoldable pub run_all : Bool → List Probe → Health → Health
unfolding run_health
run_all standalone [] h = h
run_all standalone (p ∷ ps) h = run_all standalone ps (run_health standalone p h)
