-- ===== src/Tests/Polls.antt =====
-- Two polls of a peer, and the updates of one package.
use mathlib.Core.List.{Perm}
use vpn_relay.Prelude.{
  leb, ℕ, ◌+◌, ◌/◌, keep, Text, text, text_eq, ◌≡◌, refl, true, false, none, some, List, [], ◌∷◌,
  arith,
}
use vpn_relay.Prelude.Dict.{get}
use vpn_relay.Traffic.{PeerStats, Polled, Traffic}
use vpn_relay.Traffic.Metered.{poll_rounds, wg_down, wg_up, poll_rounds-exact}
use vpn_relay.Alert.{fired}
use vpn_relay.Updates.{PackageInfo, split_message, group_by_cves}
use vpn_relay.Updates.Split.{IsSplit, split_message-total}
use vpn_relay.Updates.Server.{Notices, Report, process_server, should_fire, compute_hash}
use vpn_relay.Updates.Server.Cached.{IsPostponed, process_server-postpones}
use vpn_relay.Updates.Groups.{members, group_by_cves-perm}
use vpn_relay.Client.Usage.{Snapshot}
use vpn_relay.Rollup.{Monthly, rollup_client_traffic, client_sample, is_old}
use vpn_relay.Rollup.Kept.{month_rx, month_tx, rows_of, rollup_client_traffic-kept}
use vpn_relay.Health.{Probe, run_all, at_start, failure_threshold}
use vpn_relay.Health.Outage.{alert_sent-misses}
use vpn_relay.Tests.Clients.{alice, key}

abbrev peer : ℕ → ℕ → PeerStats
peer rx tx = record {
  pubkey = key;
  endpoint = text "1.2.3.4:51820";
  latest_handshake = 0;
  rx_bytes = rx;
  tx_bytes = tx;
}

abbrev polled : ℕ → ℕ → Polled
polled rx tx = record { xray = []; hy2 = []; peers = (key, peer rx tx) ∷ [] }

abbrev before : Traffic
before = record {
  clients = alice ∷ [];
  snapshots = [];
  server_snapshots = [];
  last_wg = (key, record { rx = 10; tx = 100 }) ∷ [];
  last_a = none;
  last_b = none;
}

poll_rounds-exact_example :
    let after = poll_rounds alice ((0, polled 15 300) ∷ (600000, polled 15 450) ∷ []) before in
    (wg_down (text "1") after.snapshots + 100 ≡ 450) × (wg_up (text "1") after.snapshots + 10 ≡ 15)
unfolding get text_eq
poll_rounds-exact_example =
    poll_rounds-exact alice ((0, polled 15 300) ∷ (600000, polled 15 450) ∷ [])
      (record { rx = 10; tx = 100 }) before refl refl
      (
        peer 15 300,
        refl,
        refl,
        omega arith,
        omega arith,
        (peer 15 450, refl, refl, omega arith, omega arith, tt),
      )

split_message-total_example :
    (ps : List Text) × (split_message 5 (text "ab cd ef") ≡ some ps)
    × IsSplit 5 (text "ab cd ef") ps
split_message-total_example = split_message-total 5 (text "ab cd ef") (omega arith)

abbrev openssl : PackageInfo
openssl = record {
  name = text "openssl";
  old_version = text "3.0.2-14";
  new_version = text "3.0.2-15";
  is_security = true;
}

abbrev report : Report
report = record {
  packages = some (openssl ∷ []);
  counts = none;
  changelogs = λ names. [];
  summaries = λ changelogs. none;
}

-- The alert has fired at second 1000, with another list; its cooldown is the default of 720 minutes.
abbrev noted : Notices
noted = record {
  alerts = record {
    settings = [];
    states =
        (
          text "updates_pending:b",
          record { status = fired; fired_at = some 1000; cleared_at = none },
        )
        ∷ [];
    sustain_start = [];
    effects = [];
  };
  contexts = (text "updates_pending:b", record { hash = text "0"; message = text "m" }) ∷ [];
  sent = [];
}

process_server-postpones_example : IsPostponed 2000000 44199000 (text "updates_pending:b") noted (
    process_server
      (λ s. text "1")
      2000000
      (text "updates_pending:b")
      (text "Server B")
      report
      noted)
unfolding should_fire get text_eq compute_hash
process_server-postpones_example =
    process_server-postpones (λ s. text "1") 2000000 44199000 (text "updates_pending:b")
      (text "Server B") report openssl [] noted refl refl refl

abbrev vim : PackageInfo
vim = record openssl { name = text "vim" }

group_by_cves-perm_example :
    Perm
      (members (
        group_by_cves
          (openssl ∷ vim ∷ [])
          ((text "vim", record { cves = text "CVE-2024-1234" ∷ []; summary = [] }) ∷ [])
          none))
      (openssl ∷ vim ∷ [])
group_by_cves-perm_example =
    group_by_cves-perm (openssl ∷ vim ∷ [])
      ((text "vim", record { cves = text "CVE-2024-1234" ∷ []; summary = [] }) ∷ []) none

abbrev miss : Probe
miss = record { reachable = false; delivers = true }

alert_sent-misses_example :
    (run_all false (miss ∷ miss ∷ miss ∷ []) at_start).alert_sent ≡ leb failure_threshold 3
alert_sent-misses_example = alert_sent-misses (miss ∷ miss ∷ miss ∷ []) (refl, (refl, (refl, tt)))

-- Months of 30 days; the first two snapshots are old at the time 5000000.
abbrev used : ℕ → ℕ → Snapshot
used ts n = record {
  client_id = text "a";
  ts = ts;
  wg_rx = n;
  wg_tx = 1;
  xray_rx = 0;
  xray_tx = 2;
  hy2_rx = 5;
  hy2_tx = 0;
}

abbrev snapshots : List Snapshot
snapshots = used 10 7 ∷ used 20 8 ∷ used 4000000 9 ∷ []

abbrev months : List Monthly
months = record { owner = text "a"; month = 0; rx_total = 100; tx_total = 50 } ∷ []

rollup_client_traffic-kept_example :
    let after = rollup_client_traffic (λ t. t / 2592000) 5000000 snapshots months in
    let held = rows_of client_sample (λ t. t / 2592000) in
    (month_rx (text "a") 0 after.0 + month_rx (text "a") 0 (held after.1)
      ≡ month_rx (text "a") 0 months + month_rx (text "a") 0 (held snapshots))
    × (month_tx (text "a") 0 after.0 + month_tx (text "a") 0 (held after.1)
        ≡ month_tx (text "a") 0 months + month_tx (text "a") 0 (held snapshots))
    × (keep (λ s. is_old 5000000 s.ts) after.1 ≡ [])
rollup_client_traffic-kept_example =
    rollup_client_traffic-kept (λ t. t / 2592000) (text "a") 0 5000000 snapshots months
