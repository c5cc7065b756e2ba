-- ===== src/Rollup.antt =====
-- workers/rollup.worker.ts, and rollupClientTraffic and rollupServerTraffic of db/queries.ts. The UTC month
-- of a time, `strftime('%Y-%m', ts)`, is the parameter `month_of`; times are in seconds.
pub mod Kept
use vpn_relay.Prelude.{
  ℕ, suc, ◌+◌, ◌-◌, ◌*◌, ◌/◌, Text, text, text_eq, ltb, ◌==◌, if◌then◌else◌, Bool, true, false, not,
  ◌&&◌, List, [], ◌∷◌, ◌++◌, keep, length,
}
use vpn_relay.Client.Usage.{Snapshot}
use vpn_relay.Traffic.{Server, server_a, server_b, ServerSnapshot}

-- A row of client_traffic_monthly or of server_traffic_monthly; its owner is a client or a server.
pub record Monthly : Type 0 where
  pub owner : Text
  pub month : ℕ
  pub rx_total : ℕ
  pub tx_total : ℕ

-- What the rollup reads of a snapshot.
pub record Sample : Type 0 where
  pub owner : Text
  pub ts : ℕ
  pub rx : ℕ
  pub tx : ℕ

abbrev pub same_key : Monthly → Monthly → Bool
same_key r s = text_eq r.owner s.owner && r.month == s.month

abbrev pub add_totals : Monthly → Monthly → Monthly
add_totals r s = record s { rx_total = s.rx_total + r.rx_total; tx_total = s.tx_total + r.tx_total }

-- INSERT … ON CONFLICT DO UPDATE SET rx_total = rx_total + excluded.rx_total, …
unfoldable pub upsert_monthly : Monthly → List Monthly → List Monthly
unfolding text_eq
upsert_monthly r [] = r ∷ []
upsert_monthly r (s ∷ ss) =
    let rest = upsert_monthly r ss in if same_key r s then add_totals r s ∷ ss else s ∷ rest

unfoldable pub upsert_all : List Monthly → List Monthly → List Monthly
unfolding upsert_monthly
upsert_all [] table = table
upsert_all (r ∷ rs) table = upsert_all rs (upsert_monthly r table)

-- `ts < datetime('now', '-30 days')`
abbrev pub is_old : ℕ → ℕ → Bool
is_old now ts = ltb (ts + 2592000) now

module _ {ℓ} {A : Type ℓ} (sample : A → Sample) (month_of : ℕ → ℕ) where
  abbrev pub row_of : A → Monthly
  row_of a = record {
    owner = (sample a).owner;
    month = month_of (sample a).ts;
    rx_total = (sample a).rx;
    tx_total = (sample a).tx;
  }

  -- SELECT … SUM(…) … GROUP BY owner, month
  unfoldable pub group_months : List A → List Monthly
  unfolding upsert_monthly
  group_months [] = []
  group_months (a ∷ rows) = upsert_monthly (row_of a) (group_months rows)

  -- The transaction: the table, the snapshots that stay, and how many are rolled up.
  unfoldable pub roll_up : ℕ → List A → List Monthly → List Monthly × List A × ℕ
  unfolding group_months upsert_all
  roll_up now rows table =
      let old = keep (λ a. is_old now (sample a).ts) rows in
      (
        upsert_all (group_months old) table,
        keep (λ a. not (is_old now (sample a).ts)) rows,
        length old,
      )

abbrev pub client_sample : Snapshot → Sample
client_sample s = record {
  owner = s.client_id;
  ts = s.ts;
  rx = s.wg_rx + s.xray_rx + s.hy2_rx;
  tx = s.wg_tx + s.xray_tx + s.hy2_tx;
}

-- `rollupClientTraffic`
unfoldable pub rollup_client_traffic :
    (ℕ → ℕ) → ℕ → List Snapshot → List Monthly → List Monthly × List Snapshot × ℕ
unfolding roll_up
rollup_client_traffic month_of now rows table = roll_up client_sample month_of now rows table

abbrev server_id : Server → Text
server_id server_a = text "a"
server_id server_b = text "b"

abbrev pub server_sample : ServerSnapshot → Sample
server_sample s = record {
  owner = server_id s.server_id;
  ts = s.ts;
  rx = s.rx_bytes;
  tx = s.tx_bytes;
}

-- `rollupServerTraffic`
unfoldable pub rollup_server_traffic :
    (ℕ → ℕ) → ℕ → List ServerSnapshot → List Monthly → List Monthly × List ServerSnapshot × ℕ
unfolding roll_up
rollup_server_traffic month_of now rows table = roll_up server_sample month_of now rows table

-- `run` of the worker on both tables: (monthly rows, snapshots) of the clients and of the servers
unfoldable pub run_rollup :
    (ℕ → ℕ)
    → ℕ
    → List Monthly × List Snapshot
    → List Monthly × List ServerSnapshot
    → (List Monthly × List Snapshot) × (List Monthly × List ServerSnapshot)
unfolding rollup_client_traffic rollup_server_traffic
run_rollup month_of now clients servers =
    let c = rollup_client_traffic month_of now clients.1 clients.0 in
    let s = rollup_server_traffic month_of now servers.1 servers.0 in ((c.0, c.1), (s.0, s.1))
