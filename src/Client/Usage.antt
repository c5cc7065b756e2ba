-- ===== src/Client/Usage.antt =====
-- The usage queries of db/queries.ts over traffic_snapshots. SQLite's `date(ts, tz)` and
-- `strftime('%Y-%m', ts, tz)` are the parameter `Calendar`: the number of a local day and of a local month.
use vpn_relay.Prelude.{
  ℕ, ◌+◌, ◌*◌, Text, text_eq, ◌==◌, leb, if◌then◌else◌, Bool, ◌&&◌, List, [], ◌∷◌,
}

pub record Calendar : Type 0 where
  pub local_day : ℕ → ℕ
  pub local_month : ℕ → ℕ

pub record Snapshot : Type 0 where
  pub client_id : Text
  pub ts : ℕ
  pub wg_rx : ℕ
  pub wg_tx : ℕ
  pub xray_rx : ℕ
  pub xray_tx : ℕ
  pub hy2_rx : ℕ
  pub hy2_tx : ℕ

abbrev pub bytes : Snapshot → ℕ
bytes s = s.wg_rx + s.wg_tx + s.xray_rx + s.xray_tx + s.hy2_rx + s.hy2_tx

-- COALESCE(SUM(…), 0) over the rows of a client that pass a test
unfoldable pub sum_where : (Snapshot → Bool) → Text → List Snapshot → ℕ
sum_where test id [] = 0
sum_where test id (s ∷ ss) =
    (if text_eq s.client_id id && test s then bytes s else 0) + sum_where test id ss

-- `getClientDailyUsageBytes`
unfoldable pub daily_usage : Calendar → ℕ → Text → List Snapshot → ℕ
unfolding sum_where
daily_usage cal now = sum_where (λ s. cal.local_day s.ts == cal.local_day now)

-- `getClientMonthlyUsageBytes`
unfoldable pub monthly_usage : Calendar → ℕ → Text → List Snapshot → ℕ
unfolding sum_where
monthly_usage cal now = sum_where (λ s. cal.local_month s.ts == cal.local_month now)

abbrev pub gb : ℕ
gb = 1073741824

-- `used >= quota_gb * GB`
abbrev pub reaches : ℕ → ℕ → Bool
reaches used quota = leb (quota * gb) (used * 1000)

-- ON DELETE CASCADE of traffic_snapshots.client_id
unfoldable pub delete_snapshots : Text → List Snapshot → List Snapshot
delete_snapshots id [] = []
delete_snapshots id (s ∷ ss) =
    let rest = delete_snapshots id ss in if text_eq s.client_id id then rest else s ∷ rest
