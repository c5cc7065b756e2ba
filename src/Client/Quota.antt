-- ===== src/Client/Quota.antt =====
-- workers/quota.worker.ts and workers/ttl.worker.ts, without the messages to the administrator, which
-- never fail a run (`notify` catches). `month_of` is the month of a day number: `toISOString`, cut.
pub mod Enforced
pub mod Reopened
use vpn_relay.Prelude.{
  ℕ, ◌*◌, ◌/◌, ◌==◌, if◌then◌else◌, Bool, true, false, not, Option, none, some, List, [], ◌∷◌,
}
use vpn_relay.Prelude.Int.{ℤ, pos, pos_part, ◌+ℤ◌, scale}
use vpn_relay.Client.Table.{
  Client, Clients, daily_quota, monthly_quota, expired, set_client_active, get_clients_with_quotas,
  get_quota_suspended_clients,
}
use vpn_relay.Client.Usage.{Calendar, daily_usage, monthly_usage, reaches}
use vpn_relay.Client.World.{Wireguard, World, Env}
use vpn_relay.Client.Commands.{Command, done}
use vpn_relay.Client.Service.{on_table, suspend_client, resume_client}

-- `used >= quota`, where there is a quota
abbrev pub is_exceeded : ℕ → Option ℕ → Bool
is_exceeded used none = false
is_exceeded used (some quota) = reaches used quota

-- `currentDayKey`, as the number of the day; `offset` is the hours of TZ_OFFSET
unfoldable pub current_day_key : ℤ → ℕ → ℕ
unfolding ◌+ℤ◌ scale
current_day_key offset now = pos_part (pos now +ℤ scale offset 3600000) / 86400000

-- What the worker keeps between two runs, besides the world.
pub record Keys : Type 0 where
  pub last_day : ℕ
  pub last_month : ℕ

-- `for (const client of …) { try { … } catch { … } }`
abbrev pub for_clients : {S : Type 0} → (Client → Command S) → List Client → World S → World S
for_clients f [] w = w
for_clients f (c ∷ cs) w = for_clients f cs (f c w).0

module _ (wg : Wireguard) (env : Env) (cal : Calendar) where
  open wg use {State}

  -- One client of phase 1; `now` is in seconds.
  unfoldable pub daily_reset : ℕ → Client → Command State
  unfolding resume_client set_client_active monthly_usage
  daily_reset now c w =
      if is_exceeded (monthly_usage cal now c.id w.snapshots) c.monthly_quota_gb
      then on_table (set_client_active c.id false (some monthly_quota)) w
      else resume_client wg env c w

  -- One client of phase 3.
  unfoldable pub enforce : ℕ → Client → Command State
  unfolding suspend_client daily_usage monthly_usage
  enforce now c w =
      if is_exceeded (monthly_usage cal now c.id w.snapshots) c.monthly_quota_gb
      then suspend_client wg env c monthly_quota w
      else if is_exceeded (daily_usage cal now c.id w.snapshots) c.daily_quota_gb
      then suspend_client wg env c daily_quota w
      else (w, none)

  abbrev pub daily_phase : Bool → ℕ → World State → World State
  daily_phase false now w = w
  daily_phase true now w =
      for_clients (daily_reset now) (get_quota_suspended_clients daily_quota w.clients) w

  abbrev pub monthly_phase : Bool → World State → World State
  monthly_phase false w = w
  monthly_phase true w =
      for_clients (resume_client wg env) (get_quota_suspended_clients monthly_quota w.clients) w

  abbrev pub enforce_phase : ℕ → World State → World State
  enforce_phase now w = for_clients (enforce now) (get_clients_with_quotas w.clients) w

  -- `run`; `now` is in milliseconds
  unfoldable pub run_quota : ℤ → (ℕ → ℕ) → ℕ → Keys → World State → Keys × World State
  unfolding current_day_key daily_reset enforce resume_client get_quota_suspended_clients
      get_clients_with_quotas
  run_quota offset month_of now keys w =
      let day = current_day_key offset now in
      let month = month_of day in
      let sql_now = now / 1000 in
      (
        record { last_day = day; last_month = month },
        enforce_phase sql_now (
            monthly_phase (not (month == keys.last_month))
              (daily_phase (not (day == keys.last_day)) sql_now w)),
      )
