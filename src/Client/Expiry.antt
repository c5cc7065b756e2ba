-- ===== src/Client/Expiry.antt =====
-- workers/ttl.worker.ts and `getExpiredClients` of db/queries.ts, which compares texts: the column
-- holds what `toISOString` gives, or the text of a request, and SQLite's `datetime('now')` has a space
-- where `toISOString` has a T.
pub mod Late
pub mod Entered
use vpn_relay.Prelude.{
  ℕ, ◌+◌, ◌*◌, ◌/◌, ◌%◌, ◌<◌, ◌≤◌, Text, text, ltb, ◌==◌, if◌then◌else◌, Bool, true, false, ◌&&◌,
  Option, none, some, List, [], ◌∷◌, ◌++◌, ◌≡◌, keep, text_leb,
}
use vpn_relay.Client.Table.{Client, Clients, Expiry, iso, entered, expired}
use vpn_relay.Client.World.{Wireguard, World, Env}
use vpn_relay.Client.Service.{suspend_client}
use vpn_relay.Client.Quota.{for_clients}

-- The first day of the year 10000, whose text no longer sorts.
abbrev pub last_day : ℕ
last_day = 2932897

-- The texts of a day, 2025-01-01, and of a time of day in milliseconds and in seconds. Up to the year
-- 9999 days sort as their texts do, whatever follows, and begin with a digit.
pub record DateTexts : Type 0 where
  pub date : ℕ → Text
  pub time_ms : ℕ → Text
  pub time_s : ℕ → Text
  pub date-later :
      (day later : ℕ) (s t : Text)
      → day < later
      → later < last_day
      → (text_leb (date day ++ s) (date later ++ t) ≡ true)
        × (text_leb (date later ++ t) (date day ++ s) ≡ false)
  pub date-digit : (day : ℕ) → day < last_day → (c : ℕ) × (s : Text) × (c ≤ 57) × (date day ≡ c ∷ s)

abbrev pub day_ms : ℕ
day_ms = 86400000

module _ (texts : DateTexts) where
  open texts use {date, time_ms, time_s}

  -- `new Date(at).toISOString()`
  abbrev pub iso_string : ℕ → Text
  iso_string at = date (at / day_ms) ++ (text "T" ++ time_ms (at % day_ms))

  -- `datetime('now')`
  abbrev pub sql_now : ℕ → Text
  sql_now now = date (now / day_ms) ++ (text " " ++ time_s (now % day_ms))

  -- What the column holds.
  abbrev pub column_text : Expiry → Text
  column_text (iso at) = iso_string at
  column_text (entered s at) = s

  abbrev pub has_passed : ℕ → Option Expiry → Bool
  has_passed now none = false
  has_passed now (some e) = text_leb (column_text e) (sql_now now)

  abbrev pub is_expired : ℕ → Client → Bool
  is_expired now c = has_passed now c.expires_at && c.is_active

  -- `getExpiredClients`
  unfoldable pub get_expired_clients : ℕ → Clients → Clients
  unfolding text_leb
  get_expired_clients now = keep (is_expired now)

  module _ (wg : Wireguard) (env : Env) where
    open wg use {State}

    -- `run` of ttlWorker
    unfoldable pub run_ttl : ℕ → World State → World State
    unfolding get_expired_clients suspend_client
    run_ttl now w =
        for_clients (λ c. suspend_client wg env c expired) (get_expired_clients now w.clients) w
