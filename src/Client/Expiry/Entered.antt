-- ===== src/Client/Expiry/Entered.antt =====
-- The text of an expiry that came with a request, in workers/ttl.worker.ts and db/queries.ts.
use vpn_relay.Prelude.{
  ℕ, ◌/◌, ◌%◌, ◌<◌, Text, text, text_eq, text_leb, false, some, [], ◌∷◌, ◌++◌, ◌≡◌, ap, ◌∙◌, arith,
  All, inl, inr, Bool-cases,
}
use vpn_relay.Client.Table.{Clients, entered, update_client, update_client_expiry}
use vpn_relay.Client.Expiry.{DateTexts, last_day, sql_now, is_expired, get_expired_clients, day_ms}

module _ (texts : DateTexts) where
  open texts use {date, time_s, date-digit}

  -- A text that begins behind the digits is later than any time.
  behind_digits :
      (now first : ℕ) (s : Text)
      → 57 < first
      → now / day_ms < last_day
      → text_leb (first ∷ s) (sql_now texts now) ≡ false
  unfolding text_leb
  behind_digits now first s letter bound =
      let (c, d, digit, starts) = date-digit (now / day_ms) bound in
      let behind : Text = text " " ++ time_s (now % day_ms) in
      ap (λ t. text_leb (first ∷ s) (t ++ behind)) starts ∙ ground arith

  -- When the update of an expiry has stored a text that begins behind the digits, such as Jan 1 2030,
  -- the TTL worker's query never selects a row of this client, at no time before the year 10000.
  pub get_expired_clients-update_client_expiry :
      (now first at : ℕ) (s id : Text) (cs : Clients)
      → 57 < first
      → now / day_ms < last_day
      → All
          (λ c. text_eq c.id id ≡ false)
          (get_expired_clients texts now
            (update_client_expiry id (some (entered (first ∷ s) at)) cs))
  unfolding get_expired_clients update_client_expiry update_client
  get_expired_clients-update_client_expiry now first at s id [] letter bound = tt
  get_expired_clients-update_client_expiry now first at s id (c ∷ cs) letter bound =
      let rest = get_expired_clients-update_client_expiry now first at s id cs letter bound in
      elim (Bool-cases (text_eq c.id id)) [
        | inl e ↦ rw e (rw (behind_digits now first s letter bound) rest)
        | inr n ↦ rw n (elim (Bool-cases (is_expired texts now c)) [
          | inl x ↦ rw x (n, rest)
          | inr x ↦ rw x rest
        ])
      ]
