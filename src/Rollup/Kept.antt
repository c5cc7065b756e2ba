-- ===== src/Rollup/Kept.antt =====
-- The rollup of db/queries.ts loses no traffic.
use vpn_relay.Prelude.{
  ℕ, ◌+◌, Text, text_eq, text_eq_iff, ◌==◌, if◌then◌else◌, Bool, not, ◌&&◌, List, [], ◌∷◌, keep,
  ◌≡◌, refl, arith,
}
use vpn_relay.Client.Usage.{Snapshot}
use vpn_relay.Rollup.{
  Monthly, Sample, upsert_monthly, upsert_all, is_old, row_of, group_months, roll_up, client_sample,
  rollup_client_traffic,
}

-- The download of an owner in a month, in the monthly rows.
abbrev pub month_rx : Text → ℕ → List Monthly → ℕ
month_rx owner month [] = 0
month_rx owner month (r ∷ rs) =
    (if text_eq r.owner owner && r.month == month then r.rx_total else 0) + month_rx owner month rs

abbrev pub month_tx : Text → ℕ → List Monthly → ℕ
month_tx owner month [] = 0
month_tx owner month (r ∷ rs) =
    (if text_eq r.owner owner && r.month == month then r.tx_total else 0) + month_tx owner month rs

upsert_monthly-rx :
    (owner : Text) (month : ℕ) (r : Monthly) (rs : List Monthly)
    → month_rx owner month (upsert_monthly r rs) ≡ month_rx owner month (r ∷ rs)
unfolding upsert_monthly
upsert_monthly-rx owner month r [] = refl
upsert_monthly-rx owner month r (s ∷ rs) =
    ground (arith, upsert_monthly-rx owner month r rs, text_eq_iff r.owner s.owner)

upsert_monthly-tx :
    (owner : Text) (month : ℕ) (r : Monthly) (rs : List Monthly)
    → month_tx owner month (upsert_monthly r rs) ≡ month_tx owner month (r ∷ rs)
unfolding upsert_monthly
upsert_monthly-tx owner month r [] = refl
upsert_monthly-tx owner month r (s ∷ rs) =
    ground (arith, upsert_monthly-tx owner month r rs, text_eq_iff r.owner s.owner)

upsert_all-rx :
    (owner : Text) (month : ℕ) (rs table : List Monthly)
    → month_rx owner month (upsert_all rs table)
      ≡ month_rx owner month rs + month_rx owner month table
unfolding upsert_all
upsert_all-rx owner month [] table = omega arith
upsert_all-rx owner month (r ∷ rs) table = omega (
  arith,
  upsert_all-rx owner month rs (upsert_monthly r table),
  upsert_monthly-rx owner month r table,
)

upsert_all-tx :
    (owner : Text) (month : ℕ) (rs table : List Monthly)
    → month_tx owner month (upsert_all rs table)
      ≡ month_tx owner month rs + month_tx owner month table
unfolding upsert_all
upsert_all-tx owner month [] table = omega arith
upsert_all-tx owner month (r ∷ rs) table = omega (
  arith,
  upsert_all-tx owner month rs (upsert_monthly r table),
  upsert_monthly-tx owner month r table,
)

module _ {ℓ} {A : Type ℓ} (sample : A → Sample) (month_of : ℕ → ℕ) where
  -- The rows that the samples would make one by one.
  abbrev pub rows_of : List A → List Monthly
  rows_of [] = []
  rows_of (a ∷ rows) = row_of sample month_of a ∷ rows_of rows

  group_months-rx :
      (owner : Text) (month : ℕ) (rows : List A)
      → month_rx owner month (group_months sample month_of rows)
        ≡ month_rx owner month (rows_of rows)
  unfolding group_months
  group_months-rx owner month [] = refl
  group_months-rx owner month (a ∷ rows) = omega (
    arith,
    group_months-rx owner month rows,
    upsert_monthly-rx owner month (row_of sample month_of a) (group_months sample month_of rows),
  )

  group_months-tx :
      (owner : Text) (month : ℕ) (rows : List A)
      → month_tx owner month (group_months sample month_of rows)
        ≡ month_tx owner month (rows_of rows)
  unfolding group_months
  group_months-tx owner month [] = refl
  group_months-tx owner month (a ∷ rows) = omega (
    arith,
    group_months-tx owner month rows,
    upsert_monthly-tx owner month (row_of sample month_of a) (group_months sample month_of rows),
  )

  rows_of-parts :
      (owner : Text) (month : ℕ) (old : A → Bool) (rows : List A)
      → (month_rx owner month (rows_of (keep old rows))
            + month_rx owner month (rows_of (keep (λ a. not (old a)) rows))
          ≡ month_rx owner month (rows_of rows))
        × (month_tx owner month (rows_of (keep old rows))
              + month_tx owner month (rows_of (keep (λ a. not (old a)) rows))
            ≡ month_tx owner month (rows_of rows))
  rows_of-parts owner month old [] = (refl, refl)
  rows_of-parts owner month old (a ∷ rows) = ground (arith, rows_of-parts owner month old rows)

  -- What the monthly rows and the snapshots hold together of an owner and a month.
  roll_up-kept :
      (owner : Text) (month now : ℕ) (rows : List A) (table : List Monthly)
      → let after = roll_up sample month_of now rows table in
        (month_rx owner month after.0 + month_rx owner month (rows_of after.1)
          ≡ month_rx owner month table + month_rx owner month (rows_of rows))
        × (month_tx owner month after.0 + month_tx owner month (rows_of after.1)
            ≡ month_tx owner month table + month_tx owner month (rows_of rows))
  unfolding roll_up
  roll_up-kept owner month now rows table =
      let old : A → Bool = λ a. is_old now (sample a).ts in
      let parts = rows_of-parts owner month old rows in
      let groups = group_months sample month_of (keep old rows) in
      let rx = parts.0 in
      let tx = parts.1 in
      (
        omega (
          arith,
          upsert_all-rx owner month groups table,
          group_months-rx owner month (keep old rows),
        ),
        omega (
          arith,
          upsert_all-tx owner month groups table,
          group_months-tx owner month (keep old rows),
        ),
      )

keep-none {ℓ} : {A : Type ℓ} (p : A → Bool) (xs : List A) → keep p (keep (λ a. not (p a)) xs) ≡ []
keep-none p [] = refl
keep-none p (x ∷ xs) = ground (arith, keep-none p xs)

-- Rolling up moves traffic and changes none: for every client and every month, the monthly table
-- and the snapshots together hold as many bytes afterwards as before, down and up; and no snapshot
-- older than 30 days is left.
pub rollup_client_traffic-kept :
    (month_of : ℕ → ℕ) (client : Text) (month now : ℕ) (rows : List Snapshot) (table : List Monthly)
    → let after = rollup_client_traffic month_of now rows table in
      let held = rows_of client_sample month_of in
      (month_rx client month after.0 + month_rx client month (held after.1)
        ≡ month_rx client month table + month_rx client month (held rows))
      × (month_tx client month after.0 + month_tx client month (held after.1)
          ≡ month_tx client month table + month_tx client month (held rows))
      × (keep (λ s. is_old now s.ts) after.1 ≡ [])
unfolding rollup_client_traffic roll_up
rollup_client_traffic-kept month_of client month now rows table =
    let kept = roll_up-kept client_sample month_of client month now rows table in
    (kept.0, kept.1, keep-none (λ s. is_old now s.ts) rows)
