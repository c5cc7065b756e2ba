-- ===== src/Backup/Restore/Crash.antt =====
-- A restore that dies half way: the order of the writes of `commitRestore`.
use vpn_relay.Prelude.{ℕ, zero, suc, none, ◌≡◌, refl, ◌⊎◌, inl, inr, take}
use vpn_relay.Backup.Restore.{StagedRestore, Disk, commit_writes, apply_writes}

-- Wherever the process dies in the swap, after any number of the writes, the database on the disk is
-- either the old one, without a receipt of a restore that was not there before, or the one of the
-- bundle with no write-ahead log of the old one beside it.
pub commit_writes-crash :
    (r : StagedRestore) (d : Disk) (n : ℕ)
    → let after = apply_writes r (take n commit_writes) d in
      ((after.db ≡ d.db) × (after.marker ≡ d.marker))
      ⊎ ((after.db ≡ r.db) × (after.wal ≡ none) × (after.shm ≡ none))
unfolding commit_writes apply_writes
commit_writes-crash r d zero = inl (refl, refl)
commit_writes-crash r d (suc zero) = inl (refl, refl)
commit_writes-crash r d (suc (suc zero)) = inl (refl, refl)
commit_writes-crash r d (suc (suc (suc zero))) = inr (refl, refl, refl)
commit_writes-crash r d (suc (suc (suc (suc zero)))) = inr (refl, refl, refl)
commit_writes-crash r d (suc (suc (suc (suc (suc zero))))) = inr (refl, refl, refl)
commit_writes-crash r d (suc (suc (suc (suc (suc (suc n)))))) = inr (refl, refl, refl)
