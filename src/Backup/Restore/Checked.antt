-- ===== src/Backup/Restore/Checked.antt =====
-- What a staged restore has passed.
use vpn_relay.Prelude.{
  ℕ, ◌+◌, ◌≤◌, Text, ltb, if◌then◌else◌, Option, none, some, List, [], ◌∷◌, ◌++◌, All, length, ◌≡◌,
  ◌≢◌, refl, subst, inl, inr, arith, Option-cases,
}
use vpn_relay.Prelude.Dict.{Dict, put}
use vpn_relay.Prelude.Result.{Result, ok, err, passed_first}
use vpn_relay.Backup.Container.{Bytes, Crypto, decrypt_container}
use vpn_relay.Backup.Container
use vpn_relay.Backup.Bundle.{Violation, check_entry, max_entries, too_many}
use vpn_relay.Backup.Restore.{
  File, Readers, StageError, unpack, opened, nonempty_passphrase, all_allowed, or_error,
  StagedRestore, Staging, extract, open_bundle, stage_restore, stage_with,
}

abbrev pub IsAllowed : File → Type 0
IsAllowed f = check_entry f.entry ≡ none

not-snoc-nil : (vs : List Violation) (v : Violation) → (vs ++ v ∷ []) ≢ []
not-snoc-nil [] v e = cc
not-snoc-nil (w ∷ vs) v e = cc

no_violation :
    (seen : ℕ) (c : Option Violation)
    → (if ltb max_entries (seen + 1) then some too_many else c) ≡ none
    → (seen + 1 ≤ max_entries) × (c ≡ none)
no_violation seen c e = ground arith

-- An extraction without a violation has seen allowed entries only, and no more than the bound.
extract-IsAllowed :
    (seen : ℕ) (fs : List File) (files : Dict Bytes) (vs : List Violation)
    → (extract seen fs (files, vs)).1 ≡ []
    → (vs ≡ []) × All IsAllowed fs × (seen ≤ max_entries → seen + length fs ≤ max_entries)
unfolding extract
extract-IsAllowed seen [] files vs h = (h, tt, λ few. omega arith)
extract-IsAllowed seen (f ∷ fs) files vs h =
    let checked = if ltb max_entries (seen + 1) then some too_many else check_entry f.entry in
    elim (Option-cases checked) [
      | inl e ↦
          let (first, rest, count) =
            extract-IsAllowed (seen + 1) fs (put files f.entry.path f.content) vs
              (subst (λ v. (extract (seen + 1) fs (unpack f v (files, vs))).1 ≡ []) e h) in
          let passed = no_violation seen (check_entry f.entry) e in
          let count' = count passed.0 in (first, (passed.1, rest), λ few. omega arith)
      | inr (v, e) ↦ absurd (
          not-snoc-nil vs v
            (extract-IsAllowed (seen + 1) fs files (vs ++ v ∷ [])
              (subst (λ v. (extract (seen + 1) fs (unpack f v (files, vs))).1 ≡ []) e h)).0)
    ]

extract-All :
    (fs : List File) → (extract 0 fs ([], [])).1 ≡ [] → (length fs ≤ max_entries) × All IsAllowed fs
extract-All fs h =
    let (none_before, allowed, count) = extract-IsAllowed 0 fs [] [] h in
    let count' = count (omega arith) in (omega arith, allowed)

all_allowed-ok :
    (acc : Dict Bytes × List Violation) {files : Dict Bytes}
    → all_allowed acc ≡ ok files
    → acc.1 ≡ []
all_allowed-ok (files, []) h = refl
all_allowed-ok (files, v ∷ vs) h = cc

or_error-ok :
    {A : Type 0} (e : StageError) (o : Option A) {a : A} → or_error e o ≡ ok a → o ≡ some a
or_error-ok e none h = cc
or_error-ok e (some b) h = cc

nonempty_passphrase-ok : (o : Option Text) {p : Text} → nonempty_passphrase o ≡ ok p → o ≡ some p
nonempty_passphrase-ok none h = cc
nonempty_passphrase-ok (some []) h = cc
nonempty_passphrase-ok (some (c ∷ s)) h = cc

opened-ok : (o : Container.Opened) {b : Bytes} → opened o ≡ ok b → o ≡ Container.ok b
opened-ok (Container.ok a) h = cc
opened-ok Container.truncated h = cc
opened-ok Container.bad_magic h = cc
opened-ok Container.auth_failed h = cc

stage_with-ok :
    (id : Text) (m : Result StageError StagedRestore) (s : Staging) {r : StagedRestore}
    → (stage_with id m s).1 ≡ ok r
    → m ≡ ok r
stage_with-ok id (ok q) s h = h
stage_with-ok id (err e) s h = h

-- A restore is staged only from a bundle that opens with the passphrase and whose archive holds at
-- most 16 entries, each a regular file with a path of the list of allowed ones and no larger than
-- its cap.
pub stage_restore-checked :
    (crypto : Crypto) (readers : Readers) (id : Text) (now : ℕ) (container : Bytes)
    (passphrase : Option Text) (clients_current : ℕ) (current_pub : Text) (s : Staging)
    {r : StagedRestore}
    → (stage_restore crypto readers id now container passphrase clients_current current_pub s).1
      ≡ ok r
    → (p : Text) × (plain : Bytes) × (fs : List File) × (passphrase ≡ some p)
      × (decrypt_container crypto container p ≡ Container.ok plain)
      × (readers.files plain ≡ some fs)
      × (length fs ≤ max_entries)
      × All IsAllowed fs
unfolding stage_restore open_bundle
stage_restore-checked crypto readers id now container passphrase clients_current current_pub s h =
    let chain =
      passed_first _ (open_bundle crypto readers container passphrase) (stage_with-ok id _ _ h) in
    let first = passed_first _ (nonempty_passphrase passphrase) chain.1 in
    let second = passed_first _ (opened (decrypt_container crypto container first.0)) first.2 in
    let third = passed_first _ (or_error _ (readers.files second.0)) second.2 in
    let checked = extract-All third.0 (all_allowed-ok _ third.2) in
    (
      first.0,
      second.0,
      third.0,
      nonempty_passphrase-ok passphrase first.1,
      opened-ok _ second.1,
      or_error-ok _ _ third.1,
      checked.0,
      checked.1,
    )
