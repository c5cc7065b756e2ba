-- ===== src/Backup/Rotation/Oldest.antt =====
-- What the rotation of services/backup.service.ts deletes.
use mathlib.Core.List.{Perm}
use mathlib.Core.List.Perm
use vpn_relay.Prelude.{
  ℕ, zero, suc, ◌-◌, min, Text, text_leb, text_leb_trans, text_leb_total, leb, Bool, Bool-cases,
  true, false, List, [], ◌∷◌, ◌++◌, map, length, take, drop, All, ◌≡◌, refl, ap, inl, inr, arith,
}
use vpn_relay.Backup.Rotation.{
  Dated, dated, comes_before, insert, sort, name_of, oldest, select_for_rotation,
}

-- No later than the other.
abbrev pub IsNoLater : Dated → Dated → Type 0
IsNoLater d e = text_leb d.stamp e.stamp ≡ true

IsOrdered : List Dated → Type 0
IsOrdered [] = Unit
IsOrdered (d ∷ ds) = All (IsNoLater d) ds × IsOrdered ds

before-IsNoLater : (d e : Dated) → comes_before d e ≡ true → IsNoLater d e
before-IsNoLater d e h =
    ground (arith, text_leb_total d.stamp e.stamp, text_leb_total e.stamp d.stamp)

not_before-IsNoLater : (d e : Dated) → comes_before e d ≡ false → IsNoLater d e
not_before-IsNoLater d e h = ground (arith, text_leb_total d.stamp e.stamp)

All-insert :
    (P : Dated → Type 0) (d : Dated) (es : List Dated) → P d → All P es → All P (insert d es)
unfolding insert
All-insert P d [] p ps = (p, tt)
All-insert P d (e ∷ es) p ps = elim (Bool-cases (comes_before e d)) [
  | inl h ↦ rw h (ps.0, All-insert P d es p ps.1)
  | inr h ↦ rw h (p, ps)
]

All-later :
    (d e : Dated) (es : List Dated) → IsNoLater d e → All (IsNoLater e) es → All (IsNoLater d) es
All-later d e [] h ps = tt
All-later d e (f ∷ es) h ps =
    (text_leb_trans d.stamp e.stamp f.stamp h ps.0, All-later d e es h ps.1)

insert-IsOrdered : (d : Dated) (es : List Dated) → IsOrdered es → IsOrdered (insert d es)
unfolding insert IsOrdered
insert-IsOrdered d [] o = (tt, tt)
insert-IsOrdered d (e ∷ es) o = elim (Bool-cases (comes_before e d)) [
  | inl h ↦
      rw h (All-insert (IsNoLater e) d es (before-IsNoLater e d h) o.0, insert-IsOrdered d es o.1)
  | inr h ↦
      rw h (
        (not_before-IsNoLater d e h, All-later d e es (not_before-IsNoLater d e h) o.0),
        (o.0, o.1),
      )
]

sort-IsOrdered : (ds : List Dated) → IsOrdered (sort ds)
unfolding sort IsOrdered
sort-IsOrdered [] = tt
sort-IsOrdered (d ∷ ds) = insert-IsOrdered d (sort ds) (sort-IsOrdered ds)

insert-perm : (d : Dated) (es : List Dated) → Perm (insert d es) (d ∷ es)
unfolding insert
insert-perm d [] = Perm.refl (d ∷ [])
insert-perm d (e ∷ es) = elim (Bool-cases (comes_before e d)) [
  | inl h ↦ rw h (Perm.trans (Perm.cons e (insert-perm d es)) (Perm.swap d e es))
  | inr h ↦ rw h (Perm.refl (d ∷ e ∷ es))
]

sort-perm : (ds : List Dated) → Perm (sort ds) ds
unfolding sort
sort-perm [] = Perm.refl []
sort-perm (d ∷ ds) = Perm.trans (insert-perm d (sort ds)) (Perm.cons d (sort-perm ds))

length-insert : (d : Dated) (es : List Dated) → length (insert d es) ≡ suc (length es)
unfolding insert
length-insert d [] = refl
length-insert d (e ∷ es) = ground (arith, length-insert d es)

length-sort : (ds : List Dated) → length (sort ds) ≡ length ds
unfolding sort
length-sort [] = refl
length-sort (d ∷ ds) = omega (arith, length-insert d (sort ds), length-sort ds)

All-drop : (P : Dated → Type 0) (n : ℕ) (ds : List Dated) → All P ds → All P (drop n ds)
All-drop P zero ds a = a
All-drop P (suc n) [] a = tt
All-drop P (suc n) (d ∷ ds) a = All-drop P n ds a.1

take-drop-IsOrdered :
    (n : ℕ) (ds : List Dated) → IsOrdered ds → All (λ o. All (IsNoLater o) (drop n ds)) (take n ds)
unfolding IsOrdered
take-drop-IsOrdered zero ds o = tt
take-drop-IsOrdered (suc n) [] o = tt
take-drop-IsOrdered (suc n) (d ∷ ds) o =
    (All-drop (IsNoLater d) n ds o.0, take-drop-IsOrdered n ds o.1)

take-append-drop : (n : ℕ) (ds : List Dated) → take n ds ++ drop n ds ≡ ds
take-append-drop zero ds = refl
take-append-drop (suc n) [] = refl
take-append-drop (suc n) (d ∷ ds) = ap (λ es. d ∷ es) (take-append-drop n ds)

length-drop : (n : ℕ) (ds : List Dated) → length (drop n ds) ≡ length ds - n
length-drop zero ds = omega arith
length-drop (suc n) [] = omega arith
length-drop (suc n) (d ∷ ds) = omega (arith, length-drop n ds)

-- What a rotation that keeps `n` of the dated files `ds` deletes.
pub record Rotated (n : ℕ) (ds : List Dated) (old : List Dated) : Type 0 where
  pub kept : List Dated
  pub parts : Perm (old ++ kept) ds
  pub count : length kept ≡ min n (length ds)
  pub newer : All (λ o. All (IsNoLater o) kept) old

oldest-Rotated : (n : ℕ) (ds : List Dated) → Rotated n ds (oldest n (sort ds))
oldest-Rotated n ds = elim (Bool-cases (leb (length (sort ds)) n)) [
  | inl h ↦ rw h (record {
    kept = sort ds;
    parts = sort-perm ds;
    count = ground (arith, length-sort ds);
    newer = tt;
  })
  | inr h ↦ rw h (record {
    kept = drop (length (sort ds) - n) (sort ds);
    parts = rw (take-append-drop (length (sort ds) - n) (sort ds)) (sort-perm ds);
    count = ground (arith, length-sort ds, length-drop (length (sort ds) - n) (sort ds));
    newer = take-drop-IsOrdered (length (sort ds) - n) (sort ds) (sort-IsOrdered ds);
  })
]

-- A rotation that keeps `n` deletes the oldest files: the matching names with a stamp are, up to
-- their order, those deleted and those kept; `n` are kept, or all if there are fewer; and the stamp of
-- a deleted one is at most that of each that is kept.
pub select_for_rotation-oldest :
    (pattern : Text → Bool) (n : ℕ) (names : List Text)
    → (old : List Dated) × (select_for_rotation pattern n names ≡ map name_of old)
      × Rotated n (dated pattern names) old
unfolding select_for_rotation
select_for_rotation-oldest pattern n names =
    (oldest n (sort (dated pattern names)), refl, oldest-Rotated n (dated pattern names))
