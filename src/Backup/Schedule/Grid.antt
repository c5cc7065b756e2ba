-- ===== src/Backup/Schedule/Grid.antt =====
-- The slots of services/backup.schedule.ts lie on a fixed grid.
use vpn_relay.Prelude.{ℕ, zero, suc, ◌+◌, ◌-◌, ◌*◌, ◌/◌, ◌%◌, ◌<◌, ◌≤◌, ◌≡◌, refl, ap, arith}
use native.Mathlib.Nat.{mod-lt, mod-eq_of_lt, div-add-mod, add-mod_right}
use vpn_relay.Prelude.Int.{
  ℤ, pos, negsuc, ◌+ℤ◌, ◌-ℤ◌, ◌≤ℤ◌, ◌<ℤ◌, scale, rem, sub_ℕ, pos_part, neg_part, +ℤ_parts, -ℤ_parts,
  scale_parts, eq_of_parts,
}
use vpn_relay.Backup.Schedule.{
  day_ms, hour_ms, anchor_day, slot_at, slot_day, grid_offset, due_day, last_due_slot, next_slot,
}

-- The mathematical remainder that the two `%` of the source compute.
offset : ℤ → ℕ → ℕ
offset (pos a) n = a % n
offset (negsuc a) n = (n - suc a % n) % n

add_self-mod : (x n : ℕ) → 0 < n → x < n → (x + n) % n ≡ x
add_self-mod x n h lt = grind (arith, add-mod_right, mod-eq_of_lt)

shift_pos : (x n : ℕ) → pos x +ℤ pos n ≡ pos (x + n)
unfolding ◌+ℤ◌
shift_pos x n = ground arith

shift_neg : (x n : ℕ) → x ≤ n → sub_ℕ 0 x +ℤ pos n ≡ pos (n - x)
unfolding ◌+ℤ◌
shift_neg x n h = ground arith

rem-offset : (d : ℤ) (n : ℕ) → 0 < n → rem (rem d n +ℤ pos n) n ≡ pos (offset d n)
unfolding rem offset
rem-offset (pos a) n h = rw (shift_pos (a % n) n) (ap pos (add_self-mod (a % n) n h (mod-lt a h)))
rem-offset (negsuc a) n h = rw (shift_neg (suc a % n) n (omega (arith, mod-lt (suc a) h))) refl

offset-lt : (d : ℤ) (n : ℕ) → 0 < n → offset d n < n
unfolding offset
offset-lt (pos a) n h = mod-lt a h
offset-lt (negsuc a) n h = mod-lt (n - suc a % n) h

-- The day is the offset behind a multiple of the interval.
offset-grid :
    (d : ℤ) (n : ℕ)
    → 0 < n
    → (q : ℤ) × (pos_part d + neg_part q * n ≡ neg_part d + pos_part q * n + offset d n)
unfolding offset
offset-grid (pos a) n h = (pos (a / n), omega (arith, div-add-mod a n))
offset-grid (negsuc a) n h = by_remainder (suc a % n) refl
  where
    neg_of : (k : ℕ) → (neg_part (sub_ℕ 0 k) ≡ k) × (pos_part (sub_ℕ 0 k) ≡ 0)
    neg_of k = ground arith

    by_remainder :
        (x : ℕ)
        → suc a % n ≡ x
        → (q : ℤ) × (0 + neg_part q * n ≡ suc a + pos_part q * n + (n - suc a % n) % n)
    by_remainder zero e = (
      sub_ℕ 0 (suc a / n),
      rw (e, (neg_of (suc a / n)).0, (neg_of (suc a / n)).1)
          (grind (arith, div-add-mod (suc a) n, add-mod_right 0 n)),
    )
    by_remainder (suc x) e =
        let k = suc a / n in
        let wrap : (n - suc x) % n ≡ n - suc x = mod-eq_of_lt (omega arith) in
        (negsuc k, rw (e, wrap) (omega (arith, div-add-mod (suc a) n, mod-lt (suc a) h)))

slot_at_parts :
    (day : ℤ) (hour : ℕ)
    → pos_part (slot_at day hour) + neg_part day * day_ms
      ≡ neg_part (slot_at day hour) + pos_part day * day_ms + hour * hour_ms
unfolding slot_at
slot_at_parts day hour =
    omega (arith, +ℤ_parts (scale day day_ms) (pos (hour * hour_ms)), scale_parts day day_ms)

slot_day_bounds :
    (now hour : ℕ)
    → hour ≤ 23
    → (pos_part (slot_day now hour) * day_ms + hour * hour_ms
        ≤ now + neg_part (slot_day now hour) * day_ms)
      × (now + neg_part (slot_day now hour) * day_ms
          < pos_part (slot_day now hour) * day_ms + hour * hour_ms + day_ms)
unfolding slot_day
slot_day_bounds now hour h = ground arith

due_day-offset :
    (now hour n : ℕ)
    → 0 < n
    → due_day now hour n ≡ slot_day now hour -ℤ pos (offset (slot_day now hour -ℤ pos anchor_day) n)
unfolding due_day grid_offset
due_day-offset now hour n h = rw (rem-offset (slot_day now hour -ℤ pos anchor_day) n h)

-- For an interval of `n` days: the slot that was due is at or before `now`, and the next slot, `n` days
-- later, is after `now`.
pub last_due_slot_bounds :
    (now hour n : ℕ)
    → 0 < n
    → hour ≤ 23
    → (last_due_slot now hour n ≤ℤ pos now) × (pos now <ℤ next_slot now hour n)
unfolding last_due_slot next_slot
last_due_slot_bounds now hour n h hh =
    let day = slot_day now hour in
    let o = offset (day -ℤ pos anchor_day) n in
    let due = day -ℤ pos o in
    let late = slot_day_bounds now hour hh in
    rw (due_day-offset now hour n h) (
      omega (
        arith,
        offset-lt (day -ℤ pos anchor_day) n h,
        late.0,
        slot_at_parts due hour,
        -ℤ_parts day (pos o),
      ),
      omega (
        arith,
        offset-lt (day -ℤ pos anchor_day) n h,
        late.1,
        slot_at_parts due hour,
        -ℤ_parts day (pos o),
        +ℤ_parts (slot_at due hour) (pos (n * day_ms)),
      ),
    )

due_day-grid :
    (now hour n : ℕ) → 0 < n → (q : ℤ) × (due_day now hour n ≡ scale q n +ℤ pos anchor_day)
due_day-grid now hour n h =
    let day = slot_day now hour in
    let d = day -ℤ pos anchor_day in
    let (q, on_grid) = offset-grid d n h in
    (
      q,
      rw (due_day-offset now hour n h) (
          eq_of_parts _ _ (
            omega (
              arith,
              on_grid,
              -ℤ_parts day (pos anchor_day),
              -ℤ_parts day (pos (offset d n)),
              scale_parts q n,
              +ℤ_parts (scale q n) (pos anchor_day),
            ))),
    )

-- The slot that was due lies on the grid, whatever `now` is: it is `hour` hours into a day that is a whole
-- number of intervals from day 4 of the epoch, Monday 1970-01-05; a day has 86400000 ms, an hour 3600000.
pub last_due_slot-grid :
    (now hour n : ℕ)
    → 0 < n
    → (q : ℤ) × (last_due_slot now hour n
        ≡ scale (scale q n +ℤ pos 4) 86400000 +ℤ pos (hour * 3600000))
unfolding last_due_slot slot_at
last_due_slot-grid now hour n h =
    let (q, on_grid) = due_day-grid now hour n h in (q, ap (λ d. slot_at d hour) on_grid)
