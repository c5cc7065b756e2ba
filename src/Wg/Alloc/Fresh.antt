-- ===== src/Wg/Alloc/Fresh.antt =====
-- What `findFreeIp` of services/wg.service.ts hands out.
use vpn_relay.Prelude.{
  ℕ, zero, suc, ◌+◌, ◌≤◌, ◌<◌, ◌==◌, Text, true, false, ◌||◌, Option, none, some, List, [], ◌∷◌,
  ◌++◌, ◌≡◌, ◌≢◌, refl, arith, sym, ap, ◌∙◌, Bool-cases, inl, inr, subst,
}
use vpn_relay.Client.Table.{Clients}
use vpn_relay.Wg.Conf.{wg_ip_start, wg_ip_end}
use vpn_relay.Wg.Alloc.{
  Reserved, table_octets, sweep, octets, conf_octets, used_octets, is_used, first_free, reserve,
  reserve_found, find_free_ip, reservation_ttl_ms,
}

pub first_free-free :
    (n i : ℕ) (used : List ℕ) (octet : ℕ)
    → first_free n i used ≡ some octet
    → (i ≤ octet) × ((octet < i + n) × (is_used octet used ≡ false))
unfolding first_free
first_free-free zero i used octet h = cc
first_free-free (suc n) i used octet h = ground (arith, first_free-free n (i + 1) used octet)

-- The loop passes over octets that are used only.
first_free-none :
    (n i : ℕ) (used : List ℕ) (octet : ℕ)
    → first_free n i used ≡ none
    → i ≤ octet
    → octet < i + n
    → is_used octet used ≡ true
unfolding first_free
first_free-none zero i used octet h lo hi = absurd (omega arith)
first_free-none (suc n) i used octet h lo hi = elim (Bool-cases (i == octet)) [
  | inl e ↦
      let same : i ≡ octet = ground arith in subst (λ o. is_used o used ≡ true) same (ground arith)
  | inr e ↦ ground (arith, first_free-none n (i + 1) used octet)
]

pub is_used-append :
    (o : ℕ) (us vs : List ℕ) → is_used o (us ++ vs) ≡ (is_used o us || is_used o vs)
is_used-append o [] vs = refl
is_used-append o (u ∷ us) vs = ground (arith, is_used-append o us vs)

unused_parts :
    (o : ℕ) (us vs ws : List ℕ)
    → is_used o (us ++ (vs ++ ws)) ≡ false
    → (is_used o us ≡ false) × ((is_used o vs ≡ false) × (is_used o ws ≡ false))
unused_parts o us vs ws h = ground (arith, is_used-append o us (vs ++ ws), is_used-append o vs ws)

-- A reservation that is not outdated survives the sweep.
sweep-reserve :
    (o at now : ℕ) (r : Reserved)
    → now ≤ at + reservation_ttl_ms
    → is_used o (octets (sweep now (reserve o at r))) ≡ true
unfolding sweep
sweep-reserve o at now [] h = ground arith
sweep-reserve o at now ((u, t) ∷ r) h = ground (arith, sweep-reserve o at now r h)

reserve_found-some :
    (at : ℕ) (r r' : Reserved) (found : Option ℕ) (octet : ℕ)
    → reserve_found at r found ≡ (some octet, r')
    → (found ≡ some octet) × (r' ≡ reserve octet at r)
reserve_found-some at r r' none octet h = let e : none ≡ some octet = ap (λ p. p.0) h in cc
reserve_found-some at r r' (some o) octet h =
    let e : some o ≡ some octet = ap (λ p. p.0) h in
    let same : o ≡ octet = cc in
    (ap some same, sym (ap (λ p. p.1) h) ∙ ap (λ x. reserve x at r) same)

-- An octet that `findFreeIp` hands out is in 2..254; no row of the table, no reservation that the
-- sweep leaves and no block of the conf on A has it; and it is reserved at the time of the answer.
pub find_free_ip-fresh :
    (clients : Clients) (reserved r' : Reserved) (conf : Option Text) (now at octet : ℕ)
    → find_free_ip clients reserved conf now at ≡ (some octet, r')
    → ((wg_ip_start ≤ octet) × (octet ≤ wg_ip_end))
      × ((is_used octet (table_octets clients) ≡ false)
          × ((is_used octet (octets (sweep now reserved)) ≡ false)
              × ((is_used octet (conf_octets conf) ≡ false)
                  × (r' ≡ reserve octet at (sweep now reserved)))))
unfolding find_free_ip used_octets
find_free_ip-fresh clients reserved r' conf now at octet h =
    let found =
      reserve_found-some at (sweep now reserved) r'
        (first_free 253 wg_ip_start (used_octets clients reserved conf now)) octet h in
    let (lo, (hi, free)) =
      first_free-free 253 wg_ip_start (used_octets clients reserved conf now) octet found.0 in
    let (a, (b, c)) =
      unused_parts octet (table_octets clients) (octets (sweep now reserved)) (conf_octets conf)
        free in
    ((lo, omega arith), (a, (b, (c, found.1))))

-- `findFreeIp` fails only when each octet of 2..254 is in use.
pub find_free_ip-exhausted :
    (clients : Clients) (reserved r' : Reserved) (conf : Option Text) (now at octet : ℕ)
    → find_free_ip clients reserved conf now at ≡ (none, r')
    → wg_ip_start ≤ octet
    → octet ≤ wg_ip_end
    → is_used octet (used_octets clients reserved conf now) ≡ true
unfolding find_free_ip
find_free_ip-exhausted clients reserved r' conf now at octet h lo hi =
    first_free-none 253 wg_ip_start (used_octets clients reserved conf now) octet
      (reserve_found-none at (sweep now reserved) _ (ap (λ p. p.0) h)) lo (omega arith)
  where
    reserve_found-none :
        (at : ℕ) (r : Reserved) (found : Option ℕ)
        → (reserve_found at r found).0 ≡ none
        → found ≡ none
    reserve_found-none at r none e = refl
    reserve_found-none at r (some o) e = absurd (cc)

-- A second allocation that starts at most 60 s after the first answered does not hand out the same
-- octet, whatever the table and the conf hold by then.
pub find_free_ip-twice :
    (clients later : Clients) (reserved r' r'' : Reserved) (conf conf' : Option Text)
    (now at now' at' a b : ℕ)
    → find_free_ip clients reserved conf now at ≡ (some a, r')
    → find_free_ip later r' conf' now' at' ≡ (some b, r'')
    → now' ≤ at + reservation_ttl_ms
    → a ≢ b
find_free_ip-twice clients later reserved r' r'' conf conf' now at now' at' a b first second soon
      same =
    let (_, (_, (_, (_, stored)))) = find_free_ip-fresh clients reserved r' conf now at a first in
    let (_, (_, (free, _))) = find_free_ip-fresh later r' r'' conf' now' at' b second in
    let kept = sweep-reserve a at now' (sweep now reserved) soon in
    ground (arith, same, stored, free, kept)
