-- ===== src/Client/Overlap/Distinct.antt =====
-- Overlapping creates get different addresses.
use vpn_relay.Prelude.{
  ℕ, ◌+◌, ◌≤◌, ◌<◌, ◌==◌, ◌||◌, Text, Bool-cases, inl, inr, true, false, Option, none, some, List,
  [], ◌∷◌, ◌++◌, ◌≡◌, refl, sym, ap, ◌∙◌, subst, arith, decimal,
}
use vpn_relay.Wg.Conf.{net_dot}
use vpn_relay.Wg.Alloc.{
  table_octets, octet_of_ip, sweep, octets, conf_octets, is_used, reserve, reservation_ttl_ms,
}
use vpn_relay.Wg.Alloc.Fresh.{first_free-free, is_used-append}
use vpn_relay.Client.Table.{Client, Clients, delete_client_row, set_client_active}
use vpn_relay.Client.World.{desired_peers}
use vpn_relay.Client.Overlap.{
  Creates, held, begin_search, choose, answer, end_search, store, Step, begins, ends, stores,
  stores_other, gives_up, syncs, deletes, switches, passes, Overlap, at_once, after,
}
use vpn_relay.Client.Overlap.Octets.{
  IsDistinct, IsDistinct-snoc, octet_of_ip-address, held-is_used, held-sweep, held-reserve,
  held-reserve_other, held-leave, is_used-leave, leave-IsDistinct, is_used-held, held-forget_peers,
  has_octet-desired_peers, table_octets-append, table_octets-set_client_active,
  is_used-delete_client_row, delete_client_row-IsDistinct,
}

record IsSound (s : Creates) : Type 0 where
  table : IsDistinct (table_octets s.clients)
  waiting : IsDistinct (octets s.pending)
  apart : (o at : ℕ) → held o at s.pending ≡ true → is_used o (table_octets s.clients) ≡ false
  live :
      (o at : ℕ)
      → held o at s.pending ≡ true
      → (2 ≤ o) × (o < 255) × (s.now ≤ at + reservation_ttl_ms) × (held o at s.reserved ≡ true)
  seen :
      (used : List ℕ) (o : ℕ)
      → s.search ≡ some used
      → (is_used o (table_octets s.clients) || is_used o (octets s.pending)) ≡ true
      → is_used o used ≡ true

begins-IsSound : (s : Creates) → IsSound s → IsSound (begin_search s)
unfolding begin_search
begins-IsSound s i =
    let r = sweep s.now s.reserved in
    let kept : (o at : ℕ) → held o at s.pending ≡ true → held o at r ≡ true =
      λ o at h. let (_, _, soon, k) = i.live o at h in held-sweep o at s.now s.reserved k soon in
    record {
      table = i.table;
      waiting = i.waiting;
      apart = i.apart;
      live = λ o at h. let (lo, hi, soon, _) = i.live o at h in (lo, hi, soon, kept o at h);
      seen = λ used o e h.
          subst (λ u. is_used o u ≡ true) (some-inj e)
            (elim (Bool-cases (is_used o (octets s.pending))) [
              | inl p ↦
                  let (t, k) = is_used-held o s.pending p in
                  let stays = held-is_used o t r (kept o t k) in
                  ground (arith, is_used-append o (table_octets s.clients) (octets r), stays)
              | inr n ↦ ground (arith, is_used-append o (table_octets s.clients) (octets r))
            ]);
    }
  where
    some-inj : {x y : List ℕ} → some x ≡ some y → x ≡ y
    some-inj h = cc

answer-IsSound :
    (s : Creates) (used : List ℕ) (octet : ℕ)
    → s.search ≡ some used
    → 2 ≤ octet
    → octet < 255
    → is_used octet used ≡ false
    → IsSound s
    → IsSound (answer s (some octet))
answer-IsSound s used octet e lo hi free i =
    let seen = i.seen used octet e in
    let fresh : is_used octet (table_octets s.clients) ≡ false = ground (arith, seen) in
    let unasked : is_used octet (octets s.pending) ≡ false = ground (arith, seen) in
    let other : (o at : ℕ) → held o at s.pending ≡ true → (octet == o) ≡ false =
      λ o at h. differs (octets s.pending) o (held-is_used o at s.pending h) unasked in
    record {
      table = i.table;
      waiting = (unasked, i.waiting);
      apart = λ o at h. elim (Bool-cases (octet == o)) [
        | inl same ↦
            let eq : octet ≡ o = ground arith in
            subst (λ x. is_used x (table_octets s.clients) ≡ false) eq fresh
        | inr n ↦ i.apart o at (ground arith)
      ];
      live = λ o at h. elim (Bool-cases (octet == o)) [
        | inl same ↦
            let eq : octet ≡ o = ground arith in
            let now : s.now ≡ at = ground (arith, other o at) in
            (
              ground arith,
              ground arith,
              ground arith,
              subst (λ x. held x at (reserve octet s.now s.reserved) ≡ true) eq
                  (subst (λ t. held octet t (reserve octet s.now s.reserved) ≡ true) now
                    (held-reserve octet s.now s.reserved)),
            )
        | inr n ↦
            let (a, b, c, d) = i.live o at (ground arith) in
            (a, b, c, held-reserve_other o at octet s.now s.reserved d n)
      ];
      seen = λ u o bad h. absurd (cc);
    }
  where
    differs :
        (xs : List ℕ) (o : ℕ)
        → is_used o xs ≡ true
        → is_used octet xs ≡ false
        → (octet == o) ≡ false
    differs xs o h n = elim (Bool-cases (octet == o)) [
      | inl same ↦
          let eq : octet ≡ o = ground arith in
          let bad : is_used octet xs ≡ true = subst (λ x. is_used x xs ≡ true) (sym eq) h in
          absurd (cc)
      | inr k ↦ k
    ]

unused_left : (o : ℕ) (us vs : List ℕ) → is_used o (us ++ vs) ≡ false → is_used o us ≡ false
unused_left o us vs h = ground (arith, is_used-append o us vs)

ends-IsSound :
    (s : Creates) (used : List ℕ) (conf : Option Text)
    → s.search ≡ some used
    → IsSound s
    → IsSound (end_search used conf s)
unfolding end_search
ends-IsSound s used conf e i = by_choice (choose used conf) refl
  where
    by_choice : (found : Option ℕ) → choose used conf ≡ found → IsSound (answer s found)
    by_choice none h = record {
      table = i.table;
      waiting = i.waiting;
      apart = i.apart;
      live = i.live;
      seen = λ u o bad k. absurd (cc);
    }
    by_choice (some octet) h =
        let (lo, (hi, free)) = first_free-free 253 2 (used ++ conf_octets conf) octet h in
        answer-IsSound s used octet e lo hi (unused_left octet used (conf_octets conf) free) i

table_octets-snoc :
    (cs : Clients) (c : Client) (o : ℕ)
    → c.wg_ip ≡ some (net_dot ++ decimal o)
    → 2 ≤ o
    → o < 255
    → table_octets (cs ++ c ∷ []) ≡ table_octets cs ++ o ∷ []
unfolding table_octets
table_octets-snoc cs c o e lo hi =
    table_octets-append cs (c ∷ [])
    ∙ ap (λ l. table_octets cs ++ (l ++ [])) (ap octet_of_ip e ∙ octet_of_ip-address o lo hi)

stores-IsSound :
    (s : Creates) (c : Client) (octet at : ℕ)
    → held octet at s.pending ≡ true
    → c.wg_ip ≡ some (net_dot ++ decimal octet)
    → IsSound s
    → IsSound (store c octet s)
stores-IsSound s c octet at h e i =
    let (lo, hi, _, _) = i.live octet at h in
    let grows = table_octets-snoc s.clients c octet e lo hi in
    let adds : (o : ℕ)
        → is_used o (table_octets (s.clients ++ c ∷ []))
          ≡ (is_used o (table_octets s.clients) || (octet == o || false)) =
      λ o. ap (is_used o) grows ∙ is_used-append o (table_octets s.clients) (octet ∷ []) in
    record {
      table =
          subst IsDistinct (sym grows)
            (IsDistinct-snoc (table_octets s.clients) octet i.table (i.apart octet at h));
      waiting = leave-IsDistinct octet s.pending i.waiting;
      apart = λ o t k.
          let (was, n) = held-leave o t octet s.pending k in
          ground (arith, adds o, i.apart o t was);
      live = λ o t k. i.live o t (held-leave o t octet s.pending k).0;
      seen = λ used o b k.
          let stored : (octet == o) ≡ true → is_used o (octets s.pending) ≡ true = λ same.
            let eq : octet ≡ o = ground arith in
            subst (λ x. is_used x (octets s.pending) ≡ true) eq
              (held-is_used octet at s.pending h) in
          i.seen used o b (ground (arith, adds o, stored, is_used-leave o octet s.pending));
    }

-- The table loses octets, or none.
shrinks-IsSound :
    (s : Creates) (cs : Clients)
    → IsDistinct (table_octets cs)
    → ((o : ℕ) → is_used o (table_octets cs) ≡ true → is_used o (table_octets s.clients) ≡ true)
    → IsSound s
    → IsSound (record s { clients = cs })
shrinks-IsSound s cs d less i = record {
  table = d;
  waiting = i.waiting;
  apart = λ o at h. ground (arith, less o, i.apart o at h);
  live = i.live;
  seen = λ used o e h. i.seen used o e (ground (arith, less o));
}

same-IsSound :
    (s : Creates) (cs : Clients)
    → table_octets cs ≡ table_octets s.clients
    → IsSound s
    → IsSound (record s { clients = cs })
same-IsSound s cs e i =
    shrinks-IsSound s cs (subst IsDistinct (sym e) i.table)
      (λ o h. subst (λ l. is_used o l ≡ true) e h) i

append_nil : (xs : List ℕ) → xs ++ [] ≡ xs
append_nil [] = refl
append_nil (x ∷ xs) = ap (λ l. x ∷ l) (append_nil xs)

stores_other-same :
    (cs : Clients) (c : Client) → c.wg_ip ≡ none → table_octets (cs ++ c ∷ []) ≡ table_octets cs
unfolding table_octets
stores_other-same cs c e =
    table_octets-append cs (c ∷ [])
    ∙ (ap (λ ip. table_octets cs ++ (octet_of_ip ip ++ [])) e ∙ append_nil (table_octets cs))

Step-IsSound : {s t : Creates} → Step s t → IsSound s → IsSound t
Step-IsSound {s} (begins e) i = begins-IsSound s i
Step-IsSound {s} (ends used conf e) i = ends-IsSound s used conf e i
Step-IsSound {s} (stores c octet at h e) i = stores-IsSound s c octet at h e i
Step-IsSound {s} (stores_other c e) i =
    same-IsSound s (s.clients ++ c ∷ []) (stores_other-same s.clients c e) i
Step-IsSound {s} (gives_up octet) i = record {
  table = i.table;
  waiting = leave-IsDistinct octet s.pending i.waiting;
  apart = λ o at h. i.apart o at (held-leave o at octet s.pending h).0;
  live = λ o at h. i.live o at (held-leave o at octet s.pending h).0;
  seen = λ used o e h. i.seen used o e (ground (arith, is_used-leave o octet s.pending));
}
Step-IsSound {s} syncs i = record {
  table = i.table;
  waiting = i.waiting;
  apart = i.apart;
  live = λ o at h.
      let (lo, hi, soon, k) = i.live o at h in
      (
        lo,
        hi,
        soon,
        held-forget_peers o at (desired_peers s.clients) s.reserved k
            (has_octet-desired_peers o s.clients (i.apart o at h)),
      );
  seen = i.seen;
}
Step-IsSound {s} (deletes id) i =
    shrinks-IsSound s (delete_client_row id s.clients)
      (delete_client_row-IsDistinct id s.clients i.table)
      (λ o. is_used-delete_client_row o id s.clients) i
Step-IsSound {s} (switches id active reason) i =
    same-IsSound s (set_client_active id active reason s.clients)
      (table_octets-set_client_active id active reason s.clients) i
Step-IsSound {s} (passes later m soon) i = record {
  table = i.table;
  waiting = i.waiting;
  apart = i.apart;
  live = λ o at h. let (lo, hi, _, k) = i.live o at h in (lo, hi, soon o at h, k);
  seen = i.seen;
}

Overlap-IsSound : {s t : Creates} → Overlap s t → IsSound s → IsSound t
Overlap-IsSound at_once i = i
Overlap-IsSound (after run step) i = Step-IsSound step (Overlap-IsSound run i)

-- However creates, deletes, switches and syncs overlap from a table without a double octet and with no
-- search or create under way, if each create stores its row within the 60 s of its reservation: no
-- octet stands twice in the table, no octet is pending twice, and none that is pending is in the table.
pub Overlap-IsDistinct :
    {start s : Creates}
    → start.search ≡ none
    → start.pending ≡ []
    → IsDistinct (table_octets start.clients)
    → Overlap start s
    → IsDistinct (table_octets s.clients)
      × IsDistinct (octets s.pending)
      × ((octet at : ℕ)
          → held octet at s.pending ≡ true
          → is_used octet (table_octets s.clients) ≡ false)
Overlap-IsDistinct {start} idle empty d run =
    let i = Overlap-IsSound run at_start in (i.table, i.waiting, i.apart)
  where
    nothing_held : (o at : ℕ) → held o at start.pending ≡ false
    nothing_held o at = ap (held o at) empty

    at_start : IsSound start
    at_start = record {
      table = d;
      waiting = subst (λ p. IsDistinct (octets p)) (sym empty) tt;
      apart = λ o at h. let no = nothing_held o at in absurd (cc);
      live = λ o at h. let no = nothing_held o at in absurd (cc);
      seen = λ used o e h. absurd (cc);
    }
