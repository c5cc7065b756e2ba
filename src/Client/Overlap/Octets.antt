-- ===== src/Client/Overlap/Octets.antt =====
-- Lemmas on octets: in reservations, in the table and in what a sync forgets.
use vpn_relay.Prelude.{
  ℕ, zero, suc, ◌+◌, ◌≤◌, ◌<◌, ◌==◌, ◌&&◌, ◌||◌, leb, Text, text_eq, Bool, Bool-cases, inl, inr,
  true, false, Option, none, some, List, [], ◌∷◌, ◌++◌, any, ◌≡◌, refl, sym, ap, ◌∙◌, subst, arith,
  decimal,
}
use vpn_relay.Wg.Conf.{DesiredPeer, net_dot, ip_octet}
use vpn_relay.Wg.Alloc.{
  Reserved, table_octets, octet_of_ip, sweep, octets, is_used, reserve, reservation_ttl_ms,
}
use vpn_relay.Wg.Alloc.Fresh.{is_used-append}
use vpn_relay.Client.Table.{
  Client, Clients, get_all_clients, insert_newest, is_present, delete_client_row, set_client_active,
  update_client, with_active, Reason,
}
use vpn_relay.Client.World.{
  desired_peers, peers_of, forget_peers, forget_octet, forget_octet?, text_or_empty, has_peer,
  peer_of, is_valid_peer,
}
use vpn_relay.Client.Overlap.{held, leave, append_assoc}

-- No octet stands in the list twice.
abbrev pub IsDistinct : List ℕ → Type 0
IsDistinct [] = Unit
IsDistinct (x ∷ xs) = (is_used x xs ≡ false) × IsDistinct xs

pub IsDistinct-snoc :
    (xs : List ℕ) (x : ℕ) → IsDistinct xs → is_used x xs ≡ false → IsDistinct (xs ++ x ∷ [])
IsDistinct-snoc [] x d h = (refl, tt)
IsDistinct-snoc (y ∷ xs) x d h =
    (ground (arith, is_used-append y xs (x ∷ []), d.0), IsDistinct-snoc xs x d.1 (ground arith))

abbrev is_only : ℕ → List ℕ → Bool
is_only o (x ∷ []) = x == o
is_only o _ = false

-- The address of an octet is read back as this octet.
abbrev reads_back : ℕ → Bool
reads_back o = is_only o (octet_of_ip (some (net_dot ++ decimal o)))

abbrev all_read_back : ℕ → ℕ → Bool
all_read_back zero i = true
all_read_back (suc n) i = reads_back i && all_read_back n (i + 1)

range_reads_back : all_read_back 253 2 ≡ true
unfolding ip_octet decimal
range_reads_back = refl

is_only-≡ : (o : ℕ) (xs : List ℕ) → is_only o xs ≡ true → xs ≡ o ∷ []
is_only-≡ o [] h = absurd (cc)
is_only-≡ o (x ∷ []) h = let e : x ≡ o = ground arith in ap (λ y. y ∷ []) e
is_only-≡ o (x ∷ y ∷ xs) h = absurd (cc)

all_read_back-at : (n i o : ℕ) → all_read_back n i ≡ true → i ≤ o → o < i + n → reads_back o ≡ true
all_read_back-at zero i o h lo hi = absurd (omega arith)
all_read_back-at (suc n) i o h lo hi = elim (Bool-cases (i == o)) [
  | inl e ↦ let same : i ≡ o = ground arith in subst (λ x. reads_back x ≡ true) same (ground arith)
  | inr e ↦ all_read_back-at n (i + 1) o (ground arith) (ground arith) (omega arith)
]

pub octet_of_ip-address :
    (o : ℕ) → 2 ≤ o → o < 255 → octet_of_ip (some (net_dot ++ decimal o)) ≡ o ∷ []
octet_of_ip-address o lo hi =
    is_only-≡ o _ (all_read_back-at 253 2 o range_reads_back lo (omega arith))

pub held-is_used : (o at : ℕ) (r : Reserved) → held o at r ≡ true → is_used o (octets r) ≡ true
held-is_used o at [] h = absurd (cc)
held-is_used o at ((u, t) ∷ r) h = ground (arith, held-is_used o at r)

pub held-sweep :
    (o at now : ℕ) (r : Reserved)
    → held o at r ≡ true
    → now ≤ at + reservation_ttl_ms
    → held o at (sweep now r) ≡ true
unfolding sweep
held-sweep o at now [] h soon = h
held-sweep o at now ((u, t) ∷ r) h soon = ground (arith, held-sweep o at now r)

pub held-reserve : (o at : ℕ) (r : Reserved) → held o at (reserve o at r) ≡ true
held-reserve o at [] = ground arith
held-reserve o at ((u, t) ∷ r) = ground (arith, held-reserve o at r)

pub held-reserve_other :
    (o at x t : ℕ) (r : Reserved)
    → held o at r ≡ true
    → (x == o) ≡ false
    → held o at (reserve x t r) ≡ true
held-reserve_other o at x t [] h n = absurd (cc)
held-reserve_other o at x t ((u, v) ∷ r) h n = ground (arith, held-reserve_other o at x t r)

pub held-leave :
    (o at x : ℕ) (r : Reserved)
    → held o at (leave x r) ≡ true
    → (held o at r ≡ true) × ((x == o) ≡ false)
held-leave o at x [] h = absurd (cc)
held-leave o at x ((u, t) ∷ r) h = ground (arith, held-leave o at x r)

pub is_used-leave :
    (o x : ℕ) (r : Reserved) → is_used o (octets (leave x r)) ≡ true → is_used o (octets r) ≡ true
is_used-leave o x [] h = h
is_used-leave o x ((u, t) ∷ r) h = ground (arith, is_used-leave o x r)

pub leave-IsDistinct :
    (x : ℕ) (r : Reserved) → IsDistinct (octets r) → IsDistinct (octets (leave x r))
leave-IsDistinct x [] d = tt
leave-IsDistinct x ((u, t) ∷ r) d = elim (Bool-cases (u == x)) [
  | inl e ↦ rw e (leave-IsDistinct x r d.1)
  | inr n ↦ rw n (ground (arith, is_used-leave u x r, d.0), leave-IsDistinct x r d.1)
]

pub is_used-held :
    (o : ℕ) (r : Reserved) → is_used o (octets r) ≡ true → (t : ℕ) × (held o t r ≡ true)
is_used-held o [] h = absurd (cc)
is_used-held o ((u, t) ∷ r) h = elim (Bool-cases (u == o)) [
  | inl e ↦ (t, ground arith)
  | inr n ↦ let (v, k) = is_used-held o r (ground arith) in (v, ground arith)
]

held-forget_octet :
    (o at x : ℕ) (r : Reserved)
    → held o at r ≡ true
    → (x == o) ≡ false
    → held o at (forget_octet x r) ≡ true
held-forget_octet o at x [] h n = absurd (cc)
held-forget_octet o at x ((u, t) ∷ r) h n = ground (arith, held-forget_octet o at x r)

abbrev is_octet : ℕ → Option ℕ → Bool
is_octet o none = false
is_octet o (some x) = x == o

held-forget_octet? :
    (o at : ℕ) (x : Option ℕ) (r : Reserved)
    → held o at r ≡ true
    → is_octet o x ≡ false
    → held o at (forget_octet? x r) ≡ true
held-forget_octet? o at none r h n = h
held-forget_octet? o at (some x) r h n = held-forget_octet o at x r h n

abbrev has_octet : ℕ → List DesiredPeer → Bool
has_octet o = any (λ p. is_octet o (ip_octet p.ip))

pub held-forget_peers :
    (o at : ℕ) (ps : List DesiredPeer) (r : Reserved)
    → held o at r ≡ true
    → has_octet o ps ≡ false
    → held o at (forget_peers ps r) ≡ true
held-forget_peers o at [] r h n = h
held-forget_peers o at (p ∷ ps) r h n =
    held-forget_peers o at ps (forget_octet? (ip_octet p.ip) r)
      (held-forget_octet? o at (ip_octet p.ip) r h (ground arith)) (ground arith)

is_octet-octet_of_ip :
    (o : ℕ) (ip : Option Text)
    → is_present ip ≡ true
    → is_used o (octet_of_ip ip) ≡ false
    → is_octet o (ip_octet (text_or_empty ip)) ≡ false
is_octet-octet_of_ip o none h n = absurd (cc)
is_octet-octet_of_ip o (some ip) h n = ground arith

is_octet-octet_of :
    (o : ℕ) (c : Client)
    → has_peer c ≡ true
    → is_used o (octet_of_ip c.wg_ip) ≡ false
    → is_octet o (ip_octet (peer_of c).ip) ≡ false
is_octet-octet_of o c h n = is_octet-octet_of_ip o c.wg_ip (ground arith) n

-- A sync forgets the octets of the table only.
has_octet-peers_of :
    (o : ℕ) (cs : Clients) → is_used o (table_octets cs) ≡ false → has_octet o (peers_of cs) ≡ false
unfolding peers_of table_octets
has_octet-peers_of o [] n = refl
has_octet-peers_of o (c ∷ cs) n =
    let parts = is_used-append o (octet_of_ip c.wg_ip) (table_octets cs) in
    let rest = has_octet-peers_of o cs (ground (arith, parts)) in
    elim (Bool-cases (has_peer c)) [
      | inl e ↦
          let here = is_octet-octet_of o c e (ground (arith, parts)) in
          elim (Bool-cases (is_valid_peer (peer_of c))) [
            | inl v ↦ rw e (rw v (ground (arith, here, rest)))
            | inr v ↦ rw e (rw v rest)
          ]
      | inr e ↦ rw e rest
    ]

is_used-insert_newest :
    (o : ℕ) (c : Client) (cs : Clients)
    → is_used o (table_octets (insert_newest c cs)) ≡ is_used o (table_octets (c ∷ cs))
unfolding table_octets
is_used-insert_newest o c [] = refl
is_used-insert_newest o c (d ∷ ds) = elim (Bool-cases (leb d.created_at c.created_at)) [
  | inl e ↦ rw e refl
  | inr n ↦ rw n (
      ground (
        arith,
        is_used-insert_newest o c ds,
        is_used-append o (octet_of_ip d.wg_ip) (table_octets (insert_newest c ds)),
        is_used-append o (octet_of_ip d.wg_ip) (table_octets ds),
        is_used-append o (octet_of_ip c.wg_ip) (table_octets ds),
        is_used-append o (octet_of_ip c.wg_ip) (octet_of_ip d.wg_ip ++ table_octets ds),
      ))
]

is_used-get_all_clients :
    (o : ℕ) (cs : Clients)
    → is_used o (table_octets (get_all_clients cs)) ≡ is_used o (table_octets cs)
unfolding get_all_clients table_octets
is_used-get_all_clients o [] = refl
is_used-get_all_clients o (c ∷ cs) =
    is_used-insert_newest o c (get_all_clients cs)
    ∙ is_used-append o (octet_of_ip c.wg_ip) (table_octets (get_all_clients cs))
    ∙ ap (λ b. is_used o (octet_of_ip c.wg_ip) || b) (is_used-get_all_clients o cs)
    ∙ sym (is_used-append o (octet_of_ip c.wg_ip) (table_octets cs))

pub has_octet-desired_peers :
    (o : ℕ) (cs : Clients)
    → is_used o (table_octets cs) ≡ false
    → has_octet o (desired_peers cs) ≡ false
unfolding desired_peers
has_octet-desired_peers o cs n =
    has_octet-peers_of o (get_all_clients cs) (is_used-get_all_clients o cs ∙ n)

pub table_octets-append :
    (cs ds : Clients) → table_octets (cs ++ ds) ≡ table_octets cs ++ table_octets ds
unfolding table_octets
table_octets-append [] ds = refl
table_octets-append (c ∷ cs) ds =
    ap (λ l. octet_of_ip c.wg_ip ++ l) (table_octets-append cs ds)
    ∙ sym (append_assoc (octet_of_ip c.wg_ip) (table_octets cs) (table_octets ds))

pub table_octets-set_client_active :
    (id : Text) (active : Bool) (reason : Option Reason) (cs : Clients)
    → table_octets (set_client_active id active reason cs) ≡ table_octets cs
unfolding set_client_active update_client table_octets
table_octets-set_client_active id active reason [] = refl
table_octets-set_client_active id active reason (c ∷ cs) =
    let rest = table_octets-set_client_active id active reason cs in
    elim (Bool-cases (text_eq c.id id)) [
      | inl e ↦ rw e (rw rest (same_ip active))
      | inr e ↦ rw e (ap (λ l. octet_of_ip c.wg_ip ++ l) rest)
    ]
  where
    same_ip :
        (b : Bool)
        → octet_of_ip (with_active b reason c).wg_ip ++ table_octets cs
          ≡ octet_of_ip c.wg_ip ++ table_octets cs
    same_ip true = refl
    same_ip false = refl

pub is_used-delete_client_row :
    (o : ℕ) (id : Text) (cs : Clients)
    → is_used o (table_octets (delete_client_row id cs)) ≡ true
    → is_used o (table_octets cs) ≡ true
unfolding delete_client_row table_octets
is_used-delete_client_row o id [] h = h
is_used-delete_client_row o id (c ∷ cs) h =
    let rest = is_used-delete_client_row o id cs in
    let all = is_used-append o (octet_of_ip c.wg_ip) (table_octets cs) in
    let left = is_used-append o (octet_of_ip c.wg_ip) (table_octets (delete_client_row id cs)) in
    ground (arith, rest, all, left)

pub IsDistinct-shrink :
    (xs ys zs : List ℕ)
    → ((o : ℕ) → is_used o zs ≡ true → is_used o ys ≡ true)
    → IsDistinct (xs ++ ys)
    → IsDistinct zs
    → IsDistinct (xs ++ zs)
IsDistinct-shrink [] ys zs h d k = k
IsDistinct-shrink (x ∷ xs) ys zs h d k = (
  ground (arith, is_used-append x xs ys, is_used-append x xs zs, h x, d.0),
  IsDistinct-shrink xs ys zs h d.1 k,
)

IsDistinct-right : (xs ys : List ℕ) → IsDistinct (xs ++ ys) → IsDistinct ys
IsDistinct-right [] ys d = d
IsDistinct-right (x ∷ xs) ys d = IsDistinct-right xs ys d.1

pub delete_client_row-IsDistinct :
    (id : Text) (cs : Clients)
    → IsDistinct (table_octets cs)
    → IsDistinct (table_octets (delete_client_row id cs))
unfolding delete_client_row table_octets
delete_client_row-IsDistinct id [] d = d
delete_client_row-IsDistinct id (c ∷ cs) d =
    let rest =
      delete_client_row-IsDistinct id cs
        (IsDistinct-right (octet_of_ip c.wg_ip) (table_octets cs) d) in
    elim (Bool-cases (text_eq c.id id)) [
      | inl e ↦ rw e rest
      | inr e ↦ rw e (
          IsDistinct-shrink (octet_of_ip c.wg_ip) (table_octets cs)
            (table_octets (delete_client_row id cs)) (λ o. is_used-delete_client_row o id cs) d
            rest)
    ]
