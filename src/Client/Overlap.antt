-- ===== src/Client/Overlap.antt =====
-- Creates that overlap: `findFreeIp` of services/wg.service.ts is split at its await, between the read of
-- the table with the sweep, and the choice; its mutex lets one search run at a time. Between the answer and
-- the row that `createClient` inserts, other creates, deletes and syncs may come.
pub mod Octets
pub mod Distinct
use vpn_relay.Prelude.{
  ℕ, ◌+◌, ◌≤◌, ◌==◌, ◌||◌, ◌&&◌, Text, Bool, true, false, Option, none, some, List, [], ◌∷◌, ◌++◌,
  ◌≡◌, refl, if◌then◌else◌, decimal, ap, sym, ◌∙◌,
}
use vpn_relay.Wg.Conf.{wg_ip_start, net_dot}
use vpn_relay.Wg.Alloc.{
  Reserved, table_octets, sweep, octets, conf_octets, used_octets, is_used, first_free, reserve,
  reserve_found, reservation_ttl_ms, find_free_ip,
}
use vpn_relay.Client.Table.{Client, Clients, delete_client_row, set_client_active, Reason}
use vpn_relay.Client.World.{desired_peers, forget_peers}

pub record Creates : Type 0 where
  pub clients : Clients
  pub reserved : Reserved
  -- what the search that waits for the conf has found used
  pub search : Option (List ℕ)
  -- the octets that were answered and have no row yet, with the times of the answers
  pub pending : List (ℕ × ℕ)
  pub now : ℕ

-- Whether the octet is reserved, or pending, since `at`.
abbrev pub held : ℕ → ℕ → List (ℕ × ℕ) → Bool
held octet at [] = false
held octet at ((o, t) ∷ r) = (o == octet && t == at) || held octet at r

abbrev pub leave : ℕ → List (ℕ × ℕ) → List (ℕ × ℕ)
leave octet [] = []
leave octet ((o, t) ∷ r) = if o == octet then leave octet r else (o, t) ∷ leave octet r

-- `findFreeIp` up to the await
unfoldable pub begin_search : Creates → Creates
unfolding table_octets sweep
begin_search s =
    let r = sweep s.now s.reserved in
    record s { reserved = r; search = some (table_octets s.clients ++ octets r) }

abbrev pub choose : List ℕ → Option Text → Option ℕ
choose used conf = first_free 253 wg_ip_start (used ++ conf_octets conf)

abbrev pub answer : Creates → Option ℕ → Creates
answer s none = record s { search = none }
answer s (some octet) = record s {
  reserved = reserve octet s.now s.reserved;
  search = none;
  pending = (octet, s.now) ∷ s.pending;
}

-- `findFreeIp` behind the await
unfoldable pub end_search : List ℕ → Option Text → Creates → Creates
unfolding first_free
end_search used conf s = answer s (choose used conf)

abbrev pub store : Client → ℕ → Creates → Creates
store c octet s = record s { clients = s.clients ++ c ∷ []; pending = leave octet s.pending }

-- What may happen next. A create that stores its row does so within the 60 s of its reservation: time
-- passes no further while it is pending.
pub data Step (s : Creates) : Creates → Type 0 where
  begins : s.search ≡ none → Step s (begin_search s)
  ends :
      (used : List ℕ) (conf : Option Text) → s.search ≡ some used → Step s (end_search used conf s)
  stores :
      (c : Client) (octet at : ℕ)
      → held octet at s.pending ≡ true
      → c.wg_ip ≡ some (net_dot ++ decimal octet)
      → Step s (store c octet s)
  stores_other : (c : Client) → c.wg_ip ≡ none → Step s (record s { clients = s.clients ++ c ∷ [] })
  gives_up : (octet : ℕ) → Step s (record s { pending = leave octet s.pending })
  syncs : Step s (record s { reserved = forget_peers (desired_peers s.clients) s.reserved })
  deletes : (id : Text) → Step s (record s { clients = delete_client_row id s.clients })
  switches :
      (id : Text) (active : Bool) (reason : Option Reason)
      → Step s (record s { clients = set_client_active id active reason s.clients })
  passes :
      (later : ℕ)
      → s.now ≤ later
      → ((octet at : ℕ) → held octet at s.pending ≡ true → later ≤ at + reservation_ttl_ms)
      → Step s (record s { now = later })

-- What may come of the state.
pub data Overlap (start : Creates) : Creates → Type 0 where
  at_once : Overlap start start
  after : {before next : Creates} → Overlap start before → Step before next → Overlap start next

append_assoc : (xs ys zs : List ℕ) → (xs ++ ys) ++ zs ≡ xs ++ (ys ++ zs)
append_assoc [] ys zs = refl
append_assoc (x ∷ xs) ys zs = ap (λ l. x ∷ l) (append_assoc xs ys zs)

-- With nothing in between the two halves are `find_free_ip`.
find_free_ip-halves :
    (s : Creates) (conf : Option Text)
    → (end_search
        (table_octets s.clients ++ octets (sweep s.now s.reserved))
        conf
        (begin_search s)).reserved
      ≡ (find_free_ip s.clients s.reserved conf s.now s.now).1
unfolding begin_search end_search find_free_ip used_octets
find_free_ip-halves s conf =
    let table = table_octets s.clients in
    let swept = sweep s.now s.reserved in
    let same = append_assoc table (octets swept) (conf_octets conf) in
    same_reserved s.now s.pending s.clients (some (table ++ octets swept)) swept _ _
      (ap (first_free 253 wg_ip_start) same)
  where
    same_reserved :
        (now : ℕ) (pending : List (ℕ × ℕ)) (clients : Clients) (search : Option (List ℕ))
        (r : Reserved) (x y : Option ℕ)
        → x ≡ y
        → (answer
            (record {
              clients = clients;
              reserved = r;
              search = search;
              pending = pending;
              now = now;
            })
            x).reserved
          ≡ (reserve_found now r y).1
    same_reserved now pending clients search r none none h = refl
    same_reserved now pending clients search r none (some b) h = absurd (cc)
    same_reserved now pending clients search r (some a) none h = absurd (cc)
    same_reserved now pending clients search r (some a) (some b) h = cc
