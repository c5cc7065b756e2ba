-- ===== src/Traffic/Metered.antt =====
-- What the polls of workers/traffic.worker.ts record of a peer's counters over many runs.
use vpn_relay.Prelude.{
  ℕ, ◌+◌, ◌≤◌, Text, text_eq, text_eq_refl, if◌then◌else◌, true, Option, none, some, List, [], ◌∷◌,
  ◌++◌, ◌≡◌, refl, sym, ap, ◌∙◌, arith,
}
use vpn_relay.Prelude.Dict.{get, get-put}
use vpn_relay.Client.Table.{Client, is_present}
use vpn_relay.Client.Usage.{Snapshot}
use vpn_relay.Client.World.{text_or_empty}
use vpn_relay.Traffic.{
  Counters, PeerStats, reading, Traffic, delta, Polled, peer_of, wg_delta, note_reading,
  poll_client,
}

-- The loop's body for one client, run after run.
pub poll_rounds : Client → List (ℕ × Polled) → Traffic → Traffic
poll_rounds c [] t = t
poll_rounds c ((now, polled) ∷ rounds) t = poll_rounds c rounds (poll_client now polled c t)

-- What the snapshots of a client hold of WireGuard: downloads and uploads.
abbrev pub wg_down : Text → List Snapshot → ℕ
wg_down id [] = 0
wg_down id (s ∷ ss) = (if text_eq s.client_id id then s.wg_rx else 0) + wg_down id ss

abbrev pub wg_up : Text → List Snapshot → ℕ
wg_up id [] = 0
wg_up id (s ∷ ss) = (if text_eq s.client_id id then s.wg_tx else 0) + wg_up id ss

-- In each round the peer is there, and neither of its counters falls below the last reading.
abbrev pub IsGrowing : Text → Counters → List (ℕ × Polled) → Type 0
IsGrowing key prev [] = Unit
IsGrowing key prev ((now, polled) ∷ rounds) =
    (p : PeerStats) × (get polled.peers key ≡ some p)
    × (p.pubkey ≡ key)
    × (prev.rx ≤ p.rx_bytes)
    × (prev.tx ≤ p.tx_bytes)
    × IsGrowing key (reading p) rounds

abbrev next_reading : Counters → Option PeerStats → Counters
next_reading prev none = prev
next_reading prev (some p) = reading p

-- The last reading of the rounds.
abbrev pub last_reading : Text → Counters → List (ℕ × Polled) → Counters
last_reading key prev [] = prev
last_reading key prev ((now, polled) ∷ rounds) =
    last_reading key (next_reading prev (get polled.peers key)) rounds

wg_down-snoc :
    (id : Text) (ss : List Snapshot) (s : Snapshot)
    → s.client_id ≡ id
    → wg_down id (ss ++ s ∷ []) ≡ wg_down id ss + s.wg_rx
wg_down-snoc id [] s e = ground (arith, text_eq_refl id)
wg_down-snoc id (r ∷ ss) s e = omega (arith, wg_down-snoc id ss s e)

wg_up-snoc :
    (id : Text) (ss : List Snapshot) (s : Snapshot)
    → s.client_id ≡ id
    → wg_up id (ss ++ s ∷ []) ≡ wg_up id ss + s.wg_tx
wg_up-snoc id [] s e = ground (arith, text_eq_refl id)
wg_up-snoc id (r ∷ ss) s e = omega (arith, wg_up-snoc id ss s e)

-- One poll of a peer whose last reading is `prev`.
record Polls (c : Client) (prev : Counters) (p : PeerStats) (t u : Traffic) : Type 0 where
  down : wg_down c.id u.snapshots + prev.tx ≡ wg_down c.id t.snapshots + p.tx_bytes
  up : wg_up c.id u.snapshots + prev.rx ≡ wg_up c.id t.snapshots + p.rx_bytes
  noted : get u.last_wg p.pubkey ≡ some (reading p)

delta-grown :
    (prev next : Counters)
    → prev.rx ≤ next.rx
    → prev.tx ≤ next.tx
    → ((delta (some prev) next).rx + prev.rx ≡ next.rx)
      × ((delta (some prev) next).tx + prev.tx ≡ next.tx)
unfolding delta
delta-grown prev next h k = ground arith

poll_client-Polls :
    (now : ℕ) (polled : Polled) (c : Client) (prev : Counters) (p : PeerStats) (t : Traffic)
    → peer_of polled c ≡ some p
    → get t.last_wg p.pubkey ≡ some prev
    → prev.rx ≤ p.rx_bytes
    → prev.tx ≤ p.tx_bytes
    → Polls c prev p t (poll_client now polled c t)
unfolding poll_client
poll_client-Polls now polled c prev p t here last rx tx =
    let same : wg_delta t.last_wg (peer_of polled c) ≡ delta (some prev) (reading p) =
      ap (wg_delta t.last_wg) here ∙ ap (λ o. delta o (reading p)) last in
    let grown = delta-grown prev (reading p) rx tx in
    record {
      down = omega (arith, wg_down-snoc c.id t.snapshots _ refl, ap (λ k. k.tx) same, grown.1);
      up = omega (arith, wg_up-snoc c.id t.snapshots _ refl, ap (λ k. k.rx) same, grown.0);
      noted =
          ap (λ o. get (note_reading t.last_wg o) p.pubkey) here
          ∙ get-put t.last_wg p.pubkey p.pubkey (reading p)
          ∙ ap (λ b. if b then some (reading p) else get t.last_wg p.pubkey)
              (text_eq_refl p.pubkey);
    }

-- Of a client with a key no byte is lost or counted twice: over any number of polls at which its peer
-- is there and no counter falls, what the snapshots record of WireGuard grows by exactly what the
-- counters have grown since the last reading, what the server sends counting as the client's
-- download.
pub poll_rounds-exact :
    (c : Client) (rounds : List (ℕ × Polled)) (prev : Counters) (t : Traffic)
    → is_present c.wg_pubkey ≡ true
    → get t.last_wg (text_or_empty c.wg_pubkey) ≡ some prev
    → IsGrowing (text_or_empty c.wg_pubkey) prev rounds
    → let key = text_or_empty c.wg_pubkey in
      let after = poll_rounds c rounds t in
      (wg_down c.id after.snapshots + prev.tx
        ≡ wg_down c.id t.snapshots + (last_reading key prev rounds).tx)
      × (wg_up c.id after.snapshots + prev.rx
          ≡ wg_up c.id t.snapshots + (last_reading key prev rounds).rx)
unfolding poll_rounds
poll_rounds-exact c [] prev t present last growing = (refl, refl)
poll_rounds-exact c ((now, polled) ∷ rounds) prev t present last (p, found, named, rx, tx, more) =
    let key = text_or_empty c.wg_pubkey in
    let here : peer_of polled c ≡ some p =
      ap (λ b. if b then get polled.peers key else none) present ∙ found in
    let polls =
      poll_client-Polls now polled c prev p t here (ap (get t.last_wg) named ∙ last) rx tx in
    let noted : get (poll_client now polled c t).last_wg key ≡ some (reading p) =
      ap (get (poll_client now polled c t).last_wg) (sym named) ∙ polls.noted in
    let rest =
      poll_rounds-exact c rounds (reading p) (poll_client now polled c t) present noted more in
    let same : next_reading prev (get polled.peers key) ≡ reading p =
      ap (next_reading prev) found in
    let final : last_reading key prev ((now, polled) ∷ rounds)
        ≡ last_reading key (reading p) rounds =
      ap (λ k. last_reading key k rounds) same in
    let final_tx = ap (λ k. k.tx) final in
    let final_rx = ap (λ k. k.rx) final in
    let down = polls.down in
    let up = polls.up in
    let rest_down = rest.0 in let rest_up = rest.1 in (omega arith, omega arith)
