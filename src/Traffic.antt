-- ===== src/Traffic.antt =====
-- workers/traffic.worker.ts: one run. What the calls give is the record `Polled`; the clients' and the
-- servers' counters are numbers of bytes.
pub mod Address
pub mod Metered
use vpn_relay.Prelude.{
  ℕ, ◌+◌, ◌-◌, ◌*◌, ◌/◌, Text, text_eq, ltb, leb, if◌then◌else◌, Bool, true, false, not, ◌&&◌, ◌||◌,
  Option, none, some, List, [], ◌∷◌, ◌++◌,
}
use vpn_relay.Prelude.Dict.{Dict, get, put, remove}
use vpn_relay.Client.Table.{
  Client, Clients, is_hysteria2, is_present, get_active_clients, update_client, update_last_seen,
}
use vpn_relay.Client.Usage.{Snapshot}
use vpn_relay.Client.World.{text_or_empty}

pub record Counters : Type 0 where
  pub rx : ℕ
  pub tx : ℕ

abbrev pub nothing : Counters
nothing = record { rx = 0; tx = 0 }

-- WgPeerStats of services/wg.service.ts; `latest_handshake` is in seconds
pub record PeerStats : Type 0 where
  pub pubkey : Text
  pub endpoint : Text
  pub latest_handshake : ℕ
  pub rx_bytes : ℕ
  pub tx_bytes : ℕ

abbrev pub reading : PeerStats → Counters
reading p = record { rx = p.rx_bytes; tx = p.tx_bytes }

pub data Server : Type 0 where
  server_a server_b : Server

pub record ServerSnapshot : Type 0 where
  pub server_id : Server
  pub ts : ℕ
  pub rx_bytes : ℕ
  pub tx_bytes : ℕ

pub record Traffic : Type 0 where
  pub clients : Clients
  pub snapshots : List Snapshot
  pub server_snapshots : List ServerSnapshot
  -- `lastWg`, and the two entries of `lastEth0`
  pub last_wg : Dict Counters
  pub last_a : Option Counters
  pub last_b : Option Counters

abbrev pub has_grown : Counters → Counters → Bool
has_grown prev next = leb prev.rx next.rx && leb prev.tx next.tx

-- What a reading adds: nothing after a reset of either counter, or at the first reading.
unfoldable pub delta : Option Counters → Counters → Counters
delta none next = nothing
delta (some prev) next =
    if has_grown prev next
    then record { rx = next.rx - prev.rx; tx = next.tx - prev.tx }
    else nothing

-- `new Map(wgStats.map((s) => [s.pubkey, s]))`
unfoldable pub by_pubkey : List PeerStats → Dict PeerStats → Dict PeerStats
unfolding put remove text_eq
by_pubkey [] acc = acc
by_pubkey (s ∷ ss) acc = by_pubkey ss (put acc s.pubkey s)

-- The counters since the last poll of XRay and of sing-box, by the name of the client (rx is what
-- the client downloads), and WireGuard's totals by public key.
pub record Polled : Type 0 where
  pub xray : Dict Counters
  pub hy2 : Dict Counters
  pub peers : Dict PeerStats

-- `client.wg_pubkey ? wgByPubkey.get(client.wg_pubkey) : undefined`
abbrev pub peer_of : Polled → Client → Option PeerStats
peer_of polled c =
    if is_present c.wg_pubkey then get polled.peers (text_or_empty c.wg_pubkey) else none

abbrev pub or_nothing : Option Counters → Counters
or_nothing none = nothing
or_nothing (some k) = k

abbrev pub wg_delta : Dict Counters → Option PeerStats → Counters
wg_delta last none = nothing
wg_delta last (some p) = delta (get last p.pubkey) (reading p)

abbrev pub note_reading : Dict Counters → Option PeerStats → Dict Counters
note_reading last none = last
note_reading last (some p) = put last p.pubkey (reading p)

abbrev pub hy2_delta : Polled → Client → Counters
hy2_delta polled c = if is_hysteria2 c.type then or_nothing (get polled.hy2 c.name) else nothing

-- WireGuard's counters are the server's: what it sends is what the client downloads.
abbrev pub snapshot_of : ℕ → Client → Counters → Counters → Counters → Snapshot
snapshot_of now c wg xray hy2 = record {
  client_id = c.id;
  ts = now / 1000;
  wg_rx = wg.tx;
  wg_tx = wg.rx;
  xray_rx = xray.rx;
  xray_tx = xray.tx;
  hy2_rx = hy2.rx;
  hy2_tx = hy2.tx;
}

abbrev is_some_traffic : Counters → Bool
is_some_traffic k = ltb 0 k.rx || ltb 0 k.tx

-- A handshake in the last 15 minutes.
abbrev is_recent : ℕ → Option PeerStats → Bool
is_recent now none = false
is_recent now (some p) = ltb 0 p.latest_handshake && ltb now (p.latest_handshake * 1000 + 900000)

abbrev was_seen : ℕ → Counters → Counters → Counters → Option PeerStats → Bool
was_seen now wg xray hy2 peer =
    (is_some_traffic wg || (is_some_traffic xray || is_some_traffic hy2)) || is_recent now peer

-- The body of the loop over the clients.
unfoldable pub poll_client : ℕ → Polled → Client → Traffic → Traffic
unfolding get put remove text_eq delta update_last_seen
poll_client now polled c t =
    let peer = peer_of polled c in
    let wg = wg_delta t.last_wg peer in
    let xray = or_nothing (get polled.xray c.name) in
    let hy2 = hy2_delta polled c in
    record t {
      clients =
          if was_seen now wg xray hy2 peer then update_last_seen now c.id t.clients else t.clients;
      snapshots = t.snapshots ++ snapshot_of now c wg xray hy2 ∷ [];
      last_wg = note_reading t.last_wg peer;
    }

unfoldable pub poll_clients : ℕ → Polled → Clients → Traffic → Traffic
unfolding poll_client
poll_clients now polled [] t = t
poll_clients now polled (c ∷ cs) t = poll_clients now polled cs (poll_client now polled c t)

abbrev server_rows : ℕ → Server → Option Counters → Option Counters → List ServerSnapshot
server_rows now server last none = []
server_rows now server none (some next) = []
server_rows now server (some prev) (some next) =
    if has_grown prev next
    then record {
      server_id = server;
      ts = now / 1000;
      rx_bytes = next.rx - prev.rx;
      tx_bytes = next.tx - prev.tx;
    }
      ∷ []
    else []

abbrev or_last : Option Counters → Option Counters → Option Counters
or_last last none = last
or_last last (some next) = some next

-- `collectServerEth0`; a reading is `none` where it cannot be had
unfoldable pub collect_server_eth0 :
    Bool → ℕ → Option Counters → Option Counters → Traffic → Traffic
collect_server_eth0 standalone now b a t =
    let remote = if standalone then none else a in
    record t {
      server_snapshots =
          t.server_snapshots
          ++ (server_rows now server_b t.last_b b ++ server_rows now server_a t.last_a remote);
      last_b = or_last t.last_b b;
      last_a = or_last t.last_a remote;
    }
