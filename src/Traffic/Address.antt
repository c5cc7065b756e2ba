-- ===== src/Traffic/Address.antt =====
-- The addresses of the clients in workers/traffic.worker.ts: where they are read, and a whole run.
use vpn_relay.Prelude.{
  ℕ, Text, text_eq, ◌==◌, any, map, if◌then◌else◌, Bool, true, false, not, ◌||◌, Option, none, some,
  List, [], ◌∷◌, ◌++◌,
}
use vpn_relay.Prelude.Dict.{Dict, get}
use vpn_relay.Client.Table.{
  Client, Clients, is_xray, is_hysteria2, is_present, Route, direct, relay, get_active_clients,
  update_client_ip,
}
use vpn_relay.Traffic.{
  Counters, PeerStats, Polled, Traffic, peer_of, by_pubkey, poll_clients, collect_server_eth0,
}

-- ConntrackData: the masqueraded ports, and the addresses that are connected
pub record Conntrack : Type 0 where
  pub masq_to_ip : List (ℕ × Text)
  pub connected_ips : List Text

abbrev pub no_conntrack : Conntrack
no_conntrack = record { masq_to_ip = []; connected_ips = [] }

-- What one of the two logs gives, by the name of the client.
pub record RecentIps : Type 0 where
  pub direct_ips : Dict Text
  pub relay_ports : Dict ℕ

abbrev port_ip : List (ℕ × Text) → ℕ → Option Text
port_ip [] port = none
port_ip ((p, ip) ∷ m) port = if p == port then some ip else port_ip m port

abbrev relay_ip : RecentIps → Conntrack → Text → Option Text
relay_ip recent ct name = elim (get recent.relay_ports name) [
  | none ↦ none
  | some port ↦ port_ip ct.masq_to_ip port
]

-- The client's last address, while it is still connected.
abbrev known_ip : Conntrack → Option Text → Option Text
known_ip ct none = none
known_ip ct (some ip) = if any (λ i. text_eq i ip) ct.connected_ips then some ip else none

abbrev is_empty_dict : Dict ℕ → Bool
is_empty_dict [] = true
is_empty_dict (e ∷ m) = false

-- Conntrack is asked only if a client has come over the relay, and not in standalone mode.
abbrev asked : Bool → RecentIps → Conntrack → Conntrack
asked standalone recent ct =
    if is_empty_dict recent.relay_ports || standalone then no_conntrack else ct

-- `s.lastIndexOf(":")` and the text before it
unfoldable pub before_last_colon : Text → Option Text
before_last_colon [] = none
before_last_colon (c ∷ s) = elim (before_last_colon s) [
  | some t ↦ some (c ∷ t)
  | none ↦ if c == b':' then some [] else none
]

abbrev endpoint_ip : Option PeerStats → Option Text
endpoint_ip none = none
endpoint_ip (some p) = before_last_colon p.endpoint

-- A candidate for the address, with the route that it tells.
abbrev pub Candidate : Type 0
Candidate = Option Text × Option Route

abbrev for_log : Bool → RecentIps → Conntrack → Client → List Candidate
for_log true recent ct c =
    (get recent.direct_ips c.name, some direct)
    ∷ (relay_ip recent ct c.name, some relay)
    ∷ (known_ip ct c.last_ip, some relay)
    ∷ []
for_log false recent ct c = []

abbrev pub first_present : List Candidate → Candidate
first_present [] = (none, none)
first_present ((ip, route) ∷ rest) = if is_present ip then (ip, route) else first_present rest

-- WG endpoint, then the XRay log, then the sing-box log.
unfoldable pub current_address :
    Polled → RecentIps → Conntrack → RecentIps → Conntrack → Client → Candidate
unfolding before_last_colon get text_eq
current_address polled log tcp hy2_log udp c = first_present (
    (endpoint_ip (peer_of polled c), none)
    ∷ (for_log (is_xray c.type) log tcp c ++ for_log (is_hysteria2 c.type) hy2_log udp c))

abbrev same_route : Route → Option Route → Bool
same_route direct (some direct) = true
same_route relay (some relay) = true
same_route _ _ = false

abbrev route_changed : Option Route → Option Route → Bool
route_changed none last = false
route_changed (some r) last = not (same_route r last)

pub record IpUpdate : Type 0 where
  pub id : Text
  pub ip : Text
  pub route : Option Route

abbrev same_ip : Text → Option Text → Bool
same_ip ip none = false
same_ip ip (some last) = text_eq ip last

abbrev update_for : Client → Candidate → List IpUpdate
update_for c (none, route) = []
update_for c (some [], route) = []
update_for c (some (x ∷ ip), route) =
    if not (same_ip (x ∷ ip) c.last_ip) || route_changed route c.last_connection_route
    then record { id = c.id; ip = x ∷ ip; route = route } ∷ []
    else []

unfoldable pub ip_updates :
    Polled → RecentIps → Conntrack → RecentIps → Conntrack → Clients → List IpUpdate
unfolding current_address text_eq
ip_updates polled log tcp hy2_log udp [] = []
ip_updates polled log tcp hy2_log udp (c ∷ cs) =
    update_for c (current_address polled log tcp hy2_log udp c)
    ++ ip_updates polled log tcp hy2_log udp cs

unfoldable pub apply_updates : Dict Text → List IpUpdate → Clients → Clients
unfolding update_client_ip get text_eq
apply_updates isps [] cs = cs
apply_updates isps (u ∷ us) cs =
    apply_updates isps us (update_client_ip u.id u.ip (get isps u.ip) u.route cs)

-- What the calls of a run give; `none` for a call that throws.
pub record Report : Type 0 where
  pub xray : Option (Dict Counters)
  pub hy2 : Option (Dict Counters)
  pub wg : Option (List PeerStats)
  pub log : RecentIps
  pub hy2_log : RecentIps
  pub tcp : Conntrack
  pub udp : Conntrack
  -- `lookupBatch` of services/ip-info.service.ts
  pub isps : List Text → Option (Dict Text)
  pub eth0_b : Option Counters
  pub eth0_a : Option Counters

pub record Mode : Type 0 where
  pub standalone : Bool
  pub hy2_enabled : Bool

abbrev no_log : RecentIps
no_log = record { direct_ips = []; relay_ports = [] }

abbrev ip_of : IpUpdate → Text
ip_of u = u.ip

abbrev with_isps : List IpUpdate → Option (Dict Text) → Traffic → Traffic
with_isps us none t = t
with_isps us (some isps) t = record t { clients = apply_updates isps us t.clients }

abbrev store_updates : Report → List IpUpdate → Traffic → Traffic
store_updates report [] t = t
store_updates report (u ∷ us) t = with_isps (u ∷ us) (report.isps (map ip_of (u ∷ us))) t

-- The addresses, in a `try` block of their own; `cs` are the rows that the run has read.
unfoldable pub collect_ips : Mode → Report → Polled → Clients → Traffic → Traffic
unfolding ip_updates apply_updates
collect_ips mode report polled cs t =
    let hy2_log = if mode.hy2_enabled then report.hy2_log else no_log in
    store_updates report
      (ip_updates polled report.log (asked mode.standalone report.log report.tcp) hy2_log
        (asked mode.standalone hy2_log report.udp) cs)
      t

abbrev stats_or_none : Option (List PeerStats) → List PeerStats
stats_or_none none = []
stats_or_none (some ss) = ss

abbrev polled_hy2 : Mode → Report → Option (Dict Counters)
polled_hy2 mode report = if mode.hy2_enabled then report.hy2 else some []

-- The clients' part of a run; `none` where it throws out of the run.
abbrev run_clients : Mode → Report → ℕ → Clients → Traffic → Option Traffic
run_clients mode report now [] t = some t
run_clients mode report now (c ∷ cs) t = elim report.xray [
  | none ↦ none
  | some xray ↦ elim (polled_hy2 mode report) [
    | none ↦ none
    | some hy2 ↦
        let polled : Polled = record {
          xray = xray;
          hy2 = hy2;
          peers = by_pubkey (stats_or_none report.wg) [];
        } in
        some (collect_ips mode report polled (c ∷ cs) (poll_clients now polled (c ∷ cs) t))
  ]
]

abbrev collect_or_stop : Mode → Report → ℕ → Option Traffic → Traffic → Traffic
collect_or_stop mode report now none t = t
collect_or_stop mode report now (some u) t =
    collect_server_eth0 mode.standalone now report.eth0_b report.eth0_a u

-- `run`
unfoldable pub run_traffic : Mode → Report → ℕ → Traffic → Traffic
unfolding get_active_clients poll_clients collect_ips collect_server_eth0 by_pubkey
run_traffic mode report now t =
    collect_or_stop mode report now (run_clients mode report now (get_active_clients t.clients) t) t
