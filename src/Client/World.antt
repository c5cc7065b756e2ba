-- ===== src/Client/World.antt =====
-- What the client services act on: the tables, Server A's WireGuard and conf, and the user lists of
-- XRay and sing-box (services/wg.service.ts, xray.service.ts, hysteria.service.ts and
-- xray-uplink.service.ts). The `wg` commands are the parameter `Wireguard`.
use vpn_relay.Prelude.{
  ℕ, Text, text, text_eq, ◌==◌, if◌then◌else◌, Bool, true, false, not, ◌&&◌, Option, none, some,
  List, [], ◌∷◌, ◌++◌, keep, map, ◌≡◌,
}
use vpn_relay.Wg.Conf.{DesiredPeer, is_valid_name, is_valid_pubkey, is_valid_wg_ip, ip_octet}
use vpn_relay.Wg.Alloc.{Reserved}
use vpn_relay.Client.Table.{
  Client, Clients, get_all_clients, is_wg, is_xray, is_hysteria2, is_present, get_active_clients,
  get_wg_hy2_route_clients,
}
use vpn_relay.Client.Usage.{Snapshot}

-- Live WireGuard: `wg set … peer K allowed-ips IP/32`, `wg set … peer K remove` and `wg syncconf`.
pub record Wireguard : Type 1 where
  pub State : Type 0
  pub set_peer : Text → Text → State → State
  pub remove_peer : Text → State → State
  pub sync_conf : Text → State → State
  pub allowed_ip : State → Text → Option Text
  pub allowed_ip-set_peer :
      (key ip : Text) (s : State) → allowed_ip (set_peer key ip s) key ≡ some ip
  pub allowed_ip-remove_peer :
      (key other : Text) (s : State)
      → allowed_ip (remove_peer key s) other
        ≡ (if text_eq key other then none else allowed_ip s other)

-- How a call out of the process ends: an SSH command, or the write of a file. A call that is lost has
-- no effect, one that is late has its effect and fails nevertheless.
pub data Reply : Type 0 where
  answered lost late : Reply

pub data Failure : Type 0 where
  call_failed no_inbound not_in_standalone not_wireguard no_hy2_uplink no_free_ip : Failure
  name_taken : Failure

pub record XrayUser : Type 0 where
  pub id : Text
  pub email : Text
  pub flow : Option Text

pub record Hy2User : Type 0 where
  pub name : Text
  pub password : Text

-- A rule of `routing.rules` in Server A's config.
pub data Rule : Type 0 where
  direct_to_server_b : Rule
  over_hy2 : Text → Rule
  over_vless : Rule

pub record World (State : Type 0) : Type 0 where
  pub clients : Clients
  pub snapshots : List Snapshot
  pub live : State
  -- wg-clients.conf on Server A
  pub conf : Text
  pub reserved : Reserved
  pub xray_users : List XrayUser
  pub hy2_users : List Hy2User
  pub rules : List Rule
  -- how the next calls end; a call beyond the list is answered
  pub replies : List Reply

pub record Env : Type 0 where
  pub standalone : Bool
  pub xray_wg_uplink_uuid : Text
  pub xray_flow : Text
  pub hy2_uplink_password : Text
  -- config.json has the inbound vless-in, sing-box's config has hy2-in
  pub has_vless_inbound : Bool
  pub has_hy2_inbound : Bool
  -- the outbound hy2-uplink in Server A's config
  pub has_hy2_uplink : Bool

-- `wgHy2Available` of config/standalone.ts
unfoldable pub wg_hy2_available : Env → Bool
wg_hy2_available env = not env.standalone && is_present (some env.hy2_uplink_password)

abbrev pub nonempty : Text → Option Text
nonempty [] = none
nonempty (c ∷ s) = some (c ∷ s)

abbrev pub text_or_empty : Option Text → Text
text_or_empty none = []
text_or_empty (some s) = s

abbrev has_xray : Client → Bool
has_xray c = is_xray c.type && is_present c.xray_uuid

abbrev pub xray_user : Env → Client → XrayUser
xray_user env c = record {
  id = text_or_empty c.xray_uuid;
  email = c.name ++ text "@xray";
  flow = nonempty env.xray_flow;
}

abbrev uplink_user : Text → List XrayUser
uplink_user [] = []
uplink_user (c ∷ s) = record { id = c ∷ s; email = text "wg-clients@xray"; flow = none } ∷ []

-- The list that `syncConfigJson` of xray.service.ts writes.
unfoldable pub desired_xray : Env → Clients → List XrayUser
unfolding get_active_clients
desired_xray env cs =
    uplink_user env.xray_wg_uplink_uuid
    ++ map (xray_user env) (keep has_xray (get_active_clients cs))

abbrev has_hy2 : Client → Bool
has_hy2 c = is_hysteria2 c.type && is_present c.hy2_password

abbrev pub hy2_user : Client → Hy2User
hy2_user c = record { name = c.name ++ text "@hy2"; password = text_or_empty c.hy2_password }

abbrev uplink_hy2_user : Text → List Hy2User
uplink_hy2_user [] = []
uplink_hy2_user (c ∷ s) = record { name = text "wg-clients@hy2"; password = c ∷ s } ∷ []

-- The list that `syncConfigJson` of hysteria.service.ts writes.
unfoldable pub desired_hy2 : Env → Clients → List Hy2User
unfolding get_active_clients
desired_hy2 env cs =
    uplink_hy2_user env.hy2_uplink_password ++ map hy2_user (keep has_hy2 (get_active_clients cs))

abbrev pub has_peer : Client → Bool
has_peer c = is_wg c.type && (is_present c.wg_pubkey && is_present c.wg_ip)

abbrev pub peer_of : Client → DesiredPeer
peer_of c = record {
  name = c.name;
  pubkey = text_or_empty c.wg_pubkey;
  ip = text_or_empty c.wg_ip;
  active = c.is_active;
}

abbrev pub is_valid_peer : DesiredPeer → Bool
is_valid_peer p = is_valid_name p.name && (is_valid_pubkey p.pubkey && is_valid_wg_ip p.ip)

-- The peers of rows, without the rows that are skipped.
unfoldable pub peers_of : Clients → List DesiredPeer
unfolding is_valid_name is_valid_pubkey is_valid_wg_ip
peers_of cs = keep is_valid_peer (map peer_of (keep has_peer cs))

-- `buildDesiredPeers`
unfoldable pub desired_peers : Clients → List DesiredPeer
unfolding peers_of get_all_clients
desired_peers cs = peers_of (get_all_clients cs)

abbrev hy2_rules : Clients → List Rule
hy2_rules [] = []
hy2_rules (c ∷ cs) = over_hy2 (text_or_empty c.wg_ip) ∷ hy2_rules cs

-- The rules that `syncRoutingAndRestart` wants on Server A.
unfoldable pub desired_rules : Env → Clients → List Rule
unfolding get_wg_hy2_route_clients
desired_rules env cs =
    direct_to_server_b
    ∷ ((if env.has_hy2_uplink then hy2_rules (get_wg_hy2_route_clients cs) else [])
        ++ over_vless ∷ [])

abbrev rule_eq : Rule → Rule → Bool
rule_eq direct_to_server_b direct_to_server_b = true
rule_eq over_vless over_vless = true
rule_eq (over_hy2 a) (over_hy2 b) = text_eq a b
rule_eq _ _ = false

abbrev pub rules_eq : List Rule → List Rule → Bool
rules_eq [] [] = true
rules_eq (r ∷ rs) (s ∷ ss) = rule_eq r s && rules_eq rs ss
rules_eq _ _ = false

abbrev pub forget_octet : ℕ → Reserved → Reserved
forget_octet octet [] = []
forget_octet octet ((o, at) ∷ r) =
    let rest = forget_octet octet r in if o == octet then rest else (o, at) ∷ rest

abbrev pub forget_octet? : Option ℕ → Reserved → Reserved
forget_octet? none r = r
forget_octet? (some octet) r = forget_octet octet r

-- The rows are durable, so their reservations are redundant.
abbrev pub forget_peers : List DesiredPeer → Reserved → Reserved
forget_peers [] r = r
forget_peers (p ∷ ps) r = forget_peers ps (forget_octet? (ip_octet p.ip) r)
