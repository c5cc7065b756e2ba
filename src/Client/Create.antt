-- ===== src/Client/Create.antt =====
-- `createClient` of services/client.service.ts with `addClient` of wg.service.ts. What is random or
-- generated, the ids, keys and tokens, is the record `Fresh`.
pub mod Keeps
pub mod Created
use vpn_relay.Prelude.{
  ℕ, zero, suc, ◌+◌, ◌*◌, ◌/◌, Text, text, text_eq, decimal, any, if◌then◌else◌, Bool, true, false,
  not, ◌&&◌, ◌||◌, Option, none, some, List, [], ◌∷◌, ◌++◌,
}
use vpn_relay.Prelude.Result.{Result, ok, err}
use vpn_relay.Wg.Conf.{net_dot}
use vpn_relay.Wg.Alloc.{Reserved, find_free_ip}
use vpn_relay.Client.Table.{
  Expiry, iso, Client, Clients, ClientType, Transport, over_xray, is_wg, is_xray, is_hysteria2,
  routes_over_hy2, is_subscription_capable,
}
use vpn_relay.Client.World.{
  Wireguard, World, Env, Reply, answered, lost, late, Failure, not_in_standalone, no_free_ip,
  name_taken, wg_hy2_available,
}
use vpn_relay.Client.Commands.{
  Command, ◌>>◌, done, throw, when, change, call, require_cascade, sync_xray, sync_hysteria,
  sync_peers_from_db, sync_routing,
}

pub record Order : Type 0 where
  pub name : Text
  pub type : ClientType
  pub ttl_days : Option ℕ
  pub daily_quota_gb : Option ℕ
  pub monthly_quota_gb : Option ℕ
  pub transport : Transport

pub record Fresh : Type 0 where
  pub id : Text
  pub pubkey : Text
  pub xray_uuid : Text
  pub hy2_password : Text
  pub sub_token : Text
  -- Date.now() when the create begins, when findFreeIp sweeps and when it reserves
  pub now : ℕ
  pub swept_at : ℕ
  pub reserved_at : ℕ

-- `ttlDays ? … : null`
abbrev pub expiry : ℕ → Option ℕ → Option Expiry
expiry now none = none
expiry now (some zero) = none
expiry now (some (suc days)) = some (iso (now + suc days * 86400000))

abbrev pub effective_transport : Env → Transport → Transport
effective_transport env t = if routes_over_hy2 t && not (wg_hy2_available env) then over_xray else t

-- The address and the key of a WireGuard client.
abbrev pub Peer : Type 0
Peer = Option Text × Option Text

abbrev token_if : Bool → Text → Option Text
token_if true token = some token
token_if false token = none

-- The row that is inserted.
unfoldable pub new_client : Env → Order → Fresh → Peer → Client
unfolding wg_hy2_available is_subscription_capable
new_client env order fresh (wg_ip, wg_pubkey) =
    let xray_uuid = token_if (is_xray order.type) fresh.xray_uuid in
    let hy2_password = token_if (is_hysteria2 order.type) fresh.hy2_password in
    record {
      id = fresh.id;
      name = order.name;
      type = order.type;
      wg_ip = wg_ip;
      wg_pubkey = wg_pubkey;
      xray_uuid = xray_uuid;
      hy2_password = hy2_password;
      created_at = fresh.now / 1000;
      expires_at = expiry fresh.now order.ttl_days;
      is_active = true;
      daily_quota_gb = order.daily_quota_gb;
      monthly_quota_gb = order.monthly_quota_gb;
      suspend_reason = none;
      wg_cascade_transport = effective_transport env order.transport;
      sub_token =
          token_if (is_subscription_capable order.type xray_uuid hy2_password) fresh.sub_token;
      last_seen_at = none;
      last_ip = none;
      last_ip_isp = none;
      last_connection_route = none;
    }

abbrev same_token : Option Text → Option Text → Bool
same_token (some s) (some t) = text_eq s t
same_token _ _ = false

abbrev pub clashes : Client → Client → Bool
clashes c d = text_eq c.id d.id || (text_eq c.name d.name || same_token c.sub_token d.sub_token)

-- `insertClient`; id, name and sub_token are UNIQUE
unfoldable pub insert_client : {S : Type 0} → Client → Command S
unfolding text_eq
insert_client c w =
    if any (clashes c) w.clients
    then (w, some name_taken)
    else (record w { clients = w.clients ++ c ∷ [] }, none)

module _ {S : Type 0} where
  -- The conf, or none if the call fails.
  abbrev pub read_conf_on : List Reply → World S → Option Text × World S
  read_conf_on [] w = (some w.conf, w)
  read_conf_on (answered ∷ r) w = (some w.conf, record w { replies = r })
  read_conf_on (lost ∷ r) w = (none, record w { replies = r })
  read_conf_on (late ∷ r) w = (none, record w { replies = r })

  abbrev pub read_conf : World S → Option Text × World S
  read_conf w = read_conf_on w.replies w

  abbrev pub with_address : World S → Option ℕ × Reserved → World S × Result Failure Text
  with_address w (none, reserved) = (record w { reserved = reserved }, err no_free_ip)
  with_address w (some octet, reserved) =
      (record w { reserved = reserved }, ok (net_dot ++ decimal octet))

  -- `findFreeIp` on the world.
  abbrev pub allocate : Fresh → World S → World S × Result Failure Text
  allocate fresh w =
      let (conf, v) = read_conf w in
      with_address v (find_free_ip v.clients v.reserved conf fresh.swept_at fresh.reserved_at)

  abbrev pub then_with :
      (World S × Result Failure Text) → (Text → Command S) → World S × Option Failure
  then_with (w, err e) next = (w, some e)
  then_with (w, ok ip) next = next ip w

module _ (wg : Wireguard) (env : Env) where
  open wg use {State, set_peer}

  abbrev pub after_keys : Fresh → World State × Option Failure → World State × Result Failure Text
  after_keys fresh (v, some e) = (v, err e)
  after_keys fresh (v, none) = allocate fresh v

  -- `addClient` up to the address: two calls for the keys, then findFreeIp.
  abbrev pub add_client_ip : Fresh → World State → World State × Result Failure Text
  add_client_ip fresh w =
      after_keys fresh ((require_cascade wg env >> call (λ v. v) >> call (λ v. v)) w)

  -- The rest of it: `wg set`, then the read of the server's key.
  abbrev pub add_peer : Fresh → Text → Command State
  add_peer fresh ip =
      call (λ w. record w { live = set_peer fresh.pubkey ip w.live }) >> call (λ w. w)

  -- From the insert on.
  abbrev pub store_client : Client → Command State
  store_client c =
      insert_client c
      >> when (is_xray c.type) (sync_xray wg env)
      >> when (is_hysteria2 c.type) (sync_hysteria wg env)
      >> when (is_wg c.type) (sync_peers_from_db wg env >> sync_routing wg env)

  abbrev pub create_wg : Order → Fresh → Command State
  create_wg order fresh w = then_with (add_client_ip fresh w) (λ ip.
      add_peer fresh ip >> store_client (new_client env order fresh (some ip, some fresh.pubkey)))

  -- `createClient`
  unfoldable pub create_client : Order → Fresh → Command State
  unfolding find_free_ip call sync_xray sync_hysteria sync_peers_from_db sync_routing insert_client
      new_client decimal
  create_client order fresh w =
      if env.standalone && is_wg order.type
      then (w, some not_in_standalone)
      else if is_wg order.type
      then create_wg order fresh w
      else store_client (new_client env order fresh (none, none)) w
