-- ===== src/Client/Create/Created.antt =====
-- What `createClient` of services/client.service.ts leaves when it succeeds.
use vpn_relay.Wg.Conf.{net_dot, wg_ip_start, wg_ip_end}
use vpn_relay.Wg.Alloc.{Reserved, find_free_ip, is_used, table_octets}
use vpn_relay.Wg.Alloc.Fresh.{find_free_ip-fresh}
use vpn_relay.Prelude.{
  ℕ, ◌/◌, ◌≤◌, refl, decimal, Option, Text, any, if◌then◌else◌, Bool, true, false, ◌&&◌, none, some,
  [], ◌∷◌, ◌++◌, ◌≡◌, sym, ap, ap₂, subst, ◌∙◌,
}
use vpn_relay.Prelude.Result.{Result, ok, err}
use vpn_relay.Client.Table.{Client, Clients, is_wg, is_xray, is_hysteria2, is_subscription_capable}
use vpn_relay.Client.World.{
  Wireguard, World, Env, Failure, desired_xray, desired_hy2, not_in_standalone,
}
use vpn_relay.Client.Commands.{
  Command, ◌>>◌, when, call, require_cascade, sync_peers_from_db, sync_routing, sync_xray,
  sync_hysteria,
}
use vpn_relay.Client.Effects.{continue_with-done, sync_xray-done, sync_hysteria-done}
use vpn_relay.Client.Create.{
  Order, Fresh, effective_transport, new_client, expiry, token_if, allocate, with_address,
  read_conf, after_keys, clashes, insert_client, then_with, add_client_ip, add_peer, store_client,
  create_wg, create_client,
}
use vpn_relay.Client.Create.Keeps.{
  Keeps, Keeps-trans, then-Keeps, when-Keeps, insert_client-done, sync_peers_from_db-Keeps,
  sync_routing-Keeps, add_client_ip-Keeps, add_peer-Keeps,
}

module _ (wg : Wireguard) (env : Env) where
  open wg use {State}

  -- What a create that has stored its row `c` leaves.
  pub record IsStored (c : Client) (w v : World State) : Type 0 where
    pub clients : v.clients ≡ w.clients ++ c ∷ []
    pub unique : any (clashes c) w.clients ≡ false
    pub xray_users :
        v.xray_users ≡ (if is_xray c.type then desired_xray env v.clients else w.xray_users)
    pub hy2_users :
        v.hy2_users ≡ (if is_hysteria2 c.type then desired_hy2 env v.clients else w.hy2_users)

  store_client-IsStored :
      (c : Client) (w : World State)
      → (store_client wg env c w).1 ≡ none
      → IsStored c w (store_client wg env c w).0
  store_client-IsStored c w h =
      let peers = when (is_wg c.type) (sync_peers_from_db wg env >> sync_routing wg env) in
      let hy2 = when (is_hysteria2 c.type) (sync_hysteria wg env) in
      let xray = when (is_xray c.type) (sync_xray wg env) in
      let (i, e1) = continue_with-done (xray >> hy2 >> peers) (insert_client c w) h in
      let v1 = (insert_client c w).0 in
      let h1 : ((xray >> hy2 >> peers) v1).1 ≡ none = sym (ap (λ p. p.1) e1) ∙ h in
      let (j, e2) = continue_with-done (hy2 >> peers) (xray v1) h1 in
      let v2 = (xray v1).0 in
      let h2 : ((hy2 >> peers) v2).1 ≡ none = sym (ap (λ p. p.1) e2) ∙ h1 in
      let (k, e3) = continue_with-done peers (hy2 v2) h2 in
      let v3 = (hy2 v2).0 in
      let ended : store_client wg env c w ≡ peers v3 = e1 ∙ e2 ∙ e3 in
      let (unique, stored) = insert_client-done c w i in
      let x = sync_xray-done wg env (is_xray c.type) v1 j in
      let y = sync_hysteria-done wg env (is_hysteria2 c.type) v2 k in
      let z =
        when-Keeps (is_wg c.type) (sync_peers_from_db wg env >> sync_routing wg env)
          (then-Keeps (sync_peers_from_db wg env) (sync_routing wg env)
            (sync_peers_from_db-Keeps wg env) (sync_routing-Keeps wg env))
          v3 in
      let cs : v1.clients ≡ w.clients ++ c ∷ [] = ap (λ v. v.clients) stored in
      let all : (store_client wg env c w).0.clients ≡ w.clients ++ c ∷ [] =
        ap (λ p. p.0.clients) ended ∙ z.clients ∙ y.clients ∙ x.clients ∙ cs in
      record {
        clients = all;
        unique = unique;
        xray_users =
            ap (λ p. p.0.xray_users) ended
            ∙ z.xray_users
            ∙ y.xray_users
            ∙ x.xray_users
            ∙ ap₂ (λ cs us. if is_xray c.type then desired_xray env cs else us) (cs ∙ sym all)
                (ap (λ v. v.xray_users) stored);
        hy2_users =
            ap (λ p. p.0.hy2_users) ended
            ∙ z.hy2_users
            ∙ y.hy2_users
            ∙ ap₂ (λ cs us. if is_hysteria2 c.type then desired_hy2 env cs else us)
                (x.clients ∙ cs ∙ sym all) (x.hy2_users ∙ ap (λ v. v.hy2_users) stored);
      }

  IsStored-Keeps : (c : Client) (w u v : World State) → Keeps w u → IsStored c u v → IsStored c w v
  IsStored-Keeps c w u v k s = record {
    clients = s.clients ∙ ap (λ cs. cs ++ c ∷ []) k.clients;
    unique = sym (ap (any (clashes c)) k.clients) ∙ s.unique;
    xray_users =
        s.xray_users
        ∙ ap (λ us. if is_xray c.type then desired_xray env v.clients else us) k.xray_users;
    hy2_users =
        s.hy2_users
        ∙ ap (λ us. if is_hysteria2 c.type then desired_hy2 env v.clients else us) k.hy2_users;
  }

  -- A WireGuard client has an address that no row had, and its key; another has neither.
  abbrev pub IsAddressed : Fresh → Clients → Bool → Option Text → Option Text → Type 0
  IsAddressed fresh cs true ip pubkey =
      (octet : ℕ) × (wg_ip_start ≤ octet)
      × (octet ≤ wg_ip_end)
      × (is_used octet (table_octets cs) ≡ false)
      × (ip ≡ some (net_dot ++ decimal octet))
      × (pubkey ≡ some fresh.pubkey)
  IsAddressed fresh cs false ip pubkey = (ip ≡ none) × (pubkey ≡ none)

  -- The row that an order makes.
  pub record IsRow (order : Order) (fresh : Fresh) (cs : Clients) (c : Client) : Type 0 where
    pub drawn : c.id ≡ fresh.id
    pub named : c.name ≡ order.name
    pub typed : c.type ≡ order.type
    pub active : c.is_active ≡ true
    pub created : c.created_at ≡ fresh.now / 1000
    pub unsuspended : c.suspend_reason ≡ none
    pub transport : c.wg_cascade_transport ≡ effective_transport env order.transport
    pub expires : c.expires_at ≡ expiry fresh.now order.ttl_days
    pub daily : c.daily_quota_gb ≡ order.daily_quota_gb
    pub monthly : c.monthly_quota_gb ≡ order.monthly_quota_gb
    pub address : IsAddressed fresh cs (is_wg order.type) c.wg_ip c.wg_pubkey
    pub uuid : c.xray_uuid ≡ (if is_xray order.type then some fresh.xray_uuid else none)
    pub password :
        c.hy2_password ≡ (if is_hysteria2 order.type then some fresh.hy2_password else none)
    pub token : c.sub_token ≡ (
        if is_subscription_capable c.type c.xray_uuid c.hy2_password
        then some fresh.sub_token
        else none)

  token_if_lem : (b : Bool) (t : Text) → token_if b t ≡ (if b then some t else none)
  token_if_lem true t = refl
  token_if_lem false t = refl

  new_client-IsRow :
      (order : Order) (fresh : Fresh) (cs : Clients) (ip pubkey : Option Text)
      → IsAddressed fresh cs (is_wg order.type) ip pubkey
      → IsRow order fresh cs (new_client env order fresh (ip, pubkey))
  unfolding new_client
  new_client-IsRow order fresh cs ip pubkey a = record {
    drawn = refl;
    named = refl;
    typed = refl;
    active = refl;
    created = refl;
    unsuspended = refl;
    transport = refl;
    expires = refl;
    daily = refl;
    monthly = refl;
    address = a;
    uuid = token_if_lem (is_xray order.type) fresh.xray_uuid;
    password = token_if_lem (is_hysteria2 order.type) fresh.hy2_password;
    token = token_if_lem _ fresh.sub_token;
  }

  -- An address that is found is one that no row had.
  abbrev IsFound : Clients → Result Failure Text → Type 0
  IsFound cs (err e) = Unit
  IsFound cs (ok ip) =
      (octet : ℕ) × (wg_ip_start ≤ octet)
      × (octet ≤ wg_ip_end)
      × (is_used octet (table_octets cs) ≡ false)
      × (ip ≡ net_dot ++ decimal octet)

  allocate-IsFound :
      (fresh : Fresh) (w : World State) → IsFound (allocate fresh w).0.clients (allocate fresh w).1
  allocate-IsFound fresh w = by_octet _ refl
    where
      v : World State
      v = (read_conf w).1

      by_octet :
          (p : Option ℕ × Reserved)
          → find_free_ip v.clients v.reserved (read_conf w).0 fresh.swept_at fresh.reserved_at ≡ p
          → IsFound (with_address v p).0.clients (with_address v p).1
      by_octet (none, r) e = tt
      by_octet (some octet, r) e =
          let ((lo, hi), (free, _)) =
            find_free_ip-fresh v.clients v.reserved r (read_conf w).0 fresh.swept_at
              fresh.reserved_at octet e in
          (octet, lo, hi, free, refl)

  after_keys-IsFound :
      (fresh : Fresh) (p : World State × Option Failure)
      → IsFound (after_keys wg env fresh p).0.clients (after_keys wg env fresh p).1
  after_keys-IsFound fresh (v, some e) = tt
  after_keys-IsFound fresh (v, none) = allocate-IsFound fresh v

  add_client_ip-IsFound :
      (fresh : Fresh) (w : World State)
      → IsFound (add_client_ip wg env fresh w).0.clients (add_client_ip wg env fresh w).1
  add_client_ip-IsFound fresh w =
      after_keys-IsFound fresh ((require_cascade wg env >> call (λ v. v) >> call (λ v. v)) w)

  -- What a create leaves: one row more, the one ordered, stored.
  abbrev pub IsCreated : Order → Fresh → World State → World State → Type 0
  IsCreated order fresh w v = (c : Client) × IsRow order fresh w.clients c × IsStored c w v

  with_peer-IsCreated :
      (order : Order) (fresh : Fresh) (w : World State) (p : World State × Result Failure Text)
      → Keeps w p.0
      → IsFound p.0.clients p.1
      → is_wg order.type ≡ true
      → let next : Text → Command State = λ ip.
        add_peer wg env fresh ip
        >> store_client wg env (new_client env order fresh (some ip, some fresh.pubkey)) in
        (then_with p next).1 ≡ none → IsCreated order fresh w (then_with p next).0
  with_peer-IsCreated order fresh w (v, err e) k f over_wg h = cc
  with_peer-IsCreated order fresh w (v, ok ip) k (octet, lo, hi, free, address) over_wg h =
      let c = new_client env order fresh (some ip, some fresh.pubkey) in
      let (i, e) = continue_with-done (store_client wg env c) (add_peer wg env fresh ip v) h in
      let u = (add_peer wg env fresh ip v).0 in
      let s = store_client-IsStored c u (sym (ap (λ p. p.1) e) ∙ h) in
      let unused : is_used octet (table_octets w.clients) ≡ false =
        subst (λ cs. is_used octet (table_octets cs) ≡ false) k.clients free in
      (
        c,
        new_client-IsRow order fresh w.clients (some ip) (some fresh.pubkey) (
            subst (λ b. IsAddressed fresh w.clients b (some ip) (some fresh.pubkey)) (sym over_wg)
              (octet, lo, hi, unused, ap some address, refl)),
        subst (λ p. IsStored c w p.0) (sym e)
            (IsStored-Keeps c w u (store_client wg env c u).0
              (Keeps-trans w v u k (add_peer-Keeps wg env fresh ip v)) s),
      )

  -- When `createClient` succeeds, the table has one more row, the one ordered: active, with its
  -- expiry, quotas and transport; for a WireGuard client with its key and an address of 10.66.0.2 to .254 that no row
  -- had, and otherwise with neither; with the UUID, or the password, of a type that has one and no other;
  -- and a token if it can be subscribed to. No row had its id, name or token before. The users of
  -- XRay, or of sing-box, are those of the active rows if the type has them there, and else as before.
  pub create_client-IsCreated :
      (order : Order) (fresh : Fresh) (w : World State)
      → (create_client wg env order fresh w).1 ≡ none
      → IsCreated order fresh w (create_client wg env order fresh w).0
  unfolding create_client
  create_client-IsCreated order fresh w h =
      cases (env.standalone && is_wg order.type) (is_wg order.type) refl h
    where
      cases :
          (refused over_wg : Bool)
          → is_wg order.type ≡ over_wg
          → let r =
              if refused
              then (w, some not_in_standalone)
              else if over_wg
              then create_wg wg env order fresh w
              else store_client wg env (new_client env order fresh (none, none)) w in
            r.1 ≡ none → IsCreated order fresh w r.0
      cases true b t e = cc
      cases false true t e =
          with_peer-IsCreated order fresh w (add_client_ip wg env fresh w)
            (add_client_ip-Keeps wg env fresh w) (add_client_ip-IsFound fresh w) t e
      cases false false t e = (
        new_client env order fresh (none, none),
        new_client-IsRow order fresh w.clients none none
            (subst (λ b. IsAddressed fresh w.clients b none none) (sym t) (refl, refl)),
        store_client-IsStored _ w e,
      )
