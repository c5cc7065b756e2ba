-- ===== src/Client/Create/Keeps.antt =====
-- The calls around the insert of `createClient` (services/client.service.ts, wg.service.ts) leave the
-- table and the user lists alone.
use vpn_relay.Prelude.{
  ℕ, Text, any, if◌then◌else◌, Bool, Bool-cases, true, false, Option, none, some, List, [], ◌∷◌,
  ◌++◌, ◌≡◌, refl, ◌∙◌, inl, inr, not, arith,
}
use vpn_relay.Wg.Conf.{DesiredPeer, render_conf}
use vpn_relay.Wg.Alloc.{Reserved}
use vpn_relay.Client.Table.{Client}
use vpn_relay.Client.World.{
  Wireguard, World, Env, Reply, answered, lost, late, Failure, desired_peers, rules_eq,
  desired_rules, forget_peers,
}
use vpn_relay.Client.Commands.{
  Command, continue_with, ◌>>◌, when, call, attempt, require_cascade, remove_suspended, sync_peers,
  sync_peers_from_db, sync_routing, write_rules,
}
use vpn_relay.Client.Create.{
  Fresh, clashes, insert_client, with_address, read_conf_on, allocate, after_keys, add_client_ip,
  add_peer,
}

module _ {S : Type 0} where
  -- `v` has the table and the user lists of `w`.
  pub record Keeps (w v : World S) : Type 0 where
    pub clients : v.clients ≡ w.clients
    pub xray_users : v.xray_users ≡ w.xray_users
    pub hy2_users : v.hy2_users ≡ w.hy2_users

  abbrev pub IsKeeping : Command S → Type 0
  IsKeeping c = (w : World S) → Keeps w (c w).0

  pub kept : (w : World S) → Keeps w w
  kept w = record { clients = refl; xray_users = refl; hy2_users = refl }

  pub Keeps-trans : (u v w : World S) → Keeps u v → Keeps v w → Keeps u w
  Keeps-trans u v w h k = record {
    clients = k.clients ∙ h.clients;
    xray_users = k.xray_users ∙ h.xray_users;
    hy2_users = k.hy2_users ∙ h.hy2_users;
  }

  pub continue_with-Keeps :
      (next : Command S) (w : World S) (p : World S × Option Failure)
      → IsKeeping next
      → Keeps w p.0
      → Keeps w (continue_with next p).0
  continue_with-Keeps next w (v, none) h k = Keeps-trans w v (next v).0 k (h v)
  continue_with-Keeps next w (v, some e) h k = k

  pub then-Keeps : (a b : Command S) → IsKeeping a → IsKeeping b → IsKeeping (a >> b)
  then-Keeps a b h k w = continue_with-Keeps b w (a w) k (h w)

  pub when-Keeps : (b : Bool) (c : Command S) → IsKeeping c → IsKeeping (when b c)
  when-Keeps true c h = h
  when-Keeps false c h = λ w. kept w

  -- A call whose effect leaves the table and the lists alone.
  pub call-Keeps : (f : World S → World S) → ((w : World S) → Keeps w (f w)) → IsKeeping (call f)
  unfolding call
  call-Keeps f h w = on w.replies
    where
      same : (r : List Reply) (v : World S) → Keeps (record w { replies = r }) v → Keeps w v
      same r v k = record {
        clients = k.clients;
        xray_users = k.xray_users;
        hy2_users = k.hy2_users;
      }

      on : (r : List Reply) → Keeps w (call f (record w { replies = r })).0
      on [] = same [] (f (record w { replies = [] })) (h (record w { replies = [] }))
      on (answered ∷ r) = same r (f (record w { replies = r })) (h (record w { replies = r }))
      on (lost ∷ r) = same r (record w { replies = r }) (kept (record w { replies = r }))
      on (late ∷ r) = same r (f (record w { replies = r })) (h (record w { replies = r }))

  pub attempt-Keeps : (c : Command S) → IsKeeping c → IsKeeping (attempt c)
  attempt-Keeps c h w = h w

  -- An effect that is none, for a call that only asks.
  pub ask-Keeps : IsKeeping (call (λ (w : World S). w))
  ask-Keeps = call-Keeps (λ w. w) kept

  pub read_conf_on-Keeps : (r : List Reply) (w : World S) → Keeps w (read_conf_on r w).1
  read_conf_on-Keeps [] w = kept w
  read_conf_on-Keeps (answered ∷ r) w = record {
    clients = refl;
    xray_users = refl;
    hy2_users = refl;
  }
  read_conf_on-Keeps (lost ∷ r) w = record { clients = refl; xray_users = refl; hy2_users = refl }
  read_conf_on-Keeps (late ∷ r) w = record { clients = refl; xray_users = refl; hy2_users = refl }

  pub with_address-Keeps :
      (w : World S) (found : Option ℕ × Reserved) → Keeps w (with_address w found).0
  with_address-Keeps w (none, r) = record { clients = refl; xray_users = refl; hy2_users = refl }
  with_address-Keeps w (some o, r) = record { clients = refl; xray_users = refl; hy2_users = refl }

  pub allocate-Keeps : (fresh : Fresh) (w : World S) → Keeps w (allocate fresh w).0
  allocate-Keeps fresh w =
      Keeps-trans w (read_conf_on w.replies w).1 _ (read_conf_on-Keeps w.replies w)
        (with_address-Keeps (read_conf_on w.replies w).1 _)

  pub insert_client-done :
      (c : Client) (w : World S)
      → (insert_client c w).1 ≡ none
      → (any (clashes c) w.clients ≡ false)
        × ((insert_client c w).0 ≡ record w { clients = w.clients ++ c ∷ [] })
  unfolding insert_client
  insert_client-done c w h = elim (Bool-cases (any (clashes c) w.clients)) [
    | inl e ↦ absurd (ground (arith, e))
    | inr e ↦ (e, rw e refl)
  ]

module _ (wg : Wireguard) (env : Env) where
  open wg use {State, remove_peer, set_peer, sync_conf}

  pub live-Keeps :
      (f : State → State) → IsKeeping (call (λ (w : World State). record w { live = f w.live }))
  live-Keeps f =
      call-Keeps (λ w. record w { live = f w.live })
        (λ w. record { clients = refl; xray_users = refl; hy2_users = refl })

  pub remove_suspended-Keeps : (ps : List DesiredPeer) → IsKeeping (remove_suspended wg env ps)
  unfolding remove_suspended
  remove_suspended-Keeps [] w = kept w
  remove_suspended-Keeps (p ∷ ps) w =
      then-Keeps (when (not p.active) (call (λ w. record w { live = remove_peer p.pubkey w.live })))
        (remove_suspended wg env ps)
        (when-Keeps (not p.active) _ (live-Keeps (remove_peer p.pubkey)))
        (remove_suspended-Keeps ps) w

  pub if-Keeps :
      (b : Bool) (w : World State) (p q : World State × Option Failure)
      → Keeps w p.0
      → Keeps w q.0
      → Keeps w (if b then p else q).0
  if-Keeps true w p q h k = h
  if-Keeps false w p q h k = k

  pub require_cascade-Keeps : IsKeeping (require_cascade wg env)
  require_cascade-Keeps w = if-Keeps env.standalone w _ _ (kept w) (kept w)

  pub sync_peers-Keeps : (ds : List DesiredPeer) → IsKeeping (sync_peers wg env ds)
  sync_peers-Keeps ds =
      let write : World State → World State = λ w. record w { conf = render_conf w.conf ds } in
      let load : World State → World State = λ w. record w { live = sync_conf w.conf w.live } in
      let rest = remove_suspended wg env ds in
      then-Keeps (λ w. (record w { reserved = forget_peers ds w.reserved }, none))
        (call (λ w. w) >> call write >> call load >> rest)
        (λ w. record { clients = refl; xray_users = refl; hy2_users = refl })
        (then-Keeps (call (λ w. w)) (call write >> call load >> rest) ask-Keeps (
          then-Keeps (call write) (call load >> rest)
            (call-Keeps write (λ w. record { clients = refl; xray_users = refl; hy2_users = refl }))
            (then-Keeps (call load) rest
              (call-Keeps load
                (λ w. record { clients = refl; xray_users = refl; hy2_users = refl }))
              (remove_suspended-Keeps ds))))

  pub sync_peers_from_db-Keeps : IsKeeping (sync_peers_from_db wg env)
  unfolding sync_peers_from_db
  sync_peers_from_db-Keeps w =
      if-Keeps env.standalone w _ _ (kept w) (sync_peers-Keeps (desired_peers w.clients) w)

  pub write_rules-Keeps : IsKeeping (write_rules wg env)
  write_rules-Keeps w = if-Keeps (rules_eq w.rules (desired_rules env w.clients)) w _ _ (kept w) (
      call-Keeps (λ v. record v { rules = desired_rules env v.clients })
        (λ v. record { clients = refl; xray_users = refl; hy2_users = refl }) w)

  pub sync_routing-Keeps : IsKeeping (sync_routing wg env)
  unfolding sync_routing
  sync_routing-Keeps w = if-Keeps env.standalone w _ _ (kept w) (
      attempt-Keeps (call (λ v. v) >> write_rules wg env)
        (then-Keeps (call (λ v. v)) (write_rules wg env) ask-Keeps write_rules-Keeps) w)

  pub after_keys-Keeps :
      (fresh : Fresh) (w : World State) (p : World State × Option Failure)
      → Keeps w p.0
      → Keeps w (after_keys wg env fresh p).0
  after_keys-Keeps fresh w (v, none) k = Keeps-trans w v _ k (allocate-Keeps fresh v)
  after_keys-Keeps fresh w (v, some e) k = k

  pub add_client_ip-Keeps :
      (fresh : Fresh) (w : World State) → Keeps w (add_client_ip wg env fresh w).0
  add_client_ip-Keeps fresh w = after_keys-Keeps fresh w _ (
      then-Keeps (require_cascade wg env) (call (λ v. v) >> call (λ v. v)) require_cascade-Keeps
        (then-Keeps (call (λ v. v)) (call (λ v. v)) ask-Keeps ask-Keeps) w)

  pub add_peer-Keeps : (fresh : Fresh) (ip : Text) → IsKeeping (add_peer wg env fresh ip)
  add_peer-Keeps fresh ip =
      then-Keeps (call (λ w. record w { live = set_peer fresh.pubkey ip w.live })) (call (λ w. w))
        (live-Keeps (set_peer fresh.pubkey ip)) ask-Keeps
