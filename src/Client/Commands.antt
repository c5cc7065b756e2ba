-- ===== src/Client/Commands.antt =====
-- The calls of the services as commands on the world: each has its effect, or fails like an exception.
use vpn_relay.Prelude.{
  Text, if◌then◌else◌, Bool, true, false, not, Option, none, some, List, [], ◌∷◌,
}
use vpn_relay.Wg.Conf.{DesiredPeer, render_conf}
use vpn_relay.Client.World.{
  Wireguard, World, Env, Reply, answered, lost, late, Failure, call_failed, no_inbound,
  not_in_standalone, desired_xray, desired_hy2, desired_peers, desired_rules, rules_eq,
  forget_peers,
}

abbrev pub Command : Type 0 → Type 0
Command S = World S → World S × Option Failure

module _ {S : Type 0} where
  abbrev pub continue_with : Command S → World S × Option Failure → World S × Option Failure
  continue_with next (w, none) = next w
  continue_with next (w, some e) = (w, some e)

  infixr 20 ◌>>◌
  -- `await first; await next`
  abbrev pub ◌>>◌ : Command S → Command S → Command S
  (first >> next) w = continue_with next (first w)

  abbrev pub done : Command S
  done w = (w, none)

  abbrev pub throw : Failure → Command S
  throw e w = (w, some e)

  abbrev pub when : Bool → Command S → Command S
  when true c w = c w
  when false c w = (w, none)

  -- A synchronous step, which does not fail.
  abbrev pub change : (World S → World S) → Command S
  change f w = (f w, none)

  abbrev replied : List Reply → Command S → (World S → World S) → Command S
  replied [] fail effect w = (effect w, none)
  replied (answered ∷ r) fail effect w = (effect (record w { replies = r }), none)
  replied (lost ∷ r) fail effect w = fail (record w { replies = r })
  replied (late ∷ r) fail effect w = fail (effect (record w { replies = r }))

  -- A call out of the process with its effect.
  unfoldable pub call : (World S → World S) → Command S
  call effect w = replied w.replies (throw call_failed) effect w

  -- `try { … } catch { log }`
  abbrev swallowed : World S × Option Failure → World S × Option Failure
  swallowed (w, e) = (w, none)

  abbrev pub attempt : Command S → Command S
  attempt c w = swallowed (c w)

module _ (wg : Wireguard) (env : Env) where
  open wg use {State, set_peer, remove_peer, sync_conf}

  -- `requireCascade`
  abbrev pub require_cascade : Command State
  require_cascade w = if env.standalone then (w, some not_in_standalone) else (w, none)

  -- `removeClient` and `suspendClient` of wg.service.ts
  unfoldable pub wg_remove_client : Text → Command State
  unfolding call
  wg_remove_client pubkey =
      require_cascade >> call (λ w. record w { live = remove_peer pubkey w.live })

  -- `resumeClient` of wg.service.ts
  unfoldable pub wg_resume_client : Text → Text → Command State
  unfolding call
  wg_resume_client pubkey ip =
      require_cascade >> call (λ w. record w { live = set_peer pubkey ip w.live })

  -- The write of config.json; the write of the restart trigger can fail too.
  unfoldable pub sync_xray : Command State
  unfolding call
  sync_xray w =
      if env.has_vless_inbound
      then (call (λ v. record v { xray_users = desired_xray env v.clients }) >> call (λ v. v)) w
      else (w, some no_inbound)

  unfoldable pub sync_hysteria : Command State
  unfolding call
  sync_hysteria w =
      if env.has_hy2_inbound
      then (call (λ v. record v { hy2_users = desired_hy2 env v.clients }) >> call (λ v. v)) w
      else (w, some no_inbound)

  unfoldable pub remove_suspended : List DesiredPeer → Command State
  unfolding call
  remove_suspended [] = done
  remove_suspended (p ∷ ps) =
      when (not p.active) (call (λ w. record w { live = remove_peer p.pubkey w.live }))
      >> remove_suspended ps

  -- `syncPeersFromDb`: the peers are computed first; the conf is read, written and loaded; then each
  -- suspended peer is removed again.
  abbrev pub sync_peers : List DesiredPeer → Command State
  sync_peers desired =
      change (λ w. record w { reserved = forget_peers desired w.reserved })
      >> call (λ w. w)
      >> call (λ w. record w { conf = render_conf w.conf desired })
      >> call (λ w. record w { live = sync_conf w.conf w.live })
      >> remove_suspended desired

  unfoldable pub sync_peers_from_db : Command State
  unfolding remove_suspended call
  sync_peers_from_db w =
      if env.standalone then (w, none) else sync_peers (desired_peers w.clients) w

  abbrev pub write_rules : Command State
  write_rules w =
      if rules_eq w.rules (desired_rules env w.clients)
      then (w, none)
      else call (λ v. record v { rules = desired_rules env v.clients }) w

  -- `syncRoutingAndRestart` of xray-uplink.service.ts
  unfoldable pub sync_routing : Command State
  unfolding call
  sync_routing w = if env.standalone then (w, none) else attempt (call (λ v. v) >> write_rules) w
