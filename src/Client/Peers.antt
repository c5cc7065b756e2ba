-- ===== src/Client/Peers.antt =====
-- What syncPeersFromDb of services/wg.service.ts leaves on Server A.
use vpn_relay.Prelude.{
  Text, text_eq, text_eq_refl, if◌then◌else◌, Bool, true, false, not, none, List, [], ◌∷◌, ◌≡◌,
  refl, sym, ap, subst, ◌∙◌, arith, All, Bool-cases, inl, inr,
}
use vpn_relay.Wg.Conf.{DesiredPeer, render_conf}
use vpn_relay.Client.World.{Wireguard, World, Env, desired_peers, forget_peers}
use vpn_relay.Client.Commands.{
  call, continue_with, ◌>>◌, when, remove_suspended, sync_peers, sync_peers_from_db,
}

module _ (wg : Wireguard) (env : Env) where
  open wg use {State, remove_peer, sync_conf, allowed_ip, allowed_ip-remove_peer}

  still_gone :
      (k j : Text) (s : State) → allowed_ip s j ≡ none → allowed_ip (remove_peer k s) j ≡ none
  still_gone k j s h = elim (Bool-cases (text_eq k j)) [
    | inl e ↦ rw (allowed_ip-remove_peer, e)
    | inr e ↦ rw (allowed_ip-remove_peer, e, h)
  ]

  gone : (k : Text) (s : State) → allowed_ip (remove_peer k s) k ≡ none
  gone k s = rw (allowed_ip-remove_peer, text_eq_refl k)

  -- The live state behind the loop over the suspended peers.
  live_after : List DesiredPeer → State → State
  live_after [] s = s
  live_after (p ∷ ps) s = live_after ps (if p.active then s else remove_peer p.pubkey s)

  call-answered :
      (f : World State → World State) (w : World State) → w.replies ≡ [] → call f w ≡ (f w, none)
  unfolding call
  call-answered f w calm = ground (arith, calm)

  one_peer :
      (p : DesiredPeer) (ps : List DesiredPeer) (active : Bool) (w : World State)
      → w.replies ≡ []
      → ((v : World State)
          → v.replies ≡ []
          → remove_suspended wg env ps v ≡ (record v { live = live_after ps v.live }, none))
      → continue_with (remove_suspended wg env ps) (
          when
            (not active)
            (call (λ (v : World State). record v { live = remove_peer p.pubkey v.live }))
            w)
        ≡ (
          record w {
            live = live_after ps (if active then w.live else remove_peer p.pubkey w.live);
          },
          none,
        )
  one_peer p ps true w calm rest = rest w calm
  one_peer p ps false w calm rest =
      ap (continue_with (remove_suspended wg env ps))
        (call-answered (λ v. record v { live = remove_peer p.pubkey v.live }) w calm)
      ∙ rest (record w { live = remove_peer p.pubkey w.live }) calm

  remove_suspended-answered :
      (ps : List DesiredPeer) (w : World State)
      → w.replies ≡ []
      → remove_suspended wg env ps w ≡ (record w { live = live_after ps w.live }, none)
  unfolding remove_suspended live_after
  remove_suspended-answered [] w calm = refl
  remove_suspended-answered (p ∷ ps) w calm =
      one_peer p ps p.active w calm (λ v e. remove_suspended-answered ps v e)

  live_after-gone :
      (ps : List DesiredPeer) (s : State) (j : Text)
      → allowed_ip s j ≡ none
      → allowed_ip (live_after ps s) j ≡ none
  unfolding live_after
  live_after-gone [] s j h = h
  live_after-gone (p ∷ ps) s j h =
      live_after-gone ps (if p.active then s else remove_peer p.pubkey s) j (one_less p.active)
    where
      one_less :
          (active : Bool) → allowed_ip (if active then s else remove_peer p.pubkey s) j ≡ none
      one_less true = h
      one_less false = still_gone p.pubkey j s h

  live_after-suspended :
      (ps : List DesiredPeer) (s : State)
      → All (λ p. p.active ≡ false → allowed_ip (live_after ps s) p.pubkey ≡ none) ps
  unfolding live_after
  live_after-suspended [] s = tt
  live_after-suspended (p ∷ ps) s = (
    λ e. live_after-gone ps (if p.active then s else remove_peer p.pubkey s) p.pubkey (
        subst (λ b. allowed_ip (if b then s else remove_peer p.pubkey s) p.pubkey ≡ none) (sym e)
          (gone p.pubkey s)),
    live_after-suspended ps (if p.active then s else remove_peer p.pubkey s),
  )

  sync_peers-answered :
      (ds : List DesiredPeer) (w : World State)
      → w.replies ≡ []
      → sync_peers wg env ds w ≡ (
        record w {
          reserved = forget_peers ds w.reserved;
          conf = render_conf w.conf ds;
          live = live_after ds (sync_conf (render_conf w.conf ds) w.live);
        },
        none,
      )
  sync_peers-answered ds w calm =
      let rm = remove_suspended wg env ds in
      let write : World State → World State = λ v. record v { conf = render_conf v.conf ds } in
      let load : World State → World State = λ v. record v { live = sync_conf v.conf v.live } in
      let w' : World State = record w { reserved = forget_peers ds w.reserved } in
      ap (continue_with (call write >> (call load >> rm))) (call-answered (λ v. v) w' calm)
      ∙ (ap (continue_with (call load >> rm)) (call-answered write w' calm)
          ∙ (ap (continue_with rm) (call-answered load (write w') calm)
              ∙ remove_suspended-answered ds (load (write w')) calm))

  -- Outside standalone mode and with all calls answered `syncPeersFromDb` succeeds: the conf is the
  -- current one with the peers of the table rendered into it, and no suspended peer is left in the
  -- live state, although `syncconf` has just loaded its block.
  pub sync_peers_from_db-answered :
      (w : World State)
      → env.standalone ≡ false
      → w.replies ≡ []
      → let v = sync_peers_from_db wg env w in
        (v.1 ≡ none)
        × ((v.0.conf ≡ render_conf w.conf (desired_peers w.clients))
            × All
                (λ p. p.active ≡ false → allowed_ip v.0.live p.pubkey ≡ none)
                (desired_peers w.clients))
  unfolding sync_peers_from_db
  sync_peers_from_db-answered w up calm =
      let ds = desired_peers w.clients in
      let e = sync_peers-answered ds w calm in
      rw (up) (
        ap (λ p. p.1) e,
        (
          ap (λ p. p.0.conf) e,
          subst (λ p. All (λ d. d.active ≡ false → allowed_ip p.0.live d.pubkey ≡ none) ds) (sym e)
              (live_after-suspended ds (sync_conf (render_conf w.conf ds) w.live)),
        ),
      )
