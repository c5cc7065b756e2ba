-- ===== src/Client/Access.antt =====
-- What suspendClient and resumeClient of services/client.service.ts do to a client's access.
use vpn_relay.Prelude.{
  List, text_eq, text_eq_refl, Bool, true, false, ◌&&◌, Option, none, some, [], ◌∷◌, ◌≡◌, refl, sym,
  ap, ap₂, ◌∙◌, arith, All, Bool-cases, inl, inr,
}
use vpn_relay.Client.Table.{
  Client, Clients, Reason, is_present, set_client_active, update_client, with_active,
}
use vpn_relay.Client.World.{
  Reply, lost, call_failed, Wireguard, World, Env, desired_xray, desired_hy2, text_or_empty,
}
use vpn_relay.Client.Commands.{call, wg_remove_client, wg_resume_client, sync_xray, sync_hysteria}
use vpn_relay.Client.Service.{
  has_wg_key, has_xray_id, has_hy2_password, suspend_client, resume_client,
}
use vpn_relay.Client.Effects.{suspended_by, resumed_by}

module _ (wg : Wireguard) (env : Env) where
  open wg use {
    State, remove_peer, set_peer, allowed_ip, allowed_ip-remove_peer, allowed_ip-set_peer,
  }

  -- Server A and the two config files are there, and no call fails.
  pub record IsUp (w : World State) : Type 0 where
    pub cascade : env.standalone ≡ false
    pub vless : env.has_vless_inbound ≡ true
    pub hy2 : env.has_hy2_inbound ≡ true
    pub replies : w.replies ≡ []

  -- When `suspendClient` succeeds, the row is inactive with the reason, the WireGuard peer of the client
  -- is gone, and the user lists that its credentials stand in are those of the active rows.
  pub suspend_client-revokes :
      (c : Client) (reason : Reason) (w : World State)
      → (suspend_client wg env c reason w).1 ≡ none
      → let v = (suspend_client wg env c reason w).0 in
        (v.clients ≡ set_client_active c.id false (some reason) w.clients)
        × ((has_wg_key c ≡ true → allowed_ip v.live (text_or_empty c.wg_pubkey) ≡ none)
            × ((has_xray_id c ≡ true → v.xray_users ≡ desired_xray env v.clients)
                × (has_hy2_password c ≡ true → v.hy2_users ≡ desired_hy2 env v.clients)))
  suspend_client-revokes c reason w h =
      let s = suspended_by wg env c reason w h in
      let k = text_or_empty c.wg_pubkey in
      (
        s.clients,
        (
          λ e. rw (s.live, e, allowed_ip-remove_peer, text_eq_refl k),
          (
            λ e. ground (arith, e, s.clients, s.xray_users),
            λ e. ground (arith, e, s.clients, s.hy2_users),
          ),
        ),
      )

  -- With all calls answered `suspendClient` succeeds, and so does `resumeClient`.
  suspend_client-answered :
      (c : Client) (reason : Reason) (w : World State)
      → IsUp w
      → ((suspend_client wg env c reason w).1 ≡ none)
        × ((suspend_client wg env c reason w).0.replies ≡ [])
  unfolding suspend_client wg_remove_client sync_xray sync_hysteria call
  suspend_client-answered c reason w up = ground (arith, up.cascade, up.vless, up.hy2, up.replies)

  resume_client-answered :
      (c : Client) (w : World State) → IsUp w → (resume_client wg env c w).1 ≡ none
  unfolding resume_client wg_resume_client sync_xray sync_hysteria call
  resume_client-answered c w up = ground (arith, up.cascade, up.vless, up.hy2, up.replies)

  -- Every row with the id of `c` is `c`.
  abbrev pub IsRow : Client → Clients → Type 0
  IsRow c = All (λ d. text_eq d.id c.id ≡ true → d ≡ c)

  set_active-undone :
      (c : Client) (reason : Reason) (cs : Clients)
      → c.is_active ≡ true
      → c.suspend_reason ≡ none
      → IsRow c cs
      → set_client_active c.id true none (set_client_active c.id false (some reason) cs) ≡ cs
  unfolding set_client_active update_client
  set_active-undone c reason [] active clear row = refl
  set_active-undone c reason (d ∷ cs) active clear (same, row) =
      let rest = set_active-undone c reason cs active clear row in
      elim (Bool-cases (text_eq d.id c.id)) [
        | inl e ↦
            let q : d ≡ c = same e in
            let a : d.is_active ≡ true = ap (λ (x : Client). x.is_active) q ∙ active in
            let n : d.suspend_reason ≡ none = ap (λ (x : Client). x.suspend_reason) q ∙ clear in
            rw (e, e, rest)
              (ap₂
                (λ (x : Bool) (y : Option Reason).
                  record d { is_active = x; suspend_reason = y } ∷ cs)
                (sym a) (sym n))
        | inr e ↦ rw (e, e, rest)
      ]

  -- Outside standalone mode, with both inbounds configured and all calls answered, suspending an
  -- active client that has no suspend reason, and whose row is the only one with its id, and
  -- resuming it again takes it back: the table is as before, the peer has its address, and the
  -- lists that its credentials stand in are those of the active rows.
  pub resume_client-suspend_client :
      (c : Client) (reason : Reason) (w : World State)
      → IsUp w
      → c.is_active ≡ true
      → c.suspend_reason ≡ none
      → IsRow c w.clients
      → let v =
          resume_client wg env
            (with_active false (some reason) c)
            (suspend_client wg env c reason w).0 in
        (v.1 ≡ none)
        × ((v.0.clients ≡ w.clients)
            × (((has_wg_key c && is_present c.wg_ip) ≡ true
                  → allowed_ip v.0.live (text_or_empty c.wg_pubkey) ≡ some (text_or_empty c.wg_ip))
                × ((has_xray_id c ≡ true → v.0.xray_users ≡ desired_xray env w.clients)
                    × (has_hy2_password c ≡ true → v.0.hy2_users ≡ desired_hy2 env w.clients))))
  resume_client-suspend_client c reason w up active clear row =
      let (gone, replies) = suspend_client-answered c reason w up in
      let v = (suspend_client wg env c reason w).0 in
      let d = with_active false (some reason) c in
      let back =
        resume_client-answered d v
          (record { cascade = up.cascade; vless = up.vless; hy2 = up.hy2; replies = replies }) in
      let s = suspended_by wg env c reason w gone in
      let r = resumed_by wg env d v back in
      let table : set_client_active c.id true none v.clients ≡ w.clients =
        ap (set_client_active c.id true none) s.clients
        ∙ set_active-undone c reason w.clients active clear row in
      (
        back,
        (
          r.clients ∙ table,
          (
            λ e. rw (r.live, e, allowed_ip-set_peer),
            (
              λ e. ground (arith, e, table, r.xray_users),
              λ e. ground (arith, e, table, r.hy2_users),
            ),
          ),
        ),
      )

  -- When Server A is not reached, outside standalone mode, suspending a client with a WireGuard key
  -- fails before anything else is done: the row stays as it was, and so do the user lists of XRay
  -- and sing-box.
  pub suspend_client-unreached :
      (c : Client) (reason : Reason) (w : World State) (rest : List Reply)
      → env.standalone ≡ false
      → has_wg_key c ≡ true
      → w.replies ≡ lost ∷ rest
      → suspend_client wg env c reason w ≡ (record w { replies = rest }, some call_failed)
  unfolding suspend_client wg_remove_client call
  suspend_client-unreached c reason w rest up key down = ground (arith, up, key, down)
