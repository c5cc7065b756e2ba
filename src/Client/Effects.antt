-- ===== src/Client/Effects.antt =====
-- The effects of the commands of services/client.service.ts, call by call.
use vpn_relay.Prelude.{
  Text, if◌then◌else◌, Bool, true, false, ◌&&◌, Option, none, some, ◌≡◌, refl, sym, ap, ap₂, subst,
  ◌∙◌, arith,
}
use vpn_relay.Client.Table.{is_present, Client, Clients, Reason, set_client_active}
use vpn_relay.Client.World.{
  Wireguard, World, Env, Failure, desired_xray, desired_hy2, text_or_empty,
}
use vpn_relay.Client.Commands.{
  Command, continue_with, ◌>>◌, when, call, wg_remove_client, wg_resume_client, sync_xray,
  sync_hysteria,
}
use vpn_relay.Client.Service.{
  has_wg_key, has_xray_id, has_hy2_password, on_table, sync_users, suspend_client, resume_client,
}

module _ {S : Type 0} where
  -- A chain that has not failed has done both parts.
  pub continue_with-done :
      (next : Command S) (p : World S × Option Failure)
      → (continue_with next p).1 ≡ none
      → (p.1 ≡ none) × (continue_with next p ≡ next p.0)
  continue_with-done next (w, none) h = (refl, refl)
  continue_with-done next (w, some e) h = cc

module _ (wg : Wireguard) (env : Env) where
  open wg use {
    State, remove_peer, set_peer, allowed_ip, allowed_ip-remove_peer, allowed_ip-set_peer,
  }

  -- `v` is `w` with the user lists that the conditions ask for.
  pub record IsSynced (xray hy2 : Bool) (w v : World State) : Type 0 where
    pub clients : v.clients ≡ w.clients
    pub live : v.live ≡ w.live
    pub xray_users : v.xray_users ≡ (if xray then desired_xray env w.clients else w.xray_users)
    pub hy2_users : v.hy2_users ≡ (if hy2 then desired_hy2 env w.clients else w.hy2_users)

  pub sync_xray-done :
      (b : Bool) (w : World State)
      → (when b (sync_xray wg env) w).1 ≡ none
      → IsSynced b false w (when b (sync_xray wg env) w).0
  unfolding sync_xray call
  sync_xray-done false w h = record {
    clients = refl;
    live = refl;
    xray_users = refl;
    hy2_users = refl;
  }
  sync_xray-done true w h = record {
    clients = ground arith;
    live = ground arith;
    xray_users = ground arith;
    hy2_users = ground arith;
  }

  pub sync_hysteria-done :
      (b : Bool) (w : World State)
      → (when b (sync_hysteria wg env) w).1 ≡ none
      → IsSynced false b w (when b (sync_hysteria wg env) w).0
  unfolding sync_hysteria call
  sync_hysteria-done false w h = record {
    clients = refl;
    live = refl;
    xray_users = refl;
    hy2_users = refl;
  }
  sync_hysteria-done true w h = record {
    clients = ground arith;
    live = ground arith;
    xray_users = ground arith;
    hy2_users = ground arith;
  }

  -- After the syncs of a client, the list that its credential stands in is the one wanted.
  sync_users-done :
      (c : Client) (w : World State)
      → (sync_users wg env c w).1 ≡ none
      → IsSynced (has_xray_id c) (has_hy2_password c) w (sync_users wg env c w).0
  sync_users-done c w h =
      let between = when (has_xray_id c) (sync_xray wg env) w in
      let (first, e) =
        continue_with-done (when (has_hy2_password c) (sync_hysteria wg env)) between h in
      let x = sync_xray-done (has_xray_id c) w first in
      let y = sync_hysteria-done (has_hy2_password c) between.0 (sym (ap (λ p. p.1) e) ∙ h) in
      record {
        clients = ap (λ p. p.0.clients) e ∙ (y.clients ∙ x.clients);
        live = ap (λ p. p.0.live) e ∙ (y.live ∙ x.live);
        xray_users = ap (λ p. p.0.xray_users) e ∙ (y.xray_users ∙ x.xray_users);
        hy2_users =
            ap (λ p. p.0.hy2_users) e
            ∙ (y.hy2_users
                ∙ ap₂ (λ cs us. if has_hy2_password c then desired_hy2 env cs else us) x.clients
                    x.hy2_users);
      }

  -- `v` is `w` with another live state.
  pub record IsLive (s : State) (w v : World State) : Type 0 where
    pub live : v.live ≡ s
    pub clients : v.clients ≡ w.clients
    pub xray_users : v.xray_users ≡ w.xray_users
    pub hy2_users : v.hy2_users ≡ w.hy2_users

  wg_remove-done :
      (b : Bool) (k : Text) (w : World State)
      → (when b (wg_remove_client wg env k) w).1 ≡ none
      → IsLive
          (if b then remove_peer k w.live else w.live)
          w
          (when b (wg_remove_client wg env k) w).0
  unfolding wg_remove_client call
  wg_remove-done false k w h = record {
    live = refl;
    clients = refl;
    xray_users = refl;
    hy2_users = refl;
  }
  wg_remove-done true k w h = record {
    live = ground arith;
    clients = ground arith;
    xray_users = ground arith;
    hy2_users = ground arith;
  }

  wg_resume-done :
      (b : Bool) (k ip : Text) (w : World State)
      → (when b (wg_resume_client wg env k ip) w).1 ≡ none
      → IsLive
          (if b then set_peer k ip w.live else w.live)
          w
          (when b (wg_resume_client wg env k ip) w).0
  unfolding wg_resume_client call
  wg_resume-done false k ip w h = record {
    live = refl;
    clients = refl;
    xray_users = refl;
    hy2_users = refl;
  }
  wg_resume-done true k ip w h = record {
    live = ground arith;
    clients = ground arith;
    xray_users = ground arith;
    hy2_users = ground arith;
  }

  -- Live state, table and user lists after a chain of the three parts.
  pub record IsChanged (s : State) (cs : Clients) (c : Client) (w v : World State) : Type 0 where
    pub live : v.live ≡ s
    pub clients : v.clients ≡ cs
    pub xray_users : v.xray_users ≡ (if has_xray_id c then desired_xray env cs else w.xray_users)
    pub hy2_users : v.hy2_users ≡ (if has_hy2_password c then desired_hy2 env cs else w.hy2_users)

  IsChanged-on_table :
      (c : Client) (f : Clients → Clients) (live : State) (w v : World State)
      → IsLive live w v
      → ((on_table f >> sync_users wg env c) v).1 ≡ none
      → IsChanged live (f w.clients) c w ((on_table f >> sync_users wg env c) v).0
  IsChanged-on_table c f live w v l h =
      let s = sync_users-done c (record v { clients = f v.clients }) h in
      let same = ap f l.clients in
      record {
        live = s.live ∙ l.live;
        clients = s.clients ∙ same;
        xray_users =
            s.xray_users
            ∙ ap₂ (λ cs us. if has_xray_id c then desired_xray env cs else us) same l.xray_users;
        hy2_users =
            s.hy2_users
            ∙ ap₂ (λ cs us. if has_hy2_password c then desired_hy2 env cs else us) same l.hy2_users;
      }

  pub suspended_by :
      (c : Client) (reason : Reason) (w : World State)
      → (suspend_client wg env c reason w).1 ≡ none
      → IsChanged
          (if has_wg_key c then remove_peer (text_or_empty c.wg_pubkey) w.live else w.live)
          (set_client_active c.id false (some reason) w.clients)
          c
          w
          (suspend_client wg env c reason w).0
  unfolding suspend_client
  suspended_by c reason w h =
      let k = text_or_empty c.wg_pubkey in
      let rest = on_table (set_client_active c.id false (some reason)) >> sync_users wg env c in
      let removed = when (has_wg_key c) (wg_remove_client wg env k) w in
      let (first, e) = continue_with-done rest removed h in
      let live = wg_remove-done (has_wg_key c) k w first in
      subst
        (λ p.
          IsChanged (if has_wg_key c then remove_peer k w.live else w.live)
            (set_client_active c.id false (some reason) w.clients) c w p.0)
        (sym e)
        (IsChanged-on_table c (set_client_active c.id false (some reason)) _ w removed.0 live
          (sym (ap (λ p. p.1) e) ∙ h))

  pub resumed_by :
      (c : Client) (w : World State)
      → (resume_client wg env c w).1 ≡ none
      → IsChanged
          (if has_wg_key c && is_present c.wg_ip
            then set_peer (text_or_empty c.wg_pubkey) (text_or_empty c.wg_ip) w.live
            else w.live)
          (set_client_active c.id true none w.clients)
          c
          w
          (resume_client wg env c w).0
  unfolding resume_client
  resumed_by c w h =
      let k = text_or_empty c.wg_pubkey in
      let ip = text_or_empty c.wg_ip in
      let rest = on_table (set_client_active c.id true none) >> sync_users wg env c in
      let removed = when (has_wg_key c && is_present c.wg_ip) (wg_resume_client wg env k ip) w in
      let (first, e) = continue_with-done rest removed h in
      let live = wg_resume-done (has_wg_key c && is_present c.wg_ip) k ip w first in
      subst
        (λ p.
          IsChanged (if has_wg_key c && is_present c.wg_ip then set_peer k ip w.live else w.live)
            (set_client_active c.id true none w.clients) c w p.0)
        (sym e)
        (IsChanged-on_table c (set_client_active c.id true none) _ w removed.0 live
          (sym (ap (λ p. p.1) e) ∙ h))
