-- ===== src/Client/Service.antt =====
-- services/client.service.ts: suspend, resume, delete, rename, quota, expiry, transport and tokens.
-- A client passed in is the row that the caller has read.
use vpn_relay.Prelude.{
  ℕ, ltb, Text, text_eq, any, if◌then◌else◌, Bool, true, false, not, ◌&&◌, ◌||◌, Option, none, some,
}
use vpn_relay.Client.Table.{
  Client, Clients, Reason, daily_quota, monthly_quota, expired, Transport, is_wg, is_xray,
  is_hysteria2, is_present, is_subscription_capable, same_reason, routes_over_hy2, get_client,
  Expiry, instant, set_client_active, update_client_quota, update_client_expiry, update_client_name,
  update_client_transport, update_client_token, delete_client_row,
}
use vpn_relay.Client.Usage.{Calendar, daily_usage, monthly_usage, reaches, delete_snapshots}
use vpn_relay.Client.World.{
  Wireguard, World, Env, wg_hy2_available, text_or_empty, not_wireguard, no_hy2_uplink, name_taken,
}
use vpn_relay.Client.Commands.{
  Command, ◌>>◌, done, throw, when, change, wg_remove_client, wg_resume_client, sync_xray,
  sync_hysteria, sync_peers_from_db, sync_routing,
}

abbrev pub has_wg_key : Client → Bool
has_wg_key c = is_wg c.type && is_present c.wg_pubkey

abbrev pub has_xray_id : Client → Bool
has_xray_id c = is_xray c.type && is_present c.xray_uuid

abbrev pub has_hy2_password : Client → Bool
has_hy2_password c = is_hysteria2 c.type && is_present c.hy2_password

abbrev pub on_table : {S : Type 0} → (Clients → Clients) → Command S
on_table f = change (λ w. record w { clients = f w.clients })

-- The quota is gone, or the usage is below it.
abbrev pub is_under : ℕ → Option ℕ → Bool
is_under used none = true
is_under used (some quota) = not (reaches used quota)

-- Another row has the name: the column is UNIQUE.
abbrev pub is_name_taken : Text → Text → Clients → Bool
is_name_taken id name = any (λ c. not (text_eq c.id id) && text_eq c.name name)

abbrev is_later : ℕ → Option Expiry → Bool
is_later now none = true
is_later now (some e) = ltb now (instant e)

module _ (wg : Wireguard) (env : Env) where
  open wg use {State}

  -- The two syncs at the end of suspend, resume and delete.
  abbrev pub sync_users : Client → Command State
  sync_users c =
      when (has_xray_id c) (sync_xray wg env) >> when (has_hy2_password c) (sync_hysteria wg env)

  -- `suspendClient`
  unfoldable pub suspend_client : Client → Reason → Command State
  unfolding wg_remove_client sync_xray sync_hysteria set_client_active
  suspend_client c reason =
      when (has_wg_key c) (wg_remove_client wg env (text_or_empty c.wg_pubkey))
      >> on_table (set_client_active c.id false (some reason))
      >> sync_users c

  -- `resumeClient`
  unfoldable pub resume_client : Client → Command State
  unfolding wg_resume_client sync_xray sync_hysteria set_client_active
  resume_client c =
      when (has_wg_key c && is_present c.wg_ip)
        (wg_resume_client wg env (text_or_empty c.wg_pubkey) (text_or_empty c.wg_ip))
      >> on_table (set_client_active c.id true none)
      >> sync_users c

  -- `deleteClient`
  unfoldable pub delete_client : Client → Command State
  unfolding wg_remove_client sync_xray sync_hysteria delete_client_row sync_peers_from_db
      sync_routing
  delete_client c =
      when (has_wg_key c) (wg_remove_client wg env (text_or_empty c.wg_pubkey))
      >> change (λ w. record w {
        clients = delete_client_row c.id w.clients;
        snapshots = delete_snapshots c.id w.snapshots;
      })
      >> sync_users c
      >> when (is_wg c.type) (sync_peers_from_db wg env >> sync_routing wg env)

  -- `renameClient`
  unfoldable pub rename_client : Client → Text → Command State
  unfolding update_client_name sync_peers_from_db sync_xray sync_hysteria
  rename_client c name =
      (λ w. when (is_name_taken c.id name w.clients) (throw name_taken) w)
      >> on_table (update_client_name c.id name)
      >> when (is_wg c.type) (sync_peers_from_db wg env)
      >> when (is_xray c.type) (sync_xray wg env)
      >> when (is_hysteria2 c.type) (sync_hysteria wg env)

  abbrev resume_found : Option Client → Command State
  resume_found none = done
  resume_found (some c) = resume_client c

  abbrev pub lifts_suspension : Calendar → ℕ → Option ℕ → Option ℕ → Client → World State → Bool
  lifts_suspension cal now daily monthly c w =
      not c.is_active
      && ((same_reason daily_quota c.suspend_reason
            && is_under (daily_usage cal now c.id w.snapshots) daily)
          || (same_reason monthly_quota c.suspend_reason
              && is_under (monthly_usage cal now c.id w.snapshots) monthly))

  abbrev update_quota_of : Calendar → ℕ → Text → Option ℕ → Option ℕ → Option Client → Command State
  update_quota_of cal now id daily monthly none = done
  update_quota_of cal now id daily monthly (some c) =
      on_table (update_client_quota id daily monthly) >> (λ w.
        when (lifts_suspension cal now daily monthly c w) (resume_found (get_client w.clients id))
          w)

  -- `updateQuota`
  unfoldable pub update_quota : Calendar → ℕ → Text → Option ℕ → Option ℕ → Command State
  unfolding resume_client update_client_quota get_client daily_usage monthly_usage
  update_quota cal now id daily monthly w =
      update_quota_of cal now id daily monthly (get_client w.clients id) w

  abbrev update_expiry_of : ℕ → Text → Option Expiry → Option Client → Command State
  update_expiry_of now id expires_at none = done
  update_expiry_of now id expires_at (some c) =
      on_table (update_client_expiry id expires_at)
      >> when (not c.is_active && (same_reason expired c.suspend_reason && is_later now expires_at))
          (λ w. resume_found (get_client w.clients id) w)

  -- `updateExpiry`
  unfoldable pub update_expiry : ℕ → Text → Option Expiry → Command State
  unfolding resume_client update_client_expiry get_client
  update_expiry now id expires_at w = update_expiry_of now id expires_at (get_client w.clients id) w

  -- `updateWgTransport`
  unfoldable pub update_wg_transport : Client → Transport → Command State
  unfolding update_client_transport sync_routing wg_hy2_available
  update_wg_transport c transport w =
      if not (is_wg c.type)
      then (w, some not_wireguard)
      else if routes_over_hy2 transport && not (wg_hy2_available env)
      then (w, some no_hy2_uplink)
      else (on_table (update_client_transport c.id transport) >> sync_routing wg env) w

-- `ensureSubToken` and `rotateSubToken`; the token is random
unfoldable pub ensure_sub_token : Text → Client → Clients → Clients × Client
unfolding is_subscription_capable update_client_token
ensure_sub_token token c cs =
    if not (is_subscription_capable c.type c.xray_uuid c.hy2_password) || is_present c.sub_token
    then (cs, c)
    else (update_client_token c.id token cs, record c { sub_token = some token })

unfoldable pub rotate_sub_token : Text → Client → Clients → Clients × Option Client
unfolding is_subscription_capable update_client_token
rotate_sub_token token c cs =
    if not (is_subscription_capable c.type c.xray_uuid c.hy2_password)
    then (cs, none)
    else (update_client_token c.id token cs, some (record c { sub_token = some token }))
