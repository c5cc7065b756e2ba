-- ===== src/Tests/Clients.antt =====
-- One client with WireGuard and XRay, over a WireGuard that keeps its peers in a dictionary.
use vpn_relay.Prelude.{
  text_leb, All, ltb, ◌<◌, ◌≤◌, ℕ, arith, ◌/◌, Text, text, text_eq, ◌≡◌, refl, true, false, ◌&&◌,
  none, some, [], ◌∷◌, text_eq_refl,
}
use vpn_relay.Prelude.Dict.{Dict, get, put, remove, get-put, get-remove}
use vpn_relay.Prelude.Int.{pos}
use vpn_relay.Client.Table.{
  Client, Clients, iso, entered, update_client_expiry, both, over_xray, manual, daily_quota,
  monthly_quota, get_client, set_client_active, with_active, is_present,
}
use vpn_relay.Client.Usage.{Calendar, monthly_usage}
use vpn_relay.Wg.Conf.{render_conf}
use vpn_relay.Client.Peers.{sync_peers_from_db-answered}
use vpn_relay.Client.Expiry.{DateTexts, last_day, has_passed, get_expired_clients, run_ttl, day_ms}
use vpn_relay.Client.Expiry.Entered.{get_expired_clients-update_client_expiry}
use vpn_relay.Client.Expiry.Late.{has_passed_lem, run_ttl-suspends}
use vpn_relay.Client.World.{
  desired_peers, lost, call_failed, Wireguard, World, Env, desired_xray, desired_hy2,
}
use vpn_relay.Client.Commands.{sync_peers_from_db, call, wg_remove_client, sync_xray}
use vpn_relay.Client.Service.{
  suspend_client, resume_client, has_wg_key, has_xray_id, has_hy2_password,
}
use vpn_relay.Client.Access.{
  suspend_client-unreached, suspend_client-revokes, resume_client-suspend_client,
}
use vpn_relay.Client.Quota.{run_quota, monthly_phase, daily_reset, enforce, Keys, is_exceeded}
use vpn_relay.Client.Quota.Reopened.{monthly_phase-daily_reset}
use vpn_relay.Client.Quota.Enforced.{run_quota-enforces, is_over}

pub get-put_same : (k ip : Text) (s : Dict Text) → get (put s k ip) k ≡ some ip
get-put_same k ip s = rw (get-put, text_eq_refl k)

abbrev pub peers : Wireguard
peers = record {
  State = Dict Text;
  set_peer = λ k ip s. put s k ip;
  remove_peer = λ k s. remove s k;
  sync_conf = λ conf s. s;
  allowed_ip = get;
  allowed_ip-set_peer = get-put_same;
  allowed_ip-remove_peer = λ k j s. get-remove s k j;
}

abbrev pub env : Env
env = record {
  standalone = false;
  xray_wg_uplink_uuid = [];
  xray_flow = [];
  hy2_uplink_password = [];
  has_vless_inbound = true;
  has_hy2_inbound = true;
  has_hy2_uplink = false;
}

abbrev pub key : Text
key = text "AAAAAAAAAAAAAAAAAAAAAAAAAAAAAAAAAAAAAAAAAAA="

abbrev pub alice : Client
alice = record {
  id = text "1";
  name = text "alice";
  type = both;
  wg_ip = some (text "10.66.0.7");
  wg_pubkey = some (key);
  xray_uuid = some (text "U");
  hy2_password = none;
  created_at = 0;
  expires_at = none;
  is_active = true;
  daily_quota_gb = some 1000;
  monthly_quota_gb = some 5000;
  suspend_reason = none;
  wg_cascade_transport = over_xray;
  sub_token = none;
  last_seen_at = none;
  last_ip = none;
  last_ip_isp = none;
  last_connection_route = none;
}

abbrev pub world : Clients → World (Dict Text)
world cs = record {
  clients = cs;
  snapshots = [];
  live = (key, text "10.66.0.7") ∷ [];
  conf = [];
  reserved = [];
  xray_users = [];
  hy2_users = [];
  rules = [];
  replies = [];
}

suspended : (suspend_client peers env alice manual (world (alice ∷ []))).1 ≡ none
unfolding suspend_client wg_remove_client sync_xray call
suspended = refl

suspend_client-revokes_example :
    let v = (suspend_client peers env alice manual (world (alice ∷ []))).0 in
    (v.clients ≡ set_client_active (text "1") false (some manual) (alice ∷ []))
    × ((has_wg_key alice ≡ true → get v.live (key) ≡ none)
        × ((has_xray_id alice ≡ true → v.xray_users ≡ desired_xray env v.clients)
            × (has_hy2_password alice ≡ true → v.hy2_users ≡ desired_hy2 env v.clients)))
suspend_client-revokes_example =
    suspend_client-revokes peers env alice manual (world (alice ∷ [])) suspended

resume_client-suspend_client_example :
    let v =
      resume_client peers env
        (with_active false (some manual) alice)
        (suspend_client peers env alice manual (world (alice ∷ []))).0 in
    (v.1 ≡ none)
    × ((v.0.clients ≡ alice ∷ [])
        × (((has_wg_key alice && is_present alice.wg_ip) ≡ true
              → get v.0.live (key) ≡ some (text "10.66.0.7"))
            × ((has_xray_id alice ≡ true → v.0.xray_users ≡ desired_xray env (alice ∷ []))
                × (has_hy2_password alice ≡ true → v.0.hy2_users ≡ desired_hy2 env (alice ∷ [])))))
resume_client-suspend_client_example =
    resume_client-suspend_client peers env alice manual (world (alice ∷ []))
      (record { cascade = refl; vless = refl; hy2 = refl; replies = refl }) refl refl
      (λ e. refl, tt)

abbrev pub calendar : Calendar
calendar = record { local_day = λ t. t / 86400; local_month = λ t. t / 2592000 }

abbrev at_midnight : Keys
at_midnight = record { last_day = 0; last_month = 0 }

still_active :
    get_client
      (run_quota peers env calendar
        (pos 3)
        (λ d. d / 30)
        90000000
        at_midnight
        (world (alice ∷ []))).1.clients
      (text "1")
    ≡ some alice
unfolding run_quota enforce get_client text_eq monthly_usage
still_active = refl

run_quota-enforces_example : is_over calendar (90000000 / 1000) [] alice ≡ false
run_quota-enforces_example =
    run_quota-enforces peers env calendar (pos 3) (λ d. d / 30) 90000000 at_midnight
      (world (alice ∷ [])) (text "1") alice refl refl still_active refl

abbrev out : Client
out = with_active false (some daily_quota) alice

found_out : get_client (out ∷ []) (text "1") ≡ some out
unfolding get_client text_eq
found_out = refl

abbrev drained : Client
drained = record out { monthly_quota_gb = some 0 }

found_drained : get_client (drained ∷ []) (text "1") ≡ some drained
unfolding get_client text_eq
found_drained = refl

over_monthly : is_exceeded (monthly_usage calendar 90000 (text "1") []) (some 0) ≡ true
unfolding monthly_usage
over_monthly = refl

monthly_phase-daily_reset_example :
    let v = (daily_reset peers env calendar 90000 drained (world (drained ∷ []))).0 in
    (get_client v.clients (text "1") ≡ some (with_active false (some monthly_quota) drained))
    × (get_client (monthly_phase peers env calendar true v).clients (text "1")
        ≡ some (with_active true none drained))
monthly_phase-daily_reset_example =
    monthly_phase-daily_reset peers env calendar 90000 drained (world (drained ∷ [])) refl refl
      found_drained over_monthly

abbrev cut_off : World (Dict Text)
cut_off = record (world (alice ∷ [])) { replies = lost ∷ [] }

suspend_client-unreached_example :
    suspend_client peers env alice daily_quota cut_off ≡ (world (alice ∷ []), some call_failed)
suspend_client-unreached_example =
    suspend_client-unreached peers env alice daily_quota cut_off [] refl refl refl

later_sorts :
    (day later : ℕ) (s t : Text)
    → day < later
    → later < last_day
    → (text_leb (0 ∷ day ∷ s) (0 ∷ later ∷ t) ≡ true)
      × (text_leb (0 ∷ later ∷ t) (0 ∷ day ∷ s) ≡ false)
unfolding text_leb
later_sorts day later s t h bound = ground arith

-- A day is written as one character behind a 0, and a time not at all.
abbrev days : DateTexts
days = record {
  date = λ day. 0 ∷ day ∷ [];
  time_ms = λ t. [];
  time_s = λ t. [];
  date-later = later_sorts;
  date-digit = λ day h. (0, day ∷ [], omega arith, refl);
}

-- Ten seconds to midnight, eleven hours after the expiry.
has_passed_lem_example :
    has_passed days 86390000 (some (iso 46800000)) ≡ ltb (46800000 / day_ms) (86390000 / day_ms)
has_passed_lem_example =
    has_passed_lem days 86390000 46800000 (iso 46800000) refl (omega arith) (omega arith)

abbrev short : Client
short = record alice { expires_at = some (iso 46800000) }

left_active :
    get_client (run_ttl days peers env 86390000 (world (short ∷ []))).clients (text "1")
    ≡ some short
unfolding run_ttl get_client text_eq text_leb
left_active = refl

run_ttl-suspends_example : 86390000 / day_ms ≤ 46800000 / day_ms
run_ttl-suspends_example =
    run_ttl-suspends days peers env 86390000 (world (short ∷ [])) (text "1") short (iso 46800000)
      46800000 refl refl left_active refl refl refl (omega arith) (omega arith)

get_expired_clients-update_client_expiry_example :
    All
      (λ c. text_eq c.id (text "1") ≡ false)
      (get_expired_clients days 2000000000000 (
        update_client_expiry
          (text "1")
          (some (entered (text "Jan 1 2030") 1893456000000))
          (alice ∷ [])))
get_expired_clients-update_client_expiry_example =
    get_expired_clients-update_client_expiry days 2000000000000 74 1893456000000 (text "an 1 2030")
      (text "1") (alice ∷ []) (omega arith) (omega arith)

sync_peers_from_db-answered_example :
    let v = sync_peers_from_db peers env (world (out ∷ [])) in
    (v.1 ≡ none)
    × ((v.0.conf ≡ render_conf [] (desired_peers (out ∷ [])))
        × All (λ p. p.active ≡ false → get v.0.live p.pubkey ≡ none) (desired_peers (out ∷ [])))
sync_peers_from_db-answered_example =
    sync_peers_from_db-answered peers env (world (out ∷ [])) refl refl
