-- ===== src/Client/Table.antt =====
-- The table `clients`. A quota is a number of thousandths of a gigabyte, an expiry a text,
-- another DATETIME a number of seconds; is_active is 1 (true) or 0.
use vpn_relay.Prelude.{
  ℕ, ◌/◌, leb, Text, text_eq, if◌then◌else◌, Bool, true, false, not, ◌&&◌, ◌||◌, Option, none, some,
  List, [], ◌∷◌, keep,
}

pub data ClientType : Type 0 where
  wg xray both hysteria2 : ClientType

pub data Transport : Type 0 where
  over_xray over_hy2 : Transport

pub data Reason : Type 0 where
  manual daily_quota monthly_quota expired abnormal_traffic : Reason

pub data Route : Type 0 where
  direct relay : Route

-- A text in the column expires_at: `iso at` is what `toISOString` gives for the time `at`; `entered s at` is
-- a text `s` that came with a request, in which `Date` reads the time `at`.
pub data Expiry : Type 0 where
  iso : ℕ → Expiry
  entered : Text → ℕ → Expiry

-- `new Date(expires_at)`
abbrev pub instant : Expiry → ℕ
instant (iso at) = at
instant (entered s at) = at

pub record Client : Type 0 where
  pub id : Text
  pub name : Text
  pub type : ClientType
  pub wg_ip : Option Text
  pub wg_pubkey : Option Text
  pub xray_uuid : Option Text
  pub hy2_password : Option Text
  pub created_at : ℕ
  pub expires_at : Option Expiry
  pub is_active : Bool
  pub daily_quota_gb : Option ℕ
  pub monthly_quota_gb : Option ℕ
  pub suspend_reason : Option Reason
  pub wg_cascade_transport : Transport
  pub sub_token : Option Text
  pub last_seen_at : Option ℕ
  pub last_ip : Option Text
  pub last_ip_isp : Option Text
  pub last_connection_route : Option Route

abbrev pub Clients : Type 0
Clients = List Client

abbrev pub is_wg : ClientType → Bool
is_wg wg = true
is_wg both = true
is_wg xray = false
is_wg hysteria2 = false

abbrev pub is_xray : ClientType → Bool
is_xray xray = true
is_xray both = true
is_xray wg = false
is_xray hysteria2 = false

abbrev pub is_hysteria2 : ClientType → Bool
is_hysteria2 hysteria2 = true
is_hysteria2 wg = false
is_hysteria2 xray = false
is_hysteria2 both = false

-- `!!s`: a text that is neither null nor empty
abbrev pub is_present : Option Text → Bool
is_present none = false
is_present (some []) = false
is_present (some (c ∷ s)) = true

-- `isSubscriptionCapable` of packages/shared/src/subscription.ts
unfoldable pub is_subscription_capable : ClientType → Option Text → Option Text → Bool
is_subscription_capable type xray_uuid hy2_password =
    if is_xray type
    then is_present xray_uuid
    else if is_hysteria2 type
    then is_present hy2_password
    else false

-- `getClientById`
unfoldable pub get_client : Clients → Text → Option Client
get_client [] id = none
get_client (c ∷ cs) id = if text_eq c.id id then some c else get_client cs id

-- ORDER BY created_at DESC; rows of one second stay in the order of the table.
abbrev pub insert_newest : Client → Clients → Clients
insert_newest c [] = c ∷ []
insert_newest c (d ∷ ds) =
    let rest = insert_newest c ds in if leb d.created_at c.created_at then c ∷ d ∷ ds else d ∷ rest

-- `getAllClients`
unfoldable pub get_all_clients : Clients → Clients
get_all_clients [] = []
get_all_clients (c ∷ cs) = insert_newest c (get_all_clients cs)

-- UPDATE clients SET … WHERE id = ?
unfoldable pub update_client : Text → (Client → Client) → Clients → Clients
update_client id f [] = []
update_client id f (c ∷ cs) = (if text_eq c.id id then f c else c) ∷ update_client id f cs

-- `setClientActive`
abbrev pub with_active : Bool → Option Reason → Client → Client
with_active true reason c = record c { is_active = true; suspend_reason = none }
with_active false reason c = record c { is_active = false; suspend_reason = reason }

unfoldable pub set_client_active : Text → Bool → Option Reason → Clients → Clients
unfolding update_client
set_client_active id active reason = update_client id (with_active active reason)

unfoldable pub update_client_quota : Text → Option ℕ → Option ℕ → Clients → Clients
unfolding update_client
update_client_quota id daily monthly =
    update_client id (λ c. record c { daily_quota_gb = daily; monthly_quota_gb = monthly })

unfoldable pub update_client_expiry : Text → Option Expiry → Clients → Clients
unfolding update_client
update_client_expiry id expires_at = update_client id (λ c. record c { expires_at = expires_at })

unfoldable pub update_client_name : Text → Text → Clients → Clients
unfolding update_client
update_client_name id name = update_client id (λ c. record c { name = name })

unfoldable pub update_client_transport : Text → Transport → Clients → Clients
unfolding update_client
update_client_transport id transport =
    update_client id (λ c. record c { wg_cascade_transport = transport })

-- `setClientSubToken`
unfoldable pub update_client_token : Text → Text → Clients → Clients
unfolding update_client
update_client_token id token = update_client id (λ c. record c { sub_token = some token })

-- `updateLastSeen` and `updateClientIp`
unfoldable pub update_last_seen : ℕ → Text → Clients → Clients
unfolding update_client
update_last_seen now id = update_client id (λ c. record c { last_seen_at = some (now / 1000) })

unfoldable pub update_client_ip : Text → Text → Option Text → Option Route → Clients → Clients
unfolding update_client
update_client_ip id ip isp route =
    update_client id
      (λ c. record c { last_ip = some ip; last_ip_isp = isp; last_connection_route = route })

-- `getClientBySubToken` and `getClientByName`
abbrev pub has_text : Text → Option Text → Bool
has_text s none = false
has_text s (some t) = text_eq t s

unfoldable pub get_client_by_sub_token : Clients → Text → Option Client
get_client_by_sub_token [] token = none
get_client_by_sub_token (c ∷ cs) token =
    if has_text token c.sub_token then some c else get_client_by_sub_token cs token

unfoldable pub get_client_by_name : Clients → Text → Option Client
get_client_by_name [] name = none
get_client_by_name (c ∷ cs) name =
    if text_eq c.name name then some c else get_client_by_name cs name

unfoldable pub delete_client_row : Text → Clients → Clients
delete_client_row id [] = []
delete_client_row id (c ∷ cs) =
    let rest = delete_client_row id cs in if text_eq c.id id then rest else c ∷ rest

-- `getActiveClients`
unfoldable pub get_active_clients : Clients → Clients
get_active_clients = keep (λ c. c.is_active)

abbrev is_set : Option ℕ → Bool
is_set none = false
is_set (some n) = true

abbrev pub has_quota : Client → Bool
has_quota c = c.is_active && (is_set c.daily_quota_gb || is_set c.monthly_quota_gb)

-- `getClientsWithQuotas`
unfoldable pub get_clients_with_quotas : Clients → Clients
get_clients_with_quotas = keep has_quota

abbrev pub same_reason : Reason → Option Reason → Bool
same_reason r none = false
same_reason daily_quota (some daily_quota) = true
same_reason monthly_quota (some monthly_quota) = true
same_reason manual (some manual) = true
same_reason expired (some expired) = true
same_reason abnormal_traffic (some abnormal_traffic) = true
same_reason _ (some _) = false

-- `getQuotaSuspendedClients`
unfoldable pub get_quota_suspended_clients : Reason → Clients → Clients
get_quota_suspended_clients reason =
    keep (λ c. not c.is_active && same_reason reason c.suspend_reason)

abbrev pub routes_over_hy2 : Transport → Bool
routes_over_hy2 over_hy2 = true
routes_over_hy2 over_xray = false

abbrev is_some : Option Text → Bool
is_some none = false
is_some (some s) = true

-- `getWgHy2RouteClients`
unfoldable pub get_wg_hy2_route_clients : Clients → Clients
get_wg_hy2_route_clients =
    keep (λ c. is_wg c.type && is_some c.wg_ip && routes_over_hy2 c.wg_cascade_transport)
