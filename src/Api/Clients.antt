-- ===== src/Api/Clients.antt =====
-- api/routes/clients.ts: the requests that change a client. A body is what JSON.parse has made of it; the
-- sending of a config to the chat succeeds or throws by a flag.
pub mod Refused
use vpn_relay.Prelude.{
  ℕ, Text, text, text_eq, leb, if◌then◌else◌, Bool, true, false, not, ◌&&◌, ◌||◌, Option, none,
  some, List, [], ◌∷◌,
}
use vpn_relay.Wg.Conf.{is_valid_name}
use vpn_relay.Client.Table.{
  Client, Clients, entered, ClientType, wg, xray, hysteria2, Transport, over_xray, over_hy2, Reason,
  manual, daily_quota, monthly_quota, same_reason, is_wg, get_client, get_client_by_name,
}
use vpn_relay.Client.Usage.{Calendar, daily_usage, monthly_usage, reaches}
use vpn_relay.Client.World.{Wireguard, World, Env, Failure}
use vpn_relay.Client.Commands.{Command}
use vpn_relay.Client.Service.{
  suspend_client, resume_client, rename_client, update_quota, update_expiry, update_wg_transport,
  delete_client,
}
use vpn_relay.Client.Create.{Order, Fresh, create_client}

-- An answer: a row (200), created (201), no content (204), or an error with its status.
pub data ApiReply : Type 0 where
  row : Option Client → ApiReply
  created no_content : ApiReply
  bad_request not_found conflict internal_error : ApiReply

-- A field that is missing, null, or a value.
pub data Field (A : Type 0) : Type 0 where
  missing null : Field A
  value : A → Field A

-- A date of a request: not a date, or its text with the time that `Date` reads in it.
pub data DateInput : Type 0 where
  invalid : DateInput
  date : Text → ℕ → DateInput

pub data Action : Type 0 where
  suspend resume : Action
  rename : Option Text → Action
  set_quota : Field ℕ → Field ℕ → Action
  set_expiry : Field DateInput → Action
  set_transport : Option Text → Action
  unknown : Action

pub record CreateBody : Type 0 where
  pub name : Option Text
  pub type : Option Text
  pub ttl_days : Option ℕ
  pub daily_quota_gb : Option ℕ
  pub monthly_quota_gb : Option ℕ
  pub wg_cascade_transport : Option Text

pub data Request : Type 0 where
  post : CreateBody → Fresh → Bool → Request
  patch : ℕ → Text → Action → Request
  delete : Text → Request

abbrev pub is_name : Option Text → Bool
is_name none = false
is_name (some s) = is_valid_name s

abbrev pub text_of : Option Text → Text
text_of none = []
text_of (some s) = s

-- The types that may be created.
abbrev pub creatable : Text → Option ClientType
creatable s =
    if text_eq s (text "wg")
    then some wg
    else if text_eq s (text "xray")
    then some xray
    else if text_eq s (text "hysteria2")
    then some hysteria2
    else none

abbrev pub transport_of : Option Text → Transport
transport_of none = over_xray
transport_of (some s) = if text_eq s (text "hy2") then over_hy2 else over_xray

abbrev pub order_of : CreateBody → ClientType → Order
order_of body type = record {
  name = text_of body.name;
  type = type;
  ttl_days = body.ttl_days;
  daily_quota_gb = body.daily_quota_gb;
  monthly_quota_gb = body.monthly_quota_gb;
  transport = transport_of body.wg_cascade_transport;
}

abbrev pub or_old : Field ℕ → Option ℕ → Option ℕ
or_old missing old = old
or_old null old = none
or_old (value q) old = some q

abbrev pub is_taken : Option Client → Bool
is_taken none = false
is_taken (some c) = true

abbrev is_exhausted : ℕ → Option ℕ → Bool
is_exhausted used none = false
is_exhausted used (some quota) = reaches used quota

-- Suspended for a quota that is still exhausted.
unfoldable pub is_blocked : Calendar → ℕ → Client → {S : Type 0} → World S → Bool
unfolding daily_usage monthly_usage
is_blocked cal now c w =
    not c.is_active
    && ((same_reason daily_quota c.suspend_reason
          && is_exhausted (daily_usage cal now c.id w.snapshots) c.daily_quota_gb)
        || (same_reason monthly_quota c.suspend_reason
            && is_exhausted (monthly_usage cal now c.id w.snapshots) c.monthly_quota_gb))

module _ {S : Type 0} where
  -- The end of a PATCH: the row as it is then, or 500.
  abbrev pub answer : Text → World S × Option Failure → World S × ApiReply
  answer id (w, none) = (w, row (get_client w.clients id))
  answer id (w, some e) = (w, internal_error)

  abbrev pub answer_with : ApiReply → World S × Option Failure → World S × ApiReply
  answer_with r (w, none) = (w, r)
  answer_with r (w, some e) = (w, internal_error)

  abbrev pub sent_or_not : Bool → World S × Option Failure → World S × ApiReply
  sent_or_not true (w, none) = (w, created)
  sent_or_not false (w, none) = (w, internal_error)
  sent_or_not telegram (w, some e) = (w, internal_error)

module _ (wireguard : Wireguard) (env : Env) (cal : Calendar) where
  open wireguard use {State}

  abbrev pub post_typed :
      CreateBody → Fresh → Bool → Option ClientType → World State → World State × ApiReply
  post_typed body fresh telegram none w = (w, bad_request)
  post_typed body fresh telegram (some type) w =
      if is_taken (get_client_by_name w.clients (text_of body.name))
      then (w, conflict)
      else sent_or_not telegram (create_client wireguard env (order_of body type) fresh w)

  -- POST /api/clients
  unfoldable pub post_client : CreateBody → Fresh → Bool → World State → World State × ApiReply
  unfolding is_valid_name get_client_by_name create_client text_eq
  post_client body fresh telegram w =
      if not (is_name body.name)
      then (w, bad_request)
      else post_typed body fresh telegram (creatable (text_of body.type)) w

  abbrev pub rename_to : Client → Text → World State → World State × ApiReply
  rename_to c name w =
      if not (is_valid_name name)
      then (w, bad_request)
      else if text_eq name c.name
      then (w, row (some c))
      else if is_taken (get_client_by_name w.clients name)
      then (w, conflict)
      else answer c.id (rename_client wireguard env c name w)

  abbrev pub expire_at : ℕ → Client → Field DateInput → World State → World State × ApiReply
  expire_at now c missing w = answer c.id (update_expiry wireguard env now c.id none w)
  expire_at now c null w = answer c.id (update_expiry wireguard env now c.id none w)
  expire_at now c (value invalid) w = (w, bad_request)
  expire_at now c (value (date s at)) w =
      if leb at now
      then (w, bad_request)
      else answer c.id (update_expiry wireguard env now c.id (some (entered s at)) w)

  abbrev pub act : ℕ → Client → Action → World State → World State × ApiReply
  act now c suspend w = answer c.id (suspend_client wireguard env c manual w)
  act now c resume w =
      if is_blocked cal now c w
      then (w, bad_request)
      else answer c.id (resume_client wireguard env c w)
  act now c (rename none) w = (w, bad_request)
  act now c (rename (some name)) w = rename_to c name w
  act now c (set_quota daily monthly) w = answer c.id (
      update_quota wireguard env cal now c.id (or_old daily c.daily_quota_gb)
        (or_old monthly c.monthly_quota_gb) w)
  act now c (set_expiry at) w = expire_at now c at w
  act now c (set_transport transport) w =
      if not (is_wg c.type)
      then (w, bad_request)
      else answer c.id (update_wg_transport wireguard env c (transport_of transport) w)
  act now c unknown w = (w, bad_request)

  abbrev pub on_found :
      (Client → World State → World State × ApiReply)
      → Option Client
      → World State
      → World State × ApiReply
  on_found f none w = (w, not_found)
  on_found f (some c) w = f c w

  -- PATCH /api/clients/:id
  unfoldable pub patch_client : ℕ → Text → Action → World State → World State × ApiReply
  unfolding get_client suspend_client resume_client rename_client update_wg_transport is_blocked
      is_valid_name get_client_by_name
  patch_client now id action w = on_found (λ c v. act now c action v) (get_client w.clients id) w

  -- DELETE /api/clients/:id
  unfoldable pub delete_client_route : Text → World State → World State × ApiReply
  unfolding get_client delete_client
  delete_client_route id w =
      on_found (λ c v. answer_with no_content (delete_client wireguard env c v))
        (get_client w.clients id) w

  -- The routes of `clientsRoutes` that change a client.
  unfoldable pub handle : Request → World State → World State × ApiReply
  unfolding post_client patch_client delete_client_route
  handle (post body fresh telegram) w = post_client body fresh telegram w
  handle (patch now id action) w = patch_client now id action w
  handle (delete id) w = delete_client_route id w
