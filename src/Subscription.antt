-- ===== src/Subscription.antt =====
-- services/subscription.service.ts: the link of a client, and the answer to GET /sub/<token>. Base64 and
-- the generators of URIs, which read the key files, are the parameter `Uris`.
pub mod Routes
pub mod Rotated
use vpn_relay.Prelude.{
  ℕ, ◌+◌, ◌-◌, ◌*◌, ◌/◌, Text, text, decimal, ltb, leb, ◌==◌, if◌then◌else◌, Bool, true, false, not,
  ◌&&◌, ◌||◌, Option, none, some, List, [], ◌∷◌, ◌++◌, length,
}
use vpn_relay.Prelude.Result.{Result, ok, err, ◌>>=◌}
use vpn_relay.Client.Table.{
  Client, instant, Reason, daily_quota, monthly_quota, same_reason, is_xray, is_hysteria2,
  is_present, is_subscription_capable,
}
use vpn_relay.Client.World.{text_or_empty}

pub record UriPair : Type 0 where
  pub direct : Text
  pub relay : Option Text

-- `generateVlessUris` and `generateUris` fail where a key file is missing.
pub record Uris : Type 0 where
  pub vless : Text → Text → Result Text UriPair
  pub hy2 : Text → Text → Result Text UriPair
  pub base64 : Text → Text

pub record Usage : Type 0 where
  pub daily_used_bytes : ℕ
  pub monthly_used_bytes : ℕ

abbrev pub gib : ℕ
gib = 1073741824

-- `Math.round(quota_gb * GIB)` of a number of thousandths
abbrev pub quota_bytes : ℕ → ℕ
quota_bytes quota = (quota * gib + 500) / 1000

-- The download and the total of the header.
pub record Plan : Type 0 where
  pub download : ℕ
  pub total : ℕ

abbrev plan_of : Option ℕ → Option ℕ → Usage → Plan
plan_of (some monthly) daily u = record {
  download = u.monthly_used_bytes;
  total = quota_bytes monthly;
}
plan_of none (some daily) u = record { download = u.daily_used_bytes; total = quota_bytes daily }
plan_of none none u = record { download = u.monthly_used_bytes; total = 0 }

abbrev is_quota_reason : Option Reason → Bool
is_quota_reason r = same_reason daily_quota r || same_reason monthly_quota r

-- A client suspended for its quota has used it all.
unfoldable pub plan : Client → Usage → Plan
plan c u =
    let p = plan_of c.monthly_quota_gb c.daily_quota_gb u in
    if not c.is_active && (is_quota_reason c.suspend_reason && ltb 0 p.total)
    then record p { download = p.total }
    else p

abbrev expire_part : Client → ℕ → Text
expire_part c now =
    if not c.is_active
    then text "; expire=" ++ decimal (now / 1000 - 1)
    else elim c.expires_at [ none ↦ [] | some e ↦ text "; expire=" ++ decimal (instant e / 1000) ]

-- `buildSubscriptionUserinfo`
unfoldable pub build_subscription_userinfo : Client → Usage → ℕ → Text
unfolding plan decimal
build_subscription_userinfo c u now =
    let p = plan c u in
    text "upload=0; download="
    ++ (decimal p.download ++ (text "; total=" ++ (decimal p.total ++ expire_part c now)))

abbrev relay_lines : Option Text → Text
relay_lines none = []
relay_lines (some []) = []
relay_lines (some (c ∷ s)) = 10 ∷ c ∷ s

-- `safeFilename`
abbrev safe_unit : ℕ → ℕ
safe_unit c =
    if (leb b'A' c && leb c b'Z')
      || ((leb b'a' c && leb c b'z')
          || ((leb b'0' c && leb c b'9') || (c == b'_' || (c == b'.' || c == b'-'))))
    then c
    else b'_'

abbrev safe_units : Text → Text
safe_units [] = []
safe_units (c ∷ s) = safe_unit c ∷ safe_units s

abbrev or_subscription : Text → Text
or_subscription [] = text "subscription"
or_subscription (c ∷ s) = c ∷ s

-- The headers that depend on the client; the others are constants.
pub record SubResponse : Type 0 where
  pub body : Text
  pub userinfo : Text
  pub profile_title : Text
  pub content_disposition : Text

-- `buildSubUrl`: without the slashes at the end of the base
abbrev pub trim_slashes : Text → Text
trim_slashes [] = []
trim_slashes (c ∷ s) =
    let rest = trim_slashes s in if c == b'/' && length rest == 0 then [] else c ∷ rest

abbrev url_of : Option Text → Text → Option Text
url_of none token = none
url_of (some []) token = none
url_of (some (c ∷ base)) token = some (trim_slashes (c ∷ base) ++ (text "/sub/" ++ token))

-- `subscriptionUrl`
unfoldable pub subscription_url : Option Text → Client → Option Text
unfolding is_subscription_capable
subscription_url tma_url c =
    if not (is_present c.sub_token)
      || not (is_subscription_capable c.type c.xray_uuid c.hy2_password)
    then none
    else url_of tma_url (text_or_empty c.sub_token)

abbrev then_some : {A : Type 0} → Result Text A → Result Text (Option A)
then_some (ok a) = ok (some a)
then_some (err e) = err e

module _ (uris : Uris) where
  -- `buildSubResponse`
  unfoldable pub build_sub_response : Client → UriPair → Usage → ℕ → SubResponse
  unfolding build_subscription_userinfo
  build_sub_response c pair u now = record {
    body = uris.base64 (pair.direct ++ relay_lines pair.relay);
    userinfo = build_subscription_userinfo c u now;
    profile_title = text "base64:" ++ uris.base64 c.name;
    content_disposition =
        text "attachment; filename=" ++ (or_subscription (safe_units c.name) ++ text ".txt");
  }

  -- `clientUriPair`
  unfoldable pub client_uri_pair : Client → Result Text (Option UriPair)
  client_uri_pair c =
      if is_xray c.type && is_present c.xray_uuid
      then then_some (uris.vless c.name (text_or_empty c.xray_uuid))
      else if is_hysteria2 c.type && is_present c.hy2_password
      then then_some (uris.hy2 c.name (text_or_empty c.hy2_password))
      else ok none

  abbrev respond : Client → Usage → ℕ → Option UriPair → Result Text (Option SubResponse)
  respond c u now none = ok none
  respond c u now (some pair) = ok (some (build_sub_response c pair u now))

  -- `resolveSubResponse`
  unfoldable pub resolve_sub_response : Client → Usage → ℕ → Result Text (Option SubResponse)
  unfolding client_uri_pair build_sub_response
  resolve_sub_response c u now = client_uri_pair c >>= respond c u now
