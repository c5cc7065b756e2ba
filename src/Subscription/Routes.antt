-- ===== src/Subscription/Routes.antt =====
-- api/routes/subscription.ts: the public route of a token, and those by which the admin manages it. The
-- check of the admin's credentials is Api/Auth.
use vpn_relay.Prelude.{ℕ, Text, if◌then◌else◌, Bool, true, false, not, Option, none, some}
use vpn_relay.Prelude.Result.{Result, ok, err}
use vpn_relay.Client.Table.{
  Client, Clients, get_client, get_client_by_sub_token, is_subscription_capable,
}
use vpn_relay.Client.Service.{ensure_sub_token, rotate_sub_token}
use vpn_relay.Subscription.{Uris, Usage, SubResponse, resolve_sub_response, subscription_url}

-- The answer of the public route: 200, 404 or 500.
pub data PublicReply : Type 0 where
  served : SubResponse → PublicReply
  not_found internal_error : PublicReply

abbrev reply_of : Result Text (Option SubResponse) → PublicReply
reply_of (ok (some r)) = served r
reply_of (ok none) = not_found
reply_of (err e) = internal_error

abbrev pub serve : Uris → (Text → Usage) → ℕ → Option Client → PublicReply
serve uris usage now none = not_found
serve uris usage now (some c) =
    if not (is_subscription_capable c.type c.xray_uuid c.hy2_password)
    then not_found
    else reply_of (resolve_sub_response uris c (usage c.id) now)

-- GET and HEAD /sub/:token; `usage` is that of the client with the id
unfoldable pub get_sub : Uris → (Text → Usage) → ℕ → Text → Clients → PublicReply
unfolding get_client_by_sub_token is_subscription_capable resolve_sub_response
get_sub uris usage now token clients = serve uris usage now (get_client_by_sub_token clients token)

pub record SubInfo : Type 0 where
  pub capable : Bool
  pub url : Option Text

pub data SubReply : Type 0 where
  info : SubInfo → SubReply
  -- the answer of rotate-and-send, with `sent`
  rotated : SubInfo → Bool → SubReply
  sent_ok : SubReply
  no_client : SubReply
  not_capable : SubReply
  delivery_failed : SubReply

abbrev info_of : Option Text → Client → SubInfo
info_of tma_url c = record {
  capable = is_subscription_capable c.type c.xray_uuid c.hy2_password;
  url = subscription_url tma_url c;
}

abbrev no_link : SubInfo
no_link = record { capable = false; url = none }

abbrev show_link : Option Text → Text → Client → Clients → Clients × SubReply
show_link tma_url token c cs =
    if not (is_subscription_capable c.type c.xray_uuid c.hy2_password)
    then (cs, info no_link)
    else (let (cs', c') = ensure_sub_token token c cs in (cs', info (info_of tma_url c')))

abbrev pub on_client :
    (Client → Clients → Clients × SubReply) → Option Client → Clients → Clients × SubReply
on_client f none cs = (cs, no_client)
on_client f (some c) cs = f c cs

-- GET /api/clients/:id/sub
unfoldable pub get_link : Option Text → Text → Text → Clients → Clients × SubReply
unfolding get_client is_subscription_capable ensure_sub_token subscription_url
get_link tma_url token id cs = on_client (show_link tma_url token) (get_client cs id) cs

abbrev pub rotated_reply : Option Text → Clients × Option Client → Clients × SubReply
rotated_reply tma_url (cs, none) = (cs, not_capable)
rotated_reply tma_url (cs, some c) = (cs, info (info_of tma_url c))

-- POST /api/clients/:id/sub/rotate
unfoldable pub post_rotate : Option Text → Text → Text → Clients → Clients × SubReply
unfolding get_client rotate_sub_token subscription_url is_subscription_capable
post_rotate tma_url token id cs =
    on_client (λ c cs. rotated_reply tma_url (rotate_sub_token token c cs)) (get_client cs id) cs

abbrev is_link : Option Text → Bool
is_link none = false
is_link (some url) = true

-- `sendSubLinkToChat` throws where there is no link, or where Telegram does not take the message.
abbrev delivers : Option Text → Bool → Client → Bool
delivers tma_url telegram c = if telegram then is_link (subscription_url tma_url c) else false

-- POST /api/clients/:id/sub/send
unfoldable pub post_send : Option Text → Bool → Text → Text → Clients → Clients × SubReply
unfolding get_client ensure_sub_token subscription_url
post_send tma_url telegram token id cs =
    on_client
      (λ c cs.
        let (cs', c') = ensure_sub_token token c cs in
        (cs', if delivers tma_url telegram c' then sent_ok else delivery_failed))
      (get_client cs id) cs

abbrev rotated_and_sent : Option Text → Bool → Clients × Option Client → Clients × SubReply
rotated_and_sent tma_url telegram (cs, none) = (cs, not_capable)
rotated_and_sent tma_url telegram (cs, some c) =
    (cs, rotated (info_of tma_url c) (delivers tma_url telegram c))

-- POST /api/clients/:id/sub/rotate-and-send
unfoldable pub post_rotate_and_send :
    Option Text → Bool → Text → Text → Clients → Clients × SubReply
unfolding get_client rotate_sub_token subscription_url is_subscription_capable
post_rotate_and_send tma_url telegram token id cs =
    on_client (λ c cs. rotated_and_sent tma_url telegram (rotate_sub_token token c cs))
      (get_client cs id) cs
