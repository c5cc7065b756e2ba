-- ===== src/Tests/Requests.antt =====
-- A create, a refused request and a rotated link, over the world of Tests/Clients.
use vpn_relay.Prelude.{Text, text, text_eq, ◌≡◌, refl, none, some, [], ◌∷◌}
use vpn_relay.Prelude.Result.{ok}
use vpn_relay.Client.Table.{Client, wg, over_xray, get_client, is_subscription_capable}
use vpn_relay.Wg.Conf.{ip_octet}
use vpn_relay.Client.World.{desired_peers}
use vpn_relay.Client.Create.{Order, Fresh, create_client}
use vpn_relay.Client.Create.Created.{IsCreated, create_client-IsCreated}
use vpn_relay.Subscription.{Uris, Usage}
use vpn_relay.Subscription.Routes.{get_sub, post_rotate, not_found}
use vpn_relay.Subscription.Rotated.{get_sub-post_rotate}
use vpn_relay.Api.Clients.{Request, patch, rename, handle}
use vpn_relay.Api.Clients.Refused.{handle-refused}
use vpn_relay.Tests.Clients.{peers, env, alice, world, key, calendar}

abbrev order : Order
order = record {
  name = text "bob";
  type = wg;
  ttl_days = some 7;
  daily_quota_gb = none;
  monthly_quota_gb = none;
  transport = over_xray;
}

abbrev fresh : Fresh
fresh = record {
  id = text "2";
  pubkey = key;
  xray_uuid = text "U";
  hy2_password = text "P";
  sub_token = text "T";
  now = 1700000000000;
  swept_at = 1700000000500;
  reserved_at = 1700000001000;
}

create_client-IsCreated_example :
    IsCreated peers env order fresh
      (world (alice ∷ []))
      (create_client peers env order fresh (world (alice ∷ []))).0
unfolding create_client text_eq ip_octet desired_peers
create_client-IsCreated_example =
    create_client-IsCreated peers env order fresh (world (alice ∷ [])) refl

-- A rename to the name that another client has.
abbrev other : Client
other = record alice { id = text "2"; name = text "bob" }

abbrev taken : Request
taken = patch 0 (text "1") (rename (some (text "bob")))

handle-refused_example :
    (handle peers env calendar taken (world (alice ∷ other ∷ []))).0 ≡ world (alice ∷ other ∷ [])
unfolding handle text_eq
handle-refused_example = handle-refused peers env calendar taken (world (alice ∷ other ∷ [])) refl

abbrev uris : Uris
uris = record {
  vless = λ name uuid. ok (record { direct = name; relay = none });
  hy2 = λ name password. ok (record { direct = name; relay = none });
  base64 = λ s. s;
}

abbrev no_usage : Text → Usage
no_usage id = record { daily_used_bytes = 0; monthly_used_bytes = 0 }

abbrev subscribed : Client
subscribed = record alice { sub_token = some (text "old") }

get_sub-post_rotate_example :
    get_sub uris no_usage 0
      (text "old")
      (post_rotate (some (text "https://vpn")) (text "new") (text "1") (subscribed ∷ [])).0
    ≡ not_found
unfolding get_client is_subscription_capable text_eq
get_sub-post_rotate_example =
    get_sub-post_rotate uris no_usage 0 (some (text "https://vpn")) (text "old") (text "new")
      (text "1") subscribed (subscribed ∷ []) refl refl (λ e. refl, tt) refl
