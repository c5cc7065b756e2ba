-- ===== src/Subscription/Rotated.antt =====
-- A rotated link: what the public route of api/routes/subscription.ts answers to the old token.
use vpn_relay.Prelude.{
  ℕ, Text, text_eq, text_eq-eq, if◌then◌else◌, Bool-cases, true, false, Option, none, some, [], ◌∷◌,
  All, ◌≡◌, refl, ap, inl, inr, arith, text_eq_iff,
}
use vpn_relay.Client.Table.{
  Client, Clients, get_client, get_client_by_sub_token, update_client_token,
  is_subscription_capable, has_text,
}
use vpn_relay.Client.Service.{rotate_sub_token}
use vpn_relay.Subscription.{Uris, Usage}
use vpn_relay.Subscription.Routes.{get_sub, post_rotate, not_found}

-- The row with the token is the one with the id.
abbrev pub IsOnlyIn : Text → Text → Client → Type 0
IsOnlyIn token id c = c.sub_token ≡ some token → c.id ≡ id

has_text-eq : (s : Text) (o : Option Text) → has_text s o ≡ true → o ≡ some s
has_text-eq s none h = cc
has_text-eq s (some t) h = ap some (text_eq-eq t s h)

other_row :
    (old new id : Text) (c : Client)
    → text_eq new old ≡ false
    → IsOnlyIn old id c
    → has_text old (if text_eq c.id id then record c { sub_token = some new } else c).sub_token
      ≡ false
other_row old new id c fresh only = elim (Bool-cases (text_eq c.id id)) [
  | inl e ↦ rw e fresh
  | inr e ↦ elim (Bool-cases (has_text old c.sub_token)) [
    | inl held ↦
        let same : c.id ≡ id = only (has_text-eq old c.sub_token held) in
        absurd (ground (arith, text_eq_iff c.id id))
    | inr free ↦ rw e free
  ]
]

get_client_by_sub_token-rotated :
    (old new id : Text) (cs : Clients)
    → text_eq new old ≡ false
    → All (IsOnlyIn old id) cs
    → get_client_by_sub_token (update_client_token id new cs) old ≡ none
unfolding get_client_by_sub_token update_client_token
get_client_by_sub_token-rotated old new id [] fresh only = refl
get_client_by_sub_token-rotated old new id (c ∷ cs) fresh only =
    rw (other_row old new id c fresh only.0)
      (get_client_by_sub_token-rotated old new id cs fresh only.1)

-- Rotating a link kills the old one: after `POST …/sub/rotate` of a client that can be subscribed to,
-- the public route answers 404 to the token that only its row had, with the new token another one.
pub get_sub-post_rotate :
    (uris : Uris) (usage : Text → Usage) (now : ℕ) (tma_url : Option Text) (old new id : Text)
    (c : Client) (cs : Clients)
    → get_client cs id ≡ some c
    → is_subscription_capable c.type c.xray_uuid c.hy2_password ≡ true
    → All (IsOnlyIn old c.id) cs
    → text_eq new old ≡ false
    → get_sub uris usage now old (post_rotate tma_url new id cs).0 ≡ not_found
unfolding post_rotate rotate_sub_token get_sub
get_sub-post_rotate uris usage now tma_url old new id c cs found capable only fresh =
    rw (found, capable, get_client_by_sub_token-rotated old new c.id cs fresh only) refl
