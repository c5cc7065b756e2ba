-- ===== src/Api/Clients/Refused.antt =====
-- Requests that api/routes/clients.ts refuses.
use vpn_relay.Prelude.{
  ℕ, Text, text_eq, leb, if◌then◌else◌, Bool, true, false, not, Option, none, some, ◌≡◌, refl,
}
use vpn_relay.Wg.Conf.{is_valid_name}
use vpn_relay.Client.Table.{
  Client, entered, ClientType, manual, is_wg, get_client, get_client_by_name,
}
use vpn_relay.Client.Usage.{Calendar}
use vpn_relay.Client.World.{Wireguard, World, Env, Failure}
use vpn_relay.Client.Service.{
  suspend_client, resume_client, rename_client, update_quota, update_expiry, update_wg_transport,
  delete_client,
}
use vpn_relay.Client.Create.{Fresh, create_client}
use vpn_relay.Api.Clients.{
  ApiReply, row, created, no_content, bad_request, not_found, conflict, internal_error, Field,
  missing, null, value, DateInput, invalid, date, Action, suspend, resume, rename, set_quota,
  set_expiry, set_transport, unknown, CreateBody, Request, post, patch, delete, answer, answer_with,
  sent_or_not, post_typed, post_client, patch_client, delete_client_route, expire_at, act, on_found,
  handle, is_blocked, is_taken, text_of, transport_of, or_old, creatable, is_name, order_of,
}

-- 400, 404 and 409
abbrev pub is_refusal : ApiReply → Bool
is_refusal bad_request = true
is_refusal not_found = true
is_refusal conflict = true
is_refusal (row c) = false
is_refusal created = false
is_refusal no_content = false
is_refusal internal_error = false

module _ {S : Type 0} where
  -- A refusal leaves the world `w` as it was.
  record IsHarmless (w : World S) (p : World S × ApiReply) : Type 0 where
    unchanged : is_refusal p.1 ≡ true → p.0 ≡ w

  refused : (w : World S) (r : ApiReply) → IsHarmless w (w, r)
  refused w r = record { unchanged = λ h. refl }

  if-IsHarmless :
      (b : Bool) (w : World S) (p q : World S × ApiReply)
      → IsHarmless w p
      → IsHarmless w q
      → IsHarmless w (if b then p else q)
  if-IsHarmless true w p q h k = h
  if-IsHarmless false w p q h k = k

  answer-IsHarmless :
      (id : Text) (w : World S) (p : World S × Option Failure) → IsHarmless w (answer id p)
  answer-IsHarmless id w (v, none) = record { unchanged = λ h. cc }
  answer-IsHarmless id w (v, some e) = record { unchanged = λ h. cc }

  answer_with-IsHarmless :
      (w : World S) (p : World S × Option Failure) → IsHarmless w (answer_with no_content p)
  answer_with-IsHarmless w (v, none) = record { unchanged = λ h. cc }
  answer_with-IsHarmless w (v, some e) = record { unchanged = λ h. cc }

  sent_or_not-IsHarmless :
      (telegram : Bool) (w : World S) (p : World S × Option Failure)
      → IsHarmless w (sent_or_not telegram p)
  sent_or_not-IsHarmless true w (v, none) = record { unchanged = λ h. cc }
  sent_or_not-IsHarmless false w (v, none) = record { unchanged = λ h. cc }
  sent_or_not-IsHarmless true w (v, some e) = record { unchanged = λ h. cc }
  sent_or_not-IsHarmless false w (v, some e) = record { unchanged = λ h. cc }

module _ (wireguard : Wireguard) (env : Env) (cal : Calendar) where
  open wireguard use {State}

  on_found-IsHarmless :
      (f : Client → World State → World State × ApiReply) (o : Option Client) (w : World State)
      → ((c : Client) → IsHarmless w (f c w))
      → IsHarmless w (on_found wireguard env cal f o w)
  on_found-IsHarmless f none w h = refused w not_found
  on_found-IsHarmless f (some c) w h = h c

  post_typed-IsHarmless :
      (body : CreateBody) (fresh : Fresh) (telegram : Bool) (type : Option ClientType)
      (w : World State)
      → IsHarmless w (post_typed wireguard env cal body fresh telegram type w)
  post_typed-IsHarmless body fresh telegram none w = refused w bad_request
  post_typed-IsHarmless body fresh telegram (some type) w =
      if-IsHarmless (is_taken (get_client_by_name w.clients (text_of body.name))) w _ _
        (refused w conflict)
        (sent_or_not-IsHarmless telegram w
          (create_client wireguard env (order_of body type) fresh w))

  expire_at-IsHarmless :
      (now : ℕ) (c : Client) (at : Field DateInput) (w : World State)
      → IsHarmless w (expire_at wireguard env cal now c at w)
  expire_at-IsHarmless now c missing w =
      answer-IsHarmless c.id w (update_expiry wireguard env now c.id none w)
  expire_at-IsHarmless now c null w =
      answer-IsHarmless c.id w (update_expiry wireguard env now c.id none w)
  expire_at-IsHarmless now c (value invalid) w = refused w bad_request
  expire_at-IsHarmless now c (value (date s at)) w =
      if-IsHarmless (leb at now) w _ _ (refused w bad_request)
        (answer-IsHarmless c.id w (update_expiry wireguard env now c.id (some (entered s at)) w))

  act-IsHarmless :
      (now : ℕ) (c : Client) (action : Action) (w : World State)
      → IsHarmless w (act wireguard env cal now c action w)
  act-IsHarmless now c suspend w =
      answer-IsHarmless c.id w (suspend_client wireguard env c manual w)
  act-IsHarmless now c resume w =
      if-IsHarmless (is_blocked cal now c w) w _ _ (refused w bad_request)
        (answer-IsHarmless c.id w (resume_client wireguard env c w))
  act-IsHarmless now c (rename none) w = refused w bad_request
  act-IsHarmless now c (rename (some name)) w =
      if-IsHarmless (not (is_valid_name name)) w _ _ (refused w bad_request) (
        if-IsHarmless (text_eq name c.name) w _ _ (refused w (row (some c))) (
          if-IsHarmless (is_taken (get_client_by_name w.clients name)) w _ _ (refused w conflict)
            (answer-IsHarmless c.id w (rename_client wireguard env c name w))))
  act-IsHarmless now c (set_quota daily monthly) w = answer-IsHarmless c.id w (
      update_quota wireguard env cal now c.id (or_old daily c.daily_quota_gb)
        (or_old monthly c.monthly_quota_gb) w)
  act-IsHarmless now c (set_expiry at) w = expire_at-IsHarmless now c at w
  act-IsHarmless now c (set_transport transport) w =
      if-IsHarmless (not (is_wg c.type)) w _ _ (refused w bad_request)
        (answer-IsHarmless c.id w (update_wg_transport wireguard env c (transport_of transport) w))
  act-IsHarmless now c unknown w = refused w bad_request

  handle-IsHarmless :
      (request : Request) (w : World State) → IsHarmless w (handle wireguard env cal request w)
  unfolding handle post_client patch_client delete_client_route
  handle-IsHarmless (post body fresh telegram) w =
      if-IsHarmless (not (is_name body.name)) w _ _ (refused w bad_request)
        (post_typed-IsHarmless body fresh telegram (creatable (text_of body.type)) w)
  handle-IsHarmless (patch now id action) w =
      on_found-IsHarmless (λ c v. act wireguard env cal now c action v) (get_client w.clients id) w
        (λ c. act-IsHarmless now c action w)
  handle-IsHarmless (delete id) w =
      on_found-IsHarmless (λ c v. answer_with no_content (delete_client wireguard env c v))
        (get_client w.clients id) w
        (λ c. answer_with-IsHarmless w (delete_client wireguard env c w))

  -- A request to create, change or delete a client that is answered with 400, 404 or 409 has changed
  -- nothing: neither the table, nor Server A's WireGuard and conf, nor any list of users.
  pub handle-refused :
      (request : Request) (w : World State)
      → is_refusal (handle wireguard env cal request w).1 ≡ true
      → (handle wireguard env cal request w).0 ≡ w
  handle-refused request w = (handle-IsHarmless request w).unchanged
