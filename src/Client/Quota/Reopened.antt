-- ===== src/Client/Quota/Reopened.antt =====
-- What becomes of a client whose monthly quota is used up at the daily reset of workers/quota.worker.ts.
use vpn_relay.Prelude.{
  ℕ, Text, text_eq, text_eq_iff, if◌then◌else◌, Bool, true, false, not, ◌&&◌, ◌||◌, any, keep, some,
  none, List, [], ◌∷◌, ◌≡◌, refl, ap, ◌∙◌, arith,
}
use vpn_relay.Client.Table.{
  Client, Clients, get_client, set_client_active, update_client, with_active, monthly_quota,
  get_quota_suspended_clients, same_reason,
}
use vpn_relay.Client.Usage.{Calendar, monthly_usage}
use vpn_relay.Client.World.{Wireguard, World, Env}
use vpn_relay.Client.Service.{resume_client}
use vpn_relay.Client.Quota.{for_clients, is_exceeded, daily_reset, monthly_phase}
use vpn_relay.Client.Quota.Enforced.{
  resume_client-clients, resume_client-rest, get_client-set_active,
}

get_client-resumed :
    (i j : Text) (cs : Clients) (row : Client)
    → get_client cs j ≡ some row
    → get_client (set_client_active i true none cs) j
      ≡ some (if text_eq i j then with_active true none row else row)
unfolding get_client set_client_active update_client
get_client-resumed i j [] row h = cc
get_client-resumed i j (d ∷ cs) row h =
    ground (
      arith,
      get_client-resumed i j cs row,
      text_eq_iff d.id i,
      text_eq_iff d.id j,
      text_eq_iff i j,
    )

-- A row that passes a test is among those that do.
selected :
    (p : Client → Bool) (cs : Clients) (j : Text) (row : Client)
    → get_client cs j ≡ some row
    → p row ≡ true
    → any (λ d. text_eq d.id j) (keep p cs) ≡ true
unfolding get_client
selected p [] j row h pass = cc
selected p (c ∷ cs) j row h pass = ground (arith, selected p cs j row)

module _ (wg : Wireguard) (env : Env) (cal : Calendar) where
  open wg use {State}

  resumed_rows :
      (cs : List Client) (w : World State) (j : Text) (row : Client)
      → env.standalone ≡ false
      → w.replies ≡ []
      → get_client w.clients j ≡ some row
      → get_client (for_clients (resume_client wg env) cs w).clients j
        ≡ some (if any (λ d. text_eq d.id j) cs then with_active true none row else row)
  resumed_rows [] w j row up calm h = h
  resumed_rows (c ∷ cs) w j row up calm h =
      let v = (resume_client wg env c w).0 in
      let (_, calm') = resume_client-rest wg env c w calm in
      let next : Client = if text_eq c.id j then with_active true none row else row in
      let here : get_client v.clients j ≡ some next =
        ap (λ (x : Clients). get_client x j) (resume_client-clients wg env c w up calm)
        ∙ get_client-resumed c.id j w.clients row h in
      resumed_rows cs v j next up calm' here ∙ twice (text_eq c.id j) (any (λ d. text_eq d.id j) cs)
    where
      twice :
          (a b : Bool)
          → let next : Client = if a then with_active true none row else row in
            some (if b then with_active true none next else next)
            ≡ some (if a || b then with_active true none row else row)
      twice true true = refl
      twice true false = refl
      twice false b = refl

  -- A client suspended for its daily quota whose monthly quota is used up is not resumed by the daily
  -- reset, but is not lost either: outside standalone mode and with all calls answered, it is then
  -- suspended for the monthly quota, and the next monthly reset makes it active with no reason.
  pub monthly_phase-daily_reset :
      (now : ℕ) (c : Client) (w : World State)
      → env.standalone ≡ false
      → w.replies ≡ []
      → get_client w.clients c.id ≡ some c
      → is_exceeded (monthly_usage cal now c.id w.snapshots) c.monthly_quota_gb ≡ true
      → let v = (daily_reset wg env cal now c w).0 in
        (get_client v.clients c.id ≡ some (with_active false (some monthly_quota) c))
        × (get_client (monthly_phase wg env cal true v).clients c.id
            ≡ some (with_active true none c))
  unfolding daily_reset get_quota_suspended_clients
  monthly_phase-daily_reset now c w up calm h over =
      let row : Client = with_active false (some monthly_quota) c in
      let u : World State = record w {
        clients = set_client_active c.id false (some monthly_quota) w.clients;
      } in
      let stored = get_client-set_active c false (some monthly_quota) w.clients h in
      let found =
        selected (λ d. not d.is_active && same_reason monthly_quota d.suspend_reason) u.clients c.id
          row stored refl in
      rw over (
        stored,
        resumed_rows (get_quota_suspended_clients monthly_quota u.clients) u c.id row up calm stored
            ∙ rw found refl,
      )
