-- ===== src/Client/Expiry/Late.antt =====
-- When the worker of workers/ttl.worker.ts suspends a client whose expiry has passed.
use vpn_relay.Prelude.{
  text_leb, ℕ, ◌/◌, ◌%◌, Text, text, text_eq, ltb, ltb→lt, ◌≤◌, ◌<◌, true, false, ◌&&◌, some, List,
  [], ◌∷◌, ◌++◌, ◌≡◌, refl, sym, ap, subst, ◌∙◌, arith, All, inl, inr, Bool-cases,
}
use vpn_relay.Client.Table.{Client, Clients, Expiry, expired, get_client}
use vpn_relay.Client.World.{Wireguard, World, Env}
use vpn_relay.Client.Service.{suspend_client}
use vpn_relay.Client.Quota.{for_clients}
use vpn_relay.Client.Quota.Enforced.{suspend_client-clients, get_client-suspended, All-keep}
use vpn_relay.Client.Expiry.{
  DateTexts, column_text, iso_string, sql_now, last_day, has_passed, is_expired,
  get_expired_clients, run_ttl, day_ms,
}

text_leb-append : (p s t : Text) → text_leb (p ++ s) (p ++ t) ≡ text_leb s t
unfolding text_leb
text_leb-append [] s t = refl
text_leb-append (a ∷ p) s t = ground (arith, text_leb-append p s t)

module _ (texts : DateTexts) where
  open texts use {date, time_ms, time_s, date-later}

  -- Within a day the T is behind the space.
  same_day :
      (day : ℕ) (s t : Text)
      → text_leb (date day ++ (text "T" ++ s)) (date day ++ (text " " ++ t)) ≡ false
  unfolding text_leb
  same_day day s t = text_leb-append (date day) (text "T" ++ s) (text " " ++ t)

  compare_days :
      (d e : ℕ) (s t : Text)
      → d < last_day
      → e < last_day
      → text_leb (date d ++ (text "T" ++ s)) (date e ++ (text " " ++ t)) ≡ ltb d e
  compare_days d e s t hd he = elim (Bool-cases (ltb d e)) [
    | inl before ↦
        (date-later d e (text "T" ++ s) (text " " ++ t) (ltb→lt d e before) he).0 ∙ sym before
    | inr not_before ↦ elim (Bool-cases (ltb e d)) [
      | inl after ↦
          (date-later e d (text " " ++ t) (text "T" ++ s) (ltb→lt e d after) hd).1 ∙ sym not_before
      | inr not_after ↦
          let same : d ≡ e = ground arith in
          subst (λ x. text_leb (date d ++ (text "T" ++ s)) (date x ++ (text " " ++ t)) ≡ ltb d x)
            same (same_day d s t ∙ ground arith)
    ]
  ]

  -- An expiry whose text is the one that `toISOString` gives counts as passed from the midnight UTC
  -- behind it on, and at no time of its own day, although the query asks whether it is at or before
  -- now. Both times are before the year 10000.
  pub has_passed_lem :
      (now at : ℕ) (e : Expiry)
      → column_text texts e ≡ iso_string texts at
      → at / day_ms < last_day
      → now / day_ms < last_day
      → has_passed texts now (some e) ≡ ltb (at / day_ms) (now / day_ms)
  has_passed_lem now at e written before before' =
      ap (λ s. text_leb s (sql_now texts now)) written
      ∙ compare_days (at / day_ms) (now / day_ms) (time_ms (at % day_ms)) (time_s (now % day_ms))
          before before'

  module _ (wg : Wireguard) (env : Env) where
    open wg use {State}

    suspended_rows :
        (cs : List Client) (w : World State) (j : Text) (row : Client)
        → env.standalone ≡ false
        → w.replies ≡ []
        → get_client (for_clients (λ c. suspend_client wg env c expired) cs w).clients j ≡ some row
        → row.is_active ≡ true
        → (get_client w.clients j ≡ some row) × All (λ c. text_eq c.id j ≡ false) cs
    suspended_rows [] w j row up calm h active = (h, tt)
    suspended_rows (c ∷ cs) w j row up calm h active =
        let v = (suspend_client wg env c expired w).0 in
        let (table, (_, calm')) = suspend_client-clients wg env c expired w up calm in
        let (there, rest) = suspended_rows cs v j row up calm' h active in
        let (before, other) =
          get_client-suspended c.id j (some expired) w.clients row
            (sym (ap (λ (x : Clients). get_client x j) table) ∙ there) active in
        (before, (other, rest))

    not_selected :
        (now : ℕ) (cs : Clients) (j : Text) (row : Client)
        → All (λ c. text_eq c.id j ≡ false) (get_expired_clients texts now cs)
        → get_client cs j ≡ some row
        → is_expired texts now row ≡ false
    unfolding get_expired_clients get_client
    not_selected now [] j row all h = cc
    not_selected now (c ∷ cs) j row all h =
        let (mine, rest) = All-keep (λ d. text_eq d.id j ≡ false) (is_expired texts now) c cs all in
        elim (Bool-cases (text_eq c.id j)) [
          | inl e ↦
              let found : some c ≡ some row = rw e at h in
              let same : c ≡ row = cc in
              elim (Bool-cases (is_expired texts now c)) [
                | inl x ↦ let no : text_eq c.id j ≡ false = mine x in cc
                | inr x ↦ subst (λ d. is_expired texts now d ≡ false) same x
              ]
          | inr e ↦ not_selected now cs j row rest (rw e at h)
        ]

    -- After a run outside standalone mode in which all calls are answered no client is active whose
    -- expiry has the text of `toISOString` for a time of an earlier day, in UTC. Both days are before
    -- the year 10000.
    pub run_ttl-suspends :
        (now : ℕ) (w : World State) (j : Text) (row : Client) (e : Expiry) (at : ℕ)
        → env.standalone ≡ false
        → w.replies ≡ []
        → get_client (run_ttl texts wg env now w).clients j ≡ some row
        → row.is_active ≡ true
        → row.expires_at ≡ some e
        → column_text texts e ≡ iso_string texts at
        → at / day_ms < last_day
        → now / day_ms < last_day
        → now / day_ms ≤ at / day_ms
    unfolding run_ttl
    run_ttl-suspends now w j row e at up calm h active when written before before' =
        let (old, all) =
          suspended_rows (get_expired_clients texts now w.clients) w j row up calm h active in
        let no = not_selected now w.clients j row all old in
        let passed = has_passed_lem now at e written before before' in
        let no' : (has_passed texts now (some e) && true) ≡ false = rw (when, active) at no in
        ground (arith, passed, no')
