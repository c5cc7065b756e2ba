-- ===== src/Client/Quota/Enforced.antt =====
-- What a run of workers/quota.worker.ts leaves active.
use vpn_relay.Prelude.{
  ℕ, ◌/◌, ◌==◌, Text, text_eq, text_eq_iff, if◌then◌else◌, Bool, true, false, not, ◌&&◌, ◌||◌,
  Option, none, some, List, [], ◌∷◌, ◌≡◌, refl, ◌∙◌, arith, keep, All, subst,
}
use vpn_relay.Prelude.Int.{ℤ}
use vpn_relay.Client.Table.{
  Client, Clients, Reason, daily_quota, monthly_quota, get_client, set_client_active, update_client,
  with_active, has_quota, get_clients_with_quotas, get_quota_suspended_clients,
}
use vpn_relay.Client.Usage.{Calendar, Snapshot, daily_usage, monthly_usage}
use vpn_relay.Client.World.{Wireguard, World, Env}
use vpn_relay.Client.Commands.{
  Command, call, wg_remove_client, wg_resume_client, sync_xray, sync_hysteria,
}
use vpn_relay.Client.Service.{suspend_client, resume_client}
use vpn_relay.Client.Quota.{
  is_exceeded, for_clients, daily_reset, enforce, daily_phase, monthly_phase, enforce_phase,
  run_quota, Keys, current_day_key,
}

abbrev active_row : Option Client → Bool
active_row none = false
active_row (some c) = c.is_active

-- A row that is active after an UPDATE that suspends another row was there before.
pub get_client-suspended :
    (id j : Text) (reason : Option Reason) (cs : Clients) (row : Client)
    → get_client (set_client_active id false reason cs) j ≡ some row
    → row.is_active ≡ true
    → (get_client cs j ≡ some row) × (text_eq id j ≡ false)
unfolding get_client set_client_active update_client
get_client-suspended id j reason [] row h active = cc
get_client-suspended id j reason (c ∷ cs) row h active = ground (
  arith,
  get_client-suspended id j reason cs row,
  text_eq_iff c.id id,
  text_eq_iff c.id j,
  text_eq_iff id j,
)

-- The row of a client after its UPDATE.
pub get_client-set_active :
    (c : Client) (active : Bool) (reason : Option Reason) (cs : Clients)
    → get_client cs c.id ≡ some c
    → get_client (set_client_active c.id active reason cs) c.id ≡ some (with_active active reason c)
unfolding get_client set_client_active update_client
get_client-set_active c true reason [] h = cc
get_client-set_active c false reason [] h = cc
get_client-set_active c true reason (d ∷ cs) h =
    ground (arith, get_client-set_active c true reason cs)
get_client-set_active c false reason (d ∷ cs) h =
    ground (arith, get_client-set_active c false reason cs)

-- What holds of the elements that pass a test.
pub All-keep {ℓ κ} :
    {A : Type ℓ} (Q : A → Type κ) (p : A → Bool) (x : A) (xs : List A)
    → All Q (keep p (x ∷ xs))
    → (p x ≡ true → Q x) × All Q (keep p xs)
All-keep Q p x xs h = kept_lem (p x) h
  where
    kept_lem :
        (b : Bool)
        → All Q (if b then x ∷ keep p xs else keep p xs)
        → (b ≡ true → Q x) × All Q (keep p xs)
    kept_lem true (q, qs) = (λ e. q, qs)
    kept_lem false qs = (λ e. cc, qs)

-- Over one of its quotas.
abbrev pub is_over : Calendar → ℕ → List Snapshot → Client → Bool
is_over cal now ss c =
    is_exceeded (monthly_usage cal now c.id ss) c.monthly_quota_gb
    || is_exceeded (daily_usage cal now c.id ss) c.daily_quota_gb

module _ (wg : Wireguard) (env : Env) where
  open wg use {State}

  pub suspend_client-clients :
      (c : Client) (reason : Reason) (w : World State)
      → env.standalone ≡ false
      → w.replies ≡ []
      → let v = (suspend_client wg env c reason w).0 in
        (v.clients ≡ set_client_active c.id false (some reason) w.clients)
        × ((v.snapshots ≡ w.snapshots) × (v.replies ≡ []))
  unfolding suspend_client wg_remove_client sync_xray sync_hysteria call
  suspend_client-clients c reason w up calm = ground (arith, up, calm)

  pub resume_client-clients :
      (c : Client) (w : World State)
      → env.standalone ≡ false
      → w.replies ≡ []
      → (resume_client wg env c w).0.clients ≡ set_client_active c.id true none w.clients
  unfolding resume_client wg_resume_client sync_xray sync_hysteria call
  resume_client-clients c w up calm = ground (arith, up, calm)

  pub resume_client-rest :
      (c : Client) (w : World State)
      → w.replies ≡ []
      → let v = (resume_client wg env c w).0 in (v.snapshots ≡ w.snapshots) × (v.replies ≡ [])
  unfolding resume_client wg_resume_client sync_xray sync_hysteria call
  resume_client-rest c w calm = ground (arith, calm)

module _ (wg : Wireguard) (env : Env) (cal : Calendar) where
  open wg use {State}

  unset_not_over :
      (now : ℕ) (ss : List Snapshot) (c : Client)
      → c.daily_quota_gb ≡ none
      → c.monthly_quota_gb ≡ none
      → is_over cal now ss c ≡ false
  unset_not_over now ss c d m = rw (d, m)

  daily_reset-rest :
      (now : ℕ) (c : Client) (w : World State)
      → w.replies ≡ []
      → let v = (daily_reset wg env cal now c w).0 in (v.snapshots ≡ w.snapshots) × (v.replies ≡ [])
  unfolding daily_reset
  daily_reset-rest now c w calm = ground (arith, resume_client-rest wg env c w calm, calm)

  enforce-rest :
      (now : ℕ) (c : Client) (w : World State)
      → env.standalone ≡ false
      → w.replies ≡ []
      → let v = (enforce wg env cal now c w).0 in (v.snapshots ≡ w.snapshots) × (v.replies ≡ [])
  unfolding enforce
  enforce-rest now c w up calm = ground (
    arith,
    suspend_client-clients wg env c monthly_quota w up calm,
    suspend_client-clients wg env c daily_quota w up calm,
    calm,
  )

  -- A row that is active after `enforce` was there before, and if it is the client's, it is not over.
  enforce-row :
      (now : ℕ) (c : Client) (w : World State) (j : Text) (row : Client)
      → env.standalone ≡ false
      → w.replies ≡ []
      → get_client (enforce wg env cal now c w).0.clients j ≡ some row
      → row.is_active ≡ true
      → (get_client w.clients j ≡ some row)
        × ((text_eq c.id j && is_over cal now w.snapshots c) ≡ false)
  unfolding enforce
  enforce-row now c w j row up calm h active = ground (
    arith,
    (suspend_client-clients wg env c monthly_quota w up calm).0,
    (suspend_client-clients wg env c daily_quota w up calm).0,
    get_client-suspended c.id j (some monthly_quota) w.clients row,
    get_client-suspended c.id j (some daily_quota) w.clients row,
  )

  each_rest :
      (f : Client → Command State) (cs : List Client) (w : World State)
      → ((c : Client) (v : World State)
          → v.replies ≡ []
          → ((f c v).0.snapshots ≡ v.snapshots) × ((f c v).0.replies ≡ []))
      → w.replies ≡ []
      → let v = for_clients f cs w in (v.snapshots ≡ w.snapshots) × (v.replies ≡ [])
  each_rest f [] w rest calm = (refl, calm)
  each_rest f (c ∷ cs) w rest calm =
      let (same, calm') = rest c w calm in
      let (later, done) = each_rest f cs (f c w).0 rest calm' in (later ∙ same, done)

  enforced_rows :
      (now : ℕ) (cs : List Client) (w : World State) (j : Text) (row : Client)
      → env.standalone ≡ false
      → w.replies ≡ []
      → get_client (for_clients (enforce wg env cal now) cs w).clients j ≡ some row
      → row.is_active ≡ true
      → (get_client w.clients j ≡ some row)
        × All (λ c. (text_eq c.id j && is_over cal now w.snapshots c) ≡ false) cs
  enforced_rows now [] w j row up calm h active = (h, tt)
  enforced_rows now (c ∷ cs) w j row up calm h active =
      let v = (enforce wg env cal now c w).0 in
      let (same, calm') = enforce-rest now c w up calm in
      let (there, rest) = enforced_rows now cs v j row up calm' h active in
      let (before, mine) = enforce-row now c w j row up calm there active in
      (
        before,
        (
          mine,
          subst (λ ss. All (λ c. (text_eq c.id j && is_over cal now ss c) ≡ false) cs) same rest,
        ),
      )

  -- A row that the enforcement has looked at, or one without a quota.
  looked_at :
      (now : ℕ) (ss : List Snapshot) (cs : Clients) (j : Text) (row : Client)
      → All (λ c. (text_eq c.id j && is_over cal now ss c) ≡ false) (get_clients_with_quotas cs)
      → get_client cs j ≡ some row
      → row.is_active ≡ true
      → is_over cal now ss row ≡ false
  unfolding get_clients_with_quotas get_client
  looked_at now ss [] j row all h active = cc
  looked_at now ss (c ∷ cs) j row all h active =
      let (mine, rest) =
        All-keep (λ d. (text_eq d.id j && is_over cal now ss d) ≡ false) has_quota c cs all in
      ground (arith, looked_at now ss cs j row rest, unset_not_over now ss c, mine)

  enforce_phase-rows :
      (now : ℕ) (w : World State) (j : Text) (row : Client)
      → env.standalone ≡ false
      → w.replies ≡ []
      → get_client (enforce_phase wg env cal now w).clients j ≡ some row
      → row.is_active ≡ true
      → is_over cal now w.snapshots row ≡ false
  enforce_phase-rows now w j row up calm h active =
      let (before, all) =
        enforced_rows now (get_clients_with_quotas w.clients) w j row up calm h active in
      looked_at now w.snapshots w.clients j row all before active

  daily_phase-rest :
      (b : Bool) (now : ℕ) (w : World State)
      → w.replies ≡ []
      → let v = daily_phase wg env cal b now w in (v.snapshots ≡ w.snapshots) × (v.replies ≡ [])
  daily_phase-rest false now w calm = (refl, calm)
  daily_phase-rest true now w calm =
      each_rest (daily_reset wg env cal now) (get_quota_suspended_clients daily_quota w.clients) w
        (daily_reset-rest now) calm

  monthly_phase-rest :
      (b : Bool) (w : World State)
      → w.replies ≡ []
      → let v = monthly_phase wg env cal b w in (v.snapshots ≡ w.snapshots) × (v.replies ≡ [])
  monthly_phase-rest false w calm = (refl, calm)
  monthly_phase-rest true w calm =
      each_rest (resume_client wg env) (get_quota_suspended_clients monthly_quota w.clients) w
        (resume_client-rest wg env) calm

  -- After a run outside standalone mode in which all calls are answered no active client is over
  -- its daily or its monthly quota, on whatever day or month boundary the run falls.
  pub run_quota-enforces :
      (offset : ℤ) (month_of : ℕ → ℕ) (now : ℕ) (keys : Keys) (w : World State) (j : Text)
      (row : Client)
      → env.standalone ≡ false
      → w.replies ≡ []
      → get_client (run_quota wg env cal offset month_of now keys w).1.clients j ≡ some row
      → row.is_active ≡ true
      → is_over cal (now / 1000) w.snapshots row ≡ false
  unfolding run_quota
  run_quota-enforces offset month_of now keys w j row up calm h active =
      let day = current_day_key offset now in
      let daily = not (day == keys.last_day) in
      let monthly = not (month_of day == keys.last_month) in
      let v = daily_phase wg env cal daily (now / 1000) w in
      let u = monthly_phase wg env cal monthly v in
      let (same, calm') = daily_phase-rest daily (now / 1000) w calm in
      let (same', calm'') = monthly_phase-rest monthly v calm' in
      subst (λ ss. is_over cal (now / 1000) ss row ≡ false) (same' ∙ same)
        (enforce_phase-rows (now / 1000) u j row up calm'' h active)
