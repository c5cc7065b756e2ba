-- ===== src/Metrics.antt =====
-- services/metrics.cache.ts for one server. A fetch is known by its number, in the order in which the
-- fetches were started: that is the identity of its promise. `Reading` is a `ServerStatus`, and
-- `measure k` the one with which fetch `k` resolves. `getStatusA` is behind `requireCascade`.
pub mod Freshness
use vpn_relay.Prelude.{
  ℕ, suc, ◌+◌, ltb, ◌==◌, if◌then◌else◌, Bool, true, false, Option, none, some, List, [], ◌∷◌,
}

abbrev pub cache_ttl_ms : ℕ
cache_ttl_ms = 20000

pub record CacheEntry (Reading : Type 0) : Type 0 where
  pub value : Reading
  pub fetched_at : ℕ

pub record Slot (Reading : Type 0) : Type 0 where
  pub cache : Option (CacheEntry Reading)
  pub fetching : Option ℕ
  -- how many fetches were started
  pub issued : ℕ

-- What a caller of `getStatusA` or `getStatusB` gets.
pub data Reply (Reading : Type 0) : Type 0 where
  at_once : Reading → Reply Reading
  awaiting : ℕ → Reply Reading
  not_in_standalone : Reply Reading

-- `this.fetching === p`
abbrev pub is_tracked : ℕ → Option ℕ → Bool
is_tracked k none = false
is_tracked k (some j) = k == j

module _ {Reading : Type 0} where
  abbrev pub fresh_value : ℕ → Option (CacheEntry Reading) → Option Reading
  fresh_value now none = none
  fresh_value now (some e) = if ltb now (e.fetched_at + cache_ttl_ms) then some e.value else none

  abbrev pub join_fetch : Slot Reading → Option ℕ → Slot Reading × Reply Reading
  join_fetch s none =
      (record s { fetching = some s.issued; issued = s.issued + 1 }, awaiting s.issued)
  join_fetch s (some k) = (s, awaiting k)

  abbrev pub answer : Slot Reading → Option Reading → Slot Reading × Reply Reading
  answer s none = join_fetch s s.fetching
  answer s (some v) = (s, at_once v)

  -- `getStatusB`
  unfoldable pub get_status_b : ℕ → Slot Reading → Slot Reading × Reply Reading
  get_status_b now s = answer s (fresh_value now s.cache)

  -- `getStatusA`
  unfoldable pub get_status_a : Bool → ℕ → Slot Reading → Slot Reading × Reply Reading
  get_status_a standalone now s =
      if standalone then (s, not_in_standalone) else answer s (fresh_value now s.cache)

  -- The `.then` of fetch `k`.
  unfoldable pub fetch_resolved : ℕ → Reading → ℕ → Slot Reading → Slot Reading
  fetch_resolved k value now s =
      if is_tracked k s.fetching
      then record s { cache = some (record { value = value; fetched_at = now }); fetching = none }
      else s

  -- Its `.catch`.
  unfoldable pub fetch_rejected : ℕ → Slot Reading → Slot Reading
  fetch_rejected k s = if is_tracked k s.fetching then record s { fetching = none } else s

  unfoldable pub invalidate : Slot Reading → Slot Reading
  invalidate s = record s { cache = none; fetching = none }

-- What happens to a slot, in any order.
pub data Event : Type 0 where
  read : ℕ → Event
  resolved : ℕ → ℕ → Event
  rejected : ℕ → Event
  invalidated : Event

module _ {Reading : Type 0} (measure : ℕ → Reading) where
  unfoldable pub step : Event → Slot Reading → Slot Reading
  unfolding get_status_b fetch_resolved fetch_rejected invalidate
  step (read now) s = (get_status_b now s).0
  step (resolved k now) s = fetch_resolved k (measure k) now s
  step (rejected k) s = fetch_rejected k s
  step invalidated s = invalidate s

  unfoldable pub steps : List Event → Slot Reading → Slot Reading
  unfolding step
  steps [] s = s
  steps (e ∷ es) s = steps es (step e s)
