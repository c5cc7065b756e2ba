-- ===== src/Metrics/Freshness.antt =====
-- The guard on the promise's identity in services/metrics.cache.ts.
use vpn_relay.Prelude.{
  ℕ, ◌≤◌, true, Option, none, some, List, [], ◌∷◌, ◌≡◌, refl, arith, Bool-cases, ◌⊎◌, inl, inr,
}
use vpn_relay.Metrics.{
  is_tracked, join_fetch, answer, fresh_value, CacheEntry, Slot, at_once, awaiting, Event, read,
  resolved, rejected, invalidated, step, steps, get_status_b, invalidate,
}

module _ {Reading : Type 0} (measure : ℕ → Reading) where
  -- The entry is the reading of a fetch that was started as number `n` or later.
  abbrev pub EntrySince : ℕ → Option (CacheEntry Reading) → Type 0
  EntrySince n none = Unit
  EntrySince n (some e) = (k : ℕ) × (n ≤ k) × (e.value ≡ measure k)

  abbrev pub FetchSince : ℕ → Option ℕ → Type 0
  FetchSince n none = Unit
  FetchSince n (some k) = n ≤ k

  record IsSince (n : ℕ) (s : Slot Reading) : Type 0 where
    entry : EntrySince n s.cache
    fetch : FetchSince n s.fetching
    issued : n ≤ s.issued

  join-IsSince :
      (n : ℕ) (s : Slot Reading) (f : Option ℕ) → IsSince n s → IsSince n (join_fetch s f).0
  join-IsSince n s none h = record { entry = h.entry; fetch = h.issued; issued = omega arith }
  join-IsSince n s (some k) h = h

  answer-IsSince :
      (n : ℕ) (s : Slot Reading) (o : Option Reading) → IsSince n s → IsSince n (answer s o).0
  answer-IsSince n s none h = join-IsSince n s s.fetching h
  answer-IsSince n s (some v) h = h

  tracked-since : (n k : ℕ) (f : Option ℕ) → FetchSince n f → is_tracked k f ≡ true → n ≤ k
  tracked-since n k none h t = cc
  tracked-since n k (some j) h t = ground arith

  step-IsSince : (n : ℕ) (e : Event) (s : Slot Reading) → IsSince n s → IsSince n (step measure e s)
  unfolding step
  step-IsSince n (read now) s h = answer-IsSince n s (fresh_value now s.cache) h
  step-IsSince n (resolved k now) s h = elim (Bool-cases (is_tracked k s.fetching)) [
    | inl t ↦ rw t (record {
      entry = (k, tracked-since n k s.fetching h.fetch t, refl);
      fetch = tt;
      issued = h.issued;
    })
    | inr f ↦ rw f h
  ]
  step-IsSince n (rejected k) s h = elim (Bool-cases (is_tracked k s.fetching)) [
    | inl t ↦ rw t (record { entry = h.entry; fetch = tt; issued = h.issued })
    | inr f ↦ rw f h
  ]
  step-IsSince n invalidated s h = record { entry = tt; fetch = tt; issued = h.issued }

  steps-IsSince :
      (n : ℕ) (es : List Event) (s : Slot Reading) → IsSince n s → IsSince n (steps measure es s)
  unfolding steps
  steps-IsSince n [] s h = h
  steps-IsSince n (e ∷ es) s h = steps-IsSince n es (step measure e s) (step-IsSince n e s h)

  fresh-since :
      (n now : ℕ) (o : Option (CacheEntry Reading)) (v : Reading)
      → EntrySince n o
      → fresh_value now o ≡ some v
      → (k : ℕ) × (n ≤ k) × (v ≡ measure k)
  fresh-since n now none v h f = cc
  fresh-since n now (some e) v (k, le, at) f = (k, le, ground arith)

  -- After `invalidate` no caller is given an old reading at once: whatever happens in between, fetches
  -- that were in flight settling included, a value returned without waiting is one that a fetch
  -- started after the invalidation has measured.
  pub read-after-invalidate :
      (s : Slot Reading) (es : List Event) (now : ℕ) (v : Reading)
      → (get_status_b now (steps measure es (invalidate s))).1 ≡ at_once v
      → (k : ℕ) × (s.issued ≤ k) × (v ≡ measure k)
  unfolding get_status_b invalidate
  read-after-invalidate s es now v h =
      let s' = steps measure es (invalidate s) in
      let since =
        steps-IsSince s.issued es (invalidate s)
          (record { entry = tt; fetch = tt; issued = omega arith }) in
      fresh-since s.issued now s'.cache v since.entry (answered s' (fresh_value now s'.cache) v h)
    where
      joined : (s : Slot Reading) (f : Option ℕ) (v : Reading) → (join_fetch s f).1 ≡ at_once v → ⊥
      joined s none v e = cc
      joined s (some k) v e = cc

      answered :
          (s : Slot Reading) (o : Option Reading) (v : Reading)
          → (answer s o).1 ≡ at_once v
          → o ≡ some v
      answered s none v e = absurd (joined s s.fetching v e)
      answered s (some u) v e = cc

  -- While a fetch is in flight, reads join it: no other is started, and the callers who must wait get
  -- the same promise.
  pub read-joins :
      (s : Slot Reading) (k now : ℕ)
      → s.fetching ≡ some k
      → let (s', reply) = get_status_b now s in
        (s' ≡ s) × ((reply ≡ awaiting k) ⊎ ((v : Reading) × (reply ≡ at_once v)))
  unfolding get_status_b invalidate
  read-joins s k now h = joins (fresh_value now s.cache)
    where
      joins :
          (o : Option Reading)
          → ((answer s o).0 ≡ s)
            × (((answer s o).1 ≡ awaiting k) ⊎ ((v : Reading) × ((answer s o).1 ≡ at_once v)))
      joins none = rw h (refl, inl refl)
      joins (some v) = (refl, inr (v, refl))
