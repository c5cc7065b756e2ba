-- ===== src/Updates/Server/Cached.antt =====
-- The cooldown of `processServer` in workers/updates.worker.ts when the list of updates changes.
use vpn_relay.Prelude.{
  ℕ, ◌+◌, ◌*◌, ◌/◌, Text, text_eq, text_eq_refl, leb, if◌then◌else◌, Bool, true, false, not, Option,
  none, some, List, ◌∷◌, ◌≡◌, refl, sym, subst,
}
use vpn_relay.Prelude.Dict.{get, get-put}
use vpn_relay.Alert.{get_cooldown, upsert_fired}
use vpn_relay.Updates.{PackageInfo}
use vpn_relay.Updates.Server.{
  CachedContext, Notices, Report, should_fire, upsert_context, announce, compute_hash, compare_hash,
  process, process_server, updates_key, remind, renew,
}

-- The hash of the list differs from the one kept.
abbrev pub is_changed : (Text → Text) → List PackageInfo → Option CachedContext → Bool
is_changed sha256_hex packages none = true
is_changed sha256_hex packages (some cached) =
    not (text_eq cached.hash (compute_hash sha256_hex packages))

-- When the cooldown of an alert fired in the second of `now` is over.
abbrev pub is_over : ℕ → ℕ → Notices → Bool
is_over now later n = leb (now / 1000 * 1000 + get_cooldown updates_key 720 n.alerts * 60000) later

should_fire-upsert_context :
    (now later : ℕ) (key : Text) (context : CachedContext) (n : Notices)
    → should_fire later key (upsert_context now key context n) ≡ is_over now later n
unfolding should_fire upsert_context upsert_fired get_cooldown
should_fire-upsert_context now later key context n = rw (get-put, text_eq_refl key) refl

-- What is kept while the cooldown lasts: nothing is sent, and it starts again.
abbrev pub IsPostponed : ℕ → ℕ → Text → Notices → Notices → Type 0
IsPostponed now later key n after =
    (after.sent ≡ n.sent) × (should_fire later key after ≡ is_over now later n)

announce-IsPostponed :
    (now later : ℕ) (key : Text) (context : CachedContext) (n : Notices)
    → should_fire now key n ≡ false
    → IsPostponed now later key n (announce now key context n)
unfolding upsert_context
announce-IsPostponed now later key context n h =
    rw h (refl, should_fire-upsert_context now later key context n)

compare_hash-IsPostponed :
    (sha256_hex : Text → Text) (now later : ℕ) (key label : Text) (report : Report)
    (packages : List PackageInfo) (kept : Option CachedContext) (n : Notices)
    → is_changed sha256_hex packages kept ≡ true
    → should_fire now key n ≡ false
    → IsPostponed now later key n (compare_hash sha256_hex now key label report packages kept n)
compare_hash-IsPostponed sha256_hex now later key label report packages none n c h =
    announce-IsPostponed now later key _ n h
compare_hash-IsPostponed sha256_hex now later key label report packages (some cached) n c h =
    subst
      (λ same. IsPostponed now later key n (
        if same then remind now key cached n else renew sha256_hex now key label report packages n))
      (sym (not_true _ c)) (announce-IsPostponed now later key _ n h)
  where
    not_true : (b : Bool) → not b ≡ true → b ≡ false
    not_true true e = cc
    not_true false e = refl

-- A changed list puts the next message off: of a list of updates that differs from the one kept, while
-- the cooldown lasts, `processServer` sends nothing, and the cooldown starts again at that time,
-- although no message went out.
pub process_server-postpones :
    (sha256_hex : Text → Text) (now later : ℕ) (key label : Text) (report : Report)
    (p : PackageInfo) (ps : List PackageInfo) (n : Notices)
    → report.packages ≡ some (p ∷ ps)
    → is_changed sha256_hex (p ∷ ps) (get n.contexts key) ≡ true
    → should_fire now key n ≡ false
    → IsPostponed now later key n (process_server sha256_hex now key label report n)
unfolding process_server
process_server-postpones sha256_hex now later key label report p ps n listed changed cooling =
    subst (λ o. IsPostponed now later key n (process sha256_hex now key label report o n))
      (sym listed)
      (compare_hash-IsPostponed sha256_hex now later key label report (p ∷ ps) (get n.contexts key)
        n changed cooling)
