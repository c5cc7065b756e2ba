-- ===== src/Health/Outage.antt =====
-- When the alarm of workers/health.worker.ts is raised.
use vpn_relay.Prelude.{ℕ, ◌+◌, leb, if◌then◌else◌, true, false, List, [], ◌∷◌, ◌≡◌, refl, arith}
use vpn_relay.Health.{failure_threshold, Health, at_start, Probe, run_health, run_all}

-- The misses at the end of the runs, on top of `n`.
abbrev pub misses : ℕ → List Probe → ℕ
misses n [] = n
misses n (p ∷ ps) = misses (if p.reachable then 0 else n + 1) ps

abbrev AllDeliver : List Probe → Type 0
AllDeliver [] = Unit
AllDeliver (p ∷ ps) = (p.delivers ≡ true) × AllDeliver ps

-- The flag is on exactly from the third miss in a row on.
abbrev IsExact : ℕ → Health → Type 0
IsExact n h = (h.consecutive_failures ≡ n) × (h.alert_sent ≡ leb failure_threshold n)

run_health-IsExact :
    (n : ℕ) (p : Probe) (h : Health)
    → p.delivers ≡ true
    → IsExact n h
    → IsExact (if p.reachable then 0 else n + 1) (run_health false p h)
unfolding run_health
run_health-IsExact n p h d (count, flag) = ground arith

run_all-IsExact :
    (n : ℕ) (ps : List Probe) (h : Health)
    → AllDeliver ps
    → IsExact n h
    → IsExact (misses n ps) (run_all false ps h)
unfolding run_all
run_all-IsExact n [] h d e = e
run_all-IsExact n (p ∷ ps) h d e =
    run_all-IsExact (if p.reachable then 0 else n + 1) ps (run_health false p h) d.1
      (run_health-IsExact n p h d.0 e)

-- With messages that are delivered, the alarm is on after any sequence of runs exactly when the last
-- three or more of them missed Server A.
pub alert_sent-misses :
    (ps : List Probe)
    → AllDeliver ps
    → (run_all false ps at_start).alert_sent ≡ leb failure_threshold (misses 0 ps)
alert_sent-misses ps d = (run_all-IsExact 0 ps at_start d (refl, refl)).1
