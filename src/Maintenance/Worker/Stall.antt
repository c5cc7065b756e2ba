-- ===== src/Maintenance/Worker/Stall.antt =====
-- The stall detection and the announcements of workers/maintenance.worker.ts.
use vpn_relay.Prelude.{text_eq_refl, Bool, true, false, some, ◌≡◌, ap, arith, ◌∙◌}
use vpn_relay.Prelude.Dict.{Dict, get, get-put}
use vpn_relay.Maintenance.Job.{Job, Jobs, Status, is_terminal, get_job}
use vpn_relay.Maintenance.Worker.{
  Worker, announce_row, announce_status, announce_transition, same_status,
}
use vpn_relay.Maintenance.Worker.Ticks.{announce_transition-jobs}

same_status_refl : (s : Status) → same_status s s ≡ true
same_status_refl s = ground arith

-- What a second announcement looks at.
remembered :
    (ok : Bool) (job : Job) (w : Worker)
    → get_job w.jobs job.id ≡ some job
    → is_terminal job.status ≡ false
    → get (announce_transition ok job.id w).0.announced job.id ≡ some job.status
unfolding announce_transition announce_status
remembered ok job w read active = rw (read, announce_row) (remembered_row ok job w active)
  where
    remembered_row :
        (ok : Bool) (job : Job) (w : Worker)
        → is_terminal job.status ≡ false
        → get (announce_row ok (some job) w).0.announced job.id ≡ some job.status
    remembered_row ok job w active =
        ground (arith, get-put w.announced job.id job.id job.status, text_eq_refl job.id)

announce_known :
    (ok : Bool) (job : Job) (w : Worker)
    → get_job w.jobs job.id ≡ some job
    → get w.announced job.id ≡ some job.status
    → announce_transition ok job.id w ≡ (w, true)
unfolding announce_transition
announce_known ok job w read known =
    rw (read, announce_row) (rw (known, same_status_refl job.status))

-- A transition of an active job is announced at most once: after `announceTransition` has seen the row,
-- whether or not its message was delivered, a second call changes nothing and sends nothing.
pub announce_transition-once :
    (ok ok' : Bool) (job : Job) (w : Worker)
    → get_job w.jobs job.id ≡ some job
    → is_terminal job.status ≡ false
    → let first = (announce_transition ok job.id w).0 in
      announce_transition ok' job.id first ≡ (first, true)
announce_transition-once ok ok' job w read active =
    let first = (announce_transition ok job.id w).0 in
    announce_known ok' job first
      (ap (λ (js : Jobs). get_job js job.id) (announce_transition-jobs ok job.id w) ∙ read)
      (remembered ok job w read active)
