-- ===== src/Maintenance/Service/Reconcile.antt =====
-- The decision table of reconcileOne in services/maintenance.service.ts.
use vpn_relay.Prelude.{
  ℕ, Text, text_eq_refl, Bool, true, false, Option, none, some, List, [], ◌∷◌, ◌++◌, ◌≡◌, inl, inr,
  Bool-cases, refl, sym, subst, arith, All,
}
use vpn_relay.Maintenance.Job.{
  Job, Jobs, JobUpdate, get_active_jobs, Status, is_terminal, get_job, update_job, updated_row,
}
use vpn_relay.Maintenance.Job.Table.{write_of_update, get_job-write_job, updated?}
use vpn_relay.Maintenance.Service.{
  AgentState, Probe, reconcile_decision, reconcile_one, reconcile_each, reconcile_reached,
  reconcile_decided, resolved_after, resolved_row, reconcile_on_startup,
}

-- The update sets a terminal status.
abbrev is_final : Option Status → Bool
is_final none = false
is_final (some s) = is_terminal s

-- Every resolution is final: an update that the table decides on sets a terminal status.
decision-final :
    (now : ℕ) (job : Job) (state : Option AgentState) (boot_id log_tail : Option Text)
    {u : JobUpdate}
    → reconcile_decision now job state boot_id log_tail ≡ some u
    → is_final u.status ≡ true
unfolding reconcile_decision
decision-final now job none boot_id log_tail h = ground arith
decision-final now job (some state) boot_id log_tail h = ground arith

row-final :
    (u : JobUpdate) (row : Job)
    → is_final u.status ≡ true
    → is_terminal (updated_row u row).status ≡ true
unfolding updated_row
row-final u row h = ground arith

abbrev AllFinal : List Job → Type 0
AllFinal = All (λ row. is_terminal row.status ≡ true)

resolved-final :
    (id : Text) (u : JobUpdate) (jobs : Jobs) (o : Option Job)
    → get_job jobs id ≡ o
    → is_final u.status ≡ true
    → AllFinal (resolved_row (updated? u o))
resolved-final id u jobs none e h = tt
resolved-final id u jobs (some row) e h = (row-final u row h, tt)

reconcile_one-final :
    (now : ℕ) (job : Job) (probe : Probe) (jobs : Jobs)
    → AllFinal (reconcile_one now job probe jobs).1
unfolding reconcile_one
reconcile_one-final now job probe jobs =
    decided (reconcile_decision now job probe.state probe.boot_id probe.log_tail)
      (λ u e. decision-final now job probe.state probe.boot_id probe.log_tail e)
  where
    written :
        (u : JobUpdate) (o : Option Jobs)
        → update_job job.id u jobs ≡ o
        → is_final u.status ≡ true
        → AllFinal (resolved_after job.id jobs o).1
    written u none e h = tt
    written u (some jobs') e h =
        subst (λ row. AllFinal (resolved_row row))
          (sym (rw (write_of_update job.id u jobs e, get_job-write_job, text_eq_refl job.id)))
          (resolved-final job.id u jobs (get_job jobs job.id) refl h)

    decided :
        (d : Option JobUpdate)
        → ((u : JobUpdate) → d ≡ some u → is_final u.status ≡ true)
        → AllFinal (reconcile_decided job.id jobs d).1
    decided none f = tt
    decided (some u) f = written u (update_job job.id u jobs) refl (f u refl)

AllFinal-append : (xs ys : List Job) → AllFinal xs → AllFinal ys → AllFinal (xs ++ ys)
AllFinal-append [] ys hx hy = hy
AllFinal-append (x ∷ xs) ys hx hy = (hx.0, AllFinal-append xs ys hx.1 hy)

reconcile_reached-final :
    (now : ℕ) (job : Job) (probe : Probe) (jobs : Jobs)
    → AllFinal (reconcile_reached now job probe jobs).1
unfolding reconcile_reached
reconcile_reached-final now job probe jobs = elim (Bool-cases probe.unreachable) [
  | inl e ↦ rw e tt
  | inr n ↦ rw n (reconcile_one-final now job probe jobs)
]

reconcile_each-final :
    (now : ℕ) (probe : Job → Probe) (active : List Job) (jobs : Jobs)
    → AllFinal (reconcile_each now probe active jobs).1
unfolding reconcile_each
reconcile_each-final now probe [] jobs = tt
reconcile_each-final now probe (job ∷ rest) jobs =
    let (jobs', resolved) = reconcile_reached now job (probe job) jobs in
    AllFinal-append resolved (reconcile_each now probe rest jobs').1
      (reconcile_reached-final now job (probe job) jobs) (reconcile_each-final now probe rest jobs')

-- What `reconcileOnStartup` returns, for the worker to announce as outcomes, are rows of finished jobs
-- only, whatever the hosts report.
pub reconcile_on_startup-final :
    (now : ℕ) (probe : Job → Probe) (jobs : Jobs)
    → All (λ row. is_terminal row.status ≡ true) (reconcile_on_startup now probe jobs).1
unfolding reconcile_on_startup
reconcile_on_startup-final now probe jobs =
    reconcile_each-final now probe (get_active_jobs jobs) jobs
