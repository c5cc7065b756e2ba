-- ===== src/Maintenance/Service/Starting.antt =====
-- startJob of services/maintenance.service.ts.
use vpn_relay.Prelude.{
  ℕ, Text, text_eq, text_eq_refl, if◌then◌else◌, Bool, true, false, not, ◌&&◌, ◌||◌, none, some, [],
  ◌∷◌, ◌++◌, ◌≡◌, refl, arith, any, sym, ap, subst,
}
use vpn_relay.Maintenance.Job.{
  ServerId, Action, Source, Job, Jobs, queued, is_active, active_on, get_job, get_active_job,
  insert_job, insert_clashes,
}
use vpn_relay.Maintenance.Service.{
  ok, err, already_running, ArmReply, arm, new_job, start_job, is_in_progress, needs_cascade,
}

get_active_job-eq-none :
    (jobs : Jobs) (server : ServerId)
    → get_active_job jobs server ≡ none
    → any (active_on server) jobs ≡ false
unfolding get_active_job
get_active_job-eq-none [] server h = refl
get_active_job-eq-none (job ∷ jobs) server h = ground (arith, get_active_job-eq-none jobs server)

-- No row has this id, as holds of an id that has just been drawn.
abbrev pub is_fresh : Text → Jobs → Bool
is_fresh id jobs = not (any (λ (other : Job). text_eq other.id id) jobs)

accepted-insert :
    (job : Job) (jobs : Jobs)
    → is_fresh job.id jobs ≡ true
    → get_active_job jobs job.server_id ≡ none
    → insert_job job jobs ≡ some (jobs ++ job ∷ [])
unfolding insert_job insert_clashes
accepted-insert job jobs f g =
    insert_of_tests _ (is_active job.status) _ f (get_active_job-eq-none jobs job.server_id g)
  where
    insert_of_tests :
        (p q r : Bool)
        → not p ≡ true
        → r ≡ false
        → (if p || (q && r) then none else some (jobs ++ job ∷ [])) ≡ some (jobs ++ job ∷ [])
    insert_of_tests p q r hp hr = ground arith

get_job-append :
    (jobs : Jobs) (job : Job)
    → is_fresh job.id jobs ≡ true
    → get_job (jobs ++ job ∷ []) job.id ≡ some job
unfolding get_job
get_job-append [] job f = ground (arith, text_eq_refl job.id)
get_job-append (other ∷ jobs) job f = ground (arith, get_job-append jobs job)

accepted-row :
    (server : ServerId) (action : Action) (by : Source) (id : Text) (reply : ArmReply) (now : ℕ)
    (jobs : Jobs) (standalone : Bool)
    → needs_cascade server standalone ≡ false
    → get_active_job jobs server ≡ none
    → is_fresh id jobs ≡ true
    → arm server id reply ≡ none
    → let job = new_job id server action by now in
      start_job standalone server (some action) by id reply now jobs ≡ (jobs ++ job ∷ [], ok job)
unfolding start_job
accepted-row server action by id reply now jobs standalone c g f armed =
    rw (c, armed, is_in_progress, g)
      (rw (accepted-insert (new_job id server action by now) jobs f g)
        (rw (get_job-append jobs (new_job id server action by now) f)))

get_active_job-append :
    (jobs : Jobs) (job : Job)
    → is_active job.status ≡ true
    → is_in_progress job.server_id (jobs ++ job ∷ []) ≡ true
unfolding is_in_progress get_active_job
get_active_job-append [] job h = ground arith
get_active_job-append (other ∷ jobs) job h = ground (arith, get_active_job-append jobs job h)

-- The row of the request, as it has just been made.
pub record IsQueuedFor (server : ServerId) (action : Action) (by : Source) (id : Text) (row : Job)
    : Type 0 where
  pub drawn : row.id ≡ id
  pub of_server : row.server_id ≡ server
  pub of_action : row.action ≡ action
  pub requested : row.requested_by ≡ by
  pub status : row.status ≡ queued
  pub unfinished : row.finished_at ≡ none

refused :
    (server : ServerId) (action : Action) (by : Source) (id : Text) (reply : ArmReply) (now : ℕ)
    (js : Jobs) (standalone : Bool)
    → needs_cascade server standalone ≡ false
    → is_in_progress server js ≡ true
    → start_job standalone server (some action) by id reply now js ≡ (js, err already_running)
unfolding start_job
refused server action by id reply now js standalone c h = rw (c, h) refl

-- A request with a fresh id, for a server that has no active job and that the mode knows, whose
-- helper is armed adds one row and returns it: a queued job for the server and the action requested.
-- A second request for that server, whatever it asks, is refused as already running, changes nothing.
pub start_job-accepted :
    (server : ServerId) (action action' : Action) (by by' : Source) (id id' : Text)
    (reply reply' : ArmReply) (now now' : ℕ) (jobs : Jobs) (standalone : Bool)
    → needs_cascade server standalone ≡ false
    → get_active_job jobs server ≡ none
    → is_fresh id jobs ≡ true
    → arm server id reply ≡ none
    → let first = start_job standalone server (some action) by id reply now jobs in
      (row : Job) × (first ≡ (jobs ++ row ∷ [], ok row))
      × IsQueuedFor server action by id row
      × (start_job standalone server (some action') by' id' reply' now' first.0
          ≡ (first.0, err already_running))
unfolding new_job
start_job-accepted server action action' by by' id id' reply reply' now now' jobs standalone c g f
      armed =
    let row = new_job id server action by now in
    let stored = accepted-row server action by id reply now jobs standalone c g f armed in
    (
      row,
      stored,
      record {
        drawn = refl;
        of_server = refl;
        of_action = refl;
        requested = refl;
        status = refl;
        unfinished = refl;
      },
      subst
          (λ js.
            start_job standalone server (some action') by' id' reply' now' js
            ≡ (js, err already_running))
          (sym (ap (λ p. p.0) stored))
          (refused server action' by' id' reply' now' (jobs ++ row ∷ []) standalone c
            (get_active_job-append jobs row refl)),
    )
