-- ===== src/Maintenance/Job/Table.antt =====
-- The table maintenance_jobs under UPDATE and INSERT.
use vpn_relay.Prelude.{
  Text, text_eq, text_eq_iff, if◌then◌else◌, Bool, true, false, not, ◌&&◌, ◌||◌, Option, none, some,
  [], ◌∷◌, ◌++◌, ◌≡◌, refl, All, any, arith, sym, subst,
}
use vpn_relay.Maintenance.Job.{
  ServerId, Job, Jobs, JobUpdate, is_active, active_on, get_job, updated_row, write_job, update_job,
  status_index, insert_clashes, insert_job, same_server,
}

abbrev pub updated? : JobUpdate → Option Job → Option Job
updated? u none = none
updated? u (some job) = some (updated_row u job)

-- An UPDATE by id changes the row of that id, and no other.
pub get_job-write_job :
    (id : Text) (u : JobUpdate) (jobs : Jobs) (j : Text)
    → get_job (write_job id u jobs) j
      ≡ (if text_eq id j then updated? u (get_job jobs j) else get_job jobs j)
unfolding get_job write_job
get_job-write_job id u [] j = ground arith
get_job-write_job id u (job ∷ jobs) j = ground (
  arith,
  get_job-write_job id u jobs j,
  text_eq_iff job.id id,
  text_eq_iff job.id j,
  text_eq_iff id j,
)

pub write_of_update :
    (id : Text) (u : JobUpdate) (jobs : Jobs) {jobs' : Jobs}
    → update_job id u jobs ≡ some jobs'
    → jobs' ≡ write_job id u jobs
unfolding update_job
write_of_update id u jobs h = ground arith

-- Every row of this id is active.
abbrev pub ActiveIn : Text → Jobs → Type 0
ActiveIn id = All (λ job. text_eq job.id id ≡ true → is_active job.status ≡ true)

any-write_job :
    (id : Text) (u : JobUpdate) (server : ServerId) (jobs : Jobs)
    → ActiveIn id jobs
    → any (active_on server) jobs ≡ false
    → any (active_on server) (write_job id u jobs) ≡ false
unfolding write_job
any-write_job id u server [] h n = refl
any-write_job id u server (job ∷ jobs) h n = ground (arith, any-write_job id u server jobs h.1, h.0)

write_job-status_index :
    (id : Text) (u : JobUpdate) (jobs : Jobs)
    → ActiveIn id jobs
    → status_index jobs ≡ true
    → status_index (write_job id u jobs) ≡ true
unfolding status_index write_job
write_job-status_index id u [] h i = refl
write_job-status_index id u (job ∷ jobs) h i =
    ground
      (arith, write_job-status_index id u jobs h.1, any-write_job id u job.server_id jobs h.1, h.0)

-- An UPDATE of a job that is active, of whatever columns, in a table with at most one active job
-- for each server never breaks the index of active jobs: it is made.
pub update_job-active :
    (id : Text) (u : JobUpdate) (jobs : Jobs)
    → status_index jobs ≡ true
    → ActiveIn id jobs
    → update_job id u jobs ≡ some (write_job id u jobs)
unfolding update_job
update_job-active id u jobs i h = rw (write_job-status_index id u jobs h i)

pub update_job-status_index :
    (id : Text) (u : JobUpdate) (jobs : Jobs) {jobs' : Jobs}
    → update_job id u jobs ≡ some jobs'
    → status_index jobs' ≡ true
unfolding update_job
update_job-status_index id u jobs h = ground arith

any-append :
    (server : ServerId) (jobs : Jobs) (job : Job)
    → any (active_on server) (jobs ++ job ∷ [])
      ≡ (any (active_on server) jobs || active_on server job)
any-append server [] job = ground arith
any-append server (other ∷ jobs) job = ground (arith, any-append server jobs job)

same_server_comm : (s t : ServerId) → same_server s t ≡ same_server t s
same_server_comm s t = ground arith

-- Two rows conflict in the index whichever is looked at first.
active_on_comm :
    (job other : Job)
    → (is_active other.status && active_on other.server_id job)
      ≡ (is_active job.status && active_on job.server_id other)
active_on_comm job other =
    conflict_comm (is_active other.status) (is_active job.status) _ _
      (same_server_comm job.server_id other.server_id)
  where
    conflict_comm : (p q s t : Bool) → s ≡ t → (p && (s && q)) ≡ (q && (t && p))
    conflict_comm p q s t e = ground arith

-- The cases of `append-status_index`, on the tests alone.
append_tests :
    (active clash index new_active new_clash_head new_clash_tail head_clash_new result : Bool)
    → (not (active && clash) && index) ≡ true
    → (new_active && (new_clash_head || new_clash_tail)) ≡ false
    → (active && head_clash_new) ≡ (new_active && new_clash_head)
    → (index ≡ true → (new_active && new_clash_tail) ≡ false → result ≡ true)
    → (not (active && (clash || head_clash_new)) && result) ≡ true
append_tests active clash index na nh nt hn result i n c r = ground arith

append-status_index :
    (jobs : Jobs) (job : Job)
    → status_index jobs ≡ true
    → (is_active job.status && any (active_on job.server_id) jobs) ≡ false
    → status_index (jobs ++ job ∷ []) ≡ true
unfolding status_index
append-status_index [] job i n = ground arith
append-status_index (other ∷ jobs) job i n = rw (any-append other.server_id jobs job) (
    append_tests (is_active other.status) (any (active_on other.server_id) jobs) (status_index jobs)
      (is_active job.status) (active_on job.server_id other) (any (active_on job.server_id) jobs)
      (active_on other.server_id job) (status_index (jobs ++ job ∷ [])) i n
      (active_on_comm job other) (append-status_index jobs job))

pub insert_job-eq-some :
    (job : Job) (jobs : Jobs) {jobs' : Jobs}
    → insert_job job jobs ≡ some jobs'
    → (insert_clashes job jobs ≡ false) × (jobs' ≡ jobs ++ job ∷ [])
unfolding insert_job
insert_job-eq-some job jobs h = ground arith

insert_clashes-index :
    (job : Job) (jobs : Jobs)
    → insert_clashes job jobs ≡ false
    → (is_active job.status && any (active_on job.server_id) jobs) ≡ false
unfolding insert_clashes
insert_clashes-index job jobs h = second_false _ _ h
  where
    second_false : (p q : Bool) → (p || q) ≡ false → q ≡ false
    second_false p q e = ground arith

pub insert_job-status_index :
    (job : Job) (jobs : Jobs) {jobs' : Jobs}
    → insert_job job jobs ≡ some jobs'
    → status_index jobs ≡ true
    → status_index jobs' ≡ true
insert_job-status_index job jobs h i =
    let inserted = insert_job-eq-some job jobs h in
    subst (λ js. status_index js ≡ true) (sym inserted.1)
      (append-status_index jobs job i (insert_clashes-index job jobs inserted.0))

pub get_job-id : (jobs : Jobs) (id : Text) {job : Job} → get_job jobs id ≡ some job → job.id ≡ id
unfolding get_job
get_job-id [] id h = cc
get_job-id (other ∷ jobs) id {job} h =
    ground (arith, get_job-id jobs id {job = job}, text_eq_iff other.id id)
