-- ===== src/Backup/Run/Alone.antt =====
-- Backups and restores that overlap: the flag of services/backup.service.ts lets one at a time.
use vpn_relay.Prelude.{
  ℕ, ◌<◌, Text, text_eq, text_eq_refl, text_eq_iff, not, ◌&&◌, Bool, Bool-cases, true, false, any,
  if◌then◌else◌, Option, none, some, List, [], ◌∷◌, ◌++◌, All, ◌≡◌, ◌⊎◌, inl, inr, refl, sym, subst,
  ap, ◌∙◌, arith,
}
use vpn_relay.Prelude.Result.{ok, err}
use vpn_relay.Backup.Bundle.{UtcDate}
use vpn_relay.Backup.Run.{
  Trigger, BackupRun, Runs, new_run, insert_backup_run, finish_backup_run, is_running,
  fail_stuck_backup_runs, Outcome, Host, Manifest, Calls, gather, Backups, begin_run, begin_commit,
  RunResult, fail_with, close_run, assemble, land_bundle, set_failed, set_result, without, end_run,
  startup, deliver, success, degraded, Start, begin_with,
}

-- The runs whose row could not be closed: `runBackup` threw.
abbrev pub unclosed : Text → Outcome RunResult → List Text
unclosed id (ok r) = []
unclosed id (err e) = id ∷ []

-- What may happen next: a run begins or is refused, the run in flight ends, a restore begins; with the
-- run that threw at its end.
pub data Step (s : Backups) : Backups → List Text → Type 0 where
  begins : (id : Text) (trigger : Trigger) (now : ℕ) → Step s (begin_run id trigger now s).0 []
  ends :
      (host : Host) (calls : Calls) (trigger : Trigger) (now : UtcDate) (id : Text) (at : ℕ)
      → s.in_flight ≡ some id
      → Step s
          (end_run host calls trigger now id at s).0
          (unclosed id (end_run host calls trigger now id at s).1)
  commits : Step s (begin_commit s).0 []

-- What may have become of the service since its start, with the runs that threw at their end.
pub data Reach (start : Backups) : Backups → List Text → Type 0 where
  initially : Reach start start []
  later :
      {before after : Backups} {new thrown : List Text}
      → Step before after new
      → Reach start before thrown
      → Reach start after (new ++ thrown)

abbrev pub IsFinished : BackupRun → Type 0
IsFinished r = is_running r.status ≡ false

abbrev pub is_one_of : Text → List Text → Bool
is_one_of id = any (λ other. text_eq id other)

-- The row is finished, or its run is one of those that threw.
abbrev pub IsClosed : List Text → BackupRun → Type 0
IsClosed thrown r = (is_running r.status && not (is_one_of r.id thrown)) ≡ false

abbrev IsClosedOr : Option Text → List Text → BackupRun → Type 0
IsClosedOr in_flight thrown r = IsClosed thrown r ⊎ (in_flight ≡ some r.id)

record IsAlone (s : Backups) (thrown : List Text) : Type 0 where
  idle : s.running ≡ false → s.in_flight ≡ none
  rows : All (IsClosedOr s.in_flight thrown) s.runs
  dirs : All (λ d. s.in_flight ≡ some d) s.stages

reaped :
    (now process_start : ℕ) (runs : Runs)
    → All (λ r. r.started_at < process_start) runs
    → All IsFinished (fail_stuck_backup_runs now process_start runs)
unfolding fail_stuck_backup_runs
reaped now process_start [] h = tt
reaped now process_start (r ∷ runs) h = (ground (arith, h.0), reaped now process_start runs h.1)

All-map :
    {P Q : BackupRun → Type 0} (f : (r : BackupRun) → P r → Q r) (rs : Runs) → All P rs → All Q rs
All-map f [] h = tt
All-map f (r ∷ rs) h = (f r h.0, All-map f rs h.1)

All-snoc :
    (P : BackupRun → Type 0) (rs : Runs) (r : BackupRun) → All P rs → P r → All P (rs ++ r ∷ [])
All-snoc P [] r h p = (p, tt)
All-snoc P (q ∷ rs) r h p = (h.0, All-snoc P rs r h.1 p)

-- With no run in flight all rows are closed, and no directory is left.
idle-IsClosed :
    (o : Option Text) (thrown : List Text) (rs : Runs)
    → o ≡ none
    → All (IsClosedOr o thrown) rs
    → All (IsClosed thrown) rs
idle-IsClosed o thrown rs e =
    All-map
      (λ r h. elim h [ inl f ↦ f | inr i ↦ absurd (let bad : none ≡ some r.id = sym e ∙ i in cc) ])
      rs

idle-empty : (o : Option Text) (ds : List Text) → o ≡ none → All (λ d. o ≡ some d) ds → ds ≡ []
idle-empty o [] e h = refl
idle-empty o (d ∷ ds) e h = absurd (let bad : none ≡ some d = sym e ∙ h.0 in cc)

finish_backup_run-IsClosed :
    (at : ℕ) (id : Text) (set : BackupRun → BackupRun) (thrown : List Text)
    → ((r : BackupRun) → IsFinished (set r))
    → (rs : Runs) → All (IsClosedOr (some id) thrown) rs
    → All (IsClosed thrown) (finish_backup_run at id set rs)
unfolding finish_backup_run
finish_backup_run-IsClosed at id set thrown f [] h = tt
finish_backup_run-IsClosed at id set thrown f (r ∷ rs) h = (
  elim (Bool-cases (text_eq r.id id)) [
    | inl e ↦ rw e (ground (arith, f r))
    | inr n ↦ rw n (elim h.0 [
      | inl done ↦ done
      | inr same ↦ absurd (let same' : id ≡ r.id = cc in ground (arith, text_eq_refl id))
    ])
  ],
  finish_backup_run-IsClosed at id set thrown f rs h.1,
)

-- A run that throws is added to those that threw.
thrown-IsClosed :
    (id : Text) (thrown : List Text) (rs : Runs)
    → All (IsClosedOr (some id) thrown) rs
    → All (IsClosed (id ∷ thrown)) rs
thrown-IsClosed id thrown rs =
    All-map
      (λ r h. elim h [
        | inl done ↦ ground arith
        | inr same ↦ let e : r.id ≡ id = cc in ground (arith, text_eq_iff r.id id)
      ])
      rs

without-empty : (id : Text) (ds : List Text) → All (λ d. some id ≡ some d) ds → without id ds ≡ []
without-empty id [] h = refl
without-empty id (d ∷ ds) h =
    let e = h.0 in
    let same : id ≡ d = cc in ground (arith, text_eq_refl id, without-empty id ds h.1)

-- What the end of a run leaves, whichever way it ends.
record Ends (id : Text) (thrown : List Text) (s : Backups) (t : Backups × Outcome RunResult)
    : Type 0 where
  rows : All (IsClosed (unclosed id t.1 ++ thrown)) t.0.runs
  left : t.0.stages ≡ s.stages

status_of : (ok? : Bool) → is_running (if ok? then success else degraded) ≡ false
status_of true = refl
status_of false = refl

module _ (thrown : List Text) (id : Text) (at : ℕ) where
  fail_with-Ends :
      (closed : Outcome (Unit {0})) (e : Text) (s : Backups)
      → All (IsClosedOr (some id) thrown) s.runs
      → Ends id thrown s (fail_with closed id at e s)
  fail_with-Ends (ok _) e s h = record {
    rows = finish_backup_run-IsClosed at id (set_failed e) thrown (λ r. refl) s.runs h;
    left = refl;
  }
  fail_with-Ends (err m) e s h = record { rows = thrown-IsClosed id thrown s.runs h; left = refl }

  close_run-Ends :
      (closed : Outcome (Unit {0})) (calls : Calls) (result : RunResult) (s : Backups)
      → result.id ≡ id
      → is_running result.status ≡ false
      → All (IsClosedOr (some id) thrown) s.runs
      → Ends id thrown s (close_run closed calls at result s)
  close_run-Ends (ok _) calls result s e final h = record {
    rows =
        finish_backup_run-IsClosed at result.id (set_result result) thrown (λ r. final) s.runs
          (subst (λ i. All (IsClosedOr (some i) thrown) s.runs) (sym e) h);
    left = refl;
  }
  close_run-Ends (err m) calls result s e final h =
      subst (λ i. Ends id thrown s (fail_with calls.finish_failed i at m s)) (sym e)
        (fail_with-Ends calls.finish_failed m s h)

  land_bundle-Ends :
      (host : Host) (calls : Calls) (m : Manifest) (name : Text) (landed : Outcome ℕ) (s : Backups)
      → All (IsClosedOr (some id) thrown) s.runs
      → Ends id thrown s (land_bundle host calls id at m name landed s)
  land_bundle-Ends host calls m name (err e) s h = fail_with-Ends calls.finish_failed e s h
  land_bundle-Ends host calls m name (ok n) s h =
      let ends =
        close_run-Ends calls.finish calls _ _ refl (status_of (deliver n calls.send_document).0)
          h in
      record { rows = ends.rows; left = ends.left }

  assemble-Ends :
      (host : Host) (calls : Calls) (now : UtcDate) (gathered : Outcome (Manifest × Text))
      (s : Backups)
      → All (IsClosedOr (some id) thrown) s.runs
      → Ends id thrown s (assemble host calls now id at gathered s)
  assemble-Ends host calls now (err e) s h = fail_with-Ends calls.finish_failed e s h
  assemble-Ends host calls now (ok (m, passphrase)) s h = land_bundle-Ends host calls m _ _ s h

IsAlone-if :
    (b : Bool) (x y : Backups × Start) (thrown : List Text)
    → (b ≡ true → IsAlone x.0 thrown)
    → (b ≡ false → IsAlone y.0 thrown)
    → IsAlone (if b then x else y).0 thrown
IsAlone-if true x y thrown f g = f refl
IsAlone-if false x y thrown f g = g refl

begin_with-IsAlone :
    (taken : Bool) (id : Text) (run : BackupRun) (s : Backups) (thrown : List Text)
    → s.running ≡ false
    → run.id ≡ id
    → IsAlone s thrown
    → IsAlone (begin_with id s (if taken then none else some (s.runs ++ run ∷ []))).0 thrown
begin_with-IsAlone true id run s thrown h same a = record {
  idle = λ e. cc;
  rows = a.rows;
  dirs = a.dirs;
}
begin_with-IsAlone false id run s thrown h same a = record {
  idle = λ e. cc;
  rows =
      All-snoc (IsClosedOr (some id) thrown) s.runs _
        (All-map (λ r f. inl f) s.runs (idle-IsClosed s.in_flight thrown s.runs (a.idle h) a.rows))
        (inr (ap some (sym same)));
  dirs =
      subst (λ ds. All (λ d. some id ≡ some d) (ds ++ id ∷ []))
        (sym (idle-empty s.in_flight s.stages (a.idle h) a.dirs)) (refl, tt);
}

begin_run-IsAlone :
    (id : Text) (trigger : Trigger) (now : ℕ) (s : Backups) (thrown : List Text)
    → IsAlone s thrown
    → IsAlone (begin_run id trigger now s).0 thrown
unfolding begin_run insert_backup_run
begin_run-IsAlone id trigger now s thrown a =
    IsAlone-if s.running _ _ thrown (λ h. a)
      (λ h.
        begin_with-IsAlone (any (λ r. text_eq r.id id) s.runs) id (new_run id trigger now) s thrown
          h refl a)

end_run-IsAlone :
    (host : Host) (calls : Calls) (trigger : Trigger) (now : UtcDate) (id : Text) (at : ℕ)
    (s : Backups) (thrown : List Text)
    → s.in_flight ≡ some id
    → IsAlone s thrown
    → let ended = end_run host calls trigger now id at s in
      IsAlone ended.0 (unclosed id ended.1 ++ thrown)
unfolding end_run
end_run-IsAlone host calls trigger now id at s thrown e a =
    let rows : All (IsClosedOr (some id) thrown) s.runs =
      subst (λ o. All (IsClosedOr o thrown) s.runs) e a.rows in
    let dirs : All (λ d. some id ≡ some d) s.stages =
      subst (λ o. All (λ d. o ≡ some d) s.stages) e a.dirs in
    let ends = assemble-Ends thrown id at host calls now (gather host calls trigger now) s rows in
    record {
      idle = λ _. refl;
      rows = All-map (λ r f. inl f) _ ends.rows;
      dirs =
          subst (λ ds. All (λ d. none ≡ some d) ds)
            (sym (ap (without id) ends.left ∙ without-empty id s.stages dirs)) tt;
    }

begin_commit-IsAlone :
    (s : Backups) (thrown : List Text) → IsAlone s thrown → IsAlone (begin_commit s).0 thrown
unfolding begin_commit
begin_commit-IsAlone s thrown a =
    IsAlone-if s.running _ _ thrown (λ h. a)
      (λ h. record { idle = λ e. cc; rows = a.rows; dirs = a.dirs })

Step-IsAlone :
    {s t : Backups} {new : List Text} (thrown : List Text)
    → Step s t new
    → IsAlone s thrown
    → IsAlone t (new ++ thrown)
Step-IsAlone {s} thrown (begins id trigger now) a = begin_run-IsAlone id trigger now s thrown a
Step-IsAlone {s} thrown (ends host calls trigger now id at e) a =
    end_run-IsAlone host calls trigger now id at s thrown e a
Step-IsAlone {s} thrown commits a = begin_commit-IsAlone s thrown a

Reach-IsAlone :
    {start end : Backups} {thrown : List Text}
    → Reach start end thrown
    → IsAlone start []
    → IsAlone end thrown
Reach-IsAlone initially a = a
Reach-IsAlone (later {thrown = thrown} step earlier) a =
    Step-IsAlone thrown step (Reach-IsAlone earlier a)

-- What is left half done while the flag is off: from a startup at which all rows of the table are of
-- earlier processes, whatever requests overlap and however the calls of the runs end, no directory
-- backup-<id>, which holds the keys in the clear, is there; and a row is `running` only if its run
-- threw, as the closing UPDATE of its `catch` block failed.
pub idle-settled :
    (now process_start : ℕ) (runs : Runs) (names : Option (List Text)) {s : Backups}
    {thrown : List Text}
    → All (λ r. r.started_at < process_start) runs
    → Reach (startup now process_start runs names) s thrown
    → s.running ≡ false
    → All (IsClosed thrown) s.runs × (s.stages ≡ [])
unfolding startup
idle-settled now process_start runs names {s} {thrown} earlier r off =
    let a = Reach-IsAlone r (record {
      idle = λ e. refl;
      rows = All-map (λ q f. inl (ground arith)) _ (reaped now process_start runs earlier);
      dirs = tt;
    }) in
    (
      idle-IsClosed s.in_flight thrown s.runs (a.idle off) a.rows,
      idle-empty s.in_flight s.stages (a.idle off) a.dirs,
    )
