-- ===== src/Jobs/Rows.antt =====
-- How each operation changes the rows of the job table: one rule for every predicate on jobs.
use signalscope.Shared.{
  ℕ, ◌≡◌, inl, inr, Bool, true, Option, none, some, List, [], ◌∷◌, All, All-zip, ltb, Bool-cases,
  Option-cases,
}
use signalscope.Shared.Text.{Text}
use signalscope.Shared.Rows.{find, select, order_by}
use signalscope.Shared.Rows.Laws.{All-update, All-delete, All-select, find-All, select-All}
use signalscope.Shared.Rows.Order.{All-order_by, All-take}
use signalscope.Core.Leases.{Time}
use signalscope.Core.Errors.{short_error_message}
use signalscope.Jobs.Model.{
  Uuid, JobStatus, completed, failed, is_running, Job, AttemptQueue, Tables, eq_value,
}
use signalscope.Jobs.Queue.{
  Work, has_id, save, get, start, claimable_jobs, is_claimable, claim_before, claim_first,
  claim_job, is_held, extended, heartbeat, is_stale, stale_before, stale_jobs, release, recover_job,
  recover_jobs, recover_stale, finished, finish_found, finish, mark_completed, mark_failed,
  requeued,
}
use signalscope.Jobs.Run.{
  Op, add, claim, beat, recover, complete, fail, retry, requeue, remove, tables_or, is_failed,
  retried, may_requeue, retry_found, run, run_all,
}

module _ {κ} {R : Type 0} (P : Job R → Type κ) where
  pub save-All : (j : Job R) (jobs : List (Job R)) → P j → All P jobs → All P (save j jobs)
  unfolding save
  save-All j jobs p h = All-update (has_id j.id) (λ _. j) jobs (λ _ _ _. p) (λ _ q _. q) h

-- What the change that an operation makes to one job has to keep, under the guards that the
-- operation has tested by then.
abbrev pub Keeps {κ} : {R : Type 0} → (Job R → Type κ) → Op R → Type κ
Keeps P (add j) = P j
Keeps P (claim clears accepts locked now lease token) =
    (j : _) → P j → is_claimable accepts locked now j ≡ true → P (start clears lease now token j)
Keeps P (beat job_id token now lease) =
    (j : _) → P j → is_held job_id token j ≡ true → P (extended lease now j)
Keeps P (recover locked now limit) =
    (j : _) → P j → is_stale locked now j ≡ true → P (release now j)
Keeps P (complete job_id token now) =
    (j : _) → P j → is_held job_id token j ≡ true → P (finished completed now none j)
Keeps P (fail job_id token now error) =
    (j : _)
    → P j
    → is_held job_id token j ≡ true
    → P (finished failed now (some (short_error_message error)) j)
Keeps P (retry job_id now renew) =
    (j : _) → P j → is_failed j.status ≡ true → P (retried now renew j)
Keeps P (requeue chosen now) = (j : _) → P j → may_requeue chosen j ≡ true → P (requeued now j)
Keeps P (remove which) = Unit

-- What the selected jobs have, from what all jobs have and the guards of the selection.
module _ {κ μ} {R : Type 0} (P : Job R → Type κ) (Q : Job R → Type μ) where
  pub stale_jobs-All :
      (locked : Uuid → Bool) (now : Time) (limit : ℕ) (db : Tables R)
      → ((j : Job R) → P j → is_stale locked now j ≡ true → Q j)
      → All P db.jobs
      → All Q (stale_jobs locked now limit db)
  unfolding stale_jobs
  stale_jobs-All locked now limit db keep h =
      let rows = select (is_stale locked now) db.jobs in
      All-take stale_before Q limit (order_by stale_before rows) (
        All-order_by stale_before Q rows (
          All-zip keep rows (All-select P (is_stale locked now) db.jobs h)
            (select-All (is_stale locked now) db.jobs)))

  pub claimable_jobs-All :
      (accepts : R → Bool) (locked : Uuid → Bool) (now : Time) (db : Tables R)
      → ((j : Job R) → P j → is_claimable accepts locked now j ≡ true → Q j)
      → All P db.jobs
      → All Q (claimable_jobs accepts locked now db)
  unfolding claimable_jobs
  claimable_jobs-All accepts locked now db keep h =
      let rows = select (is_claimable accepts locked now) db.jobs in
      All-order_by claim_before Q rows (
        All-zip keep rows (All-select P (is_claimable accepts locked now) db.jobs h)
          (select-All (is_claimable accepts locked now) db.jobs))

module _ {κ} {R : Type 0} (P : Job R → Type κ) (queue : AttemptQueue) where
  pub recover_jobs-All :
      (now : Time) (js : List (Job R)) (db : Tables R)
      → All (λ j. P (release now j)) js
      → All P db.jobs
      → All P (recover_jobs queue now js db).jobs
  unfolding recover_jobs recover_job
  recover_jobs-All now [] db p h = h
  recover_jobs-All now (j ∷ js) db p h =
      recover_jobs-All now js (recover_job queue now j db) p.1
        (save-All P (release now j) db.jobs p.0 h)

  recover_stale-All :
      (locked : Uuid → Bool) (now : Time) (limit : ℕ) (db : Tables R)
      → ((j : Job R) → P j → is_stale locked now j ≡ true → P (release now j))
      → All P db.jobs
      → All P (tables_or db (recover_stale queue locked now limit db)).jobs
  unfolding recover_stale stale_jobs
  recover_stale-All locked now limit db keep h = elim (Bool-cases (ltb limit 1)) [
    | inl e ↦ rw e h
    | inr e ↦ rw e (
        recover_jobs-All now (stale_jobs locked now limit db) db
          (stale_jobs-All P (λ j. P (release now j)) locked now limit db keep h) h)
  ]

  finish_found-All :
      (token : Uuid) (status : JobStatus) (now : Time) (last_error : Option Text) (j : Job R)
      (db : Tables R)
      → (is_running j.status ≡ true
          → eq_value j.lease_token token ≡ true
          → P (finished status now last_error j))
      → All P db.jobs
      → All P (tables_or db (finish_found queue token status now last_error j db)).jobs
  unfolding finish_found
  finish_found-All token status now last_error j db keep h =
      elim (Bool-cases (is_running j.status)) [
        | inr e ↦ rw e h
        | inl e ↦ elim (Bool-cases (eq_value j.lease_token token)) [
          | inr f ↦ rw (e, f) h
          | inl f ↦ rw (e, f) (save-All P (finished status now last_error j) db.jobs (keep e f) h)
        ]
      ]

  finish-All :
      (job_id token : Uuid) (status : JobStatus) (now : Time) (last_error : Option Text)
      (db : Tables R)
      → ((j : Job R) → P j → is_held job_id token j ≡ true → P (finished status now last_error j))
      → All P db.jobs
      → All P (tables_or db (finish queue job_id token status now last_error db)).jobs
  unfolding finish get is_held
  finish-All job_id token status now last_error db keep h =
      elim (Option-cases (find (has_id job_id) db.jobs)) [
        | inl e ↦ rw e h
        | inr (j, e) ↦
            let (i, p) = find-All P (has_id job_id) db.jobs e h in
            rw e
              (finish_found-All token status now last_error j db (λ r t. keep j p (rw (i, r, t))) h)
      ]

  retry-All :
      (job_id : Uuid) (now : Time) (renew : R → R) (db : Tables R)
      → ((j : Job R) → P j → is_failed j.status ≡ true → P (retried now renew j))
      → All P db.jobs
      → All P (retry_found now renew (get job_id db) db).jobs
  unfolding get retry_found
  retry-All job_id now renew db keep h = elim (Option-cases (find (has_id job_id) db.jobs)) [
    | inl e ↦ rw e h
    | inr (j, e) ↦ elim (Bool-cases (is_failed j.status)) [
      | inr f ↦ rw (e, f) h
      | inl f ↦
          rw (e, f)
            (save-All P (retried now renew j) db.jobs
              (keep j (find-All P (has_id job_id) db.jobs e h).1 f) h)
    ]
  ]

  claim_first-All :
      (work : R → Work) (now : Time) (begin : Job R → Job R) (js : List (Job R)) (db : Tables R)
      → All (λ j. P (begin j)) js
      → All P db.jobs
      → All P (claim_first queue work now begin js db).0.jobs
  unfolding claim_first claim_job
  claim_first-All work now begin [] db p h = h
  claim_first-All work now begin (j ∷ js) db p h = save-All P (begin j) db.jobs p.0 h

  -- A predicate on jobs that the operation's change keeps holds of every row after it.
  pub run-All :
      (work : R → Work) (op : Op R) (db : Tables R)
      → Keeps P op
      → All P db.jobs
      → All P (run queue work op db).jobs
  unfolding run heartbeat mark_completed mark_failed
  run-All work (add j) db keep h = (keep, h)
  run-All work (claim clears accepts locked now lease token) db keep h =
      claim_first-All work now (start clears lease now token) (claimable_jobs accepts locked now db)
        db
        (claimable_jobs-All P (λ j. P (start clears lease now token j)) accepts locked now db keep
          h)
        h
  run-All work (beat job_id token now lease) db keep h =
      All-update (is_held job_id token) (extended lease now) db.jobs keep (λ _ p _. p) h
  run-All work (recover locked now limit) db keep h = recover_stale-All locked now limit db keep h
  run-All work (complete job_id token now) db keep h =
      finish-All job_id token completed now none db keep h
  run-All work (fail job_id token now error) db keep h =
      finish-All job_id token failed now (some (short_error_message error)) db keep h
  run-All work (retry job_id now renew) db keep h = retry-All job_id now renew db keep h
  run-All work (requeue chosen now) db keep h =
      All-update (may_requeue chosen) (requeued now) db.jobs keep (λ _ p _. p) h
  run-All work (remove which) db keep h = All-delete P which db.jobs h

  pub run_all-All :
      (work : R → Work) (ops : List (Op R)) (db : Tables R)
      → All (Keeps P) ops
      → All P db.jobs
      → All P (run_all queue work ops db).jobs
  unfolding run_all
  run_all-All work [] db keep h = h
  run_all-All work (op ∷ ops) db keep h =
      run_all-All work ops (run queue work op db) keep.1 (run-All work op db keep.0 h)
