-- ===== src/Jobs/Recorded.antt =====
-- What the single operations of a queue write to its attempt history.
use signalscope.Shared.{
  ℕ, ◌+◌, ◌≤◌, ◌≡◌, refl, inl, inr, Bool, true, false, Option, none, some, List, [], ◌∷◌, arith,
  All, All-map, Bool-cases, Option-cases, ltb,
}
use signalscope.Shared.Text.{Text, codes}
use signalscope.Shared.Rows.{find, update}
use signalscope.Shared.Rows.Laws.{All-update, All-delete, find-All}
use signalscope.Core.Leases.{Time, LeasePolicy}
use signalscope.Core.Errors.{short_error_message}
use signalscope.Jobs.Model.{
  Uuid, JobStatus, completed, failed, is_running, is_pending, Job, AttemptQueue, AttemptOutcome,
  is_open, Attempt, Tables, eq_value,
}
use signalscope.Jobs.Attempts.{open_attempt, start_attempt, finish_attempt}
use signalscope.Jobs.Queue.{
  Work, has_id, save, get, start, claimable_jobs, is_claimable, claim_first, claim_job, is_held,
  extended, heartbeat, stale_jobs, release, recover_job, recover_jobs, recover_stale, outcome_of,
  finished, finish_found, finish, mark_completed, mark_failed, requeued,
}
use signalscope.Jobs.Run.{
  Op, add, claim, beat, recover, complete, fail, retry, requeue, remove, tables_or, is_failed,
  retried, may_requeue, retry_found, run,
}
use signalscope.Jobs.Rows.{save-All, claimable_jobs-All, stale_jobs-All}
use signalscope.Jobs.History.{
  is_for, is_same, Linked, Settled, Distinct, finish_attempt-Linked, finish_attempt-Distinct,
  finish_attempt-Settled,
}

module _ {R : Type 0} (queue : AttemptQueue) where
  -- Every attempt of a job in the table is linked to it, and no two attempts are one.
  abbrev pub IsRecorded : Tables R → Type 0
  IsRecorded db = All (λ j. All (Linked queue j) db.attempts) db.jobs × Distinct queue db.attempts

  Settled-links :
      (j j' : Job R)
      → j'.id ≡ j.id
      → j'.attempt_count ≡ j.attempt_count
      → (a : Attempt) → Settled queue j a
      → Linked queue j' a
  Settled-links j j' i n a s f =
      let g : is_for queue j.id a ≡ true = rw (← i) f in
      (rw n (s g).0, λ o. absurd (ground (arith, (s g).1)))

  -- After `finish_attempt` for the job `j`, any new state of `j` with its ID and count fits.
  close-IsRecorded :
      (outcome : AttemptOutcome) (now : Time) (error : Option Text) (j j' : Job R) (db : Tables R)
      → is_open outcome ≡ false
      → j'.id ≡ j.id
      → j'.attempt_count ≡ j.attempt_count
      → All (Linked queue j) db.attempts
      → IsRecorded db
      → IsRecorded (record {
        jobs = save j' db.jobs;
        attempts = finish_attempt queue j.id j.attempt_count outcome now error db.attempts;
      })
  close-IsRecorded outcome now error j j' db shut i n linked (all, distinct) =
      let attempts' = finish_attempt queue j.id j.attempt_count outcome now error db.attempts in
      (
        save-All (λ k. All (Linked queue k) attempts') j' db.jobs
            (All-map (Settled-links j j' i n) attempts'
              (finish_attempt-Settled queue j outcome now error db.attempts shut distinct linked))
            (All-map
              (λ k l.
                finish_attempt-Linked queue outcome now error j.id j.attempt_count k db.attempts
                  shut l)
              db.jobs all),
        finish_attempt-Distinct queue outcome now error j.id j.attempt_count db.attempts distinct,
      )

  recover_jobs-IsRecorded :
      (now : Time) (js : List (Job R)) (db : Tables R)
      → All (λ j. All (Linked queue j) db.attempts) js
      → IsRecorded db
      → IsRecorded (recover_jobs queue now js db)
  unfolding recover_jobs recover_job release
  recover_jobs-IsRecorded now [] db l h = h
  recover_jobs-IsRecorded now (j ∷ js) db l h =
      recover_jobs-IsRecorded now js (recover_job queue now j db)
        (All-map
          (λ k.
            finish_attempt-Linked queue AttemptOutcome.recovered now
              (some (codes "Worker lease expired.")) j.id j.attempt_count k db.attempts refl)
          js l.1)
        (close-IsRecorded AttemptOutcome.recovered now (some (codes "Worker lease expired.")) j
          (release now j) db refl refl refl l.0 h)

  recover_stale-IsRecorded :
      (locked : Uuid → Bool) (now : Time) (limit : ℕ) (db : Tables R)
      → IsRecorded db
      → IsRecorded (tables_or db (recover_stale queue locked now limit db))
  unfolding recover_stale
  recover_stale-IsRecorded locked now limit db h = elim (Bool-cases (ltb limit 1)) [
    | inl e ↦ rw e h
    | inr e ↦ rw e (
        recover_jobs-IsRecorded now (stale_jobs locked now limit db) db
          (stale_jobs-All (λ j. All (Linked queue j) db.attempts)
            (λ j. All (Linked queue j) db.attempts) locked now limit db (λ j l _. l) h.0)
          h)
  ]

  finish-IsRecorded :
      (job_id token : Uuid) (status : JobStatus) (now : Time) (last_error : Option Text)
      (db : Tables R)
      → is_open (outcome_of status) ≡ false
      → IsRecorded db
      → IsRecorded (tables_or db (finish queue job_id token status now last_error db))
  unfolding finish finish_found get finished
  finish-IsRecorded job_id token status now last_error db shut h =
      elim (Option-cases (find (has_id job_id) db.jobs)) [
        | inl e ↦ rw e h
        | inr (j, e) ↦ elim (Bool-cases (is_running j.status)) [
          | inr f ↦ rw (e, f) h
          | inl f ↦ elim (Bool-cases (eq_value j.lease_token token)) [
            | inr g ↦ rw (e, f, g) h
            | inl g ↦
                rw (e, f, g)
                  (close-IsRecorded (outcome_of status) now last_error j
                    (finished status now last_error j) db shut refl refl
                    (find-All (λ k. All (Linked queue k) db.attempts) (has_id job_id) db.jobs e
                      h.0).1
                    h)
          ]
        ]
      ]

  -- A job that is not running has no open attempt, so any state of it with its ID and count fits.
  idle_links :
      (j j' : Job R)
      → is_running j.status ≡ false
      → j'.id ≡ j.id
      → j.attempt_count ≤ j'.attempt_count
      → (a : Attempt) → Linked queue j a
      → Linked queue j' a
  idle_links j j' idle i n a l f =
      let g : is_for queue j.id a ≡ true = rw (← i) f in
      (omega (arith, (l g).0), λ o. absurd (ground (arith, ((l g).1 o).0)))

  retry-IsRecorded :
      (job_id : Uuid) (now : Time) (renew : R → R) (db : Tables R)
      → IsRecorded db
      → IsRecorded (retry_found now renew (get job_id db) db)
  unfolding get retry_found requeued retried
  retry-IsRecorded job_id now renew db h = elim (Option-cases (find (has_id job_id) db.jobs)) [
    | inl e ↦ rw e h
    | inr (j, e) ↦ elim (Bool-cases (is_failed j.status)) [
      | inr f ↦ rw (e, f) h
      | inl f ↦
          rw (e, f)
            (
              save-All (λ k. All (Linked queue k) db.attempts) (retried now renew j) db.jobs
                  (All-map (idle_links j (retried now renew j) (ground arith) refl (omega arith))
                    db.attempts
                    (find-All (λ k. All (Linked queue k) db.attempts) (has_id job_id) db.jobs e
                      h.0).1)
                  h.0,
              h.1,
            )
    ]
  ]

  requeue-IsRecorded :
      (chosen : Job R → Bool) (now : Time) (db : Tables R)
      → IsRecorded db
      → IsRecorded (record db { jobs = update (may_requeue chosen) (requeued now) db.jobs })
  unfolding requeued may_requeue
  requeue-IsRecorded chosen now db h = (
    All-update (may_requeue chosen) (requeued now) db.jobs
        (λ j l g.
          All-map (idle_links j (requeued now j) (ground arith) refl (omega arith)) db.attempts l)
        (λ _ l _. l) h.0,
    h.1,
  )

  -- The new attempt differs from those that the job has.
  newer_differs :
      (j : Job R) (a b : Attempt)
      → a.attempt_number ≡ j.attempt_count + 1
      → a.job_id ≡ j.id
      → Linked queue j b
      → is_same queue a b ≡ false
  newer_differs j a b n i l = elim (Bool-cases (is_for queue j.id b)) [
    | inl g ↦ ground (arith, (l g).0)
    | inr g ↦ ground arith
  ]

  -- A new attempt of a job that starts.
  push-IsRecorded :
      (j j' : Job R) (a : Attempt) (db : Tables R)
      → is_pending j.status ≡ true
      → is_running j'.status ≡ true
      → j'.id ≡ j.id
      → j'.attempt_count ≡ j.attempt_count + 1
      → a.job_id ≡ j.id
      → a.attempt_number ≡ j.attempt_count + 1
      → All (Linked queue j) db.attempts
      → IsRecorded db
      → IsRecorded (record { jobs = save j' db.jobs; attempts = a ∷ db.attempts })
  unfolding save
  push-IsRecorded j j' a db idle runs i n ai an l h = (
    All-update (has_id j'.id) (λ _. j') db.jobs
        (λ k _ _. (
          (λ _. ground arith),
          All-map (idle_links j j' (ground arith) i (omega arith)) db.attempts l,
        ))
        (λ k m other. ((λ f. absurd (ground arith)), m)) h.0,
    (All-map (λ b m _. newer_differs j a b an ai m) db.attempts l, h.1),
  )

  module _ (clears : Bool) (lease : LeasePolicy) (now : Time) (token : Uuid) (work : R → Work) where
    claim_job-IsRecorded :
        (j : Job R) (db : Tables R)
        → is_pending j.status ≡ true
        → All (Linked queue j) db.attempts
        → IsRecorded db
        → IsRecorded (claim_job queue work now (start clears lease now token) j db)
    unfolding claim_job start start_attempt
    claim_job-IsRecorded j db p l h =
        let j' = start clears lease now token j in
        elim (Option-cases (work j.resource).organization) [
          | inl e ↦ rw e (
            save-All (λ k. All (Linked queue k) db.attempts) j' db.jobs
                (All-map (idle_links j j' (ground arith) refl (omega arith)) db.attempts l) h.0,
            h.1,
          )
          | inr (organization, e) ↦ rw e (
              push-IsRecorded j j'
                (open_attempt organization queue j.id (j.attempt_count + 1)
                  (work j.resource).resource_type (work j.resource).resource_id now)
                db p refl refl refl refl refl l h)
        ]

    claim_first-IsRecorded :
        (js : List (Job R)) (db : Tables R)
        → All (λ j. All (Linked queue j) db.attempts × (is_pending j.status ≡ true)) js
        → IsRecorded db
        → IsRecorded (claim_first queue work now (start clears lease now token) js db).0
    unfolding claim_first
    claim_first-IsRecorded [] db l h = h
    claim_first-IsRecorded (j ∷ js) db l h = claim_job-IsRecorded j db l.0.1 l.0.0 h

  -- What an operation needs: a new job has an ID that is new to the history too, and no attempts.
  abbrev pub AddsNew : Op R → Tables R → Type 0
  AddsNew (add j) db = All (λ a. is_for queue j.id a ≡ false) db.attempts
  AddsNew _ db = Unit

  -- Every operation of a queue keeps this: an attempt of a job in the table has a number that the
  -- job's count has reached, an open attempt is the last one of a running job, and no two attempts of
  -- one job have one number. A job that is added has an ID that no attempt has.
  pub run-IsRecorded :
      (work : R → Work) (op : Op R) (db : Tables R)
      → AddsNew op db
      → IsRecorded db
      → IsRecorded (run queue work op db)
  unfolding run heartbeat mark_completed mark_failed extended is_claimable
  run-IsRecorded work (add j) db new h = ((All-map (λ a n f. cc) db.attempts new, h.0), h.1)
  run-IsRecorded work (claim clears accepts locked now lease token) db new h =
      claim_first-IsRecorded clears lease now token work (claimable_jobs accepts locked now db) db
        (claimable_jobs-All (λ j. All (Linked queue j) db.attempts)
          (λ j. All (Linked queue j) db.attempts × (is_pending j.status ≡ true)) accepts locked now
          db (λ j l g. (l, ground arith)) h.0)
        h
  run-IsRecorded work (beat job_id token now lease) db new h = (
    All-update (is_held job_id token) (extended lease now) db.jobs (λ _ l _. l) (λ _ l _. l) h.0,
    h.1,
  )
  run-IsRecorded work (recover locked now limit) db new h =
      recover_stale-IsRecorded locked now limit db h
  run-IsRecorded work (complete job_id token now) db new h =
      finish-IsRecorded job_id token completed now none db refl h
  run-IsRecorded work (fail job_id token now error) db new h =
      finish-IsRecorded job_id token failed now (some (short_error_message error)) db refl h
  run-IsRecorded work (retry job_id now renew) db new h = retry-IsRecorded job_id now renew db h
  run-IsRecorded work (requeue chosen now) db new h = requeue-IsRecorded chosen now db h
  run-IsRecorded work (remove which) db new h =
      (All-delete (λ k. All (Linked queue k) db.attempts) which db.jobs h.0, h.1)
