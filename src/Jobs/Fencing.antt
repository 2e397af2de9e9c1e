-- ===== src/Jobs/Fencing.antt =====
-- Workers that lost their lease, and the tokens that they still have.
use signalscope.Shared.{
  ℕ, zero, suc, ◌≡◌, ◌≢◌, refl, inl, inr, Bool, true, false, Option, none, some, List, [], ◌∷◌,
  arith, All, All-map, All-of, In, is_raised, Bool-cases, Option-cases, ltb,
}
use signalscope.Shared.Text.{Text}
use signalscope.Shared.Rows.{find}
use signalscope.Shared.Rows.Laws.{All-update, find-All, find_absent, update_absent, In-cons}
use signalscope.Core.Leases.{Time, LeasePolicy}
use signalscope.Core.Errors.{short_error_message}
use signalscope.Jobs.Model.{
  Uuid, JobStatus, completed, failed, is_running, Job, AttemptQueue, Tables, eq_value,
}
use signalscope.Jobs.Queue.{
  Work, has_id, save, get, heartbeat, finish, finish_found, recover_job, recover_jobs,
  recover_stale, stale_jobs, mark_completed, mark_failed, start, is_claimable, is_held, extended,
  is_stale, release, finished, requeued,
}
use signalscope.Jobs.Run.{
  Op, add, claim, beat, recover, complete, fail, retry, requeue, remove, retried, run, run_all,
}
use signalscope.Jobs.Rows.{Keeps, save-All, recover_jobs-All, run_all-All}

module _ {R : Type 0} (token : Uuid) where
  abbrev pub DoesNotHold : Job R → Type 0
  DoesNotHold j = eq_value j.lease_token token ≡ false

  -- The token is not given out again: `uuid4` makes a new one for every claim.
  abbrev pub Avoids : Op R → Type 0
  Avoids (add j) = DoesNotHold j
  Avoids (claim clears accepts locked now lease t) = t ≢ token
  Avoids _ = Unit

  op-DoesNotHold : (op : Op R) → Avoids op → Keeps DoesNotHold op
  unfolding start is_claimable is_held extended is_stale release finished requeued retried
  op-DoesNotHold (add j) h = h
  op-DoesNotHold (claim clears accepts locked now lease t) h = λ j c g. ground arith
  op-DoesNotHold (beat job_id t now lease) h = λ j c g. c
  op-DoesNotHold (recover locked now limit) h = λ j c g. refl
  op-DoesNotHold (complete job_id t now) h = λ j c g. refl
  op-DoesNotHold (fail job_id t now error) h = λ j c g. refl
  op-DoesNotHold (retry job_id now renew) h = λ j c g. refl
  op-DoesNotHold (requeue chosen now) h = λ j c g. refl
  op-DoesNotHold (remove which) h = tt

  run_all-DoesNotHold :
      (queue : AttemptQueue) (work : R → Work) (ops : List (Op R)) (db : Tables R)
      → All Avoids ops
      → All DoesNotHold db.jobs
      → All DoesNotHold (run_all queue work ops db).jobs
  run_all-DoesNotHold queue work ops db avoids h =
      run_all-All DoesNotHold queue work ops db (All-map op-DoesNotHold ops avoids) h

  not_held : (job_id : Uuid) (j : Job R) → DoesNotHold j → is_held job_id token j ≡ false
  unfolding is_held
  not_held job_id j h = ground arith

  -- A heartbeat with a token that no job holds is refused and changes nothing.
  beat_refused :
      (job_id : Uuid) (now : Time) (lease : LeasePolicy) (db : Tables R)
      → All DoesNotHold db.jobs
      → heartbeat job_id token now lease db ≡ (db, false)
  unfolding heartbeat
  beat_refused job_id now lease db h =
      let e = All-map (not_held job_id) db.jobs h in
      rw (
        update_absent (is_held job_id token) (extended lease now) db.jobs e,
        find_absent (is_held job_id token) db.jobs e,
      )

  -- The end of a job is refused too.
  finish_refused :
      (queue : AttemptQueue) (job_id : Uuid) (status : JobStatus) (now : Time)
      (last_error : Option Text) (db : Tables R)
      → All DoesNotHold db.jobs
      → is_raised (finish queue job_id token status now last_error db) ≡ true
  unfolding finish finish_found get
  finish_refused queue job_id status now last_error db h =
      elim (Option-cases (find (has_id job_id) db.jobs)) [
        | inl e ↦ rw e
        | inr (j, e) ↦
            let d = (find-All DoesNotHold (has_id job_id) db.jobs e h).1 in
            elim (Bool-cases (is_running j.status)) [ inl f ↦ rw (e, f, d) | inr f ↦ rw (e, f) ]
      ]

  -- Only the job `i` may hold the token.
  abbrev pub HeldOnlyBy : Uuid → Job R → Type 0
  HeldOnlyBy i j = eq_value j.lease_token token ≡ true → j.id ≡ i

  recover_job-revokes :
      (queue : AttemptQueue) (now : Time) (j : Job R) (db : Tables R)
      → All (HeldOnlyBy j.id) db.jobs
      → All DoesNotHold (recover_job queue now j db).jobs
  unfolding recover_job save release
  recover_job-revokes queue now j db h =
      All-update (has_id j.id) (λ _. release now j) db.jobs (λ _ _ _. refl)
        (λ k only other. ground (arith, only)) h

  release-DoesNotHold : (now : Time) (j : Job R) → DoesNotHold (release now j)
  unfolding release
  release-DoesNotHold now j = refl

  recover_job-HeldOnlyBy :
      (queue : AttemptQueue) (now : Time) (k : Job R) (i : Uuid) (db : Tables R)
      → All (HeldOnlyBy i) db.jobs
      → All (HeldOnlyBy i) (recover_job queue now k db).jobs
  unfolding recover_job release
  recover_job-HeldOnlyBy queue now k i db h =
      save-All (HeldOnlyBy i) (release now k) db.jobs (λ e. cc) h

  recover_jobs-revokes :
      (queue : AttemptQueue) (now : Time) (js : List (Job R)) (db : Tables R) (j : Job R)
      → In j js
      → All (HeldOnlyBy j.id) db.jobs
      → All DoesNotHold (recover_jobs queue now js db).jobs
  unfolding recover_jobs
  recover_jobs-revokes queue now [] db j i h = elim i [ ]
  recover_jobs-revokes queue now (k ∷ js) db j i h = elim (In-cons i) [
    | inl q ↦
        recover_jobs-All DoesNotHold queue now js (recover_job queue now k db)
          (All-of {P = λ x. DoesNotHold (release now x)} (release-DoesNotHold now) js)
          (rw (← q) (recover_job-revokes queue now j db h))
    | inr later ↦
        recover_jobs-revokes queue now js (recover_job queue now k db) j later
          (recover_job-HeldOnlyBy queue now k j.id db h)
  ]

  run-recover-revokes :
      (queue : AttemptQueue) (work : R → Work) (locked : Uuid → Bool) (now : Time) (limit : ℕ)
      (db : Tables R) (j : Job R)
      → In j (stale_jobs locked now limit db)
      → All (HeldOnlyBy j.id) db.jobs
      → All DoesNotHold (run queue work (recover locked now limit) db).jobs
  unfolding run recover_stale stale_jobs
  run-recover-revokes queue work locked now zero db j i only = elim i [ ]
  run-recover-revokes queue work locked now (suc n) db j i only =
      let e : ltb (suc n) 1 ≡ false = ground arith in
      rw e (recover_jobs-revokes queue now (stale_jobs locked now (suc n) db) db j i only)

  -- After a recovery that takes the job of a worker, and after any operations that do not give the
  -- worker's token out again, in any order: the worker's heartbeat returns False and changes
  -- nothing, and its mark_completed and mark_failed raise, for every job ID. Before the recovery
  -- only that job held the token.
  pub recovered_worker_is_fenced :
      (queue : AttemptQueue) (work : R → Work) (locked : Uuid → Bool) (now : Time) (limit : ℕ)
      (db : Tables R) (j : Job R) (ops : List (Op R))
      → In j (stale_jobs locked now limit db)
      → All (HeldOnlyBy j.id) db.jobs
      → All Avoids ops
      → (job_id : Uuid) (later : Time) (lease : LeasePolicy) (error : Text)
      → let db' = run_all queue work ops (run queue work (recover locked now limit) db) in
        (heartbeat job_id token later lease db' ≡ (db', false))
        × (is_raised (mark_completed queue job_id token later db') ≡ true)
        × (is_raised (mark_failed queue job_id token later error db') ≡ true)
  unfolding mark_completed mark_failed
  recovered_worker_is_fenced queue work locked now limit db j ops i only avoids job_id later lease
        error =
      let db₀ = run queue work (recover locked now limit) db in
      let db' = run_all queue work ops db₀ in
      let gone =
        run_all-DoesNotHold queue work ops db₀ avoids
          (run-recover-revokes queue work locked now limit db j i only) in
      (
        beat_refused job_id later lease db' gone,
        finish_refused queue job_id completed later none db' gone,
        finish_refused queue job_id failed later (some (short_error_message error)) db' gone,
      )
