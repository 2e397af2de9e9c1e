-- ===== src/Jobs/Lifecycle.antt =====
-- Completed jobs, over runs of a queue's operations.
use signalscope.Shared.{◌≡◌, ◌≢◌, false, List, arith, All, All-map}
use signalscope.Jobs.Model.{completed, Job, AttemptQueue, Tables}
use signalscope.Jobs.Queue.{
  Work, start, is_claimable, is_held, extended, is_stale, release, finished, requeued,
}
use signalscope.Jobs.Run.{
  Op, add, claim, beat, recover, complete, fail, retry, requeue, remove, retried, may_requeue,
  run_all,
}
use signalscope.Jobs.Rows.{Keeps, run_all-All}

module _ {R : Type 0} (final : Job R) (done : final.status ≡ completed) where
  abbrev pub IsFinal : Job R → Type 0
  IsFinal j = j.id ≡ final.id → j ≡ final

  -- New rows have IDs of their own, and a requeue does not choose the completed job.
  abbrev pub Spares : Op R → Type 0
  Spares (add j) = j.id ≢ final.id
  Spares (requeue chosen now) = chosen final ≡ false
  Spares _ = Unit

  op-IsFinal : (op : Op R) → Spares op → Keeps IsFinal op
  unfolding start is_claimable is_held extended is_stale release finished requeued retried
      may_requeue
  op-IsFinal (add j) h = λ e. absurd (h e)
  op-IsFinal (claim clears accepts locked now lease token) h = λ j c g e. ground (arith, c e, done)
  op-IsFinal (beat job_id token now lease) h = λ j c g e. ground (arith, c e, done)
  op-IsFinal (recover locked now limit) h = λ j c g e. ground (arith, c e, done)
  op-IsFinal (complete job_id token now) h = λ j c g e. ground (arith, c e, done)
  op-IsFinal (fail job_id token now error) h = λ j c g e. ground (arith, c e, done)
  op-IsFinal (retry job_id now renew) h = λ j c g e. ground (arith, c e, done)
  op-IsFinal (requeue chosen now) h =
      λ j c g e. let same = c e in absurd (ground (arith, rw same at g))
  op-IsFinal (remove which) h = tt

  -- Once a job is completed, its row is changed by nothing but a requeue of finished jobs that chooses
  -- it, and a deletion: after any operations in any order, where new rows have other IDs and no requeue
  -- chooses it, every row with its ID is still the completed one.
  pub completed-IsFinal :
      (queue : AttemptQueue) (work : R → Work) (ops : List (Op R)) (db : Tables R)
      → All Spares ops
      → All IsFinal db.jobs
      → All IsFinal (run_all queue work ops db).jobs
  completed-IsFinal queue work ops db adds h =
      run_all-All IsFinal queue work ops db (All-map op-IsFinal ops adds) h
