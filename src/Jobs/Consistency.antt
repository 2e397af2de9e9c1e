-- ===== src/Jobs/Consistency.antt =====
-- The columns of a job beside its status, over runs of a queue's operations.
use signalscope.Shared.{◌<◌, ◌≡◌, true, none, List, arith, All, All-map, is_some}
use signalscope.Jobs.Model.{
  JobStatus, pending, running, completed, failed, Job, AttemptQueue, Tables,
}
use signalscope.Jobs.Queue.{
  Work, start, is_claimable, is_held, extended, is_stale, release, finished, requeued,
}
use signalscope.Jobs.Run.{
  Op, add, claim, beat, recover, complete, fail, retry, requeue, remove, retried, run_all,
}
use signalscope.Jobs.Rows.{Keeps, run_all-All}

module _ {R : Type 0} where
  -- What the other columns say in each status.
  abbrev pub Agrees : JobStatus → Job R → Type 0
  Agrees pending j =
      (j.lease_token ≡ none)
      × (j.lease_expires_at ≡ none)
      × (j.claimed_at ≡ none)
      × (j.heartbeat_at ≡ none)
      × (j.finished_at ≡ none)
      × (j.last_error ≡ none)
  Agrees running j =
      (is_some j.lease_token ≡ true)
      × (is_some j.lease_expires_at ≡ true)
      × (is_some j.claimed_at ≡ true)
      × (is_some j.heartbeat_at ≡ true)
      × (j.finished_at ≡ none)
      × (j.last_error ≡ none)
      × (0 < j.attempt_count)
  Agrees completed j =
      (j.lease_token ≡ none)
      × (j.lease_expires_at ≡ none)
      × (is_some j.finished_at ≡ true)
      × (j.last_error ≡ none)
      × (0 < j.attempt_count)
  Agrees failed j =
      (j.lease_token ≡ none)
      × (j.lease_expires_at ≡ none)
      × (is_some j.finished_at ≡ true)
      × (is_some j.last_error ≡ true)
      × (0 < j.attempt_count)

  abbrev pub IsConsistent : Job R → Type 0
  IsConsistent j = Agrees j.status j

  -- New rows are consistent; nothing is asked of the other operations.
  abbrev pub AddsConsistent : Op R → Type 0
  AddsConsistent (add j) = IsConsistent j
  AddsConsistent _ = Unit

  op-IsConsistent : (op : Op R) → AddsConsistent op → Keeps IsConsistent op
  unfolding start is_claimable is_held extended is_stale release finished requeued retried
  op-IsConsistent (add j) h = h
  op-IsConsistent (claim clears accepts locked now lease token) h = λ j c g. ground arith
  op-IsConsistent (beat job_id token now lease) h = λ j c g. ground arith
  op-IsConsistent (recover locked now limit) h = λ j c g. ground arith
  op-IsConsistent (complete job_id token now) h = λ j c g. ground arith
  op-IsConsistent (fail job_id token now error) h = λ j c g. ground arith
  op-IsConsistent (retry job_id now renew) h = λ j c g. ground arith
  op-IsConsistent (requeue chosen now) h = λ j c g. ground arith
  op-IsConsistent (remove which) h = tt

  -- In whatever order the operations of a queue run, every job of the table stays consistent with
  -- its status, from a table of consistent jobs to which consistent jobs are added: a pending job
  -- has no lease, no finish time and no error; a running one has a token, a lease end, a claim
  -- time, a heartbeat and at least one attempt; a finished one has its finish time, no lease, and an
  -- error exactly if it failed.
  pub run_all-IsConsistent :
      (queue : AttemptQueue) (work : R → Work) (ops : List (Op R)) (db : Tables R)
      → All AddsConsistent ops
      → All IsConsistent db.jobs
      → All IsConsistent (run_all queue work ops db).jobs
  run_all-IsConsistent queue work ops db adds h =
      run_all-All IsConsistent queue work ops db (All-map op-IsConsistent ops adds) h
