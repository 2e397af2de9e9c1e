-- ===== src/Queues/Accounting.antt =====
-- What a call of `queue_chunks` reports, and what it leaves alone.
use signalscope.Shared.{
  ℕ, suc, ◌+◌, ◌≤◌, ◌≡◌, refl, inl, inr, Bool, false, none, List, [], ◌∷◌, arith, ◌==◌, length,
  is_some, In, there, Bool-cases, Option-cases, String,
}
use signalscope.Shared.Rows.{find, select, count}
use signalscope.Shared.Rows.Laws.{In-update_other}
use signalscope.Shared.Rows.Counts.{count-le-sum, count_of_false, count_of_none}
use signalscope.Core.Leases.{Time}
use signalscope.Content.{Content}
use signalscope.Jobs.Model.{Uuid}
use signalscope.Jobs.Queue.{requeued}
use signalscope.Jobs.Run.{is_failed}
use signalscope.Queues.Chunks.{ChunkJob, ChunkTables}
use signalscope.Queues.Backlog.{
  Standing, queued, extracted, new, failed_before, is_job_of, standing_of, pending_job, add_jobs,
  is_failed_job_of, requeue_jobs, with_standing, chunks_of, queue_rows, queue_chunks,
}

module _ (evidence : Uuid → Bool) (provider model : String) where
  -- (chunk_id, provider, model) is unique.
  abbrev pub OneJob : List ChunkJob → Type 0
  OneJob jobs = (c : Uuid) → count (is_job_of evidence provider model c) jobs ≤ 1

  -- Every chunk has one of the four standings.
  standings-sum :
      (db : ChunkTables) (rows : List Uuid)
      → length (with_standing evidence provider model queued db rows)
          + length (with_standing evidence provider model extracted db rows)
          + length (with_standing evidence provider model new db rows)
          + length (with_standing evidence provider model failed_before db rows)
        ≡ length rows
  unfolding select
  standings-sum db [] = refl
  standings-sum db (c ∷ rows) =
      go (standing_of evidence provider model db c) refl (standings-sum db rows)
    where
      go :
          (s : Standing)
          → standing_of evidence provider model db c ≡ s
          → length (with_standing evidence provider model queued db rows)
              + length (with_standing evidence provider model extracted db rows)
              + length (with_standing evidence provider model new db rows)
              + length (with_standing evidence provider model failed_before db rows)
            ≡ length rows
          → length (with_standing evidence provider model queued db (c ∷ rows))
              + length (with_standing evidence provider model extracted db (c ∷ rows))
              + length (with_standing evidence provider model new db (c ∷ rows))
              + length (with_standing evidence provider model failed_before db (c ∷ rows))
            ≡ suc (length rows)
      go queued e sum = rw e (omega (arith, sum))
      go extracted e sum = rw e (omega (arith, sum))
      go new e sum = rw e (omega (arith, sum))
      go failed_before e sum = rw e (omega (arith, sum))

  -- A new job is the only one of its chunk.
  pending_job-OneJob :
      (new_id : Uuid → Uuid) (created now c : ℕ) (jobs : List ChunkJob)
      → find (is_job_of evidence provider model c) jobs ≡ none
      → OneJob jobs
      → OneJob (pending_job evidence provider model new_id created now c ∷ jobs)
  unfolding count is_job_of pending_job
  pending_job-OneJob new_id created now c jobs absent one d = elim (Bool-cases (c == d)) [
    | inr n ↦ rw n (one d)
    | inl y ↦
        let same : c ≡ d = ground arith in
        let alone : count (is_job_of evidence provider model c) jobs ≡ 0 =
          count_of_none (is_job_of evidence provider model c) jobs absent in
        ground (arith, rw same at alone)
  ]

  add_jobs-le :
      (new_id : Uuid → Uuid) (created now : ℕ) (cs : List Uuid) (jobs : List ChunkJob)
      → (add_jobs evidence provider model new_id created now cs jobs).1 ≤ length cs
  unfolding add_jobs
  add_jobs-le new_id created now [] jobs = omega arith
  add_jobs-le new_id created now (c ∷ cs) jobs =
      elim (Bool-cases (is_some (find (is_job_of evidence provider model c) jobs))) [
        | inl y ↦ rw y (omega (arith, add_jobs-le new_id created now cs jobs))
        | inr n ↦ rw n (
            omega (
              arith,
              add_jobs-le new_id created now cs
                  (pending_job evidence provider model new_id created now c ∷ jobs),
            ))
      ]

  add_jobs-OneJob :
      (new_id : Uuid → Uuid) (created now : ℕ) (cs : List Uuid) (jobs : List ChunkJob)
      → OneJob jobs
      → OneJob (add_jobs evidence provider model new_id created now cs jobs).0
  unfolding add_jobs
  add_jobs-OneJob new_id created now [] jobs one = one
  add_jobs-OneJob new_id created now (c ∷ cs) jobs one =
      elim (Option-cases (find (is_job_of evidence provider model c) jobs)) [
        | inr (j, e) ↦ rw e (add_jobs-OneJob new_id created now cs jobs one)
        | inl e ↦ rw e (
            add_jobs-OneJob new_id created now cs
              (pending_job evidence provider model new_id created now c ∷ jobs)
              (pending_job-OneJob new_id created now c jobs e one))
      ]

  -- New rows come before the old ones, which stay.
  add_jobs-In :
      (new_id : Uuid → Uuid) (created now : ℕ) (cs : List Uuid) (jobs : List ChunkJob)
      {j : ChunkJob}
      → In j jobs
      → In j (add_jobs evidence provider model new_id created now cs jobs).0
  unfolding add_jobs
  add_jobs-In new_id created now [] jobs i = i
  add_jobs-In new_id created now (c ∷ cs) jobs i =
      elim (Bool-cases (is_some (find (is_job_of evidence provider model c) jobs))) [
        | inl y ↦ rw y (add_jobs-In new_id created now cs jobs i)
        | inr n ↦ rw n (
            add_jobs-In new_id created now cs
              (pending_job evidence provider model new_id created now c ∷ jobs) (there i))
      ]

  -- With one job for each chunk and model, at most as many rows are requeued as chunks are named.
  failed-le :
      (cs : List Uuid) (jobs : List ChunkJob)
      → OneJob jobs
      → count (is_failed_job_of evidence provider model cs) jobs ≤ length cs
  unfolding is_failed_job_of is_job_of
  failed-le [] jobs one =
      omega (arith, count_of_false (is_failed_job_of evidence provider model []) jobs (λ j. refl))
  failed-le (c ∷ cs) jobs one = omega (
    arith,
    count-le-sum (is_failed_job_of evidence provider model (c ∷ cs))
        (is_job_of evidence provider model c) (is_failed_job_of evidence provider model cs) jobs
        (λ j h n. ground arith),
    one c,
    failed-le cs jobs one,
  )

  module _ (meanwhile : ChunkTables → ChunkTables) (content : Content) (new_id : Uuid → Uuid)
      (created now : Time) where
    rows_add_up :
        (rows : List Uuid) (db : ChunkTables)
        → OneJob (meanwhile db).jobs
        → let r = (queue_rows evidence provider model meanwhile new_id created now rows db).1 in
          r.chunks_seen ≡ r.jobs_created + r.already_queued + r.already_extracted
    unfolding queue_rows requeue_jobs
    rows_add_up rows db one =
        let fresh = with_standing evidence provider model new db rows in
        let broken = with_standing evidence provider model failed_before db rows in
        let jobs =
          (add_jobs evidence provider model new_id created now fresh (meanwhile db).jobs).0 in
        omega (
          arith,
          standings-sum db rows,
          add_jobs-le new_id created now fresh (meanwhile db).jobs,
          failed-le broken jobs (add_jobs-OneJob new_id created now fresh (meanwhile db).jobs one),
        )

    -- Whatever other transactions do between the query and the writes, as long as they leave at most
    -- one job for each chunk and model: every chunk that was seen is counted once, as queued now, as
    -- queued already, or as already extracted.
    pub queue_chunks_adds_up :
        (ids : List Uuid) (db : ChunkTables)
        → OneJob (meanwhile db).jobs
        → let r =
            (queue_chunks evidence provider model meanwhile content new_id created now ids db).1 in
          r.chunks_seen ≡ r.jobs_created + r.already_queued + r.already_extracted
    unfolding queue_chunks
    queue_chunks_adds_up [] db one = refl
    queue_chunks_adds_up (c ∷ ids) db one =
        rows_add_up (chunks_of evidence provider model content (c ∷ ids)) db one

    -- Queueing chunks leaves every job alone that has not failed: a pending, running or completed job
    -- that is there when the call writes is there afterwards, unchanged.
    queue_chunks_disturbs_none :
        (c : Uuid) (ids : List Uuid) (db : ChunkTables) (j : ChunkJob)
        → In j (meanwhile db).jobs
        → is_failed j.status ≡ false
        → In j
            (queue_chunks evidence provider model meanwhile content new_id created now
              (c ∷ ids)
              db).0.jobs
    unfolding queue_chunks queue_rows requeue_jobs is_failed_job_of
    queue_chunks_disturbs_none c ids db j i n =
        let rows = chunks_of evidence provider model content (c ∷ ids) in
        let fresh = with_standing evidence provider model new db rows in
        let broken = with_standing evidence provider model failed_before db rows in
        In-update_other (is_failed_job_of evidence provider model broken) (requeued now)
          (add_jobs evidence provider model new_id created now fresh (meanwhile db).jobs).0
          (add_jobs-In new_id created now fresh (meanwhile db).jobs i) (ground arith)
