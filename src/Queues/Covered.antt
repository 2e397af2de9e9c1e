-- ===== src/Queues/Covered.antt =====
-- Which chunks a backlog leaves with a job (domain/claims/queue.py).
use signalscope.Shared.{
  ℕ, zero, suc, ap, ◌≤◌, ◌≡◌, ◌⊎◌, refl, inl, inr, Bool, true, Option, none, some, List, [], ◌∷◌,
  String, arith, In, here, there, map, is_some, Bool-cases,
}
use text.Mathlib.TextPositions.{eq_refl}
use signalscope.Shared.Rows.{find, select, update}
use signalscope.Shared.Rows.Laws.{In-select, In-cons}
use signalscope.Core.Leases.{Time}
use signalscope.Content.{Content, Chunk}
use signalscope.Jobs.Model.{Uuid}
use signalscope.Jobs.Queue.{requeued}
use signalscope.Queues.Chunks.{ChunkJob, ChunkTables}
use signalscope.Queues.Batch.{is_for_model}
use signalscope.Queues.Backlog.{
  is_standing, QueueResult, new, failed_before, is_job_of, standing, standing_of, pending_job,
  add_jobs, is_failed_job_of, requeue_jobs, with_standing, chunks_of, chunk_id_of, has_id,
  queue_rows, queue_chunks,
}
use signalscope.Queues.Pages.{ChunkKey, is_left, page, last_key, plus, backlog_loop}
use signalscope.Queues.Ended.{List-cases}
use signalscope.Queues.SeenOnce.{HasKeys, paged, ended}

In-map {ℓ κ} :
    {A : Type ℓ} {B : Type κ} (f : A → B) (xs : List A) {a : A} → In a xs → In (f a) (map f xs)
In-map f [] i = elim i [ ]
In-map f (x ∷ xs) (here q) = here (ap f q)
In-map f (x ∷ xs) (there i) = there (In-map f xs i)

has_id-In : (i : Uuid) (ids : List Uuid) → In i ids → has_id i ids ≡ true
has_id-In i [] m = elim m [ ]
has_id-In i (j ∷ ids) (here q) = ground arith
has_id-In i (j ∷ ids) (there m) = ground (arith, has_id-In i ids m)

module _ (evidence : Uuid → Bool) (provider model : String) where
  abbrev HasJob : List ChunkJob → Uuid → Type 0
  HasJob jobs c = is_some (find (is_job_of evidence provider model c) jobs) ≡ true

  -- The chunk has a job for the model, or the model has read it.
  abbrev pub IsCovered : ChunkTables → Uuid → Type 0
  IsCovered db c = HasJob db.jobs c ⊎ (evidence c ≡ true)

  -- Other transactions take no job of the model away.
  abbrev pub KeepsJobs : (ChunkTables → ChunkTables) → Type 0
  KeepsJobs meanwhile =
      (db : ChunkTables) (c : Uuid)
      → is_some (find (is_job_of evidence provider model c) db.jobs) ≡ true
      → is_some (find (is_job_of evidence provider model c) (meanwhile db).jobs) ≡ true

  cons-HasJob :
      (c : Uuid) (j : ChunkJob) (jobs : List ChunkJob) → HasJob jobs c → HasJob (j ∷ jobs) c
  unfolding find
  cons-HasJob c j jobs h = elim (Bool-cases (is_job_of evidence provider model c j)) [
    | inl y ↦ rw y refl
    | inr n ↦ rw n h
  ]

  module _ (new_id : Uuid → Uuid) (created now : Time) where
    pending_job-HasJob :
        (c : Uuid) (jobs : List ChunkJob)
        → HasJob (pending_job evidence provider model new_id created now c ∷ jobs) c
    unfolding find is_job_of pending_job is_for_model
    pending_job-HasJob c jobs = ground (arith, eq_refl provider, eq_refl model)

    add_jobs-keeps :
        (c : Uuid) (cs : List Uuid) (jobs : List ChunkJob)
        → HasJob jobs c
        → HasJob (add_jobs evidence provider model new_id created now cs jobs).0 c
    unfolding add_jobs
    add_jobs-keeps c [] jobs h = h
    add_jobs-keeps c (d ∷ cs) jobs h =
        elim (Bool-cases (is_some (find (is_job_of evidence provider model d) jobs))) [
          | inl y ↦ rw y (add_jobs-keeps c cs jobs h)
          | inr n ↦
              let job = pending_job evidence provider model new_id created now d in
              rw n (add_jobs-keeps c cs (job ∷ jobs) (cons-HasJob c job jobs h))
        ]

    add_jobs-HasJob :
        (c : Uuid) (cs : List Uuid) (jobs : List ChunkJob)
        → In c cs
        → HasJob (add_jobs evidence provider model new_id created now cs jobs).0 c
    unfolding add_jobs
    add_jobs-HasJob c [] jobs i = elim i [ ]
    add_jobs-HasJob c (d ∷ cs) jobs i =
        elim (Bool-cases (is_some (find (is_job_of evidence provider model d) jobs))) [
          | inl y ↦ rw y (elim (In-cons i) [
            | inl q ↦ add_jobs-keeps c cs jobs (rw q y)
            | inr m ↦ add_jobs-HasJob c cs jobs m
          ])
          | inr n ↦
              let job = pending_job evidence provider model new_id created now d in
              rw n (elim (In-cons i) [
                | inl q ↦ add_jobs-keeps c cs (job ∷ jobs) (rw q (pending_job-HasJob d jobs))
                | inr m ↦ add_jobs-HasJob c cs (job ∷ jobs) m
              ])
        ]

  requeue-HasJob :
      (c : Uuid) (p : ChunkJob → Bool) (now : Time) (jobs : List ChunkJob)
      → HasJob jobs c
      → HasJob (update p (requeued now) jobs) c
  unfolding find update is_job_of requeued
  requeue-HasJob c p now [] h = h
  requeue-HasJob c p now (j ∷ jobs) h = ground (arith, requeue-HasJob c p now jobs)

  -- A call of `queue_chunks` takes no job away, and leaves a job for each chunk that it is called for.
  module _ (meanwhile : ChunkTables → ChunkTables) (keeps : KeepsJobs meanwhile) (content : Content)
      (new_id : Uuid → Uuid) (created now : Time) where
    queue_rows-keeps :
        (rows : List Uuid) (db : ChunkTables) (c : Uuid)
        → HasJob db.jobs c
        → HasJob (queue_rows evidence provider model meanwhile new_id created now rows db).0.jobs c
    unfolding queue_rows requeue_jobs
    queue_rows-keeps rows db c h =
        let fresh = with_standing evidence provider model new db rows in
        let broken = with_standing evidence provider model failed_before db rows in
        requeue-HasJob c (is_failed_job_of evidence provider model broken) now
          (add_jobs evidence provider model new_id created now fresh (meanwhile db).jobs).0
          (add_jobs-keeps new_id created now c fresh (meanwhile db).jobs (keeps db c h))

    queue_rows-IsCovered :
        (rows : List Uuid) (db : ChunkTables) (c : Uuid)
        → In c rows
        → IsCovered (queue_rows evidence provider model meanwhile new_id created now rows db).0 c
    unfolding queue_rows requeue_jobs standing_of standing
    queue_rows-IsCovered rows db c i =
        elim (Bool-cases (is_some (find (is_job_of evidence provider model c) db.jobs))) [
          | inl y ↦ inl (queue_rows-keeps rows db c y)
          | inr n ↦ elim (Bool-cases (evidence c)) [
            | inl read ↦ inr read
            | inr unread ↦
                let fresh = with_standing evidence provider model new db rows in
                let broken = with_standing evidence provider model failed_before db rows in
                let absent : find (is_job_of evidence provider model c) db.jobs ≡ none =
                  ground arith in
                let is_new : is_standing (standing_of evidence provider model db c) new ≡ true =
                  rw (absent, unread) refl in
                inl (
                  requeue-HasJob c (is_failed_job_of evidence provider model broken) now
                    (add_jobs evidence provider model new_id created now fresh
                      (meanwhile db).jobs).0
                    (add_jobs-HasJob new_id created now c fresh (meanwhile db).jobs (
                      In-select (λ d. is_standing (standing_of evidence provider model db d) new)
                        rows i is_new)))
          ]
        ]

    pub queue_chunks-keeps :
        (i : Uuid) (ids : List Uuid) (db : ChunkTables) (c : Uuid)
        → IsCovered db c
        → IsCovered
            (queue_chunks evidence provider model meanwhile content new_id created now
              (i ∷ ids)
              db).0
            c
    unfolding queue_chunks
    queue_chunks-keeps i ids db c (inr e) = inr e
    queue_chunks-keeps i ids db c (inl h) =
        inl (queue_rows-keeps (chunks_of evidence provider model content (i ∷ ids)) db c h)

    pub queue_chunks-IsCovered :
        (p : Chunk) (rows : List Chunk) (db : ChunkTables) (k : Chunk)
        → In k content.chunks
        → In k (p ∷ rows)
        → IsCovered
            (queue_chunks evidence provider model meanwhile content new_id created now
              (map chunk_id_of (p ∷ rows))
              db).0
            k.id
    unfolding queue_chunks
    queue_chunks-IsCovered p rows db k i on =
        let ids = map chunk_id_of (p ∷ rows) in
        let asked = has_id-In k.id ids (In-map chunk_id_of (p ∷ rows) on) in
        queue_rows-IsCovered (chunks_of evidence provider model content ids) db k.id (
          In-map chunk_id_of (select (λ (c : Chunk). has_id c.id ids) content.chunks)
            (In-select (λ (c : Chunk). has_id c.id ids) content.chunks i asked))

  module _ (meanwhile : ℕ → ChunkTables → ChunkTables) (keeps : (n : ℕ) → KeepsJobs (meanwhile n))
      (content : Content) (new_id : Uuid → Uuid) (created clock : ℕ → Time) (document : Option ℕ)
      (page_size : ℕ) (keys : HasKeys content) (positive : 1 ≤ page_size) where
    -- A chunk that is left, or has its job, has its job when the loop is over.
    pub loop_covers :
        (fuel n : ℕ) (after : Option ChunkKey) (total : QueueResult) (db : ChunkTables)
        {a : ChunkTables × QueueResult} (k : Chunk)
        → backlog_loop evidence provider model meanwhile content new_id created clock document none
            page_size fuel n after total db
          ≡ some a
        → In k content.chunks
        → (is_left document after k ≡ true) ⊎ IsCovered db k.id
        → IsCovered a.0 k.id
    unfolding backlog_loop
    loop_covers zero n after total db k h i s = absurd (ground arith)
    loop_covers (suc fuel) n after total db {a} k h i s =
        elim (List-cases (page content document after page_size)) [
          | inl e ↦
              let same : (db, total) ≡ a = ground (arith, rw (backlog_loop, e) at h) in
              rw (← same) (elim s [
                | inl l ↦ absurd (ended content keys document after page_size k positive e i l)
                | inr c ↦ c
              ])
          | inr (p, rows, e) ↦
              let result =
                queue_chunks evidence provider model (meanwhile n) content new_id (created n)
                  (clock n) (map chunk_id_of (p ∷ rows)) db in
              loop_covers fuel (suc n) (some (last_key p rows)) (plus total result.1) result.0 k
                (rw (backlog_loop, e) at h) i
                (elim s [
                  | inr c ↦ inr (
                      queue_chunks-keeps (meanwhile n) (keeps n) content new_id (created n)
                        (clock n) p.id (map chunk_id_of rows) db k.id c)
                  | inl l ↦
                      elim (paged content keys document after page_size p rows k positive e i l) [
                        | inr later ↦ inl later
                        | inl on ↦ inr (
                            queue_chunks-IsCovered (meanwhile n) (keeps n) content new_id
                              (created n) (clock n) p rows db k i on)
                      ]
                ])
        ]
