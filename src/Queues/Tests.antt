-- ===== src/Queues/Tests.antt =====
-- Two chunks of which one has a job, for one model.
use signalscope.Shared.{
  ℕ, ◌+◌, ◌≡◌, ◌⊎◌, Bool, true, false, none, some, [], ◌∷◌, arith, refl, ok, All,
}
use signalscope.Shared.Rows.{count}
use signalscope.Content.{Content}
use signalscope.Jobs.Model.{completed}
use signalscope.Queues.Chunks.{ChunkJob, ChunkTables}
use signalscope.Queues.Batch.{is_for_model}
use signalscope.Queues.Backlog.{queue_chunks, is_job_of}
use signalscope.Queues.Backlog.{QueueResult}
use signalscope.Queues.Pages.{queue_backlog}
use signalscope.Shared.{In, here, there, inl, inr, ap}
use signalscope.Content.{Chunk}
use signalscope.Queues.Pages.{in_document}
use signalscope.Queues.SeenOnce.{HasKeys}
use signalscope.Queues.SeenAll.{queue_backlog_misses_none}
use signalscope.Queues.Covered.{IsCovered}
use signalscope.Queues.Ended.{queue_backlog_ends}
use signalscope.Queues.Accounting.{OneJob, queue_chunks_adds_up}

abbrev library : Content
library = record {
  sources = record { id = 1; organization_id = some 7 } ∷ [];
  documents = record { id = 11; source_id = 1 } ∷ [];
  chunks =
      record { id = 21; document_id = 11; position = 0 }
      ∷ record { id = 22; document_id = 11; position = 1 }
      ∷ [];
}

abbrev read_already : ChunkJob
read_already = record {
  id = 31;
  resource = record { chunk_id = 21; provider = "p"; model = "m" };
  status = completed;
  available_at = 5;
  created_at = 5;
  claimed_at = none;
  heartbeat_at = none;
  lease_expires_at = none;
  lease_token = none;
  finished_at = some 9;
  attempt_count = 1;
  last_error = none;
}

abbrev tables : ChunkTables
tables = record { jobs = read_already ∷ []; attempts = [] }

abbrev no_evidence : ℕ → Bool
no_evidence c = false

abbrev nothing_else : ChunkTables → ChunkTables
nothing_else db = db

abbrev new_id : ℕ → ℕ
new_id c = c + 100

one : OneJob no_evidence "p" "m" tables.jobs
unfolding count is_job_of is_for_model
one c = ground arith

queue_chunks_adds_up_example :
    let r =
      (queue_chunks no_evidence "p" "m" nothing_else library new_id 50 60
        (21 ∷ 22 ∷ [])
        tables).1 in
    r.chunks_seen ≡ r.jobs_created + r.already_queued + r.already_extracted
queue_chunks_adds_up_example =
    queue_chunks_adds_up no_evidence "p" "m" nothing_else library new_id 50 60 (21 ∷ 22 ∷ []) tables
      one

abbrev token : ℕ → ℕ
token n = n + 70

abbrev each_round : ℕ → ChunkTables → ChunkTables
each_round n db = db

queue_backlog_ends_example :
    (a : ChunkTables × QueueResult) × (queue_backlog no_evidence "p" "m" each_round library new_id
        new_id new_id none
        (some 5)
        1
        tables
      ≡ ok (some a))
queue_backlog_ends_example =
    queue_backlog_ends no_evidence "p" "m" each_round library new_id new_id new_id none (some 5) 1
      tables refl (omega arith) refl

place_of :
    (a : Chunk)
    → In a library.chunks
    → ((a.id ≡ 21) × (a.position ≡ 0)) ⊎ ((a.id ≡ 22) × (a.position ≡ 1))
place_of a (here q) = inl (ap (λ (k : Chunk). k.id) q, ap (λ (k : Chunk). k.position) q)
place_of a (there (here q)) = inr (ap (λ (k : Chunk). k.id) q, ap (λ (k : Chunk). k.position) q)
place_of a (there (there i)) = elim i [ ]

library_keys : HasKeys library
library_keys = record {
  ids = ((refl, tt), (tt, tt));
  places = λ a b i j document place. ground (arith, place_of a i, place_of b j);
}

all_queued :
    (a : ChunkTables × QueueResult) × (queue_backlog no_evidence "p" "m" each_round library new_id
        new_id new_id none none 1 tables
      ≡ ok (some a))
all_queued =
    queue_backlog_ends no_evidence "p" "m" each_round library new_id new_id new_id none none 1
      tables refl (omega arith) refl

queue_backlog_misses_none_example :
    (all_queued.0.1.chunks_seen ≡ count (in_document none) library.chunks)
    × All
        (λ (k : Chunk).
          in_document none k ≡ true → IsCovered no_evidence "p" "m" all_queued.0.0 k.id)
        library.chunks
queue_backlog_misses_none_example =
    queue_backlog_misses_none no_evidence "p" "m" each_round library new_id new_id new_id none 1
      library_keys (omega arith) (λ n db c h. h) tables all_queued.1
