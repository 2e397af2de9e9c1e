-- ===== src/Queues/Claims.antt =====
-- domain/claims/job_repository.py: the queue of chunks as it is used here.
use signalscope.Shared.{ℕ, Bool, Option, List, String, Result}
use signalscope.Shared.Text.{Text}
use signalscope.Core.Leases.{Time, LeasePolicy}
use signalscope.Content.{Content}
use signalscope.Jobs.Model.{Uuid, claim}
use signalscope.Jobs.Queue.{JobError}
use signalscope.Queues.Chunks
use signalscope.Queues.Chunks.{ChunkJob, ChunkTables}

unfoldable pub add : ChunkJob → ChunkTables → ChunkTables
add = Chunks.add

unfoldable pub get : Uuid → ChunkTables → Option ChunkJob
get = Chunks.get

unfoldable pub claim_next :
    Content
    → List (String × String)
    → (Uuid → Bool)
    → Time
    → LeasePolicy
    → Uuid
    → ChunkTables
    → ChunkTables × Option ChunkJob
claim_next = Chunks.claim_next claim

unfoldable pub heartbeat : Uuid → Uuid → Time → LeasePolicy → ChunkTables → ChunkTables × Bool
heartbeat = Chunks.heartbeat claim

unfoldable pub recover_stale :
    (Uuid → Bool) → Time → ℕ → ChunkTables → Result JobError (ChunkTables × List ChunkJob)
recover_stale = Chunks.recover_stale claim

unfoldable pub mark_completed :
    Uuid → Uuid → Time → ChunkTables → Result JobError (ChunkTables × ChunkJob)
mark_completed = Chunks.mark_completed claim

unfoldable pub mark_failed :
    Uuid → Uuid → Time → Text → ChunkTables → Result JobError (ChunkTables × ChunkJob)
mark_failed = Chunks.mark_failed claim
