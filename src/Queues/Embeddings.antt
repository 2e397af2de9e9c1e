-- ===== src/Queues/Embeddings.antt =====
-- domain/search/embedding_job_repository.py: the queue of chunks as it is used here; Batch has its claims.
use signalscope.Shared.{ℕ, Bool, Option, List, Result}
use signalscope.Shared.Text.{Text}
use signalscope.Core.Leases.{Time, LeasePolicy}
use signalscope.Jobs.Model.{Uuid, embedding}
use signalscope.Jobs.Queue.{JobError}
use signalscope.Queues.Chunks
use signalscope.Queues.Chunks.{ChunkJob, ChunkTables}

unfoldable pub add : ChunkJob → ChunkTables → ChunkTables
add = Chunks.add

unfoldable pub get : Uuid → ChunkTables → Option ChunkJob
get = Chunks.get

unfoldable pub heartbeat : Uuid → Uuid → Time → LeasePolicy → ChunkTables → ChunkTables × Bool
heartbeat = Chunks.heartbeat embedding

unfoldable pub recover_stale :
    (Uuid → Bool) → Time → ℕ → ChunkTables → Result JobError (ChunkTables × List ChunkJob)
recover_stale = Chunks.recover_stale embedding

unfoldable pub mark_completed :
    Uuid → Uuid → Time → ChunkTables → Result JobError (ChunkTables × ChunkJob)
mark_completed = Chunks.mark_completed embedding

unfoldable pub mark_failed :
    Uuid → Uuid → Time → Text → ChunkTables → Result JobError (ChunkTables × ChunkJob)
mark_failed = Chunks.mark_failed embedding
