-- ===== src/Queues/Batch.antt =====
-- domain/search/embedding_job_repository.py: embedding jobs are claimed in batches of one model.
use signalscope.Shared.{
  ℕ, suc, Bool, true, ◌&&◌, not, List, [], ◌∷◌, String, Result, ok, ◌>>◌, raise_if, take, leb,
}
use text.Mathlib.Text.{◌==◌ as str_eq}
use signalscope.Core.Leases.{Time, LeasePolicy}
use signalscope.Content.{Content}
use signalscope.Jobs.Model.{Uuid, embedding}
use signalscope.Jobs.Queue.{start, claimable_jobs, claim_job}
use signalscope.Queues.Chunks.{ChunkResource, ChunkJob, ChunkTables, chunk_work}

abbrev pub max_batch_claim : ℕ
max_batch_claim = 256

pub data BatchError : Type 0 where
  limit_out_of_range : BatchError

unfoldable pub is_for_model : String → String → ChunkResource → Bool
is_for_model provider model r = str_eq r.provider provider && str_eq r.model model

-- The loop over the selected jobs; `token` counts through the `uuid4`s that it draws.
unfoldable pub claim_each :
    Content
    → Time
    → LeasePolicy
    → (ℕ → Uuid)
    → ℕ
    → List ChunkJob
    → ChunkTables
    → ChunkTables × List ChunkJob
claim_each content now lease token n [] db = (db, [])
claim_each content now lease token n (j ∷ js) db =
    let begin = start true lease now (token n) in
    let (db', started) =
      claim_each content now lease token (suc n) js
        (claim_job embedding (chunk_work content) now begin j db) in
    (db', begin j ∷ started)

unfoldable pub claim_batch :
    Content
    → (Uuid → Bool)
    → Time
    → String
    → String
    → ℕ
    → LeasePolicy
    → (ℕ → Uuid)
    → ChunkTables
    → Result BatchError (ChunkTables × List ChunkJob)
claim_batch content locked now provider model limit lease token db = do
  raise_if (not (leb 1 limit && leb limit max_batch_claim)) limit_out_of_range
  ok (
      claim_each content now lease token 0
        (take limit (claimable_jobs (is_for_model provider model) locked now db)) db)
