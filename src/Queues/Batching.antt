-- ===== src/Queues/Batching.antt =====
-- What a claim of a batch of embedding jobs takes.
use signalscope.Shared.{
  ℕ, suc, ◌≡◌, refl, inl, inr, ◌⊎◌, Bool, true, false, ◌&&◌, some, List, [], ◌∷◌, arith, leb, min,
  length, length-take, take, ok, err, Bool-cases, String,
}
use signalscope.Shared.Rows.{select, count}
use signalscope.Shared.Rows.Laws.{length-select}
use signalscope.Shared.Rows.Order.{length-order_by}
use signalscope.Core.Leases.{Time, LeasePolicy, expires_at}
use signalscope.Content.{Content}
use signalscope.Jobs.Model.{Uuid, running, embedding}
use signalscope.Jobs.Queue.{start, claimable_jobs, claim_before, is_claimable, claim_job}
use signalscope.Queues.Chunks.{ChunkJob, ChunkTables, chunk_work}
use signalscope.Queues.Batch.{
  max_batch_claim, limit_out_of_range, is_for_model, claim_each, claim_batch,
}

module _ (content : Content) (now : Time) (lease : LeasePolicy) (token : ℕ → Uuid) where
  -- The jobs are running, each with the next token and the whole lease.
  abbrev pub AreHeld : ℕ → List ChunkJob → Type 0
  AreHeld n [] = Unit
  AreHeld n (j ∷ js) =
      (j.status ≡ running)
      × (j.lease_token ≡ some (token n))
      × (j.lease_expires_at ≡ some (expires_at lease now))
      × AreHeld (suc n) js

  claim_each-AreHeld :
      (n : ℕ) (js : List ChunkJob) (db : ChunkTables)
      → AreHeld n (claim_each content now lease token n js db).1
        × (length (claim_each content now lease token n js db).1 ≡ length js)
  unfolding claim_each start
  claim_each-AreHeld n [] db = (tt, refl)
  claim_each-AreHeld n (j ∷ js) db =
      let (held, e) =
        claim_each-AreHeld (suc n) js
          (claim_job embedding (chunk_work content) now (start true lease now (token n)) j db) in
      ((refl, refl, refl, held), omega (arith, e))

  -- A claim of a batch with a limit outside 1 to 256 raises. Any other answers with as many jobs as
  -- can be claimed for the model, but at most the limit; each is running, with a token of its own
  -- drawing and a whole lease.
  claim_batch-AreHeld :
      (locked : Uuid → Bool) (provider model : String) (limit : ℕ) (db : ChunkTables)
      → (((leb 1 limit && leb limit max_batch_claim) ≡ false)
          × (claim_batch content locked now provider model limit lease token db
              ≡ err limit_out_of_range))
        ⊎ ((db' : ChunkTables) × (js : List ChunkJob) × (claim_batch content locked now provider
                model limit lease token db
              ≡ ok (db', js))
            × (length js
                ≡ min limit (count (is_claimable (is_for_model provider model) locked now) db.jobs))
            × AreHeld 0 js)
  unfolding claim_batch claimable_jobs
  claim_batch-AreHeld locked provider model limit db =
      let test = is_claimable (is_for_model provider model) locked now in
      let jobs = take limit (claimable_jobs (is_for_model provider model) locked now db) in
      let (held, e) = claim_each-AreHeld 0 jobs db in
      elim (Bool-cases (leb 1 limit && leb limit max_batch_claim)) [
        | inr n ↦ inl (n, rw n refl)
        | inl y ↦ inr (
          (claim_each content now lease token 0 jobs db).0,
          (claim_each content now lease token 0 jobs db).1,
          rw y refl,
          omega (
            arith,
            e,
            length-take limit (claimable_jobs (is_for_model provider model) locked now db),
            length-order_by claim_before (select test db.jobs),
            length-select test db.jobs,
          ),
          held,
        )
      ]
