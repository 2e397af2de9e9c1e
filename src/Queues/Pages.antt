-- ===== src/Queues/Pages.antt =====
-- domain/claims/queue.py, queue_backlog, with the pages of domain/documents/chunk_repository.py. The
-- content is as it is when the call starts; `meanwhile` is what other transactions do to the queue
-- during each page, and the clock is read for each page.
use signalscope.Shared.{
  ℕ, zero, suc, ◌+◌, ◌-◌, Bool, true, false, not, ◌&&◌, ◌||◌, Option, none, some, List, [], ◌∷◌,
  String, ◌==◌, ltb, min, length, map, take, if◌then◌else◌, is_some, Result, ok, ◌>>◌, raise_if,
}
use signalscope.Shared.Rows.{select, order_by}
use signalscope.Core.Leases.{Time}
use signalscope.Content.{Content, Chunk, get_document}
use signalscope.Jobs.Model.{Uuid}
use signalscope.Queues.Chunks.{ChunkTables}
use signalscope.Queues.Backlog.{QueueResult, nothing_queued, chunk_id_of, queue_chunks}

pub data BacklogError : Type 0 where
  limit_too_small page_size_too_small document_not_found : BacklogError

abbrev pub backlog_page_size : ℕ
backlog_page_size = 500

-- A place in the stable order of all chunks: (document ID, position)
abbrev pub ChunkKey : Type 0
ChunkKey = ℕ × ℕ

unfoldable pub is_after : Option ChunkKey → Chunk → Bool
is_after none k = true
is_after (some (d, p)) k = ltb d k.document_id || (d == k.document_id && ltb p k.position)

abbrev pub in_document : Option ℕ → Chunk → Bool
in_document none k = true
in_document (some d) k = k.document_id == d

unfoldable pub chunk_before : Chunk → Chunk → Bool
chunk_before a b =
    ltb a.document_id b.document_id || (a.document_id == b.document_id && ltb a.position b.position)

abbrev pub is_left : Option ℕ → Option ChunkKey → Chunk → Bool
is_left document after k = in_document document k && is_after after k

-- `DocumentChunkRepository.page`
unfoldable pub page : Content → Option ℕ → Option ChunkKey → ℕ → List Chunk
page content document after size =
    take size (order_by chunk_before (select (is_left document after) content.chunks))

-- `ClaimQueueResult.__add__`
unfoldable pub plus : QueueResult → QueueResult → QueueResult
plus a b = record {
  chunks_seen = a.chunks_seen + b.chunks_seen;
  jobs_created = a.jobs_created + b.jobs_created;
  already_queued = a.already_queued + b.already_queued;
  already_extracted = a.already_extracted + b.already_extracted;
}

abbrev pub is_reached : Option ℕ → ℕ → Bool
is_reached none created = false
is_reached (some limit) created = not (ltb created limit)

abbrev pub size_of : Option ℕ → ℕ → ℕ → ℕ
size_of none page_size created = page_size
size_of (some limit) page_size created = min page_size (limit - created)

unfoldable pub last_key : Chunk → List Chunk → ChunkKey
last_key k [] = (k.document_id, k.position)
last_key k (l ∷ rows) = last_key l rows

abbrev pub document_exists : Content → Option ℕ → Bool
document_exists content none = true
document_exists content (some d) = is_some (get_document content d)

module _ (evidence : Uuid → Bool) (provider model : String)
    (meanwhile : ℕ → ChunkTables → ChunkTables) (content : Content) (new_id : Uuid → Uuid)
    (created clock : ℕ → Time) (document : Option ℕ) (limit : Option ℕ) (page_size : ℕ) where
  -- The loop on fuel, from its nth round; none is out of fuel.
  unfoldable pub backlog_loop :
      ℕ → ℕ → Option ChunkKey → QueueResult → ChunkTables → Option (ChunkTables × QueueResult)
  backlog_loop zero n after total db = none
  backlog_loop (suc fuel) n after total db =
      let rest : Option (ChunkTables × QueueResult) =
        elim (page content document after (size_of limit page_size total.jobs_created)) [
          | [] ↦ some (db, total)
          | k ∷ rows ↦
              let (db', result) =
                queue_chunks evidence provider model (meanwhile n) content new_id (created n)
                  (clock n) (map chunk_id_of (k ∷ rows)) db in
              backlog_loop fuel (suc n) (some (last_key k rows)) (plus total result) db'
        ] in
      if is_reached limit total.jobs_created then some (db, total) else rest

  -- One round for each chunk and one more
  unfoldable pub queue_backlog :
      ChunkTables → Result BacklogError (Option (ChunkTables × QueueResult))
  queue_backlog db =
      (raise_if (is_reached limit 0) limit_too_small
        >> (raise_if (ltb page_size 1) page_size_too_small
            >> (raise_if (not (document_exists content document)) document_not_found
                >> ok (backlog_loop (suc (length content.chunks)) 0 none nothing_queued db))))
