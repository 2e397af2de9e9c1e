-- ===== src/Queues/SeenAll.antt =====
-- A backlog that is queued without a limit (domain/claims/queue.py, queue_backlog).
use signalscope.Shared.{
  ℕ, zero, suc, ◌+◌, ◌≤◌, ◌≡◌, ◌∙◌, refl, inl, inr, Bool, false, Option, none, some, List, [], ◌∷◌,
  String, ltb, arith, All, All-of, true, All-of_In, length, length-map, map, Bool-cases, ok,
}
use signalscope.Shared.Rows.{select, order_by, count}
use signalscope.Shared.Rows.Laws.{Unique, length-select}
use signalscope.Shared.Rows.Order.{length-order_by}
use signalscope.Shared.Rows.Picked.{
  count-eq, count-picked, in_keys, Unique-select, Unique-order_by, Unique-take,
}
use signalscope.Core.Leases.{Time}
use signalscope.Content.{Content, Chunk}
use signalscope.Jobs.Model.{Uuid}
use signalscope.Queues.Chunks.{ChunkTables}
use signalscope.Queues.Backlog.{
  QueueResult, nothing_queued, chunk_id_of, has_id, queue_chunks, queue_rows,
}
use signalscope.Queues.Pages.{
  ChunkKey, in_document, is_left, is_after, chunk_before, page, last_key, plus, backlog_loop,
  queue_backlog, document_exists,
}
use signalscope.Queues.Covered.{KeepsJobs, IsCovered, loop_covers}
use signalscope.Queues.Ended.{List-cases, of_page}
use signalscope.Queues.SeenOnce.{HasKeys, page_left}

has_id-eq-in_keys : (i : Uuid) (ids : List Uuid) → has_id i ids ≡ in_keys ids i
unfolding in_keys
has_id-eq-in_keys i [] = refl
has_id-eq-in_keys i (j ∷ ids) = ground (arith, has_id-eq-in_keys i ids)

page-Unique :
    (content : Content) (document : Option ℕ) (after : Option ChunkKey) (size : ℕ)
    → HasKeys content
    → Unique chunk_id_of (page content document after size)
unfolding page
page-Unique content document after size keys =
    let left = select (is_left document after) content.chunks in
    Unique-take chunk_id_of size (order_by chunk_before left) (
      Unique-order_by chunk_id_of chunk_before left
        (Unique-select chunk_id_of (is_left document after) content.chunks keys.ids))

-- An empty page of a positive size leaves no chunk.
none_left :
    (content : Content) (document : Option ℕ) (after : Option ChunkKey) (size : ℕ)
    → 1 ≤ size
    → page content document after size ≡ []
    → count (is_left document after) content.chunks ≡ 0
unfolding page
none_left content document after zero h e = absurd (omega (arith, h))
none_left content document after (suc n) h e =
    let left = select (is_left document after) content.chunks in
    elim (List-cases (order_by chunk_before left)) [
      | inr (x, others, q) ↦ absurd (ground (arith, rw q at e))
      | inl q ↦
          let empty : length (order_by chunk_before left) ≡ 0 = rw q refl in
          omega (
            arith,
            empty,
            length-order_by chunk_before left,
            length-select (is_left document after) content.chunks,
          )
    ]

module _ (evidence : Uuid → Bool) (provider model : String)
    (meanwhile : ℕ → ChunkTables → ChunkTables) (content : Content) (new_id : Uuid → Uuid)
    (created clock : ℕ → Time) (document : Option ℕ) (page_size : ℕ) (keys : HasKeys content)
    (positive : 1 ≤ page_size) where
  -- The chunks of a page are the ones that are seen.
  page_seen :
      (n : ℕ) (after : Option ChunkKey) (k : Chunk) (rows : List Chunk) (db : ChunkTables)
      → page content document after page_size ≡ k ∷ rows
      → (queue_chunks evidence provider model
          (meanwhile n)
          content
          new_id
          (created n)
          (clock n)
          (map chunk_id_of (k ∷ rows))
          db).1.chunks_seen
        ≡ length (k ∷ rows)
  unfolding queue_chunks queue_rows
  page_seen n after k rows db e =
      let ids = map chunk_id_of (k ∷ rows) in
      let chosen = select (λ (c : Chunk). has_id c.id ids) content.chunks in
      length-map chosen chunk_id_of
      ∙ length-select (λ (c : Chunk). has_id c.id ids) content.chunks
      ∙ count-eq (λ (c : Chunk). has_id c.id ids) (λ c. in_keys ids c.id) content.chunks
          (All-of (λ c. has_id-eq-in_keys c.id ids) content.chunks)
      ∙ count-picked chunk_id_of content.chunks (k ∷ rows) keys.ids
          (rw e at (page-Unique content document after page_size keys))
          (All-of_In (k ∷ rows)
            (λ c i. (of_page document after page_size content (rw (← e) at i)).1))

  loop_sees :
      (fuel n : ℕ) (after : Option ChunkKey) (total : QueueResult) (db : ChunkTables)
      {a : ChunkTables × QueueResult}
      → backlog_loop evidence provider model meanwhile content new_id created clock document none
          page_size fuel n after total db
        ≡ some a
      → a.1.chunks_seen ≡ total.chunks_seen + count (is_left document after) content.chunks
  unfolding backlog_loop plus
  loop_sees zero n after total db h = absurd (ground arith)
  loop_sees (suc fuel) n after total db {a} h =
      elim (List-cases (page content document after page_size)) [
        | inl e ↦
            let same : (db, total) ≡ a = ground (arith, rw (backlog_loop, e) at h) in
            rw (← same) (omega (arith, none_left content document after page_size positive e))
        | inr (k, rows, e) ↦
            let result =
              queue_chunks evidence provider model (meanwhile n) content new_id (created n)
                (clock n) (map chunk_id_of (k ∷ rows)) db in
            let seen = page_seen n after k rows db e in
            let rest =
              loop_sees fuel (suc n) (some (last_key k rows)) (plus total result.1) result.0
                (rw (backlog_loop, e) at h) in
            omega
              (arith, rest, seen, page_left content keys document after page_size k rows positive e)
      ]

  first_page : (k : Chunk) → is_left document none k ≡ in_document document k
  unfolding is_after
  first_page k = ground arith

  -- Where IDs and places of chunks are unique, and other transactions meanwhile take no job of the model
  -- away: without a limit, and with a page size that is not zero, a backlog that is queued has seen as
  -- many chunks as the document, or all documents, have, and each of these chunks has a job of the model
  -- afterwards, or the model had read it.
  pub queue_backlog_misses_none :
      ((n : ℕ) → KeepsJobs evidence provider model (meanwhile n))
      → (db : ChunkTables) {a : ChunkTables × QueueResult}
      → queue_backlog evidence provider model meanwhile content new_id created clock document none
          page_size db
        ≡ ok (some a)
      → (a.1.chunks_seen ≡ count (in_document document) content.chunks)
        × All
            (λ k. in_document document k ≡ true → IsCovered evidence provider model a.0 k.id)
            content.chunks
  unfolding queue_backlog
  queue_backlog_misses_none keeps db {a} h =
      let enough : ltb page_size 1 ≡ false = ground arith in
      elim (Bool-cases (document_exists content document)) [
        | inr n ↦ absurd (ground (arith, rw (enough, n) at h))
        | inl y ↦
            let ends : backlog_loop evidence provider model meanwhile content new_id created clock
                  document none page_size (suc (length content.chunks)) 0 none nothing_queued db
                ≡ some a =
              ground (arith, rw (enough, y) at h) in
            let all_left =
              All-of {P = λ k. is_left document none k ≡ in_document document k} first_page
                content.chunks in
            (
              omega (
                arith,
                loop_sees (suc (length content.chunks)) 0 none nothing_queued db ends,
                count-eq (is_left document none) (in_document document) content.chunks all_left,
              ),
              All-of_In content.chunks (λ k i inside.
                  loop_covers evidence provider model meanwhile keeps content new_id created clock
                    document page_size keys positive (suc (length content.chunks)) 0 none
                    nothing_queued db k ends i (inl (first_page k ∙ inside))),
            )
      ]
