-- ===== src/Queues/Ended.antt =====
-- The end of the loop over the pages of a backlog (domain/claims/queue.py).
use signalscope.Shared.{
  ℕ, zero, suc, ◌≤◌, ◌<◌, ◌≡◌, ◌⊎◌, refl, inl, inr, Bool, true, false, Option, none, some, List, [],
  ◌∷◌, String, arith, ltb, In, here, there, length, map, ok, Bool-cases,
}
use signalscope.Shared.Rows.{select, order_by, count}
use signalscope.Shared.Rows.Laws.{In-cons, In-of_In-select}
use signalscope.Shared.Rows.Order.{In-of_In-order_by, In-of_In-take}
use signalscope.Shared.Rows.Counts.{count-le}
use signalscope.Core.Leases.{Time}
use signalscope.Content.{Content, Chunk}
use signalscope.Jobs.Model.{Uuid}
use signalscope.Queues.Chunks.{ChunkTables}
use signalscope.Queues.Backlog.{QueueResult, nothing_queued, chunk_id_of, queue_chunks}
use signalscope.Queues.Pages.{
  ChunkKey, is_after, is_left, page, is_reached, size_of, last_key, document_exists, backlog_loop,
  queue_backlog, plus, chunk_before,
}

-- A narrower test that leaves a row out fits fewer rows.
count-lt :
    (p q : Chunk → Bool) (rows : List Chunk) (x : Chunk)
    → ((r : Chunk) → p r ≡ true → q r ≡ true)
    → In x rows
    → q x ≡ true
    → p x ≡ false
    → count p rows < count q rows
unfolding count
count-lt p q [] x h i a b = elim i [ ]
count-lt p q (r ∷ rows) x h i a b = elim (In-cons i) [
  | inl e ↦ ground (arith, h r, rw e at a, rw e at b, count-le p q rows h)
  | inr j ↦ ground (arith, h r, count-lt p q rows x h j a b)
]

count-le-length : (p : Chunk → Bool) (rows : List Chunk) → count p rows ≤ length rows
unfolding count
count-le-length p [] = omega arith
count-le-length p (r ∷ rows) = ground (arith, count-le-length p rows)

-- The last chunk of a page
pub last_chunk :
    (k : Chunk) (rows : List Chunk)
    → (l : Chunk) × In l (k ∷ rows) × (last_key k rows ≡ (l.document_id, l.position))
unfolding last_key
last_chunk k [] = (k, here refl, refl)
last_chunk k (r ∷ rows) = let (l, i, e) = last_chunk r rows in (l, there i, e)

fewer_left :
    (document : Option ℕ) (after : Option ChunkKey) (l : Chunk) (rows : List Chunk)
    → In l rows
    → is_left document after l ≡ true
    → count (is_left document (some (l.document_id, l.position))) rows
      < count (is_left document after) rows
unfolding is_after
fewer_left document after l rows i left =
    count-lt (is_left document (some (l.document_id, l.position))) (is_left document after) rows l
      (λ r h. further after r (ground arith) (ground arith)) i left (ground arith)
  where
    further :
        (from : Option ChunkKey) (r : Chunk)
        → is_left document from l ≡ true
        → is_left document (some (l.document_id, l.position)) r ≡ true
        → is_left document from r ≡ true
    further none r a b = ground arith
    further (some (d, p)) r a b = ground arith

pub List-cases :
    (rows : List Chunk) → (rows ≡ []) ⊎ ((k : Chunk) × (rest : List Chunk) × (rows ≡ k ∷ rest))
List-cases [] = inl refl
List-cases (k ∷ rest) = inr (k, rest, refl)

-- A chunk of a page is one of the content that is left.
pub of_page :
    (document : Option ℕ) (after : Option ChunkKey) (size : ℕ) (content : Content) {l : Chunk}
    → In l (page content document after size)
    → (is_left document after l ≡ true) × In l content.chunks
unfolding page
of_page document after size content i =
    let left = select (is_left document after) content.chunks in
    In-of_In-select (is_left document after) content.chunks
      (In-of_In-order_by chunk_before left (In-of_In-take size (order_by chunk_before left) i))

module _ (evidence : Uuid → Bool) (provider model : String)
    (meanwhile : ℕ → ChunkTables → ChunkTables) (content : Content) (new_id : Uuid → Uuid)
    (created clock : ℕ → Time) (document : Option ℕ) (limit : Option ℕ) (page_size : ℕ) where
  loop : ℕ → ℕ → Option ChunkKey → QueueResult → ChunkTables → Option (ChunkTables × QueueResult)
  loop =
      backlog_loop evidence provider model meanwhile content new_id created clock document limit
        page_size

  loop_ends :
      (fuel n : ℕ) (after : Option ChunkKey) (total : QueueResult) (db : ChunkTables)
      → count (is_left document after) content.chunks < fuel
      → (a : ChunkTables × QueueResult) × (loop fuel n after total db ≡ some a)
  unfolding loop backlog_loop
  loop_ends zero n after total db h = absurd (omega (arith, h))
  loop_ends (suc fuel) n after total db h =
      elim (Bool-cases (is_reached limit total.jobs_created)) [
        | inl y ↦ ((db, total), rw y refl)
        | inr m ↦
            let size = size_of limit page_size total.jobs_created in
            elim (List-cases (page content document after size)) [
              | inl e ↦ ((db, total), rw (m, e) refl)
              | inr (k, rows, e) ↦
                  let (l, i, key) = last_chunk k rows in
                  let (left, j) = of_page document after size content (rw (← e) at i) in
                  let fewer = fewer_left document after l content.chunks j left in
                  let (db', r) =
                    queue_chunks evidence provider model (meanwhile n) content new_id (created n)
                      (clock n) (map chunk_id_of (k ∷ rows)) db in
                  rw (m, e)
                    (loop_ends fuel (suc n) (some (last_key k rows)) (plus total r) db'
                      (rw key (omega (arith, fewer, h))))
            ]
      ]

  -- With a limit and a page size that are not zero, and a document that exists where one is named, the
  -- queueing of a backlog ends and returns a result: a round for each chunk and one more is enough.
  pub queue_backlog_ends :
      (db : ChunkTables)
      → is_reached limit 0 ≡ false
      → 1 ≤ page_size
      → document_exists content document ≡ true
      → (a : ChunkTables × QueueResult) × (queue_backlog evidence provider model meanwhile content
            new_id created clock document limit page_size db
          ≡ ok (some a))
  unfolding queue_backlog loop
  queue_backlog_ends db some_jobs some_rows there_is =
      let positive : ltb page_size 1 ≡ false = ground arith in
      let (a, e) =
        loop_ends (suc (length content.chunks)) 0 none nothing_queued db
          (omega (arith, count-le-length (is_left document none) content.chunks)) in
      (a, rw (some_jobs, positive, there_is, e) refl)
