-- ===== src/Queues/SeenOnce.antt =====
-- The pages of a backlog (domain/claims/queue.py, domain/documents/chunk_repository.py): which chunks
-- they hold.
use signalscope.Shared.{
  ℕ, zero, suc, ◌+◌, ◌≤◌, ◌≡◌, ◌∙◌, ◌⊎◌, refl, inl, inr, Bool, true, false, ◌&&◌, Option, none,
  some, List, [], ◌∷◌, ◌==◌, arith, In, here, there, All, All-of, All-of_In, length, take,
  Bool-cases,
}
use signalscope.Shared.Rows.{select, insert_by, order_by, count}
use signalscope.Shared.Rows.Laws.{Unique, All-In, length-select, In-select, In-of_In-select}
use signalscope.Shared.Rows.Order.{
  IsOrder, Sorted, order_by-Sorted, In-order_by, In-of_In-order_by, In-of_In-take, length-order_by,
}
use signalscope.Shared.Rows.Picked.{count-eq, Unique-select, Unique-order_by}
use signalscope.Content.{Content, Chunk}
use signalscope.Queues.Backlog.{chunk_id_of}
use signalscope.Queues.Pages.{ChunkKey, is_after, is_left, chunk_before, page, last_key}
use signalscope.Queues.Ended.{last_chunk, List-cases, of_page}

-- The chunks have unique IDs, and (document_id, position) is unique.
pub record HasKeys (content : Content) : Type 0 where
  pub ids : Unique chunk_id_of content.chunks
  pub places :
      (a b : Chunk)
      → In a content.chunks
      → In b content.chunks
      → a.document_id ≡ b.document_id
      → a.position ≡ b.position
      → a.id ≡ b.id

key_of : Chunk → ChunkKey
key_of k = (k.document_id, k.position)

before-IsOrder : IsOrder chunk_before
unfolding chunk_before
before-IsOrder = record {
  asymmetric = λ a b h. ground arith;
  not_before_trans = λ a b c h k. ground arith;
}

count-insert_by :
    (p : Chunk → Bool) (r : Chunk) (rows : List Chunk)
    → count p (insert_by chunk_before r rows) ≡ count p (r ∷ rows)
unfolding insert_by count
count-insert_by p r [] = refl
count-insert_by p r (s ∷ rows) = ground (arith, count-insert_by p r rows)

count-order_by :
    (p : Chunk → Bool) (rows : List Chunk) → count p (order_by chunk_before rows) ≡ count p rows
unfolding order_by count
count-order_by p [] = refl
count-order_by p (r ∷ rows) =
    count-insert_by p r (order_by chunk_before rows)
    ∙ unfold count in ground (arith, count-order_by p rows)

count-select :
    (p q : Chunk → Bool) (rows : List Chunk)
    → count p (select q rows) ≡ count (λ r. q r && p r) rows
unfolding select count
count-select p q [] = refl
count-select p q (r ∷ rows) = ground (arith, count-select p q rows)

-- Each chunk stands strictly before the ones behind it.
AreInOrder : List Chunk → Type 0
AreInOrder [] = Unit
AreInOrder (x ∷ rows) = All (λ y. chunk_before x y ≡ true) rows × AreInOrder rows

count-All :
    (p : Chunk → Bool) (rows : List Chunk) → All (λ r. p r ≡ true) rows → count p rows ≡ length rows
unfolding count
count-All p [] h = refl
count-All p (r ∷ rows) h = ground (arith, h.0, count-All p rows h.1)

-- After the first chunk of an ordered list come all the others.
after_first :
    (x : Chunk) (rows : List Chunk)
    → All (λ y. chunk_before x y ≡ true) rows
    → count (is_after (some (key_of x))) (x ∷ rows) + 1 ≡ length (x ∷ rows)
unfolding count is_after key_of chunk_before
after_first x rows first =
    let all = count-All (is_after (some (key_of x))) rows first in
    let itself : is_after (some (key_of x)) x ≡ false = ground arith in
    rw itself (omega (arith, all))

-- The chunks after the last one of a page, and the page, are the list that the page begins.
after_last :
    (n : ℕ) (x : Chunk) (rows : List Chunk)
    → AreInOrder (x ∷ rows)
    → count (is_after (some (last_key x (take n rows)))) (x ∷ rows) + length (x ∷ take n rows)
      ≡ length (x ∷ rows)
unfolding AreInOrder last_key count
after_last zero x rows (first, order) = unfold key_of in after_first x rows first
after_last (suc n) x [] (first, order) = unfold key_of in after_first x [] first
after_last (suc n) x (y ∷ rows) (first, order) =
    let (l, i, key) = last_chunk y (take n rows) in
    let behind : chunk_before x l ≡ true =
      All-In (λ z. chunk_before x z ≡ true) first (In-of_In-take (suc n) (y ∷ rows) i) in
    let itself : is_after (some (last_key y (take n rows))) x ≡ false =
      rw key (unfold is_after chunk_before in ground arith) in
    rw itself (omega (arith, after_last n y rows order))

-- A row of an ordered list stands in what the list begins with, or behind the last of that.
begins_or_behind :
    (n : ℕ) (x : Chunk) (rows : List Chunk) {k : Chunk}
    → AreInOrder (x ∷ rows)
    → In k (x ∷ rows)
    → In k (x ∷ take n rows) ⊎ (is_after (some (last_key x (take n rows))) k ≡ true)
unfolding AreInOrder last_key is_after
begins_or_behind n x rows order (here q) = inl (here q)
begins_or_behind zero x rows (first, order) (there i) =
    let behind = All-In (λ z. chunk_before x z ≡ true) first i in
    inr (unfold chunk_before in ground arith)
begins_or_behind (suc n) x [] order (there i) = elim i [ ]
begins_or_behind (suc n) x (y ∷ rows) (first, order) (there i) =
    elim (begins_or_behind n y rows order i) [ inl j ↦ inl (there j) | inr b ↦ inr b ]

module _ (content : Content) (keys : HasKeys content) (document : Option ℕ) where
  -- The chunks that are left, in order
  left : Option ChunkKey → List Chunk
  left after = select (is_left document after) content.chunks

  in_order :
      (rows : List Chunk)
      → Sorted chunk_before rows
      → Unique chunk_id_of rows
      → All (λ k. In k content.chunks) rows
      → AreInOrder rows
  unfolding AreInOrder
  in_order [] s u i = tt
  in_order (x ∷ rows) s u i = (
    All-of_In rows (λ y j.
        let later = All-In (λ z. chunk_before z x ≡ false) s.0 j in
        let other = All-In (λ z. (z.id == x.id) ≡ false) u.0 j in
        let there_too = All-In (λ z. In z content.chunks) i.1 j in
        elim (Bool-cases (chunk_before x y)) [
          | inl b ↦ b
          | inr n ↦
              let places = keys.places x y i.0 there_too in
              let one : x.document_id ≡ y.document_id = unfold chunk_before in ground arith in
              let two : x.position ≡ y.position = unfold chunk_before in ground arith in
              absurd (ground (arith, places one two))
        ]),
    in_order rows s.1 u.1 i.1,
  )

  ordered : Option ChunkKey → List Chunk
  ordered after = order_by chunk_before (left after)

  ordered-AreInOrder : (after : Option ChunkKey) → AreInOrder (ordered after)
  unfolding ordered left
  ordered-AreInOrder after =
      in_order (ordered after) (order_by-Sorted chunk_before before-IsOrder (left after))
        (Unique-order_by chunk_id_of chunk_before (left after)
          (Unique-select chunk_id_of (is_left document after) content.chunks keys.ids))
        (All-of_In (ordered after) (λ k i.
          (In-of_In-select (is_left document after) content.chunks
            (In-of_In-order_by chunk_before (left after) i)).1))

  -- The chunks after a chunk that is left are those of the left ones that come after it.
  left_after :
      (after : Option ChunkKey) (l r : Chunk)
      → is_left document after l ≡ true
      → (is_left document after r && is_after (some (l.document_id, l.position)) r)
        ≡ is_left document (some (l.document_id, l.position)) r
  unfolding is_after
  left_after none l r h = ground arith
  left_after (some (d, p)) l r h = ground arith

  pub page_left :
      (after : Option ChunkKey) (size : ℕ) (k : Chunk) (rows : List Chunk)
      → 1 ≤ size
      → page content document after size ≡ k ∷ rows
      → count (is_left document (some (last_key k rows))) content.chunks + length (k ∷ rows)
        ≡ count (is_left document after) content.chunks
  unfolding page ordered left
  page_left after zero k rows h e = absurd (omega (arith, h))
  page_left after (suc n) k rows h e = elim (List-cases (ordered after)) [
    | inl none_left ↦ absurd (ground (arith, rw none_left at e))
    | inr (x, others, q) ↦
        let again = rw q at e in
        let same : x ≡ k = ground arith in
        let tail : take n others ≡ rows = ground arith in
        let (l, i, key) = last_chunk k rows in
        let (is, there_is) =
          of_page document after (suc n) content (unfold page in rw (← e) at i) in
        let behind = is_after (some (last_key k rows)) in
        let counts : count behind (ordered after) + length (k ∷ rows) ≡ length (ordered after) =
          rw q (rw (← same, ← tail) (after_last n x others (rw q at (ordered-AreInOrder after)))) in
        let pointwise : count (λ r. is_left document after r && behind r) content.chunks
            ≡ count (is_left document (some (last_key k rows))) content.chunks =
          count-eq (λ r. is_left document after r && behind r)
            (is_left document (some (last_key k rows))) content.chunks
            (All-of (λ r. rw key (left_after after l r is)) content.chunks) in
        omega (
          arith,
          counts,
          pointwise,
          count-order_by behind (left after),
          count-select behind (is_left document after) content.chunks,
          length-order_by chunk_before (left after),
          length-select (is_left document after) content.chunks,
        )
  ]

  -- A chunk that is left is on the next page, or left after it.
  pub paged :
      (after : Option ChunkKey) (size : ℕ) (p : Chunk) (rows : List Chunk) (k : Chunk)
      → 1 ≤ size
      → page content document after size ≡ p ∷ rows
      → In k content.chunks
      → is_left document after k ≡ true
      → In k (p ∷ rows) ⊎ (is_left document (some (last_key p rows)) k ≡ true)
  unfolding page ordered left
  paged after zero p rows k h e i l = absurd (omega (arith, h))
  paged after (suc n) p rows k h e i l = elim (List-cases (ordered after)) [
    | inl none_left ↦ absurd (ground (arith, rw none_left at e))
    | inr (x, others, q) ↦
        let again = rw q at e in
        let same : x ≡ p = ground arith in
        let tail : take n others ≡ rows = ground arith in
        let there_is : In k (ordered after) =
          In-order_by chunk_before (left after)
            (In-select (is_left document after) content.chunks i l) in
        elim (begins_or_behind n x others (rw q at (ordered-AreInOrder after)) (rw q at there_is)) [
          | inl j ↦ inl (rw (same, tail) at j)
          | inr b ↦ (let behind = rw (same, tail) at b in inr (ground arith))
        ]
  ]

  -- After an empty page none is left.
  pub ended :
      (after : Option ChunkKey) (size : ℕ) (k : Chunk)
      → 1 ≤ size
      → page content document after size ≡ []
      → In k content.chunks
      → is_left document after k ≡ true
      → ⊥
  unfolding page ordered left
  ended after zero k h e i l = omega (arith, h)
  ended after (suc n) k h e i l = elim (List-cases (ordered after)) [
    | inr (x, others, q) ↦ ground (arith, rw q at e)
    | inl none_left ↦
        let there_is : In k (ordered after) =
          In-order_by chunk_before (left after)
            (In-select (is_left document after) content.chunks i l) in
        elim (rw none_left at there_is) [ ]
  ]
