-- ===== src/Retention/Laws.antt =====
-- Which audit events a clean up deletes (domain/retention/service.py).
use signalscope.Shared.{
  ℕ, ◌-◌, ◌*◌, ◌+◌, ◌≤◌, ◌≡◌, ◌∙◌, refl, ap, inl, inr, true, false, ◌&&◌, Option, some, List, [],
  ◌∷◌, ltb, arith, min, All, All-map, All-of_In, In, there, ok, length, length-take, take,
  Bool-cases, Option-cases, Result-cases,
}
use signalscope.Shared.Rows.{select, delete, order_by, count}
use signalscope.Shared.Rows.Laws.{
  Unique, All-In, In-cons, In-select, In-of_In-select, length-select,
}
use signalscope.Shared.Rows.Order.{
  In-of_In-order_by, In-of_In-take, length-order_by, IsOrder, order_by-Sorted, In-order_by,
}
use signalscope.Shared.Rows.Picked.{
  count-split, count-eq, count-picked, in_keys-In, in_keys_of_In, take_first, In-delete,
  In-of_In-delete, Unique-select, Unique-order_by, Unique-take,
}
use signalscope.Shared.Rows.Keys.{find-Unique}
use signalscope.Audit.{AuditAction, audit_retention_cleanup, DetailKey, DetailValue, number}
use signalscope.Organizations.Model.{User}
use signalscope.Retention.Service.{
  RetentionTables, SecurityAuditEvent, AuditCleanupResult, check_change, get_policy_row, days_of,
  cutoff_at, is_eligible, is_older, oldest, is_picked, audit_row, record_row, cleanup,
}

abbrev pub HasIds : List SecurityAuditEvent → Type 0
HasIds events = Unique (λ (r : SecurityAuditEvent). r.id) events

module _ (actor : Option User) (new_id now o limit : ℕ) (db : RetentionTables) where
  pub cleaned :
      {a : AuditCleanupResult × RetentionTables}
      → cleanup actor new_id now o limit db ≡ ok a
      → 1 ≤ limit
        × (check_change actor o db ≡ ok tt)
        × (days : ℕ) × (days_of (get_policy_row o db) ≡ some days)
        × (let picked = oldest o (cutoff_at now days) limit db.events in
            let deleted = count (is_picked picked) db.events in
            a ≡ (
              record {
                organization_id = o;
                retention_days = days;
                cutoff = cutoff_at now days;
                deleted_count = deleted;
              },
              record db {
                events =
                    record_row audit_retention_cleanup actor new_id now o
                      ((DetailKey.deleted_count, number deleted)
                        ∷ (DetailKey.retention_days, number days)
                        ∷ [])
                      (delete (is_picked picked) db.events);
              },
            ))
  unfolding cleanup
  cleaned h = elim (Result-cases (check_change actor o db)) [
    | inr (x, e) ↦ absurd (ground arith)
    | inl (t, e) ↦ elim (Option-cases (days_of (get_policy_row o db))) [
      | inl f ↦ absurd (ground arith)
      | inr (days, f) ↦ (ground arith, e, days, f, ground arith)
    ]
  ]

older-IsOrder : IsOrder is_older
unfolding is_older
older-IsOrder = record {
  asymmetric = λ a b h. ground arith;
  not_before_trans = λ a b c h k. ground arith;
}

module _ (o cutoff limit : ℕ) (events : List SecurityAuditEvent) (ids : HasIds events) where
  eligible : List SecurityAuditEvent
  eligible = select (is_eligible o cutoff) events

  -- The events that are picked are eligible ones of the table.
  pub oldest-All :
      All (λ r. (is_eligible o cutoff r ≡ true) × In r events) (oldest o cutoff limit events)
  unfolding oldest eligible
  oldest-All = All-of_In (take limit (order_by is_older eligible)) (λ r i.
      In-of_In-select (is_eligible o cutoff) events
        (In-of_In-order_by is_older eligible (In-of_In-take limit (order_by is_older eligible) i)))

  pub length-oldest :
      length (oldest o cutoff limit events) ≡ min limit (count (is_eligible o cutoff) events)
  unfolding oldest eligible
  length-oldest = omega (
    arith,
    length-take limit (order_by is_older eligible),
    length-order_by is_older eligible,
    length-select (is_eligible o cutoff) events,
  )

  -- As many rows are deleted as were picked.
  pub count-oldest :
      count (is_picked (oldest o cutoff limit events)) events
      ≡ min limit (count (is_eligible o cutoff) events)
  unfolding oldest eligible
  count-oldest =
      count-picked (λ r. r.id) events (oldest o cutoff limit events) ids
        (Unique-take (λ r. r.id) limit (order_by is_older eligible)
          (Unique-order_by (λ r. r.id) is_older eligible
            (Unique-select (λ r. r.id) (is_eligible o cutoff) events ids)))
        (All-map (λ r p. p.1) (oldest o cutoff limit events) oldest-All)
      ∙ length-oldest

  -- Two events of the table with one ID are one event.
  same_event : (p r : SecurityAuditEvent) → In p events → In r events → p.id ≡ r.id → p ≡ r
  same_event p r i j same =
      let found = find-Unique (λ (x : SecurityAuditEvent). x.id) events p ids i in
      let other = find-Unique (λ (x : SecurityAuditEvent). x.id) events r ids j in
      ground (arith, rw same at found, other)

  -- What is deleted was picked, and so was eligible.
  pub picked :
      (r : SecurityAuditEvent)
      → In r events
      → is_picked (oldest o cutoff limit events) r ≡ true
      → (is_eligible o cutoff r ≡ true) × In r (oldest o cutoff limit events)
  picked r i h =
      let (p, j, same) =
        in_keys-In (λ (x : SecurityAuditEvent). x.id) (oldest o cutoff limit events) r.id h in
      let (fits, k) = All-In (λ x. (is_eligible o cutoff x ≡ true) × In x events) oldest-All j in
      let one = same_event p r k i same in (rw one at fits, rw one at j)

  pub count-left :
      count (is_eligible o cutoff) (delete (is_picked (oldest o cutoff limit events)) events)
        + min limit (count (is_eligible o cutoff) events)
      ≡ count (is_eligible o cutoff) events
  count-left =
      let gone = is_picked (oldest o cutoff limit events) in
      let both : count (λ r. gone r && is_eligible o cutoff r) events ≡ count gone events =
        count-eq (λ r. gone r && is_eligible o cutoff r) gone events
          (All-of_In events (λ r i. elim (Bool-cases (gone r)) [
            | inr n ↦ rw n refl
            | inl y ↦ rw (y, (picked r i y).0) refl
          ])) in
      omega (arith, count-split (is_eligible o cutoff) gone events, both, count-oldest)

  -- No eligible event that stays is older than one that is deleted.
  pub older_first :
      (r p : SecurityAuditEvent)
      → In r events
      → is_eligible o cutoff r ≡ true
      → is_picked (oldest o cutoff limit events) r ≡ false
      → In p (oldest o cutoff limit events)
      → is_older r p ≡ false
  unfolding oldest eligible
  older_first r p i fits stays j =
      let rows = order_by is_older eligible in
      elim (take_first is_older older-IsOrder limit rows p r
        (order_by-Sorted is_older older-IsOrder eligible) j
        (In-order_by is_older eligible (In-select (is_eligible o cutoff) events i fits))) [
          | inr n ↦ n
          | inl k ↦
              let y = in_keys_of_In (λ (x : SecurityAuditEvent). x.id) (take limit rows) k in
              absurd (ground arith)
        ]

-- The event that a clean up records is not eligible, now or for an earlier cutoff.
recorded_stays :
    (o now d : ℕ) (r : SecurityAuditEvent)
    → r.created_at ≡ now
    → is_eligible o (cutoff_at now d) r ≡ false
unfolding is_eligible
recorded_stays o now d r h =
    let late : ltb r.created_at (now - d * 86_400) ≡ false = ground arith in ground (arith, late)

module _ (action : AuditAction) (actor : Option User) (new_id now o d : ℕ)
    (details : List (DetailKey × DetailValue)) (events : List SecurityAuditEvent) where
  abbrev recorded : List SecurityAuditEvent
  recorded = record_row action actor new_id now o details events

  count-recorded :
      count (is_eligible o (cutoff_at now d)) recorded
      ≡ count (is_eligible o (cutoff_at now d)) events
  unfolding record_row count
  count-recorded =
      rw (recorded_stays o now d (audit_row action actor new_id now o details) refl) refl

  In-recorded : {r : SecurityAuditEvent} → In r events → In r recorded
  unfolding record_row
  In-recorded i = there i

  In-of_In-recorded :
      {r : SecurityAuditEvent}
      → In r recorded
      → is_eligible o (cutoff_at now d) r ≡ true
      → In r events
  unfolding record_row
  In-of_In-recorded {r} i fits = elim (In-cons i) [
    | inl q ↦
        let n = recorded_stays o now d r (ap (λ (x : SecurityAuditEvent). x.created_at) q) in
        absurd (ground (arith, n, fits))
    | inr j ↦ j
  ]

module _ (actor : Option User) (new_id now o limit : ℕ) (db : RetentionTables)
    (ids : HasIds db.events) where
  -- Where the IDs of events are unique, a clean up that returns has deleted exactly the smaller of its
  -- limit and the number of eligible events of the organization, which is by so many less then; no
  -- other event is gone; and no eligible event that stays is older than one that is gone.
  pub cleanup_exact :
      {a : AuditCleanupResult × RetentionTables}
      → cleanup actor new_id now o limit db ≡ ok a
      → let may_go = is_eligible o a.0.cutoff in
        (a.0.deleted_count ≡ min limit (count may_go db.events))
        × (count may_go a.1.events + a.0.deleted_count ≡ count may_go db.events)
        × ((r : SecurityAuditEvent) → In r db.events → may_go r ≡ false → In r a.1.events)
        × ((r p : SecurityAuditEvent)
            → In r db.events
            → In r a.1.events
            → In p db.events
            → may_go r ≡ true
            → (In p a.1.events → ⊥)
            → is_older r p ≡ false)
  cleanup_exact {a} h =
      let (positive, may, days, set, q) = cleaned actor new_id now o limit db h in
      let cutoff = cutoff_at now days in
      let gone = is_picked (oldest o cutoff limit db.events) in
      let details =
        (DetailKey.deleted_count, number (count gone db.events))
        ∷ (DetailKey.retention_days, number days)
        ∷ [] in
      let kept = delete gone db.events in
      let note = audit_retention_cleanup in
      let stays : (x : SecurityAuditEvent)
          → In x db.events
          → gone x ≡ false
          → In x (record_row note actor new_id now o details kept) =
        λ x i n.
          In-recorded note actor new_id now o days details kept (In-delete gone db.events i n) in
      rw q (
        count-oldest o cutoff limit db.events ids,
        omega (
          arith,
          count-recorded note actor new_id now o days details kept,
          count-left o cutoff limit db.events ids,
          count-oldest o cutoff limit db.events ids,
        ),
        (λ r i n. elim (Bool-cases (gone r)) [
          | inr m ↦ stays r i m
          | inl y ↦ absurd (ground (arith, (picked o cutoff limit db.events ids r i y).0))
        ]),
        (λ r p i k j fits away. elim (Bool-cases (gone p)) [
          | inr m ↦ absurd (away (stays p j m))
          | inl y ↦
              older_first o cutoff limit db.events ids r p i fits
                (In-of_In-delete gone db.events
                  (In-of_In-recorded note actor new_id now o days details kept k fits)).0
                (picked o cutoff limit db.events ids p j y).1
        ]),
      )
