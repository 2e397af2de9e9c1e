-- ===== src/Events/Canonical.antt =====
-- The title and the time that clusters show (domain/events/linking.py, refresh_canonical_values).
use signalscope.Shared.{
  ℕ, ◌≤◌, ◌≡◌, ◌∙◌, refl, sym, ap, inl, inr, Bool, true, false, Option, some, List, [], ◌∷◌, ◌==◌,
  ltb, arith, All, All-map, In, here, ok, Option-cases, if◌then◌else◌,
}
use signalscope.Shared.Text.{Text, strip}
use signalscope.Shared.Rows.{find, select, order_by}
use signalscope.Shared.Rows.Laws.{All-In, All-update, In-cons, In-nil, In-select, In-of_In-select}
use signalscope.Shared.Rows.Order.{
  IsOrder, order_by-Sorted, Sorted-head, In-order_by, In-of_In-order_by,
}
use signalscope.Events.Model.{Event, EventCluster, EventClusterMember}
use signalscope.Events.Linking.{
  LinkTables, EventLink, refreshed, earliest, first, title_or_kept, is_member, is_older_event,
  has_id, cluster_for, matching_cluster, join_cluster, link_unclustered, normalize_event_title,
}
use signalscope.Events.LinkLaws.{joined, link_unclustered_keeps}

-- To refresh any cluster changes nothing.
abbrev pub IsRefreshed : LinkTables → Type 0
IsRefreshed db = All (λ c. refreshed db.events db.members c ≡ c) db.clusters

select-eq :
    (p q : Event → Bool) (rows : List Event)
    → ((r : Event) → p r ≡ q r)
    → select p rows ≡ select q rows
unfolding select
select-eq p q [] h = refl
select-eq p q (r ∷ rows) h = rw (h r, select-eq p q rows h) refl

-- Another cluster's new member changes nothing.
refreshed_elsewhere :
    (events : List Event) (m : EventClusterMember) (members : List EventClusterMember)
    (c : EventCluster)
    → (c.id == m.cluster_id) ≡ false
    → refreshed events (m ∷ members) c ≡ refreshed events members c
unfolding refreshed find
refreshed_elsewhere events m members c other =
    let same : select (is_member c.id (m ∷ members)) events
        ≡ select (is_member c.id members) events =
      select-eq (is_member c.id (m ∷ members)) (is_member c.id members) events
        (λ e. ground arith) in
    rw same refl

refreshed-refreshed :
    (events : List Event) (members : List EventClusterMember) (c : EventCluster)
    → refreshed events members (refreshed events members c) ≡ refreshed events members c
unfolding refreshed
refreshed-refreshed events members c =
    let keeps : (o : Option Event)
        → title_or_kept o (title_or_kept o c.canonical_title) ≡ title_or_kept o c.canonical_title =
      λ o. ground arith in
    rw (keeps (first (order_by is_older_event (select (is_member c.id members) events)))) refl

module _ (nfkc casefold lower : Text → Text) where
  -- The clusters but for the joined one are those of the table.
  joins_only :
      (new_id now : ℕ) (e : Event) (db : LinkTables) (o : Option ℕ) (P : EventCluster → Type 0)
      {c : EventCluster} {created : Bool} {clusters : List EventCluster}
      → cluster_for nfkc casefold lower new_id now e o db ≡ ok (c, created, clusters)
      → All P db.clusters
      → All (λ x. (x.id == c.id) ≡ false → P x) clusters
  unfolding cluster_for
  joins_only new_id now e db o P {c} {created} {clusters} h p =
      elim (Option-cases (
        matching_cluster o (lower (strip e.event_type))
          (normalize_event_title nfkc casefold lower e.title) e.occurred_at db.clusters)) [
            | inr (d, f) ↦
                let all : db.clusters ≡ clusters = ground arith in
                rw (← all) (All-map (λ x y n. y) db.clusters p)
            | inl f ↦
                let all : c ∷ db.clusters ≡ clusters = ground arith in
                rw (← all) ((λ n. absurd (ground arith)), All-map (λ x y n. y) db.clusters p)
          ]

  step :
      (new_id now : ℕ) (e : Event) (db : LinkTables) (a : Option EventLink × LinkTables)
      → join_cluster nfkc casefold lower new_id now e db ≡ ok a
      → IsRefreshed db
      → IsRefreshed a.1
  step new_id now e db a h all =
      let (o, owner, c, created, clusters, made, q) =
        joined nfkc casefold lower new_id now e db h in
      let m : EventClusterMember = record { event_id = e.id; cluster_id = c.id } in
      let members = m ∷ db.members in
      let new = refreshed db.events members c in
      rw q (
        All-update {P = λ x. (x.id == c.id) ≡ false → refreshed db.events db.members x ≡ x}
          (has_id c.id) (λ _. new) clusters (λ x y z. refreshed-refreshed db.events members c)
          (λ x y n. refreshed_elsewhere db.events m db.members x n ∙ y n)
          (joins_only new_id now e db o (λ x. refreshed db.events db.members x ≡ x) made all))

  pub link_unclustered-IsRefreshed :
      (new_id : ℕ → ℕ) (now limit : ℕ) (db : LinkTables)
      → IsRefreshed db
      → IsRefreshed (link_unclustered nfkc casefold lower new_id now limit db).1
  link_unclustered-IsRefreshed =
      link_unclustered_keeps nfkc casefold lower IsRefreshed
        (λ new_id now e db a i free h all. step new_id now e db a h all)

older-IsOrder : IsOrder is_older_event
unfolding is_older_event
older-IsOrder = record {
  asymmetric = λ a b h. ground arith;
  not_before_trans = λ a b c h k. ground arith;
}

-- An event of the cluster has this title, and no event of the cluster is older than it.
abbrev pub IsTitleOfOldest : List Event → (Event → Bool) → Text → Type 0
IsTitleOfOldest events own title =
    (f : Event) × In f events
    × (own f ≡ true)
    × (title ≡ strip f.title)
    × ((g : Event) → In g events → own g ≡ true → is_older_event g f ≡ false)

-- Some time that is not after this one.
abbrev pub IsFrom : Option ℕ → ℕ → Type 0
IsFrom since t = (s : ℕ) × (since ≡ some s) × s ≤ t

earliest-IsFrom :
    (events : List Event) (e : Event) (t : ℕ)
    → In e events
    → e.occurred_at ≡ some t
    → IsFrom (earliest events) t
unfolding earliest
earliest-IsFrom [] e t i h = elim i [ ]
earliest-IsFrom (f ∷ events) e t i h = elim (In-cons i) [
  | inl q ↦
      let known : f.occurred_at ≡ some t = ap (λ (x : Event). x.occurred_at) (sym q) ∙ h in
      elim (Option-cases (earliest events)) [
        | inl n ↦ (t, rw (known, n) refl, omega arith)
        | inr (s, n) ↦ (if ltb t s then t else s, rw (known, n) refl, ground arith)
      ]
  | inr j ↦
      let (s, g, le) = earliest-IsFrom events e t j h in
      elim (Option-cases f.occurred_at) [
        | inl n ↦ (s, rw (n, g) refl, le)
        | inr (r, n) ↦ (if ltb r s then r else s, rw (n, g) refl, ground arith)
      ]
]

oldest :
    (events : List Event) (own : Event → Bool) (e : Event) (kept : Text)
    → In e events
    → own e ≡ true
    → IsTitleOfOldest events own
        (title_or_kept (first (order_by is_older_event (select own events))) kept)
oldest events own e kept i h = go (order_by is_older_event (select own events)) refl
  where
    go :
        (rows : List Event)
        → order_by is_older_event (select own events) ≡ rows
        → IsTitleOfOldest events own (title_or_kept (first rows) kept)
    go [] q = absurd (
        In-nil
          (rw q at (In-order_by is_older_event (select own events) (In-select own events i h))))
    go (f ∷ rows) q =
        let head : In f (f ∷ rows) = here refl in
        let (y, j) =
          In-of_In-select own events
            (In-of_In-order_by is_older_event (select own events) (rw (← q) at head)) in
        (
          f,
          j,
          y,
          refl,
          λ g k z.
              Sorted-head is_older_event older-IsOrder f rows
                (rw q at (order_by-Sorted is_older_event older-IsOrder (select own events)))
                (rw q at
                  (In-order_by is_older_event (select own events) (In-select own events k z))),
        )

-- Where every cluster is refreshed, this stays so when events are linked; and then a cluster shows,
-- in whatever order its events were linked, the title of its oldest event and a time that is not
-- after the time of any of its events.
pub linked_values :
    (nfkc casefold lower : Text → Text) (new_id : ℕ → ℕ) (now limit : ℕ) (db : LinkTables)
    → IsRefreshed db
    → let after = (link_unclustered nfkc casefold lower new_id now limit db).1 in
      IsRefreshed after
      × ((c : EventCluster) (e : Event)
          → In c after.clusters
          → In e after.events
          → is_member c.id after.members e ≡ true
          → IsTitleOfOldest after.events (is_member c.id after.members) c.canonical_title
            × ((t : ℕ) → e.occurred_at ≡ some t → IsFrom c.occurred_at t))
unfolding refreshed
linked_values nfkc casefold lower new_id now limit db h =
    let after = (link_unclustered nfkc casefold lower new_id now limit db).1 in
    let all = link_unclustered-IsRefreshed nfkc casefold lower new_id now limit db h in
    (
      all,
      λ c e i j own.
          let q = All-In (λ x. refreshed after.events after.members x ≡ x) all i in
          let own_events = select (is_member c.id after.members) after.events in
          let title : title_or_kept (first (order_by is_older_event own_events)) c.canonical_title
              ≡ c.canonical_title =
            ap (λ (x : EventCluster). x.canonical_title) q in
          let time : earliest own_events ≡ c.occurred_at =
            ap (λ (x : EventCluster). x.occurred_at) q in
          (
            rw title at
                (oldest after.events (is_member c.id after.members) e c.canonical_title j own),
            λ t known. rw time at (
                earliest-IsFrom own_events e t
                  (In-select (is_member c.id after.members) after.events j own) known),
          ),
    )
