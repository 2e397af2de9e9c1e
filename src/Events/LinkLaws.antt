-- ===== src/Events/LinkLaws.antt =====
-- What linking one event (domain/events/linking.py) tests and writes.
use signalscope.Shared.{
  ℕ, ◌≡◌, ◌⊎◌, refl, inl, inr, Bool, true, Option, none, some, List, [], ◌∷◌, ◌==◌, arith, In, ok,
  is_some, length, leb, Bool-cases, Option-cases, Result-cases,
}
use signalscope.Shared.Text.{Text, strip}
use signalscope.Shared.Rows.{find, select, update, order_by}
use signalscope.Shared.Rows.Laws.{In-of_In-select, find-In, Unique}
use signalscope.Shared.Rows.Order.{In-of_In-order_by}
use signalscope.Shared.Rows.Keys.{find-Unique, Unique-cons}
use signalscope.Events.Model.{Event, EventCluster}
use signalscope.Events.Linking.{
  EventLink, LinkTables, event_organization, same_day, is_candidate, is_older, first, matches,
  choose, matching_cluster, refreshed, has_id, refresh_canonical_values, member_of, new_cluster,
  cluster_for, join_cluster, link_found, link_event, normalize_event_title, link_each,
  link_unclustered, several_owners, database_error, bad_limit, count_link, unclustered_ids,
}
use signalscope.Shared.{here}

first-In {ℓ} : {A : Type ℓ} (rows : List A) {a : A} → first rows ≡ some a → In a rows
first-In [] e = cc
first-In (r ∷ rows) e = here (ground arith)

module _ (o : Option ℕ) (event_type normalized : Text) (occurred_at : Option ℕ)
    (clusters : List EventCluster) where
  chosen_In :
      (t : Option ℕ) (timed : List EventCluster) (found : List EventCluster) {c : EventCluster}
      → choose t timed found ≡ some c
      → In c timed ⊎ In c found
  chosen_In none timed found e = inr (first-In found e)
  chosen_In (some t) [] found e = inr (first-In found e)
  chosen_In (some t) (d ∷ timed) found e = inl (here (ground arith))

  -- The cluster that is chosen is one of the table, a candidate, and on the same day.
  pub matching_cluster-fits :
      {c : EventCluster}
      → matching_cluster o event_type normalized occurred_at clusters ≡ some c
      → In c clusters
        × (is_candidate o event_type normalized c ≡ true)
        × (same_day occurred_at c.occurred_at ≡ true)
  unfolding matching_cluster matches
  matching_cluster-fits {c} e =
      let candidates = select (is_candidate o event_type normalized) clusters in
      let ordered = order_by is_older candidates in
      let found = matches o event_type normalized occurred_at clusters in
      let i : In c found =
        elim (chosen_In occurred_at (select (λ d. is_some d.occurred_at) found) found e) [
          | inl j ↦ (In-of_In-select (λ d. is_some d.occurred_at) found j).1
          | inr j ↦ j
        ] in
      let (day, j) = In-of_In-select (λ d. same_day occurred_at d.occurred_at) ordered i in
      let (fits, k) =
        In-of_In-select (is_candidate o event_type normalized) clusters
          (In-of_In-order_by is_older candidates j) in
      (k, fits, day)

owner_of_candidate :
    (o : Option ℕ) (event_type normalized : Text) (c : EventCluster)
    → is_candidate o event_type normalized c ≡ true
    → c.organization_id ≡ o
unfolding is_candidate
owner_of_candidate none event_type normalized c h = ground arith
owner_of_candidate (some k) event_type normalized c h = ground arith

module _ (nfkc casefold lower : Text → Text) (new_id now : ℕ) (e : Event) (db : LinkTables) where
  before :
      (k : ℕ) (x c : EventCluster)
      → find (has_id c.id) db.clusters ≡ none
      → find (has_id k) db.clusters ≡ some x
      → find (has_id k) (c ∷ db.clusters) ≡ some x
  unfolding find
  before k x c g i = elim (Bool-cases (c.id == k)) [
    | inr n ↦ rw n i
    | inl y ↦ let same : c.id ≡ k = ground arith in absurd (ground (arith, rw same at g))
  ]

  -- The cluster that is joined: one of the table with unique IDs, of the event's owner, and the other
  -- clusters are there as before.
  pub joins :
      (o : Option ℕ) {c : EventCluster} {created : Bool} {clusters : List EventCluster}
      → cluster_for nfkc casefold lower new_id now e o db ≡ ok (c, created, clusters)
      → Unique (λ (x : EventCluster). x.id) db.clusters
      → (c.organization_id ≡ o)
        × Unique (λ (x : EventCluster). x.id) clusters
        × (find (has_id c.id) clusters ≡ some c)
        × ((i : ℕ) (x : EventCluster)
            → find (has_id i) db.clusters ≡ some x
            → find (has_id i) clusters ≡ some x)
  unfolding cluster_for
  joins o {c} {created} {clusters} h u =
      let type = lower (strip e.event_type) in
      let normalized = normalize_event_title nfkc casefold lower e.title in
      elim (Option-cases (matching_cluster o type normalized e.occurred_at db.clusters)) [
        | inr (d, f) ↦
            let same : d ≡ c = ground arith in
            let all : db.clusters ≡ clusters = ground arith in
            let (i, fits, day) =
              matching_cluster-fits o type normalized e.occurred_at db.clusters f in
            rw (← same, ← all)
              (
                owner_of_candidate o type normalized d fits,
                u,
                find-Unique (λ x. x.id) db.clusters d u i,
                λ k x g. g,
              )
        | inl f ↦ elim (Option-cases (find (has_id new_id) db.clusters)) [
          | inr (x, g) ↦ absurd (ground arith)
          | inl g ↦
              let new = new_cluster nfkc casefold lower new_id now e o in
              let same : new ≡ c = ground arith in
              let all : new ∷ db.clusters ≡ clusters = ground arith in
              rw (← same, ← all)
                (unfold new_cluster in
                  (
                    refl,
                    Unique-cons (λ x. x.id) new db.clusters g u,
                    unfold find in ground arith,
                    λ k x i. before k x new g i,
                  ))
        ]
      ]

  pub joined :
      {a : Option EventLink × LinkTables}
      → join_cluster nfkc casefold lower new_id now e db ≡ ok a
      → (o : Option ℕ) × (event_organization db e.id ≡ ok o)
        × (c : EventCluster) × (created : Bool) × (clusters : List EventCluster) × (cluster_for nfkc
              casefold lower new_id now e o db
            ≡ ok (c, created, clusters))
        × (let members = record { event_id = e.id; cluster_id = c.id } ∷ db.members in
            a ≡ (
              some (record { cluster_id = c.id; created_cluster = created }),
              record db {
                clusters = update (has_id c.id) (λ _. refreshed db.events members c) clusters;
                members = members;
              },
            ))
  unfolding join_cluster refresh_canonical_values
  joined {a} h = elim (Result-cases (event_organization db e.id)) [
    | inr (x, f) ↦ absurd (ground arith)
    | inl (o, f) ↦ elim (Result-cases (cluster_for nfkc casefold lower new_id now e o db)) [
      | inr (x, g) ↦ absurd (ground arith)
      | inl ((c, created, clusters), g) ↦ (o, f, c, created, clusters, g, ground arith)
    ]
  ]

-- What joining a cluster keeps, all of linking keeps.
module _ (nfkc casefold lower : Text → Text) (P : LinkTables → Type 0)
    (step : (new_id now : ℕ) (e : Event) (db : LinkTables) (a : Option EventLink × LinkTables)
      → In e db.events
      → find (member_of e.id) db.members ≡ none
      → join_cluster nfkc casefold lower new_id now e db ≡ ok a
      → P db
      → P a.1) where
  pub link_event_keeps :
      (new_id now i : ℕ) (db : LinkTables) (a : Option EventLink × LinkTables)
      → link_event nfkc casefold lower new_id now i db ≡ ok a
      → P db
      → P a.1
  unfolding link_event link_found
  link_event_keeps new_id now i db a h p =
      elim (Option-cases (find (λ (e : Event). e.id == i) db.events)) [
        | inl f ↦ let same : db ≡ a.1 = ground arith in rw (← same) p
        | inr (e, f) ↦ elim (Option-cases (find (member_of e.id) db.members)) [
          | inr (m, g) ↦ let same : db ≡ a.1 = ground arith in rw (← same) p
          | inl g ↦
              elim (Bool-cases
                (leb (length (normalize_event_title nfkc casefold lower e.title)) 500)) [
                  | inr n ↦ let same : db ≡ a.1 = ground arith in rw (← same) p
                  | inl y ↦
                      step new_id now e db a (find-In (λ (x : Event). x.id == i) db.events f).1 g
                        (ground arith) p
                ]
        ]
      ]

  pub link_each_keeps :
      (new_id : ℕ → ℕ) (now : ℕ) (ids : List ℕ) (counted : ℕ × ℕ) (db : LinkTables)
      → P db
      → P (link_each nfkc casefold lower new_id now ids counted db).1
  unfolding link_each
  link_each_keeps new_id now [] counted db p = p
  link_each_keeps new_id now (i ∷ ids) counted db p =
      elim (Result-cases (link_event nfkc casefold lower (new_id i) now i db)) [
        | inl (a, f) ↦
            rw (link_each, f)
              (link_each_keeps new_id now ids (count_link nfkc casefold lower a.0 counted) a.1
                (link_event_keeps (new_id i) now i db a f p))
        | inr (several_owners, f) ↦ rw (link_each, f) (link_each_keeps new_id now ids counted db p)
        | inr (database_error, f) ↦ rw (link_each, f) p
        | inr (bad_limit, f) ↦ rw (link_each, f) p
      ]

  pub link_unclustered_keeps :
      (new_id : ℕ → ℕ) (now limit : ℕ) (db : LinkTables)
      → P db
      → P (link_unclustered nfkc casefold lower new_id now limit db).1
  unfolding link_unclustered
  link_unclustered_keeps new_id now limit db p = elim (Bool-cases (leb 1 limit)) [
    | inl y ↦
        rw y (link_each_keeps new_id now (unclustered_ids nfkc casefold lower limit db) (0, 0) db p)
    | inr n ↦ rw n p
  ]
