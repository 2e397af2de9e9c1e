-- ===== src/Events/Linking.antt =====
-- domain/events/linking.py, and `normalize_event_title` of domain/events/cluster.py. An event is linked
-- in one transaction, which an error rolls back. Unicode normalization, case folding and lower case
-- are tables of the Unicode standard, which the functions take as arguments. Times are in seconds.
use signalscope.Shared.{
  ℕ, ◌+◌, ◌/◌, Bool, true, false, not, ◌&&◌, ◌||◌, Option, none, some, List, [], ◌∷◌, ◌==◌, ltb,
  leb, Result, ok, err, ◌>>=◌, ◌>>◌, raise_if, is_some, if◌then◌else◌, length, take, map,
}
use signalscope.Shared.Text.{Text, is_space, strip, text_eq}
use signalscope.Shared.Rows.{find, select, update, order_by}
use signalscope.Content.{Content, get_chunk, get_document, get_source}
use signalscope.Tenancy.Scope.{same, sql_same, is_none}
use signalscope.Events.Model.{Event, EventEvidence, EventCluster, EventClusterMember}

pub data LinkError : Type 0 where
  several_owners database_error bad_limit : LinkError

pub record EventLink : Type 0 where
  pub cluster_id : ℕ
  pub created_cluster : Bool

pub record EventLinkingResult : Type 0 where
  pub events_checked : ℕ
  pub events_linked : ℕ
  pub clusters_created : ℕ

pub record LinkTables : Type 0 where
  pub content : Content
  pub events : List Event
  pub evidence : List EventEvidence
  pub clusters : List EventCluster
  pub members : List EventClusterMember

-- `WHITESPACE.sub(" ", text)`, where the flag says that a run of whitespace was replaced.
unfoldable pub collapse : Bool → Text → Text
collapse in_run [] = []
collapse in_run (c ∷ cs) =
    let inside = collapse true cs in
    let outside = collapse false cs in
    if is_space c then (if in_run then inside else 32 ∷ inside) else c ∷ outside

unfoldable pub is_blank : Text → Bool
is_blank [] = true
is_blank (c ∷ cs) = c == 32 && is_blank cs

-- The lengths and the checks of the columns of a cluster
unfoldable pub is_storable : EventCluster → Bool
is_storable c =
    not (is_blank c.event_type)
    && (not (is_blank c.canonical_title)
        && (not (is_blank c.normalized_title)
            && (leb (length c.event_type) 50
                && (leb (length c.canonical_title) 500 && leb (length c.normalized_title) 500))))

-- The owner of a chunk's source, where the joined rows are there.
unfoldable pub chunk_owner : Content → ℕ → List (Option ℕ)
chunk_owner c i = elim (get_chunk c i) [
  | none ↦ []
  | some k ↦ elim (get_document c k.document_id) [
    | none ↦ []
    | some d ↦ elim (get_source c d.source_id) [ none ↦ [] | some s ↦ s.organization_id ∷ [] ]
  ]
]

-- DISTINCT, which takes NULL for one value
unfoldable pub add_distinct : List (Option ℕ) → List (Option ℕ) → List (Option ℕ)
add_distinct [] owners = owners
add_distinct (o ∷ _) owners = if is_some (find (same o) owners) then owners else o ∷ owners

unfoldable pub owners_of : Content → ℕ → List EventEvidence → List (Option ℕ)
owners_of c event_id [] = []
owners_of c event_id (e ∷ evidence) =
    let rest = owners_of c event_id evidence in
    if e.event_id == event_id then add_distinct (chunk_owner c e.chunk_id) rest else rest

abbrev pub single_owner : List (Option ℕ) → Result LinkError (Option ℕ)
single_owner [] = ok none
single_owner (o ∷ []) = ok o
single_owner (o ∷ p ∷ owners) = err several_owners

unfoldable pub event_organization : LinkTables → ℕ → Result LinkError (Option ℕ)
event_organization db event_id = single_owner (owners_of db.content event_id db.evidence)

abbrev pub owned_alike : Option ℕ → Option ℕ → Bool
owned_alike none column = is_none column
owned_alike (some o) column = sql_same column (some o)

-- ORDER BY created_at, id
unfoldable pub is_older : EventCluster → EventCluster → Bool
is_older a b = ltb a.created_at b.created_at || (a.created_at == b.created_at && ltb a.id b.id)

unfoldable pub is_older_event : Event → Event → Bool
is_older_event a b =
    ltb a.created_at b.created_at || (a.created_at == b.created_at && ltb a.id b.id)

-- `_utc_day`
abbrev pub utc_day : ℕ → ℕ
utc_day t = t / 86_400

abbrev pub same_day : Option ℕ → Option ℕ → Bool
same_day none cluster = true
same_day (some t) none = true
same_day (some t) (some s) = utc_day s == utc_day t

unfoldable pub is_candidate : Option ℕ → Text → Text → EventCluster → Bool
is_candidate organization_id event_type normalized c =
    text_eq c.event_type event_type
    && (text_eq c.normalized_title normalized && owned_alike organization_id c.organization_id)

abbrev pub first {ℓ} : {A : Type ℓ} → List A → Option A
first [] = none
first (a ∷ rows) = some a

-- The list `matches`
unfoldable pub matches : Option ℕ → Text → Text → Option ℕ → List EventCluster → List EventCluster
matches organization_id event_type normalized occurred_at clusters =
    select (λ c. same_day occurred_at c.occurred_at)
      (order_by is_older (select (is_candidate organization_id event_type normalized) clusters))

abbrev pub choose : Option ℕ → List EventCluster → List EventCluster → Option EventCluster
choose (some t) (c ∷ timed) found = some c
choose _ timed found = first found

unfoldable pub matching_cluster :
    Option ℕ → Text → Text → Option ℕ → List EventCluster → Option EventCluster
matching_cluster organization_id event_type normalized occurred_at clusters =
    let found = matches organization_id event_type normalized occurred_at clusters in
    choose occurred_at (select (λ c. is_some c.occurred_at) found) found

-- The events of a cluster
abbrev pub is_member : ℕ → List EventClusterMember → Event → Bool
is_member cluster_id members e =
    is_some (find (λ m. m.event_id == e.id && m.cluster_id == cluster_id) members)

-- `min(occurred_at)`, which leaves NULL out
unfoldable pub earliest : List Event → Option ℕ
earliest [] = none
earliest (e ∷ events) = elim e.occurred_at [
  | none ↦ earliest events
  | some t ↦ elim (earliest events) [ none ↦ some t | some s ↦ some (if ltb t s then t else s) ]
]

abbrev pub title_or_kept : Option Event → Text → Text
title_or_kept none title = title
title_or_kept (some e) title = strip e.title

unfoldable pub refreshed : List Event → List EventClusterMember → EventCluster → EventCluster
refreshed events members c =
    let own = select (is_member c.id members) events in
    record c {
      canonical_title = title_or_kept (first (order_by is_older_event own)) c.canonical_title;
      occurred_at = earliest own;
    }

abbrev pub has_id : ℕ → EventCluster → Bool
has_id i c = c.id == i

unfoldable pub refresh_canonical_values : EventCluster → LinkTables → Result LinkError LinkTables
refresh_canonical_values c db =
    let new = refreshed db.events db.members c in
    (raise_if (not (is_storable new)) database_error
      >> ok (record db { clusters = update (has_id c.id) (λ _. new) db.clusters }))

abbrev pub member_of : ℕ → EventClusterMember → Bool
member_of event_id m = m.event_id == event_id

module _ (nfkc casefold lower : Text → Text) where
  unfoldable pub normalize_event_title : Text → Text
  normalize_event_title title = casefold (strip (collapse false (nfkc title)))

  -- The new cluster of an event, where the ID and the time come from the database
  unfoldable pub new_cluster : ℕ → ℕ → Event → Option ℕ → EventCluster
  new_cluster new_id now e organization_id = record {
    id = new_id;
    event_type = lower (strip e.event_type);
    canonical_title = strip e.title;
    normalized_title = normalize_event_title e.title;
    occurred_at = e.occurred_at;
    organization_id = organization_id;
    created_at = now;
  }

  -- The cluster that is joined, whether it is new, and the clusters with it
  unfoldable pub cluster_for :
      ℕ
      → ℕ
      → Event
      → Option ℕ
      → LinkTables
      → Result LinkError (EventCluster × Bool × List EventCluster)
  cluster_for new_id now e organization_id db =
      elim (matching_cluster organization_id (lower (strip e.event_type))
        (normalize_event_title e.title) e.occurred_at db.clusters) [
          | some c ↦ ok (c, false, db.clusters)
          | none ↦
              let c = new_cluster new_id now e organization_id in
              (raise_if (is_some (find (has_id new_id) db.clusters) || not (is_storable c))
                  database_error
                >> ok (c, true, c ∷ db.clusters))
        ]

  -- The part of `_link` for an event in no cluster, with a title that is not too long
  unfoldable pub join_cluster :
      ℕ → ℕ → Event → LinkTables → Result LinkError (Option EventLink × LinkTables)
  join_cluster new_id now e db = do
    organization_id ← event_organization db e.id
    (c, created, clusters) ← cluster_for new_id now e organization_id db
    db' ← refresh_canonical_values c (record db {
      clusters = clusters;
      members = record { event_id = e.id; cluster_id = c.id } ∷ db.members;
    })
    ok (some (record { cluster_id = c.id; created_cluster = created }), db')

  unfoldable pub link_found :
      ℕ → ℕ → Event → LinkTables → Result LinkError (Option EventLink × LinkTables)
  link_found new_id now e db = elim (find (member_of e.id) db.members) [
    | some m ↦ ok (some (record { cluster_id = m.cluster_id; created_cluster = false }), db)
    | none ↦
        if leb (length (normalize_event_title e.title)) 500
        then join_cluster new_id now e db
        else ok (none, db)
  ]

  -- `link_event`
  unfoldable pub link_event :
      ℕ → ℕ → ℕ → LinkTables → Result LinkError (Option EventLink × LinkTables)
  link_event new_id now event_id db = elim (find (λ (e : Event). e.id == event_id) db.events) [
    | none ↦ ok (none, db)
    | some e ↦ link_found new_id now e db
  ]

  abbrev pub count_link : Option EventLink → ℕ × ℕ → ℕ × ℕ
  count_link none counted = counted
  count_link (some link) (linked, created) =
      (linked + 1, created + (if link.created_cluster then 1 else 0))

  -- The loop of `link_unclustered`: what was linked before an error that ends it stays.
  unfoldable pub link_each :
      (ℕ → ℕ) → ℕ → List ℕ → ℕ × ℕ → LinkTables → Result LinkError (ℕ × ℕ) × LinkTables
  link_each new_id now [] counted db = (ok counted, db)
  link_each new_id now (i ∷ ids) counted db = elim (link_event (new_id i) now i db) [
    | ok (link, db') ↦ link_each new_id now ids (count_link link counted) db'
    | err several_owners ↦ link_each new_id now ids counted db
    | err e ↦ (err e, db)
  ]

  abbrev pub is_unclustered : List EventClusterMember → Event → Bool
  is_unclustered members e = not (is_some (find (member_of e.id) members))

  unfoldable pub unclustered_ids : ℕ → LinkTables → List ℕ
  unclustered_ids limit db =
      map (λ (e : Event). e.id)
        (take limit (order_by is_older_event (select (is_unclustered db.members) db.events)))

  abbrev pub linking_result : ℕ → Result LinkError (ℕ × ℕ) → Result LinkError EventLinkingResult
  linking_result checked (err e) = err e
  linking_result checked (ok (linked, created)) =
      ok (record { events_checked = checked; events_linked = linked; clusters_created = created })

  unfoldable pub link_unclustered :
      (ℕ → ℕ) → ℕ → ℕ → LinkTables → Result LinkError EventLinkingResult × LinkTables
  link_unclustered new_id now limit db =
      let ids = unclustered_ids limit db in
      let (counted, db') = link_each new_id now ids (0, 0) db in
      if leb 1 limit then (linking_result (length ids) counted, db') else (err bad_limit, db)
