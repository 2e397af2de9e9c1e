-- ===== src/Events/Owners.antt =====
-- The owners of linked events and of their clusters (domain/events/linking.py).
use signalscope.Shared.{
  ℕ, ◌≡◌, ◌∙◌, refl, inl, inr, Option, some, List, ◌∷◌, ◌==◌, arith, All, All-map, In, ok,
  Bool-cases,
}
use signalscope.Shared.Text.{Text}
use signalscope.Shared.Rows.{find, update}
use signalscope.Shared.Rows.Laws.{Unique, All-In}
use signalscope.Shared.Rows.Keys.{Unique-update}
use signalscope.Shared.Rows.Elsewhere.{find-update_elsewhere, find-update_to}
use signalscope.Events.Model.{Event, EventCluster, EventClusterMember}
use signalscope.Events.Linking.{
  EventLink, LinkTables, event_organization, refreshed, has_id, join_cluster, link_unclustered,
}
use signalscope.Events.LinkLaws.{joins, joined, link_unclustered_keeps}

-- The cluster of a member is there and has the owner of the member's evidence.
abbrev pub IsOwnedAlike : LinkTables → EventClusterMember → Type 0
IsOwnedAlike db m =
    (c : EventCluster) × (find (has_id m.cluster_id) db.clusters ≡ some c)
    × (event_organization db m.event_id ≡ ok c.organization_id)

abbrev pub IsPure : LinkTables → Type 0
IsPure db = Unique (λ (c : EventCluster). c.id) db.clusters × All (IsOwnedAlike db) db.members

-- A refreshed cluster is found as before, with its owner.
found_refreshed :
    (new c : EventCluster) (clusters : List EventCluster) (i : ℕ) (x : EventCluster)
    → new.id ≡ c.id
    → new.organization_id ≡ c.organization_id
    → find (has_id c.id) clusters ≡ some c
    → find (has_id i) clusters ≡ some x
    → (y : EventCluster) × (find (has_id i) (update (has_id c.id) (λ _. new) clusters) ≡ some y)
      × (y.organization_id ≡ x.organization_id)
found_refreshed new c clusters i x same owner f g = elim (Bool-cases (c.id == i)) [
  | inl y ↦
      let at : c.id ≡ i = ground arith in
      let found = rw at at f in
      let is : c ≡ x = ground arith in
      (
        new,
        rw (← at) (find-update_to (has_id c.id) new clusters c f (ground arith)),
        rw (← is) owner,
      )
  | inr n ↦ (
    x,
    find-update_elsewhere (has_id c.id) (has_id i) (λ _. new) clusters
          (λ s y. (ground arith, ground arith))
        ∙ g,
    refl,
  )
]

module _ (nfkc casefold lower : Text → Text) where
  join_cluster-IsPure :
      (new_id now : ℕ) (e : Event) (db : LinkTables) (a : Option EventLink × LinkTables)
      → join_cluster nfkc casefold lower new_id now e db ≡ ok a
      → IsPure db
      → IsPure a.1
  join_cluster-IsPure new_id now e db a h (u, pure) =
      let (o, owner, c, created, clusters, made, q) =
        joined nfkc casefold lower new_id now e db h in
      let (owned, ids, found, kept) = joins nfkc casefold lower new_id now e db o made u in
      let new =
        refreshed db.events (record { event_id = e.id; cluster_id = c.id } ∷ db.members) c in
      let lookup : (i : ℕ) (x : EventCluster)
          → find (has_id i) clusters ≡ some x
          → (y : EventCluster) × (find (has_id i) (update (has_id c.id) (λ _. new) clusters)
              ≡ some y)
            × (y.organization_id ≡ x.organization_id) =
        λ i x f.
          found_refreshed new c clusters i x (unfold refreshed in refl) (unfold refreshed in refl)
            found f in
      let (x, g, same) = lookup c.id c found in
      rw q (
        Unique-update (λ y. y.id) (has_id c.id) (λ _. new) clusters
            (λ r y. unfold refreshed in ground arith) ids,
        (
          (x, g, rw (same, owned) (unfold event_organization in owner)),
          All-map
              (λ m (d, f, own).
                let (y, k, alike) = lookup m.cluster_id d (kept m.cluster_id d f) in
                (y, k, rw alike (unfold event_organization in own)))
              db.members pure,
        ),
      )

  -- Where the IDs of clusters are unique and each member of a cluster has evidence of the cluster's
  -- owner alone: this stays so when events that are in no cluster are linked, up to any limit.
  pub link_unclustered-IsPure :
      (new_id : ℕ → ℕ) (now limit : ℕ) (db : LinkTables)
      → IsPure db
      → IsPure (link_unclustered nfkc casefold lower new_id now limit db).1
  link_unclustered-IsPure =
      link_unclustered_keeps nfkc casefold lower IsPure
        (λ new_id now e db a i free h pure. join_cluster-IsPure new_id now e db a h pure)

  -- Where the IDs of clusters are unique, and each event that is in a cluster already has evidence of
  -- that cluster's owner alone: when events that are in no cluster have been linked, up to any limit, any
  -- two events of one cluster have evidence of one and the same owner.
  pub clusters_of_one_owner :
      (new_id : ℕ → ℕ) (now limit : ℕ) (db : LinkTables)
      → IsPure db
      → let after = (link_unclustered nfkc casefold lower new_id now limit db).1 in
        (m n : EventClusterMember)
        → In m after.members
        → In n after.members
        → m.cluster_id ≡ n.cluster_id
        → (o : Option ℕ) × (event_organization after m.event_id ≡ ok o)
          × (event_organization after n.event_id ≡ ok o)
  clusters_of_one_owner new_id now limit db pure m n i j same =
      let after = (link_unclustered nfkc casefold lower new_id now limit db).1 in
      let all = (link_unclustered-IsPure new_id now limit db pure).1 in
      let (c, f, own) = All-In (IsOwnedAlike after) all i in
      let (d, g, other) = All-In (IsOwnedAlike after) all j in
      let one : c ≡ d = ground (arith, rw same at f) in (c.organization_id, own, rw one other)
