-- ===== src/Events/Relinked.antt =====
-- Linking an event again (domain/events/linking.py, link_event).
use signalscope.Shared.{
  ℕ, ◌≡◌, refl, ap, inl, inr, false, Option, some, ◌∷◌, ◌==◌, arith, ok, leb, length, Bool-cases,
  Option-cases,
}
use signalscope.Shared.Text.{Text}
use signalscope.Shared.Rows.{find}
use signalscope.Events.Model.{Event, EventClusterMember}
use signalscope.Events.Linking.{
  EventLink, LinkTables, member_of, link_found, link_event, normalize_event_title,
}
use signalscope.Events.LinkLaws.{joined}

module _ (nfkc casefold lower : Text → Text) where
  -- The member that a link reports is there, and the events are as they were.
  linked_member :
      (new_id now : ℕ) (e : Event) (db : LinkTables) {link : EventLink} {db' : LinkTables}
      → link_found nfkc casefold lower new_id now e db ≡ ok (some link, db')
      → (db'.events ≡ db.events)
        × (m : EventClusterMember) × (find (member_of e.id) db'.members ≡ some m)
        × (m.cluster_id ≡ link.cluster_id)
  unfolding link_found
  linked_member new_id now e db {link} {db'} h =
      elim (Option-cases (find (member_of e.id) db.members)) [
        | inr (m, g) ↦
            let same : db ≡ db' = ground arith in
            let is : record { cluster_id = m.cluster_id; created_cluster = false } ≡ link =
              ground arith in
            rw (← same, ← is) (refl, m, g, refl)
        | inl g ↦
            elim (Bool-cases
              (leb (length (normalize_event_title nfkc casefold lower e.title)) 500)) [
                | inr n ↦ absurd (ground arith)
                | inl y ↦
                    let (o, owner, c, created, clusters, made, q) =
                      joined nfkc casefold lower new_id now e db {a = (some link, db')}
                        (ground arith) in
                    let m : EventClusterMember = record { event_id = e.id; cluster_id = c.id } in
                    let members : db'.members ≡ m ∷ db.members =
                      ap (λ (a : Option EventLink × LinkTables). a.1.members) q in
                    let found : find (member_of e.id) (m ∷ db.members) ≡ some m =
                      unfold find in ground arith in
                    (
                      ap (λ (a : Option EventLink × LinkTables). a.1.events) q,
                      m,
                      rw members found,
                      ground arith,
                    )
              ]
      ]

  -- An event that was linked keeps its cluster: to link it again returns the same cluster, makes none,
  -- and changes nothing.
  pub link_twice :
      (new_id now later_id later i : ℕ) (db : LinkTables) {link : EventLink} {db' : LinkTables}
      → link_event nfkc casefold lower new_id now i db ≡ ok (some link, db')
      → link_event nfkc casefold lower later_id later i db'
        ≡ ok (some (record { cluster_id = link.cluster_id; created_cluster = false }), db')
  unfolding link_event link_found
  link_twice new_id now later_id later i db {link} {db'} h =
      elim (Option-cases (find (λ (e : Event). e.id == i) db.events)) [
        | inl f ↦ absurd (ground (arith, rw (link_event, f) at h))
        | inr (e, f) ↦
            let (events, m, g, same) = linked_member new_id now e db (rw (link_event, f) at h) in
            let still : find (λ (x : Event). x.id == i) db'.events ≡ some e = rw events f in
            rw (link_event, still, link_found, g, same) refl
      ]
