-- ===== src/Events/Tests.antt =====
-- Three events of source 1 of organization 7: two report one flood, and one of them has no time.
use signalscope.Shared.{ℕ, ◌+◌, ◌≡◌, Option, refl, true, false, some, [], ◌∷◌, In, here, there, ok}
use signalscope.Shared.Text.{Text, codes, is_space, lstrip, rstrip, strip, text_eq}
use signalscope.Shared.Rows.{find, select, update, order_by, insert_by}
use signalscope.Content.{Content, get_chunk, get_document, get_source}
use signalscope.Events.Model.{Event, EventCluster}
use signalscope.Events.Linking.{
  EventLinkingResult, LinkTables, event_organization, owners_of, chunk_owner, add_distinct,
  link_event, link_found, link_each, link_unclustered, unclustered_ids, join_cluster, cluster_for,
  matching_cluster, matches, is_candidate, is_older, is_older_event, new_cluster, is_storable,
  is_blank, refreshed, refresh_canonical_values, earliest, normalize_event_title, collapse,
  is_member,
}
use signalscope.Events.Owners.{clusters_of_one_owner}
use signalscope.Events.Canonical.{linked_values, IsRefreshed, IsTitleOfOldest, IsFrom}
use signalscope.Events.Relinked.{link_twice}

abbrev as_is : Text → Text
as_is t = t

abbrev content : Content
content = record {
  sources = record { id = 1; organization_id = some 7 } ∷ [];
  documents = record { id = 11; source_id = 1 } ∷ [];
  chunks = record { id = 21; document_id = 11; position = 0 } ∷ [];
}

abbrev first_report : Event
first_report = record {
  id = 1;
  event_type = codes "flood";
  title = codes "Flood 2024";
  occurred_at = some 90_000;
  created_at = 10;
}

abbrev second_report : Event
second_report = record {
  id = 2;
  event_type = codes "flood ";
  title = codes " Flood  2024";
  occurred_at = some 100_000;
  created_at = 20;
}

abbrev tables : LinkTables
tables = record {
  content = content;
  events = second_report ∷ first_report ∷ [];
  evidence = record { event_id = 1; chunk_id = 21 } ∷ record { event_id = 2; chunk_id = 21 } ∷ [];
  clusters = [];
  members = [];
}

abbrev new_id : ℕ → ℕ
new_id i = 100 + i

abbrev linked : LinkTables
linked = (link_unclustered as_is as_is as_is new_id 500 10 tables).1

-- Both events stand in the cluster that the older one made.
both_linked :
    linked.members
    ≡ record { event_id = 2; cluster_id = 101 } ∷ record { event_id = 1; cluster_id = 101 } ∷ []
unfolding link_unclustered unclustered_ids link_each link_event link_found join_cluster cluster_for
    matching_cluster matches is_candidate is_older is_older_event new_cluster is_storable is_blank
    refreshed refresh_canonical_values earliest normalize_event_title collapse event_organization
    owners_of chunk_owner add_distinct get_chunk get_document get_source find select update order_by
    insert_by is_space lstrip rstrip strip text_eq
both_linked = refl

second_member : In (record { event_id = 2; cluster_id = 101 }) linked.members
second_member = rw both_linked (here refl)

first_member : In (record { event_id = 1; cluster_id = 101 }) linked.members
first_member = rw both_linked (there (here refl))

clusters_of_one_owner_example :
    (o : Option ℕ) × (event_organization linked 2 ≡ ok o) × (event_organization linked 1 ≡ ok o)
clusters_of_one_owner_example =
    clusters_of_one_owner as_is as_is as_is new_id 500 10 tables (tt, tt)
      (record { event_id = 2; cluster_id = 101 }) (record { event_id = 1; cluster_id = 101 })
      second_member first_member refl

linked_values_example :
    IsRefreshed linked
    × ((c : EventCluster) (e : Event)
        → In c linked.clusters
        → In e linked.events
        → is_member c.id linked.members e ≡ true
        → IsTitleOfOldest linked.events (is_member c.id linked.members) c.canonical_title
          × ((t : ℕ) → e.occurred_at ≡ some t → IsFrom c.occurred_at t))
linked_values_example = linked_values as_is as_is as_is new_id 500 10 tables tt

abbrev counts : EventLinkingResult
counts = record { events_checked = 2; events_linked = 2; clusters_created = 1 }

counted : (link_unclustered as_is as_is as_is new_id 500 10 tables).0 ≡ ok counts
unfolding link_unclustered unclustered_ids link_each link_event link_found join_cluster cluster_for
    matching_cluster matches is_candidate is_older is_older_event new_cluster is_storable is_blank
    refreshed refresh_canonical_values earliest normalize_event_title collapse event_organization
    owners_of chunk_owner add_distinct get_chunk get_document get_source find select update order_by
    insert_by is_space lstrip rstrip strip text_eq
counted = refl

linked_once :
    (db : LinkTables) × (link_event as_is as_is as_is 101 500 1 tables
      ≡ ok (some (record { cluster_id = 101; created_cluster = true }), db))
unfolding link_event link_found join_cluster cluster_for matching_cluster matches is_candidate
    is_older is_older_event new_cluster is_storable is_blank refreshed refresh_canonical_values
    earliest normalize_event_title collapse event_organization owners_of chunk_owner add_distinct
    get_chunk get_document get_source find select update order_by insert_by is_space lstrip rstrip
    strip text_eq
linked_once = (_, refl)

link_twice_example :
    link_event as_is as_is as_is 102 600 1 linked_once.0
    ≡ ok (some (record { cluster_id = 101; created_cluster = false }), linked_once.0)
link_twice_example = link_twice as_is as_is as_is 101 500 102 600 1 tables linked_once.1
