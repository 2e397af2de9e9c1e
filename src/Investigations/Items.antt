-- ===== src/Investigations/Items.antt =====
-- What is saved in an investigation (domain/investigations/item.py, the snapshot readers of service.py,
-- and references.py). A snapshot is a list of keys and values; `isoformat` is injective, and a time
-- stands for its text.
use signalscope.Shared.{
  ℕ, Bool, ◌&&◌, Option, none, some, List, [], ◌∷◌, ◌==◌, String, leb, is_some, if◌then◌else◌,
}
use signalscope.Shared.Text.{Text}
use signalscope.Shared.Rows.{find, select, count}
use signalscope.Content.{Content, Source, Document}
use signalscope.Tenancy.Scope.{
  ContentScope, or_unrestricted, owner_condition, source_condition, document_condition,
  chunk_condition,
}
use signalscope.Events.Model.{Event, EventEvidence, EventCluster, EventClusterMember}

pub data InvestigationItemType : Type 0 where
  source_item document_item event_item event_cluster_item : InvestigationItemType
  entity_item claim_item research_session_item : InvestigationItemType

pub data SnapshotValue : Type 0 where
  string : Text → SnapshotValue
  id_of number time : ℕ → SnapshotValue
  null : SnapshotValue

abbrev pub Snapshot : Type 0
Snapshot = List (String × SnapshotValue)

pub record InvestigationItem : Type 0 where
  pub id : ℕ
  pub investigation_id : ℕ
  pub item_type : InvestigationItemType
  pub reference_id : ℕ
  pub label : Option Text
  pub snapshot : Snapshot
  pub created_at : ℕ

-- The columns that snapshots and scopes read, of the rows of each table. Who owns a source, and the
-- source of a document, is in `Content`.
pub record SourceColumns : Type 0 where
  pub id : ℕ
  pub name : Text
  pub type : Text
  pub url : Option Text

pub record DocumentColumns : Type 0 where
  pub id : ℕ
  pub title : Option Text
  pub url : Option Text
  pub published_at : Option ℕ
  pub source_id : ℕ

pub record Entity : Type 0 where
  pub id : ℕ
  pub canonical_name : Text
  pub entity_type : Text

pub record EntityMention : Type 0 where
  pub entity_id : ℕ
  pub document_id : ℕ

pub record Claim : Type 0 where
  pub id : ℕ
  pub text : Text
  pub claim_type : Text

pub record ClaimEvidence : Type 0 where
  pub claim_id : ℕ
  pub chunk_id : ℕ

pub record ResearchSession : Type 0 where
  pub id : ℕ
  pub title : Option Text
  pub retrieval_mode : Text
  pub source_id : Option ℕ
  pub organization_id : Option ℕ

pub record ResearchTurn : Type 0 where
  pub session_id : ℕ
  pub created_at : ℕ

pub record Records : Type 0 where
  pub content : Content
  pub sources : List SourceColumns
  pub documents : List DocumentColumns
  pub events : List Event
  pub event_evidence : List EventEvidence
  pub event_clusters : List EventCluster
  pub event_cluster_members : List EventClusterMember
  pub entities : List Entity
  pub entity_mentions : List EntityMention
  pub claims : List Claim
  pub claim_evidence : List ClaimEvidence
  pub research_sessions : List ResearchSession
  pub research_turns : List ResearchTurn

-- `_time`
abbrev pub time_or_null : Option ℕ → SnapshotValue
time_or_null none = null
time_or_null (some t) = time t

abbrev pub string_or_null : Option Text → SnapshotValue
string_or_null none = null
string_or_null (some t) = string t

abbrev pub id_or_null : Option ℕ → SnapshotValue
id_or_null none = null
id_or_null (some i) = id_of i

abbrev pub when_found : {A : Type 0} → Option A → (A → Snapshot) → Option Snapshot
when_found none snapshot = none
when_found (some a) snapshot = some (snapshot a)

-- `max(created_at)`, which is NULL for no rows
unfoldable pub latest : List ResearchTurn → Option ℕ
latest [] = none
latest (t ∷ turns) = elim (latest turns) [
  | none ↦ some t.created_at
  | some m ↦ some (if leb t.created_at m then m else t.created_at)
]

unfoldable pub source_snapshot : SourceColumns → Snapshot
source_snapshot s =
    ("name", string s.name) ∷ ("source_type", string s.type) ∷ ("url", string_or_null s.url) ∷ []

unfoldable pub document_snapshot : DocumentColumns → Snapshot
document_snapshot d =
    ("title", string_or_null d.title)
    ∷ ("url", string_or_null d.url)
    ∷ ("published_at", time_or_null d.published_at)
    ∷ ("source_id", id_of d.source_id)
    ∷ []

unfoldable pub event_snapshot : Event → Snapshot
event_snapshot e =
    ("event_type", string e.event_type)
    ∷ ("title", string e.title)
    ∷ ("occurred_at", time_or_null e.occurred_at)
    ∷ []

unfoldable pub event_cluster_snapshot : EventCluster → Snapshot
event_cluster_snapshot c =
    ("event_type", string c.event_type)
    ∷ ("title", string c.canonical_title)
    ∷ ("occurred_at", time_or_null c.occurred_at)
    ∷ []

unfoldable pub entity_snapshot : Entity → Snapshot
entity_snapshot e =
    ("canonical_name", string e.canonical_name) ∷ ("entity_type", string e.entity_type) ∷ []

unfoldable pub claim_snapshot : Claim → Snapshot
claim_snapshot c = ("text", string c.text) ∷ ("claim_type", string c.claim_type) ∷ []

abbrev pub turns_of : ℕ → ResearchTurn → Bool
turns_of i t = t.session_id == i

unfoldable pub research_session_snapshot : Records → ResearchSession → Snapshot
research_session_snapshot r s =
    ("title", string_or_null s.title)
    ∷ ("retrieval_mode", string s.retrieval_mode)
    ∷ ("source_id", id_or_null s.source_id)
    ∷ ("turn_count", number (count (turns_of s.id) r.research_turns))
    ∷ ("latest_turn_at", time_or_null (latest (select (turns_of s.id) r.research_turns)))
    ∷ []

-- `SNAPSHOT_READERS`
unfoldable pub read_snapshot : Records → InvestigationItemType → ℕ → Option Snapshot
read_snapshot r source_item i =
    when_found (find (λ (s : SourceColumns). s.id == i) r.sources) source_snapshot
read_snapshot r document_item i =
    when_found (find (λ (d : DocumentColumns). d.id == i) r.documents) document_snapshot
read_snapshot r event_item i = when_found (find (λ (e : Event). e.id == i) r.events) event_snapshot
read_snapshot r event_cluster_item i =
    when_found (find (λ (c : EventCluster). c.id == i) r.event_clusters) event_cluster_snapshot
read_snapshot r entity_item i =
    when_found (find (λ (e : Entity). e.id == i) r.entities) entity_snapshot
read_snapshot r claim_item i = when_found (find (λ (c : Claim). c.id == i) r.claims) claim_snapshot
read_snapshot r research_session_item i =
    when_found (find (λ (s : ResearchSession). s.id == i) r.research_sessions)
      (research_session_snapshot r)

-- domain/events/repository.py: events with at least one piece of evidence in scope.
unfoldable pub visible_events : Records → ContentScope → ℕ → Bool
visible_events r s i = or_unrestricted s.kind (
    is_some (
      find (λ (e : EventEvidence). e.event_id == i && chunk_condition r.content s e.chunk_id)
        r.event_evidence))

-- `reference_in_scope`
unfoldable pub reference_in_scope : Records → InvestigationItemType → ℕ → ContentScope → Bool
reference_in_scope r source_item i s =
    is_some
      (find (λ (x : Source). x.id == i && owner_condition s x.organization_id) r.content.sources)
reference_in_scope r document_item i s = is_some (
    find (λ (d : Document). d.id == i && source_condition r.content s d.source_id)
      r.content.documents)
reference_in_scope r event_item i s =
    is_some (find (λ (e : Event). e.id == i && visible_events r s e.id) r.events)
reference_in_scope r event_cluster_item i s =
    is_some (find (λ (c : EventCluster). c.id == i) r.event_clusters)
    && is_some (
        find (λ (m : EventClusterMember). m.cluster_id == i && visible_events r s m.event_id)
          r.event_cluster_members)
reference_in_scope r entity_item i s =
    is_some (find (λ (e : Entity). e.id == i) r.entities)
    && is_some (
        find
          (λ (m : EntityMention). m.entity_id == i && document_condition r.content s m.document_id)
          r.entity_mentions)
reference_in_scope r claim_item i s =
    is_some (find (λ (c : Claim). c.id == i) r.claims)
    && is_some (
        find (λ (e : ClaimEvidence). e.claim_id == i && chunk_condition r.content s e.chunk_id)
          r.claim_evidence)
reference_in_scope r research_session_item i s = is_some (
    find (λ (x : ResearchSession). x.id == i && owner_condition s x.organization_id)
      r.research_sessions)
