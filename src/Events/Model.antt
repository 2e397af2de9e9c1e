-- ===== src/Events/Model.antt =====
-- domain/events/model.py and domain/events/cluster.py, with the columns that other parts read.
-- Times are in seconds.
use signalscope.Shared.{ℕ, Option}
use signalscope.Shared.Text.{Text}

pub record Event : Type 0 where
  pub id : ℕ
  pub event_type : Text
  pub title : Text
  pub occurred_at : Option ℕ
  pub created_at : ℕ

pub record EventEvidence : Type 0 where
  pub event_id : ℕ
  pub chunk_id : ℕ

pub record EventCluster : Type 0 where
  pub id : ℕ
  pub event_type : Text
  pub canonical_title : Text
  pub normalized_title : Text
  pub occurred_at : Option ℕ
  pub organization_id : Option ℕ
  pub created_at : ℕ

-- The primary key is event_id.
pub record EventClusterMember : Type 0 where
  pub event_id : ℕ
  pub cluster_id : ℕ
