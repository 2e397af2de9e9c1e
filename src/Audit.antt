-- ===== src/Audit.antt =====
-- Security audit events (domain/audit/service.py). The details' keys are the ones that the service
-- allows, so the check for unknown keys has nothing to refuse.
use signalscope.Shared.{ℕ, Bool, Option, List, ◌∷◌, String}

pub data AuditAction : Type 0 where
  user_created user_deactivated user_reactivated : AuditAction
  login login_failed login_throttle_cleared logout logout_all : AuditAction
  password_changed admin_session_revoked admin_sessions_revoked : AuditAction
  organization_created member_added member_role_changed member_removed : AuditAction
  invitation_created invitation_revoked invitation_accepted : AuditAction
  collaborator_added collaborator_role_changed collaborator_removed : AuditAction
  operation_job_retried audit_retention_changed audit_retention_cleanup : AuditAction
  organization_export_created organization_export_cleanup : AuditAction
  organization_backup_policy_changed organization_backup_run : AuditAction
  organization_restore_run organization_dr_drill_run : AuditAction

pub data DetailKey : Type 0 where
  user_id role old_role new_role system_admin revoked_sessions : DetailKey
  queue retention_days deleted_count reason : DetailKey

pub data DetailValue : Type 0 where
  number : ℕ → DetailValue
  text : String → DetailValue
  flag : Bool → DetailValue
  null : DetailValue

pub record AuditEvent : Type 0 where
  pub action : AuditAction
  pub actor_user_id : Option ℕ
  pub resource_type : String
  pub resource_id : Option ℕ
  pub organization_id : Option ℕ
  pub details : List (DetailKey × DetailValue)

abbrev pub AuditLog : Type 0
AuditLog = List AuditEvent

-- `record` adds an event to the caller's transaction.
unfoldable pub record_event :
    AuditAction
    → Option ℕ
    → String
    → Option ℕ
    → Option ℕ
    → List (DetailKey × DetailValue)
    → AuditLog
    → AuditLog
record_event action actor type resource organization details log =
    record {
      action = action;
      actor_user_id = actor;
      resource_type = type;
      resource_id = resource;
      organization_id = organization;
      details = details;
    }
    ∷ log
