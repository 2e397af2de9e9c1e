-- ===== src/Retention/Service.antt =====
-- domain/retention/service.py and model.py. Each operation is one transaction, and an error rolls it
-- back; `none` as the actor is the local command line. Times are in seconds: a time before the first
-- one is cut to it, where no event is, so a cutoff below it selects nothing either way.
use signalscope.Shared.{
  ℕ, ◌-◌, ◌*◌, Bool, true, false, not, ◌&&◌, ◌||◌, Option, none, some, List, [], ◌∷◌, ◌==◌, ltb,
  leb, String, Result, ok, err, ◌>>=◌, ◌>>◌, raise_if, some_or_raise, is_some, if◌then◌else◌, take,
  map,
}
use signalscope.Shared.Rows.{find, select, update, delete, order_by, count}
use signalscope.Shared.Rows.Picked.{in_keys}
use signalscope.Tenancy.Scope.{same, sql_same}
use signalscope.Audit.{
  AuditAction, audit_retention_changed, audit_retention_cleanup, AuditEvent, DetailKey, DetailValue,
  number, null,
}
use signalscope.Organizations.Model.{
  User, OrganizationRole, owner, admin, Membership, get_membership,
}

pub data RetentionError : Type 0 where
  invalid_input not_found conflict : String → RetentionError
  forbidden : String → RetentionError

abbrev pub min_security_audit_days : ℕ
min_security_audit_days = 30

abbrev pub max_security_audit_days : ℕ
max_security_audit_days = 3650

-- A row of the table of audit events, with the columns that the database makes
pub record SecurityAuditEvent : Type 0 where
  pub id : ℕ
  pub created_at : ℕ
  pub event : AuditEvent

-- The primary key is organization_id.
pub record RetentionPolicy : Type 0 where
  pub organization_id : ℕ
  pub security_audit_days : Option ℕ
  pub updated_at : ℕ

pub record RetentionTables : Type 0 where
  pub organizations : List ℕ
  pub members : List Membership
  pub policies : List RetentionPolicy
  pub events : List SecurityAuditEvent

pub record RetentionPolicyView : Type 0 where
  pub organization_id : ℕ
  pub security_audit_days : Option ℕ
  pub updated_at : Option ℕ

pub record AuditRetentionPreview : Type 0 where
  pub organization_id : ℕ
  pub retention_days : Option ℕ
  pub cutoff : Option ℕ
  pub eligible_count : ℕ

pub record AuditCleanupResult : Type 0 where
  pub organization_id : ℕ
  pub retention_days : ℕ
  pub cutoff : ℕ
  pub deleted_count : ℕ

abbrev pub view_role : OrganizationRole → Bool
view_role owner = true
view_role admin = true
view_role _ = false

-- What `_check_view` asks of a signed in actor who is no system admin
abbrev pub check_membership : Option Membership → Result RetentionError (Unit {0})
check_membership none = err (not_found "Organization was not found.")
check_membership (some m) =
    raise_if (not (view_role m.role))
      (forbidden "Only organization owners and admins can see audit retention.")

unfoldable pub check_view : Option User → ℕ → RetentionTables → Result RetentionError (Unit {0})
check_view actor o db =
    (raise_if (not (is_some (find (λ i. i == o) db.organizations)))
        (not_found "Organization was not found.")
      >> elim actor [
        | none ↦ ok tt
        | some u ↦
            if u.is_system_admin then ok tt else check_membership (get_membership o u.id db.members)
      ])

abbrev pub may_change : Option User → Bool
may_change none = true
may_change (some u) = u.is_system_admin

unfoldable pub check_change : Option User → ℕ → RetentionTables → Result RetentionError (Unit {0})
check_change actor o db =
    (check_view actor o db
      >> raise_if (not (may_change actor))
          (forbidden "Only system admins can change audit retention or delete audit events."))

abbrev pub policy_of : ℕ → RetentionPolicy → Bool
policy_of o p = p.organization_id == o

-- `_policy`
unfoldable pub get_policy_row : ℕ → RetentionTables → Option RetentionPolicy
get_policy_row o db = find (policy_of o) db.policies

-- `_view`
abbrev pub policy_view : ℕ → Option RetentionPolicy → RetentionPolicyView
policy_view o none = record { organization_id = o; security_audit_days = none; updated_at = none }
policy_view o (some p) = record {
  organization_id = o;
  security_audit_days = p.security_audit_days;
  updated_at = some p.updated_at;
}

unfoldable pub get_policy :
    Option User → ℕ → RetentionTables → Result RetentionError RetentionPolicyView
get_policy actor o db = check_view actor o db >> ok (policy_view o (get_policy_row o db))

abbrev pub days_of : Option RetentionPolicy → Option ℕ
days_of none = none
days_of (some p) = p.security_audit_days

abbrev pub number_or_null : Option ℕ → DetailValue
number_or_null none = null
number_or_null (some n) = number n

abbrev pub id_of : Option User → Option ℕ
id_of none = none
id_of (some u) = some u.id

-- The row of the event that `record` of the audit service adds
abbrev pub audit_row :
    AuditAction → Option User → ℕ → ℕ → ℕ → List (DetailKey × DetailValue) → SecurityAuditEvent
audit_row action actor new_id now o details = record {
  id = new_id;
  created_at = now;
  event = record {
    action = action;
    actor_user_id = id_of actor;
    resource_type = "organization";
    resource_id = some o;
    organization_id = some o;
    details = details;
  };
}

unfoldable pub record_row :
    AuditAction
    → Option User
    → ℕ
    → ℕ
    → ℕ
    → List (DetailKey × DetailValue)
    → List SecurityAuditEvent
    → List SecurityAuditEvent
record_row action actor new_id now o details events =
    audit_row action actor new_id now o details ∷ events

abbrev pub is_bad_days : Option ℕ → Bool
is_bad_days none = false
is_bad_days (some d) = not (leb min_security_audit_days d && leb d max_security_audit_days)

-- The row with the days: a row that has them already is not written, so its time stays.
unfoldable pub with_days : ℕ → Option ℕ → RetentionPolicy → RetentionPolicy
with_days now days p = record p {
  security_audit_days = days;
  updated_at = if same p.security_audit_days days then p.updated_at else now;
}

abbrev pub new_policy : ℕ → ℕ → Option ℕ → RetentionPolicy
new_policy now o days = record { organization_id = o; security_audit_days = days; updated_at = now }

abbrev pub row_set : ℕ → ℕ → Option ℕ → Option RetentionPolicy → RetentionPolicy
row_set now o days none = new_policy now o days
row_set now o days (some p) = with_days now days p

unfoldable pub set_policy :
    Option User
    → ℕ
    → ℕ
    → ℕ
    → Option ℕ
    → RetentionTables
    → Result RetentionError (RetentionPolicyView × RetentionTables)
set_policy actor new_id now o days db = do
  check_change actor o db
  raise_if (is_bad_days days) (
      invalid_input
        "security_audit_days must be between 30 and 3650, or null to keep events indefinitely.")
  (let row = row_set now o days (get_policy_row o db) in
      let policies =
        if is_some (get_policy_row o db)
        then update (policy_of o) (λ _. row) db.policies
        else row ∷ db.policies in
      ok (
        policy_view o (some row),
        record db {
          policies = policies;
          events =
              record_row audit_retention_changed actor new_id now o
                ((DetailKey.retention_days, number_or_null days) ∷ []) db.events;
        },
      ))

-- `self.clock() - timedelta(days=days)`
abbrev pub cutoff_at : ℕ → ℕ → ℕ
cutoff_at now days = now - days * 86_400

unfoldable pub is_eligible : ℕ → ℕ → SecurityAuditEvent → Bool
is_eligible o cutoff r = sql_same r.event.organization_id (some o) && ltb r.created_at cutoff

abbrev pub preview_days : ℕ → ℕ → Option ℕ → List SecurityAuditEvent → AuditRetentionPreview
preview_days now o none events = record {
  organization_id = o;
  retention_days = none;
  cutoff = none;
  eligible_count = 0;
}
preview_days now o (some d) events = record {
  organization_id = o;
  retention_days = some d;
  cutoff = some (cutoff_at now d);
  eligible_count = count (is_eligible o (cutoff_at now d)) events;
}

unfoldable pub preview :
    Option User → ℕ → ℕ → RetentionTables → Result RetentionError AuditRetentionPreview
preview actor now o db =
    check_view actor o db >> ok (preview_days now o (days_of (get_policy_row o db)) db.events)

-- ORDER BY created_at, id
unfoldable pub is_older : SecurityAuditEvent → SecurityAuditEvent → Bool
is_older a b = ltb a.created_at b.created_at || (a.created_at == b.created_at && ltb a.id b.id)

unfoldable pub oldest : ℕ → ℕ → ℕ → List SecurityAuditEvent → List SecurityAuditEvent
oldest o cutoff limit events = take limit (order_by is_older (select (is_eligible o cutoff) events))

-- DELETE … WHERE id IN (oldest)
abbrev pub is_picked : List SecurityAuditEvent → SecurityAuditEvent → Bool
is_picked picked r = in_keys (map (λ (p : SecurityAuditEvent). p.id) picked) r.id

unfoldable pub cleanup :
    Option User
    → ℕ
    → ℕ
    → ℕ
    → ℕ
    → RetentionTables
    → Result RetentionError (AuditCleanupResult × RetentionTables)
cleanup actor new_id now o limit db = do
  raise_if (ltb limit 1) (invalid_input "limit must be at least 1.")
  check_change actor o db
  days ←
      some_or_raise (days_of (get_policy_row o db))
        (conflict "This organization keeps its audit events indefinitely, so nothing is deleted.")
  (let picked = oldest o (cutoff_at now days) limit db.events in
      let deleted = count (is_picked picked) db.events in
      ok (
        record {
          organization_id = o;
          retention_days = days;
          cutoff = cutoff_at now days;
          deleted_count = deleted;
        },
        record db {
          events =
              record_row audit_retention_cleanup actor new_id now o
                ((DetailKey.deleted_count, number deleted)
                  ∷ (DetailKey.retention_days, number days)
                  ∷ [])
                (delete (is_picked picked) db.events);
        },
      ))
