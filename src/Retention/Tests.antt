-- ===== src/Retention/Tests.antt =====
-- Organization 7 keeps its audit events for 30 days; two of its three events are older.
use signalscope.Shared.{
  ℕ, ◌≤◌, ◌+◌, ◌-◌, ◌*◌, ◌≡◌, refl, true, false, none, some, [], ◌∷◌, arith, In, ok, min,
}
use signalscope.Shared.Rows.{find, select, delete, order_by, insert_by, count}
use signalscope.Shared.Rows.Picked.{in_keys}
use signalscope.Audit.{login}
use signalscope.Retention.Service.{
  SecurityAuditEvent, RetentionTables, AuditCleanupResult, AuditRetentionPreview, check_view,
  check_change, get_policy_row, days_of, is_eligible, is_older, oldest, record_row, preview,
  cleanup,
}
use signalscope.Retention.Laws.{cleanup_exact, HasIds}
use signalscope.Shared.{List}
use signalscope.Retention.Refines.{PolicyCall, set_policies, days_kept, replay, set_policies_refine}
use signalscope.Retention.Emptied.{preview_is_deleted, cleanups_finish, run_cleanups, AreFresh}

abbrev seen : ℕ → ℕ → SecurityAuditEvent
seen i t = record {
  id = i;
  created_at = t;
  event = record {
    action = login;
    actor_user_id = some 1;
    resource_type = "user";
    resource_id = some 1;
    organization_id = some 7;
    details = [];
  };
}

abbrev tables : RetentionTables
tables = record {
  organizations = 7 ∷ [];
  members = [];
  policies = record { organization_id = 7; security_audit_days = some 30; updated_at = 1 } ∷ [];
  events = seen 1 10 ∷ seen 2 5_000_000 ∷ seen 3 5 ∷ [];
}

abbrev now : ℕ
now = 6_000_000

keys : HasIds tables.events
keys = ((refl, (refl, tt)), ((refl, tt), (tt, tt)))

cleaned : (a : AuditCleanupResult × RetentionTables) × (cleanup none 9 now 7 1 tables ≡ ok a)
unfolding cleanup check_view check_change get_policy_row find oldest select order_by insert_by
    is_eligible is_older delete count in_keys record_row
cleaned = (_, refl)

abbrev after : RetentionTables
after = cleaned.0.1

cleanup_exact_example :
    let may_go = is_eligible 7 cleaned.0.0.cutoff in
    (cleaned.0.0.deleted_count ≡ min 1 (count may_go tables.events))
    × (count may_go after.events + cleaned.0.0.deleted_count ≡ count may_go tables.events)
    × ((r : SecurityAuditEvent) → In r tables.events → may_go r ≡ false → In r after.events)
    × ((r p : SecurityAuditEvent)
        → In r tables.events
        → In r after.events
        → In p tables.events
        → may_go r ≡ true
        → (In p after.events → ⊥)
        → is_older r p ≡ false)
cleanup_exact_example = cleanup_exact none 9 now 7 1 tables keys cleaned.1

previewed : (v : AuditRetentionPreview) × (preview none now 7 tables ≡ ok v)
unfolding preview check_view get_policy_row find is_eligible count
previewed = (_, refl)

preview_is_deleted_example :
    (previewed.0.retention_days ≡ some cleaned.0.0.retention_days)
    × (previewed.0.cutoff ≡ some cleaned.0.0.cutoff)
    × (cleaned.0.0.deleted_count ≡ min 1 previewed.0.eligible_count)
preview_is_deleted_example =
    preview_is_deleted none none 9 now 7 1 tables keys previewed.1 cleaned.1

may_clean : (check_change none 7 tables ≡ ok tt) × (days_of (get_policy_row 7 tables) ≡ some 30)
unfolding check_change check_view get_policy_row find
may_clean = (refl, refl)

fresh : AreFresh (8 ∷ 9 ∷ []) tables.events
unfolding find
fresh = (refl, (refl, tt), (refl, tt, tt))

two_to_go : count (is_eligible 7 (now - 30 * 86_400)) tables.events ≤ 2 * 1
unfolding count is_eligible
two_to_go = ground arith

cleanups_finish_example :
    count (is_eligible 7 (now - 30 * 86_400)) (run_cleanups none now 7 1 (8 ∷ 9 ∷ []) tables).events
    ≡ 0
cleanups_finish_example =
    cleanups_finish none now 7 1 30 (omega arith) (8 ∷ 9 ∷ []) tables may_clean keys fresh two_to_go

abbrev calls : List PolicyCall
calls =
    record { actor = none; new_id = 8; now = now; organization_id = 7; days = some 10 }
    ∷ record { actor = none; new_id = 9; now = now; organization_id = 7; days = some 60 }
    ∷ []

set_policies_refine_example :
    days_kept (set_policies calls tables) 7 ≡ replay tables calls (days_kept tables) 7
set_policies_refine_example = set_policies_refine calls tables 7
