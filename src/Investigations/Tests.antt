-- ===== src/Investigations/Tests.antt =====
-- An investigation of organization 7 with one owner.
use signalscope.Shared.{ℕ, ◌≤◌, ◌≡◌, ◌↔◌, refl, true, false, none, some, List, [], ◌∷◌, arith, ok}
use signalscope.Shared.Text.{codes}
use signalscope.Shared.Rows.{find, count}
use signalscope.Organizations.Model.{User, member, viewer, Membership, get_membership}
use signalscope.Investigations.Access.{
  Collaborator, owner_role, Investigation, open_status, view, visible_to, permissions,
  require_permission, signed_in_permissions, permissions_for, get_collaborator, is_full_access,
  collaborator_permissions,
}
use signalscope.Investigations.Visible.{visible_to-permissions}
use signalscope.Investigations.Members.{InvestigationTables, investigation_owners}
use signalscope.Investigations.Ownership.{
  CollaboratorOp, add, remove, apply_all, HasKeys, investigation_keeps_owner,
}
use signalscope.Shared.{In, Bool}
use signalscope.Shared.Rows.{select}
use signalscope.Tenancy.Scope.{owner_condition, owned_by}
use signalscope.Investigations.Access.{closed_status}
use signalscope.Investigations.Items.{
  InvestigationItem, Records, research_session_item, reference_in_scope, read_snapshot,
  research_session_snapshot, latest,
}
use signalscope.Investigations.Service.{
  ServiceTables, create, check_organization, is_storable_title, is_blank, with_owner,
  new_investigation, get, get_open, list_page, is_listed, has_status, in_organization,
  status_change,
}
use signalscope.Investigations.Saving.{save_research_session, add_item}
use signalscope.Investigations.Operations.{ServiceOp, save_op, update_op, add_op, run_ops}
use signalscope.Investigations.Closed.{IsShut, closed_stays}
use signalscope.Investigations.Saved.{IsSavedOnce, run_ops-IsSavedOnce, save_again}
use signalscope.Investigations.Listed.{listed_iff_readable}

abbrev user : ℕ → User
user i = record {
  id = i;
  email = codes "x@example.org";
  normalized_email = codes "x@example.org";
  is_active = true;
  is_system_admin = false;
}

abbrev members : List Membership
members =
    record { organization_id = 7; user_id = 1; role = member }
    ∷ record { organization_id = 7; user_id = 2; role = viewer }
    ∷ []

abbrev study : Investigation
study = record {
  id = 90;
  title = codes "Floods";
  description = none;
  status = open_status;
  organization_id = some 7;
  created_by_user_id = some 1;
  created_at = 5;
}

abbrev owned : List Collaborator
owned = record { investigation_id = 90; user_id = 1; role = owner_role } ∷ []

abbrev tables : InvestigationTables
tables = record {
  users = user 1 ∷ user 2 ∷ [];
  members = members;
  investigations = study ∷ [];
  collaborators = owned;
  audit = [];
}

member_keys : signalscope.Investigations.Visible.HasKeys members
unfolding count
member_keys o u = ground arith

keyed : HasKeys owned
unfolding count
keyed i u = ground arith

-- The only owner asks to leave, then makes another member an owner, and leaves.
abbrev handover : List CollaboratorOp
handover = remove (user 1) 90 1 ∷ add (user 1) 90 2 owner_role ∷ remove (user 1) 90 1 ∷ []

investigation_keeps_owner_example :
    1 ≤ investigation_owners 90 (apply_all handover tables).collaborators
investigation_keeps_owner_example =
    investigation_keeps_owner handover tables 90 keyed
      (unfold investigation_owners count in ground arith)

-- The tables of the service, with one record to save: a research session of organization 7.
abbrev desk : ServiceTables
desk = record {
  organizations = 7 ∷ [];
  members = members;
  investigations = study ∷ [];
  collaborators = owned;
  items = [];
}

abbrev records : Records
records = record {
  content = record { sources = []; documents = []; chunks = [] };
  sources = [];
  documents = [];
  events = [];
  event_evidence = [];
  event_clusters = [];
  event_cluster_members = [];
  entities = [];
  entity_mentions = [];
  claims = [];
  claim_evidence = [];
  research_sessions =
      record {
        id = 40;
        title = none;
        retrieval_mode = codes "hybrid";
        source_id = none;
        organization_id = some 7;
      }
      ∷ [];
  research_turns = record { session_id = 40; created_at = 6 } ∷ [];
}

saved_first :
    (a : InvestigationItem × Bool × ServiceTables) × (save_research_session
        (some (user 1))
        500
        9
        90
        40
        records
        desk
      ≡ ok a)
unfolding save_research_session add_item get_open get require_permission permissions
    signed_in_permissions permissions_for get_collaborator get_membership find is_full_access
    collaborator_permissions reference_in_scope owner_condition owned_by read_snapshot
    research_session_snapshot count select latest
saved_first = (_, refl)

-- The session is gone when it is saved again.
abbrev later_records : Records
later_records = record records { research_sessions = [] }

save_again_example :
    save_research_session (some (user 1)) 501 10 90 40 later_records saved_first.0.2
    ≡ ok (saved_first.0.0, false, saved_first.0.2)
save_again_example =
    save_again (some (user 1)) 500 9 90 records desk 40 501 10 later_records saved_first.0
      saved_first.1

abbrev work : List ServiceOp
work =
    save_op (some (user 1)) 500 9 90 40 records
    ∷ update_op (some (user 1)) 90 (status_change closed_status)
    ∷ add_op (some (user 1)) 501 10 90 research_session_item 40 none records
    ∷ []

none_saved : IsSavedOnce desk
unfolding count
none_saved i type reference = omega arith

run_ops-IsSavedOnce_example : IsSavedOnce (run_ops work desk)
run_ops-IsSavedOnce_example = run_ops-IsSavedOnce work desk none_saved

abbrev closed_study : Investigation
closed_study = record study { status = closed_status }

abbrev closed_desk : ServiceTables
closed_desk = record desk { investigations = closed_study ∷ [] }

shut : IsShut 90 closed_study [] closed_desk
unfolding find select
shut = (refl, refl, tt)

closed_stays_example : IsShut 90 closed_study [] (run_ops work closed_desk)
closed_stays_example =
    closed_stays 90 closed_study [] refl work closed_desk (refl, (refl, (refl, tt))) shut

only_one : (list_page (some (user 1)) none 20 0 none desk).1 ≤ 20
unfolding list_page count is_listed visible_to find get_collaborator is_full_access
only_one = ground arith

listed_iff_readable_example : In study (list_page (some (user 1)) none 20 0 none desk).0 ↔ (
    (get (some (user 1)) 90 view desk ≡ ok study)
    × (has_status none study ≡ true)
    × (in_organization none study ≡ true))
listed_iff_readable_example =
    listed_iff_readable (user 1) desk member_keys (tt, tt) none none 20 study only_one

made :
    (a : Investigation × ServiceTables) × (create
        (some (user 2))
        91
        9
        (codes "Fires")
        none
        (some 7)
        desk
      ≡ ok a)
unfolding create check_organization find get_membership is_storable_title is_blank with_owner
    new_investigation
made = (_, refl)
