-- ===== src/Tenancy/Policy.antt =====
-- domain/tenancy/policy.py
use signalscope.Shared.{
  ℕ, Bool, true, false, not, Option, none, some, List, ◌==◌, String, if◌then◌else◌, Result, ok, err,
  ◌>>=◌, ◌>>◌, raise_if, some_or_raise, is_some,
}
use signalscope.Shared.Rows.{find}
use signalscope.Content.{Content, Source, Document, get_source, get_document, source_organization}
use signalscope.Organizations.Model.{
  User, OrganizationRole, owner, admin, member, viewer, Membership, get_membership,
}
use signalscope.Tenancy.Scope.{
  ContentScope, unrestricted_scope, organization_scope, legacy_scope, owned_by,
}

pub data PolicyError : Type 0 where
  unauthenticated : PolicyError
  invalid_input not_found forbidden : String → PolicyError

abbrev pub organization_required : String
organization_required = "organization_id is required."

abbrev pub organization_needs_auth : String
organization_needs_auth = "organization_id can only be set when authentication is enabled."

abbrev pub organization_not_found : String
organization_not_found = "Organization was not found."

abbrev pub not_allowed : String
not_allowed = "Your role in this organization does not allow this."

pub data ContentCapability : Type 0 where
  read contribute manage : ContentCapability

-- `capability in ROLE_CAPABILITIES[role]`
unfoldable pub has_capability : OrganizationRole → ContentCapability → Bool
has_capability viewer read = true
has_capability viewer _ = false
has_capability member manage = false
has_capability member _ = true
has_capability admin _ = true
has_capability owner _ = true

-- The tables that the policy reads.
pub record Directory : Type 0 where
  pub content : Content
  pub organizations : List ℕ
  pub members : List Membership

unfoldable pub active_actor : Option User → Result PolicyError (Option User)
active_actor none = ok none
active_actor (some u) = if u.is_active then ok (some u) else err unauthenticated

abbrev pub check_membership :
    Option Membership → ContentCapability → String → Result PolicyError (Unit {0})
check_membership none capability not_found_message = err (not_found not_found_message)
check_membership (some m) capability not_found_message =
    raise_if (not (has_capability m.role capability)) (forbidden not_allowed)

unfoldable pub check_role :
    Directory → User → ℕ → ContentCapability → String → Result PolicyError (Unit {0})
check_role db actor organization_id capability message =
    if actor.is_system_admin
    then ok tt
    else check_membership (get_membership organization_id actor.id db.members) capability message

unfoldable pub organization_exists : Directory → ℕ → Bool
organization_exists db i = is_some (find (λ o. o == i) db.organizations)

-- `scope`, once the actor is known to be active
unfoldable pub scope_of :
    Directory → Option User → Option ℕ → ContentCapability → Result PolicyError ContentScope
scope_of db none organization_id capability = ok unrestricted_scope
scope_of db (some u) none capability =
    if u.is_system_admin then ok legacy_scope else err (invalid_input organization_required)
scope_of db (some u) (some i) capability = do
  raise_if (not (organization_exists db i)) (not_found organization_not_found)
  check_role db u i capability organization_not_found
  ok (organization_scope i)

unfoldable pub scope :
    Directory → Option User → Option ℕ → ContentCapability → Result PolicyError ContentScope
scope db actor organization_id capability = do
  active ← active_actor actor
  scope_of db active organization_id capability

unfoldable pub owner_of_new :
    Directory
    → Option User
    → Option User
    → Option ℕ
    → ContentCapability
    → Result PolicyError (Option ℕ)
owner_of_new db actor none (some i) capability = err (invalid_input organization_needs_auth)
owner_of_new db actor none none capability = ok none
owner_of_new db actor (some u) none capability = err (invalid_input organization_required)
owner_of_new db actor (some u) (some i) capability = do
  _ ← scope db actor (some i) capability
  ok (some i)

unfoldable pub new_content_owner :
    Directory → Option User → Option ℕ → ContentCapability → Result PolicyError (Option ℕ)
new_content_owner db actor organization_id capability = do
  active ← active_actor actor
  owner_of_new db actor active organization_id capability

unfoldable pub require_active :
    Directory → Option User → Option ℕ → ContentCapability → String → Result PolicyError (Unit {0})
require_active db none organization_id capability message = ok tt
require_active db (some u) none capability message =
    raise_if (not u.is_system_admin) (not_found message)
require_active db (some u) (some i) capability message = check_role db u i capability message

unfoldable pub require :
    Directory → Option User → Option ℕ → ContentCapability → String → Result PolicyError (Unit {0})
require db actor organization_id capability message = do
  active ← active_actor actor
  require_active db active organization_id capability message

abbrev pub source_not_found : String
source_not_found = "Source was not found."

unfoldable pub authorize_source :
    Directory → Option User → ℕ → ContentCapability → Result PolicyError Source
authorize_source db actor source_id capability = do
  s ← some_or_raise (get_source db.content source_id) (not_found source_not_found)
  require db actor s.organization_id capability source_not_found
  ok s

unfoldable pub resource_scope : Option User → Option ℕ → Result PolicyError ContentScope
resource_scope actor organization_id = do
  active ← active_actor actor
  ok (if is_some active then owned_by organization_id else unrestricted_scope)

abbrev pub document_not_found : String
document_not_found = "Document was not found."

-- `document_organization` reads the source of a document row.
unfoldable pub authorize_document :
    Directory → Option User → ℕ → ContentCapability → Result PolicyError Document
authorize_document db actor document_id capability = do
  d ← some_or_raise (get_document db.content document_id) (not_found document_not_found)
  require db actor (source_organization db.content d.source_id) capability document_not_found
  ok d

unfoldable pub check_source_filter :
    Directory → Option User → Option ℕ → Result PolicyError (Unit {0})
check_source_filter db actor none = ok tt
check_source_filter db actor (some i) = do
  active ← active_actor actor
  if is_some active then (do _ ← authorize_source db actor i read; ok tt) else ok tt
