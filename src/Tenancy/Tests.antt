-- ===== src/Tenancy/Tests.antt =====
-- The tenancy theorems in a directory of two organizations.
use signalscope.Shared.{◌≡◌, ◌↔◌, refl, true, false, some, [], ◌∷◌, arith, ok, err}
use signalscope.Shared.Text.{codes}
use signalscope.Shared.Rows.{find}
use signalscope.Content.{Content, get_document, get_source, source_organization}
use signalscope.Organizations.Model.{User, member, get_membership}
use signalscope.Tenancy.Scope.{
  organization_scope, document_condition, source_condition, owner_condition,
}
use signalscope.Tenancy.Policy.{
  Directory, read, contribute, scope, scope_of, active_actor, check_role, has_capability,
  organization_exists, authorize_document, new_content_owner, owner_of_new, not_found,
  document_not_found,
}
use signalscope.Tenancy.Visible.{HasKeys}
use signalscope.Tenancy.Agreement.{ScopeGiven, scope_exact, listed_can_be_opened}
use signalscope.Tenancy.Hidden.{hidden_is_not_found}

abbrev library : Content
library = record {
  sources =
      record { id = 1; organization_id = some 7 }
      ∷ record { id = 2; organization_id = some 8 }
      ∷ [];
  documents = record { id = 11; source_id = 1 } ∷ record { id = 12; source_id = 2 } ∷ [];
  chunks = [];
}

abbrev ada : User
ada = record {
  id = 3;
  email = codes "ada@example.org";
  normalized_email = codes "ada@example.org";
  is_active = true;
  is_system_admin = false;
}

abbrev directory : Directory
directory = record {
  content = library;
  organizations = 7 ∷ 8 ∷ [];
  members = record { organization_id = 7; user_id = 3; role = member } ∷ [];
}

keyed : HasKeys library
keyed = ground arith

scope_exact_example :
    (scope directory (some ada) (some 7) contribute ≡ ok (organization_scope 7))
    ↔ ScopeGiven directory ada (some 7) contribute (organization_scope 7)
scope_exact_example = scope_exact directory ada (some 7) contribute (organization_scope 7) refl

given : scope directory (some ada) (some 7) contribute ≡ ok (organization_scope 7)
unfolding scope active_actor scope_of organization_exists find check_role get_membership
    has_capability
given = refl

listed_can_be_opened_example :
    authorize_document directory (some ada) 11 contribute ≡ ok (record { id = 11; source_id = 1 })
unfolding get_document find document_condition source_condition owner_condition
listed_can_be_opened_example =
    listed_can_be_opened directory keyed (some ada) (some 7) contribute (organization_scope 7) 11
      (record { id = 11; source_id = 1 }) given refl refl

hidden_is_not_found_example :
    (authorize_document directory (some ada) 12 read ≡ err (not_found document_not_found))
    × (authorize_document directory (some ada) 99 read
        ≡ authorize_document directory (some ada) 12 read)
unfolding get_document find source_organization get_source get_membership
hidden_is_not_found_example =
    hidden_is_not_found directory ada 12 99 (record { id = 12; source_id = 2 }) read refl refl
      (refl, refl) refl

owned : new_content_owner directory (some ada) (some 7) contribute ≡ ok (some 7)
unfolding new_content_owner owner_of_new scope active_actor scope_of organization_exists find
    check_role get_membership has_capability
owned = refl
