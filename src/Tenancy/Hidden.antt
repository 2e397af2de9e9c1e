-- ===== src/Tenancy/Hidden.antt =====
-- What the policy hides, and who owns new content.
use signalscope.Shared.{
  ℕ, ◌≡◌, ◌⊎◌, refl, inl, inr, true, false, Option, none, some, arith, ok, err, Bool-cases,
  Result-cases, String,
}
use signalscope.Content.{Document, get_document, source_organization}
use signalscope.Organizations.Model.{User, get_membership}
use signalscope.Tenancy.Policy.{
  not_found, document_not_found, ContentCapability, Directory, active_actor, check_role,
  organization_exists, scope, require_active, authorize_document, new_content_owner, owner_of_new,
}
use signalscope.Tenancy.Agreement.{MayUse, scope_of-given, scope_active, require_active_lem}

module _ (db : Directory) where
  -- The user has no way to the content: legacy content is for system admins, and an organization's is
  -- for its members and for system admins.
  abbrev pub IsOutside : User → Option ℕ → Type 0
  IsOutside u none = u.is_system_admin ≡ false
  IsOutside u (some i) = (u.is_system_admin ≡ false) × (get_membership i u.id db.members ≡ none)

  require-IsOutside :
      (u : User) (i : Option ℕ) (capability : ContentCapability) (message : String)
      → IsOutside u i
      → require_active db (some u) i capability message ≡ err (not_found message)
  unfolding require_active check_role
  require-IsOutside u none capability message h = rw h
  require-IsOutside u (some i) capability message h = rw (h.0, h.1)

  -- To an active user outside its organization a document that exists gets the very answer of one
  -- that does not, for every capability.
  pub hidden_is_not_found :
      (u : User) (i k : ℕ) (d : Document) (capability : ContentCapability)
      → u.is_active ≡ true
      → get_document db.content i ≡ some d
      → IsOutside u (source_organization db.content d.source_id)
      → get_document db.content k ≡ none
      → (authorize_document db (some u) i capability ≡ err (not_found document_not_found))
        × (authorize_document db (some u) k capability
            ≡ authorize_document db (some u) i capability)
  unfolding authorize_document
  hidden_is_not_found u i k d capability active e out gone =
      let o = source_organization db.content d.source_id in
      let hidden : authorize_document db (some u) i capability
          ≡ err (not_found document_not_found) =
        rw (
          e,
          require_active_lem db u o capability document_not_found active,
          require-IsOutside u o capability document_not_found out,
        ) in
      (hidden, rw hidden (rw gone))

  -- With authentication on, new content always gets an owner: the organization that the active user
  -- named, which exists and which the user may use with the capability. With it off, new content has
  -- no owner, and to name one is an error.
  new_content_has_owner :
      (actor : Option User) (i : Option ℕ) (capability : ContentCapability) (owner : Option ℕ)
      → new_content_owner db actor i capability ≡ ok owner
      → ((actor ≡ none) × (i ≡ none) × (owner ≡ none))
        ⊎ ((u : User) × (k : ℕ) × (actor ≡ some u)
            × (u.is_active ≡ true)
            × (i ≡ some k)
            × (owner ≡ some k)
            × (organization_exists db k ≡ true)
            × MayUse db u k capability)
  unfolding new_content_owner active_actor owner_of_new
  new_content_has_owner none none capability owner h = inl (refl, refl, ground arith)
  new_content_has_owner none (some i) capability owner h = absurd (ground arith)
  new_content_has_owner (some u) none capability owner h = absurd (ground arith)
  new_content_has_owner (some u) (some k) capability owner h = elim (Bool-cases u.is_active) [
    | inr n ↦ absurd (ground arith)
    | inl active ↦ elim (Result-cases (scope db (some u) (some k) capability)) [
      | inr (x, e) ↦ absurd (ground arith)
      | inl (s, e) ↦
          elim (scope_of-given db u (some k) capability s
            (rw (scope_active db u (some k) capability active) at e)) [
              | inl (none_named, _, _) ↦ absurd (ground arith)
              | inr (o, same, there, may, _) ↦
                  let q : o ≡ k = ground arith in
                  inr (u, k, refl, active, refl, ground arith, rw (← q) there, rw (← q) may)
            ]
    ]
  ]
