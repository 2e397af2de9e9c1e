-- ===== src/Tenancy/Agreement.antt =====
-- Broad queries beside the checks of a single resource (domain/tenancy/policy.py).
use signalscope.Shared.{
  ℕ, ◌≡◌, ◌⊎◌, ◌↔◌, refl, inl, inr, true, false, Option, none, some, arith, String, ok, Bool-cases,
  Option-cases, Result-cases,
}
use signalscope.Shared.Rows.Laws.{tested}
use signalscope.Content.{Source, Document, get_source, get_document, source_organization}
use signalscope.Organizations.Model.{User, Membership, get_membership}
use signalscope.Tenancy.Scope.{
  ContentScope, organization_scope, legacy_scope, allows, or_unrestricted, document_condition,
}
use signalscope.Tenancy.Policy.{
  document_not_found, organization_not_found, ContentCapability, has_capability, Directory,
  active_actor, check_role, organization_exists, scope_of, scope, require_active, require,
  authorize_document,
}
use signalscope.Tenancy.Visible.{
  HasKeys, Made, all_content, of_organization, of_legacy, document_condition-eq,
}

module _ (db : Directory) where
  -- A user who may use the organization's content: a system admin, or a member whose role allows it.
  abbrev pub MayUse : User → ℕ → ContentCapability → Type 0
  MayUse u i capability =
      (u.is_system_admin ≡ true)
      ⊎ ((m : Membership) × (get_membership i u.id db.members ≡ some m)
          × (has_capability m.role capability ≡ true))

  pub check_role_iff :
      (u : User) (i : ℕ) (capability : ContentCapability) (message : _)
      → (check_role db u i capability message ≡ ok tt) ↔ MayUse u i capability
  unfolding check_role
  check_role_iff u i capability message = (to, from)
    where
      to : check_role db u i capability message ≡ ok tt → MayUse u i capability
      to h = elim (Bool-cases u.is_system_admin) [
        | inl a ↦ inl a
        | inr n ↦ elim (Option-cases (get_membership i u.id db.members)) [
          | inl e ↦ absurd (ground arith)
          | inr (m, e) ↦ elim (Bool-cases (has_capability m.role capability)) [
            | inl y ↦ inr (m, e, y)
            | inr f ↦ absurd (ground arith)
          ]
        ]
      ]

      from : MayUse u i capability → check_role db u i capability message ≡ ok tt
      from (inl a) = rw a
      from (inr (m, e, y)) = ground arith

  -- Why a signed-in user is given a scope: a system admin who names no organization gets legacy
  -- content; whoever may use an organization that exists gets that organization's content.
  abbrev pub ScopeGiven : User → Option ℕ → ContentCapability → ContentScope → Type 0
  ScopeGiven u i capability s =
      ((i ≡ none) × (u.is_system_admin ≡ true) × (s ≡ legacy_scope))
      ⊎ ((o : ℕ) × (i ≡ some o)
          × (organization_exists db o ≡ true)
          × MayUse u o capability
          × (s ≡ organization_scope o))

  pub scope_of-given :
      (u : User) (i : Option ℕ) (capability : ContentCapability) (s : ContentScope)
      → scope_of db (some u) i capability ≡ ok s
      → ScopeGiven u i capability s
  unfolding scope_of
  scope_of-given u none capability s h = elim (Bool-cases u.is_system_admin) [
    | inl a ↦ inl (refl, a, ground arith)
    | inr n ↦ absurd (ground arith)
  ]
  scope_of-given u (some o) capability s h = elim (Bool-cases (organization_exists db o)) [
    | inr n ↦ absurd (ground arith)
    | inl e ↦ elim (Result-cases (check_role db u o capability organization_not_found)) [
      | inl (tt', k) ↦
          inr (o, refl, e, (check_role_iff u o capability organization_not_found).0 k, ground arith)
      | inr (x, k) ↦ absurd (ground arith)
    ]
  ]

  given-scope_of :
      (u : User) (i : Option ℕ) (capability : ContentCapability) (s : ContentScope)
      → ScopeGiven u i capability s
      → scope_of db (some u) i capability ≡ ok s
  unfolding scope_of
  given-scope_of u none capability s (inl (_, a, e)) = rw (a, e)
  given-scope_of u none capability s (inr (o, e, _, _, _)) = absurd (ground arith)
  given-scope_of u (some i) capability s (inl (e, _, _)) = absurd (ground arith)
  given-scope_of u (some i) capability s (inr (o, e, x, may, q)) =
      let same : i ≡ o = ground arith in
      rw (same, x, (check_role_iff u o capability organization_not_found).1 may, q)

  pub scope_active :
      (u : User) (i : Option ℕ) (capability : ContentCapability)
      → u.is_active ≡ true
      → scope db (some u) i capability ≡ scope_of db (some u) i capability
  unfolding scope active_actor
  scope_active u i capability active = simp active

  pub require_active_lem :
      (u : User) (i : Option ℕ) (capability : ContentCapability) (message : String)
      → u.is_active ≡ true
      → require db (some u) i capability message ≡ require_active db (some u) i capability message
  unfolding require active_actor
  require_active_lem u i capability message active = simp active

  -- An active, signed-in user is given a scope for a broad query exactly when `ScopeGiven` says so:
  -- legacy content for a system admin who names no organization, and otherwise the content of the
  -- named organization, which exists, for a system admin or a member whose role has the capability.
  pub scope_exact :
      (u : User) (i : Option ℕ) (capability : ContentCapability) (s : ContentScope)
      → u.is_active ≡ true
      → (scope db (some u) i capability ≡ ok s) ↔ ScopeGiven u i capability s
  scope_exact u i capability s active = (
    (λ h. scope_of-given u i capability s (rw (scope_active u i capability active) at h)),
    (λ g. rw (scope_active u i capability active) (given-scope_of u i capability s g)),
  )

  -- Whom the user may not see is not found.
  module _ (keys : HasKeys db.content) where
    -- The scope allows the owner of a document that its condition shows.
    shown_owner :
        (s : ContentScope) (i : ℕ) (d : Document)
        → Made s
        → or_unrestricted s.kind false ≡ false
        → get_document db.content i ≡ some d
        → document_condition db.content s i ≡ true
        → source_organization db.content d.source_id ≡ s.organization_id
    unfolding source_organization
    shown_owner s i d made limited e h =
        let allowed = rw (document_condition-eq db.content keys s i made, e) at h in
        go s d made limited (get_source db.content d.source_id) allowed
      where
        go :
            (s : ContentScope) (d : Document)
            → Made s
            → or_unrestricted s.kind false ≡ false
            → (o : Option Source)
            → or_unrestricted s.kind (tested (λ (r : Source). allows s r.organization_id) o) ≡ true
            → (elim o [ none ↦ none | some r ↦ r.organization_id ]) ≡ s.organization_id
        go _ d all_content limited o h = absurd (ground arith)
        go _ d (of_organization k) limited o h = unfold allows in ground arith
        go _ d of_legacy limited o h = unfold allows in ground arith

    -- Where IDs are unique, a document that a broad query may show, to a user for whom a scope was given, can be read by
    -- that user on its own, with any capability for which the scope was given; also with
    -- authentication off, where there is no user.
    pub listed_can_be_opened :
        (actor : Option User) (i : Option ℕ) (capability : ContentCapability) (s : ContentScope)
        (k : ℕ) (d : Document)
        → scope db actor i capability ≡ ok s
        → get_document db.content k ≡ some d
        → document_condition db.content s k ≡ true
        → authorize_document db actor k capability ≡ ok d
    unfolding authorize_document require_active
    listed_can_be_opened none i capability s k d h e shown =
        rw e (unfold require active_actor in refl)
    listed_can_be_opened (some u) i capability s k d h e shown = elim (Bool-cases u.is_active) [
      | inr n ↦ absurd (unfold scope active_actor in ground arith)
      | inl active ↦
          elim (scope_of-given u i capability s (rw (scope_active u i capability active) at h)) [
            | inl (_, a, q) ↦
                let own = shown_owner legacy_scope k d of_legacy refl e (rw q at shown) in
                rw (e, require_active_lem u _ capability document_not_found active, own, a)
            | inr (o, _, x, may, q) ↦
                let own =
                  shown_owner (organization_scope o) k d (of_organization o) refl e
                    (rw q at shown) in
                rw (
                  e,
                  require_active_lem u _ capability document_not_found active,
                  own,
                  (check_role_iff u o capability document_not_found).1 may,
                )
          ]
    ]
