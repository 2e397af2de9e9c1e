-- ===== src/Investigations/Listed.antt =====
-- The list of investigations and the making of one (domain/investigations/service.py), and the check
-- of permissions (domain/investigations/access.py).
use signalscope.Shared.{
  ℕ, zero, suc, ◌≡◌, ◌↔◌, refl, sym, ◌∙◌, inl, inr, Bool, true, Option, none, some, List, [], ◌∷◌,
  arith, In, ok, Option-cases, length, take, ◌≤◌,
}
use signalscope.Shared.Text.{Text}
use signalscope.Shared.Rows.{find, select, order_by}
use signalscope.Shared.Rows.Laws.{Unique, In-select, In-of_In-select, find-In, length-select}
use signalscope.Shared.Rows.Keys.{find-Unique}
use signalscope.Shared.Rows.Order.{In-order_by, In-of_In-order_by, In-of_In-take, length-order_by}
use signalscope.Organizations.Model.{User, get_membership}
use signalscope.Investigations.Access.{
  Investigation, InvestigationStatus, InvestigationPermission, view, permissions,
  signed_in_permissions, permissions_for, require_permission, visible_to, get_collaborator,
  collaborator_permissions, is_full_access,
}
use signalscope.Investigations.Visible.{visible_to-permissions, HasKeys}
use signalscope.Investigations.Service.{
  ServiceTables, has_id, get, is_listed, list_page, is_newer, create, new_investigation,
  check_organization, with_owner, has_status, in_organization,
}
use signalscope.Investigations.ServiceLaws.{got, created}

take-all {ℓ} : {A : Type ℓ} (n : ℕ) (rows : List A) → length rows ≤ n → take n rows ≡ rows
take-all zero [] h = refl
take-all zero (r ∷ rows) h = absurd (omega arith)
take-all (suc n) [] h = refl
take-all (suc n) (r ∷ rows) h = rw (take-all n rows (omega arith))

module _ (actor : User) (db : ServiceTables) (keys : HasKeys db.members)
    (ids : Unique (λ (x : Investigation). x.id) db.investigations) where
  readable :
      (row : Investigation)
      → In row db.investigations
      → visible_to db.members db.collaborators actor row ≡ true
      → get (some actor) row.id view db ≡ ok row
  unfolding get require_permission
  readable row i seen =
      let may = sym (visible_to-permissions db.members db.collaborators actor row keys) ∙ seen in
      rw (find-Unique (λ (x : Investigation). x.id) db.investigations row ids i, may) refl

  module _ (status : Option InvestigationStatus) (o : Option ℕ) where
    listed : Investigation → Bool
    listed = is_listed (some actor) status o db

    -- With unique IDs and the primary key of memberships: the first page, if its limit is not below
    -- the total, holds exactly the investigations that fit the filters and that the signed in actor
    -- can get by their IDs.
    pub listed_iff_readable :
        (limit : ℕ) (row : Investigation)
        → (list_page (some actor) status limit 0 o db).1 ≤ limit
        → In row (list_page (some actor) status limit 0 o db).0 ↔ (
            (get (some actor) row.id view db ≡ ok row)
            × (has_status status row ≡ true)
            × (in_organization o row ≡ true))
    unfolding list_page listed is_listed
    listed_iff_readable limit row fits =
        let all : take limit (order_by is_newer (select listed db.investigations))
            ≡ order_by is_newer (select listed db.investigations) =
          take-all limit (order_by is_newer (select listed db.investigations)) (
            omega (
              arith,
              fits,
              length-order_by is_newer (select listed db.investigations),
              length-select listed db.investigations,
            )) in
        (
          (λ i.
              let (y, j) = In-of_In-select listed db.investigations (
                In-of_In-order_by is_newer (select listed db.investigations)
                  (In-of_In-take limit (order_by is_newer (select listed db.investigations)) i)) in
              (readable row j (ground arith), ground arith, ground arith)),
          (λ (g, s, k).
              let (f, may) = got (some actor) row.id view db g in
              let seen : visible_to db.members db.collaborators actor row ≡ true =
                visible_to-permissions db.members db.collaborators actor row keys ∙ may in
              rw all (
                In-order_by is_newer (select listed db.investigations) (
                  In-select listed db.investigations (find-In (has_id row.id) db.investigations f).1
                    (rw (s, k, seen) refl)))),
        )

owner_may :
    (actor : User) (new_id now : ℕ) (title : Text) (description : Option Text) (o : Option ℕ)
    (db : ServiceTables)
    → check_organization (some actor) o db ≡ ok tt
    → (p : InvestigationPermission)
    → permissions db.members
        (with_owner (some actor) new_id db.collaborators)
        (some actor)
        (new_investigation (some actor) new_id now title description o)
        p
      ≡ true
unfolding check_organization permissions signed_in_permissions permissions_for with_owner
    new_investigation get_collaborator find collaborator_permissions is_full_access
owner_may actor new_id now title description none db h p = absurd (ground arith)
owner_may actor new_id now title description (some o) db h p =
    elim (Option-cases (get_membership o actor.id db.members)) [
      | inl e ↦ ground arith
      | inr (m, e) ↦ ground arith
    ]

-- Who makes an investigation, signed in, can get it with every permission.
creator_may :
    (actor : User) (new_id now : ℕ) (title : Text) (description : Option Text) (o : Option ℕ)
    (db : ServiceTables) {a : Investigation × ServiceTables}
    → create (some actor) new_id now title description o db ≡ ok a
    → (p : InvestigationPermission) → get (some actor) new_id p a.1 ≡ ok a.0
unfolding get require_permission
creator_may actor new_id now title description o db {a} h p =
    let (c, free, q) = created (some actor) db new_id now title description o h in
    let may = owner_may actor new_id now title description o db c in
    let row = new_investigation (some actor) new_id now title description o in
    let found : find (has_id new_id) (row ∷ db.investigations) ≡ some row =
      unfold find new_investigation in ground arith in
    rw q (rw (found, may view, may p) refl)
