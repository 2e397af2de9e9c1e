-- ===== src/Organizations/Owners.antt =====
-- The owners of an organization, over sequences of membership changes (domain/organizations/service.py).
use signalscope.Shared.{
  ℕ, ◌≤◌, ◌≡◌, refl, inl, inr, Bool, true, false, not, ◌&&◌, some, List, [], ◌∷◌, arith, ◌==◌, All,
  All-of, Result, ok, err, Bool-cases, Result-cases,
}
use signalscope.Shared.Rows.{count}
use signalscope.Shared.Rows.Kept.{kept-update, kept-delete}
use signalscope.Shared.Rows.Laws.{find-In}
use signalscope.Shared.Rows.Counts.{count-update_same, count-delete-le, count_of_none, found_speaks}
use signalscope.Organizations.Model.{
  User, OrganizationRole, is_owner, Membership, has_key, get_membership,
}
use signalscope.Organizations.Changes.{added, changed, removed}
use signalscope.Organizations.Members.{
  OrganizationTables, OrganizationError, owners, is_owner_of, add_member, change_member_role,
  remove_member, with_role,
}

-- (organization_id, user_id) is a primary key.
abbrev pub HasKeys : List Membership → Type 0
HasKeys members = (o u : ℕ) → count (has_key o u) members ≤ 1

module _ (o u : ℕ) (members : List Membership) (keys : HasKeys members) {m : Membership}
    (found : get_membership o u members ≡ some m) where
  -- What the row that was found lacks, no row with its key has.
  pub speaks :
      (q : Membership → Bool) → q m ≡ false → All (λ s. has_key o u s ≡ true → q s ≡ false) members
  unfolding get_membership
  speaks q n = found_speaks (has_key o u) q members (keys o u) found n

-- The guards of an organization, as guards of any: the row that was found is one of `k`.
module _ (o k u : ℕ) (m : Membership) (members : List Membership)
    (found : get_membership k u members ≡ some m) where
  same_organization : is_owner_of o m ≡ true → (k ≡ o) × (is_owner m.role ≡ true)
  unfolding get_membership
  same_organization own =
      let (fits, _) = find-In (has_key k u) members found in (ground arith, ground arith)

  change-guard :
      (r : OrganizationRole)
      → (is_owner m.role && not (is_owner r) ≡ true → 2 ≤ owners k members)
      → is_owner_of o m ≡ true
      → is_owner_of o (with_role r m) ≡ false
      → 2 ≤ count (is_owner_of o) members
  unfolding with_role owners
  change-guard r guard own lost =
      let (same, is) = same_organization own in rw (← same) (guard (ground arith))

  remove-guard :
      (is_owner m.role ≡ true → 2 ≤ owners k members)
      → is_owner_of o m ≡ true
      → 2 ≤ count (is_owner_of o) members
  unfolding owners
  remove-guard guard own = let (same, is) = same_organization own in rw (← same) (guard is)

-- The membership changes, in any order; one that raises changes nothing.
pub data MemberOp : Type 0 where
  add change : User → ℕ → ℕ → OrganizationRole → MemberOp
  remove : User → ℕ → ℕ → MemberOp

abbrev pub or_kept :
    OrganizationTables → Result OrganizationError OrganizationTables → OrganizationTables
or_kept db (ok db') = db'
or_kept db (err e) = db

abbrev pub apply : MemberOp → OrganizationTables → Result OrganizationError OrganizationTables
apply (add actor o u r) db = add_member actor o u r db
apply (change actor o u r) db = change_member_role actor o u r db
apply (remove actor o u) db = remove_member actor o u db

unfoldable pub apply_all : List MemberOp → OrganizationTables → OrganizationTables
apply_all [] db = db
apply_all (op ∷ ops) db = apply_all ops (or_kept db (apply op db))

apply-HasKeys :
    (op : MemberOp) (db : OrganizationTables) {db' : OrganizationTables}
    → apply op db ≡ ok db'
    → HasKeys db.members
    → HasKeys db'.members
unfolding get_membership
apply-HasKeys (add actor k u r) db h keys =
    let (_, absent, e) = added actor k u r db h in
    rw e λ o v. new o v (keys o v) (count_of_none (has_key k u) db.members absent)
  where
    new :
        (o v : ℕ)
        → count (has_key o v) db.members ≤ 1
        → count (has_key k u) db.members ≡ 0
        → count (has_key o v) (record { organization_id = k; user_id = u; role = r } ∷ db.members)
          ≤ 1
    new o v c z =
        unfold count in
        elim (Bool-cases (k == o && u == v)) [
          | inr n ↦ rw n c
          | inl y ↦
              let same : k ≡ o = ground arith in
              let same' : u ≡ v = ground arith in rw y (omega (arith, rw (same, same') at z))
        ]
apply-HasKeys (change actor k u r) db h keys =
    let (m, _, _, _, e) = changed actor k u r db h in
    rw e λ o v.
      rw
        (count-update_same (has_key k u) (has_key o v) (with_role r) db.members
          (All-of (λ s _. unfold with_role in refl) db.members))
        (keys o v)
apply-HasKeys (remove actor k u) db h keys =
    let (m, _, _, _, e) = removed actor k u db h in
    rw e λ o v. omega (arith, count-delete-le (has_key k u) (has_key o v) db.members, keys o v)

apply-owners :
    (op : MemberOp) (db : OrganizationTables) {db' : OrganizationTables} (o : ℕ)
    → apply op db ≡ ok db'
    → HasKeys db.members
    → 1 ≤ owners o db.members
    → 1 ≤ owners o db'.members
unfolding owners get_membership
apply-owners (add actor k u r) db o h keys own =
    let (_, _, e) = added actor k u r db h in rw e (unfold count in ground arith)
apply-owners (change actor k u r) db o h keys own =
    let (m, found, _, guard, e) = changed actor k u r db h in
    rw e (
      kept-update (has_key k u) (is_owner_of o) db.members (keys k u) found own (with_role r)
        (change-guard o k u m db.members found r guard))
apply-owners (remove actor k u) db o h keys own =
    let (m, found, _, guard, e) = removed actor k u db h in
    rw e (
      kept-delete (has_key k u) (is_owner_of o) db.members (keys k u) found own
        (remove-guard o k u m db.members found guard))

-- Whatever membership changes are asked for, by whomever and in whatever order, an organization that
-- has an owner keeps one, where the primary key of memberships holds.
pub always_an_owner :
    (ops : List MemberOp) (db : OrganizationTables) (o : ℕ)
    → HasKeys db.members
    → 1 ≤ owners o db.members
    → 1 ≤ owners o (apply_all ops db).members
unfolding apply_all
always_an_owner [] db o keys own = own
always_an_owner (op ∷ ops) db o keys own = elim (Result-cases (apply op db)) [
  | inl (db', e) ↦
      rw (apply_all, e)
        (always_an_owner ops db' o (apply-HasKeys op db e keys) (apply-owners op db o e keys own))
  | inr (x, e) ↦ rw (apply_all, e) (always_an_owner ops db o keys own)
]
