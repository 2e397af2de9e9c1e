-- ===== src/Retention/Refines.antt =====
-- The retention policies (domain/retention/service.py, set_policy and get_policy) and a function from
-- organizations to days, which they implement.
use signalscope.Shared.{
  ℕ, ◌≡◌, ◌∙◌, refl, inl, inr, Bool, true, not, ◌&&◌, Option, some, List, [], ◌∷◌, ◌==◌, arith,
  Result, ok, err, is_raised, is_some, if◌then◌else◌, Bool-cases, Option-cases, Result-cases,
}
use signalscope.Shared.Rows.{find, update}
use signalscope.Shared.Rows.Laws.{find-In}
use signalscope.Shared.Rows.Elsewhere.{find-update_to, find-update_elsewhere}
use signalscope.Organizations.Model.{User}
use signalscope.Retention.Service.{
  RetentionTables, RetentionPolicy, check_view, check_change, policy_of, get_policy_row, days_of,
  is_bad_days, set_policy, row_set, with_days,
}

pub record PolicyCall : Type 0 where
  pub actor : Option User
  pub new_id : ℕ
  pub now : ℕ
  pub organization_id : ℕ
  pub days : Option ℕ

abbrev pub or_kept :
    {A E : Type 0} → RetentionTables → Result E (A × RetentionTables) → RetentionTables
or_kept db (ok (view, db')) = db'
or_kept db (err e) = db

-- Calls of set_policy, where a refused one changes nothing
unfoldable pub set_policies : List PolicyCall → RetentionTables → RetentionTables
set_policies [] db = db
set_policies (c ∷ calls) db =
    set_policies calls (or_kept db (set_policy c.actor c.new_id c.now c.organization_id c.days db))

-- The days that an organization keeps its events; none is for ever.
abbrev pub days_kept : RetentionTables → ℕ → Option ℕ
days_kept db o = days_of (get_policy_row o db)

abbrev pub is_allowed : RetentionTables → PolicyCall → Bool
is_allowed db c =
    not (is_raised (check_change c.actor c.organization_id db)) && not (is_bad_days c.days)

abbrev pub assigned : (ℕ → Option ℕ) → ℕ → Option ℕ → ℕ → Option ℕ
assigned kept o days i = if o == i then days else kept i

-- The same calls, on a function
abbrev pub replay : RetentionTables → List PolicyCall → (ℕ → Option ℕ) → ℕ → Option ℕ
replay db [] kept = kept
replay db (c ∷ calls) kept =
    replay db calls
      (λ i. if is_allowed db c then assigned kept c.organization_id c.days i else kept i)

written :
    (o : ℕ) (row : RetentionPolicy) (policies : List RetentionPolicy) (i : ℕ)
    → policy_of o row ≡ true
    → find (policy_of i) (
        if is_some (find (policy_of o) policies)
        then update (policy_of o) (λ _. row) policies
        else row ∷ policies)
      ≡ (if o == i then some row else find (policy_of i) policies)
written o row policies i is = elim (Option-cases (find (policy_of o) policies)) [
  | inl e ↦ rw e (unfold find in ground arith)
  | inr (old, e) ↦ elim (Bool-cases (o == i)) [
    | inl y ↦
        let same : o ≡ i = ground arith in
        rw (e, y) (rw (← same) (find-update_to (policy_of o) row policies old e is))
    | inr n ↦
        rw (e, n)
          (find-update_elsewhere (policy_of o) (policy_of i) (λ _. row) policies
            (λ s y. (ground arith, ground arith)))
  ]
]

-- The row that is written is the organization's, with the days.
row_set-days :
    (now o : ℕ) (days : Option ℕ) (db : RetentionTables)
    → let row = row_set now o days (get_policy_row o db) in
      (policy_of o row ≡ true) × (row.security_audit_days ≡ days)
unfolding get_policy_row with_days
row_set-days now o days db = elim (Option-cases (find (policy_of o) db.policies)) [
  | inl e ↦ rw e (ground arith, refl)
  | inr (p, e) ↦ rw e ((find-In (policy_of o) db.policies e).0, refl)
]

-- One call, on the tables: what is kept then, and that who may change policies is as before.
called :
    (c : PolicyCall) (db : RetentionTables)
    → let db' = or_kept db (set_policy c.actor c.new_id c.now c.organization_id c.days db) in
      ((i : ℕ)
        → days_kept db' i ≡ (
            if is_allowed db c
            then assigned (days_kept db) c.organization_id c.days i
            else days_kept db i))
      × ((d : PolicyCall) → is_allowed db' d ≡ is_allowed db d)
unfolding set_policy get_policy_row
called c db = elim (Result-cases (check_change c.actor c.organization_id db)) [
  | inr (x, e) ↦ rw e ((λ i. refl), (λ d. refl))
  | inl (t, e) ↦ elim (Bool-cases (is_bad_days c.days)) [
    | inl bad ↦ rw (e, bad) ((λ i. refl), (λ d. refl))
    | inr good ↦
        rw (e, good)
          (
            (λ i.
                let row =
                  row_set c.now c.organization_id c.days (get_policy_row c.organization_id db) in
                let (is, kept) = row_set-days c.now c.organization_id c.days db in
                rw (written c.organization_id row db.policies i is) (ground (arith, kept))),
            (λ d. unfold check_change check_view in refl),
          )
  ]
]

replay-eq :
    (a b : RetentionTables) (calls : List PolicyCall) (kept other : ℕ → Option ℕ) (i : ℕ)
    → ((d : PolicyCall) → is_allowed a d ≡ is_allowed b d)
    → ((j : ℕ) → kept j ≡ other j)
    → replay a calls kept i ≡ replay b calls other i
replay-eq a b [] kept other i alike same = same i
replay-eq a b (c ∷ calls) kept other i alike same =
    replay-eq a b calls _ _ i alike (λ j. rw (alike c, same j) refl)

-- After any sequence of calls of set_policy, by any actors, the policies read as the function that the
-- calls make of what they were: a call that is allowed assigns, and a refused one does nothing.
pub set_policies_refine :
    (calls : List PolicyCall) (db : RetentionTables) (i : ℕ)
    → days_kept (set_policies calls db) i ≡ replay db calls (days_kept db) i
unfolding set_policies
set_policies_refine [] db i = refl
set_policies_refine (c ∷ calls) db i =
    let db' = or_kept db (set_policy c.actor c.new_id c.now c.organization_id c.days db) in
    let (kept, alike) = called c db in
    set_policies_refine calls db' i ∙ replay-eq db' db calls (days_kept db') _ i alike kept
