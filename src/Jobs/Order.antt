-- ===== src/Jobs/Order.antt =====
-- Which job a claim takes, and which jobs a recovery takes.
use signalscope.Shared.{
  ℕ, zero, suc, ◌<◌, ◌≡◌, ◌⊎◌, refl, inl, inr, Bool, true, false, none, some, List, [], ◌∷◌, arith,
  All, All-of, In, here, Bool-cases, ltb, map, ◌∙◌, ok, err, length-map, min, length, length-take,
}
use signalscope.Shared.Rows.{select, order_by, update, count}
use signalscope.Shared.Rows.Laws.{
  In-select, In-of_In-select, In-nil, All-update, All-In, length-select,
}
use signalscope.Shared.Rows.Order.{
  IsOrder, In-order_by, In-of_In-order_by, In-of_In-take, length-order_by, order_by-Sorted,
  Sorted-head,
}
use signalscope.Core.Leases.{Time, LeasePolicy, expires_at}
use signalscope.Jobs.Model.{Uuid, pending, Job, AttemptQueue, Tables}
use signalscope.Jobs.Queue.{
  Work, is_claimable, claim_before, claimable_jobs, claim_first, claim_job, is_stale, stale_before,
  stale_jobs, save, heartbeat, is_held, extended, release, recover_jobs, recover_stale,
  limit_too_small,
}

module _ {R : Type 0} where
  claim_before-IsOrder : IsOrder (claim_before {R = R})
  unfolding claim_before
  claim_before-IsOrder = record {
    asymmetric = λ a b h. ground arith;
    not_before_trans = λ a b c h k. ground arith;
  }

  stale_before-IsOrder : IsOrder (stale_before {R = R})
  unfolding stale_before
  stale_before-IsOrder = record {
    asymmetric = λ a b h. ground arith;
    not_before_trans = λ a b c h k. ground arith;
  }

  -- What `claim_next` answers when a row is there.
  abbrev pub IsOldest : (R → Bool) → (Uuid → Bool) → Time → Job R → List (Job R) → Type 0
  IsOldest accepts locked now j jobs =
      In j jobs
      × (is_claimable accepts locked now j ≡ true)
      × ((k : Job R)
          → In k jobs
          → is_claimable accepts locked now k ≡ true
          → claim_before k j ≡ false)

  claimable_jobs-head :
      (accepts : R → Bool) (locked : Uuid → Bool) (now : Time) (db : Tables R) (j : Job R)
      (js : List (Job R))
      → claimable_jobs accepts locked now db ≡ j ∷ js
      → IsOldest accepts locked now j db.jobs
  unfolding claimable_jobs
  claimable_jobs-head accepts locked now db j js e =
      let p = is_claimable accepts locked now in
      let rows = select p db.jobs in
      let first : In j (order_by claim_before rows) = rw e (here refl) in
      let (fits, found) = In-of_In-select p db.jobs (In-of_In-order_by claim_before rows first) in
      (
        found,
        fits,
        λ k i g.
            Sorted-head claim_before claim_before-IsOrder j js
              (rw e at (order_by-Sorted claim_before claim_before-IsOrder rows))
              (rw e at (In-order_by claim_before rows (In-select p db.jobs i g))),
      )

  claimable_jobs-nil :
      (accepts : R → Bool) (locked : Uuid → Bool) (now : Time) (db : Tables R) (k : Job R)
      → claimable_jobs accepts locked now db ≡ []
      → In k db.jobs
      → is_claimable accepts locked now k ≡ false
  unfolding claimable_jobs
  claimable_jobs-nil accepts locked now db k e i =
      let p = is_claimable accepts locked now in
      elim (Bool-cases (p k)) [
        | inl g ↦ absurd (
            In-nil
              (rw e at (In-order_by claim_before (select p db.jobs) (In-select p db.jobs i g))))
        | inr n ↦ n
      ]

  -- A claim answers None exactly when no row is pending, available, accepted and unlocked, and then
  -- changes nothing. Otherwise it takes a row that is, before which no other such row comes by
  -- (available_at, created_at, id); that row is written back as it was started, and is the answer.
  pub claim_takes-IsOldest :
      (queue : AttemptQueue) (work : R → Work) (accepts : R → Bool) (locked : Uuid → Bool)
      (now : Time) (begin : Job R → Job R) (db : Tables R)
      → let (db', answer) =
          claim_first queue work now begin (claimable_jobs accepts locked now db) db in
        ((answer ≡ none)
          × (db' ≡ db)
          × ((k : Job R) → In k db.jobs → is_claimable accepts locked now k ≡ false))
        ⊎ ((j : Job R) × (answer ≡ some (begin j))
            × (db'.jobs ≡ save (begin j) db.jobs)
            × IsOldest accepts locked now j db.jobs)
  claim_takes-IsOldest queue work accepts locked now begin db =
      go (claimable_jobs accepts locked now db) refl
    where
      go :
          (js : List (Job R))
          → claimable_jobs accepts locked now db ≡ js
          → let (db', answer) = claim_first queue work now begin js db in
            ((answer ≡ none)
              × (db' ≡ db)
              × ((k : Job R) → In k db.jobs → is_claimable accepts locked now k ≡ false))
            ⊎ ((j : Job R) × (answer ≡ some (begin j))
                × (db'.jobs ≡ save (begin j) db.jobs)
                × IsOldest accepts locked now j db.jobs)
      go [] e =
          unfold claim_first in
          inl (refl, refl, λ k i. claimable_jobs-nil accepts locked now db k e i)
      go (j ∷ js) e =
          unfold claim_first claim_job in
          inr (j, refl, refl, claimable_jobs-head accepts locked now db j js e)

  extended-not_stale :
      (job_id token : Uuid) (now later : Time) (lease : LeasePolicy) (locked : Uuid → Bool)
      (jobs : List (Job R))
      → later < expires_at lease now
      → All
          (λ j. is_held job_id token j ≡ true → is_stale locked later j ≡ false)
          (update (is_held job_id token) (extended lease now) jobs)
  unfolding extended is_stale
  extended-not_stale job_id token now later lease locked jobs h =
      All-update {P = λ _. Unit {0}} (is_held job_id token) (extended lease now) jobs
        (λ r _ held _. ground arith) (λ r _ miss held. cc) (All-of (λ _. tt) jobs)

  release-All :
      (now : Time) (js : List (Job R))
      → All
          (λ j. (j.status ≡ pending) × (j.available_at ≡ now) × (j.lease_token ≡ none))
          (map (release now) js)
  unfolding release
  release-All now [] = tt
  release-All now (j ∷ js) = ((refl, refl, refl), release-All now js)

  length-stale_jobs :
      (locked : Uuid → Bool) (now : Time) (limit : ℕ) (db : Tables R)
      → length (stale_jobs locked now limit db) ≡ min limit (count (is_stale locked now) db.jobs)
  unfolding stale_jobs
  length-stale_jobs locked now limit db =
      let rows = select (is_stale locked now) db.jobs in
      omega (
        arith,
        length-take limit (order_by stale_before rows),
        length-order_by stale_before rows,
        length-select (is_stale locked now) db.jobs,
      )

  -- After a heartbeat at `now`, no recovery before the end of the new lease, whatever its limit,
  -- takes a job that the worker holds.
  pub heartbeat_protects :
      (job_id token : Uuid) (now later : Time) (lease : LeasePolicy) (locked : Uuid → Bool)
      (limit : ℕ) (db : Tables R) (j : Job R)
      → later < expires_at lease now
      → In j (stale_jobs locked later limit (heartbeat job_id token now lease db).0)
      → is_held job_id token j ≡ false
  unfolding stale_jobs heartbeat
  heartbeat_protects job_id token now later lease locked limit db j h i =
      let rows = update (is_held job_id token) (extended lease now) db.jobs in
      let stale = select (is_stale locked later) rows in
      let (y, k) = In-of_In-select (is_stale locked later) rows (
        In-of_In-order_by stale_before stale
          (In-of_In-take limit (order_by stale_before stale) i)) in
      elim (Bool-cases (is_held job_id token j)) [
        | inl held ↦ cc (
            All-In (λ k. is_held job_id token k ≡ true → is_stale locked later k ≡ false)
              (extended-not_stale job_id token now later lease locked db.jobs h) k held)
        | inr n ↦ n
      ]

  -- A recovery with a positive limit answers with as many jobs as are stale and unlocked, but at most
  -- `limit`; each is pending, available at once and without a lease. A limit of 0 raises.
  recover_stale_counts :
      (queue : AttemptQueue) (locked : Uuid → Bool) (now : Time) (limit : ℕ) (db : Tables R)
      → ((limit ≡ 0) × (recover_stale queue locked now limit db ≡ err limit_too_small))
        ⊎ ((js : List (Job R)) × (recover_stale queue locked now limit db
              ≡ ok (recover_jobs queue now (stale_jobs locked now limit db) db, js))
            × (length js ≡ min limit (count (is_stale locked now) db.jobs))
            × All (λ j. (j.status ≡ pending) × (j.available_at ≡ now) × (j.lease_token ≡ none)) js)
  unfolding recover_stale
  recover_stale_counts queue locked now zero db = inl (refl, refl)
  recover_stale_counts queue locked now (suc n) db =
      let e : ltb (suc n) 1 ≡ false = ground arith in
      let stale = stale_jobs locked now (suc n) db in
      inr (
        map (release now) stale,
        rw e,
        length-map stale (release now) ∙ length-stale_jobs locked now (suc n) db,
        release-All now stale,
      )
