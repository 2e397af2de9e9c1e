-- ===== src/Jobs/Tests.antt =====
-- The theorems on job queues at a queue of three jobs.
use signalscope.Shared.{
  ℕ, ◌≡◌, ◌⊎◌, ◌==◌, refl, Bool, true, false, none, some, List, [], ◌∷◌, arith, All, In, here,
  is_raised,
}
use signalscope.Shared.Rows.{select, update, order_by, insert_by}
use signalscope.Shared.Text.{codes}
use signalscope.Core.Leases.{default_lease_policy, expires_at}
use signalscope.Jobs.Model.{
  Job, Tables, pending, running, completed, processing, document, queue_code,
}
use signalscope.Jobs.Attempts.{open_attempt}
use signalscope.Jobs.Queue.{
  Work, save, start, claimable_jobs, claim_first, is_claimable, heartbeat, is_held, extended,
  is_stale, stale_before, stale_jobs, mark_completed, mark_failed,
}
use signalscope.Jobs.Run.{
  Op, claim, beat, recover, complete, fail, retry, requeue, remove, run, run_all,
}
use signalscope.Jobs.Consistency.{IsConsistent, run_all-IsConsistent}
use signalscope.Jobs.Fencing.{recovered_worker_is_fenced}
use signalscope.Jobs.Lifecycle.{IsFinal, completed-IsFinal}
use signalscope.Jobs.Order.{IsOldest, claim_takes-IsOldest, heartbeat_protects}
use signalscope.Jobs.Recorded.{IsRecorded, run-IsRecorded}

abbrev waiting : Job ℕ
waiting = record {
  id = 1;
  resource = 10;
  status = pending;
  available_at = 5;
  created_at = 5;
  claimed_at = none;
  heartbeat_at = none;
  lease_expires_at = none;
  lease_token = none;
  finished_at = none;
  attempt_count = 0;
  last_error = none;
}

-- Held with the token 77 by a worker whose lease ends at 300000100.
abbrev held : Job ℕ
held = record waiting {
  id = 2;
  status = running;
  claimed_at = some 100;
  heartbeat_at = some 100;
  lease_expires_at = some 300000100;
  lease_token = some 77;
  attempt_count = 1;
}

abbrev done : Job ℕ
done = record waiting { id = 3; status = completed; finished_at = some 90; attempt_count = 1 }

abbrev work : ℕ → Work
work r = record { organization = some 4; resource_type = document; resource_id = r }

abbrev tables : Tables ℕ
tables = record {
  jobs = waiting ∷ held ∷ done ∷ [];
  attempts = open_attempt 4 processing 2 1 document 10 100 ∷ [];
}

abbrev unlocked : ℕ → Bool
unlocked _ = false

abbrev every : ℕ → Bool
every _ = true

abbrev late : ℕ
late = 400000000

-- The held job is recovered, and another worker takes both jobs.
abbrev script : List (Op ℕ)
script =
    claim false every unlocked late default_lease_policy 78
    ∷ claim false every unlocked late default_lease_policy 79
    ∷ beat 2 79 late default_lease_policy
    ∷ complete 2 79 late
    ∷ fail 1 78 late (codes "broken")
    ∷ retry 1 late (λ r. r)
    ∷ requeue (λ j. j.id == 1) late
    ∷ remove (λ j. j.id == 9)
    ∷ []

consistent : All IsConsistent tables.jobs
consistent = ground arith

run_all-IsConsistent_example : All IsConsistent (run_all processing work script tables).jobs
run_all-IsConsistent_example =
    run_all-IsConsistent processing work script tables (omega arith) consistent

held_is_stale : In held (stale_jobs unlocked late 5 tables)
unfolding stale_jobs select order_by insert_by is_stale
held_is_stale = here refl

recovered_worker_is_fenced_example :
    let db =
      run_all processing work script (run processing work (recover unlocked late 5) tables) in
    (heartbeat 2 77 late default_lease_policy db ≡ (db, false))
    × (is_raised (mark_completed processing 2 77 late db) ≡ true)
    × (is_raised (mark_failed processing 2 77 late (codes "late") db) ≡ true)
recovered_worker_is_fenced_example =
    recovered_worker_is_fenced 77 processing work unlocked late 5 tables held script held_is_stale
      (ground arith) (ground arith) 2 late default_lease_policy (codes "late")

claim_takes-IsOldest_example :
    let (db', answer) =
      claim_first processing work 7
        (start false default_lease_policy 7 78)
        (claimable_jobs every unlocked 7 tables)
        tables in
    ((answer ≡ none)
      × (db' ≡ tables)
      × ((k : Job ℕ) → In k tables.jobs → is_claimable every unlocked 7 k ≡ false))
    ⊎ ((j : Job ℕ) × (answer ≡ some (start false default_lease_policy 7 78 j))
        × (db'.jobs ≡ save (start false default_lease_policy 7 78 j) tables.jobs)
        × IsOldest every unlocked 7 j tables.jobs)
claim_takes-IsOldest_example =
    claim_takes-IsOldest processing work every unlocked 7 (start false default_lease_policy 7 78)
      tables

-- The waiting job is the one that the claim takes, and the second worker finds none.
claims :
    (claimable_jobs every unlocked 7 tables ≡ waiting ∷ [])
    × (claimable_jobs every unlocked 4 tables ≡ [])
unfolding claimable_jobs select order_by insert_by is_claimable
claims = (refl, refl)

done-IsFinal : All (IsFinal done refl) tables.jobs
done-IsFinal = ((λ e. absurd (omega arith)), ((λ e. absurd (omega arith)), ((λ e. refl), tt)))

completed-IsFinal_example : All (IsFinal done refl) (run_all processing work script tables).jobs
completed-IsFinal_example =
    completed-IsFinal done refl processing work script tables (ground arith) done-IsFinal

recorded : IsRecorded processing tables
unfolding queue_code
recorded = ground arith

run-IsRecorded_example :
    IsRecorded processing (run processing work (recover unlocked late 5) tables)
run-IsRecorded_example = run-IsRecorded processing work (recover unlocked late 5) tables tt recorded

-- Held by another worker, whose lease ended earlier.
abbrev lost : Job ℕ
lost = record held { id = 4; lease_expires_at = some 200000000; lease_token = some 88 }

abbrev busy : Tables ℕ
busy = record tables { jobs = held ∷ lost ∷ [] }

lost_is_stale :
    In lost (stale_jobs unlocked 300000150 5 (heartbeat 2 77 200 default_lease_policy busy).0)
unfolding stale_jobs select order_by insert_by is_stale heartbeat update is_held extended expires_at
    stale_before
lost_is_stale = here refl

heartbeat_protects_example : is_held 2 77 lost ≡ false
unfolding expires_at
heartbeat_protects_example =
    heartbeat_protects 2 77 200 300000150 default_lease_policy unlocked 5 busy lost (omega arith)
      lost_is_stale

abbrev five : ℕ
five = 5
