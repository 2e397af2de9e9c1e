-- ===== src/Jobs/History.antt =====
-- The attempt history beside the jobs of a queue.
use signalscope.Shared.{
  ℕ, ◌≤◌, ◌≡◌, inl, inr, Bool, true, false, ◌&&◌, Option, some, List, [], ◌∷◌, arith, All, All-zip,
  Bool-cases, ◌==◌,
}
use signalscope.Shared.Text.{Text}
use signalscope.Shared.Rows.{update_first}
use signalscope.Shared.Rows.Laws.{All-update_first}
use signalscope.Core.Leases.{Time}
use signalscope.Jobs.Model.{
  Uuid, is_running, Job, AttemptQueue, queue_code, AttemptOutcome, is_open, Attempt,
}
use signalscope.Jobs.Attempts.{finish_attempt, is_open_attempt, short_error}

module _ (queue : AttemptQueue) where
  -- The attempt belongs to this queue and this job.
  abbrev pub is_for : Uuid → Attempt → Bool
  is_for i a = queue_code a.queue_name == queue_code queue && a.job_id == i

  -- An attempt has a number that its job has reached; an open one is the job's last, and the job is
  -- running.
  abbrev pub Linked : {R : Type 0} → Job R → Attempt → Type 0
  Linked j a =
      is_for j.id a ≡ true
      → (a.attempt_number ≤ j.attempt_count)
        × (is_open a.outcome ≡ true
            → (is_running j.status ≡ true) × (a.attempt_number ≡ j.attempt_count))

  -- The same, with no attempt of the job open.
  abbrev pub Settled : {R : Type 0} → Job R → Attempt → Type 0
  Settled j a =
      is_for j.id a ≡ true → (a.attempt_number ≤ j.attempt_count) × (is_open a.outcome ≡ false)

  abbrev pub is_same : Attempt → Attempt → Bool
  is_same a b = is_for a.job_id b && a.attempt_number == b.attempt_number

  -- No two attempts of this queue have one job and number.
  abbrev pub Distinct : List Attempt → Type 0
  Distinct [] = Unit
  Distinct (a ∷ rest) =
      All (λ b. is_for a.job_id a ≡ true → is_same a b ≡ false) rest × Distinct rest

  -- What `finish_attempt` writes.
  abbrev closed : AttemptOutcome → Time → Option Text → Attempt → Attempt
  closed outcome now error a = record a {
    outcome = outcome;
    finished_at = some now;
    safe_error = short_error error;
  }

  module _ (outcome : AttemptOutcome) (now : Time) (error : Option Text) (i : Uuid) (n : ℕ) where
    abbrev after : List Attempt → List Attempt
    after = finish_attempt queue i n outcome now error

    pub finish_attempt-Linked :
        {R : Type 0} (k : Job R) (rest : List Attempt)
        → is_open outcome ≡ false
        → All (Linked k) rest
        → All (Linked k) (after rest)
    unfolding finish_attempt
    finish_attempt-Linked k rest shut h =
        All-update_first (Linked k) (is_open_attempt queue i n) (closed outcome now error) rest
          (λ a l _ f. ((l f).0, λ o. cc)) h

    finish_attempt-differ :
        (b : Attempt) (rest : List Attempt)
        → All (λ a. is_for b.job_id b ≡ true → is_same b a ≡ false) rest
        → All (λ a. is_for b.job_id b ≡ true → is_same b a ≡ false) (after rest)
    unfolding finish_attempt
    finish_attempt-differ b rest h =
        All-update_first (λ a. is_for b.job_id b ≡ true → is_same b a ≡ false)
          (is_open_attempt queue i n) (closed outcome now error) rest (λ a l _. l) h

    pub finish_attempt-Distinct : (rest : List Attempt) → Distinct rest → Distinct (after rest)
    unfolding finish_attempt update_first
    finish_attempt-Distinct [] h = tt
    finish_attempt-Distinct (a ∷ rest) h = elim (Bool-cases (is_open_attempt queue i n a)) [
      | inl e ↦ rw e h
      | inr e ↦ rw e (finish_attempt-differ a rest h.0, finish_attempt-Distinct rest h.1)
    ]

  module _ {R : Type 0} (j : Job R) (outcome : AttemptOutcome) (now : Time)
      (error : Option Text) where
    -- The other attempts of the job are closed already.
    others-Settled :
        (a : Attempt) (rest : List Attempt)
        → is_open_attempt queue j.id j.attempt_count a ≡ true
        → All (λ b. is_for a.job_id a ≡ true → is_same a b ≡ false) rest
        → All (Linked j) rest
        → All (Settled j) rest
    unfolding is_open_attempt
    others-Settled a rest e = All-zip (λ b differ l f. ((l f).0, is_closed b differ l f)) rest
      where
        is_closed :
            (b : Attempt)
            → (is_for a.job_id a ≡ true → is_same a b ≡ false)
            → Linked j b
            → is_for j.id b ≡ true
            → is_open b.outcome ≡ false
        is_closed b differ l f = elim (Bool-cases (is_open b.outcome)) [
          | inl o ↦ absurd (ground (arith, (l f).1 o, differ (ground arith)))
          | inr n ↦ n
        ]

    -- An attempt of the job that is not the open one is closed.
    is_closed :
        (a : Attempt)
        → Linked j a
        → is_open_attempt queue j.id j.attempt_count a ≡ false
        → is_for j.id a ≡ true
        → is_open a.outcome ≡ false
    unfolding is_open_attempt
    is_closed a l e f = elim (Bool-cases (is_open a.outcome)) [
      | inl o ↦ absurd (ground (arith, (l f).1 o))
      | inr n ↦ n
    ]

    pub finish_attempt-Settled :
        (rest : List Attempt)
        → is_open outcome ≡ false
        → Distinct rest
        → All (Linked j) rest
        → All (Settled j) (finish_attempt queue j.id j.attempt_count outcome now error rest)
    unfolding finish_attempt update_first
    finish_attempt-Settled [] shut d h = tt
    finish_attempt-Settled (a ∷ rest) shut d h =
        elim (Bool-cases (is_open_attempt queue j.id j.attempt_count a)) [
          | inl e ↦ rw e (λ f. ((h.0 f).0, shut), others-Settled a rest e d.0 h.1)
          | inr e ↦
              rw e
                (λ f. ((h.0 f).0, is_closed a (h.0) e f), finish_attempt-Settled rest shut d.1 h.1)
        ]
