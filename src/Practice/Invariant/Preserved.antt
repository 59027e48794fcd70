-- ===== src/Practice/Invariant/Preserved.antt =====
-- Every method of the job store keeps the invariant.
use aprendiendo.Base.{
  String, Bool, ◌&&◌, Option, ◌≡◌, ◌⊎◌, inl, inr, All, map, keep, str_eq, arith, eq_iff,
  if◌then◌else◌, Option-cases, not,
}
use aprendiendo.Practice.Rows.{
  JobStatus, ReservationStatus, JobRow, Reservation, Store, Clock, is_completed, is_open, is_failed,
  is_reserved, before, find_recording_row,
}
use aprendiendo.Practice.Jobs.{
  cancel_job, finish_job, claim_job, claim_row, requeue_expired, cancel_row, finish_row,
  ready_recording, earliest, claimable,
}
use aprendiendo.Practice.Recordings.{delete_recording, job_where}
use aprendiendo.Practice.Cleanup.{cleanup_jobs, expire_row, is_over}
use aprendiendo.Practice.Invariant.Lookup.{
  IsUnique, IsUnique-map, IsUnique-keep, find-map, any-find,
}
use aprendiendo.Practice.Invariant.Accounts.{IsAccounted, All-update, All-update_jobs, All-cascade}

pub record IsConsistent {Usd : Type 0} (s : Store Usd) : Type 0 where
  pub unique : IsUnique s.jobs
  pub accounted : All (IsAccounted s.jobs) s.reservations

-- What one row becomes under `update_where`.
abbrev when_row {ℓ} : {A : Type ℓ} → (A → Bool) → (A → A) → A → A
when_row test set row = if test row then set row else row

module _ {Usd : Type 0} (s : Store Usd) (c : IsConsistent s) where
  -- Cancelling a job, whatever its state, keeps the invariant.
  pub cancel_job-IsConsistent :
      (clock : Clock) (job_id : String) → IsConsistent (cancel_job clock job_id s).1
  unfolding cancel_job
  cancel_job-IsConsistent clock job_id = record {
    unique = IsUnique-map _ (λ j. ground arith) s.jobs c.unique;
    accounted =
        All-update _ _ (λ j. ground arith) (λ r. ground arith) s.jobs
          (λ j r f e a. ground (arith, eq_iff j.id job_id, eq_iff r.job_id job_id)) s.reservations
          c.accounted;
  }

  -- Finishing a job keeps the invariant; the worker reports `completed` or `failed`.
  pub finish_job-IsConsistent :
      (clock : Clock) (job_id : String) (status : JobStatus) (result : Option String)
      (error : Option (String × String))
      → (status ≡ JobStatus.completed) ⊎ (status ≡ JobStatus.failed)
      → IsConsistent (finish_job clock job_id status result error s).1
  unfolding finish_job
  finish_job-IsConsistent clock job_id status result error reported =
      let g =
        when_row (λ (j : JobRow). str_eq j.id job_id)
          (finish_row status result error (clock.now 0)) in
      let unique = IsUnique-map g (λ j. ground arith) s.jobs c.unique in
      record {
        unique = unique;
        accounted =
            All-update g _ (λ j. ground arith) (λ r. ground arith) s.jobs
              (λ j r f e a. ground (
                arith,
                eq_iff j.id job_id,
                eq_iff r.job_id job_id,
                any-find (λ (k : JobRow). is_completed k.status) job_id (map g s.jobs) unique,
                find-map g (λ k. ground arith) job_id s.jobs,
              ))
              s.reservations c.accounted;
      }

  pub requeue_expired-IsConsistent : (clock : Clock) → IsConsistent (requeue_expired clock s)
  unfolding requeue_expired
  requeue_expired-IsConsistent clock = record {
    unique = IsUnique-map _ (λ j. ground arith) s.jobs c.unique;
    accounted =
        All-update_jobs _ (λ j. ground arith) s.jobs (λ j. ground arith) s.reservations c.accounted;
  }

  pub claim_row-IsConsistent :
      (clock : Clock) (job : JobRow) → IsConsistent (claim_row clock job s).1
  unfolding claim_row
  claim_row-IsConsistent clock job =
      elim (Option-cases (ready_recording job.recording_id s.recordings)) [
        | inl missing ↦
            rw (missing, claim_row)
              (record {
                unique = IsUnique-map _ (λ j. ground arith) s.jobs c.unique;
                accounted =
                    All-update _ _ (λ j. ground arith) (λ r. ground arith) s.jobs
                      (λ j r f e a. ground (arith, eq_iff j.id job.id, eq_iff r.job_id job.id))
                      s.reservations c.accounted;
              })
        | inr (recording, found) ↦
            rw (found, claim_row)
              (record {
                unique = IsUnique-map _ (λ j. ground arith) s.jobs c.unique;
                accounted =
                    All-update_jobs _ (λ j. ground arith) s.jobs (λ j. ground arith) s.reservations
                      c.accounted;
              })
      ]

  -- Deleting a recording, with the jobs that it cancels, keeps the invariant.
  pub delete_recording-IsConsistent :
      (clock : Clock) (recording_id : String)
      → IsConsistent (delete_recording clock recording_id s).1
  unfolding delete_recording
  delete_recording-IsConsistent clock recording_id =
      let g =
        when_row (λ (j : JobRow). str_eq j.recording_id recording_id) (cancel_row (clock.now 0)) in
      let unique = IsUnique-map g (λ j. ground arith) s.jobs c.unique in
      elim (Option-cases (find_recording_row recording_id s.recordings)) [
        | inl missing ↦ rw (missing, delete_recording) c
        | inr (recording, found) ↦
            rw (found, delete_recording)
              (record {
                unique = unique;
                accounted =
                    All-update g _ (λ j. ground arith) (λ r. ground arith) s.jobs
                      (λ j r f e a. ground (
                        arith,
                        any-find (λ (k : JobRow). str_eq k.recording_id recording_id) r.job_id
                            (map g s.jobs) unique,
                        find-map g (λ k. ground arith) r.job_id s.jobs,
                      ))
                      s.reservations c.accounted;
              })
      ]

  -- The clean-up of expired jobs keeps the invariant.
  pub cleanup_jobs-IsConsistent : (now stamp : String) → IsConsistent (cleanup_jobs now stamp s)
  unfolding cleanup_jobs
  cleanup_jobs-IsConsistent now stamp =
      let g =
        when_row (λ (j : JobRow). before j.expires_at now && is_open j.status) (expire_row stamp) in
      let unique = IsUnique-map g (λ j. ground arith) s.jobs c.unique in
      let released =
        All-update g
          (when_row
            (λ (r : Reservation Usd).
              job_where (λ j. before j.expires_at now && is_failed j.status) (map g s.jobs) r.job_id
              && is_reserved r.status)
            (λ r. record r { status = ReservationStatus.released }))
          (λ j. ground arith) (λ r. ground arith) s.jobs
          (λ j r f e a. ground (
            arith,
            any-find (λ (k : JobRow). before k.expires_at now && is_failed k.status) r.job_id
                (map g s.jobs) unique,
            find-map g (λ k. ground arith) r.job_id s.jobs,
          ))
          s.reservations c.accounted in
      record {
        unique = IsUnique-keep (λ j. not (is_over now j)) (map g s.jobs) unique;
        accounted =
            All-cascade (λ j. not (is_over now j)) (job_where (is_over now) (map g s.jobs))
              (map g s.jobs) unique
              (λ x. ground (arith, any-find (is_over now) x (map g s.jobs) unique)) _ released;
      }

-- Claiming a job, with the requeueing of the jobs whose lease is over, keeps the invariant.
pub claim_job-IsConsistent :
    {Usd : Type 0} (s : Store Usd) (c : IsConsistent s) (clock : Clock)
    → IsConsistent (claim_job clock s).1
unfolding claim_job
claim_job-IsConsistent s c clock =
    let s' = requeue_expired clock s in
    let c' = requeue_expired-IsConsistent s c clock in
    elim (Option-cases (earliest (keep claimable s'.jobs))) [
      | inl nothing ↦ rw (nothing, claim_job) c'
      | inr (job, chosen) ↦ rw (chosen, claim_job) (claim_row-IsConsistent s' c' clock job)
    ]
