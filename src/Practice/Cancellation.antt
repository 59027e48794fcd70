-- ===== src/Practice/Cancellation.antt =====
-- A request to cancel a job (`cancel_job` of src/practice/mod.rs), and a late report of a worker.
use aprendiendo.Base.{
  String, false, ◌&&◌, Option, some, List, [], ◌∷◌, ◌≡◌, refl, any, map, str_eq, arith, ap, ◌∙◌,
  eq_iff, if◌then◌else◌, not,
}
use aprendiendo.Practice.Rows.{
  JobStatus, ReservationStatus, JobRow, Reservation, Store, Clock, find_job_row, is_completed,
  update_where, is_released,
}
use aprendiendo.Practice.Jobs.{cancel_job, finish_job, cancel_row, finish_row, completed_in}
use aprendiendo.Practice.Invariant.Lookup.{IsUnique-map, find-map, find-id, any-find}
use aprendiendo.Practice.Invariant.Preserved.{IsConsistent}

abbrev cancelled_row : Clock → String → JobRow → JobRow
cancelled_row clock job_id j = if str_eq j.id job_id then cancel_row (clock.now 0) j else j

abbrev finished_row :
    Clock → String → JobStatus → Option String → Option (String × String) → JobRow → JobRow
finished_row clock job_id status result error j =
    if str_eq j.id job_id then finish_row status result error (clock.now 0) j else j

-- `finish_job` releases the reservations of a job that has not completed.
finish_job-released :
    {Usd : Type 0} (jobs : List JobRow) (job_id : String)
    → completed_in jobs job_id ≡ false
    → (reservations : List (Reservation Usd))
    → any
        (λ (r : Reservation Usd). str_eq r.job_id job_id && not (is_released r.status))
        (update_where
          (λ r. str_eq r.job_id job_id)
          (λ r. record r {
            status =
                if completed_in jobs job_id
                then ReservationStatus.settled
                else ReservationStatus.released;
          })
          reservations)
      ≡ false
finish_job-released jobs job_id pending [] = refl
finish_job-released jobs job_id pending (r ∷ rs) =
    ground (arith, finish_job-released jobs job_id pending rs)

module _ {Usd : Type 0} (clock : Clock) (job_id : String) (s : Store Usd) {job : JobRow}
    (found : find_job_row job_id s.jobs ≡ some job) where
  -- In a consistent store that has the job, once it was asked to be cancelled, it ends as cancelled
  -- whatever a worker reports next, and what was reserved for it is released.
  pub finish_job-cancel_job :
      (c : IsConsistent s) (clock' : Clock) (status : JobStatus) (result : Option String)
      (error : Option (String × String))
      → let t = (finish_job clock' job_id status result error (cancel_job clock job_id s).1).1 in
        ((ended : JobRow) × (find_job_row job_id t.jobs ≡ some ended)
          × (ended.status ≡ JobStatus.cancelled))
        × (any
              (λ (r : Reservation Usd). str_eq r.job_id job_id && not (is_released r.status))
              t.reservations
            ≡ false)
  unfolding finish_job cancel_job
  finish_job-cancel_job c clock' status result error =
      let f = cancelled_row clock job_id in
      let g = finished_row clock' job_id status result error in
      let ended = g (f job) in
      let cancelled : ended.status ≡ JobStatus.cancelled =
        ground (arith, find-id job_id s.jobs found, eq_iff job.id job_id) in
      let last : find_job_row job_id (map g (map f s.jobs)) ≡ some ended =
        rw
          (
            find-map g (λ j. ground arith) job_id (map f s.jobs),
            find-map f (λ j. ground arith) job_id s.jobs,
            found,
          )
          refl in
      let unique =
        IsUnique-map g (λ j. ground arith) (map f s.jobs)
          (IsUnique-map f (λ j. ground arith) s.jobs c.unique) in
      let pending : completed_in (map g (map f s.jobs)) job_id ≡ false =
        any-find (λ (k : JobRow). is_completed k.status) job_id (map g (map f s.jobs)) unique
        ∙ rw last (ap is_completed cancelled) in
      ((ended, last, cancelled), finish_job-released (map g (map f s.jobs)) job_id pending _)
