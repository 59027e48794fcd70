-- ===== src/Practice/Invariant/Accounts.antt =====
-- Reservations and their jobs: `IsAccounted` under the updates that the methods make.
use aprendiendo.Base.{
  String, Bool, true, false, some, List, [], ◌∷◌, ◌++◌, ◌≡◌, All, map, keep, arith, is_some_and,
  Bool-cases, inl, inr, not,
}
use aprendiendo.Practice.Rows.{JobStatus, ReservationStatus, JobRow, Reservation, find_job_row}
use aprendiendo.Practice.Invariant.Lookup.{IsUnique, find-id, find-map, find-append, find-keep}

-- An open job holds its reservation, a completed one has spent it, any other has given it back.
abbrev pub expected : JobStatus → ReservationStatus
expected JobStatus.queued = ReservationStatus.reserved
expected JobStatus.running = ReservationStatus.reserved
expected JobStatus.completed = ReservationStatus.settled
expected JobStatus.failed = ReservationStatus.released
expected JobStatus.cancelled = ReservationStatus.released

-- A reservation is that of a job in the table, and stands as the job's status calls for.
pub record IsAccounted {Usd : Type 0} (jobs : List JobRow) (r : Reservation Usd) : Type 0 where
  pub job : JobRow
  pub found : find_job_row r.job_id jobs ≡ some job
  pub agrees : r.status ≡ expected job.status

module _ {Usd : Type 0} where
  -- The jobs are rewritten by `g` and the reservations by `h`.
  pub All-update :
      (g : JobRow → JobRow) (h : Reservation Usd → Reservation Usd)
      (keeps_id : (j : JobRow) → (g j).id ≡ j.id)
      (keeps_job : (r : Reservation Usd) → (h r).job_id ≡ r.job_id) (jobs : List JobRow)
      → ((j : JobRow) (r : Reservation Usd)
          → find_job_row r.job_id jobs ≡ some j
          → j.id ≡ r.job_id
          → r.status ≡ expected j.status
          → (h r).status ≡ expected (g j).status)
      → (rs : List (Reservation Usd)) → All (IsAccounted jobs) rs
      → All (IsAccounted (map g jobs)) (map h rs)
  All-update g h keeps_id keeps_job jobs step [] a = tt
  All-update g h keeps_id keeps_job jobs step (r ∷ rs) a = (
    record {
      job = g a.0.job;
      found = rw (keeps_job r, find-map g keeps_id r.job_id jobs, a.0.found);
      agrees = step a.0.job r a.0.found (find-id r.job_id jobs a.0.found) a.0.agrees;
    },
    All-update g h keeps_id keeps_job jobs step rs a.1,
  )

  -- Only the jobs are rewritten.
  pub All-update_jobs :
      (g : JobRow → JobRow) (keeps_id : (j : JobRow) → (g j).id ≡ j.id) (jobs : List JobRow)
      → ((j : JobRow) → expected (g j).status ≡ expected j.status)
      → (rs : List (Reservation Usd)) → All (IsAccounted jobs) rs
      → All (IsAccounted (map g jobs)) rs
  All-update_jobs g keeps_id jobs step [] a = tt
  All-update_jobs g keeps_id jobs step (r ∷ rs) a = (
    record {
      job = g a.0.job;
      found = rw (find-map g keeps_id r.job_id jobs, a.0.found);
      agrees = ground (arith, step a.0.job, a.0.agrees);
    },
    All-update_jobs g keeps_id jobs step rs a.1,
  )

  -- A job is added at the end.
  pub All-append :
      (jobs : List JobRow) (k : JobRow) (rs : List (Reservation Usd))
      → All (IsAccounted jobs) rs
      → All (IsAccounted (jobs ++ k ∷ [])) rs
  All-append jobs k [] a = tt
  All-append jobs k (r ∷ rs) a = (
    record {
      job = a.0.job;
      found = rw (find-append r.job_id jobs k, a.0.found);
      agrees = a.0.agrees;
    },
    All-append jobs k rs a.1,
  )

  pub All-concat {ℓ} :
      (P : Reservation Usd → Type ℓ) (rs : List (Reservation Usd)) (r : Reservation Usd)
      → All P rs
      → P r
      → All P (rs ++ r ∷ [])
  All-concat P [] r a p = (p, tt)
  All-concat P (q ∷ rs) r a p = (a.0, All-concat P rs r a.1 p)

  -- Jobs are deleted, and with them their reservations.
  pub All-cascade :
      (p : JobRow → Bool) (dropped : String → Bool) (jobs : List JobRow) (u : IsUnique jobs)
      → ((x : String) → dropped x ≡ is_some_and (find_job_row x jobs) (λ j. not (p j)))
      → (rs : List (Reservation Usd)) → All (IsAccounted jobs) rs
      → All (IsAccounted (keep p jobs)) (keep (λ (r : Reservation Usd). not (dropped r.job_id)) rs)
  All-cascade p dropped jobs u spec [] a = tt
  All-cascade p dropped jobs u spec (r ∷ rs) a =
      let rest = All-cascade p dropped jobs u spec rs a.1 in
      elim (Bool-cases (p a.0.job)) [
        | inl kept ↦
            let stays : dropped r.job_id ≡ false = ground (arith, spec r.job_id, a.0.found) in
            rw stays (
              record {
                job = a.0.job;
                found = ground (arith, find-keep p r.job_id jobs u, a.0.found);
                agrees = a.0.agrees;
              },
              rest,
            )
        | inr gone ↦
            let goes : dropped r.job_id ≡ true = ground (arith, spec r.job_id, a.0.found) in
            rw goes rest
      ]
