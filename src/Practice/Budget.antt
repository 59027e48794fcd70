-- ===== src/Practice/Budget.antt =====
-- What counts against the monthly spending cap (`create_job` of src/practice/mod.rs), as jobs are
-- created, worked on and cancelled.
use aprendiendo.Base.{
  String, Bool, false, ◌&&◌, ◌||◌, Option, none, some, List, [], ◌∷◌, ◌++◌, ◌≡◌, refl, ap, arith,
  eq_iff, ok, keep, All, any, str_eq, is_some_and,
}
use aprendiendo.Practice.Rows.{
  ReservationStatus, JobRow, Reservation, Store, Clock, RequestAnalysisRequest, PracticeApiConfig,
  UsdOps, is_open, is_completed, is_reserved, find_job_row,
}
use aprendiendo.Practice.Jobs.{cancel_job, release_where}
use aprendiendo.Practice.Create.{
  create_job, find_by_key, reservation_amount, reserved_in, amounts, counted,
}
use aprendiendo.Practice.Invariant.Accounts.{IsAccounted}
use aprendiendo.Practice.Invariant.Preserved.{IsConsistent}
use aprendiendo.Practice.Invariant.Reach.{Reach, Reach-IsConsistent}

-- The job is in the table and is queued, running or completed.
abbrev pub is_live : List JobRow → String → Bool
is_live jobs job_id =
    is_some_and (find_job_row job_id jobs)
      (λ (j : JobRow). is_open j.status || is_completed j.status)

module _ {Usd : Type 0} (ops : UsdOps Usd) where
  -- The amounts of a month that are reserved for live jobs.
  abbrev pub live_amounts : String → Store Usd → List Usd
  live_amounts month s = amounts ops (
      keep (λ (r : Reservation Usd). str_eq r.month_key month && is_live s.jobs r.job_id)
        s.reservations)

  counted-live :
      (month : String) (jobs : List JobRow) (r : Reservation Usd)
      → IsAccounted jobs r
      → counted ops month r ≡ (str_eq r.month_key month && is_live jobs r.job_id)
  counted-live month jobs r a = ground (arith, a.found, a.agrees)

  keep-live :
      (month : String) (jobs : List JobRow) (rs : List (Reservation Usd))
      → All (IsAccounted jobs) rs
      → keep (counted ops month) rs
        ≡ keep (λ (r : Reservation Usd). str_eq r.month_key month && is_live jobs r.job_id) rs
  keep-live month jobs [] a = refl
  keep-live month jobs (r ∷ rs) a =
      rw (counted-live month jobs r a.0, keep-live month jobs rs a.1) refl

  -- From a consistent store, whatever methods are called in whatever order, the spending of a month
  -- that the cap is compared with is the sum of what was reserved in that month for the jobs of the
  -- table that are queued, running or completed: a job that failed or was cancelled costs nothing.
  pub Reach-reserved_in :
      {s t : Store Usd}
      → IsConsistent s
      → Reach ops s t
      → (month : String) → reserved_in ops month t.reservations ≡ ops.sum (live_amounts month t)
  unfolding reserved_in
  Reach-reserved_in {s} {t} c reached month =
      let c' = Reach-IsConsistent c reached in
      ap (λ rs. ops.sum (amounts ops rs)) (keep-live month t.jobs t.reservations c'.accounted)

  -- What is released of a table that has one reservation of the job, the last.
  release-snoc :
      (id : String) (rs : List (Reservation Usd)) (r : Reservation Usd)
      → any (λ (q : Reservation Usd). str_eq q.job_id id) rs ≡ false
      → r.job_id ≡ id
      → r.status ≡ ReservationStatus.reserved
      → release_where (λ q. str_eq q.job_id id && is_reserved q.status) (rs ++ r ∷ [])
        ≡ rs ++ record r { status = ReservationStatus.released } ∷ []
  release-snoc id [] r others same held = ground (arith, eq_iff r.job_id id)
  release-snoc id (q ∷ rs) r others same held =
      ground (arith, release-snoc id rs r (ground arith) same held)

  -- A reservation that is released does not count.
  keep-released :
      (month : String) (rs : List (Reservation Usd)) (r : Reservation Usd)
      → r.status ≡ ReservationStatus.released
      → keep (counted ops month) (rs ++ r ∷ []) ≡ keep (counted ops month) rs
  keep-released month [] r released = ground arith
  keep-released month (q ∷ rs) r released = ground (arith, keep-released month rs r released)

  -- Cancelling a job that was admitted gives back what was reserved for it: where the request is
  -- new, the spending of every month is afterwards what it was before the job was created.
  pub cancel_job-create_job :
      (clock clock' : Clock) (id : String) (json : Option String)
      (input : RequestAnalysisRequest Usd) (payload_hash : String) (config : PracticeApiConfig Usd)
      (s : Store Usd) {job : JobRow}
      → find_by_key input.idempotency_key s.jobs ≡ none
      → (create_job ops clock id json input payload_hash config s).0 ≡ ok job
      → (month : String)
      → reserved_in ops month
          (cancel_job clock' job.id
            (create_job ops clock id json input payload_hash config s).1).1.reservations
        ≡ reserved_in ops month s.reservations
  unfolding create_job cancel_job reserved_in
  cancel_job-create_job clock clock' id none input payload_hash config s fresh h month =
      absurd (ground arith)
  cancel_job-create_job clock clock' id (some json) input payload_hash config s fresh h month =
      let new : Reservation Usd = record {
        job_id = id;
        month_key = clock.month 1;
        amount_usd = reservation_amount ops input config;
        status = ReservationStatus.reserved;
      } in
      ground (
        arith,
        release-snoc id s.reservations new,
        keep-released month s.reservations (record new { status = ReservationStatus.released }),
      )
