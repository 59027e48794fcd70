-- ===== src/Practice/Create.antt =====
-- `create_job`: idempotency, the monthly spending cap, and the two inserts. The identifier drawn
-- by `Uuid::new_v4` and the serialised request are arguments.
use aprendiendo.Base.{
  String, Bool, false, not, ◌&&◌, ◌||◌, Option, none, some, List, [], ◌∷◌, ◌++◌, Outcome, ok, err,
  any, find, keep, str_eq, unwrap_or, is_some, if◌then◌else◌,
}
use aprendiendo.Practice.Rows.{
  PracticeError, JobStatus, ReservationStatus, JobRow, Reservation, Store, RequestAnalysisRequest,
  PracticeApiConfig, UsdOps, Clock, is_released, find_job_row, find_recording_row,
}
use aprendiendo.Practice.Jobs.{abandoned_media_ttl}

abbrev pub find_by_key : String → List JobRow → Option JobRow
find_by_key key jobs = find (λ (j : JobRow). str_eq j.idempotency_key key) jobs

module _ {Usd : Type 0} (ops : UsdOps Usd) where
  -- `reservation`: coaching reserves at least the configured amount, other stages nothing.
  unfoldable pub reservation_amount : RequestAnalysisRequest Usd → PracticeApiConfig Usd → Usd
  reservation_amount input config =
      if any (λ stage. str_eq stage "gemini" || str_eq stage "coaching") input.requested_stages
      then ops.max (unwrap_or input.spending_reservation_usd config.analysis_reservation_usd)
          config.analysis_reservation_usd
      else ops.zero_usd

  -- `SUM(amount_usd) … WHERE month_key = ? AND status IN ('reserved', 'settled')`
  abbrev pub counted : String → Reservation Usd → Bool
  counted month r = str_eq r.month_key month && not (is_released r.status)

  abbrev pub amounts : List (Reservation Usd) → List Usd
  amounts [] = []
  amounts (r ∷ rs) = r.amount_usd ∷ amounts rs

  unfoldable pub reserved_in : String → List (Reservation Usd) → Usd
  reserved_in month rs = ops.sum (amounts (keep (counted month) rs))

  unfoldable pub new_job : String → Clock → String → String → RequestAnalysisRequest Usd → JobRow
  new_job id clock payload_hash request_json input = record {
    id = id;
    recording_id = input.recording_id;
    idempotency_key = input.idempotency_key;
    payload_hash = payload_hash;
    request_json = request_json;
    status = JobStatus.queued;
    result_json = none;
    error_code = none;
    error_message = none;
    cancel_requested = false;
    lease_until = none;
    created_at = clock.now 0;
    updated_at = clock.now 0;
    expires_at = clock.after 2 abandoned_media_ttl;
  }

  -- The row that is returned: its `expires_at` is read from the clock once more.
  abbrev pub answer : Clock → JobRow → JobRow
  answer clock job = record job { expires_at = clock.after 3 abandoned_media_ttl }

  -- The two `INSERT`s. The first fails on a second row with the identifier (PRIMARY KEY) and on a
  -- recording that is not there (REFERENCES), the second on a second reservation of the job.
  unfoldable pub insert_job :
      Clock → JobRow → Usd → Store Usd → Outcome PracticeError JobRow × Store Usd
  insert_job clock job amount s =
      if is_some (find_job_row job.id s.jobs)
        || not (is_some (find_recording_row job.recording_id s.recordings))
      then (err PracticeError.internal, s)
      else if any (λ (r : Reservation Usd). str_eq r.job_id job.id) s.reservations
      then (err PracticeError.internal, record s { jobs = s.jobs ++ job ∷ [] })
      else (
        ok (answer clock job),
        record s {
          jobs = s.jobs ++ job ∷ [];
          reservations =
              s.reservations
              ++ record {
                job_id = job.id;
                month_key = clock.month 1;
                amount_usd = amount;
                status = ReservationStatus.reserved;
              }
                ∷ [];
        },
      )

  unfoldable pub create_job :
      Clock
      → String
      → Option String
      → RequestAnalysisRequest Usd
      → String
      → PracticeApiConfig Usd
      → Store Usd
      → Outcome PracticeError JobRow × Store Usd
  unfolding new_job insert_job
  create_job clock id json input payload_hash config s =
      elim (find_by_key input.idempotency_key s.jobs) [
        | some existing ↦ (
          if str_eq existing.payload_hash payload_hash
              then ok existing
              else err PracticeError.conflict,
          s,
        )
        | none ↦
            let amount = reservation_amount input config in
            if ops.gt amount config.monthly_spend_cap_usd
            then (err PracticeError.conflict, s)
            else if ops.gt (ops.add (reserved_in (clock.month 0) s.reservations) amount)
                config.monthly_spend_cap_usd
            then (err PracticeError.conflict, s)
            else elim json [
              | none ↦ (err PracticeError.invalid, s)
              | some request_json ↦
                  insert_job clock (new_job id clock payload_hash request_json input) amount s
            ]
      ]
