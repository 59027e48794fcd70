-- ===== src/Practice/Jobs.antt =====
-- The methods of `PracticeJobStore` on analysis jobs. A method returns its result and the store
-- that it leaves, also when it fails: its statements run outside a transaction.
use aprendiendo.Base.{
  ℕ, String, Bool, true, not, ◌&&◌, Option, none, some, List, [], ◌∷◌, Outcome, ok, err, any, find,
  keep, str_eq, is_some_and, if◌then◌else◌,
}
use aprendiendo.Practice.Rows.{
  PracticeError, JobStatus, ReservationStatus, RecordingRow, JobRow, JobWork, Reservation, Store,
  Clock, before, update_where, is_queued, is_running, is_completed, is_open, is_reserved, is_ready,
  find_job_row,
}

-- The seconds of ABANDONED_MEDIA_TTL, and of the lease of a claimed job.
abbrev pub abandoned_media_ttl : ℕ
abandoned_media_ttl = 604800

abbrev pub lease_seconds : ℕ
lease_seconds = 600

-- The `SET` list with which a job is cancelled.
abbrev pub cancel_row : String → JobRow → JobRow
cancel_row now j = record j {
  cancel_requested = true;
  status = if is_open j.status then JobStatus.cancelled else j.status;
  updated_at = now;
}

-- The `SET` list of `finish_job`.
abbrev pub finish_row :
    JobStatus → Option String → Option (String × String) → String → JobRow → JobRow
finish_row status result error now j = record j {
  status = if j.cancel_requested then JobStatus.cancelled else status;
  result_json = result;
  error_code = elim error [ none ↦ none | some (code, message) ↦ some code ];
  error_message = elim error [ none ↦ none | some (code, message) ↦ some message ];
  lease_until = none;
  updated_at = now;
}

-- `EXISTS (SELECT 1 FROM practice_jobs WHERE id = ? AND status = 'completed')`
abbrev pub completed_in : List JobRow → String → Bool
completed_in jobs job_id = any (λ (j : JobRow). str_eq j.id job_id && is_completed j.status) jobs

-- The first statement of `claim_job`: a running job whose lease is over is queued again.
abbrev pub lease_over : String → JobRow → Bool
lease_over now j =
    is_running j.status && not j.cancel_requested && is_some_and j.lease_until (λ t. before t now)

abbrev pub requeue_row : String → JobRow → JobRow
requeue_row now j = record j { status = JobStatus.queued; lease_until = none; updated_at = now }

abbrev pub claimable : JobRow → Bool
claimable j = is_queued j.status && not j.cancel_requested

-- `ORDER BY created_at ASC LIMIT 1`: of equal times, the row that was inserted first.
unfoldable pub earliest : List JobRow → Option JobRow
earliest [] = none
earliest (j ∷ js) = elim (earliest js) [
  | none ↦ some j
  | some k ↦ if before k.created_at j.created_at then some k else some j
]

abbrev pub fail_row : String → JobRow → JobRow
fail_row now j = record j {
  status = JobStatus.failed;
  error_code = some "recording_missing";
  error_message = some "recording is no longer available";
  updated_at = now;
}

abbrev pub lease_row : String → String → JobRow → JobRow
lease_row until now j = record j {
  status = JobStatus.running;
  lease_until = some until;
  updated_at = now;
}

abbrev pub ready_recording : String → List RecordingRow → Option RecordingRow
ready_recording id recordings =
    find (λ (r : RecordingRow). str_eq r.id id && is_ready r.status) recordings

module _ {Usd : Type 0} where
  pub find_job : String → Store Usd → Outcome PracticeError JobRow
  find_job job_id s = elim (find_job_row job_id s.jobs) [
    | none ↦ err PracticeError.not_found
    | some job ↦ ok job
  ]

  -- `UPDATE practice_spend_reservations SET status = 'released' WHERE …`
  abbrev pub release_where :
      (Reservation Usd → Bool) → List (Reservation Usd) → List (Reservation Usd)
  release_where test = update_where test (λ r. record r { status = ReservationStatus.released })

  unfoldable pub cancel_job : Clock → String → Store Usd → Outcome PracticeError JobRow × Store Usd
  unfolding find_job
  cancel_job clock job_id s =
      let s' = record s {
        jobs = update_where (λ j. str_eq j.id job_id) (cancel_row (clock.now 0)) s.jobs;
        reservations =
            release_where (λ r. str_eq r.job_id job_id && is_reserved r.status) s.reservations;
      } in
      (find_job job_id s', s')

  unfoldable pub finish_job :
      Clock
      → String
      → JobStatus
      → Option String
      → Option (String × String)
      → Store Usd
      → Outcome PracticeError (Unit {0}) × Store Usd
  finish_job clock job_id status result error s =
      let jobs =
        update_where (λ j. str_eq j.id job_id) (finish_row status result error (clock.now 0))
          s.jobs in
      (
        ok tt,
        record s {
          jobs = jobs;
          reservations =
              update_where (λ r. str_eq r.job_id job_id)
                (λ r. record r {
                  status =
                      if completed_in jobs job_id
                      then ReservationStatus.settled
                      else ReservationStatus.released;
                })
                s.reservations;
        },
      )

  unfoldable pub cancellation_requested : String → Store Usd → Outcome PracticeError Bool
  cancellation_requested job_id s = elim (find_job_row job_id s.jobs) [
    | none ↦ err PracticeError.internal
    | some job ↦ ok job.cancel_requested
  ]

  -- The rest of `claim_job`, once the job is chosen.
  unfoldable pub claim_row : Clock → JobRow → Store Usd → Option JobWork × Store Usd
  claim_row clock job s = elim (ready_recording job.recording_id s.recordings) [
    | none ↦ (
      none,
      record s {
        jobs = update_where (λ j. str_eq j.id job.id) (fail_row (clock.now 2)) s.jobs;
        reservations = release_where (λ r. str_eq r.job_id job.id) s.reservations;
      },
    )
    | some recording ↦ (
      some (record {
        id = job.id;
        recording_id = job.recording_id;
        relative_path = recording.relative_path;
        mime_type = recording.mime_type;
        request_json = job.request_json;
      }),
      record s {
        jobs =
            update_where (λ j. str_eq j.id job.id && is_queued j.status)
              (lease_row (clock.after 2 lease_seconds) (clock.now 3)) s.jobs;
      },
    )
  ]

  unfoldable pub requeue_expired : Clock → Store Usd → Store Usd
  requeue_expired clock s = record s {
    jobs = update_where (lease_over (clock.now 1)) (requeue_row (clock.now 0)) s.jobs;
  }

  unfoldable pub claim_job : Clock → Store Usd → Outcome PracticeError (Option JobWork) × Store Usd
  unfolding claim_row requeue_expired earliest
  claim_job clock s =
      let s' = requeue_expired clock s in
      elim (earliest (keep claimable s'.jobs)) [
        | none ↦ (ok none, s')
        | some job ↦ let (work, s'') = claim_row clock job s' in (ok work, s'')
      ]
