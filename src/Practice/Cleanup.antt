-- ===== src/Practice/Cleanup.antt =====
-- `cleanup_expired`: recordings, abandoned uploads and jobs whose time is over. The file that is
-- removed is not modelled; its result is ignored by the source.
use aprendiendo.Base.{
  ℕ, ◌+◌, String, Bool, not, ◌&&◌, none, some, List, [], ◌∷◌, Outcome, ok, err, all, keep, str_eq,
  is_some, codes, length, if◌then◌else◌,
}
use aprendiendo.Practice.Rows.{
  PracticeError, RecordingStatus, JobStatus, UploadRow, RecordingRow, JobRow, Reservation, Store,
  Clock, before, update_where, is_failed, is_open, is_reserved, is_ready, is_finalized,
  find_upload_row,
}
use aprendiendo.Practice.Jobs.{release_where}
use aprendiendo.Practice.Media.{safe_media_path}
use aprendiendo.Practice.Recordings.{job_where}

abbrev pub expired_paths : String → List RecordingRow → List String
expired_paths now [] = []
expired_paths now (r ∷ rs) =
    let rest = expired_paths now rs in
    if before r.expires_at now && is_ready r.status then r.relative_path ∷ rest else rest

-- `UPDATE practice_recordings SET status = 'expired' WHERE relative_path = ? AND status = 'ready'`
abbrev pub is_at : String → RecordingRow → Bool
is_at path r = str_eq r.relative_path path && is_ready r.status

abbrev pub expire_at : String → List RecordingRow → List RecordingRow
expire_at path = update_where (is_at path) (λ r. record r { status = RecordingStatus.expired })

-- The loop over the paths; it stops at a path that is not a managed one.
unfoldable pub expire_paths :
    List String → ℕ → List RecordingRow → Outcome PracticeError ℕ × List RecordingRow
expire_paths [] removed rows = (ok removed, rows)
expire_paths (path ∷ paths) removed rows =
    let rest =
      expire_paths paths (removed + length (keep (is_at path) rows)) (expire_at path rows) in
    if is_some (safe_media_path (codes path)) then rest else (err PracticeError.internal, rows)

abbrev pub expire_row : String → JobRow → JobRow
expire_row now j = record j {
  status = JobStatus.failed;
  error_code = some "expired";
  error_message = some "analysis job expired before completion";
  lease_until = none;
  updated_at = now;
}

-- `status IN ('completed', 'failed', 'cancelled')`
abbrev pub is_over : String → JobRow → Bool
is_over now j = before j.expires_at now && not (is_open j.status)

abbrev pub recordings_linked : List UploadRow → List RecordingRow → Bool
recordings_linked uploads recordings =
    all (λ (r : RecordingRow). is_some (find_upload_row r.upload_id uploads)) recordings

module _ {Usd : Type 0} where
  -- The statements on jobs: fail the expired ones, release what they reserved, and delete the
  -- finished ones with their reservations (ON DELETE CASCADE).
  unfoldable pub cleanup_jobs : String → String → Store Usd → Store Usd
  cleanup_jobs now stamp s =
      let failed =
        update_where (λ (j : JobRow). before j.expires_at now && is_open j.status)
          (expire_row stamp) s.jobs in
      let released =
        release_where
          (λ r.
            job_where (λ j. before j.expires_at now && is_failed j.status) failed r.job_id
            && is_reserved r.status)
          s.reservations in
      record s {
        jobs = keep (λ j. not (is_over now j)) failed;
        reservations =
            keep (λ (r : Reservation Usd). not (job_where (is_over now) failed r.job_id)) released;
      }

  -- What follows the loop over the paths. A `DELETE` fails where a row is still referred to.
  unfoldable pub cleanup_rows :
      Clock
      → Outcome PracticeError ℕ × List RecordingRow
      → Store Usd
      → Outcome PracticeError ℕ × Store Usd
  unfolding cleanup_jobs
  cleanup_rows clock (err e, recordings) s = (err e, record s { recordings = recordings })
  cleanup_rows clock (ok n, recordings) s =
      let now = clock.now 0 in
      let uploads =
        keep (λ (u : UploadRow). not (before u.expires_at now && not (is_finalized u.status)))
          s.uploads in
      if recordings_linked uploads recordings
      then (
        ok n,
        cleanup_jobs now (clock.now 1) (record s { recordings = recordings; uploads = uploads }),
      )
      else (err PracticeError.internal, record s { recordings = recordings })

  unfoldable pub cleanup_expired : Clock → Store Usd → Outcome PracticeError ℕ × Store Usd
  unfolding cleanup_rows expire_paths
  cleanup_expired clock s =
      cleanup_rows clock (expire_paths (expired_paths (clock.now 0) s.recordings) 0 s.recordings) s
