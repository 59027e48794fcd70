-- ===== src/Practice/Invariant/Creation.antt =====
-- Creating a job, the clean-up as a whole, and the methods on uploads keep the invariant.
use aprendiendo.Base.{
  ℕ, String, ◌&&◌, ◌||◌, Option, none, List, ◌≡◌, inl, inr, refl, str_eq, arith, eq_iff, is_some,
  Bool-cases, Option-cases, not, Outcome, ok, err, any, keep,
}
use aprendiendo.Practice.Rows.{
  JobStatus, JobRow, UploadRow, Reservation, Store, Clock, RequestAnalysisRequest,
  PracticeApiConfig, UsdOps, PracticeError, RecordingRow, before, is_finalized, find_job_row,
  find_recording_row,
}
use aprendiendo.Practice.Create.{
  create_job, insert_job, new_job, find_by_key, reservation_amount, reserved_in,
}
use aprendiendo.Practice.Recordings.{
  CreateUploadRequest, create_upload, mark_upload_written, finalize_upload,
}
use aprendiendo.Practice.Cleanup.{
  cleanup_expired, cleanup_rows, recordings_linked, expire_paths, expired_paths,
}
use aprendiendo.Practice.Invariant.Lookup.{IsUnique-append, find-append}
use aprendiendo.Practice.Invariant.Accounts.{All-append, All-concat}
use aprendiendo.Practice.Invariant.Preserved.{IsConsistent, cleanup_jobs-IsConsistent}

module _ {Usd : Type 0} (ops : UsdOps Usd) (s : Store Usd) (c : IsConsistent s) where
  insert_job-IsConsistent :
      (clock : Clock) (job : JobRow) (amount : Usd)
      → job.status ≡ JobStatus.queued
      → IsConsistent (insert_job ops clock job amount s).1
  unfolding insert_job
  insert_job-IsConsistent clock job amount queued =
      let taken = is_some (find_job_row job.id s.jobs) in
      let linked = is_some (find_recording_row job.recording_id s.recordings) in
      elim (Bool-cases (taken || not linked)) [
        | inl refused ↦ rw (refused, insert_job) c
        | inr accepted ↦
            let unused : find_job_row job.id s.jobs ≡ none = ground arith in
            let unique = IsUnique-append s.jobs job unused c.unique in
            let kept = All-append s.jobs job s.reservations c.accounted in
            elim (Bool-cases
              (any (λ (r : Reservation Usd). str_eq r.job_id job.id) s.reservations)) [
                | inl clash ↦
                    rw (accepted, clash, insert_job) (record { unique = unique; accounted = kept })
                | inr free ↦
                    rw (accepted, free, insert_job)
                      (record {
                        unique = unique;
                        accounted = All-concat _ s.reservations _ kept (record {
                          job = job;
                          found =
                              ground (
                                arith,
                                find-append job.id s.jobs job,
                                unused,
                                eq_iff job.id job.id,
                              );
                          agrees = rw queued;
                        });
                      })
              ]
      ]

  -- Creating a job keeps the invariant, whatever it answers.
  pub create_job-IsConsistent :
      (clock : Clock) (id : String) (json : Option String) (input : RequestAnalysisRequest Usd)
      (payload_hash : String) (config : PracticeApiConfig Usd)
      → IsConsistent (create_job ops clock id json input payload_hash config s).1
  unfolding create_job
  create_job-IsConsistent clock id json input payload_hash config =
      let amount = reservation_amount ops input config in
      let cap = config.monthly_spend_cap_usd in
      let held = reserved_in ops (clock.month 0) s.reservations in
      elim (Option-cases (find_by_key input.idempotency_key s.jobs)) [
        | inr (existing, found) ↦ rw (found, create_job) c
        | inl fresh ↦ elim (Bool-cases (ops.gt amount cap)) [
          | inl over ↦ rw (fresh, over, create_job) c
          | inr fits ↦ elim (Bool-cases (ops.gt (ops.add held amount) cap)) [
            | inl full ↦ rw (fresh, fits, full, create_job) c
            | inr room ↦ elim (Option-cases json) [
              | inl failed ↦ rw (fresh, fits, room, failed, create_job) c
              | inr (request_json, made) ↦
                  rw (fresh, fits, room, made, create_job)
                    (insert_job-IsConsistent clock
                      (new_job ops id clock payload_hash request_json input) amount refl)
            ]
          ]
        ]
      ]

module _ {Usd : Type 0} (s : Store Usd) (c : IsConsistent s) where
  pub mark_upload_written-IsConsistent : (id : String) → IsConsistent (mark_upload_written id s)
  unfolding mark_upload_written
  mark_upload_written-IsConsistent id = record { unique = c.unique; accounted = c.accounted }

  pub create_upload-IsConsistent :
      (clock : Clock) (id : String) (input : CreateUploadRequest) (payload_hash path : String)
      → IsConsistent (create_upload clock id input payload_hash path s).1
  unfolding create_upload
  create_upload-IsConsistent clock id input payload_hash path =
      ground (arith, c.unique, c.accounted)

  pub finalize_upload-IsConsistent :
      (clock : Clock) (upload : UploadRow) (hash : String) (bytes : ℕ) (path : String)
      (config : PracticeApiConfig Usd)
      → IsConsistent (finalize_upload clock upload hash bytes path config s).1
  unfolding finalize_upload
  finalize_upload-IsConsistent clock upload hash bytes path config =
      ground (arith, c.unique, c.accounted)

cleanup_rows-IsConsistent :
    {Usd : Type 0} (s : Store Usd) (c : IsConsistent s) (clock : Clock)
    (after : Outcome PracticeError ℕ × List RecordingRow)
    → IsConsistent (cleanup_rows clock after s).1
unfolding cleanup_rows
cleanup_rows-IsConsistent s c clock (err e, recordings) = record {
  unique = c.unique;
  accounted = c.accounted;
}
cleanup_rows-IsConsistent s c clock (ok n, recordings) =
    let now = clock.now 0 in
    let uploads =
      keep (λ (u : UploadRow). not (before u.expires_at now && not (is_finalized u.status)))
        s.uploads in
    elim (Bool-cases (recordings_linked uploads recordings)) [
      | inl linked ↦
          rw (linked, cleanup_rows)
            (cleanup_jobs-IsConsistent (record s { recordings = recordings; uploads = uploads })
              (record { unique = c.unique; accounted = c.accounted }) now (clock.now 1))
      | inr dangling ↦
          rw (dangling, cleanup_rows) (record { unique = c.unique; accounted = c.accounted })
    ]

-- The clean-up keeps the invariant, also where it stops at an error.
pub cleanup_expired-IsConsistent :
    {Usd : Type 0} (s : Store Usd) (c : IsConsistent s) (clock : Clock)
    → IsConsistent (cleanup_expired clock s).1
unfolding cleanup_expired
cleanup_expired-IsConsistent s c clock =
    cleanup_rows-IsConsistent s c clock
      (expire_paths (expired_paths (clock.now 0) s.recordings) 0 s.recordings)
