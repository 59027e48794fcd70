-- ===== src/Practice/Withdrawn.antt =====
-- A job that was asked to be cancelled stays so, whatever methods of src/practice/mod.rs are called
-- afterwards, and no worker gets it.
use aprendiendo.Base.{
  ℕ, String, false, ◌&&◌, not, Option, some, none, List, [], ◌∷◌, ◌++◌, ◌≡◌, ◌≢◌, inl, inr, All,
  All-keep, All-append, map, str_eq, eq_iff, arith, keep, ok, err, Outcome, Bool-cases,
  Option-cases,
}
use mathlib.Core.Path.{subst}
use aprendiendo.Practice.Rows.{
  JobStatus, JobRow, JobWork, RecordingRow, UploadRow, Store, Clock, RequestAnalysisRequest,
  PracticeApiConfig, PracticeError, UsdOps, find_job_row, find_recording_row, before, is_finalized,
}
use aprendiendo.Practice.Jobs.{
  cancel_job, finish_job, claim_job, claim_row, requeue_expired, ready_recording, earliest,
  claimable,
}
use aprendiendo.Practice.Create.{create_job, new_job}
use aprendiendo.Practice.Recordings.{
  CreateUploadRequest, create_upload, mark_upload_written, finalize_upload, delete_recording,
}
use aprendiendo.Practice.Cleanup.{
  cleanup_expired, cleanup_rows, cleanup_jobs, expire_paths, expired_paths, is_over,
  recordings_linked,
}
use aprendiendo.Practice.Invariant.Lookup.{find-id}
use aprendiendo.Practice.Invariant.Preserved.{IsConsistent, cancel_job-IsConsistent}
use aprendiendo.Practice.Invariant.Reach.{Step, Reach, here, next, Reach-IsConsistent}
use aprendiendo.Practice.Claim.{claim_job-held}

-- The row is of another job, or a request to cancel it is on record.
abbrev IsShut : String → JobRow → Type 0
IsShut id j = (str_eq j.id id && not j.cancel_requested) ≡ false

abbrev IsWithdrawn : String → List JobRow → Type 0
IsWithdrawn id jobs = All (IsShut id) jobs

All-map {ℓ} :
    (P : JobRow → Type ℓ) (g : JobRow → JobRow)
    → ((j : JobRow) → P j → P (g j))
    → (js : List JobRow) → All P js
    → All P (map g js)
All-map P g step [] a = tt
All-map P g step (j ∷ js) a = (step j a.0, All-map P g step js a.1)

All-of_map {ℓ} :
    (P : JobRow → Type ℓ) (g : JobRow → JobRow)
    → ((j : JobRow) → P (g j))
    → (js : List JobRow) → All P (map g js)
All-of_map P g holds [] = tt
All-of_map P g holds (j ∷ js) = (holds j, All-of_map P g holds js)

-- The row that is found is one of the rows.
find-All {ℓ} :
    (P : JobRow → Type ℓ) (x : String) (js : List JobRow) {j : JobRow}
    → All P js
    → find_job_row x js ≡ some j
    → P j
find-All P x [] a h = absurd (cc)
find-All P x (k ∷ js) {j} a h = elim (Bool-cases (str_eq k.id x)) [
  | inl same ↦ subst P (ground (arith, same, h)) a.0
  | inr other ↦ find-All P x js a.1 (rw other at h)
]

module _ {Usd : Type 0} (id : String) (s : Store Usd) where
  cancel_job-closes : (clock : Clock) → IsWithdrawn id (cancel_job clock id s).1.jobs
  unfolding cancel_job
  cancel_job-closes clock = All-of_map (IsShut id) _ (λ j. ground arith) s.jobs

  module _ (w : IsWithdrawn id s.jobs) where
    cancel_job-IsWithdrawn :
        (clock : Clock) (other : String) → IsWithdrawn id (cancel_job clock other s).1.jobs
    unfolding cancel_job
    cancel_job-IsWithdrawn clock other = All-map (IsShut id) _ (λ j shut. ground arith) s.jobs w

    finish_job-IsWithdrawn :
        (clock : Clock) (other : String) (status : JobStatus) (result : Option String)
        (error : Option (String × String))
        → IsWithdrawn id (finish_job clock other status result error s).1.jobs
    unfolding finish_job
    finish_job-IsWithdrawn clock other status result error =
        All-map (IsShut id) _ (λ j shut. ground arith) s.jobs w

    requeue_expired-IsWithdrawn : (clock : Clock) → IsWithdrawn id (requeue_expired clock s).jobs
    unfolding requeue_expired
    requeue_expired-IsWithdrawn clock = All-map (IsShut id) _ (λ j shut. ground arith) s.jobs w

    claim_row-IsWithdrawn :
        (clock : Clock) (job : JobRow) → IsWithdrawn id (claim_row clock job s).1.jobs
    unfolding claim_row
    claim_row-IsWithdrawn clock job =
        elim (Option-cases (ready_recording job.recording_id s.recordings)) [
          | inl missing ↦
              rw (missing, claim_row) (All-map (IsShut id) _ (λ j shut. ground arith) s.jobs w)
          | inr (recording, found) ↦
              rw (found, claim_row) (All-map (IsShut id) _ (λ j shut. ground arith) s.jobs w)
        ]

    delete_recording-IsWithdrawn :
        (clock : Clock) (recording : String)
        → IsWithdrawn id (delete_recording clock recording s).1.jobs
    unfolding delete_recording
    delete_recording-IsWithdrawn clock recording =
        elim (Option-cases (find_recording_row recording s.recordings)) [
          | inl missing ↦ rw (missing, delete_recording) w
          | inr (row, found) ↦
              rw (found, delete_recording) (All-map (IsShut id) _ (λ j shut. ground arith) s.jobs w)
        ]

    cleanup_jobs-IsWithdrawn : (now stamp : String) → IsWithdrawn id (cleanup_jobs now stamp s).jobs
    unfolding cleanup_jobs
    cleanup_jobs-IsWithdrawn now stamp =
        All-keep (IsShut id) (λ j. not (is_over now j)) _
          (All-map (IsShut id) _ (λ j shut. ground arith) s.jobs w)

    create_upload-IsWithdrawn :
        (clock : Clock) (drawn : String) (input : CreateUploadRequest) (hash path : String)
        → IsWithdrawn id (create_upload clock drawn input hash path s).1.jobs
    unfolding create_upload
    create_upload-IsWithdrawn clock drawn input hash path = ground (arith, w)

    mark_upload_written-IsWithdrawn :
        (upload : String) → IsWithdrawn id (mark_upload_written upload s).jobs
    unfolding mark_upload_written
    mark_upload_written-IsWithdrawn upload = w

    finalize_upload-IsWithdrawn :
        (clock : Clock) (upload : UploadRow) (hash : String) (bytes : ℕ) (path : String)
        (config : PracticeApiConfig Usd)
        → IsWithdrawn id (finalize_upload clock upload hash bytes path config s).1.jobs
    unfolding finalize_upload
    finalize_upload-IsWithdrawn clock upload hash bytes path config = ground (arith, w)

    create_job-IsWithdrawn :
        (ops : UsdOps Usd) (clock : Clock) (drawn : String) (json : Option String)
        (input : RequestAnalysisRequest Usd) (payload_hash : String)
        (config : PracticeApiConfig Usd)
        → drawn ≢ id
        → IsWithdrawn id (create_job ops clock drawn json input payload_hash config s).1.jobs
    unfolding create_job
    create_job-IsWithdrawn ops clock drawn none input payload_hash config fresh = ground (arith, w)
    create_job-IsWithdrawn ops clock drawn (some json) input payload_hash config fresh =
        let new = new_job ops drawn clock payload_hash json input in
        let added : IsWithdrawn id (s.jobs ++ new ∷ []) =
          All-append (IsShut id) s.jobs (new ∷ []) w (ground (arith, eq_iff drawn id), tt) in
        ground (arith, w, added)

cleanup_rows-IsWithdrawn :
    {Usd : Type 0} (id : String) (s : Store Usd) (w : IsWithdrawn id s.jobs) (clock : Clock)
    (after : Outcome PracticeError ℕ × List RecordingRow)
    → IsWithdrawn id (cleanup_rows clock after s).1.jobs
unfolding cleanup_rows
cleanup_rows-IsWithdrawn id s w clock (err e, recordings) = w
cleanup_rows-IsWithdrawn id s w clock (ok n, recordings) =
    let now = clock.now 0 in
    let uploads =
      keep (λ (u : UploadRow). not (before u.expires_at now && not (is_finalized u.status)))
        s.uploads in
    elim (Bool-cases (recordings_linked uploads recordings)) [
      | inl linked ↦
          rw (linked, cleanup_rows)
            (cleanup_jobs-IsWithdrawn id (record s { recordings = recordings; uploads = uploads }) w
              now (clock.now 1))
      | inr dangling ↦ rw (dangling, cleanup_rows) w
    ]

claim_job-IsWithdrawn :
    {Usd : Type 0} (id : String) (s : Store Usd) (w : IsWithdrawn id s.jobs) (clock : Clock)
    → IsWithdrawn id (claim_job clock s).1.jobs
unfolding claim_job
claim_job-IsWithdrawn id s w clock =
    let s' = requeue_expired clock s in
    let w' = requeue_expired-IsWithdrawn id s w clock in
    elim (Option-cases (earliest (keep claimable s'.jobs))) [
      | inl nothing ↦ rw (nothing, claim_job) w'
      | inr (job, chosen) ↦ rw (chosen, claim_job) (claim_row-IsWithdrawn id s' w' clock job)
    ]

cleanup_expired-IsWithdrawn :
    {Usd : Type 0} (id : String) (s : Store Usd) (w : IsWithdrawn id s.jobs) (clock : Clock)
    → IsWithdrawn id (cleanup_expired clock s).1.jobs
unfolding cleanup_expired
cleanup_expired-IsWithdrawn id s w clock =
    cleanup_rows-IsWithdrawn id s w clock
      (expire_paths (expired_paths (clock.now 0) s.recordings) 0 s.recordings)

module _ {Usd : Type 0} (ops : UsdOps Usd) (id : String) where
  -- The call does not draw the identifier for a new job.
  abbrev pub DrawsOther : {s t : Store Usd} → Step ops s t → Type 0
  DrawsOther (Step.create clock drawn json input hash config e) = drawn ≢ id
  DrawsOther _ = Unit

  -- The stores that calls lead to, none of which draws the identifier for a new job.
  pub data Later (s : Store Usd) : Store Usd → Type 0 where
    now : Later s s
    then_call : {t u : Store Usd} → Later s t → (step : Step ops t u) → DrawsOther step → Later s u

  Later-Reach : {s t : Store Usd} → Later s t → Reach ops s t
  Later-Reach Later.now = here
  Later-Reach (Later.then_call before step other) = next (Later-Reach before) step

  Step-IsWithdrawn :
      {s t : Store Usd} (step : Step ops s t)
      → DrawsOther step
      → IsWithdrawn id s.jobs
      → IsWithdrawn id t.jobs
  Step-IsWithdrawn {s} (Step.create_upload_step clock drawn input hash path e) d w =
      rw e (create_upload-IsWithdrawn id s w clock drawn input hash path)
  Step-IsWithdrawn {s} (Step.written upload e) d w =
      rw e (mark_upload_written-IsWithdrawn id s w upload)
  Step-IsWithdrawn {s} (Step.finalize clock upload hash bytes path config e) d w =
      rw e (finalize_upload-IsWithdrawn id s w clock upload hash bytes path config)
  Step-IsWithdrawn {s} (Step.create clock drawn json input hash config e) d w =
      rw e (create_job-IsWithdrawn id s w ops clock drawn json input hash config d)
  Step-IsWithdrawn {s} (Step.claim clock e) d w = rw e (claim_job-IsWithdrawn id s w clock)
  Step-IsWithdrawn {s} (Step.complete clock other result error e) d w =
      rw e (finish_job-IsWithdrawn id s w clock other JobStatus.completed result error)
  Step-IsWithdrawn {s} (Step.fail clock other result error e) d w =
      rw e (finish_job-IsWithdrawn id s w clock other JobStatus.failed result error)
  Step-IsWithdrawn {s} (Step.cancel clock other e) d w =
      rw e (cancel_job-IsWithdrawn id s w clock other)
  Step-IsWithdrawn {s} (Step.delete clock recording e) d w =
      rw e (delete_recording-IsWithdrawn id s w clock recording)
  Step-IsWithdrawn {s} (Step.cleanup clock e) d w = rw e (cleanup_expired-IsWithdrawn id s w clock)

  Later-IsWithdrawn : {s t : Store Usd} → Later s t → IsWithdrawn id s.jobs → IsWithdrawn id t.jobs
  Later-IsWithdrawn Later.now w = w
  Later-IsWithdrawn (Later.then_call before step other) w =
      Step-IsWithdrawn step other (Later-IsWithdrawn before w)

  -- From a consistent store, once a job was asked to be cancelled, no worker gets it at any time
  -- afterwards, whatever methods are called in between and in whatever order, as long as none draws
  -- its identifier for a new job.
  pub claim_job-cancel_job :
      {s t : Store Usd} (clock clock' : Clock)
      → IsConsistent s
      → Later (cancel_job clock id s).1 t
      → {work : JobWork} → (claim_job clock' t).0 ≡ ok (some work)
      → work.id ≢ id
  claim_job-cancel_job {s} {t} clock clock' c later {work} h same =
      let cancelled = cancel_job-IsConsistent s c clock id in
      let c' : IsConsistent t = Reach-IsConsistent cancelled (Later-Reach later) in
      let (_, _, _, _, _, (was, held, open', _)) = claim_job-held clock' t c'.unique h in
      let shut =
        find-All (IsShut id) work.id t.jobs (Later-IsWithdrawn later (cancel_job-closes id s clock))
          held in
      absurd (ground (arith, open', shut, find-id work.id t.jobs held, same, eq_iff was.id id))
