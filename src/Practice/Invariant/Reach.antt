-- ===== src/Practice/Invariant/Reach.antt =====
-- Every store that the methods can reach, in any order and with any arguments.
use aprendiendo.Base.{ℕ, String, Option, [], ◌≡◌, inl, inr, refl}
use aprendiendo.Practice.Rows.{
  JobStatus, UploadRow, Store, Clock, RequestAnalysisRequest, PracticeApiConfig, UsdOps,
}
use aprendiendo.Practice.Jobs.{cancel_job, finish_job, claim_job}
use aprendiendo.Practice.Create.{create_job}
use aprendiendo.Practice.Recordings.{
  CreateUploadRequest, create_upload, mark_upload_written, finalize_upload, delete_recording,
}
use aprendiendo.Practice.Cleanup.{cleanup_expired}
use aprendiendo.Practice.Invariant.Preserved.{
  IsConsistent, cancel_job-IsConsistent, finish_job-IsConsistent, claim_job-IsConsistent,
  delete_recording-IsConsistent,
}
use aprendiendo.Practice.Invariant.Creation.{
  create_job-IsConsistent, create_upload-IsConsistent, mark_upload_written-IsConsistent,
  finalize_upload-IsConsistent, cleanup_expired-IsConsistent,
}

-- One call of a method, by a request handler or by a worker.
pub data Step {Usd : Type 0} (ops : UsdOps Usd) (s t : Store Usd) : Type 0 where
  create_upload_step :
      (clock : Clock) (id : String) (input : CreateUploadRequest) (payload_hash path : String)
      → t ≡ (create_upload clock id input payload_hash path s).1
      → Step ops s t
  written : (id : String) → t ≡ mark_upload_written id s → Step ops s t
  finalize :
      (clock : Clock) (upload : UploadRow) (hash : String) (bytes : ℕ) (path : String)
      (config : PracticeApiConfig Usd)
      → t ≡ (finalize_upload clock upload hash bytes path config s).1
      → Step ops s t
  create :
      (clock : Clock) (id : String) (json : Option String) (input : RequestAnalysisRequest Usd)
      (payload_hash : String) (config : PracticeApiConfig Usd)
      → t ≡ (create_job ops clock id json input payload_hash config s).1
      → Step ops s t
  claim : (clock : Clock) → t ≡ (claim_job clock s).1 → Step ops s t
  complete :
      (clock : Clock) (id : String) (result : Option String) (error : Option (String × String))
      → t ≡ (finish_job clock id JobStatus.completed result error s).1
      → Step ops s t
  fail :
      (clock : Clock) (id : String) (result : Option String) (error : Option (String × String))
      → t ≡ (finish_job clock id JobStatus.failed result error s).1
      → Step ops s t
  cancel : (clock : Clock) (id : String) → t ≡ (cancel_job clock id s).1 → Step ops s t
  delete : (clock : Clock) (id : String) → t ≡ (delete_recording clock id s).1 → Step ops s t
  cleanup : (clock : Clock) → t ≡ (cleanup_expired clock s).1 → Step ops s t

pub data Reach {Usd : Type 0} (ops : UsdOps Usd) (s : Store Usd) : Store Usd → Type 0 where
  here : Reach ops s s
  next : {t u : Store Usd} → Reach ops s t → Step ops t u → Reach ops s u

abbrev pub empty_store : (Usd : Type 0) → Store Usd
empty_store Usd = record { uploads = []; recordings = []; jobs = []; reservations = [] }

module _ {Usd : Type 0} {ops : UsdOps Usd} where
  Step-IsConsistent : {s t : Store Usd} → IsConsistent s → Step ops s t → IsConsistent t
  Step-IsConsistent {s} c (create_upload_step clock id input hash path e) =
      rw e (create_upload-IsConsistent s c clock id input hash path)
  Step-IsConsistent {s} c (written id e) = rw e (mark_upload_written-IsConsistent s c id)
  Step-IsConsistent {s} c (finalize clock upload hash bytes path config e) =
      rw e (finalize_upload-IsConsistent s c clock upload hash bytes path config)
  Step-IsConsistent {s} c (create clock id json input hash config e) =
      rw e (create_job-IsConsistent ops s c clock id json input hash config)
  Step-IsConsistent {s} c (claim clock e) = rw e (claim_job-IsConsistent s c clock)
  Step-IsConsistent {s} c (complete clock id result error e) =
      rw e (finish_job-IsConsistent s c clock id JobStatus.completed result error (inl refl))
  Step-IsConsistent {s} c (fail clock id result error e) =
      rw e (finish_job-IsConsistent s c clock id JobStatus.failed result error (inr refl))
  Step-IsConsistent {s} c (cancel clock id e) = rw e (cancel_job-IsConsistent s c clock id)
  Step-IsConsistent {s} c (delete clock id e) = rw e (delete_recording-IsConsistent s c clock id)
  Step-IsConsistent {s} c (cleanup clock e) = rw e (cleanup_expired-IsConsistent s c clock)

  -- From a store that satisfies the invariant, no calls of the methods lead out of it: each
  -- reservation is that of one job, reserved while the job is queued or running, settled if it
  -- completed, and released if it failed or was cancelled.
  pub Reach-IsConsistent : {s t : Store Usd} → IsConsistent s → Reach ops s t → IsConsistent t
  Reach-IsConsistent c here = c
  Reach-IsConsistent c (next r st) = Step-IsConsistent (Reach-IsConsistent c r) st
