-- ===== src/Practice/Examples.antt =====
-- A store with one recording and one analysis job, on which the theorems are applied. Dollars
-- are natural numbers here.
use aprendiendo.Base.{
  ℕ, ◌+◌, ◌≤◌, String, true, false, not, ◌&&◌, none, some, List, [], ◌∷◌, ◌≡◌, ◌≢◌, ◌↔◌, ◌⊎◌, refl,
  ap, All, any, ok, err, str_eq, eq_iff, ltb, if◌then◌else◌, arith, codes, is_ok, is_whitespace,
}
use aprendiendo.Practice.Rows.{
  PracticeError, UploadStatus, RecordingStatus, JobStatus, ReservationStatus, UploadRow,
  RecordingRow, JobRow, JobWork, Reservation, Store, RequestAnalysisRequest, PracticeApiConfig,
  UsdOps, Clock, find_job_row, is_released,
}
use aprendiendo.Practice.Jobs.{cancel_job, finish_job, claim_job}
use aprendiendo.Practice.Create.{create_job, reserved_in, reservation_amount}
use aprendiendo.Practice.Media.{safe_media_path, is_audio_mime}
use aprendiendo.Practice.Recordings.{CreateUploadRequest, finalize_upload, current_audio_bytes}
use aprendiendo.Practice.Requests.{validate_upload_request}
use aprendiendo.Practice.Invariant.Preserved.{IsConsistent}
use aprendiendo.Practice.Invariant.Reach.{
  here, next, create, claim, fail, cancel, Reach-IsConsistent,
}
use aprendiendo.Practice.Cancellation.{finish_job-cancel_job}
use aprendiendo.Practice.Claim.{HadLease, claim_job-claim_job, claim_job-held}
use aprendiendo.Practice.Withdrawn.{Later, claim_job-cancel_job}
use aprendiendo.Practice.Budget.{live_amounts, Reach-reserved_in, cancel_job-create_job}
use aprendiendo.Practice.Idempotency.{create_job-create_job, create_job-conflict}
use aprendiendo.Practice.Paths.{IsEntry, join, safe_media_path-IsEntry}
use aprendiendo.Practice.Mime.{IsPlain}
use aprendiendo.Practice.Uploads.{
  UploadFits, validate_upload_request_iff, finalize_upload-within_cap, sound_bytes,
}

abbrev total : List ℕ → ℕ
total [] = 0
total (x ∷ xs) = x + total xs

abbrev cents : UsdOps ℕ
cents = record {
  zero_usd = 0;
  add = λ a b. a + b;
  max = λ a b. if ltb a b then b else a;
  gt = λ a b. ltb b a;
  sum = total;
}

abbrev clock : Clock
clock = record {
  now = λ _. "2026-01-05T10:00:00Z";
  after = λ _ _. "2026-01-05T10:10:00Z";
  month = λ _. "2026-01";
}

abbrev upload : UploadRow
upload = record {
  id = "u1";
  client_recording_id = "r1";
  idempotency_key = "upload-1";
  payload_hash = "p0";
  expected_hash = "h0";
  expected_bytes = 1000;
  mime_type = "audio/webm";
  staging_path = "staging/u1.upload";
  status = UploadStatus.uploaded;
  created_at = "2026-01-05T09:00:00Z";
  expires_at = "2026-01-12T09:00:00Z";
}

abbrev api_config : PracticeApiConfig ℕ
api_config = record {
  server_audio_cap_bytes = 5000;
  monthly_spend_cap_usd = 500;
  analysis_reservation_usd = 50;
}

abbrev uploaded : Store ℕ
uploaded = record { uploads = upload ∷ []; recordings = []; jobs = []; reservations = [] }

abbrev recording : RecordingRow
recording = record {
  id = "r1";
  upload_id = "u1";
  relative_path = "audio/r1.webm";
  hash = "h0";
  bytes = 1000;
  mime_type = "audio/webm";
  created_at = "2026-01-05T10:00:00Z";
  expires_at = "2026-01-05T10:10:00Z";
  status = RecordingStatus.ready;
}

abbrev recorded : Store ℕ
recorded = record {
  uploads = record upload { status = UploadStatus.finalized } ∷ [];
  recordings = recording ∷ [];
  jobs = [];
  reservations = [];
}

abbrev request : RequestAnalysisRequest ℕ
request = record {
  recording_id = "r1";
  idempotency_key = "job-1";
  task = "Describe";
  duration_ms = 60000;
  requested_stages = "coaching" ∷ [];
  spending_reservation_usd = some 70;
  image_upload_id = none;
  image_hash = none;
}

abbrev job : JobRow
job = record {
  id = "j1";
  recording_id = "r1";
  idempotency_key = "job-1";
  payload_hash = "p1";
  request_json = "{}";
  status = JobStatus.queued;
  result_json = none;
  error_code = none;
  error_message = none;
  cancel_requested = false;
  lease_until = none;
  created_at = "2026-01-05T10:00:00Z";
  updated_at = "2026-01-05T10:00:00Z";
  expires_at = "2026-01-05T10:10:00Z";
}

abbrev job_2 : JobRow
job_2 = record job { id = "j2"; idempotency_key = "job-2"; created_at = "2026-01-05T10:00:01Z" }

abbrev reservation : Reservation ℕ
reservation = record {
  job_id = "j1";
  month_key = "2026-01";
  amount_usd = 70;
  status = ReservationStatus.reserved;
}

abbrev queued : Store ℕ
queued = record recorded { jobs = job ∷ []; reservations = reservation ∷ [] }

abbrev queued_two : Store ℕ
queued_two = record recorded { jobs = job ∷ job_2 ∷ [] }

-- The upload becomes the recording, and the request the job.
finalized :
    finalize_upload clock upload "h0" 1000 "audio/r1.webm" api_config uploaded
    ≡ (ok recording, recorded)
unfolding finalize_upload current_audio_bytes is_audio_mime
finalized = refl

created :
    create_job cents clock "j1" (some "{}") request "p1" api_config recorded ≡ (ok job, queued)
unfolding create_job reservation_amount reserved_in
created = refl

queued-IsConsistent : IsConsistent queued
queued-IsConsistent = record {
  unique = (refl, tt);
  accounted = (record { job = job; found = refl; agrees = refl }, tt);
}

Reach-IsConsistent_example :
    IsConsistent
      (cancel_job clock "j1"
        (claim_job clock
          (create_job cents clock "j1" (some "{}") request "p1" api_config recorded).1).1).1
Reach-IsConsistent_example =
    Reach-IsConsistent {ops = cents} (record { unique = tt; accounted = tt })
      (next
        (next (next here (create clock "j1" (some "{}") request "p1" api_config refl))
          (claim clock refl))
        (cancel clock "j1" refl))

finish_job-cancel_job_example :
    ((ended : JobRow) × (find_job_row "j1"
          (finish_job clock "j1" JobStatus.completed
            (some "{}")
            none
            (cancel_job clock "j1" queued).1).1.jobs
        ≡ some ended)
      × (ended.status ≡ JobStatus.cancelled))
    × (any
          (λ (r : Reservation ℕ). str_eq r.job_id "j1" && not (is_released r.status))
          (finish_job clock "j1" JobStatus.completed
            (some "{}")
            none
            (cancel_job clock "j1" queued).1).1.reservations
        ≡ false)
finish_job-cancel_job_example =
    finish_job-cancel_job clock "j1" queued refl queued-IsConsistent clock JobStatus.completed
      (some "{}") none

abbrev work : String → JobWork
work id = record {
  id = id;
  recording_id = "r1";
  relative_path = "audio/r1.webm";
  mime_type = "audio/webm";
  request_json = "{}";
}

claim_job-claim_job_example : ◌≢◌ {A = String} "j2" "j1"
unfolding claim_job
claim_job-claim_job_example =
    claim_job-claim_job clock clock queued_two (refl, (refl, tt)) {work = work "j1"}
      {work' = work "j2"} refl refl refl

claim_job-held_example :
    (held : JobRow) × (find_job_row "j1" (claim_job clock queued).1.jobs ≡ some held)
    × (held.status ≡ JobStatus.running)
    × (held.cancel_requested ≡ false)
    × (held.lease_until ≡ some "2026-01-05T10:10:00Z")
    × ((was : JobRow) × (find_job_row "j1" queued.jobs ≡ some was)
        × (was.cancel_requested ≡ false)
        × ((was.status ≡ JobStatus.queued) ⊎ HadLease clock was))
unfolding claim_job
claim_job-held_example = claim_job-held clock queued (refl, tt) {work = work "j1"} refl

-- The first job is claimed, cancelled, and reported as failed; the worker gets the second.
abbrev running_two : Store ℕ
running_two = (claim_job clock queued_two).1

abbrev reported_two : Store ℕ
reported_two =
    (finish_job clock "j1" JobStatus.failed none none (cancel_job clock "j1" running_two).1).1

claim_job-cancel_job_example : ◌≢◌ {A = String} "j2" "j1"
unfolding claim_job cancel_job finish_job
claim_job-cancel_job_example =
    claim_job-cancel_job cents "j1" {s = running_two} {t = reported_two} clock clock
      (record { unique = (refl, (refl, tt)); accounted = tt })
      (Later.then_call Later.now (fail clock "j1" none none refl) tt) {work = work "j2"} refl

abbrev after_create : Store ℕ
after_create = (create_job cents clock "j1" (some "{}") request "p1" api_config recorded).1

Reach-reserved_in_example :
    reserved_in cents "2026-01" (cancel_job clock "j1" after_create).1.reservations
    ≡ total (live_amounts cents "2026-01" (cancel_job clock "j1" after_create).1)
Reach-reserved_in_example =
    Reach-reserved_in cents {s = recorded} (record { unique = tt; accounted = tt })
      (next (next here (create clock "j1" (some "{}") request "p1" api_config refl))
        (cancel clock "j1" refl))
      "2026-01"

cancel_job-create_job_example :
    reserved_in cents "2026-01" (cancel_job clock "j1" after_create).1.reservations
    ≡ reserved_in cents "2026-01" recorded.reservations
cancel_job-create_job_example =
    cancel_job-create_job cents clock clock "j1" (some "{}") request "p1" api_config recorded
      {job = job} refl (ap (λ r. r.0) created) "2026-01"

create_job-create_job_example :
    (expires_at : String) × (create_job cents clock "j9"
        (some "{}")
        request
        "p1"
        api_config
        (create_job cents clock "j1" (some "{}") request "p1" api_config recorded).1
      ≡ (
        ok (record job { expires_at = expires_at }),
        (create_job cents clock "j1" (some "{}") request "p1" api_config recorded).1,
      ))
create_job-create_job_example =
    create_job-create_job cents recorded clock clock "j1" "j9" (some "{}") (some "{}") request
      request "p1" api_config api_config (ap (λ r. r.0) created) refl

other_hash : ◌≢◌ {A = String} "p2" "p1"
other_hash h = let e : false ≡ true = (eq_iff "p2" "p1").1 h in cc

create_job-conflict_example :
    create_job cents clock "j9"
      (some "{}")
      request
      "p2"
      api_config
      (create_job cents clock "j1" (some "{}") request "p1" api_config recorded).1
    ≡ (
      err PracticeError.conflict,
      (create_job cents clock "j1" (some "{}") request "p1" api_config recorded).1,
    )
create_job-conflict_example =
    create_job-conflict cents recorded clock clock "j1" "j9" (some "{}") (some "{}") request request
      "p1" "p2" api_config api_config (ap (λ r. r.0) created) refl other_hash

abbrev path : List ℕ
path = codes "audio/r1.webm"

abbrev parts : List (List ℕ)
parts = codes "audio" ∷ codes "r1.webm" ∷ []

safe_media_path-IsEntry_example : (join b'/' parts ≡ path) × All IsEntry parts
unfolding safe_media_path
safe_media_path-IsEntry_example = safe_media_path-IsEntry path parts refl

abbrev upload_request : CreateUploadRequest
upload_request = record {
  recording_id = "r1";
  sha256 = "0123456789abcdef0123456789abcdef0123456789abcdef0123456789abcdef";
  bytes = 1000;
  mime_type = "audio/webm";
  kind = some "audio";
  idempotency_key = "upload-1";
}

validate_upload_request-iff_example :
    (is_ok (validate_upload_request upload_request) ≡ true) ↔ UploadFits upload_request
validate_upload_request-iff_example = validate_upload_request_iff upload_request

finalize_upload-within_cap_example :
    (sound_bytes
        (finalize_upload clock upload "h0" 1000 "audio/r1.webm" api_config uploaded).1.recordings
      ≤ 5000)
    × All
        (λ (r : RecordingRow). IsPlain r.mime_type)
        (finalize_upload clock upload "h0" 1000 "audio/r1.webm" api_config uploaded).1.recordings
unfolding is_audio_mime is_whitespace
finalize_upload-within_cap_example =
    finalize_upload-within_cap clock upload "h0" 1000 "audio/r1.webm" api_config uploaded
      (omega arith) tt (record { known = refl; flush = refl }) (omega arith)
