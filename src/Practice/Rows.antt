-- ===== src/Practice/Rows.antt =====
-- The tables of the practice job store, and the rows and errors that its methods return.
-- The `status` columns hold one of a few words each: they are enums here. Every row is written
-- and read with the one constant `OWNER_KEY`, which is therefore left out. Timestamps are texts
-- that SQLite compares by their bytes.
use Prim.Native.String.{compare}
use text.Mathlib.Text.{is_lt}
use aprendiendo.Base.{ℕ, String, Bool, false, true, Option, List, find, map, str_eq, if◌then◌else◌}

pub data PracticeError : Type 0 where
  invalid too_large unsupported not_found conflict internal : PracticeError

pub data UploadStatus : Type 0 where
  created uploaded finalized : UploadStatus

pub data RecordingStatus : Type 0 where
  ready deleted expired : RecordingStatus

pub data JobStatus : Type 0 where
  queued running completed failed cancelled : JobStatus

pub data ReservationStatus : Type 0 where
  reserved settled released : ReservationStatus

pub record UploadRow : Type 0 where
  pub id : String
  pub client_recording_id : String
  pub idempotency_key : String
  pub payload_hash : String
  pub expected_hash : String
  pub expected_bytes : ℕ
  pub mime_type : String
  pub staging_path : String
  pub status : UploadStatus
  pub created_at : String
  pub expires_at : String

pub record RecordingRow : Type 0 where
  pub id : String
  pub upload_id : String
  pub relative_path : String
  pub hash : String
  pub bytes : ℕ
  pub mime_type : String
  pub created_at : String
  pub expires_at : String
  pub status : RecordingStatus

pub record JobRow : Type 0 where
  pub id : String
  pub recording_id : String
  pub idempotency_key : String
  pub payload_hash : String
  pub request_json : String
  pub status : JobStatus
  pub result_json : Option String
  pub error_code : Option String
  pub error_message : Option String
  pub cancel_requested : Bool
  pub lease_until : Option String
  pub created_at : String
  pub updated_at : String
  pub expires_at : String

pub record JobWork : Type 0 where
  pub id : String
  pub recording_id : String
  pub relative_path : String
  pub mime_type : String
  pub request_json : String

-- A row of practice_spend_reservations; the amounts are `f64` dollars, a type parameter.
pub record Reservation (Usd : Type 0) : Type 0 where
  pub job_id : String
  pub month_key : String
  pub amount_usd : Usd
  pub status : ReservationStatus

-- The tables, each with its rows in the order of insertion.
pub record Store (Usd : Type 0) : Type 0 where
  pub uploads : List UploadRow
  pub recordings : List RecordingRow
  pub jobs : List JobRow
  pub reservations : List (Reservation Usd)

pub record RequestAnalysisRequest (Usd : Type 0) : Type 0 where
  pub recording_id : String
  pub idempotency_key : String
  pub task : String
  pub duration_ms : ℕ
  pub requested_stages : List String
  pub spending_reservation_usd : Option Usd
  pub image_upload_id : Option String
  pub image_hash : Option String

pub record PracticeApiConfig (Usd : Type 0) : Type 0 where
  pub server_audio_cap_bytes : ℕ
  pub monthly_spend_cap_usd : Usd
  pub analysis_reservation_usd : Usd

-- The arithmetic of `f64` that the store uses, and SQLite's `SUM`.
pub record UsdOps (Usd : Type 0) : Type 0 where
  pub zero_usd : Usd
  pub add : Usd → Usd → Usd
  pub max : Usd → Usd → Usd
  pub gt : Usd → Usd → Bool
  pub sum : List Usd → Usd

-- The successive readings of the clock within one call: `timestamp_now`, `timestamp_after` with
-- its seconds, and `current_month_key`.
pub record Clock : Type 0 where
  pub now : ℕ → String
  pub after : ℕ → ℕ → String
  pub month : ℕ → String

-- `a < b` on TEXT columns.
abbrev pub before : String → String → Bool
before a b = is_lt (compare a b)

-- `UPDATE table SET … WHERE test`
abbrev pub update_where {ℓ} : {A : Type ℓ} → (A → Bool) → (A → A) → List A → List A
update_where test set rows = map (λ row. if test row then set row else row) rows

abbrev pub is_queued : JobStatus → Bool
is_queued JobStatus.queued = true
is_queued _ = false

abbrev pub is_running : JobStatus → Bool
is_running JobStatus.running = true
is_running _ = false

abbrev pub is_completed : JobStatus → Bool
is_completed JobStatus.completed = true
is_completed _ = false

abbrev pub is_failed : JobStatus → Bool
is_failed JobStatus.failed = true
is_failed _ = false

-- `status IN ('queued', 'running')`
abbrev pub is_open : JobStatus → Bool
is_open JobStatus.queued = true
is_open JobStatus.running = true
is_open _ = false

abbrev pub is_reserved : ReservationStatus → Bool
is_reserved ReservationStatus.reserved = true
is_reserved _ = false

abbrev pub is_released : ReservationStatus → Bool
is_released ReservationStatus.released = true
is_released _ = false

abbrev pub is_ready : RecordingStatus → Bool
is_ready RecordingStatus.ready = true
is_ready _ = false

abbrev pub is_finalized : UploadStatus → Bool
is_finalized UploadStatus.finalized = true
is_finalized _ = false

abbrev pub find_job_row : String → List JobRow → Option JobRow
find_job_row id jobs = find (λ (j : JobRow). str_eq j.id id) jobs

abbrev pub find_recording_row : String → List RecordingRow → Option RecordingRow
find_recording_row id recordings = find (λ (r : RecordingRow). str_eq r.id id) recordings

abbrev pub find_upload_row : String → List UploadRow → Option UploadRow
find_upload_row id uploads = find (λ (u : UploadRow). str_eq u.id id) uploads
