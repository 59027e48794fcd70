-- ===== src/Practice/Recordings.antt =====
-- The methods of `PracticeJobStore` on uploads and recordings, with the clean-up of what expired.
use aprendiendo.Base.{
  ℕ, ◌+◌, String, Bool, false, true, not, ◌&&◌, ◌||◌, Option, none, some, List, [], ◌∷◌, ◌++◌,
  Outcome, ok, err, any, all, find, keep, str_eq, is_some, codes, if◌then◌else◌, ltb,
}
use Prim.Native.Nat.{min}
use aprendiendo.Practice.Rows.{
  PracticeError, UploadStatus, RecordingStatus, UploadRow, RecordingRow, JobRow, Store,
  PracticeApiConfig, Clock, update_where, is_reserved, is_ready, find_recording_row,
  find_upload_row,
}
use aprendiendo.Practice.Jobs.{abandoned_media_ttl, cancel_row, release_where}
use aprendiendo.Practice.Media.{is_audio_mime, same_codes, to_ascii_lowercase}

pub record CreateUploadRequest : Type 0 where
  pub recording_id : String
  pub sha256 : String
  pub bytes : ℕ
  pub mime_type : String
  pub kind : Option String
  pub idempotency_key : String

abbrev pub server_audio_ttl : ℕ
server_audio_ttl = 86400

abbrev pub u64_max : ℕ
u64_max = 18446744073709551615

-- `mime_type LIKE 'audio/%'`, which ignores the case of ASCII letters.
abbrev pub has_prefix : List ℕ → List ℕ → Bool
has_prefix [] s = true
has_prefix (p ∷ ps) [] = false
has_prefix (p ∷ ps) (c ∷ cs) = same_codes (p ∷ []) (c ∷ []) && has_prefix ps cs

unfoldable pub like_audio : String → Bool
like_audio mime = has_prefix (codes "audio/") (to_ascii_lowercase (codes mime))

abbrev pub audio_bytes : List RecordingRow → ℕ
audio_bytes [] = 0
audio_bytes (r ∷ rs) =
    (if is_ready r.status && like_audio r.mime_type then r.bytes else 0) + audio_bytes rs

-- Every job still refers to a recording (REFERENCES practice_recordings).
abbrev pub jobs_linked : List RecordingRow → List JobRow → Bool
jobs_linked recordings jobs =
    all (λ (j : JobRow). is_some (find_recording_row j.recording_id recordings)) jobs

-- `job_id IN (SELECT id FROM practice_jobs WHERE …)`
abbrev pub job_where : (JobRow → Bool) → List JobRow → String → Bool
job_where test jobs job_id = any (λ (j : JobRow). str_eq j.id job_id && test j) jobs

module _ {Usd : Type 0} where
  unfoldable pub current_audio_bytes : Store Usd → ℕ
  current_audio_bytes s = audio_bytes s.recordings

  unfoldable pub find_upload : String → Store Usd → Outcome PracticeError UploadRow
  find_upload upload_id s = elim (find_upload_row upload_id s.uploads) [
    | none ↦ err PracticeError.not_found
    | some upload ↦ ok upload
  ]

  unfoldable pub find_recording : String → Store Usd → Outcome PracticeError RecordingRow
  find_recording recording_id s = elim (find_recording_row recording_id s.recordings) [
    | none ↦ err PracticeError.not_found
    | some recording ↦ ok recording
  ]

  unfoldable pub create_upload :
      Clock
      → String
      → CreateUploadRequest
      → String
      → String
      → Store Usd
      → Outcome PracticeError UploadRow × Store Usd
  create_upload clock id input payload_hash staging_path s =
      elim (find (λ (u : UploadRow). str_eq u.idempotency_key input.idempotency_key) s.uploads) [
        | some existing ↦ (
          if str_eq existing.payload_hash payload_hash
              then ok existing
              else err PracticeError.conflict,
          s,
        )
        | none ↦
            if is_some (find_upload_row id s.uploads)
            then (err PracticeError.internal, s)
            else let row : UploadRow = record {
              id = id;
              client_recording_id = input.recording_id;
              idempotency_key = input.idempotency_key;
              payload_hash = payload_hash;
              expected_hash = input.sha256;
              expected_bytes = input.bytes;
              mime_type = input.mime_type;
              staging_path = staging_path;
              status = UploadStatus.created;
              created_at = clock.now 0;
              expires_at = clock.after 1 abandoned_media_ttl;
            } in
              (ok row, record s { uploads = s.uploads ++ row ∷ [] })
      ]

  unfoldable pub mark_upload_written : String → Store Usd → Store Usd
  mark_upload_written upload_id s = record s {
    uploads =
        update_where (λ (u : UploadRow). str_eq u.id upload_id)
          (λ u. record u { status = UploadStatus.uploaded }) s.uploads;
  }

  -- `finalize_upload` of the store: the cap on audio, then one transaction.
  -- `INSERT OR REPLACE` drops the rows with the same `id` or the same `upload_id`.
  unfoldable pub finalize_upload :
      Clock
      → UploadRow
      → String
      → ℕ
      → String
      → PracticeApiConfig Usd
      → Store Usd
      → Outcome PracticeError RecordingRow × Store Usd
  unfolding current_audio_bytes
  finalize_upload clock upload hash bytes relative_path config s =
      if is_audio_mime upload.mime_type
        && ltb config.server_audio_cap_bytes (min (current_audio_bytes s + bytes) u64_max)
      then (err PracticeError.too_large, s)
      else let row : RecordingRow = record {
        id = upload.client_recording_id;
        upload_id = upload.id;
        relative_path = relative_path;
        hash = hash;
        bytes = bytes;
        mime_type = upload.mime_type;
        created_at = clock.now 0;
        expires_at = clock.after 1 server_audio_ttl;
        status = RecordingStatus.ready;
      } in
        let recordings =
          keep
            (λ (r : RecordingRow).
              not (str_eq r.id upload.client_recording_id || str_eq r.upload_id upload.id))
            s.recordings
          ++ row ∷ [] in
        if is_some (find_upload_row upload.id s.uploads) && jobs_linked recordings s.jobs
        then (
          ok row,
          record s {
            uploads =
                update_where (λ (u : UploadRow). str_eq u.id upload.id)
                  (λ u. record u { status = UploadStatus.finalized }) s.uploads;
            recordings = recordings;
          },
        )
        else (err PracticeError.internal, s)

  unfoldable pub delete_recording :
      Clock → String → Store Usd → Outcome PracticeError RecordingRow × Store Usd
  delete_recording clock recording_id s = elim (find_recording_row recording_id s.recordings) [
    | none ↦ (err PracticeError.not_found, s)
    | some recording ↦
        let jobs =
          update_where (λ (j : JobRow). str_eq j.recording_id recording_id)
            (cancel_row (clock.now 0)) s.jobs in
        (
          ok recording,
          record s {
            recordings =
                update_where (λ (r : RecordingRow). str_eq r.id recording_id)
                  (λ r. record r { status = RecordingStatus.deleted }) s.recordings;
            jobs = jobs;
            reservations =
                release_where
                  (λ r.
                    job_where (λ j. str_eq j.recording_id recording_id) jobs r.job_id
                    && is_reserved r.status)
                  s.reservations;
          },
        )
  ]
