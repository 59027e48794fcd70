-- ===== src/Practice/Requests.antt =====
-- src/practice/mod.rs: the tests of the two requests of the practice service.
use aprendiendo.Base.{
  ℕ, String, Bool, not, ◌&&◌, ◌||◌, Option, none, some, Outcome, ◌>>◌, bail_if, is_some_and,
  is_empty, length, all, len, count, codes, is_blank, str_eq, ltb, leb, ◌==◌,
}
use aprendiendo.Practice.Rows.{PracticeError, RequestAnalysisRequest}
use aprendiendo.Practice.Media.{is_audio_mime, is_image_mime, max_upload_bytes, is_path_byte}
use aprendiendo.Practice.Recordings.{CreateUploadRequest}

abbrev pub is_ascii_hexdigit : ℕ → Bool
is_ascii_hexdigit c =
    leb b'0' c && leb c b'9' || leb b'A' c && leb c b'F' || leb b'a' c && leb c b'f'

-- `kind.map(|kind| kind == word).unwrap_or_else(|| by_mime)`
abbrev pub kind_or : Option String → String → Bool → Bool
kind_or none word by_mime = by_mime
kind_or (some kind) word by_mime = str_eq kind word

unfoldable pub validate_upload_request : CreateUploadRequest → Outcome PracticeError (Unit {0})
validate_upload_request input =
    let is_image = kind_or input.kind "image" (is_image_mime input.mime_type) in
    let is_audio = kind_or input.kind "audio" (is_audio_mime input.mime_type) in
    do
      bail_if
          (is_blank input.recording_id
            || ltb 128 (count input.recording_id)
            || not (all is_path_byte (codes input.recording_id)))
          PracticeError.invalid
      bail_if (is_blank input.idempotency_key || ltb 160 (count input.idempotency_key))
          PracticeError.invalid
      bail_if (not (len input.sha256 == 64) || not (all is_ascii_hexdigit (codes input.sha256)))
          PracticeError.invalid
      bail_if (not is_image && not is_audio) PracticeError.invalid
      bail_if
          (is_image && not (is_image_mime input.mime_type)
            || is_audio && not (is_audio_mime input.mime_type))
          PracticeError.unsupported
      bail_if (input.bytes == 0 || ltb (max_upload_bytes input.mime_type) input.bytes)
          PracticeError.too_large

abbrev pub max_task_chars : ℕ
max_task_chars = 2000

abbrev pub max_audio_duration_ms : ℕ
max_audio_duration_ms = 600000

-- The two tests of an `f64` are parameters.
unfoldable pub validate_analysis_request :
    {Usd : Type 0}
    → (Usd → Bool)
    → (Usd → Bool)
    → RequestAnalysisRequest Usd
    → Outcome PracticeError (Unit {0})
validate_analysis_request is_finite is_negative input = do
  bail_if (is_blank input.recording_id || is_blank input.idempotency_key) PracticeError.invalid
  bail_if (is_blank input.task || ltb max_task_chars (count input.task)) PracticeError.invalid
  bail_if (input.duration_ms == 0 || ltb max_audio_duration_ms input.duration_ms)
      PracticeError.invalid
  bail_if (is_empty input.requested_stages || ltb 4 (length input.requested_stages))
      PracticeError.invalid
  bail_if (is_some_and input.spending_reservation_usd (λ v. not (is_finite v) || is_negative v))
      PracticeError.invalid
