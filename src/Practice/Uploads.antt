-- ===== src/Practice/Uploads.antt =====
-- The limits on what a client can upload.
use aprendiendo.Base.{
  ℕ, ◌+◌, ◌≤◌, ◌<◌, String, Bool, true, false, not, ◌&&◌, ◌||◌, Option, none, some, List, [], ◌∷◌,
  ◌++◌, ◌≡◌, ◌↔◌, refl, is_ok, all, keep, len, count, codes, is_blank, str_eq, eq_iff, arith,
  Option-cases, inl, inr, All, All-keep, All-append, Bool-cases, ltb, is_some, if◌then◌else◌,
}
use Prim.Native.Nat.{min}
use aprendiendo.Practice.Rows.{
  RecordingStatus, UploadRow, RecordingRow, Store, Clock, PracticeApiConfig, is_ready,
  find_upload_row,
}
use aprendiendo.Practice.Media.{is_audio_mime, is_image_mime, max_upload_bytes, is_path_byte}
use aprendiendo.Practice.Recordings.{
  CreateUploadRequest, finalize_upload, current_audio_bytes, audio_bytes, u64_max, server_audio_ttl,
  jobs_linked,
}
use aprendiendo.Practice.Mime.{IsPlain, like_audio-IsPlain}
use aprendiendo.Practice.Requests.{validate_upload_request, is_ascii_hexdigit}

-- The MIME type is of a known image or sound, and the declared kind, if any, says which.
abbrev KindFits : Option String → String → Type 0
KindFits none mime = (is_image_mime mime || is_audio_mime mime) ≡ true
KindFits (some kind) mime =
    (str_eq kind "image" && is_image_mime mime || str_eq kind "audio" && is_audio_mime mime) ≡ true

abbrev pub UploadFits : CreateUploadRequest → Type 0
UploadFits input =
    (is_blank input.recording_id ≡ false)
    × (count input.recording_id ≤ 128)
    × (all is_path_byte (codes input.recording_id) ≡ true)
    × (is_blank input.idempotency_key ≡ false)
    × (count input.idempotency_key ≤ 160)
    × (len input.sha256 ≡ 64)
    × (all is_ascii_hexdigit (codes input.sha256) ≡ true)
    × KindFits input.kind input.mime_type
    × (1 ≤ input.bytes)
    × (input.bytes ≤ max_upload_bytes input.mime_type)

not_both : (kind : String) → str_eq kind "image" ≡ true → str_eq kind "audio" ≡ false
not_both kind h = let same : kind ≡ "image" = (eq_iff kind "image").0 h in rw same refl

-- An upload request is accepted exactly when its identifier is a bounded word of path bytes, its
-- key is bounded, its digest has 64 hexadecimal digits, its kind and its MIME type agree, and
-- its size is positive and within the limit of the type.
pub validate_upload_request_iff :
    (input : CreateUploadRequest)
    → (is_ok (validate_upload_request input) ≡ true) ↔ UploadFits input
unfolding validate_upload_request
validate_upload_request_iff input = elim (Option-cases input.kind) [
  | inl absent ↦ ground arith
  | inr (kind, declared) ↦ ground (arith, not_both kind)
]

-- The bytes of the recordings that are ready and whose MIME type is of sound, as the code tells
-- sound when it accepts an upload.
abbrev pub sound_bytes : List RecordingRow → ℕ
sound_bytes [] = 0
sound_bytes (r ∷ rs) =
    (if is_ready r.status && is_audio_mime r.mime_type then r.bytes else 0) + sound_bytes rs

audio_bytes-eq-sound_bytes :
    (rs : List RecordingRow)
    → All (λ (r : RecordingRow). IsPlain r.mime_type) rs
    → audio_bytes rs ≡ sound_bytes rs
audio_bytes-eq-sound_bytes [] a = refl
audio_bytes-eq-sound_bytes (r ∷ rs) a =
    ground (arith, audio_bytes-eq-sound_bytes rs a.1, like_audio-IsPlain r.mime_type a.0)

sound_bytes-keep :
    (p : RecordingRow → Bool) (rs : List RecordingRow) → sound_bytes (keep p rs) ≤ sound_bytes rs
sound_bytes-keep p [] = omega arith
sound_bytes-keep p (r ∷ rs) = ground (arith, sound_bytes-keep p rs)

sound_bytes-append :
    (rs : List RecordingRow) (r : RecordingRow)
    → sound_bytes (rs ++ r ∷ []) ≡ sound_bytes rs + sound_bytes (r ∷ [])
sound_bytes-append [] r = ground arith
sound_bytes-append (q ∷ rs) r = ground (arith, sound_bytes-append rs r)

-- While all sound that is stored, as `is_audio_mime` tells it, is within the server's cap, and the
-- cap is less than the greatest number of 64 bits, finalizing an upload keeps it within the cap,
-- where the MIME types of the stored recordings and of the upload are of known sound or images and
-- do not start with whitespace; so are then those that are stored afterwards.
pub finalize_upload-within_cap :
    {Usd : Type 0} (clock : Clock) (upload : UploadRow) (hash : String) (bytes : ℕ)
    (relative_path : String) (config : PracticeApiConfig Usd) (s : Store Usd)
    → config.server_audio_cap_bytes < u64_max
    → All (λ (r : RecordingRow). IsPlain r.mime_type) s.recordings
    → IsPlain upload.mime_type
    → sound_bytes s.recordings ≤ config.server_audio_cap_bytes
    → let t = (finalize_upload clock upload hash bytes relative_path config s).1 in
      (sound_bytes t.recordings ≤ config.server_audio_cap_bytes)
      × All (λ (r : RecordingRow). IsPlain r.mime_type) t.recordings
unfolding finalize_upload current_audio_bytes
finalize_upload-within_cap clock upload hash bytes relative_path config s small agreed agrees
      within =
    let other : RecordingRow → Bool =
      λ r. not (str_eq r.id upload.client_recording_id || str_eq r.upload_id upload.id) in
    let row : RecordingRow = record {
      id = upload.client_recording_id;
      upload_id = upload.id;
      relative_path = relative_path;
      hash = hash;
      bytes = bytes;
      mime_type = upload.mime_type;
      created_at = clock.now 0;
      expires_at = clock.after 1 server_audio_ttl;
      status = RecordingStatus.ready;
    } in
    let recordings = keep other s.recordings ++ row ∷ [] in
    let kept : All (λ (r : RecordingRow). IsPlain r.mime_type) recordings =
      All-append (λ (r : RecordingRow). IsPlain r.mime_type) (keep other s.recordings) (row ∷ [])
        (All-keep (λ (r : RecordingRow). IsPlain r.mime_type) other s.recordings agreed)
        (agrees, tt) in
    (
      ground (
        arith,
        audio_bytes-eq-sound_bytes s.recordings agreed,
        sound_bytes-keep other s.recordings,
        sound_bytes-append (keep other s.recordings) row,
      ),
      elim (Bool-cases (
          is_audio_mime upload.mime_type
          && ltb config.server_audio_cap_bytes (min (audio_bytes s.recordings + bytes) u64_max))) [
            | inl full ↦ rw full agreed
            | inr free ↦
                elim (Bool-cases (
                  is_some (find_upload_row upload.id s.uploads) && jobs_linked recordings s.jobs)) [
                    | inl stored ↦ rw (free, stored) kept
                    | inr failed ↦ rw (free, failed) agreed
                  ]
          ],
    )
