-- ===== src/Practice/Media.antt =====
-- Media types and managed paths: `normalize_mime` to `safe_media_path` of src/practice/mod.rs.
-- Texts are read as their code points.
use aprendiendo.Base.{
  ℕ, ◌+◌, String, Bool, false, true, not, ◌&&◌, ◌||◌, Option, none, some, List, [], ◌∷◌, codes, any,
  all, is_empty, leb, ◌==◌, is_whitespace, if◌then◌else◌,
}

-- Equality of two texts, by their code points.
abbrev pub same_codes : List ℕ → List ℕ → Bool
same_codes [] [] = true
same_codes (c ∷ cs) (d ∷ ds) = c == d && same_codes cs ds
same_codes _ _ = false

-- `split(c)`: the parts between the occurrences of one character, at least one.
abbrev pub first_part : ℕ → List ℕ → List ℕ
first_part sep [] = []
first_part sep (c ∷ cs) = let rest = first_part sep cs in if c == sep then [] else c ∷ rest

abbrev pub push_first : ℕ → List (List ℕ) → List (List ℕ)
push_first c [] = (c ∷ []) ∷ []
push_first c (p ∷ ps) = (c ∷ p) ∷ ps

unfoldable pub split_on : ℕ → List ℕ → List (List ℕ)
split_on sep [] = [] ∷ []
split_on sep (c ∷ cs) =
    let rest = split_on sep cs in if c == sep then [] ∷ rest else push_first c rest

-- `trim`
unfoldable pub trim_start : List ℕ → List ℕ
trim_start [] = []
trim_start (c ∷ cs) = let rest = trim_start cs in if is_whitespace c then rest else c ∷ cs

unfoldable pub trim_end : List ℕ → List ℕ
trim_end [] = []
trim_end (c ∷ cs) =
    let rest = trim_end cs in if is_empty rest && is_whitespace c then [] else c ∷ rest

abbrev pub to_ascii_lowercase : List ℕ → List ℕ
to_ascii_lowercase [] = []
to_ascii_lowercase (c ∷ cs) =
    (if leb b'A' c && leb c b'Z' then c + 32 else c) ∷ to_ascii_lowercase cs

unfoldable pub normalize_mime : String → List ℕ
unfolding trim_start trim_end is_whitespace
normalize_mime value = to_ascii_lowercase (trim_end (trim_start (first_part b';' (codes value))))

unfoldable pub is_audio_mime : String → Bool
unfolding normalize_mime
is_audio_mime value =
    let m = normalize_mime value in
    same_codes m (codes "audio/m4a")
    || same_codes m (codes "audio/mp4")
    || same_codes m (codes "audio/webm")
    || same_codes m (codes "audio/ogg")
    || same_codes m (codes "audio/opus")

unfoldable pub is_image_mime : String → Bool
unfolding normalize_mime
is_image_mime value =
    let m = normalize_mime value in
    same_codes m (codes "image/jpeg")
    || same_codes m (codes "image/png")
    || same_codes m (codes "image/webp")

abbrev pub max_audio_bytes : ℕ
max_audio_bytes = 10485760

abbrev pub max_image_bytes : ℕ
max_image_bytes = 5242880

unfoldable pub max_upload_bytes : String → ℕ
unfolding is_image_mime
max_upload_bytes mime_type = if is_image_mime mime_type then max_image_bytes else max_audio_bytes

unfoldable pub extension_for_mime : String → String
unfolding normalize_mime
extension_for_mime value =
    let m = normalize_mime value in
    if same_codes m (codes "audio/m4a") || same_codes m (codes "audio/mp4")
    then ".m4a"
    else if same_codes m (codes "audio/ogg") || same_codes m (codes "audio/opus")
    then ".ogg"
    else if same_codes m (codes "image/png")
    then ".png"
    else if same_codes m (codes "image/webp")
    then ".webp"
    else ".webm"

abbrev pub is_ascii_alphanumeric : ℕ → Bool
is_ascii_alphanumeric c =
    leb b'0' c && leb c b'9' || leb b'A' c && leb c b'Z' || leb b'a' c && leb c b'z'

-- The bytes that a component of a managed path, or a recording identifier, may hold.
abbrev pub is_path_byte : ℕ → Bool
is_path_byte c = is_ascii_alphanumeric c || c == b'-' || c == b'_' || c == b'.'

abbrev pub is_bad_component : List ℕ → Bool
is_bad_component p =
    is_empty p || same_codes p (codes ".") || same_codes p (codes "..") || not (all is_path_byte p)

abbrev pub starts_with_slash : List ℕ → Bool
starts_with_slash [] = false
starts_with_slash (c ∷ _) = c == b'/'

-- Whether `safe_media_path` returns a path: the managed directory joined to these components.
-- A character that is not ASCII has only bytes that are refused.
unfoldable pub safe_media_path : List ℕ → Option (List (List ℕ))
unfolding split_on
safe_media_path relative_path =
    if is_empty relative_path
      || starts_with_slash relative_path
      || any (λ c. c == 0x5c) relative_path
      || any is_bad_component (split_on b'/' relative_path)
    then none
    else some (split_on b'/' relative_path)
