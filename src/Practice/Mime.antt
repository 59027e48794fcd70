-- ===== src/Practice/Mime.antt =====
-- Two tests for sound in src/practice/mod.rs: `is_audio_mime`, and `LIKE 'audio/%'` of the cap.
use aprendiendo.Base.{
  ℕ, String, Bool, true, false, not, ◌||◌, List, [], ◌∷◌, ◌≡◌, refl, inl, inr, codes, arith,
  is_whitespace, Bool-cases,
}
use mathlib.Core.Path.{subst}
use aprendiendo.Practice.Media.{
  same_codes, first_part, trim_start, trim_end, to_ascii_lowercase, normalize_mime, is_audio_mime,
  is_image_mime,
}
use aprendiendo.Practice.Recordings.{has_prefix, like_audio}

-- The text does not start with whitespace.
abbrev is_flush : List ℕ → Bool
is_flush [] = true
is_flush (c ∷ _) = not (is_whitespace c)

-- A MIME type that is accepted, and does not start with whitespace.
pub record IsPlain (mime : String) : Type 0 where
  pub known : (is_audio_mime mime || is_image_mime mime) ≡ true
  pub flush : is_flush (codes mime) ≡ true

same_codes-eq : (a b : List ℕ) → same_codes a b ≡ true → a ≡ b
same_codes-eq [] [] h = refl
same_codes-eq [] (d ∷ ds) h = cc
same_codes-eq (c ∷ cs) [] h = cc
same_codes-eq (c ∷ cs) (d ∷ ds) h = ground (arith, same_codes-eq cs ds)

has_prefix-first_part :
    (ps cs : List ℕ)
    → has_prefix ps (to_ascii_lowercase (first_part b';' cs)) ≡ true
    → has_prefix ps (to_ascii_lowercase cs) ≡ true
has_prefix-first_part [] cs h = refl
has_prefix-first_part (p ∷ ps) [] h = h
has_prefix-first_part (p ∷ ps) (c ∷ cs) h = ground (arith, has_prefix-first_part ps cs)

has_prefix-trim_end :
    (ps cs : List ℕ)
    → has_prefix ps (to_ascii_lowercase (trim_end cs)) ≡ true
    → has_prefix ps (to_ascii_lowercase cs) ≡ true
unfolding trim_end
has_prefix-trim_end [] cs h = refl
has_prefix-trim_end (p ∷ ps) [] h = h
has_prefix-trim_end (p ∷ ps) (c ∷ cs) h = ground (arith, has_prefix-trim_end ps cs)

trim_start-flush : (cs : List ℕ) → is_flush cs ≡ true → trim_start cs ≡ cs
unfolding trim_start
trim_start-flush [] h = refl
trim_start-flush (c ∷ cs) h = ground arith

first_part-flush : (cs : List ℕ) → is_flush cs ≡ true → is_flush (first_part b';' cs) ≡ true
first_part-flush [] h = refl
first_part-flush (c ∷ cs) h = ground arith

-- What the normalised type starts with, the type starts with, in any case of its letters.
has_prefix-normalize_mime :
    (ps : List ℕ) (mime : String)
    → is_flush (codes mime) ≡ true
    → has_prefix ps (normalize_mime mime) ≡ true
    → has_prefix ps (to_ascii_lowercase (codes mime)) ≡ true
unfolding normalize_mime
has_prefix-normalize_mime ps mime flush h =
    let part = first_part b';' (codes mime) in
    let start = trim_start-flush part (first_part-flush (codes mime) flush) in
    has_prefix-first_part ps (codes mime) (
      has_prefix-trim_end ps part
        (subst (λ x. has_prefix ps (to_ascii_lowercase (trim_end x)) ≡ true) start h))

prefix_of :
    (ps name normal : List ℕ)
    → has_prefix ps name ≡ true
    → same_codes normal name ≡ true
    → has_prefix ps normal ≡ true
prefix_of ps name normal starts same = rw (same_codes-eq normal name same) starts

is_audio_mime-prefix :
    (mime : String)
    → is_audio_mime mime ≡ true
    → has_prefix (codes "audio/") (normalize_mime mime) ≡ true
unfolding is_audio_mime
is_audio_mime-prefix mime h =
    let starts = prefix_of (codes "audio/") in
    let normal = normalize_mime mime in
    ground (
      arith,
      starts (codes "audio/m4a") normal refl,
      starts (codes "audio/mp4") normal refl,
      starts (codes "audio/webm") normal refl,
      starts (codes "audio/ogg") normal refl,
      starts (codes "audio/opus") normal refl,
    )

is_image_mime-prefix :
    (mime : String)
    → is_image_mime mime ≡ true
    → has_prefix (codes "image/") (normalize_mime mime) ≡ true
unfolding is_image_mime
is_image_mime-prefix mime h =
    let starts = prefix_of (codes "image/") in
    let normal = normalize_mime mime in
    ground (
      arith,
      starts (codes "image/jpeg") normal refl,
      starts (codes "image/png") normal refl,
      starts (codes "image/webp") normal refl,
    )

image_no_audio :
    (cs : List ℕ) → has_prefix (codes "image/") cs ≡ true → has_prefix (codes "audio/") cs ≡ false
image_no_audio [] h = refl
image_no_audio (c ∷ cs) h = ground arith

-- On an accepted MIME type that does not start with whitespace the query and the code agree.
pub like_audio-IsPlain : (mime : String) → IsPlain mime → like_audio mime ≡ is_audio_mime mime
unfolding like_audio
like_audio-IsPlain mime plain = elim (Bool-cases (is_audio_mime mime)) [
  | inl sound ↦ rw sound (
      has_prefix-normalize_mime (codes "audio/") mime plain.flush (is_audio_mime-prefix mime sound))
  | inr silent ↦
      let image : is_image_mime mime ≡ true = ground (arith, silent, plain.known) in
      rw silent (
        image_no_audio (to_ascii_lowercase (codes mime)) (
          has_prefix-normalize_mime (codes "image/") mime plain.flush
            (is_image_mime-prefix mime image)))
]
