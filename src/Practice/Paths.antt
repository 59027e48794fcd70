-- ===== src/Practice/Paths.antt =====
-- A managed media path never leaves the media directory.
use aprendiendo.Base.{
  ℕ, true, false, some, List, [], ◌∷◌, ◌++◌, ◌≡◌, refl, codes, any, all, is_empty, ==_iff, All,
  arith,
}
use aprendiendo.Practice.Media.{
  safe_media_path, split_on, push_first, same_codes, is_path_byte, is_bad_component,
}

-- The parts with `sep` between them.
abbrev pub join : ℕ → List (List ℕ) → List ℕ
join sep [] = []
join sep (p ∷ []) = p
join sep (p ∷ q ∷ ps) = p ++ sep ∷ join sep (q ∷ ps)

-- A component that names an entry of the directory it is taken in: it is not empty, not the
-- directory itself, not its parent, and has no separator of any platform.
pub record IsEntry (p : List ℕ) : Type 0 where
  pub nonempty : is_empty p ≡ false
  pub not_here : same_codes p (codes ".") ≡ false
  pub not_parent : same_codes p (codes "..") ≡ false
  pub plain : all is_path_byte p ≡ true

join-push_first :
    (sep c : ℕ) (ps : List (List ℕ))
    → is_empty ps ≡ false
    → join sep (push_first c ps) ≡ c ∷ join sep ps
join-push_first sep c [] h = cc
join-push_first sep c (p ∷ []) h = refl
join-push_first sep c (p ∷ q ∷ ps) h = refl

push_first-nonempty : (c : ℕ) (ps : List (List ℕ)) → is_empty (push_first c ps) ≡ false
push_first-nonempty c [] = refl
push_first-nonempty c (p ∷ ps) = refl

split_on-nonempty : (sep : ℕ) (cs : List ℕ) → is_empty (split_on sep cs) ≡ false
unfolding split_on
split_on-nonempty sep [] = refl
split_on-nonempty sep (c ∷ cs) = ground (arith, push_first-nonempty c (split_on sep cs))

join-split_on : (sep : ℕ) (cs : List ℕ) → join sep (split_on sep cs) ≡ cs
unfolding split_on
join-split_on sep [] = refl
join-split_on sep (c ∷ cs) = ground (
  arith,
  ==_iff c sep,
  join-split_on sep cs,
  split_on-nonempty sep cs,
  join-push_first sep c (split_on sep cs),
)

All-entries : (ps : List (List ℕ)) → any is_bad_component ps ≡ false → All IsEntry ps
All-entries [] h = tt
All-entries (p ∷ ps) h = (
  record {
    nonempty = ground arith;
    not_here = ground arith;
    not_parent = ground arith;
    plain = ground arith;
  },
  All-entries ps (ground arith),
)

-- A path that is accepted is taken apart into the components that it is written with, and each
-- of them names an entry of the directory before it.
pub safe_media_path-IsEntry :
    (path : List ℕ) (parts : List (List ℕ))
    → safe_media_path path ≡ some parts
    → (join b'/' parts ≡ path) × All IsEntry parts
unfolding safe_media_path
safe_media_path-IsEntry path parts h =
    let facts : (parts ≡ split_on b'/' path) × (any is_bad_component (split_on b'/' path) ≡ false) =
      ground arith in
    rw facts.0 (join-split_on b'/' path, All-entries (split_on b'/' path) facts.1)
