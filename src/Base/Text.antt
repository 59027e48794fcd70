-- ===== src/Base/Text.antt =====
-- Rust's `str` as the native text: `len` is `.len()` (UTF-8 bytes) and `count` is
-- `.chars().count()`.
use Prim.Native.Nat.{ℕ}
use Prim.Native.Char.{code}
use Prim.Native.String.{String}
use mathlib.Core.Bool.{Bool, true, false, not, ◌&&◌, ◌||◌}
use mathlib.Core.List.{List, [], ◌∷◌}
use aprendiendo.Base.Tests.{leb, ◌==◌, if◌then◌else◌}
use aprendiendo.Base.Lists.{keep, is_empty}

-- The code points of a text.
abbrev pub codes : String → List ℕ
codes String.[] = []
codes (String.◌∷◌ c s) = code c ∷ codes s

-- `char::is_whitespace`: the code points with the property White_Space.
unfoldable pub is_whitespace : ℕ → Bool
is_whitespace c =
    (leb 9 c && leb c 13)
    || c == 32
    || c == 0x85
    || c == 0xa0
    || c == 0x1680
    || (leb 0x2000 c && leb c 0x200a)
    || c == 0x2028
    || c == 0x2029
    || c == 0x202f
    || c == 0x205f
    || c == 0x3000

abbrev all_whitespace : List ℕ → Bool
all_whitespace [] = true
all_whitespace (c ∷ cs) = is_whitespace c && all_whitespace cs

-- `text.trim().is_empty()`
unfoldable pub is_blank : String → Bool
unfolding is_whitespace
is_blank s = all_whitespace (codes s)

-- `==` on the code points of two texts.
abbrev pub same_codes : List ℕ → List ℕ → Bool
same_codes [] [] = true
same_codes [] (_ ∷ _) = false
same_codes (_ ∷ _) [] = false
same_codes (c ∷ cs) (d ∷ ds) = c == d && same_codes cs ds

-- `u8::is_ascii_whitespace`
abbrev is_ascii_whitespace : ℕ → Bool
is_ascii_whitespace c = c == 9 || c == 10 || c == 12 || c == 13 || c == 32

abbrev cons_first : ℕ → List (List ℕ) → List (List ℕ)
cons_first c [] = (c ∷ []) ∷ []
cons_first c (w ∷ ws) = (c ∷ w) ∷ ws

abbrev split_where : (ℕ → Bool) → List ℕ → List (List ℕ)
split_where p [] = [] ∷ []
split_where p (c ∷ cs) = let rest = split_where p cs in if p c then [] ∷ rest else cons_first c rest

-- `split_ascii_whitespace()`: the parts between whitespace that are not empty.
unfoldable pub split_ascii_whitespace : List ℕ → List (List ℕ)
split_ascii_whitespace cs = keep (λ w. not (is_empty w)) (split_where is_ascii_whitespace cs)
