-- ===== src/Oauth/Bytes.antt =====
-- The comparison of secrets by their bytes.
use Prim.Native.Char.{Char, char, code}
use mathlib.Core.Path.{ap₂, ap}
use aprendiendo.Base.{
  ℕ, zero, suc, ◌*◌, ◌/◌, ◌<◌, ◌≡◌, ◌↔◌, refl, String, true, List, [], ◌∷◌, length, All, All-append,
  arith,
}
use aprendiendo.Oauth.Verify.{
  xor_bits, or_bits, xor_byte, or_byte, fold_diff, utf8_of, as_bytes, constant_time_eq,
}

abbrev power : ℕ → ℕ
power zero = 1
power (suc k) = 2 * power k

xor_bits-zero : (k x y : ℕ) → x < power k → y < power k → xor_bits k x y ≡ 0 → x ≡ y
xor_bits-zero zero x y hx hy h = omega (arith, hx, hy)
xor_bits-zero (suc k) x y hx hy h =
    let halves =
      xor_bits-zero k (x / 2) (y / 2) (omega (arith, hx)) (omega (arith, hy)) (omega (arith, h)) in
    omega (arith, h, halves)

xor_bits-same : (k x : ℕ) → xor_bits k x x ≡ 0
xor_bits-same zero x = refl
xor_bits-same (suc k) x = omega (arith, xor_bits-same k (x / 2))

xor_bits-lt : (k x y : ℕ) → xor_bits k x y < power k
xor_bits-lt zero x y = omega arith
xor_bits-lt (suc k) x y = omega (arith, xor_bits-lt k (x / 2) (y / 2))

or_bits-lt : (k x y : ℕ) → or_bits k x y < power k
or_bits-lt zero x y = omega arith
or_bits-lt (suc k) x y = omega (arith, or_bits-lt k (x / 2) (y / 2))

or_bits-zero : (k x y : ℕ) → x < power k → y < power k → or_bits k x y ≡ 0 → (x ≡ 0) × (y ≡ 0)
or_bits-zero zero x y hx hy h = (omega (arith, hx), omega (arith, hy))
or_bits-zero (suc k) x y hx hy h =
    let (a, b) =
      or_bits-zero k (x / 2) (y / 2) (omega (arith, hx)) (omega (arith, hy)) (omega (arith, h)) in
    (omega (arith, h, a), omega (arith, h, b))

or_bits-none : (k : ℕ) → or_bits k 0 0 ≡ 0
or_bits-none zero = refl
or_bits-none (suc k) = omega (arith, or_bits-none k)

xor_byte_iff : (x y : ℕ) → x < 256 → y < 256 → (xor_byte x y ≡ 0) ↔ (x ≡ y)
unfolding xor_byte
xor_byte_iff x y hx hy = ((λ h. xor_bits-zero 8 x y hx hy h), (λ same. rw same (xor_bits-same 8 y)))

or_byte_iff : (x y : ℕ) → x < 256 → y < 256 → (or_byte x y ≡ 0) ↔ ((x ≡ 0) × (y ≡ 0))
unfolding or_byte
or_byte_iff x y hx hy = ((λ h. or_bits-zero 8 x y hx hy h), (λ (a, b). rw (a, b) (or_bits-none 8)))

xor_byte-lt : (x y : ℕ) → xor_byte x y < 256
unfolding xor_byte
xor_byte-lt x y = xor_bits-lt 8 x y

or_byte-lt : (x y : ℕ) → or_byte x y < 256
unfolding or_byte
or_byte-lt x y = or_bits-lt 8 x y

-- The difference is 0 exactly when it was 0 and the bytes agree.
fold_diff_iff :
    (diff : ℕ) (xs ys : List ℕ)
    → diff < 256
    → All (λ x. x < 256) xs
    → All (λ y. y < 256) ys
    → length xs ≡ length ys
    → (fold_diff diff xs ys ≡ 0) ↔ ((diff ≡ 0) × (xs ≡ ys))
fold_diff_iff diff [] [] small bx by same = ((λ h. (h, refl)), (λ h. h.0))
fold_diff_iff diff [] (y ∷ ys) small bx by same = absurd (omega (arith, same))
fold_diff_iff diff (x ∷ xs) [] small bx by same = absurd (omega (arith, same))
fold_diff_iff diff (x ∷ xs) (y ∷ ys) small bx by same =
    let ih =
      fold_diff_iff (or_byte diff (xor_byte x y)) xs ys (or_byte-lt diff (xor_byte x y)) bx.1 by.1
        (omega (arith, same)) in
    let either = or_byte_iff diff (xor_byte x y) small (xor_byte-lt x y) in
    let equal = xor_byte_iff x y bx.0 by.0 in
    (
      (λ h.
          let (none', tails) = ih.0 h in
          let (start, bytes) = either.0 none' in
          (start, ap₂ (λ b bs. b ∷ bs) (equal.0 bytes) tails)),
      (λ (start, lists).
          ih.1 (either.1 (start, equal.1 (ground (arith, lists))), ground (arith, lists))),
    )

code-lt : (c : Char) → code c < 1114112
code-lt (char n p) = ground (arith, p)

utf8_of-bytes : (c : ℕ) → c < 1114112 → All (λ b. b < 256) (utf8_of c)
utf8_of-bytes c h = ground (arith, h)

as_bytes-bytes : (s : String) → All (λ b. b < 256) (as_bytes s)
as_bytes-bytes String.[] = tt
as_bytes-bytes (String.◌∷◌ c s) =
    All-append (λ b. b < 256) (utf8_of (code c)) (as_bytes s) (utf8_of-bytes (code c) (code-lt c))
      (as_bytes-bytes s)

-- The comparison of secrets tells whether their bytes are the same.
pub constant_time_eq_iff :
    (a b : String) → (constant_time_eq a b ≡ true) ↔ (as_bytes a ≡ as_bytes b)
unfolding constant_time_eq
constant_time_eq_iff a b =
    let same_iff =
      fold_diff_iff 0 (as_bytes a) (as_bytes b) (omega arith) (as_bytes-bytes a)
        (as_bytes-bytes b) in
    (
      (λ h. ((same_iff (ground (arith, h))).0 (ground (arith, h))).1),
      (λ same. ground (arith, ap length same, (same_iff (ap length same)).1 (refl, same))),
    )
