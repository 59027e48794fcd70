-- ===== src/Base/Pigeonhole.antt =====
-- Distinct numbers out of a list that is no longer than they are: they are all of the list.
use Prim.Native.Nat.{ℕ, suc}
use mathlib.Core.Path.{◌≡◌, refl}
use mathlib.Core.Logic.{◌≢◌, inl, inr}
use mathlib.Core.Bool.{true, false}
use mathlib.Core.List.{List, [], ◌∷◌}
use native.Mathlib.Omega.{arith}
use aprendiendo.Base.Tests.{◌==◌, if◌then◌else◌, Bool-cases}
use aprendiendo.Base.Lists.{length, has, All, All-weaken, IsDistinct}

-- Without the first occurrence.
abbrev pub remove_one : ℕ → List ℕ → List ℕ
remove_one n [] = []
remove_one n (m ∷ ms) = let rest = remove_one n ms in if m == n then ms else m ∷ rest

length-remove_one :
    (n : ℕ) (ms : List ℕ) → has n ms ≡ true → length ms ≡ suc (length (remove_one n ms))
length-remove_one n [] h = absurd (cc)
length-remove_one n (m ∷ ms) h = ground (arith, length-remove_one n ms)

has-remove_one : (v n : ℕ) (ms : List ℕ) → v ≢ n → has v (remove_one n ms) ≡ has v ms
has-remove_one v n [] h = refl
has-remove_one v n (m ∷ ms) h = ground (arith, has-remove_one v n ms, h)

remove_one-IsDistinct :
    (n : ℕ) (ms : List ℕ)
    → IsDistinct (remove_one n ms)
    → has n (remove_one n ms) ≡ false
    → IsDistinct ms
remove_one-IsDistinct n [] distinct fresh = tt
remove_one-IsDistinct n (m ∷ ms) distinct fresh = elim (Bool-cases (m == n)) [
  | inl same ↦
      let kept : remove_one n (m ∷ ms) ≡ ms = ground (arith, same) in
      (ground (arith, same, fresh), rw kept at distinct)
  | inr other ↦
      let kept : remove_one n (m ∷ ms) ≡ m ∷ remove_one n ms = ground (arith, other) in
      let d = rw kept at distinct in
      (
        ground (arith, other, d.0, has-remove_one m n ms),
        remove_one-IsDistinct n ms d.1 (ground (arith, other, fresh)),
      )
]

All-restore {κ} : (P : ℕ → Type κ) (n : ℕ) (ms : List ℕ) → P n → All P (remove_one n ms) → All P ms
All-restore P n [] p all = tt
All-restore P n (m ∷ ms) p all = elim (Bool-cases (m == n)) [
  | inl same ↦
      let kept : remove_one n (m ∷ ms) ≡ ms = ground (arith, same) in
      let equal : m ≡ n = ground (arith, same) in (rw equal p, rw kept at all)
  | inr other ↦
      let kept : remove_one n (m ∷ ms) ≡ m ∷ remove_one n ms = ground (arith, other) in
      let a = rw kept at all in (a.0, All-restore P n ms p a.1)
]

pub All-has {κ} : (P : ℕ → Type κ) (v : ℕ) (ms : List ℕ) → All P ms → has v ms ≡ true → P v
All-has P v [] all h = absurd (cc)
All-has P v (m ∷ ms) all h = elim (Bool-cases (m == v)) [
  | inl same ↦ let equal : v ≡ m = ground (arith, same) in rw equal all.0
  | inr other ↦ All-has P v ms all.1 (ground (arith, other, h))
]

-- Those that are not the head are among the rest.
All-remove_one :
    (n : ℕ) (xs ms : List ℕ)
    → has n xs ≡ false
    → All (λ x. has x ms ≡ true) xs
    → All (λ x. has x (remove_one n ms) ≡ true) xs
All-remove_one n [] ms fresh all = tt
All-remove_one n (x ∷ xs) ms fresh all =
    (ground (arith, has-remove_one x n ms, all.0), All-remove_one n xs ms (ground arith) all.1)

-- As many distinct numbers of a list as it has elements are its elements, without repetition.
pub pigeonhole :
    (xs ms : List ℕ)
    → IsDistinct xs
    → All (λ x. has x ms ≡ true) xs
    → length ms ≡ length xs
    → All (λ m. has m xs ≡ true) ms × IsDistinct ms
pigeonhole [] [] distinct all same = (tt, tt)
pigeonhole [] (m ∷ ms) distinct all same = absurd (omega (arith, same))
pigeonhole (x ∷ xs) ms distinct all same =
    let (among, others) =
      pigeonhole xs (remove_one x ms) distinct.1 (All-remove_one x xs ms distinct.0 all.1)
        (omega (arith, same, length-remove_one x ms all.0)) in
    let fresh : has x (remove_one x ms) ≡ false = elim (Bool-cases (has x (remove_one x ms))) [
      | inl there ↦ absurd (
          ground
            (arith, distinct.0, All-has (λ m. has m xs ≡ true) x (remove_one x ms) among there))
      | inr gone ↦ gone
    ] in
    (
      All-restore (λ m. has m (x ∷ xs) ≡ true) x ms (ground arith)
          (All-weaken (λ m (h : has m xs ≡ true). ground (arith, h)) (remove_one x ms) among),
      remove_one-IsDistinct x ms others fresh,
    )
