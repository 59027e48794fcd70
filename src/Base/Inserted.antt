-- ===== src/Base/Inserted.antt =====
-- Loops that insert the key of each element into a set and stop at a key that is there.
use Prim.Native.Nat.{ℕ, ◌+◌}
use mathlib.Core.Path.{◌≡◌, refl}
use mathlib.Core.Bool.{false}
use mathlib.Core.List.{List, [], ◌∷◌, map}
use native.Mathlib.Omega.{arith}
use aprendiendo.Base.Lists.{length, has, All, IsDistinct}
use aprendiendo.Base.Errors.{Outcome, ok, try_fold, >>=-eq-ok}

module _ {A : Type 0} (key : A → ℕ) where
  -- No key is `n`, where none is in a set with `n`.
  fresh_keys :
      (n : ℕ) (seen : List ℕ) (xs : List A)
      → All (λ x. has (key x) (n ∷ seen) ≡ false) xs
      → (has n (map key xs) ≡ false) × All (λ x. has (key x) seen ≡ false) xs
  fresh_keys n seen [] all = (refl, tt)
  fresh_keys n seen (x ∷ xs) all =
      let (fresh, others) = fresh_keys n seen xs all.1 in
      (ground (arith, all.0, fresh), (ground (arith, all.0), others))

  -- One turn of the loop: the key is new and is inserted, and what the turn tests holds.
  pub record Inserts (P : A → Type 0) (seen : List ℕ) (x : A) (out : List ℕ) : Type 0 where
    pub inserted : out ≡ key x ∷ seen
    pub unseen : has (key x) seen ≡ false
    pub tested : P x

  -- The whole loop: the keys are distinct, and as many are inserted as there are elements.
  pub record InsertsAll (P : A → Type 0) (seen : List ℕ) (xs : List A) (out : List ℕ) : Type 0 where
    pub size : length out ≡ length seen + length xs
    pub distinct : IsDistinct (map key xs)
    pub unseen : All (λ x. has (key x) seen ≡ false) xs
    pub tested : All P xs

  pub try_fold-InsertsAll :
      {E : Type 0} (f : List ℕ → A → Outcome E (List ℕ)) (P : A → Type 0)
      → ((seen out : List ℕ) (x : A) → f seen x ≡ ok out → Inserts P seen x out)
      → (seen : List ℕ) (xs : List A) (out : List ℕ) → try_fold f seen xs ≡ ok out
      → InsertsAll P seen xs out
  try_fold-InsertsAll f P turn seen [] out h = record {
    size = ground arith;
    distinct = tt;
    unseen = tt;
    tested = tt;
  }
  try_fold-InsertsAll f P turn seen (x ∷ xs) out h =
      let (s, first, later) = >>=-eq-ok (f seen x) _ h in
      let one = turn seen s x first in
      let others = try_fold-InsertsAll f P turn (key x ∷ seen) xs out (rw one.inserted at later) in
      let (fresh, unseen) = fresh_keys (key x) seen xs others.unseen in
      record {
        size = ground (arith, others.size);
        distinct = (fresh, others.distinct);
        unseen = (one.unseen, unseen);
        tested = (one.tested, others.tested);
      }
