-- ===== src/Activities/Phases.antt =====
-- The phases that src/activities.rs gives to the items of a role play.
use aprendiendo.Base.{ℕ, zero, suc, ◌+◌, ◌-◌, ◌≤◌, ◌<◌, List, [], ◌∷◌, ◌++◌, ◌≡◌, refl, ap, arith}
use aprendiendo.Model.Formats.{ActivityType, ActivityItemPhase}
use aprendiendo.Activities.Catalog.{phase_for_item, wrapping_sub}

-- The phases of `k` items from the item `i` on, in a role play of `n` items.
abbrev pub phases : ℕ → ℕ → ℕ → ℕ → List ActivityItemPhase
phases n c i zero = []
phases n c i (suc k) =
    phase_for_item ActivityType.role_play_complications i n c ∷ phases n c (suc i) k

abbrev pub repeat : ℕ → ActivityItemPhase → List ActivityItemPhase
repeat zero p = []
repeat (suc n) p = p ∷ repeat n p

abbrev pub max_usize : ℕ
max_usize = 18446744073709551615

-- `item_count - complication_count` does not wrap while there are more items.
wrapping_sub-le : (n c : ℕ) → c ≤ n → n ≤ max_usize → wrapping_sub n c ≡ n - c
wrapping_sub-le n c h w = omega arith

module _ (n c : ℕ) (fewer : c < n) (w : n ≤ max_usize) where
  last_phases :
      (i k : ℕ)
      → 1 ≤ i
      → n - c ≤ i
      → i + k ≡ n
      → phases n c i k ≡ repeat k ActivityItemPhase.complication
  unfolding phase_for_item
  last_phases i zero l h e = refl
  last_phases i (suc k) l h e =
      let rest = last_phases (suc i) k (omega arith) (omega arith) (omega arith) in
      ground (arith, wrapping_sub-le n c (omega arith) w, rest)

  later_phases :
      (i f : ℕ)
      → 1 ≤ i
      → i + f ≡ n - c
      → phases n c i (f + c)
        ≡ repeat f ActivityItemPhase.follow_up ++ repeat c ActivityItemPhase.complication
  unfolding phase_for_item
  later_phases i zero l e =
      let z : 0 + c ≡ c = omega arith in rw z (last_phases i c l (omega arith) (omega arith))
  later_phases i (suc f) l e =
      let rest = later_phases (suc i) f (omega arith) (omega arith) in
      let z : suc f + c ≡ suc (f + c) = omega arith in
      let unrolled : phases n c i (suc (f + c))
          ≡ ActivityItemPhase.follow_up
            ∷ (repeat f ActivityItemPhase.follow_up ++ repeat c ActivityItemPhase.complication) =
        ground (arith, wrapping_sub-le n c (omega arith) w, rest) in
      rw z unrolled

-- A role play with fewer complications than items, at least one item and no more than a `usize`
-- can count, starts with the initial item and ends with exactly its complications.
pub phase_for_item-role_play :
    (f c : ℕ)
    → suc (f + c) ≤ max_usize
    → phases (suc (f + c)) c 0 (suc (f + c))
      ≡ ActivityItemPhase.initial
        ∷ (repeat f ActivityItemPhase.follow_up ++ repeat c ActivityItemPhase.complication)
unfolding phase_for_item
phase_for_item-role_play f c w =
    ap (λ l. ActivityItemPhase.initial ∷ l)
      (later_phases (suc (f + c)) c (omega arith) w 1 f (omega arith) (omega arith))
