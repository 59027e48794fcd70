-- ===== src/Activities/Runs.antt =====
-- What an accepted recording says about its activity runs and their numbers.
use aprendiendo.Base.{
  ℕ, Bool, true, false, not, ◌&&◌, Option, none, some, List, [], ◌∷◌, ◌≡◌, ◌≢◌, refl, ok, try_fold,
  >>=-eq-ok, is_some, or_else, Option-cases, map, keep, has, IsDistinct, All, any, ==_iff, ◌==◌,
  arith, inl, inr, if◌then◌else◌,
}
use aprendiendo.Model.Formats.{ActivityType}
use aprendiendo.Model.Requests.{ActivityRunInput}
use aprendiendo.Activities.Recording.{check_run, get, put}

get-keep {ℓ} :
    {A : Type ℓ} (k j : ℕ) (m : List (ℕ × A))
    → get k (keep (λ entry. not (entry.0 == j)) m) ≡ (if k == j then none else get k m)
get-keep k j [] = ground arith
get-keep k j ((i, v) ∷ m) = ground (arith, get-keep k j m)

pub get-put {ℓ} :
    {A : Type ℓ} (k j : ℕ) (v : A) (m : List (ℕ × A))
    → get k (put j v m) ≡ (if k == j then some v else get k m)
get-put k j v m = ground (arith, get-keep k j m)

-- A run that is accepted has a number that is neither zero nor in use.
pub check_run-ok :
    (runs : List (ℕ × ActivityType)) (run : ActivityRunInput) {out : List (ℕ × ActivityType)}
    → check_run runs run ≡ ok out
    → (get run.run_no runs ≡ none)
      × (run.run_no ≢ 0)
      × (out ≡ put run.run_no run.activity_type runs)
unfolding check_run
check_run-ok runs run h = ground arith

-- The type of the run with the number `k`, the last one if there are several.
abbrev pub type_of : ℕ → List ActivityRunInput → Option ActivityType
type_of k [] = none
type_of k (r ∷ rs) = or_else (type_of k rs) (if r.run_no == k then some r.activity_type else none)

pub type_of-any :
    (p : ActivityType → Bool) (k : ℕ) (rs : List ActivityRunInput) {t : ActivityType}
    → type_of k rs ≡ some t
    → p t ≡ true
    → any (λ (r : ActivityRunInput). r.run_no == k && p r.activity_type) rs ≡ true
type_of-any p k [] h e = cc
type_of-any p k (r ∷ rs) h e = elim (Option-cases (type_of k rs)) [
  | inl missing ↦ ground arith
  | inr (u, there) ↦ ground (arith, type_of-any p k rs there)
]

-- A number that the map has is none of those that it lacks.
not_has :
    (j : ℕ) (m : List (ℕ × ActivityType))
    → is_some (get j m) ≡ true
    → (rs : List ActivityRunInput) → All (λ (r : ActivityRunInput). get r.run_no m ≡ none) rs
    → has j (map (λ (r : ActivityRunInput). r.run_no) rs) ≡ false
not_has j m h [] a = refl
not_has j m h (r ∷ rs) a = ground (arith, not_has j m h rs a.1, ==_iff r.run_no j)

abbrev pub run_numbers : List ActivityRunInput → List ℕ
run_numbers runs = map (λ (r : ActivityRunInput). r.run_no) runs

-- The loop over the runs.
pub record Accepted (seen : List (ℕ × ActivityType)) (rs : List ActivityRunInput)
    (out : List (ℕ × ActivityType)) : Type 0 where
  pub distinct : IsDistinct (run_numbers rs)
  pub fresh : All (λ (r : ActivityRunInput). get r.run_no seen ≡ none) rs
  pub positive : All (λ (r : ActivityRunInput). r.run_no ≢ 0) rs
  pub types : (k : ℕ) → get k out ≡ or_else (type_of k rs) (get k seen)

All-fresh :
    (j : ℕ) (t : ActivityType) (m : List (ℕ × ActivityType)) (rs : List ActivityRunInput)
    → All (λ (r : ActivityRunInput). get r.run_no (put j t m) ≡ none) rs
    → All (λ (r : ActivityRunInput). get r.run_no m ≡ none) rs
All-fresh j t m [] a = tt
All-fresh j t m (r ∷ rs) a = (ground (arith, get-put r.run_no j t m), All-fresh j t m rs a.1)

pub try_fold-check_run :
    (seen : List (ℕ × ActivityType)) (rs : List ActivityRunInput) {out : List (ℕ × ActivityType)}
    → try_fold check_run seen rs ≡ ok out
    → Accepted seen rs out
try_fold-check_run seen [] h = record {
  distinct = tt;
  fresh = tt;
  positive = tt;
  types = λ k. ground (arith, h);
}
try_fold-check_run seen (r ∷ rs) {out} h =
    let (seen', first, rest) = >>=-eq-ok (check_run seen r) _ h in
    let (fresh, positive, same) = check_run-ok seen r first in
    let later : Accepted (put r.run_no r.activity_type seen) rs out =
      try_fold-check_run (put r.run_no r.activity_type seen) rs (rw same at rest) in
    record {
      distinct = (
        not_has r.run_no (put r.run_no r.activity_type seen)
            (ground (arith, get-put r.run_no r.run_no r.activity_type seen)) rs later.fresh,
        later.distinct,
      );
      fresh = (fresh, All-fresh r.run_no r.activity_type seen rs later.fresh);
      positive = (positive, later.positive);
      types = λ k. ground (arith, later.types k, get-put k r.run_no r.activity_type seen);
    }
