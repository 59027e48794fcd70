-- ===== src/Activities/Items.antt =====
-- The loop of `validate_activity_recording` over the items of a session with activity runs.
use aprendiendo.Base.{
  ℕ, ◌+◌, Bool, true, false, not, none, some, List, [], ◌∷◌, ◌≡◌, refl, ok, try_fold, >>=-eq-ok,
  is_some_and, unwrap_or, Option-cases, map, keep, has, length, IsDistinct, All, any, ==_iff, ◌==◌,
  arith, inl, inr,
}
use aprendiendo.Model.Formats.{ActivityType, ActivityItemPhase, DrillType, drill_type_eq}
use aprendiendo.Model.Requests.{PracticeItemInput}
use aprendiendo.Activities.Catalog.{ActivitySpec, activity_spec}
use aprendiendo.Activities.Recording.{check_item, get, put, ItemRuns}
use aprendiendo.Activities.Runs.{get-put}

abbrev pub drill_fits : DrillType → ActivityType → Bool
drill_fits drill t =
    any (λ d. drill_type_eq d drill) (ActivitySpec.compatible_drills (activity_spec t))

abbrev pub item_phase_of : PracticeItemInput → ActivityItemPhase
item_phase_of item = unwrap_or item.item_phase ActivityItemPhase.initial

-- What the loop finds out about an item.
pub record ItemFits (runs : List (ℕ × ActivityType)) (item : PracticeItemInput) : Type 0 where
  pub run_no : ℕ
  pub activity_type : ActivityType
  pub named : item.activity_run_no ≡ some run_no
  pub known : get run_no runs ≡ some activity_type
  pub one_target : length item.target_weakness_keys ≡ 1
  pub fits : drill_fits item.drill_type activity_type ≡ true

pub check_item-ok :
    (runs : List (ℕ × ActivityType)) (acc : ItemRuns) (item : PracticeItemInput) {out : ItemRuns}
    → check_item true runs acc item ≡ ok out
    → (f : ItemFits runs item) × (out ≡ put item.item_no (f.run_no, item_phase_of item) acc)
unfolding check_item
check_item-ok runs acc item {out} h = elim (Option-cases item.activity_run_no) [
  | inl missing ↦ ground arith
  | inr (n, named) ↦ elim (Option-cases (get n runs)) [
    | inl missing ↦ ground arith
    | inr (t, known) ↦
        let facts : (length item.target_weakness_keys ≡ 1)
            × (drill_fits item.drill_type t ≡ true)
            × (out ≡ put item.item_no (n, item_phase_of item) acc) =
          ground (arith, known, named) in
        (
          record {
            run_no = n;
            activity_type = t;
            named = named;
            known = known;
            one_target = facts.0;
            fits = facts.1;
          },
          facts.2,
        )
  ]
]

-- A predicate on the run and the phase of an item, as it is sent.
abbrev pub of_item : (ℕ × ActivityItemPhase → Bool) → PracticeItemInput → Bool
of_item q item = is_some_and item.activity_run_no (λ n. q (n, item_phase_of item))

abbrev pub item_numbers : List PracticeItemInput → List ℕ
item_numbers items = map (λ (i : PracticeItemInput). i.item_no) items

keep_absent {ℓ} :
    {A : Type ℓ} (k : ℕ) (m : List (ℕ × A)) → get k m ≡ none → keep (λ e. not (e.0 == k)) m ≡ m
keep_absent k [] h = refl
keep_absent k ((i, v) ∷ m) h = ground (arith, keep_absent k m)

All-fresh :
    (j : ℕ) (v : ℕ × ActivityItemPhase) (m : ItemRuns) (items : List PracticeItemInput)
    → has j (item_numbers items) ≡ false
    → All (λ (i : PracticeItemInput). get i.item_no m ≡ none) items
    → All (λ (i : PracticeItemInput). get i.item_no (put j v m) ≡ none) items
All-fresh j v m [] d a = tt
All-fresh j v m (i ∷ is) d a = (
  ground (arith, get-put i.item_no j v m, ==_iff i.item_no j, a.0, d),
  All-fresh j v m is (ground arith) a.1,
)

pub try_fold-check_item :
    (runs : List (ℕ × ActivityType)) (acc : ItemRuns) (items : List PracticeItemInput)
    {out : ItemRuns}
    → try_fold (check_item true runs) acc items ≡ ok out
    → All (ItemFits runs) items
try_fold-check_item runs acc [] h = tt
try_fold-check_item runs acc (i ∷ is) h =
    let (acc', first, rest) = >>=-eq-ok (check_item true runs acc i) _ h in
    ((check_item-ok runs acc i first).0, try_fold-check_item runs acc' is rest)

-- Where no number occurs twice, the map that the loop builds has an entry for each item.
pub length-keep-check_item :
    (q : ℕ × ActivityItemPhase → Bool) (runs : List (ℕ × ActivityType)) (acc : ItemRuns)
    (items : List PracticeItemInput) {out : ItemRuns}
    → try_fold (check_item true runs) acc items ≡ ok out
    → IsDistinct (item_numbers items)
    → All (λ (i : PracticeItemInput). get i.item_no acc ≡ none) items
    → length (keep (λ e. q e.1) out)
      ≡ length (keep (of_item q) items) + length (keep (λ e. q e.1) acc)
length-keep-check_item q runs acc [] h d a = ground (arith, h)
length-keep-check_item q runs acc (i ∷ is) {out} h d a =
    let (acc', first, rest) = >>=-eq-ok (check_item true runs acc i) _ h in
    let (f, same) = check_item-ok runs acc i first in
    let v : ℕ × ActivityItemPhase = (f.run_no, item_phase_of i) in
    let later : length (keep (λ e. q e.1) out)
        ≡ length (keep (of_item q) is) + length (keep (λ e. q e.1) (put i.item_no v acc)) =
      length-keep-check_item q runs (put i.item_no v acc) is (rw same at rest) d.1
        (All-fresh i.item_no v acc is d.0 a.1) in
    ground (arith, later, f.named, keep_absent i.item_no acc a.0)
