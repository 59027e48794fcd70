-- ===== src/Activities/Linked.antt =====
-- The runs of an accepted recording and the items that belong to them.
use aprendiendo.Base.{
  ℕ, ◌≤◌, Bool, true, false, not, ◌&&◌, Option, none, some, List, [], ◌∷◌, ◌≡◌, refl, sym, ◌∙◌, ok,
  bail_if, for_each, try_fold, >>=-eq-ok, for_each-All, All-weaken, length-keep-keep, keep, length,
  is_empty, IsDistinct, All, ◌==◌, arith, if◌then◌else◌, ltb,
}
use aprendiendo.Model.Formats.{ActivityItemPhase, activity_item_phase_eq}
use aprendiendo.Model.Requests.{ActivityRunInput, ActivityConfigInput, PracticeItemInput}
use aprendiendo.Model.Session.{RecordPracticeSessionRequest}
use aprendiendo.Activities.Catalog.{is_single_response}
use aprendiendo.Activities.Stimuli.{activity_stimuli_satisfy_requirements}
use aprendiendo.Activities.Config.{ActivityError}
use aprendiendo.Activities.Recording.{
  validate_activity_recording, check_item, check_runs_linked, check_links, check_counts,
  check_hidden, check_attempt_item, get, ItemRuns, linked_items, complications,
}
use aprendiendo.Activities.Items.{of_item, item_numbers, length-keep-check_item}
use aprendiendo.Activities.Accepted.{validate_activity_recording-Loops}

-- The items of the run `n`, and those of them that are complications.
abbrev pub items_of : ℕ → List PracticeItemInput → List PracticeItemInput
items_of n items = keep (of_item (λ e. e.0 == n)) items

abbrev pub complications_of : ℕ → List PracticeItemInput → List PracticeItemInput
complications_of n items =
    keep (of_item (λ e. e.0 == n && activity_item_phase_eq e.1 ActivityItemPhase.complication))
      items

-- Whether a run may have so many items and complications.
abbrev pub is_none_or {ℓ} : {A : Type ℓ} → Option A → (A → Bool) → Bool
is_none_or none p = true
is_none_or (some a) p = p a

abbrev pub counts_fit : ActivityRunInput → ℕ → ℕ → Bool
counts_fit run items complications =
    (if is_single_response run.activity_type then items == 1 else ltb 0 items)
    && activity_stimuli_satisfy_requirements run.activity_type run.stimuli
    && is_none_or run.config (λ (c : ActivityConfigInput).
      is_none_or c.question_count (λ k. k == items)
      && is_none_or c.complication_count (λ k. k == complications && ltb k items))

is_empty-length {ℓ} : {A : Type ℓ} (xs : List A) → is_empty xs ≡ false → 1 ≤ length xs
is_empty-length [] h = cc
is_empty-length (x ∷ xs) h = omega arith

check_counts-ok :
    (config : Option ActivityConfigInput) (linked : List (ℕ × (ℕ × ActivityItemPhase)))
    → check_counts config linked ≡ ok tt
    → is_none_or config (λ (c : ActivityConfigInput).
      is_none_or c.question_count (λ k. k == length linked)
      && is_none_or c.complication_count (λ k. k == complications linked && ltb k (length linked)))
      ≡ true
unfolding check_counts
check_counts-ok none linked h = refl
check_counts-ok (some config) linked h = ground arith

check_links-ok :
    (item_runs : ItemRuns) (run : ActivityRunInput)
    → check_links item_runs run ≡ ok tt
    → counts_fit run
        (length (linked_items run.run_no item_runs))
        (complications (linked_items run.run_no item_runs))
      ≡ true
unfolding check_links
check_links-ok item_runs run h =
    let linked : List (ℕ × (ℕ × ActivityItemPhase)) = linked_items run.run_no item_runs in
    let (_, single, h1) =
      >>=-eq-ok
        (bail_if (is_single_response run.activity_type && not (length linked == 1))
          ActivityError.not_one_item)
        _ h in
    let (_, used, h2) =
      >>=-eq-ok
        (bail_if (not (is_single_response run.activity_type) && is_empty linked)
          ActivityError.no_item)
        _ h1 in
    let (_, stimuli, h3) =
      >>=-eq-ok
        (bail_if (not (activity_stimuli_satisfy_requirements run.activity_type run.stimuli))
          ActivityError.requirements_not_met)
        _ h2 in
    let (_, hidden, counts) = >>=-eq-ok (check_hidden run.activity_type run.config) _ h3 in
    ground (
      arith,
      is_empty-length linked,
      single,
      used,
      stimuli,
      check_counts-ok run.config linked counts,
    )

absent-everywhere :
    (items : List PracticeItemInput)
    → All (λ (i : PracticeItemInput). get {A = ℕ × ActivityItemPhase} i.item_no [] ≡ none) items
absent-everywhere [] = tt
absent-everywhere (i ∷ is) = (refl, absent-everywhere is)

-- Where a recording that is accepted has runs, and its items have distinct numbers, each run has
-- the items that its activity asks for: exactly one for a single response and at least one for
-- any; stimuli that satisfy its requirements; and as many items and complications as its
-- configuration says, the complications being fewer than the items.
pub validate_activity_recording-counts :
    (request : RecordPracticeSessionRequest)
    → validate_activity_recording request ≡ ok tt
    → is_empty request.activity_runs ≡ false
    → IsDistinct (item_numbers request.items)
    → All
        (λ (r : ActivityRunInput).
          counts_fit r
            (length (items_of r.run_no request.items))
            (length (complications_of r.run_no request.items))
          ≡ true)
        request.activity_runs
unfolding check_runs_linked
validate_activity_recording-counts request accepted aware distinct =
    let l = validate_activity_recording-Loops request accepted in
    let loop : try_fold (check_item true l.runs) [] request.items ≡ ok l.item_runs =
      rw aware at l.item_loop in
    let links : check_runs_linked true request l.item_runs ≡ ok tt = rw aware at l.links in
    let (u, named, linked) =
      >>=-eq-ok (for_each (check_attempt_item (item_numbers request.items)) request.attempts) _
        links in
    let same : (q : ℕ × ActivityItemPhase → Bool)
        → length (keep (λ e. q e.1) l.item_runs) ≡ length (keep (of_item q) request.items) =
      λ q. ground (
        arith,
        length-keep-check_item q l.runs [] request.items loop distinct
            (absent-everywhere request.items),
      ) in
    All-weaken
      (λ (r : ActivityRunInput) (h : check_links l.item_runs r ≡ ok tt).
        let items : length (linked_items r.run_no l.item_runs)
            ≡ length (items_of r.run_no request.items) =
          same (λ e. e.0 == r.run_no) in
        let marked : complications (linked_items r.run_no l.item_runs)
            ≡ length (complications_of r.run_no request.items) =
          length-keep-keep _ _ l.item_runs
          ∙ same
              (λ e. e.0 == r.run_no && activity_item_phase_eq e.1 ActivityItemPhase.complication) in
        rw (sym items, sym marked) (check_links-ok l.item_runs r h))
      request.activity_runs (for_each-All (check_links l.item_runs) request.activity_runs linked)
