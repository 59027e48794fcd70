-- ===== src/Activities/Accepted.antt =====
-- What holds of a recording that `validate_activity_recording` accepts.
use aprendiendo.Base.{
  ℕ, ◌≤◌, true, false, not, ◌&&◌, some, List, [], ◌≡◌, ◌≢◌, ok, bail_if, try_fold, >>=-eq-ok,
  All-weaken, is_some_and, length, is_empty, IsDistinct, All, any, ◌==◌, arith, ltb,
}
use aprendiendo.Model.Formats.{ActivityType}
use aprendiendo.Model.Requests.{ActivityRunInput, PracticeItemInput}
use aprendiendo.Model.Session.{RecordPracticeSessionRequest}
use aprendiendo.Activities.Config.{ActivityError}
use aprendiendo.Activities.Recording.{
  validate_activity_recording, check_run, check_item, check_runs_linked, ItemRuns,
}
use aprendiendo.Activities.Runs.{try_fold-check_run, run_numbers, type_of, type_of-any}
use aprendiendo.Activities.Items.{ItemFits, drill_fits, try_fold-check_item}

-- The values of the loops of an accepted recording.
pub record Loops (request : RecordPracticeSessionRequest) : Type 0 where
  pub runs : List (ℕ × ActivityType)
  pub item_runs : ItemRuns
  pub few : ltb 10 (length request.activity_runs) ≡ false
  pub run_loop : try_fold check_run [] request.activity_runs ≡ ok runs
  pub item_loop :
      try_fold (check_item (not (is_empty request.activity_runs)) runs) [] request.items
      ≡ ok item_runs
  pub links : check_runs_linked (not (is_empty request.activity_runs)) request item_runs ≡ ok tt

pub validate_activity_recording-Loops :
    (request : RecordPracticeSessionRequest)
    → validate_activity_recording request ≡ ok tt
    → Loops request
unfolding validate_activity_recording
validate_activity_recording-Loops request h =
    let (unit, few, h') =
      >>=-eq-ok (bail_if (ltb 10 (length request.activity_runs)) ActivityError.too_many_runs) _ h in
    let (runs, run_loop, h'') = >>=-eq-ok (try_fold check_run [] request.activity_runs) _ h' in
    let (item_runs, item_loop, h''') =
      >>=-eq-ok (try_fold (check_item (not (is_empty request.activity_runs)) runs) [] request.items)
        _ h'' in
    let (unit', links, rest) =
      >>=-eq-ok (check_runs_linked (not (is_empty request.activity_runs)) request item_runs) _
        h''' in
    record {
      runs = runs;
      item_runs = item_runs;
      few = ground (arith, few);
      run_loop = run_loop;
      item_loop = item_loop;
      links = links;
    }

module _ (request : RecordPracticeSessionRequest)
    (accepted : validate_activity_recording request ≡ ok tt) where
  -- An accepted recording has at most ten runs, whose numbers are positive and distinct.
  pub validate_activity_recording-runs :
      (length request.activity_runs ≤ 10)
      × IsDistinct (run_numbers request.activity_runs)
      × All (λ (r : ActivityRunInput). r.run_no ≢ 0) request.activity_runs
  validate_activity_recording-runs =
      let l = validate_activity_recording-Loops request accepted in
      let a = try_fold-check_run [] request.activity_runs l.run_loop in
      (ground (arith, l.few), a.distinct, a.positive)

  -- Where a recording that is accepted has runs, each item names one of them, and its drill is
  -- one that the activity of the run allows.
  pub validate_activity_recording-items :
      is_empty request.activity_runs ≡ false
      → All
          (λ (item : PracticeItemInput).
            any
              (λ (r : ActivityRunInput).
                is_some_and item.activity_run_no (λ n. r.run_no == n)
                && drill_fits item.drill_type r.activity_type)
              request.activity_runs
            ≡ true)
          request.items
  validate_activity_recording-items aware =
      let l = validate_activity_recording-Loops request accepted in
      let a = try_fold-check_run [] request.activity_runs l.run_loop in
      let loop : try_fold (check_item true l.runs) [] request.items ≡ ok l.item_runs =
        rw aware at l.item_loop in
      All-weaken
        (λ (item : PracticeItemInput) (f : ItemFits l.runs item).
          let declared : type_of f.run_no request.activity_runs ≡ some f.activity_type =
            ground (arith, a.types f.run_no, f.known) in
          rw f.named (
            type_of-any (drill_fits item.drill_type) f.run_no request.activity_runs declared
              f.fits))
        request.items (try_fold-check_item l.runs [] request.items loop)
