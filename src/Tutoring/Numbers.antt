-- ===== src/Tutoring/Numbers.antt =====
-- The numbers that the first loop of `expand` gives to the attempts, found by their indices.
use aprendiendo.Base.{
  ℕ, ◌+◌, Option, none, some, List, [], ◌∷◌, ◌++◌, ◌≡◌, ok, bail_if, for_each, try_fold, >>=-eq-ok,
  or_else, length, ltb, if◌then◌else◌, arith,
}
use aprendiendo.Tutoring.Requests.{TutoringAttemptInput, TutoringTurnInput}
use aprendiendo.Tutoring.Checks.{TutoringError, text, optional_text, to_u16, enumerate_from}
use aprendiendo.Tutoring.Scan.{
  AttemptMeta, Totals, find_meta, same_key, scan_attempt, scan_turn, check_attempt_input,
  original_of,
}

-- The numbers of item and attempt that a map entry holds.
abbrev pub numbers_of : Option AttemptMeta → Option (ℕ × ℕ)
numbers_of none = none
numbers_of (some m) = some (m.item_no, m.attempt_no)

-- The same by counting: from the attempt `ai` of the turn `ti` on, after `n` earlier attempts.
abbrev pub count_attempts : ℕ × ℕ → ℕ → ℕ → ℕ → List TutoringAttemptInput → Option (ℕ × ℕ)
count_attempts k ti ai n [] = none
count_attempts k ti ai n (a ∷ rest) =
    let later = count_attempts k ti (ai + 1) (n + 1) rest in
    if same_key (ti, ai) k then some (ti + 1, n + 1) else later

abbrev pub count_turns : ℕ × ℕ → ℕ → ℕ → List TutoringTurnInput → Option (ℕ × ℕ)
count_turns k ti n [] = none
count_turns k ti n (turn ∷ turns) =
    or_else (count_attempts k ti 0 n turn.attempts)
      (count_turns k (ti + 1) (n + length turn.attempts) turns)

find-append :
    (k : ℕ × ℕ) (ms : List AttemptMeta) (m : AttemptMeta)
    → find_meta k (ms ++ m ∷ [])
      ≡ or_else (find_meta k ms) (if same_key m.key k then some m else none)
find-append k [] m = ground arith
find-append k (l ∷ ms) m = ground (arith, find-append k ms m)

scan_attempt-ok :
    (turns : List TutoringTurnInput) (ti item : ℕ) (s : Totals) (ai : ℕ) (a : TutoringAttemptInput)
    {out : Totals}
    → scan_attempt turns ti item s (ai, a) ≡ ok out
    → (out.attempt_no ≡ s.attempt_no + 1)
      × ((k : ℕ × ℕ)
          → numbers_of (find_meta k out.metas)
            ≡ or_else
                (numbers_of (find_meta k s.metas))
                (if same_key (ti, ai) k then some (item, s.attempt_no + 1) else none))
unfolding scan_attempt
scan_attempt-ok turns ti item s ai a {out} h =
    let (n, first, h1) = >>=-eq-ok (to_u16 (s.attempt_no + 1)) _ h in
    let (_, few, h2) = >>=-eq-ok (bail_if (ltb 100 n) TutoringError.too_many) _ h1 in
    let (f, checked, h3) = >>=-eq-ok (check_attempt_input s a) _ h2 in
    let (o, resolved, last) = >>=-eq-ok (original_of a.evidence turns) _ h3 in
    let m : AttemptMeta = record { key = (ti, ai); item_no = item; attempt_no = n; original = o } in
    let number : n ≡ s.attempt_no + 1 = ground (arith, first) in
    let metas : out.metas ≡ s.metas ++ m ∷ [] = ground (arith, last) in
    (
      ground (arith, number, last),
      λ k. rw metas (rw (find-append k s.metas m) (ground (arith, number))),
    )

scan_attempts-ok :
    (turns : List TutoringTurnInput) (ti : ℕ) (s : Totals) (ai : ℕ)
    (as' : List TutoringAttemptInput) {out : Totals}
    → try_fold (scan_attempt turns ti (ti + 1)) s (enumerate_from ai as') ≡ ok out
    → (out.attempt_no ≡ s.attempt_no + length as')
      × ((k : ℕ × ℕ)
          → numbers_of (find_meta k out.metas)
            ≡ or_else (numbers_of (find_meta k s.metas)) (count_attempts k ti ai s.attempt_no as'))
scan_attempts-ok turns ti s ai [] h = (ground arith, λ k. ground arith)
scan_attempts-ok turns ti s ai (a ∷ rest) {out} h =
    let (u, first, later) = >>=-eq-ok (scan_attempt turns ti (ti + 1) s (ai, a)) _ h in
    let (n, found) = scan_attempt-ok turns ti (ti + 1) s ai a first in
    let (n', found') = scan_attempts-ok turns ti u (ai + 1) rest later in
    (ground (arith, n, n'), λ k. ground (arith, n, found k, found' k))

-- The first loop finds each attempt where counting does.
pub scan_turns-ok :
    (all_turns : List TutoringTurnInput) (s : Totals) (ti : ℕ) (turns : List TutoringTurnInput)
    {out : Totals}
    → try_fold (scan_turn all_turns) s (enumerate_from ti turns) ≡ ok out
    → (k : ℕ × ℕ)
    → numbers_of (find_meta k out.metas)
      ≡ or_else (numbers_of (find_meta k s.metas)) (count_turns k ti s.attempt_no turns)
unfolding scan_turn
scan_turns-ok all_turns s ti [] h k = ground arith
scan_turns-ok all_turns s ti (turn ∷ turns) {out} h k =
    let (u, first, later) = >>=-eq-ok (scan_turn all_turns s (ti, turn)) _ h in
    let (item, numbered, h1) = >>=-eq-ok (to_u16 (ti + 1)) _ first in
    let (_, _, h2) = >>=-eq-ok (text turn.prompt 4000) _ h1 in
    let (_, _, h3) =
      >>=-eq-ok (bail_if (ltb 20 (length turn.target_weakness_keys)) TutoringError.too_many) _ h2 in
    let (_, _, h4) = >>=-eq-ok (for_each (λ key. text key 160) turn.target_weakness_keys) _ h3 in
    let (_, _, h5) = >>=-eq-ok (optional_text turn.communicative_function 1000) _ h4 in
    let (_, _, h6) =
      >>=-eq-ok (bail_if (ltb 20 (length turn.attempts)) TutoringError.too_many) _ h5 in
    let same : item ≡ ti + 1 = ground (arith, numbered) in
    let (n, found) = scan_attempts-ok all_turns ti s 0 turn.attempts (rw same at h6) in
    let rest = scan_turns-ok all_turns u (ti + 1) turns later k in ground (arith, n, found k, rest)
