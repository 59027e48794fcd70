-- ===== src/Production/Reasons.antt =====
-- The reason codes of `review_decision` in src/production.rs, which are texts there.
use aprendiendo.Base.{
  ℕ, Bool, true, false, ◌&&◌, ◌||◌, List, [], ◌∷◌, ◌++◌, ◌≡◌, refl, any, leb, ◌==◌, if◌then◌else◌,
  arith,
}

pub data ReasonCode : Type 0 where
  assisted_or_cued assisted_retry independent_failure_not_cited : ReasonCode
  independent_failure_requires_again insufficient_rating_evidence : ReasonCode
  insufficient_varied_evidence invalid_attempt_reference invalid_observation_reference : ReasonCode
  not_independent_assessment_phase prompt_supplied_target rating_conflicts_with_success : ReasonCode
  target_not_observed unknown_assistance : ReasonCode

-- The place of a code in the alphabetical order of the texts, by which `sort` orders them.
abbrev pub reason_rank : ReasonCode → ℕ
reason_rank ReasonCode.assisted_or_cued = 0
reason_rank ReasonCode.assisted_retry = 1
reason_rank ReasonCode.independent_failure_not_cited = 2
reason_rank ReasonCode.independent_failure_requires_again = 3
reason_rank ReasonCode.insufficient_rating_evidence = 4
reason_rank ReasonCode.insufficient_varied_evidence = 5
reason_rank ReasonCode.invalid_attempt_reference = 6
reason_rank ReasonCode.invalid_observation_reference = 7
reason_rank ReasonCode.not_independent_assessment_phase = 8
reason_rank ReasonCode.prompt_supplied_target = 9
reason_rank ReasonCode.rating_conflicts_with_success = 10
reason_rank ReasonCode.target_not_observed = 11
reason_rank ReasonCode.unknown_assistance = 12

abbrev pub insert_reason : ReasonCode → List ReasonCode → List ReasonCode
insert_reason c [] = c ∷ []
insert_reason c (d ∷ ds) =
    let rest = insert_reason c ds in
    if leb (reason_rank c) (reason_rank d) then c ∷ d ∷ ds else d ∷ rest

-- `sort`
abbrev pub sort_reasons : List ReasonCode → List ReasonCode
sort_reasons [] = []
sort_reasons (c ∷ cs) = insert_reason c (sort_reasons cs)

abbrev pub is_first : ReasonCode → List ReasonCode → Bool
is_first c [] = false
is_first c (d ∷ _) = reason_rank c == reason_rank d

-- `dedup`: of equal neighbours, one is kept.
abbrev pub dedup_reasons : List ReasonCode → List ReasonCode
dedup_reasons [] = []
dedup_reasons (c ∷ cs) = let rest = dedup_reasons cs in if is_first c rest then rest else c ∷ rest

abbrev pub push_if : Bool → ReasonCode → List ReasonCode → List ReasonCode
push_if true code codes = codes ++ code ∷ []
push_if false code codes = codes

-- The codes that make a review ineligible.
abbrev pub is_blocking : ReasonCode → Bool
is_blocking ReasonCode.insufficient_varied_evidence = true
is_blocking ReasonCode.independent_failure_requires_again = true
is_blocking ReasonCode.independent_failure_not_cited = true
is_blocking ReasonCode.rating_conflicts_with_success = true
is_blocking ReasonCode.insufficient_rating_evidence = true
is_blocking _ = false

is_blocking-rank :
    (c d : ReasonCode) → (reason_rank c == reason_rank d) ≡ true → is_blocking c ≡ is_blocking d
is_blocking-rank c d h = ground arith

any-insert_reason :
    (c : ReasonCode) (cs : List ReasonCode)
    → any is_blocking (insert_reason c cs) ≡ (is_blocking c || any is_blocking cs)
any-insert_reason c [] = refl
any-insert_reason c (d ∷ ds) = ground (arith, any-insert_reason c ds)

any-sort_reasons : (cs : List ReasonCode) → any is_blocking (sort_reasons cs) ≡ any is_blocking cs
any-sort_reasons [] = refl
any-sort_reasons (c ∷ cs) =
    ground (arith, any-insert_reason c (sort_reasons cs), any-sort_reasons cs)

is_first-any :
    (c : ReasonCode) (cs : List ReasonCode)
    → is_first c cs ≡ true
    → is_blocking c ≡ true
    → any is_blocking cs ≡ true
is_first-any c [] h b = cc
is_first-any c (d ∷ ds) h b = ground (arith, is_blocking-rank c d)

any-dedup_reasons : (cs : List ReasonCode) → any is_blocking (dedup_reasons cs) ≡ any is_blocking cs
any-dedup_reasons [] = refl
any-dedup_reasons (c ∷ cs) = ground (arith, any-dedup_reasons cs, is_first-any c (dedup_reasons cs))

-- Sorting the codes and dropping repetitions neither hides nor adds a blocking one.
pub any-dedup_reasons-sort_reasons :
    (cs : List ReasonCode) → any is_blocking (dedup_reasons (sort_reasons cs)) ≡ any is_blocking cs
any-dedup_reasons-sort_reasons cs =
    ground (arith, any-dedup_reasons (sort_reasons cs), any-sort_reasons cs)

pub any-push_if :
    (test : Bool) (c : ReasonCode) (cs : List ReasonCode)
    → any is_blocking (push_if test c cs) ≡ (any is_blocking cs || (test && is_blocking c))
any-push_if false c cs = ground arith
any-push_if true c [] = ground arith
any-push_if true c (d ∷ ds) = ground (arith, any-push_if true c ds)
