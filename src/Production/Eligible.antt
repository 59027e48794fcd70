-- ===== src/Production/Eligible.antt =====
-- When a session supports a review of a weakness.
use aprendiendo.Base.{
  ℕ, ◌≤◌, Bool, true, false, not, ◌&&◌, ◌||◌, none, some, List, [], ◌∷◌, ◌++◌, ◌≡◌, refl, ap, sym,
  ◌∙◌, leb, any, keep, map, is_none, is_some_and, has, length, if◌then◌else◌, arith, Option-cases,
  inl, inr,
}
use aprendiendo.Model.Evidence.{FsrsRating, fsrs_rating_eq}
use aprendiendo.Model.Requests.{ReviewInput}
use aprendiendo.Model.Session.{RecordPracticeSessionRequest}
use aprendiendo.Model.Production.{ObservationEvidence, ProductionEvidence}
use aprendiendo.Production.Classes.{attempt_class}
use aprendiendo.Production.Reasons.{
  ReasonCode, is_blocking, sort_reasons, dedup_reasons, any-push_if, any-dedup_reasons-sort_reasons,
}
use aprendiendo.Production.Reviews.{
  Tally, tally, tally_one, empty_tally, final_tally, final_reasons, review_decision, exclusion,
  count_observation, exclude_observation, find_evidence, find_observation, observations, is_about,
  is_failure,
}

-- An observation is independent evidence when its references resolve and nothing excludes it.
abbrev pub is_independent :
    (List ℕ → List ℕ)
    → RecordPracticeSessionRequest
    → ProductionEvidence
    → ObservationEvidence
    → Bool
is_independent to_lowercase r e o = is_some_and (find_evidence o.attempt_no e.attempts) (λ a.
    is_some_and (find_observation o.observation_no (observations r))
      (λ actual. is_none (exclusion o a actual (attempt_class to_lowercase r e a))))

abbrev pub numbers_of : List ObservationEvidence → List ℕ
numbers_of os = map (λ (o : ObservationEvidence). o.observation_no) os

append_assoc {ℓ} : {A : Type ℓ} (xs ys zs : List A) → (xs ++ ys) ++ zs ≡ xs ++ (ys ++ zs)
append_assoc [] ys zs = refl
append_assoc (x ∷ xs) ys zs = ap (λ l. x ∷ l) (append_assoc xs ys zs)

append_nil {ℓ} : {A : Type ℓ} (xs : List A) → xs ++ [] ≡ xs
append_nil [] = refl
append_nil (x ∷ xs) = ap (λ l. x ∷ l) (append_nil xs)

-- Without a blocking code the loop left none, and the rating is `again` exactly after a failure.
final_reasons-blocking :
    (r : RecordPracticeSessionRequest) (e : ProductionEvidence) (review : ReviewInput) (t : Tally)
    → any is_blocking (final_reasons r e review t) ≡ false
    → (any is_blocking t.reason_codes ≡ false)
      × (fsrs_rating_eq review.rating FsrsRating.again ≡ t.failure)
unfolding final_reasons
final_reasons-blocking r e review t h =
    let h' = simp any-push_if at h in (ground arith, ground arith)

module _ (to_lowercase : List ℕ → List ℕ) (r : RecordPracticeSessionRequest)
    (e : ProductionEvidence) (review : ReviewInput) where
  -- An independent observation that the review cites, and a failure that it does not.
  abbrev pub supports : ObservationEvidence → Bool
  supports o =
      is_independent to_lowercase r e o && has o.observation_no review.evidence_observation_nos

  abbrev pub is_hidden_failure : ObservationEvidence → Bool
  is_hidden_failure o =
      is_independent to_lowercase r e o
      && is_failure o.target_accuracy
      && not (has o.observation_no review.evidence_observation_nos)

  -- What one observation adds.
  record Adds (t : Tally) (o : ObservationEvidence) (u : Tally) : Type 0 where
    pub supporting :
        u.supporting ≡ (if supports o then t.supporting ++ o.observation_no ∷ [] else t.supporting)
    pub failure :
        u.failure ≡ (t.failure || is_independent to_lowercase r e o && is_failure o.target_accuracy)
    pub blocking :
        (any is_blocking t.reason_codes || is_hidden_failure o) ≡ true
        → any is_blocking u.reason_codes ≡ true

  tally_one-Adds :
      (t : Tally) (o : ObservationEvidence) → Adds t o (tally_one to_lowercase r e review t o)
  unfolding tally_one count_observation exclude_observation
  tally_one-Adds t o = elim (Option-cases (find_evidence o.attempt_no e.attempts)) [
    | inl missing ↦ record {
      supporting = ground (arith, missing);
      failure = ground (arith, missing);
      blocking = λ h.
          ground
            (arith, missing, any-push_if true ReasonCode.invalid_attempt_reference t.reason_codes);
    }
    | inr (a, there) ↦ elim (Option-cases (find_observation o.observation_no (observations r))) [
      | inl missing ↦ record {
        supporting = ground (arith, there, missing);
        failure = ground (arith, there, missing);
        blocking = λ h. ground (
          arith,
          there,
          missing,
          any-push_if true ReasonCode.invalid_observation_reference t.reason_codes,
        );
      }
      | inr (actual, met) ↦
          let cited = has o.observation_no review.evidence_observation_nos in
          elim (Option-cases (exclusion o a actual (attempt_class to_lowercase r e a))) [
            | inl counted ↦ record {
              supporting = ground (arith, there, met, counted);
              failure = ground (arith, there, met, counted);
              blocking = λ h. ground (
                arith,
                there,
                met,
                counted,
                any-push_if (is_failure o.target_accuracy && not cited)
                    ReasonCode.independent_failure_not_cited t.reason_codes,
              );
            }
            | inr (reason, excluded) ↦ record {
              supporting = ground (arith, there, met, excluded);
              failure = ground (arith, there, met, excluded);
              blocking = λ h.
                  ground (arith, there, met, excluded, any-push_if cited reason t.reason_codes);
            }
          ]
    ]
  ]

  tally-supporting :
      (t : Tally) (os : List ObservationEvidence)
      → (tally to_lowercase r e review t os).supporting
        ≡ t.supporting ++ numbers_of (keep supports os)
  tally-supporting t [] = sym (append_nil t.supporting)
  tally-supporting t (o ∷ os) =
      let u = tally_one to_lowercase r e review t o in
      let first = Adds.supporting (tally_one-Adds t o) in
      ground (
        arith,
        tally-supporting u os,
        first,
        append_assoc t.supporting (o.observation_no ∷ []) (numbers_of (keep supports os)),
      )

  tally-failure :
      (t : Tally) (os : List ObservationEvidence)
      → (tally to_lowercase r e review t os).failure ≡ (
          t.failure
          || any
              (λ (o : ObservationEvidence).
                is_independent to_lowercase r e o && is_failure o.target_accuracy)
              os)
  tally-failure t [] = ground arith
  tally-failure t (o ∷ os) = ground (
    arith,
    tally-failure (tally_one to_lowercase r e review t o) os,
    Adds.failure (tally_one-Adds t o),
  )

  tally-blocking :
      (t : Tally) (os : List ObservationEvidence)
      → (any is_blocking t.reason_codes || any is_hidden_failure os) ≡ true
      → any is_blocking (tally to_lowercase r e review t os).reason_codes ≡ true
  tally-blocking t [] h = ground arith
  tally-blocking t (o ∷ os) h = ground (
    arith,
    tally-blocking (tally_one to_lowercase r e review t o) os,
    Adds.blocking (tally_one-Adds t o),
  )

  -- The observations of the session that are about the weakness of the review.
  abbrev pub about : List ObservationEvidence
  about = keep (is_about review.weakness_key (observations r)) e.observations

  -- A review that is eligible is supported by exactly those independent observations of its
  -- weakness that it cites, at least two of them; it cites every independent failure; and it is
  -- rated `again` exactly when there is an independent failure.
  pub review_decision-eligible :
      (version : ℕ)
      → r.production_evidence ≡ some e
      → (review_decision to_lowercase r review version).eligible ≡ true
      → ((review_decision to_lowercase r review version).supporting_observation_nos
          ≡ numbers_of (keep supports about))
        × (2 ≤ length (numbers_of (keep supports about)))
        × (any is_hidden_failure about ≡ false)
        × (fsrs_rating_eq review.rating FsrsRating.again
            ≡ any
                (λ (o : ObservationEvidence).
                  is_independent to_lowercase r e o && is_failure o.target_accuracy)
                about)
  unfolding review_decision tally_one observations attempt_class final_reasons
  review_decision-eligible version given eligible =
      let t = final_tally to_lowercase r e review in
      let d : review_decision to_lowercase r review version ≡ record {
        weakness_key = review.weakness_key;
        eligible =
            leb 2 (length t.supporting)
            && not (any is_blocking (dedup_reasons (sort_reasons (final_reasons r e review t))));
        reason_codes = dedup_reasons (sort_reasons (final_reasons r e review t));
        supporting_observation_nos = t.supporting;
        excluded_observation_nos = t.excluded;
        policy_version = version;
        applied_rating = none;
      } =
        rw (given, review_decision) refl in
      let supported : t.supporting ≡ numbers_of (keep supports about) =
        tally-supporting empty_tally about in
      let enough : (leb 2 (length t.supporting)
            && not (any is_blocking (dedup_reasons (sort_reasons (final_reasons r e review t)))))
          ≡ true =
        rw d at eligible in
      let passed : any is_blocking (final_reasons r e review t) ≡ false =
        ground (arith, enough, any-dedup_reasons-sort_reasons (final_reasons r e review t)) in
      let (clear, rated) = final_reasons-blocking r e review t passed in
      (
        rw d supported,
        rw (← supported) (ground (arith, enough)),
        ground (arith, clear, tally-blocking empty_tally about),
        rated ∙ tally-failure empty_tally about,
      )
