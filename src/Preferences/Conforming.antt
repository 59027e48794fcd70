-- ===== src/Preferences/Conforming.antt =====
-- What a plan that passes the structural checks obeys.
use aprendiendo.Base.{
  ℕ, ◌≤◌, ◌≡◌, refl, String, Bool, true, false, not, ◌&&◌, ◌||◌, Option, none, List, [], ◌∷◌, ◌++◌,
  ok, bail_if, for_each, try_fold, >>=-eq-ok, any, map, has, is_blank, is_empty, is_some, length,
  str_eq, ltb, ◌==◌, arith, All, Bool-cases, Outcome-cases, inl, inr,
}
use aprendiendo.Model.Formats.{drill_type_eq}
use aprendiendo.Model.Production.{Preferences, SessionOverride, TargetOpportunity}
use aprendiendo.Preferences.Stored.{PreferenceRow, Resolved, resolve}
use aprendiendo.Preferences.Plans.{
  ProposedTurn, ValidatePlanRequest, PlanCheck, PlanError, is_opportunity, is_spontaneous, check_if,
  prompt_checks, turn_checks, validate_turn, budget_checks, policy_of, validate,
}
use aprendiendo.Production.Prompts.{PromptFinding, prompt_findings}

append-nothing : (xs ys : List PlanCheck) → xs ++ ys ≡ [] → (xs ≡ []) × (ys ≡ [])
append-nothing [] ys h = (refl, h)
append-nothing (x ∷ xs) ys h = absurd (cc)

check_if-nothing :
    (bad : Bool) (check : PlanCheck) (ys : List PlanCheck)
    → check_if bad check ++ ys ≡ []
    → (bad ≡ false) × (ys ≡ [])
check_if-nothing true check ys h = absurd (cc)
check_if-nothing false check ys h = (refl, h)

map-nothing :
    (f : PromptFinding → PlanCheck) (xs : List PromptFinding) → map f xs ≡ [] → is_empty xs ≡ true
map-nothing f [] h = refl
map-nothing f (x ∷ xs) h = absurd (cc)

-- A turn with the preferences: its prompt gives nothing away where production is spontaneous, its
-- format is not excluded, it starts no sentence and gives no model answer unless that is allowed,
-- and its prompt is not one of the context's.
pub record Conforms (to_lowercase : List ℕ → List ℕ) (p : Preferences) (r : ValidatePlanRequest)
    (t : ProposedTurn) : Type 0 where
  pub prompt :
      (is_spontaneous p
        && not (is_empty (prompt_findings to_lowercase t.prompt t.target_weakness_keys)))
      ≡ false
  pub format : any (λ d. drill_type_eq d t.drill_type) p.excluded_drill_types ≡ false
  pub starter : (is_some t.sentence_starter && not p.prompt_policy.allow_sentence_starters) ≡ false
  pub model :
      (is_some t.model_answer && not p.prompt_policy.allow_model_answer_before_attempt) ≡ false
  pub fresh : any (λ s. str_eq s t.prompt) r.preceding_context ≡ false
  pub numbered : 1 ≤ t.turn_no
  pub known :
      any (λ key. not (is_opportunity r.target_opportunities key)) t.target_weakness_keys ≡ false

module _ (to_lowercase : List ℕ → List ℕ) (p : Preferences) (r : ValidatePlanRequest) where
  prompt_checks-nothing :
      (t : ProposedTurn)
      → prompt_checks to_lowercase p t ≡ []
      → (is_spontaneous p
          && not (is_empty (prompt_findings to_lowercase t.prompt t.target_weakness_keys)))
        ≡ false
  unfolding prompt_checks
  prompt_checks-nothing t h = elim (Bool-cases (is_spontaneous p)) [
    | inl spontaneous ↦ ground (
      arith,
      spontaneous,
      h,
      map-nothing (λ f. PlanCheck.in_prompt f t.turn_no)
          (prompt_findings to_lowercase t.prompt t.target_weakness_keys),
    )
    | inr other ↦ ground (arith, other)
  ]

  turn_checks-Conforms :
      (t : ProposedTurn)
      → turn_checks to_lowercase p r.preceding_context t ≡ []
      → 1 ≤ t.turn_no
      → any (λ key. not (is_opportunity r.target_opportunities key)) t.target_weakness_keys ≡ false
      → Conforms to_lowercase p r t
  unfolding turn_checks
  turn_checks-Conforms t h numbered known =
      let bad_format = any (λ d. drill_type_eq d t.drill_type) p.excluded_drill_types in
      let bad_starter = is_some t.sentence_starter && not p.prompt_policy.allow_sentence_starters in
      let bad_model =
        is_some t.model_answer && not p.prompt_policy.allow_model_answer_before_attempt in
      let bad_prompt = any (λ s. str_eq s t.prompt) r.preceding_context in
      let last = check_if bad_prompt (PlanCheck.repeated_prompt t.turn_no) in
      let third = check_if bad_model (PlanCheck.model_answer_before_attempt t.turn_no) ++ last in
      let second = check_if bad_starter (PlanCheck.sentence_starter t.turn_no) ++ third in
      let first = check_if bad_format (PlanCheck.excluded_format t.turn_no) ++ second in
      let (a, h1) = append-nothing (prompt_checks to_lowercase p t) first h in
      let (b, h2) = check_if-nothing bad_format (PlanCheck.excluded_format t.turn_no) second h1 in
      let (c, h3) = check_if-nothing bad_starter (PlanCheck.sentence_starter t.turn_no) third h2 in
      let (d, h4) =
        check_if-nothing bad_model (PlanCheck.model_answer_before_attempt t.turn_no) last h3 in
      record {
        prompt = prompt_checks-nothing t a;
        format = b;
        starter = c;
        model = d;
        fresh = ground (arith, h4);
        numbered = numbered;
        known = known;
      }

  -- The loop over the turns, from checks and numbers that it has.
  validate_turns-Conforms :
      (checks : List PlanCheck) (numbers : List ℕ) (turns : List ProposedTurn)
      (out : List PlanCheck × List ℕ)
      → try_fold (validate_turn to_lowercase p r) (checks, numbers) turns ≡ ok out
      → out.0 ≡ []
      → (checks ≡ []) × All (Conforms to_lowercase p r) turns
  unfolding validate_turn
  validate_turns-Conforms checks numbers [] out h none' = (ground (arith, h, none'), tt)
  validate_turns-Conforms checks numbers (t ∷ turns) out h none' =
      let (next, first, later) =
        >>=-eq-ok (validate_turn to_lowercase p r (checks, numbers) t) _ h in
      let (_, valid, h1) =
        >>=-eq-ok
          (bail_if (t.turn_no == 0 || (has t.turn_no numbers || is_blank t.prompt))
            PlanError.invalid_turn)
          _ first in
      let (_, known, last) =
        >>=-eq-ok
          (bail_if
            (any (λ key. not (is_opportunity r.target_opportunities key)) t.target_weakness_keys)
            PlanError.invalid_opportunity)
          _ h1 in
      let (clear, others) = validate_turns-Conforms next.0 next.1 turns out later none' in
      let joined : next.0 ≡ checks ++ turn_checks to_lowercase p r.preceding_context t =
        ground (arith, last) in
      let (before, here) =
        append-nothing checks (turn_checks to_lowercase p r.preceding_context t)
          (rw (← joined) clear) in
      (
        before,
        (turn_checks-Conforms t here (ground (arith, valid)) (ground (arith, known)), others),
      )

turns-nonempty : (turns : List ProposedTurn) → is_empty turns ≡ false → 1 ≤ length turns
turns-nonempty [] h = absurd (cc)
turns-nonempty (t ∷ turns) h = omega arith

policy_of-ok :
    (table : Option PreferenceRow) (o : Option SessionOverride) (policy : Resolved)
    → policy_of table o ≡ ok policy
    → resolve table none o ≡ ok policy
unfolding policy_of
policy_of-ok table o policy h = elim (Outcome-cases (resolve table none o)) [
  | inl (p, found) ↦ let same : p ≡ policy = ground (arith, found, h) in rw (← same) found
  | inr (e, failed) ↦ absurd (ground (arith, failed, h))
]

-- A plan without a check to revise has one to twenty turns, is made for the version of the
-- preferences in force, and each of its turns conforms to them, with the session's override.
pub validate-Conforms :
    (to_lowercase : List ℕ → List ℕ) (has_weakness : String → Bool) (table : Option PreferenceRow)
    (r : ValidatePlanRequest)
    → validate to_lowercase has_weakness table r ≡ ok []
    → (policy : Resolved) × (resolve table none r.session_overrides ≡ ok policy)
      × (policy.preference_version ≡ r.policy_version)
      × (1 ≤ length r.turns)
      × (length r.turns ≤ 20)
      × All (Conforms to_lowercase policy.effective_preferences r) r.turns
unfolding validate
validate-Conforms to_lowercase has_weakness table r h =
    let (policy, resolved, h1) = >>=-eq-ok (policy_of table r.session_overrides) _ h in
    let (_, same, h2) =
      >>=-eq-ok
        (bail_if (not (policy.preference_version == r.policy_version)) PlanError.version_conflict) _
        h1 in
    let (_, few, h3) =
      >>=-eq-ok
        (bail_if
          (is_empty r.turns || (ltb 20 (length r.turns) || ltb 20 (length r.preceding_context)))
          PlanError.too_many_turns)
        _ h2 in
    let (_, _, h4) =
      >>=-eq-ok
        (for_each
          (λ (o : TargetOpportunity).
            bail_if (not (has_weakness o.weakness_key)) PlanError.invalid_opportunity)
          r.target_opportunities)
        _ h3 in
    let ((checks, numbers), folded, last) =
      >>=-eq-ok
        (try_fold (validate_turn to_lowercase policy.effective_preferences r) ([], []) r.turns) _
        h4 in
    let joined : checks ++ budget_checks policy.effective_preferences r ≡ [] =
      ground (arith, last) in
    let (clear, _) = append-nothing checks (budget_checks policy.effective_preferences r) joined in
    let (_, conform) =
      validate_turns-Conforms to_lowercase policy.effective_preferences r [] [] r.turns
        (checks, numbers) folded clear in
    (
      policy,
      policy_of-ok table r.session_overrides policy resolved,
      ground (arith, same),
      turns-nonempty r.turns (ground (arith, few)),
      ground (arith, few),
      conform,
    )
