-- ===== src/Completion/Accepted.antt =====
-- When a final answer is accepted (completion.py).
use agent_runtime_lab.Prelude.{
  String, ◌≡◌, ◌⊎◌, ◌↔◌, refl, Bool, true, false, Bool-cases, Option, some, inl, inr, holds,
  string_dec, is_empty, ◌&&◌, arith,
}
use agent_runtime_lab.Result.{ok, Result-cases}
use agent_runtime_lab.Json.{Json, str, list, dict, Items, Fields, get, Host}
use agent_runtime_lab.Completion.{
  accepted, CompletionExpectation, CompletionResult, is_digest, is_text, is_list, is_evidence,
  is_met, completion_check, answer_message, observation_message, summary_of, outcome_of,
  is_accepted, same, completion_result, has_verified_observation, verify_completion,
}

-- The observation holds a verification, an object with a text as summary and a list of checks.
abbrev pub HasEvidence : Fields → Type 0
HasEvidence observation =
    (verification : Fields) × (summary : String) × (checks : Items) × (get "verification"
        observation
      ≡ some (dict verification))
    × (get "summary" verification ≡ some (str summary))
    × (get "checks" verification ≡ some (list checks))

text_found : (o : Option Json) → is_text o ≡ true → (text : String) × (o ≡ some (str text))
text_found (some (str text)) e = (text, refl)
text_found _ e = absurd (ground arith)

list_found : (o : Option Json) → is_list o ≡ true → (items : Items) × (o ≡ some (list items))
list_found (some (list items)) e = (items, refl)
list_found _ e = absurd (ground arith)

evidence_found :
    (observation : Fields) (o : Option Json)
    → get "verification" observation ≡ o
    → is_evidence o ≡ true
    → HasEvidence observation
evidence_found observation (some (dict verification)) at e =
    let (summary, at_summary) = text_found (get "summary" verification) (ground arith) in
    let (checks, at_checks) = list_found (get "checks" verification) (ground arith) in
    (verification, summary, checks, at, at_summary, at_checks)
evidence_found observation _ at e = absurd (ground arith)

is_met-HasEvidence :
    (expectation : CompletionExpectation) (observation : Fields)
    → (is_met expectation observation ≡ true)
      ↔ ((expectation.require_verified_observation ≡ false) ⊎ HasEvidence observation)
unfolding has_verified_observation
is_met-HasEvidence expectation observation = (
  λ met. elim (Bool-cases expectation.require_verified_observation) [
    | inl required ↦ inr (evidence_found observation _ refl (ground arith))
    | inr free ↦ inl free
  ],
  λ either. elim either [
    | inl free ↦ ground arith
    | inr (verification, summary, checks, at, at_summary, at_checks) ↦
        ground (arith, at, at_summary, at_checks)
  ],
)

-- What a verified completion is to say.
abbrev pub Judges : Host → String → Fields → CompletionExpectation → CompletionResult → Type 0
Judges h answer observation expectation r =
    (r.answer_sha256 ≡ h.sha256 answer)
    × ((r.outcome ≡ accepted) ↔ (
        (answer ≡ expectation.expected_answer)
        × ((expectation.require_verified_observation ≡ false) ⊎ HasEvidence observation)))

answer_message_shown : (b : Bool) → is_empty (answer_message b) ≡ false
answer_message_shown true = refl
answer_message_shown false = refl

observation_message_shown : (b : Bool) → is_empty (observation_message b) ≡ false
observation_message_shown true = refl
observation_message_shown false = refl

summary_of_shown : (b : Bool) → is_empty (summary_of b) ≡ false
summary_of_shown true = refl
summary_of_shown false = refl

outcome_of-same : (b : Bool) → same b (is_accepted (outcome_of b)) ≡ true
outcome_of-same true = refl
outcome_of-same false = refl

verify_completion_result :
    (h : Host) (answer : String) (observation : Fields) (expectation : CompletionExpectation)
    → is_digest (h.sha256 answer) ≡ true
    → (r : CompletionResult) × (verify_completion h answer observation expectation ≡ ok r)
unfolding verify_completion completion_check completion_result
verify_completion_result h answer observation expectation digest =
    elim (Result-cases (verify_completion h answer observation expectation)) [
      | inl (r, e) ↦ (r, e)
      | inr (x, refused) ↦
          let matches = holds (string_dec answer expectation.expected_answer) in
          let passed = matches && is_met expectation observation && true in
          absurd (
            ground (
              arith,
              answer_message_shown matches,
              observation_message_shown (has_verified_observation observation),
              summary_of_shown passed,
              outcome_of-same passed,
            ))
    ]

verify_completion-Judges :
    (h : Host) (answer : String) (observation : Fields) (expectation : CompletionExpectation)
    (r : CompletionResult)
    → verify_completion h answer observation expectation ≡ ok r
    → Judges h answer observation expectation r
unfolding verify_completion completion_check completion_result
verify_completion-Judges h answer observation expectation r e =
    let (found, enough) = is_met-HasEvidence expectation observation in
    (
      ground arith,
      (
        (λ o. (ground arith, found (ground arith))),
        (λ (equal, evidence). ground (arith, equal, enough evidence)),
      ),
    )

-- Where the host's SHA-256 of the answer is a lowercase digest, the verification of a completion
-- raises nothing: its result is bound to the digest of the answer, and is accepted exactly when the
-- answer is the expected one and either no verified observation is required, or the observation
-- holds a verification, an object with a text as summary and a list of checks.
pub verify_completion_lem :
    (h : Host) (answer : String) (observation : Fields) (expectation : CompletionExpectation)
    → is_digest (h.sha256 answer) ≡ true
    → (r : CompletionResult) × (verify_completion h answer observation expectation ≡ ok r)
      × Judges h answer observation expectation r
verify_completion_lem h answer observation expectation digest =
    let (r, e) = verify_completion_result h answer observation expectation digest in
    (r, e, verify_completion-Judges h answer observation expectation r e)
