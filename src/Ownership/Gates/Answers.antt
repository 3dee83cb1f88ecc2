-- ===== src/Ownership/Gates/Answers.antt =====
-- src/agent_runtime_lab/ownership/gates.py: `evaluate_gate`, which decides on an answer at a USER_GATE.
use Prim.Native.Char.{code}
use agent_runtime_lab.Prelude.{
  ℕ, suc, ◌≤◌, String, ◌≡◌, ◌↔◌, refl, ap, ◌∙◌, Bool, true, false, not, ◌&&◌, ◌||◌, ◌==◌, leb, ltb,
  Option, none, some, List, [], ◌∷◌, filter, holds, string_dec, is_empty, ◌<>◌, if◌then◌else◌,
  arith,
}
use agent_runtime_lab.Result.{Result, ok, err, attribute_error}
use agent_runtime_lab.Json.{Json, bool, str, dict, Fields, get, Host}
use agent_runtime_lab.Ownership.Gates.{
  GateProposal, GateEvaluation, GateEvaluationOutcome, pass, retry, block,
}

-- `", ".join(texts)`
unfoldable pub join : String → List String → String
join separator [] = ""
join separator (t ∷ []) = t
join separator (t ∷ u ∷ ts) = t <> (separator <> join separator (u ∷ ts))

abbrev is_missing : Option Json → Bool
is_missing none = true
is_missing (some _) = false

abbrev missing_fields : Fields → List String
missing_fields answer =
    filter (λ name. is_missing (get name answer))
      ("tool_name" ∷ "path" ∷ "risk_explanation" ∷ "refuse" ∷ [])

-- `isinstance(value, str) and value`
abbrev is_nonempty_text : Option Json → Bool
is_nonempty_text (some (str text)) = not (is_empty text)
is_nonempty_text _ = false

abbrev invalid_text_fields : Fields → List String
invalid_text_fields answer =
    filter (λ name. not (is_nonempty_text (get name answer)))
      ("tool_name" ∷ "path" ∷ "risk_explanation" ∷ [])

abbrev is_bool : Option Json → Bool
is_bool (some (bool _)) = true
is_bool _ = false

abbrev is_refusal : Option Json → Bool
is_refusal (some (bool true)) = true
is_refusal _ = false

abbrev text_of : Option Json → String
text_of (some (str text)) = text
text_of _ = ""

-- The characters that `str.split()` splits at.
unfoldable pub is_space : ℕ → Bool
is_space n =
    (leb 9 n && leb n 13)
    || (leb 28 n && leb n 32)
    || n == 133
    || n == 160
    || n == 5760
    || (leb 8192 n && leb n 8202)
    || n == 8232
    || n == 8233
    || n == 8239
    || n == 8287
    || n == 12288

-- `len("".join(text.split()))`
unfoldable pub explanation_length : String → ℕ
explanation_length String.[] = 0
explanation_length (String.◌∷◌ c rest) =
    let more = explanation_length rest in if is_space (code c) then more else suc more

abbrev evaluation : GateEvaluationOutcome → String → Result GateEvaluation
evaluation outcome reason = ok (record { outcome = outcome; reason = reason })

-- The end of `evaluate_gate`, with the path that is proposed.
unfoldable pub evaluate_path : Fields → Option Json → Result GateEvaluation
evaluate_path answer (some (str proposed_path)) =
    if not (holds (string_dec (text_of (get "path" answer)) proposed_path))
    then evaluation retry "path does not match the gated proposal"
    else if ltb (explanation_length (text_of (get "risk_explanation" answer))) 20
    then evaluation retry "risk_explanation must contain at least 20 non-whitespace characters"
    else evaluation pass "tool, path, and risk explanation match the gated proposal"
evaluate_path answer _ = evaluation block "gated proposal does not contain a string path"

abbrev evaluate_arguments : Fields → Option Json → Result GateEvaluation
evaluate_arguments answer (some (dict arguments)) = evaluate_path answer (get "path" arguments)
evaluate_arguments answer none = evaluation block "gated proposal contains invalid arguments JSON"
evaluate_arguments answer (some _) = err attribute_error

-- From the test of the fields that must be texts on, of which the invalid ones are listed.
unfoldable pub evaluate_texts : Host → GateProposal → Fields → List String → Result GateEvaluation
evaluate_texts h gate answer (name ∷ names) =
    evaluation retry ("fields must be non-empty strings: " <> join ", " (name ∷ names))
evaluate_texts h gate answer [] =
    if not (holds (string_dec (text_of (get "tool_name" answer)) gate.tool_name))
    then evaluation retry "tool_name does not match the gated proposal"
    else evaluate_arguments answer (h.loads gate.arguments_json)

-- From the test of the required fields on, of which the missing ones are listed.
unfoldable pub evaluate_fields : Host → GateProposal → Fields → List String → Result GateEvaluation
evaluate_fields h gate answer (name ∷ names) =
    evaluation retry ("missing required fields: " <> join ", " (name ∷ names))
evaluate_fields h gate answer [] =
    if not (is_bool (get "refuse" answer))
    then evaluation retry "refuse must be a boolean"
    else evaluate_texts h gate answer (invalid_text_fields answer)

-- `evaluate_gate(gate, answer)`
unfoldable pub evaluate_gate : Host → GateProposal → Fields → Result GateEvaluation
evaluate_gate h gate answer =
    if is_refusal (get "refuse" answer)
    then evaluation block "user explicitly refused the proposed tool request"
    else evaluate_fields h gate answer (missing_fields answer)

-- What an answer must say to pass: it does not refuse, names the tool and the path that are
-- proposed, and explains the risk in at least 20 characters.
pub record Explains (h : Host) (gate : GateProposal) (answer : Fields) : Type 0 where
  pub arguments : Fields
  pub path : String
  pub explanation : String
  pub proposed : h.loads gate.arguments_json ≡ some (dict arguments)
  pub proposed_path : get "path" arguments ≡ some (str path)
  pub refuse : get "refuse" answer ≡ some (bool false)
  pub names_tool : get "tool_name" answer ≡ some (str gate.tool_name)
  pub names_path : get "path" answer ≡ some (str path)
  pub explains : get "risk_explanation" answer ≡ some (str explanation)
  pub length : 20 ≤ explanation_length explanation
  pub tool_present : is_empty gate.tool_name ≡ false
  pub path_present : is_empty path ≡ false

abbrev pub Passes : Host → GateProposal → Fields → Type 0
Passes h gate answer =
    (e : GateEvaluation) × (evaluate_gate h gate answer ≡ ok e) × (e.outcome ≡ pass)

explained : (t : String) → 20 ≤ explanation_length t → is_empty t ≡ false
unfolding explanation_length
explained String.[] long = absurd (omega arith)
explained (String.◌∷◌ c rest) long = refl

module _ (h : Host) (gate : GateProposal) (answer : Fields) where
  passed_path :
      (x : Explains h gate answer)
      → evaluate_path answer (some (str x.path))
        ≡ evaluation pass "tool, path, and risk explanation match the gated proposal"
  unfolding evaluate_path
  passed_path x = rw (x.names_path, x.explains) (ground (arith, x.length))

  texts_valid : Explains h gate answer → invalid_text_fields answer ≡ []
  texts_valid x = rw (
    x.names_tool,
    x.names_path,
    x.explains,
    x.tool_present,
    x.path_present,
    explained x.explanation x.length,
  )

  passed_fields :
      (x : Explains h gate answer)
      → evaluate_fields h gate answer []
        ≡ evaluation pass "tool, path, and risk explanation match the gated proposal"
  unfolding evaluate_fields evaluate_texts
  passed_fields x =
      rw (x.refuse, texts_valid x, x.names_tool, x.proposed, x.proposed_path)
        (ground (arith, passed_path x))

  nothing_missing : Explains h gate answer → missing_fields answer ≡ []
  nothing_missing x = ground (arith, x.refuse, x.names_tool, x.names_path, x.explains)

  Explains-Passes : Explains h gate answer → Passes h gate answer
  unfolding evaluate_gate
  Explains-Passes x =
      let evaluated : evaluate_gate h gate answer
          ≡ evaluation pass "tool, path, and risk explanation match the gated proposal" =
        rw (nothing_missing x) (ground (arith, x.refuse, passed_fields x)) in
      (_, evaluated, refl)

nonempty_text :
    (o : Option Json)
    → is_nonempty_text o ≡ true
    → (t : String) × (o ≡ some (str t)) × (is_empty t ≡ false)
nonempty_text (some (str t)) e = (t, refl, ground (arith, e))
nonempty_text o e = absurd (ground arith)

valid_texts :
    (answer : Fields)
    → invalid_text_fields answer ≡ []
    → (is_nonempty_text (get "tool_name" answer) ≡ true)
      × (is_nonempty_text (get "path" answer) ≡ true)
      × (is_nonempty_text (get "risk_explanation" answer) ≡ true)
valid_texts answer e = ground arith

bool_cases : (o : Option Json) → is_bool o ≡ true → is_refusal o ≡ false → o ≡ some (bool false)
bool_cases o e r = ground arith

module _ (h : Host) (gate : GateProposal) (answer : Fields) where
  -- The tests that an answer that passes has passed, from the last.
  text_tests :
      (e : GateEvaluation) (invalid : List String)
      → evaluate_texts h gate answer invalid ≡ ok e
      → e.outcome ≡ pass
      → (invalid ≡ [])
        × (text_of (get "tool_name" answer) ≡ gate.tool_name)
        × (evaluate_arguments answer (h.loads gate.arguments_json) ≡ ok e)
  unfolding evaluate_texts
  text_tests e [] done passes = ground arith
  text_tests e (name ∷ names) done passes = absurd (ground arith)

  field_tests :
      (e : GateEvaluation) (missing : List String)
      → evaluate_fields h gate answer missing ≡ ok e
      → e.outcome ≡ pass
      → (is_bool (get "refuse" answer) ≡ true)
        × (evaluate_texts h gate answer (invalid_text_fields answer) ≡ ok e)
  unfolding evaluate_fields
  field_tests e [] done passes = ground arith
  field_tests e (name ∷ names) done passes = absurd (ground arith)

  gate_tests :
      (e : GateEvaluation)
      → evaluate_gate h gate answer ≡ ok e
      → e.outcome ≡ pass
      → (is_refusal (get "refuse" answer) ≡ false)
        × (evaluate_fields h gate answer (missing_fields answer) ≡ ok e)
  unfolding evaluate_gate
  gate_tests e done passes = ground arith

  checked_path :
      (e : GateEvaluation) (o : Option Json)
      → evaluate_path answer o ≡ ok e
      → e.outcome ≡ pass
      → (path : String) × (o ≡ some (str path))
        × (text_of (get "path" answer) ≡ path)
        × (20 ≤ explanation_length (text_of (get "risk_explanation" answer)))
  unfolding evaluate_path
  checked_path e (some (str path)) done passes = (path, refl, ground arith, ground arith)
  checked_path e o done passes = absurd (ground arith)

  proposed_arguments :
      (e : GateEvaluation) (o : Option Json)
      → evaluate_arguments answer o ≡ ok e
      → e.outcome ≡ pass
      → (arguments : Fields) × (o ≡ some (dict arguments))
        × (evaluate_path answer (get "path" arguments) ≡ ok e)
  proposed_arguments e (some (dict arguments)) done passes = (arguments, refl, done)
  proposed_arguments e o done passes = absurd (ground arith)

  Passes-Explains : Passes h gate answer → Explains h gate answer
  Passes-Explains (e, done, passes) =
      let (unrefused, at_fields) = gate_tests e done passes in
      let (boolean, at_texts) = field_tests e _ at_fields passes in
      let (texts, tool, at_arguments) = text_tests e _ at_texts passes in
      let (arguments, proposed, at_path) = proposed_arguments e _ at_arguments passes in
      let (path, proposed_path, named, long) = checked_path e _ at_path passes in
      let (tool_text, path_text, explanation_text) = valid_texts answer texts in
      let (t, names_tool, tool_present) = nonempty_text _ tool_text in
      let (p, names_path, path_present) = nonempty_text _ path_text in
      let (x, explains, _) = nonempty_text _ explanation_text in
      let same_tool : t ≡ gate.tool_name = ground (arith, tool, names_tool) in
      let same_path : p ≡ path = ground (arith, named, names_path) in
      record {
        arguments = arguments;
        path = path;
        explanation = x;
        proposed = proposed;
        proposed_path = proposed_path;
        refuse = bool_cases _ boolean unrefused;
        names_tool = names_tool ∙ ap (λ (u : String). some (str u)) same_tool;
        names_path = names_path ∙ ap (λ (u : String). some (str u)) same_path;
        explains = explains;
        length = ground (arith, long, explains);
        tool_present = ground (arith, same_tool, tool_present);
        path_present = ground (arith, same_path, path_present);
      }

  -- An answer passes a USER_GATE exactly if it does not refuse, names the tool and the path of the
  -- proposal, neither of them empty, and explains the risk in at least 20 characters that are not
  -- white space.
  pub evaluate_gate-Explains : Passes h gate answer ↔ Explains h gate answer
  evaluate_gate-Explains = (Passes-Explains, Explains-Passes h gate answer)
