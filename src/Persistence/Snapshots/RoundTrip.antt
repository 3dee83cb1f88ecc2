-- ===== src/Persistence/Snapshots/RoundTrip.antt =====
-- A run state is read back from its snapshot text (persistence/snapshots.py).
use mathlib.Core.Option
use agent_runtime_lab.Prelude.{
  ℕ, String, ◌≡◌, refl, ap, ◌∙◌, true, Option, none, some, List, [], ◌∷◌, string_dec,
}
use agent_runtime_lab.Prelude.Int.{pos}
use agent_runtime_lab.Result.{ok}
use agent_runtime_lab.Json.{
  Json, str, list, no_items, item, map_items, Fields, get, all_keys, Host, IsCanonical, ReadsBack,
}
use agent_runtime_lab.Domain.State.{
  RunState, run_status_value, run_status_of-run_status_value, run_state,
}
use agent_runtime_lab.Persistence.Snapshots.{
  json_nat, optional_text, optional_nat, json_pairs, state_fields, is_expected, expected_fields,
  is_present, has_keys, read_pairs, read_state, read_text, read_nat, read_optional_text,
  read_optional_nat, read_fingerprints, encode_state, decode_state,
}

read_pairs-json_pairs : (pairs : List (String × String)) → read_pairs (json_pairs pairs) ≡ ok pairs
unfolding read_pairs
read_pairs-json_pairs [] = refl
read_pairs-json_pairs ((a, b) ∷ pairs) = rw (read_pairs-json_pairs pairs)

state_fields-expected : (s : RunState) → all_keys is_expected (state_fields s) ≡ true
unfolding all_keys string_dec
state_fields-expected s = refl

module _ (h : Host) (c : IsCanonical h) (b : ReadsBack h c) where
  value-json_pairs :
      (pairs : List (String × String)) → map_items b.value (json_pairs pairs) ≡ json_pairs pairs
  value-json_pairs [] = refl
  value-json_pairs ((x, y) ∷ pairs) = rw (
    b.value-list (item (str x) (item (str y) no_items)),
    b.value-str x,
    b.value-str y,
    value-json_pairs pairs,
  )

  value-optional_text : (o : Option String) → b.value (optional_text o) ≡ optional_text o
  value-optional_text none = b.value-null
  value-optional_text (some t) = b.value-str t

  value-optional_nat : (o : Option ℕ) → b.value (optional_nat o) ≡ optional_nat o
  value-optional_nat none = b.value-null
  value-optional_nat (some n) = b.value-int (pos n)

  reread :
      (k : String) (d : Fields) (v : Json)
      → get k d ≡ some v
      → b.value v ≡ v
      → get k (c.reread d) ≡ some v
  reread k d v found same = b.get-reread k d ∙ ap (Option.map b.value) found ∙ ap some same

  read-text :
      (k : String) (d : Fields) (t : String)
      → get k d ≡ some (str t)
      → read_text (get k (c.reread d)) ≡ ok t
  read-text k d t found = rw (reread k d (str t) found (b.value-str t))

  read-nat :
      (k : String) (d : Fields) (n : ℕ)
      → get k d ≡ some (json_nat n)
      → read_nat (get k (c.reread d)) ≡ ok n
  read-nat k d n found = rw (reread k d (json_nat n) found (b.value-int (pos n)))

  optional_text-read : (o : Option String) → read_optional_text (some (optional_text o)) ≡ ok o
  optional_text-read none = refl
  optional_text-read (some t) = refl

  read-optional_text :
      (k : String) (d : Fields) (o : Option String)
      → get k d ≡ some (optional_text o)
      → read_optional_text (get k (c.reread d)) ≡ ok o
  read-optional_text k d o found =
      rw (reread k d (optional_text o) found (value-optional_text o)) (optional_text-read o)

  optional_nat-read : (o : Option ℕ) → read_optional_nat (some (optional_nat o)) ≡ ok o
  optional_nat-read none = refl
  optional_nat-read (some n) = refl

  read-optional_nat :
      (k : String) (d : Fields) (o : Option ℕ)
      → get k d ≡ some (optional_nat o)
      → read_optional_nat (get k (c.reread d)) ≡ ok o
  read-optional_nat k d o found =
      rw (reread k d (optional_nat o) found (value-optional_nat o)) (optional_nat-read o)

  read-fingerprints :
      (d : Fields) (pairs : List (String × String))
      → get "applied_event_fingerprints" d ≡ some (list (json_pairs pairs))
      → read_fingerprints (get "applied_event_fingerprints" (c.reread d)) ≡ ok pairs
  read-fingerprints d pairs found =
      rw
        (reread "applied_event_fingerprints" d (list (json_pairs pairs)) found
          (b.value-list (json_pairs pairs) ∙ ap list (value-json_pairs pairs)))
        (read_pairs-json_pairs pairs)

  read_state-reread :
      (s : RunState) → run_state s ≡ ok s → read_state (c.reread (state_fields s)) ≡ ok s
  unfolding read_state get string_dec
  read_state-reread s valid =
      let d = state_fields s in
      rw
        (
          read-fingerprints d s.applied_event_fingerprints refl,
          read-text "run_id" d s.run_id refl,
          read-text "status" d (run_status_value s.status) refl,
          run_status_of-run_status_value s.status,
          read-nat "next_sequence" d s.next_sequence refl,
          read-nat "turn_index" d s.turn_index refl,
          read-optional_nat "max_steps" d s.max_steps refl,
          read-optional_text "active_step_id" d s.active_step_id refl,
          read-optional_text "active_model_invocation_id" d s.active_model_invocation_id refl,
          read-optional_text "active_model_action_event_id" d s.active_model_action_event_id refl,
          read-optional_text "active_tool_call_id" d s.active_tool_call_id refl,
          read-optional_text "active_gate_proposal_digest" d s.active_gate_proposal_digest refl,
          read-optional_nat "active_gate_revision" d s.active_gate_revision refl,
          read-optional_text "active_gate_mode" d s.active_gate_mode refl,
          read-nat "active_gate_attempts" d s.active_gate_attempts refl,
          read-optional_nat "active_gate_max_attempts" d s.active_gate_max_attempts refl,
          read-optional_text "failure_reason" d s.failure_reason refl,
        )
        valid

  is_present-map : (o : Option Json) → is_present (Option.map b.value o) ≡ is_present o
  is_present-map none = refl
  is_present-map (some v) = refl

  has_keys-reread : (keys : List String) (d : Fields) → has_keys keys (c.reread d) ≡ has_keys keys d
  has_keys-reread [] d = refl
  has_keys-reread (k ∷ keys) d =
      rw (b.get-reread k d, is_present-map (get k d), has_keys-reread keys d)

  state_fields-present : (s : RunState) → has_keys expected_fields (state_fields s) ≡ true
  unfolding get string_dec
  state_fields-present s = refl

  -- A run state is read back from its snapshot text as it was, where json reads back what it wrote
  -- and the state passes the checks of its constructor.
  pub decode_state-encode_state :
      (s : RunState) → run_state s ≡ ok s → decode_state h (encode_state h s) ≡ ok s
  unfolding decode_state encode_state
  decode_state-encode_state s valid =
      rw
        (
          c.loads-dumps (state_fields s),
          b.keys-reread is_expected (state_fields s),
          state_fields-expected s,
          has_keys-reread expected_fields (state_fields s),
          state_fields-present s,
        )
        (read_state-reread s valid)
