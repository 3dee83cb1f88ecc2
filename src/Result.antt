-- ===== src/Result.antt =====
-- src/agent_runtime_lab/domain/errors.py: the exception classes, and the result of code that may
-- raise. A raised message is left out; the class of the exception is kept. The last six are
-- exceptions of Python and of `sqlite3` that the source raises or lets through.
use agent_runtime_lab.Prelude.{Bool, true, false, ◌≡◌, refl, ◌⊎◌, inl, inr, arith}

pub data Error : Type 0 where
  event_validation run_mismatch sequence_mismatch duplicate_event_conflict : Error
  duplicate_tool_effect_conflict missing_tool_intent missing_verification_evidence : Error
  model_action_validation model_adapter_exhausted model_provider step_budget_exhausted : Error
  unsafe_tool_retry tool_timeout unknown_tool duplicate_tool_definition : Error
  tool_argument_validation workspace_execution restricted_tool_execution : Error
  invalid_transition gate_reference_mismatch terminal_state : Error
  value_error type_error runtime_error key_error attribute_error : Error
  integrity_error : Error

-- `ok` is a returned value, `err` a raised exception.
pub data Result {ℓ} (A : Type ℓ) : Type ℓ where
  err : Error → Result A
  ok : A → Result A

-- What holds of the value, if the code returns one.
abbrev pub Ensures {ℓ κ} : {A : Type ℓ} → (A → Type κ) → Result A → Type κ
Ensures P (err _) = Unit
Ensures P (ok value) = P value

pub Result-cases {ℓ} :
    {A : Type ℓ} (r : Result A) → ((a : A) × (r ≡ ok a)) ⊎ ((e : Error) × (r ≡ err e))
Result-cases (err raised) = inr (raised, refl)
Result-cases (ok value) = inl (value, refl)

-- `if` the decided statement fails, `raise e`
abbrev pub check {ℓ} : {P : Type ℓ} → Dec P → Error → Result (Unit {0})
check (yes _) _ = ok tt
check (no _) raised = err raised

-- A check of what holds passes.
pub check_true {ℓ} : {P : Type ℓ} (d : Dec P) (raised : Error) → P → check d raised ≡ ok tt
check_true (yes _) raised p = refl
check_true (no refused) raised p = absurd (refused p)

-- `if not test: raise e`
abbrev pub guard : Bool → Error → Result (Unit {0})
guard false raised = err raised
guard true _ = ok tt

-- An exception ends the code that follows it.
infixl 5 ◌>>=◌ ◌>>◌
abbrev pub ◌>>=◌ {ℓ κ} : {A : Type ℓ} {B : Type κ} → Result A → (A → Result B) → Result B
err raised >>= next = err raised
ok value >>= next = next value

abbrev pub ◌>>◌ {ℓ κ} : {A : Type ℓ} {B : Type κ} → Result A → Result B → Result B
first >> next = first >>= λ _. next

-- A successful chain has a first value and a rest that succeeds.
pub bound {ℓ κ} :
    {A : Type ℓ} {B : Type κ} (m : Result A) (f : A → Result B) (v : B)
    → (m >>= f) ≡ ok v
    → (a : A) × (m ≡ ok a) × (f a ≡ ok v)
bound (err e) f v is = absurd (ground arith)
bound (ok a) f v is = (a, refl, is)
