-- ===== src/Verification/Evidence.antt =====
-- What a verification result says of the receipt (verification.py).
use agent_runtime_lab.Prelude.{String, ◌≡◌, ◌↔◌, true, Option, none, some, [], ◌∷◌, arith}
use agent_runtime_lab.Json.{Json, str, get, Host}
use agent_runtime_lab.Effects.{ToolOutcome, succeeded, ToolReceipt, receipt_output}
use agent_runtime_lab.Verification.{
  passed, VerificationExpectation, VerificationCheck, is_success, text_equals, failed_count,
  conclude, verify,
}

text_equals-true :
    (found : Option Json) (text : String)
    → (text_equals found text ≡ true) ↔ (found ≡ some (str text))
text_equals-true none text = (λ h. ground arith, λ h. ground arith)
text_equals-true (some (str value)) text = (λ h. ground arith, λ h. ground arith)
text_equals-true (some _) text = (λ h. ground arith, λ h. ground arith)

is_success-true : (o : ToolOutcome) → (is_success o ≡ true) ↔ (o ≡ succeeded)
is_success-true o = (λ h. ground arith, λ h. ground arith)

conclude_all :
    (a b c : VerificationCheck)
    → ((conclude (a ∷ b ∷ c ∷ []) (failed_count (a ∷ b ∷ c ∷ []))).outcome ≡ passed)
      ↔ ((a.is_passed ≡ true) × (b.is_passed ≡ true) × (c.is_passed ≡ true))
unfolding conclude failed_count
conclude_all a b c = (λ h. ground arith, λ h. ground arith)

-- A verification passes exactly for a succeeded receipt whose output has the expected path and the
-- expected digest.
pub verify-passed :
    (h : Host) (receipt : ToolReceipt) (expectation : VerificationExpectation)
    → ((verify h receipt expectation).outcome ≡ passed) ↔ (
        (receipt.outcome ≡ succeeded)
        × (get "path" (receipt_output h receipt) ≡ some (str expectation.path))
        × (get "sha256" (receipt_output h receipt) ≡ some (str expectation.sha256)))
unfolding verify
verify-passed h receipt expectation =
    let path = text_equals-true (get "path" (receipt_output h receipt)) expectation.path in
    let digest = text_equals-true (get "sha256" (receipt_output h receipt)) expectation.sha256 in
    let succeeds = is_success-true receipt.outcome in
    let all_three = conclude_all _ _ _ in
    (
      λ e. let (a, b, c) = all_three.0 e in (succeeds.0 a, path.0 b, digest.0 c),
      λ (a, b, c). all_three.1 (succeeds.1 a, path.1 b, digest.1 c),
    )
