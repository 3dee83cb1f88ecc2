-- ===== src/Effects/Store/Consistent.antt =====
-- The rules of the tables of intents and receipts, through any saves
-- (persistence/sqlite_tool_effect_store.py).
use agent_runtime_lab.Prelude.{
  String, ◌≡◌, ◌≢◌, ◌⊎◌, inl, inr, false, none, some, List, [], ◌∷◌, ◌++◌, any, All, All-map,
  All-append, string_dec, arith,
}
use agent_runtime_lab.Json.{Host}
use agent_runtime_lab.Effects.{ToolIntent, ToolReceipt}
use agent_runtime_lab.Effects.Store.{EffectStore, empty_store, same_call, find_intent, find_receipt}
use agent_runtime_lab.Effects.Store.History.{
  Save, of_intent, of_receipt, save, save_all, save_intent_cases, save_receipt_cases,
}

-- Each two elements, in order, stand in the relation.
abbrev pub Pairwise {ℓ} : {A : Type ℓ} → (A → A → Type 0) → List A → Type 0
Pairwise R [] = Unit
Pairwise R (x ∷ xs) = All (R x) xs × Pairwise R xs

-- The intents have other effects, and are of other calls.
abbrev pub Differs : ToolIntent → ToolIntent → Type 0
Differs i j =
    (i.effect_id ≢ j.effect_id) × ((i.run_id ≢ j.run_id) ⊎ (i.tool_call_id ≢ j.tool_call_id))

-- An intent of this effect is stored.
abbrev pub HasIntent : List ToolIntent → String → Type 0
HasIntent [] effect_id = ⊥
HasIntent (i ∷ rows) effect_id = (i.effect_id ≡ effect_id) ⊎ HasIntent rows effect_id

-- No two intents have an effect or a call in common, no two receipts an effect, and each receipt is
-- of the effect of an intent.
pub record IsConsistent (store : EffectStore) : Type 0 where
  pub intents_differ : Pairwise Differs store.tool_intents
  pub receipts_differ : Pairwise (λ r t. r.effect_id ≢ t.effect_id) store.tool_receipts
  pub receipts_intended : All (λ r. HasIntent store.tool_intents r.effect_id) store.tool_receipts

Pairwise-append :
    {A : Type 0} (R : A → A → Type 0) (xs : List A) (y : A)
    → Pairwise R xs
    → All (λ x. R x y) xs
    → Pairwise R (xs ++ y ∷ [])
Pairwise-append R [] y p a = (tt, tt)
Pairwise-append R (x ∷ xs) y (first, rest) (before, a) =
    (All-append (R x) xs y first before, Pairwise-append R xs y rest a)

HasIntent-append :
    (rows : List ToolIntent) (i : ToolIntent) (effect_id : String)
    → HasIntent rows effect_id
    → HasIntent (rows ++ i ∷ []) effect_id
HasIntent-append [] i effect_id there = elim there [ ]
HasIntent-append (j ∷ rows) i effect_id (inl here) = inl here
HasIntent-append (j ∷ rows) i effect_id (inr there) = inr (HasIntent-append rows i effect_id there)

new_intent-Differs :
    (rows : List ToolIntent) (i : ToolIntent)
    → find_intent i.effect_id rows ≡ none
    → any (same_call i) rows ≡ false
    → All (λ j. Differs j i) rows
unfolding find_intent
new_intent-Differs [] i fresh free = tt
new_intent-Differs (j ∷ rows) i fresh free =
    ((ground arith, other_call), new_intent-Differs rows i (ground arith) (ground arith))
  where
    other_call : (j.run_id ≢ i.run_id) ⊎ (j.tool_call_id ≢ i.tool_call_id)
    other_call = elim (string_dec j.run_id i.run_id) [
      | yes same ↦ inr (λ e. absurd (ground arith))
      | no other ↦ inl other
    ]

new_receipt_differs :
    (rows : List ToolReceipt) (r : ToolReceipt)
    → find_receipt r.effect_id rows ≡ none
    → All (λ t. t.effect_id ≢ r.effect_id) rows
unfolding find_receipt
new_receipt_differs [] r fresh = tt
new_receipt_differs (t ∷ rows) r fresh = (ground arith, new_receipt_differs rows r (ground arith))

found-HasIntent :
    (effect_id : String) (rows : List ToolIntent) (i : ToolIntent)
    → find_intent effect_id rows ≡ some i
    → HasIntent rows effect_id
unfolding find_intent
found-HasIntent effect_id [] i e = absurd (ground arith)
found-HasIntent effect_id (j ∷ rows) i e = elim (string_dec j.effect_id effect_id) [
  | yes same ↦ inl same
  | no other ↦ inr (found-HasIntent effect_id rows i (ground arith))
]

module _ (h : Host) where
  save-IsConsistent :
      (store : EffectStore) (x : Save) → IsConsistent store → IsConsistent (save h store x)
  save-IsConsistent store (of_intent i) c = elim (save_intent_cases h store i) [
    | inl same ↦ rw same c
    | inr (fresh, free, added) ↦ rw added (record {
      intents_differ =
          Pairwise-append Differs store.tool_intents i c.intents_differ
            (new_intent-Differs store.tool_intents i fresh free);
      receipts_differ = c.receipts_differ;
      receipts_intended =
          All-map store.tool_receipts
            (λ r there. HasIntent-append store.tool_intents i r.effect_id there)
            c.receipts_intended;
    })
  ]
  save-IsConsistent store (of_receipt r) c = elim (save_receipt_cases h store r) [
    | inl same ↦ rw same c
    | inr (fresh, (i, there), added) ↦ rw added (record {
      intents_differ = c.intents_differ;
      receipts_differ =
          Pairwise-append (λ r t. r.effect_id ≢ t.effect_id) store.tool_receipts r c.receipts_differ
            (new_receipt_differs store.tool_receipts r fresh);
      receipts_intended =
          All-append (λ t. HasIntent store.tool_intents t.effect_id) store.tool_receipts r
            c.receipts_intended (found-HasIntent r.effect_id store.tool_intents i there);
    })
  ]

  save_all-IsConsistent :
      (store : EffectStore) (xs : List Save)
      → IsConsistent store
      → IsConsistent (save_all h store xs)
  save_all-IsConsistent store [] c = c
  save_all-IsConsistent store (x ∷ xs) c =
      save_all-IsConsistent (save h store x) xs (save-IsConsistent store x c)

  -- After any saves from empty tables, accepted or refused, no two intents have an effect id in
  -- common, or both the run and the call; no two receipts have an effect id in common; and each
  -- receipt has the effect id of a stored intent.
  pub saved-IsConsistent : (xs : List Save) → IsConsistent (save_all h empty_store xs)
  saved-IsConsistent xs =
      save_all-IsConsistent empty_store xs
        (record { intents_differ = tt; receipts_differ = tt; receipts_intended = tt })
