-- ===== src/Swap/Restore.antt =====
-- The signatures of a NUT-09 restore, put in the order of the outputs: `match_restore_response` of
-- crates/cdk-spilman/src/bindings.rs and `complete_swap_restore` of
-- crates/cdk-spilman/src/swap_completion.rs.
pub mod Matched
pub mod Reordered
pub mod Recovered
use cashu_spilman_channels.Prelude.{
  ℕ, zero, suc, String, Bool, true, false, not, ◌&&◌, ◌||◌, Option, none, some, List, [], ◌∷◌,
  length, replicate, Result, ok, err, ◌>>=◌, ◌>>◌, map_err, ok_or, reject_if, ◌!=◌, if◌then◌else◌,
}
use cashu_spilman_channels.Packages.{Packages, Proof}
use cashu_spilman_channels.Amounts.{KeysetInfo}
use cashu_spilman_channels.Swap.{
  BlindedMessage, BlindSignature, SwapRequest, RestoreResponse, PreparedSwapOutput, Curve,
  same_message, is_empty_list, effective_outputs, complete,
}

pub data RestoreError : Type 0 where
  output_signature_count restore_count : ℕ → ℕ → RestoreError
  unknown_output duplicate_output : RestoreError
  omitted_output : ℕ → RestoreError

-- `expected_outputs.iter().position(|expected| expected == &output)`
position : List BlindedMessage → BlindedMessage → Option ℕ
position [] output = none
position (expected ∷ outputs) output =
    let later = position outputs output in
    if same_message expected output
    then some 0
    else elim later [ none ↦ none | some i ↦ some (suc i) ]

-- `matched[index]`, and a write to it
at : {A : Type 0} → List (Option A) → ℕ → Option A
at [] i = none
at (x ∷ xs) zero = x
at (x ∷ xs) (suc i) = at xs i

put : {A : Type 0} → List (Option A) → ℕ → A → List (Option A)
put [] i a = []
put (x ∷ xs) zero a = some a ∷ xs
put (x ∷ xs) (suc i) a = x ∷ put xs i a

is_set : {A : Type 0} → Option A → Bool
is_set none = false
is_set (some a) = true

-- `if matched[index].replace(signature).is_some()`
replaced :
    List (Option BlindSignature)
    → ℕ
    → BlindSignature
    → Result RestoreError (List (Option BlindSignature))
unfolding at put is_set
replaced matched i signature = do
  reject_if (is_set (at matched i)) duplicate_output
  ok (put matched i signature)

-- The loop over `response.outputs.zip(response.signatures)`.
match_outputs :
    List BlindedMessage
    → List BlindedMessage
    → List BlindSignature
    → List (Option BlindSignature)
    → Result RestoreError (List (Option BlindSignature))
unfolding position replaced
match_outputs expected [] signatures matched = ok matched
match_outputs expected (output ∷ outputs) [] matched = ok matched
match_outputs expected (output ∷ outputs) (signature ∷ signatures) matched = do
  index ← ok_or (position expected output) unknown_output
  next ← replaced matched index signature
  match_outputs expected outputs signatures next

-- The last loop: no expected output is omitted.
collect : ℕ → List (Option BlindSignature) → Result RestoreError (List BlindSignature)
collect index [] = ok []
collect index (signature ∷ matched) = do
  first ← ok_or signature (omitted_output index)
  rest ← collect (suc index) matched
  ok (first ∷ rest)

unfoldable pub match_restore_response :
    RestoreResponse → List BlindedMessage → Result RestoreError (List BlindSignature)
unfolding match_outputs collect
match_restore_response response expected_outputs = do
  reject_if (length response.outputs != length response.signatures)
      (output_signature_count (length response.outputs) (length response.signatures))
  reject_if (length response.outputs != length expected_outputs)
      (restore_count (length expected_outputs) (length response.outputs))
  matched ←
      match_outputs expected_outputs response.outputs response.signatures
        (replicate (length expected_outputs) none)
  collect 0 matched

messages_of : List PreparedSwapOutput → List BlindedMessage
messages_of [] = []
messages_of (o ∷ outputs) = o.blinded_message ∷ messages_of outputs

restored :
    Packages
    → Curve
    → List PreparedSwapOutput
    → RestoreResponse
    → KeysetInfo
    → Result String (Option (List Proof))
unfolding messages_of
restored p c outputs response keys = do
  signatures ←
      map_err (λ _. "invalid exact swap restore")
        (match_restore_response response (messages_of outputs))
  proofs ← complete p c signatures outputs keys
  ok (some proofs)

unfoldable pub complete_swap_restore :
    Packages
    → Curve
    → SwapRequest
    → List PreparedSwapOutput
    → Option String
    → RestoreResponse
    → KeysetInfo
    → Result String (Option (List Proof))
unfolding restored
complete_swap_restore p c request prepared r response keys =
    effective_outputs c request prepared keys r >>= λ outputs.
    if is_empty_list response.outputs && is_empty_list response.signatures
    then ok none
    else restored p c outputs response keys
