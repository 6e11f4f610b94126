-- ===== src/Examples/Swaps.antt =====
-- Swaps on the concrete curve: the answer to a request, a restore in another order, and the request of a
-- commitment.
use cashu_spilman_channels.Prelude.{
  ℕ, ◌^◌, ◌<◌, String, false, some, List, [], ◌∷◌, Result, ok, err, none, true, ◌>>=◌, ◌≡◌, refl,
  arith, length,
}
use cashu_spilman_channels.Packages.{Proof}
use cashu_spilman_channels.Channel.{
  CommitmentOutputs, for_balance, value_after_fees_of, new_outputs, inverse_of,
}
use cashu_spilman_channels.Channel
use cashu_spilman_channels.Amounts.{
  deterministic_value_after_fees, btree_insert, div_ceil, expand_rev, finish, from_target, greedy,
  insert_descending, inverse_deterministic_value_after_fees, inverse_loop, key_amounts,
  new_keyset_info, nominal_total, record_count, sort_descending, take_amount, unrepresentable,
  value_after_fees, OrderedListOfAmounts,
}
use cashu_spilman_channels.Amounts.Target.{IsPositive}
use cashu_spilman_channels.Channel.{
  get_value_after_stage1, get_value_after_stage1_with_keyset, ChannelError,
}
use cashu_spilman_channels.Channel.Verification.{get_secrets_with_blinding}
use cashu_spilman_channels.Channel.Verification.Secrets.{smallest_first}
use cashu_spilman_channels.Swap.{
  BlindedMessage, BlindSignature, SwapRequest, RestoreResponse, PreparedSwapOutput,
  complete_swap_response, effective_outputs, swap_restore_request, any_repeated,
  complete_exact_signatures, checked_sum, complete,
}
use cashu_spilman_channels.Swap.Completion.{SwapCompleted, complete_swap_response-SwapCompleted}
use cashu_spilman_channels.Swap.Request.{create_swap_request, get_blinded_messages, sort_by}
use cashu_spilman_channels.Swap.Request.Conserved.{Conserves, create_swap_request-Conserves}
use cashu_spilman_channels.Swap.Restore.{match_restore_response, complete_swap_restore}
use cashu_spilman_channels.Swap.Restore.Reordered.{Reordered, swapped}
use cashu_spilman_channels.Swap.Restore.Recovered.{
  Distinct, complete_swap_restore-complete_swap_response,
}
use cashu_spilman_channels.Swap.Restore.Matched.{Each, Paired, match_restore_response-Each}
use cashu_spilman_channels.Channel.{rerandomized}
use cashu_spilman_channels.Prelude.{All}
use cashu_spilman_channels.Recovery.{
  ProofState, spent, FundingInspection, all_spent, inspected, close_randomness, fits_mode,
}
use cashu_spilman_channels.Recovery.Spent.{SpentAs, close_randomness-SpentAs}
use cashu_spilman_channels.Examples.Server.{packages, proofs}
use cashu_spilman_channels.Examples.Payments.{channel_params}
use cashu_spilman_channels.Examples.Close.{ok_or_else}
use cashu_spilman_channels.Examples.Curve.{curve, curve-KeepsAmounts, message, signature, response}

abbrev output : ℕ → String → PreparedSwapOutput
output amount secret = record {
  blinded_message = message amount secret;
  secret = secret;
  blinding_factor = "r";
}

abbrev prepared : List PreparedSwapOutput
prepared = output 1 "s1" ∷ output 2 "r2" ∷ output 2 "s2" ∷ output 4 "r4" ∷ output 4 "s4" ∷ []

abbrev swap : SwapRequest
swap = record {
  inputs = proofs;
  outputs = message 1 "s1" ∷ message 2 "r2" ∷ message 2 "s2" ∷ message 4 "r4" ∷ message 4 "s4" ∷ [];
  is_rerandomized = false;
}

abbrev value_or : {E A : Type 0} → A → Result E A → A
value_or a (ok b) = b
value_or a (err e) = a

abbrev completion : Result String (List Proof)
completion = complete_swap_response packages curve swap prepared response channel_params.keyset_info

-- The mint lists the outputs the other way round.
abbrev restore : RestoreResponse
restore = record {
  outputs = message 4 "b" ∷ message 1 "a" ∷ [];
  signatures = signature 4 ∷ signature 1 ∷ [];
}

abbrev expected : List BlindedMessage
expected = message 1 "a" ∷ message 4 "b" ∷ []

abbrev nothing_ordered : OrderedListOfAmounts
nothing_ordered = record { count_by_amount = []; amounts = []; input_fee_ppk = 0 }

abbrev no_commitment : CommitmentOutputs
no_commitment = record {
  receiver_outputs = Channel.outputs_from Channel.receiver 0 channel_params nothing_ordered;
  sender_outputs = Channel.outputs_from Channel.sender 0 channel_params nothing_ordered;
}

abbrev commitment : CommitmentOutputs
commitment = ok_or_else no_commitment (for_balance 10000 5 channel_params)

runs :
    (completion ≡ ok (value_or [] completion))
    × (match_restore_response restore expected ≡ ok (signature 1 ∷ signature 4 ∷ []))
    × (for_balance 10000 5 channel_params ≡ some (ok commitment))
    × (create_swap_request packages curve commitment proofs (some "00a1") ≡ ok swap)
    × (IsPositive channel_params.keyset_info.amounts_largest_first)
    × (get_value_after_stage1 channel_params ≡ some (ok 13))
    × (swap_restore_request curve swap none ≡ ok swap.outputs)
unfolding for_balance Channel.new value_after_fees_of new_outputs inverse_of get_value_after_stage1
    get_value_after_stage1_with_keyset deterministic_value_after_fees btree_insert div_ceil
    expand_rev finish from_target greedy insert_descending inverse_deterministic_value_after_fees
    inverse_loop key_amounts new_keyset_info nominal_total record_count sort_descending take_amount
    unrepresentable value_after_fees get_secrets_with_blinding smallest_first complete_swap_response
    effective_outputs swap_restore_request any_repeated complete_exact_signatures checked_sum
    complete match_restore_response create_swap_request get_blinded_messages sort_by
runs = (
  refl,
  refl,
  refl,
  refl,
  (omega arith, (omega arith, (omega arith, (omega arith, tt)))),
  refl,
  refl,
)

value_bound : (v : ℕ) → get_value_after_stage1 channel_params ≡ some (ok v) → v < 2 ^ 64
value_bound v h = ground (arith, h, runs.5)

ordinary_swap : swap.is_rerandomized ≡ true → Distinct swap.outputs
ordinary_swap h = absurd (ground (arith, h))

complete_swap_response-SwapCompleted_example :
    SwapCompleted packages curve channel_params.keyset_info swap prepared response
      (value_or [] completion)
complete_swap_response-SwapCompleted_example =
    complete_swap_response-SwapCompleted packages curve channel_params.keyset_info swap prepared
      response curve-KeepsAmounts runs.0

match_restore_response-Each_example :
    Each
      (λ o s. Paired o s restore.outputs restore.signatures)
      expected
      (signature 1 ∷ signature 4 ∷ [])
    × (length restore.outputs ≡ length expected)
    × (length (signature 4 ∷ signature 1 ∷ []) ≡ length expected)
match_restore_response-Each_example = match_restore_response-Each restore expected runs.1

create_swap_request-Conserves_example : Conserves channel_params "00a1" proofs swap
create_swap_request-Conserves_example =
    create_swap_request-Conserves packages curve channel_params 10000 5 "00a1" proofs runs.4
      value_bound runs.2 runs.3

-- The mint lists the second output first.
abbrev listed : List BlindedMessage
listed = message 2 "r2" ∷ message 1 "s1" ∷ message 2 "s2" ∷ message 4 "r4" ∷ message 4 "s4" ∷ []

abbrev beside : List BlindSignature
beside = signature 2 ∷ signature 1 ∷ signature 2 ∷ signature 4 ∷ signature 4 ∷ []

reordered : Reordered swap.outputs response.signatures listed beside
reordered = swapped _ _ _ _ _ _

complete_swap_restore-complete_swap_response_example :
    complete_swap_restore packages curve swap prepared none
      (record { outputs = listed; signatures = beside })
      channel_params.keyset_info
    ≡ (completion >>= λ proofs. ok (some proofs))
complete_swap_restore-complete_swap_response_example =
    complete_swap_restore-complete_swap_response packages curve channel_params.keyset_info swap
      prepared none swap.outputs listed response.signatures beside curve-KeepsAmounts runs.6
      ordinary_swap refl reordered

-- A mint's answer for two identities, in another order than asked.
abbrev spent_state : String → ProofState
spent_state y = record { y = y; state = spent; rerandomization_r = some "r" }

abbrev states : List ProofState
states = spent_state "b" ∷ spent_state "a" ∷ []

abbrev funding : FundingInspection
funding = record { state = all_spent; states = states }

inspects :
    (inspected ("a" ∷ "b" ∷ []) states ≡ ok funding)
    × (close_randomness funding rerandomized ≡ ok (some "r"))
unfolding inspected close_randomness
inspects = (refl, refl)

close_randomness-SpentAs_example :
    All (SpentAs (some "r") states) ("a" ∷ "b" ∷ []) × (fits_mode rerandomized (some "r") ≡ true)
close_randomness-SpentAs_example =
    close_randomness-SpentAs ("a" ∷ "b" ∷ []) states funding rerandomized inspects.0 inspects.1
