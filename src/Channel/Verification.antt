-- ===== src/Channel/Verification.antt =====
-- What a receiver verifies of a channel: `verify_valid_channel` of
-- crates/cdk-spilman/src/sender_and_receiver.rs, `get_secrets_with_blinding` of
-- crates/cdk-spilman/src/deterministic.rs, `EstablishedChannel::new` of
-- crates/cdk-spilman/src/established_channel.rs and `verify_sender_signature` of
-- crates/cdk-spilman/src/balance_update.rs.
pub mod Sound
pub mod Secrets
use cashu_spilman_channels.Prelude.{
  ℕ, zero, suc, ◌+◌, ◌^◌, String, Bool, true, false, not, Option, none, some, List, [], ◌∷◌, ◌++◌,
  length, Result, ok, err, ◌>>=◌, ◌>>◌, map_err, reject_if, ltb, ◌==◌, ◌!=◌, if◌then◌else◌, str_eq,
  is_some,
}
use cashu_spilman_channels.Prelude.Runs.{Run, map_error}
use cashu_spilman_channels.Prelude.Runs
use cashu_spilman_channels.Packages.{Packages, Proof, Dleq}
use cashu_spilman_channels.Amounts.{KeysetInfo}
use cashu_spilman_channels.Channel.{
  ChannelParameters, ChannelError, OutputContext, funding, DeterministicOutputs, new_outputs,
  for_balance, CommitmentOutputs,
}

pub record DeterministicSecretWithBlinding : Type 0 where
  pub secret : String
  pub blinding_factor : String
  pub amount : ℕ
  pub index : ℕ

pub data ChannelVerificationError : Type 0 where
  unexpected_witness unexpected_p2pk_e missing_dleq dleq_blinding_factor_mismatch missing_mint_key :
      ℕ → ℕ → ChannelVerificationError
  invalid_dleq : ℕ → ℕ → String → ChannelVerificationError
  invalid_keyset_id : String → String → ChannelVerificationError
  value_mismatch : ℕ → ℕ → ChannelVerificationError
  value_overflow : ℕ → ℕ → ℕ → ChannelVerificationError
  count_mismatch : ℕ → ℕ → ChannelVerificationError
  secret_mismatch : ℕ → String → String → ChannelVerificationError
  amount_mismatch : ℕ → ℕ → ℕ → ChannelVerificationError
  internal_error : String → ChannelVerificationError
  outputs_error : ChannelError → ChannelVerificationError

-- `if test { errors.push(e) }`
abbrev pub push_if : Bool → ChannelVerificationError → List ChannelVerificationError
push_if true e = e ∷ []
push_if false e = []

abbrev pub amount_key : List (ℕ × String) → ℕ → Option String
amount_key [] amount = none
amount_key ((a, key) ∷ keys) amount =
    let rest = amount_key keys amount in if a == amount then some key else rest

-- The loop of `checked_add`: the total, or the overflow.
checked_total : List Proof → ℕ → ℕ → Result ChannelVerificationError ℕ
checked_total [] index total = ok total
checked_total (proof ∷ proofs) index total =
    let rest = checked_total proofs (suc index) (total + proof.amount) in
    if ltb (total + proof.amount) (2 ^ 64)
    then rest
    else err (value_overflow index total proof.amount)

-- The errors of step 3.
unfoldable pub check_total : List Proof → ℕ → List ChannelVerificationError
unfolding checked_total
check_total proofs expected = elim (checked_total proofs 0 0) [
  | err overflow ↦ overflow ∷ []
  | ok total ↦ push_if (total != expected) (value_mismatch expected total)
]

-- The loop of step 4 over the zipped lists.
unfoldable pub check_zipped :
    List Proof → List DeterministicSecretWithBlinding → ℕ → List ChannelVerificationError
check_zipped [] outputs index = []
check_zipped (proof ∷ proofs) [] index = []
check_zipped (proof ∷ proofs) (expected ∷ outputs) index =
    push_if (not (str_eq proof.secret expected.secret))
      (secret_mismatch index expected.secret proof.secret)
    ++ (push_if (proof.amount != expected.amount)
          (amount_mismatch index expected.amount proof.amount)
        ++ check_zipped proofs outputs (suc index))

unfoldable pub check_structure :
    List Proof → List DeterministicSecretWithBlinding → List ChannelVerificationError
unfolding check_zipped
check_structure proofs outputs =
    if length proofs != length outputs
    then count_mismatch (length outputs) (length proofs) ∷ []
    else check_zipped proofs outputs 0

module _ (p : Packages) where
  -- `for index in 0..count`
  indexed_outputs :
      DeterministicOutputs → ℕ → ℕ → ℕ → Result String (List DeterministicSecretWithBlinding)
  indexed_outputs outputs amount index zero = ok []
  indexed_outputs outputs amount index (suc count) = do
    (secret, blinding_factor) ← p.output_secret outputs.params outputs.context amount index
    rest ← indexed_outputs outputs amount (suc index) count
    ok (
        record {
          secret = secret;
          blinding_factor = blinding_factor;
          amount = amount;
          index = index;
        }
        ∷ rest)

  -- `for (&single_amount, &count) in self.ordered_amounts.iter_smallest_first()`
  counted_outputs :
      DeterministicOutputs → List (ℕ × ℕ) → Result String (List DeterministicSecretWithBlinding)
  unfolding indexed_outputs
  counted_outputs outputs [] = ok []
  counted_outputs outputs ((amount, count) ∷ counts) = do
    these ← indexed_outputs outputs amount 0 count
    rest ← counted_outputs outputs counts
    ok (these ++ rest)

  unfoldable pub get_secrets_with_blinding :
      DeterministicOutputs → Result String (List DeterministicSecretWithBlinding)
  unfolding counted_outputs
  get_secrets_with_blinding outputs =
      if outputs.amount == 0
      then ok []
      else counted_outputs outputs outputs.ordered_amounts.count_by_amount

  -- `if let Some(expected) = expected_outputs.get(i)`, on the outputs that are left
  check_blinding :
      Dleq → List DeterministicSecretWithBlinding → ℕ → ℕ → List ChannelVerificationError
  check_blinding dleq [] index amount = []
  check_blinding dleq (expected ∷ outputs) index amount =
      push_if (not (str_eq dleq.r expected.blinding_factor))
        (dleq_blinding_factor_mismatch index amount)

  check_dleq : ChannelParameters → Proof → ℕ → List ChannelVerificationError
  check_dleq params proof index = elim (amount_key params.keyset_info.active_keys proof.amount) [
    | none ↦ missing_mint_key index proof.amount ∷ []
    | some mint_pubkey ↦ elim (p.verify_dleq proof mint_pubkey) [
      | ok _ ↦ []
      | err reason ↦ invalid_dleq index proof.amount reason ∷ []
    ]
  ]

  -- `match &proof.dleq`
  check_present :
      ChannelParameters
      → Proof
      → Option Dleq
      → List DeterministicSecretWithBlinding
      → ℕ
      → List ChannelVerificationError
  unfolding check_blinding check_dleq
  check_present params proof none outputs index = missing_dleq index proof.amount ∷ []
  check_present params proof (some dleq) outputs index =
      check_blinding dleq outputs index proof.amount ++ check_dleq params proof index

  check_proof :
      ChannelParameters
      → Proof
      → List DeterministicSecretWithBlinding
      → ℕ
      → List ChannelVerificationError
  unfolding check_present
  check_proof params proof outputs index =
      push_if (is_some proof.witness) (unexpected_witness index proof.amount)
      ++ (push_if (is_some proof.p2pk_e) (unexpected_p2pk_e index proof.amount)
          ++ check_present params proof proof.dleq outputs index)

  abbrev tail : List DeterministicSecretWithBlinding → List DeterministicSecretWithBlinding
  tail [] = []
  tail (expected ∷ outputs) = outputs

  -- Step 2, `for (i, proof) in funding_proofs.iter().enumerate()`.
  check_proofs :
      ChannelParameters
      → List Proof
      → List DeterministicSecretWithBlinding
      → ℕ
      → List ChannelVerificationError
  unfolding check_proof
  check_proofs params [] outputs index = []
  check_proofs params (proof ∷ proofs) outputs index =
      check_proof params proof outputs index
      ++ check_proofs params proofs (tail outputs) (suc index)

  check_keyset_id : ChannelParameters → List ChannelVerificationError
  check_keyset_id params =
      let info = params.keyset_info in
      let computed =
        p.keyset_id_of info.keyset_id info.active_keys info.unit info.input_fee_ppk
          info.final_expiry in
      push_if (not (str_eq info.keyset_id computed)) (invalid_keyset_id info.keyset_id computed)

  pub expected_outputs :
      ChannelParameters → Run ChannelVerificationError (List DeterministicSecretWithBlinding)
  unfolding get_secrets_with_blinding
  expected_outputs params =
      Runs.◌>>=◌ (map_error outputs_error (new_outputs funding params.funding_token_amount params))
        (λ outputs. some (map_err internal_error (get_secrets_with_blinding outputs)))

  -- Steps 2 to 4, once the outputs are known.
  found_errors :
      ChannelParameters
      → List Proof
      → Run ChannelVerificationError (List DeterministicSecretWithBlinding)
      → Option (List ChannelVerificationError)
  unfolding check_keyset_id check_proofs check_total check_structure
  found_errors params funding_proofs none = none
  found_errors params funding_proofs (some (err e)) = some (check_keyset_id params ++ (e ∷ []))
  found_errors params funding_proofs (some (ok outputs)) = some (
      check_keyset_id params
      ++ (check_proofs params funding_proofs outputs 0
          ++ (check_total funding_proofs params.funding_token_amount
              ++ check_structure funding_proofs outputs)))

  -- The errors found: the channel is valid when there are none.
  unfoldable pub verify_valid_channel :
      List Proof → ChannelParameters → Option (List ChannelVerificationError)
  unfolding expected_outputs found_errors
  verify_valid_channel funding_proofs params =
      found_errors params funding_proofs (expected_outputs params)

pub record EstablishedChannel : Type 0 where
  pub params : ChannelParameters
  pub funding_proofs : List Proof

pub data EstablishError : Type 0 where
  funding_keyset_id : String → String → EstablishError
  funding_total_overflow : EstablishError
  funding_total_mismatch : ℕ → ℕ → EstablishError

check_keyset_ids : List Proof → String → Result EstablishError Unit
check_keyset_ids [] expected = ok tt
check_keyset_ids (proof ∷ proofs) expected =
    let rest = check_keyset_ids proofs expected in
    if str_eq proof.keyset_id expected
    then rest
    else err (funding_keyset_id proof.keyset_id expected)

-- `try_fold(0, checked_add)`
funding_total : List Proof → ℕ → Result EstablishError ℕ
funding_total [] total = ok total
funding_total (proof ∷ proofs) total =
    let rest = funding_total proofs (total + proof.amount) in
    if ltb (total + proof.amount) (2 ^ 64) then rest else err funding_total_overflow

-- `EstablishedChannel::new`
unfoldable pub establish : ChannelParameters → List Proof → Result EstablishError EstablishedChannel
unfolding check_keyset_ids funding_total
establish params funding_proofs = do
  check_keyset_ids funding_proofs params.keyset_info.keyset_id
  actual ← funding_total funding_proofs 0
  reject_if (actual != params.funding_token_amount)
      (funding_total_mismatch actual params.funding_token_amount)
  ok (record { params = params; funding_proofs = funding_proofs })

pub data SignatureError : Type 0 where
  commitment_error : ChannelError → SignatureError
  not_authorized : SignatureError

-- `BalanceUpdateMessage::verify_sender_signature`; the swap and the sender's blinded key are the package's.
unfoldable pub verify_sender_signature :
    Packages → ℕ → ℕ → String → EstablishedChannel → Run SignatureError Unit
verify_sender_signature p fuel amount signature channel =
    Runs.◌>>=◌ (map_error commitment_error (for_balance fuel amount channel.params)) (λ outputs.
      some (
        reject_if (not (p.swap_signed outputs channel.funding_proofs channel.params signature))
          not_authorized))
