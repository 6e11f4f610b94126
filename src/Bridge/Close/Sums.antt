-- ===== src/Bridge/Close/Sums.antt =====
-- What the proofs of a close add up to: the amounts of the unblinded proofs, of the secrets and of the
-- commitment that they are compared with.
use cashu_spilman_channels.Prelude.{
  none, ℕ, suc, ◌+◌, ◌-◌, ◌<◌, ◌^◌, String, Bool, true, false, some, List, [], ◌∷◌, ◌++◌, length,
  sum, Result, ok, map_err, reject_if, ◌!=◌, ◌≡◌, refl, sym, ap, subst, ◌∙◌, arith, Bool-cases,
  Result-cases, inl, inr,
}
use cashu_spilman_channels.Prelude.Runs.{>>=-ok, map_error}
use cashu_spilman_channels.Packages.{Packages, Proof}
use cashu_spilman_channels.Amounts.{KeysetInfo, InverseFeeResult, u64}
use cashu_spilman_channels.Amounts.Target.{IsPositive}
use cashu_spilman_channels.Channel.{
  ChannelParameters, CommitmentOutputs, inverse_of, sender, receiver,
}
use cashu_spilman_channels.Channel.Committed.{IsCommitment}
use cashu_spilman_channels.Channel.Parse.{give}
use cashu_spilman_channels.Channel.Verification.{
  DeterministicSecretWithBlinding, get_secrets_with_blinding,
}
use cashu_spilman_channels.Channel.Verification.Secrets.{
  secret_amounts, Result->>=-ok, get_secrets_with_blinding-sum,
}
use cashu_spilman_channels.Swap.{
  SwapRequest, SwapResponse, PreparedSwapOutput, proof_amounts, complete_swap_response,
}
use cashu_spilman_channels.Swap.Request.{sort_by}
use cashu_spilman_channels.Swap.Request.Conserved.{
  sum_by, sum_by-append, sum_by-sort_by, IsListed-weight,
}
use cashu_spilman_channels.Swap.Completion.{
  KeepsAmounts, amounts_of, complete_swap_response-SwapCompleted,
}
use cashu_spilman_channels.Bridge.{BridgeError, text, internal, validation_failed, uncommitted}
use cashu_spilman_channels.Bridge.Close.{CloseParts}
use cashu_spilman_channels.Bridge.Close.Prepare.{commitment_secrets, tagged}
use cashu_spilman_channels.Bridge.Close.Unblind.{
  UnblindResult, Secrets, mode_flag, messages, expected_prepared, check_locked, sort_out,
  sort_proofs, check_nominal, unblind_proofs, unblind_and_verify_stage1_swap_response,
}
use cashu_spilman_channels.Bridge.Close.Complete.{same_secret, any_different}

abbrev pub amount_of_secret : DeterministicSecretWithBlinding × Bool → ℕ
amount_of_secret (secret, is_receiver) = secret.amount

-- The amounts of the secrets, added up.
abbrev pub secrets_sum : Secrets → ℕ
secrets_sum secrets = sum_by amount_of_secret secrets

pub length-proof_amounts : (proofs : List Proof) → length (proof_amounts proofs) ≡ length proofs
length-proof_amounts [] = refl
length-proof_amounts (proof ∷ proofs) = ap suc (length-proof_amounts proofs)

pub length-amounts_of :
    (outputs : List PreparedSwapOutput) → length (amounts_of (messages outputs)) ≡ length outputs
length-amounts_of [] = refl
length-amounts_of (o ∷ outputs) = ap suc (length-amounts_of outputs)

pub tagged-sum :
    (is_receiver : Bool) (secrets : List DeterministicSecretWithBlinding)
    → secrets_sum (tagged is_receiver secrets) ≡ sum (secret_amounts secrets)
tagged-sum is_receiver [] = refl
tagged-sum is_receiver (s ∷ secrets) = omega (arith, tagged-sum is_receiver secrets)

pub same_secret-eq :
    (a b : DeterministicSecretWithBlinding × Bool)
    → same_secret a b ≡ true
    → amount_of_secret a ≡ amount_of_secret b
same_secret-eq (a, true) (b, true) h = ground arith
same_secret-eq (a, false) (b, false) h = ground arith
same_secret-eq (a, true) (b, false) h = absurd (cc)
same_secret-eq (a, false) (b, true) h = absurd (cc)

pub any_different-sum :
    (expected actual : Secrets)
    → length expected ≡ length actual
    → any_different expected actual ≡ false
    → secrets_sum expected ≡ secrets_sum actual
unfolding any_different
any_different-sum [] [] n h = refl
any_different-sum [] (a ∷ actual) n h = absurd (omega (arith, n))
any_different-sum (e ∷ expected) [] n h = absurd (omega (arith, n))
any_different-sum (e ∷ expected) (a ∷ actual) n h = elim (Bool-cases (same_secret e a)) [
  | inl same ↦ omega (
    arith,
    same_secret-eq e a same,
    any_different-sum expected actual (omega (arith, n)) (ground (arith, h, same)),
  )
  | inr other ↦ absurd (ground (arith, h, other))
]

module _ (p : Packages) (parts : CloseParts p) where
  pub expected_prepared-sum :
      (keys : KeysetInfo) (secrets : Secrets) {expected : List PreparedSwapOutput}
      → expected_prepared p parts keys secrets ≡ ok expected
      → (sum (amounts_of (messages expected)) ≡ secrets_sum secrets)
        × (length expected ≡ length secrets)
  unfolding expected_prepared
  expected_prepared-sum keys [] {expected} h =
      let e : [] ≡ expected = ground (arith, h) in rw (← e) ((refl, refl))
  expected_prepared-sum keys ((s, is_receiver) ∷ secrets) {expected} h =
      let (point, blinded, after) =
        Result->>=-ok
          (map_err (λ e. internal (text e)) (parts.curve.blind_message s.secret s.blinding_factor))
          _ h in
      let (rest, others, whole) = Result->>=-ok (expected_prepared p parts keys secrets) _ after in
      let (total, counted) = expected_prepared-sum keys secrets others in
      let o : PreparedSwapOutput = record {
        blinded_message = record {
          amount = s.amount;
          keyset_id = keys.keyset_id;
          blinded_secret = point;
          witness = none;
        };
        secret = s.secret;
        blinding_factor = s.blinding_factor;
      } in
      let e : o ∷ rest ≡ expected = ground (arith, whole) in
      rw (← e) ((omega (arith, total), omega (arith, counted)))

  pub sort_out-sum :
      (params : ChannelParameters) (proof : Proof) (is_receiver : Bool) (amount index total : ℕ)
      (r : Result BridgeError UnblindResult) {result : UnblindResult}
      → ((x : UnblindResult) → r ≡ ok x → x.receiver_sum + x.sender_sum ≡ total)
      → proof.amount + total < 2 ^ 64
      → sort_out p parts params proof is_receiver amount index r ≡ ok result
      → result.receiver_sum + result.sender_sum ≡ proof.amount + total
  unfolding sort_out
  sort_out-sum params proof true amount index total r {result} f small h =
      let (u, locked, after) = Result->>=-ok (check_locked p parts params proof amount index) _ h in
      let (x, rest, done) = Result->>=-ok r _ after in
      let sums = f x rest in
      let a : result.receiver_sum ≡ u64 (proof.amount + x.receiver_sum) = ground (arith, done) in
      let b : result.sender_sum ≡ x.sender_sum = ground (arith, done) in omega (arith, sums, a, b)
  sort_out-sum params proof false amount index total r {result} f small h =
      let (x, rest, done) = Result->>=-ok r _ h in
      let sums = f x rest in
      let a : result.sender_sum ≡ u64 (proof.amount + x.sender_sum) = ground (arith, done) in
      let b : result.receiver_sum ≡ x.receiver_sum = ground (arith, done) in
      omega (arith, sums, a, b)

  -- Nothing is lost between the two sides.
  pub sort_proofs-sum :
      (params : ChannelParameters) (proofs : List Proof) (secrets : Secrets)
      {result : UnblindResult}
      → length proofs ≡ length secrets
      → sum (proof_amounts proofs) < 2 ^ 64
      → sort_proofs p parts params proofs secrets ≡ ok result
      → result.receiver_sum + result.sender_sum ≡ sum (proof_amounts proofs)
  unfolding sort_proofs
  sort_proofs-sum params [] secrets n small h = ground (arith, h)
  sort_proofs-sum params (proof ∷ proofs) [] n small h = absurd (omega (arith, n))
  sort_proofs-sum params (proof ∷ proofs) ((s, is_receiver) ∷ secrets) n small h =
      let (key, derived, after) =
        Result->>=-ok
          (map_err (λ e. internal (text e))
            (parts.stage2_p2pk_e params is_receiver s.amount s.index))
          _ h in
      sort_out-sum params (record proof { p2pk_e = some key }) is_receiver s.amount s.index
        (sum (proof_amounts proofs)) (sort_proofs p parts params proofs secrets)
        (λ x r. sort_proofs-sum params proofs secrets (omega (arith, n)) (omega (arith, small)) r)
        small after

  -- The parts of an accepted answer.
  pub record Unblinded (fuel : ℕ) (params : ChannelParameters) (secrets : Secrets) (balance : ℕ)
      (result : UnblindResult) : Type 0 where
    pub total : result.receiver_sum + result.sender_sum ≡ secrets_sum secrets
    pub inverse : InverseFeeResult
    pub found :
        inverse_of fuel params.keyset_info balance params.maximum_amount_for_one_output
        ≡ some (ok inverse)
    pub receiver_sum : result.receiver_sum ≡ inverse.nominal_value

  pub check_nominal-ok :
      (fuel : ℕ) (params : ChannelParameters) (balance : ℕ) (x : UnblindResult)
      {result : UnblindResult}
      → check_nominal p parts fuel params balance x ≡ some (ok result)
      → (x ≡ result)
        × ((inverse : InverseFeeResult) × (inverse_of fuel params.keyset_info balance
                params.maximum_amount_for_one_output
              ≡ some (ok inverse))
            × (x.receiver_sum ≡ inverse.nominal_value))
  unfolding check_nominal
  check_nominal-ok fuel params balance x h =
      let (inverse, found, after) =
        >>=-ok
          (map_error (λ e. internal (uncommitted e))
            (inverse_of fuel params.keyset_info balance params.maximum_amount_for_one_output))
          _ h in
      (ground (arith, after), (inverse, ground (arith, found), ground (arith, after)))

  pub unblind_proofs-sum :
      (response : SwapResponse) (secrets : Secrets) (params : ChannelParameters) (keys : KeysetInfo)
      {result : UnblindResult}
      → KeepsAmounts parts.curve
      → secrets_sum secrets < 2 ^ 64
      → unblind_proofs p parts response secrets params keys ≡ ok result
      → result.receiver_sum + result.sender_sum ≡ secrets_sum secrets
  unfolding unblind_proofs
  unblind_proofs-sum response secrets params keys laws small h =
      let (u, counted, after_count) =
        Result->>=-ok
          (reject_if (length response.signatures != length secrets)
            (internal (text "Length mismatch between signatures and secrets")))
          _ h in
      let (expected, prepared, after_prepared) =
        Result->>=-ok (expected_prepared p parts keys secrets) _ after_count in
      let request : SwapRequest = record {
        inputs = [];
        outputs = messages expected;
        is_rerandomized = mode_flag params.commitment_mode;
      } in
      let (proofs, completed, sorted) =
        Result->>=-ok
          (map_err (λ e. validation_failed (text e))
            (complete_swap_response p parts.curve request expected response keys))
          _ after_prepared in
      let (total, count) = expected_prepared-sum keys secrets prepared in
      let done =
        complete_swap_response-SwapCompleted p parts.curve keys request expected response
          {proofs = proofs} laws (ground (arith, completed)) in
      let amounts : sum (proof_amounts proofs) ≡ secrets_sum secrets =
        ap sum done.amounts ∙ total in
      let n : length proofs ≡ length secrets =
        sym (length-proof_amounts proofs)
        ∙ ap length done.amounts
        ∙ length-amounts_of expected
        ∙ count in
      sort_proofs-sum params proofs secrets n (omega (arith, amounts, small)) sorted ∙ amounts

  pub unblind-Unblinded :
      (fuel : ℕ) (response : SwapResponse) (secrets : Secrets) (params : ChannelParameters)
      (keys : KeysetInfo) (balance : ℕ) {result : UnblindResult}
      → KeepsAmounts parts.curve
      → secrets_sum secrets < 2 ^ 64
      → unblind_and_verify_stage1_swap_response p parts fuel response secrets params keys balance
        ≡ some (ok result)
      → Unblinded fuel params secrets balance result
  unfolding unblind_and_verify_stage1_swap_response
  unblind-Unblinded fuel response secrets params keys balance laws small h =
      let (x, proofs, checked) =
        >>=-ok (give (unblind_proofs p parts response secrets params keys)) _ h in
      let (same, (inverse, found, receiver_sum)) = check_nominal-ok fuel params balance x checked in
      let total =
        unblind_proofs-sum response secrets params keys {result = x} laws small
          (ground (arith, proofs)) in
      record {
        total =
            subst (λ (y : UnblindResult). y.receiver_sum + y.sender_sum ≡ secrets_sum secrets) same
              total;
        inverse = inverse;
        found = found;
        receiver_sum =
            subst (λ (y : UnblindResult). y.receiver_sum ≡ inverse.nominal_value) same receiver_sum;
      }

  -- The secrets of a commitment add up to the value after stage 1.
  pub commitment_secrets-sum :
      {E : Type 0} (f g : String → E) (params : ChannelParameters) (fuel balance : ℕ)
      (commitment : CommitmentOutputs) {secrets : Secrets}
      → IsPositive params.keyset_info.amounts_largest_first
      → (k : IsCommitment params fuel balance commitment) → k.after_stage1 < 2 ^ 64
      → commitment_secrets p f g commitment ≡ ok secrets
      → secrets_sum secrets ≡ k.after_stage1
  unfolding commitment_secrets
  commitment_secrets-sum f g params fuel balance commitment {secrets} positive k small h =
      let n = k.inverse.nominal_value in
      let v = k.after_stage1 in
      let (wr, ar) =
        IsListed-weight params receiver n commitment.receiver_outputs positive
          (omega (arith, k.fits)) k.receiver_side in
      let (ws, as_) =
        IsListed-weight params sender (v - n) commitment.sender_outputs positive (omega arith)
          k.sender_side in
      elim (Result-cases (get_secrets_with_blinding p commitment.receiver_outputs)) [
        | inr failed_ ↦ absurd (ground (arith, failed_.1))
        | inl found ↦
            let (rs, receivers) = found in
            elim (Result-cases (get_secrets_with_blinding p commitment.sender_outputs)) [
              | inr failed_ ↦ absurd (ground (arith, receivers, failed_.1))
              | inl other ↦
                  let (ss, senders) = other in
                  let l = tagged true rs ++ tagged false ss in
                  let e : sort_by amount_of_secret l ≡ secrets =
                    ground (arith, receivers, senders, h) in
                  let sum_r =
                    get_secrets_with_blinding-sum p commitment.receiver_outputs wr receivers in
                  let sum_s =
                    get_secrets_with_blinding-sum p commitment.sender_outputs ws senders in
                  rw (← e) (
                    omega (
                      arith,
                      sum_by-sort_by amount_of_secret l,
                      sum_by-append amount_of_secret (tagged true rs) (tagged false ss),
                      tagged-sum true rs,
                      tagged-sum false ss,
                      sum_r,
                      sum_s,
                      ar,
                      as_,
                      k.fits,
                    ))
            ]
      ]
