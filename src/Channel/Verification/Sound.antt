-- ===== src/Channel/Verification/Sound.antt =====
-- What a channel that passes `verify_valid_channel` is.
use cashu_spilman_channels.Prelude.{
  ℕ, suc, ◌+◌, ◌^◌, String, Bool, true, false, not, Option, none, some, List, [], ◌∷◌, ◌++◌, length,
  ok, err, ◌≡◌, refl, ltb, ◌!=◌, str_eq, str_eq_iff, is_some, arith, sum, All, Option-cases,
  Result-cases, Bool-cases, inl, inr,
}
use cashu_spilman_channels.Prelude.Runs.{Run}
use cashu_spilman_channels.Packages.{Packages, Proof, Dleq}
use cashu_spilman_channels.Channel.{ChannelParameters}
use cashu_spilman_channels.Channel.Verification.{
  DeterministicSecretWithBlinding, ChannelVerificationError, push_if, checked_total, check_total,
  check_zipped, check_structure, check_proofs, check_proof, check_keyset_id, expected_outputs,
  verify_valid_channel, secret_mismatch, amount_mismatch, unexpected_witness, unexpected_p2pk_e,
  check_dleq, dleq_blinding_factor_mismatch, found_errors, check_blinding, check_present,
  invalid_keyset_id, amount_key, tail,
}

-- The amounts of the proofs.
abbrev pub amounts_of : List Proof → List ℕ
amounts_of [] = []
amounts_of (proof ∷ proofs) = proof.amount ∷ amounts_of proofs

-- The proofs are the expected outputs, in order.
abbrev pub Matches : List Proof → List DeterministicSecretWithBlinding → Type 0
Matches [] [] = Unit
Matches [] (expected ∷ outputs) = ⊥
Matches (proof ∷ proofs) [] = ⊥
Matches (proof ∷ proofs) (expected ∷ outputs) =
    (proof.secret ≡ expected.secret) × (proof.amount ≡ expected.amount) × Matches proofs outputs

-- Each proof has the DLEQ blinding factor of its expected output.
abbrev pub Blinded : List Proof → List DeterministicSecretWithBlinding → Type 0
Blinded [] outputs = Unit
Blinded (proof ∷ proofs) [] = Unit
Blinded (proof ∷ proofs) (expected ∷ outputs) =
    ((dleq : Dleq) × (proof.dleq ≡ some dleq) × (dleq.r ≡ expected.blinding_factor))
    × Blinded proofs outputs

append-empty : {A : Type 0} (xs ys : List A) → xs ++ ys ≡ [] → (xs ≡ []) × (ys ≡ [])
append-empty [] ys h = (refl, h)
append-empty (x ∷ xs) ys h = absurd (ground arith)

some-injective : {A : Type 0} {a b : A} → some a ≡ some b → a ≡ b
some-injective h = ground arith

push_if-empty : (b : Bool) (e : ChannelVerificationError) → push_if b e ≡ [] → b ≡ false
push_if-empty false e h = refl
push_if-empty true e h = absurd (ground arith)

check_zipped-Matches :
    (proofs : List Proof) (outputs : List DeterministicSecretWithBlinding) (index : ℕ)
    → length proofs ≡ length outputs
    → check_zipped proofs outputs index ≡ []
    → Matches proofs outputs
unfolding check_zipped
check_zipped-Matches [] [] index l h = tt
check_zipped-Matches [] (e ∷ outputs) index l h = omega (arith, l)
check_zipped-Matches (x ∷ proofs) [] index l h = omega (arith, l)
check_zipped-Matches (x ∷ proofs) (e ∷ outputs) index l h =
    let secrets =
      push_if (not (str_eq x.secret e.secret)) (secret_mismatch index e.secret x.secret) in
    let values = push_if (x.amount != e.amount) (amount_mismatch index e.amount x.amount) in
    let others = check_zipped proofs outputs (suc index) in
    let (a, rest) = append-empty secrets (values ++ others) h in
    let (b, more) = append-empty values others rest in
    let s : not (str_eq x.secret e.secret) ≡ false =
      push_if-empty (not (str_eq x.secret e.secret)) (secret_mismatch index e.secret x.secret) a in
    let n : (x.amount != e.amount) ≡ false =
      push_if-empty (x.amount != e.amount) (amount_mismatch index e.amount x.amount) b in
    (
      ground (arith, str_eq_iff x.secret e.secret),
      ground arith,
      check_zipped-Matches proofs outputs (suc index) (omega (arith, l)) more,
    )

checked_total-sum :
    (proofs : List Proof) (index t : ℕ) {total : ℕ}
    → checked_total proofs index t ≡ ok total
    → total ≡ t + sum (amounts_of proofs)
unfolding checked_total
checked_total-sum [] index t h = ground arith
checked_total-sum (x ∷ proofs) index t {total} h = elim (Bool-cases (ltb (t + x.amount) (2 ^ 64))) [
  | inl below ↦
      let rest : checked_total proofs (suc index) (t + x.amount) ≡ ok total = ground arith in
      omega (arith, checked_total-sum proofs (suc index) (t + x.amount) rest)
  | inr over ↦ absurd (ground arith)
]

check_total-sum :
    (proofs : List Proof) (expected : ℕ)
    → check_total proofs expected ≡ []
    → sum (amounts_of proofs) ≡ expected
unfolding check_total
check_total-sum proofs expected h = elim (Result-cases (checked_total proofs 0 0)) [
  | inl total ↦
      let (n, e) = total in
      let same : n ≡ expected = ground arith in omega (arith, checked_total-sum proofs 0 0 e, same)
  | inr over ↦ absurd (ground arith)
]

check_structure-Matches :
    (proofs : List Proof) (outputs : List DeterministicSecretWithBlinding)
    → check_structure proofs outputs ≡ []
    → Matches proofs outputs
unfolding check_structure
check_structure-Matches proofs outputs h = elim (Bool-cases (length proofs != length outputs)) [
  | inl differ ↦ absurd (ground arith)
  | inr same ↦ check_zipped-Matches proofs outputs 0 (ground arith) (ground arith)
]

module _ (p : Packages) where
  -- A funding proof that the mint has signed, without spend data.
  pub record Genuine (params : ChannelParameters) (proof : Proof) : Type 0 where
    pub unspent : proof.witness ≡ none
    pub plain : proof.p2pk_e ≡ none
    pub proved : is_some proof.dleq ≡ true
    pub key : String
    pub known : amount_key params.keyset_info.active_keys proof.amount ≡ some key
    pub signed : p.verify_dleq proof key ≡ ok tt

  check_dleq-key :
      (params : ChannelParameters) (proof : Proof) (index : ℕ)
      → check_dleq p params proof index ≡ []
      → (key : String) × (amount_key params.keyset_info.active_keys proof.amount ≡ some key)
        × (p.verify_dleq proof key ≡ ok tt)
  unfolding check_dleq
  check_dleq-key params proof index h =
      elim (Option-cases (amount_key params.keyset_info.active_keys proof.amount)) [
        | inl missing ↦ absurd (ground arith)
        | inr found ↦
            let (key, e) = found in
            elim (Result-cases (p.verify_dleq proof key)) [
              | inl signed ↦ (key, e, signed.1)
              | inr refused ↦ let (x, f) = refused in absurd (ground arith)
            ]
      ]

  check_present-Genuine :
      (params : ChannelParameters) (proof : Proof) (o : Option Dleq)
      (outputs : List DeterministicSecretWithBlinding) (index : ℕ)
      → check_present p params proof o outputs index ≡ []
      → (is_some o ≡ true) × (check_dleq p params proof index ≡ [])
  unfolding check_present
  check_present-Genuine params proof none outputs index h = absurd (ground arith)
  check_present-Genuine params proof (some dleq) outputs index h = (
    refl,
    (append-empty (check_blinding p dleq outputs index proof.amount)
        (check_dleq p params proof index) h).1,
  )

  not-is_some : {A : Type 0} (o : Option A) → is_some o ≡ false → o ≡ none
  not-is_some none h = refl
  not-is_some (some a) h = absurd (ground arith)

  check_proof-Genuine :
      (params : ChannelParameters) (proof : Proof) (outputs : List DeterministicSecretWithBlinding)
      (index : ℕ)
      → check_proof p params proof outputs index ≡ []
      → Genuine params proof
  unfolding check_proof
  check_proof-Genuine params proof outputs index h =
      let witness = unexpected_witness index proof.amount in
      let p2pk_e = unexpected_p2pk_e index proof.amount in
      let present = check_present p params proof proof.dleq outputs index in
      let (a, rest) =
        append-empty (push_if (is_some proof.witness) witness)
          (push_if (is_some proof.p2pk_e) p2pk_e ++ present) h in
      let (b, c) = append-empty (push_if (is_some proof.p2pk_e) p2pk_e) present rest in
      let (proved, dleq) = check_present-Genuine params proof proof.dleq outputs index c in
      let (key, known, signed) = check_dleq-key params proof index dleq in
      record {
        unspent = not-is_some proof.witness (push_if-empty (is_some proof.witness) witness a);
        plain = not-is_some proof.p2pk_e (push_if-empty (is_some proof.p2pk_e) p2pk_e b);
        proved = proved;
        key = key;
        known = known;
        signed = signed;
      }

  check_proofs-Genuine :
      (params : ChannelParameters) (proofs : List Proof)
      (outputs : List DeterministicSecretWithBlinding) (index : ℕ)
      → check_proofs p params proofs outputs index ≡ []
      → All (Genuine params) proofs
  unfolding check_proofs
  check_proofs-Genuine params [] outputs index h = tt
  check_proofs-Genuine params (x ∷ proofs) outputs index h =
      let (a, rest) =
        append-empty (check_proof p params x outputs index)
          (check_proofs p params proofs (tail p outputs) (suc index)) h in
      (
        check_proof-Genuine params x outputs index a,
        check_proofs-Genuine params proofs (tail p outputs) (suc index) rest,
      )

  check_present-Blinded :
      (params : ChannelParameters) (proof : Proof) (o : Option Dleq)
      (e : DeterministicSecretWithBlinding) (outputs : List DeterministicSecretWithBlinding)
      (index : ℕ)
      → check_present p params proof o (e ∷ outputs) index ≡ []
      → (dleq : Dleq) × (o ≡ some dleq) × (dleq.r ≡ e.blinding_factor)
  unfolding check_present check_blinding
  check_present-Blinded params proof none e outputs index h = absurd (ground arith)
  check_present-Blinded params proof (some dleq) e outputs index h =
      let (a, b) =
        append-empty (check_blinding p dleq (e ∷ outputs) index proof.amount)
          (check_dleq p params proof index) h in
      let same =
        push_if-empty (not (str_eq dleq.r e.blinding_factor))
          (dleq_blinding_factor_mismatch index proof.amount) a in
      (dleq, refl, ground (arith, same, str_eq_iff dleq.r e.blinding_factor))

  check_proofs-Blinded :
      (params : ChannelParameters) (proofs : List Proof)
      (outputs : List DeterministicSecretWithBlinding) (index : ℕ)
      → check_proofs p params proofs outputs index ≡ []
      → Blinded proofs outputs
  unfolding check_proofs check_proof
  check_proofs-Blinded params [] outputs index h = tt
  check_proofs-Blinded params (x ∷ proofs) [] index h = tt
  check_proofs-Blinded params (x ∷ proofs) (e ∷ outputs) index h =
      let witness = push_if (is_some x.witness) (unexpected_witness index x.amount) in
      let p2pk_e = push_if (is_some x.p2pk_e) (unexpected_p2pk_e index x.amount) in
      let present = check_present p params x x.dleq (e ∷ outputs) index in
      let (a, rest) =
        append-empty (check_proof p params x (e ∷ outputs) index)
          (check_proofs p params proofs outputs (suc index)) h in
      let (b, c) = append-empty witness (p2pk_e ++ present) a in
      let (d, f) = append-empty p2pk_e present c in
      (
        check_present-Blinded params x x.dleq e outputs index f,
        check_proofs-Blinded params proofs outputs (suc index) rest,
      )

  -- What `verify_valid_channel` establishes of funding proofs.
  pub record Valid (params : ChannelParameters) (proofs : List Proof) : Type 0 where
    pub outputs : List DeterministicSecretWithBlinding
    pub expected : expected_outputs p params ≡ some (ok outputs)
    pub matching : Matches proofs outputs
    pub blinded : Blinded proofs outputs
    pub total : sum (amounts_of proofs) ≡ params.funding_token_amount
    pub genuine : All (Genuine params) proofs
    pub keyset :
        params.keyset_info.keyset_id
        ≡ p.keyset_id_of params.keyset_info.keyset_id params.keyset_info.active_keys
            params.keyset_info.unit params.keyset_info.input_fee_ppk params.keyset_info.final_expiry

  check_keyset_id-computed :
      (params : ChannelParameters)
      → check_keyset_id p params ≡ []
      → params.keyset_info.keyset_id
        ≡ p.keyset_id_of params.keyset_info.keyset_id params.keyset_info.active_keys
            params.keyset_info.unit params.keyset_info.input_fee_ppk params.keyset_info.final_expiry
  unfolding check_keyset_id
  check_keyset_id-computed params h =
      let info = params.keyset_info in
      let computed =
        p.keyset_id_of info.keyset_id info.active_keys info.unit info.input_fee_ppk
          info.final_expiry in
      let e =
        push_if-empty (not (str_eq info.keyset_id computed))
          (invalid_keyset_id info.keyset_id computed) h in
      (str_eq_iff info.keyset_id computed).0 (ground arith)

  found_errors-Valid :
      (params : ChannelParameters) (proofs : List Proof)
      (r : Run ChannelVerificationError (List DeterministicSecretWithBlinding))
      → expected_outputs p params ≡ r
      → found_errors p params proofs r ≡ some []
      → Valid params proofs
  unfolding found_errors
  found_errors-Valid params proofs none e h = absurd (ground arith)
  found_errors-Valid params proofs (some (err x)) e h =
      let (a, b) = append-empty (check_keyset_id p params) (x ∷ []) (some-injective h) in
      absurd (ground arith)
  found_errors-Valid params proofs (some (ok outputs)) e h =
      let totals = check_total proofs params.funding_token_amount in
      let structure = check_structure proofs outputs in
      let proofs_checked = check_proofs p params proofs outputs 0 in
      let (a, rest) =
        append-empty (check_keyset_id p params) (proofs_checked ++ (totals ++ structure))
          (some-injective h) in
      let (b, more) = append-empty proofs_checked (totals ++ structure) rest in
      let (c, d) = append-empty totals structure more in
      record {
        outputs = outputs;
        expected = e;
        matching = check_structure-Matches proofs outputs d;
        blinded = check_proofs-Blinded params proofs outputs 0 b;
        total = check_total-sum proofs params.funding_token_amount c;
        genuine = check_proofs-Genuine params proofs outputs 0 b;
        keyset = check_keyset_id-computed params a;
      }

  -- A channel in which `verify_valid_channel` finds no error has a keyset whose id is the one computed from
  -- its keys, and funding proofs that are, in order, exactly the deterministic outputs of its parameters, in
  -- secret, amount and DLEQ blinding factor, that sum, as numbers without wrap-around, to the funding token amount, and each of which the mint has
  -- signed under the keyset's key for its amount and carries no spend data.
  pub verify_valid_channel-Valid :
      (params : ChannelParameters) (proofs : List Proof)
      → verify_valid_channel p proofs params ≡ some []
      → Valid params proofs
  unfolding verify_valid_channel
  verify_valid_channel-Valid params proofs h =
      found_errors-Valid params proofs (expected_outputs p params) refl h
