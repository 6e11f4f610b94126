-- ===== src/Swap/Request/Conserved.antt =====
-- The swap of a commitment pays out exactly what the channel has after stage 1, smallest first.
use cashu_spilman_channels.Prelude.{
  none, ℕ, ◌+◌, ◌-◌, ◌≤◌, ◌<◌, ◌^◌, String, some, List, [], ◌∷◌, ◌++◌, sum, ok, ◌≡◌, refl, sym, ap,
  ◌∙◌, arith, ltb, Bool-cases, inl, inr, All, All-append,
}
use cashu_spilman_channels.Packages.{Packages, Proof}
use cashu_spilman_channels.Amounts.BTree.{weight}
use cashu_spilman_channels.Amounts.Target.{IsPositive, from_target-Represents}
use cashu_spilman_channels.Amounts.BTree.{sum-expand_rev}
use cashu_spilman_channels.Channel.{
  ChannelParameters, DeterministicOutputs, OutputContext, CommitmentOutputs, for_balance, receiver,
  sender, get_value_after_stage1,
}
use cashu_spilman_channels.Channel.Committed.{IsListed, for_balance-IsCommitment}
use cashu_spilman_channels.Channel.Verification.{
  DeterministicSecretWithBlinding, get_secrets_with_blinding,
}
use cashu_spilman_channels.Channel.Verification.Secrets.{
  secret_amounts, smallest_first, Result->>=-ok, get_secrets_with_blinding-amounts,
  get_secrets_with_blinding-sum,
}
use cashu_spilman_channels.Swap.{BlindedMessage, SwapRequest, Curve}
use cashu_spilman_channels.Swap.Request.{
  insert_by, sort_by, to_messages, get_blinded_messages, create_swap_request,
}

module _ {A : Type 0} (key : A → ℕ) where
  abbrev pub sum_by : List A → ℕ
  sum_by [] = 0
  sum_by (x ∷ xs) = key x + sum_by xs

  -- No key is above a later one.
  abbrev pub Ascending : List A → Type 0
  Ascending [] = Unit
  Ascending (x ∷ xs) = All (λ y. key x ≤ key y) xs × Ascending xs

  pub sum_by-append : (xs ys : List A) → sum_by (xs ++ ys) ≡ sum_by xs + sum_by ys
  sum_by-append [] ys = omega arith
  sum_by-append (x ∷ xs) ys = omega (arith, sum_by-append xs ys)

  sum_by-insert_by : (a : A) (xs : List A) → sum_by (insert_by key a xs) ≡ key a + sum_by xs
  unfolding insert_by
  sum_by-insert_by a [] = refl
  sum_by-insert_by a (x ∷ xs) = elim (Bool-cases (ltb (key x) (key a))) [
    | inl later ↦ rw later (omega (arith, sum_by-insert_by a xs))
    | inr here ↦ rw here refl
  ]

  pub sum_by-sort_by : (xs : List A) → sum_by (sort_by key xs) ≡ sum_by xs
  unfolding sort_by
  sum_by-sort_by [] = refl
  sum_by-sort_by (x ∷ xs) = omega (arith, sum_by-insert_by x (sort_by key xs), sum_by-sort_by xs)

  All-insert_by :
      (P : A → Type 0) (a : A) (xs : List A) → P a → All P xs → All P (insert_by key a xs)
  unfolding insert_by
  All-insert_by P a [] h hs = (h, tt)
  All-insert_by P a (x ∷ xs) h hs = elim (Bool-cases (ltb (key x) (key a))) [
    | inl later ↦ rw later ((hs.0, All-insert_by P a xs h hs.1))
    | inr here ↦ rw here ((h, hs))
  ]

  pub All-sort_by : (P : A → Type 0) (xs : List A) → All P xs → All P (sort_by key xs)
  unfolding sort_by
  All-sort_by P [] h = tt
  All-sort_by P (x ∷ xs) h = All-insert_by P x (sort_by key xs) h.0 (All-sort_by P xs h.1)

  raised :
      (a x : A) (xs : List A)
      → key a ≤ key x
      → All (λ y. key x ≤ key y) xs
      → All (λ y. key a ≤ key y) xs
  raised a x [] le h = tt
  raised a x (y ∷ ys) le h = (omega (arith, le, h.0), raised a x ys le h.1)

  insert_by-Ascending : (a : A) (xs : List A) → Ascending xs → Ascending (insert_by key a xs)
  unfolding insert_by
  insert_by-Ascending a [] h = (tt, tt)
  insert_by-Ascending a (x ∷ xs) h = elim (Bool-cases (ltb (key x) (key a))) [
    | inl later ↦
        rw later (
          (
            All-insert_by (λ y. key x ≤ key y) a xs (ground arith) h.0,
            insert_by-Ascending a xs h.1,
          ))
    | inr here ↦ let le : key a ≤ key x = ground arith in rw here (((le, raised a x xs le h.0), h))
  ]

  pub sort_by-Ascending : (xs : List A) → Ascending (sort_by key xs)
  unfolding sort_by
  sort_by-Ascending [] = tt
  sort_by-Ascending (x ∷ xs) = insert_by-Ascending x (sort_by key xs) (sort_by-Ascending xs)

abbrev pub amount_of : BlindedMessage → ℕ
amount_of message = message.amount

module _ (p : Packages) (c : Curve) where
  to_messages-sum :
      (keyset_id : String) (secrets : List DeterministicSecretWithBlinding) (amounts : List ℕ)
      {messages : List BlindedMessage}
      → secret_amounts secrets ≡ amounts
      → to_messages p c keyset_id secrets amounts ≡ ok messages
      → (sum_by amount_of messages ≡ sum amounts)
        × All (λ (m : BlindedMessage). m.keyset_id ≡ keyset_id) messages
  unfolding to_messages
  to_messages-sum keyset_id [] [] {messages} same h =
      let e : [] ≡ messages = ground (arith, h) in rw (← e) ((refl, tt))
  to_messages-sum keyset_id [] (a ∷ amounts) same h = absurd (cc)
  to_messages-sum keyset_id (s ∷ secrets) [] same h = absurd (cc)
  to_messages-sum keyset_id (s ∷ secrets) (a ∷ amounts) {messages} same h =
      let (point, blinded, after) =
        Result->>=-ok (c.blind_message s.secret s.blinding_factor) _ h in
      let (rest, others, whole) =
        Result->>=-ok (to_messages p c keyset_id secrets amounts) _ after in
      let ih = to_messages-sum keyset_id secrets amounts (ground (arith, same)) others in
      let m : BlindedMessage = record {
        amount = a;
        keyset_id = keyset_id;
        blinded_secret = point;
        witness = none;
      } in
      let e : m ∷ rest ≡ messages = ground (arith, whole) in
      rw (← e) ((omega (arith, ih.0), (refl, ih.1)))

  to_messages-nothing :
      (keyset_id : String) (secrets : List DeterministicSecretWithBlinding) (amounts : List ℕ)
      {messages : List BlindedMessage}
      → secrets ≡ []
      → to_messages p c keyset_id secrets amounts ≡ ok messages
      → [] ≡ messages
  unfolding to_messages
  to_messages-nothing keyset_id [] amounts none_ h = ground (arith, h)
  to_messages-nothing keyset_id (s ∷ secrets) amounts none_ h = absurd (cc)

  pub get_blinded_messages-sum :
      (outputs : DeterministicOutputs) (keyset_id : String) {messages : List BlindedMessage}
      → weight outputs.ordered_amounts.count_by_amount ≡ outputs.amount
      → get_blinded_messages p c outputs (some keyset_id) ≡ ok messages
      → (sum_by amount_of messages ≡ outputs.amount)
        × All (λ (m : BlindedMessage). m.keyset_id ≡ keyset_id) messages
  unfolding get_blinded_messages
  get_blinded_messages-sum outputs keyset_id {messages} w h =
      let (secrets, made, after) = Result->>=-ok (get_secrets_with_blinding p outputs) _ h in
      elim (get_secrets_with_blinding-amounts p outputs made) [
        | inl same ↦
            let (total, ids) =
              to_messages-sum keyset_id secrets
                (smallest_first outputs.ordered_amounts.count_by_amount) same after in
            (total ∙ ap sum (sym same) ∙ get_secrets_with_blinding-sum p outputs w made, ids)
        | inr nothing ↦
            let e : [] ≡ messages =
              to_messages-nothing keyset_id secrets
                (smallest_first outputs.ordered_amounts.count_by_amount) nothing.0 after in
            rw (← e) ((sym nothing.1, tt))
      ]

-- The counts of a side weigh what the side pays.
pub IsListed-weight :
    (params : ChannelParameters) (context : OutputContext) (amount : ℕ)
    (outputs : DeterministicOutputs)
    → IsPositive params.keyset_info.amounts_largest_first
    → amount < 2 ^ 64
    → IsListed params context amount outputs
    → (weight outputs.ordered_amounts.count_by_amount ≡ outputs.amount) × (outputs.amount ≡ amount)
IsListed-weight params context amount outputs positive small l =
    let r =
      from_target-Represents amount params.maximum_amount_for_one_output params.keyset_info positive
        small l.from in
    let w : weight l.listed.count_by_amount ≡ amount =
      sym (sum-expand_rev l.listed.count_by_amount) ∙ ap sum (sym r.3) ∙ r.5 in
    rw l.same ((w, refl))

-- What the swap of a commitment is.
pub record Conserves (params : ChannelParameters) (keyset_id : String) (proofs : List Proof)
    (request : SwapRequest) : Type 0 where
  pub inputs : request.inputs ≡ proofs
  pub after_stage1 : ℕ
  pub stage1 : get_value_after_stage1 params ≡ some (ok after_stage1)
  pub total : sum_by amount_of request.outputs ≡ after_stage1
  pub ascending : Ascending amount_of request.outputs
  pub under_keyset : All (λ (m : BlindedMessage). m.keyset_id ≡ keyset_id) request.outputs

module _ (p : Packages) (c : Curve) (params : ChannelParameters) where
  -- The swap that `create_swap_request` builds for a commitment that `for_balance` returned spends exactly
  -- the funding proofs, and its outputs, whichever keyset they are made for, add up to exactly the value
  -- after stage 1, with no amount before a smaller one. The channel's keyset has positive amounts and the
  -- value after stage 1 fits a `u64`.
  pub create_swap_request-Conserves :
      (fuel balance : ℕ) (keyset_id : String) (proofs : List Proof) {commitment : CommitmentOutputs}
      {request : SwapRequest}
      → IsPositive params.keyset_info.amounts_largest_first
      → ((v : ℕ) → get_value_after_stage1 params ≡ some (ok v) → v < 2 ^ 64)
      → for_balance fuel balance params ≡ some (ok commitment)
      → create_swap_request p c commitment proofs (some keyset_id) ≡ ok request
      → Conserves params keyset_id proofs request
  unfolding create_swap_request
  create_swap_request-Conserves fuel balance keyset_id proofs {commitment} {request} positive small
        made h =
      let k = for_balance-IsCommitment fuel balance params made in
      let n = k.inverse.nominal_value in
      let v = k.after_stage1 in
      let bound = small v k.stage1 in
      let (wr, ar) =
        IsListed-weight params receiver n commitment.receiver_outputs positive
          (omega (arith, k.fits)) k.receiver_side in
      let (ws, as_) =
        IsListed-weight params sender (v - n) commitment.sender_outputs positive (omega arith)
          k.sender_side in
      let (rs, receivers, after) =
        Result->>=-ok (get_blinded_messages p c commitment.receiver_outputs (some keyset_id)) _ h in
      let (ss, senders, whole) =
        Result->>=-ok (get_blinded_messages p c commitment.sender_outputs (some keyset_id)) _
          after in
      let (sum_r, id_r) =
        get_blinded_messages-sum p c commitment.receiver_outputs keyset_id wr receivers in
      let (sum_s, id_s) =
        get_blinded_messages-sum p c commitment.sender_outputs keyset_id ws senders in
      let e : sort_by amount_of (rs ++ ss) ≡ request.outputs = ground (arith, whole) in
      record {
        inputs = ground (arith, whole);
        after_stage1 = v;
        stage1 = k.stage1;
        total = rw (← e) (
            omega (
              arith,
              sum_by-sort_by amount_of (rs ++ ss),
              sum_by-append amount_of rs ss,
              sum_r,
              sum_s,
              ar,
              as_,
              k.fits,
            ));
        ascending = rw (← e) (sort_by-Ascending amount_of (rs ++ ss));
        under_keyset = rw (← e) (
            All-sort_by amount_of (λ m. m.keyset_id ≡ keyset_id) (rs ++ ss)
              (All-append (λ m. m.keyset_id ≡ keyset_id) rs ss id_r id_s));
      }
