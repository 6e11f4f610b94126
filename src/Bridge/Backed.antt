-- ===== src/Bridge/Backed.antt =====
-- The stored payments of a channel are backed: `registered` of crates/cdk-spilman/src/bridge.rs and the balance
-- update of crates/cdk-spilman/src/configurable_host.rs.
use cashu_spilman_channels.Prelude.{
  ℕ, ◌≤◌, String, Option, none, some, List, ok, ok_or, ◌≡◌, refl, ◌∙◌, subst, arith, get,
  get-insert, string_eq, str_eq_iff, ◌⊎◌, inl, inr, Option-cases, Bool-cases,
}
use cashu_spilman_channels.Prelude.Runs.{>>=-ok}
use cashu_spilman_channels.Packages.{Packages, Proof}
use cashu_spilman_channels.Channel.Parse.{give}
use cashu_spilman_channels.Storage.Records.{ChannelFunding, PaymentProof, ChannelState, same_state}
use cashu_spilman_channels.Storage.{
  MemoryStorage, get_state, get_funding, update_balance, should_update,
}
use cashu_spilman_channels.Storage
use cashu_spilman_channels.Host.{ConfigurableHost, save_funding}
use cashu_spilman_channels.Bridge.{unknown_channel, ValidatedNewChannel}
use cashu_spilman_channels.Bridge.Validate.{
  verify_signature, stored_capacity, validate_payment_request, validate_new_channel_funding,
}
use cashu_spilman_channels.Bridge.Process.{first_use, registered, record_validated_new_channel}
use cashu_spilman_channels.Bridge.Funded.{validate_new_channel_funding-Fundable}

-- What is stored after an update of the balance.
pub record Entry (id : String) (payment : PaymentProof) (s t : MemoryStorage) : Type 0 where
  pub stored : PaymentProof
  pub entry : get t.balance id ≡ some stored
  pub origin : (stored ≡ payment) ⊎ (get s.balance id ≡ some stored)
  pub at_least : payment.balance ≤ stored.balance

pub update_balance-Entry :
    (id : String) (payment : PaymentProof) (s t : MemoryStorage)
    → update_balance id payment s ≡ ok t
    → Entry id payment s t
unfolding update_balance should_update same_state
update_balance-Entry id payment s t h = elim (Option-cases (get s.balance id)) [
  | inl first ↦ record {
    stored = payment;
    entry = ground (arith, first, get-insert s.balance id id payment, str_eq_iff id id);
    origin = inl refl;
    at_least = omega arith;
  }
  | inr before ↦
      let (b, found) = before in
      elim (Bool-cases (should_update (get s.balance id) payment)) [
        | inl greater ↦ record {
          stored = payment;
          entry = ground (arith, greater, get-insert s.balance id id payment, str_eq_iff id id);
          origin = inl refl;
          at_least = omega arith;
        }
        | inr smaller ↦ record {
          stored = b;
          entry = ground (arith, found, smaller);
          origin = inr found;
          at_least = ground (arith, found, smaller);
        }
      ]
]

-- Saving the funding of a channel without a payment stores no payment but the first.
save_funding-first :
    (p : Packages) (host : ConfigurableHost) (id : String) (funding : ChannelFunding)
    (first q : PaymentProof) (s : MemoryStorage)
    → get s.balance id ≡ none
    → get (save_funding p.json host id funding first s).balance id ≡ some q
    → q ≡ first
unfolding save_funding Storage.save_funding update_balance should_update same_state
save_funding-first p host id funding first q s h e =
    ground (arith, h, e, get-insert s.balance id id first, str_eq_iff id id)

module _ (p : Packages) (host : ConfigurableHost) (fuel now : ℕ) where
  -- A payment within the funding's capacity, under a signature that verifies.
  pub record Backed (funding : ChannelFunding) (payment : PaymentProof) : Type 0 where
    pub capacity : ℕ
    pub has_capacity : stored_capacity p host fuel now funding ≡ some (ok capacity)
    pub within : payment.balance ≤ capacity
    pub signed :
        verify_signature p host fuel now funding payment.balance payment.signature ≡ some (ok tt)

  -- The payment that is stored for a channel is backed by the stored funding.
  abbrev pub IsBacked : String → MemoryStorage → Type 0
  IsBacked id s =
      (q : PaymentProof)
      → get s.balance id ≡ some q
      → (f : ChannelFunding) × (get_funding id s ≡ some f) × Backed f q

  -- A payment that is stored before the payment at hand is recorded.
  abbrev pub Prior : String → PaymentProof → MemoryStorage → MemoryStorage → Type 0
  Prior id payment s u =
      (q : PaymentProof)
      → get u.balance id ≡ some q
      → (q ≡ payment)
        ⊎ ((get s.balance id ≡ some q)
            × (f : ChannelFunding) × (get_funding id u ≡ some f)
            × Backed f q)

  unpaid :
      (id : String) (s : MemoryStorage)
      → get_state s id ≡ none
      → IsBacked id s
      → get s.balance id ≡ none
  unfolding get_state
  unpaid id s h backed = elim (Option-cases (get s.balance id)) [
    | inl absent ↦ absent
    | inr present ↦ let (f, e, _) = backed present.0 present.1 in absurd (ground (arith, h, e))
  ]

  validated-Prior :
      (id : String) (balance : ℕ) (signature : String) (params_val : p.json.Value)
      (proofs : List Proof) (s : MemoryStorage) (v : ValidatedNewChannel)
      → get_state s id ≡ none
      → IsBacked id s
      → validate_new_channel_funding p host fuel now id params_val proofs balance signature s
        ≡ some (ok v)
      → Prior id
          (record { balance = balance; signature = signature })
          s
          (record_validated_new_channel p host fuel now v s)
  unfolding record_validated_new_channel
  validated-Prior id balance signature params_val proofs s v new backed h q e =
      let (_, _, checked, _, _) =
        validate_new_channel_funding-Fundable p host fuel now id params_val proofs balance signature
          s h in
      let first : PaymentProof = record { balance = v.balance; signature = v.sender_signature } in
      let own : PaymentProof = record { balance = balance; signature = signature } in
      let same : first ≡ own =
        λ i. record { balance = checked.same_balance i; signature = checked.same_signature i } in
      inl (
        save_funding-first p host id v.funding first q s (unpaid id s new backed) (
          subst (λ j. get (save_funding p.json host j v.funding first s).balance id ≡ some q)
            checked.same_id e)
        ∙ same)

  first_use-Prior :
      (id : String) (balance : ℕ) (signature : String) (params : Option p.json.Value)
      (proofs : Option (List Proof)) (s u : MemoryStorage) (state : Option ChannelState)
      → get_state s id ≡ state
      → IsBacked id s
      → first_use p host fuel now state id balance signature params proofs s ≡ some (ok u)
      → Prior id (record { balance = balance; signature = signature }) s u
  unfolding first_use
  first_use-Prior id balance signature params proofs s u (some state) known backed h =
      let same : s ≡ u = ground (arith, h) in
      subst (λ t. Prior id (record { balance = balance; signature = signature }) s t) same
        (λ q e. let (f, stored, b) = backed q e in inr (e, f, stored, b))
  first_use-Prior id balance signature params proofs s u none new backed h =
      let (params_val, _, h1) = >>=-ok (give (ok_or params unknown_channel)) _ h in
      let (given, _, h2) = >>=-ok (give (ok_or proofs unknown_channel)) _ h1 in
      let (v, valid, h3) =
        >>=-ok
          (validate_new_channel_funding p host fuel now id params_val given balance signature s) _
          h2 in
      let same : record_validated_new_channel p host fuel now v s ≡ u = ground (arith, h3) in
      subst (λ t. Prior id (record { balance = balance; signature = signature }) s t) same
        (validated-Prior id balance signature params_val given s v new backed valid)

  pub registered-Prior :
      (id : String) (balance : ℕ) (signature : String) (params : Option p.json.Value)
      (proofs : Option (List Proof)) (s u : MemoryStorage)
      → IsBacked id s
      → registered p host fuel now id balance signature params proofs s ≡ some (ok u)
      → Prior id (record { balance = balance; signature = signature }) s u
  unfolding registered
  registered-Prior id balance signature params proofs s u backed h =
      let (state, e, rest) = >>=-ok (validate_payment_request p host fuel now id signature s) _ h in
      let known : get_state s id ≡ state = unfold validate_payment_request in ground (arith, e) in
      first_use-Prior id balance signature params proofs s u state known backed rest
