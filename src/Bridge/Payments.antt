-- ===== src/Bridge/Payments.antt =====
-- What an accepted payment is: `validate_payment` and `process_payment`.
use cashu_spilman_channels.Prelude.{
  ℕ, ◌≤◌, String, Option, none, some, List, Result, ok, err, ◌≡◌, refl, sym, ◌∙◌, ap, arith, get,
  string_eq, Option-cases, inl, inr, subst, ◌⊎◌,
}
use cashu_spilman_channels.Prelude.Runs.{Run}
use cashu_spilman_channels.Packages.{Packages, Proof}
use cashu_spilman_channels.Storage.Records.{ChannelFunding, PaymentProof, opened}
use cashu_spilman_channels.Storage.{MemoryStorage, get_state, get_funding}
use cashu_spilman_channels.Storage.Balance.{update_balance-Updated}
use cashu_spilman_channels.Host.{
  ConfigurableHost, compute_amount_due, record_payment, context_usage,
}
use cashu_spilman_channels.Host.Pricing.{
  record_payment_lem, record_payment-opened, incremented-kept,
}
use cashu_spilman_channels.Bridge.{BridgeError, PaymentSuccess, PaymentValidationResult}
use cashu_spilman_channels.Bridge.Backed.{
  Backed, IsBacked, Prior, Entry, update_balance-Entry, registered-Prior,
}
use cashu_spilman_channels.Bridge.Validate.{verify_signature, validate_payment, stored_capacity}
use cashu_spilman_channels.Bridge.Process.{process_payment, registered, paid_on, settle}

some-pair :
    {A E B : Type 0} {a b : A} {x y : B}
    → ◌≡◌ {A = Option (A × Result E B)} (some (a, ok x)) (some (b, ok y))
    → (a ≡ b) × (x ≡ y)
some-pair h = (ground arith, ground arith)

some_injective : {A : Type 0} {a b : A} → some a ≡ some b → a ≡ b
some_injective h = ground arith

module _ (p : Packages) (host : ConfigurableHost) (fuel now : ℕ) where
  -- A payment that the store's channel can take.
  pub record Accepted (id : String) (balance : ℕ) (signature context : String) (s : MemoryStorage)
      (val : PaymentValidationResult) : Type 0 where
    pub state : get_state s id ≡ some opened
    pub funding : ChannelFunding
    pub stored : get_funding id s ≡ some funding
    pub capacity : stored_capacity p host fuel now funding ≡ some (ok val.capacity)
    pub within : balance ≤ val.capacity
    pub signed : verify_signature p host fuel now funding balance signature ≡ some (ok tt)
    pub due : val.amount_due ≡ compute_amount_due p.json host id (some context) s
    pub covered : val.amount_due ≤ balance
    pub same_id : val.channel_id ≡ id
    pub same_balance : val.balance ≡ balance
    pub same_signature : val.sender_signature ≡ signature

  -- A payment passes validation only on an open channel, with a signature over exactly this balance that
  -- verifies against the stored funding, a balance within the stored capacity, and at least the amount due
  -- with the context's usage counted.
  pub validate_payment-Accepted :
      (id : String) (balance : ℕ) (signature context : String) (s : MemoryStorage)
      {val : PaymentValidationResult}
      → validate_payment p host fuel now id balance signature context s ≡ some (ok val)
      → Accepted id balance signature context s val
  unfolding validate_payment
  validate_payment-Accepted id balance signature context s {val} h =
      elim (Option-cases (get_funding id s)) [
        | inl missing ↦ absurd (ground arith)
        | inr found ↦
            let (f, e) = found in
            record {
              state = ground arith;
              funding = f;
              stored = e;
              capacity = ground arith;
              within = ground arith;
              signed = ground arith;
              due = ground arith;
              covered = ground arith;
              same_id = ground arith;
              same_balance = ground arith;
              same_signature = ground arith;
            }
      ]

  -- A channel whose books are right after a payment, of the store before it and the store after it.
  pub record Paid (id : String) (balance : ℕ) (signature : String) (before s : MemoryStorage)
      (success : PaymentSuccess) : Type 0 where
    pub funding : ChannelFunding
    pub stored : get_funding id s ≡ some funding
    pub signed : verify_signature p host fuel now funding balance signature ≡ some (ok tt)
    pub result_balance : success.balance ≡ balance
    pub capacity : stored_capacity p host fuel now funding ≡ some (ok success.capacity)
    pub within : balance ≤ success.capacity
    pub payment : PaymentProof
    pub entry : get s.balance id ≡ some payment
    pub origin :
        (payment ≡ record { balance = balance; signature = signature })
        ⊎ (get before.balance id ≡ some payment)
    pub recorded : balance ≤ payment.balance
    pub backed : Backed p host fuel now funding payment
    pub payment_within : payment.balance ≤ success.capacity
    pub due : compute_amount_due p.json host id none s ≡ success.amount_due
    pub covered : compute_amount_due p.json host id none s ≤ payment.balance

  -- What is stored after the payment at hand is recorded.
  record Recorded (id : String) (payment : PaymentProof) (before : MemoryStorage)
      (funding : ChannelFunding) (t : MemoryStorage) : Type 0 where
    stored : PaymentProof
    entry : get t.balance id ≡ some stored
    origin : (stored ≡ payment) ⊎ (get before.balance id ≡ some stored)
    at_least : payment.balance ≤ stored.balance
    backed : Backed p host fuel now funding stored

  Recorded-Backed :
      (id : String) (balance : ℕ) (signature context : String) (before s t : MemoryStorage)
      (val : PaymentValidationResult) (a : Accepted id balance signature context s val)
      → Prior p host fuel now id (record { balance = balance; signature = signature }) before s
      → Entry id (record { balance = balance; signature = signature }) s t
      → Recorded id (record { balance = balance; signature = signature }) before a.funding t
  Recorded-Backed id balance signature context before s t val a prior e =
      let own : PaymentProof = record { balance = balance; signature = signature } in
      let new : Backed p host fuel now a.funding own = record {
        capacity = val.capacity;
        has_capacity = a.capacity;
        within = a.within;
        signed = a.signed;
      } in
      let fresh : e.stored ≡ own → Recorded id own before a.funding t = λ same. record {
        stored = e.stored;
        entry = e.entry;
        origin = inl same;
        at_least = e.at_least;
        backed = subst (Backed p host fuel now a.funding) (sym same) new;
      } in
      elim e.origin [
        | inl same ↦ fresh same
        | inr kept ↦ elim (prior e.stored kept) [
          | inl same ↦ fresh same
          | inr old ↦
              let (was, f, funded, b) = old in
              let same : f ≡ a.funding = some_injective (sym funded ∙ a.stored) in
              record {
                stored = e.stored;
                entry = e.entry;
                origin = inr was;
                at_least = e.at_least;
                backed = subst (λ g. Backed p host fuel now g e.stored) same b;
              }
        ]
      ]

  settled :
      (id : String) (balance : ℕ) (signature context : String) (before s : MemoryStorage)
      (val : PaymentValidationResult)
      → Prior p host fuel now id (record { balance = balance; signature = signature }) before s
      → Accepted id balance signature context s val
      → Paid id balance signature before
          (record_payment p.json host id
            (record { balance = balance; signature = signature })
            context
            s)
          (record {
            channel_id = val.channel_id;
            balance = val.balance;
            amount_due = val.amount_due;
            capacity = val.capacity;
          })
  settled id balance signature context before s val prior a =
      let proof : PaymentProof = record { balance = balance; signature = signature } in
      let (due, covers, keeps) = record_payment_lem p.json host id context proof s a.state in
      let u = update_balance-Updated id proof s a.state in
      let (f, b) = incremented-kept id (context_usage p.json host context) u.store in
      let opened_ = record_payment-opened p.json host id context proof s u in
      let same : (record_payment p.json host id proof context s).funding ≡ s.funding =
        ap (λ t. t.funding) opened_ ∙ (f ∙ u.funding) in
      let balances : (record_payment p.json host id proof context s).balance ≡ u.store.balance =
        ap (λ t. t.balance) opened_ ∙ b in
      let r =
        Recorded-Backed id balance signature context before s u.store val a prior
          (update_balance-Entry id proof s u.store u.returns) in
      record {
        funding = a.funding;
        stored = ap (λ m. get m id) same ∙ a.stored;
        signed = a.signed;
        result_balance = a.same_balance;
        capacity = a.capacity;
        within = a.within;
        payment = r.stored;
        entry = ap (λ m. get m id) balances ∙ r.entry;
        origin = r.origin;
        recorded = r.at_least;
        backed = r.backed;
        payment_within = ground (arith, r.backed.within, r.backed.has_capacity, a.capacity);
        due = due ∙ sym a.due;
        covered = omega (arith, due, r.at_least, a.covered, a.due);
      }

  settle-Paid :
      (id : String) (balance : ℕ) (signature context : String) (before s t : MemoryStorage)
      (r : Run BridgeError PaymentValidationResult) {success : PaymentSuccess}
      → Prior p host fuel now id (record { balance = balance; signature = signature }) before s
      → validate_payment p host fuel now id balance signature context s ≡ r
      → settle p host fuel now context s r ≡ some (t, ok success)
      → Paid id balance signature before t success
  unfolding settle
  settle-Paid id balance signature context before s t none prior e h = absurd (ground arith)
  settle-Paid id balance signature context before s t (some (err x)) prior e h =
      absurd (ground arith)
  settle-Paid id balance signature context before s t (some (ok val)) {success} prior e h =
      let a = validate_payment-Accepted id balance signature context s e in
      let proof : PaymentProof = record { balance = balance; signature = signature } in
      let own : PaymentProof = record { balance = val.balance; signature = val.sender_signature } in
      let result : PaymentSuccess = record {
        channel_id = val.channel_id;
        balance = val.balance;
        amount_due = val.amount_due;
        capacity = val.capacity;
      } in
      let same : record_payment p.json host id proof context s
          ≡ record_payment p.json host val.channel_id own context s =
        λ i.
          record_payment p.json host (sym a.same_id i)
            (record { balance = sym a.same_balance i; signature = sym a.same_signature i }) context
            s in
      let (stored, given) = some-pair h in
      subst (λ w. Paid id balance signature before t w) given
        (subst (λ w. Paid id balance signature before w result) (same ∙ stored)
          (settled id balance signature context before s val prior a))

  paid_on-Paid :
      (id : String) (balance : ℕ) (signature context : String) (before t : MemoryStorage)
      (r : Run BridgeError MemoryStorage) {success : PaymentSuccess}
      → ((u : MemoryStorage)
          → r ≡ some (ok u)
          → Prior p host fuel now id (record { balance = balance; signature = signature }) before u)
      → paid_on p host fuel now id balance signature context before r ≡ some (t, ok success)
      → Paid id balance signature before t success
  unfolding paid_on
  paid_on-Paid id balance signature context before t none prior h = absurd (ground arith)
  paid_on-Paid id balance signature context before t (some (err x)) prior h = absurd (ground arith)
  paid_on-Paid id balance signature context before t (some (ok u)) prior h =
      settle-Paid id balance signature context before u t
        (validate_payment p host fuel now id balance signature context u) (prior u refl) refl h

  -- After a payment that `process_payment` accepts, on a new channel or a known one whose stored payment is
  -- within the stored capacity and under a signature that verifies against the stored funding, the stored
  -- payment is again: it is the accepted payment or the one from before, with at least the accepted balance,
  -- within the capacity that the result names, which is the stored one, and under a signature over its own
  -- balance that verifies. The amount now due, the usage of the payment's context counted, is the one that the
  -- result names, and the stored balance covers it.
  pub process_payment-Paid :
      (id : String) (balance : ℕ) (signature : String) (params : Option p.json.Value)
      (proofs : Option (List Proof)) (context : String) (s t : MemoryStorage)
      {success : PaymentSuccess}
      → IsBacked p host fuel now id s
      → process_payment p host fuel now id balance signature params proofs context s
        ≡ some (t, ok success)
      → Paid id balance signature s t success
  unfolding process_payment
  process_payment-Paid id balance signature params proofs context s t backed h =
      paid_on-Paid id balance signature context s t
        (registered p host fuel now id balance signature params proofs s)
        (λ u e. registered-Prior p host fuel now id balance signature params proofs s u backed e) h

  -- So the stored payment of the channel is backed for the next payment.
  pub Paid-IsBacked :
      (id : String) (balance : ℕ) (signature : String) (s t : MemoryStorage)
      {success : PaymentSuccess}
      → Paid id balance signature s t success
      → IsBacked p host fuel now id t
  Paid-IsBacked id balance signature s t paid q e =
      let same : paid.payment ≡ q = some_injective (sym paid.entry ∙ e) in
      (paid.funding, paid.stored, subst (Backed p host fuel now paid.funding) same paid.backed)
