-- ===== src/Bridge/Refused.antt =====
-- What a refused payment, or the funding of a known channel, does to the store: nothing.
use cashu_spilman_channels.Prelude.{
  ℕ, String, true, Option, none, some, List, Result, ok, err, ◌≡◌, ◌≢◌, refl, ◌∙◌, arith, is_some,
}
use cashu_spilman_channels.Prelude.Runs.{Run}
use cashu_spilman_channels.Packages.{Packages, Proof}
use cashu_spilman_channels.Storage.Records.{ChannelState}
use cashu_spilman_channels.Storage.{MemoryStorage, get_state}
use cashu_spilman_channels.Host.{ConfigurableHost}
use cashu_spilman_channels.Bridge.{BridgeError, PaymentValidationResult, FundChannelResult}
use cashu_spilman_channels.Bridge.Validate.{validate_payment_request, validate_payment}
use cashu_spilman_channels.Bridge.Process.{
  process_payment, registered, paid_on, settle, first_use, fund_channel, unchanged, fund_at,
  fund_guards, validate_existing_channel_funding,
}

module _ (p : Packages) (host : ConfigurableHost) (fuel now : ℕ) where
  -- A channel that the store knows is not registered again.
  registered-known :
      (id : String) (balance : ℕ) (signature : String) (params : Option p.json.Value)
      (proofs : Option (List Proof)) (s u : MemoryStorage)
      → is_some (get_state s id) ≡ true
      → registered p host fuel now id balance signature params proofs s ≡ some (ok u)
      → u ≡ s
  unfolding registered first_use validate_payment_request
  registered-known id balance signature params proofs s u known h = ground arith

  settle-refused :
      (context : String) (s t : MemoryStorage) (r : Run BridgeError PaymentValidationResult)
      {e : BridgeError}
      → settle p host fuel now context s r ≡ some (t, err e)
      → t ≡ s
  unfolding settle
  settle-refused context s t none h = absurd (ground arith)
  settle-refused context s t (some (err x)) h = ground arith
  settle-refused context s t (some (ok val)) h = absurd (ground arith)

  paid_on-refused :
      (id : String) (balance : ℕ) (signature context : String) (s t : MemoryStorage)
      (r : Run BridgeError MemoryStorage) {e : BridgeError}
      → ((u : MemoryStorage) → r ≡ some (ok u) → u ≡ s)
      → paid_on p host fuel now id balance signature context s r ≡ some (t, err e)
      → t ≡ s
  unfolding paid_on
  paid_on-refused id balance signature context s t none same h = absurd (ground arith)
  paid_on-refused id balance signature context s t (some (err x)) same h = ground arith
  paid_on-refused id balance signature context s t (some (ok u)) same h =
      settle-refused context u t (validate_payment p host fuel now id balance signature context u) h
      ∙ same u refl

  -- A payment that is refused on a channel that the store knows leaves the store as it was.
  process_payment_refused :
      (id : String) (balance : ℕ) (signature : String) (params : Option p.json.Value)
      (proofs : Option (List Proof)) (context : String) (s t : MemoryStorage) {e : BridgeError}
      → is_some (get_state s id) ≡ true
      → process_payment p host fuel now id balance signature params proofs context s
        ≡ some (t, err e)
      → t ≡ s
  unfolding process_payment
  process_payment_refused id balance signature params proofs context s t known h =
      paid_on-refused id balance signature context s t
        (registered p host fuel now id balance signature params proofs s)
        (λ u. registered-known id balance signature params proofs s u known) h

  unchanged-store :
      (s t : MemoryStorage) (m : Run BridgeError FundChannelResult)
      {r : Result BridgeError FundChannelResult}
      → unchanged p host fuel now s m ≡ some (t, r)
      → t ≡ s
  unchanged-store s t none h = absurd (ground arith)
  unchanged-store s t (some r) h = ground arith

  fund_at-known :
      (id : String) (balance : ℕ) (signature : String) (params : Option p.json.Value)
      (proofs : Option (List Proof)) (s t : MemoryStorage)
      (r : Result BridgeError FundChannelResult) (g : Run BridgeError (Option ChannelState))
      → g ≢ some (ok none)
      → fund_at p host fuel now id balance signature params proofs s g ≡ some (t, r)
      → t ≡ s
  unfolding fund_at
  fund_at-known id balance signature params proofs s t r none ne h = absurd (ground arith)
  fund_at-known id balance signature params proofs s t r (some (err x)) ne h = ground arith
  fund_at-known id balance signature params proofs s t r (some (ok (some st))) ne h =
      unchanged-store s t (validate_existing_channel_funding p host fuel now id balance signature s)
        h
  fund_at-known id balance signature params proofs s t r (some (ok none)) ne h = absurd (ne refl)

  -- Funding a channel that the store knows, with success or not, leaves the store as it was.
  pub fund_channel_known :
      (id : String) (balance : ℕ) (signature : String) (params : Option p.json.Value)
      (proofs : Option (List Proof)) (s t : MemoryStorage)
      (r : Result BridgeError FundChannelResult)
      → is_some (get_state s id) ≡ true
      → fund_channel p host fuel now id balance signature params proofs s ≡ some (t, r)
      → t ≡ s
  unfolding fund_channel
  fund_channel_known id balance signature params proofs s t r known h =
      fund_at-known id balance signature params proofs s t r
        (fund_guards p host fuel now id signature s) (λ e. unfold fund_guards in ground arith) h
