-- ===== src/Bridge/Close/Attempts.antt =====
-- What the attempts of a close leave of the receiver's store: nothing but the keysets changes before the
-- close is recorded.
use cashu_spilman_channels.Prelude.{
  ℕ, String, Bool, true, false, Option, none, some, ok, err, ◌≡◌, refl, ap, arith, get, ok_or,
  string_eq, str_eq,
}
use cashu_spilman_channels.Prelude.Runs.{Run, map_error, >>=-past}
use cashu_spilman_channels.Packages.{Packages}
use cashu_spilman_channels.Mint.{MintRequestError, permits_keyset_retry}
use cashu_spilman_channels.Mint.Retry.{SelectedOutputKeyset}
use cashu_spilman_channels.Mint.Keeps.{Kept, Prepared}
use cashu_spilman_channels.Storage.Records.{
  ChannelFunding, ClosingData, ClosedDataView, ChannelState,
}
use cashu_spilman_channels.Storage.{MemoryStorage, get_state, get_funding}
use cashu_spilman_channels.Host.{ConfigurableHost}
use cashu_spilman_channels.Bridge.{Cause}
use cashu_spilman_channels.Bridge.Close.{
  CloseParts, CloseData, PreparedClose, CloseSuccess, CloseError, ClosePreparationError,
  from_preparation_error, from_bridge_error,
}
use cashu_spilman_channels.Bridge.Close.Select.{selected_output_keyset_info, missing_funding}
use cashu_spilman_channels.Channel.Parse.{give}
use cashu_spilman_channels.Bridge.Close.Prepare.{wrap_close_data, prepare_close_data_impl}
use cashu_spilman_channels.Bridge.Close.Transition.{prepare_close_for_closing_channel_with_keyset}
use cashu_spilman_channels.Bridge.Close.Execute.{
  Network, Attempt, callback_result, close_callbacks, Keysets, decide, refresh_all,
}

-- Only the cached keysets differ.
abbrev pub SameChannels : MemoryStorage → MemoryStorage → Type 0
SameChannels s t = t ≡ record s { keysets = t.keysets }

pub SameChannels-refreshed :
    (s t : MemoryStorage) (keysets : Keysets)
    → SameChannels s t
    → SameChannels s (record t { keysets = keysets })
SameChannels-refreshed s t keysets h = ap (λ (u : MemoryStorage). record u { keysets = keysets }) h

-- A close that has been executed: `t` is `s` with the channel closed at the balance of its authorization.
pub record Closed (id : String) (s t : MemoryStorage) (success : CloseSuccess) : Type 0 where
  pub authorization : ClosingData
  pub stored : get s.closing id ≡ some authorization
  pub state : get_state t id ≡ some ChannelState.closed
  pub view : ClosedDataView
  pub recorded : get t.closed id ≡ some view
  pub amount : view.closed_amount ≡ authorization.balance
  pub receiver_sum : view.receiver_sum ≡ success.receiver_sum
  pub sender_sum : view.sender_sum ≡ success.sender_sum
  pub payment : get t.balance id ≡ get s.balance id
  pub funding : get t.funding id ≡ get s.funding id
  pub others : (j : String) → str_eq id j ≡ false → get_state t j ≡ get_state s j

-- What an execution leaves of a store, by its result.
abbrev pub After : String → MemoryStorage → Run CloseError CloseSuccess → MemoryStorage → Type 0
After id s none t = SameChannels s t
After id s (some (err e)) t = SameChannels s t
After id s (some (ok success)) t = Closed id s t success

module _ (p : Packages) (parts : CloseParts p) (no_payment_proof : Cause → Bool)
    (host : ConfigurableHost) (fuel now : ℕ) where
  abbrev pub Names : String → ℕ → PreparedClose p.json.Value → Type 0
  Names id balance prep = (prep.channel_id ≡ id) × (prep.balance ≡ balance)

  pub wrapped :
      (close_data : CloseData) (id : String) (balance : ℕ) (funding : ChannelFunding)
      (prep : PreparedClose p.json.Value)
      → wrap_close_data p parts host fuel now close_data id balance funding ≡ ok prep
      → Names id balance prep
  unfolding wrap_close_data
  wrapped close_data id balance funding prep h = (ground arith, ground arith)

  pub prepared-Names :
      (id : String) (balance : ℕ) (signature : String) (k : SelectedOutputKeyset)
      (s : MemoryStorage) {prep : PreparedClose p.json.Value}
      → prepare_close_for_closing_channel_with_keyset p parts no_payment_proof host fuel now id
          balance signature k s
        ≡ some (ok prep)
      → Names id balance prep
  unfolding prepare_close_for_closing_channel_with_keyset
  prepared-Names id balance signature k s {prep} h =
      let Q = Names id balance in
      >>=-past Q (give (ok_or (get_funding id s) missing_funding)) _
        (λ funding h.
          >>=-past Q (selected_output_keyset_info p parts no_payment_proof host fuel now k) _
            (λ out_keyset h.
              >>=-past Q
                (map_error (from_bridge_error no_payment_proof) (
                  prepare_close_data_impl p parts host fuel now id balance signature funding
                    out_keyset false s))
                _ (λ close_data h. wrapped close_data id balance funding prep (ground (arith, h)))
                h)
            h)
        h

  module _ {E : Type 0} (network : Network E) where
    abbrev pub Unchanged : MemoryStorage → Attempt E → Type 0
    Unchanged s a = SameChannels s a.world.store

    pub callback-Prepared :
        (id : String) (cd : ClosingData) (s : MemoryStorage) (a : Attempt E)
        (r : Run ClosePreparationError (PreparedClose p.json.Value))
        → ((prep : PreparedClose p.json.Value) → r ≡ some (ok prep) → Names id cd.balance prep)
        → Unchanged s a
        → Prepared
            (close_callbacks p parts no_payment_proof host fuel now network id cd)
            (Unchanged s)
            (Names id cd.balance)
            (callback_result (map_error from_preparation_error r), a)
    callback-Prepared id cd s a none f i = i
    callback-Prepared id cd s a (some (err e)) f i = i
    callback-Prepared id cd s a (some (ok prep)) f i = (i, f prep refl)

    pub decide-Unchanged :
        (s : MemoryStorage) (e : MintRequestError) (a : Attempt E) (b : Bool)
        → Unchanged s a
        → Unchanged s (decide p parts no_payment_proof host fuel now network e a b).1
    decide-Unchanged s e a true i = i
    decide-Unchanged s e a false i = i

    pub refresh_all-Unchanged :
        (s : MemoryStorage) (a : Attempt E) (url : Option String)
        → Unchanged s a
        → Unchanged s (refresh_all p parts no_payment_proof host fuel now network a url).1
    refresh_all-Unchanged s a none i = i
    refresh_all-Unchanged s a (some url) i =
        SameChannels-refreshed s a.world.store
          (network.refresh url a.world.store.keysets a.world.outside).1.0 i

    pub kept_by_callbacks :
        (id : String) (cd : ClosingData) (s : MemoryStorage)
        → Kept
            (close_callbacks p parts no_payment_proof host fuel now network id cd)
            (Unchanged s)
            (Names id cd.balance)
    unfolding close_callbacks
    kept_by_callbacks id cd s = record {
      select = λ a i. i;
      prepare = λ k a i.
          callback-Prepared id cd s a _
            (λ prep h. prepared-Names id cd.balance cd.signature k a.world.store h) i;
      submit = λ prep a i. i;
      should_retry = λ e a i. decide-Unchanged s e a (permits_keyset_retry e) i;
      refresh = λ a i. refresh_all-Unchanged s a a.retry_mint_url i;
      cleanup = λ prep e a i. i;
    }
