-- ===== src/Bridge/Close/Initiate.antt =====
-- The closes from their start: the first-use funding of a cooperative close, the transition that is stored
-- before the swap, and the execution: crates/cdk-spilman/src/bridge.rs.
use cashu_spilman_channels.Prelude.{
  ℕ, String, Bool, Option, none, some, List, ok, err, map_err, if◌then◌else◌, is_some,
}
use cashu_spilman_channels.Prelude.Runs.{Run, map_error}
use cashu_spilman_channels.Prelude.Runs
use cashu_spilman_channels.Packages.{Packages, Proof}
use cashu_spilman_channels.Channel.Parse.{give}
use cashu_spilman_channels.Storage.{MemoryStorage, get_state}
use cashu_spilman_channels.Host.{ConfigurableHost}
use cashu_spilman_channels.Bridge.{Cause, text, is_empty}
use cashu_spilman_channels.Bridge.Validate.{validate_new_channel_funding}
use cashu_spilman_channels.Bridge.Process.{record_validated_new_channel}
use cashu_spilman_channels.Bridge.Close.{
  CloseParts, Payment, PreparedCloseTransition, CloseSuccess, CloseError, because, bad_request,
  from_preparation_error, from_bridge_error, mark_prepared_close_closing,
}
use cashu_spilman_channels.Bridge.Close.Transition.{
  prepare_cooperative_close_transition, prepare_unilateral_close_transition,
}
use cashu_spilman_channels.Bridge.Close.Execute.{
  Network, World, or_stop, execute_close_for_closing_channel,
}

module _ (p : Packages) (parts : CloseParts p) (no_payment_proof : Cause → Bool)
    (host : ConfigurableHost) (fuel now : ℕ) where
  module _ {E : Type 0} (network : Network E) where
    -- The funding of an unknown channel that a cooperative close brings with it.
    abbrev pub new_channel :
        Payment p.json.Value
        → MemoryStorage
        → Option p.json.Value
        → Option (List Proof)
        → Run CloseError MemoryStorage
    new_channel payment s none proofs = some (ok s)
    new_channel payment s (some params) none = some (ok s)
    new_channel payment s (some params) (some funding_proofs) =
        Runs.◌>>=◌
          (map_error (λ e. from_preparation_error (from_bridge_error no_payment_proof e))
            (validate_new_channel_funding p host fuel now payment.channel_id params funding_proofs
              payment.balance payment.signature s))
          (λ validated. some (ok (record_validated_new_channel p host fuel now validated s)))

    unfoldable pub first_use_of :
        Payment p.json.Value → MemoryStorage → Run CloseError MemoryStorage
    first_use_of payment s =
        if is_empty payment.channel_id
        then some (ok s)
        else if is_empty payment.signature
        then some (ok s)
        else if is_some (get_state s payment.channel_id)
        then some (ok s)
        else new_channel payment s payment.params payment.funding_proofs

    unfoldable pub record_cooperative_close_first_use_funding :
        String → MemoryStorage → Run CloseError MemoryStorage
    unfolding first_use_of
    record_cooperative_close_first_use_funding json s =
        Runs.◌>>=◌
          (give (
            map_err (λ e. from_preparation_error (bad_request (because (text e))))
              (parts.payment_from_str json)))
          (λ payment. first_use_of payment s)

    -- The writes of a step on the store.
    abbrev pub stored : World E → Run CloseError MemoryStorage → Run CloseError Unit × World E
    stored w none = (none, w)
    stored w (some (err e)) = (some (err e), w)
    stored w (some (ok t)) = (some (ok tt), record w { store = t })

    -- From a transition on, both closes are the same.
    unfoldable pub execute_transition :
        PreparedCloseTransition p.json.Value
        → String
        → World E
        → Run CloseError CloseSuccess × World E
    execute_transition transition channel_id w =
        or_stop (stored w (give (mark_prepared_close_closing p.json host transition w.store)))
          (λ _ w.
            execute_close_for_closing_channel p parts no_payment_proof host fuel now network
              channel_id w)

    unfoldable pub execute_cooperative_close :
        String → World E → Run CloseError CloseSuccess × World E
    unfolding record_cooperative_close_first_use_funding execute_transition
    execute_cooperative_close json w =
        or_stop (stored w (record_cooperative_close_first_use_funding json w.store)) (λ _ w.
          or_stop
            (
              map_error from_preparation_error (
                  prepare_cooperative_close_transition p parts no_payment_proof host fuel now json
                    w.store),
              w,
            )
            (λ transition w. execute_transition transition transition.prepared_close.channel_id w))

    unfoldable pub execute_unilateral_close :
        String → World E → Run CloseError CloseSuccess × World E
    unfolding execute_transition
    execute_unilateral_close channel_id w =
        or_stop
          (
            map_error from_preparation_error (
                prepare_unilateral_close_transition p parts no_payment_proof host fuel now
                  channel_id w.store),
            w,
          )
          (λ transition w. execute_transition transition channel_id w)
