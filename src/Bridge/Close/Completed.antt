-- ===== src/Bridge/Close/Completed.antt =====
-- What a completed close is worth: `complete_prepared_close`.
use cashu_spilman_channels.Prelude.{ℕ, ◌+◌, ◌≤◌, some, ok, ◌≡◌}
use cashu_spilman_channels.Packages.{Packages}
use cashu_spilman_channels.Amounts.{InverseFeeResult}
use cashu_spilman_channels.Channel.{
  ChannelParameters, CommitmentOutputs, for_balance, get_value_after_stage1, inverse_of,
}
use cashu_spilman_channels.Host.{ConfigurableHost}
use cashu_spilman_channels.Bridge.Close.{CloseParts, PreparedClose, CompletedClose}
use cashu_spilman_channels.Bridge.Close.Prepare.{commitment_secrets}
use cashu_spilman_channels.Bridge.Close.Unblind.{Secrets}
use cashu_spilman_channels.Bridge.Close.Complete.{failed}
use cashu_spilman_channels.Bridge.Close.Sums.{secrets_sum}

module _ (p : Packages) (parts : CloseParts p) (host : ConfigurableHost) (fuel now : ℕ) where
  record Bound (prep : PreparedClose p.json.Value) (params : ChannelParameters) (secrets : Secrets)
      : Type 0 where
    pub channel : p.channel_id params ≡ prep.channel_id
    pub within : prep.balance ≤ params.capacity
    pub commitment : CommitmentOutputs
    pub committed : for_balance fuel prep.balance params ≡ some (ok commitment)
    pub expected : Secrets
    pub listed :
        commitment_secrets p
          (λ _. failed "Invalid receiver close secrets")
          (λ _. failed "Invalid sender close secrets")
          commitment
        ≡ ok expected
    pub same_sum : secrets_sum expected ≡ secrets_sum secrets

  pub record Completed (prep : PreparedClose p.json.Value) (params : ChannelParameters)
      (completed : CompletedClose) : Type 0 where
    pub channel_id : completed.channel_id ≡ p.channel_id params
    pub balance : completed.balance ≡ prep.balance
    pub within : completed.balance ≤ params.capacity
    pub inverse : InverseFeeResult
    pub found :
        inverse_of fuel params.keyset_info completed.balance params.maximum_amount_for_one_output
        ≡ some (ok inverse)
    pub receiver_sum : completed.receiver_sum ≡ inverse.nominal_value
    pub after_stage1 : ℕ
    pub stage1 : get_value_after_stage1 params ≡ some (ok after_stage1)
    pub total : completed.receiver_sum + completed.sender_sum ≡ after_stage1
