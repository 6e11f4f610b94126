-- ===== src/Channel/Parsed.antt =====
-- Parameters that `from_json_with_channel_secret` gives have passed `ChannelParameters::new`.
use cashu_spilman_channels.Prelude.{ℕ, String, some, List, ok, ◌≡◌, arith, subst, inl, inr}
use cashu_spilman_channels.Prelude.Runs.{Run-cases}
use cashu_spilman_channels.Packages.{Packages}
use cashu_spilman_channels.Amounts.{KeysetInfo}
use cashu_spilman_channels.Channel.{ChannelParameters, CommitmentMode, new, with_commitment_mode}
use cashu_spilman_channels.Channel.Commitment.{IsAccepted, new-IsAccepted}
use cashu_spilman_channels.Channel.Parse.{read_fields, from_json_with_channel_secret}

mode-IsAccepted :
    (params : ChannelParameters) (mode : CommitmentMode)
    → IsAccepted params
    → IsAccepted (with_commitment_mode params mode)
unfolding with_commitment_mode
mode-IsAccepted params mode a = record {
  after_stage1 = a.after_stage1;
  max_capacity = a.max_capacity;
  rate = a.rate;
  stage1 = a.stage1;
  stage2 = a.stage2;
  fits = a.fits;
}

-- Parameters read from JSON have a fee rate below 1000 and a capacity within the value that is left of the
-- funding token after the fees of both stages.
pub from_json-IsAccepted :
    (p : Packages) (json_str : String) (info : KeysetInfo) (secret : List ℕ)
    {params : ChannelParameters}
    → from_json_with_channel_secret p json_str info secret ≡ some (ok params)
    → IsAccepted params
unfolding from_json_with_channel_secret
from_json-IsAccepted p json_str info secret {params} h =
    elim (Run-cases (read_fields p json_str info)) [
      | inl stopped ↦ absurd (ground arith)
      | inr fields ↦
          let (f, e) = fields in
          let made =
            new f.sender_pubkey f.receiver_pubkey f.mint f.unit f.capacity f.funding_token_amount
              f.expiry_timestamp f.setup_timestamp info f.maximum_amount secret in
          elim (Run-cases made) [
            | inl stopped ↦ absurd (ground arith)
            | inr built ↦
                let (base, b) = built in
                let same : with_commitment_mode base f.mode ≡ params = ground arith in
                subst IsAccepted same (
                  mode-IsAccepted base f.mode (
                    new-IsAccepted f.sender_pubkey f.receiver_pubkey f.mint f.unit f.capacity
                      f.funding_token_amount f.expiry_timestamp f.setup_timestamp info
                      f.maximum_amount secret b))
          ]
    ]
