-- ===== src/Mint.antt =====
-- What a mint's answer is evidence of: crates/cdk-spilman/src/mint_outcome.rs.
pub mod Evidence
pub mod Retry
pub mod Log
pub mod Keeps
use cashu_spilman_channels.Prelude.{
  ℕ, String, Bool, true, false, not, ◌&&◌, ◌||◌, Option, none, some, Result, ok, err, leb, ltb,
  ◌==◌, if◌then◌else◌,
}

pub record MintResponse : Type 0 where
  pub status : ℕ
  pub body : String

pub record MintRejection : Type 0 where
  pub status : ℕ
  pub code : ℕ
  pub detail : String

pub data MintRequestError : Type 0 where
  rejected : MintRejection → MintRequestError
  http : MintResponse → MintRequestError
  transport : String → MintRequestError

-- `MintRejection::try_from`
unfoldable pub rejection_from : MintRejection → Result String MintRejection
rejection_from fields =
    if fields.status == 400 then ok fields else err "NUT-00 rejection must have HTTP status 400"

unfoldable pub rejection_permits_keyset_retry : MintRejection → Bool
rejection_permits_keyset_retry r = (r.status == 400) && ((r.code == 12001) || (r.code == 12002))

unfoldable pub rejection : MintRequestError → Option MintRejection
rejection (rejected r) = some r
rejection e = none

unfoldable pub permits_keyset_retry : MintRequestError → Bool
unfolding rejection_permits_keyset_retry
permits_keyset_retry (rejected r) = (r.status == 400) && rejection_permits_keyset_retry r
permits_keyset_retry e = false

-- The package's decoders are parameters: `serde_json::from_str` of the NUT-00 body, a code and a detail,
-- and of the envelope of a callback.
module _ (nut00 : String → Option (ℕ × String)) (envelope : String → Option MintResponse) where
  -- `if let Ok(error) = serde_json::from_str::<Nut00>(&self.body)`
  classify : MintResponse → Option (ℕ × String) → Result MintRequestError String
  classify response none = err (http response)
  classify response (some (code, detail)) =
      err (rejected (record { status = response.status; code = code; detail = detail }))

  unfoldable pub into_result : MintResponse → Result MintRequestError String
  unfolding classify
  into_result response =
      if leb 200 response.status && ltb response.status 300
      then ok response.body
      else if response.status == 400
      then classify response (nut00 response.body)
      else err (http response)

  -- The answer to a decoded envelope.
  checked : Option MintResponse → Result MintRequestError String
  unfolding into_result
  checked none = err (transport "invalid mint response envelope")
  checked (some response) =
      if leb 100 response.status && ltb response.status 600
      then into_result response
      else err (transport "invalid mint HTTP status")

  unfoldable pub from_callback : Result String String → Result MintRequestError String
  unfolding checked
  from_callback (err message) = err (transport message)
  from_callback (ok wire) = checked (envelope wire)
