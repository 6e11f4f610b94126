-- ===== src/Recovery.antt =====
-- What a mint says of a channel's funding: `inspect_funding` and `close_randomness` of
-- crates/cdk-spilman/src/recovery.rs. The mint's NUT-07 answer and the identities of proofs are parameters.
pub mod Spent
use cashu_spilman_channels.Prelude.{
  ℕ, ◌+◌, String, Bool, true, false, not, ◌&&◌, ◌||◌, Option, none, some, List, [], ◌∷◌, length,
  Result, ok, err, ◌>>=◌, ◌>>◌, ok_or, reject_if, ◌==◌, ◌!=◌, if◌then◌else◌, str_eq, is_some,
}
use cashu_spilman_channels.Packages.{Packages, Proof}
use cashu_spilman_channels.Channel.{ChannelParameters, CommitmentMode, ordinary, rerandomized}
use cashu_spilman_channels.Channel.Verification.{ChannelVerificationError, verify_valid_channel}
use cashu_spilman_channels.Prelude.Runs.{Run}

-- NUT-07's states of a proof.
pub data State : Type 0 where
  spent unspent pending reserved pending_spent : State

-- One answer of NUT-07, less the witness, which no operation here reads.
pub record ProofState : Type 0 where
  pub y : String
  pub state : State
  pub rerandomization_r : Option String

pub data FundingState : Type 0 where
  all_unspent all_pending all_spent mixed : FundingState

pub record FundingInspection : Type 0 where
  pub state : FundingState
  pub states : List ProofState

pub data RecoveryError : Type 0 where
  invalid_funding_model invalid_identities inexact_coverage unsupported_state : RecoveryError
  not_fully_spent empty_evidence inconsistent_randomness mode_mismatch : RecoveryError
  no_identity inspection_failed : String → RecoveryError

abbrev pub same_proof_state : State → State → Bool
same_proof_state spent spent = true
same_proof_state unspent unspent = true
same_proof_state pending pending = true
same_proof_state reserved reserved = true
same_proof_state pending_spent pending_spent = true
same_proof_state _ _ = false

abbrev pub same_randomness : Option String → Option String → Bool
same_randomness none none = true
same_randomness (some r) (some t) = str_eq r t
same_randomness _ _ = false

-- `ys.iter().collect::<HashSet<_>>().len() == ys.len()`
abbrev is_among : List String → String → Bool
is_among [] y = false
is_among (x ∷ xs) y = str_eq x y || is_among xs y

abbrev all_distinct : List String → Bool
all_distinct [] = true
all_distinct (y ∷ ys) = not (is_among ys y) && all_distinct ys

-- `states.iter().filter(|s| s.y == *y).count()`
abbrev pub count_of : String → List ProofState → ℕ
count_of y [] = 0
count_of y (s ∷ states) = (if str_eq s.y y then 1 else 0) + count_of y states

abbrev pub all_covered : List String → List ProofState → Bool
all_covered [] states = true
all_covered (y ∷ ys) states = (count_of y states == 1) && all_covered ys states

abbrev is_supported : State → Bool
is_supported spent = true
is_supported unspent = true
is_supported pending = true
is_supported reserved = false
is_supported pending_spent = false

abbrev all_supported : List ProofState → Bool
all_supported [] = true
all_supported (s ∷ states) = is_supported s.state && all_supported states

abbrev pub any_other_state : State → List ProofState → Bool
any_other_state first [] = false
any_other_state first (s ∷ states) =
    not (same_proof_state s.state first) || any_other_state first states

abbrev uniform : State → Result RecoveryError FundingState
uniform unspent = ok all_unspent
uniform pending = ok all_pending
uniform spent = ok all_spent
uniform reserved = err unsupported_state
uniform pending_spent = err unsupported_state

-- `response.states[0]`, which the coverage of at least one identity excludes to be missing.
abbrev aggregate : List ProofState → Result RecoveryError FundingState
aggregate [] = err inexact_coverage
aggregate (s ∷ states) = if any_other_state s.state (s ∷ states) then ok mixed else uniform s.state

-- The answer against the identities that were asked for.
unfoldable pub inspected : List String → List ProofState → Result RecoveryError FundingInspection
inspected ys states = do
  reject_if (not (length states == length ys) || not (all_covered ys states)) inexact_coverage
  reject_if (not (all_supported states)) unsupported_state
  state ← aggregate states
  ok (record { state = state; states = states })

abbrev is_nonempty : List String → Bool
is_nonempty [] = false
is_nonempty (y ∷ ys) = true

-- `funding_proofs.iter().map(Proof::y).collect()?`
abbrev identities : (Proof → Result String String) → List Proof → Result RecoveryError (List String)
identities y_of [] = ok []
identities y_of (proof ∷ proofs) = elim (y_of proof) [
  | err e ↦ err (no_identity e)
  | ok y ↦ identities y_of proofs >>= λ ys. ok (y ∷ ys)
]

abbrev answered :
    List String → Result String (List ProofState) → Result RecoveryError FundingInspection
answered ys (err e) = err (inspection_failed e)
answered ys (ok states) = inspected ys states

unfoldable pub ask :
    (Proof → Result String String)
    → (List String → Result String (List ProofState))
    → List Proof
    → Result RecoveryError FundingInspection
unfolding inspected
ask y_of check_state proofs = do
  ys ← identities y_of proofs
  reject_if (not (is_nonempty ys && all_distinct ys)) invalid_identities
  answered ys (check_state ys)

unfoldable pub inspect_funding :
    Packages
    → (Proof → Result String String)
    → (List String → Result String (List ProofState))
    → List Proof
    → ChannelParameters
    → Run RecoveryError FundingInspection
unfolding ask
inspect_funding p y_of check_state proofs params = elim (verify_valid_channel p proofs params) [
  | none ↦ none
  | some [] ↦ some (ask y_of check_state proofs)
  | some (e ∷ errors) ↦ some (err invalid_funding_model)
]

abbrev is_all_spent : FundingState → Bool
is_all_spent all_spent = true
is_all_spent _ = false

abbrev pub any_other_randomness : Option String → List ProofState → Bool
any_other_randomness first [] = false
any_other_randomness first (s ∷ states) =
    not (same_randomness s.rerandomization_r first) || any_other_randomness first states

abbrev pub fits_mode : CommitmentMode → Option String → Bool
fits_mode ordinary r = not (is_some r)
fits_mode rerandomized r = is_some r

abbrev first_randomness : List ProofState → Result RecoveryError (Option String)
first_randomness [] = err empty_evidence
first_randomness (s ∷ states) = ok s.rerandomization_r

unfoldable pub close_randomness :
    FundingInspection → CommitmentMode → Result RecoveryError (Option String)
close_randomness inspection mode = do
  reject_if (not (is_all_spent inspection.state)) not_fully_spent
  first ← first_randomness inspection.states
  reject_if (any_other_randomness first inspection.states) inconsistent_randomness
  reject_if (not (fits_mode mode first)) mode_mismatch
  ok first
