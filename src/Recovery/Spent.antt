-- ===== src/Recovery/Spent.antt =====
-- What the randomness of a close is evidence of.
use cashu_spilman_channels.Prelude.{
  String, true, false, not, ◌||◌, Option, none, some, List, [], ◌∷◌, length, ok, ◌==◌, reject_if,
  str_eq, str_eq_iff, ◌≡◌, refl, arith, All, inl, inr, Bool-cases,
}
use cashu_spilman_channels.Channel.{CommitmentMode}
use cashu_spilman_channels.Channel.Verification.Secrets.{Result->>=-ok}
use cashu_spilman_channels.Recovery.{
  State, spent, ProofState, FundingInspection, all_spent, inexact_coverage, unsupported_state,
  not_fully_spent, inconsistent_randomness, mode_mismatch, count_of, all_covered, all_supported,
  any_other_state, aggregate, inspected, any_other_randomness, first_randomness, fits_mode,
  is_all_spent, close_randomness, same_proof_state, same_randomness,
}

-- The mint's answer has the identity as spent, with this randomness.
pub record SpentAs (r : Option String) (states : List ProofState) (y : String) : Type 0 where
  pub answer : ProofState
  pub identity : answer.y ≡ y
  pub state : answer.state ≡ spent
  pub randomness : answer.rerandomization_r ≡ r

abbrev IsSpentAs : Option String → ProofState → Type 0
IsSpentAs r s = (s.state ≡ spent) × (s.rerandomization_r ≡ r)

covered :
    (r : Option String) (y : String) (states : List ProofState)
    → All (IsSpentAs r) states
    → count_of y states ≡ 1
    → SpentAs r states y
covered r y [] h n = absurd (omega (arith, n))
covered r y (s ∷ states) h n = elim (Bool-cases (str_eq s.y y)) [
  | inl same ↦ record {
    answer = s;
    identity = ground (arith, same, str_eq_iff s.y y);
    state = h.0.0;
    randomness = h.0.1;
  }
  | inr other ↦
      let later = covered r y states h.1 (ground (arith, n, other)) in
      record {
        answer = later.answer;
        identity = later.identity;
        state = later.state;
        randomness = later.randomness;
      }
]

all_covered-SpentAs :
    (r : Option String) (ys : List String) (states : List ProofState)
    → All (IsSpentAs r) states
    → all_covered ys states ≡ true
    → All (SpentAs r states) ys
all_covered-SpentAs r [] states h c = tt
all_covered-SpentAs r (y ∷ ys) states h c = (
  covered r y states h (ground (arith, c)),
  all_covered-SpentAs r ys states h (ground (arith, c)),
)

same_randomness-eq : (r t : Option String) → same_randomness r t ≡ true → r ≡ t
same_randomness-eq none none h = refl
same_randomness-eq (some r) (some t) h = ground (arith, h, str_eq_iff r t)
same_randomness-eq none (some t) h = absurd (ground (arith, h))
same_randomness-eq (some r) none h = absurd (ground (arith, h))

same_proof_state-spent : (s : State) → same_proof_state s spent ≡ true → s ≡ spent
same_proof_state-spent s h = ground (arith, h)

uniform-IsSpentAs :
    (r : Option String) (states : List ProofState)
    → any_other_state spent states ≡ false
    → any_other_randomness r states ≡ false
    → All (IsSpentAs r) states
uniform-IsSpentAs r [] h e = tt
uniform-IsSpentAs r (s ∷ states) h e = (
  (
    same_proof_state-spent s.state (ground (arith, h)),
    same_randomness-eq s.rerandomization_r r (ground (arith, e)),
  ),
  uniform-IsSpentAs r states (ground (arith, h)) (ground (arith, e)),
)

aggregate-spent :
    (states : List ProofState)
    → aggregate states ≡ ok all_spent
    → any_other_state spent states ≡ false
aggregate-spent [] h = absurd (ground (arith, h))
aggregate-spent (s ∷ states) h = ground (arith, h)

-- The randomness that `close_randomness` gives for an inspected funding is backed for every identity that
-- was asked for: the mint's answer has it as spent, with exactly this randomness; and there is randomness
-- exactly in the rerandomized mode.
pub close_randomness-SpentAs :
    (ys : List String) (states : List ProofState) (inspection : FundingInspection)
    (mode : CommitmentMode) {r : Option String}
    → inspected ys states ≡ ok inspection
    → close_randomness inspection mode ≡ ok r
    → All (SpentAs r states) ys × (fits_mode mode r ≡ true)
unfolding inspected close_randomness
close_randomness-SpentAs ys states inspection mode {r} h e =
    let (u, exact, after_exact) =
      Result->>=-ok
        (reject_if (not (length states == length ys) || not (all_covered ys states))
          inexact_coverage)
        _ h in
    let (v, supported, after_supported) =
      Result->>=-ok (reject_if (not (all_supported states)) unsupported_state) _ after_exact in
    let (state, aggregated, done) = Result->>=-ok (aggregate states) _ after_supported in
    let (w, whole, after_whole) =
      Result->>=-ok (reject_if (not (is_all_spent inspection.state)) not_fully_spent) _ e in
    let (first, begun, after_first) =
      Result->>=-ok (first_randomness inspection.states) _ after_whole in
    let (x, consistent, after_consistent) =
      Result->>=-ok
        (reject_if (any_other_randomness first inspection.states) inconsistent_randomness) _
        after_first in
    let (z, fits, found) =
      Result->>=-ok (reject_if (not (fits_mode mode first)) mode_mismatch) _ after_consistent in
    let at_first : first ≡ r = ground (arith, found) in
    let seen : inspection.states ≡ states = ground (arith, done) in
    let ended : inspection.state ≡ state = ground (arith, done) in
    let spent_ : state ≡ all_spent = ground (arith, whole, ended) in
    (
      all_covered-SpentAs r ys states
          (uniform-IsSpentAs r states (aggregate-spent states (ground (arith, aggregated, spent_)))
            (ground (arith, consistent, at_first, seen)))
          (ground (arith, exact)),
      ground (arith, fits, at_first),
    )
