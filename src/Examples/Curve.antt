-- ===== src/Examples/Curve.antt =====
-- A curve and the parts of a close that compute: a point is the text of its secret, and the mint signs what
-- it is sent.
use cashu_spilman_channels.Prelude.{
  ℕ, String, Bool, true, false, Option, none, some, List, [], ◌∷◌, ok, ◌≡◌, refl, ap, arith,
  string_eq, pair_eq, if◌then◌else◌, str_eq,
}
use cashu_spilman_channels.Packages.{Proof}
use cashu_spilman_channels.Storage.{MemoryStorage}
use cashu_spilman_channels.Swap.{
  BlindedMessage, BlindSignature, SwapRequest, SwapResponse, Curve, signature_amounts,
  proof_amounts,
}
use cashu_spilman_channels.Swap.Completion.{KeepsAmounts}
use cashu_spilman_channels.Bridge.{Cause}
use cashu_spilman_channels.Bridge.Close.{CloseParts}
use cashu_spilman_channels.Bridge.Close.Execute.{Network, World}
use cashu_spilman_channels.Examples.Server.{
  Value, text_value, fields, requested, listed_secrets, output_keyset, packages,
}

abbrev pub made : List BlindSignature → List String → List Proof
made [] secrets = []
made (signature ∷ signatures) [] =
    record {
      amount = signature.amount;
      keyset_id = signature.keyset_id;
      secret = "";
      c = signature.c;
      witness = none;
      dleq = none;
      p2pk_e = none;
    }
    ∷ made signatures []
made (signature ∷ signatures) (secret ∷ rest) =
    record {
      amount = signature.amount;
      keyset_id = signature.keyset_id;
      secret = secret;
      c = signature.c;
      witness = none;
      dleq = some (record { e = "e"; s = "s"; r = "r" });
      p2pk_e = none;
    }
    ∷ made signatures rest

abbrev pub curve : Curve
curve = record {
  blind_message = λ secret r. ok secret;
  rerandomization_tweak = λ r. some r;
  tweak_swap_outputs = λ r outputs. some outputs;
  scalar = λ s. some s;
  add_tweak = λ s t. some s;
  verify_dleq = λ signature key point. ok tt;
  construct_proofs = λ signatures rs secrets keys. ok (made signatures secrets);
  add_signature = λ w s. s;
}

pub made-amounts :
    (signatures : List BlindSignature) (secrets : List String)
    → proof_amounts (made signatures secrets) ≡ signature_amounts signatures
made-amounts [] secrets = refl
made-amounts (s ∷ signatures) [] = ap (λ ns. s.amount ∷ ns) (made-amounts signatures [])
made-amounts (s ∷ signatures) (secret ∷ secrets) =
    ap (λ ns. s.amount ∷ ns) (made-amounts signatures secrets)

pub curve-KeepsAmounts : KeepsAmounts curve
curve-KeepsAmounts = record {
  tweaked = λ r outputs outputs' h. ground (arith, h);
  constructed = λ signatures blindings secrets keys proofs h.
      ground (arith, h, made-amounts signatures secrets);
}

abbrev pub message : ℕ → String → BlindedMessage
message amount secret = record {
  amount = amount;
  keyset_id = "00a1";
  blinded_secret = secret;
  witness = none;
}

abbrev pub signature : ℕ → BlindSignature
signature amount = record { amount = amount; keyset_id = "00a1"; c = "c"; dleq = none }

abbrev pub response : SwapResponse
response = record {
  signatures = signature 1 ∷ signature 2 ∷ signature 2 ∷ signature 4 ∷ signature 4 ∷ [];
  rerandomization_r = none;
}

abbrev pub entry : ℕ → String → String → Value
entry amount secret is_receiver =
    fields (("amount", amount) ∷ ("index", 0) ∷ [])
      (("secret", secret) ∷ ("blinding_factor", "r") ∷ ("is_receiver", is_receiver) ∷ [])

abbrev pub bool_of : Value → Option Bool
bool_of (text_value t) = if str_eq t "yes" then some true else some false
bool_of v = none

abbrev pub request_of : Value → Option SwapRequest
request_of (requested r) = some r
request_of v = none

abbrev pub parts : CloseParts packages
parts = record {
  curve = curve;
  sig_all_message_hash = λ r. "hash";
  stage1_tweak = λ params. ok "tweak";
  stage1_pubkey = λ params. ok "charlie";
  sign_with_tweaked_key = λ secret message tweak. ok "signed";
  stage2_p2pk_e = λ params is_receiver amount index. ok "e";
  stage2_pubkey = λ params amount index. ok "key";
  stage2_tweak = λ params amount index. ok "tweak";
  secret_kind = λ secret. ok (some "P2PK", some "key");
  secret_hash = λ secret. secret;
  request_value = λ r. requested r;
  request_from_value = request_of;
  secrets_value = λ l. listed_secrets;
  keyset_value = λ info. output_keyset;
  keyset_to_string = λ info. ok "keyset";
  values_from_str = λ text. ok (
      entry 1 "s1" "no"
      ∷ entry 2 "r2" "yes"
      ∷ entry 2 "s2" "no"
      ∷ entry 4 "r4" "yes"
      ∷ entry 4 "s4" "no"
      ∷ []);
  as_bool = bool_of;
  response_from_str = λ text. if str_eq text "response" then some response else none;
  response_to_string = λ r. some "response";
  restore_from_str = λ text. none;
  payment_from_str = λ text. ok (record {
    channel_id = "channel";
    balance = 5;
    signature = "good";
    params = none;
    funding_proofs = none;
  });
  secret_key_from_slice = λ bytes. ok "r";
}

abbrev pub network : Network Unit
network = record {
  call_mint_swap = λ url text e. (ok "response", e);
  refresh = λ url keysets e. (ok tt, (keysets, e));
}

abbrev pub no_payment_proof : Cause → Bool
no_payment_proof c = false

abbrev pub world : MemoryStorage → World Unit
world s = record { store = s; outside = tt }
