-- ===== src/Mint/Evidence.antt =====
-- When an answer permits another attempt.
use cashu_spilman_channels.Prelude.{
  ℕ, String, true, ◌&&◌, Option, some, Result, ok, err, ◌≡◌, ◌⊎◌, refl, arith, inl, inr,
  Option-cases, Result-cases, Bool-cases, leb, ltb, ap, ◌∙◌,
}
use cashu_spilman_channels.Mint.{
  MintResponse, MintRequestError, permits_keyset_retry, into_result, from_callback, checked,
}

module _ (nut00 : String → Option (ℕ × String)) (envelope : String → Option MintResponse) where
  -- The callback gave a complete response of status 400 with a NUT-00 body of one of the two keyset codes.
  pub record KeysetRejection (wire : String) : Type 0 where
    pub body : String
    pub received : envelope wire ≡ some (record { status = 400; body = body })
    pub code : ℕ
    pub detail : String
    pub decoded : nut00 body ≡ some (code, detail)
    pub stale : (code ≡ 12001) ⊎ (code ≡ 12002)

  into_result-retry :
      (r : MintResponse) (e : MintRequestError)
      → into_result nut00 envelope r ≡ err e
      → permits_keyset_retry e ≡ true
      → (code : ℕ) × (detail : String) × (r.status ≡ 400)
        × (nut00 r.body ≡ some (code, detail))
        × ((code ≡ 12001) ⊎ (code ≡ 12002))
  unfolding into_result permits_keyset_retry
  into_result-retry r e h k = elim (Option-cases (nut00 r.body)) [
    | inl undecoded ↦ absurd (ground arith)
    | inr decoded ↦ let (fields, d) = decoded in (fields.0, fields.1, ground arith, d, ground arith)
  ]

  response-ext :
      (r : MintResponse)
      → r.status ≡ 400
      → ◌≡◌ {A = MintResponse} r (record { status = 400; body = r.body })
  response-ext r h i = record { status = h i; body = r.body }

  -- A failed callback permits a keyset retry only on evidence: it delivered a complete response of HTTP
  -- status 400 whose body is a NUT-00 error of code 12001 or 12002. Transport failures, other statuses,
  -- undecodable bodies and all other codes never do, whatever their text.
  pub from_callback-KeysetRejection :
      (result : Result String String) (e : MintRequestError)
      → from_callback nut00 envelope result ≡ err e
      → permits_keyset_retry e ≡ true
      → (wire : String) × (result ≡ ok wire) × KeysetRejection wire
  unfolding from_callback checked
  from_callback-KeysetRejection (err message) e h k =
      absurd (unfold permits_keyset_retry in ground arith)
  from_callback-KeysetRejection (ok wire) e h k = elim (Option-cases (envelope wire)) [
    | inl undecoded ↦ absurd (unfold permits_keyset_retry in ground arith)
    | inr found ↦
        let (r, d) = found in
        elim (Result-cases (into_result nut00 envelope r)) [
          | inl fine ↦ absurd (unfold permits_keyset_retry in ground arith)
          | inr failed ↦
              let (x, f) = failed in
              elim (Bool-cases (leb 100 r.status && ltb r.status 600)) [
                | inr outside ↦ absurd (unfold permits_keyset_retry in ground arith)
                | inl inside ↦
                    let same : x ≡ e = ground arith in
                    let (code, detail, status, decoded, stale) =
                      into_result-retry r x f (ap permits_keyset_retry same ∙ k) in
                    (
                      wire,
                      refl,
                      record {
                        body = r.body;
                        received = d ∙ ap some (response-ext r status);
                        code = code;
                        detail = detail;
                        decoded = decoded;
                        stale = stale;
                      },
                    )
              ]
        ]
  ]
