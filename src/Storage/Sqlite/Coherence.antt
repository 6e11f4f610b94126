-- ===== src/Storage/Sqlite/Coherence.antt =====
-- Every write of `SqliteStorage` keeps the funding cache in step with the table.
use cashu_spilman_channels.Prelude.{
  String, false, not, ◌||◌, Option, none, some, ok, ok_or, leb, ◌!=◌, str_eq, is_some, get, insert,
  get-insert, reject_if, string_eq, pair_eq, str_eq_iff, ◌≡◌, refl, ◌∙◌, ap, subst, inl, inr, arith,
  Bool-cases, Option-cases,
}
use cashu_spilman_channels.Storage.Records.{
  ChannelFunding, PaymentProof, ClosingData, ClosedDataView, KeysetCacheEntry,
}
use cashu_spilman_channels.Storage.Operations.{Operation, saves}
use cashu_spilman_channels.Channel.Verification.Secrets.{Result->>=-ok}
use cashu_spilman_channels.Storage.Sqlite.{
  Formats, ChannelRow, SqliteStorage, SqliteError, stored_funding, update_row, closing_row,
  closed_row,
}
use cashu_spilman_channels.Storage.Sqlite
use cashu_spilman_channels.Storage.Sqlite.Refines.{RoundTrips}
use cashu_spilman_channels.Storage.Sqlite.Steps.{
  Step, compared, frozen, advanced, saved, updated, marked_closing, marked_closed, keyset_set,
}
use cashu_spilman_channels.Storage.Sqlite.Writes.{changed, paying}
use cashu_spilman_channels.Storage.Sqlite.Cache.{
  SameFunding, Coherent, Fits, Grows, SameFunding-Coherent, SameFunding-Grows, row_kept, caching,
  caching-Coherent, caching-cached, Grows-refl,
}

-- The cache after a step, and what later saves find.
pub record StaysCoherent (formats : Formats) (s t : SqliteStorage) : Type 0 where
  pub coherent : Coherent formats t
  pub grows : Grows formats s t

module _ (formats : Formats) (laws : RoundTrips formats) where
  same_channels :
      (s t : SqliteStorage)
      → t.database.channels ≡ s.database.channels
      → t.funding_cache ≡ s.funding_cache
      → SameFunding s t
  same_channels s t rows cache = record { cache = cache; texts = λ id. rw rows refl }

  compare_payment-SameFunding :
      (id : String) (expected payment : PaymentProof) (s t : SqliteStorage)
      → Sqlite.compare_payment id expected payment s ≡ ok t
      → SameFunding s t
  unfolding Sqlite.compare_payment
  compare_payment-SameFunding id expected payment s t h =
      let (_, _, h1) = Result->>=-ok (reject_if (leb payment.balance expected.balance) _) _ h in
      let (_, _, h2) = Result->>=-ok (Sqlite.to_i64 payment.balance _) _ h1 in
      let (_, _, h3) = Result->>=-ok (Sqlite.to_i64 expected.balance _) _ h2 in
      let (row, found, _, done) = changed formats laws _ _ id s _ _ h3 in
      row_kept formats id row (paying formats laws payment row) s t found refl
        (ground (arith, done)) (ground (arith, done))

  freeze_close-SameFunding :
      (id : String) (expected : PaymentProof) (closing_data : ClosingData) (journal : String)
      (s t : SqliteStorage)
      → Sqlite.freeze_close formats id expected closing_data journal s ≡ ok t
      → SameFunding s t
  unfolding Sqlite.freeze_close
  freeze_close-SameFunding id expected closing_data journal s t h =
      let (_, _, h1) =
        Result->>=-ok
          (reject_if
            ((closing_data.balance != expected.balance)
              || not (str_eq closing_data.signature expected.signature))
            _)
          _ h in
      let (_, _, h2) = Result->>=-ok (Sqlite.to_i64 expected.balance _) _ h1 in
      let (row, found, _, h3) = changed formats laws _ _ id s _ _ h2 in
      let (_, _, done) =
        Result->>=-ok (reject_if (is_some (Sqlite.get_close_journal id s)) _) _ h3 in
      row_kept formats id row (closing_row formats closing_data row) s t found refl
        (ground (arith, done)) (ground (arith, done))

  complete_row-SameFunding :
      (id : String) (completed : Option ClosedDataView) (s t : SqliteStorage)
      → Sqlite.complete_row formats completed id s ≡ ok t
      → SameFunding s t
  complete_row-SameFunding id none s t h = same_channels s t (ground (arith, h)) (ground (arith, h))
  complete_row-SameFunding id (some view) s t h =
      let (row, found, _, done) = changed formats laws _ _ id s _ _ h in
      row_kept formats id row (closed_row formats view row) s t found refl (ground (arith, done))
        (ground (arith, done))

  advance_close-SameFunding :
      (id expected journal : String) (completed : Option ClosedDataView) (s t : SqliteStorage)
      → Sqlite.advance_close formats id expected journal completed s ≡ ok t
      → SameFunding s t
  unfolding Sqlite.advance_close
  advance_close-SameFunding id expected journal completed s t h =
      let (_, _, done) =
        Result->>=-ok
          (reject_if
            (not (Sqlite.text_is formats (Sqlite.get_close_journal id s) expected)
              || not
                  (Sqlite.row_is formats (Sqlite.is_closing formats) (get s.database.channels id)))
            _)
          _ h in
      let written = Sqlite.with_journals s (insert s.database.close_journals id journal) in
      let same = complete_row-SameFunding id completed written t done in
      record { cache = same.cache; texts = same.texts }

  update_balance-SameFunding :
      (id : String) (payment : PaymentProof) (s t : SqliteStorage)
      → Sqlite.update_balance formats id payment s ≡ ok t
      → SameFunding s t
  unfolding Sqlite.update_balance update_row
  update_balance-SameFunding id payment s t h =
      let (_, _, h1) = Result->>=-ok (Sqlite.to_i64 payment.balance _) _ h in
      let (row, found, h2) = Result->>=-ok (ok_or (get s.database.channels id) _) _ h1 in
      let (_, _, done) = Result->>=-ok (reject_if (not (str_eq row.state "Open")) _) _ h2 in
      let at_id : get s.database.channels id ≡ some row = ground (arith, found) in
      elim (Bool-cases (Sqlite.takes formats payment row)) [
        | inl taken ↦
            row_kept formats id row
              (record row { balance = payment.balance; signature = payment.signature }) s t at_id
              refl (ground (arith, done, at_id, taken)) (ground (arith, done))
        | inr left ↦ same_channels s t (ground (arith, done, at_id, left)) (ground (arith, done))
      ]

  mark_closing-SameFunding :
      (id : String) (closing_data : ClosingData) (s t : SqliteStorage)
      → Sqlite.mark_closing formats id closing_data s ≡ ok t
      → SameFunding s t
  unfolding Sqlite.mark_closing
  mark_closing-SameFunding id closing_data s t h =
      let (row, found, _, done) = changed formats laws _ _ id s _ _ h in
      row_kept formats id row (closing_row formats closing_data row) s t found refl
        (ground (arith, done)) (ground (arith, done))

  mark_closed-SameFunding :
      (id : String) (view : ClosedDataView) (s t : SqliteStorage)
      → Sqlite.mark_closed formats id view s ≡ ok t
      → SameFunding s t
  unfolding Sqlite.mark_closed
  mark_closed-SameFunding id view s t h =
      let (row, found, _, done) = changed formats laws _ _ id s _ _ h in
      row_kept formats id row (closed_row formats view row) s t found refl (ground (arith, done))
        (ground (arith, done))

  set_keyset-SameFunding :
      (mint id : String) (entry : KeysetCacheEntry) (s t : SqliteStorage)
      → Sqlite.set_keyset formats mint id entry s ≡ ok t
      → SameFunding s t
  unfolding Sqlite.set_keyset
  set_keyset-SameFunding mint id entry s t h =
      same_channels s t (ground (arith, h)) (ground (arith, h))

  stays : (s t : SqliteStorage) → Coherent formats s → SameFunding s t → StaysCoherent formats s t
  stays s t coherent same = record {
    coherent = SameFunding-Coherent formats s t same coherent;
    grows = SameFunding-Grows formats s t same;
  }

  -- The tables after the funding of a channel that had no row.
  abbrev with_row : String → ChannelFunding → SqliteStorage → SqliteStorage
  with_row id funding s =
      Sqlite.with_channels s (insert s.database.channels id (Sqlite.new_row formats funding))

  uncached :
      (id : String) (s : SqliteStorage)
      → Coherent formats s
      → get s.database.channels id ≡ none
      → get s.funding_cache id ≡ none
  uncached id s coherent absent = elim (Option-cases (get s.funding_cache id)) [
    | inl miss ↦ miss
    | inr hit ↦ absurd (ground (arith, coherent id hit.0 hit.1, absent))
  ]

  with_row-other :
      (id : String) (funding : ChannelFunding) (s : SqliteStorage) (j : String)
      → str_eq id j ≡ false
      → get (with_row id funding s).database.channels j ≡ get s.database.channels j
  with_row-other id funding s j other =
      ground (arith, other, get-insert s.database.channels id j (Sqlite.new_row formats funding))

  with_row-stored :
      (id : String) (funding : ChannelFunding) (s : SqliteStorage)
      → stored_funding formats (get (with_row id funding s).database.channels id) ≡ some funding
  with_row-stored id funding s = ground (
    arith,
    get-insert s.database.channels id id (Sqlite.new_row formats funding),
    str_eq_iff id id,
    laws.funding funding,
  )

  with_row-Coherent :
      (id : String) (funding : ChannelFunding) (s : SqliteStorage)
      → Coherent formats s
      → get s.database.channels id ≡ none
      → Coherent formats (with_row id funding s)
  with_row-Coherent id funding s coherent absent j f h = elim (Bool-cases (str_eq id j)) [
    | inl same ↦
        let here : id ≡ j = ground (arith, same, str_eq_iff id j) in
        let miss : get s.funding_cache j ≡ none =
          subst (λ k. get s.funding_cache k ≡ none) here (uncached id s coherent absent) in
        absurd (ground (arith, miss, h))
    | inr other ↦ ap (stored_funding formats) (with_row-other id funding s j other) ∙ coherent j f h
  ]

  new-Grows :
      (id : String) (funding : ChannelFunding) (s : SqliteStorage)
      → get s.database.channels id ≡ none
      → Grows formats s (caching formats id funding (with_row id funding s))
  new-Grows id funding s absent = record {
    fresh = λ j h. elim (Bool-cases (str_eq id j)) [
      | inl same ↦ inr (ground (arith, same, get-insert s.funding_cache id j funding))
      | inr other ↦ inl (with_row-other id funding s j other ∙ h)
    ];
    cached = caching-cached formats id funding s;
    kept = λ j f h. elim (Bool-cases (str_eq id j)) [
      | inl same ↦
          let here : id ≡ j = ground (arith, same, str_eq_iff id j) in
          let gone : get s.database.channels j ≡ none =
            subst (λ k. get s.database.channels k ≡ none) here absent in
          absurd (ground (arith, gone, h))
      | inr other ↦ ap (stored_funding formats) (with_row-other id funding s j other) ∙ h
    ];
  }

  old_row :
      (id : String) (funding : ChannelFunding) (s : SqliteStorage)
      → Coherent formats s
      → stored_funding formats (get s.database.channels id) ≡ some funding
      → StaysCoherent formats s (caching formats id funding s)
  old_row id funding s coherent same = record {
    coherent = caching-Coherent formats id funding s same coherent;
    grows = record {
      fresh = λ j h. inl h;
      cached = caching-cached formats id funding s;
      kept = λ j f h. h;
    };
  }

  save_funding-StaysCoherent :
      (id : String) (funding : ChannelFunding) (s t : SqliteStorage)
      → Coherent formats s
      → Fits formats s (saves id funding)
      → Sqlite.save_funding formats id funding s ≡ ok t
      → StaysCoherent formats s t
  unfolding Sqlite.save_funding
  save_funding-StaysCoherent id funding s t coherent fits h =
      elim (Option-cases (get s.database.channels id)) [
        | inl absent ↦
            let miss = uncached id s coherent absent in
            subst (StaysCoherent formats s) (ground (arith, h, absent, miss)) (record {
              coherent =
                  caching-Coherent formats id funding (with_row id funding s)
                    (with_row-stored id funding s) (with_row-Coherent id funding s coherent absent);
              grows = new-Grows id funding s absent;
            })
        | inr present ↦ elim (Option-cases (get s.funding_cache id)) [
          | inr hit ↦
              subst (StaysCoherent formats s) (ground (arith, h, present.1, hit.1))
                (record { coherent = coherent; grows = Grows-refl formats s })
          | inl miss ↦ elim fits [
            | inl absent ↦ absurd (ground (arith, absent, present.1))
            | inr (inl cached) ↦ absurd (ground (arith, miss, cached))
            | inr (inr same) ↦
                subst (StaysCoherent formats s) (ground (arith, h, present.1, miss))
                  (old_row id funding s coherent same)
          ]
        ]
      ]

  pub Step-StaysCoherent :
      {op : Operation} {s t : SqliteStorage}
      → Coherent formats s
      → Fits formats s op
      → Step formats op s t
      → StaysCoherent formats s t
  Step-StaysCoherent c f (compared id expected payment s t a b h) =
      stays s t c (compare_payment-SameFunding id expected payment s t h)
  Step-StaysCoherent c f (frozen id expected closing_data journal s t a h) =
      stays s t c (freeze_close-SameFunding id expected closing_data journal s t h)
  Step-StaysCoherent c f (advanced id expected journal completed s t h) =
      stays s t c (advance_close-SameFunding id expected journal completed s t h)
  Step-StaysCoherent c f (saved id funding s t h) = save_funding-StaysCoherent id funding s t c f h
  Step-StaysCoherent c f (updated id payment s t a h) =
      stays s t c (update_balance-SameFunding id payment s t h)
  Step-StaysCoherent c f (marked_closing id closing_data s t h) =
      stays s t c (mark_closing-SameFunding id closing_data s t h)
  Step-StaysCoherent c f (marked_closed id view s t h) =
      stays s t c (mark_closed-SameFunding id view s t h)
  Step-StaysCoherent c f (keyset_set mint id entry s t h) =
      stays s t c (set_keyset-SameFunding mint id entry s t h)
