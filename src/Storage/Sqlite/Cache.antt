-- ===== src/Storage/Sqlite/Cache.antt =====
-- The funding cache of `SqliteStorage`: what `get_funding` answers, and the writes under which the cache stays
-- in step with the table.
use cashu_spilman_channels.Prelude.{
  String, true, Option, none, some, str_eq, is_some, get, insert, get-insert, get-empty, string_eq,
  pair_eq, str_eq_iff, ◌≡◌, refl, sym, ◌∙◌, ap, ◌⊎◌, inl, inr, arith, Bool-cases, Option-cases,
}
use cashu_spilman_channels.Storage.Records.{ChannelFunding}
use cashu_spilman_channels.Storage.Operations.{
  Operation, saves, compares, freezes, advances, updates, increments, marks_closing, marks_closed,
  sets_keyset,
}
use cashu_spilman_channels.Storage.Sqlite.{
  Formats, ChannelRow, SqliteStorage, Database, stored_funding, get_funding, reopened,
}
use cashu_spilman_channels.Storage.Sqlite.Writes.{changed}

-- The funding text of a channel's row.
abbrev pub text_of : Option ChannelRow → Option String
text_of none = none
text_of (some row) = some row.funding_json

-- No funding has changed.
pub record SameFunding (s t : SqliteStorage) : Type 0 where
  pub cache : t.funding_cache ≡ s.funding_cache
  pub texts :
      (id : String) → text_of (get t.database.channels id) ≡ text_of (get s.database.channels id)

module _ (formats : Formats) where
  -- What is cached is what the table has.
  abbrev pub Coherent : SqliteStorage → Type 0
  Coherent s =
      (id : String) (f : ChannelFunding)
      → get s.funding_cache id ≡ some f
      → stored_funding formats (get s.database.channels id) ≡ some f

  -- A funding is saved for a channel that has none, whose funding is cached, or that has the same one.
  abbrev pub Fits : SqliteStorage → Operation → Type 0
  Fits s (saves id funding) =
      (get s.database.channels id ≡ none)
      ⊎ ((is_some (get s.funding_cache id) ≡ true)
          ⊎ (stored_funding formats (get s.database.channels id) ≡ some funding))
  Fits s _ = Unit

  -- What later saves find again.
  pub record Grows (s t : SqliteStorage) : Type 0 where
    pub fresh :
        (id : String)
        → get s.database.channels id ≡ none
        → (get t.database.channels id ≡ none) ⊎ (is_some (get t.funding_cache id) ≡ true)
    pub cached :
        (id : String)
        → is_some (get s.funding_cache id) ≡ true
        → is_some (get t.funding_cache id) ≡ true
    pub kept :
        (id : String) (f : ChannelFunding)
        → stored_funding formats (get s.database.channels id) ≡ some f
        → stored_funding formats (get t.database.channels id) ≡ some f

  pub Fits-Grows : (s t : SqliteStorage) → Grows s t → (op : Operation) → Fits s op → Fits t op
  Fits-Grows s t g (saves id f) (inl new) = elim (g.fresh id new) [
    | inl still ↦ inl still
    | inr cached ↦ inr (inl cached)
  ]
  Fits-Grows s t g (saves id f) (inr (inl cached)) = inr (inl (g.cached id cached))
  Fits-Grows s t g (saves id f) (inr (inr same)) = inr (inr (g.kept id f same))
  Fits-Grows s t g (compares id e q) h = tt
  Fits-Grows s t g (freezes id e d j) h = tt
  Fits-Grows s t g (advances id e j c) h = tt
  Fits-Grows s t g (updates id q) h = tt
  Fits-Grows s t g (increments id u) h = tt
  Fits-Grows s t g (marks_closing id d) h = tt
  Fits-Grows s t g (marks_closed id v) h = tt
  Fits-Grows s t g (sets_keyset m k e) h = tt

  pub reopened-Coherent : (database : Database) → Coherent (reopened database)
  reopened-Coherent database id f h = absurd (ground (arith, h, get-empty {V = ChannelFunding} id))

  -- With a coherent cache `get_funding` answers what the table has.
  pub get_funding-stored :
      (id : String) (s : SqliteStorage)
      → Coherent s
      → (get_funding formats id s).1 ≡ stored_funding formats (get s.database.channels id)
  unfolding get_funding
  get_funding-stored id s coherent = elim (Option-cases (get s.funding_cache id)) [
    | inl miss ↦ elim (Option-cases (stored_funding formats (get s.database.channels id))) [
      | inl absent ↦ rw miss (rw absent refl)
      | inr there ↦ rw miss (rw there.1 refl)
    ]
    | inr hit ↦ rw hit.1 (sym (coherent id hit.0 hit.1))
  ]

  texts-stored :
      (o q : Option ChannelRow) (f : ChannelFunding)
      → text_of q ≡ text_of o
      → stored_funding formats o ≡ some f
      → stored_funding formats q ≡ some f
  texts-stored none q f e h = absurd (ground (arith, h))
  texts-stored (some row) none f e h = absurd (ground (arith, e))
  texts-stored (some row) (some other) f e h =
      let same : other.funding_json ≡ row.funding_json = ground (arith, e) in rw same h

  texts-none : (o q : Option ChannelRow) → text_of q ≡ text_of o → o ≡ none → q ≡ none
  texts-none o none e h = refl
  texts-none none (some row) e h = absurd (ground (arith, e))
  texts-none (some other) (some row) e h = absurd (ground (arith, h))

  pub SameFunding-Coherent : (s t : SqliteStorage) → SameFunding s t → Coherent s → Coherent t
  SameFunding-Coherent s t same coherent id f h =
      texts-stored _ _ f (same.texts id) (coherent id f (ap (λ m. get m id) (sym same.cache) ∙ h))

  pub SameFunding-Grows : (s t : SqliteStorage) → SameFunding s t → Grows s t
  SameFunding-Grows s t same = record {
    fresh = λ id h. inl (texts-none _ _ (same.texts id) h);
    cached = λ id h. ap (λ m. is_some (get m id)) same.cache ∙ h;
    kept = λ id f h. texts-stored _ _ f (same.texts id) h;
  }

  abbrev pub caching : String → ChannelFunding → SqliteStorage → SqliteStorage
  caching id f s = record s { funding_cache = insert s.funding_cache id f }

  pub caching-Coherent :
      (id : String) (g : ChannelFunding) (s : SqliteStorage)
      → stored_funding formats (get s.database.channels id) ≡ some g
      → Coherent s
      → Coherent (caching id g s)
  caching-Coherent id g s stored coherent j f h = elim (Bool-cases (str_eq id j)) [
    | inl same ↦
        let here : id ≡ j = ground (arith, same, str_eq_iff id j) in
        let own : g ≡ f = ground (arith, h, same, get-insert s.funding_cache id j g) in
        ap (λ k. stored_funding formats (get s.database.channels k)) (sym here)
        ∙ stored
        ∙ ap (λ a. some a) own
    | inr other ↦ coherent j f (ground (arith, h, other, get-insert s.funding_cache id j g))
  ]

  pub caching-cached :
      (id : String) (g : ChannelFunding) (s : SqliteStorage) (j : String)
      → is_some (get s.funding_cache j) ≡ true
      → is_some (get (caching id g s).funding_cache j) ≡ true
  caching-cached id g s j h = ground (arith, h, get-insert s.funding_cache id j g)

  -- Looking up a funding fills the cache.
  pub looked_up-Coherent :
      (id : String) (s : SqliteStorage) → Coherent s → Coherent (get_funding formats id s).0
  unfolding get_funding
  looked_up-Coherent id s coherent = elim (Option-cases (get s.funding_cache id)) [
    | inl miss ↦ elim (Option-cases (stored_funding formats (get s.database.channels id))) [
      | inl absent ↦ rw miss (rw absent coherent)
      | inr there ↦ rw miss (rw there.1 (caching-Coherent id there.0 s there.1 coherent))
    ]
    | inr hit ↦ rw hit.1 coherent
  ]

  pub Grows-refl : (s : SqliteStorage) → Grows s s
  Grows-refl s = record { fresh = λ id h. inl h; cached = λ id h. h; kept = λ id f h. h }

  pub looked_up-Grows : (id : String) (s : SqliteStorage) → Grows s (get_funding formats id s).0
  unfolding get_funding
  looked_up-Grows id s = elim (Option-cases (get s.funding_cache id)) [
    | inl miss ↦ elim (Option-cases (stored_funding formats (get s.database.channels id))) [
      | inl absent ↦ rw miss (rw absent (Grows-refl s))
      | inr there ↦ rw miss (
          rw there.1 (record {
            fresh = λ j h. inl h;
            cached = caching-cached id there.0 s;
            kept = λ j f h. h;
          }))
    ]
    | inr hit ↦ rw hit.1 (Grows-refl s)
  ]

  pub looked_up-database :
      (id : String) (s : SqliteStorage) → (get_funding formats id s).0.database ≡ s.database
  unfolding get_funding
  looked_up-database id s = elim (Option-cases (get s.funding_cache id)) [
    | inl miss ↦ elim (Option-cases (stored_funding formats (get s.database.channels id))) [
      | inl absent ↦ rw miss (rw absent refl)
      | inr there ↦ rw miss (rw there.1 refl)
    ]
    | inr hit ↦ rw hit.1 refl
  ]

  -- A write of a row that keeps its funding.
  pub row_kept :
      (id : String) (row changed : ChannelRow) (s t : SqliteStorage)
      → get s.database.channels id ≡ some row
      → changed.funding_json ≡ row.funding_json
      → t.database.channels ≡ insert s.database.channels id changed
      → t.funding_cache ≡ s.funding_cache
      → SameFunding s t
  row_kept id row changed s t found text rows cache = record {
    cache = cache;
    texts = λ j. elim (Bool-cases (str_eq id j)) [
      | inl same ↦
          let here : id ≡ j = ground (arith, same, str_eq_iff id j) in
          let at_t : get t.database.channels j ≡ some changed =
            ground (arith, rows, same, get-insert s.database.channels id j changed) in
          let at_s : get s.database.channels j ≡ some row =
            ap (λ k. get s.database.channels k) (sym here) ∙ found in
          rw at_t (rw at_s (ap (λ x. some x) text))
      | inr other ↦
          ap text_of (ground (arith, rows, other, get-insert s.database.channels id j changed))
    ];
  }
