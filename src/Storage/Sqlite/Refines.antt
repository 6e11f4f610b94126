-- ===== src/Storage/Sqlite/Refines.antt =====
-- What the tables of `SqliteStorage` and the maps of `MemoryStorage` have to tell the same of, and how a write
-- to one channel keeps it.
use cashu_spilman_channels.Prelude.{
  String, false, Option, some, ok, if◌then◌else◌, str_eq, is_some, Map, get, empty, string_eq,
  pair_eq, str_eq_iff, ◌≡◌, refl, subst, inl, inr, arith, Bool-cases,
}
use cashu_spilman_channels.Json.{and_then}
use cashu_spilman_channels.Storage.Records.{
  ChannelFunding, ClosingData, ClosedDataView, KeysetCacheEntry,
}
use cashu_spilman_channels.Storage.{MemoryStorage}
use cashu_spilman_channels.Storage
use cashu_spilman_channels.Storage.Sqlite.{
  Formats, ChannelRow, SqliteStorage, stored_funding, stored_balance, stored_closing, stored_closed,
  state_of, init_schema, reopened,
}

-- Reading what was written gives it back.
pub record RoundTrips (formats : Formats) : Type 0 where
  pub funding :
      (a : ChannelFunding) → formats.funding.from_text (formats.funding.to_text a) ≡ some a
  pub closing : (a : ClosingData) → formats.closing.from_text (formats.closing.to_text a) ≡ some a
  pub closed : (a : ClosedDataView) → formats.closed.from_text (formats.closed.to_text a) ≡ some a
  pub keyset : (a : KeysetCacheEntry) → formats.keyset.from_text (formats.keyset.to_text a) ≡ some a

-- Two stores in memory are the same at a channel.
pub record SameAt (j : String) (m n : MemoryStorage) : Type 0 where
  pub funding : get n.funding j ≡ get m.funding j
  pub balance : get n.balance j ≡ get m.balance j
  pub closing : get n.closing j ≡ get m.closing j
  pub closed : get n.closed j ≡ get m.closed j
  pub journal : get n.close_journals j ≡ get m.close_journals j

module _ (formats : Formats) where
  -- A row and a journal tell of a channel what the maps do.
  pub record Tells (row : Option ChannelRow) (saved : Option String) (id : String)
      (m : MemoryStorage) : Type 0 where
    pub known : is_some row ≡ is_some (get m.funding id)
    pub state : state_of formats row ≡ ok (Storage.get_state m id)
    pub funding : stored_funding formats row ≡ get m.funding id
    pub balance : stored_balance formats row ≡ get m.balance id
    pub closing : stored_closing formats row ≡ get m.closing id
    pub closed : stored_closed formats row ≡ get m.closed id
    pub journal : saved ≡ get m.close_journals id

  pub record Agree (s : SqliteStorage) (m : MemoryStorage) : Type 0 where
    pub channels :
        (id : String) → Tells (get s.database.channels id) (get s.database.close_journals id) id m
    pub keysets :
        (mint id : String)
        → and_then (get s.database.keysets (mint, id)) formats.keyset.from_text
          ≡ get m.keysets (mint, id)

  pub Tells-SameAt :
      (row : Option ChannelRow) (journal : Option String) (j : String) (m n : MemoryStorage)
      → SameAt j m n
      → Tells row journal j m
      → Tells row journal j n
  unfolding Storage.get_state
  Tells-SameAt row journal j m n same h = record {
    known = rw same.funding h.known;
    state = rw same.funding (rw same.closing (rw same.closed h.state));
    funding = rw same.funding h.funding;
    balance = rw same.balance h.balance;
    closing = rw same.closing h.closing;
    closed = rw same.closed h.closed;
    journal = rw same.journal h.journal;
  }

  -- A write to the row and the journal of one channel.
  pub written :
      (id : String) (row : ChannelRow) (journal : Option String) (s t : SqliteStorage)
      (m n : MemoryStorage)
      → ((j : String)
          → get t.database.channels j
            ≡ (if str_eq id j then some row else get s.database.channels j))
      → ((j : String)
          → get t.database.close_journals j
            ≡ (if str_eq id j then journal else get s.database.close_journals j))
      → t.database.keysets ≡ s.database.keysets
      → n.keysets ≡ m.keysets
      → ((j : String) → str_eq id j ≡ false → SameAt j m n)
      → Tells (some row) journal id n
      → Agree s m
      → Agree t n
  written id row journal s t m n rows journals ks kn others here agree = record {
    channels = λ j. elim (Bool-cases (str_eq id j)) [
      | inl same ↦ rw (rows j) (
          rw (journals j) (
            rw same (
              subst (λ k. Tells (some row) journal k n) (ground (arith, same, str_eq_iff id j))
                here)))
      | inr other ↦
          rw (rows j) (
            rw (journals j) (rw other (Tells-SameAt _ _ j m n (others j other) (agree.channels j))))
    ];
    keysets = λ mint k. rw ks (rw kn (agree.keysets mint k));
  }

  -- The journals as they are.
  pub unwritten :
      {V : Type 0} (id : String) (m : Map String V) (j : String)
      → get m j ≡ (if str_eq id j then get m id else get m j)
  unwritten id m j = elim (Bool-cases (str_eq id j)) [
    | inl same ↦ rw same (ground (arith, same, str_eq_iff id j))
    | inr other ↦ rw other refl
  ]

  -- Fresh stores agree.
  pub new-Agree : Agree (reopened init_schema) Storage.new
  unfolding init_schema Storage.new Storage.get_state get empty state_of
  new-Agree = record {
    channels = λ id. record {
      known = refl;
      state = refl;
      funding = refl;
      balance = refl;
      closing = refl;
      closed = refl;
      journal = refl;
    };
    keysets = λ mint id. refl;
  }
