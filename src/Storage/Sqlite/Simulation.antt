-- ===== src/Storage/Sqlite/Simulation.antt =====
-- `SqliteStorage` refines `MemoryStorage`: what succeeds on the tables succeeds on the maps, and they go on
-- agreeing.
use cashu_spilman_channels.Prelude.{
  String, All, All-map, List, [], ◌∷◌, Result, ok, ◌>>=◌, string_eq, pair_eq, ◌≡◌, refl, ap, ◌∙◌,
}
use cashu_spilman_channels.Storage.{MemoryStorage, StorageError}
use cashu_spilman_channels.Storage.Operations.{Operation, apply}
use cashu_spilman_channels.Storage
use cashu_spilman_channels.Storage.Sqlite.{Formats, SqliteStorage}
use cashu_spilman_channels.Storage.Sqlite
use cashu_spilman_channels.Storage.Sqlite.Cache.{
  Coherent, Fits, Grows, Fits-Grows, get_funding-stored, looked_up-Coherent, looked_up-Grows,
  looked_up-database,
}
use cashu_spilman_channels.Storage.Sqlite.Coherence.{Step-StaysCoherent}
use cashu_spilman_channels.Storage.Sqlite.Refines.{RoundTrips, Agree}
use cashu_spilman_channels.Storage.Sqlite.Steps.{
  Step, compared, frozen, advanced, saved, updated, marked_closing, marked_closed, keyset_set,
  Simulates,
}
use cashu_spilman_channels.Storage.Sqlite.Payments.{
  compare_payment-Simulates, update_balance-Simulates, set_keyset-Simulates, save_funding-Simulates,
  Agree-database,
}
use cashu_spilman_channels.Storage.Sqlite.Closes.{
  mark_closing-Simulates, mark_closed-Simulates, freeze_close-Simulates, advance_close-Simulates,
}

-- A history of successful writes, and of lookups of a funding, which fill the cache.
pub data Steps (formats : Formats) : List Operation → SqliteStorage → SqliteStorage → Type 0 where
  ended : (s : SqliteStorage) → Steps formats [] s s
  followed :
      (op : Operation) (ops : List Operation) (s t u : SqliteStorage)
      → Step formats op s t
      → Steps formats ops t u
      → Steps formats (op ∷ ops) s u
  looked_up :
      (id : String) (ops : List Operation) (s u : SqliteStorage)
      → Steps formats ops (Sqlite.get_funding formats id s).0 u
      → Steps formats ops s u

-- The operations one after the other, each of which has to succeed.
abbrev pub apply_all : List Operation → MemoryStorage → Result StorageError MemoryStorage
apply_all [] m = ok m
apply_all (op ∷ ops) m = apply op m >>= apply_all ops

-- Every read of the database answers what the store in memory answers, the funding from the cache first.
pub record Serves (formats : Formats) (s : SqliteStorage) (m : MemoryStorage) : Type 0 where
  pub state : (id : String) → Sqlite.get_state formats s id ≡ ok (Storage.get_state m id)
  pub funding : (id : String) → (Sqlite.get_funding formats id s).1 ≡ Storage.get_funding id m
  pub balance : (id : String) → Sqlite.get_balance formats id s ≡ Storage.get_balance id m
  pub closing : (id : String) → Sqlite.get_closing_data formats id s ≡ Storage.get_closing_data id m
  pub closed : (id : String) → Sqlite.get_closed_data formats id s ≡ Storage.get_closed_data id m
  pub journal : (id : String) → Sqlite.get_close_journal id s ≡ Storage.get_close_journal id m
  pub keyset :
      (mint id : String) → Sqlite.get_keyset formats mint id s ≡ Storage.get_keyset mint id m

pub record Simulated (formats : Formats) (ops : List Operation) (t : SqliteStorage)
    (m : MemoryStorage) : Type 0 where
  pub next : MemoryStorage
  pub applied : apply_all ops m ≡ ok next
  pub agree : Agree formats t next
  pub coherent : Coherent formats t
  pub serves : Serves formats t next

module _ (formats : Formats) (laws : RoundTrips formats) where
  Step-Simulates :
      {op : Operation} {s t : SqliteStorage} (m : MemoryStorage)
      → Step formats op s t
      → Agree formats s m
      → Simulates formats op t m
  Step-Simulates m (compared id expected payment s t a b h) agree =
      compare_payment-Simulates formats laws id expected payment s t m a b agree h
  Step-Simulates m (frozen id expected closing_data journal s t a h) agree =
      freeze_close-Simulates formats laws id expected closing_data journal s t m a agree h
  Step-Simulates m (advanced id expected journal completed s t h) agree =
      advance_close-Simulates formats laws id expected journal completed s t m agree h
  Step-Simulates m (saved id funding s t h) agree =
      save_funding-Simulates formats laws id funding s t m agree h
  Step-Simulates m (updated id payment s t a h) agree =
      update_balance-Simulates formats laws id payment s t m a agree h
  Step-Simulates m (marked_closing id closing_data s t h) agree =
      mark_closing-Simulates formats laws id closing_data s t m agree h
  Step-Simulates m (marked_closed id view s t h) agree =
      mark_closed-Simulates formats laws id view s t m agree h
  Step-Simulates m (keyset_set mint id entry s t h) agree =
      set_keyset-Simulates formats laws mint id entry s t m agree h

  Agree-Serves :
      (s : SqliteStorage) (m : MemoryStorage)
      → Agree formats s m
      → Coherent formats s
      → Serves formats s m
  unfolding Sqlite.get_state
  Agree-Serves s m agree coherent = record {
    state = λ id. (agree.channels id).state;
    funding = λ id. get_funding-stored formats id s coherent ∙ (agree.channels id).funding;
    balance = λ id. (agree.channels id).balance;
    closing = λ id. (agree.channels id).closing;
    closed = λ id. (agree.channels id).closed;
    journal = λ id. (agree.channels id).journal;
    keyset = λ mint id. agree.keysets mint id;
  }

  All-Fits :
      (s t : SqliteStorage) (ops : List Operation)
      → Grows formats s t
      → All (Fits formats s) ops
      → All (Fits formats t) ops
  All-Fits s t ops g h = All-map (Fits formats s) (Fits formats t) ops (Fits-Grows formats s t g) h

  -- `SqliteStorage` refines `MemoryStorage`: whatever history of fundings, payments, closes and keysets
  -- succeeds on the tables, with lookups of fundings between the writes, succeeds on maps that agree with
  -- them; and after it every read of the database, of a channel's state, funding (from the cache first),
  -- payment, closing and closed data and close journal, and of a keyset, answers what the maps answer. Reading
  -- a stored record gives back what was written, no payment has the empty signature, and what is cached at
  -- first is what the table has. Each funding that is saved is for a channel that at first has no row or has
  -- its funding in the cache, or is the one in the row: after a reopen, saving another funding for a channel
  -- whose funding has not been looked up is left out.
  pub Steps-Simulated :
      {ops : List Operation} {s t : SqliteStorage} (m : MemoryStorage)
      → Coherent formats s
      → All (Fits formats s) ops
      → Steps formats ops s t
      → Agree formats s m
      → Simulated formats ops t m
  Steps-Simulated m coherent fits (ended s) agree = record {
    next = m;
    applied = refl;
    agree = agree;
    coherent = coherent;
    serves = Agree-Serves s m agree coherent;
  }
  Steps-Simulated m coherent fits (followed op ops s t u first rest) agree =
      let one = Step-Simulates m first agree in
      let stays = Step-StaysCoherent formats laws coherent fits.0 first in
      let others =
        Steps-Simulated one.next stays.coherent (All-Fits s t ops stays.grows fits.1) rest
          one.agree in
      record {
        next = others.next;
        applied = ap (λ r. r >>= apply_all ops) one.applied ∙ others.applied;
        agree = others.agree;
        coherent = others.coherent;
        serves = others.serves;
      }
  Steps-Simulated m coherent fits (looked_up id ops s u rest) agree =
      let t = (Sqlite.get_funding formats id s).0 in
      Steps-Simulated m (looked_up-Coherent formats id s coherent)
        (All-Fits s t ops (looked_up-Grows formats id s) fits) rest
        (Agree-database formats laws s t m (looked_up-database formats id s) agree)
