-- ===== src/Lib.antt =====
-- The receiver's side of Spilman payment channels over Cashu: crates/cdk-spilman.
--
-- A sender locks a funding token in a channel and signs growing balances to a receiver; the receiver
-- checks the channel once, counts usage against the signed balance, and closes the channel at the mint by
-- a swap whose outputs both parties can derive. The parts and their files:
-- - Amounts (crates/cdk-spilman/src/keysets_and_amounts.rs): the amounts of a keyset, the greedy list of
--   output amounts `from_target`, the value after input fees, and the search that inverts it.
-- - Channel (params.rs and deterministic.rs beside it): `ChannelParameters::new`, the minimum funding
--   token, and `CommitmentOutputs::for_balance`, the split of a channel's value. Channel/Parse reads
--   parameters and keysets from JSON (params.rs, bindings.rs); Channel/Verification is what a receiver
--   verifies of a channel (sender_and_receiver.rs, established_channel.rs, balance_update.rs).
-- - Storage (configurable_host.rs): `MemoryStorage`, one function per method, from a store to an error or
--   the next store; Storage/Operations has the histories of such operations.
-- - Host (configurable_host.rs): `ConfigurableHost`: pricing, policy, and the writes to the store.
-- - Mint (mint_outcome.rs, keyset_retry.rs): what a mint's answer is evidence of, and the one retry with
--   another keyset; its callbacks act on a state, so that a log of them can be kept.
-- - Storage/Sqlite (configurable_host.rs): `SqliteStorage`, its tables as maps from keys to rows and each
--   statement as a function of them, with the simulation of it by the store in memory; Cache and Coherence
--   are its funding cache.
-- - Swap (swap_completion.rs, bindings.rs, deterministic.rs, balance_update.rs): swap requests, what a
--   mint's answer has to be to complete one, and the restore of signatures; Swap/Request is the swap of a
--   commitment, Swap/Restore the matching of restored signatures.
-- - Recovery (recovery.rs): what the mint's answer about a channel's funding proofs is evidence of.
-- - Bridge (bridge.rs): `SpilmanBridge` over that host: payments and first-use funding. `process_payment`
--   and `fund_channel` give the store afterwards together with their result. Bridge/Response has the HTTP
--   answers to refused payments.
-- - Bridge/Close (bridge.rs): the closes. Select finds the keyset of the outputs, Prepare builds the signed
--   swap, Transition the record that is stored before it is sent, Unblind and Complete read the mint's
--   answer, Execute drives the one retry, and Initiate has the cooperative and the unilateral close from
--   their start. The mint and the keyset refresher act on a state of their own, `World`.
-- - ClientStorage (client_storage.rs): the sender's `MemoryClientStorage`.
-- - Json and Packages: what the sources call of `serde_json`, `cashu`, `hex` and the cryptography, as
--   interfaces; a theorem over them holds of whatever the packages compute.
-- - Examples: the theorems at concrete keysets, stores and a server.
--
-- A `u64` is a natural number with its wrap-around or saturation written out. `Run` is an optional result:
-- `none` means that a loop's fuel ran out. The loop of `from_target` has fuel for its remaining value, which
-- is enough for positive amounts; the inverse search takes its fuel as an argument, and the theorems say how
-- much is enough. A map is an association list, in whose order the source's map iterates. Locks are held for
-- one operation and are never poisoned. An error's text is kept as the value that it is made from.
--
-- Not modelled: the usage table and the listings of the receiver's SQLite store, the sender's SQLite store
-- and bridge, refunds and the recovery of payouts, the HTTP layer, the bindings, and the test mint. The hashes and curve
-- operations under the channel id, the output secrets, blinding, the DLEQ proofs and the Schnorr signatures
-- are parameters; of the curve the theorems assume at most that it keeps amounts (`KeepsAmounts`).
pub mod Prelude
pub mod Amounts
pub mod Json
pub mod Channel
pub mod Packages
pub mod Storage
pub mod Mint
pub mod Host
pub mod Swap
pub mod Recovery
pub mod Bridge
pub mod ClientStorage
pub mod Examples
