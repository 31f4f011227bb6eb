-- ===== src/Lib.antt =====
-- The accounts module (rust-lib): a cache of provenance logs whose entries are signed outside.
--
-- The program keeps accounts. An account is a verified provenance log with the updates that were
-- prepared for it and wait for a signature. `prepare_update`, `prepare_delegate` and
-- `prepare_revoke` assemble the next unsigned entry and return a challenge; `commit_update` takes
-- the signature made elsewhere, appends the entry and drops every challenge; `cancel_update` drops
-- one. Branches of the key space are delegated to other keys by lock scripts. The module holds its
-- accounts by the hash of their VLAD and answers each method with a text and with events.
--
-- Files and sources:
-- - Error: rust-lib/src/error.rs.
-- - Externals, with Externals/Data, Externals/Laws and Externals/EntryLaws: the crates
--   provenance-log, multikey, multisig, multicid, multibase, multicodec and sha2, as the record
--   `Externals` of the types and functions that the program uses. Every model takes it as an
--   instance argument. What their documentation promises stands in the two modules of laws, as
--   records that theorems take as hypotheses.
-- - Config, Config/Branch: rust-lib/src/config.rs.
-- - Encoding, Encoding/Hex: rust-lib/src/encoding.rs and rust-lib/src/vlad_hash.rs, with
--   `decode_hex` and `decode_hex32` in Encoding/Hex/Decode.
-- - EntryUpdate and its children: rust-lib/src/entry_update.rs.
-- - Plog, Request, Delegations, Account and their children: rust-lib/src/api.rs. Plog has the
--   readers of a log, Request the JSON requests once serde has read them, Delegations the listing
--   and the choice of a signer, Account the type `PlogAccount` with its readers and the step that
--   assembles an entry, Account/Preparing the three `prepare_*` methods, Account/Committing the
--   commit and its cancellation. Account/Enact follows a prepared entry to the head of the log.
-- - EphemeralOpen, EphemeralOpen/Root: rust-lib/src/ephemeral_open.rs.
-- - Convert, Verifier: rust-lib/src/convert.rs and rust-lib/src/verifier.rs.
-- - Cache and its children: rust-lib/src/cache.rs. Cache/Abstract has what the cache promises, the same
--   calls on a partial function.
-- - Provider and its children: rust-lib/src/module.rs. Provider/Logs has the methods that bring logs
--   in, take them out and read them, Provider/Updates those that prepare, commit and cancel.
-- - Dispatch and its children: the dispatch of
--   rust-lib/generated/provider_gen.rs by the name of a method.
-- - Scaffold and its children: the C interface of rust-lib/generated/provider_gen.rs, with its
--   statics, the one-time hook (`on_context_ready` of rust-lib/src/module.rs, installed by
--   rust-lib/src/lib.rs), and the tokens. Scaffold/Emit has the delivery of events to the host's
--   callback, Scaffold/Methods the table that describes methods and events.
-- - Scaffold/Threads and its children: the same entry points, called from several threads.
-- - Prelude and its children: maps as association lists, results, states, sorting.
-- - Tests: a small executable instance of `Externals`, and the theorems below applied on it.
--
-- How the code is read. A function that fails with `?` returns a `Result`. A method on `&mut self`
-- returns its result beside the new state, also where it fails, since what was written before an
-- early return stays written. The clock, in nanoseconds, and the random bytes of a challenge id are
-- arguments. A loop is a recursion on the list that it walks, so that no fuel is needed. A map is an
-- association list that an invariant keeps free of double keys, and no result depends on its order.
-- The cache's shared references are indices of cells beside the map: the cell of a removed account
-- stays, as an `Arc` that is still held keeps its account. An event is a value in the order of its
-- emission.
--
-- The entry points of the C interface are modelled twice. In Scaffold they run one after the other.
-- In Scaffold/Threads any number of threads call them at once: a step of a thread is one use of a
-- static, the threads take their steps in any order, and a thread that needs the lock of `REGISTERED`
-- or `INSTANCE` waits while another one holds it. A method is two steps: one takes `INSTANCE` and
-- reads the module, and a later one writes what the method makes of the module that was read, so that
-- results would be lost if two threads were between the two at once. What the entry points do outside of the statics is
-- a list of effects: calls of the callback, of the hook and of the SDK, and lines of the log. The
-- callback is taken to return without calling the module: it runs under three of the module's locks,
-- which a call from within would wait for.
--
-- A slice of a text that cuts a character in two is an outcome of its own in `decode_hex`. The decimal
-- digits of a length are computed with one round of fuel more than the number, which is enough since
-- every round divides the number by ten.
--
-- Not modelled: the memory behind the pointers that the C interface returns, build and packaging, and the serializers, which are parameters. Panics
-- other than that of `decode_hex`, which no method calls, are not modelled, so that no method poisons
-- the lock of a cell; a poisoned cell is a state of the model all the same.
mod Prelude
pub mod Error
pub mod Externals
pub mod Config
pub mod Encoding
pub mod EntryUpdate
pub mod Plog
pub mod Request
pub mod Delegations
pub mod EphemeralOpen
pub mod Account
pub mod Convert
pub mod Verifier
pub mod Cache
pub mod Provider
pub mod Dispatch
pub mod Scaffold
mod Tests
