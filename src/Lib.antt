-- ===== src/Lib.antt =====
-- Say Ur Intent: the core of a local server that reviews a transaction plan, binds it to
-- a wallet account, hands the reviewed bytes to the wallet, and follows the signed transaction to
-- its receipt on the Sui chain. Paths below are from the root of the repository.
--
-- The parts, and where they stand:
-- - Prelude: library names, Boolean tests, and a JavaScript `Map` as an association list.
-- - Host: what the JavaScript runtime, node:crypto and the Sui SDK provide (dates, addresses,
--   transaction digests, SHA-256), a record that every definition takes; src/core/suiAddress.ts.
-- - Session/Types, Session/Errors, Session/World: the data of src/core/action/types.ts and of
--   src/core/session/localSession.ts, sessionErrors.ts and settingsSession.ts, the event records
--   of src/core/eventlog/sink.ts, and the state: the maps of the stores, the active account and
--   the event log. An operation takes the state and gives an outcome and the next state; a write
--   before a throw stays.
-- - Session/Material: transactionMaterialStore.ts, with its laws in Material/Lifetime and
--   Material/Trust.
-- - Session/Artifacts: privateReviewArtifacts.ts, and the evidence verifiers of src/core/action
--   as the operations of a record.
-- - Session/Status: status.ts and the transition table of sessionStore.ts; Status/Paths and
--   Status/Polling have their laws.
-- - Session/Records: sessionRecordStore.ts, the conditional write and the handoff lock.
-- - Session/Store: `LocalSessionStore` of sessionStore.ts. Commit has the commit process on both
--   of its ways, one of them with the live mutation of src/core/activity/sqliteActivityStore.ts;
--   Private, Reading, Review, Execution, Pending and Handoff have the operations in the source's order.
-- - Session/Wallet and Session/Settings: walletIdentity.ts, walletIdentitySessions.ts and
--   settingsSessions.ts over keyedRecordStore.ts.
-- - Session/Finalization: chainReceiptFinalization.ts, over a receipt verifier that is an argument.
--   A receipt is the evidence of Receipt/Evidence, whose schema is part of the schema of results.
-- - Numeric: the raw amounts of src/core/numeric/rawU64.ts as decimal texts, the sums of
--   src/core/read/amounts.ts, and `decimalsFromScalar` of src/core/read/coinMetadata.ts.
-- - Receipt: the verifier that finalization asks, src/core/action/suiChainReceiptVerifier.ts, with
--   suiChainReceiptMapping.ts, suiChainReceiptEvidence.ts and forbiddenFields.ts. The Sui client is
--   a parameter (Receipt/Chain); Receipt/Finalization puts the verifier into Session/Finalization.
-- - Quote: the quote policies of src/adapters/deepbook/deepbookQuotePolicy.ts and
--   src/adapters/flowx/flowxSwapQuotePolicy.ts, and the evidence of a policy,
--   src/core/action/swapQuotePolicyEvidence.ts, with the parts of signableAdapterContract.ts that
--   it is mapped to.
-- - Session/Sqlite: sqliteSessionStore.ts, the rows of live review sessions. A table is the list of its
--   rows in the order of insertion, a statement an operation on it.
-- - Activity: what src/core/activity computes without the network, in
--   transactionActivityAccountEffects.ts, externalActivityCoverage.ts and
--   externalActivityTransactionStream.ts.
-- - Session/Wait: the polling loops of wait.ts.
-- - Session/Inversion, Session/Sound, Session/Handoff, Session/Execution: proofs about the
--   operations. Sound has rules for postconditions and one file for each group of operations.
-- - Session/Fixtures and Session/Examples: concrete data, runs and applications.
--
-- A function keeps the source's name in snake_case. `recordReviewState` and the others with an
-- optional part of an internal method call the definition of that method. A closure, a `catch`
-- or a loop of the source is a definition of its own beside the method that holds it.
--
-- Awaits: at each awaited activity write other requests may run; `activity_write` of `Env` gives
-- the state in which the caller goes on, and so does `AwaitedVerifier` for the awaited receipt
-- verifier. The awaited append to the event log, which writes a file, is modelled without what
-- other requests do meanwhile: that is left out, so a statement about the state after an
-- operation is about the state as the operation itself leaves it. The other awaited calls are over
-- in-memory maps and are taken to be atomic. Random identifiers and tokens are arguments.
--
-- Bounds: times are natural numbers of milliseconds, so dates before 1970 do not occur, and a
-- date is read back as `Host` says. The wait loop runs on fuel of one round for each millisecond
-- of the timeout: each round sleeps for a millisecond at least while time is left. `Date.now()`
-- is read once in a round. Printing a number and taking tens off a scalar run on fuel of a round
-- for each unit of the number, and each round divides it by ten.
--
-- Not modelled: the activity tables, whose SQL is beyond single rows, and the triggers of the
-- schema; `setActiveAccount`, which is taken to succeed; the texts of error messages, but for the
-- one that is compared; the server, the user interface and the rest of the protocol adapters, which
-- call these parts; the Sui RPC. Documents that the session layer stores and compares without
-- looking into them are canonical JSON texts.
pub mod Activity
pub mod Host
pub mod Numeric
pub mod Prelude
pub mod Quote
pub mod Receipt
pub mod Session
