-- ===== src/Lib.antt =====
-- A model of the trading core of Hyper Trader: how the mobile application prepares an exchange
-- action, reserves a nonce for it, records its submission, and decides what became of it.
--
-- The program's parts and the files that model them:
-- * Nonces models packages/hyperliquid/src/nonces/allocation.ts: `assertClockGate` compares the
--   clocks of the device with a sample of the exchange's, and `allocateNonce` picks the next nonce.
-- * Journal models packages/hyperliquid/src/reconciliation/types.ts and
--   packages/hyperliquid/src/reconciliation/state.ts: the record of an action,
--   `assertJournalTransition`, `mayMarkSubmissionStarted`, `restartRecoveryDecision` and
--   `assertJournalResultClass`.
-- * Json models packages/hyperliquid/src/reconciliation/redaction.ts: `serializeSecretFreeIntent`,
--   the check on what is stored as an intent. The text that it returns is represented by the object
--   itself, and its size by a count of its bytes.
-- * Policy models packages/hyperliquid/src/reconciliation/policy.ts: `decideReconciliation`, which
--   reads evidence from the exchange and decides whether an action is accepted, rejected, expired,
--   ambiguous or still open.
-- * Signing models packages/hyperliquid/src/signing/boundary.ts: the capabilities of a release
--   stage, signer bindings and the calls of an injected signer.
-- * Persistence models the repositories on SQLite. Rows has the checks on stored rows of
--   apps/mobile/src/platform/persistence/validation.ts and action-journal.ts, Tables the tables,
--   Actions, Leases and Recovery the operations of `SqliteActionJournalRepository`; Signers and
--   Retirement those of `SqliteNonceAndJournalRepository` in
--   apps/mobile/src/platform/persistence/nonce-repository.ts, and Tombstones
--   packages/hyperliquid/src/nonces/tombstone.ts with the check of the chain, which Manifest compares with
--   the manifest that is kept outside the database. Calls puts the
--   operations together as sequences of calls, with restarts of the process between them.
-- * Decimals models packages/hyperliquid/src/numbers/decimal.ts and precision.ts, and the exact
--   comparison in apps/api/src/rules/evaluator.ts. A text is the list of its code points, or of its
--   UTF-16 units where the code counts them or matches them with a pattern.
-- * Prices models apps/mobile/src/features/actions/aggressive-order-price.ts, the prices of market
--   orders and of the input field.
-- * Rules models apps/api/src/rules/evaluator.ts: `evaluateNotificationRule`, its checks of rules and
--   events, and the text that the key of an event is hashed from.
-- * Delivery models apps/api/src/outbox/delivery-worker.ts: `runOnce` with the
--   recovery before it and every answer of the store and the provider an input. The reports of
--   metrics are left out.
-- * Validation models packages/hyperliquid/src/actions/validation.ts: `validateTradingAction`. Amounts
--   has its decimals, Checks the context and the market, Orders, Protective and Actions the validators;
--   the other children prove what is left of an action that is accepted.
-- * Flow models apps/mobile/src/features/actions/state-machine.ts: `reduceActionFlow` and sequences of
--   dispatched actions.
-- * Reconciler models apps/mobile/src/features/actions/reconciler.ts: `reconcile`, `reconcileNext`,
--   the loop of the reconciliation port and `nextAttempt`. What it publishes to the active context is
--   left out.
-- * Orchestrator models `confirm` of apps/mobile/src/features/actions/orchestrator.ts: the steps from the
--   refresh to the recorded answer. Ports has what it reads and writes, Messages what it shows, and
--   Failures what is done when a step throws.
-- * Lifecycle models apps/mobile/src/core/lifecycle/controller.ts: the controller that follows the
--   visibility of the application and the network, with the calls that it makes.
-- * Common holds what the parts share, and Examples the tests and concrete runs.
--
-- How the code corresponds to the model. A function of the source has its name in snake case. What
-- throws returns a Result with the error's class and message. A number that arrives unchecked is a
-- Number (a natural, a negative integer, or anything else) and becomes a natural once the code has
-- checked it; sums are of safe integers. A table is a list of records, an UPDATE a map over the rows
-- that its WHERE clause selects, and the changes that it reports their number. A transaction that
-- throws leaves the database as it was; the map of reservations, which lives in memory, is kept
-- apart from the database and is not rolled back. A broken UNIQUE, CHECK or FOREIGN KEY constraint
-- throws. The bytes of a number in a JSON text are counted with fuel 16, enough for the sixteen
-- digits of a safe integer. The digits of a number n are printed with fuel n, and it has no more
-- digits than n + 1. No other definition uses fuel.
--
-- Code that waits. A computation that may throw keeps what it has written, so it returns its result
-- with the state that it leaves (Common.Runs). Every await comes with the calls of the repositories and
-- the dispatched actions that others make meanwhile, which are arbitrary; the answers of the ports and
-- the readings of the clock are inputs. The loop of the reconciliation port has one entry of its input
-- for each of its turns, so it ends after `maxAttempts` of them.
--
-- The parts call one another as in the source: a reservation (Signers) checks the binding (Signing),
-- the intent (Json) and the fields (Rows), allocates a nonce (Nonces) and inserts the row (Tables);
-- the start of a submission, a transition and the recovery (Actions, Recovery) ask Journal; the
-- leases (Leases) order the work whose results Policy decides; Reconciler claims, renews, decides and
-- stores with them, and Orchestrator calls Signers, Actions, Flow and Reconciler.
--
-- Parameters: `getAddress` and `keccak256` of the package viem, `sha256Hex` of the notifications, the
-- injected signer, and the authority over the context epoch, of which nothing is assumed.
--
-- Not modelled: the user interface, the network transports, the server's routes and its statements on
-- PostgreSQL, which are input and output around the parts above; the parsers of markets and accounts,
-- whose results are arguments here; the encoding of actions, which rests on libraries that pack and
-- hash; the workers of the notification server but for its rules and deliveries; and the reading of
-- lists for display, which changes nothing. SQLite itself is represented by its statements; failures
-- of the device's storage are not.
pub mod Common
pub mod Nonces
pub mod Json
pub mod Lifecycle
pub mod Delivery
pub mod Journal
pub mod Policy
pub mod Signing
pub mod Persistence
pub mod Decimals
pub mod Prices
pub mod Rules
pub mod Flow
pub mod Reconciler
pub mod Validation
pub mod Orchestrator
pub mod Examples
