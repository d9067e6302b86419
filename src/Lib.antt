-- ===== src/Lib.antt =====
-- The core of the repository, on a model of its code: the relayer, services/relayer, with the
-- transfer policy of packages/types that it applies; the vault of the wallets in packages/core-sdk
-- and the unlock and the allowlist of the extension, apps/extension-wallet; the payouts, the export
-- and the polling of the dashboard, apps/web-dashboard; the codecs of packages/crypto; and the
-- amounts, retries and nonces of packages/stellar, packages/core-sdk and
-- packages/account-abstraction.
--
-- The parts. A wallet signs a canonical payload, and a client sends it as a request to the relay
-- service, which builds the same payload again. The service checks the request (session key, nonce,
-- key on chain, signature, transfer policy), remembers its nonce, and has its transaction simulated
-- and submitted. A retry of the same HTTP request is answered from the idempotency store. Jobs wait
-- in a queue, from which a worker takes them, with a limit on those in flight. Scheduled transfers
-- are stored with their next run; an engine polls for those that are due, and the scheduled transfer
-- service runs each through the relay service and writes down when it runs next. At the end of the
-- process the shutdown drains what is in flight and closes what is open, within a limit of time.
--
-- A wallet keeps its secrets in the vault, encrypted under a key that is derived from the password
-- and a master salt. The background of the extension passes a password on to the vault unless there
-- were too many failures, keeps a session in which it signs, holds the requests that wait for an
-- approval, and knows from its allowlist which sites may talk to an account. The mobile wallet locks
-- its biometrics after three failures. Signatures and keys are passed on as texts in base 16, 58 or
-- 64. A client fetches the sequence of its account with retries and from a cache, and compares the
-- nonce it expects with that on chain.
--
-- The dashboard reads a list of payouts from CSV, checks the recipients and amounts, and submits the
-- rows with a few workers, which write each outcome into a checkpoint, so that a batch that is loaded
-- again goes on where it was. It exports statements as CSV, with formulas made harmless, and polls
-- the network until a transaction is decided.
--
-- The files, with the code that each models (below services/relayer/src unless it says otherwise):
--   Common           lists, texts, integers, sorting, and Table for the JavaScript `Map`
--   Queue/Types      queue/types.ts: Job, JobStatus, EnqueueOptions
--   Queue/Backoff    queue/backoff.ts: compute_backoff_ms, next_retry_after
--   Queue/JobQueue   queue/JobQueue.ts: enqueue, dequeue, ack, nack and the reads
--   Queue/Invariant, Steps, Lifecycle, Dispatch, Handles: the theorems on the queue and its clients
--   Worker/QueueWorker   workers/QueueWorker.ts: start, stop, poll, finish
--   Worker/InFlight, Worker/Invariant, Worker/Turns: the theorems on the worker
--   Store/NonceStore     store/nonceStore.ts: assert_fresh, track, size, clear_expired
--   Store/Idempotency    store/idempotency.ts and middleware/idempotency.ts
--   Store/Replay, Store/Cache: the theorems on the stores
--   Relay/Types      types/requests.ts, types/responses.ts, types/errorCodes.ts
--   Relay/Policy     packages/types/src/transfer-policy.ts and validation/transferPolicy.ts
--   Relay/Errors     services/mapSimulationError.ts and services/mapSubmissionError.ts
--   Relay/Service    services/relayService.ts: validate_relay and execute_relay with their parts
--   Relay/Health     services/relayService.ts: health and the checks
--   Relay/Json, Relay/Payload
--                    payload/builder.ts and packages/core-sdk/src/relay-payload.ts, with the texts that
--                    `JSON.stringify` writes for texts and integers
--   Relay/JsonReading, Relay/WellFormed, Relay/Signed: the theorems on the payload that is signed
--   Relay/Authorised, Relay/Execution, Relay/Submission: the theorems on the relay service
--   Scheduler/Date, Civil, Unique, Setters   the UTC calendar of the JavaScript `Date`
--   Scheduler/ScheduleUtils             scheduler/schedule-utils.ts
--   Scheduler/Transfers, Scheduler/TransferStore, Scheduler/Service
--                    scheduler/schemas.ts, ScheduledTransferStore.ts, ScheduledTransferService.ts
--   Scheduler/Engine scheduler/SchedulerEngine.ts: start, stop, drain, the timers and the ticks
--   Scheduler/Months, Recurrence, Locks, Budget, Failing, Outcome, Polling: the theorems on the scheduler
--   Server/Shutdown  shutdown.ts: run_shutdown, the drains, the closers and the signals
--   Server/Draining: the theorems on the shutdown
--   Vault/Manager, Vault/Operations, Vault/ChangePassword
--                    packages/core-sdk/src/storage/secure-storage-manager.ts
--   Vault/Opening, Rekeying, Left, Password, Refusal: the theorems on the vault
--   Wallet/UnlockRateLimit, Wallet/SessionState, Wallet/LockUnlock
--                    unlock-rate-limit.ts, session-state.ts and handlers/lock-unlock.ts of
--                    apps/extension-wallet/src/background; packages/wallet-shared/src/session.ts
--   Wallet/ResponseQueue  handlers/external/response-queue.ts of the same directory
--   Wallet/BiometricLockout  biometric-lockout-manager.ts and biometric-lockout.types.ts of
--                    apps/mobile-wallet/src/security
--   Wallet/Allowlist apps/extension-wallet/src/stores/allowlist.ts
--   Wallet/Throttling, Approvals, Lockouts, Approved, Sanitized: the theorems on them
--   Encoding/Digits, Encoding/Base58    packages/crypto/src/encoding.ts
--   Encoding/SignatureFormat            packages/crypto/src/signature-format.ts
--   Encoding/Decimal, Decimals          numbers as decimal texts, with their theorems
--   Encoding/Positional, Alphabet, Radix58, HexPairs, Sextets, Formats: the theorems on the codecs
--   Network/Retry    packages/stellar/src/retry.ts
--   Network/SdkRetry packages/core-sdk/src/utils/retry.ts
--   Network/Sequence packages/stellar/src/account-sequence.ts
--   Network/Nonce    packages/account-abstraction/src/nonce-drift.ts
--   Network/Attempts, Agreement, Fetching, Drift: the theorems on them
--   Sdk/Amount       packages/core-sdk/src/amount.ts: normalize_amount, to_scaled_big_int
--   Sdk/Scaled, Sdk/Normalized: the theorems on amounts
--   Payouts/Csv, Amounts, Key, Rows, Batch
--                    apps/web-dashboard/src/services/bulk-payouts.ts: parse_csv_records,
--                    decimal_to_stroops, is_valid_ed25519_public_key, parse_bulk_payout_csv and
--                    execute_bulk_payout_batch, cut into start_batch, settle_row and summary
--   Payouts/Statement    apps/web-dashboard/src/features/statements/statement-export.ts and
--                    packages/types/src/statement.ts
--   Payouts/Cells, Reading, Stroops, Totals, Ids, Pool, Workers, Ending, Checkpoint, Resume: the
--                    theorems on them
--   Dashboard/TxPolling  apps/web-dashboard/src/services/tx-polling.ts
--   Dashboard/Confirmation: the theorems on the polling
--   Examples         concrete inputs
--
-- State and time. An object with fields is a record, and a method is a function from the record to
-- its result and the next record. What a method reads from outside (the clock, an id, a random draw,
-- what a handler or the relay service does) is an argument. A method that waits is cut where other
-- code may run: validate_relay, then proceed; relay_request, then the end of the execution
-- (conclude); poll, then settle; fire, then end_tick; the start of a batch, then settle_row for each
-- row that ends. Orderings are sequences of such steps (Steps, Calls, Run, Reached, Meanwhile). `ack`
-- and `nack` do not test the status of a job: the theorems on the queue are about clients that settle
-- each job they were handed once at most. A time is a number of milliseconds, and dates before 1970
-- are left out. Ids are fresh UUIDs: numbers, with freshness as a premise of the step that uses one.
--
-- Numbers. A double is a multiple of the least one, and the sum of two is rounded to 53 binary
-- digits.
--
-- Fuel. The loop of poll runs on fuel; one round for each free place and one more are enough. The
-- search for the year and month of a day runs on fuel that is bounded by the day itself and by the
-- months of a year, and its results are the dates of the calendar for every day. The digits of a
-- number run on fuel that is the number itself. The exponent of a sum of doubles is sought among
-- 2100, and theirs are fewer. The loops of the retries have as many rounds as the source, one more
-- than the retries that are allowed.
--
-- Parameters. The session keys on chain, the signature check, the encoding of the payload, the
-- submitter and the mock's id (Relay.Service.Outside), the handlers of the worker, and the relay
-- service as the scheduler sees it; what a function that is retried does at each attempt; Web Crypto,
-- of which the theorems on the vault suppose that a payload is decrypted under its key and refused
-- under another one (Vault.Opening.Sound), what the vault answers to the handler of the unlock, the
-- bytes of UTF-8, the URL parser of the browser, the error that is made of what is thrown, and the
-- `toFixed` of a number.
--
-- Not modelled: the Postgres adapters (their behaviour is that of SQL), the Express layer with its
-- rate limiters and guards, logs, metrics and traces. Texts that are stored as base 64 or JSON are
-- kept as what they decode to. The default test of errors of the retries of packages/core-sdk is left
-- out, and so is the bridge of the vault to older storage adapters. The AI agent service, the
-- handlers of the extension that sign, and most of the clients of packages/stellar, packages/core-sdk
-- and packages/account-abstraction are left out too. Of the rest, the indexer and the contracts are
-- Rust, and most of the apps is user interface.
pub mod Common
pub mod Queue
pub mod Worker
pub mod Scheduler
pub mod Store
pub mod Relay
pub mod Network
pub mod Encoding
pub mod Vault
pub mod Wallet
pub mod Server
pub mod Sdk
pub mod Payouts
pub mod Dashboard
pub mod Examples
