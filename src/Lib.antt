-- ===== src/Lib.antt =====
-- Pions: the durable record of a delegated Operation.
--
-- An Operation is one delegation to a Worker. Its only truth is a list of events; the program
-- validates an event, reduces it into the Operation, and writes the longer record. A Result is
-- accepted by an event that names the digest of bytes which have been stored before.
--
-- The parts, the files that model them, and the source:
--   Types (Configuration, Evidence)  src/internal/types.ts, services.ts: interfaces as records,
--     optional fields as `Option`, unions of literals as data types.
--   Operation  src/internal/event-store/model.ts, intent.ts: `Operation` and `OperationEvent`. An
--     event is its metadata and an `EventInput`, with one constructor for each `type`.
--   Reducer (Guards, Startup, Delivery, Settlement, Cleanup)  src/internal/event-store/reducer.ts:
--     `reduceOperation` is `reduce_operation`: `validate_envelope`, then `create` or `advance`, whose
--     switch is `dispatch` with one handler for each case; `replayOperation` is `replay_operation`.
--     A thrown `TransitionError` is an `err` (Except). Proofs: Reducer/Stages, Authentic, Extends,
--     Lifecycle, History.
--   Codec (Schema)  src/internal/event-store/codec.ts: `decodeRecord` is `decode_record`.
--   Store (Backend, Results, Memory)  src/internal/event-store/store.ts, memory-storage.ts: a method
--     of `ValidatedEventStore` takes the state of a `Storage` and returns its outcome beside the new
--     state. The abstract methods are the fields of `Storage`; `StorageLaws` says what is needed of
--     them: a write that throws has done nothing or all of its work. `memory_storage` is the one of memory-storage.ts.
--     Proofs: Store/Reopen, Append, Acceptances, Backing.
--   Acceptance, StartInstruction, Text, Utf8  src/internal/result-digest.ts,
--     result-acceptance-transaction.ts, start-instruction.ts: digests and identifiers, with UTF-8,
--     decimal numerals and the two regular expressions written out.
--   WorkerConfiguration  src/internal/worker-configuration.ts: `resolveWorkerConfig` is
--     `resolve_worker_config`, `configurationMismatch` is `configuration_mismatch`; the runtime requests
--     an Operation with the former's answer, and visible-worker.ts holds it against what the Worker
--     reports by the latter. Proofs: WorkerConfiguration/Ceiling, Initial, Mismatch.
--   ResultAcceptance  src/internal/result-acceptance.ts: `accept` encodes the answer of a Worker, checks
--     it, and hands its bytes to the store. Proofs: Utf8/Encoded, ResultAcceptance/Bodies, Accepts.
--   OperationReader (Cursor, Chunks, Persisted)  src/internal/operation-reader.ts, and
--     persisted-operation-reader.ts: `readResult` is `read_result`,
--     `readResultChunk` is `read_result_chunk`, with its loop over the end of a chunk as
--     `decoded_width`; a thrown error is a `ReadError`. Proofs: OperationReader/Widths, Session,
--     Accepted. `read_chunks` of Session is a caller that follows the cursors.
--   Runtime (Settle, Cleanup, Cancel, Handoff, Confirmation)  src/internal/runtime.ts:
--     `settleObserved`, `performCleanup`, `cancel`, `recoverCancellation`, and the hooks of `runWorker`
--     that hand a recovered Worker over, as steps on a `World`: the stored records, the number of
--     times the clock was asked, and the calls of the presentation. They use the store as the program
--     does.
--     Proofs: Store/Progress, Runtime/Steps, Settle/Settled, Cleanup/Finishes, Cleanup/Asks,
--     Cancel/Ends, Handoff/Ends, Confirmation/Ends, Reducer/Handoffs.
--
--   Protocol (Frames, Framing, Control, Host, Worker, Delivery)  src/internal/worker-protocol.ts:
--     `FramedPeer.acceptBytes` is `accept_bytes`, `HostProtocolPeer` is Host with a function for each
--     type of frame in Host/Reception and the other methods in Host/Methods, `WorkerProtocolPeer` is
--     Worker with `send`, and Worker/Received, Reception with `receive`. A method takes the peer and returns
--     its outcome beside the new peer. The Result that the host receives goes to ResultAcceptance.
--     Proofs: Framing/Split, Host/Pieces, Host/Integrity, Worker/Durable, Delivery/Whole.
--   WorkerExtension (StartStore, Bridge)  src/worker-extension.ts: the files that hold the accepted start
--     instruction and the delivery authority are `file_starts`, an implementation of the store that
--     the Worker protocol takes; `Faults` says which calls of the file system fail in a writing, and a
--     list which readings fail. A save that throws is a `store_error` of the session.
--     `PiWorkerBridge` is Bridge: `settle`, `receiveControl` is `receive_control`. Proofs: WriteOnce.
--
-- Parameters: SHA-256, the `JSON.stringify` of the start scope, and `Date.parse` are the fields of
-- `Platform`, with no law assumed; the storage and the clock's answers are arguments. So are the
-- answers of the presentation, what a Worker reports, and whether it proves its stop in time. The
-- encodings of a cursor (JSON, base64url, its checksum) are the fields of `CursorPlatform`;
-- `CursorLaws` says that parsing gives back what was printed.
-- What a line of the Worker protocol holds (JSON and its schemas), base64 and the dates of deadlines
-- are the fields of `Wire`; the store of the start instruction, an interface of the source, is
-- `StartInstructionAcceptanceStore`.
--
-- Numbers are natural. A negative number in an event is refused by the guard that refuses 0, or
-- equals no stored value. A safe integer is at most 2 ^ 53 - 1, and the program adds 1 to such
-- numbers only, so no addition is rounded. A text is a row of code points; one with a lone
-- surrogate has no counterpart here, but for the answer of a Worker, which is a row of numbers. The
-- numbers of a Worker's usage are carried, never computed. Frozen and cloned values are the values themselves. No code runs on fuel: every
-- loop runs over a list or down from a number. `read_chunks` is given a number of rounds, and
-- `read_chunks-whole` says how many are enough. `cut`, which cuts a body into chunks, gets a round for
-- each byte, which is enough, since a chunk has a byte at least (`concat-cut`).
-- (`decimal` recurs on the number's successor, which is more than its count of digits.)
--
-- One call of the store is one step, since the program holds the lock of an Operation during a call;
-- calls for different Operations touch different records. Hooks around an append (`willAppend`,
-- `didAppend`) do nothing in the store itself and are left out, as is the trace of the memory
-- storage. The runtime's steps of one Operation follow each other; other calls between them are not
-- interleaved. Its view in a terminal (`project`, whose failures are ignored), the promises of a
-- handle (`settleTerminal` gets the Operation that the steps return), the sharing of one cancellation
-- among equal requests, and the recovery that is scheduled after an error are left out. Not modelled:
-- the start of a Worker and the other events that it reports while it runs, process and terminal
-- control, the file storage of records, the connecting of sockets, and the shape of undecoded JSON.
mod Prelude
pub mod Except
pub mod Types
pub mod Operation
pub mod Text
pub mod Platform
pub mod Acceptance
pub mod StartInstruction
pub mod Reducer
pub mod Codec
pub mod Utf8
pub mod Store
pub mod OperationReader
pub mod ResultAcceptance
pub mod Protocol
pub mod WorkerExtension
pub mod Runtime
pub mod WorkerConfiguration
mod Examples
