-- ===== src/OperationReader.antt =====
-- src/internal/operation-reader.ts: what a reader of one Operation is told. A read takes the state of
-- the storage and leaves it as it is. A text that comes from bytes is its row of code points.
pub mod Cursor
pub mod Chunks
pub mod Widths
pub mod Session
pub mod Accepted
pub mod Persisted
use mathlib.Core.Option.{map as option_map}
use pions.Prelude.{
  ℕ, String, Bool, true, false, ◌||◌, not, Option, none, some, List, [], ◌∷◌, length, ◌==◌, str_eq,
  if◌then◌else◌,
}
use pions.Except.{Except, ok, err, map_err, ◌>>=◌, ◌>>◌}
use pions.Platform.{Platform}
use pions.Types.Configuration.{EffectiveWorkerConfig, ObservedWorkerConfig}
use pions.Types.Evidence.{
  OperationState, StartDeliveryAuthorityEvidence, StartDeliveryEntryEvidence,
  StartInstructionDeliveryEvidence, StartInstructionAcceptanceEvidence,
  StartInstructionAcknowledgementEvidence, StartDeliveryHandoffEvidence, CleanupDiagnosticCode,
  WorkerIdentity, AgentRunEvidence, OperationFailureReason, UnknownReason, cancel_unproven,
  start_acceptance_unknown, liveness_unproven, TerminalReason, unproven, AcceptedResult,
}
use pions.Operation.{Operation, PresentationCleanupRecord, CleanupState}
use pions.Acceptance.{sha256_digest}
use pions.Utf8.{decode}
use pions.Codec.{StoreErrorCode, not_found, corrupt_record}
use pions.Store.Backend.{Storage}
use pions.Store.{OperationVersion, OperationSnapshot, read}

-- `persistenceError`: the codes of an `OperationPersistenceError` are those of the store but one.
abbrev pub persistence_error : StoreErrorCode → StoreErrorCode
persistence_error not_found = corrupt_record
persistence_error code = code

pub data ResultRetrievalFailureReason : Type 0 where
  result_not_accepted stored_result_corrupt storage_inspection_unavailable :
      ResultRetrievalFailureReason

pub data ResultCursorFailureReason : Type 0 where
  invalid wrong_operation result_mismatch : ResultCursorFailureReason

-- What a read throws; `max_bytes_range` is the `RangeError`.
pub data ReadError : Type 0 where
  persistence : StoreErrorCode → ReadError
  retrieval : ResultRetrievalFailureReason → ReadError
  cursor_refused : ResultCursorFailureReason → ReadError
  max_bytes_range : ReadError

pub record ResultAcceptanceEvidence : Type 0 where
  pub accepted_at : String
  pub acceptance_id : String
  pub byte_count : ℕ
  pub digest : String
  pub event_sequence_number : ℕ

pub record StopConfirmationEvidence : Type 0 where
  pub confirmed_at : String
  pub proof : String

pub record PresentationCleanupEvidence : Type 0 where
  pub cleanup_id : String
  pub workspace_id : String
  pub state : CleanupState
  pub started_at : String
  pub finished_at : Option String

-- `OperationSnapshot` of types.ts
pub record PublicOperationSnapshot : Type 0 where
  pub operation_id : String
  pub version : OperationVersion
  pub state : OperationState
  pub unknown_reason : Option UnknownReason
  pub failure_reason : Option OperationFailureReason
  pub worker_identity : Option WorkerIdentity
  pub effective_config : EffectiveWorkerConfig
  pub observed_config : Option ObservedWorkerConfig
  pub worker_execution_evidence : Option AgentRunEvidence
  pub start_delivery_authority : Option StartDeliveryAuthorityEvidence
  pub start_delivery_entry : Option StartDeliveryEntryEvidence
  pub start_instruction_delivery : Option StartInstructionDeliveryEvidence
  pub start_instruction_acceptance : Option StartInstructionAcceptanceEvidence
  pub start_instruction_acknowledgement : Option StartInstructionAcknowledgementEvidence
  pub start_delivery_handoffs : List StartDeliveryHandoffEvidence
  pub result_acceptance : Option ResultAcceptanceEvidence
  pub stop_confirmation : Option StopConfirmationEvidence
  pub presentation_cleanup : Option PresentationCleanupEvidence
  pub cleanup_diagnostics : List CleanupDiagnosticCode

-- The reason that an unknown outcome is given.
abbrev pub unknown_reason_of : Option TerminalReason → UnknownReason
unknown_reason_of (some (unproven cancel_unproven)) = cancel_unproven
unknown_reason_of (some (unproven start_acceptance_unknown)) = start_acceptance_unknown
unknown_reason_of _ = liveness_unproven

abbrev pub public_unknown_reason : OperationState → Option TerminalReason → Option UnknownReason
public_unknown_reason OperationState.unknown reason = some (unknown_reason_of reason)
public_unknown_reason _ reason = none

abbrev pub result_evidence : AcceptedResult → ResultAcceptanceEvidence
result_evidence result = record {
  accepted_at = result.accepted_at;
  acceptance_id = result.acceptance_id;
  byte_count = result.byte_count;
  digest = result.digest;
  event_sequence_number = result.event_sequence_number;
}

abbrev pub cleanup_evidence : PresentationCleanupRecord → PresentationCleanupEvidence
cleanup_evidence cleanup = record {
  cleanup_id = cleanup.cleanup_id;
  workspace_id = cleanup.workspace_id;
  state = cleanup.state;
  started_at = cleanup.started_at;
  finished_at = cleanup.finished_at;
}

abbrev pub diagnostics_of : Option PresentationCleanupRecord → List CleanupDiagnosticCode
diagnostics_of none = []
diagnostics_of (some cleanup) = elim cleanup.diagnostic [ none ↦ [] | some code ↦ code ∷ [] ]

unfoldable pub public_snapshot : OperationSnapshot → PublicOperationSnapshot
public_snapshot stored = record {
  operation_id = operation.operation_id;
  version = stored.version;
  state = operation.state;
  unknown_reason = public_unknown_reason operation.state operation.terminal_reason;
  failure_reason = operation.failure_reason;
  worker_identity = operation.worker_identity;
  effective_config = operation.effective_config;
  observed_config = operation.observed_config;
  worker_execution_evidence = operation.agent_run_evidence;
  start_delivery_authority = operation.start_delivery_authority;
  start_delivery_entry = operation.start_delivery_entry;
  start_instruction_delivery = operation.start_instruction_delivery;
  start_instruction_acceptance = operation.start_instruction_acceptance;
  start_instruction_acknowledgement = operation.start_instruction_acknowledgement;
  start_delivery_handoffs = operation.start_delivery_handoffs;
  result_acceptance = option_map result_evidence operation.result;
  stop_confirmation =
      option_map (λ at. record { confirmed_at = at; proof = "worker-stop" })
        operation.worker_stop_confirmed_at;
  presentation_cleanup = option_map cleanup_evidence operation.presentation_cleanup;
  cleanup_diagnostics = diagnostics_of operation.presentation_cleanup;
}
  where
    open stored use {operation}

pub record Result : Type 0 where
  pub body : List ℕ
  pub byte_count : ℕ
  pub digest : String

pub record Retrieved : Type 0 where
  pub result : Result
  pub bytes : List ℕ
  pub acceptance_id : String

pub record NotAccepted : Type 0 where
  pub version : OperationVersion
  pub state : OperationState
  pub failure_reason : Option OperationFailureReason

pub data ResultReadOutcome : Type 0 where
  retrieved : String → Result → ResultReadOutcome
  not_accepted : NotAccepted → ResultReadOutcome

abbrev pub not_accepted_of : OperationSnapshot → NotAccepted
not_accepted_of snapshot = record {
  version = snapshot.version;
  state = snapshot.operation.state;
  failure_reason = snapshot.operation.failure_reason;
}

module _ (p : Platform) where
  -- What `retrieveResult` makes of the bytes that it found.
  abbrev pub verified : AcceptedResult → Option (List ℕ) → Except ReadError Retrieved
  verified accepted none = err (retrieval stored_result_corrupt)
  verified accepted (some bytes) =
      if not (length bytes == accepted.byte_count)
        || not (str_eq (sha256_digest p bytes) accepted.digest)
      then err (retrieval stored_result_corrupt)
      else ok (record {
        result = record {
          body = decode bytes;
          byte_count = length bytes;
          digest = accepted.digest;
        };
        bytes = bytes;
        acceptance_id = accepted.acceptance_id;
      })

  module _ {S : Type 0} (b : Storage S) where
    unfoldable pub stored_snapshot : S → String → Except ReadError OperationSnapshot
    stored_snapshot s operation_id =
        map_err (λ code. persistence (persistence_error code)) (read p b s operation_id)

    unfoldable pub read_public_snapshot : S → String → Except ReadError PublicOperationSnapshot
    read_public_snapshot s operation_id =
        stored_snapshot s operation_id >>= λ stored. ok (public_snapshot stored)

    unfoldable pub retrieve_result : S → String → AcceptedResult → Except ReadError Retrieved
    retrieve_result s operation_id accepted =
        map_err (λ _. retrieval storage_inspection_unavailable) (b.read_result_bytes s operation_id)
        >>= verified accepted

    abbrev pub read_accepted :
        S → String → OperationSnapshot → Option AcceptedResult → Except ReadError ResultReadOutcome
    read_accepted s operation_id snapshot none = ok (not_accepted (not_accepted_of snapshot))
    read_accepted s operation_id snapshot (some accepted) =
        retrieve_result s operation_id accepted >>= λ found.
        ok (retrieved found.acceptance_id found.result)

    unfoldable pub read_result : S → String → Except ReadError ResultReadOutcome
    read_result s operation_id = stored_snapshot s operation_id >>= λ snapshot.
        read_accepted s operation_id snapshot snapshot.operation.result
