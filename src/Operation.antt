-- ===== src/Operation.antt =====
-- src/internal/event-store/model.ts and intent.ts: the durable state of one delegation, and the
-- events that change it. The numbers of events are natural: a negative one is refused by the guard
-- that refuses 0 (a sequence number, a process id, a new cancellation epoch) or equals no stored
-- value (the epoch that a later event repeats).
use pions.Prelude.{ℕ, String, Bool, Option, List}
use pions.Types.Configuration.{
  TaskSpec, RequestedWorkerConfig, EffectiveWorkerConfig, ObservedWorkerConfig,
}
use pions.Types.Evidence.{
  OperationState, StartInstructionReference, StartDeliveryAuthorityEvidence,
  StartDeliveryEntryEvidence, StartInstructionDeliveryEvidence, StartInstructionAcceptanceEvidence,
  StartInstructionAcknowledgementEvidence, AcceptanceState, StartDeliveryHandoffEvidence,
  CleanupDiagnosticCode, WorkerIdentity, AgentRunEvidence, OperationFailureReason, UnknownReason,
  TerminalReason, AcceptedResult,
}

-- `CreatedPresentation` with `ownedByPions`
pub record PresentationOwnership : Type 0 where
  pub kind : String
  pub workspace_id : String
  pub pane_id : String
  pub owned_by_pions : Bool

pub data CleanupState : Type 0 where
  pending completed unconfirmed : CleanupState

pub record PresentationCleanupRecord : Type 0 where
  pub cleanup_id : String
  pub workspace_id : String
  pub state : CleanupState
  pub started_at : String
  pub finished_at : Option String
  pub diagnostic : Option CleanupDiagnosticCode

pub record Operation : Type 0 where
  pub operation_id : String
  pub presentation : Option PresentationOwnership
  pub worker_identity : Option WorkerIdentity
  pub observed_config : Option ObservedWorkerConfig
  pub agent_run_evidence : Option AgentRunEvidence
  pub presentation_cleanup : Option PresentationCleanupRecord
  pub requested_config : RequestedWorkerConfig
  pub effective_config : EffectiveWorkerConfig
  pub max_result_byte_count : ℕ
  pub start_delivery_authority : Option StartDeliveryAuthorityEvidence
  pub start_delivery_entry : Option StartDeliveryEntryEvidence
  pub start_instruction_delivery : Option StartInstructionDeliveryEvidence
  pub start_instruction_acceptance : Option StartInstructionAcceptanceEvidence
  pub start_instruction_acknowledgement : Option StartInstructionAcknowledgementEvidence
  pub start_delivery_handoffs : List StartDeliveryHandoffEvidence
  pub result : Option AcceptedResult
  pub worker_stop_confirmed_at : Option String
  pub state : OperationState
  pub state_seq : ℕ
  pub worker_launched : Bool
  pub task : TaskSpec
  pub cancellation_epoch : ℕ
  pub failure_reason : Option OperationFailureReason
  pub terminal_reason : Option TerminalReason

abbrev pub event_schema_version : ℕ
event_schema_version = 29

abbrev pub runtime_actor_id : String
runtime_actor_id = "pions-runtime"

abbrev pub operation_authority : String
operation_authority = "operation:lifecycle"

pub record EventMetadata : Type 0 where
  pub event_id : String
  pub operation_id : String
  pub seq : ℕ
  pub timestamp : String
  pub actor_id : String
  pub authority : String
  pub schema_version : ℕ

pub record OperationRequested : Type 0 where
  pub task : TaskSpec
  pub requested_config : RequestedWorkerConfig
  pub effective_config : EffectiveWorkerConfig
  pub max_result_byte_count : ℕ

pub record GenerationConfirmation : Type 0 where
  pub dispatcher_id : String
  pub delivery_generation : ℕ
  pub acceptance_state : AcceptanceState
  pub accepted_instruction : Option StartInstructionReference

-- What an event says, without its metadata: one constructor for each `type`.
pub data EventInput : Type 0 where
  operation_requested : OperationRequested → EventInput
  presentation_owned : PresentationOwnership → EventInput
  operation_starting : EventInput
  worker_launched : EventInput
  worker_identified : WorkerIdentity → ObservedWorkerConfig → EventInput
  start_delivery_authority_acquired : StartInstructionReference → EventInput
  start_delivery_authority_revoked : String → ℕ → EventInput
  start_delivery_generation_confirmed : GenerationConfirmation → EventInput
  start_delivery_entered : StartInstructionReference → EventInput
  start_instruction_dispatched : StartInstructionReference → EventInput
  start_instruction_accepted : StartInstructionReference → String → EventInput
  start_instruction_acknowledged : StartInstructionReference → String → EventInput
  result_accepted : AcceptedResult → EventInput
  worker_stop_confirmed : String → EventInput
  agent_settled : AgentRunEvidence → EventInput
  operation_completed : EventInput
  operation_failed : OperationFailureReason → EventInput
  cancellation_requested : ℕ → EventInput
  cancel_dispatched : ℕ → EventInput
  cancel_acknowledged : ℕ → String → EventInput
  operation_cancelled : ℕ → EventInput
  operation_unknown : UnknownReason → Option ℕ → EventInput
  presentation_cleanup_started : String → String → EventInput
  presentation_cleanup_completed : String → String → EventInput
  presentation_cleanup_unconfirmed : String → String → CleanupDiagnosticCode → EventInput

pub record OperationEvent : Type 0 where
  pub metadata : EventMetadata
  pub open metadata use *
  pub input : EventInput
