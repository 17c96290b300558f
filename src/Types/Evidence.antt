-- ===== src/Types/Evidence.antt =====
-- src/internal/types.ts, src/internal/services.ts: the states of an Operation and the evidence that
-- it records. An interface that extends `StartInstructionReference` has it as its opened field.
use pions.Prelude.{ℕ, String, Bool, Option, List}

pub data OperationState : Type 0 where
  queued starting running cancelling completed failed cancelled unknown : OperationState

pub record StartInstructionReference : Type 0 where
  pub dispatcher_id : String
  pub worker_process_instance_id : String
  pub receipt_digest : String
  pub delivery_generation : ℕ

pub record StartDeliveryAuthorityEvidence : Type 0 where
  pub instruction : StartInstructionReference
  pub open instruction use *
  pub acquired_at : String

pub record StartDeliveryEntryEvidence : Type 0 where
  pub instruction : StartInstructionReference
  pub open instruction use *
  pub entered_at : String

pub record StartInstructionDeliveryEvidence : Type 0 where
  pub instruction : StartInstructionReference
  pub open instruction use *
  pub dispatched_at : String

pub record StartInstructionAcceptanceEvidence : Type 0 where
  pub instruction : StartInstructionReference
  pub open instruction use *
  pub accepted_at : String
  pub proof : String

pub record StartInstructionAcknowledgementEvidence : Type 0 where
  pub instruction : StartInstructionReference
  pub open instruction use *
  pub acknowledged_at : String
  pub proof : String

pub data AcceptanceState : Type 0 where
  not_accepted accepted unknown : AcceptanceState

pub record StartDeliveryHandoffEvidence : Type 0 where
  pub previous_dispatcher_id : String
  pub previous_delivery_generation : ℕ
  pub successor_dispatcher_id : String
  pub delivery_generation : ℕ
  pub authority_revoked_at : String
  pub worker_generation_confirmed_at : Option String
  pub acceptance_state : Option AcceptanceState

pub data CleanupDiagnosticCode : Type 0 where
  workspace_close_failed workspace_identity_missing workspace_identity_unavailable
        cleanup_record_unavailable :
      CleanupDiagnosticCode

pub record WorkerIdentity : Type 0 where
  pub process_id : ℕ
  pub process_instance_id : String
  pub process_start_token : String
  pub pi_session_id : String
  pub pane_id : String

-- A finite double, ± mantissa * 2 ^ exponent / 2 ^ 1074. The program only carries these.
pub record Double : Type 0 where
  pub negative : Bool
  pub mantissa : ℕ
  pub exponent : ℕ

pub record PiUsage : Type 0 where
  pub input : Double
  pub output : Double
  pub cache_read : Double
  pub cache_write : Double
  pub total_tokens : Double
  pub cost : Double

pub record PiToolUse : Type 0 where
  pub tool_call_id : String
  pub tool_name : String
  pub is_error : Bool

pub record AgentRunEvidence : Type 0 where
  pub usage : PiUsage
  pub tool_uses : List PiToolUse
  pub error_message : Option String

pub data OperationFailureReason : Type 0 where
  worker_start_failed worker_protocol_failed process_exited_without_result agent_failed
        model_mismatch thinking_level_mismatch tool_policy_violation :
      OperationFailureReason

pub data UnknownReason : Type 0 where
  cancel_unproven start_acceptance_unknown liveness_unproven : UnknownReason

-- `terminalReason`: the reason of a failure or of an unknown outcome
pub data TerminalReason : Type 0 where
  failure : OperationFailureReason → TerminalReason
  unproven : UnknownReason → TerminalReason

pub record AcceptedResult : Type 0 where
  pub acceptance_id : String
  pub operation_id : String
  pub acceptance_request_id : String
  pub accepted_at : String
  pub event_sequence_number : ℕ
  pub byte_count : ℕ
  pub digest : String
