-- ===== src/Runtime/Confirmation.antt =====
-- src/internal/runtime.ts: the hook `deliveryGenerationConfirmed`, in which a recovered Worker says
-- whether it has accepted its start instruction.
pub mod Ends
use pions.Prelude.{ℕ, String, Bool, not, Option, none, some, is_some}
use pions.Platform.{Platform}
use pions.Types.Evidence.{
  AcceptanceState, StartInstructionReference, WorkerIdentity, StartDeliveryAuthorityEvidence,
  UnknownReason,
}
use pions.Operation.{
  Operation, EventInput, GenerationConfirmation, start_delivery_authority_acquired,
  start_delivery_generation_confirmed, start_instruction_accepted, start_instruction_acknowledged,
  operation_unknown,
}
use pions.Codec.{StoreErrorCode}
use pions.Store.Backend.{Storage}
use pions.OperationReader.{persistence}
use pions.Runtime.{Run, return, throw, ◌>>=◌, ◌>>◌, when, get_operation, advance}

-- The hook returns, or fails with a `StartDeliveryAbortedError`.
pub data ConfirmationAnswer : Type 0 where
  confirmed aborted : ConfirmationAnswer

module _ (p : Platform) {S : Type 0} (b : Storage S) (clock : ℕ → String)
    (operation_id : String) where
  abbrev pub do_advance : EventInput → Run S Operation
  do_advance = advance p b clock operation_id

  abbrev pub reread : Run S Operation
  reread = get_operation p b clock operation_id

  abbrev pub corrupt : Run S ConfirmationAnswer
  corrupt = throw (persistence StoreErrorCode.corrupt_record)

  abbrev pub acknowledge_start : StartInstructionReference → Operation → Run S (Unit {0})
  acknowledge_start accepted current =
      when (not (is_some current.start_instruction_acknowledgement)) (
        do_advance
          (start_instruction_acknowledged accepted "authenticated-generation-acknowledgement"))

  -- The Worker has accepted the instruction.
  unfoldable pub confirm_accepted :
      Option StartInstructionReference → Operation → Run S ConfirmationAnswer
  confirm_accepted none current = corrupt
  confirm_accepted (some accepted) current =
      when (not (is_some current.start_instruction_acceptance))
        (do_advance (start_instruction_accepted accepted "worker-durable-acceptance"))
      >> (reread >>= acknowledge_start accepted)
      >> return confirmed

  -- The Worker has not accepted it: the successor takes over the delivery.
  unfoldable pub take_over :
      GenerationConfirmation
      → Option StartDeliveryAuthorityEvidence
      → Option WorkerIdentity
      → Run S ConfirmationAnswer
  take_over confirmation (some previous) (some identity) =
      do_advance (
        start_delivery_authority_acquired (record {
          dispatcher_id = confirmation.dispatcher_id;
          worker_process_instance_id = identity.process_instance_id;
          receipt_digest = previous.receipt_digest;
          delivery_generation = confirmation.delivery_generation;
        }))
      >> return confirmed
  take_over confirmation _ _ = corrupt

  unfoldable pub confirmed_as : AcceptanceState → GenerationConfirmation → Run S ConfirmationAnswer
  confirmed_as AcceptanceState.unknown confirmation =
      do_advance (operation_unknown UnknownReason.start_acceptance_unknown none) >> return aborted
  confirmed_as AcceptanceState.accepted confirmation =
      reread >>= confirm_accepted confirmation.accepted_instruction
  confirmed_as AcceptanceState.not_accepted confirmation = reread >>= λ current.
      take_over confirmation current.start_delivery_authority current.worker_identity

  unfoldable pub generation_confirmed : GenerationConfirmation → Run S ConfirmationAnswer
  generation_confirmed confirmation =
      do_advance (start_delivery_generation_confirmed confirmation)
      >> confirmed_as confirmation.acceptance_state confirmation
