-- ===== src/Reducer/Authentic/Defs.antt =====
-- What the recorded evidence of an Operation says of the rest of its record.
use pions.Prelude.{
  ◌<◌, ◌≡◌, Bool, true, false, ◌&&◌, ◌||◌, Option, none, some, leb, str_eq, is_some,
}
use pions.Platform.{Platform}
use pions.Types.Evidence.{
  WorkerIdentity, AcceptedResult, StartDeliveryAuthorityEvidence,
  StartInstructionAcknowledgementEvidence, StartInstructionReference,
}
use pions.Acceptance.{accepted_result_is_consistent}
use pions.Operation.{Operation, PresentationCleanupRecord}
use pions.Reducer.Guards.{
  is_starting, is_queued, is_cancelling, is_cancelled, valid_initial_configuration,
  valid_start_instruction_reference,
}
use pions.Reducer.Startup.{has_pane}
use pions.Reducer.Delivery.{matches, acceptance_reference}
use pions.Reducer.Cleanup.{owns_workspace}
use pions.Reducer.Stages.{is_unknown}

-- The Result is the Operation's own, within its limit, under the identifier of its bytes, and
-- recorded at an event that has been applied.
abbrev pub result_recorded : Platform → Operation → Option AcceptedResult → Bool
result_recorded p o none = true
result_recorded p o (some r) =
    accepted_result_is_consistent p r o.max_result_byte_count
    && str_eq r.operation_id o.operation_id
    && leb r.event_sequence_number o.state_seq

-- The Worker runs in the pane of the Operation's own presentation.
abbrev pub worker_in_pane : Operation → Option WorkerIdentity → Bool
worker_in_pane o none = true
worker_in_pane o (some identity) = has_pane o.presentation identity.pane_id

-- The authority names the identified Worker and the digest of what the start covers.
abbrev pub authority_recorded : Platform → Operation → Option StartDeliveryAuthorityEvidence → Bool
authority_recorded p o none = true
authority_recorded p o (some authority) =
    valid_start_instruction_reference p o authority.instruction

-- The acknowledged instruction is the one that the Worker accepted durably.
abbrev pub acknowledgement_recorded :
    Option StartInstructionReference → Option StartInstructionAcknowledgementEvidence → Bool
acknowledgement_recorded accepted none = true
acknowledgement_recorded accepted (some acknowledgement) =
    matches accepted acknowledgement.instruction

-- A cleanup is of the Operation's own workspace.
abbrev pub cleanup_recorded : Operation → Option PresentationCleanupRecord → Bool
cleanup_recorded o none = true
cleanup_recorded o (some cleanup) = owns_workspace o.presentation cleanup.workspace_id

pub record IsAuthentic (p : Platform) (o : Operation) : Type 0 where
  pub result : result_recorded p o o.result ≡ true
  pub worker : worker_in_pane o o.worker_identity ≡ true
  pub authority : authority_recorded p o o.start_delivery_authority ≡ true
  pub acknowledgement :
      acknowledgement_recorded
        (acceptance_reference o.start_instruction_acceptance)
        o.start_instruction_acknowledgement
      ≡ true
  pub acknowledged_left :
      is_some o.start_instruction_acknowledgement ≡ true
      → is_queued o.state || is_starting o.state ≡ false
  pub cleanup : cleanup_recorded o o.presentation_cleanup ≡ true
  pub epoch :
      0 < o.cancellation_epoch
      → is_cancelling o.state || is_cancelled o.state || is_unknown o.state ≡ true
  pub configuration :
      valid_initial_configuration (record {
        task = o.task;
        requested_config = o.requested_config;
        effective_config = o.effective_config;
        max_result_byte_count = o.max_result_byte_count;
      })
      ≡ true
