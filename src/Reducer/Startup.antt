-- ===== src/Reducer/Startup.antt =====
-- src/internal/event-store/reducer.ts: the first event of an Operation, and the cases up to the
-- identified Worker.
use pions.Prelude.{
  String, Bool, true, false, ◌||◌, not, Option, none, some, [], ltb, str_eq, is_some, non_empty,
}
use pions.Text.{is_safe_integer}
use pions.Types.Configuration.{ObservedWorkerConfig}
use pions.Types.Evidence.{queued, starting, WorkerIdentity}
use pions.Operation.{Operation, PresentationOwnership, EventMetadata, OperationRequested}
use pions.Reducer.Guards.{
  illegal_transition, Reduction, is_queued, is_starting, is_started, valid_initial_configuration,
  refuse_if,
}

unfoldable pub initial : EventMetadata → OperationRequested → Operation
initial m event = record {
  operation_id = m.operation_id;
  presentation = none;
  worker_identity = none;
  observed_config = none;
  agent_run_evidence = none;
  presentation_cleanup = none;
  requested_config = event.requested_config;
  effective_config = event.effective_config;
  max_result_byte_count = event.max_result_byte_count;
  start_delivery_authority = none;
  start_delivery_entry = none;
  start_instruction_delivery = none;
  start_instruction_acceptance = none;
  start_instruction_acknowledgement = none;
  start_delivery_handoffs = [];
  result = none;
  worker_stop_confirmed_at = none;
  state = queued;
  state_seq = m.seq;
  worker_launched = false;
  task = event.task;
  cancellation_epoch = 0;
  failure_reason = none;
  terminal_reason = none;
}

unfoldable pub on_operation_requested : EventMetadata → OperationRequested → Reduction
on_operation_requested m event =
    refuse_if (not (valid_initial_configuration event)) illegal_transition (initial m event)

unfoldable pub on_presentation_owned : Operation → EventMetadata → PresentationOwnership → Reduction
on_presentation_owned current m presentation =
    refuse_if
      (not (is_queued current.state)
        || is_some current.presentation
        || not (str_eq presentation.kind "herdr_workspace")
        || not (non_empty presentation.workspace_id)
        || not (non_empty presentation.pane_id)
        || not presentation.owned_by_pions)
      illegal_transition (record current { presentation = some presentation; state_seq = m.seq })

unfoldable pub on_operation_starting : Operation → EventMetadata → Reduction
on_operation_starting current m =
    refuse_if (not (is_queued current.state) || not (is_some current.presentation))
      illegal_transition (record current { state = starting; state_seq = m.seq })

unfoldable pub on_worker_launched : Operation → EventMetadata → Reduction
on_worker_launched current m =
    refuse_if (not (is_starting current.state) || current.worker_launched) illegal_transition
      (record current { worker_launched = true; state_seq = m.seq })

-- `presentation !== undefined && paneId === presentation.paneId`
abbrev pub has_pane : Option PresentationOwnership → String → Bool
has_pane none pane_id = false
has_pane (some presentation) pane_id = str_eq pane_id presentation.pane_id

unfoldable pub on_worker_identified :
    Operation → EventMetadata → WorkerIdentity → ObservedWorkerConfig → Reduction
on_worker_identified current m identity config =
    refuse_if
      (not (is_started current.state)
        || not current.worker_launched
        || is_some current.worker_identity
        || not (is_safe_integer identity.process_id)
        || ltb identity.process_id 1
        || not (non_empty identity.process_instance_id)
        || not (non_empty identity.process_start_token)
        || not (non_empty identity.pi_session_id)
        || not (has_pane current.presentation identity.pane_id))
      illegal_transition
      (record current {
        worker_identity = some identity;
        observed_config = some config;
        state_seq = m.seq;
      })
