-- ===== src/Reducer.antt =====
-- src/internal/event-store/reducer.ts: `reduceOperation`, which applies one event to an Operation,
-- and `replayOperation`, which rebuilds an Operation from its events. A thrown `TransitionError` is
-- an `err`. The cases of the switch are the handlers of the modules below.
pub mod Guards
pub mod Startup
pub mod Delivery
pub mod Settlement
pub mod Cleanup
pub mod Steps
pub mod Stages
pub mod Extends
pub mod Lifecycle
pub mod Authentic
pub mod Handoffs
pub mod History
use pions.Prelude.{
  ◌+◌, String, Bool, true, false, ◌&&◌, not, Option, none, some, List, [], ◌∷◌, ◌==◌, str_eq, any,
}
use pions.Except.{Except, ok, err, throw_if, ◌>>=◌, ◌>>◌}
use pions.Platform.{Platform}
use pions.Operation.{
  Operation, OperationEvent, EventMetadata, EventInput, operation_requested, presentation_owned,
  operation_starting, worker_launched, worker_identified, start_delivery_authority_acquired,
  start_delivery_authority_revoked, start_delivery_generation_confirmed, start_delivery_entered,
  start_instruction_dispatched, start_instruction_accepted, start_instruction_acknowledged,
  result_accepted, worker_stop_confirmed, agent_settled, operation_completed, operation_failed,
  cancellation_requested, cancel_dispatched, cancel_acknowledged, operation_cancelled,
  operation_unknown, presentation_cleanup_started, presentation_cleanup_completed,
  presentation_cleanup_unconfirmed,
}
use pions.Reducer.Guards.{
  TransitionErrorCode, operation_required, operation_already_exists, operation_id_mismatch,
  duplicate_event, unexpected_sequence, illegal_transition, terminal_state_immutable, Reduction,
  is_terminal, presentation_cleanup_eligible, validate_envelope,
}
use pions.Reducer.Startup.{
  on_operation_requested, on_presentation_owned, on_operation_starting, on_worker_launched,
  on_worker_identified,
}
use pions.Reducer.Delivery.{
  on_authority_acquired, on_authority_revoked, on_generation_confirmed, on_delivery_entered,
  on_instruction_dispatched, on_instruction_accepted, on_instruction_acknowledged,
}
use pions.Reducer.Settlement.{
  on_result_accepted, on_worker_stop_confirmed, on_agent_settled, on_operation_completed,
  on_operation_failed, on_cancellation_requested, on_cancel_dispatched, on_cancel_acknowledged,
  on_operation_cancelled, on_operation_unknown,
}
use pions.Reducer.Cleanup.{on_cleanup_started, on_cleanup_completed, on_cleanup_unconfirmed}

abbrev pub is_cleanup_event : EventInput → Bool
is_cleanup_event (presentation_cleanup_started _ _) = true
is_cleanup_event (presentation_cleanup_completed _ _) = true
is_cleanup_event (presentation_cleanup_unconfirmed _ _ _) = true
is_cleanup_event _ = false

abbrev pub is_request : EventInput → Bool
is_request (operation_requested _) = true
is_request _ = false

module _ (p : Platform) where
  -- The switch; a request never reaches it.
  unfoldable pub dispatch : Operation → EventMetadata → EventInput → Reduction
  unfolding on_presentation_owned on_operation_starting on_worker_launched on_worker_identified
      on_authority_acquired on_authority_revoked on_generation_confirmed on_delivery_entered
      on_instruction_dispatched on_instruction_accepted on_instruction_acknowledged
      on_result_accepted on_worker_stop_confirmed on_agent_settled on_operation_completed
      on_operation_failed on_cancellation_requested on_cancel_dispatched on_cancel_acknowledged
      on_operation_cancelled on_operation_unknown on_cleanup_started on_cleanup_completed
      on_cleanup_unconfirmed presentation_cleanup_eligible
  dispatch o m (operation_requested _) = err operation_already_exists
  dispatch o m (presentation_owned x) = on_presentation_owned o m x
  dispatch o m operation_starting = on_operation_starting o m
  dispatch o m worker_launched = on_worker_launched o m
  dispatch o m (worker_identified x config) = on_worker_identified o m x config
  dispatch o m (start_delivery_authority_acquired x) = on_authority_acquired p o m x
  dispatch o m (start_delivery_authority_revoked x n) = on_authority_revoked o m x n
  dispatch o m (start_delivery_generation_confirmed x) = on_generation_confirmed p o m x
  dispatch o m (start_delivery_entered x) = on_delivery_entered o m x
  dispatch o m (start_instruction_dispatched x) = on_instruction_dispatched o m x
  dispatch o m (start_instruction_accepted x proof) = on_instruction_accepted o m x proof
  dispatch o m (start_instruction_acknowledged x proof) = on_instruction_acknowledged o m x proof
  dispatch o m (result_accepted x) = on_result_accepted p o m x
  dispatch o m (worker_stop_confirmed proof) = on_worker_stop_confirmed o m proof
  dispatch o m (agent_settled x) = on_agent_settled o m x
  dispatch o m operation_completed = on_operation_completed o m
  dispatch o m (operation_failed reason) = on_operation_failed o m reason
  dispatch o m (cancellation_requested epoch) = on_cancellation_requested o m epoch
  dispatch o m (cancel_dispatched epoch) = on_cancel_dispatched o m epoch
  dispatch o m (cancel_acknowledged epoch proof) = on_cancel_acknowledged o m epoch proof
  dispatch o m (operation_cancelled epoch) = on_operation_cancelled o m epoch
  dispatch o m (operation_unknown reason epoch) = on_operation_unknown o m reason epoch
  dispatch o m (presentation_cleanup_started x y) = on_cleanup_started o m x y
  dispatch o m (presentation_cleanup_completed x y) = on_cleanup_completed o m x y
  dispatch o m (presentation_cleanup_unconfirmed x y reason) = on_cleanup_unconfirmed o m x y reason

  -- No Operation yet: only a request, with the first sequence number.
  unfoldable pub create : EventMetadata → EventInput → Reduction
  create m (operation_requested event) = do
    throw_if (not (m.seq == 1)) unexpected_sequence
    on_operation_requested m event
  create m _ = err operation_required

  unfoldable pub advance : Operation → EventMetadata → EventInput → Reduction
  advance current m input = do
    throw_if (is_request input) operation_already_exists
    throw_if (not (str_eq m.operation_id current.operation_id)) operation_id_mismatch
    throw_if (not (m.seq == current.state_seq + 1)) unexpected_sequence
    throw_if (is_terminal current.state && not (is_cleanup_event input)) terminal_state_immutable
    dispatch current m input

  abbrev pub reduce_current : Option Operation → EventMetadata → EventInput → Reduction
  reduce_current none m input = create m input
  reduce_current (some current) m input = advance current m input

  unfoldable pub reduce_operation : Option Operation → OperationEvent → Reduction
  reduce_operation current event = do
    validate_envelope event.metadata
    reduce_current current event.metadata event.input

  -- The loop of `replayOperation`, over the identifiers seen and the Operation so far.
  unfoldable pub replay_from :
      List String
      → Option Operation
      → List OperationEvent
      → Except TransitionErrorCode (Option Operation)
  replay_from event_ids operation [] = ok operation
  replay_from event_ids operation (event ∷ events) = do
    throw_if (not (p.is_timestamp event.timestamp)) illegal_transition
    throw_if (any (str_eq event.event_id) event_ids) duplicate_event
    next ← reduce_operation operation event
    replay_from (event.event_id ∷ event_ids) (some next) events

  unfoldable pub replay_operation :
      List OperationEvent → Except TransitionErrorCode (Option Operation)
  unfolding replay_from
  replay_operation events = replay_from [] none events
