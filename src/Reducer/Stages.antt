-- ===== src/Reducer/Stages.antt =====
-- src/internal/event-store/reducer.ts: which evidence an Operation holds in which state.
mod Defs
mod Startup
mod Delivery
mod Settlement
mod Cleanup
use pions.Prelude.{◌≡◌, sym, none, some, List, [], arith}
use mathlib.Core.Path.{subst}
use pions.Except.{ok}
use pions.Platform.{Platform}
use pions.Operation.{
  Operation, OperationEvent, EventMetadata, EventInput, operation_requested, presentation_owned,
  operation_starting, worker_launched, worker_identified, start_delivery_authority_acquired,
  start_delivery_authority_revoked, start_delivery_generation_confirmed, start_delivery_entered,
  start_instruction_dispatched, start_instruction_accepted, start_instruction_acknowledged,
  result_accepted, worker_stop_confirmed, agent_settled, operation_completed, operation_failed,
  cancellation_requested, cancel_dispatched, cancel_acknowledged, operation_cancelled,
  operation_unknown, presentation_cleanup_started, presentation_cleanup_completed,
  presentation_cleanup_unconfirmed,
}
use pions.Reducer.Startup.{initial}
use pions.Reducer.Guards.{presentation_cleanup_eligible}
use pions.Reducer.{dispatch, create, replay_operation}
use pions.Reducer.Steps.{create-eq-ok, replay_from-Holds}
use Defs.{IsStaged, Ensures}
use Startup.{
  on_presentation_owned-IsStaged, on_operation_starting-IsStaged, on_worker_launched-IsStaged,
  on_worker_identified-IsStaged,
}
use Delivery.{
  on_authority_acquired-IsStaged, on_authority_revoked-IsStaged, on_generation_confirmed-IsStaged,
  on_delivery_entered-IsStaged, on_instruction_dispatched-IsStaged,
  on_instruction_accepted-IsStaged, on_instruction_acknowledged-IsStaged,
}
use Settlement.{
  on_result_accepted-IsStaged, on_worker_stop_confirmed-IsStaged, on_agent_settled-IsStaged,
  on_operation_completed-IsStaged, on_operation_failed-IsStaged, on_cancellation_requested-IsStaged,
  on_cancel_dispatched-IsStaged, on_cancel_acknowledged-IsStaged, on_operation_cancelled-IsStaged,
  on_operation_unknown-IsStaged,
}
use Cleanup.{
  on_cleanup_started-IsStaged, on_cleanup_completed-IsStaged, on_cleanup_unconfirmed-IsStaged,
}
pub use Defs.{IsStaged, is_failed, is_unknown}

module _ (p : Platform) where
  pub dispatch-IsStaged :
      {o : Operation} (m : EventMetadata) (e : EventInput)
      → IsStaged o
      → Ensures IsStaged (dispatch p o m e)
  unfolding dispatch
  dispatch-IsStaged m (operation_requested x) v = λ next h. cc
  dispatch-IsStaged m (presentation_owned x) v = on_presentation_owned-IsStaged m x v
  dispatch-IsStaged m operation_starting v = on_operation_starting-IsStaged m v
  dispatch-IsStaged m worker_launched v = on_worker_launched-IsStaged m v
  dispatch-IsStaged m (worker_identified x c) v = on_worker_identified-IsStaged m x c v
  dispatch-IsStaged m (start_delivery_authority_acquired x) v =
      on_authority_acquired-IsStaged p m x v
  dispatch-IsStaged m (start_delivery_authority_revoked x n) v =
      on_authority_revoked-IsStaged m x n v
  dispatch-IsStaged m (start_delivery_generation_confirmed x) v =
      on_generation_confirmed-IsStaged p m x v
  dispatch-IsStaged m (start_delivery_entered x) v = on_delivery_entered-IsStaged m x v
  dispatch-IsStaged m (start_instruction_dispatched x) v = on_instruction_dispatched-IsStaged m x v
  dispatch-IsStaged m (start_instruction_accepted x y) v = on_instruction_accepted-IsStaged m x y v
  dispatch-IsStaged m (start_instruction_acknowledged x y) v =
      on_instruction_acknowledged-IsStaged m x y v
  dispatch-IsStaged m (result_accepted x) v = on_result_accepted-IsStaged p m x v
  dispatch-IsStaged m (worker_stop_confirmed x) v = on_worker_stop_confirmed-IsStaged m x v
  dispatch-IsStaged m (agent_settled x) v = on_agent_settled-IsStaged m x v
  dispatch-IsStaged m operation_completed v = on_operation_completed-IsStaged m v
  dispatch-IsStaged m (operation_failed x) v = on_operation_failed-IsStaged m x v
  dispatch-IsStaged m (cancellation_requested n) v = on_cancellation_requested-IsStaged m n v
  dispatch-IsStaged m (cancel_dispatched n) v = on_cancel_dispatched-IsStaged m n v
  dispatch-IsStaged m (cancel_acknowledged n x) v = on_cancel_acknowledged-IsStaged m n x v
  dispatch-IsStaged m (operation_cancelled n) v = on_operation_cancelled-IsStaged m n v
  dispatch-IsStaged m (operation_unknown x n) v = on_operation_unknown-IsStaged m x n v
  dispatch-IsStaged m (presentation_cleanup_started x y) v = on_cleanup_started-IsStaged m x y v
  dispatch-IsStaged m (presentation_cleanup_completed x y) v = on_cleanup_completed-IsStaged m x y v
  dispatch-IsStaged m (presentation_cleanup_unconfirmed x y z) v =
      on_cleanup_unconfirmed-IsStaged m x y z v

  pub create-IsStaged :
      (m : EventMetadata) (e : EventInput) (next : Operation)
      → create p m e ≡ ok next
      → IsStaged next
  unfolding initial presentation_cleanup_eligible
  create-IsStaged m e next h =
      let (r, _, _, _, made) = create-eq-ok p m e h in subst IsStaged (sym made) (ground arith)

  -- Every Operation that a list of events replays to has the evidence that its state asks for.
  pub replay-IsStaged :
      (events : List OperationEvent) {o : Operation}
      → replay_operation p events ≡ ok (some o)
      → IsStaged o
  unfolding replay_operation
  replay-IsStaged events h =
      replay_from-Holds p IsStaged create-IsStaged
        (λ o m e next v a. dispatch-IsStaged m e v next a.dispatched) [] none events tt h
