-- ===== src/Reducer/Lifecycle.antt =====
-- src/internal/event-store/reducer.ts: the diagram of the states of an Operation, with the evidence
-- left out.
use pions.Prelude.{◌≡◌, false, ◌&&◌, not, arith}
use pions.Except.{ok}
use pions.Platform.{Platform}
use pions.Types.Evidence.{OperationState, queued, starting, running, cancelling, cancelled}
use pions.Operation.{Operation, EventMetadata, EventInput, operation_requested}
use pions.Reducer.Guards.{is_terminal}
use pions.Reducer.{is_cleanup_event, dispatch}

-- The states in which an Operation can be cancelled or lost.
pub data IsOpen : OperationState → Type 0 where
  queued_open : IsOpen queued
  starting_open : IsOpen starting
  running_open : IsOpen running

infix 40 ◌⟶◌
pub data ◌⟶◌ : OperationState → OperationState → Type 0 where
  stay : (s : OperationState) → s ⟶ s
  start : queued ⟶ starting
  acknowledge : starting ⟶ running
  complete : running ⟶ OperationState.completed
  fail_start : starting ⟶ OperationState.failed
  fail_run : running ⟶ OperationState.failed
  cancel : {s : OperationState} → IsOpen s → s ⟶ cancelling
  confirm_cancel : cancelling ⟶ cancelled
  doubt_cancel : cancelling ⟶ OperationState.unknown
  lose : {s : OperationState} → IsOpen s → s ⟶ OperationState.unknown

ruleset edges = (
  stay, start, acknowledge, complete, fail_start, fail_run, cancel, confirm_cancel, doubt_cancel,
  lose, queued_open, starting_open, running_open,
)

module _ (p : Platform) where
  pub dispatch-⟶ :
      (o : Operation) (m : EventMetadata) (e : EventInput) (n : Operation)
      → is_terminal o.state && not (is_cleanup_event e) ≡ false
      → dispatch p o m e ≡ ok n
      → o.state ⟶ n.state
  unfolding dispatch
  dispatch-⟶ o m (operation_requested _) n t h = cc
  dispatch-⟶ o m _ n t h = grind (arith, edges)
