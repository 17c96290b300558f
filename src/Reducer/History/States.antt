-- ===== src/Reducer/History/States.antt =====
-- src/internal/event-store/reducer.ts: one step of the state of an Operation, and the steps that are
-- left at the end of its life.
use pions.Prelude.{◌≡◌, true, some, arith}
use pions.Except.{ok, >>-eq-ok}
use pions.Platform.{Platform}
use pions.Operation.{Operation, OperationEvent}
use pions.Reducer.Guards.{is_terminal, validate_envelope}
use pions.Reducer.{is_cleanup_event, reduce_operation}
use pions.Reducer.Steps.{advance-Admitted}
use pions.Reducer.Extends.{dispatch_terminal}
use pions.Reducer.Lifecycle.{◌⟶◌, dispatch-⟶}

module _ (p : Platform) where
  -- An event that the reducer accepts leaves the Operation in its state or takes it along one of the
  -- edges of the diagram: from `queued` to `starting`, from `starting` to `running` or `failed`, from
  -- `running` to `completed` or `failed`, from each of `queued`, `starting` and `running` to
  -- `cancelling` or `unknown`, and from `cancelling` to `cancelled` or `unknown`.
  pub reduce-⟶ :
      (o : Operation) (e : OperationEvent) {n : Operation}
      → reduce_operation p (some o) e ≡ ok n
      → o.state ⟶ n.state
  unfolding reduce_operation
  reduce-⟶ o e {n} h =
      let a =
        advance-Admitted p o e.metadata e.input (>>-eq-ok (validate_envelope e.metadata) _ h).1 in
      dispatch-⟶ p o e.metadata e.input n a.alive a.dispatched

  -- An event that a terminal Operation accepts is one of the presentation cleanup, and it changes
  -- nothing but the cleanup record and the sequence number.
  pub reduce_terminal :
      (o : Operation) (e : OperationEvent) {n : Operation}
      → is_terminal o.state ≡ true
      → reduce_operation p (some o) e ≡ ok n
      → (is_cleanup_event e.input ≡ true)
        × (n ≡ record o { presentation_cleanup = n.presentation_cleanup; state_seq = n.state_seq })
  unfolding reduce_operation
  reduce_terminal o e t h =
      let a =
        advance-Admitted p o e.metadata e.input (>>-eq-ok (validate_envelope e.metadata) _ h).1 in
      (ground (arith, a.alive), dispatch_terminal p o e.metadata e.input a.alive t a.dispatched)
