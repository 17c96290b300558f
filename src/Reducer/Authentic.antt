-- ===== src/Reducer/Authentic.antt =====
-- src/internal/event-store/reducer.ts: the recorded evidence, from event to event.
mod Defs
pub use Defs.{
  IsAuthentic, result_recorded, worker_in_pane, authority_recorded, acknowledgement_recorded,
  cleanup_recorded,
}
use mathlib.Core.Path.{subst}
use pions.Prelude.{
  ◌+◌, ◌<◌, ◌≡◌, refl, sym, true, false, ◌&&◌, ◌||◌, not, Option, none, some, List, [], leb, str_eq,
  is_some, eq_iff, arith,
}
use pions.Except.{ok}
use pions.Platform.{Platform}
use pions.Operation.{
  Operation, OperationEvent, EventMetadata, EventInput, OperationRequested, operation_requested,
  start_delivery_authority_acquired,
}
use pions.Reducer.Guards.{
  is_terminal, is_starting, is_queued, is_cancelling, is_cancelled, valid_initial_configuration,
  valid_start_instruction_reference,
}
use pions.Reducer.Startup.{initial}
use pions.Reducer.Delivery.{acceptance_reference}
use pions.Reducer.Stages.{is_unknown}
use pions.Reducer.{is_cleanup_event, dispatch, create, replay_operation}
use pions.Reducer.Steps.{Admitted, create-eq-ok, replay_from-Holds}
use pions.Types.Evidence.{StartDeliveryAuthorityEvidence}
use pions.Reducer.Extends.{Extends, dispatch-Extends}
use Defs.{IsAuthentic}

module _ (p : Platform) (o : Operation) (m : EventMetadata) where
  result_kept :
      (e : EventInput) {next : Operation}
      → result_recorded p o o.result ≡ true
      → m.seq ≡ o.state_seq + 1
      → dispatch p o m e ≡ ok next
      → result_recorded p next next.result ≡ true
  unfolding dispatch
  result_kept (operation_requested _) v x h = cc
  result_kept _ v x h = ground arith

  worker_kept :
      (e : EventInput) {next : Operation}
      → worker_in_pane o o.worker_identity ≡ true
      → dispatch p o m e ≡ ok next
      → worker_in_pane next next.worker_identity ≡ true
  unfolding dispatch
  worker_kept (operation_requested _) v h = cc
  worker_kept _ v h = ground arith

  -- A new authority is one that is valid for the Operation as it was,
  authority_source :
      (e : EventInput) {next : Operation}
      → authority_recorded p o o.start_delivery_authority ≡ true
      → dispatch p o m e ≡ ok next
      → authority_recorded p o next.start_delivery_authority ≡ true
  unfolding dispatch
  authority_source (operation_requested _) v h = cc
  authority_source _ v h = ground arith

  -- and what an authority is checked against never changes.
  authority_stays :
      (a : Option StartDeliveryAuthorityEvidence) {next : Operation}
      → Extends o next
      → authority_recorded p o a ≡ true
      → authority_recorded p next a ≡ true
  unfolding valid_start_instruction_reference
  authority_stays none x v = refl
  authority_stays (some a) x v = ground arith

  authority_kept :
      (e : EventInput) {next : Operation}
      → authority_recorded p o o.start_delivery_authority ≡ true
      → dispatch p o m e ≡ ok next
      → authority_recorded p next next.start_delivery_authority ≡ true
  authority_kept e {next} v h =
      authority_stays next.start_delivery_authority (dispatch-Extends p o m e h)
        (authority_source e v h)

  acknowledgement_kept :
      (e : EventInput) {next : Operation}
      → acknowledgement_recorded
          (acceptance_reference o.start_instruction_acceptance)
          o.start_instruction_acknowledgement
        ≡ true
      → (is_some o.start_instruction_acknowledgement ≡ true
          → is_queued o.state || is_starting o.state ≡ false)
      → dispatch p o m e ≡ ok next
      → acknowledgement_recorded
          (acceptance_reference next.start_instruction_acceptance)
          next.start_instruction_acknowledgement
        ≡ true
  unfolding dispatch
  acknowledgement_kept (operation_requested _) v x h = cc
  acknowledgement_kept _ v x h = ground arith

  acknowledged_left_kept :
      (e : EventInput) {next : Operation}
      → (is_some o.start_instruction_acknowledgement ≡ true
          → is_queued o.state || is_starting o.state ≡ false)
      → dispatch p o m e ≡ ok next
      → (is_some next.start_instruction_acknowledgement ≡ true
          → is_queued next.state || is_starting next.state ≡ false)
  unfolding dispatch
  acknowledged_left_kept (operation_requested _) v h = cc
  acknowledged_left_kept _ v h = ground arith

  cleanup_kept :
      (e : EventInput) {next : Operation}
      → cleanup_recorded o o.presentation_cleanup ≡ true
      → dispatch p o m e ≡ ok next
      → cleanup_recorded next next.presentation_cleanup ≡ true
  unfolding dispatch
  cleanup_kept (operation_requested _) v h = cc
  cleanup_kept _ v h = ground arith

  epoch_kept :
      (e : EventInput) {next : Operation}
      → (0 < o.cancellation_epoch
          → is_cancelling o.state || is_cancelled o.state || is_unknown o.state ≡ true)
      → is_terminal o.state && not (is_cleanup_event e) ≡ false
      → dispatch p o m e ≡ ok next
      → (0 < next.cancellation_epoch
          → is_cancelling next.state || is_cancelled next.state || is_unknown next.state ≡ true)
  unfolding dispatch
  epoch_kept (operation_requested _) v x h = cc
  epoch_kept _ v x h = ground arith

  configuration_kept :
      {next : Operation}
      → IsAuthentic p o
      → Extends o next
      → valid_initial_configuration (record {
        task = next.task;
        requested_config = next.requested_config;
        effective_config = next.effective_config;
        max_result_byte_count = next.max_result_byte_count;
      })
        ≡ true
  configuration_kept v x =
      rw (x.task, x.requested_config, x.effective_config, x.max_result_byte_count) v.configuration

  Admitted-IsAuthentic :
      (e : EventInput) (next : Operation)
      → IsAuthentic p o
      → Admitted p o m e next
      → IsAuthentic p next
  Admitted-IsAuthentic e next v a = record {
    result = result_kept e v.result a.successor a.dispatched;
    worker = worker_kept e v.worker a.dispatched;
    authority = authority_kept e v.authority a.dispatched;
    acknowledgement = acknowledgement_kept e v.acknowledgement v.acknowledged_left a.dispatched;
    acknowledged_left = acknowledged_left_kept e v.acknowledged_left a.dispatched;
    cleanup = cleanup_kept e v.cleanup a.dispatched;
    epoch = epoch_kept e v.epoch a.alive a.dispatched;
    configuration = configuration_kept v (dispatch-Extends p o m e a.dispatched);
  }

module _ (p : Platform) where
  initial-IsAuthentic :
      (m : EventMetadata) (r : OperationRequested)
      → valid_initial_configuration r ≡ true
      → IsAuthentic p (initial m r)
  unfolding initial
  initial-IsAuthentic m r v = record {
    result = refl;
    worker = refl;
    authority = refl;
    acknowledgement = refl;
    acknowledged_left = λ h. cc;
    cleanup = refl;
    epoch = λ h. absurd (omega arith);
    configuration = v;
  }

  create-IsAuthentic :
      (m : EventMetadata) (e : EventInput) (next : Operation)
      → create p m e ≡ ok next
      → IsAuthentic p next
  create-IsAuthentic m e next h =
      let (r, _, _, valid, made) = create-eq-ok p m e h in
      subst (IsAuthentic p) (sym made) (initial-IsAuthentic m r valid)

  -- In every Operation that a list of events replays to: the Result is consistent, of this
  -- Operation, and numbered by an event of it; the Worker runs in the Operation's own pane; the
  -- delivery authority names the identified Worker and the start scope; the acknowledged start
  -- instruction is the accepted one, and after it the Operation is no longer queued or starting; a
  -- cleanup is of the Operation's own workspace; a cancellation epoch above 0 means a cancelling,
  -- cancelled or unknown Operation; and the configuration is still valid.
  pub replay-IsAuthentic :
      (events : List OperationEvent) {o : Operation}
      → replay_operation p events ≡ ok (some o)
      → IsAuthentic p o
  unfolding replay_operation
  replay-IsAuthentic events h =
      replay_from-Holds p (IsAuthentic p) create-IsAuthentic
        (λ o m e next v a. Admitted-IsAuthentic p o m e next v a) [] none events tt h
