-- ===== src/Reducer/Handoffs.antt =====
-- src/internal/event-store/reducer.ts: handoffs that wait for their confirmation.
use mathlib.Core.Path.{subst}
use pions.Prelude.{
  ◌+◌, ◌≡◌, refl, sym, true, false, ◌&&◌, ◌||◌, not, Option, none, some, List, [], str_eq, ◌==◌,
  is_some, Bool, get_last?, get_last?-append, arith,
}
use pions.Except.{ok}
use pions.Platform.{Platform}
use pions.Types.Evidence.{StartDeliveryAuthorityEvidence, StartDeliveryHandoffEvidence}
use pions.Operation.{
  Operation, OperationEvent, EventMetadata, EventInput, operation_requested,
  start_delivery_authority_revoked, start_delivery_generation_confirmed,
}
use pions.Reducer.Startup.{initial}
use pions.Reducer.{dispatch, create, replay_operation}
use pions.Reducer.Steps.{create-eq-ok, replay_from-Holds}

abbrev pub is_next :
    Option StartDeliveryAuthorityEvidence → Option StartDeliveryHandoffEvidence → Bool
is_next authority none = true
is_next none (some handoff) = false
is_next (some authority) (some handoff) =
    is_some handoff.worker_generation_confirmed_at
    || (handoff.delivery_generation == authority.delivery_generation + 1
        && not (str_eq handoff.successor_dispatcher_id authority.dispatcher_id))

module _ (p : Platform) where
  next_kept :
      (o : Operation) (m : EventMetadata) (e : EventInput) {next : Operation}
      → is_next o.start_delivery_authority (get_last? o.start_delivery_handoffs) ≡ true
      → dispatch p o m e ≡ ok next
      → is_next next.start_delivery_authority (get_last? next.start_delivery_handoffs) ≡ true
  unfolding dispatch
  next_kept o m (operation_requested _) v h = cc
  next_kept o m (start_delivery_authority_revoked x n) v h = grind (arith, get_last?-append)
  next_kept o m (start_delivery_generation_confirmed x) v h = grind (arith, get_last?-append)
  next_kept o m _ v h = ground arith

  first_next :
      (m : EventMetadata) (e : EventInput) (next : Operation)
      → create p m e ≡ ok next
      → is_next next.start_delivery_authority (get_last? next.start_delivery_handoffs) ≡ true
  unfolding initial
  first_next m e next h =
      let (r, _, _, _, made) = create-eq-ok p m e h in
      subst
        (λ (o : Operation).
          is_next o.start_delivery_authority (get_last? o.start_delivery_handoffs) ≡ true)
        (sym made) refl

  -- In every Operation that a list of events replays to, a last handoff that is not confirmed is to
  -- another dispatcher than that of the delivery authority, in the generation after its own; without
  -- an authority there is no handoff.
  pub replay_handoff :
      (events : List OperationEvent) {o : Operation}
      → replay_operation p events ≡ ok (some o)
      → is_next o.start_delivery_authority (get_last? o.start_delivery_handoffs) ≡ true
  unfolding replay_operation
  replay_handoff events h =
      replay_from-Holds p
        (λ o. is_next o.start_delivery_authority (get_last? o.start_delivery_handoffs) ≡ true)
        first_next (λ o m e next v a. next_kept o m e v a.dispatched) [] none events tt h
