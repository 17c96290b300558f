-- ===== src/Examples/Histories.antt =====
-- src/internal/event-store/reducer.ts: one delegation from its request to its cleanup.
use pions.Prelude.{◌≡◌, refl, true, some, List, ◌++◌, length, get_last?, [], ◌∷◌}
use pions.Except.{ok}
use pions.Types.Evidence.{starting, OperationState}
use pions.Operation.{
  Operation, OperationEvent, operation_requested, operation_starting,
  start_delivery_authority_revoked,
}
use pions.Reducer.{replay_operation, is_cleanup_event}
use pions.Reducer.Stages.{IsStaged, replay-IsStaged}
use pions.Reducer.Extends.{Extends}
use pions.Reducer.Authentic.{IsAuthentic, replay-IsAuthentic}
use pions.Reducer.Handoffs.{is_next, replay_handoff}
use pions.Reducer.Lifecycle.{◌⟶◌}
use pions.Reducer.History.States.{reduce-⟶, reduce_terminal}
use pions.Reducer.History.Numbers.{Numbered, replay_numbers}
use pions.Reducer.History.Evidence.{
  has_event, is_result_event, is_stop_event, is_acknowledgement_event, completed_history,
}
use pions.Reducer.History.Split.{replay_append-Extends}
use pions.Examples.Data.{platform, request, at, started, settled, cleaning, rebuilt}

abbrev first_two : List OperationEvent → List OperationEvent
first_two (a ∷ b ∷ events) = a ∷ b ∷ []
first_two events = events

abbrev after_first : List OperationEvent → List OperationEvent
after_first [] = []
after_first (e ∷ events) = events

abbrev delivered : List OperationEvent
delivered = started ++ settled

replays : replay_operation platform delivered ≡ ok (some (rebuilt delivered))
unfolding rebuilt
replays = refl

starts : replay_operation platform started ≡ ok (some (rebuilt started))
unfolding rebuilt
starts = refl

whole_delivery : (rebuilt delivered).state ≡ OperationState.completed
unfolding rebuilt
whole_delivery = refl

replay-IsStaged_example : IsStaged (rebuilt delivered)
replay-IsStaged_example = replay-IsStaged platform delivered replays

replay-IsAuthentic_example : IsAuthentic platform (rebuilt delivered)
replay-IsAuthentic_example = replay-IsAuthentic platform delivered replays

abbrev handed : List OperationEvent
handed = started ++ at 11 (start_delivery_authority_revoked "other" 2) ∷ []

hands : replay_operation platform handed ≡ ok (some (rebuilt handed))
unfolding rebuilt
hands = refl

replay_handoff_example :
    is_next
      (rebuilt handed).start_delivery_authority
      (get_last? (rebuilt handed).start_delivery_handoffs)
    ≡ true
replay_handoff_example = replay_handoff platform handed hands

reduce-⟶_example : (rebuilt (first_two started)).state ⟶ starting
unfolding rebuilt
reduce-⟶_example = reduce-⟶ platform (rebuilt (first_two started)) (at 3 operation_starting) refl

replay_numbers_example :
    Numbered (rebuilt delivered).operation_id 1 delivered
    × ((rebuilt delivered).state_seq ≡ length delivered)
replay_numbers_example = replay_numbers platform delivered replays

completed_history_example :
    (has_event is_result_event delivered ≡ true)
    × (has_event is_stop_event delivered ≡ true)
    × (has_event is_acknowledgement_event delivered ≡ true)
unfolding rebuilt
completed_history_example = completed_history platform delivered replays refl

replay_append-Extends_example :
    (o : Operation) × (replay_operation platform started ≡ ok (some o))
    × Extends o (rebuilt delivered)
replay_append-Extends_example =
    replay_append-Extends platform (at 1 (operation_requested request)) (after_first started)
      settled (rebuilt delivered) replays

reduce_terminal_example :
    (is_cleanup_event cleaning.input ≡ true)
    × (rebuilt (delivered ++ cleaning ∷ []) ≡ record (rebuilt delivered) {
      presentation_cleanup = (rebuilt (delivered ++ cleaning ∷ [])).presentation_cleanup;
      state_seq = (rebuilt (delivered ++ cleaning ∷ [])).state_seq;
    })
unfolding rebuilt
reduce_terminal_example = reduce_terminal platform (rebuilt delivered) cleaning refl refl
