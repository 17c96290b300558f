-- ===== src/Runtime/Confirmation/Ends.antt =====
-- src/internal/runtime.ts: a recovered Worker that does not know whether it has accepted its start
-- instruction.
use pions.Prelude.{
  ℕ, ◌+◌, ◌≡◌, refl, String, true, false, none, some, [], ◌∷◌, ◌++◌, eq_iff, is_some, non_empty,
  get_last?, drop_last, arith,
}
use pions.Platform.{Platform}
use pions.Text.{is_safe_integer}
use pions.Types.Evidence.{
  OperationState, AcceptanceState, StartDeliveryHandoffEvidence, UnknownReason, TerminalReason,
}
use pions.Operation.{
  Operation, GenerationConfirmation, start_delivery_generation_confirmed, operation_unknown,
}
use pions.Codec.Schema.{event_schema}
use pions.Reducer.Guards.{is_started}
use pions.Reducer.Delivery.{on_generation_confirmed}
use pions.Reducer.{dispatch}
use pions.Store.{event_after}
use pions.Store.Backend.{Storage, StorageLaws}
use pions.Store.Progress.{IsAppendable}
use pions.Runtime.{World, return, advance}
use pions.Runtime.Steps.{Ends, Ends-bind, IsStored, IsReliable, clocked-IsAppendable, advance-Ends}
use pions.Runtime.Confirmation.{ConfirmationAnswer, aborted, confirmed_as, generation_confirmed}

-- The confirmation of a Worker that does not know.
abbrev pub unknown_of : StartDeliveryHandoffEvidence → GenerationConfirmation
unknown_of handoff = record {
  dispatcher_id = handoff.successor_dispatcher_id;
  delivery_generation = handoff.delivery_generation;
  acceptance_state = AcceptanceState.unknown;
  accepted_instruction = none;
}

abbrev answered : Operation → StartDeliveryHandoffEvidence → String → Operation
answered o handoff at = record o {
  start_delivery_handoffs =
      drop_last o.start_delivery_handoffs
      ++ record handoff {
        worker_generation_confirmed_at = some at;
        acceptance_state = some AcceptanceState.unknown;
      }
        ∷ [];
  state_seq = o.state_seq + 1;
}

abbrev lost : Operation → Operation
lost o = record o {
  state = OperationState.unknown;
  terminal_reason = some (TerminalReason.unproven UnknownReason.start_acceptance_unknown);
  state_seq = o.state_seq + 1;
}

module _ (p : Platform) {S : Type 0} (b : Storage S) (laws : StorageLaws b) (clock : ℕ → String)
    (operation_id : String) (r : IsReliable p b clock operation_id) where
  answered-IsAppendable :
      (o : Operation) (handoff : StartDeliveryHandoffEvidence) (n : ℕ)
      → is_started o.state ≡ true
      → get_last? o.start_delivery_handoffs ≡ some handoff
      → is_some handoff.worker_generation_confirmed_at ≡ false
      → non_empty handoff.successor_dispatcher_id ≡ true
      → is_safe_integer handoff.delivery_generation ≡ true
      → is_safe_integer (o.state_seq + 1) ≡ true
      → IsAppendable p operation_id o
          (start_delivery_generation_confirmed (unknown_of handoff))
          (clock n)
          (answered o handoff (clock n))
  unfolding event_schema dispatch event_after on_generation_confirmed
  answered-IsAppendable o handoff n started last waits named safe room =
      clocked-IsAppendable p b clock operation_id r o n _ _ room (ground arith) refl (ground arith)
        (rw last (
          ground (
            arith,
            waits,
            started,
            eq_iff handoff.successor_dispatcher_id handoff.successor_dispatcher_id,
          )))

  lost-IsAppendable :
      (o : Operation) (n : ℕ)
      → is_started o.state ≡ true
      → is_safe_integer (o.state_seq + 1) ≡ true
      → IsAppendable p operation_id o
          (operation_unknown UnknownReason.start_acceptance_unknown none)
          (clock n)
          (lost o)
  unfolding event_schema dispatch event_after
  lost-IsAppendable o n started room =
      clocked-IsAppendable p b clock operation_id r o n _ _ room refl refl (ground arith)
        (ground arith)

  -- The delivery is aborted, and the stored Operation is unknown for that reason.
  abbrev pub Aborted : ConfirmationAnswer → World S → Type 0
  Aborted answer w =
      (next : Operation) × (answer ≡ aborted)
      × IsStored p b clock operation_id next w
      × (next.state ≡ OperationState.unknown)
      × (next.terminal_reason
          ≡ some (TerminalReason.unproven UnknownReason.start_acceptance_unknown))

  confirmed_unknown-Aborted :
      (o : Operation) (w : World S) (confirmation : GenerationConfirmation)
      → IsStored p b clock operation_id o w
      → is_started o.state ≡ true
      → is_safe_integer (o.state_seq + 1) ≡ true
      → Ends (confirmed_as p b clock operation_id AcceptanceState.unknown confirmation) w Aborted
  unfolding confirmed_as
  confirmed_unknown-Aborted o w confirmation stored started room =
      Ends-bind
        (advance p b clock operation_id
          (operation_unknown UnknownReason.start_acceptance_unknown none))
        (λ _. return aborted) w (λ x w'. (x ≡ lost o) × IsStored p b clock operation_id (lost o) w')
        Aborted
        (advance-Ends p b clock operation_id laws o (lost o) _ w r stored
          (lost-IsAppendable o w.ticks started room))
        (λ x w' (_, kept). (aborted, refl, (lost o, refl, kept, refl, refl)))

  -- If the last handoff of a stored, started Operation waits for its confirmation, and its Worker
  -- confirms it without knowing whether it accepted the start instruction, then the delivery is
  -- aborted, and the stored Operation is unknown because its start may have been accepted; the
  -- successor has a name, the numbers stay safe integers, the storage writes and the clock tells the
  -- time.
  pub generation_confirmed-Aborted :
      (o : Operation) (w : World S) (handoff : StartDeliveryHandoffEvidence)
      → IsStored p b clock operation_id o w
      → is_started o.state ≡ true
      → get_last? o.start_delivery_handoffs ≡ some handoff
      → is_some handoff.worker_generation_confirmed_at ≡ false
      → non_empty handoff.successor_dispatcher_id ≡ true
      → is_safe_integer handoff.delivery_generation ≡ true
      → is_safe_integer (o.state_seq + 2) ≡ true
      → Ends (generation_confirmed p b clock operation_id (unknown_of handoff)) w Aborted
  unfolding generation_confirmed
  generation_confirmed-Aborted o w handoff stored started last waits named safe room =
      let next = answered o handoff (clock w.ticks) in
      Ends-bind
        (advance p b clock operation_id (start_delivery_generation_confirmed (unknown_of handoff)))
        (λ _. confirmed_as p b clock operation_id AcceptanceState.unknown (unknown_of handoff)) w
        (λ x w'. (x ≡ next) × IsStored p b clock operation_id next w') Aborted
        (advance-Ends p b clock operation_id laws o next _ w r stored
          (answered-IsAppendable o handoff w.ticks started last waits named safe (ground arith)))
        (λ x w' (_, kept).
          confirmed_unknown-Aborted next w' (unknown_of handoff) kept started (ground arith))
