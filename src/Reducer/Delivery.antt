-- ===== src/Reducer/Delivery.antt =====
-- src/internal/event-store/reducer.ts: the cases of the start delivery, from the authority to
-- deliver the start instruction to its acknowledgement, and the handoff of that authority.
use pions.Prelude.{
  ℕ, ◌+◌, String, Bool, true, false, ◌&&◌, ◌||◌, not, Option, none, some, [], ◌∷◌, ◌++◌, ◌==◌,
  str_eq, is_some, get_last?, drop_last, if◌then◌else◌,
}
use pions.Except.{err}
use pions.Types.Evidence.{
  running, StartInstructionReference, StartDeliveryAuthorityEvidence, StartDeliveryEntryEvidence,
  StartInstructionDeliveryEvidence, StartInstructionAcceptanceEvidence,
  StartInstructionAcknowledgementEvidence, AcceptanceState, not_accepted, accepted,
  StartDeliveryHandoffEvidence,
}
use pions.Platform.{Platform}
use pions.StartInstruction.{same_instruction}
use pions.Operation.{Operation, EventMetadata, GenerationConfirmation}
use pions.Reducer.Guards.{
  illegal_transition, Reduction, is_starting, is_started, valid_start_instruction_reference,
  refuse_if,
}

abbrev pub is_not_accepted : Option AcceptanceState → Bool
is_not_accepted (some not_accepted) = true
is_not_accepted _ = false

abbrev pub is_accepted : AcceptanceState → Bool
is_accepted accepted = true
is_accepted _ = false

-- The last handoff is confirmed as not accepted, and the instruction is its successor's.
abbrev pub replaces_revoked : Option StartDeliveryHandoffEvidence → StartInstructionReference → Bool
replaces_revoked none instruction = false
replaces_revoked (some handoff) instruction =
    is_some handoff.worker_generation_confirmed_at
    && is_not_accepted handoff.acceptance_state
    && str_eq instruction.dispatcher_id handoff.successor_dispatcher_id
    && instruction.delivery_generation == handoff.delivery_generation

-- The last handoff waits for its confirmation.
abbrev pub is_pending : Option StartDeliveryHandoffEvidence → Bool
is_pending none = false
is_pending (some handoff) = not (is_some handoff.worker_generation_confirmed_at)

abbrev pub resumes : Option StartDeliveryHandoffEvidence → String → ℕ → Bool
resumes none successor generation = false
resumes (some pending) successor generation =
    not (is_some pending.worker_generation_confirmed_at)
    && str_eq pending.successor_dispatcher_id successor
    && pending.delivery_generation == generation

module _ (p : Platform) where
  unfoldable pub on_authority_acquired :
      Operation → EventMetadata → StartInstructionReference → Reduction
  on_authority_acquired current m instruction =
      refuse_if
        (not (is_started current.state)
          || not current.worker_launched
          || is_some current.start_delivery_authority
            && not (replaces_revoked (get_last? current.start_delivery_handoffs) instruction)
          || not (valid_start_instruction_reference p current instruction))
        illegal_transition
        (record current {
          start_delivery_authority =
              some (record { instruction = instruction; acquired_at = m.timestamp });
          state_seq = m.seq;
        })

  abbrev valid_acceptance : Operation → GenerationConfirmation → Bool
  valid_acceptance current event = elim event.accepted_instruction [
    | none ↦ not (is_accepted event.acceptance_state)
    | some instruction ↦
        is_accepted event.acceptance_state
        && valid_start_instruction_reference p current instruction
  ]

  confirm :
      Operation
      → EventMetadata
      → GenerationConfirmation
      → Option StartDeliveryHandoffEvidence
      → Reduction
  confirm current m event none = err illegal_transition
  confirm current m event (some handoff) =
      refuse_if
        (not (is_started current.state)
          || is_some handoff.worker_generation_confirmed_at
          || not (str_eq event.dispatcher_id handoff.successor_dispatcher_id)
          || not (event.delivery_generation == handoff.delivery_generation)
          || not (valid_acceptance current event))
        illegal_transition
        (record current {
          start_delivery_handoffs =
              drop_last current.start_delivery_handoffs
              ++ record handoff {
                worker_generation_confirmed_at = some m.timestamp;
                acceptance_state = some event.acceptance_state;
              }
                ∷ [];
          state_seq = m.seq;
        })

  unfoldable pub on_generation_confirmed :
      Operation → EventMetadata → GenerationConfirmation → Reduction
  unfolding confirm
  on_generation_confirmed current m event =
      confirm current m event (get_last? current.start_delivery_handoffs)

revoke : Operation → EventMetadata → String → ℕ → Option StartDeliveryAuthorityEvidence → Reduction
revoke current m successor generation none = err illegal_transition
revoke current m successor generation (some authority) =
    let pending = get_last? current.start_delivery_handoffs in
    refuse_if
      (not (is_started current.state)
        || str_eq successor authority.dispatcher_id
        || not (generation == authority.delivery_generation + 1)
        || is_pending pending && not (resumes pending successor generation))
      illegal_transition
      (if resumes pending successor generation
        then record current { state_seq = m.seq }
        else record current {
          start_delivery_handoffs =
              current.start_delivery_handoffs
              ++ record {
                previous_dispatcher_id = authority.dispatcher_id;
                previous_delivery_generation = authority.delivery_generation;
                successor_dispatcher_id = successor;
                delivery_generation = generation;
                authority_revoked_at = m.timestamp;
                worker_generation_confirmed_at = none;
                acceptance_state = none;
              }
                ∷ [];
          state_seq = m.seq;
        })

unfoldable pub on_authority_revoked : Operation → EventMetadata → String → ℕ → Reduction
unfolding revoke
on_authority_revoked current m successor generation =
    revoke current m successor generation current.start_delivery_authority

-- `evidence !== undefined && isDeepStrictEqual(instruction, startInstructionReference(evidence))`
abbrev pub matches : Option StartInstructionReference → StartInstructionReference → Bool
matches none instruction = false
matches (some reference) instruction = same_instruction instruction reference

-- `evidence?.deliveryGeneration === instruction.deliveryGeneration`
abbrev pub has_generation : Option StartInstructionReference → StartInstructionReference → Bool
has_generation none instruction = false
has_generation (some reference) instruction =
    reference.delivery_generation == instruction.delivery_generation

-- `startInstructionReference` of what is recorded
abbrev pub authority_reference :
    Option StartDeliveryAuthorityEvidence → Option StartInstructionReference
authority_reference none = none
authority_reference (some e) = some e.instruction

abbrev pub entry_reference : Option StartDeliveryEntryEvidence → Option StartInstructionReference
entry_reference none = none
entry_reference (some e) = some e.instruction

abbrev pub delivery_reference :
    Option StartInstructionDeliveryEvidence → Option StartInstructionReference
delivery_reference none = none
delivery_reference (some e) = some e.instruction

abbrev pub acceptance_reference :
    Option StartInstructionAcceptanceEvidence → Option StartInstructionReference
acceptance_reference none = none
acceptance_reference (some e) = some e.instruction

abbrev pub acknowledgement_reference :
    Option StartInstructionAcknowledgementEvidence → Option StartInstructionReference
acknowledgement_reference none = none
acknowledgement_reference (some e) = some e.instruction

-- `a ?? b`
abbrev pub or_else {ℓ} : {A : Type ℓ} → Option A → Option A → Option A
or_else none b = b
or_else (some a) b = some a

unfoldable pub on_delivery_entered :
    Operation → EventMetadata → StartInstructionReference → Reduction
on_delivery_entered current m instruction =
    refuse_if
      (not (is_starting current.state)
        || not (matches (authority_reference current.start_delivery_authority) instruction)
        || has_generation (entry_reference current.start_delivery_entry) instruction)
      illegal_transition
      (record current {
        start_delivery_entry =
            some (record { instruction = instruction; entered_at = m.timestamp });
        state_seq = m.seq;
      })

unfoldable pub on_instruction_dispatched :
    Operation → EventMetadata → StartInstructionReference → Reduction
on_instruction_dispatched current m instruction =
    refuse_if
      (not (is_starting current.state)
        || not (matches (entry_reference current.start_delivery_entry) instruction)
        || has_generation (delivery_reference current.start_instruction_delivery) instruction)
      illegal_transition
      (record current {
        start_instruction_delivery =
            some (record { instruction = instruction; dispatched_at = m.timestamp });
        state_seq = m.seq;
      })

unfoldable pub on_instruction_accepted :
    Operation → EventMetadata → StartInstructionReference → String → Reduction
on_instruction_accepted current m instruction proof =
    let delivery =
      or_else (delivery_reference current.start_instruction_delivery)
        (entry_reference current.start_delivery_entry) in
    refuse_if
      (not (is_starting current.state)
        || not (str_eq proof "worker-durable-acceptance")
        || not (matches delivery instruction)
        || has_generation (acceptance_reference current.start_instruction_acceptance) instruction)
      illegal_transition
      (record current {
        start_instruction_acceptance =
            some (record { instruction = instruction; accepted_at = m.timestamp; proof = proof });
        state_seq = m.seq;
      })

unfoldable pub on_instruction_acknowledged :
    Operation → EventMetadata → StartInstructionReference → String → Reduction
on_instruction_acknowledged current m instruction proof =
    refuse_if
      (not (is_starting current.state)
        || not (matches (acceptance_reference current.start_instruction_acceptance) instruction)
        || has_generation (acknowledgement_reference current.start_instruction_acknowledgement)
            instruction)
      illegal_transition
      (record current {
        start_instruction_acknowledgement =
            some
              (record { instruction = instruction; acknowledged_at = m.timestamp; proof = proof });
        state = running;
        state_seq = m.seq;
      })
