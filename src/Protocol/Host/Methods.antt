-- ===== src/Protocol/Host/Methods.antt =====
-- src/internal/worker-protocol.ts: what the host's side of a session sends, and the other methods of
-- `HostProtocolPeer`.
use pions.Prelude.{
  ℕ, ◌+◌, ◌-◌, String, Bool, true, false, not, ◌&&◌, ◌||◌, Option, none, some, List, leb, ◌==◌,
  str_eq, is_some, non_empty, if◌then◌else◌,
}
use pions.Types.Evidence.{AcceptanceState}
use pions.ResultAcceptance.{ResultAcceptanceProof}
use pions.Protocol.{
  ProtocolAuthority, ProtocolLimits, Session, return, throw, ◌>>=◌, ◌>>◌, get, modify, require_not,
  validate_safe_positive_integer, invalid_frame, authority_mismatch, invalid_transition,
  unexpected_acknowledgement, incomplete_session,
}
use pions.Protocol.Frames.{
  Wire, StartInstruction, same_start, HostBody, begin, begin_acceptance_observed,
  delivery_generation_update, cancel, control, ack,
}
use pions.Protocol.Framing.{encode_frame}
use pions.Protocol.Control.{validate_start_instruction}
use pions.Protocol.Host.{
  awaiting_begin, receiving_results, cancelling, failed, HostProtocolPeer, is_awaiting_hello,
  is_awaiting_begin, is_receiving, is_cancelling, is_done, is_failed, move_to,
}

-- `activeDispatcherId !== undefined && dispatcherId !== activeDispatcherId`
abbrev pub is_other : Option String → String → Bool
is_other none dispatcher_id = false
is_other (some active) dispatcher_id = not (str_eq dispatcher_id active)

abbrev pub replaces : Option StartInstruction → StartInstruction → Bool
replaces none instruction = false
replaces (some dispatched) instruction = not (same_start dispatched instruction)

abbrev pub or_dispatcher : Option String → String → String
or_dispatcher none dispatcher_id = dispatcher_id
or_dispatcher (some active) dispatcher_id = active

abbrev pub is_not_accepted : Option AcceptanceState → Bool
is_not_accepted (some AcceptanceState.not_accepted) = true
is_not_accepted _ = false

-- `acceptedStartInstruction === undefined || !isDeepStrictEqual(instruction, …)`
abbrev pub is_unaccepted : Option StartInstruction → StartInstruction → Bool
is_unaccepted none instruction = true
is_unaccepted (some accepted) instruction = not (same_start instruction accepted)

-- The proof that has been acknowledged is the given one.
abbrev pub is_acknowledged : Option ResultAcceptanceProof → ResultAcceptanceProof → Bool
is_acknowledged none acceptance = false
is_acknowledged (some proof) acceptance =
    str_eq proof.acceptance_id acceptance.acceptance_id
    && str_eq proof.digest acceptance.digest
    && proof.event_sequence_number == acceptance.event_sequence_number

module _ (wire : Wire) (authority : ProtocolAuthority) (limits : ProtocolLimits) where
  unfoldable pub encode_host_frame : HostBody → Session HostProtocolPeer (List ℕ)
  encode_host_frame body = get >>= λ p.
      encode_frame limits
        (wire.print_host (
          control
            (record {
              operation_id = authority.operation_id;
              capability = authority.capability;
              sequence_number = p.host_sequence_number;
            })
            body))
        false
      >>= λ bytes.
          modify (λ p. record p { host_sequence_number = p.host_sequence_number + 1 })
          >> return bytes

  unfoldable pub disconnect : Session HostProtocolPeer (Unit {0})
  disconnect = get >>= λ p.
      (if is_done p.state then return tt else (move_to failed >> throw incomplete_session))

  unfoldable pub host_begin : StartInstruction → Session HostProtocolPeer (List ℕ)
  host_begin instruction = get >>= λ p.
      require_not (is_other p.active_dispatcher_id instruction.dispatcher_id) authority_mismatch
      >> require_not (not (is_awaiting_begin p.state || is_receiving p.state)) invalid_transition
      >> require_not (replaces p.start_instruction instruction) invalid_transition
      >> validate_start_instruction wire instruction
      >> modify (λ p. record p {
        active_dispatcher_id =
            some (or_dispatcher p.active_dispatcher_id instruction.dispatcher_id);
        start_instruction = some instruction;
      })
      >> encode_host_frame (begin instruction)
      >>= λ bytes. move_to receiving_results >> return bytes

  unfoldable pub restore_start_delivery : StartInstruction → Session HostProtocolPeer (Unit {0})
  restore_start_delivery instruction = get >>= λ p.
      require_not (not (is_awaiting_hello p.state) || is_some p.start_instruction)
        invalid_transition
      >> validate_start_instruction wire instruction
      >> modify (λ p. record p {
        start_instruction = some instruction;
        active_dispatcher_id = some instruction.dispatcher_id;
        confirmed_delivery_generation = instruction.delivery_generation;
      })

  -- The dispatcher that takes over, and what it starts from.
  abbrev pub hand_to : String → HostProtocolPeer → HostProtocolPeer
  hand_to next_dispatcher_id p =
      if is_not_accepted p.confirmed_start_acceptance_state
      then record p {
        active_dispatcher_id = some next_dispatcher_id;
        start_instruction = none;
        accepted_start_instruction = none;
        state = awaiting_begin;
      }
      else record p { active_dispatcher_id = some next_dispatcher_id }

  unfoldable pub complete_dispatcher_handoff : String → Session HostProtocolPeer (Unit {0})
  complete_dispatcher_handoff next_dispatcher_id = get >>= λ p.
      require_not
        (not (non_empty next_dispatcher_id)
          || is_some p.pending_delivery_generation
          || leb p.confirmed_delivery_generation 1)
        invalid_transition
      >> modify (hand_to next_dispatcher_id)

  unfoldable pub acknowledge_start_instruction_acceptance :
      StartInstruction → Session HostProtocolPeer (List ℕ)
  acknowledge_start_instruction_acceptance instruction = get >>= λ p.
      require_not
        (is_unaccepted p.accepted_start_instruction instruction
          || p.pending_start_acceptance_observations == 0)
        invalid_transition
      >> modify (λ p. record p {
        pending_start_acceptance_observations = p.pending_start_acceptance_observations - 1;
        pending_start_acknowledgements = p.pending_start_acknowledgements + 1;
      })
      >> encode_host_frame (begin_acceptance_observed instruction)

  unfoldable pub update_delivery_generation : ℕ → String → Session HostProtocolPeer (List ℕ)
  update_delivery_generation delivery_generation dispatcher_id =
      validate_safe_positive_integer delivery_generation >> get >>= λ p.
      require_not
        (leb delivery_generation p.confirmed_delivery_generation
          || is_some p.pending_delivery_generation)
        invalid_transition
      >> require_not (not (non_empty dispatcher_id)) invalid_frame
      >> modify (λ p. record p { pending_delivery_generation = some delivery_generation })
      >> encode_host_frame (delivery_generation_update dispatcher_id delivery_generation)

  -- With an active dispatcher, a cancellation names it and the confirmed generation.
  abbrev pub cancel_body : HostProtocolPeer → HostBody
  cancel_body p =
      cancel p.active_dispatcher_id
        (if is_some p.active_dispatcher_id then some p.confirmed_delivery_generation else none)

  unfoldable pub request_cancellation : Session HostProtocolPeer (Option (List ℕ))
  request_cancellation = get >>= λ p.
      (if is_awaiting_hello p.state || is_cancelling p.state || is_failed p.state || is_done p.state
        then return none
        else (encode_host_frame (cancel_body p) >>= λ bytes.
            move_to cancelling >> return (some bytes)))

  unfoldable pub acknowledge_result : ResultAcceptanceProof → Session HostProtocolPeer (List ℕ)
  acknowledge_result acceptance = get >>= λ p.
      require_not (not (is_done p.state)) invalid_transition
      >> require_not (not (str_eq acceptance.operation_id authority.operation_id))
          unexpected_acknowledgement
      >> require_not
          (not p.acknowledgement_pending && not (is_acknowledged p.acknowledged_proof acceptance))
          unexpected_acknowledgement
      >> encode_frame limits
          (wire.print_host (
            ack (record {
              operation_id = authority.operation_id;
              acceptance_id = acceptance.acceptance_id;
              digest = acceptance.digest;
              event_sequence_number = acceptance.event_sequence_number;
            })))
          false
      >>= λ bytes.
          modify (λ p. record p {
            acknowledgement_pending = false;
            acknowledged_proof = some acceptance;
          })
          >> return bytes
