-- ===== src/Protocol/Worker/Reception.antt =====
-- src/internal/worker-protocol.ts: `receive` of the Worker and the frames that a host sends, one
-- function for each type of frame.
use pions.Prelude.{
  ℕ, ◌+◌, String, Bool, true, false, not, ◌&&◌, ◌||◌, Option, none, some, List, ltb, ◌==◌, str_eq,
  if◌then◌else◌,
}
use pions.Except.{Except, ok, err}
use pions.Types.Evidence.{AcceptanceState}
use pions.Protocol.{
  ProtocolAuthority, ProtocolLimits, ProtocolError, type_error, store_error, Session, return, throw,
  ◌>>=◌, ◌>>◌, get, modify, require_not, validate_safe_positive_integer, invalid_frame,
  version_mismatch, authority_mismatch, sequence_mismatch, invalid_transition,
  unexpected_acknowledgement,
}
use pions.Protocol.Frames
use pions.Protocol.Frames.{
  Wire, StartInstruction, same_start, BeginRejectionReason, conflict, worker_mismatch, expired,
  stale_generation, acceptance_unknown, Common, Acknowledgement, HostBody, HostFrame, control, ack,
  Parsed, not_json, other_version, null_value, shapeless, well_formed,
}
use pions.Protocol.Framing.{FramedPeer, accept_bytes, require_frame_boundary}
use pions.Protocol.Control.{validate_start_instruction}
use pions.Protocol.Worker.{
  WorkerState, running, acknowledged, DurableDeliveryAuthority, StoredStart, no_start,
  unknown_start, stored_start, StartInstructionAcceptanceStore, WorkerProtocolPeer, is_ready,
  is_running, is_delivering, is_done, is_acknowledged,
}
use pions.Protocol.Worker.Received.{
  Received, StartStatus, WorkerProtocolReception, accepted, duplicate, is_other, is_own, is_process,
  may_cancel, reception_of, refused, same_acknowledgement, state_of,
}

module _ (wire : Wire) (authority : ProtocolAuthority) (limits : ProtocolLimits) (now : String)
    {S : Type 0} (starts : StartInstructionAcceptanceStore S) where
  abbrev pub Answer : Type 0
  Answer = Session (WorkerProtocolPeer S) (Option Received)

  abbrev pub give : StartStatus → StartInstruction → Answer
  give status instruction = return (some (Received.start_instruction status instruction))

  -- `validateHostControl`
  unfoldable pub validate_host_control : Common → Session (WorkerProtocolPeer S) (Unit {0})
  validate_host_control frame =
      require_not
        (not (str_eq frame.operation_id authority.operation_id)
          || not (str_eq authority.capability frame.capability))
        authority_mismatch
      >> validate_safe_positive_integer frame.sequence_number
      >> get
      >>= λ p.
          require_not (not (frame.sequence_number == p.last_host_sequence_number + 1))
            sequence_mismatch
          >> modify (λ p. record p { last_host_sequence_number = frame.sequence_number })

  abbrev pub restored : StoredStart → Session (WorkerProtocolPeer S) StoredStart
  restored no_start = return no_start
  restored unknown_start = return unknown_start
  restored (stored_start instruction) = validate_start_instruction wire instruction >> get >>= λ p.
      (if not (is_process p.process_instance_id instruction.worker_process_instance_id)
        then return unknown_start
        else (modify
              (λ p. record p { accepted_start_instruction = some instruction; state = running })
            >> return (stored_start instruction)))

  -- `store.load`, and `store.loadDeliveryAuthority`
  abbrev pub read_instruction : Session (WorkerProtocolPeer S) StoredStart
  read_instruction p =
      let (stored, store) = starts.load p.store in (ok stored, record p { store = store })

  abbrev pub read_authority : Session (WorkerProtocolPeer S) (Option DurableDeliveryAuthority)
  read_authority p =
      let (durable, store) = starts.load_delivery_authority p.store in
      (ok durable, record p { store = store })

  -- `restoreDurableStartAcceptance`
  unfoldable pub restore_durable_start_acceptance : Session (WorkerProtocolPeer S) StoredStart
  restore_durable_start_acceptance = read_instruction >>= restored

  -- A save that throws ends the method.
  abbrev pub or_thrown : Option Bool → Except ProtocolError Bool
  or_thrown none = err store_error
  or_thrown (some saved) = ok saved

  -- `store.save`, and `store.saveDeliveryAuthority`
  abbrev pub save_instruction : StartInstruction → Session (WorkerProtocolPeer S) Bool
  save_instruction instruction p =
      let (saved, store) = starts.save p.store instruction in
      (or_thrown saved, record p { store = store })

  abbrev pub save_authority : DurableDeliveryAuthority → Session (WorkerProtocolPeer S) Bool
  save_authority durable p =
      let (saved, store) = starts.save_delivery_authority p.store durable in
      (or_thrown saved, record p { store = store })

  -- What is left of the acceptance when the instruction has been saved, or has not.
  abbrev pub when_saved : StartInstruction → Bool → Answer
  when_saved instruction false = give (refused acceptance_unknown) instruction
  when_saved instruction true =
      modify (λ p. record p {
        accepted_start_instruction = some instruction;
        delivery_dispatcher_id = some instruction.dispatcher_id;
        state = running;
      })
      >> give accepted instruction

  abbrev pub save_start : StartInstruction → Answer
  save_start instruction = save_instruction instruction >>= when_saved instruction

  -- The first dispatcher claims the delivery authority.
  abbrev pub claim_and_save : StartInstruction → Option String → Answer
  claim_and_save instruction (some own) = save_start instruction
  claim_and_save instruction none = get >>= λ p.
      save_authority (record {
        delivery_generation = p.delivery_generation;
        dispatcher_id = some instruction.dispatcher_id;
      })
      >>= λ claimed.
          if not claimed
          then give (refused acceptance_unknown) instruction
          else save_start instruction

  abbrev pub is_expired : Option String → Bool
  is_expired none = false
  is_expired (some deadline) = wire.is_reached now deadline

  -- A start instruction, where none is stored.
  unfoldable pub begin_fresh : StartInstruction → Answer
  begin_fresh instruction = get >>= λ p.
      require_not (not (is_ready p.state)) invalid_transition
      >> (if is_expired instruction.deadline
          then give (refused expired) instruction
          else claim_and_save instruction p.delivery_dispatcher_id)

  abbrev pub repeated : StartInstruction → StartInstruction → Answer
  repeated instruction known =
      give (if same_start instruction known then duplicate else refused conflict) instruction

  abbrev pub begin_stored : StartInstruction → StoredStart → Answer
  begin_stored instruction unknown_start = give (refused acceptance_unknown) instruction
  begin_stored instruction (stored_start known) = repeated instruction known
  begin_stored instruction no_start = begin_fresh instruction

  abbrev pub begin_known : StartInstruction → Option StartInstruction → Answer
  begin_known instruction (some known) = repeated instruction known
  begin_known instruction none = restore_durable_start_acceptance >>= begin_stored instruction

  abbrev pub adopt : DurableDeliveryAuthority → Session (WorkerProtocolPeer S) (Unit {0})
  adopt durable = modify (λ p. record p {
    delivery_generation = durable.delivery_generation;
    delivery_dispatcher_id = durable.dispatcher_id;
  })

  abbrev pub begin_under : StartInstruction → Option DurableDeliveryAuthority → Answer
  begin_under instruction none = give (refused acceptance_unknown) instruction
  begin_under instruction (some durable) = adopt durable >> get >>= λ p.
      (if not (is_process p.process_instance_id instruction.worker_process_instance_id)
        then give (refused worker_mismatch) instruction
        else if not (instruction.delivery_generation == durable.delivery_generation)
            || is_other durable.dispatcher_id instruction.dispatcher_id
        then give (refused stale_generation) instruction
        else begin_known instruction p.accepted_start_instruction)

  unfoldable pub on_begin : StartInstruction → Answer
  on_begin instruction =
      validate_start_instruction wire instruction >> read_authority >>= begin_under instruction

  abbrev pub observed_as : StartInstruction → StoredStart → Answer
  observed_as instruction (stored_start known) =
      require_not (not (same_start instruction known)) unexpected_acknowledgement
      >> return (some (Received.observed_start_acceptance known))
  observed_as instruction _ = throw unexpected_acknowledgement

  -- `acceptedStartInstruction ?? restoreDurableStartAcceptance()`
  abbrev pub known_or_restored :
      Option StartInstruction → Session (WorkerProtocolPeer S) StoredStart
  known_or_restored (some known) = return (stored_start known)
  known_or_restored none = restore_durable_start_acceptance

  unfoldable pub on_acceptance_observed : StartInstruction → Answer
  on_acceptance_observed instruction = validate_start_instruction wire instruction >> get >>= λ p.
      known_or_restored p.accepted_start_instruction >>= observed_as instruction

  -- The new generation is made durable, unless it is the present one of the same dispatcher.
  abbrev pub save_generation :
      String → ℕ → WorkerProtocolPeer S → Session (WorkerProtocolPeer S) (Unit {0})
  save_generation dispatcher_id generation p =
      if generation == p.delivery_generation
      then require_not (not (is_own p.delivery_dispatcher_id dispatcher_id)) authority_mismatch
      else (save_authority
            (record { delivery_generation = generation; dispatcher_id = some dispatcher_id })
          >>= λ saved. require_not (not saved) invalid_transition)

  abbrev pub update_to : String → ℕ → AcceptanceState → Answer
  update_to dispatcher_id generation acceptance_state =
      get
      >>= save_generation dispatcher_id generation
      >> modify (λ p. record p {
        delivery_generation = generation;
        delivery_dispatcher_id = some dispatcher_id;
      })
      >> get
      >>= λ p. return (
          some (
            Received.generation_update (record {
              delivery_generation = generation;
              acceptance_state = acceptance_state;
              accepted_instruction = p.accepted_start_instruction;
            })))

  abbrev pub update_under : String → ℕ → Option DurableDeliveryAuthority → Answer
  update_under dispatcher_id generation none = throw invalid_transition
  update_under dispatcher_id generation (some durable) =
      adopt durable
      >> require_not (ltb generation durable.delivery_generation) invalid_transition
      >> get
      >>= λ p. known_or_restored p.accepted_start_instruction >>= λ known.
          update_to dispatcher_id generation (state_of known)

  unfoldable pub on_generation_update : String → ℕ → Answer
  on_generation_update dispatcher_id generation =
      validate_safe_positive_integer generation >> get >>= λ p.
      require_not (not (is_ready p.state || is_running p.state)) invalid_transition
      >> read_authority
      >>= update_under dispatcher_id generation

  abbrev pub validate_given : Option ℕ → Session (WorkerProtocolPeer S) (Unit {0})
  validate_given none = return tt
  validate_given (some generation) = validate_safe_positive_integer generation

  unfoldable pub on_cancel : Option String → Option ℕ → Answer
  on_cancel dispatcher_id generation = validate_given generation >> get >>= λ p.
      require_not
        (not (may_cancel p.delivery_dispatcher_id p.delivery_generation dispatcher_id generation))
        authority_mismatch
      >> require_not (not (is_ready p.state || is_running p.state || is_delivering p.state))
          invalid_transition
      >> modify (λ p. record p { state = WorkerState.cancelling })
      >> return (some Received.cancellation_requested)

  abbrev pub require_finished : Session (WorkerProtocolPeer S) (Unit {0})
  require_finished =
      get >>= λ p. require_not (not (is_done p.state || is_acknowledged p.state)) invalid_transition

  unfoldable pub on_ack : Acknowledgement → Answer
  on_ack given =
      require_finished
      >> require_not (not (str_eq given.operation_id authority.operation_id)) authority_mismatch
      >> validate_safe_positive_integer given.event_sequence_number
      >> get
      >>= λ p.
          (if not p.acknowledgement_pending
            then (require_not (not (same_acknowledgement p.acknowledged_evidence given))
                  unexpected_acknowledgement
                >> return none)
            else (modify (λ p. record p {
              acknowledgement_pending = false;
              acknowledged_evidence = some given;
            })
                >> return none))

  unfoldable pub on_control : HostBody → Answer
  unfolding on_begin on_acceptance_observed on_generation_update on_cancel
  on_control (Frames.begin instruction) = on_begin instruction
  on_control (Frames.begin_acceptance_observed instruction) = on_acceptance_observed instruction
  on_control (Frames.delivery_generation_update dispatcher_id generation) =
      on_generation_update dispatcher_id generation
  on_control (Frames.cancel dispatcher_id generation) = on_cancel dispatcher_id generation

  -- A line; whatever is not of a control type is taken for an acknowledgement.
  abbrev pub on_line : Parsed HostFrame → Answer
  on_line not_json = throw invalid_frame
  on_line other_version = throw version_mismatch
  on_line null_value = λ p. (err type_error, p)
  on_line (shapeless true) = throw invalid_frame
  on_line (shapeless false) = require_finished >> throw invalid_frame
  on_line (well_formed (control common body)) = validate_host_control common >> on_control body
  on_line (well_formed (ack given)) = on_ack given

  unfoldable pub accept_frame : List ℕ → Answer
  unfolding on_control on_ack
  accept_frame line = on_line (wire.parse_host line)

  -- `catch (error) { this.state = "failed"; throw error; }`
  abbrev pub or_failed :
      {A : Type 0}
      → Except ProtocolError A × FramedPeer (WorkerProtocolPeer S)
      → Except ProtocolError A × FramedPeer (WorkerProtocolPeer S)
  or_failed (ok a, p) = (ok a, p)
  or_failed (err e, p) = (err e, record p { inner = record p.inner { state = WorkerState.failed } })

  abbrev pub is_complete : WorkerProtocolPeer S → Bool
  is_complete p = is_acknowledged p.state || is_done p.state && not p.acknowledgement_pending

  -- The end of `receive`: a session whose acknowledgements are complete ends at a line's end.
  abbrev pub close_reception :
      List Received → Session (FramedPeer (WorkerProtocolPeer S)) WorkerProtocolReception
  close_reception items p =
      (if is_done p.inner.state && is_complete p.inner
          then (require_frame_boundary
              >> modify (λ p. record p { inner = record p.inner { state = acknowledged } })
              >> return (reception_of true items))
          else return (reception_of (is_complete p.inner) items))
        p

  unfoldable pub receive :
      List ℕ → Session (FramedPeer (WorkerProtocolPeer S)) WorkerProtocolReception
  receive bytes p = or_failed ((accept_bytes limits accept_frame bytes false >>= close_reception) p)
