-- ===== src/Protocol/Worker.antt =====
-- src/internal/worker-protocol.ts: `WorkerProtocolPeer`, the Worker's side of a session, and what it
-- sends. The store of the accepted start instruction is an interface of the source; here it is a
-- state with operations.
pub mod Received
pub mod Reception
pub mod Marks
pub mod Restored
pub mod Counts
pub mod Once
pub mod Accepting
pub mod Durable
use pions.Prelude.{
  ℕ, suc, zero, ◌+◌, ◌/◌, String, Bool, true, false, not, ◌&&◌, ◌||◌, Option, none, some, List, [],
  ◌∷◌, ◌++◌, length, take, drop, ltb, ◌==◌, str_eq, is_some, non_empty, if◌then◌else◌,
}
use pions.Platform.{Platform}
use pions.Text.{is_safe_integer, is_process_instance_id}
use pions.Types.Configuration.{ObservedWorkerConfig}
use pions.Types.Evidence.{AcceptanceState, PiUsage, PiToolUse}
use pions.Acceptance.{sha256_digest}
use pions.ResultAcceptance.{WorkerProducedResult, buffer_from, text_decode, same_text}
use pions.Protocol.{
  ProtocolAuthority, ProtocolLimits, Session, return, throw, ◌>>=◌, ◌>>◌, get, modify, require_not,
  invalid_frame, result_too_large, invalid_transition,
}
use pions.Protocol.Frames
use pions.Protocol.Frames.{
  Wire, StartInstruction, same_start, BeginRejectionReason, WorkerBody, WorkerFrame,
  Acknowledgement,
}
use pions.Protocol.Framing.{encode_frame}

pub data WorkerState : Type 0 where
  new identified ready running delivering cancelling done acknowledged failed : WorkerState

pub record DurableDeliveryAuthority : Type 0 where
  pub delivery_generation : ℕ
  pub dispatcher_id : Option String

-- What `load` answers.
pub data StoredStart : Type 0 where
  no_start unknown_start : StoredStart
  stored_start : StartInstruction → StoredStart

-- A read may change the state too: whether the next one fails is a part of it.
-- `load_delivery_authority` answers `none` where the source answers "unknown", and a save answers
-- `none` where it throws.
pub record StartInstructionAcceptanceStore (S : Type 0) : Type 0 where
  pub load : S → StoredStart × S
  pub save : S → StartInstruction → Option Bool × S
  pub load_delivery_authority : S → Option DurableDeliveryAuthority × S
  pub save_delivery_authority : S → DurableDeliveryAuthority → Option Bool × S

pub record WorkerProtocolPeer (S : Type 0) : Type 0 where
  pub state : WorkerState
  pub sequence_number : ℕ
  pub last_host_sequence_number : ℕ
  pub acknowledgement_pending : Bool
  pub process_instance_id : Option String
  pub delivery_generation : ℕ
  pub delivery_dispatcher_id : Option String
  pub accepted_start_instruction : Option StartInstruction
  pub acknowledged_evidence : Option Acknowledgement
  pub store : S

-- The peer of a new session.
abbrev pub new_worker : {S : Type 0} → S → WorkerProtocolPeer S
new_worker s = record {
  state = new;
  sequence_number = 1;
  last_host_sequence_number = 0;
  acknowledgement_pending = false;
  process_instance_id = none;
  delivery_generation = 1;
  delivery_dispatcher_id = none;
  accepted_start_instruction = none;
  acknowledged_evidence = none;
  store = s;
}

pub data WorkerProtocolEvent : Type 0 where
  hello : ℕ → String → String → WorkerProtocolEvent
  started : String → ObservedWorkerConfig → WorkerProtocolEvent
  generation_updated : ℕ → AcceptanceState → Option StartInstruction → WorkerProtocolEvent
  begin_accepted begin_ack : StartInstruction → WorkerProtocolEvent
  begin_rejected : StartInstruction → BeginRejectionReason → WorkerProtocolEvent
  result : WorkerProducedResult → WorkerProtocolEvent
  failed : String → PiUsage → List PiToolUse → WorkerProtocolEvent
  done : PiUsage → List PiToolUse → WorkerProtocolEvent
  cancelled : WorkerProtocolEvent

abbrev pub is_new : WorkerState → Bool
is_new new = true
is_new _ = false

abbrev pub is_identified : WorkerState → Bool
is_identified identified = true
is_identified _ = false

abbrev pub is_ready : WorkerState → Bool
is_ready ready = true
is_ready _ = false

abbrev pub is_running : WorkerState → Bool
is_running running = true
is_running _ = false

abbrev pub is_delivering : WorkerState → Bool
is_delivering delivering = true
is_delivering _ = false

abbrev pub is_cancelling : WorkerState → Bool
is_cancelling cancelling = true
is_cancelling _ = false

abbrev pub is_done : WorkerState → Bool
is_done WorkerState.done = true
is_done _ = false

abbrev pub is_acknowledged : WorkerState → Bool
is_acknowledged acknowledged = true
is_acknowledged _ = false

-- `instruction !== undefined && isDeepStrictEqual(event.instruction, instruction)`
abbrev pub is_accepted_start : Option StartInstruction → StartInstruction → Bool
is_accepted_start none instruction = false
is_accepted_start (some accepted) instruction = same_start instruction accepted

-- The instruction of a generation update is the accepted one, and is there if it is said to be.
abbrev pub fits_generation :
    Option StartInstruction → AcceptanceState → Option StartInstruction → Bool
fits_generation accepted AcceptanceState.accepted none = false
fits_generation accepted AcceptanceState.accepted (some instruction) =
    is_accepted_start accepted instruction
fits_generation accepted _ instruction = not (is_some instruction)

-- The loop that cuts a body: fuel for one round for each byte.
abbrev pub cut : ℕ → ℕ → List ℕ → List (List ℕ)
cut zero size bytes = []
cut (suc n) size [] = []
cut (suc n) size (c ∷ r) = take size (c ∷ r) ∷ cut n size (drop size (c ∷ r))

-- `Math.max(1, Math.floor(frameBytes / 2))`
abbrev pub max_chunk : ProtocolLimits → ℕ
max_chunk limits = let half = limits.frame_bytes / 2 in if ltb half 1 then 1 else half

abbrev pub chunk_frames : Wire → List (List ℕ) → List WorkerBody
chunk_frames wire [] = []
chunk_frames wire (bytes ∷ more) =
    Frames.result_chunk (wire.to_base64 bytes) ∷ chunk_frames wire more

abbrev pub line_of : Wire → ProtocolAuthority → ℕ → WorkerBody → List ℕ
line_of wire authority sequence_number body = wire.print_worker (record {
  common = record {
    operation_id = authority.operation_id;
    capability = authority.capability;
    sequence_number = sequence_number;
  };
  body = body;
})

-- The frames of a Result.
abbrev pub result_frames : Wire → ProtocolLimits → WorkerProducedResult → List ℕ → List WorkerBody
result_frames wire limits produced bytes =
    Frames.result_begin produced.acceptance_request_id produced.expected_byte_count
      produced.expected_digest
    ∷ (chunk_frames wire (cut (length bytes) (max_chunk limits) bytes)
        ++ Frames.result_commit produced.expected_digest ∷ [])

module _ (platform : Platform) (wire : Wire) (authority : ProtocolAuthority)
    (limits : ProtocolLimits) {S : Type 0} where
  -- `encodeWorkerFrame`
  unfoldable pub encode_worker_frame : WorkerBody → Session (WorkerProtocolPeer S) (List ℕ)
  encode_worker_frame body = get >>= λ p.
      encode_frame limits (line_of wire authority p.sequence_number body) (p.sequence_number == 1)
      >>= λ bytes.
          modify (λ p. record p { sequence_number = p.sequence_number + 1 }) >> return bytes

  -- The frames of a list, one after the other.
  unfoldable pub encode_frames : List WorkerBody → Session (WorkerProtocolPeer S) (List ℕ)
  encode_frames [] = return []
  encode_frames (body ∷ more) =
      encode_worker_frame body >>= λ bytes. encode_frames more >>= λ rest. return (bytes ++ rest)

  abbrev pub move_to : WorkerState → Session (WorkerProtocolPeer S) (Unit {0})
  move_to state = modify (λ p. record p { state = state })

  -- A frame that is sent in a state, and the state after it.
  abbrev pub send_in :
      (WorkerState → Bool) → WorkerBody → WorkerState → Session (WorkerProtocolPeer S) (List ℕ)
  send_in allowed body next = get >>= λ p.
      require_not (not (allowed p.state)) invalid_transition
      >> encode_worker_frame body
      >>= λ bytes. move_to next >> return bytes

  unfoldable pub send_hello : ℕ → String → String → Session (WorkerProtocolPeer S) (List ℕ)
  send_hello process_id process_instance_id process_start_token = get >>= λ p.
      require_not (not (is_new p.state)) invalid_transition
      >> require_not (not (is_safe_integer process_id) || ltb process_id 1) invalid_frame
      >> require_not (not (is_process_instance_id process_instance_id)) invalid_frame
      >> require_not (not (non_empty process_start_token)) invalid_frame
      >> encode_worker_frame (Frames.hello process_id process_instance_id process_start_token)
      >>= λ bytes.
          modify
            (λ p. record p { process_instance_id = some process_instance_id; state = identified })
          >> return bytes

  unfoldable pub send_started :
      String → ObservedWorkerConfig → Session (WorkerProtocolPeer S) (List ℕ)
  send_started pi_session_id observed_config = get >>= λ p.
      require_not (not (is_identified p.state)) invalid_transition
      >> require_not (not (non_empty pi_session_id)) invalid_frame
      >> encode_worker_frame (Frames.started pi_session_id observed_config)
      >>= λ bytes. move_to ready >> return bytes

  unfoldable pub send_generation :
      ℕ → AcceptanceState → Option StartInstruction → Session (WorkerProtocolPeer S) (List ℕ)
  send_generation generation acceptance_state instruction = get >>= λ p.
      require_not
        (not (generation == p.delivery_generation)
          || not (fits_generation p.accepted_start_instruction acceptance_state instruction))
        invalid_transition
      >> encode_worker_frame (Frames.generation_updated generation acceptance_state instruction)

  -- `begin_accepted` and `begin_ack`
  unfoldable pub send_start :
      StartInstruction → WorkerBody → Session (WorkerProtocolPeer S) (List ℕ)
  send_start instruction body = get >>= λ p.
      require_not
        (not (is_running p.state)
          || not (is_accepted_start p.accepted_start_instruction instruction))
        invalid_transition
      >> encode_worker_frame body

  unfoldable pub send_rejected :
      StartInstruction → BeginRejectionReason → Session (WorkerProtocolPeer S) (List ℕ)
  send_rejected instruction reason = get >>= λ p.
      require_not (not (is_ready p.state || is_running p.state)) invalid_transition
      >> encode_worker_frame (Frames.begin_rejected instruction reason)

  unfoldable pub send_result : WorkerProducedResult → Session (WorkerProtocolPeer S) (List ℕ)
  send_result produced =
      let bytes = buffer_from produced.body in
      get >>= λ p.
      require_not (not (is_running p.state)) invalid_transition
      >> require_not
          (not (same_text (text_decode bytes) produced.body)
            || not (length bytes == produced.expected_byte_count)
            || not (str_eq (sha256_digest platform bytes) produced.expected_digest))
          invalid_frame
      >> require_not (ltb limits.result_bytes (length bytes)) result_too_large
      >> encode_frames (result_frames wire limits produced bytes)
      >>= λ sent.
          modify (λ p. record p { acknowledgement_pending = true; state = delivering })
          >> return sent

  unfoldable pub send : WorkerProtocolEvent → Session (WorkerProtocolPeer S) (List ℕ)
  send (hello process_id instance_id start_token) = send_hello process_id instance_id start_token
  send (started session config) = send_started session config
  send (generation_updated generation acceptance_state instruction) =
      send_generation generation acceptance_state instruction
  send (begin_accepted instruction) = send_start instruction (Frames.begin_accepted instruction)
  send (begin_ack instruction) = send_start instruction (Frames.begin_ack instruction)
  send (begin_rejected instruction reason) = send_rejected instruction reason
  send (result produced) = send_result produced
  send (WorkerProtocolEvent.failed message usage tool_uses) =
      send_in is_running (Frames.failed message usage tool_uses) WorkerState.done
  send (WorkerProtocolEvent.done usage tool_uses) =
      send_in is_delivering (Frames.done usage tool_uses) WorkerState.done
  send cancelled = send_in is_cancelling Frames.cancelled WorkerState.done
