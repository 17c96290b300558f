-- ===== src/Protocol/Host.antt =====
-- src/internal/worker-protocol.ts: `HostProtocolPeer`, the host's side of a session. Files below it
-- hold its other methods.
pub mod Reception
pub mod Methods
pub mod Begun
pub mod Pieces
pub mod Sound
pub mod Checked
pub mod Integrity
use pions.Prelude.{
  ℕ, ◌+◌, String, Bool, true, false, not, ◌&&◌, ◌||◌, Option, none, some, List, [], ltb, ◌==◌,
  str_eq, if◌then◌else◌,
}
use pions.Except.{Except, ok, err}
use pions.Platform.{Platform}
use pions.Text.{is_safe_integer}
use pions.Types.Configuration.{ObservedWorkerConfig}
use pions.Types.Evidence.{AgentRunEvidence, AcceptanceState}
use pions.ResultAcceptance.{WorkerProducedResult, ResultAcceptanceProof}
use pions.Protocol.{
  ProtocolAuthority, ProtocolLimits, Session, return, throw, ◌>>=◌, ◌>>◌, get, modify, require_not,
  validate_safe_positive_integer, invalid_frame, authority_mismatch, sequence_mismatch,
  invalid_transition,
}
use pions.Protocol.Frames.{Wire, StartInstruction, BeginRejectionReason, Common}

pub data HostState : Type 0 where
  awaiting_hello awaiting_started awaiting_begin receiving_results cancelling done failed :
      HostState

-- `currentResult`
pub record CurrentResult : Type 0 where
  pub acceptance_request_id : String
  pub expected_byte_count : ℕ
  pub expected_digest : String
  pub chunks : List (List ℕ)
  pub received_byte_count : ℕ

pub record HostProtocolPeer : Type 0 where
  pub state : HostState
  pub last_sequence_number : ℕ
  pub host_sequence_number : ℕ
  pub process_id : ℕ
  pub process_instance_id : String
  pub process_start_token : String
  pub received_result : Option WorkerProducedResult
  pub current_result : Option CurrentResult
  pub acknowledgement_pending : Bool
  pub acknowledged_proof : Option ResultAcceptanceProof
  pub start_instruction : Option StartInstruction
  pub accepted_start_instruction : Option StartInstruction
  pub pending_start_acceptance_observations : ℕ
  pub pending_start_acknowledgements : ℕ
  pub active_dispatcher_id : Option String
  pub pending_delivery_generation : Option ℕ
  pub confirmed_delivery_generation : ℕ
  pub confirmed_start_acceptance_state : Option AcceptanceState

-- The peer of a new session.
abbrev pub new_host : HostProtocolPeer
new_host = record {
  state = awaiting_hello;
  last_sequence_number = 0;
  host_sequence_number = 1;
  process_id = 0;
  process_instance_id = "";
  process_start_token = "";
  received_result = none;
  current_result = none;
  acknowledgement_pending = false;
  acknowledged_proof = none;
  start_instruction = none;
  accepted_start_instruction = none;
  pending_start_acceptance_observations = 0;
  pending_start_acknowledgements = 0;
  active_dispatcher_id = none;
  pending_delivery_generation = none;
  confirmed_delivery_generation = 1;
  confirmed_start_acceptance_state = none;
}

pub data HostProtocolEvent : Type 0 where
  started : ℕ → String → String → String → ObservedWorkerConfig → HostProtocolEvent
  result_received : WorkerProducedResult → AgentRunEvidence → HostProtocolEvent
  worker_failed : String → AgentRunEvidence → HostProtocolEvent
  start_instruction_accepted start_instruction_acknowledged : StartInstruction → HostProtocolEvent
  start_instruction_rejected : StartInstruction → BeginRejectionReason → HostProtocolEvent
  delivery_generation_updated : ℕ → AcceptanceState → Option StartInstruction → HostProtocolEvent
  worker_cancelled : HostProtocolEvent

abbrev pub is_awaiting_hello : HostState → Bool
is_awaiting_hello awaiting_hello = true
is_awaiting_hello _ = false

abbrev pub is_awaiting_started : HostState → Bool
is_awaiting_started awaiting_started = true
is_awaiting_started _ = false

abbrev pub is_awaiting_begin : HostState → Bool
is_awaiting_begin awaiting_begin = true
is_awaiting_begin _ = false

abbrev pub is_receiving : HostState → Bool
is_receiving receiving_results = true
is_receiving _ = false

abbrev pub is_cancelling : HostState → Bool
is_cancelling cancelling = true
is_cancelling _ = false

abbrev pub is_done : HostState → Bool
is_done done = true
is_done _ = false

abbrev pub is_failed : HostState → Bool
is_failed failed = true
is_failed _ = false

-- The frame is of this Operation, under its capability, and the next one.
unfoldable pub validate_common : ProtocolAuthority → Common → Session HostProtocolPeer (Unit {0})
validate_common authority frame =
    require_not
      (not (str_eq frame.operation_id authority.operation_id)
        || not (str_eq authority.capability frame.capability))
      authority_mismatch
    >> validate_safe_positive_integer frame.sequence_number
    >> get
    >>= λ p.
        require_not (not (frame.sequence_number == p.last_sequence_number + 1)) sequence_mismatch
        >> modify (λ p. record p { last_sequence_number = frame.sequence_number })

-- `validateCommon(hello, true)`
unfoldable pub validate_hello :
    ProtocolAuthority → Common → ℕ → String → String → Session HostProtocolPeer (Unit {0})
validate_hello authority frame process_id process_instance_id process_start_token =
    validate_common authority frame
    >> require_not (not (is_safe_integer process_id) || ltb process_id 1) invalid_frame
    >> modify (λ p. record p {
      process_id = process_id;
      process_instance_id = process_instance_id;
      process_start_token = process_start_token;
    })

abbrev pub move_to : HostState → Session HostProtocolPeer (Unit {0})
move_to state = modify (λ p. record p { state = state })
