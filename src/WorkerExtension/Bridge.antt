-- ===== src/WorkerExtension/Bridge.antt =====
-- src/worker-extension.ts: `PiWorkerBridge` of a connected Worker. What it has written to the socket
-- and has asked of Pi is counted in its state.
use pions.Prelude.{
  ℕ, ◌+◌, String, Bool, true, false, not, ◌&&◌, Option, none, some, List, [], ◌∷◌, ◌++◌, length,
  str_eq, is_some, if◌then◌else◌,
}
use pions.Except.{Except, ok, err}
use pions.Platform.{Platform}
use pions.Types.Evidence.{AcceptanceState, PiUsage, PiToolUse}
use pions.Acceptance.{sha256_digest}
use pions.ResultAcceptance.{WorkerProducedResult, buffer_from}
use pions.Protocol.{
  ProtocolAuthority, ProtocolLimits, ProtocolError, Session, return, ◌>>=◌, ◌>>◌, get, modify,
}
use pions.Protocol.Frames.{Wire, StartInstruction}
use pions.Protocol.Framing.{FramedPeer}
use pions.Protocol.Worker as Peer
use pions.Protocol.Worker.{StartInstructionAcceptanceStore, WorkerProtocolPeer, WorkerProtocolEvent}
use pions.Protocol.Worker.Reception as PeerReception
use pions.Protocol.Worker.Received.{
  StartStatus, accepted, refused, GenerationUpdate, WorkerProtocolReception,
}

-- A part of a message: text, or something else.
pub data Part : Type 0 where
  text : List ℕ → Part
  other_part : Part

pub record AssistantMessage : Type 0 where
  pub content : List Part
  pub stop_reason : String
  pub error_message : Option String

pub record PiWorkerBridge (S : Type 0) : Type 0 where
  pub protocol : FramedPeer (WorkerProtocolPeer S)
  pub stopped : Bool
  pub final_assistant : Option AssistantMessage
  pub usage : PiUsage
  pub tool_uses : List PiToolUse
  pub began : Bool
  pub cancelled : Bool
  pub completion_sent : Bool
  pub written : List ℕ
  pub is_ended : Bool
  pub is_destroyed : Bool
  pub aborts : ℕ
  pub prompts : ℕ

abbrev pub texts : List Part → List (List ℕ)
texts [] = []
texts (text line ∷ more) = line ∷ texts more
texts (other_part ∷ more) = texts more

-- `.join("\n")`
abbrev pub join_lines : List (List ℕ) → List ℕ
join_lines [] = []
join_lines (line ∷ []) = line
join_lines (line ∷ next ∷ more) = line ++ b'\n' ∷ join_lines (next ∷ more)

abbrev pub assistant_text : Option AssistantMessage → List ℕ
assistant_text none = []
assistant_text (some message) = join_lines (texts message.content)

abbrev pub is_successful : Option AssistantMessage → Bool
is_successful none = false
is_successful (some message) =
    str_eq message.stop_reason "stop"
    && not (is_some message.error_message)
    && is_non_empty (assistant_text (some message))
  where
    is_non_empty : List ℕ → Bool
    is_non_empty [] = false
    is_non_empty (_ ∷ _) = true

abbrev pub failure_of : Option AssistantMessage → String
failure_of none = "Pi agent_settled without a successful semantic Result"
failure_of (some message) = elim message.error_message as (λ _. String) [
  | none ↦ "Pi agent_settled without a successful semantic Result"
  | some error ↦ error
]

-- The first that is accepted is there.
abbrev pub has_accepted : List (StartStatus × StartInstruction) → Bool
has_accepted [] = false
has_accepted ((accepted, _) ∷ more) = true
has_accepted ((_, _) ∷ more) = has_accepted more

abbrev pub is_accepted_update : GenerationUpdate → Bool
is_accepted_update update = elim update.acceptance_state as (λ _. Bool) [
  | AcceptanceState.accepted ↦ true
  | _ ↦ false
]

module _ (platform : Platform) (wire : Wire) (authority : ProtocolAuthority)
    (limits : ProtocolLimits) (now : String) {S : Type 0}
    (starts : StartInstructionAcceptanceStore S) where
  abbrev pub Effect : Type 0
  Effect = Session (PiWorkerBridge S) (Unit {0})

  -- `this.socket?.write(this.protocol!.send(event))`
  unfoldable pub bridge_send : WorkerProtocolEvent → Effect
  bridge_send event b =
      let (outcome, peer) = Peer.send platform wire authority limits event b.protocol.inner in
      elim outcome as (λ _. Except ProtocolError (Unit {0}) × PiWorkerBridge S) [
        | ok bytes ↦ (
          ok tt,
          record b { protocol = record b.protocol { inner = peer }; written = b.written ++ bytes },
        )
        | err e ↦ (err e, record b { protocol = record b.protocol { inner = peer } })
      ]

  abbrev pub complete : Effect
  complete = modify (λ b. record b { completion_sent = true })

  abbrev pub send_failed : String → Effect
  send_failed message =
      get >>= λ b. bridge_send (WorkerProtocolEvent.failed message b.usage b.tool_uses)

  abbrev pub produced_of : List ℕ → WorkerProducedResult
  produced_of body = record {
    acceptance_request_id = "result-1";
    body = body;
    expected_byte_count = length (buffer_from body);
    expected_digest = sha256_digest platform (buffer_from body);
  }

  abbrev pub send_outcome : Option AssistantMessage → Effect
  send_outcome final =
      if not (is_successful final)
      then send_failed (failure_of final)
      else (bridge_send (WorkerProtocolEvent.result (produced_of (assistant_text final)))
          >> get
          >>= λ b. bridge_send (WorkerProtocolEvent.done b.usage b.tool_uses))

  unfoldable pub settle : Effect
  settle = get >>= λ b.
      if b.completion_sent
      then return tt
      else if b.cancelled
      then (complete
          >> modify (λ b. record b { stopped = true })
          >> bridge_send WorkerProtocolEvent.cancelled
          >> modify (λ b. record b { is_ended = true }))
      else (complete >> send_outcome b.final_assistant)

  abbrev pub answer_update : Option GenerationUpdate → Effect
  answer_update none = return tt
  answer_update (some update) =
      bridge_send (
        WorkerProtocolEvent.generation_updated update.delivery_generation update.acceptance_state
          update.accepted_instruction)
      >> get
      >>= λ b.
          if is_accepted_update update && b.completion_sent
          then (modify (λ b. record b { completion_sent = false }) >> settle)
          else return tt

  abbrev pub answer_cancellation : Bool → Effect
  answer_cancellation requested = get >>= λ b.
      if requested && not b.cancelled
      then (modify (λ b. record b { cancelled = true })
          >> (if b.began then modify (λ b. record b { aborts = b.aborts + 1 }) else settle))
      else return tt

  abbrev pub answer_start : StartStatus → StartInstruction → Effect
  answer_start (refused reason) instruction =
      bridge_send (WorkerProtocolEvent.begin_rejected instruction reason)
  answer_start _ instruction = bridge_send (WorkerProtocolEvent.begin_accepted instruction)

  unfoldable pub answer_starts : List (StartStatus × StartInstruction) → Effect
  answer_starts [] = return tt
  answer_starts ((status, instruction) ∷ more) =
      answer_start status instruction >> answer_starts more

  unfoldable pub acknowledge_starts : List StartInstruction → Effect
  acknowledge_starts [] = return tt
  acknowledge_starts (instruction ∷ more) =
      bridge_send (WorkerProtocolEvent.begin_ack instruction) >> acknowledge_starts more

  -- The prompt is read after this; `begin_read` goes on with it.
  abbrev pub start_once : List (StartStatus × StartInstruction) → Effect
  start_once instructions = get >>= λ b.
      if has_accepted instructions && not b.cancelled && not b.began
      then modify (λ b. record b { began = true })
      else return tt

  abbrev pub end_when : Bool → Effect
  end_when true = modify (λ b. record b { stopped = true; is_ended = true })
  end_when false = return tt

  abbrev pub answer : WorkerProtocolReception → Effect
  answer reception =
      answer_update reception.generation_update
      >> answer_cancellation reception.cancellation_requested
      >> answer_starts reception.start_instructions
      >> acknowledge_starts reception.observed_start_acceptances
      >> start_once reception.start_instructions
      >> end_when reception.acknowledgements_complete

  abbrev pub receive_bytes : List ℕ → Session (PiWorkerBridge S) WorkerProtocolReception
  receive_bytes chunk b =
      let (outcome, peer) =
        PeerReception.receive wire authority limits now starts chunk b.protocol in
      (outcome, record b { protocol = peer })

  -- `catch { this.socket?.destroy(); }`
  abbrev pub or_destroyed : Except ProtocolError (Unit {0}) × PiWorkerBridge S → PiWorkerBridge S
  or_destroyed (ok _, b) = b
  or_destroyed (err _, b) = record b { is_destroyed = true }

  unfoldable pub receive_control : List ℕ → PiWorkerBridge S → PiWorkerBridge S
  receive_control chunk b = or_destroyed ((receive_bytes chunk >>= answer) b)

  -- `begin`, once the prompt has been read, or the error that reading it has thrown.
  abbrev pub begin_failed : String → Effect
  begin_failed message =
      get >>= λ b. if b.completion_sent then return tt else (complete >> send_failed message)

  abbrev pub begin_read : Effect
  begin_read = get >>= λ b.
      if b.cancelled then settle else modify (λ b. record b { prompts = b.prompts + 1 })
