-- ===== src/Protocol/Host/Reception.antt =====
-- src/internal/worker-protocol.ts: `receive` of the host and the frames that a Worker sends, one
-- function for each type of frame.
use pions.Prelude.{
  ℕ, ◌+◌, ◌-◌, String, Bool, true, false, not, ◌||◌, Option, none, some, List, [], ◌∷◌, ◌++◌,
  length, ltb, ◌==◌, str_eq, is_some, if◌then◌else◌,
}
use pions.Except.{Except, ok, err}
use pions.Platform.{Platform}
use pions.Text.{is_safe_integer, is_base64}
use pions.Utf8.{is_utf8}
use pions.Acceptance.{sha256_digest}
use pions.Types.Configuration.{ObservedWorkerConfig}
use pions.Types.Evidence.{AgentRunEvidence, AcceptanceState, PiUsage, PiToolUse}
use pions.ResultAcceptance.{WorkerProducedResult, text_decode}
use pions.Protocol.{
  ProtocolAuthority, ProtocolLimits, ProtocolError, type_error, Session, return, throw, ◌>>=◌, ◌>>◌,
  get, modify, require_not, validate_safe_positive_integer, invalid_frame, version_mismatch,
  result_too_large, digest_mismatch, invalid_transition, unexpected_acknowledgement,
}
use pions.Protocol.Frames
use pions.Protocol.Frames.{
  Wire, StartInstruction, same_start, BeginRejectionReason, Common, WorkerBody, WorkerFrame, Parsed,
  not_json, other_version, null_value, shapeless, well_formed,
}
use pions.Protocol.Framing.{FramedPeer, accept_bytes, require_frame_boundary}
use pions.Protocol.Host.{
  awaiting_started, awaiting_begin, receiving_results, done, failed, CurrentResult,
  HostProtocolPeer, HostProtocolEvent, started, result_received, worker_failed,
  start_instruction_accepted, start_instruction_acknowledged, start_instruction_rejected,
  delivery_generation_updated, worker_cancelled, is_awaiting_hello, is_awaiting_started,
  is_receiving, is_cancelling, is_done, is_failed, validate_common, validate_hello, move_to,
}

-- What a frame is answered with.
abbrev pub Answer : Type 0
Answer = Session HostProtocolPeer (Option HostProtocolEvent)

abbrev pub is_accepted : AcceptanceState → Bool
is_accepted AcceptanceState.accepted = true
is_accepted _ = false

-- `instruction !== undefined && isDeepStrictEqual(frame.instruction, instruction)`
abbrev pub is_instruction : Option StartInstruction → StartInstruction → Bool
is_instruction none received = false
is_instruction (some instruction) received = same_start received instruction

-- Both are there, and differ.
abbrev pub differs : Option StartInstruction → Option StartInstruction → Bool
differs (some accepted) (some instruction) = not (same_start accepted instruction)
differs _ _ = false

abbrev pub is_pending : Option ℕ → ℕ → Bool
is_pending none generation = false
is_pending (some pending) generation = generation == pending

abbrev pub xor : Bool → Bool → Bool
xor true b = not b
xor false b = b

abbrev pub evidence_of : PiUsage → List PiToolUse → AgentRunEvidence
evidence_of usage tool_uses = record { usage = usage; tool_uses = tool_uses; error_message = none }

-- `Buffer.concat`
abbrev pub concat : List (List ℕ) → List ℕ
concat [] = []
concat (x ∷ xs) = x ++ concat xs

abbrev pub no_event : Session HostProtocolPeer (Option HostProtocolEvent)
no_event = return none

abbrev pub give_event : HostProtocolEvent → Session HostProtocolPeer (Option HostProtocolEvent)
give_event event = return (some event)

unfoldable pub on_started : String → ObservedWorkerConfig → Answer
on_started pi_session_id observed_config = get >>= λ p.
    require_not (not (is_awaiting_started p.state)) invalid_transition
    >> move_to awaiting_begin
    >> give_event (
        started p.process_id p.process_instance_id p.process_start_token pi_session_id
          observed_config)

unfoldable pub on_cancelled : Answer
on_cancelled = get >>= λ p.
    require_not (not (is_cancelling p.state)) invalid_transition
    >> move_to done
    >> give_event worker_cancelled

-- The state of the peer after the confirmation of a generation.
abbrev pub confirm_generation : ℕ → AcceptanceState → HostProtocolPeer → HostProtocolPeer
confirm_generation generation acceptance_state p = record p {
  confirmed_delivery_generation = generation;
  confirmed_start_acceptance_state = some acceptance_state;
  pending_delivery_generation = none;
  state = if is_accepted acceptance_state then receiving_results else p.state;
}

unfoldable pub on_generation_updated : ℕ → AcceptanceState → Option StartInstruction → Answer
on_generation_updated generation acceptance_state accepted_instruction =
    validate_safe_positive_integer generation >> get >>= λ p.
    require_not
      (not (is_pending p.pending_delivery_generation generation)
        || xor (is_accepted acceptance_state) (is_some accepted_instruction)
        || differs accepted_instruction p.start_instruction)
      unexpected_acknowledgement
    >> modify (confirm_generation generation acceptance_state)
    >> give_event (delivery_generation_updated generation acceptance_state accepted_instruction)

unfoldable pub on_begin_rejected : StartInstruction → BeginRejectionReason → Answer
on_begin_rejected instruction reason = get >>= λ p.
    require_not (not (is_receiving p.state) || not (is_instruction p.start_instruction instruction))
      unexpected_acknowledgement
    >> give_event (start_instruction_rejected instruction reason)

unfoldable pub on_begin_accepted : StartInstruction → Answer
on_begin_accepted instruction = get >>= λ p.
    require_not (not (is_receiving p.state) || not (is_instruction p.start_instruction instruction))
      unexpected_acknowledgement
    >> modify (λ p. record p {
      accepted_start_instruction = some instruction;
      pending_start_acceptance_observations = p.pending_start_acceptance_observations + 1;
    })
    >> give_event (start_instruction_accepted instruction)

unfoldable pub on_begin_ack : StartInstruction → Answer
on_begin_ack instruction = get >>= λ p.
    require_not
      (not (is_receiving p.state)
        || p.pending_start_acknowledgements == 0
        || not (is_instruction p.accepted_start_instruction instruction))
      unexpected_acknowledgement
    >> modify
        (λ p. record p { pending_start_acknowledgements = p.pending_start_acknowledgements - 1 })
    >> give_event (start_instruction_acknowledged instruction)

unfoldable pub on_result_begin : ProtocolLimits → String → ℕ → String → Answer
on_result_begin limits acceptance_request_id expected_byte_count expected_digest = get >>= λ p.
    require_not
      (not (is_receiving p.state) || is_some p.current_result || is_some p.received_result)
      invalid_transition
    >> require_not (not (is_safe_integer expected_byte_count)) invalid_frame
    >> require_not (ltb limits.result_bytes expected_byte_count) result_too_large
    >> modify (λ p. record p {
      current_result = some (record {
        acceptance_request_id = acceptance_request_id;
        expected_byte_count = expected_byte_count;
        expected_digest = expected_digest;
        chunks = [];
        received_byte_count = 0;
      });
    })
    >> no_event

-- The chunk is counted before its size is tested.
abbrev pub count_chunk : CurrentResult → List ℕ → HostProtocolPeer → HostProtocolPeer
count_chunk result bytes p = record p {
  current_result =
      some (record result { received_byte_count = result.received_byte_count + length bytes });
}

abbrev pub push_chunk : CurrentResult → List ℕ → HostProtocolPeer → HostProtocolPeer
push_chunk result bytes p = record p {
  current_result = some (record result {
    received_byte_count = result.received_byte_count + length bytes;
    chunks = result.chunks ++ bytes ∷ [];
  });
}

abbrev pub add_chunk : Wire → String → Option CurrentResult → Answer
add_chunk wire payload none = throw invalid_transition
add_chunk wire payload (some result) =
    let bytes = wire.from_base64 payload in
    require_not (not (is_base64 payload)) invalid_transition
    >> modify (count_chunk result bytes)
    >> require_not (ltb result.expected_byte_count (result.received_byte_count + length bytes))
        result_too_large
    >> modify (push_chunk result bytes)
    >> no_event

unfoldable pub on_result_chunk : Wire → String → Answer
on_result_chunk wire payload = get >>= λ p.
    require_not (not (is_receiving p.state)) invalid_transition
    >> add_chunk wire payload p.current_result

module _ (platform : Platform) where
  abbrev pub commit_result : String → Option CurrentResult → Answer
  commit_result expected_digest none = throw invalid_transition
  commit_result expected_digest (some result) =
      let bytes = concat result.chunks in
      require_not (not (str_eq expected_digest result.expected_digest)) invalid_transition
      >> require_not
          (not (length bytes == result.expected_byte_count)
            || not (str_eq (sha256_digest platform bytes) result.expected_digest))
          digest_mismatch
      >> require_not (not (is_utf8 bytes)) invalid_frame
      >> modify (λ p. record p {
        received_result = some (record {
          acceptance_request_id = result.acceptance_request_id;
          body = text_decode bytes;
          expected_byte_count = result.expected_byte_count;
          expected_digest = result.expected_digest;
        });
        current_result = none;
        acknowledgement_pending = true;
      })
      >> no_event

  unfoldable pub on_result_commit : String → Answer
  on_result_commit expected_digest = get >>= λ p.
      require_not (not (is_receiving p.state)) invalid_transition
      >> commit_result expected_digest p.current_result

unfoldable pub on_failed : String → PiUsage → List PiToolUse → Answer
on_failed error_message usage tool_uses = get >>= λ p.
    require_not
      (not (is_receiving p.state) || is_some p.received_result || is_some p.current_result)
      invalid_transition
    >> move_to done
    >> give_event (worker_failed error_message (evidence_of usage tool_uses))

abbrev pub finish_result : Option WorkerProducedResult → AgentRunEvidence → Answer
finish_result none evidence = throw invalid_transition
finish_result (some result) evidence = move_to done >> give_event (result_received result evidence)

unfoldable pub on_done : PiUsage → List PiToolUse → Answer
on_done usage tool_uses = get >>= λ p.
    require_not (not (is_receiving p.state) || not p.acknowledgement_pending) invalid_transition
    >> finish_result p.received_result (evidence_of usage tool_uses)

module _ (platform : Platform) (wire : Wire) (authority : ProtocolAuthority)
    (limits : ProtocolLimits) where
  -- A frame after the first; another `hello` is of an unknown type.
  unfoldable pub on_body : WorkerBody → Answer
  unfolding on_started on_cancelled on_generation_updated on_begin_rejected on_begin_accepted
      on_begin_ack on_result_begin on_result_chunk on_result_commit on_failed on_done
  on_body (Frames.hello _ _ _) = throw invalid_frame
  on_body (Frames.started session config) = on_started session config
  on_body (Frames.result_begin request count digest) = on_result_begin limits request count digest
  on_body (Frames.result_chunk payload) = on_result_chunk wire payload
  on_body (Frames.result_commit digest) = on_result_commit platform digest
  on_body (Frames.done usage tool_uses) = on_done usage tool_uses
  on_body (Frames.failed message usage tool_uses) = on_failed message usage tool_uses
  on_body Frames.cancelled = on_cancelled
  on_body (Frames.begin_accepted instruction) = on_begin_accepted instruction
  on_body (Frames.begin_ack instruction) = on_begin_ack instruction
  on_body (Frames.begin_rejected instruction reason) = on_begin_rejected instruction reason
  on_body (Frames.generation_updated generation acceptance_state instruction) =
      on_generation_updated generation acceptance_state instruction

  -- `validateCommon` of a frame, unless its type is not known.
  abbrev pub on_frame : WorkerFrame → Answer
  on_frame frame = elim frame.body as (λ _. Answer) [
    | Frames.hello _ _ _ ↦ throw invalid_frame
    | body ↦ validate_common authority frame.common >> on_body body
  ]

  abbrev pub on_first_body : Common → WorkerBody → Answer
  on_first_body common (Frames.hello process_id process_instance_id process_start_token) =
      validate_hello authority common process_id process_instance_id process_start_token
      >> move_to awaiting_started
      >> no_event
  on_first_body common _ = throw invalid_frame

  -- A line, where a `hello` is awaited and where it is not.
  abbrev pub on_line : Bool → Parsed WorkerFrame → Answer
  on_line first not_json = throw invalid_frame
  on_line first other_version = throw version_mismatch
  on_line true null_value = throw invalid_frame
  on_line false null_value = λ p. (err type_error, p)
  on_line first (shapeless control) = throw invalid_frame
  on_line true (well_formed frame) = on_first_body frame.common frame.body
  on_line false (well_formed frame) = on_frame frame

  -- `acceptFrame`
  unfoldable pub accept_frame : List ℕ → Answer
  unfolding on_body
  accept_frame line = get >>= λ p.
      require_not (is_done p.state) invalid_transition
      >> on_line (is_awaiting_hello p.state) (wire.parse_worker line)

  -- `catch (error) { this.state = "failed"; throw error; }`
  abbrev pub or_failed :
      {A : Type 0}
      → Except ProtocolError A × FramedPeer HostProtocolPeer
      → Except ProtocolError A × FramedPeer HostProtocolPeer
  or_failed (ok a, p) = (ok a, p)
  or_failed (err e, p) = (err e, record p { inner = record p.inner { state = failed } })

  -- `requireTerminalFrameBoundary`, and then the events.
  abbrev pub at_boundary :
      List HostProtocolEvent → Session (FramedPeer HostProtocolPeer) (List HostProtocolEvent)
  at_boundary events p =
      (if is_done p.inner.state then require_frame_boundary >> return events else return events) p

  unfoldable pub receive : List ℕ → Session (FramedPeer HostProtocolPeer) (List HostProtocolEvent)
  receive bytes p = or_failed (
      (require_not (is_failed p.inner.state || is_done p.inner.state) invalid_transition
          >> (accept_bytes limits accept_frame bytes (is_awaiting_hello p.inner.state)
              >>= at_boundary))
        p)
