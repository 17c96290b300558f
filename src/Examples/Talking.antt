-- ===== src/Examples/Talking.antt =====
-- src/internal/worker-protocol.ts: a Worker that sends the Result "hi" to a host. A line of this
-- example holds the type and the number of its frame.
use pions.Acceptance.{sha256_digest}
use pions.StartInstruction.{same_instruction}
use pions.Utf8.{is_utf8, decode, decode_from}
use pions.Text.{is_base64, encode_all, encode}
use pions.Prelude.{
  str_eq, ℕ, ◌+◌, ◌-◌, ◌≡◌, refl, Bool, true, false, none, some, All, length, ◌≤◌, arith, List, [],
  ◌∷◌, ◌++◌, ◌==◌, if◌then◌else◌,
}
use pions.Except.{ok, err}
use pions.Types.Evidence.{PiUsage, Double}
use pions.ResultAcceptance.{buffer_from, same_text}
use pions.Protocol.{ProtocolAuthority, ProtocolLimits, store_error}
use pions.Protocol.Frames
use pions.Protocol.Frames.{
  Wire, WorkerBody, WorkerFrame, Parsed, not_json, well_formed, StartInstruction, same_start,
  control, begin,
}
use pions.Protocol.Framing.{FramedPeer, accept_from}
use pions.Protocol.Framing.Lines.{at_line_start}
use pions.Protocol.Host.{
  HostProtocolPeer, HostProtocolEvent, new_host, HostState, validate_common, receiving_results,
  result_received,
}
use pions.Protocol.Host.Reception.{
  receive, accept_frame, on_body, on_result_begin, on_result_chunk, on_result_commit, on_done,
  evidence_of,
}
use pions.Protocol.Host.Pieces.{receive-append}
use pions.Protocol.Worker.{
  WorkerState, WorkerProtocolPeer, WorkerProtocolEvent, new_worker, running, ready, send,
  send_result, encode_frames, encode_worker_frame,
}
use pions.Protocol.Delivery.Whole.{receive-send}
use pions.Protocol.Host.Sound.{IsSound, IsIntegral}
use pions.Protocol.Host.Integrity.{receive-IsIntegral}
use pions.Protocol.Control.{validate_start_instruction}
use pions.Protocol.Worker.Reception as WorkerReception
use pions.Protocol.Worker.Received.{WorkerProtocolReception, accepted, duplicate}
use pions.Protocol.Worker.Reception.{
  on_control, on_begin, begin_fresh, validate_host_control, restore_durable_start_acceptance,
}
use pions.Protocol.Worker.Durable.{unserved, received}
use pions.WorkerExtension.StartStore.{StartFiles, whole, no_faults, file_starts}
use pions.WorkerExtension.WriteOnce.{Served-file_starts}
use pions.Protocol.Worker.Received.{StartStatus}
use pions.Examples.Data.{platform}
use pions.Examples.Answering.{hi}

abbrev authority : ProtocolAuthority
authority = record { operation_id = "op"; capability = "secret" }

abbrev limits : ProtocolLimits
limits = record { first_frame_bytes = 100; frame_bytes = 2; result_bytes = 100 }

abbrev nought : Double
nought = record { negative = false; mantissa = 0; exponent = 0 }

abbrev usage : PiUsage
usage = record {
  input = nought;
  output = nought;
  cache_read = nought;
  cache_write = nought;
  total_tokens = nought;
  cost = nought;
}

abbrev body_at : ℕ → WorkerBody
body_at kind =
    if kind == 0
    then Frames.result_begin "answer" 2 hi.expected_digest
    else if kind == 1
    then Frames.result_chunk "aA=="
    else if kind == 2
    then Frames.result_chunk "aQ=="
    else if kind == 3
    then Frames.result_commit hi.expected_digest
    else Frames.done usage []

abbrev kind_of : WorkerBody → ℕ
kind_of (Frames.result_begin _ _ _) = 0
kind_of (Frames.result_chunk payload) = if str_eq payload "aA==" then 1 else 2
kind_of (Frames.result_commit _) = 3
kind_of _ = 4

abbrev parsed : List ℕ → Parsed WorkerFrame
parsed (kind ∷ number ∷ []) = well_formed (record {
  common = record { operation_id = "op"; capability = "secret"; sequence_number = number - 100 };
  body = body_at kind;
})
parsed _ = not_json

abbrev is_h : List ℕ → Bool
is_h (c ∷ []) = c == 104
is_h _ = false

abbrev wire : Wire
wire = record {
  print_worker = λ frame. kind_of frame.body ∷ (frame.common.sequence_number + 100) ∷ [];
  print_host = λ _. [];
  parse_worker = parsed;
  parse_host = λ _. not_json;
  to_base64 = λ bytes. if is_h bytes then "aA==" else "aQ==";
  from_base64 = λ payload. if str_eq payload "aA==" then 104 ∷ [] else 105 ∷ [];
  is_date = λ _. true;
  is_reached = λ _ _. false;
}

abbrev worker : WorkerProtocolPeer (Unit {0})
worker = record (new_worker tt) { state = running; sequence_number = 5 }

abbrev host : HostProtocolPeer
host = record new_host { state = receiving_results; last_sequence_number = 4 }

-- The lines of the Result, and of the end.
abbrev said : List ℕ
said = 0 ∷ 105 ∷ 10 ∷ 1 ∷ 106 ∷ 10 ∷ 2 ∷ 107 ∷ 10 ∷ 3 ∷ 108 ∷ 10 ∷ []

abbrev worker_after : WorkerProtocolPeer (Unit {0})
worker_after = (send platform wire authority limits (WorkerProtocolEvent.result hi) worker).1

abbrev evidence : HostProtocolEvent
evidence = result_received hi (evidence_of usage [])

abbrev host_after : HostProtocolPeer
host_after = record host {
  state = HostState.done;
  last_sequence_number = 9;
  received_result = some hi;
  acknowledgement_pending = true;
}

receive-send_example :
    (q : HostProtocolPeer) × (receive platform wire authority limits
        (said ++ 4 ∷ 109 ∷ 10 ∷ [])
        (at_line_start host)
      ≡ (ok (evidence ∷ []), at_line_start q))
    × (q.state ≡ HostState.done)
    × (q.acknowledgement_pending ≡ true)
unfolding send send_result encode_frames encode_worker_frame buffer_from same_text encode_all encode
    decode decode_from is_base64 sha256_digest
receive-send_example =
    receive-send platform wire authority limits hi usage [] worker
      (send platform wire authority limits (WorkerProtocolEvent.result hi) worker).1
      (send platform wire authority limits (WorkerProtocolEvent.done usage [])
        (send platform wire authority limits (WorkerProtocolEvent.result hi) worker).1).1
      host said (4 ∷ 109 ∷ 10 ∷ []) refl refl (omega arith) refl refl refl refl refl refl
      ((refl, refl, (refl, refl, (refl, refl, (refl, refl, (refl, refl, tt))))))
      ((refl, refl, (refl, refl, tt)))

-- The first chunk has come, and a part of the second one.
abbrev host_between : FramedPeer HostProtocolPeer
host_between =
    (receive platform wire authority limits (0 ∷ 105 ∷ 10 ∷ 1 ∷ 106 ∷ 10 ∷ 2 ∷ [])
      (at_line_start host)).1

receive-append_example :
    receive platform wire authority limits
      ((0 ∷ 105 ∷ 10 ∷ 1 ∷ 106 ∷ 10 ∷ 2 ∷ []) ++ 107 ∷ 10 ∷ 3 ∷ 108 ∷ 10 ∷ 4 ∷ 109 ∷ 10 ∷ [])
      (at_line_start host)
    ≡ (ok ([] ++ evidence ∷ []), at_line_start host_after)
unfolding receive accept_frame accept_from on_body on_result_begin on_result_chunk on_result_commit
    on_done validate_common is_base64 decode decode_from is_utf8 sha256_digest
receive-append_example =
    receive-append platform wire authority limits (0 ∷ 105 ∷ 10 ∷ 1 ∷ 106 ∷ 10 ∷ 2 ∷ [])
      (107 ∷ 10 ∷ 3 ∷ 108 ∷ 10 ∷ 4 ∷ 109 ∷ 10 ∷ []) (at_line_start host) host_between
      (at_line_start host_after) [] (evidence ∷ []) refl refl

receive-IsIntegral_example :
    All (IsSound platform limits) (evidence ∷ []) × IsIntegral platform limits host_after
unfolding receive accept_frame accept_from on_body on_result_begin on_result_chunk on_result_commit
    on_done validate_common is_base64 decode decode_from is_utf8 sha256_digest
receive-IsIntegral_example =
    receive-IsIntegral platform wire authority limits (said ++ 4 ∷ 109 ∷ 10 ∷ [])
      (at_line_start host) (at_line_start host_after) (evidence ∷ []) (tt, tt) refl

abbrev begun_with : StartInstruction
begun_with = record {
  reference = record {
    delivery_generation = 1;
    receipt_digest = hi.expected_digest;
    worker_process_instance_id = "w";
    dispatcher_id = "d";
  };
  deadline = none;
}

-- The host begins twice.
abbrev begin_wire : Wire
begin_wire = record wire {
  parse_host = λ line. well_formed (
      control (record { operation_id = "op"; capability = "secret"; sequence_number = length line })
        (begin begun_with));
}

abbrev no_files : StartFiles
no_files = record { start = none; authority = none; writings = []; readings = [] }

-- The first reading of the files succeeds and so does the second; the authority is claimed. When the
-- instruction is saved, the file is written, and the call for its directory fails; the file is read.
abbrev failing : StartFiles
failing = record no_files {
  writings = no_faults ∷ record no_faults { directory_fails = true } ∷ [];
  readings = false ∷ false ∷ false ∷ [];
}

abbrev files_after : StartFiles
files_after = record no_files {
  start = some (whole begun_with);
  authority = some (whole (record { delivery_generation = 1; dispatcher_id = some "d" }));
}

-- A worker whose saving throws: the file is closed twice, and both fail.
abbrev throwing : StartFiles
throwing = record no_files {
  writings = no_faults ∷ record no_faults { close_fails = true; close_again_fails = true } ∷ [];
}

-- A Worker that has connected, with its files.
abbrev connected : StartFiles → WorkerProtocolPeer StartFiles
connected s = record (new_worker s) { state = ready; process_instance_id = some "w" }

abbrev begun_worker : ℕ → WorkerProtocolPeer StartFiles
begun_worker received_number = record (connected files_after) {
  state = running;
  last_host_sequence_number = received_number;
  delivery_dispatcher_id = some "d";
  accepted_start_instruction = some begun_with;
}

abbrev reception_with : List (StartStatus × StartInstruction) → WorkerProtocolReception
reception_with starts = record {
  acknowledgements_complete = false;
  cancellation_requested = false;
  start_instructions = starts;
  observed_start_acceptances = [];
  generation_update = none;
}

-- The host begins twice in a first connection, and once more in another.
Served-file_starts_example : 1 + 0 ≤ 1
unfolding WorkerReception.receive WorkerReception.accept_frame accept_from on_control on_begin
    begin_fresh validate_host_control validate_start_instruction restore_durable_start_acceptance
    same_start same_instruction
Served-file_starts_example =
    Served-file_starts begin_wire authority limits "now" failing files_after 1 (
      received (7 ∷ 10 ∷ []) (at_line_start (connected files_after))
        (at_line_start (begun_worker 1)) (reception_with ((duplicate, begun_with) ∷ []))
        (received (7 ∷ 10 ∷ 7 ∷ 7 ∷ 10 ∷ []) (at_line_start (connected failing))
          (at_line_start (begun_worker 2))
          (reception_with ((accepted, begun_with) ∷ (duplicate, begun_with) ∷ [])) unserved refl
          refl)
        refl refl)

-- A save that throws: the file is there, and the session has failed.
saving_throws :
    WorkerReception.receive begin_wire authority limits "now"
      (file_starts begin_wire)
      (7 ∷ 10 ∷ [])
      (at_line_start (connected throwing))
    ≡ (
      err store_error,
      record (at_line_start (connected files_after)) {
        inner = record (connected files_after) {
          state = WorkerState.failed;
          last_host_sequence_number = 1;
        };
      },
    )
unfolding WorkerReception.receive WorkerReception.accept_frame accept_from on_control on_begin
    begin_fresh validate_host_control validate_start_instruction restore_durable_start_acceptance
    same_start same_instruction
saving_throws = refl
