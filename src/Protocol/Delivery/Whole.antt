-- ===== src/Protocol/Delivery/Whole.antt =====
-- src/internal/worker-protocol.ts: a Result, from the Worker that sends it to the host.
use mathlib.Core.Path.{subst}
use mathlib.Core.List.{append_assoc}
use pions.Prelude.{
  ℕ, ◌+◌, ◌≤◌, ◌≡◌, refl, sym, ap, ◌∙◌, true, false, ◌&&◌, ◌||◌, none, some, List, [], ◌∷◌, ◌++◌,
  length, length-append, ltb, arith,
}
use pions.Except.{ok}
use pions.Platform.{Platform}
use pions.Text.{is_safe_integer}
use pions.Types.Evidence.{PiUsage, PiToolUse}
use pions.ResultAcceptance.{WorkerProducedResult, buffer_from}
use pions.Protocol.{ProtocolAuthority, ProtocolLimits}
use pions.Protocol.Frames
use pions.Protocol.Frames.{Wire, WorkerBody}
use pions.Protocol.Framing.{accept_from, accept_bytes}
use pions.Protocol.Framing.Lines.{at_line_start, after_event-none}
use pions.Protocol.Host.{
  HostState, receiving_results, HostProtocolPeer, result_received, is_awaiting_hello, is_failed,
  is_done,
}
use pions.Protocol.Host.Reception.{concat, evidence_of, on_body, accept_frame, receive}
use pions.Protocol.Host.Pieces.{receive-ok}
use pions.Protocol.Worker.{
  WorkerProtocolPeer, WorkerProtocolEvent, cut, max_chunk, chunk_frames, result_frames, send,
}
use pions.Protocol.Delivery.{stream, AreRead, AreShort, AreDecoded}
use pions.Protocol.Delivery.Sent.{
  concat-cut, stream-append, AreShort-append, encode_worker_frame-eq-ok, encode_frames-eq-ok,
}
use pions.Protocol.Delivery.Produced.{is_damaged, send_result-eq-ok, send_done-eq-ok}
use pions.Protocol.Delivery.Taken.{counted, accept_from-body}
use pions.Protocol.Delivery.Chunks.{with_chunks, collected, accept_from-chunks}
use pions.Protocol.Delivery.Committed.{
  begun, intact, committed, on_result_begin-ok, on_result_commit-ok, on_done-ok,
}

max_chunk-pos : (limits : ProtocolLimits) → 1 ≤ max_chunk limits
max_chunk-pos limits = ground arith

module _ (platform : Platform) (wire : Wire) (authority : ProtocolAuthority)
    (limits : ProtocolLimits) where
  abbrev pub chunks_of : WorkerProducedResult → List (List ℕ)
  chunks_of produced =
      let bytes = buffer_from produced.body in cut (length bytes) (max_chunk limits) bytes

  -- The frames of a Result and of the end of its run.
  abbrev pub frames_of : WorkerProducedResult → PiUsage → List PiToolUse → List WorkerBody
  frames_of produced usage tool_uses =
      result_frames wire limits produced (buffer_from produced.body)
      ++ Frames.done usage tool_uses ∷ []

  length-chunk_frames : (cs : List (List ℕ)) → length (chunk_frames wire cs) ≡ length cs
  length-chunk_frames [] = refl
  length-chunk_frames (c ∷ cs) = omega (arith, length-chunk_frames cs)

  frames-length :
      (cs : List (List ℕ)) (commit end_frame : WorkerBody)
      → length ((chunk_frames wire cs ++ commit ∷ []) ++ end_frame ∷ []) ≡ length cs + 2
  frames-length cs commit end_frame = omega (
    arith,
    length-append (chunk_frames wire cs ++ commit ∷ []) (end_frame ∷ []),
    length-append (chunk_frames wire cs) (commit ∷ []),
    length-chunk_frames cs,
  )

  -- The host, with all that came.
  abbrev received : WorkerProducedResult → ℕ → HostProtocolPeer → HostProtocolPeer
  received produced n p = record (committed produced p) {
    last_sequence_number = n;
    state = HostState.done;
  }

  -- The last two frames.
  accept_from-commit :
      (produced : WorkerProducedResult) (usage : PiUsage) (tool_uses : List PiToolUse)
      (cs : List (List ℕ)) (n : ℕ) (p : HostProtocolPeer)
      → p.state ≡ receiving_results
      → p.current_result ≡ some (with_chunks cs (begun produced))
      → p.last_sequence_number + 1 ≡ n
      → is_safe_integer (n + 1) ≡ true
      → concat cs ≡ buffer_from produced.body
      → is_damaged platform produced ≡ false
      → AreRead wire authority n
          (Frames.result_commit produced.expected_digest ∷ Frames.done usage tool_uses ∷ [])
      → AreShort wire authority limits n
          (Frames.result_commit produced.expected_digest ∷ Frames.done usage tool_uses ∷ [])
      → accept_from limits
          (accept_frame platform wire authority limits)
          false
          []
          (stream wire authority n
            (Frames.result_commit produced.expected_digest ∷ Frames.done usage tool_uses ∷ []))
          (at_line_start p)
        ≡ (
          ok (result_received produced (evidence_of usage tool_uses) ∷ []),
          at_line_start (received produced (n + 1) p),
        )
  unfolding on_body accept_from
  accept_from-commit produced usage tool_uses cs n p receiving current next safe whole good read
        short =
      let q : HostProtocolPeer = committed produced (counted n p) in
      let end_line = stream wire authority (n + 1) (Frames.done usage tool_uses ∷ []) in
      let first =
        accept_from-body platform wire authority limits n
          (Frames.result_commit produced.expected_digest) end_line p q none refl receiving next
          (ground arith) read.0 read.1 short.0
          (on_result_commit-ok platform produced cs (counted n p) receiving current whole good) in
      let second =
        accept_from-body platform wire authority limits (n + 1) (Frames.done usage tool_uses) [] q
          (received produced (n + 1) p)
          (some (result_received produced (evidence_of usage tool_uses))) refl receiving refl safe
          read.2.0 read.2.1 short.1.0
          (on_done-ok usage tool_uses produced (counted (n + 1) q) receiving refl refl) in
      first
      ∙ after_event-none (
          accept_from limits (accept_frame platform wire authority limits) false [] end_line
            (at_line_start q))
      ∙ second

  -- All the frames.
  accept_from-frames :
      (produced : WorkerProducedResult) (usage : PiUsage) (tool_uses : List PiToolUse) (n : ℕ)
      (p : HostProtocolPeer)
      → p.state ≡ receiving_results
      → p.current_result ≡ none
      → p.received_result ≡ none
      → p.last_sequence_number + 1 ≡ n
      → is_safe_integer (n + length (frames_of produced usage tool_uses)) ≡ true
      → is_safe_integer produced.expected_byte_count ≡ true
      → ltb limits.result_bytes produced.expected_byte_count ≡ false
      → is_damaged platform produced ≡ false
      → AreRead wire authority n (frames_of produced usage tool_uses)
      → AreShort wire authority limits n (frames_of produced usage tool_uses)
      → AreDecoded wire authority (chunks_of produced)
      → (q : HostProtocolPeer) × (accept_from limits
            (accept_frame platform wire authority limits)
            false
            []
            (stream wire authority n (frames_of produced usage tool_uses))
            (at_line_start p)
          ≡ (ok (result_received produced (evidence_of usage tool_uses) ∷ []), at_line_start q))
        × (q.state ≡ HostState.done)
        × (q.acknowledgement_pending ≡ true)
  unfolding on_body
  accept_from-frames produced usage tool_uses n p receiving current none_yet next safe count fits
        good read short decoded =
      let bytes = buffer_from produced.body in
      let cs = chunks_of produced in
      let commit = Frames.result_commit produced.expected_digest in
      let end_frame = Frames.done usage tool_uses in
      let tail : List WorkerBody = commit ∷ end_frame ∷ [] in
      let joined = append_assoc (chunk_frames wire cs) (commit ∷ []) (end_frame ∷ []) in
      let whole =
        concat-cut (length bytes) (max_chunk limits) bytes (max_chunk-pos limits) (omega arith) in
      let (_, counts, _) = intact platform produced good in
      let size : length bytes ≡ produced.expected_byte_count = ground arith in
      let room : 0 + length (concat cs) ≤ produced.expected_byte_count =
        omega (arith, ap length whole) in
      let p1 : HostProtocolPeer = record (counted n p) { current_result = some (begun produced) } in
      let total = frames-length cs commit end_frame in
      let first =
        accept_from-body platform wire authority limits n
          (Frames.result_begin produced.acceptance_request_id produced.expected_byte_count
            produced.expected_digest)
          (stream wire authority (n + 1) ((chunk_frames wire cs ++ commit ∷ []) ++ end_frame ∷ []))
          p p1 none refl receiving next (ground arith) read.0 read.1 short.0
          (on_result_begin-ok limits produced (counted n p) receiving current none_yet count
            fits) in
      let (chunks, later_read, later_short) =
        accept_from-chunks platform wire authority limits cs tail (n + 1) p1 (begun produced)
          receiving refl refl (ground arith) (subst (AreRead wire authority (n + 1)) joined read.2)
          (subst (AreShort wire authority limits (n + 1)) joined short.1) decoded room in
      let p2 : HostProtocolPeer = collected (n + length cs) (with_chunks cs (begun produced)) p1 in
      let last =
        accept_from-commit produced usage tool_uses cs (n + 1 + length cs) p2 receiving refl
          (omega arith) (ground arith) whole good later_read later_short in
      (
        received produced (n + 1 + length cs + 1) p2,
        first
            ∙ after_event-none (
                accept_from limits (accept_frame platform wire authority limits) false []
                  (stream wire authority (n + 1)
                    ((chunk_frames wire cs ++ commit ∷ []) ++ end_frame ∷ []))
                  (at_line_start p1))
            ∙ ap
                (λ l.
                  accept_from limits (accept_frame platform wire authority limits) false []
                    (stream wire authority (n + 1) l) (at_line_start p1))
                joined
            ∙ chunks
            ∙ last,
        refl,
        refl,
      )

  -- What is sent is the lines of the frames.
  sent-stream :
      {S : Type 0} (produced : WorkerProducedResult) (usage : PiUsage) (tool_uses : List PiToolUse)
      (w w1 w2 : WorkerProtocolPeer S) (sent last : List ℕ)
      → 2 ≤ w.sequence_number
      → send platform wire authority limits (WorkerProtocolEvent.result produced) w ≡ (ok sent, w1)
      → send platform wire authority limits (WorkerProtocolEvent.done usage tool_uses) w1
        ≡ (ok last, w2)
      → (sent ++ last
          ≡ stream wire authority w.sequence_number (frames_of produced usage tool_uses))
        × AreShort wire authority limits w.sequence_number (frames_of produced usage tool_uses)
        × (w2.sequence_number ≡ w.sequence_number + length (frames_of produced usage tool_uses))
  sent-stream {S} produced usage tool_uses w w1 w2 sent last later h k =
      let frames = result_frames wire limits produced (buffer_from produced.body) in
      let end_frame = Frames.done usage tool_uses in
      let n = w.sequence_number in
      let (_, _, w', framed, ended) =
        send_result-eq-ok platform wire authority limits produced w w1 sent h in
      let (w'', done_framed, all_ended) =
        send_done-eq-ok platform wire authority limits usage tool_uses w1 w2 last k in
      let (shorts, streamed, moved) =
        encode_frames-eq-ok wire authority platform limits frames w w' sent later framed in
      let number : w1.sequence_number ≡ n + length frames =
        ap (λ (x : WorkerProtocolPeer S). x.sequence_number) ended
        ∙ ap (λ (x : WorkerProtocolPeer S). x.sequence_number) moved in
      let (short, line, counted_on) =
        encode_worker_frame-eq-ok wire authority platform limits end_frame w1 w'' last
          (omega (arith, number)) done_framed in
      let at_end : last ≡ stream wire authority (n + length frames) (end_frame ∷ []) =
        line ∙ ap (λ m. stream wire authority m (end_frame ∷ [])) number in
      let after : w2.sequence_number ≡ w1.sequence_number + 1 =
        ap (λ (x : WorkerProtocolPeer S). x.sequence_number) all_ended
        ∙ ap (λ (x : WorkerProtocolPeer S). x.sequence_number) counted_on in
      (
        ap (λ l. l ++ last) streamed
            ∙ ap (λ l. stream wire authority n frames ++ l) at_end
            ∙ sym (stream-append wire authority n frames (end_frame ∷ [])),
        AreShort-append wire authority limits n frames (end_frame ∷ []) shorts
            (subst (λ m. AreShort wire authority limits m (end_frame ∷ [])) number (short, tt)),
        omega (arith, after, number, length-append frames (end_frame ∷ [])),
      )

  -- What a Worker sends of a Result and of the end of its run, in a session that has been going on,
  -- gives the host that Result, the same in every field, with the evidence that was sent; the host is
  -- done and owes an acknowledgement. The host receives Results, at the start of a line, and the next
  -- number is that of the Worker, whose numbers stay safe integers; the size limit is one too; and the
  -- lines and the base64 of the frames that are sent are read as what was printed.
  pub receive-send :
      {S : Type 0} (produced : WorkerProducedResult) (usage : PiUsage) (tool_uses : List PiToolUse)
      (w w1 w2 : WorkerProtocolPeer S) (p : HostProtocolPeer) (sent last : List ℕ)
      → send platform wire authority limits (WorkerProtocolEvent.result produced) w ≡ (ok sent, w1)
      → send platform wire authority limits (WorkerProtocolEvent.done usage tool_uses) w1
        ≡ (ok last, w2)
      → 2 ≤ w.sequence_number
      → is_safe_integer w2.sequence_number ≡ true
      → is_safe_integer limits.result_bytes ≡ true
      → p.last_sequence_number + 1 ≡ w.sequence_number
      → p.state ≡ receiving_results
      → p.current_result ≡ none
      → p.received_result ≡ none
      → AreRead wire authority w.sequence_number (frames_of produced usage tool_uses)
      → AreDecoded wire authority (chunks_of produced)
      → (q : HostProtocolPeer) × (receive platform wire authority limits
            (sent ++ last)
            (at_line_start p)
          ≡ (ok (result_received produced (evidence_of usage tool_uses) ∷ []), at_line_start q))
        × (q.state ≡ HostState.done)
        × (q.acknowledgement_pending ≡ true)
  receive-send {S} produced usage tool_uses w w1 w2 p sent last h k later safe bound next receiving
        current none_yet read decoded =
      let (good, small, _, _, _) =
        send_result-eq-ok platform wire authority limits produced w w1 sent h in
      let (_, counts, _) = intact platform produced good in
      let size : length (buffer_from produced.body) ≡ produced.expected_byte_count = ground arith in
      let (streamed, short, number) =
        sent-stream produced usage tool_uses w w1 w2 sent last later h k in
      let (q, taken, done_now, pending) =
        accept_from-frames produced usage tool_uses w.sequence_number p receiving current none_yet
          next (ap is_safe_integer (sym number) ∙ safe) (ground arith) (ground arith) good read
          short decoded in
      let flag : is_awaiting_hello p.state ≡ false = ap is_awaiting_hello receiving in
      (
        q,
        receive-ok platform wire authority limits (sent ++ last) (at_line_start p) (at_line_start q)
            (result_received produced (evidence_of usage tool_uses) ∷ [])
            (ap (λ s. is_failed s || is_done s) receiving)
            (ap
                (λ b.
                  accept_bytes limits (accept_frame platform wire authority limits) (sent ++ last) b
                    (at_line_start p))
                flag
              ∙ ap
                  (λ l.
                    accept_from limits (accept_frame platform wire authority limits) false [] l
                      (at_line_start p))
                  streamed
              ∙ taken)
            (ap (λ s. is_done s && false) done_now),
        done_now,
        pending,
      )
