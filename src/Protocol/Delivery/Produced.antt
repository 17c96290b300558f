-- ===== src/Protocol/Delivery/Produced.antt =====
-- src/internal/worker-protocol.ts: what a Worker has sent that has sent a Result, and its end.
use pions.Prelude.{
  ℕ, ◌≡◌, sym, ap, ◌∙◌, Bool, true, false, not, ◌||◌, List, length, ltb, ◌==◌, str_eq,
}
use pions.Except.{ok}
use pions.Platform.{Platform}
use pions.Types.Evidence.{PiUsage, PiToolUse}
use pions.Acceptance.{sha256_digest}
use pions.ResultAcceptance.{WorkerProducedResult, buffer_from, text_decode, same_text}
use pions.Protocol.{
  ProtocolAuthority, ProtocolLimits, Session, invalid_frame, invalid_transition, result_too_large,
  modify, return, require_not, ◌>>◌,
}
use pions.Protocol.Sessions.{>>=-eq-ok, >>-eq-ok, passed}
use pions.Protocol.Frames
use pions.Protocol.Frames.{Wire, WorkerBody}
use pions.Protocol.Worker.{
  WorkerState, delivering, WorkerProtocolPeer, WorkerProtocolEvent, is_running, is_delivering,
  result_frames, encode_worker_frame, encode_frames, send_result, send,
}

-- The body has not the length or the digest that are declared, or does not survive its UTF-8.
abbrev pub is_damaged : Platform → WorkerProducedResult → Bool
is_damaged platform produced =
    let bytes = buffer_from produced.body in
    not (same_text (text_decode bytes) produced.body)
    || not (length bytes == produced.expected_byte_count)
    || not (str_eq (sha256_digest platform bytes) produced.expected_digest)

module _ (platform : Platform) (wire : Wire) (authority : ProtocolAuthority)
    (limits : ProtocolLimits) {S : Type 0} where
  pub send_result-eq-ok :
      (produced : WorkerProducedResult) (w w1 : WorkerProtocolPeer S) (sent : List ℕ)
      → send platform wire authority limits (WorkerProtocolEvent.result produced) w ≡ (ok sent, w1)
      → (is_damaged platform produced ≡ false)
        × (ltb limits.result_bytes (length (buffer_from produced.body)) ≡ false)
        × (w' : WorkerProtocolPeer S) × (encode_frames platform wire authority limits
              (result_frames wire limits produced (buffer_from produced.body))
              w
            ≡ (ok sent, w'))
        × (w1 ≡ record w' { acknowledgement_pending = true; state = delivering })
  unfolding send send_result
  send_result-eq-ok produced w w1 sent h =
      let bytes = buffer_from produced.body in
      let running : Session (WorkerProtocolPeer S) (Unit {0}) =
        require_not (not (is_running w.state)) invalid_transition in
      let integral : Session (WorkerProtocolPeer S) (Unit {0}) =
        require_not (is_damaged platform produced) invalid_frame in
      let small : Session (WorkerProtocolPeer S) (Unit {0}) =
        require_not (ltb limits.result_bytes (length bytes)) result_too_large in
      let encoded =
        encode_frames platform wire authority limits (result_frames wire limits produced bytes) in
      let (all_sent, w4, framed, ended) =
        >>=-eq-ok (running >> integral >> small >> encoded)
          (λ sent.
            modify (λ p. record p { acknowledgement_pending = true; state = delivering })
            >> return sent)
          w h in
      let (_, w3, guards, frames) = >>-eq-ok (running >> integral >> small) encoded w framed in
      let (_, w2, two, third) = >>-eq-ok (running >> integral) small w guards in
      let (_, w0, first, second) = >>-eq-ok running integral w two in
      let (_, from_first) = passed (not (is_running w.state)) invalid_transition w first in
      let (whole, from_second) = passed (is_damaged platform produced) invalid_frame w0 second in
      let (fits, from_third) =
        passed (ltb limits.result_bytes (length bytes)) result_too_large w2 third in
      let same : sent ≡ all_sent = cc in
      let start : w3 ≡ w = from_third ∙ from_second ∙ from_first in
      (whole, fits, w4, ap encoded (sym start) ∙ frames ∙ ap (λ l. (ok l, w4)) (sym same), cc)

  pub send_done-eq-ok :
      (usage : PiUsage) (tool_uses : List PiToolUse) (w w1 : WorkerProtocolPeer S) (sent : List ℕ)
      → send platform wire authority limits (WorkerProtocolEvent.done usage tool_uses) w
        ≡ (ok sent, w1)
      → (w' : WorkerProtocolPeer S) × (encode_worker_frame platform wire authority limits
            (Frames.done usage tool_uses)
            w
          ≡ (ok sent, w'))
        × (w1 ≡ record w' { state = WorkerState.done })
  unfolding send
  send_done-eq-ok usage tool_uses w w1 sent h =
      let guard : Session (WorkerProtocolPeer S) (Unit {0}) =
        require_not (not (is_delivering w.state)) invalid_transition in
      let encoded =
        encode_worker_frame platform wire authority limits (Frames.done usage tool_uses) in
      let (line, w2, framed, ended) =
        >>=-eq-ok (guard >> encoded)
          (λ bytes. modify (λ p. record p { state = WorkerState.done }) >> return bytes) w h in
      let (_, w0, first, frame) = >>-eq-ok guard encoded w framed in
      let (_, from_first) = passed (not (is_delivering w.state)) invalid_transition w first in
      let same : sent ≡ line = cc in
      (w2, ap encoded (sym from_first) ∙ frame ∙ ap (λ l. (ok l, w2)) (sym same), cc)
