-- ===== src/Protocol/Delivery/Chunks.antt =====
-- src/internal/worker-protocol.ts: the chunks of a Result, as the host collects them.
use mathlib.Core.Path.{subst}
use mathlib.Core.List.{append_assoc}
use pions.Prelude.{
  ℕ, suc, ◌+◌, ◌≤◌, ◌≡◌, refl, sym, ap, ◌∙◌, true, false, not, none, some, List, [], ◌∷◌, ◌++◌,
  length, length-append, ltb, append-nil, arith,
}
use pions.Except.{Except, ok}
use pions.Platform.{Platform}
use pions.Text.{is_safe_integer, is_base64}
use pions.Protocol.{
  ProtocolAuthority, ProtocolLimits, ProtocolError, invalid_transition, require_not, ◌>>◌,
}
use pions.Protocol.Frames
use pions.Protocol.Frames.{Wire, WorkerBody}
use pions.Protocol.Framing.{FramedPeer, accept_from}
use pions.Protocol.Framing.Lines.{at_line_start, after_event-none}
use pions.Protocol.Host.{
  receiving_results, CurrentResult, HostProtocolPeer, HostProtocolEvent, is_receiving,
}
use pions.Protocol.Host.Reception.{
  concat, push_chunk, add_chunk, on_body, on_result_chunk, accept_frame,
}
use pions.Protocol.Worker.{chunk_frames}
use pions.Protocol.Delivery.{stream, AreRead, AreShort, AreDecoded}
use pions.Protocol.Delivery.Taken.{counted, accept_from-body}

abbrev pub with_chunks : List (List ℕ) → CurrentResult → CurrentResult
with_chunks cs r = record r {
  chunks = r.chunks ++ cs;
  received_byte_count = r.received_byte_count + length (concat cs);
}

-- The host after chunks that are counted on from `n`.
abbrev pub collected : ℕ → CurrentResult → HostProtocolPeer → HostProtocolPeer
collected n r p = record p { last_sequence_number = n; current_result = some r }

abbrev pushed : CurrentResult → List ℕ → CurrentResult
pushed r bytes = record r {
  received_byte_count = r.received_byte_count + length bytes;
  chunks = r.chunks ++ bytes ∷ [];
}

add_chunk-ok :
    (wire : Wire) (bytes : List ℕ) (p : HostProtocolPeer) (r : CurrentResult)
    → wire.from_base64 (wire.to_base64 bytes) ≡ bytes
    → is_base64 (wire.to_base64 bytes) ≡ true
    → r.received_byte_count + length bytes ≤ r.expected_byte_count
    → add_chunk wire (wire.to_base64 bytes) (some r) p ≡ (ok none, push_chunk r bytes p)
add_chunk-ok wire bytes p r decoded regular fits =
    let small : ltb r.expected_byte_count (r.received_byte_count + length bytes) ≡ false =
      ground arith in
    simp (decoded, regular, small) refl

on_result_chunk-ok :
    (wire : Wire) (bytes : List ℕ) (p : HostProtocolPeer) (r : CurrentResult)
    → p.state ≡ receiving_results
    → p.current_result ≡ some r
    → wire.from_base64 (wire.to_base64 bytes) ≡ bytes
    → is_base64 (wire.to_base64 bytes) ≡ true
    → r.received_byte_count + length bytes ≤ r.expected_byte_count
    → on_result_chunk wire (wire.to_base64 bytes) p ≡ (ok none, push_chunk r bytes p)
unfolding on_result_chunk
on_result_chunk-ok wire bytes p r receiving current decoded regular fits =
    ap
      (λ s.
        (require_not (not (is_receiving s)) invalid_transition
            >> add_chunk wire (wire.to_base64 bytes) p.current_result)
          p)
      receiving
    ∙ ap (λ o. add_chunk wire (wire.to_base64 bytes) o p) current
    ∙ add_chunk-ok wire bytes p r decoded regular fits

-- A chunk that is pushed goes before those that follow.
with_chunks-push :
    (bytes : List ℕ) (cs : List (List ℕ)) (r : CurrentResult)
    → with_chunks cs (pushed r bytes) ≡ with_chunks (bytes ∷ cs) r
with_chunks-push bytes cs r =
    let total : r.received_byte_count + length bytes + length (concat cs)
        ≡ r.received_byte_count + length (bytes ++ concat cs) =
      omega (arith, length-append bytes (concat cs)) in
    ap (λ l. record (with_chunks cs (pushed r bytes)) { chunks = l })
      (append_assoc r.chunks (bytes ∷ []) cs)
    ∙ ap (λ k. record (with_chunks (bytes ∷ cs) r) { received_byte_count = k }) total

with_chunks-nil : (r : CurrentResult) → with_chunks [] r ≡ r
with_chunks-nil r =
    ap (λ l. record (with_chunks [] r) { chunks = l }) (append-nil r.chunks)
    ∙ ap (λ k. record r { received_byte_count = k }) (omega arith)

module _ (platform : Platform) (wire : Wire) (authority : ProtocolAuthority)
    (limits : ProtocolLimits) where
  abbrev from :
      List WorkerBody
      → HostProtocolPeer
      → ℕ
      → ℕ
      → CurrentResult
      → Except ProtocolError (List HostProtocolEvent) × FramedPeer HostProtocolPeer
  from more p n last r =
      accept_from limits (accept_frame platform wire authority limits) false []
        (stream wire authority n more) (at_line_start (collected last r p))

  from-agrees :
      (more : List WorkerBody) (p : HostProtocolPeer) {n n' last last' : ℕ} {r r' : CurrentResult}
      → n ≡ n'
      → last ≡ last'
      → r ≡ r'
      → from more p n last r ≡ from more p n' last' r'
  from-agrees more p {n} {n'} {last} {last'} {r} {r'} e f g =
      ap (λ k. from more p k last r) e
      ∙ ap (λ k. from more p n' k r) f
      ∙ ap (λ x. from more p n' last' x) g

  -- The chunks that are sent are collected; what is sent after them is left.
  pub accept_from-chunks :
      (cs : List (List ℕ)) (more : List WorkerBody) (n : ℕ) (p : HostProtocolPeer)
      (r : CurrentResult)
      → p.state ≡ receiving_results
      → p.current_result ≡ some r
      → p.last_sequence_number + 1 ≡ n
      → is_safe_integer (n + length cs) ≡ true
      → AreRead wire authority n (chunk_frames wire cs ++ more)
      → AreShort wire authority limits n (chunk_frames wire cs ++ more)
      → AreDecoded wire authority cs
      → r.received_byte_count + length (concat cs) ≤ r.expected_byte_count
      → (accept_from limits
            (accept_frame platform wire authority limits)
            false
            []
            (stream wire authority n (chunk_frames wire cs ++ more))
            (at_line_start p)
          ≡ accept_from limits
              (accept_frame platform wire authority limits)
              false
              []
              (stream wire authority (n + length cs) more)
              (at_line_start (collected (p.last_sequence_number + length cs) (with_chunks cs r) p)))
        × AreRead wire authority (n + length cs) more
        × AreShort wire authority limits (n + length cs) more
  unfolding on_body
  accept_from-chunks [] more n p r receiving current next safe read short decoded fits =
      let same : n ≡ n + 0 = omega arith in
      (
        ap
              (λ o.
                accept_from limits (accept_frame platform wire authority limits) false []
                  (stream wire authority n more) (at_line_start (record p { current_result = o })))
              current
            ∙ from-agrees more p same (omega arith) (sym (with_chunks-nil r)),
        subst (λ k. AreRead wire authority k more) same read,
        subst (λ k. AreShort wire authority limits k more) same short,
      )
  accept_from-chunks (bytes ∷ cs) more n p r receiving current next safe read short decoded fits =
      let room : r.received_byte_count + length bytes + length (concat cs) ≤ r.expected_byte_count =
        omega (arith, length-append bytes (concat cs)) in
      let q : HostProtocolPeer = collected n (pushed r bytes) p in
      let sum : n + 1 + length cs ≡ n + suc (length cs) = omega arith in
      let taken =
        accept_from-body platform wire authority limits n
          (Frames.result_chunk (wire.to_base64 bytes))
          (stream wire authority (n + 1) (chunk_frames wire cs ++ more)) p q none refl receiving
          next (ground arith) read.0 read.1 short.0
          (on_result_chunk-ok wire bytes (counted n p) r receiving current decoded.0 decoded.1
            (omega arith)) in
      let (rest, later_read, later_short) =
        accept_from-chunks cs more (n + 1) q (pushed r bytes) receiving refl refl (ground arith)
          read.2 short.1 decoded.2 room in
      (
        taken
            ∙ after_event-none (
                accept_from limits (accept_frame platform wire authority limits) false []
                  (stream wire authority (n + 1) (chunk_frames wire cs ++ more)) (at_line_start q))
            ∙ rest
            ∙ from-agrees more p sum (omega arith) (with_chunks-push bytes cs r),
        subst (λ k. AreRead wire authority k more) sum later_read,
        subst (λ k. AreShort wire authority limits k more) sum later_short,
      )
