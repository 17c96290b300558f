-- ===== src/Protocol/Delivery/Committed.antt =====
-- src/internal/worker-protocol.ts: the frames around the chunks of a Result, as the host takes them.
use pions.Prelude.{
  ℕ, ◌≡◌, refl, ap, ◌∙◌, true, false, not, none, some, List, [], ◌∷◌, length, ltb, ◌==◌, str_eq,
  eq_iff, &&-eq-true, arith,
}
use pions.Except.{ok}
use pions.Platform.{Platform}
use pions.Text.{is_safe_integer}
use pions.Types.Evidence.{PiUsage, PiToolUse}
use pions.Acceptance.{sha256_digest}
use pions.ResultAcceptance.{WorkerProducedResult, buffer_from, text_decode, same_text}
use pions.ResultAcceptance.Bodies.{buffer_from-is_utf8}
use pions.Protocol.{ProtocolLimits, invalid_transition, require_not, ◌>>◌}
use pions.Protocol.Delivery.Chunks.{with_chunks}
use pions.Protocol.Delivery.Produced.{is_damaged}
use pions.Protocol.Host.{
  HostState, receiving_results, CurrentResult, HostProtocolPeer, result_received, is_receiving,
}
use pions.Protocol.Host.Reception.{
  concat, evidence_of, on_result_begin, commit_result, on_result_commit, on_done,
}

same_text-eq : (a b : List ℕ) → same_text a b ≡ true → a ≡ b
unfolding same_text
same_text-eq [] [] h = refl
same_text-eq [] (d ∷ ds) h = absurd cc
same_text-eq (c ∷ cs) [] h = absurd cc
same_text-eq (c ∷ cs) (d ∷ ds) h =
    let (first, rest) = &&-eq-true (c == d) (same_text cs ds) h in
    let same : c ≡ d = ground arith in
    ap (λ x. x ∷ cs) same ∙ ap (λ l. d ∷ l) (same_text-eq cs ds rest)

-- A Result of which no chunk has come yet.
abbrev pub begun : WorkerProducedResult → CurrentResult
begun produced = record {
  acceptance_request_id = produced.acceptance_request_id;
  expected_byte_count = produced.expected_byte_count;
  expected_digest = produced.expected_digest;
  chunks = [];
  received_byte_count = 0;
}

pub on_result_begin-ok :
    (limits : ProtocolLimits) (produced : WorkerProducedResult) (p : HostProtocolPeer)
    → p.state ≡ receiving_results
    → p.current_result ≡ none
    → p.received_result ≡ none
    → is_safe_integer produced.expected_byte_count ≡ true
    → ltb limits.result_bytes produced.expected_byte_count ≡ false
    → on_result_begin limits produced.acceptance_request_id produced.expected_byte_count
        produced.expected_digest p
      ≡ (ok none, record p { current_result = some (begun produced) })
unfolding on_result_begin
on_result_begin-ok limits produced p receiving current received safe fits =
    simp (receiving, current, received, safe, fits) refl

-- The host has the Result, and owes an acknowledgement.
abbrev pub committed : WorkerProducedResult → HostProtocolPeer → HostProtocolPeer
committed produced p = record p {
  received_result = some produced;
  current_result = none;
  acknowledgement_pending = true;
}

pub intact :
    (platform : Platform) (produced : WorkerProducedResult)
    → is_damaged platform produced ≡ false
    → (same_text (text_decode (buffer_from produced.body)) produced.body ≡ true)
      × ((length (buffer_from produced.body) == produced.expected_byte_count) ≡ true)
      × (str_eq (sha256_digest platform (buffer_from produced.body)) produced.expected_digest
          ≡ true)
intact platform produced h = (ground arith, ground arith, ground arith)

pub on_result_commit-ok :
    (platform : Platform) (produced : WorkerProducedResult) (cs : List (List ℕ))
    (p : HostProtocolPeer)
    → p.state ≡ receiving_results
    → p.current_result ≡ some (with_chunks cs (begun produced))
    → concat cs ≡ buffer_from produced.body
    → is_damaged platform produced ≡ false
    → on_result_commit platform produced.expected_digest p ≡ (ok none, committed produced p)
unfolding on_result_commit
on_result_commit-ok platform produced cs p receiving current chunks whole =
    let (text, count, digest) = intact platform produced whole in
    let body : text_decode (buffer_from produced.body) ≡ produced.body =
      same_text-eq (text_decode (buffer_from produced.body)) produced.body text in
    let same : str_eq produced.expected_digest produced.expected_digest ≡ true =
      ground (arith, eq_iff produced.expected_digest produced.expected_digest) in
    let utf8 = buffer_from-is_utf8 produced.body in
    ap
      (λ s.
        (require_not (not (is_receiving s)) invalid_transition
            >> commit_result platform produced.expected_digest p.current_result)
          p)
      receiving
    ∙ ap (λ o. commit_result platform produced.expected_digest o p) current
    ∙ simp (same, chunks, count, digest, utf8, body) refl

pub on_done-ok :
    (usage : PiUsage) (tool_uses : List PiToolUse) (produced : WorkerProducedResult)
    (p : HostProtocolPeer)
    → p.state ≡ receiving_results
    → p.received_result ≡ some produced
    → p.acknowledgement_pending ≡ true
    → on_done usage tool_uses p ≡ (
      ok (some (result_received produced (evidence_of usage tool_uses))),
      record p { state = HostState.done },
    )
unfolding on_done
on_done-ok usage tool_uses produced p receiving received pending =
    simp (receiving, received, pending) refl
