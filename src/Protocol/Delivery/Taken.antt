-- ===== src/Protocol/Delivery/Taken.antt =====
-- src/internal/worker-protocol.ts: what the host makes of the frames of a Result, one after the other.
use pions.Prelude.{
  ℕ, ◌+◌, ◌≤◌, ◌≡◌, ap, ◌∙◌, Bool, true, false, Option, List, [], ◌∷◌, ◌++◌, length, all, eq_iff,
  arith,
}
use pions.Except.{ok}
use pions.Platform.{Platform}
use pions.Text.{is_safe_integer}
use pions.Protocol.{ProtocolAuthority, ProtocolLimits, invalid_transition, ◌>>◌, require_not}
use pions.Protocol.Sessions.{>>=-ok}
use pions.Protocol.Frames
use pions.Protocol.Frames.{Wire, Common, WorkerBody, Parsed, well_formed}
use pions.Protocol.Framing.{after_event, accept_from}
use pions.Protocol.Framing.Lines.{in_line, at_line_start, accept_from-taken}
use pions.Protocol.Host.{
  receiving_results, HostProtocolPeer, HostProtocolEvent, is_awaiting_hello, is_done,
  validate_common,
}
use pions.Protocol.Host.Reception.{on_body, on_frame, on_line, accept_frame}
use pions.Protocol.Worker.{line_of}
use pions.Protocol.Delivery.{numbered_frame}

abbrev pub is_hello : WorkerBody → Bool
is_hello (Frames.hello _ _ _) = true
is_hello _ = false

abbrev pub counted : ℕ → HostProtocolPeer → HostProtocolPeer
counted n p = record p { last_sequence_number = n }

module _ (platform : Platform) (wire : Wire) (authority : ProtocolAuthority)
    (limits : ProtocolLimits) where
  validate_common-ok :
      (n : ℕ) (body : WorkerBody) (p : HostProtocolPeer)
      → p.last_sequence_number + 1 ≡ n
      → is_safe_integer n ≡ true
      → validate_common authority (numbered_frame wire authority n body).common p
        ≡ (ok tt, counted n p)
  unfolding validate_common
  validate_common-ok n body p next safe = ground (
    arith,
    eq_iff authority.operation_id authority.operation_id,
    eq_iff authority.capability authority.capability,
  )

  on_frame-ok :
      (n : ℕ) (body : WorkerBody) (p : HostProtocolPeer)
      → is_hello body ≡ false
      → p.last_sequence_number + 1 ≡ n
      → is_safe_integer n ≡ true
      → on_frame platform wire authority limits (numbered_frame wire authority n body) p
        ≡ on_body platform wire authority limits body (counted n p)
  on_frame-ok n (Frames.hello _ _ _) p other next safe = absurd cc
  on_frame-ok n body p other next safe =
      >>=-ok (validate_common authority (numbered_frame wire authority n body).common)
        (λ _. on_body platform wire authority limits body) p (validate_common-ok n body p next safe)

  -- A frame of a session that receives results does what its body does.
  pub accept_frame-ok :
      (n : ℕ) (body : WorkerBody) (p : HostProtocolPeer)
      → is_hello body ≡ false
      → p.state ≡ receiving_results
      → p.last_sequence_number + 1 ≡ n
      → is_safe_integer n ≡ true
      → wire.parse_worker (line_of wire authority n body)
        ≡ well_formed (numbered_frame wire authority n body)
      → accept_frame platform wire authority limits (line_of wire authority n body) p
        ≡ on_body platform wire authority limits body (counted n p)
  unfolding accept_frame
  accept_frame-ok n body p other receiving next safe read =
      let line = wire.parse_worker (line_of wire authority n body) in
      ap
        (λ s.
          (require_not (is_done s) invalid_transition
              >> on_line platform wire authority limits (is_awaiting_hello s) line)
            p)
        receiving
      ∙ ap (λ l. on_line platform wire authority limits false l p) read
      ∙ on_frame-ok n body p other next safe

  -- Its line is taken, and the session goes on with the next one.
  pub accept_from-body :
      (n : ℕ) (body : WorkerBody) (rest : List ℕ) (p q : HostProtocolPeer)
      (event : Option HostProtocolEvent)
      → is_hello body ≡ false
      → p.state ≡ receiving_results
      → p.last_sequence_number + 1 ≡ n
      → is_safe_integer n ≡ true
      → wire.parse_worker (line_of wire authority n body)
        ≡ well_formed (numbered_frame wire authority n body)
      → all in_line (line_of wire authority n body) ≡ true
      → length (line_of wire authority n body) ≤ limits.frame_bytes
      → on_body platform wire authority limits body (counted n p) ≡ (ok event, q)
      → accept_from limits
          (accept_frame platform wire authority limits)
          false
          []
          (line_of wire authority n body ++ b'\n' ∷ rest)
          (at_line_start p)
        ≡ after_event event (
            accept_from limits
              (accept_frame platform wire authority limits)
              false
              []
              rest
              (at_line_start q))
  accept_from-body n body rest p q event other receiving next safe read whole short done =
      accept_from-taken limits (accept_frame platform wire authority limits) false
        (line_of wire authority n body) rest p q event whole short
        (accept_frame-ok n body p other receiving next safe read ∙ done)
