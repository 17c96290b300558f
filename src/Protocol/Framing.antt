-- ===== src/Protocol/Framing.antt =====
-- src/internal/worker-protocol.ts: `FramedPeer`, which cuts what it receives into lines.
pub mod Lines
pub mod Split
use pions.Prelude.{
  ℕ, ◌+◌, Bool, true, false, not, ◌&&◌, Option, none, some, List, [], ◌∷◌, ◌++◌, length, ltb, ◌==◌,
  if◌then◌else◌,
}
use pions.Except.{Except, ok, err, map_err}
use pions.Protocol.{
  ProtocolLimits, ProtocolError, violation, frame_too_large, invalid_frame, Session, return,
  require_not,
}

-- `buffered`, and the fields of the peer itself.
pub record FramedPeer (P : Type 0) : Type 0 where
  pub buffered : List ℕ
  pub inner : P

abbrev pub limit_of : ProtocolLimits → Bool → ℕ
limit_of limits first = if first then limits.first_frame_bytes else limits.frame_bytes

-- The line of a value, if it is not too long; the newline is added.
abbrev pub encode_frame : {P : Type 0} → ProtocolLimits → List ℕ → Bool → Session P (List ℕ)
encode_frame limits line first p =
    if ltb (limit_of limits first) (length line)
    then (err (violation frame_too_large), p)
    else (ok (line ++ b'\n' ∷ []), p)

abbrev pub add_event : {E : Type 0} → Option E → List E → List E
add_event none events = events
add_event (some event) events = event ∷ events

-- The outcome of the lines that follow, with an event before theirs.
abbrev pub after_event :
    {P E : Type 0}
    → Option E
    → Except ProtocolError (List E) × P
    → Except ProtocolError (List E) × P
after_event event (ok events, p) = (ok (add_event event events), p)
after_event event (err e, p) = (err e, p)

module _ (limits : ProtocolLimits) {P E : Type 0}
    (accept_frame : List ℕ → Session P (Option E)) where
  abbrev pub is_too_long : Bool → List ℕ → FramedPeer P → Bool
  is_too_long first fragment p = ltb (limit_of limits first) (length p.buffered + length fragment)

  abbrev pub accepted_line :
      (FramedPeer P → Except ProtocolError (List E) × FramedPeer P)
      → Except ProtocolError (Option E) × P
      → Except ProtocolError (List E) × FramedPeer P
  accepted_line rest (ok event, inner) =
      after_event event (rest (record { buffered = []; inner = inner }))
  accepted_line rest (err e, inner) = (err e, record { buffered = []; inner = inner })

  -- A line that ends, and what follows it.
  abbrev pub end_line :
      Bool
      → List ℕ
      → (FramedPeer P → Except ProtocolError (List E) × FramedPeer P)
      → FramedPeer P
      → Except ProtocolError (List E) × FramedPeer P
  end_line first fragment rest p =
      if is_too_long first fragment p
      then (err (violation frame_too_large), p)
      else accepted_line rest (accept_frame (p.buffered ++ fragment) p.inner)

  -- A line that does not end yet.
  abbrev pub keep_fragment :
      Bool → List ℕ → FramedPeer P → Except ProtocolError (List E) × FramedPeer P
  keep_fragment first [] p = (ok [], p)
  keep_fragment first (c ∷ r) p =
      if is_too_long first (c ∷ r) p
      then (err (violation frame_too_large), p)
      else (ok [], record p { buffered = p.buffered ++ c ∷ r })

  -- The loop of `acceptBytes`, with the part of the present line that has been passed.
  unfoldable pub accept_from : Bool → List ℕ → List ℕ → Session (FramedPeer P) (List E)
  accept_from first fragment [] p = keep_fragment first fragment p
  accept_from first fragment (c ∷ r) p = elim (c == b'\n') [
    | true ↦ end_line first fragment (accept_from false [] r) p
    | false ↦ accept_from first (fragment ++ c ∷ []) r p
  ]

  abbrev pub accept_bytes : List ℕ → Bool → Session (FramedPeer P) (List E)
  accept_bytes bytes first = accept_from first [] bytes

-- `requireFrameBoundary`
abbrev pub require_frame_boundary : {P : Type 0} → Session (FramedPeer P) (Unit {0})
require_frame_boundary p = require_not (ltb 0 (length p.buffered)) invalid_frame p
