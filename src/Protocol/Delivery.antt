-- ===== src/Protocol/Delivery.antt =====
-- src/internal/worker-protocol.ts: a Result on its way from a Worker to the host. Files below it hold
-- what the Worker sends, what the host makes of it, and both together.
pub mod Sent
pub mod Taken
pub mod Chunks
pub mod Produced
pub mod Committed
pub mod Whole
use pions.Prelude.{ℕ, ◌+◌, ◌≤◌, ◌≡◌, String, Bool, true, false, List, [], ◌∷◌, ◌++◌, length, all}
use pions.Text.{is_base64}
use pions.Protocol.{ProtocolAuthority, ProtocolLimits}
use pions.Protocol.Frames.{Wire, WorkerBody, WorkerFrame, Parsed, well_formed}
use pions.Protocol.Framing.Lines.{in_line}
use pions.Protocol.Worker.{line_of}

module _ (wire : Wire) (authority : ProtocolAuthority) where
  -- The lines of frames that are numbered from `n` on.
  abbrev pub stream : ℕ → List WorkerBody → List ℕ
  stream n [] = []
  stream n (body ∷ more) = line_of wire authority n body ++ b'\n' ∷ stream (n + 1) more

  abbrev pub numbered_frame : ℕ → WorkerBody → WorkerFrame
  numbered_frame n body = record {
    common = record {
      operation_id = authority.operation_id;
      capability = authority.capability;
      sequence_number = n;
    };
    body = body;
  }

  -- JSON is one line, and is read as what was printed.
  abbrev pub AreRead : ℕ → List WorkerBody → Type 0
  AreRead n [] = Unit
  AreRead n (body ∷ more) =
      (wire.parse_worker (line_of wire authority n body) ≡ well_formed (numbered_frame n body))
      × (all in_line (line_of wire authority n body) ≡ true)
      × AreRead (n + 1) more

  abbrev pub AreShort : ProtocolLimits → ℕ → List WorkerBody → Type 0
  AreShort limits n [] = Unit
  AreShort limits n (body ∷ more) =
      (length (line_of wire authority n body) ≤ limits.frame_bytes) × AreShort limits (n + 1) more

  -- Base64 gives the chunks back.
  abbrev pub AreDecoded : List (List ℕ) → Type 0
  AreDecoded [] = Unit
  AreDecoded (bytes ∷ more) =
      (wire.from_base64 (wire.to_base64 bytes) ≡ bytes)
      × (is_base64 (wire.to_base64 bytes) ≡ true)
      × AreDecoded more
