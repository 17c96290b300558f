-- ===== src/Protocol/Control.antt =====
-- src/internal/worker-protocol.ts: `validateStartInstruction`.
use pions.Prelude.{String, not, Option, none, some}
use pions.Protocol.{
  Session, return, ◌>>◌, require_not, validate_safe_positive_integer, invalid_frame,
}
use pions.Protocol.Frames.{Wire, StartInstruction}

module _ {P : Type 0} (wire : Wire) where
  abbrev pub validate_deadline : Option String → Session P (Unit {0})
  validate_deadline none = return tt
  validate_deadline (some deadline) = require_not (not (wire.is_date deadline)) invalid_frame

  unfoldable pub validate_start_instruction : StartInstruction → Session P (Unit {0})
  validate_start_instruction instruction =
      validate_safe_positive_integer instruction.delivery_generation
      >> validate_deadline instruction.deadline
