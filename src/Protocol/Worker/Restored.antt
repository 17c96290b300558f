-- ===== src/Protocol/Worker/Restored.antt =====
-- src/internal/worker-protocol.ts: the methods of the Worker behind its answers, and the mark of
-- an accepted start instruction.
use pions.Prelude.{ℕ, String, Option, none, some}
use pions.Protocol.{ProtocolAuthority, ProtocolLimits}
use pions.Protocol.Keeps.{Keeps, keeps_rules, Keeps-modify}
use pions.Protocol.Frames.{Wire, StartInstruction, Common}
use pions.Protocol.Control.{validate_deadline, validate_start_instruction}
use pions.Protocol.Worker.{
  StoredStart, no_start, unknown_start, stored_start, StartInstructionAcceptanceStore,
  WorkerProtocolPeer, DurableDeliveryAuthority,
}
use pions.Protocol.Worker.Marks.{Marking, HasMark}
use pions.Protocol.Worker.Reception.{
  validate_host_control, restored, restore_durable_start_acceptance, known_or_restored,
  read_instruction, read_authority, save_authority, save_generation, validate_given,
}

pub ruleset mark_rules = (keeps_rules, Keeps-modify)

module _ {S : Type 0} {starts : StartInstructionAcceptanceStore S} (k : Marking starts)
    (wire : Wire) where
  validate_deadline-HasMark : (o : Option String) → Keeps (HasMark k) (validate_deadline wire o)
  validate_deadline-HasMark none = search mark_rules
  validate_deadline-HasMark (some deadline) = search mark_rules

  pub validate_start_instruction-HasMark :
      (i : StartInstruction) → Keeps (HasMark k) (validate_start_instruction wire i)
  unfolding validate_start_instruction
  validate_start_instruction-HasMark i = search (mark_rules, validate_deadline-HasMark)

module _ (wire : Wire) (authority : ProtocolAuthority) (limits : ProtocolLimits) (now : String)
    {S : Type 0} (starts : StartInstructionAcceptanceStore S) (k : Marking starts) where
  pub validate_host_control-HasMark :
      (frame : Common)
      → Keeps (HasMark k) (validate_host_control wire authority limits now starts frame)
  unfolding validate_host_control
  validate_host_control-HasMark frame = search mark_rules

  restored-HasMark :
      (o : StoredStart) → Keeps (HasMark k) (restored wire authority limits now starts o)
  restored-HasMark no_start = search mark_rules
  restored-HasMark unknown_start = search mark_rules
  restored-HasMark (stored_start i) =
      search (mark_rules, validate_start_instruction-HasMark, k.adopting)

  read_instruction-HasMark : Keeps (HasMark k) (read_instruction wire authority limits now starts)
  read_instruction-HasMark = record { at = λ p h. k.loading p.accepted_start_instruction p.store h }

  pub read_authority-HasMark : Keeps (HasMark k) (read_authority wire authority limits now starts)
  read_authority-HasMark = record { at = λ p h. k.reading p.accepted_start_instruction p.store h }

  pub restore_durable_start_acceptance-HasMark :
      Keeps (HasMark k) (restore_durable_start_acceptance wire authority limits now starts)
  unfolding restore_durable_start_acceptance
  restore_durable_start_acceptance-HasMark =
      search (mark_rules, read_instruction-HasMark, restored-HasMark)

  pub known_or_restored-HasMark :
      (o : Option StartInstruction)
      → Keeps (HasMark k) (known_or_restored wire authority limits now starts o)
  known_or_restored-HasMark none = restore_durable_start_acceptance-HasMark
  known_or_restored-HasMark (some known) = search mark_rules

  pub save_authority-HasMark :
      (durable : DurableDeliveryAuthority)
      → Keeps (HasMark k) (save_authority wire authority limits now starts durable)
  save_authority-HasMark durable = record {
    at = λ p h. k.claiming p.accepted_start_instruction p.store durable h;
  }

  pub save_generation-HasMark :
      (dispatcher_id : String) (generation : ℕ) (p : WorkerProtocolPeer S)
      → Keeps
          (HasMark k)
          (save_generation wire authority limits now starts dispatcher_id generation p)
  save_generation-HasMark dispatcher_id generation p = search (mark_rules, save_authority-HasMark)

  pub validate_given-HasMark :
      (o : Option ℕ) → Keeps (HasMark k) (validate_given wire authority limits now starts o)
  validate_given-HasMark none = search mark_rules
  validate_given-HasMark (some generation) = search mark_rules
