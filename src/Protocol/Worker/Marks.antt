-- ===== src/Protocol/Worker/Marks.antt =====
-- src/internal/worker-protocol.ts: marks of a Worker for which a start instruction has been
-- accepted.
use pions.Prelude.{
  ℕ, ◌≤◌, ◌≡◌, Bool, true, false, Option, none, some, if◌then◌else◌, Bool-cases, inl, inr, arith,
}
use pions.Protocol.Frames.{StartInstruction}
use pions.Protocol.Worker.{
  DurableDeliveryAuthority, no_start, StartInstructionAcceptanceStore, WorkerProtocolPeer,
}

-- A mark of the accepted instruction and of the store. It stays when an instruction is adopted or the
-- store is read or written, an acceptance leaves it, and it is not there where the store holds nothing.
pub record Marking {S : Type 0} (starts : StartInstructionAcceptanceStore S) : Type 0 where
  pub mark : Option StartInstruction → S → Bool
  pub adopting :
      (o : Option StartInstruction) (s : S) (i : StartInstruction)
      → mark o s ≡ true
      → mark (some i) s ≡ true
  pub claiming :
      (o : Option StartInstruction) (s : S) (a : DurableDeliveryAuthority)
      → mark o s ≡ true
      → mark o (starts.save_delivery_authority s a).1 ≡ true
  pub saving :
      (o : Option StartInstruction) (s : S) (i : StartInstruction)
      → mark o s ≡ true
      → mark o (starts.save s i).1 ≡ true
  pub loading :
      (o : Option StartInstruction) (s : S) → mark o s ≡ true → mark o (starts.load s).1 ≡ true
  pub reading :
      (o : Option StartInstruction) (s : S)
      → mark o s ≡ true
      → mark o (starts.load_delivery_authority s).1 ≡ true
  pub accepting :
      (s : S) (i : StartInstruction)
      → (starts.save s i).0 ≡ some true
      → mark (some i) (starts.save s i).1 ≡ true
  pub fresh : (s : S) → (starts.load s).0 ≡ no_start → mark none (starts.load s).1 ≡ false

module _ {S : Type 0} {starts : StartInstructionAcceptanceStore S} (k : Marking starts) where
  abbrev pub HasMark : WorkerProtocolPeer S → Type 0
  HasMark p = k.mark p.accepted_start_instruction p.store ≡ true

  -- 1 for a Worker with the mark.
  abbrev pub held : WorkerProtocolPeer S → ℕ
  held p = if k.mark p.accepted_start_instruction p.store then 1 else 0

  pub held-le : (p q : WorkerProtocolPeer S) → (HasMark p → HasMark q) → held p ≤ held q
  held-le p q h = elim (Bool-cases (k.mark p.accepted_start_instruction p.store)) [
    | inl marked ↦ let now : HasMark q = h marked in ground arith
    | inr free ↦ ground arith
  ]
