-- ===== src/Protocol/Worker/Received.antt =====
-- src/internal/worker-protocol.ts: what `receive` of the Worker returns, and the tests that it makes.
use pions.Prelude.{
  ℕ, String, Bool, true, false, not, ◌&&◌, Option, none, some, List, [], ◌∷◌, ◌==◌, str_eq,
}
use pions.Types.Evidence.{AcceptanceState}
use pions.Protocol.Frames.{StartInstruction, BeginRejectionReason, Acknowledgement}
use pions.Protocol.Worker.{StoredStart, no_start, unknown_start, stored_start}

-- `status` of a received start instruction
pub data StartStatus : Type 0 where
  accepted duplicate : StartStatus
  refused : BeginRejectionReason → StartStatus

pub record GenerationUpdate : Type 0 where
  pub delivery_generation : ℕ
  pub acceptance_state : AcceptanceState
  pub accepted_instruction : Option StartInstruction

-- What one frame adds to a reception.
pub data Received : Type 0 where
  start_instruction : StartStatus → StartInstruction → Received
  observed_start_acceptance : StartInstruction → Received
  generation_update : GenerationUpdate → Received
  cancellation_requested : Received

pub record WorkerProtocolReception : Type 0 where
  pub acknowledgements_complete : Bool
  pub cancellation_requested : Bool
  pub start_instructions : List (StartStatus × StartInstruction)
  pub observed_start_acceptances : List StartInstruction
  pub generation_update : Option GenerationUpdate

-- The last update counts.
abbrev pub add_received : Received → WorkerProtocolReception → WorkerProtocolReception
add_received (Received.start_instruction status instruction) x = record x {
  start_instructions = (status, instruction) ∷ x.start_instructions;
}
add_received (Received.observed_start_acceptance instruction) x = record x {
  observed_start_acceptances = instruction ∷ x.observed_start_acceptances;
}
add_received (Received.generation_update update) x = record x {
  generation_update =
      some (elim x.generation_update as (λ _. GenerationUpdate) [
        | none ↦ update
        | some later ↦ later
      ]);
}
add_received Received.cancellation_requested x = record x { cancellation_requested = true }

abbrev pub reception_of : Bool → List Received → WorkerProtocolReception
reception_of complete [] = record {
  acknowledgements_complete = complete;
  cancellation_requested = false;
  start_instructions = [];
  observed_start_acceptances = [];
  generation_update = none;
}
reception_of complete (x ∷ xs) = add_received x (reception_of complete xs)

-- `received.workerProcessInstanceId === this.processInstanceId`
abbrev pub is_process : Option String → String → Bool
is_process none instance_id = false
is_process (some own) instance_id = str_eq instance_id own

abbrev pub is_other : Option String → String → Bool
is_other none dispatcher_id = false
is_other (some own) dispatcher_id = not (str_eq dispatcher_id own)

abbrev pub is_own : Option String → String → Bool
is_own none dispatcher_id = false
is_own (some own) dispatcher_id = str_eq dispatcher_id own

abbrev pub has_generation : Option ℕ → ℕ → Bool
has_generation none generation = false
has_generation (some given) generation = given == generation

abbrev pub has_dispatcher : Option String → String → Bool
has_dispatcher none own = false
has_dispatcher (some given) own = str_eq given own

-- The sender of a cancellation holds the delivery authority, if there is one.
abbrev pub may_cancel : Option String → ℕ → Option String → Option ℕ → Bool
may_cancel none generation given_dispatcher given_generation = true
may_cancel (some own) generation given_dispatcher given_generation =
    has_generation given_generation generation && has_dispatcher given_dispatcher own

abbrev pub state_of : StoredStart → AcceptanceState
state_of unknown_start = AcceptanceState.unknown
state_of no_start = AcceptanceState.not_accepted
state_of (stored_start _) = AcceptanceState.accepted

abbrev pub same_acknowledgement : Option Acknowledgement → Acknowledgement → Bool
same_acknowledgement none given = false
same_acknowledgement (some evidence) given =
    str_eq evidence.acceptance_id given.acceptance_id
    && str_eq evidence.digest given.digest
    && evidence.event_sequence_number == given.event_sequence_number
