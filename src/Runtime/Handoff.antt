-- ===== src/Runtime/Handoff.antt =====
-- src/internal/runtime.ts: the hook `workerIdentified` of a recovered Worker, which names the next
-- dispatcher of its start instruction, and the hook `startDeliveryAuthorityRevoked`.
pub mod Successors
pub mod Ends
use Prim.Native.String.{◌++◌ as append_text}
use pions.Prelude.{
  ℕ, ◌+◌, String, Bool, true, false, ◌&&◌, ◌||◌, not, Option, none, some, List, [], ◌∷◌, ◌==◌,
  str_eq, is_some, get_last?, if◌then◌else◌,
}
use pions.Except.{Except, ok, err}
use pions.Platform.{Platform}
use pions.Text.{decimal}
use pions.Types.Evidence.{
  StartInstructionReference, WorkerIdentity, StartDeliveryAuthorityEvidence,
  StartDeliveryHandoffEvidence,
}
use pions.Operation.{Operation, runtime_actor_id, start_delivery_authority_revoked}
use pions.Codec.{StoreErrorCode}
use pions.Store.Backend.{Storage}
use pions.OperationReader.{ReadError, persistence}
use pions.Runtime.{World, Run, return, throw, ◌>>=◌, get_operation, advance}

-- The identity that the Worker gives is the recorded one.
abbrev pub is_same_worker : Option WorkerIdentity → String → String → Bool
is_same_worker none instance_id start_token = false
is_same_worker (some existing) instance_id start_token =
    str_eq existing.process_instance_id instance_id
    && str_eq existing.process_start_token start_token

abbrev pub new_dispatcher : StartDeliveryAuthorityEvidence → String
new_dispatcher previous =
    append_text runtime_actor_id
      (append_text "-recovery-" (decimal (previous.delivery_generation + 1)))

-- The successor of a handoff that was begun, or of a new one.
abbrev pub next_dispatcher :
    StartDeliveryAuthorityEvidence → Option StartDeliveryHandoffEvidence → String
next_dispatcher previous none = new_dispatcher previous
next_dispatcher previous (some pending) =
    if not (is_some pending.worker_generation_confirmed_at)
      && pending.delivery_generation == previous.delivery_generation + 1
    then pending.successor_dispatcher_id
    else new_dispatcher previous

abbrev pub successor_of :
    StartDeliveryAuthorityEvidence → Option StartDeliveryHandoffEvidence → StartInstructionReference
successor_of previous pending = record {
  dispatcher_id = next_dispatcher previous pending;
  worker_process_instance_id = previous.worker_process_instance_id;
  receipt_digest = previous.receipt_digest;
  delivery_generation = previous.delivery_generation + 1;
}

abbrev pub recovered_instruction :
    Operation
    → String
    → String
    → Option StartDeliveryAuthorityEvidence
    → Except ReadError StartInstructionReference
recovered_instruction current instance_id start_token none =
    err (persistence StoreErrorCode.corrupt_record)
recovered_instruction current instance_id start_token (some previous) =
    if not (is_same_worker current.worker_identity instance_id start_token)
    then err (persistence StoreErrorCode.corrupt_record)
    else ok (successor_of previous (get_last? current.start_delivery_handoffs))

module _ (p : Platform) {S : Type 0} (b : Storage S) (clock : ℕ → String)
    (operation_id : String) where
  abbrev pub give : Except ReadError StartInstructionReference → Run S StartInstructionReference
  give answer w = (answer, w)

  -- `workerIdentified`, where the Worker is recovered
  unfoldable pub recovered_identified : String → String → Run S StartInstructionReference
  recovered_identified instance_id start_token = get_operation p b clock operation_id >>= λ current.
      give (recovered_instruction current instance_id start_token current.start_delivery_authority)

  -- `startDeliveryAuthorityRevoked`
  abbrev pub authority_revoked : StartInstructionReference → Run S Operation
  authority_revoked successor =
      advance p b clock operation_id
        (start_delivery_authority_revoked successor.dispatcher_id successor.delivery_generation)
