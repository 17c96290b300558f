-- ===== src/Runtime/Handoff/Successors.antt =====
-- src/internal/runtime.ts: the successor that a recovery names, and the handoff to it.
use pions.Prelude.{
  ◌+◌, ◌≡◌, refl, String, Bool, true, false, ◌||◌, Option, none, some, [], ◌∷◌, ◌++◌, ◌==◌, str_eq,
  eq_iff, is_some, arith,
}
use pions.Types.Evidence.{StartDeliveryAuthorityEvidence, StartDeliveryHandoffEvidence}
use pions.Operation.{Operation}
use pions.Reducer.Delivery.{is_pending, resumes}
use pions.Reducer.Handoffs.{is_next}
use pions.Runtime.Handoff.{new_dispatcher, next_dispatcher}

-- A handoff that waits for its confirmation is of the next generation.
abbrev pub waits_for_next :
    StartDeliveryAuthorityEvidence → Option StartDeliveryHandoffEvidence → Bool
waits_for_next previous none = true
waits_for_next previous (some pending) =
    is_some pending.worker_generation_confirmed_at
    || pending.delivery_generation == previous.delivery_generation + 1

abbrev pub handed_over :
    Operation → StartDeliveryAuthorityEvidence → String → String → Bool → Operation
handed_over o previous successor at true = record o { state_seq = o.state_seq + 1 }
handed_over o previous successor at false = record o {
  start_delivery_handoffs =
      o.start_delivery_handoffs
      ++ record {
        previous_dispatcher_id = previous.dispatcher_id;
        previous_delivery_generation = previous.delivery_generation;
        successor_dispatcher_id = successor;
        delivery_generation = previous.delivery_generation + 1;
        authority_revoked_at = at;
        worker_generation_confirmed_at = none;
        acceptance_state = none;
      }
        ∷ [];
  state_seq = o.state_seq + 1;
}

-- A handoff that waits is the one that is resumed.
pub resumed :
    (previous : StartDeliveryAuthorityEvidence) (pending : Option StartDeliveryHandoffEvidence)
    → waits_for_next previous pending ≡ true
    → is_pending pending
      ≡ resumes pending (next_dispatcher previous pending) (previous.delivery_generation + 1)
resumed previous none h = refl
resumed previous (some pending) h =
    ground (arith, eq_iff pending.successor_dispatcher_id pending.successor_dispatcher_id)

-- The invariant of the reducer, read for the recovery.
pub next_waits :
    (previous : StartDeliveryAuthorityEvidence) (pending : Option StartDeliveryHandoffEvidence)
    → is_next (some previous) pending ≡ true
    → waits_for_next previous pending ≡ true
next_waits previous none h = refl
next_waits previous (some pending) h = ground arith

pub next_other :
    (previous : StartDeliveryAuthorityEvidence) (pending : Option StartDeliveryHandoffEvidence)
    → is_next (some previous) pending ≡ true
    → str_eq (new_dispatcher previous) previous.dispatcher_id ≡ false
    → str_eq (next_dispatcher previous pending) previous.dispatcher_id ≡ false
next_other previous none h fresh = fresh
next_other previous (some pending) h fresh = ground arith
