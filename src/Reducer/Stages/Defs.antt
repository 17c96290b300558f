-- ===== src/Reducer/Stages/Defs.antt =====
-- What each state of an Operation says of the evidence that it holds.
use pions.Prelude.{◌<◌, ◌≡◌, Bool, true, false, ◌||◌, is_some}
use pions.Except.{ok}
use pions.Types.Evidence.{OperationState}
use pions.Operation.{Operation}
use pions.Reducer.Guards.{
  Reduction, is_queued, is_running, is_cancelling, is_completed, is_cancelled, is_started,
  presentation_cleanup_eligible,
}

-- Whatever Operation the case returns has the property.
abbrev pub Ensures : (Operation → Type 0) → Reduction → Type 0
Ensures P r = (next : Operation) → r ≡ ok next → P next

abbrev pub is_failed : OperationState → Bool
is_failed OperationState.failed = true
is_failed _ = false

abbrev pub is_unknown : OperationState → Bool
is_unknown OperationState.unknown = true
is_unknown _ = false

pub record IsStaged (o : Operation) : Type 0 where
  pub queued_unlaunched : is_queued o.state ≡ true → o.worker_launched ≡ false
  pub started_owned : is_started o.state ≡ true → is_some o.presentation ≡ true
  pub launched_owned : o.worker_launched ≡ true → is_some o.presentation ≡ true
  pub identified_launched : is_some o.worker_identity ≡ true → o.worker_launched ≡ true
  pub authority_identified :
      is_some o.start_delivery_authority ≡ true → is_some o.worker_identity ≡ true
  pub entered_authorized :
      is_some o.start_delivery_entry ≡ true → is_some o.start_delivery_authority ≡ true
  pub dispatched_entered :
      is_some o.start_instruction_delivery ≡ true → is_some o.start_delivery_entry ≡ true
  pub accepted_entered :
      is_some o.start_instruction_acceptance ≡ true → is_some o.start_delivery_entry ≡ true
  pub acknowledged_accepted :
      is_some o.start_instruction_acknowledgement ≡ true
      → is_some o.start_instruction_acceptance ≡ true
  pub running_acknowledged :
      is_running o.state ≡ true → is_some o.start_instruction_acknowledgement ≡ true
  pub result_acknowledged :
      is_some o.result ≡ true → is_some o.start_instruction_acknowledgement ≡ true
  pub completed_settled :
      is_completed o.state ≡ true
      → (is_some o.result ≡ true) × (is_some o.worker_stop_confirmed_at ≡ true)
  pub cancelled_stopped : is_cancelled o.state ≡ true → is_some o.worker_stop_confirmed_at ≡ true
  pub cancelling_epoch :
      is_cancelling o.state || is_cancelled o.state ≡ true → 0 < o.cancellation_epoch
  pub failed_reason : is_failed o.state ≡ is_some o.failure_reason
  pub cleanup_eligible :
      is_some o.presentation_cleanup ≡ true → presentation_cleanup_eligible o ≡ true
