-- ===== src/Runtime/Cancel.antt =====
-- src/internal/runtime.ts: `cancel` and `recoverCancellation`. Whether the Worker gives evidence of
-- its stop in time is an argument: the evidence's `proof` is always "worker-stop". The model returns
-- the Operation that `settleTerminal` is called with.
pub mod Events
pub mod Ends
use pions.Prelude.{
  ℕ, ◌+◌, String, Bool, true, false, ◌&&◌, Option, none, some, ltb, leb, ◌==◌, if◌then◌else◌,
}
use pions.Platform.{Platform}
use pions.Types.Evidence.{cancel_unproven}
use pions.Operation.{
  Operation, EventInput, cancellation_requested, cancel_dispatched, cancel_acknowledged,
  operation_cancelled, operation_unknown,
}
use pions.Store.Backend.{Storage}
use pions.Runtime.{World, Run, return, ◌>>=◌, ◌>>◌, get_operation, advance}

pub data CancellationRejectionReason : Type 0 where
  stale_epoch future_epoch : CancellationRejectionReason

-- A `CancellationRejectedError`, or what is returned, with the Operation that is settled.
pub data CancelAnswer : Type 0 where
  rejected : CancellationRejectionReason → ℕ → CancelAnswer
  settled : ℕ → Operation → CancelAnswer

abbrev pub worker_stop : String
worker_stop = "worker-stop"

-- `options.cancellationEpoch ?? initial.cancellationEpoch + 1`
abbrev pub epoch_or_next : Option ℕ → Operation → ℕ
epoch_or_next none initial = initial.cancellation_epoch + 1
epoch_or_next (some epoch) initial = epoch

-- `retained` is the epoch of the evidence that an earlier attempt has left.
abbrev pub is_retained : Option ℕ → ℕ → Bool
is_retained none epoch = false
is_retained (some retained) epoch = retained == epoch

module _ (p : Platform) {S : Type 0} (b : Storage S) (clock : ℕ → String)
    (operation_id : String) where
  abbrev pub append : EventInput → Run S Operation
  append = advance p b clock operation_id

  -- The end of a cancellation: proven, or not.
  unfoldable pub finish_cancel : ℕ → Bool → Run S Operation
  finish_cancel epoch false = append (operation_unknown cancel_unproven (some epoch))
  finish_cancel epoch true =
      append (cancel_acknowledged epoch worker_stop) >> append (operation_cancelled epoch)

  -- The events of a cancellation that is not rejected.
  unfoldable pub carry_out : ℕ → Bool → Run S Operation
  carry_out epoch evidence =
      append (cancellation_requested epoch)
      >> (append (cancel_dispatched epoch) >> finish_cancel epoch evidence)

  abbrev pub settle_with : ℕ → Operation → Run S CancelAnswer
  settle_with epoch operation = return (settled epoch operation)

  unfoldable pub cancel_from : Option ℕ → Bool → Operation → Run S CancelAnswer
  cancel_from requested evidence initial =
      let epoch = epoch_or_next requested initial in
      if leb epoch initial.cancellation_epoch
      then return (rejected stale_epoch epoch)
      else if ltb (initial.cancellation_epoch + 1) epoch
      then return (rejected future_epoch epoch)
      else (carry_out epoch evidence >>= settle_with epoch)

  unfoldable pub cancel : Option ℕ → Bool → Run S CancelAnswer
  cancel requested evidence =
      get_operation p b clock operation_id >>= cancel_from requested evidence

  unfoldable pub recover_cancellation : Option ℕ → Bool → Operation → Run S Operation
  recover_cancellation retained evidence operation =
      if is_retained retained operation.cancellation_epoch
      then finish_cancel operation.cancellation_epoch true
      else (append (cancel_dispatched operation.cancellation_epoch)
          >> finish_cancel operation.cancellation_epoch evidence)
