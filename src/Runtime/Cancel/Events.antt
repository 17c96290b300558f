-- ===== src/Runtime/Cancel/Events.antt =====
-- src/internal/runtime.ts: the events of a cancellation, given to the reducer.
use pions.Prelude.{
  ℕ, ◌+◌, ◌<◌, ◌≡◌, refl, String, true, false, ◌||◌, Option, none, some, is_some, arith,
}
use pions.Except.{ok}
use pions.Platform.{Platform}
use pions.Text.{is_safe_integer}
use pions.Types.Evidence.{OperationState, cancel_unproven, TerminalReason}
use pions.Operation.{
  Operation, EventInput, cancellation_requested, cancel_dispatched, cancel_acknowledged,
  operation_cancelled, operation_unknown,
}
use pions.Codec.Schema.{event_schema}
use pions.Reducer.Guards.{is_terminal, is_queued, is_started, is_cancelling}
use pions.Reducer.Settlement.{first_confirmed}
use pions.Reducer.{dispatch, is_request}
use pions.Store.{event_after}
use pions.Store.Backend.{Storage}
use pions.Store.Progress.{IsAppendable}
use pions.Runtime.Steps.{IsReliable, clocked-IsAppendable}
use pions.Runtime.Cancel.{worker_stop}

pub confirmed_is_some : (x : Option String) (at : String) → is_some (first_confirmed x at) ≡ true
confirmed_is_some none at = refl
confirmed_is_some (some x) at = refl

-- What the events of a cancellation leave of an Operation.
abbrev pub requested_in : Operation → ℕ → Operation
requested_in o epoch = record o {
  state = OperationState.cancelling;
  cancellation_epoch = epoch;
  state_seq = o.state_seq + 1;
}

abbrev pub counted : Operation → Operation
counted o = record o { state_seq = o.state_seq + 1 }

abbrev pub acknowledged : Operation → String → Operation
acknowledged o at = record o {
  worker_stop_confirmed_at = first_confirmed o.worker_stop_confirmed_at at;
  state_seq = o.state_seq + 1;
}

abbrev pub cancelled_now : Operation → Operation
cancelled_now o = record o { state = OperationState.cancelled; state_seq = o.state_seq + 1 }

abbrev pub unproven_now : Operation → Operation
unproven_now o = record o {
  state = OperationState.unknown;
  terminal_reason = some (TerminalReason.unproven cancel_unproven);
  state_seq = o.state_seq + 1;
}

module _ (p : Platform) {S : Type 0} (b : Storage S) (clock : ℕ → String) (operation_id : String)
    (r : IsReliable p b clock operation_id) where
  live-IsAppendable :
      (o : Operation) (n : ℕ) (input : EventInput) (next : Operation)
      → is_terminal o.state ≡ false
      → is_safe_integer (o.state_seq + 1) ≡ true
      → event_schema input ≡ true
      → is_request input ≡ false
      → dispatch p o (event_after operation_id o.state_seq input (clock n)).metadata input ≡ ok next
      → IsAppendable p operation_id o input (clock n) next
  live-IsAppendable o n input next alive safe schema no_request legal =
      clocked-IsAppendable p b clock operation_id r o n input next safe schema no_request
        (ground arith) legal

  pub requested-IsAppendable :
      (o : Operation) (n epoch : ℕ)
      → is_queued o.state || is_started o.state ≡ true
      → o.cancellation_epoch < epoch
      → is_safe_integer epoch ≡ true
      → is_safe_integer (o.state_seq + 1) ≡ true
      → IsAppendable p operation_id o
          (cancellation_requested epoch)
          (clock n)
          (requested_in o epoch)
  unfolding event_schema dispatch event_after
  requested-IsAppendable o n epoch live later safe_epoch safe =
      live-IsAppendable o n _ _ (ground arith) safe (ground arith) refl (ground arith)

  module _ (o : Operation) (safe_epoch : is_safe_integer o.cancellation_epoch ≡ true)
      (cancels : is_cancelling o.state ≡ true) where
    pub acknowledged-IsAppendable :
        (n : ℕ)
        → is_safe_integer (o.state_seq + 1) ≡ true
        → IsAppendable p operation_id o
            (cancel_acknowledged o.cancellation_epoch worker_stop)
            (clock n)
            (acknowledged o (clock n))
    unfolding event_schema dispatch event_after
    acknowledged-IsAppendable n safe =
        live-IsAppendable o n _ _ (ground arith) safe (ground arith) refl (ground arith)

    pub dispatched-IsAppendable :
        (n : ℕ)
        → is_safe_integer (o.state_seq + 1) ≡ true
        → IsAppendable p operation_id o
            (cancel_dispatched o.cancellation_epoch)
            (clock n)
            (counted o)
    unfolding event_schema dispatch event_after
    dispatched-IsAppendable n safe =
        live-IsAppendable o n _ _ (ground arith) safe (ground arith) refl (ground arith)

    pub unproven-IsAppendable :
        (n : ℕ)
        → is_safe_integer (o.state_seq + 1) ≡ true
        → IsAppendable p operation_id o
            (operation_unknown cancel_unproven (some o.cancellation_epoch))
            (clock n)
            (unproven_now o)
    unfolding event_schema dispatch event_after
    unproven-IsAppendable n safe =
        live-IsAppendable o n _ _ (ground arith) safe (ground arith) refl (ground arith)

    pub cancelled-IsAppendable :
        (n : ℕ)
        → is_some o.worker_stop_confirmed_at ≡ true
        → is_safe_integer (o.state_seq + 1) ≡ true
        → IsAppendable p operation_id o
            (operation_cancelled o.cancellation_epoch)
            (clock n)
            (cancelled_now o)
    unfolding event_schema dispatch event_after
    cancelled-IsAppendable n stopped safe =
        live-IsAppendable o n _ _ (ground arith) safe (ground arith) refl (ground arith)
