-- ===== src/Runtime/Settle/Events.antt =====
-- src/internal/runtime.ts: the events that settle a running Operation, given to the reducer.
use pions.Prelude.{ℕ, ◌+◌, ◌≡◌, refl, String, true, false, none, some, is_some, arith}
use pions.Except.{ok}
use pions.Platform.{Platform}
use pions.Text.{is_safe_integer}
use pions.Types.Evidence.{
  AgentRunEvidence, OperationFailureReason, UnknownReason, OperationState, TerminalReason,
}
use pions.Operation.{
  Operation, EventInput, worker_stop_confirmed, agent_settled, operation_completed,
  operation_failed, operation_unknown,
}
use pions.Codec.Schema.{event_schema}
use pions.Reducer.Guards.{is_running}
use pions.Reducer.{is_request, dispatch}
use pions.Store.{event_after}
use pions.Store.Backend.{Storage}
use pions.Store.Progress.{IsAppendable}
use pions.Runtime.Steps.{IsReliable, clocked-IsAppendable}

-- What an event leaves of a running Operation, at a time.
abbrev pub stopped : Operation → String → Operation
stopped o at = record o { worker_stop_confirmed_at = some at; state_seq = o.state_seq + 1 }

abbrev pub evidenced : Operation → AgentRunEvidence → Operation
evidenced o evidence = record o { agent_run_evidence = some evidence; state_seq = o.state_seq + 1 }

abbrev pub completed : Operation → Operation
completed o = record o { state = OperationState.completed; state_seq = o.state_seq + 1 }

abbrev pub failed_by : Operation → OperationFailureReason → Operation
failed_by o reason = record o {
  state = OperationState.failed;
  failure_reason = some reason;
  terminal_reason = some (TerminalReason.failure reason);
  state_seq = o.state_seq + 1;
}

abbrev pub unproven_liveness : Operation → Operation
unproven_liveness o = record o {
  state = OperationState.unknown;
  terminal_reason = some (TerminalReason.unproven UnknownReason.liveness_unproven);
  state_seq = o.state_seq + 1;
}

module _ (p : Platform) {S : Type 0} (b : Storage S) (clock : ℕ → String) (operation_id : String)
    (r : IsReliable p b clock operation_id) (o : Operation) (n : ℕ)
    (runs : is_running o.state ≡ true) (safe : is_safe_integer (o.state_seq + 1) ≡ true) where
  running-IsAppendable :
      (input : EventInput) (next : Operation)
      → event_schema input ≡ true
      → is_request input ≡ false
      → dispatch p o (event_after operation_id o.state_seq input (clock n)).metadata input ≡ ok next
      → IsAppendable p operation_id o input (clock n) next
  running-IsAppendable input next schema no_request legal =
      clocked-IsAppendable p b clock operation_id r o n input next safe schema no_request
        (ground arith) legal

  pub stop-IsAppendable :
      o.worker_launched ≡ true
      → is_some o.worker_stop_confirmed_at ≡ false
      → IsAppendable p operation_id o
          (worker_stop_confirmed "worker-stop")
          (clock n)
          (stopped o (clock n))
  unfolding event_schema dispatch event_after
  stop-IsAppendable launched unstopped = running-IsAppendable _ _ refl refl (ground arith)

  pub evidence-IsAppendable :
      (evidence : AgentRunEvidence)
      → is_some o.agent_run_evidence ≡ false
      → IsAppendable p operation_id o (agent_settled evidence) (clock n) (evidenced o evidence)
  unfolding event_schema dispatch event_after
  evidence-IsAppendable evidence unsettled = running-IsAppendable _ _ refl refl (ground arith)

  pub completed-IsAppendable :
      is_some o.result ≡ true
      → is_some o.worker_stop_confirmed_at ≡ true
      → IsAppendable p operation_id o operation_completed (clock n) (completed o)
  unfolding event_schema dispatch event_after
  completed-IsAppendable result stop = running-IsAppendable _ _ refl refl (ground arith)

  pub failed-IsAppendable :
      (reason : OperationFailureReason)
      → IsAppendable p operation_id o (operation_failed reason) (clock n) (failed_by o reason)
  unfolding event_schema dispatch event_after
  failed-IsAppendable reason = running-IsAppendable _ _ refl refl (ground arith)

  pub unknown-IsAppendable :
      IsAppendable p operation_id o
        (operation_unknown UnknownReason.liveness_unproven none)
        (clock n)
        (unproven_liveness o)
  unfolding event_schema dispatch event_after
  unknown-IsAppendable = running-IsAppendable _ _ refl refl (ground arith)
