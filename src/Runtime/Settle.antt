-- ===== src/Runtime/Settle.antt =====
-- src/internal/runtime.ts: `settleObserved`, what the runtime records when a Worker has ended. The
-- model returns the Operation that `settleTerminal` is called with, or `none` where it is not.
pub mod Events
pub mod Ends
pub mod Reports
pub mod Settled
use pions.Prelude.{
  ℕ, String, Bool, true, false, ◌&&◌, ◌||◌, not, Option, none, some, is_some, if◌then◌else◌,
}
use pions.Platform.{Platform}
use pions.Types.Evidence.{AgentRunEvidence, OperationFailureReason, UnknownReason}
use pions.Operation.{
  Operation, EventInput, worker_stop_confirmed, agent_settled, operation_completed,
  operation_failed, operation_unknown,
}
use pions.Reducer.Guards.{is_terminal, is_cancelling}
use pions.Store.Backend.{Storage}
use pions.Runtime.{World, Run, return, ◌>>=◌, ◌>>◌, when, get_operation, advance}

-- `state` and `evidence` of a `WorkerRunOutcome`
pub data WorkerReport : Type 0 where
  result_acknowledged : AgentRunEvidence → WorkerReport
  worker_start_failed worker_protocol_failed process_exited_without_result liveness_unproven
        model_mismatch thinking_level_mismatch tool_policy_violation :
      WorkerReport
  agent_failed : AgentRunEvidence → WorkerReport

pub record WorkerRunOutcome : Type 0 where
  pub report : WorkerReport
  pub successful_exit_confirmed : Bool

abbrev pub is_acknowledged : WorkerReport → Bool
is_acknowledged (WorkerReport.result_acknowledged _) = true
is_acknowledged _ = false

-- `const reason: OperationFailureReason = outcome.state`, where the code gets to it
abbrev pub failure_of : WorkerReport → OperationFailureReason
failure_of WorkerReport.worker_start_failed = OperationFailureReason.worker_start_failed
failure_of WorkerReport.worker_protocol_failed = OperationFailureReason.worker_protocol_failed
failure_of WorkerReport.process_exited_without_result =
    OperationFailureReason.process_exited_without_result
failure_of WorkerReport.model_mismatch = OperationFailureReason.model_mismatch
failure_of WorkerReport.thinking_level_mismatch = OperationFailureReason.thinking_level_mismatch
failure_of WorkerReport.tool_policy_violation = OperationFailureReason.tool_policy_violation
failure_of _ = OperationFailureReason.agent_failed

module _ (p : Platform) {S : Type 0} (b : Storage S) (clock : ℕ → String)
    (operation_id : String) where
  -- `advance(record.operationId, intent)`, of the Operation of this record
  abbrev pub append : EventInput → Run S Operation
  append = advance p b clock operation_id

  abbrev pub current_operation : Run S Operation
  current_operation = get_operation p b clock operation_id

  unfoldable pub confirm_stop : Operation → Run S (Unit {0})
  confirm_stop current =
      when
        (not (is_terminal current.state)
          && not (is_cancelling current.state)
          && not (is_some current.worker_stop_confirmed_at))
        (append (worker_stop_confirmed "worker-stop"))

  -- The exit of the Worker that the outcome confirms.
  unfoldable pub confirm_exit : Bool → Run S (Unit {0})
  confirm_exit false = return tt
  confirm_exit true = current_operation >>= confirm_stop

  -- The evidence of a report, unless some is recorded.
  unfoldable pub settle_agent : AgentRunEvidence → Operation → Run S (Unit {0})
  settle_agent evidence current =
      when (not (is_some current.agent_run_evidence)) (append (agent_settled evidence))

  abbrev pub finish : EventInput → Run S (Option Operation)
  finish intent = append intent >>= λ settled. return (some settled)

  abbrev pub acknowledged_evidence : WorkerReport → Operation → Run S (Unit {0})
  acknowledged_evidence (WorkerReport.result_acknowledged evidence) current =
      settle_agent evidence current
  acknowledged_evidence _ current = return tt

  abbrev pub failed_evidence : WorkerReport → Operation → Run S (Unit {0})
  failed_evidence (WorkerReport.agent_failed evidence) current = settle_agent evidence current
  failed_evidence _ current = return tt

  unfoldable pub finish_acknowledged : Operation → Run S (Option Operation)
  finish_acknowledged settled = finish (
      if is_some settled.worker_stop_confirmed_at
      then operation_completed
      else operation_unknown UnknownReason.liveness_unproven none)

  -- Without a Result or without a confirmed stop.
  unfoldable pub settle_report : WorkerReport → Operation → Run S (Option Operation)
  settle_report WorkerReport.liveness_unproven current =
      finish (operation_unknown UnknownReason.liveness_unproven none)
  settle_report (WorkerReport.result_acknowledged evidence) current =
      settle_agent evidence current >> (current_operation >>= finish_acknowledged)
  settle_report report current =
      failed_evidence report current >> finish (operation_failed (failure_of report))

  unfoldable pub settle_current : WorkerReport → Operation → Run S (Option Operation)
  settle_current report current =
      if is_terminal current.state || is_cancelling current.state
      then return none
      else if is_some current.result && is_some current.worker_stop_confirmed_at
      then (acknowledged_evidence report current >> finish operation_completed)
      else settle_report report current

  unfoldable pub settle_observed : WorkerRunOutcome → Run S (Option Operation)
  settle_observed outcome =
      confirm_exit outcome.successful_exit_confirmed
      >> (current_operation >>= settle_current outcome.report)
