-- ===== src/Runtime/Settle/Reports.antt =====
-- src/internal/runtime.ts: the reports of a Worker, for a running Operation that is not completed.
use pions.Prelude.{
  ℕ, ◌+◌, ◌≡◌, refl, ◌∙◌, String, Bool, true, false, ◌&&◌, Option, none, some, is_some, arith,
}
use pions.Platform.{Platform}
use pions.Text.{is_safe_integer}
use pions.Types.Evidence.{OperationFailureReason, UnknownReason}
use pions.Operation.{
  Operation, EventInput, operation_completed, operation_failed, operation_unknown,
}
use pions.Reducer.Guards.{is_running, is_terminal, is_completed}
use pions.Store.Backend.{Storage, StorageLaws}
use pions.Store.Progress.{IsAppendable}
use pions.Runtime.{World, ◌>>=◌, get_operation}
use pions.Runtime.Steps.{Ends, Ends-bind, IsStored, IsReliable, get_operation-Ends}
use pions.Runtime.Settle.{
  WorkerReport, result_acknowledged, worker_start_failed, worker_protocol_failed,
  process_exited_without_result, liveness_unproven, model_mismatch, thinking_level_mismatch,
  tool_policy_violation, agent_failed, finish_acknowledged, is_acknowledged, settle_agent,
  settle_report, finish,
}
use pions.Runtime.Settle.Ends.{GoesOn, GoneOn, finish-Ends, settle_agent-Ends}
use pions.Runtime.Settle.Events.{
  completed, failed_by, unproven_liveness, completed-IsAppendable, failed-IsAppendable,
  unknown-IsAppendable,
}

module _ (p : Platform) {S : Type 0} (b : Storage S) (laws : StorageLaws b) (clock : ℕ → String)
    (operation_id : String) (r : IsReliable p b clock operation_id) where
  abbrev Stored : Operation → World S → Type 0
  Stored = IsStored p b clock operation_id

  -- The Operation that is returned has ended, in `completed` or not, and is stored.
  abbrev pub Settled : Bool → Option Operation → World S → Type 0
  Settled done a w =
      (next : Operation) × (a ≡ some next)
      × Stored next w
      × (is_terminal next.state ≡ true)
      × (is_completed next.state ≡ done)

  finish-Settled :
      (o next : Operation) (intent : EventInput) (w : World S) (done : Bool)
      → Stored o w
      → IsAppendable p operation_id o intent (clock w.ticks) next
      → is_terminal next.state ≡ true
      → is_completed next.state ≡ done
      → Ends (finish p b clock operation_id intent) w (Settled done)
  finish-Settled o next intent w done stored a ends same =
      let (x, returned, (e, kept)) =
        finish-Ends p b laws clock operation_id r o next intent w stored a in
      (x, returned, (next, e, kept, ends, same))

  module _ (o : Operation) (w : World S) (stored : Stored o w) (runs : is_running o.state ≡ true)
      (safe : is_safe_integer (o.state_seq + 1) ≡ true) where
    unknown-Settled :
        Ends
          (finish p b clock operation_id (operation_unknown UnknownReason.liveness_unproven none))
          w
          (Settled false)
    unknown-Settled =
        finish-Settled o (unproven_liveness o) _ w false stored
          (unknown-IsAppendable p b clock operation_id r o w.ticks runs safe) refl refl

    failed-Settled :
        (reason : OperationFailureReason)
        → Ends (finish p b clock operation_id (operation_failed reason)) w (Settled false)
    failed-Settled reason =
        finish-Settled o (failed_by o reason) _ w false stored
          (failed-IsAppendable p b clock operation_id r o w.ticks runs safe reason) refl refl

    pub completed-Settled :
        is_some o.result ≡ true
        → is_some o.worker_stop_confirmed_at ≡ true
        → Ends (finish p b clock operation_id operation_completed) w (Settled true)
    completed-Settled result stop =
        finish-Settled o (completed o) _ w true stored
          (completed-IsAppendable p b clock operation_id r o w.ticks runs safe result stop) refl
          refl

  -- After one more event there is room for another.
  pub room_after :
      (o o' : Operation) (stop : Bool)
      → GoesOn o o' stop 1
      → is_safe_integer (o.state_seq + 2) ≡ true
      → is_safe_integer (o'.state_seq + 1) ≡ true
  room_after o o' stop g safe = ground arith

  finish_acknowledged-Settled :
      (o : Operation) (w : World S)
      → Stored o w
      → is_running o.state ≡ true
      → is_safe_integer (o.state_seq + 1) ≡ true
      → is_some o.worker_stop_confirmed_at ≡ false
      → Ends (finish_acknowledged p b clock operation_id o) w (Settled false)
  unfolding finish_acknowledged
  finish_acknowledged-Settled o w stored runs safe none_yet =
      rw none_yet (unknown-Settled o w stored runs safe)

  unstopped :
      (o : Operation)
      → is_some o.result && is_some o.worker_stop_confirmed_at ≡ false
      → is_some o.result ≡ true
      → is_some o.worker_stop_confirmed_at ≡ false
  unstopped o part has = ground arith

  pub settle_report-Settled :
      (o : Operation) (w : World S) (report : WorkerReport)
      → Stored o w
      → is_running o.state ≡ true
      → is_safe_integer (o.state_seq + 2) ≡ true
      → is_some o.result && is_some o.worker_stop_confirmed_at ≡ false
      → (is_acknowledged report ≡ true → is_some o.result ≡ true)
      → Ends (settle_report p b clock operation_id report o) w (Settled false)
  unfolding settle_report
  settle_report-Settled o w (result_acknowledged evidence) stored runs safe part has =
      Ends-bind (settle_agent p b clock operation_id evidence o)
        (λ _. get_operation p b clock operation_id >>= finish_acknowledged p b clock operation_id) w
        (GoneOn p b laws clock operation_id r o (is_some o.worker_stop_confirmed_at))
        (Settled false)
        (settle_agent-Ends p b laws clock operation_id r o w evidence stored runs (ground arith))
        (λ _ w' (o', kept, g).
          Ends-bind (get_operation p b clock operation_id)
            (finish_acknowledged p b clock operation_id) w' (λ a w''. (a ≡ o') × Stored o' w'')
            (Settled false) (get_operation-Ends p b clock operation_id o' w' kept)
            (λ a w'' (e, again). rw e (
              finish_acknowledged-Settled o' w'' again g.runs (room_after o o' _ g safe)
                (g.stops ∙ unstopped o part (has refl)))))
  settle_report-Settled o w (agent_failed evidence) stored runs safe part has =
      Ends-bind (settle_agent p b clock operation_id evidence o)
        (λ _. finish p b clock operation_id (operation_failed OperationFailureReason.agent_failed))
        w (GoneOn p b laws clock operation_id r o (is_some o.worker_stop_confirmed_at))
        (Settled false)
        (settle_agent-Ends p b laws clock operation_id r o w evidence stored runs (ground arith))
        (λ _ w' (o', kept, g).
          failed-Settled o' w' kept g.runs (room_after o o' _ g safe)
            OperationFailureReason.agent_failed)
  settle_report-Settled o w liveness_unproven stored runs safe part has =
      unknown-Settled o w stored runs (ground arith)
  settle_report-Settled o w worker_start_failed stored runs safe part has =
      failed-Settled o w stored runs (ground arith) _
  settle_report-Settled o w worker_protocol_failed stored runs safe part has =
      failed-Settled o w stored runs (ground arith) _
  settle_report-Settled o w process_exited_without_result stored runs safe part has =
      failed-Settled o w stored runs (ground arith) _
  settle_report-Settled o w model_mismatch stored runs safe part has =
      failed-Settled o w stored runs (ground arith) _
  settle_report-Settled o w thinking_level_mismatch stored runs safe part has =
      failed-Settled o w stored runs (ground arith) _
  settle_report-Settled o w tool_policy_violation stored runs safe part has =
      failed-Settled o w stored runs (ground arith) _
