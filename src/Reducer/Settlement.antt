-- ===== src/Reducer/Settlement.antt =====
-- src/internal/event-store/reducer.ts: the cases of a Result, of a stopped Worker, and of the end of
-- an Operation, cancellation included.
use pions.Prelude.{
  ℕ, String, Bool, false, ◌||◌, not, Option, none, some, leb, ◌==◌, str_eq, is_some,
}
use pions.Types.Evidence.{
  cancelling, cancelled, AgentRunEvidence, OperationFailureReason, UnknownReason, cancel_unproven,
  TerminalReason, AcceptedResult, OperationState,
}
use pions.Platform.{Platform}
use pions.Acceptance.{accepted_result_is_consistent}
use pions.Operation.{Operation, EventMetadata}
use pions.Reducer.Guards.{
  illegal_transition, stale_cancellation_epoch, cancellation_epoch_mismatch, Reduction, is_queued,
  is_running, is_started, is_cancelling, refuse_if,
}

unfoldable pub on_result_accepted :
    Platform → Operation → EventMetadata → AcceptedResult → Reduction
on_result_accepted p current m acceptance =
    refuse_if
      (not (is_running current.state)
        || is_some current.result
        || not (str_eq acceptance.accepted_at m.timestamp)
        || not (acceptance.event_sequence_number == m.seq)
        || not (str_eq acceptance.operation_id current.operation_id)
        || not (accepted_result_is_consistent p acceptance current.max_result_byte_count))
      illegal_transition (record current { result = some acceptance; state_seq = m.seq })

unfoldable pub on_worker_stop_confirmed : Operation → EventMetadata → String → Reduction
on_worker_stop_confirmed current m proof =
    refuse_if
      (not current.worker_launched
        || not (is_started current.state)
        || is_some current.worker_stop_confirmed_at
        || not (str_eq proof "worker-stop"))
      illegal_transition
      (record current { worker_stop_confirmed_at = some m.timestamp; state_seq = m.seq })

unfoldable pub on_agent_settled : Operation → EventMetadata → AgentRunEvidence → Reduction
on_agent_settled current m evidence =
    refuse_if (not (is_running current.state) || is_some current.agent_run_evidence)
      illegal_transition (record current { agent_run_evidence = some evidence; state_seq = m.seq })

unfoldable pub on_operation_completed : Operation → EventMetadata → Reduction
on_operation_completed current m =
    refuse_if
      (not (is_running current.state)
        || not (is_some current.result)
        || not (is_some current.worker_stop_confirmed_at))
      illegal_transition (record current { state = OperationState.completed; state_seq = m.seq })

unfoldable pub on_operation_failed : Operation → EventMetadata → OperationFailureReason → Reduction
on_operation_failed current m reason =
    refuse_if (not (is_started current.state)) illegal_transition (record current {
      state = OperationState.failed;
      failure_reason = some reason;
      terminal_reason = some (TerminalReason.failure reason);
      state_seq = m.seq;
    })

unfoldable pub on_cancellation_requested : Operation → EventMetadata → ℕ → Reduction
on_cancellation_requested current m epoch =
    refuse_if
      (not (is_queued current.state || is_started current.state)
        || leb epoch current.cancellation_epoch)
      stale_cancellation_epoch
      (record current { state = cancelling; cancellation_epoch = epoch; state_seq = m.seq })

unfoldable pub on_cancel_dispatched : Operation → EventMetadata → ℕ → Reduction
on_cancel_dispatched current m epoch =
    refuse_if (not (is_cancelling current.state) || not (epoch == current.cancellation_epoch))
      cancellation_epoch_mismatch (record current { state_seq = m.seq })

-- `workerStopConfirmedAt ?? event.timestamp`
abbrev pub first_confirmed : Option String → String → Option String
first_confirmed none timestamp = some timestamp
first_confirmed (some confirmed) timestamp = some confirmed

unfoldable pub on_cancel_acknowledged : Operation → EventMetadata → ℕ → String → Reduction
on_cancel_acknowledged current m epoch proof =
    refuse_if
      (not (is_cancelling current.state)
        || not (epoch == current.cancellation_epoch)
        || not (str_eq proof "worker-stop"))
      cancellation_epoch_mismatch
      (record current {
        worker_stop_confirmed_at = first_confirmed current.worker_stop_confirmed_at m.timestamp;
        state_seq = m.seq;
      })

unfoldable pub on_operation_cancelled : Operation → EventMetadata → ℕ → Reduction
on_operation_cancelled current m epoch =
    refuse_if
      (not (is_cancelling current.state)
        || not (epoch == current.cancellation_epoch)
        || not (is_some current.worker_stop_confirmed_at))
      cancellation_epoch_mismatch (record current { state = cancelled; state_seq = m.seq })

-- `event.cancellationEpoch === current.cancellationEpoch`, where the first may be absent
abbrev pub is_epoch : Option ℕ → ℕ → Bool
is_epoch none current = false
is_epoch (some epoch) current = epoch == current

become_unknown : Operation → EventMetadata → UnknownReason → Operation
become_unknown current m reason = record current {
  state = OperationState.unknown;
  terminal_reason = some (TerminalReason.unproven reason);
  state_seq = m.seq;
}

unfoldable pub on_operation_unknown :
    Operation → EventMetadata → UnknownReason → Option ℕ → Reduction
unfolding become_unknown
on_operation_unknown current m cancel_unproven epoch =
    refuse_if (not (is_cancelling current.state) || not (is_epoch epoch current.cancellation_epoch))
      cancellation_epoch_mismatch (become_unknown current m cancel_unproven)
on_operation_unknown current m reason epoch =
    refuse_if (not (is_queued current.state || is_started current.state)) illegal_transition
      (become_unknown current m reason)
