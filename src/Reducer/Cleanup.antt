-- ===== src/Reducer/Cleanup.antt =====
-- src/internal/event-store/reducer.ts: the cases of the presentation cleanup.
use pions.Prelude.{
  String, Bool, true, false, ◌&&◌, ◌||◌, not, Option, none, some, str_eq, is_some, non_empty,
}
use pions.Except.{err}
use pions.Types.Evidence.{CleanupDiagnosticCode}
use pions.Operation.{
  Operation, EventMetadata, PresentationOwnership, PresentationCleanupRecord, CleanupState, pending,
}
use pions.Reducer.Guards.{illegal_transition, Reduction, presentation_cleanup_eligible, refuse_if}

abbrev pub is_pending_cleanup : CleanupState → Bool
is_pending_cleanup pending = true
is_pending_cleanup _ = false

-- `presentation !== undefined && presentation.workspaceId === workspaceId`
abbrev pub owns_workspace : Option PresentationOwnership → String → Bool
owns_workspace none workspace_id = false
owns_workspace (some presentation) workspace_id = str_eq presentation.workspace_id workspace_id

unfoldable pub on_cleanup_started : Operation → EventMetadata → String → String → Reduction
on_cleanup_started current m cleanup_id workspace_id =
    refuse_if
      (not (presentation_cleanup_eligible current)
        || not (owns_workspace current.presentation workspace_id)
        || is_some current.presentation_cleanup
        || not (non_empty cleanup_id))
      illegal_transition
      (record current {
        presentation_cleanup = some (record {
          cleanup_id = cleanup_id;
          workspace_id = workspace_id;
          state = pending;
          started_at = m.timestamp;
          finished_at = none;
          diagnostic = none;
        });
        state_seq = m.seq;
      })

-- The pending cleanup of the event, which the other two cases end.
abbrev pub is_cleanup : PresentationCleanupRecord → String → String → Bool
is_cleanup cleanup cleanup_id workspace_id =
    is_pending_cleanup cleanup.state
    && str_eq cleanup.cleanup_id cleanup_id
    && str_eq cleanup.workspace_id workspace_id

finish_cleanup :
    Operation
    → EventMetadata
    → String
    → String
    → (PresentationCleanupRecord → PresentationCleanupRecord)
    → Option PresentationCleanupRecord
    → Reduction
finish_cleanup current m cleanup_id workspace_id finish none = err illegal_transition
finish_cleanup current m cleanup_id workspace_id finish (some cleanup) =
    refuse_if
      (not (presentation_cleanup_eligible current)
        || not (is_cleanup cleanup cleanup_id workspace_id))
      illegal_transition
      (record current { presentation_cleanup = some (finish cleanup); state_seq = m.seq })

unfoldable pub on_cleanup_completed : Operation → EventMetadata → String → String → Reduction
unfolding finish_cleanup
on_cleanup_completed current m cleanup_id workspace_id =
    finish_cleanup current m cleanup_id workspace_id
      (λ cleanup. record cleanup { state = CleanupState.completed; finished_at = some m.timestamp })
      current.presentation_cleanup

unfoldable pub on_cleanup_unconfirmed :
    Operation → EventMetadata → String → String → CleanupDiagnosticCode → Reduction
unfolding finish_cleanup
on_cleanup_unconfirmed current m cleanup_id workspace_id reason =
    finish_cleanup current m cleanup_id workspace_id
      (λ cleanup. record cleanup {
        state = CleanupState.unconfirmed;
        finished_at = some m.timestamp;
        diagnostic = some reason;
      })
      current.presentation_cleanup
