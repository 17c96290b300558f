-- ===== src/Runtime/Cleanup/Events.antt =====
-- src/internal/runtime.ts: the events of a cleanup, given to the reducer.
use Prim.Native.String.{◌++◌ as append_text}
use text.Mathlib.TextLemmas.{cons-append}
use pions.Prelude.{
  ℕ, ◌+◌, ◌≡◌, refl, String, Bool, true, false, Option, none, some, non_empty, eq_iff, arith,
}
use pions.Except.{ok}
use pions.Platform.{Platform}
use pions.Text.{is_safe_integer}
use pions.Types.Evidence.{
  CleanupDiagnosticCode, workspace_close_failed, workspace_identity_missing,
  workspace_identity_unavailable,
}
use pions.Operation.{
  Operation, EventInput, PresentationOwnership, PresentationCleanupRecord, CleanupState, pending,
  presentation_cleanup_started, presentation_cleanup_completed, presentation_cleanup_unconfirmed,
}
use pions.Codec.Schema.{event_schema}
use pions.Reducer.Guards.{presentation_cleanup_eligible}
use pions.Reducer.{dispatch, is_request, is_cleanup_event}
use pions.Store.{event_after}
use pions.Store.Backend.{Storage}
use pions.Store.Progress.{IsAppendable}
use pions.Runtime.Steps.{IsReliable, clocked-IsAppendable}
use pions.Runtime.Cleanup.{WorkspaceIdentity, matching, missing}

-- What the answers of the presentation make of a cleanup.
abbrev pub diagnosis : Option WorkspaceIdentity → Bool → Option CleanupDiagnosticCode
diagnosis none closes = some workspace_identity_unavailable
diagnosis (some missing) closes = some workspace_identity_missing
diagnosis (some matching) false = some workspace_close_failed
diagnosis (some matching) true = none

abbrev pub final_state : Option CleanupDiagnosticCode → CleanupState
final_state none = CleanupState.completed
final_state (some code) = CleanupState.unconfirmed

-- The record of the Operation after a cleanup event.
abbrev pub begun : Operation → String → PresentationOwnership → String → Operation
begun o operation_id presentation at = record o {
  presentation_cleanup = some (record {
    cleanup_id = append_text "presentation-cleanup:" operation_id;
    workspace_id = presentation.workspace_id;
    state = pending;
    started_at = at;
    finished_at = none;
    diagnostic = none;
  });
  state_seq = o.state_seq + 1;
}

abbrev pub finished :
    Operation → PresentationCleanupRecord → Option CleanupDiagnosticCode → String → Operation
finished o cleanup diagnostic at = record o {
  presentation_cleanup = some (record cleanup {
    state = final_state diagnostic;
    finished_at = some at;
    diagnostic = diagnostic;
  });
  state_seq = o.state_seq + 1;
}

-- What makes an Operation one to clean up.
pub still_eligible :
    (o o' : Operation)
    → presentation_cleanup_eligible o ≡ true
    → o'.state ≡ o.state
    → o'.result ≡ o.result
    → o'.worker_stop_confirmed_at ≡ o.worker_stop_confirmed_at
    → presentation_cleanup_eligible o' ≡ true
unfolding presentation_cleanup_eligible
still_eligible o o' h s r t = ground arith

module _ (p : Platform) {S : Type 0} (b : Storage S) (clock : ℕ → String) (operation_id : String)
    (r : IsReliable p b clock operation_id) where
  cleanup-IsAppendable :
      (o : Operation) (n : ℕ) (input : EventInput) (next : Operation)
      → is_safe_integer (o.state_seq + 1) ≡ true
      → is_cleanup_event input ≡ true
      → is_request input ≡ false
      → event_schema input ≡ true
      → dispatch p o (event_after operation_id o.state_seq input (clock n)).metadata input ≡ ok next
      → IsAppendable p operation_id o input (clock n) next
  cleanup-IsAppendable o n input next safe cleans no_request schema legal =
      clocked-IsAppendable p b clock operation_id r o n input next safe schema no_request
        (ground arith) legal

  pub start-IsAppendable :
      (o : Operation) (n : ℕ) (presentation : PresentationOwnership)
      → is_safe_integer (o.state_seq + 1) ≡ true
      → presentation_cleanup_eligible o ≡ true
      → o.presentation ≡ some presentation
      → non_empty presentation.workspace_id ≡ true
      → o.presentation_cleanup ≡ none
      → IsAppendable p operation_id o
          (presentation_cleanup_started
            (append_text "presentation-cleanup:" operation_id)
            presentation.workspace_id)
          (clock n)
          (begun o operation_id presentation (clock n))
  unfolding event_schema dispatch event_after
  start-IsAppendable o n presentation safe eligible owned named fresh =
      let id_named : non_empty (append_text "presentation-cleanup:" operation_id) ≡ true =
        rw cons-append in
      cleanup-IsAppendable o n _ _ safe refl refl (ground (arith, id_named))
        (ground (arith, id_named, eq_iff presentation.workspace_id presentation.workspace_id))

  module _ (o : Operation) (cleanup : PresentationCleanupRecord)
      (safe : is_safe_integer (o.state_seq + 1) ≡ true)
      (eligible : presentation_cleanup_eligible o ≡ true)
      (begins : o.presentation_cleanup ≡ some cleanup) (waits : cleanup.state ≡ pending)
      (id_named : non_empty cleanup.cleanup_id ≡ true)
      (workspace_named : non_empty cleanup.workspace_id ≡ true)
      (blank : cleanup.diagnostic ≡ none) where
    pub unconfirmed-IsAppendable :
        (code : CleanupDiagnosticCode) (n : ℕ)
        → IsAppendable p operation_id o
            (presentation_cleanup_unconfirmed cleanup.cleanup_id cleanup.workspace_id code)
            (clock n)
            (finished o cleanup (some code) (clock n))
    unfolding event_schema dispatch event_after
    unconfirmed-IsAppendable code n =
        cleanup-IsAppendable o n _ _ safe refl refl (ground (arith, id_named, workspace_named)) (
          ground (
            arith,
            eq_iff cleanup.cleanup_id cleanup.cleanup_id,
            eq_iff cleanup.workspace_id cleanup.workspace_id,
          ))

    pub completed-IsAppendable :
        (n : ℕ)
        → IsAppendable p operation_id o
            (presentation_cleanup_completed cleanup.cleanup_id cleanup.workspace_id)
            (clock n)
            (finished o cleanup none (clock n))
    unfolding event_schema dispatch event_after
    completed-IsAppendable n =
        cleanup-IsAppendable o n _ _ safe refl refl (ground (arith, id_named, workspace_named)) (
          ground (
            arith,
            eq_iff cleanup.cleanup_id cleanup.cleanup_id,
            eq_iff cleanup.workspace_id cleanup.workspace_id,
          ))
