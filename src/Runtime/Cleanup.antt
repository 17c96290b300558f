-- ===== src/Runtime/Cleanup.antt =====
-- src/internal/runtime.ts: `performCleanup`, which closes the workspace of an Operation that has
-- ended. What the presentation answers is an argument; `none` is a call that fails.
pub mod Events
pub mod Finishes
pub mod Asks
use Prim.Native.String.{◌++◌ as append_text}
use pions.Prelude.{
  ℕ, String, Bool, true, false, not, Option, none, some, List, [], ◌∷◌, if◌then◌else◌,
}
use pions.Except.{ok, err}
use pions.Platform.{Platform}
use pions.Types.Evidence.{
  CleanupDiagnosticCode, workspace_close_failed, workspace_identity_missing,
  workspace_identity_unavailable, cleanup_record_unavailable,
}
use pions.Operation.{
  Operation, PresentationOwnership, PresentationCleanupRecord, presentation_cleanup_started,
  presentation_cleanup_completed, presentation_cleanup_unconfirmed,
}
use pions.Reducer.Guards.{presentation_cleanup_eligible}
use pions.Reducer.Cleanup.{is_pending_cleanup}
use pions.OperationReader.{ReadError}
use pions.Store.Backend.{Storage}
use pions.Runtime.{
  World, Run, return, throw, ◌>>=◌, ◌>>◌, attempt, call, inspect_owned_workspace,
  close_owned_workspace, advance,
}

pub data WorkspaceIdentity : Type 0 where
  matching missing : WorkspaceIdentity

pub record WorkspaceAnswers : Type 0 where
  pub identity : Option WorkspaceIdentity
  pub closes : Bool

-- What is noted beside the record: the volatile diagnostics, and whether the recovery is deferred.
pub record CleanupNotes : Type 0 where
  pub volatile : List CleanupDiagnosticCode
  pub deferred : Bool

abbrev pub nothing_noted : CleanupNotes
nothing_noted = record { volatile = []; deferred = false }

abbrev pub option_list : Option CleanupDiagnosticCode → List CleanupDiagnosticCode
option_list none = []
option_list (some code) = code ∷ []

-- `persistenceFailed`
abbrev pub persistence_failed :
    {S : Type 0} → Bool → Option CleanupDiagnosticCode → ReadError → Run S CleanupNotes
persistence_failed false reason error = throw error
persistence_failed true reason error =
    return (record { volatile = cleanup_record_unavailable ∷ option_list reason; deferred = true })

module _ (p : Platform) {S : Type 0} (b : Storage S) (clock : ℕ → String) (operation_id : String)
    (answers : WorkspaceAnswers) (direct : Bool) where
  -- `unconfirmed`
  unfoldable pub unconfirmed :
      PresentationCleanupRecord → CleanupDiagnosticCode → Run S CleanupNotes
  unconfirmed cleanup code =
      attempt
        (advance p b clock operation_id
          (presentation_cleanup_unconfirmed cleanup.cleanup_id cleanup.workspace_id code))
        (λ _. return nothing_noted) (persistence_failed direct (some code))

  unfoldable pub close_workspace : PresentationCleanupRecord → Run S CleanupNotes
  close_workspace cleanup =
      call close_owned_workspace
      >> (if answers.closes
          then attempt
              (advance p b clock operation_id
                (presentation_cleanup_completed cleanup.cleanup_id cleanup.workspace_id))
              (λ _. return nothing_noted) (persistence_failed direct none)
          else unconfirmed cleanup workspace_close_failed)

  abbrev pub identified : PresentationCleanupRecord → Option WorkspaceIdentity → Run S CleanupNotes
  identified cleanup none = unconfirmed cleanup workspace_identity_unavailable
  identified cleanup (some missing) = unconfirmed cleanup workspace_identity_missing
  identified cleanup (some matching) = close_workspace cleanup

  -- The part that is done for a pending cleanup.
  unfoldable pub work_on : Option PresentationCleanupRecord → Run S CleanupNotes
  work_on none = return nothing_noted
  work_on (some cleanup) =
      if is_pending_cleanup cleanup.state
      then (call inspect_owned_workspace >> identified cleanup answers.identity)
      else return nothing_noted

  abbrev pub start_cleanup :
      PresentationOwnership → Option PresentationCleanupRecord → Run S CleanupNotes
  start_cleanup presentation (some cleanup) = work_on (some cleanup)
  start_cleanup presentation none =
      attempt
        (advance p b clock operation_id (
          presentation_cleanup_started (append_text "presentation-cleanup:" operation_id)
            presentation.workspace_id))
        (λ started. work_on started.presentation_cleanup) (persistence_failed direct none)

  abbrev pub cleanup_of : Operation → Option PresentationOwnership → Run S CleanupNotes
  cleanup_of initial none = return nothing_noted
  cleanup_of initial (some presentation) = start_cleanup presentation initial.presentation_cleanup

  unfoldable pub perform_cleanup : Operation → Run S CleanupNotes
  perform_cleanup initial =
      if not (presentation_cleanup_eligible initial)
      then return nothing_noted
      else cleanup_of initial initial.presentation
