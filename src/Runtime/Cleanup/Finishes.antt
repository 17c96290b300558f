-- ===== src/Runtime/Cleanup/Finishes.antt =====
-- src/internal/runtime.ts: how `performCleanup` of a stored Operation ends.
use Prim.Native.String.{◌++◌ as append_text}
use text.Mathlib.TextLemmas.{cons-append}
use pions.Prelude.{
  ℕ, ◌+◌, ◌≡◌, refl, String, Bool, true, Option, none, some, non_empty, ◌∷◌, Bool-cases, inl, inr,
  arith,
}
use pions.Platform.{Platform}
use pions.Text.{is_safe_integer}
use pions.Types.Evidence.{CleanupDiagnosticCode, workspace_close_failed}
use pions.Operation.{
  Operation, EventInput, PresentationOwnership, PresentationCleanupRecord, pending,
  presentation_cleanup_started,
}
use pions.Reducer.Guards.{presentation_cleanup_eligible}
use pions.Store.Backend.{Storage, StorageLaws}
use pions.Store.Progress.{IsAppendable}
use pions.Runtime.{World, return, attempt, close_owned_workspace, inspect_owned_workspace, advance}
use pions.Runtime.Steps.{Ends, Ends-attempt, IsStored, IsReliable, advance-Ends}
use pions.Runtime.Cleanup.Events.{
  diagnosis, final_state, begun, finished, still_eligible, start-IsAppendable,
  unconfirmed-IsAppendable, completed-IsAppendable,
}
use pions.Runtime.Cleanup.{
  WorkspaceIdentity, matching, missing, WorkspaceAnswers, CleanupNotes, nothing_noted,
  persistence_failed, unconfirmed, close_workspace, identified, work_on, perform_cleanup,
}

module _ (p : Platform) {S : Type 0} (b : Storage S) (laws : StorageLaws b) (clock : ℕ → String)
    (operation_id : String) (r : IsReliable p b clock operation_id) where
  -- The cleanup is over, as the answers say, and nothing is noted beside the record.
  abbrev pub Finished : String → Option CleanupDiagnosticCode → CleanupNotes → World S → Type 0
  Finished workspace_id diagnostic notes w =
      (next : Operation) × (cleanup : PresentationCleanupRecord) × (notes ≡ nothing_noted)
      × IsStored p b clock operation_id next w
      × (next.presentation_cleanup ≡ some cleanup)
      × (cleanup.workspace_id ≡ workspace_id)
      × (cleanup.state ≡ final_state diagnostic)
      × (cleanup.diagnostic ≡ diagnostic)

  module _ (answers : WorkspaceAnswers) (direct : Bool) (o : Operation)
      (cleanup : PresentationCleanupRecord) (safe : is_safe_integer (o.state_seq + 1) ≡ true)
      (eligible : presentation_cleanup_eligible o ≡ true)
      (begins : o.presentation_cleanup ≡ some cleanup) (waits : cleanup.state ≡ pending)
      (id_named : non_empty cleanup.cleanup_id ≡ true)
      (workspace_named : non_empty cleanup.workspace_id ≡ true)
      (blank : cleanup.diagnostic ≡ none) where
    -- An event that ends the cleanup, tried.
    end_cleanup :
        (intent : EventInput) (diagnostic reason : Option CleanupDiagnosticCode) (w : World S)
        → IsStored p b clock operation_id o w
        → IsAppendable p operation_id o intent
            (clock w.ticks)
            (finished o cleanup diagnostic (clock w.ticks))
        → Ends
            (attempt
              (advance p b clock operation_id intent)
              (λ _. return nothing_noted)
              (persistence_failed direct reason))
            w
            (Finished cleanup.workspace_id diagnostic)
    end_cleanup intent diagnostic reason w stored a =
        let next = finished o cleanup diagnostic (clock w.ticks) in
        Ends-attempt (advance p b clock operation_id intent) (λ _. return nothing_noted)
          (persistence_failed direct reason) w
          (λ x w'. (x ≡ next) × IsStored p b clock operation_id next w')
          (Finished cleanup.workspace_id diagnostic)
          (advance-Ends p b clock operation_id laws o next intent w r stored a)
          (λ x w' (_, kept). (nothing_noted, refl, (next, _, refl, kept, refl, refl, refl, refl)))

    unconfirmed-Finished :
        (code : CleanupDiagnosticCode) (w : World S)
        → IsStored p b clock operation_id o w
        → Ends
            (unconfirmed p b clock operation_id answers direct cleanup code)
            w
            (Finished cleanup.workspace_id (some code))
    unfolding unconfirmed
    unconfirmed-Finished code w stored = end_cleanup _ (some code) (some code) w stored (
        unconfirmed-IsAppendable p b clock operation_id r o cleanup safe eligible begins waits
          id_named workspace_named blank code w.ticks)

    identified-Finished :
        (identity : Option WorkspaceIdentity) (w : World S)
        → IsStored p b clock operation_id o w
        → Ends
            (identified p b clock operation_id answers direct cleanup identity)
            w
            (Finished cleanup.workspace_id (diagnosis identity answers.closes))
    unfolding close_workspace
    identified-Finished none w stored = unconfirmed-Finished _ w stored
    identified-Finished (some missing) w stored = unconfirmed-Finished _ w stored
    identified-Finished (some matching) w stored =
        let asked : World S = record w { calls = close_owned_workspace ∷ w.calls } in
        elim (Bool-cases answers.closes) [
          | inl closed ↦ simp closed (
              end_cleanup _ none none asked stored (
                completed-IsAppendable p b clock operation_id r o cleanup safe eligible begins waits
                  id_named workspace_named blank w.ticks))
          | inr left ↦ simp left (unconfirmed-Finished workspace_close_failed asked stored)
        ]

    work_on-Finished :
        (w : World S)
        → IsStored p b clock operation_id o w
        → Ends
            (work_on p b clock operation_id answers direct (some cleanup))
            w
            (Finished cleanup.workspace_id (diagnosis answers.identity answers.closes))
    unfolding work_on
    work_on-Finished w stored =
        let asked : World S = record w { calls = inspect_owned_workspace ∷ w.calls } in
        simp waits (identified-Finished answers.identity asked stored)

  -- The cleanup of a stored Operation that may be cleaned up, of which no cleanup is recorded, and
  -- whose presentation has a workspace identifier that is not empty, comes to its end without an error,
  -- if the storage writes, the clock tells the time, and the sequence number plus 2 is a safe integer:
  -- the stored Operation has a cleanup of its workspace, completed if the workspace was identified and
  -- closed, and unconfirmed otherwise, with the diagnosis of what went wrong.
  pub perform_cleanup-Finished :
      (answers : WorkspaceAnswers) (direct : Bool) (o : Operation) (w : World S)
      (presentation : PresentationOwnership)
      → IsStored p b clock operation_id o w
      → is_safe_integer (o.state_seq + 2) ≡ true
      → presentation_cleanup_eligible o ≡ true
      → o.presentation ≡ some presentation
      → non_empty presentation.workspace_id ≡ true
      → o.presentation_cleanup ≡ none
      → Ends
          (perform_cleanup p b clock operation_id answers direct o)
          w
          (Finished presentation.workspace_id (diagnosis answers.identity answers.closes))
  unfolding perform_cleanup
  perform_cleanup-Finished answers direct o w presentation stored safe eligible owned named fresh =
      let next = begun o operation_id presentation (clock w.ticks) in
      let cleanup : PresentationCleanupRecord = record {
        cleanup_id = append_text "presentation-cleanup:" operation_id;
        workspace_id = presentation.workspace_id;
        state = pending;
        started_at = clock w.ticks;
        finished_at = none;
        diagnostic = none;
      } in
      let id_named : non_empty cleanup.cleanup_id ≡ true = rw cons-append in
      let Q = Finished presentation.workspace_id (diagnosis answers.identity answers.closes) in
      simp (eligible, owned, fresh)
        (Ends-attempt
          (advance p b clock operation_id
            (presentation_cleanup_started cleanup.cleanup_id presentation.workspace_id))
          (λ started. work_on p b clock operation_id answers direct started.presentation_cleanup)
          (persistence_failed direct none) w
          (λ x w'. (x ≡ next) × IsStored p b clock operation_id next w') Q
          (advance-Ends p b clock operation_id laws o next _ w r stored (
            start-IsAppendable p b clock operation_id r o w.ticks presentation (ground arith)
              eligible owned named fresh))
          (λ x w' (e, kept). rw e (
            work_on-Finished answers direct next cleanup (ground arith)
              (still_eligible o next eligible refl refl refl) refl refl id_named named refl w'
              kept)))
