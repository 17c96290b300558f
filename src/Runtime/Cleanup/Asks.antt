-- ===== src/Runtime/Cleanup/Asks.antt =====
-- src/internal/runtime.ts: when `performCleanup` asks the presentation to close a workspace.
use pions.Prelude.{
  ℕ, suc, ◌+◌, ◌≤◌, String, Bool, true, false, ◌&&◌, Option, none, some, List, [], ◌∷◌, is_some,
  if◌then◌else◌, Bool-cases, inl, inr, arith,
}
use pions.Except.{Except, ok, err}
use pions.Platform.{Platform}
use pions.Types.Evidence.{CleanupDiagnosticCode, workspace_close_failed}
use pions.Operation.{
  Operation, EventInput, presentation_cleanup_completed, PresentationOwnership,
  PresentationCleanupRecord,
}
use pions.Reducer.Guards.{presentation_cleanup_eligible}
use pions.Reducer.Cleanup.{is_pending_cleanup}
use pions.OperationReader.{ReadError}
use pions.Store.Backend.{Storage}
use pions.Runtime.{
  World, Run, return, tried, attempt, PresentationCall, inspect_owned_workspace,
  close_owned_workspace, advance,
}
use pions.Runtime.Cleanup.{
  WorkspaceIdentity, matching, missing, WorkspaceAnswers, nothing_noted, persistence_failed,
  unconfirmed, close_workspace, identified, work_on, start_cleanup, cleanup_of, perform_cleanup,
}

-- How often a workspace has been asked to close.
abbrev pub closings : List PresentationCall → ℕ
closings [] = 0
closings (inspect_owned_workspace ∷ calls) = closings calls
closings (close_owned_workspace ∷ calls) = suc (closings calls)

abbrev pub is_matching : Option WorkspaceIdentity → Bool
is_matching (some matching) = true
is_matching _ = false

abbrev pub is_unfinished : Option PresentationCleanupRecord → Bool
is_unfinished none = true
is_unfinished (some cleanup) = is_pending_cleanup cleanup.state

-- The Operation has ended as one whose workspace may be closed, has one, its cleanup is not over, and
-- the presentation has identified the workspace.
abbrev pub may_close : Operation → WorkspaceAnswers → Bool
may_close o answers =
    presentation_cleanup_eligible o
    && is_some o.presentation
    && is_unfinished o.presentation_cleanup
    && is_matching answers.identity

module _ (p : Platform) {S : Type 0} (b : Storage S) (clock : ℕ → String) (operation_id : String)
    (answers : WorkspaceAnswers) (direct : Bool) where
  attempt_calls :
      {A B : Type 0} (m : Run S A) (f : A → Run S B) (handle : ReadError → Run S B) (w : World S)
      (bound : ℕ)
      → ((a : A) → closings (f a (m w).1).1.calls ≤ bound)
      → ((e : ReadError) → closings (handle e (m w).1).1.calls ≤ bound)
      → closings (attempt m f handle w).1.calls ≤ bound
  attempt_calls {A} m f handle w bound good bad = tried_calls (m w).0
    where
      tried_calls : (r : Except ReadError A) → closings (tried r f handle (m w).1).1.calls ≤ bound
      tried_calls (ok a) = good a
      tried_calls (err e) = bad e

  failed_calls :
      (reason : Option CleanupDiagnosticCode) (e : ReadError) (w : World S)
      → closings (persistence_failed direct reason e w).1.calls ≤ closings w.calls
  failed_calls reason e w = elim (Bool-cases direct) [
    | inl here ↦ rw here (omega arith)
    | inr away ↦ rw away (omega arith)
  ]

  -- An event that is recorded asks for nothing.
  record_calls :
      (intent : EventInput) (reason : Option CleanupDiagnosticCode) (w : World S)
      → closings
          (attempt
            (advance p b clock operation_id intent)
            (λ _. return nothing_noted)
            (persistence_failed direct reason)
            w).1.calls
        ≤ closings w.calls
  unfolding advance
  record_calls intent reason w =
      attempt_calls (advance p b clock operation_id intent) (λ _. return nothing_noted)
        (persistence_failed direct reason) w (closings w.calls) (λ a. omega arith)
        (λ e. failed_calls reason e _)

  abbrev once : Bool → ℕ
  once allowed = if allowed then 1 else 0

  unconfirmed_calls :
      (cleanup : PresentationCleanupRecord) (code : CleanupDiagnosticCode) (w : World S)
      → closings (unconfirmed p b clock operation_id answers direct cleanup code w).1.calls
        ≤ closings w.calls
  unfolding unconfirmed
  unconfirmed_calls cleanup code w = record_calls _ (some code) w

  close_calls :
      (cleanup : PresentationCleanupRecord) (w : World S)
      → closings (close_workspace p b clock operation_id answers direct cleanup w).1.calls
        ≤ closings w.calls + 1
  unfolding close_workspace
  close_calls cleanup w =
      let asked : World S = record w { calls = close_owned_workspace ∷ w.calls } in
      elim (Bool-cases answers.closes) [
        | inl closed ↦ simp closed (
            omega (
              arith,
              record_calls (presentation_cleanup_completed cleanup.cleanup_id cleanup.workspace_id)
                  none asked,
            ))
        | inr open_still ↦
            simp open_still (omega (arith, unconfirmed_calls cleanup workspace_close_failed asked))
      ]

  identified_calls :
      (cleanup : PresentationCleanupRecord) (identity : Option WorkspaceIdentity) (w : World S)
      → closings (identified p b clock operation_id answers direct cleanup identity w).1.calls
        ≤ closings w.calls + once (is_matching identity)
  identified_calls cleanup none w = omega (arith, unconfirmed_calls cleanup _ w)
  identified_calls cleanup (some missing) w = omega (arith, unconfirmed_calls cleanup _ w)
  identified_calls cleanup (some matching) w = omega (arith, close_calls cleanup w)

  work_calls :
      (cleanup : Option PresentationCleanupRecord) (w : World S)
      → closings (work_on p b clock operation_id answers direct cleanup w).1.calls
        ≤ closings w.calls + once (is_unfinished cleanup && is_matching answers.identity)
  unfolding work_on
  work_calls none w = ground arith
  work_calls (some cleanup) w = elim (Bool-cases (is_pending_cleanup cleanup.state)) [
    | inl pending ↦ rw pending (identified_calls cleanup answers.identity _)
    | inr over ↦ rw over (omega arith)
  ]

  once_le : (a c : Bool) → once (a && c) ≤ once c
  once_le a c = ground arith

  -- Whatever has been recorded, the pending cleanup is worked on.
  started_calls :
      (intent : EventInput) (w : World S)
      → closings
          (attempt
            (advance p b clock operation_id intent)
            (λ started. work_on p b clock operation_id answers direct started.presentation_cleanup)
            (persistence_failed direct none)
            w).1.calls
        ≤ closings w.calls + once (is_matching answers.identity)
  unfolding advance
  started_calls intent w =
      let recorded = advance p b clock operation_id intent in
      attempt_calls recorded
        (λ started. work_on p b clock operation_id answers direct started.presentation_cleanup)
        (persistence_failed direct none) w (closings w.calls + once (is_matching answers.identity))
        (λ started. omega (
          arith,
          work_calls started.presentation_cleanup (recorded w).1,
          once_le (is_unfinished started.presentation_cleanup) (is_matching answers.identity),
        ))
        (λ e. omega (arith, failed_calls none e (recorded w).1))

  start_calls :
      (presentation : PresentationOwnership) (cleanup : Option PresentationCleanupRecord)
      (w : World S)
      → closings
          (start_cleanup p b clock operation_id answers direct presentation cleanup w).1.calls
        ≤ closings w.calls + once (is_unfinished cleanup && is_matching answers.identity)
  start_calls presentation (some cleanup) w = work_calls (some cleanup) w
  start_calls presentation none w = started_calls _ w

  -- However the cleanup of an Operation ends, a workspace is asked to close once at most, and not at
  -- all unless the Operation has ended with its Worker stopped, has a workspace of its own that is
  -- identified, and its cleanup is not over.
  pub perform_cleanup-closings :
      (o : Operation) (w : World S)
      → closings (perform_cleanup p b clock operation_id answers direct o w).1.calls
        ≤ closings w.calls + once (may_close o answers)
  unfolding perform_cleanup
  perform_cleanup-closings o w = elim (Bool-cases (presentation_cleanup_eligible o)) [
    | inr ineligible ↦ rw ineligible (omega arith)
    | inl eligible ↦ rw eligible (owned_calls o.presentation)
  ]
    where
      owned_calls :
          (presentation : Option PresentationOwnership)
          → closings (cleanup_of p b clock operation_id answers direct o presentation w).1.calls
            ≤ closings w.calls
              + once (
                  is_some presentation
                  && is_unfinished o.presentation_cleanup
                  && is_matching answers.identity)
      owned_calls none = omega arith
      owned_calls (some presentation) = start_calls presentation o.presentation_cleanup w
