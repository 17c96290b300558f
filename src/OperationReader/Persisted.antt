-- ===== src/OperationReader/Persisted.antt =====
-- src/internal/persisted-operation-reader.ts: what is left to recover of a persisted Operation,
-- beside the list of pending cleanups of src/internal/event-store/store.ts.
use mathlib.Core.Path.{subst}
use pions.Prelude.{
  ◌≡◌, refl, sym, ap, ◌∙◌, String, Bool, true, ◌&&◌, Option, none, some, List, [], is_some, arith,
}
use pions.Except.{Except, ok, err}
use pions.Platform.{Platform}
use pions.Types.Evidence.{OperationState}
use pions.Operation.{
  Operation, OperationEvent, EventMetadata, EventInput, operation_requested, PresentationOwnership,
  PresentationCleanupRecord,
}
use pions.Codec.{StoreErrorCode, not_found}
use pions.Reducer.Guards.{presentation_cleanup_eligible}
use pions.Reducer.Startup.{initial}
use pions.Reducer.Cleanup.{is_pending_cleanup}
use pions.Reducer.{dispatch, create, replay_operation}
use pions.Reducer.Steps.{create-eq-ok, replay_from-Holds}
use pions.Reducer.Stages.{replay-IsStaged}
use pions.Reducer.Authentic.{cleanup_recorded, replay-IsAuthentic}
use pions.Store.Backend.{Storage}
use pions.Store.Reopen.{load-Opened, open_record-eq-ok}
use pions.Store.Versions.{snapshot_of_loaded}
use pions.Store.{LoadedRecord, OperationSnapshot, is_owned, is_cleanup_pending, load, read}

pub record PersistedRecovery : Type 0 where
  pub state : OperationState
  pub cleanup_pending : Bool

-- `cleanup === undefined || cleanup.state === "pending"`
abbrev pub is_open : Option PresentationCleanupRecord → Bool
is_open none = true
is_open (some cleanup) = is_pending_cleanup cleanup.state

abbrev pub recovery_of : Operation → PersistedRecovery
recovery_of operation = record {
  state = operation.state;
  cleanup_pending =
      presentation_cleanup_eligible operation
      && is_owned operation.presentation
      && is_open operation.presentation_cleanup;
}

-- A record that is not found is no error.
abbrev pub recovery_or_none :
    Except StoreErrorCode OperationSnapshot → Except StoreErrorCode (Option PersistedRecovery)
recovery_or_none (ok snapshot) = ok (some (recovery_of snapshot.operation))
recovery_or_none (err not_found) = ok none
recovery_or_none (err code) = err code

module _ (p : Platform) {S : Type 0} (b : Storage S) where
  unfoldable pub read_persisted_operation_recovery :
      S → String → Except StoreErrorCode (Option PersistedRecovery)
  read_persisted_operation_recovery s operation_id = recovery_or_none (read p b s operation_id)

-- A presentation that is recorded is owned by Pions.
abbrev owned_if_any : Option PresentationOwnership → Bool
owned_if_any none = true
owned_if_any (some presentation) = presentation.owned_by_pions

module _ (p : Platform) where
  owned_kept :
      (o : Operation) (m : EventMetadata) (e : EventInput) {next : Operation}
      → owned_if_any o.presentation ≡ true
      → dispatch p o m e ≡ ok next
      → owned_if_any next.presentation ≡ true
  unfolding dispatch
  owned_kept o m (operation_requested _) v h = cc
  owned_kept o m _ v h = ground arith

  first_owned :
      (m : EventMetadata) (e : EventInput) (next : Operation)
      → create p m e ≡ ok next
      → owned_if_any next.presentation ≡ true
  unfolding initial
  first_owned m e next h =
      let (r, _, _, _, made) = create-eq-ok p m e h in
      subst (λ (o : Operation). owned_if_any o.presentation ≡ true) (sym made) refl

  replay_owned :
      (events : List OperationEvent) {o : Operation}
      → replay_operation p events ≡ ok (some o)
      → owned_if_any o.presentation ≡ true
  unfolding replay_operation
  replay_owned events h =
      replay_from-Holds p (λ o. owned_if_any o.presentation ≡ true) first_owned
        (λ o m e next v a. owned_kept o m e v a.dispatched) [] none events tt h

  same_pending :
      (o : Operation)
      → owned_if_any o.presentation ≡ true
      → cleanup_recorded o o.presentation_cleanup ≡ true
      → (is_some o.presentation_cleanup ≡ true → presentation_cleanup_eligible o ≡ true)
      → (recovery_of o).cleanup_pending ≡ is_cleanup_pending o o.presentation_cleanup
  same_pending o owned recorded eligible = ground arith

  -- Of an Operation that loads, its state is read, and its cleanup is pending just if the store lists
  -- it among the Operations whose cleanup is pending.
  pub read_persisted-agrees :
      {S : Type 0} (b : Storage S) (s : S) (operation_id : String) (l : LoadedRecord)
      → load p b s operation_id true ≡ ok (some l)
      → read_persisted_operation_recovery p b s operation_id
        ≡ ok (
            some (record {
              state = l.operation.state;
              cleanup_pending = is_cleanup_pending l.operation l.operation.presentation_cleanup;
            }))
  unfolding read_persisted_operation_recovery read
  read_persisted-agrees b s operation_id l loaded =
      let opened = load-Opened p b s operation_id true (some l) loaded in
      let replayed = (open_record-eq-ok p l.stored operation_id l opened).2 in
      let pending =
        same_pending l.operation (replay_owned l.stored.events replayed)
          (replay-IsAuthentic p l.stored.events replayed).cleanup
          (replay-IsStaged p l.stored.events replayed).cleanup_eligible in
      let (x, snapped, of_l) = snapshot_of_loaded p b s operation_id l loaded in
      let reads : read p b s operation_id ≡ ok x = ground arith in
      ap recovery_or_none reads
      ∙ ap (λ o. ok (some (recovery_of o))) of_l
      ∙ ap (λ c. ok (some (record { state = l.operation.state; cleanup_pending = c }))) pending
