-- ===== src/Store.antt =====
-- src/internal/event-store/store.ts: `ValidatedEventStore`. A method takes the storage's state and
-- returns its outcome beside the new state; the clock's answer is an argument. `asStoreError` with
-- the fallback `corrupt_record` turns every other thrown error into that code.
pub mod Backend
pub mod Results
pub mod Reopen
pub mod Append
pub mod Acceptances
pub mod Backing
pub mod Progress
pub mod Versions
pub mod Memory
use pions.Prelude.{
  ℕ, ◌+◌, String, Bool, true, false, ◌&&◌, ◌||◌, not, Option, none, some, List, [], ◌∷◌, ◌++◌,
  length, get_last?, leb, ltb, ◌==◌, str_eq, is_some, if◌then◌else◌,
}
use pions.Except.{Except, ok, err, throw_if, map_err, ◌>>=◌, ◌>>◌}
use pions.Platform.{Platform}
use pions.Types.Evidence.{AcceptedResult, OperationState, queued, starting, running, cancelling}
use pions.Operation.{
  Operation, OperationEvent, EventInput, OperationRequested, operation_requested,
  PresentationOwnership, PresentationCleanupRecord, event_schema_version, runtime_actor_id,
  operation_authority,
}
use pions.Reducer.Guards.{
  TransitionErrorCode, unsupported_schema_version, is_running, presentation_cleanup_eligible,
}
use pions.Reducer.Cleanup.{is_pending_cleanup}
use pions.Reducer.{is_request, reduce_operation, replay_operation}
use pions.Text.{is_identifier}
use pions.Acceptance.{sha256_digest, result_acceptance_identifier}
use pions.Codec.{
  StoreErrorCode, not_found, write_failed, StoredOperationRecord, event_identifier, decode_record,
}
use Backend.{Storage}

pub record LoadedRecord : Type 0 where
  pub stored : StoredOperationRecord
  pub operation : Operation

pub record OperationVersion : Type 0 where
  pub sequence_number : ℕ
  pub recorded_at : String

pub record OperationSnapshot : Type 0 where
  pub version : OperationVersion
  pub operation : Operation

pub record ResultAcceptanceRequest : Type 0 where
  pub operation_id : String
  pub acceptance_request_id : String
  pub bytes : List ℕ

pub data AcceptanceFailureReason : Type 0 where
  operation_not_found request_mismatch result_conflict invalid_operation_state invalid_utf8
        limit_exceeded corrupt_record unsupported_schema :
      AcceptanceFailureReason

pub data AcceptanceOutcome : Type 0 where
  accepted : AcceptedResult → AcceptanceOutcome
  continuable : AcceptanceOutcome
  failed : AcceptanceFailureReason → AcceptanceOutcome

-- `loaded?.operation.stateSeq ?? 0`
abbrev pub last_seq : Option LoadedRecord → ℕ
last_seq none = 0
last_seq (some loaded) = loaded.operation.state_seq

-- `loaded?.record.events ?? []`
abbrev pub events_of : Option LoadedRecord → List OperationEvent
events_of none = []
events_of (some loaded) = loaded.stored.events

abbrev pub operation_of : Option LoadedRecord → Option Operation
operation_of none = none
operation_of (some loaded) = some loaded.operation

-- What a failed replay is reported as.
abbrev pub replay_error : TransitionErrorCode → StoreErrorCode
replay_error unsupported_schema_version = StoreErrorCode.unsupported_schema
replay_error _ = StoreErrorCode.corrupt_record

-- `asStoreError(error, "corrupt_record")` of a `TransitionError`
abbrev pub as_corrupt : TransitionErrorCode → StoreErrorCode
as_corrupt _ = StoreErrorCode.corrupt_record

-- `acceptanceFailure`
abbrev pub acceptance_failure : StoreErrorCode → AcceptanceOutcome
acceptance_failure write_failed = continuable
acceptance_failure not_found = failed operation_not_found
acceptance_failure StoreErrorCode.unsupported_schema =
    failed AcceptanceFailureReason.unsupported_schema
acceptance_failure _ = failed AcceptanceFailureReason.corrupt_record

-- `{ version, operation }` of the last event
abbrev pub snapshot_at : Operation → Option OperationEvent → Except StoreErrorCode OperationSnapshot
snapshot_at operation none = err StoreErrorCode.corrupt_record
snapshot_at operation (some last) = ok (record {
  version = record { sequence_number = last.seq; recorded_at = last.timestamp };
  operation = operation;
})

unfoldable pub snapshot : LoadedRecord → Except StoreErrorCode OperationSnapshot
snapshot loaded = snapshot_at loaded.operation (get_last? loaded.stored.events)

abbrev pub is_recoverable : OperationState → Bool
is_recoverable queued = true
is_recoverable starting = true
is_recoverable running = true
is_recoverable cancelling = true
is_recoverable _ = false

abbrev pub is_owned : Option PresentationOwnership → Bool
is_owned none = false
is_owned (some presentation) = presentation.owned_by_pions

-- A cleanup that is pending, or that an owned workspace still waits for.
abbrev pub is_cleanup_pending : Operation → Option PresentationCleanupRecord → Bool
is_cleanup_pending o none = presentation_cleanup_eligible o && is_owned o.presentation
is_cleanup_pending o (some cleanup) = is_pending_cleanup cleanup.state

-- `snapshots.filter(predicate)`
pub keep {ℓ} : {A : Type ℓ} → (A → Bool) → List A → List A
keep test [] = []
keep test (x ∷ xs) = let rest = keep test xs in if test x then x ∷ rest else rest

-- The event that `makeEvent` returns.
unfoldable pub event_after : String → ℕ → EventInput → String → OperationEvent
event_after operation_id state_seq input timestamp = record {
  metadata = record {
    event_id = event_identifier operation_id (state_seq + 1);
    operation_id = operation_id;
    seq = state_seq + 1;
    timestamp = timestamp;
    actor_id = runtime_actor_id;
    authority = operation_authority;
    schema_version = event_schema_version;
  };
  input = input;
}

module _ (p : Platform) where
  unfoldable pub make_event :
      String → ℕ → EventInput → String → Except StoreErrorCode OperationEvent
  make_event operation_id state_seq input timestamp =
      if not (p.is_timestamp timestamp)
      then err StoreErrorCode.corrupt_record
      else ok (event_after operation_id state_seq input timestamp)

  abbrev pub require_operation :
      StoredOperationRecord → Option Operation → Except StoreErrorCode LoadedRecord
  require_operation stored none = err StoreErrorCode.corrupt_record
  require_operation stored (some operation) = ok (record { stored = stored; operation = operation })

  -- `load` from a record that has been read
  unfoldable pub open_record : StoredOperationRecord → String → Except StoreErrorCode LoadedRecord
  open_record value operation_id = do
    stored ← decode_record value operation_id
    operation ← map_err replay_error (replay_operation p stored.events)
    require_operation stored operation

  abbrev pub open_found :
      Bool → String → Option StoredOperationRecord → Except StoreErrorCode (Option LoadedRecord)
  open_found required operation_id none = if required then err not_found else ok none
  open_found required operation_id (some value) =
      open_record value operation_id >>= λ loaded. ok (some loaded)

  -- The record with one more event, decoded and reduced, before it is written.
  unfoldable pub prepare :
      String
      → StoredOperationRecord
      → Option Operation
      → ℕ
      → EventInput
      → String
      → Except StoreErrorCode LoadedRecord
  prepare operation_id before current state_seq input timestamp = do
    event ← make_event operation_id state_seq input timestamp
    stored ← decode_record (record before { events = before.events ++ event ∷ [] }) operation_id
    operation ← map_err as_corrupt (reduce_operation p current event)
    ok (record { stored = stored; operation = operation })

  -- `prepare`, as `appendLoaded` calls it
  unfoldable pub prepare_loaded :
      String → Option LoadedRecord → EventInput → String → Except StoreErrorCode LoadedRecord
  prepare_loaded operation_id loaded input timestamp =
      prepare operation_id
        (record {
          schema_version = event_schema_version;
          operation_id = operation_id;
          events = events_of loaded;
        })
        (operation_of loaded) (last_seq loaded) input timestamp

  module _ {S : Type 0} (b : Storage S) where
    unfoldable pub load : S → String → Bool → Except StoreErrorCode (Option LoadedRecord)
    load s operation_id required = b.read_record s operation_id >>= open_found required operation_id

    write_prepared : S → String → Bool → LoadedRecord → Except StoreErrorCode LoadedRecord × S
    write_prepared s operation_id create next =
        let (s', written) = b.write_record s operation_id next.stored create in
        (if written then ok next else err write_failed, s')

    -- `appendLoaded`
    unfoldable pub append_loaded :
        S
        → String
        → Option LoadedRecord
        → EventInput
        → String
        → Except StoreErrorCode LoadedRecord × S
    unfolding write_prepared
    append_loaded s operation_id loaded input timestamp =
        elim (prepare_loaded operation_id loaded input timestamp) [
          | err e ↦ (err e, s)
          | ok next ↦ write_prepared s operation_id (not (is_some loaded)) next
        ]

    -- `appendEvent`: a request is the only event that needs no record.
    unfoldable pub append_event :
        S → String → EventInput → String → Except StoreErrorCode LoadedRecord × S
    append_event s operation_id input timestamp =
        elim (load s operation_id (not (is_request input))) [
          | err e ↦ (err e, s)
          | ok loaded ↦ append_loaded s operation_id loaded input timestamp
        ]

    require_loaded : Option LoadedRecord → Except StoreErrorCode LoadedRecord
    require_loaded none = err not_found
    require_loaded (some loaded) = ok loaded

    unfoldable pub read : S → String → Except StoreErrorCode OperationSnapshot
    unfolding require_loaded
    read s operation_id = do
      found ← load s operation_id true
      loaded ← require_loaded found
      snapshot loaded

    -- `create` and `advance`
    unfoldable pub create :
        S → String → OperationRequested → String → Except StoreErrorCode OperationSnapshot × S
    create s operation_id request timestamp =
        let (outcome, s') = append_event s operation_id (operation_requested request) timestamp in
        (outcome >>= snapshot, s')

    unfoldable pub advance :
        S → String → EventInput → String → Except StoreErrorCode OperationSnapshot × S
    advance s operation_id intent timestamp =
        let (outcome, s') = append_event s operation_id intent timestamp in
        (outcome >>= snapshot, s')

    read_all : S → List String → Except StoreErrorCode (List OperationSnapshot)
    read_all s [] = ok []
    read_all s (i ∷ ids) = do first ← read s i; rest ← read_all s ids; ok (first ∷ rest)

    -- `listMatching`
    unfoldable pub list_matching :
        (OperationSnapshot → Bool) → S → Except StoreErrorCode (List OperationSnapshot)
    unfolding read_all
    list_matching predicate s = do
      ids ← b.list_operation_ids s
      snapshots ← read_all s ids
      ok (keep predicate snapshots)

    unfoldable pub list_recoverable_operations : S → Except StoreErrorCode (List OperationSnapshot)
    list_recoverable_operations = list_matching (λ x. is_recoverable x.operation.state)

    unfoldable pub list_pending_presentation_cleanups :
        S → Except StoreErrorCode (List OperationSnapshot)
    list_pending_presentation_cleanups =
        list_matching (λ x. is_cleanup_pending x.operation x.operation.presentation_cleanup)
