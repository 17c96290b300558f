-- ===== src/Store/Versions.antt =====
-- src/internal/event-store/store.ts: the version of a record that loads.
use pions.Prelude.{◌≡◌, refl, String, true, some, List, [], ◌∷◌, get_last?}
use pions.Except.{ok}
use pions.Platform.{Platform}
use pions.Operation.{Operation, OperationEvent}
use pions.Reducer.{replay_operation, replay_from}
use pions.Store.Backend.{Storage}
use pions.Store.Reopen.{load-Opened, open_record-eq-ok}
use pions.Store.{LoadedRecord, OperationSnapshot, snapshot, load}

last_event :
    (e : OperationEvent) (events : List OperationEvent)
    → (x : OperationEvent) × (get_last? (e ∷ events) ≡ some x)
last_event e [] = (e, refl)
last_event e (y ∷ r) = last_event y r

module _ (p : Platform) where
  last_of_replayed :
      (events : List OperationEvent) (o : Operation)
      → replay_operation p events ≡ ok (some o)
      → (x : OperationEvent) × (get_last? events ≡ some x)
  unfolding replay_operation replay_from
  last_of_replayed [] o h = cc
  last_of_replayed (e ∷ events) o h = last_event e events

  -- A record with an Operation has an event, so it has a version.
  snapshot_of_replayed :
      (l : LoadedRecord)
      → replay_operation p l.stored.events ≡ ok (some l.operation)
      → (x : OperationSnapshot) × (snapshot l ≡ ok x) × (x.operation ≡ l.operation)
  unfolding snapshot
  snapshot_of_replayed l h =
      let (last, ends) = last_of_replayed l.stored.events l.operation h in
      (
        record {
          version = record { sequence_number = last.seq; recorded_at = last.timestamp };
          operation = l.operation;
        },
        rw ends,
        refl,
      )

  pub snapshot_of_loaded :
      {S : Type 0} (b : Storage S) (s : S) (i : String) (l : LoadedRecord)
      → load p b s i true ≡ ok (some l)
      → (x : OperationSnapshot) × (snapshot l ≡ ok x) × (x.operation ≡ l.operation)
  snapshot_of_loaded b s i l loaded =
      snapshot_of_replayed l
        (open_record-eq-ok p l.stored i l (load-Opened p b s i true (some l) loaded)).2
