-- ===== src/Examples/Running.antt =====
-- src/internal/runtime.ts: the runtime on the memory storage, with a clock that always answers "t".
use pions.Prelude.{ℕ, ◌≤◌, ◌≡◌, refl, String, true, none, some, [], ◌∷◌, ◌++◌}
use pions.Except.{ok}
use pions.Types.Evidence.{agent_failed, OperationState, TerminalReason}
use pions.Operation.{Operation, operation_failed, cancellation_requested}
use pions.Codec.Schema.{event_schema}
use pions.Reducer.Guards.{presentation_cleanup_eligible}
use pions.Reducer.{dispatch}
use pions.Store.Memory.{InMemoryEventStore, memory_storage, memory_laws, write_record}
use pions.Store.{LoadedRecord, load, append_event, event_after}
use pions.Store.Progress.{append_event_succeeds}
use pions.Runtime.{World}
use pions.Runtime.Steps.{Ends, IsStored, IsReliable}
use pions.Runtime.Settle.{WorkerReport, WorkerRunOutcome}
use pions.Runtime.Settle.Reports.{Settled}
use pions.Runtime.Cancel.{cancel}
use pions.Runtime.Cancel.Ends.{Answered, cancel-Answered}
use pions.Runtime.Cleanup.{matching, WorkspaceAnswers, perform_cleanup}
use pions.Runtime.Cleanup.Asks.{closings, perform_cleanup-closings}
use pions.Runtime.Cleanup.Finishes.{Finished, perform_cleanup-Finished}
use pions.OperationReader.Persisted.{read_persisted_operation_recovery, read_persisted-agrees}
use pions.Types.Evidence.{StartDeliveryAuthorityEvidence, StartDeliveryHandoffEvidence}
use pions.Runtime.Confirmation.{generation_confirmed}
use pions.Runtime.Confirmation.Ends.{unknown_of, Aborted, generation_confirmed-Aborted}
use pions.Operation.{start_delivery_authority_revoked}
use pions.Text.{decimal}
use pions.Runtime.{◌>>=◌}
use pions.Runtime.Handoff.{recovered_identified, authority_revoked}
use pions.Runtime.Handoff.Ends.{HandedOver, recovered_handoff-HandedOver}
use pions.Examples.Data.{instruction, platform, started, settled, at}
use pions.Examples.Storing.{running_store, opened}

abbrev clock : ℕ → String
clock n = "t"

abbrev settled_store : InMemoryEventStore
settled_store = record {
  records =
      ("op", record { schema_version = 29; operation_id = "op"; events = started ++ settled }) ∷ [];
  result_bodies = [];
}

abbrev world : InMemoryEventStore → World InMemoryEventStore
world s = record { storage = s; ticks = 0; calls = [] }

abbrev operation : InMemoryEventStore → Operation
operation s = (opened s).operation

memory-IsReliable : IsReliable platform memory_storage clock "op"
unfolding memory_storage write_record
memory-IsReliable = record {
  writes = λ s x. refl;
  real = λ n. refl;
  dated = λ n. refl;
  named = refl;
}

running-IsStored :
    IsStored platform memory_storage clock "op" (operation running_store) (world running_store)
unfolding opened
running-IsStored = (opened running_store, refl, refl)

settled-IsStored :
    IsStored platform memory_storage clock "op" (operation settled_store) (world settled_store)
unfolding opened
settled-IsStored = (opened settled_store, refl, refl)

abbrev exited : WorkerRunOutcome
exited = record {
  report = WorkerReport.process_exited_without_result;
  successful_exit_confirmed = true;
}

cancel-Answered_example :
    Ends (cancel platform memory_storage clock "op" none true) (world running_store) (
      Answered platform memory_storage memory_laws clock "op" memory-IsReliable
        (operation running_store)
        1
        true
        (world running_store))
unfolding opened
cancel-Answered_example =
    cancel-Answered platform memory_storage memory_laws clock "op" memory-IsReliable none true
      (operation running_store) (world running_store) running-IsStored refl refl refl

abbrev closable : WorkspaceAnswers
closable = record { identity = some matching; closes = true }

perform_cleanup-Finished_example :
    Ends
      (perform_cleanup platform memory_storage clock "op" closable true (operation settled_store))
      (world settled_store)
      (Finished platform memory_storage memory_laws clock "op" memory-IsReliable "w1" none)
unfolding opened presentation_cleanup_eligible
perform_cleanup-Finished_example =
    perform_cleanup-Finished platform memory_storage memory_laws clock "op" memory-IsReliable
      closable true (operation settled_store) (world settled_store)
      (record {
        kind = "herdr_workspace";
        workspace_id = "w1";
        pane_id = "p1";
        owned_by_pions = true;
      })
      settled-IsStored refl refl refl refl refl

perform_cleanup-closings_example :
    closings
      (perform_cleanup platform memory_storage clock "op" closable true
        (operation settled_store)
        (world settled_store)).1.calls
    ≤ 1
unfolding opened presentation_cleanup_eligible
perform_cleanup-closings_example =
    perform_cleanup-closings platform memory_storage clock "op" closable true
      (operation settled_store) (world settled_store)

abbrev failed : Operation
failed = record (operation running_store) {
  state = OperationState.failed;
  failure_reason = some agent_failed;
  terminal_reason = some (TerminalReason.failure agent_failed);
  state_seq = 11;
}

append_event_succeeds_example :
    (x : LoadedRecord) × (x.operation ≡ failed)
    × ((append_event platform memory_storage running_store "op"
          (operation_failed agent_failed)
          "t").0
        ≡ ok x)
    × (load platform memory_storage
          (append_event platform memory_storage running_store "op"
            (operation_failed agent_failed)
            "t").1
          "op"
          true
        ≡ ok (some x))
unfolding opened dispatch event_after event_schema
append_event_succeeds_example =
    append_event_succeeds platform memory_storage memory_laws running_store "op"
      (opened running_store) failed (operation_failed agent_failed) "t" refl
      (record {
        named = refl;
        dated = refl;
        real = refl;
        in_schema = refl;
        safe = refl;
        no_request = refl;
        alive = refl;
        legal = refl;
      })
      memory-IsReliable.writes

abbrev cancelling_store : InMemoryEventStore
cancelling_store = record {
  records =
      (
        "op",
        record {
          schema_version = 29;
          operation_id = "op";
          events = started ++ (at 11 (cancellation_requested 1) ∷ []);
        },
      )
      ∷ [];
  result_bodies = [];
}

read_persisted-agrees_example :
    read_persisted_operation_recovery platform memory_storage settled_store "op"
    ≡ ok (some (record { state = OperationState.completed; cleanup_pending = true }))
unfolding opened presentation_cleanup_eligible
read_persisted-agrees_example =
    read_persisted-agrees platform memory_storage settled_store "op" (opened settled_store) refl

abbrev authorized : StartDeliveryAuthorityEvidence
authorized = record { instruction = instruction; acquired_at = "t" }

recovered_handoff-HandedOver_example :
    Ends
      (recovered_identified platform memory_storage clock "op" "instance" "token"
        >>= authority_revoked platform memory_storage clock "op")
      (world running_store)
      (HandedOver platform memory_storage memory_laws clock "op" memory-IsReliable
        "pions-runtime-recovery-2" 2)
unfolding opened decimal
recovered_handoff-HandedOver_example =
    recovered_handoff-HandedOver platform memory_storage memory_laws clock "op" memory-IsReliable
      (operation running_store) authorized (world running_store) "instance" "token" running-IsStored
      refl refl refl refl refl refl refl

abbrev handed_store : InMemoryEventStore
handed_store = record {
  records =
      (
        "op",
        record {
          schema_version = 29;
          operation_id = "op";
          events = started ++ (at 11 (start_delivery_authority_revoked "other" 2) ∷ []);
        },
      )
      ∷ [];
  result_bodies = [];
}

abbrev waiting : StartDeliveryHandoffEvidence
waiting = record {
  previous_dispatcher_id = "dispatcher";
  previous_delivery_generation = 1;
  successor_dispatcher_id = "other";
  delivery_generation = 2;
  authority_revoked_at = "t";
  worker_generation_confirmed_at = none;
  acceptance_state = none;
}

handed-IsStored :
    IsStored platform memory_storage clock "op" (operation handed_store) (world handed_store)
unfolding opened
handed-IsStored = (opened handed_store, refl, refl)

generation_confirmed-Aborted_example :
    Ends
      (generation_confirmed platform memory_storage clock "op" (unknown_of waiting))
      (world handed_store)
      (Aborted platform memory_storage memory_laws clock "op" memory-IsReliable)
unfolding opened
generation_confirmed-Aborted_example =
    generation_confirmed-Aborted platform memory_storage memory_laws clock "op" memory-IsReliable
      (operation handed_store) (world handed_store) waiting handed-IsStored refl refl refl refl refl
      refl
