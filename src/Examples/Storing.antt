-- ===== src/Examples/Storing.antt =====
-- src/internal/event-store/store.ts and memory-storage.ts: appending to the record of a running
-- Operation, and accepting its Result.
use pions.Prelude.{◌≡◌, ◌⊎◌, refl, true, some, [], ◌∷◌, Option}
use pions.Except.{Except, ok}
use pions.Types.Evidence.{agent_failed}
use pions.Operation.{EventInput, operation_failed, operation_starting}
use pions.Codec.{StoreErrorCode, corrupt_record, write_failed, decode_record}
use pions.Codec.Schema.{event_schema}
use pions.Text.{is_identifier}
use pions.Utf8.{is_utf8}
use pions.Store.Memory.{InMemoryEventStore, memory_storage, memory_laws}
use pions.Store.{
  LoadedRecord, ResultAcceptanceRequest, AcceptanceOutcome, accepted, open_record, prepare,
  prepare_loaded, make_event, load, append_loaded, append_event,
}
use pions.Store.Append.{append_event_reloads, append_event_failed}
use pions.Store.Results.{
  accept_result, acceptance_of, accept_loaded, answer, accept_first, write_acceptance,
}
use pions.Store.Acceptances.{accept_result_retry}
use pions.Store.Backing.{IsBacked, accept_result-IsBacked}
use pions.Examples.Data.{platform, started, rebuilt, acceptance}

abbrev pub running_store : InMemoryEventStore
running_store = record {
  records = ("op", record { schema_version = 29; operation_id = "op"; events = started }) ∷ [];
  result_bodies = [];
}

abbrev loaded_from : Except StoreErrorCode (Option LoadedRecord) → LoadedRecord → LoadedRecord
loaded_from (ok (some l)) other = l
loaded_from _ other = other

-- What is stored under "op", opened; the second argument stands for a record that does not open.
unfoldable pub opened : InMemoryEventStore → LoadedRecord
unfolding rebuilt load open_record decode_record event_schema memory_storage
opened s = loaded_from (load platform memory_storage s "op" true) (record {
  stored = record { schema_version = 29; operation_id = "op"; events = [] };
  operation = rebuilt [];
})

abbrev appended : EventInput → Except StoreErrorCode LoadedRecord × InMemoryEventStore
appended input = append_event platform memory_storage running_store "op" input "t"

append_event_reloads_example :
    load platform memory_storage (appended (operation_failed agent_failed)).1 "op" true
    ≡ ok (some (opened (appended (operation_failed agent_failed)).1))
unfolding opened append_event append_loaded prepare_loaded prepare make_event
append_event_reloads_example =
    append_event_reloads platform memory_storage memory_laws running_store "op"
      (operation_failed agent_failed) "t" (opened (appended (operation_failed agent_failed)).1) refl

append_event_failed_example :
    ((appended operation_starting).1 ≡ running_store)
    ⊎ ((corrupt_record ≡ write_failed)
        × ((memory_storage.read_record (appended operation_starting).1 "op"
              ≡ memory_storage.read_record running_store "op")
            ⊎ ((loaded : Option LoadedRecord) × (next : LoadedRecord) × (load platform
                    memory_storage running_store "op" true
                  ≡ ok loaded)
                × (prepare_loaded platform "op" loaded operation_starting "t" ≡ ok next)
                × (load platform memory_storage (appended operation_starting).1 "op" true
                    ≡ ok (some next)))))
unfolding opened append_event append_loaded prepare_loaded prepare make_event
append_event_failed_example =
    append_event_failed platform memory_storage memory_laws running_store "op" operation_starting
      "t" corrupt_record refl

abbrev pub answering : ResultAcceptanceRequest
answering = record { operation_id = "op"; acceptance_request_id = "answer"; bytes = 104 ∷ 105 ∷ [] }

abbrev pub answered : AcceptanceOutcome × InMemoryEventStore
answered = accept_result platform memory_storage running_store answering "t"

accept_result_retry_example :
    accept_result platform memory_storage answered.1 answering "later"
    ≡ (accepted acceptance, answered.1)
unfolding opened prepare make_event accept_result acceptance_of accept_loaded answer accept_first
    write_acceptance is_identifier is_utf8
accept_result_retry_example =
    accept_result_retry platform memory_storage memory_laws running_store answering "t" "later"
      acceptance refl

accept_result-IsBacked_example :
    IsBacked platform memory_storage answered.1 "op" (opened answered.1).operation.result
unfolding opened prepare make_event accept_result acceptance_of accept_loaded answer accept_first
    write_acceptance is_identifier is_utf8
accept_result-IsBacked_example =
    accept_result-IsBacked platform memory_storage memory_laws running_store answering "t"
      (opened running_store) (opened answered.1) refl tt refl
