-- ===== src/Examples/Data.antt =====
-- A concrete platform, whose hash is a constant, and the events of one delegation.
use pions.Prelude.{ℕ, ◌-◌, String, true, false, none, some, List, [], ◌∷◌, non_empty, Option}
use pions.Except.{Except, ok}
use pions.Platform.{Platform}
use pions.Types.Configuration.{
  ModelReference, RequestedWorkerConfig, EffectiveWorkerConfig, ObservedWorkerConfig, medium,
  unavailable,
}
use pions.Types.Evidence.{StartInstructionReference, AcceptedResult}
use pions.Acceptance.{result_acceptance_identifier}
use pions.Operation.{
  Operation, OperationEvent, EventInput, OperationRequested, operation_requested,
  presentation_owned, operation_starting, worker_launched, worker_identified,
  start_delivery_authority_acquired, start_delivery_entered, start_instruction_dispatched,
  start_instruction_accepted, start_instruction_acknowledged, result_accepted,
  worker_stop_confirmed, operation_completed, presentation_cleanup_started,
}
use pions.Reducer.Guards.{
  TransitionErrorCode, validate_envelope, valid_initial_configuration,
  valid_start_instruction_reference,
}
use pions.Reducer.Startup.{initial, on_operation_requested}
use pions.Reducer.{dispatch, create, advance, reduce_operation, replay_operation}
use pions.StartInstruction.{automatic_start_scope_digest, same_instruction}
use pions.Acceptance.{sha256_digest, accepted_result_is_consistent}
use pions.Text.{utf8, decimal, is_digest}
use pions.Codec.{event_identifier}
use pions.Store.{event_after}

abbrev pub zeros : String
zeros = "0000000000000000000000000000000000000000000000000000000000000000"

abbrev pub platform : Platform
platform = record {
  sha256_hex = λ bytes. zeros;
  stringify_scope = λ format operation_id task effective. "scope";
  is_timestamp = non_empty;
}

abbrev model : ModelReference
model = record { provider = "test"; id = "test-model" }

abbrev nothing_requested : RequestedWorkerConfig
nothing_requested = record { model = none; thinking_level = none; tools = none; cwd = none }

abbrev pub effective : EffectiveWorkerConfig
effective = record {
  model = model;
  thinking_level = medium;
  tools = "read" ∷ [];
  extensions = [];
  cwd = "/work";
  max_result_byte_count = 1000;
  model_policy = record {
    candidates = model ∷ [];
    attempted = model ∷ [];
    max_attempts = 1;
    fallback = "forbidden";
    aliases = [];
  };
}

abbrev pub request : OperationRequested
request = record {
  task = record {
    requested = nothing_requested;
    background = false;
    prompt_ref = "prompt";
    profile = "worker";
    idempotency_key = "key";
  };
  requested_config = nothing_requested;
  effective_config = effective;
  max_result_byte_count = 1000;
}

abbrev pub instruction : StartInstructionReference
instruction = record {
  dispatcher_id = "dispatcher";
  worker_process_instance_id = "instance";
  receipt_digest = "sha256:0000000000000000000000000000000000000000000000000000000000000000";
  delivery_generation = 1;
}

unfoldable pub acceptance : AcceptedResult
acceptance = record {
  acceptance_id =
      "pions.result-acceptance.v1:0000000000000000000000000000000000000000000000000000000000000000";
  operation_id = "op";
  acceptance_request_id = "answer";
  accepted_at = "t";
  event_sequence_number = 11;
  byte_count = 2;
  digest = "sha256:0000000000000000000000000000000000000000000000000000000000000000";
}

abbrev pub at : ℕ → EventInput → OperationEvent
at n input = event_after "op" (n - 1) input "t"

abbrev pub unavailable_config : ObservedWorkerConfig
unavailable_config = record {
  model = unavailable;
  thinking_level = unavailable;
  tools = unavailable;
  cwd = unavailable;
}

abbrev pub started : List OperationEvent
started =
    at 1 (operation_requested request)
    ∷ at 2 (
        presentation_owned (record {
          kind = "herdr_workspace";
          workspace_id = "w1";
          pane_id = "p1";
          owned_by_pions = true;
        }))
    ∷ at 3 operation_starting
    ∷ at 4 worker_launched
    ∷ at 5 (
        worker_identified
          (record {
            process_id = 7;
            process_instance_id = "instance";
            process_start_token = "token";
            pi_session_id = "session";
            pane_id = "p1";
          })
          unavailable_config)
    ∷ at 6 (start_delivery_authority_acquired instruction)
    ∷ at 7 (start_delivery_entered instruction)
    ∷ at 8 (start_instruction_dispatched instruction)
    ∷ at 9 (start_instruction_accepted instruction "worker-durable-acceptance")
    ∷ at 10 (start_instruction_acknowledged instruction "authenticated-worker-acknowledgement")
    ∷ []

abbrev pub settled : List OperationEvent
settled =
    at 11 (result_accepted acceptance)
    ∷ at 12 (worker_stop_confirmed "worker-stop")
    ∷ at 13 operation_completed
    ∷ []

abbrev pub cleaning : OperationEvent
cleaning = at 14 (presentation_cleanup_started "c1" "w1")

abbrev rebuilt_from : Except TransitionErrorCode (Option Operation) → Operation
rebuilt_from (ok (some o)) = o
rebuilt_from _ = initial (at 1 (operation_requested request)).metadata request

-- The Operation that events rebuild.
unfoldable pub rebuilt : List OperationEvent → Operation
unfolding replay_operation reduce_operation validate_envelope create advance dispatch
    on_operation_requested initial valid_initial_configuration valid_start_instruction_reference
    automatic_start_scope_digest sha256_digest utf8 decimal is_digest same_instruction
    accepted_result_is_consistent result_acceptance_identifier event_identifier event_after
    acceptance
rebuilt events = rebuilt_from (replay_operation platform events)
