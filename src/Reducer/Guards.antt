-- ===== src/Reducer/Guards.antt =====
-- src/internal/event-store/reducer.ts: the errors of a transition and the tests that the cases of
-- `reduceOperation` share.
use pions.Prelude.{
  ℕ, String, Bool, true, false, ◌&&◌, ◌||◌, not, Option, none, some, List, [], ◌∷◌, length, ltb,
  leb, ◌==◌, str_eq, is_some, non_empty,
}
use pions.Except.{Except, ok, err, throw_if, ◌>>◌}
use pions.Text.{is_safe_integer}
use pions.Types.Configuration.{
  ModelReference, ThinkingLevel, off, minimal, low, medium, high, xhigh, max,
}
use pions.Types.Evidence.{
  OperationState, queued, starting, running, cancelling, cancelled, StartInstructionReference,
  WorkerIdentity,
}
use pions.Platform.{Platform}
use pions.StartInstruction.{automatic_start_scope_digest}
use pions.Operation.{
  Operation, EventMetadata, OperationRequested, event_schema_version, runtime_actor_id,
  operation_authority,
}

pub data TransitionErrorCode : Type 0 where
  operation_required operation_already_exists operation_id_mismatch invalid_operation_id
        invalid_event_id duplicate_event unsupported_schema_version actor_mismatch
        authority_mismatch unexpected_sequence illegal_transition terminal_state_immutable
        stale_cancellation_epoch cancellation_epoch_mismatch :
      TransitionErrorCode

abbrev pub Reduction : Type 0
Reduction = Except TransitionErrorCode Operation

abbrev pub is_queued : OperationState → Bool
is_queued queued = true
is_queued _ = false

abbrev pub is_starting : OperationState → Bool
is_starting starting = true
is_starting _ = false

abbrev pub is_running : OperationState → Bool
is_running running = true
is_running _ = false

abbrev pub is_cancelling : OperationState → Bool
is_cancelling cancelling = true
is_cancelling _ = false

abbrev pub is_completed : OperationState → Bool
is_completed OperationState.completed = true
is_completed _ = false

abbrev pub is_cancelled : OperationState → Bool
is_cancelled cancelled = true
is_cancelled _ = false

-- `state === "starting" || state === "running"`
abbrev pub is_started : OperationState → Bool
is_started s = is_starting s || is_running s

-- `terminal`
abbrev pub is_terminal : OperationState → Bool
is_terminal OperationState.completed = true
is_terminal OperationState.failed = true
is_terminal cancelled = true
is_terminal OperationState.unknown = true
is_terminal _ = false

-- A strict comparison of two optional texts, and of two optional levels.
abbrev pub same_text : Option String → Option String → Bool
same_text none none = true
same_text (some a) (some b) = str_eq a b
same_text _ _ = false

abbrev pub level_rank : ThinkingLevel → ℕ
level_rank off = 0
level_rank minimal = 1
level_rank low = 2
level_rank medium = 3
level_rank high = 4
level_rank xhigh = 5
level_rank max = 6

abbrev pub same_level : Option ThinkingLevel → Option ThinkingLevel → Bool
same_level none none = true
same_level (some a) (some b) = level_rank a == level_rank b
same_level _ _ = false

abbrev pub same_texts : List String → List String → Bool
same_texts [] [] = true
same_texts (a ∷ as') (b ∷ bs) = str_eq a b && same_texts as' bs
same_texts _ _ = false

-- `sameStringArray`
abbrev pub same_string_array : Option (List String) → Option (List String) → Bool
same_string_array none none = true
same_string_array (some a) (some b) = same_texts a b
same_string_array _ _ = false

-- `requested.model?.provider === task.model?.provider && requested.model?.id === task.model?.id`
abbrev pub same_model_option : Option ModelReference → Option ModelReference → Bool
same_model_option none none = true
same_model_option (some a) (some b) = str_eq a.provider b.provider && str_eq a.id b.id
same_model_option _ _ = false

-- `xs.length === 1` and the first element has the effective model's provider and id
abbrev pub is_only_model : List ModelReference → ModelReference → Bool
is_only_model (c ∷ []) m = str_eq c.provider m.provider && str_eq c.id m.id
is_only_model _ m = false

unfoldable pub valid_initial_configuration : OperationRequested → Bool
valid_initial_configuration event =
    same_model_option requested.model task.model
    && same_level requested.thinking_level task.thinking_level
    && same_text requested.cwd task.cwd
    && same_string_array requested.tools task.tools
    && non_empty effective.model.provider
    && non_empty effective.model.id
    && non_empty effective.cwd
    && is_only_model effective.model_policy.candidates effective.model
    && is_only_model effective.model_policy.attempted effective.model
    && effective.model_policy.max_attempts == 1
    && str_eq effective.model_policy.fallback "forbidden"
    && length effective.model_policy.aliases == 0
    && is_safe_integer event.max_result_byte_count
    && ltb 0 event.max_result_byte_count
  where
    open event use {requested_config as requested, effective_config as effective, task}

module _ (p : Platform) where
  names_worker : Operation → StartInstructionReference → Option WorkerIdentity → Bool
  names_worker operation instruction none = false
  names_worker operation instruction (some identity) =
      non_empty instruction.dispatcher_id
      && str_eq instruction.worker_process_instance_id identity.process_instance_id
      && str_eq instruction.receipt_digest (
          automatic_start_scope_digest p operation.operation_id operation.task
            operation.effective_config)
      && is_safe_integer instruction.delivery_generation
      && leb 1 instruction.delivery_generation

  unfoldable pub valid_start_instruction_reference : Operation → StartInstructionReference → Bool
  unfolding names_worker
  valid_start_instruction_reference operation instruction =
      names_worker operation instruction operation.worker_identity

-- Successful and stop-confirmed cancelled Operations may close their owned workspace.
unfoldable pub presentation_cleanup_eligible : Operation → Bool
presentation_cleanup_eligible operation =
    is_some operation.worker_stop_confirmed_at
    && (is_completed operation.state && is_some operation.result || is_cancelled operation.state)

unfoldable pub validate_envelope : EventMetadata → Except TransitionErrorCode (Unit {0})
validate_envelope event = do
  throw_if (not (event.schema_version == event_schema_version)) unsupported_schema_version
  throw_if (not (str_eq event.actor_id runtime_actor_id)) actor_mismatch
  throw_if (not (str_eq event.authority operation_authority)) authority_mismatch
  throw_if (not (non_empty event.operation_id)) invalid_operation_id
  throw_if (not (non_empty event.event_id)) invalid_event_id
  throw_if (not (is_safe_integer event.seq) || ltb event.seq 1) unexpected_sequence

-- `if (bad) throw new TransitionError(code); return next;`
abbrev pub refuse_if : Bool → TransitionErrorCode → Operation → Reduction
refuse_if true code next = err code
refuse_if false code next = ok next
