-- ===== src/Codec/Schema.antt =====
-- src/internal/event-store/codec.ts and src/internal/worker-configuration.ts: the schemas that a
-- decoded record meets, as tests on typed values. A record type gives the shape; the tests are the
-- filters: non-empty texts, digests, safe integers and literals.
use pions.Prelude.{Bool, true, ◌&&◌, ◌||◌, Option, none, some, ◌==◌, str_eq, all, non_empty}
use pions.Text.{is_safe_integer, is_digest}
use pions.Types.Configuration.{
  ModelReference, RequestedWorkerConfig, EffectiveWorkerConfig, WorkerExtension, ObservedSetting,
  observed, unavailable, ObservedWorkerConfig, TaskSpec,
}
use pions.Types.Evidence.{StartInstructionReference, WorkerIdentity, AcceptedResult}
use pions.Operation.{
  PresentationOwnership, OperationRequested, GenerationConfirmation, EventInput,
  operation_requested, presentation_owned, operation_starting, worker_launched, worker_identified,
  start_delivery_authority_acquired, start_delivery_authority_revoked,
  start_delivery_generation_confirmed, start_delivery_entered, start_instruction_dispatched,
  start_instruction_accepted, start_instruction_acknowledged, result_accepted,
  worker_stop_confirmed, agent_settled, operation_completed, operation_failed,
  cancellation_requested, cancel_dispatched, cancel_acknowledged, operation_cancelled,
  operation_unknown, presentation_cleanup_started, presentation_cleanup_completed,
  presentation_cleanup_unconfirmed,
}

-- `Schema.optional`
optional {ℓ} : {A : Type ℓ} → (A → Bool) → Option A → Bool
optional test none = true
optional test (some a) = test a

model_reference_schema : ModelReference → Bool
model_reference_schema m = non_empty m.provider && non_empty m.id

requested_worker_config_schema : RequestedWorkerConfig → Bool
unfolding optional model_reference_schema
requested_worker_config_schema c =
    optional model_reference_schema c.model
    && optional (all non_empty) c.tools
    && optional non_empty c.cwd

worker_extension_schema : WorkerExtension → Bool
worker_extension_schema e = non_empty e.source && non_empty e.path

effective_worker_config_schema : EffectiveWorkerConfig → Bool
unfolding model_reference_schema worker_extension_schema
effective_worker_config_schema c =
    model_reference_schema c.model
    && all non_empty c.tools
    && all worker_extension_schema c.extensions
    && non_empty c.cwd
    && all model_reference_schema c.model_policy.candidates
    && all model_reference_schema c.model_policy.attempted
    && c.model_policy.max_attempts == 1
    && str_eq c.model_policy.fallback "forbidden"

observed_setting {ℓ} : {A : Type ℓ} → (A → Bool) → ObservedSetting A → Bool
observed_setting test (observed a) = test a
observed_setting test unavailable = true

observed_worker_config_schema : ObservedWorkerConfig → Bool
unfolding observed_setting model_reference_schema
observed_worker_config_schema c =
    observed_setting model_reference_schema c.model
    && observed_setting (all non_empty) c.tools
    && observed_setting non_empty c.cwd

task_schema : TaskSpec → Bool
unfolding requested_worker_config_schema
task_schema t =
    non_empty t.prompt_ref
    && non_empty t.profile
    && non_empty t.idempotency_key
    && requested_worker_config_schema t.requested

presentation_schema : PresentationOwnership → Bool
presentation_schema x =
    str_eq x.kind "herdr_workspace"
    && non_empty x.workspace_id
    && non_empty x.pane_id
    && x.owned_by_pions

worker_identity_schema : WorkerIdentity → Bool
worker_identity_schema x =
    is_safe_integer x.process_id
    && non_empty x.process_instance_id
    && non_empty x.process_start_token
    && non_empty x.pi_session_id
    && non_empty x.pane_id

start_instruction_schema : StartInstructionReference → Bool
start_instruction_schema x =
    non_empty x.dispatcher_id
    && non_empty x.worker_process_instance_id
    && is_digest x.receipt_digest
    && is_safe_integer x.delivery_generation

accepted_result_schema : AcceptedResult → Bool
accepted_result_schema x =
    is_safe_integer x.event_sequence_number && is_safe_integer x.byte_count && is_digest x.digest

operation_requested_schema : OperationRequested → Bool
unfolding task_schema requested_worker_config_schema effective_worker_config_schema
operation_requested_schema x =
    task_schema x.task
    && requested_worker_config_schema x.requested_config
    && effective_worker_config_schema x.effective_config
    && is_safe_integer x.max_result_byte_count

generation_schema : GenerationConfirmation → Bool
unfolding optional start_instruction_schema
generation_schema x =
    non_empty x.dispatcher_id
    && is_safe_integer x.delivery_generation
    && optional start_instruction_schema x.accepted_instruction

-- `OperationEventSchema`, without the metadata
unfoldable pub event_schema : EventInput → Bool
unfolding operation_requested_schema presentation_schema worker_identity_schema
    observed_worker_config_schema start_instruction_schema generation_schema accepted_result_schema
    optional
event_schema (operation_requested x) = operation_requested_schema x
event_schema (presentation_owned x) = presentation_schema x
event_schema operation_starting = true
event_schema worker_launched = true
event_schema (worker_identified x c) = worker_identity_schema x && observed_worker_config_schema c
event_schema (start_delivery_authority_acquired x) = start_instruction_schema x
event_schema (start_delivery_authority_revoked s n) = non_empty s && is_safe_integer n
event_schema (start_delivery_generation_confirmed x) = generation_schema x
event_schema (start_delivery_entered x) = start_instruction_schema x
event_schema (start_instruction_dispatched x) = start_instruction_schema x
event_schema (start_instruction_accepted x proof) =
    start_instruction_schema x && str_eq proof "worker-durable-acceptance"
event_schema (start_instruction_acknowledged x proof) =
    start_instruction_schema x
    && (str_eq proof "authenticated-worker-acknowledgement"
        || str_eq proof "authenticated-generation-acknowledgement")
event_schema (result_accepted x) = accepted_result_schema x
event_schema (worker_stop_confirmed proof) = str_eq proof "worker-stop"
event_schema (agent_settled x) = true
event_schema operation_completed = true
event_schema (operation_failed r) = true
event_schema (cancellation_requested n) = is_safe_integer n
event_schema (cancel_dispatched n) = is_safe_integer n
event_schema (cancel_acknowledged n proof) = is_safe_integer n && str_eq proof "worker-stop"
event_schema (operation_cancelled n) = is_safe_integer n
event_schema (operation_unknown r n) = optional is_safe_integer n
event_schema (presentation_cleanup_started c w) = non_empty c && non_empty w
event_schema (presentation_cleanup_completed c w) = non_empty c && non_empty w
event_schema (presentation_cleanup_unconfirmed c w r) = non_empty c && non_empty w
