-- ===== src/Codec.antt =====
-- src/internal/event-store/codec.ts: `decodeRecord`. The value that is decoded is typed here, so
-- what is left of the schema is its filters (Codec/Schema); a value of another shape is a storage
-- that answers `corrupt_record`.
pub mod Schema
use Prim.Native.String.{◌++◌ as append_text}
use pions.Prelude.{ℕ, String, Bool, ◌&&◌, ◌||◌, not, List, ◌==◌, str_eq, all, any, non_empty}
use pions.Except.{Except, ok, throw_if, ◌>>◌}
use pions.Text.{is_safe_integer, decimal}
use pions.Operation.{OperationEvent, event_schema_version, runtime_actor_id, operation_authority}
use pions.Codec.Schema.{event_schema}

-- `StoreErrorCode`; a decoding error has one of the last two.
pub data StoreErrorCode : Type 0 where
  not_found write_failed incomplete_record corrupt_record unsupported_schema : StoreErrorCode

pub record StoredOperationRecord : Type 0 where
  pub schema_version : ℕ
  pub operation_id : String
  pub events : List OperationEvent

-- `${operationId}:${seq}`
unfoldable pub event_identifier : String → ℕ → String
event_identifier operation_id seq = append_text operation_id (append_text ":" (decimal seq))

-- `rejectUnsupportedSchema`
abbrev pub has_unsupported_schema : StoredOperationRecord → Bool
has_unsupported_schema stored =
    not (stored.schema_version == event_schema_version)
    || any (λ (e : OperationEvent). not (e.schema_version == event_schema_version)) stored.events

abbrev pub metadata_schema : OperationEvent → Bool
metadata_schema e =
    is_safe_integer e.seq
    && str_eq e.actor_id runtime_actor_id
    && str_eq e.authority operation_authority

abbrev pub valid_event_envelope : String → OperationEvent → Bool
valid_event_envelope operation_id e =
    str_eq e.event_id (event_identifier operation_id e.seq)
    && str_eq e.operation_id operation_id
    && non_empty e.timestamp

unfoldable pub decode_record :
    StoredOperationRecord → String → Except StoreErrorCode StoredOperationRecord
decode_record value operation_id = do
  throw_if (has_unsupported_schema value) unsupported_schema
  throw_if
      (not (all (λ (e : OperationEvent). metadata_schema e && event_schema e.input) value.events))
      corrupt_record
  throw_if (not (str_eq value.operation_id operation_id)) corrupt_record
  throw_if (not (all (valid_event_envelope operation_id) value.events)) corrupt_record
  ok value
