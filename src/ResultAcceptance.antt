-- ===== src/ResultAcceptance.antt =====
-- src/internal/result-acceptance.ts: how the final answer of a Worker is accepted as a Result. The
-- body of an answer is its row of code points, in which a lone surrogate may stand.
pub mod Bodies
pub mod Accepts
use pions.Prelude.{
  ℕ, String, Bool, true, false, ◌&&◌, ◌||◌, not, Option, none, some, List, [], ◌∷◌, map, length,
  ◌==◌, str_eq, if◌then◌else◌,
}
use pions.Except.{Except, ok, err}
use pions.Platform.{Platform}
use pions.Types.Evidence.{AcceptedResult}
use pions.Text.{encode_all}
use pions.Utf8.{decode}
use pions.Utf8.Encoded.{is_scalar}
use pions.Acceptance.{sha256_digest}
use pions.Codec.{StoreErrorCode, not_found}
use pions.Store.Backend.{Storage}
use pions.Store.{
  ResultAcceptanceRequest, AcceptanceFailureReason, operation_not_found, AcceptanceOutcome,
  OperationSnapshot, read,
}
use pions.Store.Results.{accept_result}

pub record WorkerProducedResult : Type 0 where
  pub acceptance_request_id : String
  pub body : List ℕ
  pub expected_byte_count : ℕ
  pub expected_digest : String

pub data ResultAcceptanceFailureReason : Type 0 where
  transaction : AcceptanceFailureReason → ResultAcceptanceFailureReason
  input_integrity_mismatch cancelled : ResultAcceptanceFailureReason

pub record ResultAcceptanceProof : Type 0 where
  pub operation_id : String
  pub acceptance_id : String
  pub digest : String
  pub event_sequence_number : ℕ

pub data ResultAcceptanceOutcome : Type 0 where
  accepted : ResultAcceptanceProof → ResultAcceptanceOutcome
  continuable : ResultAcceptanceOutcome
  failed : ResultAcceptanceFailureReason → ResultAcceptanceOutcome

abbrev pub acceptance_proof : AcceptedResult → ResultAcceptanceProof
acceptance_proof acceptance = record {
  operation_id = acceptance.operation_id;
  acceptance_id = acceptance.acceptance_id;
  digest = acceptance.digest;
  event_sequence_number = acceptance.event_sequence_number;
}

-- A lone surrogate has no bytes: U+FFFD is encoded in its place.
abbrev pub well_formed : ℕ → ℕ
well_formed c = if is_scalar c then c else 0xfffd

-- `Buffer.from(text, "utf8")`
unfoldable pub buffer_from : List ℕ → List ℕ
buffer_from text = encode_all (map well_formed text)

-- A `TextDecoder` drops a leading U+FEFF.
abbrev pub drop_mark : List ℕ → List ℕ
drop_mark [] = []
drop_mark (c ∷ cs) = if c == 0xfeff then cs else c ∷ cs

-- `new TextDecoder("utf-8", { fatal: true }).decode(bytes)`, of bytes that `Buffer.from` has made,
-- which always decode.
abbrev pub text_decode : List ℕ → List ℕ
text_decode bytes = drop_mark (decode bytes)

unfoldable pub same_text : List ℕ → List ℕ → Bool
same_text [] [] = true
same_text (c ∷ cs) (d ∷ ds) = c == d && same_text cs ds
same_text _ _ = false

abbrev pub read_failure : StoreErrorCode → AcceptanceFailureReason
read_failure not_found = operation_not_found
read_failure StoreErrorCode.unsupported_schema = AcceptanceFailureReason.unsupported_schema
read_failure _ = AcceptanceFailureReason.corrupt_record

-- What the outcome of the store is answered with.
abbrev pub outcome_of : AcceptanceOutcome → ResultAcceptanceOutcome
outcome_of (AcceptanceOutcome.accepted acceptance) = accepted (acceptance_proof acceptance)
outcome_of AcceptanceOutcome.continuable = continuable
outcome_of (AcceptanceOutcome.failed reason) = failed (transaction reason)

module _ (p : Platform) where
  unfoldable pub materialize_body : WorkerProducedResult → Option (List ℕ)
  materialize_body result =
      let bytes = buffer_from result.body in
      if not (same_text (text_decode bytes) result.body)
        || not (length bytes == result.expected_byte_count)
        || not (str_eq (sha256_digest p bytes) result.expected_digest)
      then none
      else some bytes

  module _ {S : Type 0} (b : Storage S) where
    abbrev pub request_of : String → WorkerProducedResult → List ℕ → ResultAcceptanceRequest
    request_of operation_id produced bytes = record {
      operation_id = operation_id;
      acceptance_request_id = produced.acceptance_request_id;
      bytes = bytes;
    }

    -- The acceptance of a body that has been encoded.
    abbrev pub accept_body :
        S → String → WorkerProducedResult → String → Option (List ℕ) → ResultAcceptanceOutcome × S
    accept_body s operation_id produced now none = (failed input_integrity_mismatch, s)
    accept_body s operation_id produced now (some bytes) =
        let (outcome, s') = accept_result p b s (request_of operation_id produced bytes) now in
        (outcome_of outcome, s')

    abbrev pub accept_read :
        S
        → String
        → WorkerProducedResult
        → String
        → Except StoreErrorCode OperationSnapshot
        → ResultAcceptanceOutcome × S
    accept_read s operation_id produced now (err code) =
        (failed (transaction (read_failure code)), s)
    accept_read s operation_id produced now (ok stored) =
        accept_body s operation_id produced now (materialize_body produced)

    -- `now` is what the clock answers to the store.
    unfoldable pub accept : S → String → WorkerProducedResult → String → ResultAcceptanceOutcome × S
    accept s operation_id produced now =
        accept_read s operation_id produced now (read p b s operation_id)
