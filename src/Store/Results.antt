-- ===== src/Store/Results.antt =====
-- src/internal/event-store/store.ts: `acceptResult`, the transaction that accepts a Result. The body
-- is written before the record that names it.
use pions.Prelude.{
  ◌+◌, String, true, false, ◌&&◌, not, Option, none, some, length, ltb, ◌==◌, str_eq, if◌then◌else◌,
}
use pions.Except.{ok, err}
use pions.Platform.{Platform}
use pions.Utf8.{is_utf8}
use pions.Text.{is_identifier}
use pions.Types.Evidence.{AcceptedResult}
use pions.Operation.{Operation, result_accepted}
use pions.Reducer.Guards.{is_running}
use pions.Acceptance.{sha256_digest, result_acceptance_identifier}
use pions.Store.Backend.{Storage}
use pions.Store.{
  LoadedRecord, ResultAcceptanceRequest, AcceptanceOutcome, accepted, continuable, failed,
  operation_not_found, request_mismatch, result_conflict, invalid_operation_state, invalid_utf8,
  limit_exceeded, acceptance_failure, prepare, load,
}

module _ (p : Platform) where
  -- `{ acceptanceId, ...unidentified }`
  unfoldable pub acceptance_of : ResultAcceptanceRequest → Operation → String → AcceptedResult
  acceptance_of request operation accepted_at =
      let digest = sha256_digest p request.bytes in
      let byte_count = length request.bytes in
      record {
        acceptance_id =
            result_acceptance_identifier p request.operation_id request.acceptance_request_id
              byte_count digest;
        operation_id = request.operation_id;
        acceptance_request_id = request.acceptance_request_id;
        accepted_at = accepted_at;
        event_sequence_number = operation.state_seq + 1;
        byte_count = byte_count;
        digest = digest;
      }

  -- What a resent request is answered from.
  abbrev pub answer_existing : ResultAcceptanceRequest → AcceptedResult → AcceptanceOutcome
  answer_existing request existing =
      if str_eq existing.digest (sha256_digest p request.bytes)
        && existing.byte_count == length request.bytes
      then accepted existing
      else failed (
          if str_eq existing.acceptance_request_id request.acceptance_request_id
          then request_mismatch
          else result_conflict)

  -- The checks of a first request, in order; `none` lets it pass.
  abbrev pub refusal : ResultAcceptanceRequest → Operation → Option AcceptanceOutcome
  refusal request operation =
      if ltb operation.max_result_byte_count (length request.bytes)
      then some (failed limit_exceeded)
      else if not (is_utf8 request.bytes)
      then some (failed invalid_utf8)
      else if not (is_running operation.state)
      then some (failed invalid_operation_state)
      else none

  module _ {S : Type 0} (b : Storage S) where
    -- The body, then the record.
    unfoldable pub write_acceptance :
        S → ResultAcceptanceRequest → AcceptedResult → LoadedRecord → AcceptanceOutcome × S
    write_acceptance s request acceptance next =
        let (s', body_written) = b.write_result_body s request.operation_id request.bytes in
        let (s'', record_written) = b.write_record s' request.operation_id next.stored false in
        if body_written
        then (if record_written then accepted acceptance else continuable, s'')
        else (continuable, s')

    unfoldable pub accept_first :
        S → ResultAcceptanceRequest → LoadedRecord → String → AcceptanceOutcome × S
    unfolding write_acceptance
    accept_first s request loaded now =
        let acceptance = acceptance_of request loaded.operation now in
        elim (prepare p request.operation_id loaded.stored (some loaded.operation)
          loaded.operation.state_seq (result_accepted acceptance) now) [
            | err e ↦ (acceptance_failure e, s)
            | ok next ↦ write_acceptance s request acceptance next
          ]

    abbrev pub refuse_or :
        Option AcceptanceOutcome → S → AcceptanceOutcome × S → AcceptanceOutcome × S
    refuse_or none s next = next
    refuse_or (some outcome) s next = (outcome, s)

    -- With no Result yet, the request is checked and then accepted.
    unfoldable pub answer :
        S
        → ResultAcceptanceRequest
        → LoadedRecord
        → String
        → Option AcceptedResult
        → AcceptanceOutcome × S
    unfolding accept_first
    answer s request loaded now (some existing) = (answer_existing request existing, s)
    answer s request loaded now none =
        refuse_or (refusal request loaded.operation) s (accept_first s request loaded now)

    unfoldable pub accept_loaded :
        S → ResultAcceptanceRequest → String → Option LoadedRecord → AcceptanceOutcome × S
    unfolding answer
    accept_loaded s request now none = (failed operation_not_found, s)
    accept_loaded s request now (some loaded) =
        if not (is_identifier request.acceptance_request_id)
        then (failed request_mismatch, s)
        else answer s request loaded now loaded.operation.result

    -- `now` is what the clock answers.
    unfoldable pub accept_result : S → ResultAcceptanceRequest → String → AcceptanceOutcome × S
    unfolding accept_loaded
    accept_result s request now = elim (load p b s request.operation_id true) [
      | err e ↦ (acceptance_failure e, s)
      | ok loaded ↦ accept_loaded s request now loaded
    ]
