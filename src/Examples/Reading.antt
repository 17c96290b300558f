-- ===== src/Examples/Reading.antt =====
-- src/internal/operation-reader.ts: reading the Result of a running Operation, whole and in chunks.
use pions.Prelude.{
  ℕ, ◌≤◌, ◌+◌, ◌≡◌, refl, true, none, some, List, [], ◌∷◌, length, take, drop, arith,
}
use pions.Except.{Except, ok, err}
use pions.Types.Evidence.{AcceptedResult}
use pions.Acceptance.{sha256_digest}
use pions.Text.{is_identifier}
use pions.Utf8.{is_utf8, decode}
use pions.Store.Memory.{InMemoryEventStore, memory_storage, memory_laws}
use pions.Store.{AcceptanceOutcome, OperationSnapshot, prepare, make_event, snapshot, read}
use pions.Store.Results.{
  accept_result, acceptance_of, accept_loaded, answer, accept_first, write_acceptance,
}
use pions.OperationReader.{
  Result, Retrieved, retrieved, ReadError, stored_snapshot, retrieve_result, read_result,
}
use pions.OperationReader.Cursor.{
  ResultCursorPayload, pos, encode_cursor, decode_cursor, decode-encode_cursor,
}
use pions.OperationReader.Chunks.{chunk_at}
use pions.OperationReader.Chunks.ResultChunkReadOutcome.{retrieved as chunk_retrieved}
use pions.OperationReader.Session.{chunk_of, chunk_at_cuts, read_chunks, read_chunks-whole}
use pions.OperationReader.Accepted.{accept_result-read_result, accept_result-read_result_first}
use pions.Examples.Data.{platform, rebuilt, acceptance}
use pions.Examples.Storing.{running_store, answering, answered, opened}
use pions.Examples.Cursors.{cursor_platform, cursor_laws}

accept_result-read_result_first_example :
    read_result platform memory_storage answered.1 "op"
    ≡ ok (
        retrieved acceptance.acceptance_id (record {
          body = decode answering.bytes;
          byte_count = length answering.bytes;
          digest = sha256_digest platform answering.bytes;
        }))
unfolding opened prepare make_event accept_result acceptance_of accept_loaded answer accept_first
    write_acceptance is_identifier is_utf8
accept_result-read_result_first_example =
    accept_result-read_result_first platform memory_storage memory_laws running_store answering "t"
      (opened running_store) acceptance refl refl refl

-- The same request, sent again.
accept_result-read_result_example :
    (result : Result) × (read_result platform memory_storage
        (accept_result platform memory_storage answered.1 answering "later").1
        "op"
      ≡ ok (retrieved acceptance.acceptance_id result))
    × (result.digest ≡ sha256_digest platform answering.bytes)
    × (result.byte_count ≡ length answering.bytes)
unfolding opened prepare make_event accept_result acceptance_of accept_loaded answer accept_first
    write_acceptance is_identifier is_utf8
accept_result-read_result_example =
    accept_result-read_result platform memory_storage memory_laws answered.1 answering "later"
      (opened answered.1) acceptance refl (answering.bytes, refl, refl, refl) refl

abbrev payload : ResultCursorPayload
payload = record {
  version = pos 1;
  operation_id = "op";
  acceptance_id = "a";
  digest = "d";
  max_bytes = pos 4;
  start_byte = pos 3;
}

decode-encode_cursor_example :
    decode_cursor cursor_platform "op" (encode_cursor cursor_platform payload) ≡ ok payload
decode-encode_cursor_example =
    decode-encode_cursor cursor_platform cursor_laws payload "op" refl refl refl

-- A letter of one byte, one of two and one of three.
abbrev letters : List ℕ
letters = 104 ∷ 0xc3 ∷ 0xa9 ∷ 0xe2 ∷ 0x82 ∷ 0xac ∷ []

abbrev found : Retrieved
found = record {
  result = record { body = 104 ∷ 0xe9 ∷ 0x20ac ∷ []; byte_count = 6; digest = acceptance.digest };
  bytes = letters;
  acceptance_id = acceptance.acceptance_id;
}

chunk_at_cuts_example :
    (width : ℕ) × (1 ≤ width)
    × (0 + width ≤ length found.bytes)
    × (width ≤ 4)
    × (is_utf8 (take width (drop 0 found.bytes)) ≡ true)
    × (is_utf8 (drop (0 + width) found.bytes) ≡ true)
    × (chunk_at cursor_platform "op" found 4 0
        ≡ ok (chunk_retrieved (chunk_of cursor_platform "op" found 4 0 width)))
unfolding is_utf8
chunk_at_cuts_example =
    chunk_at_cuts cursor_platform "op" found 4 0 (omega arith) (omega arith) refl

abbrev lettered : AcceptanceOutcome × InMemoryEventStore
lettered =
    accept_result platform memory_storage running_store (record answering { bytes = letters }) "t"

snapshot_from : Except ReadError OperationSnapshot → OperationSnapshot
snapshot_from (ok x) = x
snapshot_from (err e) = record {
  version = record { sequence_number = 0; recorded_at = "" };
  operation = rebuilt [];
}

read_back : OperationSnapshot
unfolding snapshot_from rebuilt stored_snapshot read snapshot opened prepare make_event
    accept_result acceptance_of accept_loaded answer accept_first write_acceptance is_identifier
    is_utf8
read_back = snapshot_from (stored_snapshot platform memory_storage lettered.1 "op")

accepted_letters : AcceptedResult
accepted_letters = record acceptance { byte_count = 6 }

read_chunks-whole_example :
    read_chunks cursor_platform platform memory_storage lettered.1 "op" 4 7 none
    ≡ ok (some (decode letters))
unfolding read_back accepted_letters retrieve_result decode
read_chunks-whole_example =
    read_chunks-whole cursor_platform cursor_laws platform memory_storage lettered.1 "op" read_back
      accepted_letters found 4 refl refl refl (omega arith) refl refl refl
