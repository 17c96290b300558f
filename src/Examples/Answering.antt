-- ===== src/Examples/Answering.antt =====
-- src/internal/result-acceptance.ts: answers of the Worker of a running Operation.
use pions.Prelude.{ℕ, ◌≡◌, refl, some, none, List, [], ◌∷◌, if◌then◌else◌}
use pions.Except.{ok}
use pions.Text.{encode_all, encode, is_identifier}
use pions.Utf8.{is_utf8, decode, decode_from}
use pions.Store.Memory.{memory_storage, memory_laws}
use pions.Store.{OperationSnapshot, prepare, make_event, read, snapshot}
use pions.Store.Results.{
  accept_result, acceptance_of, accept_loaded, answer, accept_first, write_acceptance,
}
use pions.OperationReader.{retrieved, read_result}
use pions.ResultAcceptance.{
  WorkerProducedResult, ResultAcceptanceProof, failed, input_integrity_mismatch, accept,
  materialize_body, buffer_from, same_text,
}
use pions.ResultAcceptance.Bodies.{is_integral, materialize_body-is_integral}
use pions.ResultAcceptance.Accepts.{accept-refused, accept-read_result_first}
use pions.Examples.Data.{platform, acceptance}
use pions.Examples.Storing.{running_store, opened}

abbrev saying : List ℕ → ℕ → WorkerProducedResult
saying body byte_count = record {
  acceptance_request_id = "answer";
  body = body;
  expected_byte_count = byte_count;
  expected_digest = "sha256:0000000000000000000000000000000000000000000000000000000000000000";
}

abbrev pub hi : WorkerProducedResult
hi = saying (104 ∷ 105 ∷ []) 2

-- A text that begins with U+FEFF, with its true length and digest.
abbrev marked : WorkerProducedResult
marked = saying (0xfeff ∷ 104 ∷ 105 ∷ []) 5

materialize_body-is_integral_example :
    materialize_body platform hi
    ≡ (if is_integral platform hi then some (encode_all hi.body) else none)
materialize_body-is_integral_example = materialize_body-is_integral platform hi

abbrev running_snapshot : OperationSnapshot
running_snapshot = record {
  version = record { sequence_number = 10; recorded_at = "t" };
  operation = (opened running_store).operation;
}

accept-refused_example :
    accept platform memory_storage running_store "op" marked "t"
    ≡ (failed input_integrity_mismatch, running_store)
unfolding opened read snapshot encode_all encode
accept-refused_example =
    accept-refused platform memory_storage running_store "op" "t" marked running_snapshot refl refl

abbrev proof : ResultAcceptanceProof
proof = record {
  operation_id = "op";
  acceptance_id = acceptance.acceptance_id;
  digest = hi.expected_digest;
  event_sequence_number = 11;
}

accept-read_result_first_example :
    read_result platform memory_storage
      (accept platform memory_storage running_store "op" hi "t").1
      "op"
    ≡ ok (
        retrieved proof.acceptance_id
          (record { body = 104 ∷ 105 ∷ []; byte_count = 2; digest = hi.expected_digest }))
unfolding opened prepare make_event accept_result acceptance_of accept_loaded answer accept_first
    write_acceptance is_identifier is_utf8 accept materialize_body buffer_from same_text encode_all
    encode decode decode_from read snapshot
accept-read_result_first_example =
    accept-read_result_first platform memory_storage memory_laws running_store "op" "t" hi proof
      (opened running_store) refl refl refl
