-- ===== src/OperationReader/Chunks.antt =====
-- src/internal/operation-reader.ts: `readResultChunk`, and a caller that follows the cursors.
use pions.Prelude.{
  ℕ, zero, suc, ◌+◌, ◌-◌, String, Bool, true, false, ◌&&◌, ◌||◌, not, Option, none, some, List,
  length, take, drop, ltb, leb, ◌==◌, str_eq, is_some, if◌then◌else◌,
}
use pions.Except.{Except, ok, err, throw_if, map_err, ◌>>=◌, ◌>>◌}
use pions.Platform.{Platform}
use pions.Types.Evidence.{AcceptedResult}
use pions.Text.{is_safe_integer}
use pions.Utf8.{is_utf8, decode}
use pions.Store.Backend.{Storage}
use pions.Store.{OperationSnapshot}
use pions.OperationReader.{
  ReadError, cursor_refused, max_bytes_range, invalid, result_mismatch, Retrieved, NotAccepted,
  not_accepted_of, stored_snapshot, retrieve_result,
}
use pions.OperationReader.Cursor.{
  ℤ, pos, negsuc, ResultCursorPayload, CursorPlatform, encode_cursor, decode_cursor,
}

pub record ResultChunk : Type 0 where
  pub acceptance_id : String
  pub body : List ℕ
  pub start_byte : ℕ
  pub total_byte_count : ℕ
  pub digest : String
  pub next_cursor : Option String

pub data ResultChunkReadOutcome : Type 0 where
  retrieved : ResultChunk → ResultChunkReadOutcome
  not_accepted : NotAccepted → ResultChunkReadOutcome

-- `while (endByte > startByte)`: how many of the first n bytes decode, tried from n downwards.
unfoldable pub decoded_width : List ℕ → ℕ → ℕ
decoded_width rest zero = 0
decoded_width rest (suc n) =
    let shorter = decoded_width rest n in if is_utf8 (take (suc n) rest) then suc n else shorter

-- `Math.min`
abbrev pub minimum : ℕ → ℕ → ℕ
minimum a b = if leb a b then a else b

abbrev pub is_max : ℕ → ℤ → Bool
is_max max_bytes (pos n) = n == max_bytes
is_max max_bytes (negsuc n) = false

-- The cursor was made for this Result and this chunk size.
abbrev pub cursor_matches : Retrieved → ℕ → Option ResultCursorPayload → Bool
cursor_matches found max_bytes none = true
cursor_matches found max_bytes (some cursor) =
    str_eq cursor.acceptance_id found.acceptance_id
    && str_eq cursor.digest found.result.digest
    && is_max max_bytes cursor.max_bytes

-- `cursor?.startByte ?? 0`
abbrev pub start_of : Option ResultCursorPayload → ℤ
start_of none = pos 0
start_of (some cursor) = cursor.start_byte

-- The start, if it lies in the body; only a first read may start at the end.
abbrev pub checked_start : ℕ → Bool → ℤ → Except ReadError ℕ
checked_start total has_cursor (negsuc n) = err (cursor_refused invalid)
checked_start total has_cursor (pos start) =
    if ltb total start || start == total && has_cursor
    then err (cursor_refused invalid)
    else ok start

module _ (n : CursorPlatform) where
  abbrev pub payload_at : String → Retrieved → ℕ → ℕ → ResultCursorPayload
  payload_at operation_id found max_bytes start = record {
    version = pos 1;
    operation_id = operation_id;
    acceptance_id = found.acceptance_id;
    digest = found.result.digest;
    max_bytes = pos max_bytes;
    start_byte = pos start;
  }

  -- The chunk from a start on, as wide as whole characters allow.
  unfoldable pub chunk_at : String → Retrieved → ℕ → ℕ → Except ReadError ResultChunkReadOutcome
  chunk_at operation_id found max_bytes start =
      let total = length found.bytes in
      let rest = drop start found.bytes in
      let width = decoded_width rest (minimum (start + max_bytes) total - start) in
      let end_byte = start + width in
      if width == 0 && ltb 0 total
      then err (cursor_refused invalid)
      else ok (
          retrieved (record {
            acceptance_id = found.acceptance_id;
            body = decode (take width rest);
            start_byte = start;
            total_byte_count = total;
            digest = found.result.digest;
            next_cursor =
                if end_byte == total
                then none
                else some (encode_cursor n (payload_at operation_id found max_bytes end_byte));
          }))

  abbrev pub decode_option : String → Option String → Except ReadError (Option ResultCursorPayload)
  decode_option operation_id none = ok none
  decode_option operation_id (some cursor) =
      map_err (λ reason. cursor_refused reason) (decode_cursor n operation_id cursor) >>= λ payload.
      ok (some payload)

  module _ (p : Platform) {S : Type 0} (b : Storage S) where
    abbrev pub read_chunk_of :
        S
        → String
        → ℕ
        → Option ResultCursorPayload
        → OperationSnapshot
        → Option AcceptedResult
        → Except ReadError ResultChunkReadOutcome
    read_chunk_of s operation_id max_bytes cursor snapshot none =
        ok (not_accepted (not_accepted_of snapshot))
    read_chunk_of s operation_id max_bytes cursor snapshot (some accepted) = do
      found ← retrieve_result p b s operation_id accepted
      throw_if (not (cursor_matches found max_bytes cursor)) (cursor_refused result_mismatch)
      start ← checked_start (length found.bytes) (is_some cursor) (start_of cursor)
      chunk_at operation_id found max_bytes start

    unfoldable pub read_result_chunk :
        S → String → ℕ → Option String → Except ReadError ResultChunkReadOutcome
    read_result_chunk s operation_id max_bytes cursor = do
      throw_if (not (is_safe_integer max_bytes) || ltb max_bytes 4) max_bytes_range
      payload ← decode_option operation_id cursor
      snapshot ← stored_snapshot p b s operation_id
      read_chunk_of s operation_id max_bytes payload snapshot snapshot.operation.result
