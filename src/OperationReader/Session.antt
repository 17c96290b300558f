-- ===== src/OperationReader/Session.antt =====
-- src/internal/operation-reader.ts: a caller of `readResultChunk` that follows the cursors from
-- the first chunk on.
use mathlib.Core.Option.{map as option_map}
use pions.Prelude.{
  ℕ, zero, suc, ◌+◌, ◌-◌, ◌≤◌, ◌<◌, ◌≡◌, refl, sym, ap, ◌∙◌, String, true, Option, none, some, List,
  [], ◌++◌, length, take, drop, take-append-drop, length-drop, drop-drop, drop-nil_of_le,
  append-nil, ltb→lt, ltb, leb, ◌==◌, eq_iff, if◌then◌else◌, inl, inr, ◌⊎◌, arith, Bool-cases,
}
use pions.Except.{Except, ok, ◌>>=◌}
use pions.Platform.{Platform}
use pions.Types.Evidence.{AcceptedResult}
use pions.Text.{is_safe_integer}
use pions.Utf8.{is_utf8, decode}
use pions.Utf8.Prefixes.{is_utf8-append}
use pions.Utf8.Decoded.{decode-nil, decode-append}
use pions.Store.Backend.{Storage}
use pions.Store.{OperationSnapshot}
use pions.OperationReader.{ReadError, Retrieved, stored_snapshot, retrieve_result}
use pions.OperationReader.Cursor.{CursorPlatform, CursorLaws, encode_cursor, decode-encode_cursor}
use pions.OperationReader.Chunks.{
  ResultChunk, ResultChunkReadOutcome, retrieved, not_accepted, decoded_width, minimum, payload_at,
  chunk_at, read_result_chunk,
}
use pions.OperationReader.Widths.{decoded_width-is_utf8, decoded_width-le, decoded_width-pos}

-- The chunk that a reading from `start` gives, with its width.
abbrev pub chunk_of : CursorPlatform → String → Retrieved → ℕ → ℕ → ℕ → ResultChunk
chunk_of n operation_id found max_bytes start width = record {
  acceptance_id = found.acceptance_id;
  body = decode (take width (drop start found.bytes));
  start_byte = start;
  total_byte_count = length found.bytes;
  digest = found.result.digest;
  next_cursor =
      if start + width == length found.bytes
      then none
      else some (encode_cursor n (payload_at n operation_id found max_bytes (start + width)));
}

room_lem :
    (start max_bytes total : ℕ)
    → 4 ≤ max_bytes
    → start < total
    → (minimum (start + max_bytes) total - start ≤ max_bytes)
      × (start + (minimum (start + max_bytes) total - start) ≤ total)
      × ((4 ≤ minimum (start + max_bytes) total - start)
          ⊎ (total - start ≤ minimum (start + max_bytes) total - start))
room_lem start max_bytes total four before = elim (Bool-cases (leb (start + max_bytes) total)) [
  | inl h ↦ (ground arith, ground arith, inl (ground arith))
  | inr h ↦ (ground arith, ground arith, inr (ground arith))
]

-- Where at least 4 bytes may be given, and what is left of the body is UTF-8 and not empty, the chunk
-- is not empty, is as long as asked for at most, stays in the body, and ends between two characters:
-- its bytes and those after it are UTF-8.
pub chunk_at_cuts :
    (n : CursorPlatform) (operation_id : String) (found : Retrieved) (max_bytes start : ℕ)
    → 4 ≤ max_bytes
    → start < length found.bytes
    → is_utf8 (drop start found.bytes) ≡ true
    → (width : ℕ) × (1 ≤ width)
      × (start + width ≤ length found.bytes)
      × (width ≤ max_bytes)
      × (is_utf8 (take width (drop start found.bytes)) ≡ true)
      × (is_utf8 (drop (start + width) found.bytes) ≡ true)
      × (chunk_at n operation_id found max_bytes start
          ≡ ok (retrieved (chunk_of n operation_id found max_bytes start width)))
unfolding chunk_at
chunk_at_cuts n operation_id found max_bytes start four before u =
    let total = length found.bytes in
    let rest = drop start found.bytes in
    let room = minimum (start + max_bytes) total - start in
    let width = decoded_width rest room in
    let left : length rest ≡ total - start = length-drop start found.bytes in
    let (small, inside, enough) = room_lem start max_bytes total four before in
    let bound : width ≤ room = decoded_width-le rest room in
    let decodes : is_utf8 (take width rest) ≡ true = decoded_width-is_utf8 rest room in
    let positive : 1 ≤ width = decoded_width-pos rest room u (omega arith) (rw left enough) in
    (
      width,
      positive,
      omega arith,
      omega arith,
      decodes,
      ap is_utf8 (sym (drop-drop start width found.bytes))
          ∙ sym (is_utf8-append (take width rest) (drop width rest) decodes)
          ∙ ap is_utf8 (take-append-drop width rest)
          ∙ u,
      ground arith,
    )

-- The chunk of an empty body is the empty one.
chunk_at_empty :
    (n : CursorPlatform) (operation_id : String) (found : Retrieved) (max_bytes : ℕ)
    → length found.bytes ≡ 0
    → chunk_at n operation_id found max_bytes 0
      ≡ ok (retrieved (chunk_of n operation_id found max_bytes 0 0))
unfolding chunk_at decoded_width
chunk_at_empty n operation_id found max_bytes empty =
    let e : minimum (0 + max_bytes) (length found.bytes) - 0 ≡ 0 = ground arith in
    rw (e, decoded_width) (ground arith)

-- What a caller has read who follows the cursors, `none` where the rounds run out or no Result is
-- accepted.
abbrev go_on :
    (Option String → Except ReadError (Option (List ℕ)))
    → List ℕ
    → Option String
    → Except ReadError (Option (List ℕ))
go_on later body none = ok (some body)
go_on later body (some cursor) =
    later (some cursor) >>= λ rest. ok (option_map (λ more. body ++ more) rest)

abbrev follow :
    (Option String → Except ReadError (Option (List ℕ)))
    → ResultChunkReadOutcome
    → Except ReadError (Option (List ℕ))
follow later (not_accepted _) = ok none
follow later (retrieved chunk) = go_on later chunk.body chunk.next_cursor

module _ (n : CursorPlatform) (p : Platform) {S : Type 0} (b : Storage S) where
  pub read_chunks : S → String → ℕ → ℕ → Option String → Except ReadError (Option (List ℕ))
  read_chunks s operation_id max_bytes zero cursor = ok none
  read_chunks s operation_id max_bytes (suc rounds) cursor =
      read_result_chunk n p b s operation_id max_bytes cursor
      >>= follow (read_chunks s operation_id max_bytes rounds)

module _ (n : CursorPlatform) (laws : CursorLaws n) (p : Platform) {S : Type 0} (b : Storage S)
    (s : S) (operation_id : String) (snapshot : OperationSnapshot) (accepted : AcceptedResult)
    (found : Retrieved) (max_bytes : ℕ) (stored : stored_snapshot p b s operation_id ≡ ok snapshot)
    (has : snapshot.operation.result ≡ some accepted)
    (got : retrieve_result p b s operation_id accepted ≡ ok found) (four : 4 ≤ max_bytes)
    (max_safe : is_safe_integer max_bytes ≡ true)
    (total_safe : is_safe_integer (length found.bytes) ≡ true) where
  read_first :
      read_result_chunk n p b s operation_id max_bytes none
      ≡ chunk_at n operation_id found max_bytes 0
  unfolding read_result_chunk
  read_first = ground arith

  read_next :
      (start : ℕ)
      → start < length found.bytes
      → read_result_chunk n p b s operation_id max_bytes
          (some (encode_cursor n (payload_at n operation_id found max_bytes start)))
        ≡ chunk_at n operation_id found max_bytes start
  unfolding read_result_chunk
  read_next start before = ground (
    arith,
    decode-encode_cursor n laws (payload_at n operation_id found max_bytes start) operation_id refl
        max_safe (ground arith),
    eq_iff operation_id operation_id,
    eq_iff found.acceptance_id found.acceptance_id,
    eq_iff found.result.digest found.result.digest,
  )

  cursor_at : ℕ → String
  cursor_at start = encode_cursor n (payload_at n operation_id found max_bytes start)

  -- The characters from `start` on are those of a chunk and of what follows it.
  decode_cut :
      (start width : ℕ)
      → is_utf8 (take width (drop start found.bytes)) ≡ true
      → decode (drop start found.bytes)
        ≡ decode (take width (drop start found.bytes)) ++ decode (drop (start + width) found.bytes)
  decode_cut start width u =
      let rest = drop start found.bytes in
      sym (ap decode (take-append-drop width rest))
      ∙ decode-append (take width rest) (drop width rest) u
      ∙ ap (λ x. decode (take width rest) ++ decode x) (drop-drop start width found.bytes)

  module _ (rounds : ℕ)
      (later : (start : ℕ)
        → start < length found.bytes
        → length found.bytes ≤ start + rounds
        → is_utf8 (drop start found.bytes) ≡ true
        → read_chunks n p b s operation_id max_bytes rounds (some (cursor_at start))
          ≡ ok (some (decode (drop start found.bytes)))) where
    read_step :
        (start : ℕ) (cursor : Option String)
        → read_result_chunk n p b s operation_id max_bytes cursor
          ≡ chunk_at n operation_id found max_bytes start
        → start < length found.bytes
        → length found.bytes ≤ start + suc rounds
        → is_utf8 (drop start found.bytes) ≡ true
        → read_chunks n p b s operation_id max_bytes (suc rounds) cursor
          ≡ ok (some (decode (drop start found.bytes)))
    unfolding read_chunks cursor_at
    read_step start cursor reads before enough u =
        let (width, positive, inside, small, decodes, rest_decodes, gives) =
          chunk_at_cuts n operation_id found max_bytes start four before u in
        let cut = decode_cut start width decodes in
        let end_byte = start + width in
        elim (Bool-cases (end_byte == length found.bytes)) [
          | inl last ↦
              let ended : drop end_byte found.bytes ≡ [] =
                drop-nil_of_le end_byte found.bytes (ground arith) in
              rw (reads, gives, last)
                (ap (λ x. ok (some x))
                  (sym (append-nil _)
                    ∙ ap (λ x. decode (take width (drop start found.bytes)) ++ x)
                        (sym decode-nil ∙ sym (ap decode ended))
                    ∙ sym cut))
          | inr more ↦
              let next = later end_byte (ground arith) (omega arith) rest_decodes in
              rw (reads, gives, more, next) (ap (λ x. ok (some x)) (sym cut))
        ]

  rest_read :
      (rounds start : ℕ)
      → start < length found.bytes
      → length found.bytes ≤ start + rounds
      → is_utf8 (drop start found.bytes) ≡ true
      → read_chunks n p b s operation_id max_bytes rounds (some (cursor_at start))
        ≡ ok (some (decode (drop start found.bytes)))
  unfolding cursor_at
  rest_read zero start before enough u = absurd (omega arith)
  rest_read (suc rounds) start before enough u =
      read_step rounds (rest_read rounds) start _ (read_next start before) before enough u

  -- If an accepted Result is retrieved, its bytes are UTF-8, chunks of a safe size of at least 4 are
  -- asked for, the body's length is a safe integer, and parsing gives back the cursors that were
  -- printed, then following the cursors from the first chunk on ends within as many chunks as the body
  -- has bytes, and one, and gives the text of the whole body.
  pub read_chunks-whole :
      is_utf8 found.bytes ≡ true
      → read_chunks n p b s operation_id max_bytes (suc (length found.bytes)) none
        ≡ ok (some (decode found.bytes))
  unfolding read_chunks chunk_at
  read_chunks-whole u = elim (Bool-cases (ltb 0 (length found.bytes))) [
    | inl before ↦
        read_step (length found.bytes) (rest_read (length found.bytes)) 0 none read_first
          (ltb→lt 0 _ before) (omega arith) u
    | inr not_before ↦
        let empty : length found.bytes ≡ 0 = ground arith in
        let last : 0 + 0 == length found.bytes ≡ true = ground arith in
        rw (read_first, chunk_at_empty n operation_id found max_bytes empty, last)
          (ap (λ (x : List ℕ). ok (some (decode x)))
            (sym (drop-nil_of_le 0 found.bytes (omega arith))))
  ]
