-- ===== src/OperationReader/Cursor.antt =====
-- src/internal/operation-reader.ts: `encodeCursor` and `decodeCursor`. JSON, base64url and SHA-256
-- are Node's.
use pions.Prelude.{
  ℕ, suc, String, ◌≡◌, Bool, true, false, not, Option, none, some, ◌==◌, str_eq, eq_iff, arith,
  ◌&&◌, if◌then◌else◌,
}
use pions.Except.{Except, ok, err}
use pions.Text.{is_safe_integer}
use pions.OperationReader.{ResultCursorFailureReason, invalid, wrong_operation}

-- A number of a document that is an integer; `negsuc n` is -(n + 1).
pub data ℤ : Type 0 where
  pos : ℕ → ℤ
  negsuc : ℕ → ℤ

pub record ResultCursorPayload : Type 0 where
  pub version : ℤ
  pub operation_id : String
  pub acceptance_id : String
  pub digest : String
  pub max_bytes : ℤ
  pub start_byte : ℤ

-- `Partial<ResultCursorPayload>` of a parsed document: a text that is no string, and a number that
-- is no integer, count as missing.
pub record PartialPayload : Type 0 where
  pub version : Option ℤ
  pub operation_id : Option String
  pub acceptance_id : Option String
  pub digest : Option String
  pub max_bytes : Option ℤ
  pub start_byte : Option ℤ

pub record PartialEnvelope : Type 0 where
  pub document : Option String
  pub checksum : Option String

-- What is taken from Node.
pub record CursorPlatform : Type 0 where
  -- `createHash("sha256").update(document).digest("base64url")`
  pub sha256_base64url : String → String
  -- `JSON.stringify(payload)`, and `JSON.parse`, where `none` is a `SyntaxError`
  pub stringify_payload : ResultCursorPayload → String
  pub parse_payload : String → Option PartialPayload
  -- `JSON.stringify({ document, checksum })`, and `JSON.parse`
  pub stringify_envelope : String → String → String
  pub parse_envelope : String → Option PartialEnvelope
  -- `Buffer.from(text).toString("base64url")`
  pub to_base64url : String → String
  -- `Buffer.from(cursor, "base64url").toString("utf8")`
  pub from_base64url : String → String
  -- `Buffer.from(cursor, "base64url").toString("base64url") === cursor`
  pub is_canonical : String → Bool

abbrev pub partial : ResultCursorPayload → PartialPayload
partial payload = record {
  version = some payload.version;
  operation_id = some payload.operation_id;
  acceptance_id = some payload.acceptance_id;
  digest = some payload.digest;
  max_bytes = some payload.max_bytes;
  start_byte = some payload.start_byte;
}

-- Parsing gives back what was printed.
pub record CursorLaws (n : CursorPlatform) : Type 0 where
  pub parse-stringify_payload :
      (payload : ResultCursorPayload)
      → n.parse_payload (n.stringify_payload payload) ≡ some (partial payload)
  pub parse-stringify_envelope :
      (document checksum : String)
      → n.parse_envelope (n.stringify_envelope document checksum)
        ≡ some (record { document = some document; checksum = some checksum })
  pub from-to_base64url : (text : String) → n.from_base64url (n.to_base64url text) ≡ text
  pub to_base64url-is_canonical : (text : String) → n.is_canonical (n.to_base64url text) ≡ true

infixl 5 ◌>>=◌
abbrev pub ◌>>=◌ : {A B : Type 0} → Option A → (A → Option B) → Option B
none >>= next = none
some found >>= next = next found

abbrev pub is_one : ℤ → Bool
is_one (pos n) = n == 1
is_one (negsuc n) = false

-- `Number.isSafeInteger`
abbrev pub is_safe : ℤ → Bool
is_safe (pos n) = is_safe_integer n
is_safe (negsuc n) = is_safe_integer (suc n)

-- The payload of which every field has its type and is in range.
abbrev pub complete_payload : PartialPayload → Option ResultCursorPayload
complete_payload parsed = do
  version ← parsed.version
  operation_id ← parsed.operation_id
  acceptance_id ← parsed.acceptance_id
  digest ← parsed.digest
  max_bytes ← parsed.max_bytes
  start_byte ← parsed.start_byte
  let payload : ResultCursorPayload = record {
    version = version;
    operation_id = operation_id;
    acceptance_id = acceptance_id;
    digest = digest;
    max_bytes = max_bytes;
    start_byte = start_byte;
  }
  if is_one version && is_safe max_bytes && is_safe start_byte then some payload else none

module _ (n : CursorPlatform) where
  unfoldable pub encode_cursor : ResultCursorPayload → String
  encode_cursor payload =
      let document = n.stringify_payload payload in
      n.to_base64url (n.stringify_envelope document (n.sha256_base64url document))

  -- The document of an envelope with the right checksum.
  abbrev pub checked_document : PartialEnvelope → Option String
  checked_document envelope = do
    document ← envelope.document
    checksum ← envelope.checksum
    if str_eq (n.sha256_base64url document) checksum then some document else none

  -- `decodeCursor` up to the comparison of the Operation; `none` is a thrown error.
  abbrev pub decode_payload : String → Option ResultCursorPayload
  decode_payload cursor = do
    decoded ← (if n.is_canonical cursor then some (n.from_base64url cursor) else none)
    envelope ← n.parse_envelope decoded
    document ← checked_document envelope
    parsed ← n.parse_payload document
    complete_payload parsed

  abbrev pub of_operation :
      String → Option ResultCursorPayload → Except ResultCursorFailureReason ResultCursorPayload
  of_operation operation_id none = err invalid
  of_operation operation_id (some payload) =
      if not (str_eq payload.operation_id operation_id) then err wrong_operation else ok payload

  unfoldable pub decode_cursor :
      String → String → Except ResultCursorFailureReason ResultCursorPayload
  decode_cursor operation_id cursor = of_operation operation_id (decode_payload cursor)

  -- A cursor of version 1 whose numbers are safe integers is read back by the reader of its Operation
  -- as the payload that it was made of, and refused by the reader of another Operation as
  -- `wrong_operation`, if parsing gives back what was printed.
  pub decode-encode_cursor :
      CursorLaws n
      → (payload : ResultCursorPayload) (operation_id : String) → is_one payload.version ≡ true
      → is_safe payload.max_bytes ≡ true
      → is_safe payload.start_byte ≡ true
      → decode_cursor operation_id (encode_cursor payload)
        ≡ (if str_eq payload.operation_id operation_id then ok payload else err wrong_operation)
  unfolding decode_cursor encode_cursor
  decode-encode_cursor laws payload operation_id v m s =
      let document = n.stringify_payload payload in
      let checksum = n.sha256_base64url document in
      ground (
        arith,
        laws.parse-stringify_payload payload,
        laws.parse-stringify_envelope document checksum,
        laws.from-to_base64url (n.stringify_envelope document checksum),
        laws.to_base64url-is_canonical (n.stringify_envelope document checksum),
        eq_iff checksum checksum,
      )
