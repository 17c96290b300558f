-- ===== src/Examples/Cursors.antt =====
-- A concrete printer and parser of cursors, for src/internal/operation-reader.ts: texts and numbers
-- with a mark before each character or unit, and a full stop at their end.
use Prim.Native.Char.{code}
use pions.Prelude.{
  ℕ, zero, suc, String, ◌≡◌, refl, true, Option, none, some, ◌==◌, if◌then◌else◌, arith,
}
use pions.OperationReader.Cursor.{
  ℤ, pos, negsuc, ResultCursorPayload, PartialPayload, PartialEnvelope, CursorPlatform, CursorLaws,
  partial, ◌>>=◌,
}

text_then : String → String → String
text_then String.[] r = String.◌∷◌ "." r
text_then (String.◌∷◌ c s) r = String.◌∷◌ "x" (String.◌∷◌ c (text_then s r))

number_then : ℕ → String → String
number_then zero r = String.◌∷◌ "." r
number_then (suc n) r = String.◌∷◌ "x" (number_then n r)

integer_then : ℤ → String → String
unfolding number_then
integer_then (pos n) r = String.◌∷◌ "+" (number_then n r)
integer_then (negsuc n) r = String.◌∷◌ "-" (number_then n r)

read_text : String → Option (String × String)
read_text String.[] = none
read_text (String.◌∷◌ k String.[]) = if code k == b'.' then some ("", "") else none
read_text (String.◌∷◌ k (String.◌∷◌ c r)) =
    let rest = read_text r >>= λ x. some (String.◌∷◌ c x.0, x.1) in
    if code k == b'.' then some ("", String.◌∷◌ c r) else rest

read_number : String → Option (ℕ × String)
read_number String.[] = none
read_number (String.◌∷◌ k r) =
    let rest = read_number r >>= λ x. some (suc x.0, x.1) in
    if code k == b'.' then some (zero, r) else rest

read_integer : String → Option (ℤ × String)
unfolding read_number
read_integer String.[] = none
read_integer (String.◌∷◌ k r) =
    read_number r >>= λ x. some (if code k == b'+' then pos x.0 else negsuc x.0, x.1)

read-text_then : (s r : String) → read_text (text_then s r) ≡ some (s, r)
unfolding read_text text_then
read-text_then String.[] String.[] = refl
read-text_then String.[] (String.◌∷◌ c r) = refl
read-text_then (String.◌∷◌ c s) r = ground (arith, read-text_then s r)

read-number_then : (n : ℕ) (r : String) → read_number (number_then n r) ≡ some (n, r)
unfolding read_number number_then
read-number_then zero r = refl
read-number_then (suc n) r = ground (arith, read-number_then n r)

read-integer_then : (n : ℤ) (r : String) → read_integer (integer_then n r) ≡ some (n, r)
unfolding read_integer integer_then
read-integer_then (pos n) r = ground (arith, read-number_then n r)
read-integer_then (negsuc n) r = ground (arith, read-number_then n r)

print_payload : ResultCursorPayload → String
unfolding text_then integer_then
print_payload payload = integer_then payload.version (
    text_then payload.operation_id (
      text_then payload.acceptance_id (
        text_then payload.digest
          (integer_then payload.max_bytes (integer_then payload.start_byte "")))))

read_payload : String → Option PartialPayload
unfolding read_text read_integer
read_payload document = do
  version ← read_integer document
  operation_id ← read_text version.1
  acceptance_id ← read_text operation_id.1
  digest ← read_text acceptance_id.1
  max_bytes ← read_integer digest.1
  start_byte ← read_integer max_bytes.1
  some (record {
    version = some version.0;
    operation_id = some operation_id.0;
    acceptance_id = some acceptance_id.0;
    digest = some digest.0;
    max_bytes = some max_bytes.0;
    start_byte = some start_byte.0;
  })

print_envelope : String → String → String
unfolding text_then
print_envelope document checksum = text_then document (text_then checksum "")

read_envelope : String → Option PartialEnvelope
unfolding read_text
read_envelope text = do
  document ← read_text text
  checksum ← read_text document.1
  some (record { document = some document.0; checksum = some checksum.0 })

read-print_payload :
    (payload : ResultCursorPayload) → read_payload (print_payload payload) ≡ some (partial payload)
unfolding read_payload print_payload
read-print_payload payload = simp (read-integer_then, read-text_then)

read-print_envelope :
    (document checksum : String)
    → read_envelope (print_envelope document checksum)
      ≡ some (record { document = some document; checksum = some checksum })
unfolding read_envelope print_envelope
read-print_envelope document checksum = simp read-text_then

unfoldable pub cursor_platform : CursorPlatform
unfolding print_payload read_payload print_envelope read_envelope
cursor_platform = record {
  sha256_base64url = λ document. document;
  stringify_payload = print_payload;
  parse_payload = read_payload;
  stringify_envelope = print_envelope;
  parse_envelope = read_envelope;
  to_base64url = λ text. text;
  from_base64url = λ cursor. cursor;
  is_canonical = λ cursor. true;
}

pub cursor_laws : CursorLaws cursor_platform
unfolding cursor_platform
cursor_laws = record {
  parse-stringify_payload = read-print_payload;
  parse-stringify_envelope = read-print_envelope;
  from-to_base64url = λ text. refl;
  to_base64url-is_canonical = λ text. refl;
}
