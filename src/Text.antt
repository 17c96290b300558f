-- ===== src/Text.antt =====
-- What the program takes from the language and its library on texts and numbers: UTF-8 bytes,
-- decimal numerals in a template literal, `Number.isSafeInteger`, and the two regular expressions,
-- /^sha256:[0-9a-f]{64}$/u of src/internal/result-acceptance-transaction.ts and
-- /^[A-Za-z0-9][A-Za-z0-9._-]{0,199}$/u of src/internal/event-store/store.ts.
pub mod Decimal
use Prim.Native.Char.{code}
use Prim.Native.String.{◌++◌ as append_text}
use pions.Prelude.{
  ℕ, zero, suc, ◌+◌, ◌/◌, ◌%◌, String, Bool, true, false, ◌&&◌, ◌||◌, Option, none, some, List, [],
  ◌∷◌, ◌++◌, length, all, ltb, leb, ◌==◌, if◌then◌else◌,
}

-- `Number.isSafeInteger` of a natural number: at most 2 ^ 53 - 1
abbrev pub is_safe_integer : ℕ → Bool
is_safe_integer n = leb n 9007199254740991

abbrev pub codes : String → List ℕ
codes String.[] = []
codes (String.◌∷◌ c s) = code c ∷ codes s

-- The UTF-8 encoding of one scalar value.
unfoldable pub encode : ℕ → List ℕ
encode c =
    if ltb c 128
    then c ∷ []
    else if ltb c 2048
    then (192 + c / 64) ∷ (128 + c % 64) ∷ []
    else if ltb c 65536
    then (224 + c / 4096) ∷ (128 + c / 64 % 64) ∷ (128 + c % 64) ∷ []
    else (240 + c / 262144) ∷ (128 + c / 4096 % 64) ∷ (128 + c / 64 % 64) ∷ (128 + c % 64) ∷ []

unfoldable pub encode_all : List ℕ → List ℕ
encode_all [] = []
encode_all (c ∷ cs) = encode c ++ encode_all cs

-- `Buffer.from(s, "utf8")`
unfoldable pub utf8 : String → List ℕ
unfolding encode encode_all
utf8 s = encode_all (codes s)

digit : ℕ → String
digit zero = "0"
digit (suc zero) = "1"
digit (suc (suc zero)) = "2"
digit (suc (suc (suc zero))) = "3"
digit (suc (suc (suc (suc zero)))) = "4"
digit (suc (suc (suc (suc (suc zero))))) = "5"
digit (suc (suc (suc (suc (suc (suc zero)))))) = "6"
digit (suc (suc (suc (suc (suc (suc (suc zero))))))) = "7"
digit (suc (suc (suc (suc (suc (suc (suc (suc zero)))))))) = "8"
digit _ = "9"

decimal_fuel : ℕ → ℕ → String
decimal_fuel zero n = ""
decimal_fuel (suc fuel) n =
    let rest = append_text (decimal_fuel fuel (n / 10)) (digit (n % 10)) in
    if ltb n 10 then digit n else rest

-- `${n}`: a number has no more digits than its value and one
unfoldable pub decimal : ℕ → String
unfolding decimal_fuel digit
decimal n = decimal_fuel (suc n) n

in_range : ℕ → ℕ → ℕ → Bool
in_range lo hi c = leb lo c && leb c hi

is_hex : ℕ → Bool
unfolding in_range
is_hex c = in_range b'0' b'9' c || in_range b'a' b'f' c

is_alphanumeric : ℕ → Bool
unfolding in_range
is_alphanumeric c = in_range b'A' b'Z' c || in_range b'a' b'z' c || in_range b'0' b'9' c

is_identifier_char : ℕ → Bool
unfolding is_alphanumeric
is_identifier_char c = is_alphanumeric c || c == b'.' || c == b'_' || c == b'-'

strip_prefix : List ℕ → List ℕ → Option (List ℕ)
strip_prefix [] s = some s
strip_prefix (p ∷ ps) [] = none
strip_prefix (p ∷ ps) (c ∷ s) = if p == c then strip_prefix ps s else none

is_hex_64 : Option (List ℕ) → Bool
is_hex_64 none = false
is_hex_64 (some r) = length r == 64 && all is_hex r

-- DIGEST.test
unfoldable pub is_digest : String → Bool
unfolding is_hex is_hex_64 strip_prefix
is_digest s = is_hex_64 (strip_prefix (codes "sha256:") (codes s))

identifier_codes : List ℕ → Bool
identifier_codes [] = false
identifier_codes (c ∷ r) = is_alphanumeric c && all is_identifier_char r && leb (length r) 199

-- IDENTIFIER.test
unfoldable pub is_identifier : String → Bool
unfolding identifier_codes is_alphanumeric is_identifier_char
is_identifier s = identifier_codes (codes s)

is_base64_char : ℕ → Bool
unfolding is_alphanumeric
is_base64_char c = is_alphanumeric c || c == b'+' || c == b'/'

-- Groups of four, of which the last may be padded.
base64_codes : List ℕ → Bool
base64_codes [] = true
base64_codes (a ∷ b ∷ c ∷ d ∷ []) =
    is_base64_char a
    && is_base64_char b
    && (is_base64_char c && (is_base64_char d || d == b'=') || c == b'=' && d == b'=')
base64_codes (a ∷ b ∷ c ∷ d ∷ e ∷ r) =
    is_base64_char a
    && is_base64_char b
    && is_base64_char c
    && is_base64_char d
    && base64_codes (e ∷ r)
base64_codes _ = false

-- The test of a chunk's payload in src/internal/worker-protocol.ts.
unfoldable pub is_base64 : String → Bool
unfolding base64_codes is_base64_char
is_base64 s = base64_codes (codes s)

-- /^[0-9a-f]{64}$/u of src/internal/worker-protocol.ts
unfoldable pub is_process_instance_id : String → Bool
unfolding is_hex is_hex_64
is_process_instance_id s = is_hex_64 (some (codes s))
