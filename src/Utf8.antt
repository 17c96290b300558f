-- ===== src/Utf8.antt =====
-- `new TextDecoder("utf-8", { fatal: true })` as the code uses it: which byte rows decode. The
-- decoder's state is how many continuation bytes it still needs, and the bounds of the next one.
-- And `buffer.toString("utf8")`, which puts U+FFFD where the other throws.
pub mod Prefixes
pub mod Decoded
pub mod Encoded
use pions.Prelude.{
  ℕ, zero, suc, ◌+◌, ◌*◌, ◌%◌, Bool, true, false, ◌&&◌, Option, none, some, List, [], ◌∷◌, leb,
  ◌==◌, if◌then◌else◌,
}

pub record Need : Type 0 where
  pub more : ℕ
  pub lower : ℕ
  pub upper : ℕ

abbrev pub in_range : ℕ → ℕ → ℕ → Bool
in_range lo hi c = leb lo c && leb c hi

abbrev pub need : ℕ → ℕ → ℕ → Option Need
need n lo hi = some (record { more = n; lower = lo; upper = hi })

-- What a first byte asks for; `none` is an error.
unfoldable pub lead : ℕ → Option Need
lead c =
    if leb c 0x7f
    then need 0 0x80 0xbf
    else if in_range 0xc2 0xdf c
    then need 1 0x80 0xbf
    else if c == 0xe0
    then need 2 0xa0 0xbf
    else if c == 0xed
    then need 2 0x80 0x9f
    else if in_range 0xe1 0xef c
    then need 2 0x80 0xbf
    else if c == 0xf0
    then need 3 0x90 0xbf
    else if in_range 0xf1 0xf3 c
    then need 3 0x80 0xbf
    else if c == 0xf4
    then need 3 0x80 0x8f
    else none

-- Decoding goes on from a state, and may end only between two characters.
unfoldable pub decodes_from : ℕ → ℕ → ℕ → List ℕ → Bool
decodes_from zero lo hi [] = true
decodes_from (suc n) lo hi [] = false
decodes_from zero lo hi (c ∷ r) = elim (lead c) [
  | none ↦ false
  | some x ↦ decodes_from x.more x.lower x.upper r
]
decodes_from (suc n) lo hi (c ∷ r) = in_range lo hi c && decodes_from n 0x80 0xbf r

unfoldable pub is_utf8 : List ℕ → Bool
unfolding decodes_from lead
is_utf8 bytes = decodes_from 0 0x80 0xbf bytes

-- The bits that a first byte contributes, before as many continuation bytes.
abbrev pub lead_bits : ℕ → ℕ → ℕ
lead_bits zero c = c
lead_bits (suc zero) c = c % 32
lead_bits (suc (suc zero)) c = c % 16
lead_bits _ c = c % 8

-- The characters of a byte row, with the bits so far and the bytes that the first one still needs.
unfoldable pub decode_from : ℕ → ℕ → ℕ → ℕ → List ℕ → List ℕ
decode_from zero lo hi bits [] = bits ∷ []
decode_from (suc n) lo hi bits [] = 0xfffd ∷ []
decode_from zero lo hi bits (c ∷ r) = bits ∷ elim (lead c) [
  | none ↦ decode_from 0 0x80 0xbf 0xfffd r
  | some x ↦ decode_from x.more x.lower x.upper (lead_bits x.more c) r
]
decode_from (suc n) lo hi bits (c ∷ r) = elim (in_range lo hi c) [
  | true ↦ decode_from n 0x80 0xbf (bits * 64 + c % 64) r
  | false ↦ 0xfffd ∷ elim (lead c) [
    | none ↦ decode_from 0 0x80 0xbf 0xfffd r
    | some x ↦ decode_from x.more x.lower x.upper (lead_bits x.more c) r
  ]
]

-- `bytes.toString("utf8")`, as code points
unfoldable pub decode : List ℕ → List ℕ
unfolding decode_from lead
decode [] = []
decode (c ∷ r) = elim (lead c) [
  | none ↦ decode_from 0 0x80 0xbf 0xfffd r
  | some x ↦ decode_from x.more x.lower x.upper (lead_bits x.more c) r
]
