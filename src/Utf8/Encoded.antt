-- ===== src/Utf8/Encoded.antt =====
-- Encoding a row of characters as UTF-8, and decoding it again.
use pions.Prelude.{
  ℕ, ◌+◌, ◌*◌, ◌/◌, ◌%◌, ◌≤◌, ◌<◌, ◌≡◌, ap, ◌∙◌, Bool, true, ◌&&◌, ◌||◌, List, [], ◌∷◌, ◌++◌, ltb,
  leb, ◌==◌, all, Bool-cases, &&-eq-true, inl, inr, arith, if◌then◌else◌,
}
use pions.Text.{encode, encode_all}
use pions.Utf8.{lead, need, decodes_from, is_utf8, decode_from, decode}
use pions.Utf8.Prefixes.{is_utf8-nil, is_utf8-append}
use pions.Utf8.Decoded.{decode-nil, decode-append}

-- A Unicode scalar value, which a surrogate is not.
abbrev pub is_scalar : ℕ → Bool
is_scalar c = ltb c 0xd800 || leb 0xe000 c && ltb c 0x110000

lead-two : (a : ℕ) → 2 ≤ a → a < 32 → lead (192 + a) ≡ need 1 0x80 0xbf
unfolding lead
lead-two a low high = ground arith

lead-three :
    (a : ℕ)
    → a < 16
    → lead (224 + a) ≡ (
        if a == 0 then need 2 0xa0 0xbf else if a == 13 then need 2 0x80 0x9f else need 2 0x80 0xbf)
unfolding lead
lead-three a high = ground arith

lead-four :
    (a : ℕ)
    → a < 5
    → lead (240 + a)
      ≡ (if a == 0 then need 3 0x90 0xbf else if a == 4 then need 3 0x80 0x8f else need 3 0x80 0xbf)
unfolding lead
lead-four a high = ground arith

low : (a b : ℕ) → a < 64 → (b * 64 + (128 + a) % 64) ≡ b * 64 + a
low a b h = omega arith

-- One character, by the number of its bytes.
one_byte : (c : ℕ) → c < 128 → (is_utf8 (encode c) ≡ true) × (decode (encode c) ≡ c ∷ [])
unfolding encode is_utf8 decodes_from lead decode decode_from
one_byte c h = (ground arith, ground arith)

two_bytes :
    (c : ℕ) → 128 ≤ c → c < 2048 → (is_utf8 (encode c) ≡ true) × (decode (encode c) ≡ c ∷ [])
unfolding encode is_utf8 decodes_from decode decode_from
two_bytes c h k =
    let l = lead-two (c / 64) (omega arith) (omega arith) in
    let bits : (192 + c / 64) % 32 * 64 + (128 + c % 64) % 64 ≡ c = omega arith in
    (ground (arith, l), ground (arith, l, bits))

three_bytes :
    (c : ℕ)
    → 2048 ≤ c
    → c < 65536
    → is_scalar c ≡ true
    → (is_utf8 (encode c) ≡ true) × (decode (encode c) ≡ c ∷ [])
unfolding encode is_utf8 decodes_from decode decode_from
three_bytes c h k scalar =
    let l = lead-three (c / 4096) (omega arith) in
    let bits : ((224 + c / 4096) % 16 * 64 + (128 + c / 64 % 64) % 64) * 64 + (128 + c % 64) % 64
        ≡ c =
      omega arith in
    let first : c / 4096 ≡ 0 → 0xa0 ≤ 128 + c / 64 % 64 = λ z. omega arith in
    let third : c / 4096 ≡ 13 → 128 + c / 64 % 64 ≤ 0x9f = λ z. ground arith in
    elim (Bool-cases (c / 4096 == 0)) [
      | inl z ↦ let e = first (ground arith) in (ground (arith, l, e), ground (arith, l, bits, e))
      | inr nz ↦ elim (Bool-cases (c / 4096 == 13)) [
        | inl y ↦ let e = third (ground arith) in (ground (arith, l, e), ground (arith, l, bits, e))
        | inr ny ↦ (ground (arith, l), ground (arith, l, bits))
      ]
    ]

four_bytes :
    (c : ℕ) → 65536 ≤ c → c < 0x110000 → (is_utf8 (encode c) ≡ true) × (decode (encode c) ≡ c ∷ [])
unfolding encode is_utf8 decodes_from decode decode_from
four_bytes c h k =
    let l = lead-four (c / 262144) (omega arith) in
    let bits : (((240 + c / 262144) % 8 * 64 + (128 + c / 4096 % 64) % 64) * 64
              + (128 + c / 64 % 64) % 64)
            * 64
          + (128 + c % 64) % 64
        ≡ c =
      omega arith in
    let first : c / 262144 ≡ 0 → 0x90 ≤ 128 + c / 4096 % 64 = λ z. omega arith in
    let last : c / 262144 ≡ 4 → 128 + c / 4096 % 64 ≤ 0x8f = λ z. omega arith in
    elim (Bool-cases (c / 262144 == 0)) [
      | inl z ↦ let e = first (ground arith) in (ground (arith, l, e), ground (arith, l, bits, e))
      | inr nz ↦ elim (Bool-cases (c / 262144 == 4)) [
        | inl y ↦ let e = last (ground arith) in (ground (arith, l, e), ground (arith, l, bits, e))
        | inr ny ↦ (ground (arith, l), ground (arith, l, bits))
      ]
    ]

encode-roundtrip :
    (c : ℕ) → is_scalar c ≡ true → (is_utf8 (encode c) ≡ true) × (decode (encode c) ≡ c ∷ [])
encode-roundtrip c scalar = elim (Bool-cases (ltb c 128)) [
  | inl one ↦ one_byte c (ground arith)
  | inr more ↦ elim (Bool-cases (ltb c 2048)) [
    | inl two ↦ two_bytes c (ground arith) (ground arith)
    | inr more_yet ↦ elim (Bool-cases (ltb c 65536)) [
      | inl three ↦ three_bytes c (ground arith) (ground arith) scalar
      | inr four ↦ four_bytes c (ground arith) (ground arith)
    ]
  ]
]

-- What is encoded decodes, and gives the characters back.
pub encode_all-is_utf8 : (cs : List ℕ) → all is_scalar cs ≡ true → is_utf8 (encode_all cs) ≡ true
unfolding encode_all
encode_all-is_utf8 [] h = is_utf8-nil
encode_all-is_utf8 (c ∷ cs) h =
    let (first, rest) = &&-eq-true (is_scalar c) (all is_scalar cs) h in
    is_utf8-append (encode c) (encode_all cs) (encode-roundtrip c first).0
    ∙ encode_all-is_utf8 cs rest

pub decode-encode_all : (cs : List ℕ) → all is_scalar cs ≡ true → decode (encode_all cs) ≡ cs
unfolding encode_all
decode-encode_all [] h = decode-nil
decode-encode_all (c ∷ cs) h =
    let (first, rest) = &&-eq-true (is_scalar c) (all is_scalar cs) h in
    let (utf8, back) = encode-roundtrip c first in
    decode-append (encode c) (encode_all cs) utf8
    ∙ ap (λ x. x ++ decode (encode_all cs)) back
    ∙ ap (λ x. c ∷ x) (decode-encode_all cs rest)
