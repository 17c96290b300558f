-- ===== src/Utf8/Decoded.antt =====
-- The characters of a row of bytes, and of two rows one after the other.
use pions.Prelude.{
  ℕ, zero, suc, ◌+◌, ◌*◌, ◌%◌, ◌≡◌, refl, true, List, [], ◌∷◌, ◌++◌, Option-cases, &&-eq-true, inl,
  inr, arith,
}
use pions.Utf8.{lead, lead_bits, in_range, decodes_from, is_utf8, decode_from, decode}

between_decoded : (lo hi bits : ℕ) (ys : List ℕ) → decode_from 0 lo hi bits ys ≡ bits ∷ decode ys
unfolding decode_from decode
between_decoded lo hi bits [] = refl
between_decoded lo hi bits (y ∷ ys) = refl

-- The characters of two rows, of which the first decodes, are those of one and the other.
decode_from-append :
    (n lo hi bits : ℕ) (xs ys : List ℕ)
    → decodes_from n lo hi xs ≡ true
    → decode_from n lo hi bits (xs ++ ys) ≡ decode_from n lo hi bits xs ++ decode ys
unfolding decodes_from decode_from
decode_from-append zero lo hi bits [] ys h = between_decoded lo hi bits ys
decode_from-append (suc n) lo hi bits [] ys h = cc
decode_from-append zero lo hi bits (c ∷ r) ys h = elim (Option-cases (lead c)) [
  | inl bad ↦ ground arith
  | inr (x, good) ↦
      ground (arith, decode_from-append x.more x.lower x.upper (lead_bits x.more c) r ys)
]
decode_from-append (suc n) lo hi bits (c ∷ r) ys h =
    let (first, later) = &&-eq-true (in_range lo hi c) (decodes_from n 0x80 0xbf r) h in
    ground (arith, first, decode_from-append n 0x80 0xbf (bits * 64 + c % 64) r ys later)

pub decode-nil : decode [] ≡ []
unfolding decode
decode-nil = refl

pub decode-append :
    (xs ys : List ℕ) → is_utf8 xs ≡ true → decode (xs ++ ys) ≡ decode xs ++ decode ys
unfolding is_utf8 decode decodes_from
decode-append [] ys h = refl
decode-append (c ∷ r) ys h = elim (Option-cases (lead c)) [
  | inl bad ↦ ground arith
  | inr (x, good) ↦
      ground (arith, decode_from-append x.more x.lower x.upper (lead_bits x.more c) r ys)
]
