-- ===== src/OperationReader/Widths.antt =====
-- src/internal/operation-reader.ts: the loop that ends a chunk between two characters.
use pions.Prelude.{
  ℕ, zero, suc, ◌≤◌, ◌≡◌, true, List, [], take, length, leb, leb→le, sym, ap, ◌∙◌, ◌∷◌, ◌⊎◌,
  Bool-cases, inl, inr, arith,
}
use pions.Utf8.{is_utf8}
use pions.Utf8.Prefixes.{is_utf8-nil, first_character}
use pions.OperationReader.Chunks.{decoded_width}

-- What the loop stops at decodes.
pub decoded_width-is_utf8 :
    (rest : List ℕ) (n : ℕ) → is_utf8 (take (decoded_width rest n) rest) ≡ true
unfolding decoded_width
decoded_width-is_utf8 rest zero = is_utf8-nil
decoded_width-is_utf8 rest (suc n) = elim (Bool-cases (is_utf8 (take (suc n) rest))) [
  | inl good ↦ rw good good
  | inr bad ↦ rw bad (decoded_width-is_utf8 rest n)
]

pub decoded_width-le : (rest : List ℕ) (n : ℕ) → decoded_width rest n ≤ n
unfolding decoded_width
decoded_width-le rest zero = omega arith
decoded_width-le rest (suc n) = ground (arith, decoded_width-le rest n)

-- No shorter prefix that decodes is preferred.
pub decoded_width-ge :
    (rest : List ℕ) (n k : ℕ) → k ≤ n → is_utf8 (take k rest) ≡ true → k ≤ decoded_width rest n
unfolding decoded_width
decoded_width-ge rest zero k h u = omega arith
decoded_width-ge rest (suc n) k h u = elim (Bool-cases (is_utf8 (take (suc n) rest))) [
  | inl good ↦ rw good h
  | inr bad ↦ elim (Bool-cases (leb k n)) [
    | inl less ↦ rw bad (decoded_width-ge rest n k (leb→le k n less) u)
    | inr not_less ↦
        let e : k ≡ suc n = ground arith in
        absurd (cc (sym u ∙ ap (λ j. is_utf8 (take j rest)) e ∙ bad))
  ]
]

-- With room for four bytes, a part of a text that is not at its end gives a character or more.
pub decoded_width-pos :
    (rest : List ℕ) (n : ℕ)
    → is_utf8 rest ≡ true
    → 1 ≤ length rest
    → (4 ≤ n) ⊎ (length rest ≤ n)
    → 1 ≤ decoded_width rest n
decoded_width-pos [] n u h room = absurd (omega arith)
decoded_width-pos (c ∷ r) n u h room =
    let (k, one, four, within, decodes) = first_character c r u in
    let fits : k ≤ n = elim room [ inl large ↦ omega arith | inr whole ↦ omega arith ] in
    omega (arith, decoded_width-ge (c ∷ r) n k fits decodes)
