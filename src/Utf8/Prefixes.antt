-- ===== src/Utf8/Prefixes.antt =====
-- Prefixes of a row of bytes that decode: UTF-8 cut between two characters.
use pions.Prelude.{
  ℕ, zero, suc, ◌≤◌, ◌≡◌, refl, true, some, List, [], ◌∷◌, ◌++◌, length, take, Option-cases,
  &&-eq-true, ◌&&◌, ap, ◌∙◌, inl, inr, arith,
}
use pions.Utf8.{in_range, Need, lead, decodes_from, is_utf8}

between_characters : (lo hi : ℕ) (ys : List ℕ) → decodes_from 0 lo hi ys ≡ is_utf8 ys
unfolding decodes_from is_utf8
between_characters lo hi [] = refl
between_characters lo hi (y ∷ ys) = refl

-- After a row that decodes, the decoder is between two characters.
pub decodes_from-append :
    (n lo hi : ℕ) (xs ys : List ℕ)
    → decodes_from n lo hi xs ≡ true
    → decodes_from n lo hi (xs ++ ys) ≡ is_utf8 ys
unfolding decodes_from
decodes_from-append zero lo hi [] ys h = between_characters lo hi ys
decodes_from-append (suc n) lo hi [] ys h = cc
decodes_from-append zero lo hi (c ∷ r) ys h = elim (Option-cases (lead c)) [
  | inl bad ↦ ground arith
  | inr (x, good) ↦ ground (arith, decodes_from-append x.more x.lower x.upper r ys)
]
decodes_from-append (suc n) lo hi (c ∷ r) ys h =
    let (first, later) = &&-eq-true (in_range lo hi c) (decodes_from n 0x80 0xbf r) h in
    ap (λ b. b && decodes_from n 0x80 0xbf (r ++ ys)) first
    ∙ decodes_from-append n 0x80 0xbf r ys later

pub is_utf8-nil : is_utf8 [] ≡ true
unfolding is_utf8 decodes_from
is_utf8-nil = refl

pub is_utf8-append : (xs ys : List ℕ) → is_utf8 xs ≡ true → is_utf8 (xs ++ ys) ≡ is_utf8 ys
unfolding is_utf8
is_utf8-append xs ys h = decodes_from-append 0 0x80 0xbf xs ys h

-- Continuation bytes that decode are there.
continuation_bytes :
    (n lo hi : ℕ) (r : List ℕ)
    → decodes_from n lo hi r ≡ true
    → (n ≤ length r) × (decodes_from n lo hi (take n r) ≡ true)
unfolding decodes_from
continuation_bytes zero lo hi r h = (omega arith, refl)
continuation_bytes (suc n) lo hi [] h = cc
continuation_bytes (suc n) lo hi (c ∷ r) h = ground (arith, continuation_bytes n 0x80 0xbf r)

lead_bound : (c : ℕ) (x : Need) → lead c ≡ some x → x.more ≤ 3
unfolding lead
lead_bound c x h = ground arith

-- A row that decodes and is not empty begins with a character.
pub first_character :
    (c : ℕ) (r : List ℕ)
    → is_utf8 (c ∷ r) ≡ true
    → (k : ℕ) × (1 ≤ k) × (k ≤ 4) × (k ≤ length (c ∷ r)) × (is_utf8 (take k (c ∷ r)) ≡ true)
unfolding is_utf8 decodes_from
first_character c r h = elim (Option-cases (lead c)) [
  | inl bad ↦ ground arith
  | inr (x, good) ↦
      let (enough, decodes) = continuation_bytes x.more x.lower x.upper r (ground arith) in
      (
        suc x.more,
        omega arith,
        omega (arith, lead_bound c x good),
        omega (arith, enough),
        ground arith,
      )
]
