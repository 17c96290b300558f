-- ===== src/Text/Decimal.antt =====
-- Template literals `${n}` of numbers.
use Prim.Native.Char.{code}
use Prim.Native.String.{◌++◌ as append_text}
use text.Mathlib.TextLemmas.{nil-append, cons-append}
use pions.Prelude.{
  ℕ, zero, suc, ◌+◌, ◌-◌, ◌*◌, ◌/◌, ◌%◌, ◌<◌, String, ◌≡◌, refl, sym, ap, ◌∙◌, inl, inr, List, [],
  ◌∷◌, ◌++◌, ltb, ltb→lt, Bool-cases, arith,
}
use pions.Text.{codes, digit, decimal_fuel, decimal}

pub codes-append : (s t : String) → codes (append_text s t) ≡ codes s ++ codes t
codes-append String.[] t = rw nil-append
codes-append (String.◌∷◌ c s) t = rw cons-append (ap (λ r. code c ∷ r) (codes-append s t))

-- The number that a row of digits stands for, read from the left.
value : ℕ → List ℕ → ℕ
value acc [] = acc
value acc (c ∷ r) = value (acc * 10 + (c - b'0')) r

value-append : (acc : ℕ) (xs ys : List ℕ) → value acc (xs ++ ys) ≡ value (value acc xs) ys
unfolding value
value-append acc [] ys = refl
value-append acc (x ∷ xs) ys = value-append (acc * 10 + (x - b'0')) xs ys

value-digit : (acc n : ℕ) → n < 10 → value acc (codes (digit n)) ≡ acc * 10 + n
unfolding value digit
value-digit acc zero h = omega arith
value-digit acc (suc zero) h = omega arith
value-digit acc (suc (suc zero)) h = omega arith
value-digit acc (suc (suc (suc zero))) h = omega arith
value-digit acc (suc (suc (suc (suc zero)))) h = omega arith
value-digit acc (suc (suc (suc (suc (suc zero))))) h = omega arith
value-digit acc (suc (suc (suc (suc (suc (suc zero)))))) h = omega arith
value-digit acc (suc (suc (suc (suc (suc (suc (suc zero))))))) h = omega arith
value-digit acc (suc (suc (suc (suc (suc (suc (suc (suc zero)))))))) h = omega arith
value-digit acc (suc (suc (suc (suc (suc (suc (suc (suc (suc n))))))))) h = omega arith

value-decimal_fuel : (fuel n : ℕ) → n < fuel → value 0 (codes (decimal_fuel fuel n)) ≡ n
unfolding decimal_fuel
value-decimal_fuel zero n h = absurd (omega arith)
value-decimal_fuel (suc fuel) n h = elim (Bool-cases (ltb n 10)) [
  | inl small ↦ rw small (omega (arith, value-digit 0 n (ltb→lt n 10 small)))
  | inr large ↦
      rw
        (
          large,
          codes-append,
          value-append,
          value-digit (value 0 (codes (decimal_fuel fuel (n / 10)))) (n % 10) (omega arith),
        )
        (omega (arith, value-decimal_fuel fuel (n / 10) (ground arith)))
]

pub decimal-injective : (a b : ℕ) → decimal a ≡ decimal b → a ≡ b
unfolding decimal
decimal-injective a b h =
    sym (value-decimal_fuel (suc a) a (omega arith))
    ∙ ap (λ s. value 0 (codes s)) h
    ∙ value-decimal_fuel (suc b) b (omega arith)
