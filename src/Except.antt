-- ===== src/Except.antt =====
-- `throw` and `return` as values: a function that may throw an error of type E returns a
-- `Except E`. The typed failures of the `Effect` values are read in the same way.
use pions.Prelude.{◌≡◌, refl, Bool, true, false, ◌⊎◌, inl, inr}

pub data Except {ℓ κ} (E : Type ℓ) (A : Type κ) : Type (ℓ ⊔ κ) where
  ok : A → Except E A
  err : E → Except E A

-- what follows a call that may throw
infixl 5 ◌>>=◌
abbrev pub ◌>>=◌ {ℓ κ μ} :
    {E : Type ℓ} {A : Type κ} {B : Type μ} → Except E A → (A → Except E B) → Except E B
err thrown >>= next = err thrown
ok returned >>= next = next returned

infixl 5 ◌>>◌
abbrev pub ◌>>◌ {ℓ κ} : {E : Type ℓ} {B : Type κ} → Except E (Unit {0}) → Except E B → Except E B
check >> rest = check >>= λ nothing. rest

-- `if (bad) throw e;`
abbrev pub throw_if {ℓ} : {E : Type ℓ} → Bool → E → Except E (Unit {0})
throw_if true e = err e
throw_if false e = ok tt

-- `catch`: what a thrown error becomes
abbrev pub map_err {ℓ κ μ} :
    {E : Type ℓ} {F : Type κ} {A : Type μ} → (E → F) → Except E A → Except F A
map_err f (ok a) = ok a
map_err f (err e) = err (f e)

-- Code that returns has got a value from each call it made.
pub >>=-eq-ok {ℓ κ μ} :
    {E : Type ℓ} {A : Type κ} {B : Type μ} {r : B} (call : Except E A) (next : A → Except E B)
    → (call >>= next) ≡ ok r
    → (returned : A) × (call ≡ ok returned) × (next returned ≡ ok r)
>>=-eq-ok (err thrown) next h = cc
>>=-eq-ok (ok returned) next h = (returned, refl, h)

pub Except-cases {ℓ κ} :
    {E : Type ℓ} {A : Type κ} (m : Except E A) → ((a : A) × (m ≡ ok a)) ⊎ ((e : E) × (m ≡ err e))
Except-cases (ok a) = inl (a, refl)
Except-cases (err e) = inr (e, refl)

-- Code behind a guard succeeds only if the guard does not throw.
pub throw_if-eq-ok {ℓ κ} :
    {E : Type ℓ} {B : Type κ} (b : Bool) (e : E) (k : Except E B) {r : B}
    → (throw_if b e >> k) ≡ ok r
    → (b ≡ false) × (k ≡ ok r)
throw_if-eq-ok true e k h = cc
throw_if-eq-ok false e k h = (refl, h)

-- So does an action that returns no value.
pub >>-eq-ok {ℓ κ} :
    {E : Type ℓ} {B : Type κ} (m : Except E (Unit {0})) (k : Except E B) {r : B}
    → (m >> k) ≡ ok r
    → (m ≡ ok tt) × (k ≡ ok r)
>>-eq-ok (ok tt) k h = (refl, h)
>>-eq-ok (err e) k h = cc
