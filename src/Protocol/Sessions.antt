-- ===== src/Protocol/Sessions.antt =====
-- What a method of a peer has done if it returns.
use pions.Prelude.{◌≡◌, refl, ap, Bool, true, false}
use pions.Except.{Except, ok, err}
use pions.Protocol.{ProtocolError, ProtocolViolationReason, Session, ◌>>=◌, ◌>>◌, require_not}

module _ {P : Type 0} where
  pub >>=-ok :
      {A B : Type 0} (m : Session P A) (f : A → Session P B) (p : P) {a : A} {p' : P}
      → m p ≡ (ok a, p')
      → (m >>= f) p ≡ f a p'
  >>=-ok {A} {B} m f p h =
      ap
        (λ x. elim x.0 as (λ _. Except ProtocolError B × P) [
          | ok a ↦ f a x.1
          | err e ↦ (err e, x.1)
        ])
        h

  -- The first of two methods returns if both together do, and so does the other one.
  pub >>=-eq-ok :
      {A B : Type 0} (m : Session P A) (f : A → Session P B) (p : P) {b : B} {q : P}
      → (m >>= f) p ≡ (ok b, q)
      → (a : A) × (p' : P) × (m p ≡ (ok a, p')) × (f a p' ≡ (ok b, q))
  >>=-eq-ok {A} {B} m f p {b} {q} h = go (m p) refl h
    where
      go :
          (x : Except ProtocolError A × P)
          → m p ≡ x
          → (elim x.0 as (λ _. Except ProtocolError B × P) [
            | ok a ↦ f a x.1
            | err e ↦ (err e, x.1)
          ])
            ≡ (ok b, q)
          → (a : A) × (p' : P) × (m p ≡ (ok a, p')) × (f a p' ≡ (ok b, q))
      go (ok a, p') e h = (a, p', e, h)
      go (err _, p') e h = absurd cc

  pub >>-eq-ok :
      {A B : Type 0} (m : Session P A) (k : Session P B) (p : P) {b : B} {q : P}
      → (m >> k) p ≡ (ok b, q)
      → (a : A) × (p' : P) × (m p ≡ (ok a, p')) × (k p' ≡ (ok b, q))
  >>-eq-ok m k p h = >>=-eq-ok m (λ _. k) p h

  -- Code behind a guard runs only if the guard does not throw.
  pub require_not-eq-ok :
      {B : Type 0} (bad : Bool) (reason : ProtocolViolationReason) (k : Session P B) (p : P) {b : B}
      {q : P}
      → (require_not bad reason >> k) p ≡ (ok b, q)
      → (bad ≡ false) × (k p ≡ (ok b, q))
  require_not-eq-ok true reason k p h = absurd cc
  require_not-eq-ok false reason k p h = (refl, h)

  pub passed :
      (bad : Bool) (reason : ProtocolViolationReason) (p : P) {a : Unit {0}} {q : P}
      → require_not bad reason p ≡ (ok a, q)
      → (bad ≡ false) × (q ≡ p)
  passed true reason p h = absurd cc
  passed false reason p h = (refl, cc)
