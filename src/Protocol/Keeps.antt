-- ===== src/Protocol/Keeps.antt =====
-- Invariants of the methods of a peer, whether they return or throw.
use pions.Prelude.{Bool, true, false, if◌then◌else◌}
use pions.Except.{Except, ok, err}
use pions.Protocol.{
  ProtocolError, ProtocolViolationReason, Session, return, throw, ◌>>=◌, ◌>>◌, get, modify,
  require_not,
}

pub record Keeps {P : Type 0} {A : Type 0} (Q : P → Type 0) (m : Session P A) : Type 0 where
  pub at : (p : P) → Q p → Q (m p).1

module _ {P : Type 0} {Q : P → Type 0} where
  pub Keeps-return : {A : Type 0} (a : A) → Keeps Q (return a)
  Keeps-return a = record { at = λ p h. h }

  pub Keeps-throw : {A : Type 0} (reason : ProtocolViolationReason) → Keeps Q (throw {A = A} reason)
  Keeps-throw reason = record { at = λ p h. h }

  pub Keeps-get : Keeps Q get
  Keeps-get = record { at = λ p h. h }

  pub Keeps-require_not :
      (b : Bool) (reason : ProtocolViolationReason) → Keeps Q (require_not b reason)
  Keeps-require_not true reason = record { at = λ p h. h }
  Keeps-require_not false reason = record { at = λ p h. h }

  pub Keeps-modify : (f : P → P) → ((p : P) → Q p → Q (f p)) → Keeps Q (modify f)
  Keeps-modify f h = record { at = h }

  pub Keeps-if :
      {A : Type 0} (b : Bool) (m n : Session P A)
      → Keeps Q m
      → Keeps Q n
      → Keeps Q (if b then m else n)
  Keeps-if true m n km kn = km
  Keeps-if false m n km kn = kn

  after_ok :
      {A B : Type 0} (f : A → Session P B) (x : Except ProtocolError A) (p : P)
      → ((a : A) → Keeps Q (f a))
      → Q p
      → Q (elim x as (λ _. Except ProtocolError B × P) [ ok a ↦ f a p | err e ↦ (err e, p) ]).1
  after_ok f (ok a) p kf h = (kf a).at p h
  after_ok f (err e) p kf h = h

  pub Keeps-bind :
      {A B : Type 0} (m : Session P A) (f : A → Session P B)
      → Keeps Q m
      → ((a : A) → Keeps Q (f a))
      → Keeps Q (m >>= f)
  Keeps-bind m f km kf = record { at = λ p h. after_ok f (m p).0 (m p).1 kf (km.at p h) }

  pub Keeps-then :
      {A B : Type 0} (m : Session P A) (k : Session P B) → Keeps Q m → Keeps Q k → Keeps Q (m >> k)
  Keeps-then m k km kk = Keeps-bind m (λ _. k) km (λ _. kk)

pub ruleset keeps_rules =
    (Keeps-return, Keeps-throw, Keeps-get, Keeps-require_not, Keeps-if, Keeps-bind, Keeps-then)
