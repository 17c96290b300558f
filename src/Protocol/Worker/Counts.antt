-- ===== src/Protocol/Worker/Counts.antt =====
-- src/internal/worker-protocol.ts: answers of the Worker, and whether a start instruction has been
-- accepted; one rule for each way to build an answer.
use pions.Prelude.{ℕ, ◌+◌, ◌≤◌, ◌≡◌, Bool, true, false, Option, some, if◌then◌else◌, arith}
use pions.Except.{Except, ok, err}
use pions.Protocol.{ProtocolError, ProtocolViolationReason, Session, return, throw, ◌>>=◌, ◌>>◌}
use pions.Protocol.Keeps.{Keeps}
use pions.Protocol.Worker.{StartInstructionAcceptanceStore, WorkerProtocolPeer}
use pions.Protocol.Worker.Received.{accepted, Received}
use pions.Protocol.Worker.Marks.{Marking, HasMark, held, held-le}
use pions.Protocol.Worker.Restored.{mark_rules}

-- 1 for what says that a start instruction has been accepted.
abbrev pub weight : Received → ℕ
weight (Received.start_instruction accepted _) = 1
weight _ = 0

abbrev pub weight_of : Except ProtocolError (Option Received) → ℕ
weight_of (ok (some received)) = weight received
weight_of _ = 0

abbrev pub Reply : Type 0 → Type 0
Reply S = Session (WorkerProtocolPeer S) (Option Received)

module _ {S : Type 0} {starts : StartInstructionAcceptanceStore S} (k : Marking starts) where
  -- An answer that says so leaves the mark.
  pub record Leaves (m : Reply S) : Type 0 where
    pub at : (p : WorkerProtocolPeer S) → weight_of (m p).0 ≤ held k (m p).1

  -- And it is given where the mark was not.
  pub record Counts (m : Reply S) : Type 0 where
    pub at : (p : WorkerProtocolPeer S) → weight_of (m p).0 + held k p ≤ held k (m p).1

  pub Leaves-return : (e : Option Received) → weight_of (ok e) ≡ 0 → Leaves (return e)
  Leaves-return e h = record { at = λ p. omega (arith, h) }

  pub Leaves-throw : (reason : ProtocolViolationReason) → Leaves (throw reason)
  Leaves-throw reason = record { at = λ p. omega arith }

  pub Leaves-if : (b : Bool) (m n : Reply S) → Leaves m → Leaves n → Leaves (if b then m else n)
  Leaves-if true m n lm ln = lm
  Leaves-if false m n lm ln = ln

  pub Leaves-bind :
      {A : Type 0} (m : Session (WorkerProtocolPeer S) A) (f : A → Reply S)
      → ((a : A) → Leaves (f a))
      → Leaves (m >>= f)
  Leaves-bind {A} m f lf = record { at = λ p. go (m p).0 (m p).1 }
    where
      go :
          (x : Except ProtocolError A) (p : WorkerProtocolPeer S)
          → weight_of
              (elim x as (λ _. Except ProtocolError (Option Received) × WorkerProtocolPeer S) [
                | ok a ↦ f a p
                | err e ↦ (err e, p)
              ]).0
            ≤ held k
                (elim x as (λ _. Except ProtocolError (Option Received) × WorkerProtocolPeer S) [
                  | ok a ↦ f a p
                  | err e ↦ (err e, p)
                ]).1
      go (ok a) p = (lf a).at p
      go (err e) p = omega arith

  pub Leaves-then :
      {A : Type 0} (m : Session (WorkerProtocolPeer S) A) (next : Reply S)
      → Leaves next
      → Leaves (m >> next)
  Leaves-then m next lk = Leaves-bind m (λ _. next) (λ _. lk)

  pub Counts-return : (e : Option Received) → weight_of (ok e) ≡ 0 → Counts (return e)
  Counts-return e h = record { at = λ p. omega (arith, h) }

  pub Counts-throw : (reason : ProtocolViolationReason) → Counts (throw reason)
  Counts-throw reason = record { at = λ p. omega arith }

  pub Counts-if : (b : Bool) (m n : Reply S) → Counts m → Counts n → Counts (if b then m else n)
  Counts-if true m n cm cn = cm
  Counts-if false m n cm cn = cn

  pub Counts-bind :
      {A : Type 0} (m : Session (WorkerProtocolPeer S) A) (f : A → Reply S)
      → Keeps (HasMark k) m
      → ((a : A) → Counts (f a))
      → Counts (m >>= f)
  Counts-bind {A} m f km cf = record {
    at = λ p. go (m p).0 p (m p).1 (held-le k p (m p).1 (km.at p));
  }
    where
      go :
          (x : Except ProtocolError A) (before p : WorkerProtocolPeer S)
          → held k before ≤ held k p
          → weight_of
                (elim x as (λ _. Except ProtocolError (Option Received) × WorkerProtocolPeer S) [
                  | ok a ↦ f a p
                  | err e ↦ (err e, p)
                ]).0
              + held k before
            ≤ held k
                (elim x as (λ _. Except ProtocolError (Option Received) × WorkerProtocolPeer S) [
                  | ok a ↦ f a p
                  | err e ↦ (err e, p)
                ]).1
      go (ok a) before p grown = omega (arith, (cf a).at p)
      go (err e) before p grown = omega arith

  pub Counts-then :
      {A : Type 0} (m : Session (WorkerProtocolPeer S) A) (next : Reply S)
      → Keeps (HasMark k) m
      → Counts next
      → Counts (m >> next)
  Counts-then m next km ck = Counts-bind m (λ _. next) km (λ _. ck)

  pub Counts-assoc :
      {A B : Type 0} (m : Session (WorkerProtocolPeer S) A)
      (f : A → Session (WorkerProtocolPeer S) B) (g : B → Reply S)
      → Counts (m >>= λ a. f a >>= g)
      → Counts (m >>= f >>= g)
  Counts-assoc {A} m f g counts = record { at = λ p. go (m p).0 p (m p).1 (counts.at p) }
    where
      on :
          {C : Type 0}
          → Except ProtocolError A
          → (A → Session (WorkerProtocolPeer S) C)
          → Session (WorkerProtocolPeer S) C
      on {C} x f p = elim x as (λ _. Except ProtocolError C × WorkerProtocolPeer S) [
        | ok a ↦ f a p
        | err e ↦ (err e, p)
      ]

      go :
          (x : Except ProtocolError A) (before p : WorkerProtocolPeer S)
          → weight_of (on x (λ a. f a >>= g) p).0 + held k before
            ≤ held k (on x (λ a. f a >>= g) p).1
          → weight_of ((on x f >>= g) p).0 + held k before ≤ held k ((on x f >>= g) p).1
      go (ok a) before p h = h
      go (err e) before p h = h

pub ruleset leaves_rules = (Leaves-return, Leaves-throw, Leaves-if, Leaves-bind, Leaves-then)

pub ruleset counts_rules =
    (mark_rules, Counts-return, Counts-throw, Counts-if, Counts-bind, Counts-then)
