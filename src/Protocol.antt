-- ===== src/Protocol.antt =====
-- src/internal/worker-protocol.ts: the sessions of a host and a Worker, which exchange lines of JSON
-- over a socket. A method of a peer takes the peer and returns an outcome beside the new peer; what
-- a throwing method has changed before it throws stays changed.
pub mod Sessions
pub mod Keeps
pub mod Frames
pub mod Framing
pub mod Control
pub mod Host
pub mod Worker
pub mod Delivery
use pions.Prelude.{
  ℕ, ◌≡◌, refl, String, Bool, true, false, not, ◌||◌, Option, none, some, List, ltb, ◌==◌, str_eq,
  if◌then◌else◌,
}
use pions.Except.{Except, ok, err}
use pions.Text.{is_safe_integer}

-- `WORKER_PROTOCOL_VERSION`
abbrev pub worker_protocol_version : ℕ
worker_protocol_version = 16

pub record ProtocolAuthority : Type 0 where
  pub operation_id : String
  pub capability : String

pub record ProtocolLimits : Type 0 where
  pub first_frame_bytes : ℕ
  pub frame_bytes : ℕ
  pub result_bytes : ℕ

pub data ProtocolViolationReason : Type 0 where
  invalid_frame version_mismatch authority_mismatch sequence_mismatch frame_too_large
        result_too_large digest_mismatch invalid_transition unexpected_acknowledgement
        incomplete_session :
      ProtocolViolationReason

-- A `ProtocolViolation`, the error of a field read from `null`, or one that the store throws.
pub data ProtocolError : Type 0 where
  violation : ProtocolViolationReason → ProtocolError
  type_error store_error : ProtocolError

abbrev pub Session : Type 0 → Type 0 → Type 0
Session P A = P → Except ProtocolError A × P

module _ {P : Type 0} where
  abbrev pub return : {A : Type 0} → A → Session P A
  return a p = (ok a, p)

  abbrev pub throw : {A : Type 0} → ProtocolViolationReason → Session P A
  throw reason p = (err (violation reason), p)

  infixl 5 ◌>>=◌ ◌>>◌
  abbrev pub ◌>>=◌ : {A B : Type 0} → Session P A → (A → Session P B) → Session P B
  ◌>>=◌ m f p = elim (m p).0 [ ok a ↦ f a (m p).1 | err e ↦ (err e, (m p).1) ]

  abbrev pub ◌>>◌ : {A B : Type 0} → Session P A → Session P B → Session P B
  m >> k = m >>= λ _. k

  -- The peer, where its fields are read.
  abbrev pub get : Session P P
  get p = (ok p, p)

  abbrev pub modify : (P → P) → Session P (Unit {0})
  modify f p = (ok tt, f p)

  -- `if (bad) throw violation(reason, …);`
  abbrev pub require_not : Bool → ProtocolViolationReason → Session P (Unit {0})
  require_not true reason = throw reason
  require_not false reason = return tt

  -- `validateSafePositiveInteger`
  abbrev pub validate_safe_positive_integer : ℕ → Session P (Unit {0})
  validate_safe_positive_integer value =
      require_not (not (is_safe_integer value) || ltb value 1) ProtocolViolationReason.invalid_frame
