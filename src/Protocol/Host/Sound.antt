-- ===== src/Protocol/Host/Sound.antt =====
-- src/internal/worker-protocol.ts: Results that the host has checked.
use pions.Prelude.{ℕ, ◌≤◌, ◌≡◌, refl, true, Option, none, some, List, length}
use pions.Except.{Except, ok, err}
use pions.Platform.{Platform}
use pions.Utf8.{is_utf8}
use pions.Acceptance.{sha256_digest}
use pions.ResultAcceptance.{WorkerProducedResult, text_decode}
use pions.Protocol.{
  ProtocolLimits, ProtocolError, ProtocolViolationReason, Session, return, throw, modify, ◌>>=◌,
  ◌>>◌,
}
use pions.Protocol.Keeps.{Keeps, keeps_rules, Keeps-modify, Keeps-bind}
use pions.Protocol.Host.{CurrentResult, HostProtocolPeer, HostProtocolEvent, result_received}

module _ (platform : Platform) (limits : ProtocolLimits) where
  -- The Result is the text of bytes that are UTF-8 and have its digest and its length, which is in
  -- the size limit.
  pub record IsChecked (r : WorkerProducedResult) : Type 0 where
    pub bytes : List ℕ
    pub text : r.body ≡ text_decode bytes
    pub utf8 : is_utf8 bytes ≡ true
    pub digest : sha256_digest platform bytes ≡ r.expected_digest
    pub count : length bytes ≡ r.expected_byte_count
    pub bound : r.expected_byte_count ≤ limits.result_bytes

  abbrev pub IsBounded : Option CurrentResult → Type 0
  IsBounded none = Unit
  IsBounded (some r) = r.expected_byte_count ≤ limits.result_bytes

  abbrev pub IsWhole : Option WorkerProducedResult → Type 0
  IsWhole none = Unit
  IsWhole (some r) = IsChecked r

  -- The Result that comes is in the size limit, and the one that has come is checked.
  abbrev pub IsIntegral : HostProtocolPeer → Type 0
  IsIntegral p = IsBounded p.current_result × IsWhole p.received_result

  abbrev pub IsSound : HostProtocolEvent → Type 0
  IsSound (result_received r evidence) = IsChecked r
  IsSound _ = Unit

  abbrev pub IsSoundAnswer : Except ProtocolError (Option HostProtocolEvent) → Type 0
  IsSoundAnswer (ok (some event)) = IsSound event
  IsSoundAnswer _ = Unit

  pub record Sound (m : Session HostProtocolPeer (Option HostProtocolEvent)) : Type 0 where
    pub at : (p : HostProtocolPeer) → IsIntegral p → IsSoundAnswer (m p).0 × IsIntegral (m p).1

  pub Sound-return : (e : Option HostProtocolEvent) → IsSoundAnswer (ok e) → Sound (return e)
  Sound-return e s = record { at = λ p h. (s, h) }

  pub Sound-throw : (reason : ProtocolViolationReason) → Sound (throw reason)
  Sound-throw reason = record { at = λ p h. (tt, h) }

  pub Sound-bind :
      {A : Type 0} (m : Session HostProtocolPeer A)
      (f : A → Session HostProtocolPeer (Option HostProtocolEvent))
      → Keeps IsIntegral m
      → ((a : A) → Sound (f a))
      → Sound (m >>= f)
  Sound-bind {A} m f km sf = record { at = λ p h. go (m p).0 (m p).1 (km.at p h) }
    where
      go :
          (x : Except ProtocolError A) (p : HostProtocolPeer)
          → IsIntegral p
          → IsSoundAnswer
              (elim x as (λ _. Except ProtocolError (Option HostProtocolEvent) × HostProtocolPeer) [
                | ok a ↦ f a p
                | err e ↦ (err e, p)
              ]).0
            × IsIntegral
                (elim x
                  as (λ _. Except ProtocolError (Option HostProtocolEvent) × HostProtocolPeer) [
                    | ok a ↦ f a p
                    | err e ↦ (err e, p)
                  ]).1
      go (ok a) p h = (sf a).at p h
      go (err e) p h = (tt, h)

  pub Sound-then :
      {A : Type 0} (m : Session HostProtocolPeer A)
      (k : Session HostProtocolPeer (Option HostProtocolEvent))
      → Keeps IsIntegral m
      → Sound k
      → Sound (m >> k)
  Sound-then m k km sk = Sound-bind m (λ _. k) km (λ _. sk)

  -- A change after checks may rely on what they have checked.
  pub Keeps-checked :
      (m : Session HostProtocolPeer (Unit {0})) (f : HostProtocolPeer → HostProtocolPeer)
      → Keeps IsIntegral m
      → ((p q : HostProtocolPeer) → m p ≡ (ok tt, q) → IsIntegral q → IsIntegral (f q))
      → Keeps IsIntegral (m >> modify f)
  Keeps-checked m f km kf = record { at = λ p h. go p (m p) refl (km.at p h) }
    where
      go :
          (p : HostProtocolPeer) (x : Except ProtocolError (Unit {0}) × HostProtocolPeer)
          → m p ≡ x
          → IsIntegral x.1
          → IsIntegral
              (elim x.0 as (λ _. Except ProtocolError (Unit {0}) × HostProtocolPeer) [
                | ok a ↦ modify f x.1
                | err e ↦ (err e, x.1)
              ]).1
      go p (ok tt, q) e h = kf p q e h
      go p (err _, q) e h = h

pub ruleset sound_rules =
    (keeps_rules, Keeps-modify, Sound-return, Sound-throw, Sound-bind, Sound-then)
