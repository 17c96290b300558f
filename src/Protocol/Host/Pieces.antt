-- ===== src/Protocol/Host/Pieces.antt =====
-- src/internal/worker-protocol.ts: `receive` of the host, called with the pieces that a socket gives.
use pions.Prelude.{
  ℕ, ◌≡◌, refl, sym, ap, ◌∙◌, Bool, true, false, ◌&&◌, ◌||◌, if◌then◌else◌, Option, List, [], ◌∷◌,
  ◌++◌, length, ltb, ◌==◌, Bool-cases, inl, inr,
}
use pions.Except.{Except, ok, err}
use pions.Platform.{Platform}
use pions.Protocol.{
  ProtocolAuthority, ProtocolLimits, ProtocolError, Session, invalid_transition, invalid_frame,
  return, ◌>>=◌, ◌>>◌, require_not,
}
use pions.Protocol.Sessions.{>>=-ok, >>=-eq-ok, >>-eq-ok, require_not-eq-ok}
use pions.Protocol.Frames.{Wire}
use pions.Protocol.Framing.{FramedPeer, accept_from, accept_bytes, require_frame_boundary}
use pions.Protocol.Framing.Lines.{at_line_start, accept_from-newline, accept_from-other}
use pions.Protocol.Framing.Split.{
  still_first, still_first-newline, still_first-other, still_first-false, end_line-eq-ok,
  keep_fragment-eq-ok, accept_from-append,
}
use pions.Protocol.Host.{HostProtocolPeer, HostProtocolEvent, is_awaiting_hello, is_failed, is_done}
use pions.Protocol.Host.Reception.{accept_frame, or_failed, at_boundary, receive}
use pions.Protocol.Host.Begun.{accept_frame-HasBegun}

module _ (platform : Platform) (wire : Wire) (authority : ProtocolAuthority)
    (limits : ProtocolLimits) where
  abbrev frames : List ℕ → Session HostProtocolPeer (Option HostProtocolEvent)
  frames = accept_frame platform wire authority limits

  -- The flag of the loop tells whether the session awaits a `hello`.
  still_first-awaiting :
      (first : Bool) (fragment xs : List ℕ) (p q : FramedPeer HostProtocolPeer)
      (events : List HostProtocolEvent)
      → first ≡ is_awaiting_hello p.inner.state
      → accept_from limits frames first fragment xs p ≡ (ok events, q)
      → still_first first xs ≡ is_awaiting_hello q.inner.state
  unfolding accept_from
  still_first-awaiting first [] [] p q events same h =
      same ∙ ap (λ x. is_awaiting_hello x.1.inner.state) h
  still_first-awaiting first (c ∷ r) [] p q events same h =
      let (_, _, moved) = keep_fragment-eq-ok limits frames first c r p events q h in
      same ∙ ap (λ x. is_awaiting_hello x.inner.state) (sym moved)
  still_first-awaiting first fragment (c ∷ xs) p q events same h = elim (Bool-cases (c == b'\n')) [
    | inl newline ↦
        let (event, inner, later, _, taken, went, _) =
          end_line-eq-ok limits frames first fragment (accept_from limits frames false [] xs) p
            events q (sym (accept_from-newline limits frames first fragment c xs p newline) ∙ h) in
        let begun =
          accept_frame-HasBegun platform wire authority limits (p.buffered ++ fragment) p.inner
            inner event taken in
        still_first-newline first c xs newline
        ∙ sym (still_first-false xs)
        ∙ still_first-awaiting false [] xs (at_line_start inner) q later (sym begun) went
    | inr other ↦
        still_first-other first c xs other
        ∙ still_first-awaiting first (fragment ++ c ∷ []) xs p q events same
            (sym (accept_from-other limits frames first fragment c xs p other) ∙ h)
  ]

  -- The host is done, and has a part of a line.
  abbrev pub is_broken_off : FramedPeer HostProtocolPeer → Bool
  is_broken_off p = is_done p.inner.state && ltb 0 (length p.buffered)

  or_failed-eq-ok :
      (x : Except ProtocolError (List HostProtocolEvent) × FramedPeer HostProtocolPeer)
      {events : List HostProtocolEvent} {q : FramedPeer HostProtocolPeer}
      → or_failed platform wire authority limits x ≡ (ok events, q)
      → x ≡ (ok events, q)
  or_failed-eq-ok (ok e, p) h = h
  or_failed-eq-ok (err e, p) h = absurd cc

  at_boundary-eq-ok :
      (before after : List HostProtocolEvent) (p q : FramedPeer HostProtocolPeer)
      → at_boundary platform wire authority limits before p ≡ (ok after, q)
      → (before ≡ after) × (p ≡ q) × (is_broken_off p ≡ false)
  at_boundary-eq-ok before after p q h = go (is_done p.inner.state) h
    where
      go :
          (d : Bool)
          → (if d then require_frame_boundary >> return before else return before) p ≡ (ok after, q)
          → (before ≡ after) × (p ≡ q) × (d && ltb 0 (length p.buffered) ≡ false)
      go false e = (cc, cc, refl)
      go true e =
          let (_, p', bound, rest) = >>-eq-ok require_frame_boundary (return before) p e in
          let (short, kept) =
            require_not-eq-ok (ltb 0 (length p.buffered)) invalid_frame (return tt) p {b = tt}
              {q = p'} (>>=-ok require_frame_boundary (λ _. return tt) p bound) in
          (cc, cc, short)

  at_boundary-ok :
      (events : List HostProtocolEvent) (p : FramedPeer HostProtocolPeer)
      → is_broken_off p ≡ false
      → at_boundary platform wire authority limits events p ≡ (ok events, p)
  at_boundary-ok events p h = go (is_done p.inner.state) h
    where
      go :
          (d : Bool)
          → d && ltb 0 (length p.buffered) ≡ false
          → (if d then require_frame_boundary >> return events else return events) p
            ≡ (ok events, p)
      go false e = refl
      go true e =
          >>=-ok require_frame_boundary (λ _. return events) p {a = tt} {p' = p}
            (ap (λ b. require_not b invalid_frame p) e)

  pub receive-eq-ok :
      (bytes : List ℕ) (p q : FramedPeer HostProtocolPeer) (events : List HostProtocolEvent)
      → receive platform wire authority limits bytes p ≡ (ok events, q)
      → (is_failed p.inner.state || is_done p.inner.state ≡ false)
        × (accept_bytes limits frames bytes (is_awaiting_hello p.inner.state) p ≡ (ok events, q))
        × (is_broken_off q ≡ false)
  unfolding receive
  receive-eq-ok bytes p q events h =
      let bytes_of = accept_bytes limits frames bytes (is_awaiting_hello p.inner.state) in
      let ended = at_boundary platform wire authority limits in
      let (open', run) =
        require_not-eq-ok (is_failed p.inner.state || is_done p.inner.state) invalid_transition
          (bytes_of >>= ended) p (or_failed-eq-ok _ h) in
      let (before, p', accepted, closed) = >>=-eq-ok bytes_of ended p run in
      let (same, moved, whole) = at_boundary-eq-ok before events p' q closed in
      (
        open',
        accepted ∙ ap (λ e. (ok e, p')) same ∙ ap (λ x. (ok events, x)) moved,
        sym (ap is_broken_off moved) ∙ whole,
      )

  pub receive-ok :
      (bytes : List ℕ) (p q : FramedPeer HostProtocolPeer) (events : List HostProtocolEvent)
      → is_failed p.inner.state || is_done p.inner.state ≡ false
      → accept_bytes limits frames bytes (is_awaiting_hello p.inner.state) p ≡ (ok events, q)
      → is_broken_off q ≡ false
      → receive platform wire authority limits bytes p ≡ (ok events, q)
  unfolding receive
  receive-ok bytes p q events open' accepted whole =
      let bytes_of = accept_bytes limits frames bytes (is_awaiting_hello p.inner.state) in
      let ended = at_boundary platform wire authority limits in
      ap
        (λ b.
          or_failed platform wire authority limits
            ((require_not b invalid_transition >> (bytes_of >>= ended)) p))
        open'
      ∙ ap (or_failed platform wire authority limits)
          (>>=-ok bytes_of ended p accepted ∙ at_boundary-ok events q whole)

  -- The pieces of a stream of bytes do what the whole stream does: if `receive` takes one piece and
  -- then another, it takes both together, with the events of the one and then those of the other, and
  -- leaves the same peer.
  pub receive-append :
      (xs ys : List ℕ) (p q s : FramedPeer HostProtocolPeer) (before after : List HostProtocolEvent)
      → receive platform wire authority limits xs p ≡ (ok before, q)
      → receive platform wire authority limits ys q ≡ (ok after, s)
      → receive platform wire authority limits (xs ++ ys) p ≡ (ok (before ++ after), s)
  receive-append xs ys p q s before after h k =
      let (open', first, _) = receive-eq-ok xs p q before h in
      let (_, second, whole) = receive-eq-ok ys q s after k in
      let flag =
        still_first-awaiting (is_awaiting_hello p.inner.state) [] xs p q before refl first in
      receive-ok (xs ++ ys) p s (before ++ after) open'
        (accept_from-append limits frames (is_awaiting_hello p.inner.state) [] xs ys p before after
          q s first (ap (λ b. accept_from limits frames b [] ys q) flag ∙ second))
        whole
