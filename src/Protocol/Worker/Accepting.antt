-- ===== src/Protocol/Worker/Accepting.antt =====
-- src/internal/worker-protocol.ts: the start instructions that `receive` of the Worker accepts.
use pions.Prelude.{
  ℕ, suc, ◌+◌, ◌≤◌, ◌≡◌, refl, sym, ap, ◌∙◌, String, Bool, true, false, ◌&&◌, Option, none, some,
  List, [], ◌∷◌, ◌++◌, ltb, length, ◌==◌, if◌then◌else◌, Bool-cases, inl, inr, arith,
}
use pions.Except.{Except, ok, err}
use pions.Protocol.{
  ProtocolAuthority, ProtocolLimits, ProtocolError, invalid_frame, Session, return, modify, ◌>>=◌,
  ◌>>◌,
}
use pions.Protocol.Sessions.{>>=-eq-ok, >>-eq-ok, passed}
use pions.Protocol.Frames.{Wire, StartInstruction}
use pions.Protocol.Framing.{
  FramedPeer, add_event, accept_from, accept_bytes, require_frame_boundary,
}
use pions.Protocol.Framing.Lines.{at_line_start, accept_from-newline, accept_from-other}
use pions.Protocol.Framing.Split.{end_line-eq-ok, keep_fragment-eq-ok}
use pions.Protocol.Worker.{
  StartInstructionAcceptanceStore, WorkerProtocolPeer, is_done, acknowledged,
}
use pions.Protocol.Worker.Received.{
  StartStatus, accepted, duplicate, refused, Received, WorkerProtocolReception, reception_of,
}
use pions.Protocol.Worker.Reception.{accept_frame, or_failed, is_complete, close_reception, receive}
use pions.Protocol.Worker.Marks.{Marking, held}
use pions.Protocol.Worker.Counts.{weight, weight_of}
use pions.Protocol.Worker.Once.{accept_frame-Counts}

-- How often `accepted` stands in a reception.
abbrev pub acceptances : List (StartStatus × StartInstruction) → ℕ
acceptances [] = 0
acceptances ((accepted, _) ∷ more) = suc (acceptances more)
acceptances ((_, _) ∷ more) = acceptances more

total : List Received → ℕ
total [] = 0
total (item ∷ more) = weight item + total more

total-add_event :
    (o : Option Received) (items : List Received)
    → total (add_event o items) ≡ weight_of (ok o) + total items
unfolding total
total-add_event none items = omega arith
total-add_event (some item) items = refl

acceptances-reception_of :
    (complete : Bool) (items : List Received)
    → acceptances (reception_of complete items).start_instructions ≡ total items
unfolding total
acceptances-reception_of complete [] = refl
acceptances-reception_of complete (Received.start_instruction accepted i ∷ more) =
    omega (arith, acceptances-reception_of complete more)
acceptances-reception_of complete (Received.start_instruction duplicate i ∷ more) =
    omega (arith, acceptances-reception_of complete more)
acceptances-reception_of complete (Received.start_instruction (refused reason) i ∷ more) =
    omega (arith, acceptances-reception_of complete more)
acceptances-reception_of complete (item ∷ more) =
    omega (arith, acceptances-reception_of complete more)

module _ (wire : Wire) (authority : ProtocolAuthority) (limits : ProtocolLimits) (now : String)
    {S : Type 0} (starts : StartInstructionAcceptanceStore S) (k : Marking starts) where
  abbrev frames : List ℕ → Session (WorkerProtocolPeer S) (Option Received)
  frames = accept_frame wire authority limits now starts

  accept_from-total :
      (first : Bool) (fragment xs : List ℕ) (p q : FramedPeer (WorkerProtocolPeer S))
      (items : List Received)
      → accept_from limits frames first fragment xs p ≡ (ok items, q)
      → total items + held k p.inner ≤ held k q.inner
  unfolding accept_from total
  accept_from-total first [] [] p q items h =
      let none_yet : items ≡ [] = cc in
      let moved : q ≡ p = cc in omega (arith, ap total none_yet, ap (λ x. held k x.inner) moved)
  accept_from-total first (c ∷ r) [] p q items h =
      let (_, none_yet, moved) = keep_fragment-eq-ok limits frames first c r p items q h in
      omega (arith, ap total none_yet, ap (λ x. held k x.inner) moved)
  accept_from-total first fragment (c ∷ xs) p q items h = elim (Bool-cases (c == b'\n')) [
    | inl newline ↦
        let (event, inner, later, _, taken, went, added) =
          end_line-eq-ok limits frames first fragment (accept_from limits frames false [] xs) p
            items q (sym (accept_from-newline limits frames first fragment c xs p newline) ∙ h) in
        let rest = accept_from-total false [] xs (at_line_start inner) q later went in
        omega (
          arith,
          rest,
          (accept_frame-Counts wire authority limits now starts k (p.buffered ++ fragment)).at
              p.inner,
          ap (λ x. weight_of x.0) taken,
          ap (λ x. held k x.1) taken,
          ap total added,
          total-add_event event later,
        )
    | inr other ↦
        accept_from-total first (fragment ++ c ∷ []) xs p q items
          (sym (accept_from-other limits frames first fragment c xs p other) ∙ h)
  ]

  close_reception-eq-ok :
      (items : List Received) (p q : FramedPeer (WorkerProtocolPeer S))
      (r : WorkerProtocolReception)
      → close_reception wire authority limits now starts items p ≡ (ok r, q)
      → (acceptances r.start_instructions ≡ total items) × (held k q.inner ≡ held k p.inner)
  close_reception-eq-ok items p q r h =
      go (is_done p.inner.state && is_complete wire authority limits now starts p.inner) h
    where
      go :
          (b : Bool)
          → (if b
                then (require_frame_boundary
                    >> modify (λ p. record p { inner = record p.inner { state = acknowledged } })
                    >> return (reception_of true items))
                else return
                    (reception_of (is_complete wire authority limits now starts p.inner) items))
              p
            ≡ (ok r, q)
          → (acceptances r.start_instructions ≡ total items) × (held k q.inner ≡ held k p.inner)
      go false e =
          let made : r ≡ reception_of (is_complete wire authority limits now starts p.inner) items =
            cc in
          let moved : q ≡ p = cc in
          (
            ap (λ x. acceptances x.start_instructions) made
                ∙ acceptances-reception_of (is_complete wire authority limits now starts p.inner)
                    items,
            ap (λ x. held k x.inner) moved,
          )
      go true e =
          let closing : FramedPeer (WorkerProtocolPeer S) → FramedPeer (WorkerProtocolPeer S) =
            λ p. record p { inner = record p.inner { state = acknowledged } } in
          let (_, p', both, last) =
            >>-eq-ok (require_frame_boundary >> modify closing) (return (reception_of true items)) p
              e in
          let (_, p'', bound, change) = >>-eq-ok require_frame_boundary (modify closing) p both in
          let (_, same) = passed (ltb 0 (length p.buffered)) invalid_frame p bound in
          let made : r ≡ reception_of true items = cc in
          let moved : q ≡ closing p'' = cc in
          (
            ap (λ x. acceptances x.start_instructions) made ∙ acceptances-reception_of true items,
            ap (λ x. held k x.inner) moved ∙ ap (λ x. held k x.inner) same,
          )

  or_failed-eq-ok :
      (x : Except ProtocolError WorkerProtocolReception × FramedPeer (WorkerProtocolPeer S))
      {r : WorkerProtocolReception} {q : FramedPeer (WorkerProtocolPeer S)}
      → or_failed wire authority limits now starts x ≡ (ok r, q)
      → x ≡ (ok r, q)
  or_failed-eq-ok (ok e, p) h = h
  or_failed-eq-ok (err e, p) h = absurd cc

  -- Each acceptance in what a Worker receives is one step from a Worker without the mark to one with
  -- it.
  pub receive-held :
      (bytes : List ℕ) (p q : FramedPeer (WorkerProtocolPeer S)) (r : WorkerProtocolReception)
      → receive wire authority limits now starts bytes p ≡ (ok r, q)
      → acceptances r.start_instructions + held k p.inner ≤ held k q.inner
  unfolding receive
  receive-held bytes p q r h =
      let taken = accept_bytes limits frames bytes false in
      let closed = close_reception wire authority limits now starts in
      let (items, p', accepted_all, closing) =
        >>=-eq-ok taken closed p (or_failed-eq-ok ((taken >>= closed) p) h) in
      let (same, kept) = close_reception-eq-ok items p' q r closing in
      omega (arith, accept_from-total false [] bytes p p' items accepted_all, same, kept)
