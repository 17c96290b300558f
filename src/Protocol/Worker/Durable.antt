-- ===== src/Protocol/Worker/Durable.antt =====
-- src/internal/worker-protocol.ts: a Worker that connects again has a new peer with the same store of
-- the start instruction.
use pions.Prelude.{
  String, ℕ, ◌+◌, ◌≤◌, ◌≡◌, refl, ap, Bool, true, false, ◌&&◌, Option, some, List, [], ◌∷◌, ◌++◌,
  length, ltb, ◌==◌, if◌then◌else◌, Bool-cases, inl, inr, arith,
}
use pions.Except.{Except, ok, err}
use pions.Protocol.{
  ProtocolAuthority, ProtocolLimits, ProtocolError, Session, ◌>>=◌, ◌>>◌, modify, return,
  invalid_frame, violation, frame_too_large,
}
use pions.Protocol.Keeps.{
  Keeps, Keeps-modify, Keeps-require_not, Keeps-return, Keeps-then, Keeps-if,
}
use pions.Protocol.Frames.{Wire, StartInstruction}
use pions.Protocol.Framing.{
  FramedPeer, after_event, is_too_long, accepted_line, end_line, accept_from, accept_bytes,
  require_frame_boundary,
}
use pions.Protocol.Framing.Lines.{at_line_start, accept_from-newline, accept_from-other}
use pions.Protocol.Worker.{
  DurableDeliveryAuthority, no_start, StartInstructionAcceptanceStore, WorkerProtocolPeer, is_done,
  acknowledged,
}
use pions.Protocol.Worker.Received.{Received, WorkerProtocolReception, reception_of}
use pions.Protocol.Worker.Reception.{accept_frame, or_failed, close_reception, receive, is_complete}
use pions.Protocol.Worker.Marks.{Marking, held}
use pions.Protocol.Worker.Once.{accept_frame-Counts}
use pions.Protocol.Worker.Accepting.{acceptances, receive-held}

-- A store that holds something, as `holds` says, holds on to it, and holds something once it has
-- saved; one that loads nothing holds nothing.
pub record StartStoreLaws {S : Type 0} (starts : StartInstructionAcceptanceStore S) : Type 0 where
  pub holds : S → Bool
  pub loaded : (s : S) → holds s ≡ true → holds (starts.load s).1 ≡ true
  pub read : (s : S) → holds s ≡ true → holds (starts.load_delivery_authority s).1 ≡ true
  pub kept : (s : S) (i : StartInstruction) → holds s ≡ true → holds (starts.save s i).1 ≡ true
  pub apart :
      (s : S) (a : DurableDeliveryAuthority)
      → holds s ≡ true
      → holds (starts.save_delivery_authority s a).1 ≡ true
  pub saved :
      (s : S) (i : StartInstruction)
      → (starts.save s i).0 ≡ some true
      → holds (starts.save s i).1 ≡ true
  pub free : (s : S) → (starts.load s).0 ≡ no_start → holds (starts.load s).1 ≡ false

-- 1 for what is there.
abbrev pub count_of : Bool → ℕ
count_of b = if b then 1 else 0

module _ {S : Type 0} (starts : StartInstructionAcceptanceStore S)
    (laws : StartStoreLaws starts) where
  -- The mark of a store that holds something.
  abbrev pub stored_mark : Marking starts
  stored_mark = record {
    mark = λ o s. laws.holds s;
    adopting = λ o s i h. h;
    claiming = λ o s a h. laws.apart s a h;
    saving = λ o s i h. laws.kept s i h;
    loading = λ o s h. laws.loaded s h;
    reading = λ o s h. laws.read s h;
    accepting = λ s i h. laws.saved s i h;
    fresh = λ s h. laws.free s h;
  }

module _ (wire : Wire) (authority : ProtocolAuthority) (limits : ProtocolLimits) (now : String)
    {S : Type 0} (starts : StartInstructionAcceptanceStore S) where
  -- What comes of a store in the connections of a Worker: the peer of each has the store, `receive`
  -- returns or throws, and the number is that of the start instructions that were accepted.
  pub data Served (first : S) : ℕ → S → Type 0 where
    unserved : Served first 0 first
    received :
        {n : ℕ} {s : S} (bytes : List ℕ) (p q : FramedPeer (WorkerProtocolPeer S))
        (r : WorkerProtocolReception)
        → Served first n s
        → p.inner.store ≡ s
        → receive wire authority limits now starts bytes p ≡ (ok r, q)
        → Served first (n + acceptances r.start_instructions) q.inner.store
    broken :
        {n : ℕ} {s : S} (bytes : List ℕ) (p q : FramedPeer (WorkerProtocolPeer S))
        (e : ProtocolError)
        → Served first n s
        → p.inner.store ≡ s
        → receive wire authority limits now starts bytes p ≡ (err e, q)
        → Served first n q.inner.store

  module _ (k : Marking starts) where
    abbrev frames : List ℕ → Session (WorkerProtocolPeer S) (Option Received)
    frames = accept_frame wire authority limits now starts

    abbrev Passed : Type 0 → Type 0
    Passed A = Except ProtocolError A × FramedPeer (WorkerProtocolPeer S)

    frame-grows : (line : List ℕ) (p : WorkerProtocolPeer S) → held k p ≤ held k (frames line p).1
    frame-grows line p =
        omega (arith, (accept_frame-Counts wire authority limits now starts k line).at p)

    same_peer : (o : Option Received) (y : Passed (List Received)) → (after_event o y).1 ≡ y.1
    same_peer o (ok events, p) = refl
    same_peer o (err e, p) = refl

    end_line-grows :
        (first : Bool) (fragment : List ℕ)
        (rest : FramedPeer (WorkerProtocolPeer S) → Passed (List Received))
        (p : FramedPeer (WorkerProtocolPeer S))
        → ((q : WorkerProtocolPeer S) → held k q ≤ held k (rest (at_line_start q)).1.inner)
        → held k p.inner ≤ held k (end_line limits frames first fragment rest p).1.inner
    end_line-grows first fragment rest p grows =
        go (is_too_long limits frames first fragment p) (frames (p.buffered ++ fragment) p.inner)
          (frame-grows (p.buffered ++ fragment) p.inner)
      where
        choose :
            Bool
            → Except ProtocolError (Option Received) × WorkerProtocolPeer S
            → Passed (List Received)
        choose long x =
            if long
            then (err (violation frame_too_large), p)
            else accepted_line limits frames rest x

        go :
            (long : Bool) (x : Except ProtocolError (Option Received) × WorkerProtocolPeer S)
            → held k p.inner ≤ held k x.1
            → held k p.inner ≤ held k (choose long x).1.inner
        go true x h = omega arith
        go false (err e, q) h = h
        go false (ok event, q) h = omega (
          arith,
          grows q,
          ap (λ (r : FramedPeer (WorkerProtocolPeer S)). held k r.inner)
              (same_peer event (rest (at_line_start q))),
        )

    accept_from-grows :
        (first : Bool) (fragment xs : List ℕ) (p : FramedPeer (WorkerProtocolPeer S))
        → held k p.inner ≤ held k (accept_from limits frames first fragment xs p).1.inner
    unfolding accept_from
    accept_from-grows first [] [] p = omega arith
    accept_from-grows first (c ∷ r) [] p = go (is_too_long limits frames first (c ∷ r) p)
      where
        choose : Bool → Passed (List Received)
        choose long =
            if long
            then (err (violation frame_too_large), p)
            else (ok [], record p { buffered = p.buffered ++ c ∷ r })

        go : (long : Bool) → held k p.inner ≤ held k (choose long).1.inner
        go true = omega arith
        go false = omega arith
    accept_from-grows first fragment (c ∷ xs) p = elim (Bool-cases (c == b'\n')) [
      | inl newline ↦ omega (
        arith,
        end_line-grows first fragment (accept_from limits frames false [] xs) p
            (λ q. accept_from-grows false [] xs (at_line_start q)),
        ap (λ x. held k x.1.inner)
            (accept_from-newline limits frames first fragment c xs p newline),
      )
      | inr other ↦ omega (
        arith,
        accept_from-grows first (fragment ++ c ∷ []) xs p,
        ap (λ x. held k x.1.inner) (accept_from-other limits frames first fragment c xs p other),
      )
    ]

    close_reception-held :
        (items : List Received) (p : FramedPeer (WorkerProtocolPeer S))
        → held k (close_reception wire authority limits now starts items p).1.inner ≡ held k p.inner
    close_reception-held items p =
        let last : Session (FramedPeer (WorkerProtocolPeer S)) WorkerProtocolReception =
          return (reception_of (is_complete wire authority limits now starts p.inner) items) in
        let whole : Session (FramedPeer (WorkerProtocolPeer S)) WorkerProtocolReception =
          return (reception_of true items) in
        (Keeps-if (is_done p.inner.state && is_complete wire authority limits now starts p.inner)
            (require_frame_boundary >> modify acknowledge >> whole) last
            (Keeps-then (require_frame_boundary >> modify acknowledge) whole
              (Keeps-then require_frame_boundary (modify acknowledge) boundary
                (Keeps-modify acknowledge (λ r h. h)))
              (Keeps-return (reception_of true items)))
            (Keeps-return
              (reception_of (is_complete wire authority limits now starts p.inner) items))).at
          p refl
      where
        SameHeld : FramedPeer (WorkerProtocolPeer S) → Type 0
        SameHeld r = held k r.inner ≡ held k p.inner

        acknowledge : FramedPeer (WorkerProtocolPeer S) → FramedPeer (WorkerProtocolPeer S)
        acknowledge r = record r { inner = record r.inner { state = acknowledged } }

        boundary : Keeps {P = FramedPeer (WorkerProtocolPeer S)} SameHeld require_frame_boundary
        boundary = record {
          at = λ r h.
              (Keeps-require_not {Q = SameHeld} (ltb 0 (length r.buffered)) invalid_frame).at r h;
        }

    or_failed-held :
        {A : Type 0} (x : Passed A)
        → held k (or_failed wire authority limits now starts x).1.inner ≡ held k x.1.inner
    or_failed-held (ok a, p) = refl
    or_failed-held (err e, p) = refl

    -- What has been marked stays so, also where `receive` throws.
    pub receive-grows :
        (bytes : List ℕ) (p : FramedPeer (WorkerProtocolPeer S))
        → held k p.inner ≤ held k (receive wire authority limits now starts bytes p).1.inner
    unfolding receive
    receive-grows bytes p = omega (
      arith,
      or_failed-held (
          (accept_bytes limits frames bytes false
              >>= close_reception wire authority limits now starts)
            p),
      go (accept_bytes limits frames bytes false p),
      accept_from-grows false [] bytes p,
    )
      where
        go :
            (x : Passed (List Received))
            → held k
                (elim x.0 as (λ _. Passed WorkerProtocolReception) [
                  | ok items ↦ close_reception wire authority limits now starts items x.1
                  | err e ↦ (err e, x.1)
                ]).1.inner
              ≡ held k x.1.inner
        go (ok items, q) = close_reception-held items q
        go (err e, q) = refl

  module _ (laws : StartStoreLaws starts) where
    -- However often a Worker connects, and whatever it receives, also where that throws: if the store
    -- keeps what it has saved, then one start instruction is accepted at most, and none if the store
    -- held something at first; the store holds something once one has been accepted.
    pub Served-once :
        (first s : S) (n : ℕ)
        → Served first n s
        → n + count_of (laws.holds first) ≤ count_of (laws.holds s)
    Served-once first s n unserved = omega arith
    Served-once first s n (received {n = n'} {s = s'} bytes p q r served same h) = omega (
      arith,
      Served-once first s' n' served,
      ap (λ x. count_of (laws.holds x)) same,
      receive-held wire authority limits now starts (stored_mark starts laws) bytes p q r h,
    )
    Served-once first s n (broken {s = s'} bytes p q e served same h) = omega (
      arith,
      Served-once first s' n served,
      ap (λ x. count_of (laws.holds x)) same,
      receive-grows (stored_mark starts laws) bytes p,
      ap (λ x. held (stored_mark starts laws) x.1.inner) h,
    )
