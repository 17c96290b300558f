-- ===== src/Protocol/Framing/Lines.antt =====
-- src/internal/worker-protocol.ts: how `acceptBytes` finds a line that has come whole.
use mathlib.Core.List.{append_assoc}
use pions.Prelude.{
  ℕ, ◌≤◌, ◌≡◌, refl, sym, ap, ◌∙◌, Bool, true, false, not, Option, none, List, [], ◌∷◌, ◌++◌,
  length, all, ◌==◌, &&-eq-true, append-nil, arith,
}
use pions.Except.{Except, ok, err}
use pions.Protocol.{ProtocolLimits, ProtocolError, Session}
use pions.Protocol.Framing.{FramedPeer, limit_of, after_event, is_too_long, end_line, accept_from}

abbrev pub in_line : ℕ → Bool
in_line c = not (c == b'\n')

abbrev pub at_line_start : {P : Type 0} → P → FramedPeer P
at_line_start inner = record { buffered = []; inner = inner }

pub after_event-none :
    {P E : Type 0} (x : Except ProtocolError (List E) × P) → after_event none x ≡ x
after_event-none (ok events, p) = refl
after_event-none (err e, p) = refl

module _ (limits : ProtocolLimits) {P E : Type 0}
    (accept_frame : List ℕ → Session P (Option E)) where
  pub accept_from-newline :
      (first : Bool) (fragment : List ℕ) (c : ℕ) (rest : List ℕ) (p : FramedPeer P)
      → (c == b'\n') ≡ true
      → accept_from limits accept_frame first fragment (c ∷ rest) p
        ≡ end_line limits accept_frame first fragment
            (accept_from limits accept_frame false [] rest)
            p
  unfolding accept_from
  accept_from-newline first fragment c rest p h = grind (arith, h)

  pub accept_from-other :
      (first : Bool) (fragment : List ℕ) (c : ℕ) (rest : List ℕ) (p : FramedPeer P)
      → (c == b'\n') ≡ false
      → accept_from limits accept_frame first fragment (c ∷ rest) p
        ≡ accept_from limits accept_frame first (fragment ++ c ∷ []) rest p
  unfolding accept_from
  accept_from-other first fragment c rest p h = grind (arith, h)

  accept_from-line :
      (first : Bool) (fragment line rest : List ℕ) (p : FramedPeer P)
      → all in_line line ≡ true
      → accept_from limits accept_frame first fragment (line ++ b'\n' ∷ rest) p
        ≡ end_line limits accept_frame first
            (fragment ++ line)
            (accept_from limits accept_frame false [] rest)
            p
  accept_from-line first fragment [] rest p h =
      accept_from-newline first fragment b'\n' rest p refl
      ∙ ap
          (λ f.
            end_line limits accept_frame first f (accept_from limits accept_frame false [] rest) p)
          (sym (append-nil fragment))
  accept_from-line first fragment (c ∷ line) rest p h =
      let (here, later) = &&-eq-true (in_line c) (all in_line line) h in
      accept_from-other first fragment c (line ++ b'\n' ∷ rest) p (ground arith)
      ∙ accept_from-line first (fragment ++ c ∷ []) line rest p later
      ∙ ap
          (λ f.
            end_line limits accept_frame first f (accept_from limits accept_frame false [] rest) p)
          (append_assoc fragment (c ∷ []) line)

  -- A whole line at the start of a line, which is taken.
  pub accept_from-taken :
      (first : Bool) (line rest : List ℕ) (p q : P) (event : Option E)
      → all in_line line ≡ true
      → length line ≤ limit_of limits first
      → accept_frame line p ≡ (ok event, q)
      → accept_from limits accept_frame first [] (line ++ b'\n' ∷ rest) (at_line_start p)
        ≡ after_event event (accept_from limits accept_frame false [] rest (at_line_start q))
  accept_from-taken first line rest p q event h short taken =
      accept_from-line first [] line rest (at_line_start p) h ∙ end_short
    where
      fits : is_too_long limits accept_frame first line (at_line_start p) ≡ false
      fits = ground arith

      end_short :
          end_line limits accept_frame first line
            (accept_from limits accept_frame false [] rest)
            (at_line_start p)
          ≡ after_event event (accept_from limits accept_frame false [] rest (at_line_start q))
      end_short = simp (fits, taken) refl
