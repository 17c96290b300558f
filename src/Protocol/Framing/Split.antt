-- ===== src/Protocol/Framing/Split.antt =====
-- src/internal/worker-protocol.ts: lines whose bytes come in two pieces.
use mathlib.Core.List.{append_assoc}
use pions.Prelude.{
  ℕ, ◌+◌, ◌≡◌, refl, sym, ap, ◌∙◌, Bool, true, false, Option, none, some, List, [], ◌∷◌, ◌++◌,
  length, length-append, ltb, ◌==◌, if◌then◌else◌, Bool-cases, inl, inr, append-nil, arith,
}
use pions.Except.{Except, ok, err}
use pions.Protocol.{ProtocolLimits, ProtocolError, violation, frame_too_large, Session}
use pions.Protocol.Framing.{
  FramedPeer, limit_of, add_event, after_event, is_too_long, accepted_line, end_line, keep_fragment,
  accept_from,
}
use pions.Protocol.Framing.Lines.{at_line_start, accept_from-newline, accept_from-other}

-- Whether the line that comes after `bytes` is the first one still.
abbrev pub still_first : Bool → List ℕ → Bool
still_first first [] = first
still_first first (c ∷ r) = if c == b'\n' then false else still_first first r

add_event-append :
    {E : Type 0} (event : Option E) (xs ys : List E)
    → add_event event xs ++ ys ≡ add_event event (xs ++ ys)
add_event-append none xs ys = refl
add_event-append (some event) xs ys = refl

pub still_first-newline :
    (first : Bool) (c : ℕ) (r : List ℕ) → (c == b'\n') ≡ true → still_first first (c ∷ r) ≡ false
still_first-newline first c r h = ground (arith, h)

pub still_first-other :
    (first : Bool) (c : ℕ) (r : List ℕ)
    → (c == b'\n') ≡ false
    → still_first first (c ∷ r) ≡ still_first first r
still_first-other first c r h = ground (arith, h)

pub still_first-false : (xs : List ℕ) → still_first false xs ≡ false
still_first-false [] = refl
still_first-false (c ∷ r) = ground (arith, still_first-false r)

after_event-eq-ok :
    {P E : Type 0} (event : Option E) (x : Except ProtocolError (List E) × P) {events : List E}
    {p : P}
    → after_event event x ≡ (ok events, p)
    → (later : List E) × (x ≡ (ok later, p)) × (events ≡ add_event event later)
after_event-eq-ok event (ok later, q) h = (later, grind (arith, h), cc)
after_event-eq-ok event (err e, q) h = cc

module _ (limits : ProtocolLimits) {P E : Type 0}
    (accept_frame : List ℕ → Session P (Option E)) where
  end_line-ok :
      (first : Bool) (fragment : List ℕ)
      (rest : FramedPeer P → Except ProtocolError (List E) × FramedPeer P) (p : FramedPeer P)
      (event : Option E) (inner : P)
      → is_too_long limits accept_frame first fragment p ≡ false
      → accept_frame (p.buffered ++ fragment) p.inner ≡ (ok event, inner)
      → end_line limits accept_frame first fragment rest p
        ≡ after_event event (rest (at_line_start inner))
  end_line-ok first fragment rest p event inner short taken = simp (short, taken) refl

  pub end_line-eq-ok :
      (first : Bool) (fragment : List ℕ)
      (rest : FramedPeer P → Except ProtocolError (List E) × FramedPeer P) (p : FramedPeer P)
      (events : List E) (q : FramedPeer P)
      → end_line limits accept_frame first fragment rest p ≡ (ok events, q)
      → (event : Option E) × (inner : P) × (later : List E) × (is_too_long limits accept_frame first
            fragment p
          ≡ false)
        × (accept_frame (p.buffered ++ fragment) p.inner ≡ (ok event, inner))
        × (rest (at_line_start inner) ≡ (ok later, q))
        × (events ≡ add_event event later)
  end_line-eq-ok first fragment rest p events q h =
      go (is_too_long limits accept_frame first fragment p)
        (accept_frame (p.buffered ++ fragment) p.inner) refl refl h
    where
      go :
          (b : Bool) (x : Except ProtocolError (Option E) × P)
          → is_too_long limits accept_frame first fragment p ≡ b
          → accept_frame (p.buffered ++ fragment) p.inner ≡ x
          → (if b
              then (err (violation frame_too_large), p)
              else accepted_line limits accept_frame rest x)
            ≡ (ok events, q)
          → (event : Option E) × (inner : P) × (later : List E) × (is_too_long limits accept_frame
                first fragment p
              ≡ false)
            × (accept_frame (p.buffered ++ fragment) p.inner ≡ (ok event, inner))
            × (rest (at_line_start inner) ≡ (ok later, q))
            × (events ≡ add_event event later)
      go true x short taken h = absurd cc
      go false (ok event, inner) short taken h =
          let (later, went, added) = after_event-eq-ok event (rest (at_line_start inner)) h in
          (event, inner, later, short, taken, went, added)
      go false (err e, inner) short taken h = absurd cc

  lengths :
      (first : Bool) (f g : List ℕ) (p : FramedPeer P)
      → is_too_long limits accept_frame first (f ++ g) p
        ≡ is_too_long limits accept_frame first g (record p { buffered = p.buffered ++ f })
  lengths first f g p =
      let total : length p.buffered + length (f ++ g) ≡ length (p.buffered ++ f) + length g =
        omega (arith, length-append f g, length-append p.buffered f) in
      ap (λ n. ltb (limit_of limits first) n) total

  abbrev pub kept : List ℕ → FramedPeer P → FramedPeer P
  kept fragment p = record p { buffered = p.buffered ++ fragment }

  keep_fragment-ok :
      (first : Bool) (c : ℕ) (r : List ℕ) (p : FramedPeer P)
      → is_too_long limits accept_frame first (c ∷ r) p ≡ false
      → keep_fragment limits accept_frame first (c ∷ r) p ≡ (ok [], kept (c ∷ r) p)
  keep_fragment-ok first c r p short = simp short refl

  pub keep_fragment-eq-ok :
      (first : Bool) (c : ℕ) (r : List ℕ) (p : FramedPeer P) (events : List E) (q : FramedPeer P)
      → keep_fragment limits accept_frame first (c ∷ r) p ≡ (ok events, q)
      → (is_too_long limits accept_frame first (c ∷ r) p ≡ false)
        × (events ≡ [])
        × (q ≡ kept (c ∷ r) p)
  keep_fragment-eq-ok first c r p events q h =
      elim (Bool-cases (is_too_long limits accept_frame first (c ∷ r) p)) [
        | inl long ↦ absurd (ground (arith, h, long))
        | inr short ↦ let same = sym h ∙ keep_fragment-ok first c r p short in (short, cc, cc)
      ]

  -- What is buffered before a fragment counts as if it were a part of it.
  unbuffer :
      (first : Bool) (c : ℕ) (r g ys : List ℕ) (p : FramedPeer P) (events : List E)
      (q : FramedPeer P)
      → is_too_long limits accept_frame first (c ∷ r) p ≡ false
      → accept_from limits accept_frame first g ys (record p { buffered = p.buffered ++ c ∷ r })
        ≡ (ok events, q)
      → accept_from limits accept_frame first (c ∷ r ++ g) ys p ≡ (ok events, q)
  unfolding accept_from
  unbuffer first c r [] [] p events q short h =
      ap (λ f. keep_fragment limits accept_frame first f p) (append-nil (c ∷ r))
      ∙ keep_fragment-ok first c r p short
      ∙ h
  unbuffer first c r (d ∷ g) [] p events q short h =
      let (fits, none_yet, moved) = keep_fragment-eq-ok first d g (kept (c ∷ r) p) events q h in
      keep_fragment-ok first c (r ++ d ∷ g) p (lengths first (c ∷ r) (d ∷ g) p ∙ fits)
      ∙ ap (λ l. (ok [], record p { buffered = l })) (sym (append_assoc p.buffered (c ∷ r) (d ∷ g)))
      ∙ ap (λ e. (ok e, kept (d ∷ g) (kept (c ∷ r) p))) (sym none_yet)
      ∙ ap (λ x. (ok events, x)) (sym moved)
  unbuffer first c r g (d ∷ ys) p events q short h = elim (Bool-cases (d == b'\n')) [
    | inl newline ↦
        let all_of = accept_from-newline limits accept_frame first (c ∷ r ++ g) d ys p newline in
        let part =
          accept_from-newline limits accept_frame first g d ys
            (record p { buffered = p.buffered ++ c ∷ r }) newline in
        let joined : p.buffered ++ (c ∷ r ++ g) ≡ (p.buffered ++ c ∷ r) ++ g =
          sym (append_assoc p.buffered (c ∷ r) g) in
        let rest = accept_from limits accept_frame false [] ys in
        let (event, inner, later, fits, taken, went, added) =
          end_line-eq-ok first g rest (record p { buffered = p.buffered ++ c ∷ r }) events q
            (sym part ∙ h) in
        all_of
        ∙ end_line-ok first (c ∷ r ++ g) rest p event inner (lengths first (c ∷ r) g p ∙ fits)
            (ap (λ l. accept_frame l p.inner) joined ∙ taken)
        ∙ ap (after_event event) went
        ∙ ap (λ e. (ok e, q)) (sym added)
    | inr other ↦
        let all_of = accept_from-other limits accept_frame first (c ∷ r ++ g) d ys p other in
        let part =
          accept_from-other limits accept_frame first g d ys
            (record p { buffered = p.buffered ++ c ∷ r }) other in
        let next = unbuffer first c r (g ++ d ∷ []) ys p events q short (sym part ∙ h) in
        all_of
        ∙ ap (λ f. accept_from limits accept_frame first f ys p) (append_assoc (c ∷ r) g (d ∷ []))
        ∙ next
  ]

  pub accept_from-append :
      (first : Bool) (fragment xs ys : List ℕ) (p : FramedPeer P) (before after : List E)
      (q s : FramedPeer P)
      → accept_from limits accept_frame first fragment xs p ≡ (ok before, q)
      → accept_from limits accept_frame (still_first first xs) [] ys q ≡ (ok after, s)
      → accept_from limits accept_frame first fragment (xs ++ ys) p ≡ (ok (before ++ after), s)
  unfolding accept_from
  accept_from-append first [] [] ys p before after q s h k =
      let none_yet : before ≡ [] = cc in
      let moved : q ≡ p = cc in
      ap (accept_from limits accept_frame first [] ys) (sym moved)
      ∙ k
      ∙ ap (λ e. (ok (e ++ after), s)) (sym none_yet)
  accept_from-append first (c ∷ r) [] ys p before after q s h k =
      let (fits, none_yet, moved) = keep_fragment-eq-ok first c r p before q h in
      ap (λ f. accept_from limits accept_frame first f ys p) (sym (append-nil (c ∷ r)))
      ∙ unbuffer first c r [] ys p after s fits
          (ap (accept_from limits accept_frame first [] ys) (sym moved) ∙ k)
      ∙ ap (λ e. (ok (e ++ after), s)) (sym none_yet)
  accept_from-append first fragment (c ∷ xs) ys p before after q s h k =
      elim (Bool-cases (c == b'\n')) [
        | inl newline ↦
            let rest = accept_from limits accept_frame false [] xs in
            let (event, inner, later, fits, taken, went, added) =
              end_line-eq-ok first fragment rest p before q
                (sym (accept_from-newline limits accept_frame first fragment c xs p newline) ∙ h) in
            let start =
              ap (λ b. accept_from limits accept_frame b [] ys q)
                (still_first-false xs ∙ sym (still_first-newline first c xs newline)) in
            let next =
              accept_from-append false [] xs ys (at_line_start inner) later after q s went
                (start ∙ k) in
            accept_from-newline limits accept_frame first fragment c (xs ++ ys) p newline
            ∙ end_line-ok first fragment (accept_from limits accept_frame false [] (xs ++ ys)) p
                event inner fits taken
            ∙ ap (after_event event) next
            ∙ ap (λ e. (ok e, s))
                (sym (add_event-append event later after) ∙ ap (λ e. e ++ after) (sym added))
        | inr other ↦
            accept_from-other limits accept_frame first fragment c (xs ++ ys) p other
            ∙ accept_from-append first (fragment ++ c ∷ []) xs ys p before after q s
                (sym (accept_from-other limits accept_frame first fragment c xs p other) ∙ h)
                (ap (λ b. accept_from limits accept_frame b [] ys q)
                    (sym (still_first-other first c xs other))
                  ∙ k)
      ]
