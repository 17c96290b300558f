-- ===== src/Reducer/History/Split.antt =====
-- src/internal/event-store/reducer.ts: a replay in two parts, of a prefix of a history and of what
-- follows it.
use pions.Prelude.{
  ◌≡◌, refl, sym, ap, ◌∙◌, Bool, true, false, not, Option, none, some, List, [], ◌∷◌, ◌++◌, String,
  any, str_eq,
}
use mathlib.Core.Path.{subst}
use pions.Except.{Except, ok, err, throw_if, ◌>>=◌, ◌>>◌, >>=-eq-ok}
use pions.Platform.{Platform}
use pions.Operation.{Operation, OperationEvent}
use pions.Reducer.{replay_operation, replay_from, reduce_operation}
use pions.Reducer.Steps.{advance-Admitted, replay_from-cons}
use pions.Reducer.Extends.{Extends, Extends-refl, Extends-trans, dispatch-Extends}

-- The identifiers seen after some more events.
abbrev pub seen : List String → List OperationEvent → List String
seen ids [] = ids
seen ids (e ∷ events) = seen (e.event_id ∷ ids) events

-- Two guards and an action in front of a sequence of two parts.
guarded :
    {E A B C : Type 0} (t d : Bool) (x y : E) (m : Except E A) (f : A → Except E C)
    (g : A → Except E B) (k : B → Except E C)
    → ((a : A) → f a ≡ (g a >>= k))
    → (throw_if t x >> (throw_if d y >> (m >>= f)))
      ≡ ((throw_if t x >> (throw_if d y >> (m >>= g))) >>= k)
guarded true d x y m f g k h = refl
guarded false true x y m f g k h = refl
guarded false false x y (err e) f g k h = refl
guarded false false x y (ok a) f g k h = h a

module _ (p : Platform) where
  -- Replaying one list and then another is replaying both, also where an event is refused: the
  -- second replay starts from the identifiers and the Operation that the first leaves.
  pub replay_from-append :
      (ids : List String) (o : Option Operation) (first later : List OperationEvent)
      → replay_from p ids o (first ++ later)
        ≡ (replay_from p ids o first >>= λ next. replay_from p (seen ids first) next later)
  unfolding replay_from
  replay_from-append ids o [] later = refl
  replay_from-append ids o (e ∷ first) later =
      guarded (not (p.is_timestamp e.timestamp)) (any (str_eq e.event_id) ids) _ _
        (reduce_operation p o e) _ _ _
        (λ next. replay_from-append (e.event_id ∷ ids) (some next) first later)

  pub from-Extends :
      (ids : List String) (o : Operation) (events : List OperationEvent) {r : Option Operation}
      → replay_from p ids (some o) events ≡ ok r
      → (n : Operation) × (r ≡ some n) × Extends o n
  unfolding replay_from
  from-Extends ids o [] h = (o, cc, Extends-refl o)
  from-Extends ids o (e ∷ events) h =
      let (next, _, _, _, reduced, rest) = replay_from-cons p ids (some o) e events h in
      let (n, same, after) = from-Extends (e.event_id ∷ ids) next events rest in
      let a = advance-Admitted p o e.metadata e.input reduced in
      (n, same, Extends-trans (dispatch-Extends p o e.metadata e.input a.dispatched) after)

  -- A history that is not empty rebuilds an Operation.
  replayed_some :
      (e : OperationEvent) (events : List OperationEvent) {r : Option Operation}
      → replay_from p [] none (e ∷ events) ≡ ok r
      → (o : Operation) × (r ≡ some o)
  replayed_some e events h =
      let (first, _, _, _, _, rest) = replay_from-cons p [] none e events h in
      let (o, same, _) = from-Extends (e.event_id ∷ []) first events rest in (o, same)

  -- If a history replays, then so does each shorter one that is not empty and that it begins with. Of
  -- the Operation that the shorter one rebuilds, the identifier, the task, the requested and effective
  -- configurations and the size limit are unchanged at the end of the longer one; so are, once
  -- recorded, the presentation, the Worker's identity and observed configuration, the run evidence, the
  -- Result and the time of the stop; a launched Worker stays launched, and the cancellation epoch has
  -- not fallen.
  pub replay_append-Extends :
      (e : OperationEvent) (first later : List OperationEvent) (n : Operation)
      → replay_operation p (e ∷ (first ++ later)) ≡ ok (some n)
      → (o : Operation) × (replay_operation p (e ∷ first) ≡ ok (some o)) × Extends o n
  unfolding replay_operation
  replay_append-Extends e first later n late =
      let (r, early, rest) =
        >>=-eq-ok (replay_from p [] none (e ∷ first))
          (λ next. replay_from p (seen [] (e ∷ first)) next later)
          (sym (replay_from-append [] none (e ∷ first) later) ∙ late) in
      let (o, replayed) = replayed_some e first early in
      let (m, same, extended) =
        from-Extends (seen [] (e ∷ first)) o later {r = some n}
          (subst (λ x. replay_from p (seen [] (e ∷ first)) x later ≡ ok (some n)) replayed rest) in
      let whole : m ≡ n = cc in (o, early ∙ ap ok replayed, subst (Extends o) whole extended)
