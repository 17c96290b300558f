-- ===== src/Reducer/History/Numbers.antt =====
-- src/internal/event-store/reducer.ts: the sequence numbers of a replayed history.
use pions.Prelude.{ℕ, ◌+◌, ◌≡◌, refl, ◌∙◌, Option, none, some, List, [], ◌∷◌, String, arith, length}
use mathlib.Core.Path.{subst}
use pions.Except.{ok}
use pions.Platform.{Platform}
use pions.Operation.{Operation, OperationEvent}
use pions.Reducer.Startup.{initial}
use pions.Reducer.{replay_operation, replay_from, reduce_current}
use pions.Reducer.Steps.{create-eq-ok, advance-Admitted, replay_from-cons}
use pions.Reducer.Extends.{dispatch-Extends, dispatch_seq}

-- The events are numbered from `n` on, one by one, and belong to one Operation.
abbrev pub Numbered : String → ℕ → List OperationEvent → Type 0
Numbered operation_id n [] = Unit
Numbered operation_id n (e ∷ events) =
    (e.seq ≡ n) × (e.operation_id ≡ operation_id) × Numbered operation_id (n + 1) events

-- The number of the last event, and the Operation's identifier.
abbrev seq_of : Option Operation → ℕ
seq_of none = 0
seq_of (some o) = o.state_seq

abbrev IsOf : String → Option Operation → Type 0
IsOf operation_id none = Unit
IsOf operation_id (some o) = o.operation_id ≡ operation_id

module _ (p : Platform) where
  reduce_numbers :
      (o : Option Operation) (e : OperationEvent) {next : Operation}
      → reduce_current p o e.metadata e.input ≡ ok next
      → (e.seq ≡ seq_of o + 1)
        × (next.state_seq ≡ e.seq)
        × (e.operation_id ≡ next.operation_id)
        × IsOf next.operation_id o
  unfolding initial
  reduce_numbers none e h =
      let (r, _, one, _, made) = create-eq-ok p e.metadata e.input h in
      (omega arith, ground arith, ground arith, tt)
  reduce_numbers (some o) e h =
      let a = advance-Admitted p o e.metadata e.input h in
      let same = (dispatch-Extends p o e.metadata e.input a.dispatched).operation_id in
      (a.successor, dispatch_seq p o e.metadata e.input a.dispatched, ground arith, ground arith)

  from_numbers :
      (ids : List String) (o : Option Operation) (events : List OperationEvent) (r : Operation)
      → replay_from p ids o events ≡ ok (some r)
      → IsOf r.operation_id o
        × Numbered r.operation_id (seq_of o + 1) events
        × (r.state_seq ≡ seq_of o + length events)
  unfolding replay_from
  from_numbers ids o [] r h =
      let e : some r ≡ o = cc in
      subst
        (λ x.
          IsOf r.operation_id x
          × Unit {0}
          × (r.state_seq ≡ seq_of x + length {A = OperationEvent} []))
        e (refl, tt, omega arith)
  from_numbers ids o (e ∷ events) r h =
      let (next, _, _, _, reduced, rest) = replay_from-cons p ids o e events h in
      let (first, taken, of_next, same) = reduce_numbers o e reduced in
      let (own, later, last) = from_numbers (e.event_id ∷ ids) (some next) events r rest in
      (
        subst (λ i. IsOf i o) own same,
        (
          first,
          of_next ∙ own,
          subst (λ n. Numbered r.operation_id (n + 1) events) (taken ∙ first) later,
        ),
        omega arith,
      )

  -- A history that replays has the sequence numbers 1, 2, 3 and so on, all its events name the
  -- Operation that it rebuilds, and the Operation's own number counts them.
  pub replay_numbers :
      (events : List OperationEvent) {o : Operation}
      → replay_operation p events ≡ ok (some o)
      → Numbered o.operation_id 1 events × (o.state_seq ≡ length events)
  unfolding replay_operation
  replay_numbers events {o} h =
      let (_, numbered, counted) = from_numbers [] none events o h in
      (subst (λ n. Numbered o.operation_id n events) (omega arith) numbered, omega arith)
