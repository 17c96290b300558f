-- ===== src/Reducer/Steps.antt =====
-- src/internal/event-store/reducer.ts: what an accepted event has passed, and induction over a
-- replayed list of events.
use pions.Prelude.{
  ◌+◌, String, ◌≡◌, refl, Bool, false, ◌&&◌, not, Option, none, some, List, [], ◌∷◌, str_eq, any,
  eq_iff, arith,
}
use mathlib.Core.Path.{subst}
use pions.Except.{ok, throw_if-eq-ok, >>=-eq-ok, >>-eq-ok}
use pions.Platform.{Platform}
use pions.Operation.{
  Operation, OperationEvent, EventMetadata, EventInput, operation_requested, OperationRequested,
}
use pions.Reducer.Guards.{is_terminal, validate_envelope, valid_initial_configuration}
use pions.Reducer.Startup.{on_operation_requested, initial}
use pions.Reducer.{
  is_cleanup_event, is_request, dispatch, create, advance, reduce_current, reduce_operation,
  replay_from,
}

-- What an event of an existing Operation has passed before its case.
pub record Admitted (p : Platform) (o : Operation) (m : EventMetadata) (e : EventInput)
    (next : Operation) : Type 0 where
  pub own : m.operation_id ≡ o.operation_id
  pub successor : m.seq ≡ o.state_seq + 1
  pub alive : is_terminal o.state && not (is_cleanup_event e) ≡ false
  pub no_request : is_request e ≡ false
  pub dispatched : dispatch p o m e ≡ ok next

not-eq-false : (b : Bool) → not b ≡ false → b ≡ Bool.true
not-eq-false b h = ground arith

module _ (p : Platform) where
  pub advance-Admitted :
      (o : Operation) (m : EventMetadata) (e : EventInput) {next : Operation}
      → advance p o m e ≡ ok next
      → Admitted p o m e next
  unfolding advance
  advance-Admitted o m e h = ground (arith, eq_iff m.operation_id o.operation_id)

  -- A first event is a request with sequence number 1.
  pub create-eq-ok :
      (m : EventMetadata) (e : EventInput) {next : Operation}
      → create p m e ≡ ok next
      → (r : OperationRequested) × (e ≡ operation_requested r)
        × (m.seq ≡ 1)
        × (valid_initial_configuration r ≡ Bool.true)
        × (next ≡ initial m r)
  unfolding create on_operation_requested
  create-eq-ok m (operation_requested r) h = (r, refl, ground arith, ground arith, ground arith)
  create-eq-ok m _ h = cc

  -- What each event of a replayed list has passed.
  pub replay_from-cons :
      (ids : List String) (o : Option Operation) (e : OperationEvent) (events : List OperationEvent)
      {r : Option Operation}
      → replay_from p ids o (e ∷ events) ≡ ok r
      → (next : Operation) × (p.is_timestamp e.timestamp ≡ Bool.true)
        × (any (str_eq e.event_id) ids ≡ false)
        × (validate_envelope e.metadata ≡ ok tt)
        × (reduce_current p o e.metadata e.input ≡ ok next)
        × (replay_from p (e.event_id ∷ ids) (some next) events ≡ ok r)
  unfolding replay_from reduce_operation
  replay_from-cons ids o e events h =
      let (dated, h₁) = throw_if-eq-ok (not (p.is_timestamp e.timestamp)) _ _ h in
      let (fresh, h₂) = throw_if-eq-ok (any (str_eq e.event_id) ids) _ _ h₁ in
      let (next, reduced, rest) = >>=-eq-ok (reduce_operation p o e) _ h₂ in
      let (valid, current) = >>-eq-ok (validate_envelope e.metadata) _ reduced in
      (next, not-eq-false _ dated, fresh, valid, current, rest)

-- What a request establishes and every accepted event keeps holds after a replay.
abbrev pub Holds : (Operation → Type 0) → Option Operation → Type 0
Holds P none = Unit
Holds P (some o) = P o

module _ (p : Platform) (P : Operation → Type 0)
    (base : (m : EventMetadata) (e : EventInput) (next : Operation)
      → create p m e ≡ ok next
      → P next)
    (step : (o : Operation) (m : EventMetadata) (e : EventInput) (next : Operation)
      → P o
      → Admitted p o m e next
      → P next) where
  reduce_current-Holds :
      (o : Option Operation) (m : EventMetadata) (e : EventInput) (next : Operation)
      → Holds P o
      → reduce_current p o m e ≡ ok next
      → P next
  reduce_current-Holds none m e next q h = base m e next h
  reduce_current-Holds (some o) m e next q h = step o m e next q (advance-Admitted p o m e h)

  pub replay_from-Holds :
      (ids : List String) (o : Option Operation) (events : List OperationEvent)
      {r : Option Operation}
      → Holds P o
      → replay_from p ids o events ≡ ok r
      → Holds P r
  unfolding replay_from
  replay_from-Holds ids o [] q h = let e : o ≡ _ = cc in subst (Holds P) e q
  replay_from-Holds ids o (e ∷ events) q h =
      let (next, _, _, _, reduced, rest) = replay_from-cons p ids o e events h in
      replay_from-Holds (e.event_id ∷ ids) (some next) events
        (reduce_current-Holds o e.metadata e.input next q reduced) rest
