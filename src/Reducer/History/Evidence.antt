-- ===== src/Reducer/History/Evidence.antt =====
-- src/internal/event-store/reducer.ts: a Result, a confirmed stop and an acknowledgement, and the
-- events that record them.
use pions.Prelude.{
  ◌≡◌, refl, ◌⊎◌, inl, inr, Bool, true, false, ◌||◌, Option, none, some, List, [], ◌∷◌, String,
  arith, any, is_some,
}
use pions.Except.{ok}
use pions.Platform.{Platform}
use pions.Operation.{
  Operation, OperationEvent, EventMetadata, EventInput, OperationRequested, operation_requested,
  result_accepted, worker_stop_confirmed, cancel_acknowledged, start_instruction_acknowledged,
}
use pions.Reducer.Guards.{is_completed}
use pions.Reducer.Startup.{initial}
use pions.Reducer.{dispatch, replay_operation, replay_from, reduce_current}
use pions.Reducer.Steps.{create-eq-ok, advance-Admitted, replay_from-cons}
use pions.Reducer.Stages.{replay-IsStaged}

abbrev pub is_result_event : EventInput → Bool
is_result_event (result_accepted _) = true
is_result_event _ = false

abbrev pub is_stop_event : EventInput → Bool
is_stop_event (worker_stop_confirmed _) = true
is_stop_event (cancel_acknowledged _ _) = true
is_stop_event _ = false

abbrev pub is_acknowledgement_event : EventInput → Bool
is_acknowledgement_event (start_instruction_acknowledged _ _) = true
is_acknowledgement_event _ = false

abbrev pub has_event : (EventInput → Bool) → List OperationEvent → Bool
has_event test events = any (λ e. test e.input) events

or_true : (a b : Bool) → (a ≡ true) ⊎ (b ≡ true) → a || b ≡ true
or_true a b h = ground arith

-- A fact about an Operation that a request leaves false and that only some events make true.
module _ (p : Platform) (holds : Operation → Bool) (test : EventInput → Bool)
    (base : (m : EventMetadata) (r : OperationRequested) → holds (initial m r) ≡ false)
    (step : (o : Operation) (m : EventMetadata) (e : EventInput) (next : Operation)
      → dispatch p o m e ≡ ok next
      → holds next ≡ true
      → (test e ≡ true) ⊎ (holds o ≡ true)) where
  abbrev held : Option Operation → Bool
  held none = false
  held (some o) = holds o

  reduce_held :
      (o : Option Operation) (m : EventMetadata) (e : EventInput) (next : Operation)
      → reduce_current p o m e ≡ ok next
      → holds next ≡ true
      → (test e ≡ true) ⊎ (held o ≡ true)
  reduce_held none m e next h t =
      let (r, _, _, _, made) = create-eq-ok p m e h in ground (arith, base m r)
  reduce_held (some o) m e next h t = step o m e next (advance-Admitted p o m e h).dispatched t

  from_held :
      (ids : List String) (o : Option Operation) (events : List OperationEvent)
      {r : Option Operation}
      → replay_from p ids o events ≡ ok r
      → held r ≡ true
      → (has_event test events ≡ true) ⊎ (held o ≡ true)
  unfolding replay_from
  from_held ids o [] {r} h t = let e : o ≡ r = cc in ground arith
  from_held ids o (e ∷ events) h t =
      let (next, _, _, _, reduced, rest) = replay_from-cons p ids o e events h in
      elim (from_held (e.event_id ∷ ids) (some next) events rest t) [
        | inl later ↦ inl (or_true (test e.input) (has_event test events) (inr later))
        | inr before ↦ elim (reduce_held o e.metadata e.input next reduced before) [
          | inl now ↦ inl (or_true (test e.input) (has_event test events) (inl now))
          | inr old ↦ inr old
        ]
      ]

  replay_held :
      (events : List OperationEvent) {o : Operation}
      → replay_operation p events ≡ ok (some o)
      → holds o ≡ true
      → has_event test events ≡ true
  unfolding replay_operation
  replay_held events h t = elim (from_held [] none events h t) [ inl x ↦ x | inr x ↦ cc ]

module _ (p : Platform) where
  result_step :
      (o : Operation) (m : EventMetadata) (e : EventInput) (next : Operation)
      → dispatch p o m e ≡ ok next
      → is_some next.result ≡ true
      → (is_result_event e ≡ true) ⊎ (is_some o.result ≡ true)
  unfolding dispatch
  result_step o m (operation_requested _) next h t = ground arith
  result_step o m _ next h t = ground arith

  stop_step :
      (o : Operation) (m : EventMetadata) (e : EventInput) (next : Operation)
      → dispatch p o m e ≡ ok next
      → is_some next.worker_stop_confirmed_at ≡ true
      → (is_stop_event e ≡ true) ⊎ (is_some o.worker_stop_confirmed_at ≡ true)
  unfolding dispatch
  stop_step o m (operation_requested _) next h t = ground arith
  stop_step o m _ next h t = ground arith

  acknowledgement_step :
      (o : Operation) (m : EventMetadata) (e : EventInput) (next : Operation)
      → dispatch p o m e ≡ ok next
      → is_some next.start_instruction_acknowledgement ≡ true
      → (is_acknowledgement_event e ≡ true) ⊎ (is_some o.start_instruction_acknowledgement ≡ true)
  unfolding dispatch
  acknowledgement_step o m (operation_requested _) next h t = ground arith
  acknowledgement_step o m _ next h t = ground arith

  -- If a replayed Operation is completed, then its history has an accepted Result, a confirmed stop
  -- of the Worker, and an acknowledged start instruction.
  pub completed_history :
      (events : List OperationEvent) {o : Operation}
      → replay_operation p events ≡ ok (some o)
      → is_completed o.state ≡ true
      → (has_event is_result_event events ≡ true)
        × (has_event is_stop_event events ≡ true)
        × (has_event is_acknowledgement_event events ≡ true)
  unfolding initial
  completed_history events {o} h c =
      let v = replay-IsStaged p events h in
      (
        replay_held p (λ x. is_some x.result) is_result_event (λ m r. refl) result_step events h
            (v.completed_settled c).0,
        replay_held p (λ x. is_some x.worker_stop_confirmed_at) is_stop_event (λ m r. refl)
            stop_step events h (v.completed_settled c).1,
        replay_held p (λ x. is_some x.start_instruction_acknowledgement) is_acknowledgement_event
            (λ m r. refl) acknowledgement_step events h
            (v.result_acknowledged (v.completed_settled c).0),
      )
