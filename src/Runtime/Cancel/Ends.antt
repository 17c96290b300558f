-- ===== src/Runtime/Cancel/Ends.antt =====
-- src/internal/runtime.ts: how a cancellation ends.
use mathlib.Core.Path.{subst}
use pions.Prelude.{
  ℕ, ◌+◌, ◌≤◌, ◌<◌, ◌≡◌, inl, inr, refl, sym, String, Bool, true, false, ◌||◌, Option, ltb, leb,
  Bool-cases, arith,
}
use pions.Platform.{Platform}
use pions.Text.{is_safe_integer}
use pions.Types.Evidence.{OperationState}
use pions.Operation.{Operation, EventInput, cancel_dispatched, operation_cancelled}
use pions.Reducer.Guards.{is_queued, is_started, is_cancelling}
use pions.Store.Backend.{Storage, StorageLaws}
use pions.Store.Progress.{IsAppendable}
use pions.Runtime.{World, Run, ◌>>◌, get_operation, advance}
use pions.Runtime.Steps.{Ends, Ends-bind, IsStored, IsReliable, get_operation-Ends, advance-Ends}
use pions.Runtime.Cancel.Events.{
  confirmed_is_some, requested_in, counted, acknowledged, cancelled_now, unproven_now,
  requested-IsAppendable, acknowledged-IsAppendable, dispatched-IsAppendable, unproven-IsAppendable,
  cancelled-IsAppendable,
}
use pions.Runtime.Cancel.{
  CancelAnswer, rejected, settled, stale_epoch, future_epoch, epoch_or_next, append, finish_cancel,
  carry_out, settle_with, cancel_from, cancel,
}

-- The Operation has ended as the evidence says, in its epoch.
abbrev pub final_state : Bool → OperationState
final_state true = OperationState.cancelled
final_state false = OperationState.unknown

module _ (p : Platform) {S : Type 0} (b : Storage S) (laws : StorageLaws b) (clock : ℕ → String)
    (operation_id : String) (r : IsReliable p b clock operation_id) where
  abbrev Stored : Operation → World S → Type 0
  Stored = IsStored p b clock operation_id

  abbrev pub Ended : ℕ → Bool → Operation → World S → Type 0
  Ended epoch evidence a w =
      Stored a w × (a.state ≡ final_state evidence) × (a.cancellation_epoch ≡ epoch)

  -- An event that is taken, before the rest.
  append-before :
      {A : Type 0} (o next : Operation) (input : EventInput) (w : World S) (rest : Run S A)
      (Q : A → World S → Type 0)
      → Stored o w
      → IsAppendable p operation_id o input (clock w.ticks) next
      → ((w' : World S) → Stored next w' → Ends rest w' Q)
      → Ends (append p b clock operation_id input >> rest) w Q
  append-before o next input w rest Q stored a ends =
      Ends-bind (advance p b clock operation_id input) (λ _. rest) w
        (λ x w'. (x ≡ next) × Stored next w') Q
        (advance-Ends p b clock operation_id laws o next input w r stored a)
        (λ x w' (_, kept). ends w' kept)

  -- The last event.
  append-last :
      (o next : Operation) (input : EventInput) (w : World S) (epoch : ℕ) (evidence : Bool)
      → Stored o w
      → IsAppendable p operation_id o input (clock w.ticks) next
      → next.state ≡ final_state evidence
      → next.cancellation_epoch ≡ epoch
      → Ends (append p b clock operation_id input) w (Ended epoch evidence)
  append-last o next input w epoch evidence stored a ends in_epoch =
      let (x, returned, (e, kept)) =
        advance-Ends p b clock operation_id laws o next input w r stored a in
      (
        x,
        returned,
        subst (λ y. Ended epoch evidence y (append p b clock operation_id input w).1) (sym e)
            (kept, ends, in_epoch),
      )

  finish_cancel-Ended :
      (o : Operation) (w : World S) (evidence : Bool)
      → is_safe_integer o.cancellation_epoch ≡ true
      → is_cancelling o.state ≡ true
      → Stored o w
      → is_safe_integer (o.state_seq + 2) ≡ true
      → Ends
          (finish_cancel p b clock operation_id o.cancellation_epoch evidence)
          w
          (Ended o.cancellation_epoch evidence)
  unfolding finish_cancel
  finish_cancel-Ended o w false safe_epoch cancels stored safe =
      append-last o (unproven_now o) _ w _ false stored
        (unproven-IsAppendable p b clock operation_id r o safe_epoch cancels w.ticks (ground arith))
        refl refl
  finish_cancel-Ended o w true safe_epoch cancels stored safe =
      let next = acknowledged o (clock w.ticks) in
      append-before o next _ w
        (append p b clock operation_id (operation_cancelled o.cancellation_epoch))
        (Ended o.cancellation_epoch true) stored
        (acknowledged-IsAppendable p b clock operation_id r o safe_epoch cancels w.ticks
          (ground arith))
        (λ w' kept.
          append-last next (cancelled_now next) _ w' _ true kept
            (cancelled-IsAppendable p b clock operation_id r next safe_epoch cancels w'.ticks
              (confirmed_is_some o.worker_stop_confirmed_at (clock w.ticks)) (ground arith))
            refl refl)

  dispatch_cancel-Ended :
      (o : Operation) (w : World S) (evidence : Bool)
      → is_safe_integer o.cancellation_epoch ≡ true
      → is_cancelling o.state ≡ true
      → Stored o w
      → is_safe_integer (o.state_seq + 3) ≡ true
      → Ends
          (append p b clock operation_id (cancel_dispatched o.cancellation_epoch)
            >> finish_cancel p b clock operation_id o.cancellation_epoch evidence)
          w
          (Ended o.cancellation_epoch evidence)
  dispatch_cancel-Ended o w evidence safe_epoch cancels stored safe =
      append-before o (counted o) _ w
        (finish_cancel p b clock operation_id o.cancellation_epoch evidence)
        (Ended o.cancellation_epoch evidence) stored
        (dispatched-IsAppendable p b clock operation_id r o safe_epoch cancels w.ticks
          (ground arith))
        (λ w' kept.
          finish_cancel-Ended (counted o) w' evidence safe_epoch cancels kept (ground arith))

  carry_out-Ended :
      (o : Operation) (w : World S) (epoch : ℕ) (evidence : Bool)
      → is_queued o.state || is_started o.state ≡ true
      → o.cancellation_epoch < epoch
      → is_safe_integer epoch ≡ true
      → Stored o w
      → is_safe_integer (o.state_seq + 4) ≡ true
      → Ends (carry_out p b clock operation_id epoch evidence) w (Ended epoch evidence)
  unfolding carry_out
  carry_out-Ended o w epoch evidence live later safe_epoch stored safe =
      append-before o (requested_in o epoch) _ w
        (append p b clock operation_id (cancel_dispatched epoch)
          >> finish_cancel p b clock operation_id epoch evidence)
        (Ended epoch evidence) stored
        (requested-IsAppendable p b clock operation_id r o w.ticks epoch live later safe_epoch
          (ground arith))
        (λ w' kept.
          dispatch_cancel-Ended (requested_in o epoch) w' evidence safe_epoch refl kept
            (ground arith))

  -- What a cancellation of an Operation leaves, for the epoch that is asked for.
  abbrev pub Answered : Operation → ℕ → Bool → World S → CancelAnswer → World S → Type 0
  Answered o epoch evidence w (rejected stale_epoch given) w' =
      (given ≡ epoch) × (epoch ≤ o.cancellation_epoch) × (w' ≡ w)
  Answered o epoch evidence w (rejected future_epoch given) w' =
      (given ≡ epoch) × (o.cancellation_epoch + 1 < epoch) × (w' ≡ w)
  Answered o epoch evidence w (settled given next) w' =
      (given ≡ epoch) × (epoch ≡ o.cancellation_epoch + 1) × Ended epoch evidence next w'

  cancel_from-Answered :
      (requested : Option ℕ) (evidence : Bool) (o : Operation) (w : World S)
      → Stored o w
      → is_queued o.state || is_started o.state ≡ true
      → is_safe_integer (o.cancellation_epoch + 1) ≡ true
      → is_safe_integer (o.state_seq + 4) ≡ true
      → Ends
          (cancel_from p b clock operation_id requested evidence o)
          w
          (Answered o (epoch_or_next requested o) evidence w)
  unfolding cancel_from
  cancel_from-Answered requested evidence o w stored live safe_epoch safe =
      let epoch = epoch_or_next requested o in
      elim (Bool-cases (leb epoch o.cancellation_epoch)) [
        | inl stale ↦ rw stale (rejected stale_epoch epoch, refl, (refl, ground arith, refl))
        | inr later ↦ elim (Bool-cases (ltb (o.cancellation_epoch + 1) epoch)) [
          | inl future ↦
              rw (later, future) (rejected future_epoch epoch, refl, (refl, ground arith, refl))
          | inr near ↦
              rw (later, near)
                (Ends-bind (carry_out p b clock operation_id epoch evidence)
                  (settle_with p b clock operation_id epoch) w (Ended epoch evidence)
                  (Answered o epoch evidence w)
                  (carry_out-Ended o w epoch evidence live (ground arith) (ground arith) stored
                    safe)
                  (λ x w' ended. (settled epoch x, refl, (refl, ground arith, ended))))
        ]
      ]

  -- A cancellation of a stored Operation that is queued, starting or running is answered without an
  -- error, if the storage writes, the clock tells the time, and the counters stay safe integers. An
  -- epoch up to the present one is refused as stale and one beyond the next as future, each with the
  -- epoch asked for and nothing written. The next epoch, also the one taken if none is asked for, is
  -- settled: the stored Operation is in that epoch, cancelled if the Worker proved its stop, and
  -- unknown if not.
  pub cancel-Answered :
      (requested : Option ℕ) (evidence : Bool) (o : Operation) (w : World S)
      → Stored o w
      → is_queued o.state || is_started o.state ≡ true
      → is_safe_integer (o.cancellation_epoch + 1) ≡ true
      → is_safe_integer (o.state_seq + 4) ≡ true
      → Ends
          (cancel p b clock operation_id requested evidence)
          w
          (Answered o (epoch_or_next requested o) evidence w)
  unfolding cancel get_operation
  cancel-Answered requested evidence o w stored live safe_epoch safe =
      let (x, returned, (e, _)) = get_operation-Ends p b clock operation_id o w stored in
      Ends-bind (get_operation p b clock operation_id)
        (cancel_from p b clock operation_id requested evidence) w (λ a w'. (a ≡ o) × (w' ≡ w))
        (Answered o (epoch_or_next requested o) evidence w) (x, returned, (e, refl))
        (λ a w' (same, unmoved).
          rw (same, unmoved)
            (cancel_from-Answered requested evidence o w stored live safe_epoch safe))
