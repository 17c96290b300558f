-- ===== src/Runtime/Handoff/Ends.antt =====
-- src/internal/runtime.ts: the handoff of a recovered Worker, given to the reducer.
use mathlib.Core.Path.{subst}
use pions.Prelude.{
  ℕ, ◌+◌, ◌≡◌, refl, sym, ap, ◌∙◌, String, true, false, some, str_eq, eq_iff, non_empty, get_last?,
  get_last?-append, Bool-cases, inl, inr, arith,
}
use pions.Except.{ok}
use pions.Platform.{Platform}
use pions.Text.{is_safe_integer}
use pions.Types.Evidence.{StartInstructionReference, StartDeliveryAuthorityEvidence}
use pions.Operation.{Operation, start_delivery_authority_revoked}
use pions.Codec.Schema.{event_schema}
use pions.Reducer.Guards.{is_started}
use pions.Reducer.Delivery.{is_pending, resumes, on_authority_revoked}
use pions.Reducer.Handoffs.{is_next, replay_handoff}
use pions.Store.Reopen.{load-Opened, open_record-eq-ok}
use pions.Reducer.{dispatch}
use pions.Store.{event_after}
use pions.Store.Backend.{Storage, StorageLaws}
use pions.Store.Progress.{IsAppendable}
use pions.Runtime.{World, ◌>>=◌, get_operation}
use pions.Runtime.Steps.{
  Ends, Ends-bind, IsStored, IsReliable, clocked-IsAppendable, get_operation-Ends, advance-Ends,
}
use pions.Runtime.Handoff.Successors.{waits_for_next, handed_over, resumed, next_waits, next_other}
use pions.Runtime.Handoff.{
  is_same_worker, new_dispatcher, next_dispatcher, successor_of, recovered_instruction, give,
  recovered_identified, authority_revoked,
}

module _ (p : Platform) {S : Type 0} (b : Storage S) (laws : StorageLaws b) (clock : ℕ → String)
    (operation_id : String) (r : IsReliable p b clock operation_id) where
  -- The last handoff waits, for this successor.
  abbrev pub HandedOver : String → ℕ → Operation → World S → Type 0
  HandedOver successor generation a w =
      IsStored p b clock operation_id a w
      × (resumes (get_last? a.start_delivery_handoffs) successor generation ≡ true)

  module _ (o : Operation) (previous : StartDeliveryAuthorityEvidence)
      (started : is_started o.state ≡ true)
      (authorized : o.start_delivery_authority ≡ some previous)
      (waits : waits_for_next previous (get_last? o.start_delivery_handoffs) ≡ true)
      (room : is_safe_integer (o.state_seq + 1) ≡ true)
      (safe : is_safe_integer (previous.delivery_generation + 1) ≡ true) where
    abbrev successor : String
    successor = next_dispatcher previous (get_last? o.start_delivery_handoffs)

    abbrev next_at : ℕ → Operation
    next_at n =
        handed_over o previous successor (clock n)
          (is_pending (get_last? o.start_delivery_handoffs))

    revoked-IsAppendable :
        (n : ℕ)
        → str_eq successor previous.dispatcher_id ≡ false
        → non_empty successor ≡ true
        → IsAppendable p operation_id o
            (start_delivery_authority_revoked successor (previous.delivery_generation + 1))
            (clock n)
            (next_at n)
    unfolding event_schema dispatch event_after on_authority_revoked
    revoked-IsAppendable n other named =
        let pending = get_last? o.start_delivery_handoffs in
        let same = resumed previous pending waits in
        let legal : dispatch p o
              (event_after operation_id o.state_seq
                (start_delivery_authority_revoked successor (previous.delivery_generation + 1))
                (clock n)).metadata
              (start_delivery_authority_revoked successor (previous.delivery_generation + 1))
            ≡ ok (next_at n) =
          elim (Bool-cases (is_pending pending)) [
            | inl begun ↦ rw (authorized, begun) (ground (arith, same, begun, started, other))
            | inr fresh ↦ rw (authorized, fresh) (ground (arith, same, fresh, started, other))
          ] in
        clocked-IsAppendable p b clock operation_id r o n _ _ room (ground arith) refl
          (ground arith) legal

    next_resumes :
        (n : ℕ)
        → resumes
            (get_last? (next_at n).start_delivery_handoffs)
            successor
            (previous.delivery_generation + 1)
          ≡ true
    next_resumes n =
        let pending = get_last? o.start_delivery_handoffs in
        let same = resumed previous pending waits in
        elim (Bool-cases (is_pending pending)) [
          | inl begun ↦ rw begun (sym same ∙ begun)
          | inr fresh ↦ rw (fresh, get_last?-append) (ground (arith, eq_iff successor successor))
        ]

    abbrev Chosen : StartInstructionReference → World S → Type 0
    Chosen i w =
        (i ≡ successor_of previous (get_last? o.start_delivery_handoffs))
        × IsStored p b clock operation_id o w

    chosen :
        (w : World S) (instance_id start_token : String)
        → IsStored p b clock operation_id o w
        → is_same_worker o.worker_identity instance_id start_token ≡ true
        → Ends (recovered_identified p b clock operation_id instance_id start_token) w Chosen
    unfolding recovered_identified
    chosen w instance_id start_token stored known =
        Ends-bind (get_operation p b clock operation_id)
          (λ current. give p b clock operation_id (
            recovered_instruction current instance_id start_token current.start_delivery_authority))
          w (λ a w'. (a ≡ o) × IsStored p b clock operation_id o w') Chosen
          (get_operation-Ends p b clock operation_id o w stored)
          (λ a w' (e, kept).
            let known_worker : recovered_instruction o instance_id start_token (some previous)
                ≡ ok (successor_of previous (get_last? o.start_delivery_handoffs)) =
              rw known refl in
            (
              successor_of previous (get_last? o.start_delivery_handoffs),
              ap
                    (λ (x : Operation).
                      recovered_instruction x instance_id start_token x.start_delivery_authority)
                    e
                  ∙ ap (recovered_instruction o instance_id start_token) authorized
                  ∙ known_worker,
              (refl, kept),
            ))

    hand_over :
        (w : World S)
        → IsStored p b clock operation_id o w
        → str_eq successor previous.dispatcher_id ≡ false
        → non_empty successor ≡ true
        → Ends
            (authority_revoked p b clock operation_id
              (successor_of previous (get_last? o.start_delivery_handoffs)))
            w
            (HandedOver successor (previous.delivery_generation + 1))
    hand_over w stored other named =
        let (x, returned, (same, kept)) =
          advance-Ends p b clock operation_id laws o (next_at w.ticks) _ w r stored
            (revoked-IsAppendable w.ticks other named) in
        (next_at w.ticks, returned ∙ ap ok same, (kept, next_resumes w.ticks))

    hands_over :
        (w : World S) (instance_id start_token : String)
        → IsStored p b clock operation_id o w
        → is_same_worker o.worker_identity instance_id start_token ≡ true
        → str_eq successor previous.dispatcher_id ≡ false
        → non_empty successor ≡ true
        → Ends
            (recovered_identified p b clock operation_id instance_id start_token
              >>= authority_revoked p b clock operation_id)
            w
            (HandedOver successor (previous.delivery_generation + 1))
    hands_over w instance_id start_token stored known other named =
        Ends-bind (recovered_identified p b clock operation_id instance_id start_token)
          (authority_revoked p b clock operation_id) w Chosen
          (HandedOver successor (previous.delivery_generation + 1))
          (chosen w instance_id start_token stored known)
          (λ i w' (e, kept).
            subst
              (λ y.
                Ends (authority_revoked p b clock operation_id y) w'
                  (HandedOver successor (previous.delivery_generation + 1)))
              (sym e) (hand_over w' kept other named))

  stored_handoff :
      (o : Operation) (w : World S)
      → IsStored p b clock operation_id o w
      → is_next o.start_delivery_authority (get_last? o.start_delivery_handoffs) ≡ true
  stored_handoff o w (l, loaded, same) =
      let opened = load-Opened p b w.storage operation_id true (some l) loaded in
      subst
        (λ (x : Operation).
          is_next x.start_delivery_authority (get_last? x.start_delivery_handoffs) ≡ true)
        same
        (replay_handoff p l.stored.events (open_record-eq-ok p l.stored operation_id l opened).2)

  -- A recovered Worker that gives the recorded identity is handed over without an error, if the
  -- Operation is stored and started and has a delivery authority, the new dispatcher's name is not the
  -- present one's, the successor's name is not empty, the numbers stay safe integers, the storage
  -- writes and the clock tells the time: the last handoff of the stored Operation then waits for the
  -- successor that the Worker was given, the one of a handoff that was begun before if there is one,
  -- in the next generation.
  pub recovered_handoff-HandedOver :
      (o : Operation) (previous : StartDeliveryAuthorityEvidence) (w : World S)
      (instance_id start_token : String)
      → IsStored p b clock operation_id o w
      → is_started o.state ≡ true
      → o.start_delivery_authority ≡ some previous
      → is_safe_integer (o.state_seq + 1) ≡ true
      → is_safe_integer (previous.delivery_generation + 1) ≡ true
      → is_same_worker o.worker_identity instance_id start_token ≡ true
      → str_eq (new_dispatcher previous) previous.dispatcher_id ≡ false
      → non_empty (next_dispatcher previous (get_last? o.start_delivery_handoffs)) ≡ true
      → Ends
          (recovered_identified p b clock operation_id instance_id start_token
            >>= authority_revoked p b clock operation_id)
          w
          (HandedOver
            (next_dispatcher previous (get_last? o.start_delivery_handoffs))
            (previous.delivery_generation + 1))
  recovered_handoff-HandedOver o previous w instance_id start_token stored started authorized room
        safe known fresh named =
      let handoff : is_next (some previous) (get_last? o.start_delivery_handoffs) ≡ true =
        subst (λ x. is_next x (get_last? o.start_delivery_handoffs) ≡ true) authorized
          (stored_handoff o w stored) in
      hands_over o previous started authorized (next_waits previous _ handoff) room safe w
        instance_id start_token stored known (next_other previous _ handoff fresh) named
