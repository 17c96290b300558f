-- ===== src/Store/Acceptances.antt =====
-- src/internal/event-store/store.ts: `acceptResult` and the request that is sent again, with the
-- Results that the storage holds before and after.
use mathlib.Core.Path.{subst}
use pions.Prelude.{
  ℕ, ◌≡◌, ◌≢◌, ◌⊎◌, inl, inr, refl, sym, ◌∙◌, ap, String, true, false, none, some, length, arith,
  Bool-cases, Option-cases, ==_iff,
}
use text.Mathlib.TextPositions.{eq_refl}
use pions.Except.{ok, Except-cases, >>-eq-ok}
use pions.Platform.{Platform}
use pions.Text.{is_identifier}
use pions.Types.Evidence.{AcceptedResult}
use pions.Operation.{Operation, EventMetadata, result_accepted}
use pions.Reducer.Guards.{validate_envelope}
use pions.Reducer.{reduce_operation, dispatch}
use pions.Reducer.Steps.{advance-Admitted}
use pions.Codec.{StoreErrorCode}
use pions.Store.Backend.{Storage, StorageLaws}
use pions.Store.Results.{
  acceptance_of, answer_existing, refusal, write_acceptance, accept_first, answer, accept_loaded,
  accept_result,
}
use pions.Store.{
  LoadedRecord, ResultAcceptanceRequest, AcceptanceOutcome, accepted, failed, operation_not_found,
  request_mismatch, acceptance_failure, event_after, prepare, load,
}
use pions.Store.Reopen.{prepare-eq-ok, prepare_stored-open, load-Opened, load-read}

failure-ne-accepted : (e : StoreErrorCode) (a : AcceptedResult) → acceptance_failure e ≢ accepted a
failure-ne-accepted e a h = ground arith

module _ (p : Platform) where
  refusal-ne-accepted :
      (request : ResultAcceptanceRequest) (o : Operation) (x : AcceptanceOutcome)
      (a : AcceptedResult)
      → refusal p request o ≡ some x
      → x ≢ accepted a
  refusal-ne-accepted request o x a h k = ground arith

  result_dispatched :
      (o : Operation) (m : EventMetadata) (a : AcceptedResult) (next : Operation)
      → dispatch p o m (result_accepted a) ≡ ok next
      → next.result ≡ some a
  unfolding dispatch
  result_dispatched o m a next h = ground arith

  -- An accepted Result is the Operation's from its event on.
  accepted_result :
      (o : Operation) (i : String) (n : ℕ) (a : AcceptedResult) (timestamp : String)
      (next : Operation)
      → reduce_operation p (some o) (event_after i n (result_accepted a) timestamp) ≡ ok next
      → next.result ≡ some a
  unfolding reduce_operation event_after
  accepted_result o i n a timestamp next h =
      let e = event_after i n (result_accepted a) timestamp in
      let admitted =
        advance-Admitted p o e.metadata (result_accepted a)
          (>>-eq-ok (validate_envelope e.metadata) _ h).1 in
      result_dispatched o e.metadata a next admitted.dispatched

  answer_self :
      (request : ResultAcceptanceRequest) (o : Operation) (now : String)
      → answer_existing p request (acceptance_of p request o now)
        ≡ accepted (acceptance_of p request o now)
  unfolding acceptance_of
  answer_self request o now = simp (eq_refl, (==_iff (length request.bytes) _).1 refl)

  module _ {S : Type 0} (b : Storage S) where
    -- How a request ends: refused, answered from the recorded Result, or written.
    abbrev pub Ending : S → ResultAcceptanceRequest → String → AcceptanceOutcome × S → Type 0
    Ending s request now r =
        ((x : AcceptanceOutcome) × ((a : AcceptedResult) → x ≢ accepted a) × (r ≡ (x, s)))
        ⊎ ((l : LoadedRecord) × (load p b s request.operation_id true ≡ ok (some l))
            × (is_identifier request.acceptance_request_id ≡ true)
            × (((a : AcceptedResult) × (l.operation.result ≡ some a)
                  × (r ≡ (answer_existing p request a, s)))
                ⊎ ((next : LoadedRecord) × (l.operation.result ≡ none)
                    × (prepare p request.operation_id l.stored (some l.operation)
                          l.operation.state_seq
                          (result_accepted (acceptance_of p request l.operation now)) now
                        ≡ ok next)
                    × (r
                        ≡ write_acceptance p b s request (acceptance_of p request l.operation now)
                            next))))

    accept_first-Ending :
        (s : S) (request : ResultAcceptanceRequest) (now : String) (l : LoadedRecord)
        → load p b s request.operation_id true ≡ ok (some l)
        → is_identifier request.acceptance_request_id ≡ true
        → l.operation.result ≡ none
        → Ending s request now (accept_first p b s request l now)
    unfolding accept_first
    accept_first-Ending s request now l loaded named empty =
        elim (Except-cases (
          prepare p request.operation_id l.stored (some l.operation) l.operation.state_seq
            (result_accepted (acceptance_of p request l.operation now)) now)) [
              | inr (e, bad) ↦
                  inl (acceptance_failure e, failure-ne-accepted e, rw (bad, accept_first))
              | inl (next, good) ↦
                  inr (l, loaded, named, inr (next, empty, good, rw (good, accept_first)))
            ]

    answer-Ending :
        (s : S) (request : ResultAcceptanceRequest) (now : String) (l : LoadedRecord)
        → load p b s request.operation_id true ≡ ok (some l)
        → is_identifier request.acceptance_request_id ≡ true
        → Ending s request now (answer p b s request l now l.operation.result)
    unfolding answer
    answer-Ending s request now l loaded named = elim (Option-cases l.operation.result) [
      | inr (a, old) ↦ inr (l, loaded, named, inl (a, old, rw (old, answer)))
      | inl empty ↦
          rw (empty, answer)
            (elim (Option-cases (refusal p request l.operation)) [
              | inr (x, refused) ↦
                  inl (x, (λ a. refusal-ne-accepted request l.operation x a refused), rw refused)
              | inl passed ↦ rw passed (accept_first-Ending s request now l loaded named empty)
            ])
    ]

    named_answer :
        (s : S) (request : ResultAcceptanceRequest) (now : String) (l : LoadedRecord)
        → load p b s request.operation_id true ≡ ok (some l)
        → is_identifier request.acceptance_request_id ≡ true
        → accept_result p b s request now ≡ answer p b s request l now l.operation.result
    unfolding accept_result accept_loaded
    named_answer s request now l loaded named =
        rw (loaded, accept_result) (rw (named, accept_loaded))

    pub accept_result-Ending :
        (s : S) (request : ResultAcceptanceRequest) (now : String)
        → Ending s request now (accept_result p b s request now)
    unfolding accept_result accept_loaded
    accept_result-Ending s request now =
        elim (Except-cases (load p b s request.operation_id true)) [
          | inr (e, bad) ↦
              inl (acceptance_failure e, failure-ne-accepted e, rw (bad, accept_result))
          | inl (none, good) ↦
              inl (failed operation_not_found, (λ a h. cc), rw (good, accept_result))
          | inl (some l, good) ↦ elim (Bool-cases (is_identifier request.acceptance_request_id)) [
            | inr bad ↦ inl (
              failed request_mismatch,
              (λ a h. cc),
              rw (good, accept_result) (rw (bad, accept_loaded)),
            )
            | inl named ↦
                subst (Ending s request now) (sym (named_answer s request now l good named))
                  (answer-Ending s request now l good named)
          ]
        ]

    -- A request that names a recorded Result is answered from it.
    existing_answer :
        (s : S) (request : ResultAcceptanceRequest) (now : String) (l : LoadedRecord)
        (a : AcceptedResult)
        → load p b s request.operation_id true ≡ ok (some l)
        → is_identifier request.acceptance_request_id ≡ true
        → l.operation.result ≡ some a
        → accept_result p b s request now ≡ (answer_existing p request a, s)
    unfolding accept_result accept_loaded answer
    existing_answer s request now l a loaded named old =
        rw (loaded, accept_result) (rw (named, accept_loaded) (rw (old, answer)))

  module _ {S : Type 0} (b : Storage S) (laws : StorageLaws b) where
    -- A prepared acceptance that is in the record is loaded with its Result.
    pub recorded :
        (s s' : S) (request : ResultAcceptanceRequest) (now : String) (l next : LoadedRecord)
        → load p b s request.operation_id true ≡ ok (some l)
        → prepare p request.operation_id l.stored
            (some l.operation)
            l.operation.state_seq
            (result_accepted (acceptance_of p request l.operation now))
            now
          ≡ ok next
        → b.read_record s' request.operation_id ≡ ok (some next.stored)
        → (load p b s' request.operation_id true ≡ ok (some next))
          × (next.operation.result ≡ some (acceptance_of p request l.operation now))
    recorded s s' request now l next loaded good r =
        let i = request.operation_id in
        let acceptance = acceptance_of p request l.operation now in
        (
          load-read p b s' i true next r (
              prepare_stored-open p i l (result_accepted acceptance) now next
                (load-Opened p b s i true (some l) loaded) good),
          accepted_result l.operation i l.operation.state_seq acceptance now next.operation
              (prepare-eq-ok p i l.stored (some l.operation) l.operation.state_seq
                (result_accepted acceptance) now next good).3,
        )

    -- What an accepted first request has written.
    pub written_accepted :
        (s : S) (request : ResultAcceptanceRequest) (acceptance a : AcceptedResult)
        (next : LoadedRecord)
        → (write_acceptance p b s request acceptance next).0 ≡ accepted a
        → let w = b.write_result_body s request.operation_id request.bytes in
          let v = b.write_record w.0 request.operation_id next.stored false in
          (w.1 ≡ true)
          × (v.1 ≡ true)
          × (acceptance ≡ a)
          × ((write_acceptance p b s request acceptance next).1 ≡ v.0)
    unfolding write_acceptance
    written_accepted s request acceptance a next h = ground arith

    -- An answer from a recorded Result that accepts is that Result.
    pub answered :
        (request : ResultAcceptanceRequest) (x a : AcceptedResult)
        → answer_existing p request x ≡ accepted a
        → x ≡ a
    answered request x a h = ground arith

    -- A request that has been accepted and is sent again, at any time, is accepted again with the
    -- same acceptance, and changes nothing.
    pub accept_result_retry :
        (s : S) (request : ResultAcceptanceRequest) (now later : String) (a : AcceptedResult)
        → (accept_result p b s request now).0 ≡ accepted a
        → accept_result p b (accept_result p b s request now).1 request later
          ≡ (accepted a, (accept_result p b s request now).1)
    accept_result_retry s request now later a h = elim (accept_result-Ending b s request now) [
      | inl (x, other, r) ↦ absurd (other a (sym (ap (λ y. y.0) r) ∙ h))
      | inr (l, loaded, named, inl (x, old, r)) ↦
          let state : (accept_result p b s request now).1 ≡ s = ap (λ y. y.1) r in
          let same : answer_existing p request x ≡ accepted a = sym (ap (λ y. y.0) r) ∙ h in
          rw state (existing_answer b s request later l x loaded named old ∙ ap (λ y. (y, s)) same)
      | inr (l, loaded, named, inr (next, empty, good, r)) ↦
          let acceptance = acceptance_of p request l.operation now in
          let i = request.operation_id in
          let (body, written, same, after) =
            written_accepted s request acceptance a next (sym (ap (λ y. y.0) r) ∙ h) in
          let s₁ = (b.write_result_body s i request.bytes).0 in
          let s₂ = (b.write_record s₁ i next.stored false).0 in
          let state : (accept_result p b s request now).1 ≡ s₂ = ap (λ y. y.1) r ∙ after in
          let (reloaded, result) =
            recorded s s₂ request now l next loaded good
              (laws.read-write s₁ i next.stored false written) in
          rw state (
            existing_answer b s₂ request later next acceptance reloaded named result
            ∙ ap (λ y. (y, s₂)) (answer_self request l.operation now ∙ ap accepted same))
    ]
