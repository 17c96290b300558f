-- ===== src/Store/Backing.antt =====
-- src/internal/event-store/store.ts: a recorded Result and its bytes in the storage, through
-- `acceptResult` and its failed writes.
use mathlib.Core.Path.{subst}
use pions.Prelude.{
  ℕ, ◌≡◌, ◌⊎◌, inl, inr, refl, sym, ◌∙◌, ap, String, true, false, Option, none, some, List, length,
  Bool-cases,
}
use pions.Except.{Except, ok}
use pions.Platform.{Platform}
use pions.Types.Evidence.{AcceptedResult}
use pions.Acceptance.{sha256_digest}
use pions.Operation.{result_accepted}
use pions.Store.Backend.{Storage, StorageLaws}
use pions.Store.Results.{acceptance_of, write_acceptance, accept_result}
use pions.Store.Acceptances.{accept_result-Ending, recorded}
use pions.Store.{LoadedRecord, ResultAcceptanceRequest, prepare, load}

loaded-injective :
    {E : Type 0} {a c : LoadedRecord} {m : Except E (Option LoadedRecord)}
    → m ≡ ok (some a)
    → m ≡ ok (some c)
    → a ≡ c
loaded-injective h k = cc

module _ (p : Platform) {S : Type 0} (b : Storage S) where
  -- The stored body of the Operation has the digest and the length of its Result.
  abbrev pub IsBacked : S → String → Option AcceptedResult → Type 0
  IsBacked s i none = Unit
  IsBacked s i (some a) =
      (bytes : List ℕ) × (b.read_result_bytes s i ≡ ok (some bytes))
      × (sha256_digest p bytes ≡ a.digest)
      × (length bytes ≡ a.byte_count)

module _ (p : Platform) {S : Type 0} (b : Storage S) (laws : StorageLaws b) where
  load_same :
      (s s' : S) (i : String)
      → b.read_record s' i ≡ b.read_record s i
      → load p b s' i true ≡ load p b s i true
  unfolding load
  load_same s s' i h = rw h

  -- A record that did not change, of an Operation with no Result, needs no body.
  unchanged-IsBacked :
      (s s' : S) (i : String) (l l' : LoadedRecord)
      → b.read_record s' i ≡ b.read_record s i
      → load p b s i true ≡ ok (some l)
      → l.operation.result ≡ none
      → load p b s' i true ≡ ok (some l')
      → IsBacked p b s' i l'.operation.result
  unchanged-IsBacked s s' i l l' same loaded empty later =
      let e : l ≡ l' = loaded-injective (load_same s s' i same ∙ loaded) later in
      subst (IsBacked p b s' i) (sym empty ∙ ap (λ x. x.operation.result) e) tt

  -- The body that an acceptance describes backs it.
  recorded-IsBacked :
      (s : S) (request : ResultAcceptanceRequest) (now : String) (l next l' : LoadedRecord)
      → load p b s request.operation_id true ≡ ok (some next)
      → next.operation.result ≡ some (acceptance_of p request l.operation now)
      → b.read_result_bytes s request.operation_id ≡ ok (some request.bytes)
      → load p b s request.operation_id true ≡ ok (some l')
      → IsBacked p b s request.operation_id l'.operation.result
  unfolding acceptance_of
  recorded-IsBacked s request now l next l' reloaded result stored later =
      let e : next ≡ l' = loaded-injective reloaded later in
      subst (IsBacked p b s request.operation_id) (sym result ∙ ap (λ x. x.operation.result) e)
        (request.bytes, stored, refl, refl)

  -- The state after the two writes: that of the body alone, or of both.
  written_state :
      (s : S) (request : ResultAcceptanceRequest) (a : AcceptedResult) (next : LoadedRecord)
      → let w = b.write_result_body s request.operation_id request.bytes in
        let v = b.write_record w.0 request.operation_id next.stored false in
        ((write_acceptance p b s request a next).1 ≡ w.0)
        ⊎ ((w.1 ≡ true) × ((write_acceptance p b s request a next).1 ≡ v.0))
  unfolding write_acceptance
  written_state s request a next =
      elim (Bool-cases (b.write_result_body s request.operation_id request.bytes).1) [
        | inr unwritten ↦ inl (rw unwritten)
        | inl written ↦ inr (written, rw written)
      ]

  write-IsBacked :
      (s s' : S) (request : ResultAcceptanceRequest) (now : String) (l next l' : LoadedRecord)
      → load p b s request.operation_id true ≡ ok (some l)
      → l.operation.result ≡ none
      → prepare p request.operation_id l.stored
          (some l.operation)
          l.operation.state_seq
          (result_accepted (acceptance_of p request l.operation now))
          now
        ≡ ok next
      → (write_acceptance p b s request (acceptance_of p request l.operation now) next).1 ≡ s'
      → load p b s' request.operation_id true ≡ ok (some l')
      → IsBacked p b s' request.operation_id l'.operation.result
  write-IsBacked s s' request now l next l' loaded empty good state later =
      let i = request.operation_id in
      let a = acceptance_of p request l.operation now in
      let w = b.write_result_body s i request.bytes in
      let v = b.write_record w.0 i next.stored false in
      let untouched : b.read_record w.0 i ≡ b.read_record s i =
        laws.read-write_body s i i request.bytes in
      elim (written_state s request a next) [
        | inl at_body ↦
            let here : s' ≡ w.0 = sym state ∙ at_body in
            unchanged-IsBacked s s' i l l' (ap (λ x. b.read_record x i) here ∙ untouched) loaded
              empty later
        | inr (written, at_record) ↦
            let here : s' ≡ v.0 = sym state ∙ at_record in
            let backed : b.read_record s' i ≡ ok (some next.stored)
                → IsBacked p b s' i l'.operation.result =
              λ r.
                let (reloaded, result) = recorded p b laws s s' request now l next loaded good r in
                recorded-IsBacked s' request now l next l' reloaded result
                  (ap (λ x. b.read_result_bytes x i) here
                    ∙ laws.body-write w.0 i i next.stored false
                    ∙ laws.body-write_body s i request.bytes written)
                  later in
            elim (Bool-cases v.1) [
              | inl done ↦
                  backed (
                    ap (λ x. b.read_record x i) here ∙ laws.read-write w.0 i next.stored false done)
              | inr undone ↦ elim (laws.read-write_failed w.0 i next.stored false undone) [
                | inr new ↦ backed (ap (λ x. b.read_record x i) here ∙ new)
                | inl old ↦
                    unchanged-IsBacked s s' i l l'
                      (ap (λ x. b.read_record x i) here ∙ old ∙ untouched) loaded empty later
              ]
            ]
      ]

  -- However `acceptResult` ends, a failed write included: if the Result of the Operation was backed by
  -- its stored bytes before, then what loads afterwards has a Result, if any, that is backed by the
  -- bytes stored afterwards.
  pub accept_result-IsBacked :
      (s : S) (request : ResultAcceptanceRequest) (now : String) (l l' : LoadedRecord)
      → load p b s request.operation_id true ≡ ok (some l)
      → IsBacked p b s request.operation_id l.operation.result
      → load p b (accept_result p b s request now).1 request.operation_id true ≡ ok (some l')
      → IsBacked p b (accept_result p b s request now).1 request.operation_id l'.operation.result
  accept_result-IsBacked s request now l l' loaded before later =
      elim (accept_result-Ending p b s request now) [
        | inl (x, _, r) ↦ kept (ap (λ y. y.1) r)
        | inr (x, loaded', named, inl (a, old, r)) ↦ kept (ap (λ y. y.1) r)
        | inr (x, loaded', named, inr (next, empty, good, r)) ↦
            write-IsBacked s (accept_result p b s request now).1 request now x next l' loaded' empty
              good (sym (ap (λ y. y.1) r)) later
      ]
    where
      kept :
          (accept_result p b s request now).1 ≡ s
          → IsBacked p b
              (accept_result p b s request now).1
              request.operation_id
              l'.operation.result
      kept e =
          let same : l ≡ l' =
            loaded-injective loaded
              (ap (λ x. load p b x request.operation_id true) (sym e) ∙ later) in
          subst (λ x. IsBacked p b x request.operation_id l'.operation.result) (sym e)
            (subst (λ x. IsBacked p b s request.operation_id x.operation.result) same before)
