-- ===== src/OperationReader/Accepted.antt =====
-- src/internal/event-store/store.ts with src/internal/operation-reader.ts: `acceptResult`, and
-- then `readResult` of the same Operation.
use mathlib.Core.Path.{subst}
use pions.Prelude.{
  ℕ, ◌≡◌, inl, inr, refl, sym, ◌∙◌, ap, String, true, false, none, some, List, length, arith,
  eq_iff,
}
use pions.Except.{ok}
use pions.Platform.{Platform}
use pions.Types.Evidence.{AcceptedResult}
use pions.Operation.{Operation}
use pions.Acceptance.{sha256_digest}
use pions.Utf8.{decode}
use pions.Store.Backend.{Storage, StorageLaws}
use pions.Store.Results.{acceptance_of, answer_existing, accept_result}
use pions.Store.Acceptances.{accept_result-Ending, recorded, written_accepted, answered}
use pions.Store.Versions.{snapshot_of_loaded}
use pions.Store.Backing.{IsBacked, accept_result-IsBacked}
use pions.Store.{LoadedRecord, ResultAcceptanceRequest, accepted, load, read}
use pions.OperationReader.{Result, retrieved, stored_snapshot, retrieve_result, read_result}

module _ (p : Platform) where
  -- The Result that an answer accepts is the request's.
  accepted_describes :
      (request : ResultAcceptanceRequest) (x a : AcceptedResult)
      → answer_existing p request x ≡ accepted a
      → (a.digest ≡ sha256_digest p request.bytes) × (a.byte_count ≡ length request.bytes)
  accepted_describes request x a h = ground (arith, eq_iff x.digest (sha256_digest p request.bytes))

  described :
      (request : ResultAcceptanceRequest) (o : Operation) (now : String)
      → ((acceptance_of p request o now).digest ≡ sha256_digest p request.bytes)
        × ((acceptance_of p request o now).byte_count ≡ length request.bytes)
  unfolding acceptance_of
  described request o now = (refl, refl)

  module _ {S : Type 0} (b : Storage S) where
    -- Reading a loaded Operation whose Result is backed.
    backed_read :
        (s : S) (i : String) (l : LoadedRecord) (a : AcceptedResult) (bytes : List ℕ)
        → load p b s i true ≡ ok (some l)
        → l.operation.result ≡ some a
        → b.read_result_bytes s i ≡ ok (some bytes)
        → sha256_digest p bytes ≡ a.digest
        → length bytes ≡ a.byte_count
        → read_result p b s i
          ≡ ok (
              retrieved a.acceptance_id
                (record { body = decode bytes; byte_count = length bytes; digest = a.digest }))
    unfolding read_result stored_snapshot read retrieve_result
    backed_read s i l a bytes loaded has stored digest count =
        let (x, snapped, same) = snapshot_of_loaded p b s i l loaded in
        ground (arith, eq_iff (sha256_digest p bytes) a.digest)

  module _ {S : Type 0} (b : Storage S) (laws : StorageLaws b) where
    -- What a request that is accepted leaves in the record.
    accepted_loads :
        (s : S) (request : ResultAcceptanceRequest) (now : String) (a : AcceptedResult)
        → (accept_result p b s request now).0 ≡ accepted a
        → (l : LoadedRecord) × (load p b
              (accept_result p b s request now).1
              request.operation_id
              true
            ≡ ok (some l))
          × (l.operation.result ≡ some a)
          × (a.digest ≡ sha256_digest p request.bytes)
          × (a.byte_count ≡ length request.bytes)
    accepted_loads s request now a h = elim (accept_result-Ending p b s request now) [
      | inl (x, other, r) ↦ absurd (other a (sym (ap (λ y. y.0) r) ∙ h))
      | inr (l, loaded, named, inl (x, old, r)) ↦
          let answers : answer_existing p request x ≡ accepted a = sym (ap (λ y. y.0) r) ∙ h in
          let state : (accept_result p b s request now).1 ≡ s = ap (λ y. y.1) r in
          let (digest, count) = accepted_describes request x a answers in
          (
            l,
            ap (λ y. load p b y request.operation_id true) state ∙ loaded,
            old ∙ ap some (answered p b laws request x a answers),
            digest,
            count,
          )
      | inr (l, loaded, named, inr (next, empty, good, r)) ↦
          let i = request.operation_id in
          let (body, written, same, after) =
            written_accepted p b laws s request (acceptance_of p request l.operation now) a next
              (sym (ap (λ y. y.0) r) ∙ h) in
          let s₁ = (b.write_result_body s i request.bytes).0 in
          let s₂ = (b.write_record s₁ i next.stored false).0 in
          let state : (accept_result p b s request now).1 ≡ s₂ = ap (λ y. y.1) r ∙ after in
          let (reloaded, result) =
            recorded p b laws s s₂ request now l next loaded good
              (laws.read-write s₁ i next.stored false written) in
          let (digest, count) = described request l.operation now in
          (
            next,
            ap (λ y. load p b y i true) state ∙ reloaded,
            result ∙ ap some same,
            sym (ap (λ x. x.digest) same) ∙ digest,
            sym (ap (λ x. x.byte_count) same) ∙ count,
          )
    ]

    -- The bytes of a first request are those stored.
    stored_first :
        (s : S) (request : ResultAcceptanceRequest) (now : String) (l : LoadedRecord)
        (a : AcceptedResult)
        → load p b s request.operation_id true ≡ ok (some l)
        → l.operation.result ≡ none
        → (accept_result p b s request now).0 ≡ accepted a
        → b.read_result_bytes (accept_result p b s request now).1 request.operation_id
          ≡ ok (some request.bytes)
    stored_first s request now l a loaded empty h = elim (accept_result-Ending p b s request now) [
      | inl (x, other, r) ↦ absurd (other a (sym (ap (λ y. y.0) r) ∙ h))
      | inr (x, loaded', named, inl (old, has, r)) ↦
          let same : l ≡ x = cc in absurd (cc (sym empty ∙ ap (λ y. y.operation.result) same ∙ has))
      | inr (x, loaded', named, inr (next, none_before, good, r)) ↦
          let i = request.operation_id in
          let (body, written, same, after) =
            written_accepted p b laws s request (acceptance_of p request x.operation now) a next
              (sym (ap (λ y. y.0) r) ∙ h) in
          let s₁ = (b.write_result_body s i request.bytes).0 in
          ap (λ y. b.read_result_bytes y i) (ap (λ y. y.1) r ∙ after)
          ∙ laws.body-write s₁ i i next.stored false
          ∙ laws.body-write_body s i request.bytes body
    ]

    -- A Result that has been accepted, for the first time or again, is read without an error: the
    -- reader gives the identifier of its acceptance, and the digest and the length of the bytes that
    -- the request brought. A Result that was recorded before is to be backed by its bytes.
    pub accept_result-read_result :
        (s : S) (request : ResultAcceptanceRequest) (now : String) (l : LoadedRecord)
        (a : AcceptedResult)
        → load p b s request.operation_id true ≡ ok (some l)
        → IsBacked p b s request.operation_id l.operation.result
        → (accept_result p b s request now).0 ≡ accepted a
        → (result : Result) × (read_result p b
              (accept_result p b s request now).1
              request.operation_id
            ≡ ok (retrieved a.acceptance_id result))
          × (result.digest ≡ sha256_digest p request.bytes)
          × (result.byte_count ≡ length request.bytes)
    accept_result-read_result s request now l a loaded before h =
        let (l', later, has, digest, count) = accepted_loads s request now a h in
        let s' = (accept_result p b s request now).1 in
        let (bytes, stored, same_digest, same_count) =
          subst (IsBacked p b s' request.operation_id) has
            (accept_result-IsBacked p b laws s request now l l' loaded before later) in
        (
          record { body = decode bytes; byte_count = length bytes; digest = a.digest },
          backed_read b s' request.operation_id l' a bytes later has stored same_digest same_count,
          digest,
          same_count ∙ count,
        )

    -- A Result that is accepted for the first time is read as the text of the bytes that the request
    -- brought, under the identifier of its acceptance.
    pub accept_result-read_result_first :
        (s : S) (request : ResultAcceptanceRequest) (now : String) (l : LoadedRecord)
        (a : AcceptedResult)
        → load p b s request.operation_id true ≡ ok (some l)
        → l.operation.result ≡ none
        → (accept_result p b s request now).0 ≡ accepted a
        → read_result p b (accept_result p b s request now).1 request.operation_id
          ≡ ok (
              retrieved a.acceptance_id (record {
                body = decode request.bytes;
                byte_count = length request.bytes;
                digest = sha256_digest p request.bytes;
              }))
    accept_result-read_result_first s request now l a loaded empty h =
        let (l', later, has, digest, count) = accepted_loads s request now a h in
        let s' = (accept_result p b s request now).1 in
        let stored = stored_first s request now l a loaded empty h in
        backed_read b s' request.operation_id l' a request.bytes later has stored (sym digest)
          (sym count)
        ∙ ap
            (λ d. ok (
              retrieved a.acceptance_id (record {
                body = decode request.bytes;
                byte_count = length request.bytes;
                digest = d;
              })))
            digest
