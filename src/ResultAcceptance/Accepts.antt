-- ===== src/ResultAcceptance/Accepts.antt =====
-- src/internal/result-acceptance.ts and operation-reader.ts: from the answer of a Worker to the Result
-- that a reader is given.
use pions.Prelude.{
  ◌≡◌, refl, sym, ap, ◌∙◌, String, true, false, none, some, List, ℕ, length, all, eq_iff,
  if◌then◌else◌, Bool-cases, inl, inr, arith,
}
use pions.Except.{ok, err, Except-cases}
use pions.Platform.{Platform}
use pions.Text.{encode_all}
use pions.Utf8.Encoded.{is_scalar, decode-encode_all}
use pions.Types.Evidence.{AcceptedResult}
use pions.Acceptance.{sha256_digest}
use pions.Codec.{StoreErrorCode}
use pions.Store.Backend.{Storage, StorageLaws}
use pions.Store.{LoadedRecord, AcceptanceOutcome, OperationSnapshot, read, load}
use pions.Store.Results.{accept_result}
use pions.OperationReader.{retrieved, read_result}
use pions.OperationReader.Accepted.{accept_result-read_result_first}
use pions.ResultAcceptance.{
  WorkerProducedResult, ResultAcceptanceProof, accepted, failed, input_integrity_mismatch,
  acceptance_proof, outcome_of, request_of, accept_body, accept_read, accept,
}
use pions.ResultAcceptance.Bodies.{is_integral, materialize_body-is_integral}

same_answer :
    {i j d e : String} {xs ys : List ℕ} {m n : ℕ}
    → i ≡ j
    → xs ≡ ys
    → m ≡ n
    → d ≡ e
    → retrieved i (record { body = xs; byte_count = m; digest = d })
      ≡ retrieved j (record { body = ys; byte_count = n; digest = e })
same_answer h k l r = rw (h, k, l, r) refl

module _ (p : Platform) {S : Type 0} (b : Storage S) where
  -- What an operation that is read answers.
  accept_ok :
      (s : S) (operation_id now : String) (produced : WorkerProducedResult)
      (snapshot : OperationSnapshot)
      → read p b s operation_id ≡ ok snapshot
      → accept p b s operation_id produced now
        ≡ accept_body p b s operation_id produced now
            (if is_integral p produced then some (encode_all produced.body) else none)
  unfolding accept
  accept_ok s operation_id now produced snapshot reads =
      ap (accept_read p b s operation_id produced now) reads
      ∙ ap (accept_body p b s operation_id produced now) (materialize_body-is_integral p produced)

  -- An answer whose body has a lone surrogate or begins with U+FEFF, or whose UTF-8 has not the length
  -- and the digest that the Worker claims, is refused as an `input_integrity_mismatch` if the record
  -- reads, and nothing is written.
  pub accept-refused :
      (s : S) (operation_id now : String) (produced : WorkerProducedResult)
      (snapshot : OperationSnapshot)
      → read p b s operation_id ≡ ok snapshot
      → is_integral p produced ≡ false
      → accept p b s operation_id produced now ≡ (failed input_integrity_mismatch, s)
  accept-refused s operation_id now produced snapshot reads bad =
      accept_ok s operation_id now produced snapshot reads
      ∙ ap
          (λ x.
            accept_body p b s operation_id produced now
              (if x then some (encode_all produced.body) else none))
          bad

  outcome_accepted :
      (outcome : AcceptanceOutcome) (proof : ResultAcceptanceProof)
      → outcome_of outcome ≡ accepted proof
      → (a : AcceptedResult) × (outcome ≡ AcceptanceOutcome.accepted a)
        × (acceptance_proof a ≡ proof)
  outcome_accepted (AcceptanceOutcome.accepted a) proof h = (a, refl, cc)
  outcome_accepted AcceptanceOutcome.continuable proof h = cc
  outcome_accepted (AcceptanceOutcome.failed reason) proof h = cc

  -- What an accepted answer has passed through.
  accepted_through :
      (s : S) (operation_id now : String) (produced : WorkerProducedResult)
      (proof : ResultAcceptanceProof)
      → (accept p b s operation_id produced now).0 ≡ accepted proof
      → (is_integral p produced ≡ true)
        × (accept p b s operation_id produced now
            ≡ accept_body p b s operation_id produced now (some (encode_all produced.body)))
  unfolding accept
  accepted_through s operation_id now produced proof h =
      elim (Except-cases (read p b s operation_id)) [
        | inr (code, refused) ↦ absurd (
            unread code
              (sym (ap (λ r. (accept_read p b s operation_id produced now r).0) refused) ∙ h))
        | inl (snapshot, reads) ↦
            let same = accept_ok s operation_id now produced snapshot reads in
            elim (Bool-cases (is_integral p produced)) [
              | inl good ↦ (
                good,
                same
                    ∙ ap
                        (λ x.
                          accept_body p b s operation_id produced now
                            (if x then some (encode_all produced.body) else none))
                        good,
              )
              | inr bad ↦ absurd (
                  mismatch (
                    sym (
                      ap (λ r. r.0) (accept-refused s operation_id now produced snapshot reads bad))
                    ∙ h))
            ]
      ]
    where
      unread :
          (code : StoreErrorCode)
          → (accept_read p b s operation_id produced now (err code)).0 ≡ accepted proof
          → ⊥
      unread code e = cc

      mismatch : failed input_integrity_mismatch ≡ accepted proof → ⊥
      mismatch e = cc

  -- If the answer of a Worker is accepted, and the Operation had loaded without a Result, then
  -- `readResult` gives the text of that answer, with the length and the digest that the Worker claimed,
  -- under the identifier of the proof.
  pub accept-read_result_first :
      StorageLaws b
      → (s : S) (operation_id now : String) (produced : WorkerProducedResult)
        (proof : ResultAcceptanceProof) (l : LoadedRecord)
      → load p b s operation_id true ≡ ok (some l)
      → l.operation.result ≡ none
      → (accept p b s operation_id produced now).0 ≡ accepted proof
      → read_result p b (accept p b s operation_id produced now).1 operation_id
        ≡ ok (
            retrieved proof.acceptance_id (record {
              body = produced.body;
              byte_count = produced.expected_byte_count;
              digest = produced.expected_digest;
            }))
  accept-read_result_first laws s operation_id now produced proof l loaded empty h =
      let (good, same) = accepted_through s operation_id now produced proof h in
      let bytes = encode_all produced.body in
      let request = request_of p b operation_id produced bytes in
      let (a, took, made) =
        outcome_accepted (accept_result p b s request now).0 proof (sym (ap (λ r. r.0) same) ∙ h) in
      let scalar : all is_scalar produced.body ≡ true = ground arith in
      let count : length bytes ≡ produced.expected_byte_count = ground arith in
      let digest : sha256_digest p bytes ≡ produced.expected_digest =
        (eq_iff (sha256_digest p bytes) produced.expected_digest).0 (ground arith) in
      let back = decode-encode_all produced.body scalar in
      let reads = accept_result-read_result_first p b laws s request now l a loaded empty took in
      ap (λ r. read_result p b r.1 operation_id) same
      ∙ reads
      ∙ ap ok
          (same_answer (ap (λ (x : ResultAcceptanceProof). x.acceptance_id) made) back count digest)
