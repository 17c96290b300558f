-- ===== src/Acceptance.antt =====
-- src/internal/result-digest.ts and result-acceptance-transaction.ts: the digest of a Result and the
-- identifier of its acceptance.
use Prim.Native.String.{◌++◌ as append_text}
use pions.Prelude.{ℕ, zero, suc, String, Bool, ◌&&◌, List, ◌∷◌, ◌++◌, leb, str_eq, non_empty}
use pions.Text.{is_safe_integer, utf8, decimal, is_digest}
use pions.Types.Evidence.{AcceptedResult}
use pions.Platform.{Platform}

-- `text.slice(n)`, for a text of which no character takes two code units
abbrev drop_chars : ℕ → String → String
drop_chars zero s = s
drop_chars (suc n) String.[] = ""
drop_chars (suc n) (String.◌∷◌ c s) = drop_chars n s

module _ (p : Platform) where
  unfoldable pub sha256_digest : List ℕ → String
  sha256_digest bytes = append_text "sha256:" (p.sha256_hex bytes)

  -- The hashed text has the four parts, with a NUL between each two.
  unfoldable pub result_acceptance_identifier : String → String → ℕ → String → String
  result_acceptance_identifier operation_id request_id byte_count digest =
      let document =
        utf8 operation_id
        ++ (0 ∷ (utf8 request_id ++ (0 ∷ (utf8 (decimal byte_count) ++ (0 ∷ utf8 digest))))) in
      append_text "pions.result-acceptance.v1:" (drop_chars 7 (sha256_digest document))

  unfoldable pub accepted_result_is_consistent : AcceptedResult → ℕ → Bool
  accepted_result_is_consistent acceptance max_byte_count =
      non_empty acceptance.acceptance_request_id
      && is_safe_integer acceptance.byte_count
      && leb 0 acceptance.byte_count
      && leb acceptance.byte_count max_byte_count
      && is_digest acceptance.digest
      && str_eq acceptance.acceptance_id (
          result_acceptance_identifier acceptance.operation_id acceptance.acceptance_request_id
            acceptance.byte_count acceptance.digest)
