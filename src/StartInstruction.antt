-- ===== src/StartInstruction.antt =====
-- src/internal/start-instruction.ts: what an automatic start covers, and the comparison of two
-- references. `startInstructionReference` takes the four shared fields of an evidence record; here
-- it is the field `instruction` of each.
use pions.Prelude.{String, Bool, true, ◌&&◌, ◌==◌, ◌≡◌, str_eq, eq_iff, arith}
use pions.Text.{utf8}
use pions.Types.Configuration.{TaskSpec, EffectiveWorkerConfig}
use pions.Types.Evidence.{StartInstructionReference}
use pions.Platform.{Platform}
use pions.Acceptance.{sha256_digest}

unfoldable pub automatic_start_scope_digest :
    Platform → String → TaskSpec → EffectiveWorkerConfig → String
automatic_start_scope_digest p operation_id task effective_config =
    sha256_digest p
      (utf8 (p.stringify_scope "pions.automatic-start-scope.v1" operation_id task effective_config))

-- `isDeepStrictEqual` of two references
unfoldable pub same_instruction : StartInstructionReference → StartInstructionReference → Bool
same_instruction a b =
    str_eq a.dispatcher_id b.dispatcher_id
    && str_eq a.worker_process_instance_id b.worker_process_instance_id
    && str_eq a.receipt_digest b.receipt_digest
    && a.delivery_generation == b.delivery_generation

pub same_instruction→eq : (a b : StartInstructionReference) → same_instruction a b ≡ true → a ≡ b
unfolding same_instruction
same_instruction→eq a b h = ground (
  arith,
  eq_iff a.dispatcher_id b.dispatcher_id,
  eq_iff a.worker_process_instance_id b.worker_process_instance_id,
  eq_iff a.receipt_digest b.receipt_digest,
)
