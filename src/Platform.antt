-- ===== src/Platform.antt =====
-- What the program takes from Node and does not implement: SHA-256 (`node:crypto`), `JSON.stringify`
-- of the document that names what an automatic start covers, and `Date.parse`.
use pions.Prelude.{ℕ, String, Bool, List}
use pions.Types.Configuration.{TaskSpec, EffectiveWorkerConfig}

pub record Platform : Type 0 where
  -- `createHash("sha256").update(bytes).digest("hex")`
  pub sha256_hex : List ℕ → String
  -- `JSON.stringify({ format, operationId, task, effectiveConfig })`
  pub stringify_scope : String → String → TaskSpec → EffectiveWorkerConfig → String
  -- `Number.isFinite(Date.parse(timestamp))`
  pub is_timestamp : String → Bool
