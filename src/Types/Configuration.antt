-- ===== src/Types/Configuration.antt =====
-- src/internal/types.ts: the configuration of a Worker, requested, effective and observed.
-- A readonly interface is a record, an optional field an `Option`, a union of literals a data type.
-- The literal-typed members that the code compares at run time (`maxAttempts`, `fallback`) stay
-- plain values, so that the comparison is not empty.
use pions.Prelude.{ℕ, String, Bool, Option, List}

pub record ModelReference : Type 0 where
  pub provider : String
  pub id : String

pub data ThinkingLevel : Type 0 where
  off minimal low medium high xhigh max : ThinkingLevel

pub record RequestedWorkerConfig : Type 0 where
  pub model : Option ModelReference
  pub thinking_level : Option ThinkingLevel
  pub tools : Option (List String)
  pub cwd : Option String

pub record ModelSelectionPolicy : Type 0 where
  pub candidates : List ModelReference
  pub attempted : List ModelReference
  pub max_attempts : ℕ
  pub fallback : String
  pub aliases : List String

pub record WorkerExtension : Type 0 where
  pub source : String
  pub path : String

pub record EffectiveWorkerConfig : Type 0 where
  pub model : ModelReference
  pub thinking_level : ThinkingLevel
  pub tools : List String
  pub extensions : List WorkerExtension
  pub cwd : String
  pub max_result_byte_count : ℕ
  pub model_policy : ModelSelectionPolicy

pub data ObservedSetting {ℓ} (A : Type ℓ) : Type ℓ where
  observed : A → ObservedSetting A
  unavailable : ObservedSetting A

pub record ObservedWorkerConfig : Type 0 where
  pub model : ObservedSetting ModelReference
  pub thinking_level : ObservedSetting ThinkingLevel
  pub tools : ObservedSetting (List String)
  pub cwd : ObservedSetting String

pub record WorkerProfilePolicy : Type 0 where
  pub model_candidates : List ModelReference
  pub thinking_level : ThinkingLevel
  pub tools : List String
  pub extensions : List WorkerExtension
  pub max_result_byte_count : ℕ

-- `TaskSpec extends RequestedWorkerConfig`; `background?: true` is whether it is set.
pub record TaskSpec : Type 0 where
  pub requested : RequestedWorkerConfig
  pub open requested use *
  pub background : Bool
  pub prompt_ref : String
  pub profile : String
  pub idempotency_key : String
