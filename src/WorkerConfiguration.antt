-- ===== src/WorkerConfiguration.antt =====
-- src/internal/worker-configuration.ts: what a task asks for, what a profile allows, and what a
-- started Worker reports. `fail` is an `err` with its reason; the message is left out.
pub mod Ceiling
pub mod Initial
pub mod Mismatch
use pions.Prelude.{
  ℕ, String, Bool, true, false, ◌&&◌, ◌||◌, not, Option, none, some, List, [], ◌∷◌, length, any,
  all, ltb, leb, ◌==◌, str_eq, non_empty, if◌then◌else◌,
}
use pions.Except.{Except, ok, err, throw_if, ◌>>=◌, ◌>>◌}
use pions.Text.{is_safe_integer, utf8}
use pions.Types.Configuration.{
  ModelReference, ThinkingLevel, medium, RequestedWorkerConfig, EffectiveWorkerConfig,
  WorkerProfilePolicy, ObservedSetting, observed, unavailable, ObservedWorkerConfig,
}
use pions.Reducer.Guards.{level_rank}

pub data WorkerConfigurationFailureReason : Type 0 where
  model_mismatch thinking_level_mismatch model_not_found model_auth_unavailable
        unsupported_capability tool_policy_violation :
      WorkerConfigurationFailureReason

abbrev pub max_config_string_bytes : ℕ
max_config_string_bytes = 512

abbrev pub max_tools : ℕ
max_tools = 16

abbrev pub pi_builtin_tools : List String
pi_builtin_tools = "read" ∷ "bash" ∷ "powershell" ∷ "edit" ∷ "write" ∷ "grep" ∷ "find" ∷ "ls" ∷ []

abbrev pub delegation_tool : String
delegation_tool = "pions_delegate"

-- `tools.includes(tool)`, and `set.has(tool)`
unfoldable pub includes : List String → String → Bool
includes tools tool = any (str_eq tool) tools

abbrev pub is_builtin : String → Bool
is_builtin = includes pi_builtin_tools

unfoldable pub same_model : ModelReference → ModelReference → Bool
same_model left right = str_eq left.provider right.provider && str_eq left.id right.id

-- `boundedString` returns
unfoldable pub is_bounded : String → Bool
is_bounded value = non_empty value && leb (length (utf8 value)) max_config_string_bytes

-- `new Set(tools).size === tools.length`
unfoldable pub is_unique : List String → Bool
unfolding includes
is_unique [] = true
is_unique (tool ∷ tools) = not (includes tools tool) && is_unique tools

unfoldable pub unique_tools : List String → Except WorkerConfigurationFailureReason (List String)
unique_tools tools = do
  throw_if (ltb max_tools (length tools) || not (is_unique tools)) tool_policy_violation
  throw_if (not (all is_bounded tools)) unsupported_capability
  ok tools

abbrev pub optional_tools :
    Option (List String) → Except WorkerConfigurationFailureReason (Option (List String))
optional_tools none = ok none
optional_tools (some tools) = unique_tools tools >>= λ checked. ok (some checked)

unfoldable pub requested_worker_config :
    RequestedWorkerConfig → Except WorkerConfigurationFailureReason RequestedWorkerConfig
requested_worker_config task =
    optional_tools task.tools >>= λ tools. ok (record task { tools = tools })

abbrev pub default_max_result_byte_count : ℕ
default_max_result_byte_count = 1048576

abbrev pub default_worker_profile_policy : WorkerProfilePolicy
default_worker_profile_policy = record {
  model_candidates = (record { provider = "test"; id = "test-model" }) ∷ [];
  thinking_level = medium;
  tools = "read" ∷ "write" ∷ "edit" ∷ "bash" ∷ "grep" ∷ "find" ∷ "ls" ∷ [];
  extensions = [];
  max_result_byte_count = default_max_result_byte_count;
}

-- `a ?? b`
abbrev pub get_or {ℓ} : {A : Type ℓ} → Option A → A → A
get_or none b = b
get_or (some a) b = a

-- The only candidate of a profile.
abbrev pub only_candidate :
    List ModelReference → Except WorkerConfigurationFailureReason ModelReference
only_candidate (candidate ∷ []) = ok candidate
only_candidate _ = err model_mismatch

abbrev pub is_cwd : Option String → String → Bool
is_cwd none runtime_cwd = true
is_cwd (some cwd) runtime_cwd = str_eq cwd runtime_cwd

unfoldable pub resolve_with :
    RequestedWorkerConfig
    → WorkerProfilePolicy
    → String
    → Except WorkerConfigurationFailureReason EffectiveWorkerConfig
resolve_with requested profile runtime_cwd = do
  throw_if
      (not (is_safe_integer profile.max_result_byte_count) || leb profile.max_result_byte_count 0)
      unsupported_capability
  throw_if (not (is_bounded runtime_cwd)) unsupported_capability
  candidate ← only_candidate profile.model_candidates
  throw_if (not (is_bounded candidate.provider)) unsupported_capability
  throw_if (not (is_bounded candidate.id)) unsupported_capability
  let model = get_or requested.model candidate
  throw_if (not (same_model model candidate)) model_mismatch
  let level = get_or requested.thinking_level profile.thinking_level
  throw_if (ltb (level_rank profile.thinking_level) (level_rank level)) unsupported_capability
  profile_tools ← unique_tools profile.tools
  throw_if (any (λ tool. not (is_builtin tool)) profile_tools) tool_policy_violation
  tools ← unique_tools (get_or requested.tools profile_tools)
  throw_if (any (λ tool. not (includes profile_tools tool)) tools) tool_policy_violation
  throw_if (not (is_cwd requested.cwd runtime_cwd)) unsupported_capability
  ok (record {
    model = model;
    thinking_level = level;
    tools = tools;
    extensions = profile.extensions;
    cwd = runtime_cwd;
    max_result_byte_count = profile.max_result_byte_count;
    model_policy = record {
      candidates = candidate ∷ [];
      attempted = model ∷ [];
      max_attempts = 1;
      fallback = "forbidden";
      aliases = [];
    };
  })

unfoldable pub resolve_worker_config :
    RequestedWorkerConfig
    → Option WorkerProfilePolicy
    → String
    → Except WorkerConfigurationFailureReason EffectiveWorkerConfig
resolve_worker_config requested none runtime_cwd = err unsupported_capability
resolve_worker_config requested (some profile) runtime_cwd =
    resolve_with requested profile runtime_cwd

abbrev pub is_observed {ℓ} : {A : Type ℓ} → (A → Bool) → ObservedSetting A → Bool
is_observed test unavailable = false
is_observed test (observed a) = test a

-- The tools of a Worker: all that are effective, none that delegates, and no other builtin.
unfoldable pub tools_allowed : List String → List String → Bool
tools_allowed effective reported =
    not (any (λ tool. not (includes reported tool)) effective)
    && not (
        any
          (λ tool. str_eq tool delegation_tool || is_builtin tool && not (includes effective tool))
          reported)

unfoldable pub configuration_mismatch :
    EffectiveWorkerConfig → ObservedWorkerConfig → Option WorkerConfigurationFailureReason
configuration_mismatch effective reported =
    if not (is_observed (same_model effective.model) reported.model)
    then some model_mismatch
    else if not (
        is_observed (λ level. level_rank level == level_rank effective.thinking_level)
          reported.thinking_level)
    then some thinking_level_mismatch
    else if not (is_observed (tools_allowed effective.tools) reported.tools)
    then some tool_policy_violation
    else if not (is_observed (λ cwd. str_eq cwd effective.cwd) reported.cwd)
    then some unsupported_capability
    else none
