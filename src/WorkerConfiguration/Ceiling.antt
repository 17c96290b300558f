-- ===== src/WorkerConfiguration/Ceiling.antt =====
-- src/internal/worker-configuration.ts: a resolved configuration beside its profile.
use pions.Prelude.{◌≤◌, ◌≡◌, String, true, false, not, ◌⊎◌, some, List, any, all, length, arith}
use pions.Except.{ok, err}
use pions.Text.{is_safe_integer}
use pions.Types.Configuration.{RequestedWorkerConfig, EffectiveWorkerConfig, WorkerProfilePolicy}
use pions.Reducer.Guards.{level_rank}
use pions.WorkerConfiguration.{
  get_or, includes, is_builtin, is_bounded, is_unique, unique_tools, max_tools, resolve_with,
  resolve_worker_config,
}

pub unique_tools-cases :
    (tools : List String)
    → (unique_tools tools ≡ ok tools) ⊎ ((e : _) × (unique_tools tools ≡ err e))
unfolding unique_tools
unique_tools-cases tools = ground arith

unique_tools-eq-ok :
    (tools : List String)
    → unique_tools tools ≡ ok tools
    → (length tools ≤ max_tools) × (is_unique tools ≡ true) × (all is_bounded tools ≡ true)
unfolding unique_tools
unique_tools-eq-ok tools h = ground arith

resolve_tools :
    (requested : RequestedWorkerConfig) (profile : WorkerProfilePolicy) (runtime_cwd : String)
    (effective : EffectiveWorkerConfig)
    → resolve_with requested profile runtime_cwd ≡ ok effective
    → (unique_tools effective.tools ≡ ok effective.tools)
      × (any (λ tool. not (includes profile.tools tool)) effective.tools ≡ false)
      × (any (λ tool. not (is_builtin tool)) profile.tools ≡ false)
unfolding resolve_with
resolve_tools requested profile runtime_cwd effective h = ground (
  arith,
  unique_tools-cases profile.tools,
  unique_tools-cases (get_or requested.tools profile.tools),
)

resolve_rest :
    (requested : RequestedWorkerConfig) (profile : WorkerProfilePolicy) (runtime_cwd : String)
    (effective : EffectiveWorkerConfig)
    → resolve_with requested profile runtime_cwd ≡ ok effective
    → (level_rank effective.thinking_level ≤ level_rank profile.thinking_level)
      × (effective.cwd ≡ runtime_cwd)
      × (effective.max_result_byte_count ≡ profile.max_result_byte_count)
      × (is_safe_integer profile.max_result_byte_count ≡ true)
unfolding resolve_with
resolve_rest requested profile runtime_cwd effective h = ground arith

-- A resolved configuration is under its profile: the level is at most the profile's, the tools are
-- at most 16, without duplicates and each one of the profile's, which are all built in, and the
-- directory and the size limit are the given ones.
pub resolve-ceiling :
    (requested : RequestedWorkerConfig) (profile : WorkerProfilePolicy) (runtime_cwd : String)
    (effective : EffectiveWorkerConfig)
    → resolve_worker_config requested (some profile) runtime_cwd ≡ ok effective
    → (level_rank effective.thinking_level ≤ level_rank profile.thinking_level)
      × (length effective.tools ≤ max_tools)
      × (is_unique effective.tools ≡ true)
      × (any (λ tool. not (includes profile.tools tool)) effective.tools ≡ false)
      × (any (λ tool. not (is_builtin tool)) profile.tools ≡ false)
      × (effective.cwd ≡ runtime_cwd)
      × (effective.max_result_byte_count ≡ profile.max_result_byte_count)
unfolding resolve_worker_config
resolve-ceiling requested profile runtime_cwd effective h =
    let (level, cwd, size, safe) = resolve_rest requested profile runtime_cwd effective h in
    let (tools, within, builtin) = resolve_tools requested profile runtime_cwd effective h in
    let (count, unique, bounded) = unique_tools-eq-ok effective.tools tools in
    (level, count, unique, within, builtin, cwd, size)
