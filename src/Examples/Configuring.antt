-- ===== src/Examples/Configuring.antt =====
-- src/internal/worker-configuration.ts under the default profile of a Worker.
use pions.Prelude.{◌≡◌, ◌≤◌, refl, true, false, not, none, some, List, [], ◌∷◌, String, any, length}
use pions.Except.{ok, err}
use pions.Text.{utf8}
use pions.Types.Configuration.{
  RequestedWorkerConfig, EffectiveWorkerConfig, ObservedWorkerConfig, observed, low, medium,
}
use pions.Operation.{OperationRequested}
use pions.Reducer.Guards.{level_rank, valid_initial_configuration}
use pions.WorkerConfiguration.{
  tool_policy_violation, thinking_level_mismatch, includes, is_builtin, is_unique, max_tools,
  same_model, is_bounded, unique_tools, requested_worker_config, resolve_with,
  resolve_worker_config, default_worker_profile_policy, tools_allowed, configuration_mismatch,
}
use pions.WorkerConfiguration.Ceiling.{resolve-ceiling}
use pions.WorkerConfiguration.Initial.{resolved-valid_initial_configuration}
use pions.Examples.Data.{request}

abbrev wanted : RequestedWorkerConfig
wanted = record {
  model = none;
  thinking_level = some low;
  tools = some ("grep" ∷ "read" ∷ []);
  cwd = some "/work";
}

abbrev resolved : EffectiveWorkerConfig
resolved = record request.effective_config {
  thinking_level = low;
  tools = "grep" ∷ "read" ∷ [];
  max_result_byte_count = 1048576;
}

resolves : resolve_worker_config wanted (some default_worker_profile_policy) "/work" ≡ ok resolved
unfolding resolve_worker_config resolve_with unique_tools is_unique includes is_bounded same_model
    utf8
resolves = refl

-- A tool that is not of the profile is refused.
refuses :
    resolve_worker_config
      (record wanted { tools = some ("powershell" ∷ []) })
      (some default_worker_profile_policy)
      "/work"
    ≡ err tool_policy_violation
unfolding resolve_worker_config resolve_with unique_tools is_unique includes is_bounded same_model
    utf8
refuses = refl

resolve-ceiling_example :
    (level_rank resolved.thinking_level ≤ level_rank default_worker_profile_policy.thinking_level)
    × (length resolved.tools ≤ max_tools)
    × (is_unique resolved.tools ≡ true)
    × (any (λ tool. not (includes default_worker_profile_policy.tools tool)) resolved.tools ≡ false)
    × (any (λ tool. not (is_builtin tool)) default_worker_profile_policy.tools ≡ false)
    × (resolved.cwd ≡ "/work")
    × (resolved.max_result_byte_count ≡ default_worker_profile_policy.max_result_byte_count)
resolve-ceiling_example =
    resolve-ceiling wanted default_worker_profile_policy "/work" resolved resolves

abbrev event : OperationRequested
event = record request {
  task = record request.task { requested = wanted };
  requested_config = wanted;
  effective_config = resolved;
  max_result_byte_count = 1048576;
}

requests : requested_worker_config wanted ≡ ok wanted
unfolding requested_worker_config unique_tools is_unique includes is_bounded utf8
requests = refl

resolved-valid_initial_configuration_example : valid_initial_configuration event ≡ true
resolved-valid_initial_configuration_example =
    resolved-valid_initial_configuration event default_worker_profile_policy "/work" requests
      resolves refl

abbrev seen_tools : List String
seen_tools = "read" ∷ "grep" ∷ "web_search" ∷ []

abbrev reported : ObservedWorkerConfig
reported = record {
  model = observed resolved.model;
  thinking_level = observed low;
  tools = observed seen_tools;
  cwd = observed "/work";
}

disagrees :
    configuration_mismatch resolved (record reported { thinking_level = observed medium })
    ≡ some thinking_level_mismatch
unfolding configuration_mismatch same_model tools_allowed includes
disagrees = refl

wants : includes resolved.tools "read" ≡ true
unfolding includes
wants = refl
