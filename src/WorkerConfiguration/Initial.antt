-- ===== src/WorkerConfiguration/Initial.antt =====
-- src/internal/worker-configuration.ts and the start of src/internal/runtime.ts: the event that
-- records a resolved configuration.
use pions.Prelude.{
  ◌≡◌, refl, String, true, ◌⊎◌, inl, inr, some, none, List, [], ◌∷◌, Option, ltb, str_eq, eq_iff,
  arith, ◌==◌, non_empty, ◌&&◌, length,
}
use pions.Except.{ok, err, Except-cases}
use pions.Text.{is_safe_integer}
use pions.Types.Configuration.{
  ModelReference, ThinkingLevel, RequestedWorkerConfig, EffectiveWorkerConfig, WorkerProfilePolicy,
}
use pions.Operation.{OperationRequested}
use pions.Reducer.Guards.{
  same_text, same_texts, same_level, same_model_option, same_string_array, is_only_model,
  valid_initial_configuration,
}
use pions.WorkerConfiguration.{
  is_bounded, only_candidate, same_model, optional_tools, requested_worker_config, resolve_with,
  resolve_worker_config,
}
use pions.WorkerConfiguration.Ceiling.{unique_tools-cases}

optional_tools-cases :
    (tools : Option (List String))
    → (optional_tools tools ≡ ok tools) ⊎ ((e : _) × (optional_tools tools ≡ err e))
optional_tools-cases none = ground arith
optional_tools-cases (some tools) = ground (arith, unique_tools-cases tools)

requested_lem :
    (task requested : RequestedWorkerConfig)
    → requested_worker_config task ≡ ok requested
    → requested ≡ task
unfolding requested_worker_config
requested_lem task requested h = ground (arith, optional_tools-cases task.tools)

candidate_lem :
    (requested : RequestedWorkerConfig) (profile : WorkerProfilePolicy) (runtime_cwd : String)
    (effective : EffectiveWorkerConfig)
    → resolve_with requested profile runtime_cwd ≡ ok effective
    → (candidate : ModelReference) × (only_candidate profile.model_candidates ≡ ok candidate)
unfolding resolve_with
candidate_lem requested profile runtime_cwd effective h =
    elim (Except-cases (only_candidate profile.model_candidates)) [
      | inl found ↦ found
      | inr (e, failed) ↦ ground (arith, failed)
    ]

module _ (requested : RequestedWorkerConfig) (profile : WorkerProfilePolicy) (runtime_cwd : String)
    (effective : EffectiveWorkerConfig) (candidate : ModelReference)
    (h : resolve_with requested profile runtime_cwd ≡ ok effective)
    (c : only_candidate profile.model_candidates ≡ ok candidate) where
  resolve_model :
      (is_bounded candidate.provider ≡ true)
      × (is_bounded candidate.id ≡ true)
      × (same_model effective.model candidate ≡ true)
  unfolding resolve_with
  resolve_model = ground arith

  resolve_policy : effective.model_policy ≡ record {
    candidates = candidate ∷ [];
    attempted = effective.model ∷ [];
    max_attempts = 1;
    fallback = "forbidden";
    aliases = [];
  }
  unfolding resolve_with
  resolve_policy = ground arith

  resolve_bounds :
      (is_bounded effective.cwd ≡ true)
      × (is_safe_integer effective.max_result_byte_count ≡ true)
      × (ltb 0 effective.max_result_byte_count ≡ true)
  unfolding resolve_with
  resolve_bounds = ground arith

  resolve_names :
      (non_empty effective.model.provider ≡ true)
      × (non_empty effective.model.id ≡ true)
      × (non_empty effective.cwd ≡ true)
  unfolding is_bounded same_model
  resolve_names = ground (
    arith,
    resolve_model,
    resolve_bounds,
    eq_iff effective.model.provider candidate.provider,
    eq_iff effective.model.id candidate.id,
  )

  resolve_only :
      (is_only_model (candidate ∷ []) effective.model ≡ true)
      × (is_only_model (effective.model ∷ []) effective.model ≡ true)
  unfolding same_model
  resolve_only = ground (
    arith,
    resolve_model,
    eq_iff effective.model.provider candidate.provider,
    eq_iff effective.model.provider effective.model.provider,
    eq_iff candidate.provider effective.model.provider,
    eq_iff effective.model.id candidate.id,
    eq_iff effective.model.id effective.model.id,
    eq_iff candidate.id effective.model.id,
  )

  resolve_policy_fields :
      (is_only_model effective.model_policy.candidates effective.model
          && is_only_model effective.model_policy.attempted effective.model
          && effective.model_policy.max_attempts == 1
          && str_eq effective.model_policy.fallback "forbidden"
          && length effective.model_policy.aliases == 0
        ≡ true)
  resolve_policy_fields = rw resolve_policy (ground (arith, resolve_only))

same_texts_refl : (texts : List String) → same_texts texts texts ≡ true
same_texts_refl [] = refl
same_texts_refl (text ∷ texts) = ground (arith, same_texts_refl texts, eq_iff text text)

same_model_refl : (model : Option ModelReference) → same_model_option model model ≡ true
same_model_refl none = refl
same_model_refl (some m) = ground (arith, eq_iff m.provider m.provider, eq_iff m.id m.id)

same_text_refl : (text : Option String) → same_text text text ≡ true
same_text_refl none = refl
same_text_refl (some t) = ground (arith, eq_iff t t)

same_level_refl : (level : Option ThinkingLevel) → same_level level level ≡ true
same_level_refl none = refl
same_level_refl (some l) = ground arith

same_array_refl : (tools : Option (List String)) → same_string_array tools tools ≡ true
same_array_refl none = refl
same_array_refl (some tools) = same_texts_refl tools

same_requested :
    (task requested : RequestedWorkerConfig)
    → requested ≡ task
    → (same_model_option requested.model task.model ≡ true)
      × (same_level requested.thinking_level task.thinking_level ≡ true)
      × (same_text requested.cwd task.cwd ≡ true)
      × (same_string_array requested.tools task.tools ≡ true)
same_requested task requested p = rw p (
  same_model_refl task.model,
  same_level_refl task.thinking_level,
  same_text_refl task.cwd,
  same_array_refl task.tools,
)

-- An operation that is requested with the checked configuration of its task, and with what that
-- resolves to under a profile, passes the reducer's check of the initial configuration.
pub resolved-valid_initial_configuration :
    (event : OperationRequested) (profile : WorkerProfilePolicy) (runtime_cwd : String)
    → requested_worker_config event.task.requested ≡ ok event.requested_config
    → resolve_worker_config event.requested_config (some profile) runtime_cwd
      ≡ ok event.effective_config
    → event.max_result_byte_count ≡ event.effective_config.max_result_byte_count
    → valid_initial_configuration event ≡ true
unfolding valid_initial_configuration resolve_worker_config
resolved-valid_initial_configuration event profile runtime_cwd r e m =
    let (candidate, c) = candidate_lem event.requested_config profile runtime_cwd _ e in
    ground (
      arith,
      same_requested event.task.requested event.requested_config
          (requested_lem event.task.requested event.requested_config r),
      resolve_names event.requested_config profile runtime_cwd event.effective_config candidate e c,
      resolve_policy_fields event.requested_config profile runtime_cwd event.effective_config
          candidate e c,
      resolve_bounds event.requested_config profile runtime_cwd event.effective_config candidate e
          c,
    )
