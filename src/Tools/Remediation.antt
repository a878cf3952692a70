-- ===== src/Tools/Remediation.antt =====
-- src/tools/remediation_tools.py: the five tools that change the simulated infrastructure, each as
-- its `_run` on the keyword arguments. No argument is named `self`.
use ops_pilot_ai.Prelude.{
  String, Bool, true, false, Option, none, some, [], if◌then◌else◌, ℕ_eq, String_eq,
}
use Prim.Native.String.{◌++◌ as ◌⧺◌}
use ops_pilot_ai.Result.{Result, ok, err}
use ops_pilot_ai.Value.{
  Value, null, str, obj, Fields, end, field, get, get_or, put, merge, without, truthy,
}
use ops_pilot_ai.Value.Text.{to_text}
use ops_pilot_ai.Simulator.Engine.{Engine, execute_action}
use ops_pilot_ai.Simulator.Scenario.{type_name}
use ops_pilot_ai.Tools.Base.{BaseTool}
use ops_pilot_ai.Tools.Registry.{Registry, register}

abbrev missing : String → String → Result Value
missing cls names = err (cls ⧺ "._run() missing " ⧺ names)

-- What a tool makes of the simulator's answer.
unfoldable pub answer :
    String → (Value → Fields) → Result (Bool × String) × Engine → Result Value × Engine
answer failure report (ok (true, message), engine) = (ok (obj (report (str message))), engine)
answer failure report (ok (false, message), engine) = (err (failure ⧺ ": " ⧺ message), engine)
answer failure report (err e, engine) = (err e, engine)

unfoldable pub run_restart : Fields → Engine → Result Value × Engine
unfolding get without answer execute_action to_text
run_restart kwargs engine = elim (get "target_service" kwargs) [
  | none ↦ (missing "RestartServiceTool" "1 required positional argument: 'target_service'", engine)
  | some target ↦
      answer ("Failed to restart service " ⧺ to_text target)
        (λ message.
          field "target_service" target
            (field "status" (str "RESTARTED") (field "message" message end)))
        (execute_action "restart_service"
          (field "target_service" target (without "target_service" kwargs)) engine)
]

unfoldable pub run_rollback : Fields → Engine → Result Value × Engine
unfolding get get_or without answer execute_action to_text
run_rollback kwargs engine =
    let version = get_or "target_version" null kwargs in
    let others = without "target_version" (without "target_service" kwargs) in
    elim (get "target_service" kwargs) [
      | none ↦ (
        missing "RollbackDeploymentTool" "1 required positional argument: 'target_service'",
        engine,
      )
      | some target ↦
          answer ("Rollback failed for " ⧺ to_text target)
            (λ message. field "target_service" target (
              field "target_version" version
                (field "status" (str "ROLLED_BACK") (field "message" message end))))
            (execute_action "rollback_deployment"
              (field "target_service" target (field "target_version" version others)) engine)
    ]

abbrev missing_scale : Option Value → Option Value → String
missing_scale none none = "2 required positional arguments: 'target_service' and 'replicas'"
missing_scale none (some v) = "1 required positional argument: 'target_service'"
missing_scale (some v) w = "1 required positional argument: 'replicas'"

unfoldable pub run_scale : Fields → Engine → Result Value × Engine
unfolding get without answer execute_action to_text
run_scale kwargs engine =
    let others = without "replicas" (without "target_service" kwargs) in
    let refusal : Result Value × Engine = (
      missing "ScaleReplicasTool"
          (missing_scale (get "target_service" kwargs) (get "replicas" kwargs)),
      engine,
    ) in
    elim (get "target_service" kwargs) [
      | none ↦ refusal
      | some target ↦ elim (get "replicas" kwargs) [
        | none ↦ refusal
        | some replicas ↦
            answer ("Scaling failed for " ⧺ to_text target)
              (λ message. field "target_service" target (
                field "replicas" replicas
                  (field "status" (str "SCALED") (field "message" message end))))
              (execute_action "scale_replicas"
                (field "target_service" target (field "replicas" replicas others)) engine)
      ]
    ]

-- `{**patch, **kwargs, "target_service": target_service}` with `patch = config_patch or {}`
unfoldable pub combine : Value → Value → Fields → Result Fields
unfolding merge put
combine (obj patch) target others = ok (put "target_service" target (merge patch others))
combine patch target others =
    if truthy patch
    then err ("'" ⧺ type_name patch ⧺ "' object is not a mapping")
    else ok (put "target_service" target others)

unfoldable pub run_modify : Fields → Engine → Result Value × Engine
unfolding get get_or without answer execute_action to_text combine
run_modify kwargs engine =
    let others = without "config_patch" (without "target_service" kwargs) in
    elim (get "target_service" kwargs) [
      | none ↦ (
        missing "ModifyConfigurationTool" "1 required positional argument: 'target_service'",
        engine,
      )
      | some target ↦ elim (combine (get_or "config_patch" null kwargs) target others) [
        | err e ↦ (err e, engine)
        | ok combined ↦
            answer ("Config modification failed for " ⧺ to_text target)
              (λ message. field "target_service" target (
                field "applied_patch" (obj combined)
                  (field "status" (str "CONFIGURED") (field "message" message end))))
              (execute_action "modify_configuration" combined engine)
      ]
    ]

unfoldable pub run_clear : Fields → Engine → Result Value × Engine
unfolding get get_or without answer execute_action to_text
run_clear kwargs engine =
    let cache_type = get_or "cache_type" (str "all") kwargs in
    let others = without "cache_type" (without "target_service" kwargs) in
    elim (get "target_service" kwargs) [
      | none ↦ (missing "ClearCacheTool" "1 required positional argument: 'target_service'", engine)
      | some target ↦
          answer ("Cache clearance failed for " ⧺ to_text target)
            (λ message. field "target_service" target (
              field "cache_type" cache_type
                (field "status" (str "PURGED") (field "message" message end))))
            (execute_action "clear_cache"
              (field "target_service" target (field "cache_type" cache_type others)) engine)
    ]

abbrev operator_tool : String → (Fields → Engine → Result Value × Engine) → BaseTool Engine
operator_tool name run = record { name = name; required_role = "OPERATOR"; run = run }

-- The remediation tools among those that `_register_default_tools` registers.
unfoldable pub remediation_registry : Registry Engine
unfolding register run_restart run_rollback run_scale run_modify run_clear
remediation_registry = register (operator_tool "clear_cache" run_clear) (
    register (operator_tool "modify_configuration" run_modify) (
      register (operator_tool "scale_replicas" run_scale) (
        register (operator_tool "rollback_deployment" run_rollback)
          (register (operator_tool "restart_service" run_restart) []))))
