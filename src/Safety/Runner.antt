-- ===== src/Safety/Runner.antt =====
-- src/safety/execution_runner.py: `ExecutionRunner`, over a registry of tools that act on a world
-- `W`. The state is the set of executed idempotency keys and the world. What the method raises
-- itself, on parameters or tool results of an unexpected shape, is an `err`.
pub mod Idempotency
pub mod Rollback
pub mod Target
use ops_pilot_ai.Prelude.{
  ℕ, zero, suc, ◌+◌, ◌-◌, ◌*◌, ◌/◌, ◌%◌, ◌≤◌, ◌<◌, min, max, String, ◌≡◌, refl, sym, ap, ◌∙◌, ◌≢◌,
  ◌↔◌, ◌⊎◌, inl, inr, Bool, true, false, not, ◌&&◌, ◌||◌, Option, none, some, List, [], ◌∷◌, ◌++◌,
  map, arith, eq_iff, eq_refl, ltb, leb, nat_eqb, nat_eqb_iff, if◌then◌else◌, Eq, ◌==◌, ℕ_eq,
  String_eq, Bool-cases, Option-cases, length, take, drop, head?, last?, keep_if, find_if, any_of,
  All, length-append, length-drop, All-append, All-keep_if, elem, elem-append, nodup,
}
use Prim.Native.String.{◌++◌ as ◌⧺◌}
use ops_pilot_ai.Result.{Result, ok, err}
use ops_pilot_ai.Value.{Value, null, str, obj, Fields, end, field, get, get_or, merge}
use ops_pilot_ai.Value.Text.{to_text}
use ops_pilot_ai.Domain.{
  ActionType, rollback_deployment, modify_configuration, restart_service, RemediationAction,
  ExecutionStatus, success, failed, rolled_back, ActionExecutionResult, high,
}
use ops_pilot_ai.Domain.Names.{action_name}
use ops_pilot_ai.Simulator.Scenario.{type_name}
use ops_pilot_ai.Tools.Base
use ops_pilot_ai.Tools.Base.{ToolStatus, ToolResult}
use ops_pilot_ai.Tools.Registry.{Registry, get_tool, invoke}

pub record Runner (W : Type 0) : Type 0 where
  pub executed_keys : List String
  pub world : W

unfoldable pub skipped : String → ActionExecutionResult
skipped action_id = record {
  action_id = action_id;
  status = success;
  output = "Skipped: action was already executed idempotently.";
  error_message = none;
}

unfoldable pub no_tool : RemediationAction → ActionExecutionResult
no_tool action = record {
  action_id = action.action_id;
  status = failed;
  output = "";
  error_message =
      some ("No executable tool found for action type '" ⧺ action_name action.action_type ⧺ "'");
}

-- `tool_result.data.get("message", default)`, which must be a text
abbrev pub message_of : Value → Result String
message_of (obj d) = elim (get_or "message" (str "Remediation action completed successfully") d) [
  | str s ↦ ok s
  | v ↦ err ("output: Input should be a valid string, not " ⧺ type_name v)
]
message_of v = err ("'" ⧺ type_name v ⧺ "' object has no attribute 'get'")

abbrev pub error_or : String → Option String → String
error_or default none = default
error_or default (some e) = if e == "" then default else e

-- `_executed_idempotency_keys.add(key)`, for a key that is not empty
abbrev pub add_key : String → List String → List String
add_key key keys = if key == "" || elem key keys then keys else key ∷ keys

abbrev pub is_executed : RemediationAction → List String → Bool
is_executed action keys = not (action.idempotency_key == "") && elem action.idempotency_key keys

abbrev pub is_success : ToolStatus → Bool
is_success ToolStatus.success = true
is_success _ = false

-- The tool's arguments: the target, overridden by a `target_service` among the parameters.
unfoldable pub tool_args : String → Fields → Fields
unfolding merge
tool_args target parameters = merge (field "target_service" (str target) end) parameters

-- `res.model_copy(update={"status": "ROLLED_BACK"})`
abbrev pub as_rolled_back : Result ActionExecutionResult → Result ActionExecutionResult
as_rolled_back (ok r) = ok (record r { status = rolled_back })
as_rolled_back (err e) = err e

unfoldable pub restart_action : RemediationAction → RemediationAction
restart_action action = record {
  action_id = "rb-" ⧺ action.action_id;
  action_type = restart_service;
  target_service = action.target_service;
  parameters = end;
  description = "Compensatory pod restart during rollback";
  rationale = "Reset pod state following failed action";
  rollback_plan = "None";
  risk_tier = high;
  risk_score = 500;
  requires_approval = true;
  estimated_downtime_seconds = 0;
  idempotency_key = "";
}

abbrev pub compensated :
    RemediationAction → Result ActionExecutionResult → Result ActionExecutionResult
compensated action (ok res) = ok (record {
  action_id = action.action_id;
  status = rolled_back;
  output = "Executed compensatory rollback: " ⧺ res.output;
  error_message = none;
})
compensated action (err e) = err e

-- The parameters with which a compensation runs the action's own tool again, or `none` where it
-- restarts the service instead.
unfoldable pub rollback_parameters : ActionType → Fields → Option Value
unfolding get_or get
rollback_parameters rollback_deployment parameters =
    some (obj (field "target_version" (get_or "previous_version" null parameters) end))
rollback_parameters modify_configuration parameters =
    some (get_or "rollback_config" (obj end) parameters)
rollback_parameters _ parameters = none

module _ {W : Type 0} where
  unfoldable pub conclude :
      RemediationAction → ToolResult → Runner W → Result ActionExecutionResult × Runner W
  conclude action result runner =
      if is_success result.status
      then (
        elim (message_of result.result_data) [
          | ok msg ↦ ok (record {
            action_id = action.action_id;
            status = success;
            output = msg;
            error_message = none;
          })
          | err e ↦ err e
        ],
        record runner { executed_keys = add_key action.idempotency_key runner.executed_keys },
      )
      else (
        ok (record {
          action_id = action.action_id;
          status = failed;
          output = "";
          error_message = some (error_or "Tool execution failed" result.error_message);
        }),
        runner,
      )

  unfoldable pub dispatch :
      Registry W
      → RemediationAction
      → Fields
      → String
      → Runner W
      → Result ActionExecutionResult × Runner W
  dispatch registry action parameters caller_role runner =
      let (result, world') =
        invoke registry (action_name action.action_type)
          (tool_args action.target_service parameters) caller_role runner.world in
      conclude action result (record runner { world = world' })

  -- `execute_action` on parameters of any shape: a rollback may hand it a value that is no mapping.
  unfoldable pub execute_with :
      Registry W
      → RemediationAction
      → Value
      → String
      → Runner W
      → Result ActionExecutionResult × Runner W
  execute_with registry action parameters caller_role runner =
      if is_executed action runner.executed_keys
      then (ok (skipped action.action_id), runner)
      else elim (get_tool (action_name action.action_type) registry) [
        | none ↦ (ok (no_tool action), runner)
        | some tool ↦ elim parameters [
          | obj d ↦ dispatch registry action d caller_role runner
          | v ↦ (err ("'" ⧺ type_name v ⧺ "' object is not a mapping"), runner)
        ]
      ]

  unfoldable pub execute_action :
      Registry W → RemediationAction → String → Runner W → Result ActionExecutionResult × Runner W
  execute_action registry action caller_role runner =
      execute_with registry action (obj action.parameters) caller_role runner

  unfoldable pub execute_rollback :
      Registry W → RemediationAction → String → Runner W → Result ActionExecutionResult × Runner W
  execute_rollback registry action caller_role runner =
      elim (rollback_parameters action.action_type action.parameters) [
        | some parameters ↦
            (let (res, runner') = execute_with registry action parameters caller_role runner in
              (as_rolled_back res, runner'))
        | none ↦
            (let (res, runner') =
                execute_with registry (restart_action action) (obj end) caller_role runner in
              (compensated action res, runner'))
      ]
