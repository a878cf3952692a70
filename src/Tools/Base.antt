-- ===== src/Tools/Base.antt =====
-- src/tools/base.py: a tool acts on a world `W` (the simulator, in the program). The durations and
-- times of a result are left out.
use ops_pilot_ai.Prelude.{String, Option, none, some, ℕ_eq, String_eq}
use ops_pilot_ai.Result.{Result, ok, err}
use ops_pilot_ai.Value.{Value, null, Fields}

pub data ToolStatus : Type 0 where
  success failed permission_denied : ToolStatus

pub record ToolResult : Type 0 where
  pub tool_name : String
  pub status : ToolStatus
  pub result_data : Value
  pub error_message : Option String

-- An instance of a subclass of `BaseTool`: `run` is its `_run` on the keyword arguments.
pub record BaseTool (W : Type 0) : Type 0 where
  pub name : String
  pub required_role : String
  pub run : Fields → W → Result Value × W

-- `execute`: whatever `_run` raises becomes a FAILED result
unfoldable pub execute : {W : Type 0} → BaseTool W → Fields → W → ToolResult × W
execute tool arguments world =
    let (answer, world') = tool.run arguments world in
    (
      elim answer [
        | ok output ↦ record {
          tool_name = tool.name;
          status = success;
          result_data = output;
          error_message = none;
        }
        | err e ↦ record {
          tool_name = tool.name;
          status = failed;
          result_data = null;
          error_message = some e;
        }
      ],
      world',
    )
