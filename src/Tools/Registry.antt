-- ===== src/Tools/Registry.antt =====
-- src/tools/registry.py: registration, access control and the redaction of logged arguments.
pub mod Access
pub mod Redaction
use ops_pilot_ai.Prelude.{
  ℕ, zero, suc, ◌+◌, ◌-◌, ◌*◌, ◌/◌, ◌%◌, ◌≤◌, ◌<◌, min, max, String, ◌≡◌, refl, sym, ap, ◌∙◌, ◌≢◌,
  ◌↔◌, ◌⊎◌, inl, inr, Bool, true, false, not, ◌&&◌, ◌||◌, Option, none, some, List, [], ◌∷◌, ◌++◌,
  map, arith, eq_iff, eq_refl, ltb, leb, nat_eqb, nat_eqb_iff, if◌then◌else◌, Eq, ◌==◌, ℕ_eq,
  String_eq, Bool-cases, Option-cases, length, take, drop, head?, last?, keep_if, find_if, any_of,
  All, length-append, length-drop, All-append, All-keep_if, elem, elem-append, nodup,
}
use Prim.Native.String.{◌++◌ as ◌⧺◌}
use ops_pilot_ai.Prelude.Text.{upper}
use ops_pilot_ai.Prelude.Assoc
use ops_pilot_ai.Prelude.Assoc.{Assoc, lookup, insert}
use ops_pilot_ai.Regex.{Regex, any_text}
use ops_pilot_ai.Regex
use ops_pilot_ai.Value.{Value, null, bool, num, str, arr, obj, Fields, end, field}
use ops_pilot_ai.Tools.Base.{ToolStatus, failed, permission_denied, ToolResult, BaseTool, execute}

-- `ROLE_HIERARCHY.get(role)`
unfoldable pub role_hierarchy : String → Option ℕ
role_hierarchy role =
    if role == "VIEWER"
    then some 1
    else if role == "OPERATOR"
    then some 2
    else if role == "ADMIN"
    then some 3
    else none

abbrev pub weight_or : ℕ → Option ℕ → ℕ
weight_or default none = default
weight_or default (some w) = w

unfoldable pub secret_param_pattern : Regex
secret_param_pattern =
    any_text ("password" ∷ "secret" ∷ "key" ∷ "token" ∷ "auth" ∷ "credential" ∷ [])

unfoldable pub is_secret : String → Bool
unfolding secret_param_pattern Regex.search
is_secret k = Regex.search secret_param_pattern k

-- `_sanitize_params`: nested dictionaries are redacted too, lists are not entered
unfoldable mutual
  pub sanitize_params : Fields → Fields
  sanitize_params end = end
  sanitize_params (field k v d) =
      field k (if is_secret k then str "[REDACTED]" else sanitize_value v) (sanitize_params d)

  pub sanitize_value : Value → Value
  sanitize_value (obj d) = obj (sanitize_params d)
  sanitize_value null = null
  sanitize_value (bool b) = bool b
  sanitize_value (num n) = num n
  sanitize_value (str s) = str s
  sanitize_value (arr xs) = arr xs

unfoldable pub not_registered : String → ToolResult
not_registered tool_name = record {
  tool_name = tool_name;
  status = failed;
  result_data = null;
  error_message = some ("Tool [" ⧺ tool_name ⧺ "] is not registered in ToolRegistry");
}

unfoldable pub access_denied : String → String → String → ToolResult
access_denied tool_name required caller_role = record {
  tool_name = tool_name;
  status = permission_denied;
  result_data = null;
  error_message = some (
      "Access Denied: Tool [" ⧺ tool_name ⧺ "] requires role [" ⧺ required ⧺ "], but caller has ["
      ⧺ caller_role ⧺ "]");
}

unfoldable pub caller_weight : String → ℕ
unfolding role_hierarchy upper
caller_weight role = weight_or 0 (role_hierarchy (upper role))

unfoldable pub required_weight : String → ℕ
unfolding role_hierarchy upper
required_weight role = weight_or 99 (role_hierarchy (upper role))

abbrev pub Registry : Type 0 → Type 0
Registry W = Assoc (BaseTool W)

module _ {W : Type 0} where
  unfoldable pub register : BaseTool W → Registry W → Registry W
  unfolding insert
  register tool registry = insert tool.name tool registry

  unfoldable pub get_tool : String → Registry W → Option (BaseTool W)
  unfolding lookup
  get_tool name registry = lookup name registry

  unfoldable pub list_tools : Registry W → List (BaseTool W)
  list_tools registry = Assoc.values registry

  -- Logging shows the sanitized arguments; the tool gets the arguments themselves.
  unfoldable pub invoke : Registry W → String → Fields → String → W → ToolResult × W
  unfolding get_tool execute
  invoke registry tool_name arguments caller_role world = elim (get_tool tool_name registry) [
    | none ↦ (not_registered tool_name, world)
    | some tool ↦
        if ltb (caller_weight caller_role) (required_weight tool.required_role)
        then (access_denied tool_name tool.required_role caller_role, world)
        else execute tool arguments world
  ]
