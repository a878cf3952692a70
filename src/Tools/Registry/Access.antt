-- ===== src/Tools/Registry/Access.antt =====
-- The access control of `ToolRegistry.invoke`.
use ops_pilot_ai.Prelude.{
  ◌≤◌, ◌<◌, String, ◌≡◌, ◌≢◌, ◌↔◌, ◌⊎◌, inl, inr, some, arith, eq_iff, ℕ_eq, String_eq,
}
use ops_pilot_ai.Prelude.Text.{upper}
use ops_pilot_ai.Value.{Fields}
use ops_pilot_ai.Tools.Base.{BaseTool, execute, permission_denied}
use ops_pilot_ai.Tools.Registry.{
  Registry, role_hierarchy, caller_weight, required_weight, get_tool, access_denied, invoke,
}

caller_weight-le : (role : String) → caller_weight role ≤ 3
unfolding caller_weight role_hierarchy
caller_weight-le role = ground arith

module _ {W : Type 0} where
  execute-not-denied :
      (tool : BaseTool W) (arguments : Fields) (w : W)
      → (execute tool arguments w).0.status ≢ permission_denied
  unfolding execute
  execute-not-denied tool arguments w h = ground arith

  -- For a registered tool the answer is PERMISSION_DENIED exactly when the caller's role weighs less
  -- than the role that the tool requires; then the world is unchanged, and else the answer and the
  -- world are those of the tool run on the given arguments.
  pub invoke_access :
      (registry : Registry W) (name role : String) (arguments : Fields) (w : W) (tool : BaseTool W)
      → get_tool name registry ≡ some tool
      → (((invoke registry name arguments role w).0.status ≡ permission_denied)
          ↔ (caller_weight role < required_weight tool.required_role))
        × ((caller_weight role < required_weight tool.required_role)
            → (invoke registry name arguments role w).1 ≡ w)
        × (required_weight tool.required_role ≤ caller_weight role
            → invoke registry name arguments role w ≡ execute tool arguments w)
  unfolding invoke access_denied
  invoke_access registry name role arguments w tool h = (
    (ground (arith, execute-not-denied tool arguments w), ground arith),
    ground arith,
    ground arith,
  )

-- The roles that weigh enough for an OPERATOR tool are, in upper case, OPERATOR and ADMIN.
operator_iff :
    (role : String)
    → (required_weight "OPERATOR" ≤ caller_weight role)
      ↔ ((upper role ≡ "OPERATOR") ⊎ (upper role ≡ "ADMIN"))
unfolding caller_weight required_weight role_hierarchy
operator_iff role = (
  (λ h. ground (
    arith,
    eq_iff (upper role) "OPERATOR",
    eq_iff (upper role) "ADMIN",
    eq_iff (upper role) "VIEWER",
  )),
  elim [ inl e ↦ rw e (omega arith) | inr e ↦ rw e (omega arith) ],
)
