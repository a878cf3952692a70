-- ===== src/Safety/Runner/Target.antt =====
-- The service that a dispatched tool acts on.
use ops_pilot_ai.Prelude.{
  String, ◌≡◌, refl, inl, inr, true, false, none, some, arith, ℕ_eq, String_eq, Option-cases,
}
use ops_pilot_ai.Value.{
  Fields, str, get, get_or, has, field, end, distinct, get-merge, get-merge_absent,
}
use ops_pilot_ai.Safety.Runner.{tool_args}

has_of_get : (d : Fields) → get "target_service" d ≡ none → has "target_service" d ≡ false
unfolding get has
has_of_get end h = refl
has_of_get (field j v d) h = ground (arith, has_of_get d)

alone :
    (target : String)
    → get "target_service" (field "target_service" (str target) end) ≡ some (str target)
unfolding get
alone target = refl

-- On parameters without repeated keys, the tool's target is the `target_service` among the
-- parameters where they have one, and the target that the risk policy assessed only where they do not.
pub tool_args-target :
    (target : String) (parameters : Fields)
    → distinct parameters ≡ true
    → get "target_service" (tool_args target parameters)
      ≡ some (get_or "target_service" (str target) parameters)
unfolding tool_args get_or
tool_args-target target parameters h =
    let given = field "target_service" (str target) end in
    elim (Option-cases (get "target_service" parameters)) [
      | inl e ↦ ground (
        arith,
        get-merge_absent "target_service" given parameters,
        has_of_get parameters,
        alone target,
      )
      | inr (v, e) ↦ ground (arith, get-merge "target_service" v given parameters)
    ]
