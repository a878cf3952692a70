-- ===== src/Safety/Policy.antt =====
-- src/safety/policy.py: `RiskPolicyEngine`. Risk scores are thousandths; on the table's values and
-- its penalties the source's sums of floats compare with the thresholds as these do. The hash
-- `sha256_hex` of hashlib is a parameter, and `settings` is read through the flag it would hold.
pub mod BlastRadius
pub mod Tiers
pub mod Roles
use ops_pilot_ai.Prelude.{
  ℕ, zero, suc, ◌+◌, ◌-◌, ◌*◌, ◌/◌, ◌%◌, ◌≤◌, ◌<◌, min, max, String, ◌≡◌, refl, sym, ap, ◌∙◌, ◌≢◌,
  ◌↔◌, ◌⊎◌, inl, inr, Bool, true, false, not, ◌&&◌, ◌||◌, Option, none, some, List, [], ◌∷◌, ◌++◌,
  map, arith, eq_iff, eq_refl, ltb, leb, nat_eqb, nat_eqb_iff, if◌then◌else◌, Eq, ◌==◌, ℕ_eq,
  String_eq, Bool-cases, Option-cases, length, take, drop, head?, last?, keep_if, find_if, any_of,
  All, length-append, length-drop, All-append, All-keep_if, elem, elem-append,
}
use Prim.Native.String.{◌++◌ as ◌⧺◌}
use ops_pilot_ai.Prelude.Text.{upper}
use ops_pilot_ai.Value.{Fields}
use ops_pilot_ai.Value.Text.{dumps_sorted}
use ops_pilot_ai.Domain.{
  ActionType, restart_service, rollback_deployment, scale_replicas, modify_configuration, run_query,
  clear_cache, RiskTier, low, medium, high, critical, RemediationAction,
}
use ops_pilot_ai.Domain.Names.{action_name}
use ops_pilot_ai.Topology.{Services, get_upstream_dependents, get_downstream_dependencies}
use ops_pilot_ai.Safety.Destructive.{detect_destructive_payload}

unfoldable pub base_action_risk : ActionType → ℕ
base_action_risk clear_cache = 200
base_action_risk scale_replicas = 300
base_action_risk modify_configuration = 450
base_action_risk restart_service = 650
base_action_risk rollback_deployment = 700
base_action_risk run_query = 850

-- `list(dict.fromkeys(names))`: the first of each name, in order
unfoldable pub from_keys : List String → List String → List String
from_keys seen [] = []
from_keys seen (s ∷ rest) =
    let fresh = from_keys (s ∷ seen) rest in
    let known = from_keys seen rest in if elem s seen then known else s ∷ fresh

unfoldable pub calculate_blast_radius : String → Services → List String
unfolding from_keys get_upstream_dependents get_downstream_dependencies
calculate_blast_radius target_service topology = from_keys [] (
    target_service
    ∷ (get_upstream_dependents target_service topology
        ++ get_downstream_dependencies target_service topology))

-- `hexdigest()[:32]`
unfoldable pub first_chars : ℕ → String → String
first_chars zero s = ""
first_chars (suc n) String.[] = ""
first_chars (suc n) (String.◌∷◌ c s) = String.◌∷◌ c (first_chars n s)

unfoldable pub generate_idempotency_key :
    (String → String) → String → String → String → Fields → String
unfolding first_chars dumps_sorted
generate_idempotency_key sha256_hex incident_id action_type target_service parameters =
    first_chars 32 (
      sha256_hex
        (incident_id ⧺ ":" ⧺ action_type ⧺ ":" ⧺ target_service ⧺ ":" ⧺ dumps_sorted parameters))

unfoldable pub risk_tier_of : ℕ → RiskTier
risk_tier_of total_score =
    if ltb total_score 350
    then low
    else if ltb total_score 600
    then medium
    else if ltb total_score 850
    then high
    else critical

-- The score of an action by its base risk, its payload and the size of its blast radius.
unfoldable pub total_score : ActionType → Bool → ℕ → ℕ
unfolding base_action_risk
total_score action_type is_destructive radius =
    let base_risk : ℕ = if is_destructive then 1000 else base_action_risk action_type in
    min 1000 (base_risk + min 200 (radius * 50))

abbrev pub is_low : RiskTier → Bool
is_low low = true
is_low _ = false

unfoldable pub assess_action_risk :
    (String → String) → Bool → Services → RemediationAction → String → RemediationAction
assess_action_risk sha256_hex auto_remediate_enabled topology action incident_id =
    let is_destructive = detect_destructive_payload action.parameters in
    let blast_radius = calculate_blast_radius action.target_service topology in
    let score = total_score action.action_type is_destructive (length blast_radius) in
    let tier = risk_tier_of score in
    record action {
      risk_score = score;
      risk_tier = tier;
      requires_approval = not (is_low tier && auto_remediate_enabled && not is_destructive);
      idempotency_key =
          generate_idempotency_key sha256_hex incident_id (action_name action.action_type)
            action.target_service action.parameters;
    }

abbrev pub is_critical : RiskTier → Bool
is_critical critical = true
is_critical _ = false

abbrev pub is_high : RiskTier → Bool
is_high high = true
is_high _ = false

unfoldable pub authorize_approval : RemediationAction → String → Bool × String
unfolding upper
authorize_approval action approver_role =
    let role = upper approver_role in
    if not (elem role ("VIEWER" ∷ "OPERATOR" ∷ "ADMIN" ∷ []))
    then (false, "Unknown approver role '" ⧺ approver_role ⧺ "'")
    else if role == "VIEWER"
    then (false, "VIEWER role has read-only access and cannot approve remediation actions")
    else if is_critical action.risk_tier && not (role == "ADMIN")
    then (false, "CRITICAL risk remediation actions strictly require ADMIN role approval")
    else if is_high action.risk_tier && not (elem role ("ADMIN" ∷ "OPERATOR" ∷ []))
    then (false, "HIGH risk remediation actions require at least OPERATOR role approval")
    else (true, "Authorized")
