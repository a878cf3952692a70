-- ===== src/Safety/Policy/Tiers.antt =====
-- What the risk score and the approval gate of `assess_action_risk` guarantee.
use ops_pilot_ai.Prelude.{
  ℕ, ◌≤◌, ◌<◌, String, ◌≡◌, ◌↔◌, ◌⊎◌, Bool, true, false, arith, ℕ_eq, String_eq, length,
}
use ops_pilot_ai.Prelude.Text.{upper}
use ops_pilot_ai.Domain.{
  ActionType, clear_cache, scale_replicas, modify_configuration, restart_service,
  rollback_deployment, run_query, low, critical, RemediationAction,
}
use ops_pilot_ai.Topology.{Services}
use ops_pilot_ai.Safety.Destructive.{detect_destructive_payload}
use ops_pilot_ai.Safety.Policy.{
  from_keys, calculate_blast_radius, total_score, risk_tier_of, assess_action_risk,
  authorize_approval,
}

radius_pos :
    (target : String) (topology : Services) → 0 < length (calculate_blast_radius target topology)
unfolding calculate_blast_radius from_keys
radius_pos target topology = omega arith

-- Which scores are LOW: those of a cache that at most two services share.
low_iff :
    (t : ActionType) (destructive : Bool) (radius : ℕ)
    → 0 < radius
    → (risk_tier_of (total_score t destructive radius) ≡ low)
      ↔ ((destructive ≡ false) × (t ≡ clear_cache) × (radius ≤ 2))
unfolding total_score risk_tier_of
low_iff clear_cache true radius h = (ground arith, ground arith)
low_iff clear_cache false radius h = (ground arith, ground arith)
low_iff _ true radius h = (ground arith, ground arith)
low_iff _ false radius h = (ground arith, ground arith)

destructive_score : (t : ActionType) (radius : ℕ) → total_score t true radius ≡ 1000
unfolding total_score
destructive_score t radius = omega arith

-- Which actions are CRITICAL without a destructive payload: the penalty of the radius is at most 200.
abbrev pub IsHeavy : ActionType → ℕ → Type 0
IsHeavy t radius =
    (t ≡ run_query)
    ⊎ ((t ≡ rollback_deployment) × (3 ≤ radius))
    ⊎ ((t ≡ restart_service) × (4 ≤ radius))

critical_iff :
    (t : ActionType) (destructive : Bool) (radius : ℕ)
    → (risk_tier_of (total_score t destructive radius) ≡ critical)
      ↔ ((destructive ≡ true) ⊎ IsHeavy t radius)
unfolding total_score risk_tier_of
critical_iff t true radius = (ground arith, ground arith)
critical_iff run_query false radius = (ground arith, ground arith)
critical_iff rollback_deployment false radius = (ground arith, ground arith)
critical_iff restart_service false radius = (ground arith, ground arith)
critical_iff clear_cache false radius = (ground arith, ground arith)
critical_iff scale_replicas false radius = (ground arith, ground arith)
critical_iff modify_configuration false radius = (ground arith, ground arith)

operator_barred :
    (a : RemediationAction) (role : String)
    → upper role ≡ "OPERATOR"
    → ((authorize_approval a role).0 ≡ false) ↔ (a.risk_tier ≡ critical)
unfolding authorize_approval
operator_barred a role h = (rw h (ground arith), rw h (ground arith))

module _ (sha256_hex : String → String) (flag : Bool) (topology : Services) (a : RemediationAction)
    (incident_id : String) where
  abbrev assessed : RemediationAction
  assessed = assess_action_risk sha256_hex flag topology a incident_id

  -- An action whose parameters hold a destructive text gets the full score and the tier CRITICAL, and
  -- requires approval, whatever its type, its target and the auto-remediation flag.
  pub destructive-IsGated :
      detect_destructive_payload a.parameters ≡ true
      → (assessed.risk_score ≡ 1000)
        × (assessed.risk_tier ≡ critical)
        × (assessed.requires_approval ≡ true)
  unfolding assess_action_risk risk_tier_of
  destructive-IsGated h = ground (
    arith,
    destructive_score a.action_type (length (calculate_blast_radius a.target_service topology)),
  )

  -- An action is exempt from approval exactly when the flag is set, its payload is not destructive,
  -- and it clears a cache with a blast radius of at most two services.
  pub exempt_iff : (assessed.requires_approval ≡ false) ↔ (
      (flag ≡ true)
      × (detect_destructive_payload a.parameters ≡ false)
      × (a.action_type ≡ clear_cache)
      × (length (calculate_blast_radius a.target_service topology) ≤ 2))
  unfolding assess_action_risk
  exempt_iff =
      let known =
        low_iff a.action_type (detect_destructive_payload a.parameters)
          (length (calculate_blast_radius a.target_service topology))
          (radius_pos a.target_service topology) in
      (ground arith, ground arith)

  -- An OPERATOR may not approve an assessed action exactly when its payload is destructive, or it is
  -- a query, a rollback with a blast radius of at least three services, or a restart with one of at
  -- least four.
  pub operator_barred_iff :
      (role : String)
      → upper role ≡ "OPERATOR"
      → ((authorize_approval assessed role).0 ≡ false) ↔ (
          (detect_destructive_payload a.parameters ≡ true)
          ⊎ IsHeavy a.action_type (length (calculate_blast_radius a.target_service topology)))
  unfolding assess_action_risk
  operator_barred_iff role h =
      let known =
        critical_iff a.action_type (detect_destructive_payload a.parameters)
          (length (calculate_blast_radius a.target_service topology)) in
      let barred = operator_barred assessed role h in
      (λ e. known.0 (barred.0 e), λ e. barred.1 (known.1 e))
