-- ===== src/Workflow/Assessed.antt =====
-- The plan that is executed carries the policy's assessment, not the model's.
use ops_pilot_ai.Prelude.{
  ℕ, zero, suc, String, ◌≡◌, refl, sym, inl, inr, Option, none, some, List, [], ◌∷◌, arith, ℕ_eq,
  String_eq, Option-cases, All,
}
use ops_pilot_ai.Result.{Result, Result-cases, ok, err}
use ops_pilot_ai.Domain.{
  IncidentState, RemediationAction, RemediationPlan, AnalystType, log_analyst, metrics_analyst,
  code_analyst, memory_analyst, Hypothesis,
}
use ops_pilot_ai.Workflow.Approved.{joined}
use mathlib.Core.Path.{subst}
use ops_pilot_ai.Agents
use ops_pilot_ai.Agents.{Policy, assess_all}
use ops_pilot_ai.Safety.Policy.{assess_action_risk}
use ops_pilot_ai.Safety.Runner.{Runner}
use ops_pilot_ai.Workflow.Update.{Update, merge}
use ops_pilot_ai.Workflow.Nodes.{
  lead_service, executed_action_id, supervisor_node, analyst_node, task_of, join_evidence_node,
  rca_node, critic_skip, critic_node, node_failed, remediation_planning_node, execution_node,
  verification_node,
}
use ops_pilot_ai.Workflow.Graph.{
  Node, supervisor, analysts, join_evidence, rca, critic, remediation_planning, execution,
  verification, finished, crashed, Env, Config, analyst_step, supervisor_step, analysts_step,
  rca_step, critic_step, remediation_step, execution_step, verification_step, run_node, superstep,
  drive, start, proceed,
}

-- What the policy makes of some action, for the incident.
abbrev pub IsAssessed : Policy → String → RemediationAction → Type 0
IsAssessed policy incident_id a =
    (raw : RemediationAction) × (a
      ≡ assess_action_risk policy.sha256_hex policy.auto_remediate_enabled policy.topology raw
          incident_id)

assess_all-IsAssessed :
    (policy : Policy) (i : String) (actions : List RemediationAction)
    → All (IsAssessed policy i) (assess_all policy i actions)
assess_all-IsAssessed policy i [] = tt
assess_all-IsAssessed policy i (a ∷ as') = ((a, refl), assess_all-IsAssessed policy i as')

module _ {W : Type 0} (env : Env W) (i : String) where
  abbrev ActionsAreAssessed : Option RemediationPlan → Type 0
  ActionsAreAssessed none = Unit
  ActionsAreAssessed (some p) = All (IsAssessed env.policy i) p.actions

  abbrev PlanIsAssessed : IncidentState → Type 0
  PlanIsAssessed s = (s.incident_id ≡ i) × ActionsAreAssessed s.remediation_plan

  keeps_plan :
      (u : Update) (s : IncidentState)
      → u.remediation_plan ≡ none
      → PlanIsAssessed s
      → PlanIsAssessed (merge u s)
  unfolding merge
  keeps_plan u s z h = (h.0, rw z h.1)

  abbrev ResultPlan : Result IncidentState → Type 0
  ResultPlan (ok t) = PlanIsAssessed t
  ResultPlan (err e) = Unit

  analyst-Plan :
      (n : ℕ) (s : IncidentState) (agent : AnalystType) (x : Result IncidentState)
      → ResultPlan x
      → ResultPlan (analyst_step env.model n s agent x)
  unfolding analyst_step analyst_node
  analyst-Plan n s agent (err e) h = tt
  analyst-Plan n s agent (ok u) h =
      elim (Result-cases (env.model.investigate n (task_of agent s))) [
        | inl (out, e) ↦ rw (e, analyst_step) (keeps_plan (analyst_node agent out) u refl h)
        | inr (m, e) ↦ rw (e, analyst_step) tt
      ]

  joined-Plan : (n : ℕ) (s : IncidentState) → PlanIsAssessed s → ResultPlan (joined env.model n s)
  joined-Plan n s h = analyst-Plan n s memory_analyst _ (
      analyst-Plan n s code_analyst _
        (analyst-Plan n s metrics_analyst _ (analyst-Plan n s log_analyst (ok s) h)))

  analysts-Plan :
      (n : ℕ) (s : IncidentState) (r : Runner W)
      → PlanIsAssessed s
      → PlanIsAssessed (analysts_step env n s r).state
  unfolding analysts_step
  analysts-Plan n s r h = elim (Result-cases (joined env.model n s)) [
    | inl (u, e) ↦ rw (e, analysts_step) (subst ResultPlan e (joined-Plan n s h))
    | inr (x, e) ↦ rw (e, analysts_step) h
  ]

  supervisor-Plan :
      (n : ℕ) (s : IncidentState) (r : Runner W)
      → PlanIsAssessed s
      → PlanIsAssessed (supervisor_step env n s r).state
  unfolding supervisor_step supervisor_node
  supervisor-Plan n s r h = elim (Result-cases (env.model.plan_investigation n s)) [
    | inl (plan, e) ↦ rw (e, supervisor_step) (keeps_plan (supervisor_node plan) s refl h)
    | inr (m, e) ↦ rw (e, supervisor_step) h
  ]

  rca-Plan :
      (n : ℕ) (s : IncidentState) (r : Runner W)
      → PlanIsAssessed s
      → PlanIsAssessed (rca_step env n s r).state
  unfolding rca_step rca_node
  rca-Plan n s r h = elim (Result-cases (env.model.analyze n s.title s.evidence)) [
    | inl (out, e) ↦ rw (e, rca_step) (keeps_plan (rca_node out) s refl h)
    | inr (m, e) ↦ rw (e, rca_step) h
  ]

  critic-Plan :
      (n : ℕ) (s : IncidentState) (r : Runner W)
      → PlanIsAssessed s
      → PlanIsAssessed (critic_step env n s r).state
  unfolding critic_step critic_node critic_skip
  critic-Plan n s r h = elim (Option-cases s.selected_hypothesis) [
    | inl e ↦ simp (e, critic_step) (keeps_plan critic_skip s refl h)
    | inr (hyp, e) ↦ elim (Result-cases (Agents.critique env.model n hyp s.evidence)) [
      | inl (c, ec) ↦ simp (e, critic_step) (simp ec (keeps_plan (critic_node c s) s refl h))
      | inr (m, em) ↦ simp (e, critic_step) (simp em h)
    ]
  ]

  planned :
      (n : ℕ) (incident_id : String) (hyp : Hypothesis) (services : List String)
      (plan : RemediationPlan)
      → Agents.plan_remediation env.model env.policy n incident_id hyp services ≡ ok plan
      → (raw : List RemediationAction) × (plan.actions ≡ assess_all env.policy incident_id raw)
  unfolding Agents.plan_remediation
  planned n incident_id hyp services plan h =
      elim (Result-cases (env.model.plan_remediation n incident_id hyp services)) [
        | inl (raw, e) ↦ (raw.actions, ground arith)
        | inr (x, e) ↦ absurd (ground arith)
      ]

  remediation-Plan :
      (n : ℕ) (s : IncidentState) (r : Runner W)
      → PlanIsAssessed s
      → PlanIsAssessed (remediation_step env n s r).state
  unfolding remediation_step node_failed remediation_planning_node merge
  remediation-Plan n s r h = elim (Option-cases s.selected_hypothesis) [
    | inl e ↦ simp (e, remediation_step) (keeps_plan node_failed s refl h)
    | inr (hyp, e) ↦
        elim (Result-cases
          (Agents.plan_remediation env.model env.policy n s.incident_id hyp s.affected_services)) [
            | inl (plan, ep) ↦
                (let (raw, er) = planned n s.incident_id hyp s.affected_services plan ep in
                  simp (e, remediation_step)
                    (simp ep (
                      h.0,
                      rw er (
                          subst (λ j. All (IsAssessed env.policy i) (assess_all env.policy j raw))
                            (sym h.0) (assess_all-IsAssessed env.policy i raw)),
                    )))
            | inr (x, ex) ↦ simp (e, remediation_step) (simp ex h)
          ]
  ]

  proceed-Plan :
      (next : Node) (s : IncidentState) (o : Result Update × Runner W)
      → ((u : Update) → o.0 ≡ ok u → u.remediation_plan ≡ none)
      → PlanIsAssessed s
      → PlanIsAssessed (proceed next s o).state
  unfolding proceed
  proceed-Plan next s (ok u, r) k h = keeps_plan u s (k u refl) h
  proceed-Plan next s (err e, r) k h = h

  execution-Plan :
      (s : IncidentState) (r : Runner W)
      → PlanIsAssessed s
      → PlanIsAssessed (execution_step env s r).state
  unfolding execution_step execution_node node_failed
  execution-Plan s r h =
      proceed-Plan verification s (execution_node env.registry s r) (λ u e. ground arith) h

  verification-Plan :
      (n : ℕ) (s : IncidentState) (r : Runner W)
      → PlanIsAssessed s
      → PlanIsAssessed (verification_step env n s r).state
  unfolding verification_step verification_node
  verification-Plan n s r h =
      elim (Result-cases (env.model.verify_recovery n (lead_service s) (executed_action_id s))) [
        | inl (a, e) ↦
            rw (e, verification_step)
              (proceed-Plan finished s (verification_node env.registry a s r) (λ u eu. ground arith)
                h)
        | inr (x, e) ↦ rw (e, verification_step) h
      ]

  run_node-Plan :
      (node : Node) (n : ℕ) (s : IncidentState) (r : Runner W)
      → PlanIsAssessed s
      → PlanIsAssessed (run_node node env n s r).state
  unfolding run_node join_evidence_node
  run_node-Plan supervisor n s r h = supervisor-Plan n s r h
  run_node-Plan analysts n s r h = analysts-Plan n s r h
  run_node-Plan join_evidence n s r h = keeps_plan join_evidence_node s refl h
  run_node-Plan rca n s r h = rca-Plan n s r h
  run_node-Plan critic n s r h = critic-Plan n s r h
  run_node-Plan remediation_planning n s r h = remediation-Plan n s r h
  run_node-Plan execution n s r h = execution-Plan s r h
  run_node-Plan verification n s r h = verification-Plan n s r h
  run_node-Plan finished n s r h = h
  run_node-Plan crashed n s r h = h

  drive-Plan :
      (fuel n : ℕ) (c : Config W)
      → PlanIsAssessed c.state
      → PlanIsAssessed (drive env fuel n c).state
  unfolding drive superstep
  drive-Plan zero n c h = h
  drive-Plan (suc fuel) n c h =
      drive-Plan fuel (suc n) (superstep env n c) (run_node-Plan c.at n c.state c.runner h)

-- From a state without a plan, and after any number of supersteps: every action of the plan, if there
-- is one, is what the risk policy makes of some action for this incident, so that its score, its tier,
-- its approval flag and its idempotency key are the policy's, whatever the model claimed for them.
pub plan-IsAssessed :
    {W : Type 0} (env : Env W) (fuel n : ℕ) (s : IncidentState) (r : Runner W) (p : RemediationPlan)
    → s.remediation_plan ≡ none
    → (drive env fuel n (start s r)).state.remediation_plan ≡ some p
    → All (IsAssessed env.policy s.incident_id) p.actions
plan-IsAssessed env fuel n s r p z e =
    subst (ActionsAreAssessed env s.incident_id) e
      (drive-Plan env s.incident_id fuel n (start s r) (refl, rw z tt)).1
