-- ===== src/Workflow/Mocked/Executed.antt =====
-- The last two supersteps of a workflow whose verification agent always assesses a recovery.
use ops_pilot_ai.Prelude.{
  ℕ, String, ◌≡◌, refl, sym, ap, ◌∙◌, inl, inr, some, [], ◌∷◌, arith, ℕ_eq, String_eq,
}
use mathlib.Core.Path.{subst}
use ops_pilot_ai.Result.{Result, Result-cases, ok, err}
use ops_pilot_ai.Domain.{IncidentState, IncidentStage, RemediationAction, ActionExecutionResult}
use ops_pilot_ai.Safety.Runner.{Runner, execute_action}
use ops_pilot_ai.Router.Mock.{verification_assessment}
use ops_pilot_ai.Workflow.Update.{no_update, merge}
use ops_pilot_ai.Workflow.Nodes.{
  lead_service, executed_action_id, execution_event, verification_event, actions_of, execute_plan,
  execution_node, verification_node,
}
use ops_pilot_ai.Workflow.Graph.{
  Env, Config, superstep, run_node, execution_step, verification_step, proceed, execution,
  verification, finished, crashed,
}

disjoint : {A : Type 0} (a : A) (e : String) → ¬ (◌≡◌ {A = Result A} (ok a) (err e))
disjoint a e h = ground (arith, h)

module _ {W : Type 0} (env : Env W)
    (verifies : (n : ℕ) (service action_id : String)
      → env.model.verify_recovery n service action_id ≡ ok verification_assessment) where
  abbrev pub run_of : RemediationAction → Runner W → Result ActionExecutionResult × Runner W
  run_of a r = execute_action env.registry a "OPERATOR" r

  -- What a run of the action leads to.
  abbrev pub Outcome : RemediationAction → Runner W → Config W → Type 0
  Outcome a r c =
      (c.runner ≡ (run_of a r).1)
      × (actions_of c.state ≡ a ∷ [])
      × ((res : ActionExecutionResult)
          → (run_of a r).0 ≡ ok res
          → (c.at ≡ finished) × (c.state.current_stage ≡ IncidentStage.resolved))
      × ((e : String) → (run_of a r).0 ≡ err e → c.at ≡ crashed)

  plan_run :
      (a : RemediationAction) (r : Runner W) (res : ActionExecutionResult)
      → (run_of a r).0 ≡ ok res
      → execute_plan env.registry (a ∷ []) r
        ≡ (ok (res ∷ [], execution_event a res ∷ []), (run_of a r).1)
  unfolding execute_plan
  plan_run a r res h = rw (h, execute_plan) refl

  plan_raised :
      (a : RemediationAction) (r : Runner W) (e : String)
      → (run_of a r).0 ≡ err e
      → execute_plan env.registry (a ∷ []) r ≡ (err e, (run_of a r).1)
  unfolding execute_plan
  plan_raised a r e h = rw (h, execute_plan) refl

  node_run :
      (w : IncidentState) (a : RemediationAction) (r : Runner W) (res : ActionExecutionResult)
      → actions_of w ≡ a ∷ []
      → (run_of a r).0 ≡ ok res
      → (t : IncidentState) × (superstep env 6 (record { at = execution; state = w; runner = r })
          ≡ record { at = verification; state = t; runner = (run_of a r).1 })
        × (actions_of t ≡ actions_of w)
  unfolding superstep run_node execution_step execution_node proceed
  node_run w a r res p h =
      let u = record no_update {
        current_stage = some IncidentStage.executing;
        execution_results = some (res ∷ []);
        timeline = execution_event a res ∷ [];
      } in
      (
        merge u w,
        simp (p, superstep, run_node, execution_step, execution_node)
            (simp (plan_run a r res h) refl),
        unfold merge in refl,
      )

  node_raised :
      (w : IncidentState) (a : RemediationAction) (r : Runner W) (e : String)
      → actions_of w ≡ a ∷ []
      → (run_of a r).0 ≡ err e
      → superstep env 6 (record { at = execution; state = w; runner = r })
        ≡ record { at = crashed; state = w; runner = (run_of a r).1 }
  unfolding superstep run_node execution_step execution_node proceed
  node_raised w a r e p h =
      simp (p, superstep, run_node, execution_step, execution_node)
        (simp (plan_raised a r e h) refl)

  verified :
      (w : IncidentState) (r : Runner W)
      → (t : IncidentState) × (superstep env 7 (record { at = verification; state = w; runner = r })
          ≡ record { at = finished; state = t; runner = r })
        × (actions_of t ≡ actions_of w)
        × (t.current_stage ≡ IncidentStage.resolved)
  unfolding superstep run_node verification_step verification_node proceed
  verified w r =
      let u = record no_update {
        current_stage = some IncidentStage.resolved;
        verification = some verification_assessment;
        timeline = verification_event verification_assessment ∷ [];
      } in
      (
        merge u w,
        simp
            (
              verifies 7 (lead_service w) (executed_action_id w),
              superstep,
              run_node,
              verification_step,
            )
            (unfold verification_assessment in refl),
        unfold merge in refl,
        unfold merge in refl,
      )

  crashed_stays :
      (n : ℕ) (w : IncidentState) (r : Runner W)
      → superstep env n (record { at = crashed; state = w; runner = r })
        ≡ record { at = crashed; state = w; runner = r }
  unfolding superstep run_node
  crashed_stays n w r = refl

  pub executed :
      (w : IncidentState) (a : RemediationAction) (r : Runner W)
      → actions_of w ≡ a ∷ []
      → Outcome a r
          (superstep env 7 (superstep env 6 (record { at = execution; state = w; runner = r })))
  executed w a r p = elim (Result-cases (run_of a r).0) [
    | inl (res, h) ↦
        let (t, st, pt) = node_run w a r res p h in
        let (t', st', pt', stage) = verified t (run_of a r).1 in
        subst (λ (c : Config W). Outcome a r c)
          (sym (ap (λ (c : Config W). superstep env 7 c) st ∙ st'))
          (
            refl,
            pt' ∙ pt ∙ p,
            (λ other k. (refl, stage)),
            (λ e k. absurd (disjoint res e (sym h ∙ k))),
          )
    | inr (e, h) ↦
        subst (λ (c : Config W). Outcome a r c)
          (sym (
            ap (λ (c : Config W). superstep env 7 c) (node_raised w a r e p h)
            ∙ crashed_stays 7 w (run_of a r).1))
          (refl, p, (λ res k. absurd (disjoint res e (sym k ∙ h))), (λ other k. refl))
  ]
