-- ===== src/Workflow/Grounded.antt =====
-- No remediation without an approved hypothesis whose citations were collected.
use ops_pilot_ai.Workflow.Nodes.{
  executed_action_id, lead_service, join_evidence_node, execution_node, verification_node,
  remediation_planning_node, critic_node, critic_skip, rca_node, supervisor_node,
}
use ops_pilot_ai.Prelude.{
  zero, suc, Option-cases, inr, inl, refl, ℕ, ◌≡◌, ◌⊎◌, none, some, [], arith, ℕ_eq, String_eq,
}
use mathlib.Core.List.{append-nil}
use ops_pilot_ai.Result.{Result-cases, err, Result, ok}
use ops_pilot_ai.Domain.{IncidentState, CritiqueResult, approve, Hypothesis}
use ops_pilot_ai.Agents
use ops_pilot_ai.Agents.{Model, ids, missing_ids, rejection}
use ops_pilot_ai.Safety.Runner.{Runner}
use ops_pilot_ai.Workflow.Update.{Update, merge}
use ops_pilot_ai.Workflow.Graph.{
  start, join_evidence, proceed, superstep, run_node, drive, verification_step, execution_step,
  critic, critic_step, remediation_step, target_of, route_critic_decision, rca, supervisor,
  analysts, analysts_step, rca_step, supervisor_step, routed, Node, remediation_planning, execution,
  verification, finished, crashed, Env, Config,
}
use ops_pilot_ai.Workflow.Approved.{
  IsApproved, Undecided, Approve-cases, none_missing, critique-grounded, route-approve, kept,
  joined, joined-critique, Keeps, execution-Keeps, verification-Keeps,
}

module _ {W : Type 0} (env : Env W) (r₀ : Runner W) where
  -- What holds of a run that began with the runner `r₀`.
  abbrev Inv : Node → IncidentState → Runner W → Type 0
  Inv remediation_planning s r = IsApproved s × (r ≡ r₀)
  Inv execution s r = IsApproved s
  Inv verification s r = IsApproved s
  Inv finished s r = (r ≡ r₀) ⊎ IsApproved s
  Inv crashed s r = (r ≡ r₀) ⊎ IsApproved s
  Inv _ s r = Undecided s.critique × (r ≡ r₀)

  abbrev Holds : Config W → Type 0
  Holds c = Inv c.at c.state c.runner

  supervisor-Holds :
      (n : ℕ) (s : IncidentState) (r : Runner W)
      → Inv supervisor s r
      → Holds (supervisor_step env n s r)
  unfolding supervisor_step supervisor_node merge
  supervisor-Holds n s r h = ground arith

  analysts-Holds :
      (n : ℕ) (s : IncidentState) (r : Runner W)
      → Inv analysts s r
      → Holds (analysts_step env n s r)
  unfolding analysts_step
  analysts-Holds n s r h = elim (Result-cases (joined env.model n s)) [
    | inl (u, e) ↦ rw (e, analysts_step) (rw (joined-critique env.model n s u e) h.0, h.1)
    | inr (x, e) ↦ rw (e, analysts_step) (inl h.1)
  ]

  rca-Holds : (n : ℕ) (s : IncidentState) (r : Runner W) → Inv rca s r → Holds (rca_step env n s r)
  unfolding rca_step rca_node merge
  rca-Holds n s r h = ground arith

  routed-skip :
      (s : IncidentState) (r : Runner W)
      → Undecided s.critique
      → r ≡ r₀
      → Holds (routed (merge critic_skip s) r)
  unfolding merge critic_skip route_critic_decision target_of
  routed-skip s r u e = ground arith

  routed-critique :
      (s : IncidentState) (c : CritiqueResult) (h : Hypothesis) (r : Runner W)
      → s.selected_hypothesis ≡ some h
      → (c.decision ≡ approve → missing_ids h.supporting_evidence_ids (ids s.evidence) ≡ [])
      → r ≡ r₀
      → Holds (routed (merge (critic_node c s) s) r)
  unfolding merge critic_node route_critic_decision target_of
  routed-critique s c h r sel g e = elim (Approve-cases c.decision) [
    | inl a ↦ rw (route-approve (merge (critic_node c s) s) c refl a) (
      record {
        hypothesis = h;
        verdict = c;
        selected = sel;
        judged = refl;
        approved = a;
        grounded = rw append-nil (none_missing h.supporting_evidence_ids (ids s.evidence) (g a));
      },
      e,
    )
    | inr n ↦ ground arith
  ]

  critic-Holds :
      (n : ℕ) (s : IncidentState) (r : Runner W) → Inv critic s r → Holds (critic_step env n s r)
  unfolding critic_step
  critic-Holds n s r h = elim (Option-cases s.selected_hypothesis) [
    | inl e ↦ simp (e, critic_step) (routed-skip s r h.0 h.1)
    | inr (hyp, e) ↦ elim (Result-cases (Agents.critique env.model n hyp s.evidence)) [
      | inl (c, ec) ↦
          simp (e, critic_step)
            (simp ec (routed-critique s c hyp r e (critique-grounded env.model n hyp s c ec) h.1))
      | inr (x, ex) ↦ simp (e, critic_step) (simp ex (inl h.1))
    ]
  ]

  remediation-Holds :
      (n : ℕ) (s : IncidentState) (r : Runner W)
      → Inv remediation_planning s r
      → Holds (remediation_step env n s r)
  unfolding remediation_step remediation_planning_node
  remediation-Holds n s r h =
      let hyp = h.0.hypothesis in
      elim (Result-cases
        (Agents.plan_remediation env.model env.policy n s.incident_id hyp s.affected_services)) [
          | inl (plan, e) ↦
              simp (h.0.selected, remediation_step)
                (simp e (kept (remediation_planning_node plan) s refl refl refl h.0))
          | inr (x, e) ↦ simp (h.0.selected, remediation_step) (simp e (inl h.1))
        ]

  execution-Holds :
      (s : IncidentState) (r : Runner W) → IsApproved s → Holds (execution_step env s r)
  unfolding execution_step proceed
  execution-Holds s r h =
      approved_on (execution_node env.registry s r) (λ u e. execution-Keeps env.registry s r u e)
    where
      approved_on :
          (o : Result Update × Runner W)
          → ((u : Update) → o.0 ≡ ok u → Keeps u)
          → Holds (proceed verification s o)
      approved_on (ok u, r') k = let (a, b, c) = k u refl in kept u s a b c h
      approved_on (err e, r') k = inr h

  verification-Holds :
      (n : ℕ) (s : IncidentState) (r : Runner W)
      → IsApproved s
      → Holds (verification_step env n s r)
  unfolding verification_step proceed
  verification-Holds n s r h =
      elim (Result-cases (env.model.verify_recovery n (lead_service s) (executed_action_id s))) [
        | inl (a, e) ↦
            rw (e, verification_step)
              (approved_on (verification_node env.registry a s r)
                (λ u eu. verification-Keeps env.registry a s r u eu))
        | inr (x, e) ↦ rw (e, verification_step) (inr h)
      ]
    where
      approved_on :
          (o : Result Update × Runner W)
          → ((u : Update) → o.0 ≡ ok u → Keeps u)
          → Holds (proceed finished s o)
      approved_on (ok u, r') k = let (a, b, c) = k u refl in inr (kept u s a b c h)
      approved_on (err e, r') k = inr h

  run_node-Holds :
      (node : Node) (n : ℕ) (s : IncidentState) (r : Runner W)
      → Inv node s r
      → Holds (run_node node env n s r)
  unfolding run_node merge join_evidence_node
  run_node-Holds supervisor n s r h = supervisor-Holds n s r h
  run_node-Holds analysts n s r h = analysts-Holds n s r h
  run_node-Holds join_evidence n s r h = h
  run_node-Holds rca n s r h = rca-Holds n s r h
  run_node-Holds critic n s r h = critic-Holds n s r h
  run_node-Holds remediation_planning n s r h = remediation-Holds n s r h
  run_node-Holds execution n s r h = execution-Holds s r h
  run_node-Holds verification n s r h = verification-Holds n s r h
  run_node-Holds finished n s r h = h
  run_node-Holds crashed n s r h = h

  drive-Holds : (fuel n : ℕ) (c : Config W) → Holds c → Holds (drive env fuel n c)
  unfolding drive superstep
  drive-Holds zero n c h = h
  drive-Holds (suc fuel) n c h =
      drive-Holds fuel (suc n) (superstep env n c) (run_node-Holds c.at n c.state c.runner h)

  acted : (node : Node) (t : IncidentState) (r : Runner W) → Inv node t r → (r ≡ r₀) ⊎ IsApproved t
  acted supervisor t r h = inl h.1
  acted analysts t r h = inl h.1
  acted join_evidence t r h = inl h.1
  acted rca t r h = inl h.1
  acted critic t r h = inl h.1
  acted remediation_planning t r h = inr h.0
  acted execution t r h = inr h
  acted verification t r h = inr h
  acted finished t r h = h
  acted crashed t r h = h

  acted_run : (c : Config W) → Holds c → (c.runner ≡ r₀) ⊎ IsApproved c.state
  acted_run c h = acted c.at c.state c.runner h

-- From a state without a critique, and after any number of supersteps: either the runner, with its
-- executed keys and the world its tools act on, is untouched, or the critic approved the selected
-- hypothesis and every evidence id that it cites was collected.
pub acts_only_if_grounded :
    {W : Type 0} (env : Env W) (fuel n : ℕ) (s : IncidentState) (r : Runner W)
    → s.critique ≡ none
    → let c = drive env fuel n (start s r) in (c.runner ≡ r) ⊎ IsApproved c.state
acts_only_if_grounded env fuel n s r h =
    acted_run env r (drive env fuel n (start s r))
      (drive-Holds env r fuel n (start s r) (rw h tt, refl))
