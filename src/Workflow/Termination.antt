-- ===== src/Workflow/Termination.antt =====
-- The workflow stops: the loop from the critic back to the supervisor is bounded by
-- `max_iterations` as long as the root-cause agent proposes hypotheses.
use ops_pilot_ai.Safety.Runner.{Runner}
use ops_pilot_ai.Prelude.{
  refl, zero, Bool-cases, ap, suc, sym, inr, ◌≤◌, inl, ◌∙◌, false, true, ℕ, ◌+◌, ◌-◌, ◌*◌, ◌<◌, max,
  String, ◌≡◌, ◌≢◌, none, List, [], arith, ℕ_eq, String_eq,
}
use ops_pilot_ai.Result.{err, Result, Result-cases, ok}
use ops_pilot_ai.Domain.{
  log_analyst, metrics_analyst, code_analyst, memory_analyst, AnalystType, IncidentState,
  RcaAgentOutput, Evidence,
}
use ops_pilot_ai.Agents.{Model}
use ops_pilot_ai.Workflow.Nodes.{
  join_evidence_node, rca_node, critic_node, supervisor_node, analyst_node, select_hypothesis,
}
use ops_pilot_ai.Workflow.Update.{merge}
use ops_pilot_ai.Workflow.Graph.{
  start, run_node, stopped, superstep, drive, analysts_step, target_of, route_critic_decision,
  proceed, supervisor_step, rca_step, analyst_step, critic_step, execution_step, remediation_step,
  verification_step, Node, supervisor, analysts, join_evidence, rca, critic, remediation_planning,
  execution, verification, finished, crashed, Env, Config,
}

-- The rounds that are left, the current one included.
abbrev rounds : IncidentState → ℕ
rounds s = max 1 (s.max_iterations - s.iteration_count)

-- How many supersteps are left at most.
abbrev pub budget : Node → IncidentState → ℕ
budget supervisor s = 5 * rounds s + 3
budget analysts s = 5 * rounds s + 2
budget join_evidence s = 5 * rounds s + 1
budget rca s = 5 * rounds s
budget critic s = 5 * rounds s - 1
budget remediation_planning s = 3
budget execution s = 2
budget verification s = 1
budget finished s = 0
budget crashed s = 0

abbrev HasSelected : Node → IncidentState → Type 0
HasSelected critic s = s.selected_hypothesis ≢ none
HasSelected _ s = Unit

-- The root-cause agent, where it answers, proposes a hypothesis.
abbrev pub Proposes : Model → Type 0
Proposes model =
    (n : ℕ) (title : String) (evidence : List Evidence) (out : RcaAgentOutput)
    → model.analyze n title evidence ≡ ok out
    → out.hypotheses ≢ []

select_some : (out : RcaAgentOutput) → out.hypotheses ≢ [] → select_hypothesis out ≢ none
unfolding select_hypothesis
select_some out h = ground arith

abbrev max_of : IncidentState → Result IncidentState → ℕ
max_of s (ok t) = t.max_iterations
max_of s (err e) = s.max_iterations

abbrev count_of : IncidentState → Result IncidentState → ℕ
count_of s (ok t) = t.iteration_count
count_of s (err e) = s.iteration_count

-- An analyst's update leaves the iteration counters.
analyst-keeps :
    (model : Model) (n : ℕ) (s u : IncidentState) (agent : AnalystType) (x : Result IncidentState)
    → analyst_step model n s agent x ≡ ok u
    → (t : IncidentState) × (x ≡ ok t)
      × (u.max_iterations ≡ t.max_iterations)
      × (u.iteration_count ≡ t.iteration_count)
unfolding analyst_step merge analyst_node
analyst-keeps model n s u agent (ok t) h = (t, refl, ground arith, ground arith)
analyst-keeps model n s u agent (err e) h = cc

-- What the four analysts make of the state, unless one of them raises.
abbrev joined : Model → ℕ → IncidentState → Result IncidentState
joined model n s = analyst_step model n s memory_analyst (
    analyst_step model n s code_analyst
      (analyst_step model n s metrics_analyst (analyst_step model n s log_analyst (ok s))))

joined-keeps :
    (model : Model) (n : ℕ) (s u : IncidentState)
    → joined model n s ≡ ok u
    → (u.max_iterations ≡ s.max_iterations) × (u.iteration_count ≡ s.iteration_count)
joined-keeps model n s u h =
    let (t, et, mt, it) = analyst-keeps model n s u memory_analyst _ h in
    let (v, ev, mv, iv) = analyst-keeps model n s t code_analyst _ et in
    let (w, ew, mw, iw) = analyst-keeps model n s v metrics_analyst _ ev in
    let (x, ex, mx, ix) = analyst-keeps model n s w log_analyst _ ew in
    (mt ∙ mv ∙ mw ∙ mx ∙ sym (ap (max_of s) ex), it ∙ iv ∙ iw ∙ ix ∙ sym (ap (count_of s) ex))

spent : (node : Node) (s : IncidentState) → budget node s ≤ 0 → stopped node ≡ true
spent finished s h = refl
spent crashed s h = refl
spent _ s h = absurd (omega arith)

module _ {W : Type 0} (env : Env W) where
  abbrev Progress : Config W → Node → IncidentState → Type 0
  Progress c node s = (budget c.at c.state < budget node s) × HasSelected c.at c.state

  supervisor-Progress :
      (n : ℕ) (s : IncidentState) (r : Runner W) → Progress (supervisor_step env n s r) supervisor s
  unfolding supervisor_step merge supervisor_node
  supervisor-Progress n s r = ground arith

  rca-Progress :
      Proposes env.model
      → (n : ℕ) (s : IncidentState) (r : Runner W) → Progress (rca_step env n s r) rca s
  unfolding rca_step merge rca_node
  rca-Progress p n s r = elim (Result-cases (env.model.analyze n s.title s.evidence)) [
    | inl (out, e) ↦ rw (e, rca_step) (omega arith, select_some out (p n s.title s.evidence out e))
    | inr (x, e) ↦ rw (e, rca_step) (omega arith, tt)
  ]

  analysts-Progress :
      (n : ℕ) (s : IncidentState) (r : Runner W) → Progress (analysts_step env n s r) analysts s
  unfolding analysts_step
  analysts-Progress n s r = elim (Result-cases (joined env.model n s)) [
    | inl (u, e) ↦ rw (e, analysts_step) (omega (arith, joined-keeps env.model n s u e), tt)
    | inr (x, e) ↦ rw (e, analysts_step) (omega arith, tt)
  ]

  critic-Progress :
      (n : ℕ) (s : IncidentState) (r : Runner W)
      → s.selected_hypothesis ≢ none
      → Progress (critic_step env n s r) critic s
  unfolding critic_step merge critic_node route_critic_decision target_of
  critic-Progress n s r h = ground arith

  remediation-Progress :
      (n : ℕ) (s : IncidentState) (r : Runner W)
      → Progress (remediation_step env n s r) remediation_planning s
  unfolding remediation_step
  remediation-Progress n s r = ground arith

  execution-Progress :
      (s : IncidentState) (r : Runner W) → Progress (execution_step env s r) execution s
  unfolding execution_step proceed
  execution-Progress s r = ground arith

  verification-Progress :
      (n : ℕ) (s : IncidentState) (r : Runner W)
      → Progress (verification_step env n s r) verification s
  unfolding verification_step proceed
  verification-Progress n s r = ground arith

  run_node-Progress :
      Proposes env.model
      → (node : Node) (n : ℕ) (s : IncidentState) (r : Runner W) → stopped node ≡ false
      → HasSelected node s
      → Progress (run_node node env n s r) node s
  unfolding run_node merge join_evidence_node
  run_node-Progress p supervisor n s r h sel = supervisor-Progress n s r
  run_node-Progress p analysts n s r h sel = analysts-Progress n s r
  run_node-Progress p join_evidence n s r h sel = (omega arith, tt)
  run_node-Progress p rca n s r h sel = rca-Progress p n s r
  run_node-Progress p critic n s r h sel = critic-Progress n s r sel
  run_node-Progress p remediation_planning n s r h sel = remediation-Progress n s r
  run_node-Progress p execution n s r h sel = execution-Progress s r
  run_node-Progress p verification n s r h sel = verification-Progress n s r
  run_node-Progress p finished n s r h sel = cc
  run_node-Progress p crashed n s r h sel = cc

  stopped_stays :
      (node : Node) (n : ℕ) (s : IncidentState) (r : Runner W)
      → stopped node ≡ true
      → stopped (run_node node env n s r).at ≡ true
  unfolding run_node
  stopped_stays finished n s r h = refl
  stopped_stays crashed n s r h = refl
  stopped_stays _ n s r h = cc

  drive-stopped :
      (fuel n : ℕ) (c : Config W) → stopped c.at ≡ true → stopped (drive env fuel n c).at ≡ true
  unfolding drive superstep
  drive-stopped zero n c h = h
  drive-stopped (suc fuel) n c h =
      drive-stopped fuel (suc n) (superstep env n c) (stopped_stays c.at n c.state c.runner h)

  drive_within :
      Proposes env.model
      → (fuel n : ℕ) (c : Config W) → budget c.at c.state ≤ fuel
      → HasSelected c.at c.state
      → stopped (drive env fuel n c).at ≡ true
  unfolding drive superstep
  drive_within p zero n c h sel = spent c.at c.state h
  drive_within p (suc fuel) n c h sel = elim (Bool-cases (stopped c.at)) [
    | inl done ↦ drive-stopped (suc fuel) n c done
    | inr going ↦
        (let (less, sel') = run_node-Progress p c.at n c.state c.runner going sel in
          drive_within p fuel (suc n) (superstep env n c) (omega arith) sel')
  ]

  -- Where the root-cause agent proposes a hypothesis whenever it answers, the workflow stops, at its
  -- end or at an exception, within 5 * k + 3 supersteps, for any k that is at least 1 and covers the
  -- iterations that the state still allows.
  pub workflow_stops :
      Proposes env.model
      → (k n : ℕ) (s : IncidentState) (r : Runner W) → 1 ≤ k
      → s.max_iterations ≤ s.iteration_count + k
      → stopped (drive env (5 * k + 3) n (start s r)).at ≡ true
  workflow_stops p k n s r pos h = drive_within p (5 * k + 3) n (start s r) (omega arith) tt
