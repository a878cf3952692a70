-- ===== src/Workflow/Livelock.antt =====
-- The loop that `max_iterations` does not bound: the critic neither counts a round nor replaces the
-- last critique where no hypothesis is selected. Only LangGraph's recursion limit ends it.
use ops_pilot_ai.Prelude.{
  ℕ, zero, suc, ◌+◌, ◌≤◌, ◌<◌, String, ◌≡◌, refl, ap, ◌∙◌, ◌⊎◌, inl, inr, none, some, List, [],
  arith, ℕ_eq, String_eq,
}
use ops_pilot_ai.Result.{Result, ok, err}
use ops_pilot_ai.Domain.{
  IncidentState, CritiqueResult, needs_more_evidence, AnalystType, log_analyst, metrics_analyst,
  code_analyst, memory_analyst, RcaAgentOutput, SupervisorPlan, AnalystAgentOutput,
  InvestigationTask, Evidence,
}
use ops_pilot_ai.Agents.{Model}
use ops_pilot_ai.Safety.Runner.{Runner}
use ops_pilot_ai.Workflow.Update.{Update, merge}
use ops_pilot_ai.Workflow.Nodes.{
  supervisor_node, analyst_node, join_evidence_node, rca_node, select_hypothesis, critic_skip,
  task_of,
}
use ops_pilot_ai.Workflow.Graph.{
  Node, supervisor, analysts, join_evidence, critic, Env, Config, route_critic_decision, target_of,
  analyst_step, supervisor_step, analysts_step, rca_step, critic_step, run_node, superstep, drive,
  start, final_of, ainvoke, rca,
}

-- From superstep `k` on the model always answers, and proposes no hypothesis.
pub record IsBarren (k : ℕ) (model : Model) : Type 0 where
  pub plans :
      (n : ℕ) (s : IncidentState)
      → k ≤ n
      → (plan : SupervisorPlan) × (model.plan_investigation n s ≡ ok plan)
  pub investigates :
      (n : ℕ) (task : InvestigationTask)
      → k ≤ n
      → (out : AnalystAgentOutput) × (model.investigate n task ≡ ok out)
  pub proposes_none :
      (n : ℕ) (title : String) (evidence : List Evidence)
      → k ≤ n
      → (out : RcaAgentOutput) × (model.analyze n title evidence ≡ ok out) × (out.hypotheses ≡ [])

-- The last critique asked for more evidence, and iterations are left.
pub record WantsMore (s : IncidentState) : Type 0 where
  pub last : CritiqueResult
  pub stands : s.critique ≡ some last
  pub wants : last.decision ≡ needs_more_evidence
  pub allowed : s.iteration_count < s.max_iterations

-- An update that touches neither the critique nor the counters.
merge-WantsMore :
    (u : Update) (s : IncidentState)
    → u.critique ≡ none
    → u.iteration_count ≡ none
    → WantsMore s
    → WantsMore (merge u s)
unfolding merge
merge-WantsMore u s c i h = record {
  last = h.last;
  stands = rw c h.stands;
  wants = h.wants;
  allowed = rw i h.allowed;
}

route-WantsMore :
    (s : IncidentState) → WantsMore s → target_of (route_critic_decision s) ≡ supervisor
unfolding route_critic_decision target_of
route-WantsMore s h = ground (arith, h.stands, h.wants, h.allowed)

module _ {W : Type 0} (env : Env W) (k : ℕ) (barren : IsBarren k env.model) where
  -- A configuration with the given runner whose state still wants more evidence.
  abbrev At : Node → Runner W → Config W → Type 0
  At node r c =
      (s : IncidentState) × (c ≡ record { at = node; state = s; runner = r }) × WantsMore s

  analyst-WantsMore :
      (n : ℕ) (s t : IncidentState) (agent : AnalystType)
      → k ≤ n
      → WantsMore t
      → (u : IncidentState) × (analyst_step env.model n s agent (ok t) ≡ ok u) × WantsMore u
  unfolding analyst_step analyst_node
  analyst-WantsMore n s t agent later h =
      let (out, e) = barren.investigates n (task_of agent s) later in
      (
        merge (analyst_node agent out) t,
        rw (e, analyst_step),
        merge-WantsMore (analyst_node agent out) t refl refl h,
      )

  supervisor-At :
      (n : ℕ) (s : IncidentState) (r : Runner W)
      → k ≤ n
      → WantsMore s
      → At analysts r (supervisor_step env n s r)
  unfolding supervisor_step supervisor_node
  supervisor-At n s r later h =
      let (plan, e) = barren.plans n s later in
      (
        merge (supervisor_node plan) s,
        rw (e, supervisor_step),
        merge-WantsMore (supervisor_node plan) s refl refl h,
      )

  analysts-At :
      (n : ℕ) (s : IncidentState) (r : Runner W)
      → k ≤ n
      → WantsMore s
      → At join_evidence r (analysts_step env n s r)
  unfolding analysts_step
  analysts-At n s r later h =
      let (t, et, ht) = analyst-WantsMore n s s log_analyst later h in
      let (u, eu, hu) = analyst-WantsMore n s t metrics_analyst later ht in
      let (v, ev, hv) = analyst-WantsMore n s u code_analyst later hu in
      let (w, ew, hw) = analyst-WantsMore n s v memory_analyst later hv in
      (w, rw (analysts_step, et, eu, ev, ew), hw)

  rca-At :
      (n : ℕ) (s : IncidentState) (r : Runner W)
      → k ≤ n
      → WantsMore s
      → (t : IncidentState) × (rca_step env n s r ≡ record { at = critic; state = t; runner = r })
        × WantsMore t
        × (t.selected_hypothesis ≡ none)
  unfolding rca_step rca_node merge select_hypothesis
  rca-At n s r later h =
      let (out, e, empty) = barren.proposes_none n s.title s.evidence later in
      (
        merge (rca_node out) s,
        rw (e, rca_step),
        merge-WantsMore (rca_node out) s refl refl h,
        rw empty,
      )

  critic-At :
      (n : ℕ) (s : IncidentState) (r : Runner W)
      → WantsMore s
      → s.selected_hypothesis ≡ none
      → At supervisor r (critic_step env n s r)
  unfolding critic_step critic_skip
  critic-At n s r h e =
      let more = merge-WantsMore critic_skip s refl refl h in
      (
        merge critic_skip s,
        simp (e, critic_step)
            (ap (λ node. record { at = node; state = merge critic_skip s; runner = r })
              (route-WantsMore (merge critic_skip s) more)),
        more,
      )

  -- Where the loop may be: before the critic nothing is selected.
  abbrev Loops : Runner W → Config W → Type 0
  Loops r c =
      At supervisor r c
      ⊎ (At analysts r c
          ⊎ (At join_evidence r c
              ⊎ (At rca r c
                  ⊎ ((s : IncidentState) × (c ≡ record { at = critic; state = s; runner = r })
                      × WantsMore s
                      × (s.selected_hypothesis ≡ none)))))

  superstep-Loops :
      (n : ℕ) (r : Runner W) (c : Config W) → k ≤ n → Loops r c → Loops r (superstep env n c)
  unfolding superstep run_node join_evidence_node
  superstep-Loops n r c later = elim [
    | inl (s, e, h) ↦ inr (inl (next e (supervisor-At n s r later h)))
    | inr (inl (s, e, h)) ↦ inr (inr (inl (next e (analysts-At n s r later h))))
    | inr (inr (inl (s, e, h))) ↦ inr (
        inr (
          inr (
            inl (
              next e (
                merge join_evidence_node s,
                refl,
                merge-WantsMore join_evidence_node s refl refl h,
              )))))
    | inr (inr (inr (inl (s, e, h)))) ↦
        let (t, et, ht, none_t) = rca-At n s r later h in
        inr (inr (inr (inr (t, ap (superstep env n) e ∙ et, ht, none_t))))
    | inr (inr (inr (inr (s, e, h, none_s)))) ↦ inl (next e (critic-At n s r h none_s))
  ]
    where
      next :
          {c d : Config W} {node : Node}
          → c ≡ d
          → At node r (superstep env n d)
          → At node r (superstep env n c)
      next e (t, et, ht) = (t, ap (superstep env n) e ∙ et, ht)

  drive-Loops :
      (fuel n : ℕ) (r : Runner W) (c : Config W) → k ≤ n → Loops r c → Loops r (drive env fuel n c)
  unfolding drive
  drive-Loops zero n r c later h = h
  drive-Loops (suc fuel) n r c later h =
      drive-Loops fuel (suc n) r (superstep env n c) (omega (arith, later))
        (superstep-Loops n r c later h)

  Loops-exhausts :
      (r : Runner W) (c : Config W)
      → Loops r c
      → ◌≡◌ {A = Result IncidentState × Runner W}
          (final_of c.at c.state, c.runner)
          (err "GraphRecursionError", r)
  Loops-exhausts r c = elim [
    | inl (s, e, h) ↦ rw e refl
    | inr (inl (s, e, h)) ↦ rw e refl
    | inr (inr (inl (s, e, h))) ↦ rw e refl
    | inr (inr (inr (inl (s, e, h)))) ↦ rw e refl
    | inr (inr (inr (inr (s, e, h, none_s)))) ↦ rw e refl
  ]

drive-drive :
    {W : Type 0} (env : Env W) (k more n : ℕ) (c : Config W)
    → drive env (k + more) n c ≡ drive env more (n + k) (drive env k n c)
unfolding drive
drive-drive env zero more n c =
    let e : zero + more ≡ more = omega arith in let z : n + zero ≡ n = omega arith in rw (e, z) refl
drive-drive env (suc k) more n c =
    let e : suc k + more ≡ suc (k + more) = omega arith in
    let z : n + suc k ≡ suc n + k = omega arith in
    rw (e, z) (drive-drive env k more (suc n) (superstep env n c))

-- Where a run is back at the supervisor after `k` supersteps, because the critic asked for more
-- evidence with iterations left, and the model from then on always answers but proposes no hypothesis,
-- the run never ends by itself: whatever `max_iterations`, and whatever recursion limit of at least `k`
-- supersteps it is given, it ends by the exception about that limit, with the runner as it was after
-- `k` supersteps.
pub workflow_exhausts :
    {W : Type 0} (env : Env W) (k more : ℕ) (s t : IncidentState) (r r' : Runner W)
    → IsBarren k env.model
    → drive env k 0 (start s r) ≡ start t r'
    → WantsMore t
    → ainvoke (k + more) env s r ≡ (err "GraphRecursionError", r')
unfolding ainvoke
workflow_exhausts env k more s t r r' barren back h =
    let c = drive env (k + more) 0 (start s r) in
    let there : c ≡ drive env more (zero + k) (start t r') =
      drive-drive env k more 0 (start s r) ∙ ap (drive env more (zero + k)) back in
    let late : k ≤ zero + k = omega arith in
    rw there (
      Loops-exhausts env k barren r' (drive env more (zero + k) (start t r'))
        (drive-Loops env k barren more (zero + k) r' (start t r') late (inl (t, refl, h))))
