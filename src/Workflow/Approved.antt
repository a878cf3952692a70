-- ===== src/Workflow/Approved.antt =====
-- When the critic has approved a hypothesis, and which nodes leave that as it is.
use ops_pilot_ai.Tools.Registry.{Registry}
use ops_pilot_ai.Workflow.Nodes.{node_failed, execution_node, verification_node, analyst_node}
use ops_pilot_ai.Prelude.{
  ap, sym, ◌∙◌, inr, ◌∷◌, inl, true, elem, String, List, All, refl, ℕ, ◌≡◌, ◌⊎◌, Option, none, some,
  [], arith, ℕ_eq, String_eq,
}
use mathlib.Core.List.{append-nil}
use ops_pilot_ai.Result.{err, Result, ok}
use ops_pilot_ai.Domain.{
  VerificationAssessment, challenge, AnalystType, CritiqueDecision, log_analyst, metrics_analyst,
  code_analyst, memory_analyst, IncidentState, CritiqueResult, approve, needs_more_evidence,
  Hypothesis,
}
use ops_pilot_ai.Agents
use ops_pilot_ai.Agents.{Model, ids, missing_ids, rejection}
use ops_pilot_ai.Safety.Runner.{Runner}
use ops_pilot_ai.Workflow.Update.{Update, merge}
use ops_pilot_ai.Workflow.Graph.{
  target_of, route_critic_decision, analyst_step, remediation_planning,
}

-- The critic approved, and every evidence id that the selected hypothesis cites was collected.
pub record IsApproved (s : IncidentState) : Type 0 where
  pub hypothesis : Hypothesis
  pub verdict : CritiqueResult
  pub selected : s.selected_hypothesis ≡ some hypothesis
  pub judged : s.critique ≡ some verdict
  pub approved : verdict.decision ≡ approve
  pub grounded : All (λ c. elem c (ids s.evidence) ≡ true) hypothesis.supporting_evidence_ids

-- No critique yet, or one that asked for more evidence.
abbrev pub Undecided : Option CritiqueResult → Type 0
Undecided none = Unit
Undecided (some c) = c.decision ≡ needs_more_evidence

pub Approve-cases :
    (d : CritiqueDecision) → (d ≡ approve) ⊎ ((d ≡ challenge) ⊎ (d ≡ needs_more_evidence))
Approve-cases approve = inl refl
Approve-cases challenge = inr (inl refl)
Approve-cases needs_more_evidence = inr (inr refl)

pub none_missing :
    (cited known : List String)
    → missing_ids cited known ≡ []
    → All (λ c. elem c known ≡ true) cited
unfolding missing_ids
none_missing [] known h = tt
none_missing (c ∷ cs) known h = (ground arith, none_missing cs known (ground arith))

-- `CriticAgent.critique` approves only what the evidence grounds.
pub critique-grounded :
    (model : Model) (n : ℕ) (h : Hypothesis) (s : IncidentState) (c : CritiqueResult)
    → Agents.critique model n h s.evidence ≡ ok c
    → c.decision ≡ approve
    → missing_ids h.supporting_evidence_ids (ids s.evidence) ≡ []
unfolding Agents.critique rejection
critique-grounded model n h s c e a = ground arith

pub route-approve :
    (s : IncidentState) (c : CritiqueResult)
    → s.critique ≡ some c
    → c.decision ≡ approve
    → target_of (route_critic_decision s) ≡ remediation_planning
unfolding route_critic_decision target_of
route-approve s c e a = ground arith

-- Later updates leave what was approved.
pub kept :
    (u : Update) (s : IncidentState)
    → u.selected_hypothesis ≡ none
    → u.critique ≡ none
    → u.evidence ≡ []
    → IsApproved s
    → IsApproved (merge u s)
unfolding merge
kept u s a b c h = record {
  hypothesis = h.hypothesis;
  verdict = h.verdict;
  selected = rw a h.selected;
  judged = rw b h.judged;
  approved = h.approved;
  grounded = rw (c, append-nil) h.grounded;
}

abbrev pub joined : Model → ℕ → IncidentState → Result IncidentState
joined model n s = analyst_step model n s memory_analyst (
    analyst_step model n s code_analyst
      (analyst_step model n s metrics_analyst (analyst_step model n s log_analyst (ok s))))

abbrev pub critique_of : Option CritiqueResult → Result IncidentState → Option CritiqueResult
critique_of c (ok t) = t.critique
critique_of c (err e) = c

pub analyst-critique :
    (model : Model) (n : ℕ) (s u : IncidentState) (agent : AnalystType) (x : Result IncidentState)
    → analyst_step model n s agent x ≡ ok u
    → (t : IncidentState) × (x ≡ ok t) × (u.critique ≡ t.critique)
unfolding analyst_step merge analyst_node
analyst-critique model n s u agent (ok t) h = (t, refl, ground arith)
analyst-critique model n s u agent (err e) h = cc

pub joined-critique :
    (model : Model) (n : ℕ) (s u : IncidentState)
    → joined model n s ≡ ok u
    → u.critique ≡ s.critique
joined-critique model n s u h =
    let (t, et, ct) = analyst-critique model n s u memory_analyst _ h in
    let (v, ev, cv) = analyst-critique model n s t code_analyst _ et in
    let (w, ew, cw) = analyst-critique model n s v metrics_analyst _ ev in
    let (x, ex, cx) = analyst-critique model n s w log_analyst _ ew in
    ct ∙ cv ∙ cw ∙ cx ∙ sym (ap (critique_of s.critique) ex)

-- An update that touches neither the hypothesis, nor the critique, nor the evidence.
abbrev pub Keeps : Update → Type 0
Keeps u = (u.selected_hypothesis ≡ none) × (u.critique ≡ none) × (u.evidence ≡ [])

pub execution-Keeps :
    {W : Type 0} (registry : Registry W) (s : IncidentState) (r : Runner W) (u : Update)
    → (execution_node registry s r).0 ≡ ok u
    → Keeps u
unfolding execution_node node_failed
execution-Keeps registry s r u h = ground arith

pub verification-Keeps :
    {W : Type 0} (registry : Registry W) (a : VerificationAssessment) (s : IncidentState)
    (r : Runner W) (u : Update)
    → (verification_node registry a s r).0 ≡ ok u
    → Keeps u
unfolding verification_node
verification-Keeps registry a s r u h = ground arith
