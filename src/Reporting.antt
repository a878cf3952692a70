-- ===== src/Reporting.antt =====
-- src/reporting/postmortem.py: `PostmortemGenerator`. Times are microseconds of one clock, which is
-- read no earlier than an incident was created, and how it prints one is a parameter. The default
-- plan of preventive actions and the five whys are those of the source.
pub mod Recalled
use ops_pilot_ai.Prelude.{
  ℕ, zero, suc, ◌+◌, ◌-◌, ◌*◌, ◌/◌, ◌%◌, ◌≤◌, ◌<◌, min, max, String, ◌≡◌, refl, sym, ap, ◌∙◌, ◌≢◌,
  ◌↔◌, ◌⊎◌, inl, inr, Bool, true, false, not, ◌&&◌, ◌||◌, Option, none, some, List, [], ◌∷◌, ◌++◌,
  map, arith, eq_iff, eq_refl, ltb, leb, nat_eqb, nat_eqb_iff, if◌then◌else◌, Eq, ◌==◌, ℕ_eq,
  String_eq, Bool-cases, Option-cases, length, take, drop, head?, last?, keep_if, find_if, any_of,
  All, length-append, length-drop, All-append, All-keep_if, elem, elem-append, nodup, keep_if-true,
  keep_if-keep_if,
}
use Prim.Native.String.{◌++◌ as ◌⧺◌}
use ops_pilot_ai.Prelude.Text.{lower, contains, join, show_ℕ}
use ops_pilot_ai.Value.{Fields, field, end, num, pos}
use ops_pilot_ai.Domain.{
  IncidentState, IncidentStage, Hypothesis, RemediationAction, RemediationPlan,
}
use ops_pilot_ai.Domain.Names.{severity_name, stage_name, action_name}
use ops_pilot_ai.Memory.Seeds.{HistoricalPostmortem}
use ops_pilot_ai.Memory.Episodic.{Manager, index_postmortem}

pub record PostmortemReportResponse : Type 0 where
  pub incident_id : String
  pub title : String
  pub severity : String
  pub status : String
  pub lead_service : String
  pub detected_at : ℕ
  pub resolved_at : Option ℕ
  pub mttd_seconds : ℕ
  pub mttr_seconds : ℕ
  pub executive_summary : String
  pub root_cause_analysis : String
  pub supporting_evidence_ids : List String
  pub remediation_summary : String
  pub five_whys : List String
  pub preventative_actions : List String
  pub full_markdown : String

-- `services[0] if services else default`
abbrev pub first_service : String → List String → String
first_service default [] = default
first_service default (s ∷ ss) = s

abbrev pub hypothesis_title : String → Option Hypothesis → String
hypothesis_title default none = default
hypothesis_title default (some h) = h.title

abbrev pub supporting : Option Hypothesis → List String
supporting none = []
supporting (some h) = h.supporting_evidence_ids

abbrev pub rca_text : Option Hypothesis → String
rca_text none = "Investigation concluded without a confirmed single root cause."
rca_text (some h) = h.title ⧺ ": " ⧺ h.description

abbrev pub action_line : RemediationAction → String
action_line a =
    "- **" ⧺ action_name a.action_type ⧺ "** on `" ⧺ a.target_service ⧺ "`: " ⧺ a.description

abbrev pub planned_actions : Option RemediationPlan → List RemediationAction
planned_actions none = []
planned_actions (some plan) = plan.actions

abbrev pub summarize_actions : List RemediationAction → String
summarize_actions [] = "No active remediation actions were recorded."
summarize_actions (a ∷ as') = join "\n" (map action_line (a ∷ as'))

abbrev pub or_default : List String → List String → List String
or_default default [] = default
or_default default (x ∷ xs) = x ∷ xs

abbrev pub recommended : Option RemediationPlan → List String
recommended none = []
recommended (some plan) = plan.prevention_recommendations

unfoldable pub preventative_of : String → Option RemediationPlan → List String
preventative_of lead_service plan =
    or_default
      (("Implement automated integration regression tests for " ⧺ lead_service)
        ∷ "Configure proactive connection pool utilization alerting at 80% threshold"
        ∷ "Add pre-deployment configuration validation checks into CI/CD pipeline"
        ∷ [])
      (recommended plan)

unfoldable pub build_five_whys : IncidentState → List String
unfolding lower contains
build_five_whys s =
    let lead_service = first_service "payment-service" s.affected_services in
    if contains "redis" (lower (hypothesis_title "" s.selected_hypothesis))
    then ("1. Why did " ⧺ lead_service
        ⧺ " fail? Requests timed out with high HTTP 500 error rates.")
      ∷ "2. Why did requests time out? Worker coroutines blocked attempting to acquire Redis client handles."
      ∷ "3. Why were connection handles exhausted? The active connection pool was capped at 10 while concurrency exceeded 150 req/s."
      ∷ "4. Why was the pool capped at 10? A recent Git deployment modified redis.yaml lowering max_connections."
      ∷ "5. Why was this configuration change deployed without detection? The deployment pipeline lacked pre-commit schema linting and pool sizing load verification in staging."
      ∷ []
    else ("1. Why did " ⧺ lead_service
        ⧺ " experience degradation? Response latencies breached SLO thresholds.")
      ∷ "2. Why were latencies elevated? Critical path operations suffered resource contention."
      ∷ "3. Why was there resource contention? Underlying services were saturated by traffic."
      ∷ "4. Why were services saturated? System capacity was configured below peak demand."
      ∷ "5. Why was capacity insufficient? Auto-scaling policies and resource quotas were not tuned."
      ∷ []

abbrev pub quoted_ids : List String → String
quoted_ids [] = "None cited"
quoted_ids (e ∷ es) = join ", " (map (λ x. "`" ⧺ x ⧺ "`") (e ∷ es))

unfoldable pub render_markdown :
    IncidentState
    → String
    → String
    → String
    → List String
    → String
    → List String
    → List String
    → ℕ
    → ℕ
    → String
unfolding join
render_markdown s lead_service exec_summary rca supporting_ids remediation_summary five_whys
      preventative mttd mttr =
    "# Incident Postmortem: "
    ⧺ s.title
    ⧺ "\n\n| Metric | Value |\n| :--- | :--- |\n| **Incident ID** | `"
    ⧺ s.incident_id
    ⧺ "` |\n| **Severity** | `"
    ⧺ severity_name s.severity
    ⧺ "` |\n| **Lead Service** | `"
    ⧺ lead_service
    ⧺ "` |\n| **Status** | `"
    ⧺ stage_name s.current_stage
    ⧺ "` |\n| **MTTD** | "
    ⧺ show_ℕ mttd
    ⧺ " seconds |\n| **MTTR** | "
    ⧺ show_ℕ mttr
    ⧺ " seconds |\n\n## 1. Executive Summary\n"
    ⧺ exec_summary
    ⧺ "\n\n## 2. Root Cause Analysis\n"
    ⧺ rca
    ⧺ "\n\n**Verified Evidence Citations**: "
    ⧺ quoted_ids supporting_ids
    ⧺ "\n\n## 3. 5-Whys Causal Analysis\n"
    ⧺ join "\n" five_whys
    ⧺ "\n\n## 4. Remediation Executed\n"
    ⧺ remediation_summary
    ⧺ "\n\n## 5. Preventative Action Items\n"
    ⧺ join "\n" (map (λ x. "- [ ] " ⧺ x) preventative)
    ⧺ "\n"

-- `state.current_stage == "RESOLVED"`
abbrev pub is_resolved : IncidentStage → Bool
is_resolved IncidentStage.resolved = true
is_resolved _ = false

module _ (strftime : ℕ → String) where
  unfoldable pub executive_summary_of : ℕ → IncidentState → String
  executive_summary_of mttr_seconds s =
      if is_resolved s.current_stage
      then "On "
        ⧺ strftime s.created_at
        ⧺ ", a "
        ⧺ severity_name s.severity
        ⧺ " incident impacted '"
        ⧺ first_service "unknown" s.affected_services
        ⧺ "'. OpsPilot AI diagnosed the root cause as '"
        ⧺ hypothesis_title "Resource Contention" s.selected_hypothesis
        ⧺ "' backed by "
        ⧺ show_ℕ (length (supporting s.selected_hypothesis))
        ⧺ " verified evidence sources. Remediation was executed and verified with total MTTR of "
        ⧺ show_ℕ mttr_seconds
        ⧺ "s."
      else "Incident '"
        ⧺ s.title
        ⧺ "' is currently in progress (stage: "
        ⧺ stage_name s.current_stage
        ⧺ "). Diagnostic analysis has isolated "
        ⧺ show_ℕ (length (supporting s.selected_hypothesis))
        ⧺ " evidence sources. Full remediation and recovery verification are ongoing."

  unfoldable pub generate_report : ℕ → IncidentState → PostmortemReportResponse
  unfolding build_five_whys preventative_of executive_summary_of render_markdown
  generate_report now s =
      let lead_service = first_service "unknown" s.affected_services in
      let mttd_seconds : ℕ = 180 in
      let resolved = is_resolved s.current_stage in
      let mttr_seconds = if resolved then (now - s.created_at) / 1000000 else 0 in
      let rca = rca_text s.selected_hypothesis in
      let supporting_ids = supporting s.selected_hypothesis in
      let remediation_summary = summarize_actions (planned_actions s.remediation_plan) in
      let five_whys = build_five_whys s in
      let preventative = preventative_of lead_service s.remediation_plan in
      let exec_summary = executive_summary_of mttr_seconds s in
      record {
        incident_id = s.incident_id;
        title = "Postmortem: " ⧺ s.title;
        severity = severity_name s.severity;
        status = stage_name s.current_stage;
        lead_service = lead_service;
        detected_at = s.created_at;
        resolved_at = if resolved then some now else none;
        mttd_seconds = mttd_seconds;
        mttr_seconds = mttr_seconds;
        executive_summary = exec_summary;
        root_cause_analysis = rca;
        supporting_evidence_ids = supporting_ids;
        remediation_summary = remediation_summary;
        five_whys = five_whys;
        preventative_actions = preventative;
        full_markdown =
            render_markdown s lead_service exec_summary rca supporting_ids remediation_summary
              five_whys preventative mttd_seconds mttr_seconds;
      }

-- The memory entry of a report.
abbrev pub entry_of : PostmortemReportResponse → HistoricalPostmortem
entry_of report = record {
  incident_id = "PM-" ⧺ report.incident_id;
  title = report.title;
  service = report.lead_service;
  severity = report.severity;
  summary = report.executive_summary;
  root_cause = report.root_cause_analysis;
  detection_signals = report.supporting_evidence_ids;
  remediation_steps = report.preventative_actions;
  prevention_measures = [];
  full_text = report.full_markdown;
  metadata = field "mttr_seconds" (num (pos report.mttr_seconds)) end;
}

-- With no memory manager nothing is preserved.
unfoldable pub auto_index_to_memory :
    {E : Type 0} → (String → E) → PostmortemReportResponse → Option (Manager E) → Option (Manager E)
unfolding index_postmortem
auto_index_to_memory embed report none = none
auto_index_to_memory embed report (some memory) =
    some (index_postmortem embed (entry_of report) memory)
