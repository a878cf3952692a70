-- ===== src/Router/Mock.antt =====
-- src/llm/adapters/mock_provider.py: the answers of `MockLLMProvider` to a prompt, and the router over
-- one such provider, as the incident service and the evaluation build it. Scores are thousandths, the
-- floats of dictionaries are written as integers (0.89 as 890 thousandths), and costs are counted in
-- 1/100000 dollars. Of the counters only the switches of failure are kept.
use ops_pilot_ai.Prelude.{
  ℕ, zero, suc, ◌+◌, String, ◌≡◌, refl, inl, inr, Bool, true, false, ◌||◌, List, [], ◌∷◌, ◌++◌, ltb,
  if◌then◌else◌, ℕ_eq, String_eq, Bool-cases, length,
}
use ops_pilot_ai.Prelude.Text.{lower, contains}
use ops_pilot_ai.Result.{Result, ok, err}
use ops_pilot_ai.Value.{Fields, field, end, str, num, pos, obj}
use ops_pilot_ai.Domain.{
  Evidence, EvidenceType, Hypothesis, CritiqueResult, approve, InvestigationTask, AnalystType,
  log_analyst, metrics_analyst, code_analyst, memory_analyst, SupervisorPlan, Severity,
  AnalystAgentOutput, RcaAgentOutput, ActionType, RiskTier, RemediationAction, RemediationPlan,
  VerificationAssessment, RecoveryStatus,
}
use ops_pilot_ai.Router.{
  TokenUsage, LlmResponse, Provider, generate_structured, over_providers, attempts,
}

-- `"text" in prompt_lower`
unfoldable pub mentions : String → String → Bool
unfolding contains lower
mentions text prompt = contains text (lower prompt)

abbrev task : String → AnalystType → String → ℕ → InvestigationTask
task id agent intent minutes = record {
  task_id = id;
  agent_type = agent;
  target_service = "payment-service";
  query_intent = intent;
  time_window_minutes = minutes;
}

abbrev deploy_tasks : String → List InvestigationTask
deploy_tasks prompt =
    if mentions "deploy" prompt || mentions "c3a9f01" prompt || mentions "2.4" prompt
    then task "task-code-01" code_analyst "Inspect recent commit diffs and configuration changes" 30
      ∷ []
    else []

unfoldable pub supervisor_plan : String → SupervisorPlan
unfolding mentions
supervisor_plan prompt = record {
  triage_assessment = "Critical latency degradation on payment-service following deployment";
  initial_severity = Severity.sev1;
  suspected_domains = "payment-service" ∷ "redis-cluster" ∷ [];
  tasks =
      task "task-log-01" log_analyst "Query error logs around deploy time for Redis exceptions" 15
      ∷ task "task-met-01" metrics_analyst "Inspect P95 latency and active connection pools" 15
      ∷ task "task-mem-01" memory_analyst "Query historical postmortems for similar incidents" 60
      ∷ deploy_tasks prompt;
  reasoning = "P95 latency spike indicates resource bottleneck or bad config deployment";
}

abbrev found_evidence : String → EvidenceType → String → String → ℕ → Fields → Evidence
found_evidence id type observation reference score metadata = record {
  id = id;
  type = type;
  source = "payment-service";
  observation = observation;
  raw_reference = reference;
  relevance_score = score;
  metadata = metadata;
}

abbrev pub log_evidence : Evidence
log_evidence =
    found_evidence "EV-LOG-REDIS-01" EvidenceType.log
      "RedisTimeoutException: Connection pool exhausted [active=10, max=10]"
      "RedisTimeoutException: Connection pool exhausted at Connection.acquire" 960 end

abbrev pub metric_evidence : Evidence
metric_evidence =
    found_evidence "EV-MET-LATENCY-02" EvidenceType.metric
      "P95 latency spiked from 265ms baseline to 2820ms; Redis pool queue depth at 52"
      "http_request_duration_p95_seconds = 2.82s" 940 end

abbrev pub code_evidence : Evidence
code_evidence =
    found_evidence "EV-CODE-DIFF-03" EvidenceType.code
      "Commit c3a9f01b827e modified redis.yaml reducing max_connections from 100 to 10"
      "Commit c3a9f01b827e in payment-service by dev-engineer" 980 end

abbrev pub memory_evidence : Evidence
memory_evidence =
    found_evidence "EV-MEM-HIST-04" EvidenceType.memory
      "Historical Incident PM-2025-001 resolved identical Redis connection pool exhaustion by increasing pool size and timeout"
      "PM-2025-001: Redis Connection Pool Starvation Under Flash Sale Traffic" 910
      (field "incident_id" (str "PM-2025-001") (field "similarity_score" (num (pos 890)) end))

-- `if test: evidence_items.append(item)`
abbrev pub when_any : Bool → Evidence → List Evidence
when_any true item = item ∷ []
when_any false item = []

unfoldable pub evidence_items : String → List Evidence
unfolding mentions
evidence_items prompt =
    when_any (mentions "log" prompt || mentions "redistimeout" prompt) log_evidence
    ++ (when_any
          (mentions "metric" prompt
            || mentions "p95" prompt
            || mentions "active_connections" prompt)
          metric_evidence
        ++ (when_any
              (mentions "diff" prompt
                || mentions "commit" prompt
                || mentions "max_connections" prompt)
              code_evidence
            ++ when_any
                (mentions "memory" prompt
                  || mentions "historical" prompt
                  || mentions "postmortem" prompt)
                memory_evidence))

unfoldable pub analyst_output : String → AnalystAgentOutput
unfolding evidence_items
analyst_output prompt = record {
  agent_type = "analyst";
  service = "payment-service";
  findings_summary = "Isolated empirical anomalies correlating with incident timeframe";
  evidence_items = evidence_items prompt;
  anomalies_detected = ltb 0 (length (evidence_items prompt));
}

abbrev pub cited_ids : String → List String
cited_ids prompt =
    "EV-LOG-REDIS-01"
    ∷ "EV-MET-LATENCY-02"
    ∷ "EV-CODE-DIFF-03"
    ∷ (if mentions "ev-mem-hist-04" prompt then "EV-MEM-HIST-04" ∷ [] else [])

unfoldable pub redis_hypothesis : String → Hypothesis
unfolding mentions
redis_hypothesis prompt = record {
  id = "HYP-01";
  title = "Redis Connection Pool Exhaustion from Deployment Configuration";
  description =
      "Payment service deployment v2.4.1 reduced Redis max_connections from 100 to 10, starving worker threads and causing P95 latency to jump to 2.8s.";
  confidence = 920;
  supporting_evidence_ids = cited_ids prompt;
  contradicting_evidence_ids = [];
  reasoning_summary =
      "The commit diff directly accounts for the connection pool saturation and the exact timing of RedisTimeoutExceptions.";
  missing_information = [];
  suggested_validation = "Rollback deployment to v2.4.0 and verify latency drops" ∷ [];
}

unfoldable pub rca_output : String → RcaAgentOutput
unfolding redis_hypothesis
rca_output prompt = record {
  hypotheses = redis_hypothesis prompt ∷ [];
  primary_hypothesis_id = "HYP-01";
  confidence_rationale =
      "Evidence directly connects deployment diff to runtime connection limit breach.";
}

unfoldable pub critique_result : CritiqueResult
critique_result = record {
  decision = approve;
  critique_notes =
      "Hypothesis is supported by multiple distinct evidence vectors (logs, metrics, and commit diffs). Temporal correlation aligns perfectly with the deployment window. No contradicting evidence found.";
  counter_hypotheses = [];
  required_evidence_queries = [];
}

abbrev pub rollback_action : RemediationAction
rollback_action = record {
  action_id = "ACT-ROLLBACK-01";
  action_type = ActionType.rollback_deployment;
  target_service = "payment-service";
  parameters = field "target_version" (str "v2.4.0") (field "previous_version" (str "v2.4.1") end);
  description = "Rollback payment-service from defective v2.4.1 release to stable v2.4.0";
  rationale =
      "Restores original redis max_connections=100 configuration and terminates connection acquisition timeouts";
  rollback_plan =
      "Re-apply deployment v2.4.1 if rollback exhibits unanticipated downstream regressions";
  risk_tier = RiskTier.high;
  risk_score = 700;
  requires_approval = true;
  estimated_downtime_seconds = 15;
  idempotency_key = "";
}

unfoldable pub remediation_plan : RemediationPlan
remediation_plan = record {
  incident_id = "inc-redis-test-01";
  hypothesis_id = "HYP-01";
  actions = rollback_action ∷ [];
  summary = "Execute targeted deployment rollback to revert defective pool configuration";
  prevention_recommendations =
      "Implement automated load tests against Redis connection pool sizing in staging"
      ∷ "Add CI/CD configuration schema linting on all service YAML manifests" ∷ [];
}

abbrev comparison : ℕ → ℕ → Fields
comparison before after =
    field "before" (num (pos before))
      (field "after" (num (pos after)) (field "status" (str "HEALTHY") end))

unfoldable pub verification_assessment : VerificationAssessment
verification_assessment = record {
  status = RecoveryStatus.recovered;
  metrics_comparison =
      field "p95_latency_ms" (obj (comparison 2820 245))
        (field "error_rate_percent" (obj (comparison 65 0)) end);
  service_statuses = field "payment-service" (str "HEALTHY") end;
  rollback_recommended = false;
  explanation =
      "P95 latency dropped below 250ms baseline and error rate stabilized at 0.0% following deployment rollback.";
}

-- The provider's switches.
pub record MockProvider : Type 0 where
  pub call_count : ℕ
  pub fail_next : Bool
  pub always_fail : Bool

abbrev mock_usage : TokenUsage
mock_usage = record {
  input_tokens = 150;
  output_tokens = 75;
  total_tokens = 225;
  estimated_cost = 45;
}

-- `dump_json` is pydantic's `model_dump_json`.
module _ {T : Type 0} (dump_json : T → String) where
  -- `generate_structured` of the provider, where `parsed` is its answer to the prompt.
  unfoldable pub mock_structured : T → MockProvider → Result (LlmResponse T) × MockProvider
  mock_structured parsed mock =
      let called = record mock { call_count = mock.call_count + 1; fail_next = false } in
      if mock.always_fail || mock.fail_next
      then (err "Simulated provider failure on mock", called)
      else (
        ok (record {
          parsed = parsed;
          raw_content = dump_json parsed;
          usage = mock_usage;
          provider = "mock";
          model = "mock-model";
        }),
        called,
      )

  -- The attempts of the router, counted from 1: each meets the provider that the calls before it left.
  unfoldable pub mock_provider : T → MockProvider → Provider T
  unfolding mock_structured
  mock_provider parsed mock zero = (mock_structured parsed mock).0
  mock_provider parsed mock (suc zero) = (mock_structured parsed mock).0
  mock_provider parsed mock (suc (suc attempt)) =
      mock_provider parsed (mock_structured parsed mock).1 (suc attempt)

  abbrev parsed_of : Result (LlmResponse T) → Result T
  parsed_of (ok response) = ok response.parsed
  parsed_of (err e) = err e

  -- `invoke_structured` of an agent whose router has one mock provider, with two attempts.
  unfoldable pub ask_mock : MockProvider → T → Result T
  unfolding mock_provider generate_structured
  ask_mock mock parsed =
      parsed_of
        (generate_structured 2 (mock_provider parsed mock ∷ [])
          (record { input_tokens = 0; output_tokens = 0; total_tokens = 0; estimated_cost = 0 })).0

  -- A mock provider that does not always fail answers, at the second attempt if the first was told to
  -- fail.
  pub ask_mock_lem :
      (mock : MockProvider) (parsed : T)
      → mock.always_fail ≡ false
      → ask_mock mock parsed ≡ ok parsed
  unfolding ask_mock generate_structured over_providers attempts mock_provider mock_structured
  ask_mock_lem mock parsed h = elim (Bool-cases mock.fail_next) [
    | inl e ↦ rw h (rw e refl)
    | inr e ↦ rw h (rw e refl)
  ]
