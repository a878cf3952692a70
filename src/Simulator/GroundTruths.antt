-- ===== src/Simulator/GroundTruths.antt =====
-- simulator/scenarios/: what the evaluation knows of each scenario, and the title and service of the
-- alert that starts it.
use ops_pilot_ai.Prelude.{String, List, [], ◌∷◌, ℕ_eq, String_eq}
use ops_pilot_ai.Domain.{EvidenceType}
use ops_pilot_ai.Simulator.Scenario.{
  ScenarioId, affected_services, recommended_remediation, redis_pool_exhaustion,
  db_connection_exhaustion, slow_query, memory_leak, cpu_saturation, downstream_failure,
  bad_deployment, invalid_config, api_timeout, queue_backlog,
}

pub record ExpectedEvidence : Type 0 where
  pub evidence_type : EvidenceType
  pub source : String
  pub key_pattern : String
  pub description : String

pub record GroundTruth : Type 0 where
  pub scenario_id : String
  pub name : String
  pub root_cause : String
  pub affected_services : List String
  pub trigger_event : String
  pub recommended_remediation : String
  pub expected_evidence : List ExpectedEvidence
  pub forbidden_claims : List String

abbrev expected : EvidenceType → String → String → String → ExpectedEvidence
expected type source key_pattern description = record {
  evidence_type = type;
  source = source;
  key_pattern = key_pattern;
  description = description;
}

abbrev redis_pool_exhaustion_truth : GroundTruth
redis_pool_exhaustion_truth = record {
  scenario_id = "redis_pool_exhaustion";
  name = "Redis Connection Pool Exhaustion";
  root_cause =
      "Payment service v2.4.1 deployment accidentally reduced Redis connection pool size from 100 to 10 in configuration, causing thread pool starvation and timeout errors.";
  affected_services = affected_services redis_pool_exhaustion;
  trigger_event = "Deployment of payment-service:v2.4.1 5 minutes prior to alert";
  recommended_remediation = recommended_remediation redis_pool_exhaustion;
  expected_evidence =
      (expected EvidenceType.metric "payment-service" "active_connections"
        "Redis connection pool active connections saturated at 10/10")
      ∷ (expected EvidenceType.log "payment-service" "RedisTimeoutException"
          "High frequency of RedisTimeoutException: pool exhausted")
      ∷ (expected EvidenceType.code "payment-service" "max_connections"
          "Commit diff showing max_connections reduced from 100 to 10")
      ∷ (expected EvidenceType.metric "payment-service" "p95_latency"
          "P95 latency spike from 280ms to 2800ms")
      ∷ [];
  forbidden_claims =
      "Network partition between AWS and Redis cluster" ∷ "Redis server out of memory (OOM)"
      ∷ "DDoS attack on payment-service" ∷ [];
}

abbrev db_connection_exhaustion_truth : GroundTruth
db_connection_exhaustion_truth = record {
  scenario_id = "db_connection_exhaustion";
  name = "Database Connection Pool Exhaustion";
  root_cause =
      "Order service connection leak in checkout handler fails to release SQLAlchemy sessions upon unhandled checkout validation exceptions, saturating PostgreSQL max_connections.";
  affected_services = affected_services db_connection_exhaustion;
  trigger_event = "Order-service checkout bug leading to unclosed session handles";
  recommended_remediation = recommended_remediation db_connection_exhaustion;
  expected_evidence =
      (expected EvidenceType.log "order-service" "FATAL: remaining connection slots are reserved"
        "PostgreSQL error refusing client connections")
      ∷ (expected EvidenceType.metric "order-service" "db_active_connections"
          "PostgreSQL active connections plateau at 100")
      ∷ [];
  forbidden_claims = [];
}

abbrev slow_query_truth : GroundTruth
slow_query_truth = record {
  scenario_id = "slow_query";
  name = "Unindexed Database Sequential Scan";
  root_cause =
      "Missing index on orders(customer_uuid) causing full sequential table scan on 2.5M rows, spiking DB CPU to 99% and order-service query latency to 12 seconds.";
  affected_services = affected_services slow_query;
  trigger_event = "Batch customer history query volume spike";
  recommended_remediation = recommended_remediation slow_query;
  expected_evidence =
      (expected EvidenceType.log "order-service"
        "duration: 12140.231 ms  statement: SELECT * FROM orders WHERE customer_uuid"
        "Slow query log entry showing 12s sequential scan")
      ∷ (expected EvidenceType.metric "order-service" "database_query_duration_p95"
          "Query latency degradation to >10 seconds")
      ∷ [];
  forbidden_claims = [];
}

abbrev memory_leak_truth : GroundTruth
memory_leak_truth = record {
  scenario_id = "memory_leak";
  name = "Session Cache Memory Leak";
  root_cause =
      "Auth service in-memory session cache missing TTL eviction, causing monotonic RAM leak towards OOM limit.";
  affected_services = affected_services memory_leak;
  trigger_event = "High traffic login campaign accumulating unevicted session dictionaries";
  recommended_remediation = recommended_remediation memory_leak;
  expected_evidence =
      (expected EvidenceType.metric "auth-service" "memory_usage_percent"
        "Memory consumption ramping monotonically to 94%")
      ∷ (expected EvidenceType.log "auth-service" "OutOfMemoryWarning"
          "GC warning regarding heap memory pressure")
      ∷ [];
  forbidden_claims = [];
}

abbrev cpu_saturation_truth : GroundTruth
cpu_saturation_truth = record {
  scenario_id = "cpu_saturation";
  name = "Catastrophic Backtracking CPU Saturation";
  root_cause =
      "Notification service email template parser contains an unanchored regex pattern suffering from ReDoS, consuming 100% CPU on all worker threads.";
  affected_services = affected_services cpu_saturation;
  trigger_event = "Batch promotional email dispatch containing nested HTML formatting";
  recommended_remediation = recommended_remediation cpu_saturation;
  expected_evidence =
      (expected EvidenceType.metric "notification-service" "cpu_usage_percent"
        "CPU utilization pinned at 100%")
      ∷ (expected EvidenceType.log "notification-service" "ThreadBlockedWarning"
          "Thread watchdog reporting worker loop blocked")
      ∷ [];
  forbidden_claims = [];
}

abbrev downstream_failure_truth : GroundTruth
downstream_failure_truth = record {
  scenario_id = "downstream_failure";
  name = "Downstream Payment Service Outage";
  root_cause =
      "Payment service crashed following a panic on null billing address, cascading HTTP 503 Bad Gateway failures into order-service checkout.";
  affected_services = affected_services downstream_failure;
  trigger_event = "Payment service process termination";
  recommended_remediation = recommended_remediation downstream_failure;
  expected_evidence =
      (expected EvidenceType.log "order-service"
        "HTTPConnectionPool(host='payment-service', port=8083): Max retries exceeded"
        "Order service cannot reach payment service")
      ∷ (expected EvidenceType.metric "order-service" "http_503_count"
          "Cascading 503 errors at order service")
      ∷ [];
  forbidden_claims = [];
}

abbrev bad_deployment_truth : GroundTruth
bad_deployment_truth = record {
  scenario_id = "bad_deployment";
  name = "Corrupted Route Config Deployment";
  root_cause =
      "API Gateway v2.2.0 deployment contained a malformed route prefix in routes.yaml, breaking route matching for all microservices.";
  affected_services = affected_services bad_deployment;
  trigger_event = "Deployment of api-gateway:v2.2.0";
  recommended_remediation = recommended_remediation bad_deployment;
  expected_evidence =
      (expected EvidenceType.code "api-gateway" "routes.yaml"
        "Commit diff introducing broken route regex")
      ∷ (expected EvidenceType.log "api-gateway" "RouteMatchException: Invalid regex pattern syntax"
          "Gateway log reporting route failure")
      ∷ [];
  forbidden_claims = [];
}

abbrev invalid_config_truth : GroundTruth
invalid_config_truth = record {
  scenario_id = "invalid_config";
  name = "JWT Secret Mismatch Configuration Error";
  root_cause =
      "Configuration update rotated JWT private key on auth-service without propagating matching public key to API Gateway.";
  affected_services = affected_services invalid_config;
  trigger_event = "Configmap update on auth-service";
  recommended_remediation = recommended_remediation invalid_config;
  expected_evidence =
      (expected EvidenceType.log "api-gateway"
        "InvalidSignatureError: Signature verification failed"
        "Token signature verification failure in gateway")
      ∷ (expected EvidenceType.metric "api-gateway" "http_401_rate" "401 Unauthorized spike to 95%")
      ∷ [];
  forbidden_claims = [];
}

abbrev api_timeout_truth : GroundTruth
api_timeout_truth = record {
  scenario_id = "api_timeout";
  name = "External Payment Provider Timeout";
  root_cause =
      "Third-party payment processor API degraded, exceeding payment-service 5000ms HTTP timeout threshold on card charge requests.";
  affected_services = affected_services api_timeout;
  trigger_event = "Upstream provider latency incident";
  recommended_remediation = recommended_remediation api_timeout;
  expected_evidence =
      (expected EvidenceType.log "payment-service"
        "httpx.ReadTimeout: The read operation timed out after 5.0 seconds"
        "Outbound HTTP timeout log")
      ∷ (expected EvidenceType.metric "payment-service" "outbound_timeout_rate"
          "Outbound timeout rate spike to 40%")
      ∷ [];
  forbidden_claims = [];
}

abbrev queue_backlog_truth : GroundTruth
queue_backlog_truth = record {
  scenario_id = "queue_backlog";
  name = "Message Queue Consumer Stoppage Backlog";
  root_cause =
      "Notification consumer pod workers crashed on malformed event payload, leaving queue unconsumed and backing up 150k messages.";
  affected_services = affected_services queue_backlog;
  trigger_event = "Batch marketing trigger publishing legacy event schema";
  recommended_remediation = recommended_remediation queue_backlog;
  expected_evidence =
      (expected EvidenceType.metric "notification-service" "queue_depth_messages"
        "Queue backlog accumulation past 150k messages")
      ∷ (expected EvidenceType.log "notification-service"
          "ConsumerCrashException: Unhandled serialization format"
          "Consumer crash logs with poison pill message")
      ∷ [];
  forbidden_claims = [];
}

unfoldable pub ground_truth : ScenarioId → GroundTruth
ground_truth redis_pool_exhaustion = redis_pool_exhaustion_truth
ground_truth db_connection_exhaustion = db_connection_exhaustion_truth
ground_truth slow_query = slow_query_truth
ground_truth memory_leak = memory_leak_truth
ground_truth cpu_saturation = cpu_saturation_truth
ground_truth downstream_failure = downstream_failure_truth
ground_truth bad_deployment = bad_deployment_truth
ground_truth invalid_config = invalid_config_truth
ground_truth api_timeout = api_timeout_truth
ground_truth queue_backlog = queue_backlog_truth

unfoldable pub alert_title : ScenarioId → String
alert_title redis_pool_exhaustion = "Payment API P95 latency increased from 280ms to 2.8s"
alert_title db_connection_exhaustion = "Order Service Database Connection Saturation"
alert_title slow_query = "Order Service Database Query P95 Latency > 10s"
alert_title memory_leak = "Auth Service Memory Usage > 90%"
alert_title cpu_saturation = "Notification Service CPU Utilization > 95%"
alert_title downstream_failure = "Order Service HTTP 503 Error Rate > 20%"
alert_title bad_deployment = "API Gateway 4xx Error Spike > 80%"
alert_title invalid_config = "Global HTTP 401 Unauthorized Spike > 90%"
alert_title api_timeout = "Payment Service Outbound API Timeout Spike > 30%"
alert_title queue_backlog = "Notification Queue Depth > 100,000 Messages"

unfoldable pub alert_service : ScenarioId → String
alert_service redis_pool_exhaustion = "payment-service"
alert_service db_connection_exhaustion = "order-service"
alert_service slow_query = "order-service"
alert_service memory_leak = "auth-service"
alert_service cpu_saturation = "notification-service"
alert_service downstream_failure = "order-service"
alert_service bad_deployment = "api-gateway"
alert_service invalid_config = "api-gateway"
alert_service api_timeout = "payment-service"
alert_service queue_backlog = "notification-service"
