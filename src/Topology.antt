-- ===== src/Topology.antt =====
-- simulator/services/topology.py: the service graph and its queries.
use ops_pilot_ai.Prelude.{
  ℕ, String, Option, none, some, List, [], ◌∷◌, if◌then◌else◌, ◌==◌, ℕ_eq, String_eq, elem,
}
use ops_pilot_ai.Prelude.Assoc.{Assoc, lookup}

pub data ServiceStatus : Type 0 where
  healthy degraded down : ServiceStatus

pub data ServiceTier : Type 0 where
  frontend gateway business data_tier external : ServiceTier

pub record ServiceNode : Type 0 where
  pub name : String
  pub display_name : String
  pub description : String
  pub tier : ServiceTier
  pub dependencies : List String
  pub default_port : ℕ
  pub health_endpoint : String
  pub version : String
  pub status : ServiceStatus

abbrev pub Services : Type 0
Services = Assoc ServiceNode

abbrev service_node :
    String → String → String → ServiceTier → List String → ℕ → String → ServiceNode
service_node name display_name description tier dependencies port version = record {
  name = name;
  display_name = display_name;
  description = description;
  tier = tier;
  dependencies = dependencies;
  default_port = port;
  health_endpoint = "/health";
  version = version;
  status = healthy;
}

unfoldable pub default_topology : Services
default_topology =
    (
      "api-gateway",
      service_node "api-gateway" "API Gateway"
          "Public edge router handling SSL termination, rate limiting, and request routing." gateway
          ("auth-service" ∷ "order-service" ∷ "payment-service" ∷ []) 8080 "v2.1.0",
    )
    ∷ (
      "auth-service",
      service_node "auth-service" "Authentication Service"
          "Issues and validates JWT tokens and handles user permissions." business [] 8081 "v1.4.2",
    )
    ∷ (
      "order-service",
      service_node "order-service" "Order Processing Service"
          "Manages shopping carts, checkout workflows, and order state." business
          ("payment-service" ∷ "notification-service" ∷ []) 8082 "v3.0.1",
    )
    ∷ (
      "payment-service",
      service_node "payment-service" "Payment Processing Service"
          "Executes credit card authorizations, gateway tokens, and Redis cache transactions."
          business ("notification-service" ∷ []) 8083 "v2.4.0",
    )
    ∷ (
      "notification-service",
      service_node "notification-service" "Notification Service"
          "Sends emails, SMS alerts, and async webhooks via RabbitMQ/Kafka queue." business [] 8084
          "v1.2.0",
    )
    ∷ []

unfoldable pub get_service : String → Services → Option ServiceNode
unfolding lookup
get_service name services = lookup name services

unfoldable pub get_upstream_dependents : String → Services → List String
get_upstream_dependents service_name [] = []
get_upstream_dependents service_name ((name, node) ∷ rest) =
    let dependents = get_upstream_dependents service_name rest in
    if elem service_name node.dependencies then name ∷ dependents else dependents

unfoldable pub get_downstream_dependencies : String → Services → List String
unfolding lookup
get_downstream_dependencies service_name services = elim (lookup service_name services) [
  | none ↦ []
  | some node ↦ node.dependencies
]

-- The write goes through the node that the dictionary holds; an unknown service is ignored.
unfoldable pub set_service_status : String → ServiceStatus → Services → Services
set_service_status service_name status [] = []
set_service_status service_name status ((name, node) ∷ rest) =
    if name == service_name
    then (name, record node { status = status }) ∷ rest
    else (name, node) ∷ set_service_status service_name status rest
