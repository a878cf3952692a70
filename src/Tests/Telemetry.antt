-- ===== src/Tests/Telemetry.antt =====
-- The telemetry store and the repository at concrete inputs.
use ops_pilot_ai.Prelude.{
  ℕ, String, ◌≡◌, refl, none, some, List, [], ◌∷◌, map, ℕ_eq, String_eq, take, keep_if,
}
use ops_pilot_ai.Value.{end}
use ops_pilot_ai.Simulator.Telemetry.{
  add_metrics, LogRecord, MetricDataPoint, LogQuery, MetricQuery, log_time, metric_time, query_logs,
  query_metrics, add_logs, last_n,
}
use ops_pilot_ai.Simulator.Telemetry.Queries.{
  Batch, of_logs, of_metrics, filled, arrived_logs, arrived_metrics, wants_log, wants_metric,
  IsAnswer, queries_exact,
}
use ops_pilot_ai.Prelude.Sorting.{sort_by, insert_all, insert_by, descending}
use ops_pilot_ai.Simulator.Repository.{DeploymentEvent, deployment_time, get_recent_deployments}
use ops_pilot_ai.Simulator.Repository.Deployments.{
  Use, deployed, asked, used, recorded, is_wanted, deployments_exact,
}

abbrev line_at : ℕ → String → LogRecord
line_at time message = record {
  timestamp = time;
  level = "ERROR";
  service = "auth-service";
  message = message;
  trace_id = none;
  metadata = end;
}

abbrev point_at : ℕ → MetricDataPoint
point_at time = record {
  timestamp = time;
  metric_name = "cpu";
  service = "auth-service";
  value = 250;
  labels = [];
}

abbrev batches : List Batch
batches =
    of_logs (line_at 2 "late" ∷ line_at 1 "early" ∷ [])
    ∷ of_metrics (point_at 5 ∷ [])
    ∷ of_logs (line_at 3 "last" ∷ [])
    ∷ []

abbrev two_newest : LogQuery
two_newest = record {
  service = some "auth-service";
  start_time = none;
  end_time = none;
  pattern = none;
  level = some "ERROR";
  limit = 2;
}

abbrev cpu : MetricQuery
cpu = record {
  metric_name = "cpu";
  service = none;
  start_time = some 4;
  end_time = none;
  limit = 0;
}

queries_exact_example :
    IsAnswer log_time 2
      (wants_log two_newest)
      (arrived_logs batches)
      (query_logs two_newest (filled batches))
    × IsAnswer metric_time 0
        (wants_metric cpu)
        (arrived_metrics batches)
        (query_metrics cpu (filled batches))
queries_exact_example = queries_exact batches two_newest cpu

limited_test : map log_time (last_n 2 (filled batches).logs) ≡ 2 ∷ 3 ∷ []
unfolding last_n add_logs add_metrics sort_by insert_all insert_by
limited_test = refl

abbrev rollout_at : ℕ → DeploymentEvent
rollout_at time = record {
  deployment_id = "d1";
  service = "auth-service";
  version = "v2";
  previous_version = "v1";
  timestamp = time;
  deployed_by = "ci";
  status = "SUCCESS";
  commit_sha = "abc";
  config_changes = end;
}

abbrev uses : List Use
uses =
    asked none 5 none ∷ deployed (rollout_at 9) ∷ asked none 1 none ∷ deployed (rollout_at 4) ∷ []

deployments_exact_example :
    (get_recent_deployments (some "auth-service") 1 (some 5) (used uses)).0
    ≡ take 1 (
        sort_by
          (descending deployment_time)
          (keep_if (is_wanted (some "auth-service") (some 5)) (recorded uses)))
deployments_exact_example = deployments_exact uses (some "auth-service") 1 (some 5)
