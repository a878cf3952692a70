-- ===== src/Simulator/Telemetry.antt =====
-- simulator/telemetry/store.py: `TelemetryStore`. Times are microseconds of one clock, and the values
-- of metrics thousandths of their unit. The limit of a query is not negative: for a negative one the
-- slice drops the oldest records in place of keeping the newest.
pub mod Queries
use ops_pilot_ai.Prelude.{
  ℕ, zero, suc, ◌+◌, ◌-◌, ◌*◌, ◌/◌, ◌%◌, ◌≤◌, ◌<◌, min, max, String, ◌≡◌, refl, sym, ap, ◌∙◌, ◌≢◌,
  ◌↔◌, ◌⊎◌, inl, inr, Bool, true, false, not, ◌&&◌, ◌||◌, Option, none, some, List, [], ◌∷◌, ◌++◌,
  map, arith, eq_iff, eq_refl, ltb, leb, nat_eqb, nat_eqb_iff, if◌then◌else◌, Eq, ◌==◌, ℕ_eq,
  String_eq, Bool-cases, Option-cases, length, take, drop, head?, last?, keep_if, find_if, any_of,
  All, length-append, length-drop, All-append, All-keep_if, elem, elem-append, nodup,
}
use ops_pilot_ai.Prelude.Assoc.{Assoc}
use ops_pilot_ai.Prelude.Sorting.{sort_by, ascending}
use ops_pilot_ai.Prelude.Text.{upper, lower, contains}
use ops_pilot_ai.Value.{Fields}

pub record LogRecord : Type 0 where
  pub timestamp : ℕ
  pub level : String
  pub service : String
  pub message : String
  pub trace_id : Option String
  pub metadata : Fields

pub record MetricDataPoint : Type 0 where
  pub timestamp : ℕ
  pub metric_name : String
  pub service : String
  pub value : ℕ
  pub labels : Assoc String

pub record TelemetryStore : Type 0 where
  pub logs : List LogRecord
  pub metrics : List MetricDataPoint

abbrev pub log_time : LogRecord → ℕ
log_time r = r.timestamp

abbrev pub metric_time : MetricDataPoint → ℕ
metric_time m = m.timestamp

abbrev pub empty_store : TelemetryStore
empty_store = record { logs = []; metrics = [] }

unfoldable pub clear : TelemetryStore → TelemetryStore
clear store = empty_store

unfoldable pub add_logs : List LogRecord → TelemetryStore → TelemetryStore
add_logs logs store = record store { logs = sort_by (ascending log_time) (store.logs ++ logs) }

unfoldable pub add_metrics : List MetricDataPoint → TelemetryStore → TelemetryStore
add_metrics metrics store = record store {
  metrics = sort_by (ascending metric_time) (store.metrics ++ metrics);
}

-- `if text: results = [r for r in results if test(text, r)]`; an empty text is no filter
unfoldable pub narrow {ℓ} : {A : Type ℓ} → Option String → (String → A → Bool) → List A → List A
narrow none test results = results
narrow (some t) test results = if t == "" then results else keep_if (test t) results

-- `if time: results = [r for r in results if test(time, r)]`
unfoldable pub narrow_time {ℓ} : {A : Type ℓ} → Option ℕ → (ℕ → A → Bool) → List A → List A
narrow_time none test results = results
narrow_time (some t) test results = keep_if (test t) results

-- `results[-limit:]`, which is the whole list for 0
unfoldable pub last_n {ℓ} : {A : Type ℓ} → ℕ → List A → List A
last_n limit results = if limit == 0 then results else drop (length results - limit) results

pub record LogQuery : Type 0 where
  pub service : Option String
  pub start_time : Option ℕ
  pub end_time : Option ℕ
  pub pattern : Option String
  pub level : Option String
  pub limit : ℕ

unfoldable pub query_logs : LogQuery → TelemetryStore → List LogRecord
unfolding narrow narrow_time last_n
query_logs q store =
    let of_service = narrow q.service (λ (t : String) (r : LogRecord). r.service == t) store.logs in
    let of_level = narrow q.level (λ (t : String) (r : LogRecord). r.level == upper t) of_service in
    let since = narrow_time q.start_time (λ (t : ℕ) (r : LogRecord). leb t r.timestamp) of_level in
    let until = narrow_time q.end_time (λ (t : ℕ) (r : LogRecord). leb r.timestamp t) since in
    let worded =
      narrow q.pattern (λ (t : String) (r : LogRecord). contains (lower t) (lower r.message))
        until in
    last_n q.limit worded

pub record MetricQuery : Type 0 where
  pub metric_name : String
  pub service : Option String
  pub start_time : Option ℕ
  pub end_time : Option ℕ
  pub limit : ℕ

unfoldable pub query_metrics : MetricQuery → TelemetryStore → List MetricDataPoint
unfolding narrow narrow_time last_n
query_metrics q store =
    let named = keep_if (λ (m : MetricDataPoint). m.metric_name == q.metric_name) store.metrics in
    let of_service =
      narrow q.service (λ (t : String) (m : MetricDataPoint). m.service == t) named in
    let since =
      narrow_time q.start_time (λ (t : ℕ) (m : MetricDataPoint). leb t m.timestamp) of_service in
    let until = narrow_time q.end_time (λ (t : ℕ) (m : MetricDataPoint). leb m.timestamp t) since in
    last_n q.limit until
