-- ===== src/Simulator/Telemetry/Queries.antt =====
-- What the queries of a telemetry store find, whatever batches were added to it.
use ops_pilot_ai.Prelude.{
  keep_if-true, keep_if-keep_if, ℕ, zero, suc, ◌-◌, ◌<◌, min, String, ◌≡◌, refl, sym, ap, inl, inr,
  Bool, true, ◌&&◌, ◌||◌, Option, none, some, List, [], ◌∷◌, ◌++◌, arith, leb, if◌then◌else◌, ◌==◌,
  ℕ_eq, String_eq, Bool-cases, length, take, drop, keep_if, length-drop,
}
use ops_pilot_ai.Prelude.Sorting.{
  sort_by, insert_all, ascending, IsSorted, ascending-TotalOrder, sort_by-IsSorted, keep_if-sort_by,
  sort_by-append,
}
use ops_pilot_ai.Simulator.Telemetry.{
  LogRecord, MetricDataPoint, TelemetryStore, log_time, metric_time, empty_store, add_logs,
  add_metrics, narrow, narrow_time, last_n, LogQuery, MetricQuery, query_logs, query_metrics,
}
use ops_pilot_ai.Prelude.Text.{upper, lower, contains}

abbrev pub allows : Option String → (String → Bool) → Bool
allows none test = true
allows (some t) test = t == "" || test t

abbrev pub allows_time : Option ℕ → (ℕ → Bool) → Bool
allows_time none test = true
allows_time (some t) test = test t

-- What a query asks of a record.
abbrev pub wants_log : LogQuery → LogRecord → Bool
wants_log q r =
    allows q.service (λ t. r.service == t)
    && allows q.level (λ t. r.level == upper t)
    && allows_time q.start_time (λ t. leb t r.timestamp)
    && allows_time q.end_time (λ t. leb r.timestamp t)
    && allows q.pattern (λ t. contains (lower t) (lower r.message))

abbrev pub wants_metric : MetricQuery → MetricDataPoint → Bool
wants_metric q m =
    m.metric_name == q.metric_name
    && allows q.service (λ t. m.service == t)
    && allows_time q.start_time (λ t. leb t m.timestamp)
    && allows_time q.end_time (λ t. leb m.timestamp t)

module _ {ℓ} {A : Type ℓ} where
  narrow_lem :
      (o : Option String) (test : String → A → Bool) (xs : List A)
      → narrow o test xs ≡ keep_if (λ x. allows o (λ t. test t x)) xs
  unfolding narrow
  narrow_lem none test xs = sym (keep_if-true xs)
  narrow_lem (some t) test xs = elim (Bool-cases (t == "")) [
    | inl e ↦ rw e (sym (keep_if-true xs))
    | inr e ↦ rw e refl
  ]

  narrow_time_lem :
      (o : Option ℕ) (test : ℕ → A → Bool) (xs : List A)
      → narrow_time o test xs ≡ keep_if (λ x. allows_time o (λ t. test t x)) xs
  unfolding narrow_time
  narrow_time_lem none test xs = sym (keep_if-true xs)
  narrow_time_lem (some t) test xs = refl

  take-drop : (n : ℕ) (xs : List A) → take n xs ++ drop n xs ≡ xs
  take-drop zero xs = refl
  take-drop (suc n) [] = refl
  take-drop (suc n) (x ∷ xs) = ap (λ l. x ∷ l) (take-drop n xs)

  -- What the slice of a query drops, and how much it keeps.
  abbrev older : ℕ → List A → List A
  older limit xs = if limit == 0 then [] else take (length xs - limit) xs

  older-last_n : (limit : ℕ) (xs : List A) → older limit xs ++ last_n limit xs ≡ xs
  unfolding last_n
  older-last_n limit xs = elim (Bool-cases (limit == 0)) [
    | inl e ↦ rw e refl
    | inr e ↦ rw e (take-drop (length xs - limit) xs)
  ]

  length-last_n :
      (limit : ℕ) (xs : List A) → 0 < limit → length (last_n limit xs) ≡ min limit (length xs)
  unfolding last_n
  length-last_n limit xs h = ground (arith, length-drop (length xs - limit) xs)

  -- The newest part of a list, as long as the limit allows; all of it for the limit 0.
  abbrev pub IsNewest : ℕ → List A → List A → Type ℓ
  IsNewest limit all part =
      ((before : List A) × (before ++ part ≡ all))
      × (0 < limit → length part ≡ min limit (length all))
      × (limit ≡ 0 → part ≡ all)

  last_n-IsNewest : (limit : ℕ) (xs : List A) → IsNewest limit xs (last_n limit xs)
  unfolding last_n
  last_n-IsNewest limit xs =
      ((older limit xs, older-last_n limit xs), length-last_n limit xs, λ h. rw h refl)

  drop-IsSorted :
      (before : A → A → Bool) (n : ℕ) (xs : List A)
      → IsSorted before xs
      → IsSorted before (drop n xs)
  drop-IsSorted before zero xs h = h
  drop-IsSorted before (suc n) [] h = h
  drop-IsSorted before (suc n) (x ∷ xs) h = drop-IsSorted before n xs h.1

  last_n-IsSorted :
      (before : A → A → Bool) (n : ℕ) (xs : List A)
      → IsSorted before xs
      → IsSorted before (last_n n xs)
  unfolding last_n
  last_n-IsSorted before n xs h = elim (Bool-cases (n == 0)) [
    | inl e ↦ rw e h
    | inr e ↦ rw e (drop-IsSorted before (length xs - n) xs h)
  ]

  -- In order of time, and the newest part of the wanted items.
  abbrev pub IsAnswer : (A → ℕ) → ℕ → (A → Bool) → List A → List A → Type ℓ
  IsAnswer key limit wants arrived answer =
      IsSorted (ascending key) answer
      × IsNewest limit (sort_by (ascending key) (keep_if wants arrived)) answer

  last_n-IsAnswer :
      (key : A → ℕ) (limit : ℕ) (wants : A → Bool) (arrived : List A)
      → IsAnswer key limit wants arrived
          (last_n limit (keep_if wants (sort_by (ascending key) arrived)))
  last_n-IsAnswer key limit wants arrived =
      let sorted = sort_by-IsSorted (ascending-TotalOrder key) (keep_if wants arrived) in
      rw (keep_if-sort_by (ascending-TotalOrder key) wants arrived) (
        last_n-IsSorted (ascending key) limit (sort_by (ascending key) (keep_if wants arrived))
            sorted,
        last_n-IsNewest limit (sort_by (ascending key) (keep_if wants arrived)),
      )

-- A batch that is added to a store.
pub data Batch : Type 0 where
  of_logs : List LogRecord → Batch
  of_metrics : List MetricDataPoint → Batch

abbrev pub add : Batch → TelemetryStore → TelemetryStore
add (of_logs logs) store = add_logs logs store
add (of_metrics metrics) store = add_metrics metrics store

-- The store after batches, the last of which stands first.
abbrev pub filled : List Batch → TelemetryStore
filled [] = empty_store
filled (batch ∷ earlier) = add batch (filled earlier)

-- What arrived, in order.
abbrev pub arrived_logs : List Batch → List LogRecord
arrived_logs [] = []
arrived_logs (of_logs logs ∷ earlier) = arrived_logs earlier ++ logs
arrived_logs (of_metrics metrics ∷ earlier) = arrived_logs earlier

abbrev pub arrived_metrics : List Batch → List MetricDataPoint
arrived_metrics [] = []
arrived_metrics (of_logs logs ∷ earlier) = arrived_metrics earlier
arrived_metrics (of_metrics metrics ∷ earlier) = arrived_metrics earlier ++ metrics

filled-logs :
    (batches : List Batch)
    → (filled batches).logs ≡ sort_by (ascending log_time) (arrived_logs batches)
unfolding add_logs add_metrics
filled-logs [] = unfold sort_by insert_all in refl
filled-logs (of_logs logs ∷ earlier) =
    rw (filled-logs earlier)
      (sort_by-append (ascending-TotalOrder log_time) (arrived_logs earlier) logs)
filled-logs (of_metrics metrics ∷ earlier) = filled-logs earlier

filled-metrics :
    (batches : List Batch)
    → (filled batches).metrics ≡ sort_by (ascending metric_time) (arrived_metrics batches)
unfolding add_logs add_metrics
filled-metrics [] = unfold sort_by insert_all in refl
filled-metrics (of_logs logs ∷ earlier) = filled-metrics earlier
filled-metrics (of_metrics metrics ∷ earlier) =
    rw (filled-metrics earlier)
      (sort_by-append (ascending-TotalOrder metric_time) (arrived_metrics earlier) metrics)

query_logs_lem :
    (q : LogQuery) (store : TelemetryStore)
    → query_logs q store ≡ last_n q.limit (keep_if (wants_log q) store.logs)
unfolding query_logs
query_logs_lem q store = simp (narrow_lem, narrow_time_lem, keep_if-keep_if)

query_metrics_lem :
    (q : MetricQuery) (store : TelemetryStore)
    → query_metrics q store ≡ last_n q.limit (keep_if (wants_metric q) store.metrics)
unfolding query_metrics
query_metrics_lem q store = simp (narrow_lem, narrow_time_lem, keep_if-keep_if)

-- Whatever batches were added to an empty store, a query of the logs or of the metrics returns the
-- newest part, as long as its limit allows (all, for the limit 0), of the records that match each of
-- its filters, each as often as it was added, in order of time, and those of one time in the order of
-- their arrival.
pub queries_exact :
    (batches : List Batch) (q : LogQuery) (m : MetricQuery)
    → IsAnswer log_time q.limit (wants_log q) (arrived_logs batches) (query_logs q (filled batches))
      × IsAnswer metric_time m.limit
          (wants_metric m)
          (arrived_metrics batches)
          (query_metrics m (filled batches))
queries_exact batches q m = (
  rw (query_logs_lem q (filled batches), filled-logs batches)
      (last_n-IsAnswer log_time q.limit (wants_log q) (arrived_logs batches)),
  rw (query_metrics_lem m (filled batches), filled-metrics batches)
      (last_n-IsAnswer metric_time m.limit (wants_metric m) (arrived_metrics batches)),
)
