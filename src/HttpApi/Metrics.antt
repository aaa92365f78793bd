-- ===== src/HttpApi/Metrics.antt =====
-- services/api/internal/httpapi/metrics.go: the gauge of requests in flight, the counter and the
-- histogram by method, route and status, and the gauges of the database's pool.
pub mod Steps
mod Tests
use learning_garden_server.Prelude.{
  ℕ, suc, ◌+◌, Bool, not, ◌&&◌, Option, none, some, List, [], ◌∷◌, ◌++◌, map, Text, codes, text_eq,
  ◌==◌, is_empty, if◌then◌else◌,
}
use learning_garden_server.Prelude.Int.{ℤ, pos, negsuc}
use learning_garden_server.Strconv.{itoa}
use learning_garden_server.HttpApi.Middleware.{StatusRecorder, new_recorder, status_code}

-- The values of the labels `method`, `route` and `status`
pub record Labels : Type 0 where
  pub method : Text
  pub route : Text
  pub status : Text

unfoldable pub same_labels : Labels → Labels → Bool
same_labels a b = a.method == b.method && a.route == b.route && a.status == b.status

-- `requests_total`, `request_duration_seconds` and `requests_in_flight`. The histogram is its
-- observations, in nanoseconds; a gauge can be negative.
pub record Metrics : Type 0 where
  pub in_flight : ℤ
  pub requests : List (Labels × ℕ)
  pub durations : List (Labels × ℕ)

abbrev pub new_metrics : Metrics
new_metrics = record { in_flight = pos 0; requests = []; durations = [] }

-- `Gauge.Inc` and `Gauge.Dec`
unfoldable pub increment : ℤ → ℤ
increment (pos n) = pos (suc n)
increment (negsuc ℕ.zero) = pos 0
increment (negsuc (suc n)) = negsuc n

unfoldable pub decrement : ℤ → ℤ
decrement (pos ℕ.zero) = negsuc 0
decrement (pos (suc n)) = pos n
decrement (negsuc n) = negsuc (suc n)

-- `WithLabelValues(…).Inc()`: a new series starts at zero.
unfoldable pub count : Labels → List (Labels × ℕ) → List (Labels × ℕ)
count labels [] = (labels, 1) ∷ []
count labels ((l, n) ∷ series) =
    let rest = count labels series in
    if same_labels l labels then (l, n + 1) ∷ series else (l, n) ∷ rest

-- The pattern that chi has matched, if there is a route context.
unfoldable pub route_pattern : Option Text → Text
route_pattern none = codes "unknown"
route_pattern (some pattern) = if is_empty pattern then codes "unknown" else pattern

-- Before the next handler
unfoldable pub enter : Metrics → Metrics
unfolding increment
enter m = record m { in_flight = increment m.in_flight }

-- The deferred call, which runs whether the next handler returns or panics.
unfoldable pub leave : Metrics → Metrics
unfolding decrement
leave m = record m { in_flight = decrement m.in_flight }

abbrev pub labels_of : (method : Text) → Option Text → StatusRecorder → Labels
labels_of method pattern recorder = record {
  method = method;
  route = route_pattern pattern;
  status = itoa (status_code recorder);
}

-- After the next handler has returned
unfoldable pub observe :
    (method : Text) → (pattern : Option Text) → (elapsed : ℕ) → StatusRecorder → Metrics → Metrics
unfolding count
observe method pattern elapsed recorder m =
    let labels = labels_of method pattern recorder in
    record m {
      requests = count labels m.requests;
      durations = m.durations ++ (labels, elapsed) ∷ [];
    }

-- What the next handler did: it returned with the recorder as it left it, and the pattern of the
-- route and the time that it took, or it panicked.
pub data Next : Type 0 where
  returned : StatusRecorder → (pattern : Option Text) → (elapsed : ℕ) → Next
  panicked : Next

abbrev pub finish : (method : Text) → Next → Metrics → Metrics
finish method (returned recorder pattern elapsed) m =
    leave (observe method pattern elapsed recorder m)
finish method panicked m = leave m

-- The middleware around a handler, which may change the metrics while it runs.
unfoldable pub middleware : (method : Text) → (Metrics → Next × Metrics) → Metrics → Next × Metrics
unfolding enter leave observe
middleware method next m = let (result, m') = next (enter m) in (result, finish method result m')

-- `DBPoolStats`
pub record DbPoolStats : Type 0 where
  pub acquired_conns : ℕ
  pub idle_conns : ℕ
  pub total_conns : ℕ
  pub max_conns : ℕ
  pub acquire_count : ℕ
  pub canceled_acquire_count : ℕ
  pub empty_acquire_count : ℕ

-- A gauge with its name. It is read when the registry is; `none` is a nil `DBPoolStats`.
abbrev pub DbGauge : Type 0
DbGauge = Text × (Option DbPoolStats → ℕ)

abbrev pub read_stats : (DbPoolStats → ℕ) → Option DbPoolStats → ℕ
read_stats value none = 0
read_stats value (some stats) = value stats

unfoldable pub register_db_gauge : Text → (DbPoolStats → ℕ) → List DbGauge → List DbGauge
register_db_gauge name value registry = registry ++ (name, read_stats value) ∷ []

-- `has_stats` says whether the router is given a function for the statistics.
unfoldable pub register_db_pool_metrics : (has_stats : Bool) → List DbGauge → List DbGauge
unfolding register_db_gauge
register_db_pool_metrics has_stats registry =
    if not has_stats
    then registry
    else (let r1 = register_db_gauge (codes "acquired_conns") (λ s. s.acquired_conns) registry in
        let r2 = register_db_gauge (codes "idle_conns") (λ s. s.idle_conns) r1 in
        let r3 = register_db_gauge (codes "total_conns") (λ s. s.total_conns) r2 in
        let r4 = register_db_gauge (codes "max_conns") (λ s. s.max_conns) r3 in
        let r5 = register_db_gauge (codes "acquire_count") (λ s. s.acquire_count) r4 in
        let r6 =
          register_db_gauge (codes "canceled_acquire_count") (λ s. s.canceled_acquire_count) r5 in
        register_db_gauge (codes "empty_acquire_count") (λ s. s.empty_acquire_count) r6)
