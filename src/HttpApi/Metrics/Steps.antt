-- ===== src/HttpApi/Metrics/Steps.antt =====
-- Requests that run side by side through the middleware of
-- services/api/internal/httpapi/metrics.go.
use learning_garden_server.Prelude.{
  ℕ, suc, ◌+◌, ◌≡◌, refl, Option, List, [], ◌∷◌, ◌++◌, arith, Text, text_eq, text_beq_iff,
  if◌then◌else◌, ap, ◌∙◌, true, Bool-cases, inl, inr,
}
use learning_garden_server.Prelude.Int.{ℤ, pos, negsuc}
use learning_garden_server.HttpApi.Middleware.{StatusRecorder}
use learning_garden_server.HttpApi.Metrics.{
  Labels, same_labels, labels_of, Metrics, new_metrics, increment, decrement, count, enter, leave,
  observe, finish, Next, returned, panicked, middleware,
}

-- The metrics after some steps of requests, of which `running` have entered and not left, and
-- `done` have returned. A request's steps are its entrance and its end.
pub data Steps : (running done : ℕ) → Metrics → Type 0 where
  started : Steps 0 0 new_metrics
  enters :
      {running done : ℕ} {m : Metrics} → Steps running done m → Steps (suc running) done (enter m)
  returns :
      {running done : ℕ} {m : Metrics} (method : Text) (pattern : Option Text) (elapsed : ℕ)
      (recorder : StatusRecorder)
      → Steps (suc running) done m
      → Steps running (suc done) (finish method (returned recorder pattern elapsed) m)
  breaks :
      {running done : ℕ} {m : Metrics} (method : Text)
      → Steps (suc running) done m
      → Steps running done (finish method panicked m)

-- The counts of all series
abbrev pub total : List (Labels × ℕ) → ℕ
total [] = 0
total ((l, n) ∷ series) = n + total series

-- The count of a series, 0 where there is none
abbrev pub count_of : Labels → List (Labels × ℕ) → ℕ
count_of labels [] = 0
count_of labels ((l, n) ∷ series) =
    let rest = count_of labels series in if same_labels l labels then n else rest

-- How many observations have the labels
abbrev pub observed : Labels → List (Labels × ℕ) → ℕ
observed labels [] = 0
observed labels ((l, n) ∷ durations) =
    let rest = observed labels durations in if same_labels l labels then 1 + rest else rest

same_labels_trans : (a b c : Labels) → same_labels a b ≡ true → same_labels a c ≡ same_labels b c
unfolding same_labels
same_labels_trans a b c h = ground (
  arith,
  text_beq_iff a.method b.method,
  text_beq_iff a.route b.route,
  text_beq_iff a.status b.status,
)

same_labels_refl : (a : Labels) → same_labels a a ≡ true
unfolding same_labels
same_labels_refl a = ground (
  arith,
  text_beq_iff a.method a.method,
  text_beq_iff a.route a.route,
  text_beq_iff a.status a.status,
)

pub total-count :
    (labels : Labels) (series : List (Labels × ℕ)) → total (count labels series) ≡ total series + 1
unfolding count
total-count labels [] = refl
total-count labels ((l, n) ∷ series) = ground (arith, total-count labels series)

pub count_of-count :
    (labels l : Labels) (series : List (Labels × ℕ))
    → count_of l (count labels series)
      ≡ (if same_labels labels l then count_of l series + 1 else count_of l series)
unfolding count
count_of-count labels l [] = ground arith
count_of-count labels l ((k, n) ∷ series) = elim (Bool-cases (same_labels k labels)) [
  | inl same ↦ ground (arith, same_labels_trans k labels l same)
  | inr other ↦ ground (
    arith,
    count_of-count labels l series,
    same_labels_trans k l labels,
    same_labels_trans labels l labels,
    same_labels_refl labels,
  )
]

observed-snoc :
    (labels l : Labels) (n : ℕ) (durations : List (Labels × ℕ))
    → observed l (durations ++ (labels, n) ∷ [])
      ≡ (if same_labels labels l then observed l durations + 1 else observed l durations)
observed-snoc labels l n [] = ground arith
observed-snoc labels l n ((k, m) ∷ durations) = ground (arith, observed-snoc labels l n durations)

pub decrement-increment : (n : ℤ) → decrement (increment n) ≡ n
unfolding increment decrement
decrement-increment (pos n) = refl
decrement-increment (negsuc ℕ.zero) = refl
decrement-increment (negsuc (suc n)) = refl

Steps-started :
    {running done : ℕ} {m : Metrics}
    → Steps running done m
    → (m.in_flight ≡ pos running) × (total m.requests ≡ done)
unfolding enter leave observe increment decrement
Steps-started started = (refl, refl)
Steps-started (enters s) = let (gauge, counts) = Steps-started s in (rw gauge refl, counts)
Steps-started (returns {m} method pattern elapsed recorder s) =
    let (gauge, counts) = Steps-started s in
    (rw gauge refl, total-count _ m.requests ∙ omega (arith, counts))
Steps-started (breaks method s) = let (gauge, counts) = Steps-started s in (rw gauge refl, counts)

Steps-observed :
    {running done : ℕ} {m : Metrics}
    → Steps running done m
    → (l : Labels) → count_of l m.requests ≡ observed l m.durations
unfolding enter leave observe
Steps-observed started l = refl
Steps-observed (enters s) l = Steps-observed s l
Steps-observed (returns {m} method pattern elapsed recorder s) l = ground (
  arith,
  Steps-observed s l,
  count_of-count (labels_of method pattern recorder) l m.requests,
  observed-snoc (labels_of method pattern recorder) l elapsed m.durations,
)
Steps-observed (breaks method s) l = Steps-observed s l

-- Whatever requests have entered, returned and broken off: the gauge is the number of those that
-- run, the counters of all series together are the number of those that have returned, and the
-- counter of each series is the number of the histogram's observations with its labels.
pub Steps-counts :
    {running done : ℕ} {m : Metrics}
    → Steps running done m
    → (m.in_flight ≡ pos running)
      × (total m.requests ≡ done)
      × ((l : Labels) → count_of l m.requests ≡ observed l m.durations)
Steps-counts s = let (gauge, counts) = Steps-started s in (gauge, counts, Steps-observed s)

finish_gauge :
    (method : Text) (result : Next) (m : Metrics)
    → (finish method result m).in_flight ≡ decrement m.in_flight
unfolding leave observe
finish_gauge method (returned recorder pattern elapsed) m = refl
finish_gauge method panicked m = refl

-- A request whose handler leaves the gauge as it is leaves it as it was, whether it returns or
-- panics.
pub middleware_gauge :
    (method : Text) (next : Metrics → Next × Metrics) (m : Metrics)
    → (next (enter m)).1.in_flight ≡ (enter m).in_flight
    → (middleware method next m).1.in_flight ≡ m.in_flight
unfolding middleware enter
middleware_gauge method next m h =
    finish_gauge method (next (enter m)).0 (next (enter m)).1
    ∙ ap decrement h
    ∙ decrement-increment m.in_flight
