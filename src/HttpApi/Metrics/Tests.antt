-- ===== src/HttpApi/Metrics/Tests.antt =====
-- The metrics of two requests that overlap.
use learning_garden_server.Prelude.{◌≡◌, some, codes}
use learning_garden_server.Prelude.Int.{pos}
use learning_garden_server.HttpApi.Middleware.{new_recorder}
use learning_garden_server.HttpApi.Metrics.{Labels, Metrics, new_metrics, enter, finish, returned}
use learning_garden_server.HttpApi.Metrics.Steps.{
  Steps, started, enters, returns, total, count_of, observed, Steps-counts,
}

-- The first request returns while the second runs.
abbrev overlapping : Metrics
overlapping =
    finish (codes "GET") (returned new_recorder (some (codes "/healthz")) 3)
      (enter (enter new_metrics))

overlap : Steps 1 1 overlapping
overlap = returns (codes "GET") (some (codes "/healthz")) 3 new_recorder (enters (enters started))

Steps-counts_example :
    (overlapping.in_flight ≡ pos 1)
    × (total overlapping.requests ≡ 1)
    × ((l : Labels) → count_of l overlapping.requests ≡ observed l overlapping.durations)
Steps-counts_example = Steps-counts overlap
