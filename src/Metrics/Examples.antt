-- ===== src/Metrics/Examples.antt =====
-- A scrape of the load balancer of the examples, whose cache holds three items.
use go_load_balancer.Prelude.{◌≡◌, ◌%◌, ◌^◌, some, [], ◌∷◌}
use go_load_balancer.Metrics.{metrics}
use go_load_balancer.Metrics.Totals.{reported, totals, metrics_total}
use go_load_balancer.Samples.{env, started}

metrics_total_example :
    let lines = metrics env (λ pools. pools) (some 3) started in
    totals lines ≡ reported lines % 2 ^ 64 ∷ []
metrics_total_example = metrics_total env (λ pools. pools) (some 3) started
