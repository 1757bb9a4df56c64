-- ===== src/Tests/Metrics.antt =====
-- The output in the format of Prometheus.
use metrics_server_example.Base.{◌≡◌, refl, arith, true, false, some, List, [], ◌∷◌, ◌++◌, All}
use metrics_server_example.TimeQueue.{arithmetic}
use metrics_server_example.TimeQueue.Window.{init-IsFull}
use metrics_server_example.Filter.Walk.{preorder}
use metrics_server_example.Json.{Stats}
use metrics_server_example.Prometheus.{Env, set_main, fmt_start, of_server, of_filter, of_upstream}
use metrics_server_example.Prometheus.Whole.{Collector, prometheus_set}
use metrics_server_example.Prometheus.Samples.{IsShown}
use metrics_server_example.Prometheus.Collected.{asked, fitting, IsPlain}
use metrics_server_example.Prometheus.Parts.{
  servers, filters, upstreams, part_text, prometheus_set_lem,
}
use metrics_server_example.Tests.Displays.{nothing, tree, stats}
use metrics_server_example.Tests.Upstreams.{main}

abbrev pub env : Env
env = record {
  sprintf = λ f xs. b'x' ∷ [];
  as_format = λ text. some text;
  average_method = arithmetic;
  average_period = 0;
  now = 1000;
  metrics_size = 4;
}

-- The third text does not fit beside the first.
abbrev pub collectors : List Collector
collectors =
    record { enabled = true; memory = true; text = b'a' ∷ b'b' ∷ [] }
    ∷ record { enabled = false; memory = false; text = [] }
    ∷ record { enabled = true; memory = true; text = b'c' ∷ b'd' ∷ b'e' ∷ [] }
    ∷ []

pub tree-IsShown : All IsShown (preorder tree)
unfolding preorder
tree-IsShown = (
  record {
    request_times = init-IsFull nothing;
    request_buckets = omega arith;
    response_times = init-IsFull nothing;
    response_buckets = omega arith;
  },
  (
    record {
      request_times = init-IsFull nothing;
      request_buckets = omega arith;
      response_times = init-IsFull nothing;
      response_buckets = omega arith;
    },
    tt,
  ),
)

pub plain : All (λ c. c.enabled ≡ true → IsPlain env c) collectors
plain = (
  λ e. record { memory = refl; short = omega arith; plain = refl },
  (λ e. ground (arith, e), (λ e. record { memory = refl; short = omega arith; plain = refl }, tt)),
)

prometheus_set_lem_example :
    (s' : Stats) × (prometheus_set env main collectors (tree, stats)
      ≡ some (
        tree,
        (
          set_main env main
              ++ env.sprintf (fmt_start of_server) []
              ++ servers env tree
              ++ part_text env of_filter (filters env tree)
              ++ part_text env of_upstream (upstreams env tree)
              ++ fitting env.metrics_size 0 (asked collectors),
          s',
        ),
      ))
prometheus_set_lem_example =
    prometheus_set_lem env main collectors tree stats tree-IsShown (omega arith) plain
