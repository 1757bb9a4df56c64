-- ===== src/Prometheus.antt =====
-- The statistics in the format of Prometheus:
-- ngx_metric_module/src/ngx_http_vhost_traffic_status_display_prometheus.c, in the build without
-- statistics of caches. `ngx_sprintf` is a parameter, as for the output as JSON; the collectors of
-- ngx_metric_module/collector are parameters by what they print. `none` is behaviour that C leaves
-- undefined, or a loop that does not end.
pub mod Whole
pub mod Samples
pub mod Walk
pub mod Collected
pub mod Parts
pub mod Trees
use metrics_server_example.Base.{
  ℕ, zero, suc, ◌*◌, Bool, true, false, ◌||◌, Option, none, some, List, [], ◌∷◌, ◌++◌, map, ltb,
  ◌==◌, if◌then◌else◌, length,
}
use metrics_server_example.Base.Words.{add64}
use metrics_server_example.Text.{Bytes}
use metrics_server_example.Group.{upstream_no, upstream_ua, upstream_ug, upstream_fg}
use metrics_server_example.Key.{position_key}
use metrics_server_example.TimeQueue.{TimeQueue, Method, average, merge}
use metrics_server_example.Histogram.{Bucket, Histogram}
use metrics_server_example.Node.{Counters, Node}
use metrics_server_example.RbTree.{RbNode, Tree, sentinel, fork, name}
use metrics_server_example.Json.{Stats, add_counters, init_stats}
use metrics_server_example.Json.UpstreamGroup.{nogroups}
use metrics_server_example.Json.Whole.{Main}

-- The server zones, the filters and the upstreams have formats of their own.
pub data Family : Type 0 where
  of_server of_filter of_upstream : Family

-- `PROMETHEUS_FMT_MAIN`, and for a family `_S`, the counters, and the four parts of a histogram.
pub data Format : Type 0 where
  fmt_main : Format
  fmt_start fmt_counters fmt_bucket fmt_bucket_end fmt_sum fmt_count : Family → Format

-- What `ngx_sprintf` prints: a label, a number, or thousandths as a `double`.
pub data Sample : Type 0 where
  label : Bytes → Sample
  amount : ℕ → Sample
  seconds : ℕ → Sample

-- `ngx_sprintf` for the formats, and for a text that stands in the place of a format, the configuration
-- and the clock.
pub record Env : Type 0 where
  pub sprintf : Format → List Sample → Bytes
  pub as_format : Bytes → Option Bytes
  pub average_method : Method
  pub average_period : ℕ
  pub now : ℕ
  pub metrics_size : ℕ

-- `display_prometheus_set_main`
unfoldable pub set_main : Env → Main → Bytes
set_main env m = env.sprintf fmt_main (
    label m.hostname
    ∷ label m.version
    ∷ seconds m.start_msec
    ∷ map amount
        (m.accepted ∷ m.active ∷ m.handled ∷ m.reading ∷ m.requests ∷ m.waiting ∷ m.writing ∷ []))

-- Every sample behind its labels.
unfoldable pub labelled : List Sample → List Sample → List Sample
labelled ls [] = []
labelled ls (x ∷ xs) = ls ++ x ∷ labelled ls xs

-- The counters in the order of the formats.
unfoldable pub counter_samples : Counters → List Sample
counter_samples c =
    map amount (
      c.in_bytes ∷ c.out_bytes ∷ c.counter_1xx ∷ c.counter_2xx ∷ c.counter_3xx ∷ c.counter_4xx
      ∷ c.counter_5xx ∷ c.request_counter ∷ [])
    ++ seconds c.request_time_counter ∷ []

-- The loop over the buckets; `none` is a read behind the array.
unfoldable pub bucket_lines : Env → Family → List Sample → ℕ → List Bucket → Option Bytes
bucket_lines env f ls zero bs = some []
bucket_lines env f ls (suc n) [] = none
bucket_lines env f ls (suc n) (b ∷ bs) = elim (bucket_lines env f ls n bs) [
  | none ↦ none
  | some lines ↦
      some (env.sprintf (fmt_bucket f) (ls ++ seconds b.msec ∷ amount b.counter ∷ []) ++ lines)
]

-- A histogram, with the number of requests and the time: nothing where it has no buckets.
unfoldable pub histogram_lines : Env → Family → List Sample → Histogram → ℕ → ℕ → Option Bytes
unfolding bucket_lines
histogram_lines env f ls b requests time =
    if b.len == 0 then some [] else elim (bucket_lines env f ls b.len b.buckets) [
      | none ↦ none
      | some lines ↦ some (
          lines
          ++ env.sprintf (fmt_bucket_end f) (ls ++ amount requests ∷ [])
          ++ env.sprintf (fmt_sum f) (ls ++ seconds time ∷ [])
          ++ env.sprintf (fmt_count f) (ls ++ amount requests ∷ []))
    ]

-- The counters, the average and the histogram of a node of a server zone or of a filter, under labels.
unfoldable pub node_lines : Env → Family → List Sample → Node → Option (Bytes × Node)
unfolding average labelled counter_samples histogram_lines
node_lines env f ls v =
    elim (average v.request_times env.average_method env.now env.average_period) [
      | none ↦ none
      | some (avg, q) ↦
          let c = v.stat in
          elim (histogram_lines env f ls v.request_buckets c.request_counter
            c.request_time_counter) [
              | none ↦ none
              | some lines ↦ some (
                env.sprintf (fmt_counters f) (labelled ls (counter_samples c ++ seconds avg ∷ []))
                    ++ lines,
                record v { request_times = q },
              )
            ]
    ]

-- `display_prometheus_set_server_node`
unfoldable pub set_server_node : Env → Bytes → Node → Option (Bytes × Node)
unfolding position_key node_lines
set_server_node env key v = node_lines env of_server (label (position_key key 1).1 ∷ []) v

-- `display_prometheus_set_filter_node`
unfoldable pub set_filter_node : Env → Bytes → Node → Option (Bytes × Node)
unfolding position_key node_lines
set_filter_node env key v =
    node_lines env of_filter (label (position_key key 1).1 ∷ label (position_key key 2).1 ∷ []) v

-- The labels of an upstream server: its upstream and its own name.
unfoldable pub upstream_labels : ℕ → Bytes → List Sample
unfolding position_key
upstream_labels type key =
    if type == upstream_ug
    then label (position_key key 1).1 ∷ label (position_key key 2).1 ∷ []
    else (if type == upstream_ua
        then label nogroups ∷ label (position_key key 1).1 ∷ []
        else label key ∷ label key ∷ [])

abbrev pub request_text : Bytes
request_text = b'r' ∷ b'e' ∷ b'q' ∷ b'u' ∷ b'e' ∷ b's' ∷ b't' ∷ []

abbrev pub response_text : Bytes
response_text = b'r' ∷ b'e' ∷ b's' ∷ b'p' ∷ b'o' ∷ b'n' ∷ b's' ∷ b'e' ∷ []

-- The two histograms of an upstream server, of which the request's comes first.
unfoldable pub upstream_histograms : Env → List Sample → Node → Option Bytes
unfolding histogram_lines
upstream_histograms env ls v =
    let u = v.upstream in
    let n = v.stat.request_counter in
    elim (histogram_lines env of_upstream (label request_text ∷ ls) v.request_buckets n
      v.stat.request_time_counter) [
        | none ↦ none
        | some request ↦
            elim (histogram_lines env of_upstream (label response_text ∷ ls) u.response_buckets n
              u.response_time_counter) [ none ↦ none | some response ↦ some (request ++ response) ]
      ]

-- `display_prometheus_set_upstream_node`
unfoldable pub set_upstream_node : Env → Bytes → Node → Option (Bytes × Node)
unfolding average upstream_labels labelled counter_samples upstream_histograms
set_upstream_node env key v =
    let u = v.upstream in
    let ls = upstream_labels u.type key in
    elim (average v.request_times env.average_method env.now env.average_period) [
      | none ↦ none
      | some (request, q) ↦
          elim (average u.response_times env.average_method env.now env.average_period) [
            | none ↦ none
            | some (response, q') ↦ elim (upstream_histograms env ls v) [
              | none ↦ none
              | some lines ↦ some (
                env.sprintf (fmt_counters of_upstream) (
                      labelled ls (
                        counter_samples v.stat
                        ++ seconds request
                          ∷ seconds u.response_time_counter
                          ∷ seconds response
                          ∷ []))
                    ++ lines,
                record v { request_times = q; upstream = record u { response_times = q' } },
              )
            ]
          ]
    ]
