-- ===== src/Prometheus/Samples.antt =====
-- What `display_prometheus_set_server_node`, `_filter_node` and `_upstream_node` of
-- ngx_metric_module/src/ngx_http_vhost_traffic_status_display_prometheus.c print of a node.
use metrics_server_example.Base.{
  ℕ, zero, suc, ◌≡◌, ◌≤◌, refl, false, some, List, [], ◌∷◌, ◌++◌, arith, ◌==◌, length, take,
}
use metrics_server_example.Text.{Bytes}
use metrics_server_example.Key.{position_key}
use metrics_server_example.TimeQueue.Window.{IsFull}
use metrics_server_example.Histogram.{Bucket, Histogram}
use metrics_server_example.Node.{Node}
use metrics_server_example.RbTree.{RbNode, name}
use metrics_server_example.TimeQueue.Average.{mean, average-mean}
use metrics_server_example.Prometheus.{
  Family, of_server, of_filter, of_upstream, fmt_counters, fmt_bucket, fmt_bucket_end, fmt_sum,
  fmt_count, Sample, label, amount, seconds, Env, labelled, counter_samples, bucket_lines,
  histogram_lines, node_lines, set_server_node, set_filter_node, upstream_labels, request_text,
  response_text, upstream_histograms, set_upstream_node,
}

-- A line of a histogram for each bucket.
unfoldable pub buckets_text : Env → Family → List Sample → List Bucket → Bytes
buckets_text env f ls [] = []
buckets_text env f ls (b ∷ bs) =
    env.sprintf (fmt_bucket f) (ls ++ seconds b.msec ∷ amount b.counter ∷ [])
    ++ buckets_text env f ls bs

-- The text of a histogram of the buckets: they, their end, the time and the number.
unfoldable pub histogram_text : Env → Family → List Sample → List Bucket → ℕ → ℕ → Bytes
unfolding buckets_text
histogram_text env f ls [] requests time = []
histogram_text env f ls (b ∷ bs) requests time =
    buckets_text env f ls (b ∷ bs)
    ++ env.sprintf (fmt_bucket_end f) (ls ++ amount requests ∷ [])
    ++ env.sprintf (fmt_sum f) (ls ++ seconds time ∷ [])
    ++ env.sprintf (fmt_count f) (ls ++ amount requests ∷ [])

abbrev pub buckets_of : Histogram → List Bucket
buckets_of b = take b.len b.buckets

bucket_lines-buckets_text :
    (env : Env) (f : Family) (ls : List Sample) (n : ℕ) (bs : List Bucket)
    → n ≤ length bs
    → bucket_lines env f ls n bs ≡ some (buckets_text env f ls (take n bs))
unfolding bucket_lines buckets_text
bucket_lines-buckets_text env f ls zero bs h = refl
bucket_lines-buckets_text env f ls (suc n) [] h = absurd (omega (arith, h))
bucket_lines-buckets_text env f ls (suc n) (b ∷ bs) h =
    rw (bucket_lines-buckets_text env f ls n bs (omega (arith, h))) refl

histogram_lines-take :
    (env : Env) (f : Family) (ls : List Sample) (n : ℕ) (bs : List Bucket) (requests time : ℕ)
    → n ≤ length bs
    → histogram_lines env f ls (record { len = n; buckets = bs }) requests time
      ≡ some (histogram_text env f ls (take n bs) requests time)
unfolding histogram_lines histogram_text
histogram_lines-take env f ls zero bs requests time h = refl
histogram_lines-take env f ls (suc n) [] requests time h = absurd (omega (arith, h))
histogram_lines-take env f ls (suc n) (c ∷ cs) requests time h =
    let counted : (suc n == 0) ≡ false = ground arith in
    rw (counted, bucket_lines-buckets_text env f ls (suc n) (c ∷ cs) h) refl

histogram_lines-histogram_text :
    (env : Env) (f : Family) (ls : List Sample) (b : Histogram) (requests time : ℕ)
    → b.len ≤ length b.buckets
    → histogram_lines env f ls b requests time
      ≡ some (histogram_text env f ls (buckets_of b) requests time)
histogram_lines-histogram_text env f ls b requests time h =
    histogram_lines-take env f ls b.len b.buckets requests time h

-- A node whose queues are full and whose histograms lie in their places.
pub record IsShown (m : RbNode) : Type 0 where
  pub request_times : IsFull m.vtsn.request_times
  pub request_buckets : m.vtsn.request_buckets.len ≤ length m.vtsn.request_buckets.buckets
  pub response_times : IsFull m.vtsn.upstream.response_times
  pub response_buckets :
      m.vtsn.upstream.response_buckets.len ≤ length m.vtsn.upstream.response_buckets.buckets

module _ (env : Env) where
  -- The text of a server zone or a filter.
  unfoldable pub node_text : Family → List Sample → Node → Bytes
  unfolding labelled counter_samples histogram_text mean
  node_text f ls v =
      env.sprintf (fmt_counters f) (
        labelled ls (
          counter_samples v.stat
          ++ seconds (mean env.average_method env.now env.average_period v.request_times) ∷ []))
      ++ histogram_text env f ls (buckets_of v.request_buckets) v.stat.request_counter
          v.stat.request_time_counter

  node_lines-node_text :
      (f : Family) (ls : List Sample) (m : RbNode)
      → IsShown m
      → node_lines env f ls m.vtsn ≡ some (node_text f ls m.vtsn, m.vtsn)
  unfolding node_lines node_text
  node_lines-node_text f ls m shown =
      rw
        (
          node_lines,
          average-mean m.vtsn.request_times env.average_method env.now env.average_period
              shown.request_times,
          histogram_lines-histogram_text env f ls m.vtsn.request_buckets m.vtsn.stat.request_counter
              m.vtsn.stat.request_time_counter shown.request_buckets,
        )
        refl

  -- The text of a server zone, under the name in its key.
  unfoldable pub server_text : RbNode → Bytes
  unfolding node_text
  server_text m = node_text of_server (label (position_key (name m) 1).1 ∷ []) m.vtsn

  -- The text of a filter, under its group and its name.
  unfoldable pub filter_text : RbNode → Bytes
  unfolding node_text
  filter_text m =
      node_text of_filter
        (label (position_key (name m) 1).1 ∷ label (position_key (name m) 2).1 ∷ []) m.vtsn

  -- The text of an upstream server, under its upstream and its own name, with both its histograms.
  unfoldable pub upstream_text : RbNode → Bytes
  unfolding upstream_labels labelled counter_samples histogram_text mean
  upstream_text m =
      let v = m.vtsn in
      let u = v.upstream in
      let ls = upstream_labels u.type (name m) in
      env.sprintf (fmt_counters of_upstream) (
        labelled ls (
          counter_samples v.stat
          ++ seconds (mean env.average_method env.now env.average_period v.request_times)
            ∷ seconds u.response_time_counter
            ∷ seconds (mean env.average_method env.now env.average_period u.response_times)
            ∷ []))
      ++ (histogram_text env of_upstream (label request_text ∷ ls) (buckets_of v.request_buckets)
            v.stat.request_counter v.stat.request_time_counter
          ++ histogram_text env of_upstream (label response_text ∷ ls)
              (buckets_of u.response_buckets) v.stat.request_counter u.response_time_counter)

  pub set_server_node-server_text :
      (m : RbNode) → IsShown m → set_server_node env (name m) m.vtsn ≡ some (server_text m, m.vtsn)
  unfolding set_server_node server_text
  set_server_node-server_text m shown =
      node_lines-node_text of_server (label (position_key (name m) 1).1 ∷ []) m shown

  pub set_filter_node-filter_text :
      (m : RbNode) → IsShown m → set_filter_node env (name m) m.vtsn ≡ some (filter_text m, m.vtsn)
  unfolding set_filter_node filter_text
  set_filter_node-filter_text m shown =
      node_lines-node_text of_filter
        (label (position_key (name m) 1).1 ∷ label (position_key (name m) 2).1 ∷ []) m shown

  pub set_upstream_node-upstream_text :
      (m : RbNode)
      → IsShown m
      → set_upstream_node env (name m) m.vtsn ≡ some (upstream_text m, m.vtsn)
  unfolding set_upstream_node upstream_text upstream_histograms
  set_upstream_node-upstream_text m shown =
      let v = m.vtsn in
      let u = v.upstream in
      let ls = upstream_labels u.type (name m) in
      rw
        (
          set_upstream_node,
          average-mean v.request_times env.average_method env.now env.average_period
              shown.request_times,
          average-mean u.response_times env.average_method env.now env.average_period
              shown.response_times,
          upstream_histograms,
          histogram_lines-histogram_text env of_upstream (label request_text ∷ ls) v.request_buckets
              v.stat.request_counter v.stat.request_time_counter shown.request_buckets,
          histogram_lines-histogram_text env of_upstream (label response_text ∷ ls)
              u.response_buckets v.stat.request_counter u.response_time_counter
              shown.response_buckets,
        )
        refl
