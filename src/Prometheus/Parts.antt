-- ===== src/Prometheus/Parts.antt =====
-- What `display_prometheus_set` of
-- ngx_metric_module/src/ngx_http_vhost_traffic_status_display_prometheus.c prints, part by part.
use mathlib.Core.Path.{subst}
use metrics_server_example.Base.{
  Option, ◌*◌, ◌≡◌, ◌≤◌, refl, ap, sym, ◌∙◌, true, false, none, some, List, [], ◌∷◌, ◌++◌,
  append_assoc, append-nil, arith, ◌==◌, length, length-append, All,
}
use metrics_server_example.Base.Words.{u64_mod}
use metrics_server_example.Text.{Bytes}
use metrics_server_example.TimeQueue.Window.{IsFull, init-IsFull}
use metrics_server_example.TimeQueue.Merge.{merge-IsFull}
use metrics_server_example.Node.{Node}
use metrics_server_example.RbTree.{RbNode, Tree}
use metrics_server_example.Filter.Walk.{preorder}
use metrics_server_example.Control.Selected.{chosen}
use metrics_server_example.Json.{Stats, add_counters, init_stats}
use metrics_server_example.Json.Whole.{Main}
use metrics_server_example.Prometheus.{
  Family, of_server, of_filter, of_upstream, fmt_start, Env, set_main, set_server_node,
  set_filter_node, set_upstream_node,
}
use metrics_server_example.Prometheus.Trees.{
  add_sum, no_sum, is_server, is_filter, is_upstream, set_server, set_filter, set_upstream,
}
use metrics_server_example.Prometheus.Whole.{part, set_part, Collector, prometheus_set}
use metrics_server_example.Prometheus.Samples.{
  IsShown, server_text, filter_text, upstream_text, set_server_node-server_text,
  set_filter_node-filter_text, set_upstream_node-upstream_text,
}
use metrics_server_example.Prometheus.Walk.{texts, taken, Steps, after, set_tree-after}
use metrics_server_example.Prometheus.Collected.{asked, fitting, IsPlain, collect-fitting}

-- The sum with a node, where the queues can be merged.
unfoldable merged : Env → Node → Stats → Stats
unfolding add_sum
merged env v s = elim (add_sum env v s) [ none ↦ s | some s' ↦ s' ]

add_sum-merged :
    (env : Env) (v : Node) (s : Stats)
    → IsFull s.request_times
    → (add_sum env v s ≡ some (merged env v s)) × IsFull (merged env v s).request_times
add_sum-merged env v s full =
    let (q, run, kept) =
      merge-IsFull s.request_times v.request_times env.now env.average_period full in
    let s' : Stats = record s { stat = add_counters s.stat v.stat; request_times = q } in
    let whole : add_sum env v s ≡ some s' = unfold add_sum in rw (add_sum, run) refl in
    let same : merged env v s ≡ s' =
      unfold merged in ap (λ r. elim r [ none ↦ s | some x ↦ x ]) whole in
    (whole ∙ ap some (sym same), subst (λ (x : Stats). IsFull x.request_times) (sym same) kept)

abbrev FullSum : Stats → Type 0
FullSum s = IsFull s.request_times

server-Steps :
    (env : Env)
    → Steps is_server
        (set_server_node env)
        (add_sum env)
        IsShown
        FullSum
        (server_text env)
        (merged env)
server-Steps env = record { line = set_server_node-server_text env; added = add_sum-merged env }

filter-Steps :
    (env : Env)
    → Steps is_filter (set_filter_node env) no_sum IsShown FullSum (filter_text env) (λ v s. s)
filter-Steps env = record {
  line = set_filter_node-filter_text env;
  added = λ v s full. (refl, full);
}

upstream-Steps :
    (env : Env)
    → Steps is_upstream
        (set_upstream_node env)
        no_sum
        IsShown
        FullSum
        (upstream_text env)
        (λ v s. s)
upstream-Steps env = record {
  line = set_upstream_node-upstream_text env;
  added = λ v s full. (refl, full);
}

-- A part of the output with its start; nothing where it has no entries.
unfoldable pub part_text : Env → Family → Bytes → Bytes
part_text env f [] = []
part_text env f (b ∷ bs) = env.sprintf (fmt_start f) [] ++ b ∷ bs

part-part_text :
    (env : Env) (f : Family) (out entries : Bytes)
    → part out
        (out ++ env.sprintf (fmt_start f) [])
        (out ++ env.sprintf (fmt_start f) [] ++ entries)
      ≡ out ++ part_text env f entries
unfolding part_text
part-part_text env f out [] =
    let s = out ++ env.sprintf (fmt_start f) [] in
    let same : (length s == length (s ++ [])) ≡ true = ground (arith, ap length (append-nil s)) in
    rw same (sym (append-nil out))
part-part_text env f out (b ∷ bs) =
    let s = out ++ env.sprintf (fmt_start f) [] in
    let more : (length s == length (s ++ b ∷ bs)) ≡ false =
      ground (arith, length-append s (b ∷ bs)) in
    rw more (append_assoc out (env.sprintf (fmt_start f) []) (b ∷ bs))

set_part-part_text :
    (env : Env) (f : Family) (walk : Tree → Bytes × Stats → Option (Tree × (Bytes × Stats)))
    (t : Tree) (out entries : Bytes) (s : Stats)
    → walk t (out ++ env.sprintf (fmt_start f) [], s)
      ≡ some (t, (out ++ env.sprintf (fmt_start f) [] ++ entries, s))
    → set_part env f walk t (out, s) ≡ some (t, (out ++ part_text env f entries, s))
unfolding set_part
set_part-part_text env f walk t out entries s run =
    rw (set_part, run, part-part_text env f out entries) refl

taken-same : (ms : List RbNode) (s : Stats) → taken (λ v s'. s') ms s ≡ s
unfolding taken
taken-same [] s = refl
taken-same (m ∷ ms) s = taken-same ms s

-- The entries of the server zones, of the filters and of the upstreams.
abbrev pub servers : Env → Tree → Bytes
servers env t = texts (server_text env) (chosen is_server (preorder t))

abbrev pub filters : Env → Tree → Bytes
filters env t = texts (filter_text env) (chosen is_filter (preorder t))

abbrev pub upstreams : Env → Tree → Bytes
upstreams env t = texts (upstream_text env) (chosen is_upstream (preorder t))

module _ (env : Env) (main : Main) (cs : List Collector) (t : Tree) (s : Stats)
    (shown : All IsShown (preorder t)) (word : env.metrics_size * 2 ≤ u64_mod)
    (plain : All (λ c. c.enabled ≡ true → IsPlain env c) cs) where
  filter_part :
      (out : Bytes) (s' : Stats)
      → FullSum s'
      → set_part env of_filter (set_filter env) t (out, s')
        ≡ some (t, (out ++ part_text env of_filter (filters env t), s'))
  unfolding set_filter after
  filter_part out s' full =
      set_part-part_text env of_filter (set_filter env) t out (filters env t) s' (
        (set_tree-after is_filter (set_filter_node env) no_sum IsShown FullSum (filter_text env)
          (λ v x. x) (filter-Steps env) t (out ++ env.sprintf (fmt_start of_filter) [], s') shown
          full).0
        ∙ ap (λ x. some (t, (out ++ env.sprintf (fmt_start of_filter) [] ++ (filters env t), x)))
            (taken-same (chosen is_filter (preorder t)) s'))

  upstream_part :
      (out : Bytes) (s' : Stats)
      → FullSum s'
      → set_part env of_upstream (set_upstream env) t (out, s')
        ≡ some (t, (out ++ part_text env of_upstream (upstreams env t), s'))
  unfolding set_upstream after
  upstream_part out s' full =
      set_part-part_text env of_upstream (set_upstream env) t out (upstreams env t) s' (
        (set_tree-after is_upstream (set_upstream_node env) no_sum IsShown FullSum
          (upstream_text env) (λ v x. x) (upstream-Steps env) t
          (out ++ env.sprintf (fmt_start of_upstream) [], s') shown full).0
        ∙ ap
            (λ x. some (t, (out ++ env.sprintf (fmt_start of_upstream) [] ++ (upstreams env t), x)))
            (taken-same (chosen is_upstream (preorder t)) s'))

  -- The output in the format of Prometheus ends and leaves the tree. It is: what nginx counts; the start of
  -- the server zones and the text of each; the filters and the upstreams, each kind with its start,
  -- or left out where there is none; and the texts of the collectors that are asked for, in order up to
  -- the first with which they are together longer than `metrics_size`. A node's text has its
  -- counters, the averages of its windows, and its histograms, under the names in its key. All queues are full
  -- and all histograms in their places, and a collector's text fits its buffer and is no format.
  pub prometheus_set_lem :
      (s' : Stats) × (prometheus_set env main cs (t, s)
        ≡ some (
          t,
          (
            set_main env main
                ++ env.sprintf (fmt_start of_server) []
                ++ (servers env t)
                ++ part_text env of_filter (filters env t)
                ++ part_text env of_upstream (upstreams env t)
                ++ fitting env.metrics_size 0 (asked cs),
            s',
          ),
        ))
  unfolding prometheus_set
  prometheus_set_lem =
      let start = set_main env main ++ env.sprintf (fmt_start of_server) [] in
      let (run1, full) =
        set_tree-after is_server (set_server_node env) (add_sum env) IsShown FullSum
          (server_text env) (merged env) (server-Steps env) t (start, init_stats s) shown
          (unfold init_stats in init-IsFull s.request_times) in
      let sum = taken (merged env) (chosen is_server (preorder t)) (init_stats s) in
      let run1' : set_server env t (start, init_stats s)
          ≡ some (t, (start ++ (servers env t), sum)) =
        unfold set_server after in run1 in
      let full' : FullSum sum = unfold after in full in
      let out2 = start ++ (servers env t) ++ part_text env of_filter (filters env t) in
      let out3 = out2 ++ part_text env of_upstream (upstreams env t) in
      (
        sum,
        rw
            (
              prometheus_set,
              run1',
              filter_part (start ++ (servers env t)) sum full',
              upstream_part out2 sum full',
              collect-fitting env cs 0 out3 word (omega arith) plain,
            )
            refl,
      )
