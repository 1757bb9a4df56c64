-- ===== src/Prometheus/Trees.antt =====
-- The walks through the tree that print it in the format of Prometheus: `display_prometheus_set_server`,
-- `_set_filter` and `_set_upstream` of
-- ngx_metric_module/src/ngx_http_vhost_traffic_status_display_prometheus.c.
use metrics_server_example.Base.{Bool, true, false, ◌||◌, Option, none, some, ◌++◌, ◌==◌}
use metrics_server_example.Text.{Bytes}
use metrics_server_example.Group.{upstream_no, upstream_ua, upstream_ug, upstream_fg}
use metrics_server_example.TimeQueue.{merge}
use metrics_server_example.Node.{Node}
use metrics_server_example.RbTree.{RbNode, Tree, sentinel, fork, name}
use metrics_server_example.Json.{Stats, add_counters}
use metrics_server_example.Prometheus.{Env, set_server_node, set_filter_node, set_upstream_node}

-- `calculates the sum`: without the counting of overflows.
unfoldable pub add_sum : Env → Node → Stats → Option Stats
unfolding merge add_counters
add_sum env v s = elim (merge s.request_times v.request_times env.now env.average_period) [
  | none ↦ none
  | some q ↦ some (record s { stat = add_counters s.stat v.stat; request_times = q })
]

-- What the three functions below do at one node: the nodes of their family are printed, and taken into
-- the sum.
unfoldable pub set_at :
    (RbNode → Bool)
    → (Bytes → Node → Option (Bytes × Node))
    → (Node → Stats → Option Stats)
    → RbNode
    → Bytes × Stats
    → Option (RbNode × (Bytes × Stats))
set_at P lines add m st = elim (P m) [
  | false ↦ some (m, st)
  | true ↦ elim (lines (name m) m.vtsn) [
    | none ↦ none
    | some (line, v) ↦ elim (add v st.1) [
      | none ↦ none
      | some s ↦ some (record m { vtsn = v }, (st.0 ++ line, s))
    ]
  ]
]

-- Their walk.
unfoldable pub set_tree :
    (RbNode → Bool)
    → (Bytes → Node → Option (Bytes × Node))
    → (Node → Stats → Option Stats)
    → Tree
    → Bytes × Stats
    → Option (Tree × (Bytes × Stats))
unfolding set_at
set_tree P lines add sentinel st = some (sentinel, st)
set_tree P lines add (fork l m r) st = elim (set_at P lines add m st) [
  | none ↦ none
  | some (m', st1) ↦ elim (set_tree P lines add l st1) [
    | none ↦ none
    | some (l', st2) ↦ elim (set_tree P lines add r st2) [
      | none ↦ none
      | some (r', st3) ↦ some (fork l' m' r', st3)
    ]
  ]
]

-- The nodes of server zones, of filters and of upstream servers.
unfoldable pub is_server : RbNode → Bool
is_server m = m.vtsn.upstream.type == upstream_no

unfoldable pub is_filter : RbNode → Bool
is_filter m = m.vtsn.upstream.type == upstream_fg

unfoldable pub is_upstream : RbNode → Bool
is_upstream m = m.vtsn.upstream.type == upstream_ug || m.vtsn.upstream.type == upstream_ua

-- The sum of a walk that takes none.
abbrev pub no_sum : Node → Stats → Option Stats
no_sum v s = some s

-- `display_prometheus_set_server`
unfoldable pub set_server : Env → Tree → Bytes × Stats → Option (Tree × (Bytes × Stats))
unfolding is_server set_server_node add_sum set_tree
set_server env t st = set_tree is_server (set_server_node env) (add_sum env) t st

-- `display_prometheus_set_filter`
unfoldable pub set_filter : Env → Tree → Bytes × Stats → Option (Tree × (Bytes × Stats))
unfolding is_filter set_filter_node set_tree
set_filter env t st = set_tree is_filter (set_filter_node env) no_sum t st

-- `display_prometheus_set_upstream`
unfoldable pub set_upstream : Env → Tree → Bytes × Stats → Option (Tree × (Bytes × Stats))
unfolding is_upstream set_upstream_node set_tree
set_upstream env t st = set_tree is_upstream (set_upstream_node env) no_sum t st
