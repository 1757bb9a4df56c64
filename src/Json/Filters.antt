-- ===== src/Json/Filters.antt =====
-- The filters in the output: `display_set_filter_node` and `display_set_filter` of
-- ngx_metric_module/src/ngx_http_vhost_traffic_status_display_json.c. nginx's sort is a parameter.
pub mod Entries
use metrics_server_example.Base.{
  ◌-◌, ◌&&◌, Option, none, some, List, [], ◌∷◌, ◌++◌, length, take, if◌then◌else◌, ltb,
}
use metrics_server_example.Text.{Bytes, ok, error, escape_json_pool}
use metrics_server_example.Key.{position_key}
use metrics_server_example.RbTree.{RbNode, Tree, name}
use metrics_server_example.Zone.{update_at}
use metrics_server_example.Control.{Pool}
use metrics_server_example.FilterNodes.{same_name, get_keys, get_nodes}
use metrics_server_example.Json.{fmt_object, Env, set_server_node}
use metrics_server_example.Json.Upstream.{str_value}

-- `display_set_filter_node`, for the node and the key behind its group and its filter.
unfoldable pub set_filter_node : Env → RbNode → Tree × Bytes → Option (Tree × Bytes)
unfolding position_key set_server_node update_at
set_filter_node env m (t, out) =
    elim (set_server_node env (env.memory m.addr) (position_key (name m) 2).1 m.vtsn) [
      | none ↦ none
      | some (line, v) ↦ some (update_at m.addr v t, out ++ line)
    ]

-- The loop over the nodes of a filter.
unfoldable pub set_filter_nodes : Env → List RbNode → Tree × Bytes → Option (Tree × Bytes)
unfolding set_filter_node
set_filter_nodes env [] st = some st
set_filter_nodes env (m ∷ ms) st = elim (set_filter_node env m st) [
  | none ↦ none
  | some st' ↦ set_filter_nodes env ms st'
]

abbrev pub object_end : Bytes
object_end = b'}' ∷ b',' ∷ []

-- One filter, for its nodes.
unfoldable pub set_filter_key : Env → Bytes → List RbNode → Tree × Bytes → Option (Tree × Bytes)
unfolding escape_json_pool str_value set_filter_nodes
set_filter_key env key nodes (t, out) =
    elim (str_value (escape_json_pool (env.escape_memory key) key).1) [
      | none ↦ none
      | some filter ↦
          elim (set_filter_nodes env nodes (t, out ++ env.sprintf fmt_object (filter ∷ []))) [
            | none ↦ none
            | some (t', buf) ↦ some (t', take (length buf - 1) buf ++ object_end)
          ]
    ]

-- The loop over the sorted keys: `key` is the last one that was not passed over, `nodes` the array that
-- an error left.
unfoldable pub set_filter_keys :
    Env → Pool → List Bytes → Bytes → Option (List RbNode) → Tree × Bytes → Option (Tree × Bytes)
unfolding same_name get_nodes set_filter_key
set_filter_keys env pool [] key nodes st = some st
set_filter_keys env pool (k ∷ ks) key nodes (t, out) =
    let passed_over = set_filter_keys env pool ks key nodes (t, out) in
    if same_name k key then passed_over else elim (get_nodes pool k t nodes) [
      | none ↦ none
      | some (error, ns) ↦ set_filter_keys env pool ks k ns (t, out)
      | some (ok, none) ↦ set_filter_keys env pool ks k none (t, out)
      | some (ok, some ns) ↦ elim (set_filter_key env k ns (t, out)) [
        | none ↦ none
        | some st ↦ set_filter_keys env pool ks k none st
      ]
    ]

-- The keys in the order of the output: one key alone is not sorted.
abbrev pub sorted_keys : (List Bytes → List Bytes) → List Bytes → List Bytes
sorted_keys sort ks = if ltb 1 (length ks) then sort ks else ks

-- The part of `display_set_filter` behind `filter_get_keys`, for the array of keys.
unfoldable pub set_filters :
    Env
    → Pool
    → (List Bytes → List Bytes)
    → Option (List Bytes)
    → Tree × Bytes
    → Option (Tree × Bytes)
unfolding set_filter_keys
set_filters env pool sort none st = some st
set_filters env pool sort (some keys) st =
    set_filter_keys env pool (sorted_keys sort keys) [] none st

-- `display_set_filter`; `sort` is `ngx_qsort` by `filter_cmp_keys`.
unfoldable pub set_filter :
    Env → Pool → (List Bytes → List Bytes) → Tree × Bytes → Option (Tree × Bytes)
unfolding get_keys set_filters
set_filter env pool sort (t, out) = elim (get_keys pool t none) [
  | none ↦ none
  | some (error, keys) ↦ some (t, out)
  | some (ok, keys) ↦ set_filters env pool sort keys (t, out)
]
