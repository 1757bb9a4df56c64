-- ===== src/FilterNodes.antt =====
-- The filters of the tree and the nodes of one filter: `filter_get_keys` and `filter_get_nodes` of
-- ngx_metric_module/src/ngx_http_vhost_traffic_status_filter.c. `none` as an answer is a write through
-- `NULL`, where no memory was given for the text of a key.
pub mod Named
pub mod Gathered
use metrics_server_example.Base.{
  ℕ, ◌+◌, Bool, true, false, ◌&&◌, Option, none, some, List, [], ◌∷◌, ◌++◌, ltb, ◌==◌,
  if◌then◌else◌, length,
}
use metrics_server_example.Text.{Bytes, Status, ok, error, strncmp_eq}
use metrics_server_example.Group.{upstream_fg}
use metrics_server_example.Key.{position_key}
use metrics_server_example.RbTree.{RbNode, Tree, sentinel, fork, name}
use metrics_server_example.Control.{Pool}

module _ {A : Type 0} where
  -- `ngx_array_create`, where there is no array yet, `ngx_array_push` and the write of the entry.
  unfoldable pub push : Pool → A → Option (List A) → Status × Option (List A)
  push pool a none =
      if pool.array && ltb 0 pool.room
      then (ok, some (a ∷ []))
      else (error, if pool.array then some [] else none)
  push pool a (some as') =
      if ltb (length as') pool.room then (ok, some (as' ++ a ∷ [])) else (error, some as')

  -- The walk of both functions: a node, its left and its right branch, until an error.
  unfoldable pub walk :
      (RbNode → Option (List A) → Option (Status × Option (List A)))
      → Tree
      → Option (List A)
      → Option (Status × Option (List A))
  walk step sentinel found = some (ok, found)
  walk step (fork l m r) found = elim (step m found) [
    | none ↦ none
    | some (error, found₁) ↦ some (error, found₁)
    | some (ok, found₁) ↦ elim (walk step l found₁) [
      | none ↦ none
      | some (error, found₂) ↦ some (error, found₂)
      | some (ok, found₂) ↦ walk step r found₂
    ]
  ]

-- `filter_get_keys` at one node. The copy of the text has one more byte, the terminating zero.
unfoldable pub key_step :
    Pool → RbNode → Option (List Bytes) → Option (Status × Option (List Bytes))
unfolding position_key push
key_step pool m keys =
    if m.vtsn.upstream.type == upstream_fg
    then (let key = position_key (name m) 1 in
        elim key.0 [
          | error ↦ some (ok, keys)
          | ok ↦
              let pushed = push pool key.1 keys in
              elim pushed.0 [ error ↦ some pushed | ok ↦ if pool.key then some pushed else none ]
        ])
    else some (ok, keys)

-- `filter_get_keys`
unfoldable pub get_keys : Pool → Tree → Option (List Bytes) → Option (Status × Option (List Bytes))
unfolding walk key_step
get_keys pool t keys = walk (key_step pool) t keys

-- The comparison of a key with the name.
unfoldable pub same_name : Bytes → Bytes → Bool
unfolding strncmp_eq
same_name filter key = length filter == length key && strncmp_eq (length key) filter key

-- `filter_get_nodes` at one node.
unfoldable pub node_step :
    Pool → Bytes → RbNode → Option (List RbNode) → Option (Status × Option (List RbNode))
unfolding position_key same_name push
node_step pool filter m nodes =
    if m.vtsn.upstream.type == upstream_fg
    then (let key = position_key (name m) 1 in
        elim key.0 [
          | error ↦ some (ok, nodes)
          | ok ↦ if same_name filter key.1 then some (push pool m nodes) else some (ok, nodes)
        ])
    else some (ok, nodes)

-- `filter_get_nodes`
unfoldable pub get_nodes :
    Pool → Bytes → Tree → Option (List RbNode) → Option (Status × Option (List RbNode))
unfolding walk node_step
get_nodes pool filter t nodes = walk (node_step pool filter) t nodes
