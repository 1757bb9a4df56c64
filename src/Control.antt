-- ===== src/Control.antt =====
-- The commands `delete` and `reset` of the control interface:
-- ngx_metric_module/src/ngx_http_vhost_traffic_status_control.c. They run under the mutex of the slab
-- pool, change the tree and count the nodes that they touched; what they print, and the command
-- `status`, are in ControlStatus.
pub mod Selected
pub mod Reset
pub mod Removal
pub mod Gather
pub mod Delete
use Prim.Native.Nat.Ordering.{lt, eq, gt}
use metrics_server_example.Base.{
  ℕ, zero, suc, ◌-◌, ◌^◌, Bool, true, false, Option, none, some, List, [], ◌∷◌, ◌++◌, ltb, ◌==◌,
  if◌then◌else◌, length,
}
use metrics_server_example.Base.Words.{add64}
use metrics_server_example.Text.{Bytes, Status, ok, error}
use metrics_server_example.Key.{generate_key}
use metrics_server_example.Node
use metrics_server_example.RbTree.{RbNode, Tree, sentinel, fork, inorder, Nginx, lookup}
use metrics_server_example.Zone.{update_at}

-- The field `group` of a command: -2 as it starts, -1 for `*`, or a group.
pub data Selector : Type 0 where
  unset any : Selector
  group : ℕ → Selector

-- `CONTROL_RANGE_*`
pub data Range : Type 0 where
  range_none range_all range_group range_zone : Range

-- `control_t`, the fields that these functions read or change.
pub record Control : Type 0 where
  pub selector : Selector
  pub zone : Bytes
  pub range : Range
  pub count : ℕ

-- `node_control_range_set`
unfoldable pub control_range_set : Control → Control
control_range_set c = elim c.selector [
  | any ↦ record c { range = range_all }
  | _ ↦ elim c.zone [
    | [] ↦ record c { range = range_none }
    | (b ∷ []) ↦ record c { range = if b == b'*' then range_group else range_zone }
    | (b ∷ b' ∷ bs) ↦ record c { range = range_zone }
  ]
]

-- The group as the `unsigned` argument of `node_generate_key`.
abbrev pub group_number : Selector → ℕ
group_number unset = 2 ^ 32 - 2
group_number any = 2 ^ 32 - 1
group_number (group n) = n

-- `(ngx_int_t) vtsn->stat_upstream.type == control->group`
unfoldable pub in_group : Selector → RbNode → Bool
in_group (group n) m = m.vtsn.upstream.type == n
in_group _ m = false

-- `node_delete_all`, on fuel: the root goes until the tree is empty.
unfoldable pub delete_all_loop : Nginx → ℕ → Tree → ℕ → Option (Tree × ℕ)
delete_all_loop ngx zero t count = none
delete_all_loop ngx (suc f) sentinel count = some (sentinel, count)
delete_all_loop ngx (suc f) (fork l m r) count =
    delete_all_loop ngx f (ngx.rbtree_delete (fork l m r) m.addr) (add64 count 1)

unfoldable pub delete_all : Nginx → Tree → ℕ → Option (Tree × ℕ)
unfolding delete_all_loop
delete_all ngx t count = delete_all_loop ngx (suc (length (inorder t))) t count

-- The memory of the request's pool: whether `ngx_array_create` gets some, for how many nodes
-- `ngx_array_push` finds room, and whether `node_generate_key` gets some.
pub record Pool : Type 0 where
  pub array : Bool
  pub room : ℕ
  pub key : Bool

-- `ngx_array_push` and the write of the node.
unfoldable pub push_node : Pool → RbNode → List RbNode → Status × Option (List RbNode)
push_node pool m ms =
    if ltb (length ms) pool.room then (ok, some (ms ++ m ∷ [])) else (error, some ms)

-- What `node_delete_get_nodes` does at one node; the option is `*nodes`.
unfoldable pub get_node :
    Selector → Pool → RbNode → Option (List RbNode) → Status × Option (List RbNode)
unfolding in_group push_node
get_node g pool m nodes = elim (in_group g m) [
  | false ↦ (ok, nodes)
  | true ↦ elim nodes [
    | none ↦ elim pool.array [ true ↦ push_node pool m [] | false ↦ (error, none) ]
    | some ms ↦ push_node pool m ms
  ]
]

-- `node_delete_get_nodes`
unfoldable pub delete_get_nodes :
    Selector → Pool → Tree → Option (List RbNode) → Status × Option (List RbNode)
unfolding get_node
delete_get_nodes g pool sentinel nodes = (ok, nodes)
delete_get_nodes g pool (fork l m r) nodes =
    let here = get_node g pool m nodes in
    elim here.0 [
      | error ↦ here
      | ok ↦
          let left = delete_get_nodes g pool l here.1 in
          elim left.0 [ error ↦ left | ok ↦ delete_get_nodes g pool r left.1 ]
    ]

-- The loop of `node_delete_group`.
unfoldable pub delete_nodes : Nginx → List RbNode → Tree → ℕ → Tree × ℕ
delete_nodes ngx [] t count = (t, count)
delete_nodes ngx (m ∷ ms) t count = delete_nodes ngx ms (ngx.rbtree_delete t m.addr) (add64 count 1)

-- `node_delete_group`
unfoldable pub delete_group : Nginx → Selector → Pool → Tree → ℕ → Tree × ℕ
unfolding delete_get_nodes delete_nodes
delete_group ngx g pool t count =
    let found = delete_get_nodes g pool t none in
    elim found.1 [
      | none ↦ (t, count)
      | some ms ↦ elim found.0 [ ok ↦ delete_nodes ngx ms t count | error ↦ (t, count) ]
    ]

-- The node of the key that a command names, for `node_delete_zone` and `node_reset_zone`.
unfoldable pub zone_node : Nginx → Control → Pool → Tree → Option RbNode
unfolding generate_key lookup
zone_node ngx c pool t =
    let key = generate_key pool.key c.zone (group_number c.selector) in
    elim key.0 [ error ↦ none | ok ↦ lookup ngx t key.1 (ngx.crc32_short key.1) ]

-- `node_delete_zone`
unfoldable pub delete_zone : Nginx → Control → Pool → Tree → Tree × ℕ
unfolding zone_node
delete_zone ngx c pool t = elim (zone_node ngx c pool t) [
  | none ↦ (t, c.count)
  | some m ↦ (ngx.rbtree_delete t m.addr, add64 c.count 1)
]

-- `node_delete`: the tree and the count of the command. `none` would mean that `node_delete_all` does
-- not end.
unfoldable pub delete : Nginx → Control → Pool → Tree → Option (Tree × ℕ)
unfolding delete_all delete_group delete_zone
delete ngx c pool t = elim c.range [
  | range_none ↦ some (t, c.count)
  | range_all ↦ delete_all ngx t c.count
  | range_group ↦ some (delete_group ngx c.selector pool t c.count)
  | range_zone ↦ some (delete_zone ngx c pool t)
]

-- `node_zero` at a node of the tree.
abbrev pub zero_node : RbNode → RbNode
zero_node m = record m { vtsn = Node.zero m.vtsn }

-- `node_reset_all`
unfoldable pub reset_all : Tree → ℕ → Tree × ℕ
unfolding Node.zero
reset_all sentinel count = (sentinel, count)
reset_all (fork l m r) count =
    let left = reset_all l (add64 count 1) in
    let right = reset_all r left.1 in (fork left.0 (zero_node m) right.0, right.1)

-- `node_reset_group`
unfoldable pub reset_group : Selector → Tree → ℕ → Tree × ℕ
unfolding in_group Node.zero
reset_group g sentinel count = (sentinel, count)
reset_group g (fork l m r) count =
    let left = reset_group g l (if in_group g m then add64 count 1 else count) in
    let right = reset_group g r left.1 in
    (fork left.0 (if in_group g m then zero_node m else m) right.0, right.1)

-- `node_reset_zone`
unfoldable pub reset_zone : Nginx → Control → Pool → Tree → Tree × ℕ
unfolding zone_node update_at Node.zero
reset_zone ngx c pool t = elim (zone_node ngx c pool t) [
  | none ↦ (t, c.count)
  | some m ↦ (update_at m.addr (Node.zero m.vtsn) t, add64 c.count 1)
]

-- `node_reset`
unfoldable pub reset : Nginx → Control → Pool → Tree → Tree × ℕ
unfolding reset_all reset_group reset_zone
reset ngx c pool t = elim c.range [
  | range_none ↦ (t, c.count)
  | range_all ↦ reset_all t c.count
  | range_group ↦ reset_group c.selector t c.count
  | range_zone ↦ reset_zone ngx c pool t
]
