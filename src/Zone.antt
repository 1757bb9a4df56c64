-- ===== src/Zone.antt =====
-- The nodes in shared memory and their update by a request:
-- ngx_metric_module/src/ngx_http_vhost_traffic_status_shm.c (`shm_add_node`,
-- `shm_add_node_upstream`) and `find_node` of ngx_http_vhost_traffic_status_node.c.
-- `none` is what C leaves undefined: a read through a pointer to a node that was freed.
pub mod Update
pub mod Locked
pub mod LongKey
pub mod Kept
pub mod Limit
pub mod Cache
pub mod Valid
pub mod Queues
pub mod Shape
pub mod Total
use Prim.Native.Nat.Ordering.{lt, eq, gt}
use metrics_server_example.Base.{
  ℕ, zero, suc, ◌+◌, ◌%◌, ◌^◌, Bool, true, false, ◌&&◌, ◌||◌, Option, none, some, List, [], ◌∷◌,
  ltb, ◌==◌, if◌then◌else◌, get_or, set, length, map,
}
use metrics_server_example.Base.Words.{add64}
use metrics_server_example.Text.{Bytes, Status, ok, error}
use metrics_server_example.Group.{upstream_ua, upstream_ug}
use metrics_server_example.TimeQueue
use metrics_server_example.TimeQueue.{average}
use metrics_server_example.Histogram.{observe}
use metrics_server_example.Node
use metrics_server_example.Node.{Node, Request, LocConf, oc}
use metrics_server_example.RbTree.{
  RbNode, Tree, sentinel, fork, inorder, Nginx, lookup, rbtree_insert,
}
use metrics_server_example.Filter.{MainConf, find_lru}

-- The tree, the pointers `node_caches` by group, and whether the mutex of the slab pool is held.
pub record Zone : Type 0 where
  pub tree : Tree
  pub node_caches : List (Option ℕ)
  pub locked : Bool

-- The node at an address, among those that are allocated.
unfoldable pub find_addr : ℕ → List RbNode → Option RbNode
find_addr a [] = none
find_addr a (m ∷ ms) = if m.addr == a then some m else find_addr a ms

-- A write to the node of statistics at an address.
unfoldable pub update_at : ℕ → Node → Tree → Tree
update_at a v sentinel = sentinel
update_at a v (fork l m r) =
    fork (update_at a v l) (if m.addr == a then record m { vtsn = v } else m) (update_at a v r)

-- What `find_node` returns: a node, `NULL`, or nothing that C defines.
pub data Found : Type 0 where
  found : RbNode → Found
  null : Found
  dangling : Found

abbrev pub of_lookup : Option RbNode → Found
of_lookup none = null
of_lookup (some m) = found m

-- `find_node`: the cached node of the group is taken where its hash agrees. The cached pointer is
-- read without a look into the tree.
unfoldable pub find_node : Nginx → Zone → Bytes → ℕ → ℕ → Found
unfolding find_addr
find_node ngx z key type key_hash =
    let hash = if key_hash == 0 then ngx.crc32_short key else key_hash in
    elim (get_or z.node_caches type none) [
      | none ↦ of_lookup (lookup ngx z.tree key hash)
      | some a ↦ elim (find_addr a (inorder z.tree)) [
        | none ↦ dangling
        | some m ↦ if m.key == hash then found m else of_lookup (lookup ngx z.tree key hash)
      ]
    ]

-- What the allocators answer during one call of `shm_add_node`: `ngx_pcalloc` in `find_lru`, the
-- address and the old content of the memory that `ngx_slab_alloc_locked` gives, and `ngx_pcalloc`
-- for the message where the slab gave none.
pub record Memory : Type 0 where
  pub lru_info : Bool
  pub slab : Option (ℕ × Node)
  pub error_info : Bool

-- `shm_add_node_upstream`: `is_new` for `NODE_NONE`; `ms` is `upstream_response_time`.
unfoldable pub add_node_upstream : LocConf → ℕ → ℕ → Node → Bool → Option Node
unfolding oc
add_node_upstream conf ms now v is_new =
    let u = v.upstream in
    let times = TimeQueue.insert u.response_times now ms in
    let buckets = observe u.response_buckets ms in
    if is_new
    then some (record v {
      upstream = record u {
        response_times = times;
        response_buckets = buckets;
        response_time_counter = ms;
        response_time = ms;
      };
    })
    else elim (average times conf.average_method now conf.average_period) [
      | none ↦ none
      | some (avg, times') ↦
          let counter = add64 u.response_time_counter ms in
          some (record v {
            upstream = record u {
              response_times = times';
              response_buckets = buckets;
              response_time_counter = counter;
              response_time = avg;
            };
            response_time_counter_oc =
                oc u.response_time_counter counter v.response_time_counter_oc;
          })
    ]

-- The `switch` on the group: only upstream servers have an addition.
unfoldable pub add_addition : LocConf → ℕ → ℕ → ℕ → Node → Bool → Option Node
unfolding add_node_upstream
add_addition conf type ms now v is_new =
    if type == upstream_ua || type == upstream_ug
    then add_node_upstream conf ms now v is_new
    else some v

-- The end of `shm_add_node`: the addition, the cache and the unlocking.
unfoldable pub finish : LocConf → ℕ → ℕ → ℕ → Zone → ℕ → Node → Bool → Option (Status × Zone)
unfolding add_addition update_at
finish conf type ms now z addr v is_new = elim (add_addition conf type ms now v is_new) [
  | none ↦ none
  | some v' ↦ some (
    ok,
    record {
      tree = update_at addr v' z.tree;
      node_caches = set z.node_caches type (some addr);
      locked = false;
    },
  )
]

-- The node that gives way is unlinked and freed.
unfoldable pub evict : Nginx → Tree → Option RbNode → Tree
evict ngx t none = t
evict ngx t (some v) = ngx.rbtree_delete t v.addr

-- The new node in the memory that the slab gave. The length is cut to a `u_char`.
unfoldable pub new_node : LocConf → Request → Bytes → ℕ → Node → Node
unfolding Node.init
new_node conf r key type memory =
    let v = Node.init conf r memory in
    record v { upstream = record v.upstream { type = type }; len = length key % 2 ^ 8; name = key }

-- The branch of `shm_add_node` for a key that has no node yet.
unfoldable pub add_new :
    Nginx
    → MainConf
    → LocConf
    → Request
    → ℕ
    → Memory
    → Zone
    → Bytes
    → ℕ
    → ℕ
    → Option (Status × Zone)
unfolding evict new_node finish
add_new ngx main conf r ms mem z key type hash =
    let t = evict ngx z.tree (find_lru main mem.lru_info z.tree) in
    let z' : Zone = record z { tree = t } in
    elim mem.slab [
      | none ↦
          if mem.error_info then some (error, record z' { locked = false }) else some (error, z')
      | some (addr, memory) ↦
          let v = new_node conf r key type memory in
          finish conf type ms r.now
            (record z' {
              tree = rbtree_insert ngx t (record { addr = addr; key = hash; vtsn = v });
            })
            addr v true
    ]

-- The branch for a node that is there.
unfoldable pub add_found : LocConf → Request → ℕ → Zone → ℕ → RbNode → Option (Status × Zone)
unfolding finish
add_found conf r ms z type m = elim (Node.set conf r m.vtsn) [
  | none ↦ none
  | some v ↦ finish conf type ms r.now z m.addr v false
]

-- `shm_add_node`: the configurations, the request and its `upstream_response_time`, the allocators'
-- answers, the state, the key and its group.
unfoldable pub add_node :
    Nginx → MainConf → LocConf → Request → ℕ → Memory → Zone → Bytes → ℕ → Option (Status × Zone)
unfolding find_node add_new add_found
add_node ngx main conf r ms mem z key type =
    if length key == 0
    then some (error, z)
    else (let z' : Zone = record z { locked = true } in
        let hash = ngx.crc32_short key in
        elim (find_node ngx z' key type hash) [
          | found m ↦ add_found conf r ms z' type m
          | null ↦ add_new ngx main conf r ms mem z' key type hash
          | dangling ↦ none
        ])
