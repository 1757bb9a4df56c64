-- ===== src/Filter.antt =====
-- Which nodes count against `vhost_traffic_status_filter_max_node`, and the one that gives way:
-- `filter_max_node_match` of ngx_metric_module/src/ngx_http_vhost_traffic_status_filter.c,
-- `shm_info` of ngx_http_vhost_traffic_status_shm.c, and `find_lru*` of
-- ngx_http_vhost_traffic_status_node.c.
pub mod Info
pub mod Walk
pub mod Lru
use metrics_server_example.Base.{
  ℕ, zero, suc, ◌+◌, Bool, true, false, ◌&&◌, ◌||◌, Option, none, some, List, [], ◌∷◌, ltb, leb,
  ◌==◌, if◌then◌else◌, get_or, drop, length,
}
use metrics_server_example.Base.Words.{add64}
use metrics_server_example.Text.{Bytes, strncmp_eq}
use metrics_server_example.Group.{upstream_fg}
use metrics_server_example.Key.{Position, position_loop}
use metrics_server_example.TimeQueue.{NodeTime, TimeQueue, zero_time, rear_index}
use metrics_server_example.RbTree.{RbNode, Tree, sentinel, fork, name}

-- The main configuration, as far as it is read here: `filter_max_node`, the prefixes of
-- `filter_max_node_matches` (`none` where the array is not there), the size of the zone, and the
-- bytes of a node in front of its text (the two `offsetof` of the source).
pub record MainConf : Type 0 where
  pub filter_max_node : ℕ
  pub filter_max_node_matches : Option (List Bytes)
  pub shm_size : ℕ
  pub node_offset : ℕ

-- `filter` after `node_position_key(&filter, 1)`, whose error is ignored: the memory from field 1 of
-- the node's text on, or from its start. The length that it also sets is not read. What the slab holds
-- behind the text is not modelled: it reads as zero.
unfoldable pub field_memory : RbNode → Bytes
unfolding position_loop
field_memory m =
    let r = position_loop (name m) 1 0 0 0 0 in
    if ltb r.count 1 || r.len == 0 then m.vtsn.name else drop r.start m.vtsn.name

-- The loop of `filter_max_node_match`.
unfoldable pub any_match : List Bytes → Bytes → Bool
unfolding strncmp_eq
any_match [] filter = false
any_match (p ∷ ps) filter = strncmp_eq (length p) filter p || any_match ps filter

-- `filter_max_node_match`, true for `NGX_OK`: no prefixes accept every filter.
unfoldable pub max_node_match : MainConf → Bytes → Bool
unfolding any_match
max_node_match conf filter = elim conf.filter_max_node_matches [
  | none ↦ true
  | some [] ↦ true
  | some (p ∷ ps) ↦ any_match (p ∷ ps) filter
]

-- The test that `shm_info_node` and `find_lru_node` make of each node.
unfoldable pub counts : MainConf → RbNode → Bool
unfolding field_memory max_node_match
counts conf m = m.vtsn.upstream.type == upstream_fg && max_node_match conf (field_memory m)

-- `ngx_http_vhost_traffic_status_shm_info_t`
pub record ShmInfo : Type 0 where
  pub max_size : ℕ
  pub used_size : ℕ
  pub used_node : ℕ
  pub filter_used_size : ℕ
  pub filter_used_node : ℕ

-- What `shm_info_node` does at one node.
unfoldable pub count_node : MainConf → RbNode → ShmInfo → ShmInfo
count_node conf m info =
    let size = conf.node_offset + m.vtsn.len in
    let all : ShmInfo = record info {
      used_size = add64 info.used_size size;
      used_node = add64 info.used_node 1;
    } in
    if counts conf m
    then record all {
      filter_used_size = add64 info.filter_used_size size;
      filter_used_node = add64 info.filter_used_node 1;
    }
    else all

-- `shm_info_node`: a node before its left and its right branch.
unfoldable pub shm_info_node : MainConf → Tree → ShmInfo → ShmInfo
unfolding count_node
shm_info_node conf sentinel info = info
shm_info_node conf (fork l m r) info =
    shm_info_node conf r (shm_info_node conf l (count_node conf m info))

-- `shm_info`
unfoldable pub shm_info : MainConf → Tree → ShmInfo
unfolding shm_info_node
shm_info conf t = shm_info_node conf t (record {
  max_size = conf.shm_size;
  used_size = 0;
  used_node = 0;
  filter_used_size = 0;
  filter_used_node = 0;
})

-- When the newest entry of a queue came.
unfoldable pub newest : TimeQueue → ℕ
unfolding rear_index
newest q = (get_or q.times (rear_index q) zero_time).time

-- `find_lru_node_cmp`
unfoldable pub lru_cmp : Option RbNode → RbNode → RbNode
unfolding newest
lru_cmp none b = b
lru_cmp (some a) b =
    let aq = a.vtsn.request_times in
    let bq = b.vtsn.request_times in
    if aq.front == aq.rear
    then a
    else (if bq.front == bq.rear then b else (if ltb (newest aq) (newest bq) then a else b))

-- What `find_lru_node` does at one node.
unfoldable pub lru_step : MainConf → RbNode → Option RbNode → Option RbNode
unfolding lru_cmp
lru_step conf m a = if counts conf m then some (lru_cmp a m) else a

-- `find_lru_node`
unfoldable pub lru_node : MainConf → Tree → Option RbNode → Option RbNode
unfolding lru_step
lru_node conf sentinel a = a
lru_node conf (fork l m r) a = lru_node conf r (lru_node conf l (lru_step conf m a))

-- `find_lru`: whether `ngx_pcalloc` gave the memory for the count.
unfoldable pub find_lru : MainConf → Bool → Tree → Option RbNode
unfolding lru_node shm_info
find_lru conf alloc t =
    if conf.filter_max_node == 0
    then none
    else (if alloc
        then (if leb conf.filter_max_node (shm_info conf t).filter_used_node
            then lru_node conf t none
            else none)
        else none)
