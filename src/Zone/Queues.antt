-- ===== src/Zone/Queues.antt =====
-- The full queues of the nodes that `shm_add_node` of
-- ngx_metric_module/src/ngx_http_vhost_traffic_status_shm.c sets up and updates.
use mathlib.Core.Path.{subst}
use metrics_server_example.Base.{
  ℕ, ◌%◌, ◌^◌, ◌≡◌, ◌<◌, refl, ap, ◌∙◌, inl, inr, Bool, true, false, some, arith, ◌==◌, ◌||◌, take,
  take-all, length, Bool-cases, Option-cases,
}
use metrics_server_example.Text.{Bytes}
use metrics_server_example.Group.{upstream_ua, upstream_ug}
use metrics_server_example.TimeQueue
use metrics_server_example.TimeQueue.{TimeQueue, average}
use metrics_server_example.TimeQueue.Window.{IsFull, init-IsFull, insert-IsFull}
use metrics_server_example.TimeQueue.Average.{average-some}
use metrics_server_example.Node
use metrics_server_example.Node.{Node, Request, LocConf}
use metrics_server_example.RbTree.{RbNode, name}
use metrics_server_example.Zone.{add_node_upstream, add_addition, new_node}
use metrics_server_example.Zone.Valid.{HasQueues}

-- A key of less than 256 bytes is the name of its node.
pub name-new_node :
    (conf : LocConf) (r : Request) (key : Bytes) (type : ℕ) (memory : Node) (n : RbNode)
    → length key < 256
    → n.vtsn ≡ new_node conf r key type memory
    → name n ≡ key
unfolding new_node
name-new_node conf r key type memory n short e =
    let len : length key % 2 ^ 8 ≡ length key = omega arith in
    ap (λ (v : Node). take v.len v.name) e ∙ ap (λ k. take k key) len ∙ take-all key

pub new_node-HasQueues :
    (conf : LocConf) (r : Request) (key : Bytes) (type : ℕ) (memory : Node)
    → HasQueues (new_node conf r key type memory)
unfolding new_node Node.init
new_node-HasQueues conf r key type memory = record {
  requests =
      insert-IsFull (TimeQueue.init memory.request_times) r.now r.ms
        (init-IsFull memory.request_times);
  responses = init-IsFull memory.upstream.response_times;
}

-- `node_set` ends and keeps the queues full.
pub set-HasQueues :
    (conf : LocConf) (r : Request) (v : Node)
    → HasQueues v
    → (w : Node) × (Node.set conf r v ≡ some w) × HasQueues w
unfolding Node.set
set-HasQueues conf r v q =
    let times = TimeQueue.insert v.request_times r.now r.ms in
    let full = insert-IsFull v.request_times r.now r.ms q.requests in
    let (a, e) = average-some times conf.average_method r.now conf.average_period full in
    elim (Option-cases (Node.set conf r v)) [
      | inl missing ↦ absurd (ground (arith, e, missing))
      | inr (w, there) ↦
          let same : times ≡ w.request_times = ground (arith, e, there) in
          let kept : v.upstream.response_times ≡ w.upstream.response_times =
            ground (arith, e, there) in
          (
            w,
            there,
            record { requests = subst IsFull same full; responses = subst IsFull kept q.responses },
          )
    ]

add_node_upstream-HasQueues :
    (conf : LocConf) (ms now : ℕ) (v : Node) (is_new : Bool)
    → HasQueues v
    → (w : Node) × (add_node_upstream conf ms now v is_new ≡ some w) × HasQueues w
unfolding add_node_upstream
add_node_upstream-HasQueues conf ms now v true q =
    let full = insert-IsFull v.upstream.response_times now ms q.responses in
    (_, refl, record { requests = q.requests; responses = full })
add_node_upstream-HasQueues conf ms now v false q =
    let times = TimeQueue.insert v.upstream.response_times now ms in
    let full = insert-IsFull v.upstream.response_times now ms q.responses in
    let (a, e) = average-some times conf.average_method now conf.average_period full in
    elim (Option-cases (add_node_upstream conf ms now v false)) [
      | inl missing ↦ absurd (ground (arith, e, missing))
      | inr (w, there) ↦
          let same : times ≡ w.upstream.response_times = ground (arith, e, there) in
          let kept : v.request_times ≡ w.request_times = ground (arith, e, there) in
          (
            w,
            there,
            record { requests = subst IsFull kept q.requests; responses = subst IsFull same full },
          )
    ]

pub add_addition-HasQueues :
    (conf : LocConf) (type ms now : ℕ) (v : Node) (is_new : Bool)
    → HasQueues v
    → (w : Node) × (add_addition conf type ms now v is_new ≡ some w) × HasQueues w
unfolding add_addition
add_addition-HasQueues conf type ms now v is_new q =
    elim (Bool-cases (type == upstream_ua || type == upstream_ug)) [
      | inl e ↦ rw e (add_node_upstream-HasQueues conf ms now v is_new q)
      | inr e ↦ (v, rw e refl, q)
    ]
