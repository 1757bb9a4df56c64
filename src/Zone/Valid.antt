-- ===== src/Zone/Valid.antt =====
-- The invariant of the shared memory for `shm_add_node` of
-- ngx_metric_module/src/ngx_http_vhost_traffic_status_shm.c.
use Prim.Native.Nat.Ordering.{lt, eq, gt}
use mathlib.Core.Path.{subst}
use metrics_server_example.Base.{
  compare, ℕ, ◌≡◌, ◌≢◌, refl, sym, ◌∙◌, inl, inr, List, [], ◌∷◌, map, arith, ◌==◌, All, All-mono,
  Bool-cases,
}
use metrics_server_example.TimeQueue.Window.{IsFull}
use metrics_server_example.Node.{Node}
use metrics_server_example.RbTree.{RbNode, Tree, inorder, name, Nginx}
use metrics_server_example.RbTree.Order.{Lt, Sorted}
use metrics_server_example.Filter.Lru.{HasRequests}
use metrics_server_example.Zone.{update_at}
use metrics_server_example.Zone.Update.{put, inorder-update_at, Distinct}
use metrics_server_example.Zone.Kept.{Kept}

-- Both queues of a node are full.
pub record HasQueues (v : Node) : Type 0 where
  pub requests : IsFull v.request_times
  pub responses : IsFull v.upstream.response_times

-- The nodes of the tree are in order, at different addresses, and have full queues.
pub record IsValid (ngx : Nginx) (ms : List RbNode) : Type 0 where
  pub sorted : Sorted ngx ms
  pub distinct : Distinct ms
  pub queues : All (λ m. HasQueues m.vtsn) ms

pub IsValid-HasRequests : (ngx : Nginx) (ms : List RbNode) → IsValid ngx ms → All HasRequests ms
IsValid-HasRequests ngx ms v =
    All-mono (λ (m : RbNode). HasQueues m.vtsn) ms (λ m q. let f = q.requests in omega arith)
      v.queues

-- One key for two nodes at one address.
abbrev SameKey : RbNode → RbNode → Type 0
SameKey x y = (y.addr ≡ x.addr) × (y.key ≡ x.key) × (name y ≡ name x)

module _ (ngx : Nginx) (f : RbNode → RbNode) where
  Lt-same : (m m' x x' : RbNode) → SameKey m m' → SameKey x x' → Lt ngx m x → Lt ngx m' x'
  Lt-same m m' x x' e h a =
      (λ i. elim (compare (e.1 i) (h.1 i)) [
        | lt ↦ lt
        | eq ↦ ngx.memn2cmp (e.2 i) (h.2 i)
        | gt ↦ gt
      ])
      ∙ a

  Lt-map :
      (m : RbNode) (ms : List RbNode)
      → SameKey m (f m)
      → All (λ x. SameKey x (f x)) ms
      → All (Lt ngx m) ms
      → All (Lt ngx (f m)) (map f ms)
  Lt-map m [] e h a = tt
  Lt-map m (x ∷ ms) e h a = (Lt-same m (f m) x (f x) e h.0 a.0, Lt-map m ms e h.1 a.1)

  Sorted-map :
      (ms : List RbNode) → All (λ x. SameKey x (f x)) ms → Sorted ngx ms → Sorted ngx (map f ms)
  Sorted-map [] h s = tt
  Sorted-map (m ∷ ms) h s = (Lt-map m ms h.0 h.1 s.0, Sorted-map ms h.1 s.1)

  addr-map :
      (a : ℕ) (ms : List RbNode)
      → All (λ x. SameKey x (f x)) ms
      → All (λ x. x.addr ≢ a) ms
      → All (λ x. x.addr ≢ a) (map f ms)
  addr-map a [] h d = tt
  addr-map a (m ∷ ms) h d = ((λ e. d.0 (sym h.0.0 ∙ e)), addr-map a ms h.1 d.1)

  Distinct-map :
      (ms : List RbNode) → All (λ x. SameKey x (f x)) ms → Distinct ms → Distinct (map f ms)
  Distinct-map [] h d = tt
  Distinct-map (m ∷ ms) h d = (
    subst (λ a. All (λ x. x.addr ≢ a) (map f ms)) (sym h.0.0) (addr-map m.addr ms h.1 d.0),
    Distinct-map ms h.1 d.1,
  )

queues-put :
    (a : ℕ) (v : Node) (ms : List RbNode)
    → HasQueues v
    → All (λ m. HasQueues m.vtsn) ms
    → All (λ m. HasQueues m.vtsn) (map (put a v) ms)
queues-put a v [] q h = tt
queues-put a v (m ∷ ms) q h = elim (Bool-cases (m.addr == a)) [
  | inl e ↦ (rw e q, queues-put a v ms q h.1)
  | inr e ↦ (rw e h.0, queues-put a v ms q h.1)
]

-- A write that keeps the text of the nodes at its address.
put-SameKey : (a : ℕ) (v : Node) (x : RbNode) → (x.addr ≡ a → Kept x.vtsn v) → SameKey x (put a v x)
put-SameKey a v x k = elim (Bool-cases (x.addr == a)) [
  | inl e ↦ let kept = k (ground arith) in rw (e, kept.len, kept.name) (refl, refl, refl)
  | inr e ↦ rw e (refl, refl, refl)
]

module _ (ngx : Nginx) (a : ℕ) (v : Node) where
  -- Writing a node at its address keeps the tree valid.
  pub update_at-IsValid :
      (t : Tree)
      → IsValid ngx (inorder t)
      → All (λ x. x.addr ≡ a → Kept x.vtsn v) (inorder t)
      → HasQueues v
      → IsValid ngx (inorder (update_at a v t))
  update_at-IsValid t w k q =
      let same =
        All-mono (λ (x : RbNode). x.addr ≡ a → Kept x.vtsn v) (inorder t) (put-SameKey a v) k in
      rw (inorder-update_at a v t) (record {
        sorted = Sorted-map ngx (put a v) (inorder t) same w.sorted;
        distinct = Distinct-map ngx (put a v) (inorder t) same w.distinct;
        queues = queues-put a v (inorder t) q w.queues;
      })
