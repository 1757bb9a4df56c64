-- ===== src/Zone/Total.antt =====
-- `shm_add_node` of ngx_metric_module/src/ngx_http_vhost_traffic_status_shm.c from a valid state.
use mathlib.Core.Path.{subst}
use metrics_server_example.Base.{
  ℕ, ◌≡◌, ◌≢◌, ◌<◌, refl, ap, sym, ◌∙◌, inl, inr, Bool, true, false, Option, none, some, arith,
  ◌==◌, if◌then◌else◌, get_or, set, length, All, All-mono, Bool-cases, Option-cases,
}
use metrics_server_example.Text.{Bytes, Status, ok, error}
use metrics_server_example.Node.{Node, Request, LocConf}
use metrics_server_example.RbTree.{RbNode, inorder, name, Nginx, IsLawful, rbtree_insert, lookup}
use metrics_server_example.Filter.{MainConf, find_lru}
use metrics_server_example.Filter.Walk.{Member}
use metrics_server_example.Zone.{
  of_lookup, Zone, found, null, dangling, find_node, Memory, update_at, finish, evict, new_node,
  add_new, add_found, add_node,
}
use metrics_server_example.Zone.Update.{Distinct-only, All-Member}
use metrics_server_example.Zone.Kept.{
  Kept, Kept-trans, Found-cases, set-Kept, add_addition-Kept, find_node-Member, FreeAddr,
}
use metrics_server_example.Zone.Cache.{Live, get_or-All}
use metrics_server_example.Zone.Valid.{HasQueues, IsValid, update_at-IsValid}
use metrics_server_example.Zone.Queues.{
  name-new_node, new_node-HasQueues, set-HasQueues, add_addition-HasQueues,
}
use metrics_server_example.Zone.Shape.{
  evict-IsValid, evict-lookup, rbtree_insert-IsValid, rbtree_insert-Kept,
}

found-dangling : (m : RbNode) → found m ≢ dangling
found-dangling m e = cc

of_lookup-dangling : (o : Option RbNode) → of_lookup o ≢ dangling
of_lookup-dangling none e = cc
of_lookup-dangling (some m) e = found-dangling m e

module _ (ngx : Nginx) (law : IsLawful ngx) where
  -- The end of `shm_add_node` at a node whose queues are full.
  finish-IsValid :
      (conf : LocConf) (type ms now : ℕ) (z : Zone) (addr : ℕ) (v : Node) (is_new : Bool)
      → IsValid ngx (inorder z.tree)
      → All (λ x. x.addr ≡ addr → Kept x.vtsn v) (inorder z.tree)
      → HasQueues v
      → (z' : Zone) × (finish conf type ms now z addr v is_new ≡ some (ok, z'))
        × IsValid ngx (inorder z'.tree)
  unfolding finish
  finish-IsValid conf type ms now z addr v is_new valid kept q =
      let (w, e, q') = add_addition-HasQueues conf type ms now v is_new q in
      let k = add_addition-Kept conf type ms now v w is_new e in
      (
        record {
          tree = update_at addr w z.tree;
          node_caches = set z.node_caches type (some addr);
          locked = false;
        },
        ground (arith, e),
        update_at-IsValid ngx addr w z.tree valid
            (All-mono (λ (x : RbNode). x.addr ≡ addr → Kept x.vtsn v) (inorder z.tree)
              (λ x f same. Kept-trans x.vtsn v w (f same) k) kept)
            q',
      )

  -- With live cached pointers `find_node` never reads a freed node.
  find_node-Live :
      (z : Zone) (key : Bytes) (type h : ℕ)
      → All (Live (inorder z.tree)) z.node_caches
      → find_node ngx z key type h ≢ dangling
  unfolding find_node
  find_node-Live z key type h live e = elim (Option-cases (get_or z.node_caches type none)) [
    | inl nothing ↦
        of_lookup-dangling (lookup ngx z.tree key (if h == 0 then ngx.crc32_short key else h))
          (ground (arith, nothing, e))
    | inr (a, cached) ↦
        let (m, there) =
          subst (Live (inorder z.tree)) cached
            (get_or-All (Live (inorder z.tree)) z.node_caches type tt live) in
        let hash = if h == 0 then ngx.crc32_short key else h in
        elim (Bool-cases (m.key == hash)) [
          | inl same ↦ found-dangling m (ground (arith, cached, there, same, e))
          | inr other ↦
              of_lookup-dangling (lookup ngx z.tree key hash)
                (ground (arith, cached, there, other, e))
        ]
  ]

  find_node-null :
      (z : Zone) (key : Bytes) (type : ℕ)
      → find_node ngx z key type (ngx.crc32_short key) ≡ null
      → lookup ngx z.tree key (ngx.crc32_short key) ≡ none
  unfolding find_node
  find_node-null z key type e = ground arith

  add_new-IsValid :
      (main : MainConf) (conf : LocConf) (r : Request) (ms : ℕ) (mem : Memory) (z : Zone)
      (key : Bytes) (type hash : ℕ)
      → IsValid ngx (inorder z.tree)
      → length key < 256
      → lookup ngx z.tree key hash ≡ none
      → ((addr : ℕ) (memory : Node)
          → mem.slab ≡ some (addr, memory)
          → FreeAddr addr (inorder (evict ngx z.tree (find_lru main mem.lru_info z.tree))))
      → (rc : Status) × (z' : Zone) × (add_new ngx main conf r ms mem z key type hash
          ≡ some (rc, z'))
        × IsValid ngx (inorder z'.tree)
  unfolding add_new
  add_new-IsValid main conf r ms mem z key type hash valid short missing free =
      let o = find_lru main mem.lru_info z.tree in
      let t = evict ngx z.tree o in
      let valid' = evict-IsValid ngx law z.tree o valid in
      elim (Option-cases mem.slab) [
        | inl nothing ↦ elim (Bool-cases mem.error_info) [
          | inl given ↦ (
            error,
            record { tree = t; node_caches = z.node_caches; locked = false },
            ground (arith, nothing, given),
            valid',
          )
          | inr failed ↦ (
            error,
            record { tree = t; node_caches = z.node_caches; locked = z.locked },
            ground (arith, nothing, failed),
            valid',
          )
        ]
        | inr ((addr, memory), given) ↦
            let v = new_node conf r key type memory in
            let n : RbNode = record { addr = addr; key = hash; vtsn = v } in
            let q = new_node-HasQueues conf r key type memory in
            let named = name-new_node conf r key type memory n short refl in
            let gone : lookup ngx t (name n) hash ≡ none =
              ap (λ k. lookup ngx t k hash) named
              ∙ evict-lookup ngx law z.tree o key hash valid.sorted missing in
            let inserted =
              rbtree_insert-IsValid ngx law t n valid' gone (free addr memory given) q in
            let z1 : Zone = record z { tree = rbtree_insert ngx t n } in
            let (z', run, w) =
              finish-IsValid conf type ms r.now z1 addr v true inserted
                (rbtree_insert-Kept ngx law t n (free addr memory given)) q in
            (ok, z', ground (arith, given, run), w)
      ]

  add_found-IsValid :
      (conf : LocConf) (r : Request) (ms : ℕ) (z : Zone) (type : ℕ) (m : RbNode)
      → IsValid ngx (inorder z.tree)
      → Member m (inorder z.tree)
      → (rc : Status) × (z' : Zone) × (add_found conf r ms z type m ≡ some (rc, z'))
        × IsValid ngx (inorder z'.tree)
  unfolding add_found
  add_found-IsValid conf r ms z type m valid i =
      let (v, e, q) =
        set-HasQueues conf r m.vtsn
          (All-Member (λ (x : RbNode). HasQueues x.vtsn) (inorder z.tree) m valid.queues i) in
      let k = set-Kept conf r m.vtsn v e in
      let (z', run, w) =
        finish-IsValid conf type ms r.now z m.addr v false valid
          (All-mono (λ (x : RbNode). x.addr ≡ m.addr → x ≡ m) (inorder z.tree)
            (λ x only same. subst (λ (y : RbNode). Kept y.vtsn v) (sym (only same)) k)
            (Distinct-only m (inorder z.tree) valid.distinct i))
          q in
      (ok, z', ground (arith, e, run), w)

  -- `shm_add_node` ends and keeps the tree sorted, its addresses distinct and the queues of its nodes
  -- full, for a known key and a new one, with and without an eviction, and on the error returns. The
  -- cached pointers are live, the key has less than 256 bytes, and the slab gives no address in use.
  pub add_node-IsValid :
      (main : MainConf) (conf : LocConf) (r : Request) (ms : ℕ) (mem : Memory) (z : Zone)
      (key : Bytes) (type : ℕ)
      → IsValid ngx (inorder z.tree)
      → All (Live (inorder z.tree)) z.node_caches
      → length key < 256
      → ((addr : ℕ) (memory : Node)
          → mem.slab ≡ some (addr, memory)
          → FreeAddr addr (inorder (evict ngx z.tree (find_lru main mem.lru_info z.tree))))
      → (rc : Status) × (z' : Zone) × (add_node ngx main conf r ms mem z key type ≡ some (rc, z'))
        × IsValid ngx (inorder z'.tree)
  unfolding add_node
  add_node-IsValid main conf r ms mem z key type valid live short free =
      let z1 : Zone = record z { locked = true } in
      let hash = ngx.crc32_short key in
      elim (Bool-cases (length key == 0)) [
        | inl empty ↦ (error, z, ground (arith, empty), valid)
        | inr nonempty ↦ elim (Found-cases (find_node ngx z1 key type hash)) [
          | inl (m, is_found) ↦
              let i = find_node-Member ngx z1 key type hash m is_found in
              let (rc, z', run, w) = add_found-IsValid conf r ms z1 type m valid i in
              (rc, z', ground (arith, nonempty, is_found, run), w)
          | inr (inl is_null) ↦
              let (rc, z', run, w) =
                add_new-IsValid main conf r ms mem z1 key type hash valid short
                  (find_node-null z1 key type is_null) free in
              (rc, z', ground (arith, nonempty, is_null, run), w)
          | inr (inr is_dangling) ↦ absurd (find_node-Live z1 key type hash live is_dangling)
        ]
      ]
