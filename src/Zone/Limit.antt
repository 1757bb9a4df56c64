-- ===== src/Zone/Limit.antt =====
-- `shm_add_node` of ngx_metric_module/src/ngx_http_vhost_traffic_status_shm.c and the limit
-- `filter_max_node` on the nodes that count.
use mathlib.Core.Option.{none-ne-some}
use metrics_server_example.Base.{
  ℕ, ◌+◌, ◌≡◌, ◌≤◌, ◌<◌, ap, sym, ◌∙◌, Bool, true, false, Option, none, some, arith, inl, inr, ◌==◌,
  ltb, All, Bool-cases, Option-cases, length,
}
use metrics_server_example.Base.Words.{u64_mod}
use metrics_server_example.Text.{Bytes, Status}
use metrics_server_example.Node
use metrics_server_example.Node.{Node, Request, LocConf}
use metrics_server_example.RbTree.{RbNode, Tree, inorder, Nginx, IsLawful, rbtree_insert}
use metrics_server_example.Filter.{MainConf, find_lru}
use metrics_server_example.Filter.Info.{filtered}
use metrics_server_example.Filter.Lru.{HasRequests, find_lru_lem}
use metrics_server_example.Zone.{
  Zone, Found, found, null, dangling, find_node, Memory, add_addition, finish, evict, new_node,
  add_new, add_found, add_node, update_at,
}
use metrics_server_example.Zone.Update.{Distinct, filtered-remove}
use metrics_server_example.Zone.Kept.{
  Found-cases, Kept, Kept-trans, set-Kept, add_addition-Kept, find_node-Member, filtered-update_at,
  FreeAddr, filtered-insert_update,
}

finish-tree :
    (conf : LocConf) (type ms now : ℕ) (z : Zone) (addr : ℕ) (v : Node) (is_new : Bool)
    (rc : Status) (z' : Zone)
    → finish conf type ms now z addr v is_new ≡ some (rc, z')
    → (w : Node) × Kept v w × (z'.tree ≡ update_at addr w z.tree)
unfolding finish
finish-tree conf type ms now z addr v is_new rc z' e =
    elim (Option-cases (add_addition conf type ms now v is_new)) [
      | inl none_added ↦ absurd (ground (arith, none_added))
      | inr (w, added) ↦
          (w, add_addition-Kept conf type ms now v w is_new added, ground (arith, added))
    ]

add_found-tree :
    (conf : LocConf) (r : Request) (ms : ℕ) (z : Zone) (type : ℕ) (m : RbNode) (rc : Status)
    (z' : Zone)
    → add_found conf r ms z type m ≡ some (rc, z')
    → (w : Node) × Kept m.vtsn w × (z'.tree ≡ update_at m.addr w z.tree)
unfolding add_found
add_found-tree conf r ms z type m rc z' e = elim (Option-cases (Node.set conf r m.vtsn)) [
  | inl none_set ↦ absurd (ground (arith, none_set))
  | inr (v, is_set) ↦
      let (w, k, same) = finish-tree conf type ms r.now z m.addr v false rc z' (
        sym (
          ap (λ o. elim o [ none ↦ none | some v ↦ finish conf type ms r.now z m.addr v false ])
            is_set)
        ∙ e) in
      (w, Kept-trans m.vtsn v w (set-Kept conf r m.vtsn v is_set) k, same)
]

module _ (ngx : Nginx) (main : MainConf) (law : IsLawful ngx) where
  -- With a limit that is kept, the eviction leaves room for one node.
  evict-room :
      (t : Tree)
      → Distinct (inorder t)
      → All HasRequests (inorder t)
      → 0 < main.filter_max_node
      → filtered main (inorder t) ≤ main.filter_max_node
      → main.filter_max_node < u64_mod
      → filtered main (inorder (evict ngx t (find_lru main true t))) + 1 ≤ main.filter_max_node
  unfolding evict
  evict-room t d h on kept word =
      let (room, full, failed) = find_lru_lem main t h (omega arith) in
      elim (Bool-cases (ltb (filtered main (inorder t)) main.filter_max_node)) [
        | inl less ↦ rw (room (inr (ground arith))) (ground arith)
        | inr more ↦
            let (v, e, w) = full on (ground arith) in
            rw (e, law.inorder-delete t v.addr)
              (omega (arith, filtered-remove main v (inorder t) d w.member w.counted))
      ]

  add_new-filtered :
      (conf : LocConf) (r : Request) (ms : ℕ) (mem : Memory) (z : Zone) (key : Bytes)
      (type hash : ℕ) (rc : Status) (z' : Zone)
      → ((addr : ℕ) (memory : Node)
          → mem.slab ≡ some (addr, memory)
          → FreeAddr addr (inorder (evict ngx z.tree (find_lru main mem.lru_info z.tree))))
      → add_new ngx main conf r ms mem z key type hash ≡ some (rc, z')
      → filtered main (inorder z'.tree)
        ≤ filtered main (inorder (evict ngx z.tree (find_lru main mem.lru_info z.tree))) + 1
  unfolding add_new
  add_new-filtered conf r ms mem z key type hash rc z' free e =
      let t = evict ngx z.tree (find_lru main mem.lru_info z.tree) in
      elim (Option-cases mem.slab) [
        | inl none_given ↦ elim (Bool-cases mem.error_info) [
          | inl given ↦
              let same : t ≡ z'.tree = ground (arith, none_given, given) in
              rw (sym same) (omega arith)
          | inr failed ↦
              let same : t ≡ z'.tree = ground (arith, none_given, failed) in
              rw (sym same) (omega arith)
        ]
        | inr ((addr, memory), given) ↦
            let v = new_node conf r key type memory in
            let n : RbNode = record { addr = addr; key = hash; vtsn = v } in
            let z1 : Zone = record z { tree = rbtree_insert ngx t n } in
            let e' : finish conf type ms r.now z1 addr v true ≡ some (rc, z') =
              ground (arith, given) in
            let (w, k, same) = finish-tree conf type ms r.now z1 addr v true rc z' e' in
            rw same (filtered-insert_update ngx main t n w law (free addr memory given) k)
      ]

  -- `shm_add_node` keeps the nodes that count within `filter_max_node`, where the limit is on, is kept
  -- so far and fits a word, `find_lru` gets its memory, no two nodes share an address and each has seen
  -- a request, and the slab gives no address in use. This holds for a known key, for a new key with and
  -- without an eviction, and on the error returns.
  pub filtered-add_node :
      (conf : LocConf) (r : Request) (ms : ℕ) (mem : Memory) (z : Zone) (key : Bytes) (type : ℕ)
      (rc : Status) (z' : Zone)
      → Distinct (inorder z.tree)
      → All HasRequests (inorder z.tree)
      → 0 < main.filter_max_node
      → filtered main (inorder z.tree) ≤ main.filter_max_node
      → main.filter_max_node < u64_mod
      → mem.lru_info ≡ true
      → ((addr : ℕ) (memory : Node)
          → mem.slab ≡ some (addr, memory)
          → FreeAddr addr (inorder (evict ngx z.tree (find_lru main mem.lru_info z.tree))))
      → add_node ngx main conf r ms mem z key type ≡ some (rc, z')
      → filtered main (inorder z'.tree) ≤ main.filter_max_node
  unfolding add_node
  filtered-add_node conf r ms mem z key type rc z' d h on kept word alloc free e =
      let z1 : Zone = record z { locked = true } in
      let hash = ngx.crc32_short key in
      let run : Found → Option (Status × Zone) = λ f. elim f [
        | found m ↦ add_found conf r ms z1 type m
        | null ↦ add_new ngx main conf r ms mem z1 key type hash
        | dangling ↦ none
      ] in
      elim (Bool-cases (length key == 0)) [
        | inl empty ↦ let same : z ≡ z' = ground (arith, empty) in rw (sym same) kept
        | inr nonempty ↦
            let e' : run (find_node ngx z1 key type hash) ≡ some (rc, z') =
              ground (arith, nonempty) in
            elim (Found-cases (find_node ngx z1 key type hash)) [
              | inl (m, is_found) ↦
                  let (w, k, same) =
                    add_found-tree conf r ms z1 type m rc z' (sym (ap run is_found) ∙ e') in
                  rw
                    (
                      same,
                      filtered-update_at main z.tree m w d
                          (find_node-Member ngx z1 key type hash m is_found) k,
                    )
                    kept
              | inr (inl is_null) ↦
                  let grown : filtered main (inorder z'.tree)
                      ≤ filtered main (inorder (evict ngx z.tree (find_lru main true z.tree))) + 1 =
                    rw (sym alloc) (
                      add_new-filtered conf r ms mem z1 key type hash rc z' free
                        (sym (ap run is_null) ∙ e')) in
                  let room = evict-room z.tree d h on kept word in omega arith
              | inr (inr is_dangling) ↦
                  absurd (none-ne-some (rc, z') (sym (ap run is_dangling) ∙ e'))
            ]
      ]
