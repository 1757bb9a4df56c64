-- ===== src/Zone/Shape.antt =====
-- The tree without the node that gives way and with the new node, in `shm_add_node` of
-- ngx_metric_module/src/ngx_http_vhost_traffic_status_shm.c.
use mathlib.Core.Path.{subst}
use metrics_server_example.Base.{
  ℕ, ◌≡◌, ◌≢◌, refl, sym, ◌∙◌, inl, inr, false, Option, none, some, List, [], ◌∷◌, ◌++◌, ◌==◌, All,
  All-mono, All-append, All-split, Bool-cases,
}
use metrics_server_example.Text.{Bytes}
use metrics_server_example.RbTree.{
  RbNode, Tree, inorder, name, Nginx, IsLawful, remove, rbtree_insert, insert_value, lookup,
}
use metrics_server_example.RbTree.Order.{Sorted, Sorted-remove, All-remove}
use metrics_server_example.RbTree.Lookup.{lookup-find}
use metrics_server_example.RbTree.Insert.{lookup-rbtree_insert}
use metrics_server_example.Zone.{evict}
use metrics_server_example.Zone.Update.{insert_value-PutIn, Distinct}
use metrics_server_example.Zone.Kept.{Kept, FreeAddr, All-PutIn}
use metrics_server_example.Zone.Valid.{HasQueues, IsValid}
use metrics_server_example.Control.Selected.{is_key, find-none_key, find-missing}

Distinct-remove : (a : ℕ) (ms : List RbNode) → Distinct ms → Distinct (remove a ms)
unfolding remove
Distinct-remove a [] d = tt
Distinct-remove a (m ∷ ms) d = elim (Bool-cases (m.addr == a)) [
  | inl e ↦ rw e d.1
  | inr e ↦ rw e (All-remove (λ (x : RbNode). x.addr ≢ m.addr) a ms d.0, Distinct-remove a ms d.1)
]

module _ (ngx : Nginx) (law : IsLawful ngx) where
  pub evict-IsValid :
      (t : Tree) (o : Option RbNode)
      → IsValid ngx (inorder t)
      → IsValid ngx (inorder (evict ngx t o))
  unfolding evict
  evict-IsValid t none v = v
  evict-IsValid t (some m) v = rw (law.inorder-delete t m.addr) (record {
    sorted = Sorted-remove ngx m.addr (inorder t) v.sorted;
    distinct = Distinct-remove m.addr (inorder t) v.distinct;
    queues = All-remove (λ (x : RbNode). HasQueues x.vtsn) m.addr (inorder t) v.queues;
  })

  -- A key that the tree does not have is not there after an eviction.
  pub evict-lookup :
      (t : Tree) (o : Option RbNode) (k : Bytes) (h : ℕ)
      → Sorted ngx (inorder t)
      → lookup ngx t k h ≡ none
      → lookup ngx (evict ngx t o) k h ≡ none
  unfolding evict
  evict-lookup t none k h s e = e
  evict-lookup t (some m) k h s e =
      let t' = ngx.rbtree_delete t m.addr in
      let del = law.inorder-delete t m.addr in
      let none_hit =
        find-none_key ngx law h k (inorder t) (sym (lookup-find ngx t k h law s) ∙ e) in
      lookup-find ngx t' k h law
        (subst (Sorted ngx) (sym del) (Sorted-remove ngx m.addr (inorder t) s))
      ∙ find-missing ngx law h k (inorder t') (
          subst (All (λ x. is_key ngx h k x ≡ false)) (sym del)
            (All-remove (λ x. is_key ngx h k x ≡ false) m.addr (inorder t) none_hit))

  Distinct-PutIn :
      (n : RbNode) (xs ys : List RbNode)
      → Distinct (xs ++ ys)
      → FreeAddr n.addr (xs ++ ys)
      → Distinct (xs ++ n ∷ ys)
  Distinct-PutIn n [] ys d f = (f, d)
  Distinct-PutIn n (x ∷ xs) ys d f =
      let (a, b) = All-split (λ (y : RbNode). y.addr ≢ x.addr) xs ys d.0 in
      (
        All-append (λ (y : RbNode). y.addr ≢ x.addr) xs (n ∷ ys) a ((λ e. f.0 (sym e)), b),
        Distinct-PutIn n xs ys d.1 f.1,
      )

  pub rbtree_insert-IsValid :
      (t : Tree) (n : RbNode)
      → IsValid ngx (inorder t)
      → lookup ngx t (name n) n.key ≡ none
      → FreeAddr n.addr (inorder t)
      → HasQueues n.vtsn
      → IsValid ngx (inorder (rbtree_insert ngx t n))
  unfolding rbtree_insert
  rbtree_insert-IsValid t n v missing free q =
      let p = insert_value-PutIn ngx t n in
      let same = law.inorder-rebalance (insert_value ngx t n) in
      record {
        sorted = (lookup-rbtree_insert ngx t n (name n) n.key law v.sorted missing).0;
        distinct = subst Distinct (sym (same ∙ p.after)) (
            Distinct-PutIn n p.left p.right (subst Distinct p.before v.distinct)
              (subst (FreeAddr n.addr) p.before free));
        queues = subst (All (λ (x : RbNode). HasQueues x.vtsn)) (sym same) (
            All-PutIn (λ (x : RbNode). HasQueues x.vtsn) n (inorder t)
              (inorder (insert_value ngx t n)) p q v.queues);
      }

  pub rbtree_insert-Kept :
      (t : Tree) (n : RbNode)
      → FreeAddr n.addr (inorder t)
      → All (λ x. x.addr ≡ n.addr → Kept x.vtsn n.vtsn) (inorder (rbtree_insert ngx t n))
  unfolding rbtree_insert
  rbtree_insert-Kept t n free =
      subst (All (λ (x : RbNode). x.addr ≡ n.addr → Kept x.vtsn n.vtsn))
        (sym (law.inorder-rebalance (insert_value ngx t n)))
        (All-PutIn (λ (x : RbNode). x.addr ≡ n.addr → Kept x.vtsn n.vtsn) n (inorder t)
          (inorder (insert_value ngx t n)) (insert_value-PutIn ngx t n)
          (λ e. record { type = refl; len = refl; name = refl })
          (All-mono (λ (x : RbNode). x.addr ≢ n.addr) (inorder t) (λ x ne e. absurd (ne e)) free))
