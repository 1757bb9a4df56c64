-- ===== src/Zone/Update.antt =====
-- Writes to one node of the tree, as `shm_add_node` of
-- ngx_metric_module/src/ngx_http_vhost_traffic_status_shm.c makes them, on the list of the nodes.
use metrics_server_example.Base.{
  ℕ, ◌+◌, ◌≡◌, ◌≢◌, ◌≤◌, refl, ap, sym, ◌∙◌, true, some, List, [], ◌∷◌, ◌++◌, map, arith, ◌⊎◌, inl,
  inr, append_assoc, ◌==◌, if◌then◌else◌, All, All-mono, Bool-cases,
}
use metrics_server_example.Node.{Node}
use metrics_server_example.RbTree.{
  RbNode, Tree, sentinel, fork, inorder, Nginx, insert_value, remove,
}
use metrics_server_example.Filter.{MainConf, counts}
use metrics_server_example.Filter.Info.{filtered, filtered-append}
use metrics_server_example.Filter.Walk.{Member}
use metrics_server_example.Zone.{update_at, find_addr}
use mathlib.Core.List.{map-append}
use mathlib.Core.Path.{subst}

-- The write at one node.
abbrev pub put : ℕ → Node → RbNode → RbNode
put a v m = if m.addr == a then record m { vtsn = v } else m

pub inorder-update_at :
    (a : ℕ) (v : Node) (t : Tree) → inorder (update_at a v t) ≡ map (put a v) (inorder t)
unfolding inorder update_at
inorder-update_at a v sentinel = refl
inorder-update_at a v (fork l m r) =
    rw (inorder-update_at a v l, inorder-update_at a v r)
      (sym (map-append (put a v) (inorder l) (m ∷ inorder r)))

insert_value-cases :
    (ngx : Nginx) (l r : Tree) (m n : RbNode)
    → (insert_value ngx (fork l m r) n ≡ fork (insert_value ngx l n) m r)
      ⊎ (insert_value ngx (fork l m r) n ≡ fork l m (insert_value ngx r n))
unfolding insert_value
insert_value-cases ngx l r m n = ground arith

-- `zs` is `ys` with `n` put in somewhere.
pub record PutIn (n : RbNode) (ys zs : List RbNode) : Type 0 where
  pub left : List RbNode
  pub right : List RbNode
  pub before : ys ≡ left ++ right
  pub after : zs ≡ left ++ n ∷ right

-- The insertion callback puts a node somewhere between the others.
pub insert_value-PutIn :
    (ngx : Nginx) (t : Tree) (n : RbNode) → PutIn n (inorder t) (inorder (insert_value ngx t n))
unfolding inorder
insert_value-PutIn ngx sentinel n =
    unfold insert_value in record { left = []; right = []; before = refl; after = refl }
insert_value-PutIn ngx (fork l m r) n =
    let a = insert_value-PutIn ngx l n in
    let b = insert_value-PutIn ngx r n in
    elim (insert_value-cases ngx l r m n) [
      | inl e ↦ rw e (record {
        left = a.left;
        right = a.right ++ m ∷ inorder r;
        before =
            ap (λ xs. xs ++ m ∷ inorder r) a.before ∙ append_assoc a.left a.right (m ∷ inorder r);
        after =
            ap (λ xs. xs ++ m ∷ inorder r) a.after
            ∙ append_assoc a.left (n ∷ a.right) (m ∷ inorder r);
      })
      | inr e ↦ rw e (record {
        left = inorder l ++ m ∷ b.left;
        right = b.right;
        before =
            ap (λ xs. inorder l ++ m ∷ xs) b.before
            ∙ sym (append_assoc (inorder l) (m ∷ b.left) b.right);
        after =
            ap (λ xs. inorder l ++ m ∷ xs) b.after
            ∙ sym (append_assoc (inorder l) (m ∷ b.left) (n ∷ b.right));
      })
    ]

-- No two nodes have one address.
abbrev pub Distinct : List RbNode → Type 0
Distinct [] = Unit
Distinct (m ∷ ms) = All (λ x. x.addr ≢ m.addr) ms × Distinct ms

pub find_addr-Member :
    (a : ℕ) (ms : List RbNode) (m : RbNode) → find_addr a ms ≡ some m → Member m ms × (m.addr ≡ a)
unfolding find_addr
find_addr-Member a [] m e = cc
find_addr-Member a (x ∷ ms) m e = ground (arith, find_addr-Member a ms m)

pub All-Member {κ} :
    (P : RbNode → Type κ) (ms : List RbNode) (m : RbNode) → All P ms → Member m ms → P m
All-Member P [] m h i = absurd i
All-Member P (x ∷ ms) m h (inl e) = subst P e h.0
All-Member P (x ∷ ms) m h (inr i) = All-Member P ms m h.1 i

-- A node with an address is the only one.
pub Distinct-only :
    (m : RbNode) (ms : List RbNode)
    → Distinct ms
    → Member m ms
    → All (λ x. x.addr ≡ m.addr → x ≡ m) ms
Distinct-only m [] d h = tt
Distinct-only m (x ∷ ms) d (inl e) =
    ((λ _. e), All-mono (λ y. y.addr ≢ x.addr) ms (λ y ne same. absurd (ne (cc))) d.0)
Distinct-only m (x ∷ ms) d (inr h) = (
  (λ same. absurd (All-Member (λ (y : RbNode). y.addr ≢ x.addr) ms m d.0 h (sym same))),
  Distinct-only m ms d.1 h,
)

module _ (main : MainConf) where
  -- A write that keeps whether the node counts keeps the number of nodes that count.
  pub filtered-put :
      (a : ℕ) (v : Node) (ms : List RbNode)
      → All (λ x. x.addr ≡ a → counts main (record x { vtsn = v }) ≡ counts main x) ms
      → filtered main (map (put a v) ms) ≡ filtered main ms
  unfolding filtered
  filtered-put a v [] h = refl
  filtered-put a v (x ∷ ms) h = elim (Bool-cases (x.addr == a)) [
    | inl e ↦ rw (e, h.0 (ground arith), filtered-put a v ms h.1)
    | inr e ↦ rw (e, filtered-put a v ms h.1)
  ]

  -- Unlinking a node that counts makes room for one.
  pub filtered-remove :
      (m : RbNode) (ms : List RbNode)
      → Distinct ms
      → Member m ms
      → counts main m ≡ true
      → filtered main (remove m.addr ms) + 1 ≡ filtered main ms
  unfolding filtered remove
  filtered-remove m [] d h c = absurd h
  filtered-remove m (x ∷ ms) d (inl e) c =
      let same : x.addr ≡ m.addr = ap (λ (y : RbNode). y.addr) e in ground arith
  filtered-remove m (x ∷ ms) d (inr h) c =
      let other = All-Member (λ (y : RbNode). y.addr ≢ x.addr) ms m d.0 h in
      ground (arith, filtered-remove m ms d.1 h c)

  pub filtered-PutIn :
      (n : RbNode) (ys zs : List RbNode) → PutIn n ys zs → filtered main zs ≤ filtered main ys + 1
  unfolding filtered
  filtered-PutIn n ys zs p =
      rw (p.before, p.after)
        (ground
          (arith, filtered-append main p.left p.right, filtered-append main p.left (n ∷ p.right)))
