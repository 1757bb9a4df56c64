-- ===== src/Zone/Kept.antt =====
-- A node before and after an update by `shm_add_node` of
-- ngx_metric_module/src/ngx_http_vhost_traffic_status_shm.c: its group and its text.
use Prim.Native.Nat.Ordering.{lt, eq, gt}
use mathlib.Core.Path.{subst}
use mathlib.Core.Option.{none-ne-some}
use metrics_server_example.RbTree.Order.{order}
use metrics_server_example.RbTree.Lookup.{lookup-order}
use metrics_server_example.Base.{
  ℕ, ◌+◌, ◌≡◌, ◌≢◌, ◌≤◌, refl, ap, sym, ◌∙◌, Bool, Option, none, some, List, ◌∷◌, arith, ◌⊎◌, inl,
  inr, ◌==◌, if◌then◌else◌, get_or, Ordering, All, All-mono, All-split, All-append, Option-cases,
}
use metrics_server_example.Text.{Bytes}
use metrics_server_example.Node
use metrics_server_example.Node.{Node, Request, LocConf}
use metrics_server_example.RbTree.{
  RbNode, Tree, sentinel, fork, inorder, Nginx, IsLawful, insert_value, rbtree_insert, lookup,
}
use metrics_server_example.Filter.{MainConf, counts}
use metrics_server_example.Filter.Info.{filtered}
use metrics_server_example.Filter.Walk.{Member, Member-append}
use metrics_server_example.Zone.{
  Zone, Found, found, null, dangling, find_node, add_addition, update_at,
}
use metrics_server_example.Zone.Update.{
  inorder-update_at, PutIn, insert_value-PutIn, Distinct, Distinct-only, find_addr-Member,
  filtered-put, filtered-PutIn,
}

pub Found-cases : (f : Found) → ((m : RbNode) × (f ≡ found m)) ⊎ ((f ≡ null) ⊎ (f ≡ dangling))
Found-cases (found m) = inl (m, refl)
Found-cases null = inr (inl refl)
Found-cases dangling = inr (inr refl)

-- What no update of a node touches: its group and its text.
pub record Kept (v v' : Node) : Type 0 where
  pub type : v'.upstream.type ≡ v.upstream.type
  pub len : v'.len ≡ v.len
  pub name : v'.name ≡ v.name

pub Kept-trans : (a b c : Node) → Kept a b → Kept b c → Kept a c
Kept-trans a b c p q = record {
  type = q.type ∙ p.type;
  len = q.len ∙ p.len;
  name = q.name ∙ p.name;
}

pub set-Kept :
    (conf : LocConf) (r : Request) (v v' : Node) → Node.set conf r v ≡ some v' → Kept v v'
unfolding Node.set
set-Kept conf r v v' e = ground arith

pub add_addition-Kept :
    (conf : LocConf) (type ms now : ℕ) (v v' : Node) (is_new : Bool)
    → add_addition conf type ms now v is_new ≡ some v'
    → Kept v v'
unfolding add_addition
add_addition-Kept conf type ms now v v' is_new e = ground arith

pub counts-Kept :
    (main : MainConf) (x : RbNode) (v : Node)
    → Kept x.vtsn v
    → counts main (record x { vtsn = v }) ≡ counts main x
unfolding counts
counts-Kept main x v k = rw (k.type, k.len, k.name)

branch-cases :
    (o : Ordering) (a b : Option RbNode) (x m : RbNode)
    → elim o [ lt ↦ a | eq ↦ some x | gt ↦ b ] ≡ some m
    → (a ≡ some m) ⊎ ((x ≡ m) ⊎ (b ≡ some m))
branch-cases lt a b x m e = inl e
branch-cases eq a b x m e = inr (inl (cc))
branch-cases gt a b x m e = inr (inr e)

pub lookup-Member :
    (ngx : Nginx) (t : Tree) (key : Bytes) (h : ℕ) (m : RbNode)
    → lookup ngx t key h ≡ some m
    → Member m (inorder t)
unfolding inorder
lookup-Member ngx sentinel key h m e = unfold lookup in absurd (none-ne-some m e)
lookup-Member ngx (fork l x r) key h m e =
    let e' = sym (lookup-order ngx l r x key h) ∙ e in
    elim (branch-cases (order ngx h key x) (lookup ngx l key h) (lookup ngx r key h) x m e') [
      | inl a ↦ Member-append m (inorder l) (x ∷ inorder r) (inl (lookup-Member ngx l key h m a))
      | inr (inl a) ↦ Member-append m (inorder l) (x ∷ inorder r) (inr (inl a))
      | inr (inr a) ↦
          Member-append m (inorder l) (x ∷ inorder r) (inr (inr (lookup-Member ngx r key h m a)))
    ]

-- What `find_node` returns is a node of the tree.
pub find_node-Member :
    (ngx : Nginx) (z : Zone) (key : Bytes) (type h : ℕ) (m : RbNode)
    → find_node ngx z key type h ≡ found m
    → Member m (inorder z.tree)
unfolding find_node
find_node-Member ngx z key type h m e =
    let hash = if h == 0 then ngx.crc32_short key else h in
    elim (Option-cases (get_or z.node_caches type none)) [
      | inl none_cached ↦ ground (arith, lookup-Member ngx z.tree key hash m)
      | inr (a, cached) ↦
          ground (arith, lookup-Member ngx z.tree key hash m, find_addr-Member a (inorder z.tree) m)
    ]

-- Writing a node at its address, with its group and text kept, keeps the number of nodes that count.
pub filtered-update_at :
    (main : MainConf) (t : Tree) (m : RbNode) (v : Node)
    → Distinct (inorder t)
    → Member m (inorder t)
    → Kept m.vtsn v
    → filtered main (inorder (update_at m.addr v t)) ≡ filtered main (inorder t)
filtered-update_at main t m v d i k =
    ap (filtered main) (inorder-update_at m.addr v t)
    ∙ filtered-put main m.addr v (inorder t) (
        All-mono (λ x. x.addr ≡ m.addr → x ≡ m) (inorder t)
          (λ x only same.
            counts-Kept main x v (subst (λ (y : RbNode). Kept y.vtsn v) (sym (only same)) k))
          (Distinct-only m (inorder t) d i))

pub All-PutIn {κ} :
    (P : RbNode → Type κ) (n : RbNode) (ys zs : List RbNode)
    → PutIn n ys zs
    → P n
    → All P ys
    → All P zs
All-PutIn P n ys zs p hn h =
    let (a, b) = All-split P p.left p.right (subst (All P) p.before h) in
    subst (All P) (sym p.after) (All-append P p.left (n ∷ p.right) a (hn, b))

-- No node of the list has the address.
abbrev pub FreeAddr : ℕ → List RbNode → Type 0
FreeAddr a = All (λ x. x.addr ≢ a)

-- The same for the node that was just linked at a free address.
pub filtered-insert_update :
    (ngx : Nginx) (main : MainConf) (t : Tree) (n : RbNode) (v : Node)
    → IsLawful ngx
    → FreeAddr n.addr (inorder t)
    → Kept n.vtsn v
    → filtered main (inorder (update_at n.addr v (rbtree_insert ngx t n)))
      ≤ filtered main (inorder t) + 1
unfolding rbtree_insert
filtered-insert_update ngx main t n v law free k =
    let p = insert_value-PutIn ngx t n in
    let same = law.inorder-rebalance (insert_value ngx t n) in
    let zs = inorder (insert_value ngx t n) in
    let kept = filtered-put main n.addr v zs (
      All-PutIn (λ x. x.addr ≡ n.addr → counts main (record x { vtsn = v }) ≡ counts main x) n
        (inorder t) zs p (λ _. counts-Kept main n v k)
        (All-mono (λ x. x.addr ≢ n.addr) (inorder t) (λ x ne e. absurd (ne e)) free)) in
    rw (inorder-update_at n.addr v (ngx.rebalance (insert_value ngx t n)), same, kept)
      (filtered-PutIn main n (inorder t) zs p)
