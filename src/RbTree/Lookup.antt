-- ===== src/RbTree/Lookup.antt =====
-- `node_lookup` of ngx_metric_module/src/ngx_http_vhost_traffic_status_node.c against a search of
-- all nodes.
use Prim.Native.Nat.Ordering.{lt, eq, gt}
use metrics_server_example.Base.{Ordering-cases, inl, inr, ℕ, ◌≡◌, refl, some, ◌∷◌, arith}
use metrics_server_example.Text.{Bytes}
use metrics_server_example.RbTree.{RbNode, Tree, sentinel, fork, Nginx, IsLawful, inorder, lookup}
use metrics_server_example.RbTree.Order.{
  order, Sorted, Sorted-append, find, find-append, find_above, find_below, find_before,
}

pub lookup-order :
    (ngx : Nginx) (l r : Tree) (m : RbNode) (k : Bytes) (h : ℕ)
    → lookup ngx (fork l m r) k h
      ≡ elim (order ngx h k m) [ lt ↦ lookup ngx l k h | eq ↦ some m | gt ↦ lookup ngx r k h ]
unfolding lookup
lookup-order ngx l r m k h = ground arith

-- In a tree that is sorted from left to right, the walk down finds a node exactly where the list of
-- the nodes has one with that hash and name.
pub lookup-find :
    (ngx : Nginx) (t : Tree) (k : Bytes) (h : ℕ)
    → IsLawful ngx
    → Sorted ngx (inorder t)
    → lookup ngx t k h ≡ find ngx (inorder t) k h
unfolding inorder find
lookup-find ngx sentinel k h law s = unfold lookup in refl
lookup-find ngx (fork l m r) k h law s =
    let (below, sl, above, sr) = Sorted-append ngx law (inorder l) m (inorder r) s in
    rw (lookup-order, find-append ngx law (inorder l) (m ∷ inorder r) k h)
      (elim (Ordering-cases (order ngx h k m)) [
        | inl less ↦
            ground
              (arith, lookup-find ngx l k h law sl, find_above ngx law m (inorder r) k h less above)
        | inr (inl same) ↦ ground (arith, find_before ngx law (inorder l) m k h same below)
        | inr (inr more) ↦
            ground
              (arith, lookup-find ngx r k h law sr, find_below ngx law (inorder l) m k h more below)
      ])
