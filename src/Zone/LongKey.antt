-- ===== src/Zone/LongKey.antt =====
-- Keys of 256 bytes and more in `shm_add_node` of
-- ngx_metric_module/src/ngx_http_vhost_traffic_status_shm.c.
use Prim.Native.Nat.Ordering.{eq}
use metrics_server_example.Base.{
  ℕ, zero, suc, ◌≤◌, ◌<◌, ◌≡◌, ◌≢◌, refl, ap, ◌∙◌, inl, inr, none, [], ◌∷◌, arith, take, length,
  All, All-split, Ordering-cases, ◌^◌,
}
use metrics_server_example.Text.{Bytes}
use metrics_server_example.Node.{Node, Request, LocConf}
use metrics_server_example.RbTree.{
  RbNode, Tree, sentinel, fork, inorder, name, Nginx, IsLawful, lookup,
}
use metrics_server_example.RbTree.Order.{order}
use metrics_server_example.RbTree.Lookup.{lookup-order}
use metrics_server_example.Zone.{new_node}

length-take : (n : ℕ) (xs : Bytes) → length (take n xs) ≤ n
length-take zero xs = omega arith
length-take (suc n) [] = omega arith
length-take (suc n) (x ∷ xs) = omega (arith, length-take n xs)

-- The length of a node fits the `u_char` that it was cut to.
abbrev pub Short : RbNode → Type 0
Short m = m.vtsn.len < 2 ^ 8

module _ (ngx : Nginx) (law : IsLawful ngx) where
  order-Short :
      (h : ℕ) (key : Bytes) (m : RbNode) → 2 ^ 8 ≤ length key → Short m → order ngx h key m ≢ eq
  order-Short h key m long short e =
      let same : ngx.memn2cmp key (name m) ≡ eq = ground arith in
      let keys = ap length (law.eq_of_cmp key (name m) same) in
      omega (arith, keys, length-take m.vtsn.len m.vtsn.name)

  lookup-Short :
      (t : Tree) (key : Bytes) (h : ℕ)
      → 2 ^ 8 ≤ length key
      → All Short (inorder t)
      → lookup ngx t key h ≡ none
  unfolding inorder
  lookup-Short sentinel key h long a = unfold lookup in refl
  lookup-Short (fork l m r) key h long a =
      let (left, right) = All-split Short (inorder l) (m ∷ inorder r) a in
      lookup-order ngx l r m key h ∙ elim (Ordering-cases (order ngx h key m)) [
        | inl less ↦ ground (arith, less, lookup-Short l key h long left)
        | inr (inl same) ↦ absurd (order-Short h key m long right.0 same)
        | inr (inr more) ↦ ground (arith, more, lookup-Short r key h long right.1)
      ]

  -- For a key of 256 bytes or more, whatever its hash, the new node's length is cut to a byte, and a tree
  -- of nodes whose lengths are so cut has no node that `node_lookup` finds.
  pub lookup-new_node :
      (conf : LocConf) (r : Request) (type : ℕ) (memory : Node) (t : Tree) (key : Bytes) (h : ℕ)
      → 2 ^ 8 ≤ length key
      → All Short (inorder t)
      → ((new_node conf r key type memory).len < 2 ^ 8) × (lookup ngx t key h ≡ none)
  unfolding new_node
  lookup-new_node conf r type memory t key h long a = (omega arith, lookup-Short t key h long a)
