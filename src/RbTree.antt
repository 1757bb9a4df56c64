-- ===== src/RbTree.antt =====
-- The tree of nodes in shared memory: `node_lookup` of
-- ngx_metric_module/src/ngx_http_vhost_traffic_status_node.c and `rbtree_insert_value` of
-- ngx_http_vhost_traffic_status_module.c. nginx's own tree code, which colours, rotates and unlinks
-- nodes, is the interface `Nginx` below. A tree node is known by its address; its colour and its
-- link to the parent serve nginx's code alone and are left out.
pub mod Order
pub mod Lookup
pub mod Insert
use Prim.Native.Nat.Ordering.{lt, eq, gt}
use metrics_server_example.Base.{
  ℕ, ◌≡◌, Bool, true, false, Option, none, some, List, [], ◌∷◌, ◌++◌, Ordering, compare, ltb, ◌==◌,
  if◌then◌else◌, take, map,
}
use metrics_server_example.Text.{Bytes}
use metrics_server_example.Node.{Node}

-- `ngx_rbtree_node_t` with the node of statistics behind its `color`. `key` is the hash.
pub record RbNode : Type 0 where
  pub addr : ℕ
  pub key : ℕ
  pub vtsn : Node

pub data Tree : Type 0 where
  sentinel : Tree
  fork : Tree → RbNode → Tree → Tree

-- `vtsn->data` with `vtsn->len`.
abbrev pub name : RbNode → Bytes
name m = take m.vtsn.len m.vtsn.name

-- The nodes of a tree from left to right.
unfoldable pub inorder : Tree → List RbNode
inorder sentinel = []
inorder (fork l m r) = inorder l ++ m ∷ inorder r

-- A list without its first node at an address.
unfoldable pub remove : ℕ → List RbNode → List RbNode
remove a [] = []
remove a (m ∷ ms) = if m.addr == a then ms else m ∷ remove a ms

-- What nginx's core provides: `ngx_memn2cmp` on two texts, `ngx_crc32_short`, the rebalancing that
-- `ngx_rbtree_insert` makes after the insertion callback, and `ngx_rbtree_delete` of an address.
pub record Nginx : Type 0 where
  pub memn2cmp : Bytes → Bytes → Ordering
  pub crc32_short : Bytes → ℕ
  pub rebalance : Tree → Tree
  pub rbtree_delete : Tree → ℕ → Tree

-- `ngx_memn2cmp` compares texts in a total order, and the tree code keeps the other nodes in order.
pub record IsLawful (ngx : Nginx) : Type 0 where
  pub cmp_refl : (a : Bytes) → ngx.memn2cmp a a ≡ eq
  pub eq_of_cmp : (a b : Bytes) → ngx.memn2cmp a b ≡ eq → a ≡ b
  pub lt_of_gt : (a b : Bytes) → ngx.memn2cmp a b ≡ gt → ngx.memn2cmp b a ≡ lt
  pub gt_of_lt : (a b : Bytes) → ngx.memn2cmp a b ≡ lt → ngx.memn2cmp b a ≡ gt
  pub lt_trans :
      (a b c : Bytes) → ngx.memn2cmp a b ≡ lt → ngx.memn2cmp b c ≡ lt → ngx.memn2cmp a c ≡ lt
  pub inorder-rebalance : (t : Tree) → inorder (ngx.rebalance t) ≡ inorder t
  pub inorder-delete : (t : Tree) (a : ℕ) → inorder (ngx.rbtree_delete t a) ≡ remove a (inorder t)

module _ (ngx : Nginx) where
  -- `node_lookup`
  unfoldable pub lookup : Tree → Bytes → ℕ → Option RbNode
  lookup sentinel key hash = none
  lookup (fork l m r) key hash = elim (ltb hash m.key) [
    | true ↦ lookup l key hash
    | false ↦ elim (ltb m.key hash) [
      | true ↦ lookup r key hash
      | false ↦ elim (ngx.memn2cmp key (name m)) [
        | eq ↦ some m
        | lt ↦ lookup l key hash
        | gt ↦ lookup r key hash
      ]
    ]
  ]

  -- `rbtree_insert_value`: the new node takes the place of the sentinel at which the walk ends.
  unfoldable pub insert_value : Tree → RbNode → Tree
  insert_value sentinel n = fork sentinel n sentinel
  insert_value (fork l m r) n = elim (ltb n.key m.key) [
    | true ↦ fork (insert_value l n) m r
    | false ↦ elim (ltb m.key n.key) [
      | true ↦ fork l m (insert_value r n)
      | false ↦ elim (ngx.memn2cmp (name n) (name m)) [
        | lt ↦ fork (insert_value l n) m r
        | _ ↦ fork l m (insert_value r n)
      ]
    ]
  ]

  -- `ngx_rbtree_insert` with the callback.
  unfoldable pub rbtree_insert : Tree → RbNode → Tree
  unfolding insert_value
  rbtree_insert t n = ngx.rebalance (insert_value t n)
