-- ===== src/Filter/Walk.antt =====
-- The order in which `find_lru_node` of ngx_metric_module/src/ngx_http_vhost_traffic_status_node.c walks
-- the tree, and the nodes of lists.
use metrics_server_example.Base.{
  ◌≡◌, List, [], ◌∷◌, ◌++◌, inl, inr, All, All-append, All-split, ◌⊎◌,
}
use metrics_server_example.RbTree.{RbNode, Tree, sentinel, fork, inorder}

abbrev pub Member : RbNode → List RbNode → Type 0
Member v [] = ⊥
Member v (m ∷ ms) = (m ≡ v) ⊎ Member v ms

pub Member-append :
    (v : RbNode) (xs ys : List RbNode) → Member v xs ⊎ Member v ys → Member v (xs ++ ys)
Member-append v [] ys (inl h) = absurd h
Member-append v [] ys (inr h) = h
Member-append v (x ∷ xs) ys (inl (inl e)) = inl e
Member-append v (x ∷ xs) ys (inl (inr h)) = inr (Member-append v xs ys (inl h))
Member-append v (x ∷ xs) ys (inr h) = inr (Member-append v xs ys (inr h))

pub Member-split :
    (v : RbNode) (xs ys : List RbNode) → Member v (xs ++ ys) → Member v xs ⊎ Member v ys
Member-split v [] ys h = inr h
Member-split v (x ∷ xs) ys (inl e) = inl (inl e)
Member-split v (x ∷ xs) ys (inr h) = elim (Member-split v xs ys h) [
  | inl a ↦ inl (inr a)
  | inr b ↦ inr b
]

-- The order of the walk.
unfoldable pub preorder : Tree → List RbNode
preorder sentinel = []
preorder (fork l m r) = m ∷ (preorder l ++ preorder r)

module _ {κ} (P : RbNode → Type κ) where
  pub All-preorder : (t : Tree) → All P (inorder t) → All P (preorder t)
  unfolding inorder preorder
  All-preorder sentinel h = tt
  All-preorder (fork l m r) h =
      let (a, b) = All-split P (inorder l) (m ∷ inorder r) h in
      (b.0, All-append P (preorder l) (preorder r) (All-preorder l a) (All-preorder r b.1))

  pub All-inorder : (t : Tree) → All P (preorder t) → All P (inorder t)
  unfolding inorder preorder
  All-inorder sentinel h = tt
  All-inorder (fork l m r) h =
      let (a, b) = All-split P (preorder l) (preorder r) h.1 in
      All-append P (inorder l) (m ∷ inorder r) (All-inorder l a) (h.0, All-inorder r b)

pub Member-inorder : (v : RbNode) (t : Tree) → Member v (preorder t) → Member v (inorder t)
unfolding inorder preorder
Member-inorder v sentinel h = h
Member-inorder v (fork l m r) (inl e) = Member-append v (inorder l) (m ∷ inorder r) (inr (inl e))
Member-inorder v (fork l m r) (inr h) = elim (Member-split v (preorder l) (preorder r) h) [
  | inl a ↦ Member-append v (inorder l) (m ∷ inorder r) (inl (Member-inorder v l a))
  | inr b ↦ Member-append v (inorder l) (m ∷ inorder r) (inr (inr (Member-inorder v r b)))
]
