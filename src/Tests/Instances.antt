-- ===== src/Tests/Instances.antt =====
-- A concrete nginx core: texts compared byte by byte, a tree that is never rebalanced, and deletion
-- that rebuilds the tree from its nodes in order.
use Prim.Native.Nat.Ordering.{lt, eq, gt}
use metrics_server_example.Base.{
  ℕ, ◌≡◌, refl, ap, List, [], ◌∷◌, arith, Ordering, ltb, if◌then◌else◌, length,
}
use metrics_server_example.Text.{Bytes}
use metrics_server_example.RbTree.{RbNode, Tree, sentinel, fork, inorder, remove, Nginx, IsLawful}

unfoldable pub cmp : Bytes → Bytes → Ordering
cmp [] [] = eq
cmp [] (b ∷ bs) = lt
cmp (a ∷ as') [] = gt
cmp (a ∷ as') (b ∷ bs) =
    let rest = cmp as' bs in if ltb a b then lt else (if ltb b a then gt else rest)

cmp_refl : (a : Bytes) → cmp a a ≡ eq
unfolding cmp
cmp_refl [] = refl
cmp_refl (x ∷ xs) = ground (arith, cmp_refl xs)

eq_of_cmp : (a b : Bytes) → cmp a b ≡ eq → a ≡ b
unfolding cmp
eq_of_cmp [] [] e = refl
eq_of_cmp [] (y ∷ ys) e = ground arith
eq_of_cmp (x ∷ xs) [] e = ground arith
eq_of_cmp (x ∷ xs) (y ∷ ys) e = ground (arith, eq_of_cmp xs ys)

lt_of_gt : (a b : Bytes) → cmp a b ≡ gt → cmp b a ≡ lt
unfolding cmp
lt_of_gt [] [] e = ground arith
lt_of_gt [] (y ∷ ys) e = ground arith
lt_of_gt (x ∷ xs) [] e = refl
lt_of_gt (x ∷ xs) (y ∷ ys) e = ground (arith, lt_of_gt xs ys)

gt_of_lt : (a b : Bytes) → cmp a b ≡ lt → cmp b a ≡ gt
unfolding cmp
gt_of_lt [] [] e = ground arith
gt_of_lt [] (y ∷ ys) e = refl
gt_of_lt (x ∷ xs) [] e = ground arith
gt_of_lt (x ∷ xs) (y ∷ ys) e = ground (arith, gt_of_lt xs ys)

lt_trans : (a b c : Bytes) → cmp a b ≡ lt → cmp b c ≡ lt → cmp a c ≡ lt
unfolding cmp
lt_trans [] [] c e f = ground arith
lt_trans [] (y ∷ ys) [] e f = ground arith
lt_trans [] (y ∷ ys) (z ∷ zs) e f = refl
lt_trans (x ∷ xs) [] c e f = ground arith
lt_trans (x ∷ xs) (y ∷ ys) [] e f = ground arith
lt_trans (x ∷ xs) (y ∷ ys) (z ∷ zs) e f = ground (arith, lt_trans xs ys zs)

unfoldable chain : List RbNode → Tree
chain [] = sentinel
chain (m ∷ ms) = fork sentinel m (chain ms)

inorder-chain : (ms : List RbNode) → inorder (chain ms) ≡ ms
unfolding inorder chain
inorder-chain [] = refl
inorder-chain (m ∷ ms) = ap (λ xs. m ∷ xs) (inorder-chain ms)

unfoldable pub unlink : Tree → ℕ → Tree
unfolding chain
unlink t a = chain (remove a (inorder t))

inorder-delete : (t : Tree) (a : ℕ) → inorder (unlink t a) ≡ remove a (inorder t)
unfolding unlink
inorder-delete t a = inorder-chain (remove a (inorder t))

-- The hash of a text is its length here.
abbrev pub test_nginx : Nginx
test_nginx = record {
  memn2cmp = cmp;
  crc32_short = length;
  rebalance = λ t. t;
  rbtree_delete = unlink;
}

pub test_nginx-IsLawful : IsLawful test_nginx
test_nginx-IsLawful = record {
  cmp_refl = cmp_refl;
  eq_of_cmp = eq_of_cmp;
  lt_of_gt = lt_of_gt;
  gt_of_lt = gt_of_lt;
  lt_trans = lt_trans;
  inorder-rebalance = λ t. refl;
  inorder-delete = inorder-delete;
}
