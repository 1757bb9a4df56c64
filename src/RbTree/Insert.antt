-- ===== src/RbTree/Insert.antt =====
-- Insertion with `rbtree_insert_value` of
-- ngx_metric_module/src/ngx_http_vhost_traffic_status_module.c, seen through `node_lookup`.
use Prim.Native.Nat.Ordering.{lt, eq, gt}
use mathlib.Core.Path.{subst}
use metrics_server_example.Base.{
  Ordering-cases, inl, inr, ℕ, ◌≡◌, ◌≢◌, refl, ◌∙◌, ap, sym, Option, none, some, List, [], ◌∷◌,
  ◌++◌, append_assoc, arith, All, All-split, All-append, All-mono,
}
use metrics_server_example.Text.{Bytes}
use metrics_server_example.RbTree.{
  RbNode, Tree, sentinel, fork, name, Nginx, IsLawful, inorder, insert_value, rbtree_insert, lookup,
}
use metrics_server_example.RbTree.Order.{
  order, order_trans, Lt, Sorted, Sorted-append, Sorted-insert, find, find-append, find_before,
}
use metrics_server_example.RbTree.Lookup.{lookup-find}

-- `zs` is `ys` with the node `n` put in, behind all smaller nodes and before all larger ones.
record Inserted (ngx : Nginx) (n : RbNode) (ys zs : List RbNode) : Type 0 where
  left : List RbNode
  right : List RbNode
  before : ys ≡ left ++ right
  after : zs ≡ left ++ n ∷ right
  smaller : All (λ x. Lt ngx x n) left
  larger : All (Lt ngx n) right

module _ (ngx : Nginx) (law : IsLawful ngx) (n : RbNode) where
  -- The key of the new node is not in the tree.
  abbrev Fresh : List RbNode → Type 0
  Fresh = All (λ x. order ngx n.key (name n) x ≢ eq)

  insert_value-lt :
      (l r : Tree) (m : RbNode)
      → order ngx n.key (name n) m ≡ lt
      → insert_value ngx (fork l m r) n ≡ fork (insert_value ngx l n) m r
  unfolding insert_value
  insert_value-lt l r m e = ground arith

  insert_value-gt :
      (l r : Tree) (m : RbNode)
      → order ngx n.key (name n) m ≡ gt
      → insert_value ngx (fork l m r) n ≡ fork l m (insert_value ngx r n)
  unfolding insert_value
  insert_value-gt l r m e = ground arith

  flip : (m : RbNode) → order ngx n.key (name n) m ≡ gt → Lt ngx m n
  flip m e = ground (arith, law.lt_of_gt (name n) (name m))

  insert_left :
      (xs zs rest : List RbNode) (m : RbNode)
      → Lt ngx n m
      → All (Lt ngx m) rest
      → Inserted ngx n xs zs
      → Inserted ngx n (xs ++ m ∷ rest) (zs ++ m ∷ rest)
  insert_left xs zs rest m less above i = record {
    left = i.left;
    right = i.right ++ m ∷ rest;
    before = ap (λ l. l ++ m ∷ rest) i.before ∙ append_assoc i.left i.right (m ∷ rest);
    after = ap (λ l. l ++ m ∷ rest) i.after ∙ append_assoc i.left (n ∷ i.right) (m ∷ rest);
    smaller = i.smaller;
    larger =
        All-append (Lt ngx n) i.right (m ∷ rest) i.larger
          (less, All-mono (Lt ngx m) rest (λ x. order_trans ngx law n.key (name n) m x less) above);
  }

  insert_right :
      (xs zs front : List RbNode) (m : RbNode)
      → Lt ngx m n
      → All (λ x. Lt ngx x m) front
      → Inserted ngx n xs zs
      → Inserted ngx n (front ++ m ∷ xs) (front ++ m ∷ zs)
  insert_right xs zs front m more below i = record {
    left = front ++ m ∷ i.left;
    right = i.right;
    before = ap (λ l. front ++ m ∷ l) i.before ∙ sym (append_assoc front (m ∷ i.left) i.right);
    after = ap (λ l. front ++ m ∷ l) i.after ∙ sym (append_assoc front (m ∷ i.left) (n ∷ i.right));
    smaller =
        All-append (λ x. Lt ngx x n) front (m ∷ i.left)
          (All-mono (λ x. Lt ngx x m) front (λ x h. order_trans ngx law x.key (name x) m n h more)
            below)
          (more, i.smaller);
    larger = i.larger;
  }

  insert_value-Inserted :
      (t : Tree)
      → Sorted ngx (inorder t)
      → Fresh (inorder t)
      → Inserted ngx n (inorder t) (inorder (insert_value ngx t n))
  unfolding inorder
  insert_value-Inserted sentinel s f =
      unfold insert_value in
      record { left = []; right = []; before = refl; after = refl; smaller = tt; larger = tt }
  insert_value-Inserted (fork l m r) s f =
      let (below, sl, above, sr) = Sorted-append ngx law (inorder l) m (inorder r) s in
      let (fl, fr) =
        All-split (λ x. order ngx n.key (name n) x ≢ eq) (inorder l) (m ∷ inorder r) f in
      elim (Ordering-cases (order ngx n.key (name n) m)) [
        | inl less ↦ rw (insert_value-lt l r m less) (
            insert_left (inorder l) (inorder (insert_value ngx l n)) (inorder r) m less above
              (insert_value-Inserted l sl fl))
        | inr (inl same) ↦ absurd (fr.0 same)
        | inr (inr more) ↦ rw (insert_value-gt l r m more) (
            insert_right (inorder r) (inorder (insert_value ngx r n)) (inorder l) m (flip m more)
              below (insert_value-Inserted r sr fr.1))
      ]

  find-none-Fresh : (ms : List RbNode) → find ngx ms (name n) n.key ≡ none → Fresh ms
  unfolding find
  find-none-Fresh [] e = tt
  find-none-Fresh (m ∷ ms) e = ground (arith, find-none-Fresh ms)

module _ (ngx : Nginx) (law : IsLawful ngx) (n : RbNode) (ys zs : List RbNode) where
  Inserted-Sorted : Sorted ngx ys → Inserted ngx n ys zs → Sorted ngx zs
  Inserted-Sorted s i =
      rw i.after
        (Sorted-insert ngx law i.left n i.right (subst (Sorted ngx) i.before s) i.smaller i.larger)

  find-Inserted :
      (k : Bytes) (h : ℕ)
      → Inserted ngx n ys zs
      → find ngx zs k h ≡ elim (order ngx h k n) [ eq ↦ some n | _ ↦ find ngx ys k h ]
  unfolding find
  find-Inserted k h i =
      subst (λ ms. find ngx zs k h ≡ elim (order ngx h k n) [ eq ↦ some n | _ ↦ find ngx ms k h ])
        (sym i.before)
        (ap (λ ms. find ngx ms k h) i.after
          ∙ find-append ngx law i.left (n ∷ i.right) k h
          ∙ ground (
            arith,
            find-append ngx law i.left i.right k h,
            λ (e : order ngx h k n ≡ eq). find_before ngx law i.left n k h e i.smaller,
          ))

-- Inserting a node whose hash and name the tree does not have keeps the tree sorted; afterwards that
-- key finds the new node, and every other key finds what it found before.
pub lookup-rbtree_insert :
    (ngx : Nginx) (t : Tree) (n : RbNode) (k : Bytes) (h : ℕ)
    → IsLawful ngx
    → Sorted ngx (inorder t)
    → lookup ngx t (name n) n.key ≡ none
    → Sorted ngx (inorder (rbtree_insert ngx t n))
      × (lookup ngx (rbtree_insert ngx t n) k h
          ≡ elim (order ngx h k n) [ eq ↦ some n | _ ↦ lookup ngx t k h ])
unfolding rbtree_insert
lookup-rbtree_insert ngx t n k h law s e =
    let fresh =
      find-none-Fresh ngx law n (inorder t) (sym (lookup-find ngx t (name n) n.key law s) ∙ e) in
    let i = insert_value-Inserted ngx law n t s fresh in
    let same = law.inorder-rebalance (insert_value ngx t n) in
    let sorted : Sorted ngx (inorder (ngx.rebalance (insert_value ngx t n))) =
      rw same (Inserted-Sorted ngx law n _ _ s i) in
    (
      sorted,
      lookup-find ngx (ngx.rebalance (insert_value ngx t n)) k h law sorted
          ∙ ap (λ ms. find ngx ms k h) same
          ∙ find-Inserted ngx law n _ _ k h i
          ∙ ap (λ (o : Option RbNode). elim (order ngx h k n) [ eq ↦ some n | _ ↦ o ])
              (sym (lookup-find ngx t k h law s)),
    )
