-- ===== src/Control/Gather.antt =====
-- The nodes that `node_delete_get_nodes` gathers for the command `delete`:
-- ngx_metric_module/src/ngx_http_vhost_traffic_status_control.c.
use mathlib.Core.Path.{subst}
use metrics_server_example.Base.{
  ◌+◌, ◌≤◌, ◌≡◌, ◌≢◌, refl, ap, sym, ◌∙◌, inl, inr, Bool, true, Option, none, some, List, [], ◌∷◌,
  ◌++◌, arith, length, length-append, found_with, found_with-append, size, size-found_with,
}
use metrics_server_example.Text.{Status, ok, error, Status-cases}
use metrics_server_example.RbTree.{RbNode, Tree, sentinel, fork, inorder}
use metrics_server_example.Filter.Walk.{preorder}
use metrics_server_example.Control.{Selector, in_group, Pool, push_node, get_node, delete_get_nodes}
use metrics_server_example.Control.Selected.{chosen, chosen-append}

-- A walk that ends well has found all the nodes of `xs`, and it ends well where there is memory.
abbrev pub Finds :
    Pool → Option (List RbNode) → List RbNode → Status × Option (List RbNode) → Type 0
Finds pool nodes xs r =
    (r.0 ≡ ok → r.1 ≡ found_with nodes xs)
    × (pool.array ≡ true → size nodes + length xs ≤ pool.room → r.0 ≡ ok)

get_node-Finds :
    (g : Selector) (pool : Pool) (m : RbNode) (nodes : Option (List RbNode))
    → Finds pool nodes (chosen (in_group g) (m ∷ [])) (get_node g pool m nodes)
unfolding get_node push_node chosen
get_node-Finds g pool m none = ground arith
get_node-Finds g pool m (some ns) = ground arith

ok-ne-error : ok ≢ error
ok-ne-error e = cc

-- One part of the walk after another, which an error cuts short.
Finds-append :
    (pool : Pool) (nodes : Option (List RbNode)) (xs ys : List RbNode)
    (r : Status × Option (List RbNode)) (k : Option (List RbNode) → Status × Option (List RbNode))
    → Finds pool nodes xs r
    → Finds pool r.1 ys (k r.1)
    → Finds pool nodes (xs ++ ys) (elim r.0 [ error ↦ r | ok ↦ k r.1 ])
Finds-append pool nodes xs ys r k p q = elim (Status-cases r.0) [
  | inl fine ↦ rw fine (
    λ e. q.0 e ∙ ap (λ o. found_with o ys) (p.0 fine) ∙ found_with-append nodes xs ys,
    λ has fits.
        q.1 has (omega (arith, length-append xs ys, size-found_with nodes xs, ap size (p.0 fine))),
  )
  | inr failed ↦ rw failed (
    λ e. absurd (ok-ne-error (sym e ∙ failed)),
    λ has fits. p.1 has (omega (arith, length-append xs ys)),
  )
]

chosen-preorder :
    (P : RbNode → Bool) (l r : Tree) (m : RbNode)
    → chosen P (preorder (fork l m r))
      ≡ chosen P (m ∷ []) ++ (chosen P (preorder l) ++ chosen P (preorder r))
unfolding preorder
chosen-preorder P l r m =
    chosen-append P (m ∷ []) (preorder l ++ preorder r)
    ∙ ap (λ ms. chosen P (m ∷ []) ++ ms) (chosen-append P (preorder l) (preorder r))

pub delete_get_nodes-Finds :
    (g : Selector) (pool : Pool) (t : Tree) (nodes : Option (List RbNode))
    → Finds pool nodes (chosen (in_group g) (preorder t)) (delete_get_nodes g pool t nodes)
unfolding delete_get_nodes
delete_get_nodes-Finds g pool sentinel nodes =
    unfold preorder chosen in (λ e. refl, λ has fits. refl)
delete_get_nodes-Finds g pool (fork l m r) nodes =
    let P = in_group g in
    let here = get_node g pool m nodes in
    let left = delete_get_nodes g pool l here.1 in
    subst (λ xs. Finds pool nodes xs (delete_get_nodes g pool (fork l m r) nodes))
      (sym (chosen-preorder P l r m))
      (Finds-append pool nodes (chosen P (m ∷ [])) (chosen P (preorder l) ++ chosen P (preorder r))
        here
        (λ o. elim (delete_get_nodes g pool l o).0 [
          | error ↦ delete_get_nodes g pool l o
          | ok ↦ delete_get_nodes g pool r (delete_get_nodes g pool l o).1
        ])
        (get_node-Finds g pool m nodes)
        (Finds-append pool here.1 (chosen P (preorder l)) (chosen P (preorder r)) left
          (delete_get_nodes g pool r) (delete_get_nodes-Finds g pool l here.1)
          (delete_get_nodes-Finds g pool r left.1)))

pub length-chosen-preorder :
    (P : RbNode → Bool) (t : Tree) → length (chosen P (preorder t)) ≡ length (chosen P (inorder t))
unfolding inorder chosen
length-chosen-preorder P sentinel = unfold preorder in refl
length-chosen-preorder P (fork l m r) =
    rw (chosen-preorder P l r m, chosen-append P (inorder l) (m ∷ inorder r))
      (ground (
        arith,
        length-append (chosen P (preorder l)) (chosen P (preorder r)),
        length-append (chosen P (inorder l)) (chosen P (m ∷ inorder r)),
        length-chosen-preorder P l,
        length-chosen-preorder P r,
      ))
