-- ===== src/Control/Delete.antt =====
-- The command `delete` of ngx_metric_module/src/ngx_http_vhost_traffic_status_control.c.
use mathlib.Core.Path.{subst}
use metrics_server_example.Base.{
  found_with, ℕ, zero, suc, ◌+◌, ◌≤◌, ◌<◌, ◌≡◌, refl, ap, sym, ◌∙◌, inl, inr, Bool, true, false,
  Option, none, some, List, [], ◌∷◌, ◌==◌, arith, length, All,
}
use metrics_server_example.Base.Words.{u64_mod, add64}
use metrics_server_example.Text.{Status, ok, error}
use metrics_server_example.RbTree.{RbNode, Tree, sentinel, fork, inorder, Nginx, IsLawful}
use metrics_server_example.RbTree.Order.{Sorted}
use metrics_server_example.Filter.Walk.{Member-append, preorder}
use metrics_server_example.Zone.Update.{Distinct}
use metrics_server_example.Control.{
  Selector, Control, in_group, Pool, delete_get_nodes, delete_nodes, delete_group, delete_zone,
  delete_all_loop, delete_all, delete,
}
use metrics_server_example.Control.Removal.{
  length-remove, listed, unchosen-Distinct, unchosen-unchosen, unchosen-same, remove-unchosen,
  listed-chosen, length-chosen-le, remove-Alone,
}
use metrics_server_example.Control.Gather.{delete_get_nodes-Finds, length-chosen-preorder}
use metrics_server_example.Control.Selected.{
  selects, zone_selects, chosen, unchosen, chosen-none, zone_node-cases, Range-cases, All-true,
}

module _ (ngx : Nginx) (law : IsLawful ngx) where
  -- Enough fuel empties the tree, and counts its nodes.
  delete_all_loop-empties :
      (f : ℕ) (t : Tree) (count : ℕ)
      → length (inorder t) < f
      → count < u64_mod
      → delete_all_loop ngx f t count ≡ some (sentinel, add64 count (length (inorder t)))
  unfolding delete_all_loop inorder
  delete_all_loop-empties zero t count h small = absurd (omega arith)
  delete_all_loop-empties (suc f) sentinel count h small =
      ap (λ n. some (sentinel, n)) (omega arith)
  delete_all_loop-empties (suc f) (fork l m r) count h small =
      let t : Tree = fork l m r in
      let less : length (inorder (ngx.rbtree_delete t m.addr)) + 1 ≡ length (inorder t) =
        rw (law.inorder-delete t m.addr) (
          length-remove m (inorder t)
            (Member-append m (inorder l) (m ∷ inorder r) (inr (inl refl)))) in
      delete_all_loop-empties f (ngx.rbtree_delete t m.addr) (add64 count 1) (omega arith)
        (omega arith)
      ∙ ap (λ n. some (sentinel, n)) (omega arith)

  delete_nodes-unchosen :
      (ms : List RbNode) (t : Tree) (count : ℕ)
      → Distinct (inorder t)
      → count < u64_mod
      → (inorder (delete_nodes ngx ms t count).0 ≡ unchosen (listed ms) (inorder t))
        × ((delete_nodes ngx ms t count).1 ≡ add64 count (length ms))
  unfolding delete_nodes listed
  delete_nodes-unchosen [] t count d small =
      (sym (chosen-none (λ _. false) (inorder t) (All-true (inorder t))).1, omega arith)
  delete_nodes-unchosen (m ∷ ms) t count d small =
      let t' = ngx.rbtree_delete t m.addr in
      let once : inorder t' ≡ unchosen (λ x. x.addr == m.addr) (inorder t) =
        law.inorder-delete t m.addr ∙ remove-unchosen m.addr (inorder t) d in
      let (nodes, counted) =
        delete_nodes-unchosen ms t' (add64 count 1)
          (subst Distinct (sym once) (unchosen-Distinct (λ x. x.addr == m.addr) (inorder t) d))
          (omega arith) in
      (
        nodes
            ∙ ap (unchosen (listed ms)) once
            ∙ unchosen-unchosen (λ x. x.addr == m.addr) (listed ms) (inorder t),
        omega (arith, counted),
      )

delete_nodes-found :
    (ngx : Nginx) (t : Tree) (count : ℕ) (xs : List RbNode) (r : Status × Option (List RbNode))
    → r.0 ≡ ok
    → r.1 ≡ found_with none xs
    → elim r.1 [
      | none ↦ (t, count)
      | some ms ↦ elim r.0 [ ok ↦ delete_nodes ngx ms t count | error ↦ (t, count) ]
    ]
      ≡ delete_nodes ngx xs t count
unfolding delete_nodes
delete_nodes-found ngx t count [] r fine given = rw given refl
delete_nodes-found ngx t count (x ∷ xs) r fine given = rw (given, fine) refl

-- What a deletion of the nodes of `P` makes of a tree and a count.
record Deletes (P : RbNode → Bool) (t : Tree) (count : ℕ) (r : Tree × ℕ) : Type 0 where
  nodes : inorder r.0 ≡ unchosen P (inorder t)
  counted : r.1 ≡ add64 count (length (chosen P (inorder t)))

nothing-Deletes :
    (P : RbNode → Bool) (t : Tree) (count : ℕ)
    → count < u64_mod
    → All (λ x. P x ≡ false) (inorder t)
    → Deletes P t count (t, count)
nothing-Deletes P t count small none_hit = record {
  nodes = sym (chosen-none P (inorder t) none_hit).1;
  counted = rw (chosen-none P (inorder t) none_hit).0 (omega arith);
}

Deletes-run :
    (P : RbNode → Bool) (t : Tree) (count : ℕ) (r : Tree × ℕ)
    → Deletes P t count r
    → (t' : Tree) × (some r ≡ some (t', add64 count (length (chosen P (inorder t)))))
      × (inorder t' ≡ unchosen P (inorder t))
Deletes-run P t count r h = (r.0, ap (λ n. some (r.0, n)) h.counted, h.nodes)

everything : (ms : List RbNode) → (unchosen (λ _. true) ms ≡ []) × (chosen (λ _. true) ms ≡ ms)
unfolding unchosen chosen
everything [] = (refl, refl)
everything (m ∷ ms) = ground (arith, everything ms)

module _ (ngx : Nginx) (law : IsLawful ngx) where
  -- `node_delete_group` deletes the group where there is memory for the array of its nodes.
  delete_group-Deletes :
      (g : Selector) (pool : Pool) (t : Tree) (count : ℕ)
      → Distinct (inorder t)
      → count < u64_mod
      → pool.array ≡ true
      → length (chosen (in_group g) (inorder t)) ≤ pool.room
      → Deletes (in_group g) t count (delete_group ngx g pool t count)
  unfolding delete_group
  delete_group-Deletes g pool t count d small has fits =
      let P = in_group g in
      let finds = delete_get_nodes-Finds g pool t none in
      let fine = finds.1 has (omega (arith, length-chosen-preorder P t)) in
      let given = finds.0 fine in
      let xs = chosen P (preorder t) in
      let run = delete_nodes-found ngx t count xs (delete_get_nodes g pool t none) fine given in
      let (nodes, counted) = delete_nodes-unchosen ngx law xs t count d small in
      rw run (record {
        nodes = nodes ∙ unchosen-same (listed xs) P (inorder t) (listed-chosen P t d);
        counted = counted ∙ ap (λ n. add64 count n) (length-chosen-preorder P t);
      })

  -- `node_delete_all` empties the tree.
  delete_all-Deletes :
      (t : Tree) (count : ℕ)
      → count < u64_mod
      → (t' : Tree) × (delete_all ngx t count
          ≡ some (t', add64 count (length (chosen (λ _. true) (inorder t)))))
        × (inorder t' ≡ unchosen (λ _. true) (inorder t))
  unfolding delete_all inorder
  delete_all-Deletes t count small =
      let (nothing_left, whole) = everything (inorder t) in
      (
        sentinel,
        rw whole (
            delete_all_loop-empties ngx law (suc (length (inorder t))) t count (omega arith) small),
        sym nothing_left,
      )

  -- `node_delete_zone` deletes the node of its key, if there is one.
  delete_zone-Deletes :
      (c : Control) (pool : Pool) (t : Tree)
      → Sorted ngx (inorder t)
      → Distinct (inorder t)
      → pool.key ≡ true
      → c.count < u64_mod
      → Deletes (zone_selects ngx c) t c.count (delete_zone ngx c pool t)
  unfolding delete_zone
  delete_zone-Deletes c pool t s d has small = elim (zone_node-cases ngx c pool t law s has) [
    | inl (missing, none_hit) ↦
        rw (delete_zone, missing) (nothing-Deletes (zone_selects ngx c) t c.count small none_hit)
    | inr (m, there, alone) ↦
        let (nodes, one) = remove-Alone (zone_selects ngx c) m (inorder t) alone d in
        rw (delete_zone, there)
          (record { nodes = law.inorder-delete t m.addr ∙ nodes; counted = rw one refl })
  ]

-- The command `delete` ends, unlinks exactly the nodes of its range (all, those of its group, or the
-- one of its key), leaves every other node as it is and in its order, and counts the unlinked nodes, as
-- a 64-bit word. The tree is sorted, no two nodes share an address, there is memory for the key and
-- for the array of the nodes, and the count so far is a word.
pub delete_lem :
    (ngx : Nginx) (c : Control) (pool : Pool) (t : Tree)
    → IsLawful ngx
    → Sorted ngx (inorder t)
    → Distinct (inorder t)
    → pool.key ≡ true
    → pool.array ≡ true
    → length (inorder t) ≤ pool.room
    → c.count < u64_mod
    → (t' : Tree) × (delete ngx c pool t
        ≡ some (t', add64 c.count (length (chosen (selects ngx c) (inorder t)))))
      × (inorder t' ≡ unchosen (selects ngx c) (inorder t))
unfolding delete selects
delete_lem ngx c pool t law s d key array room small = elim (Range-cases c.range) [
  | inl e ↦ rw e (
      Deletes-run (λ _. false) t c.count (t, c.count)
        (nothing-Deletes (λ _. false) t c.count small (All-true (inorder t))))
  | inr (inl e) ↦ rw e (delete_all-Deletes ngx law t c.count small)
  | inr (inr (inl e)) ↦ rw e (
      Deletes-run (in_group c.selector) t c.count (delete_group ngx c.selector pool t c.count) (
        delete_group-Deletes ngx law c.selector pool t c.count d small array
          (omega (arith, room, length-chosen-le (in_group c.selector) (inorder t)))))
  | inr (inr (inr e)) ↦ rw e (
      Deletes-run (zone_selects ngx c) t c.count (delete_zone ngx c pool t)
        (delete_zone-Deletes ngx law c pool t s d key small))
]
