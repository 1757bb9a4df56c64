-- ===== src/Control/Reset.antt =====
-- The command `reset` of ngx_metric_module/src/ngx_http_vhost_traffic_status_control.c.
use mathlib.Core.Path.{subst}
use mathlib.Core.List.{map-append}
use metrics_server_example.Base.{
  ℕ, ◌<◌, ◌≡◌, ◌≢◌, refl, ap₂, sym, ◌∙◌, inl, inr, Bool, true, false, List, [], ◌∷◌, ◌++◌, arith,
  if◌then◌else◌, length, length-append, All, map,
}
use metrics_server_example.Base.Words.{u64_mod, add64}
use metrics_server_example.Node
use metrics_server_example.Node.{Node}
use metrics_server_example.RbTree.{RbNode, Tree, sentinel, fork, inorder, Nginx, IsLawful}
use metrics_server_example.RbTree.Order.{Sorted}
use metrics_server_example.Zone.Update.{put, inorder-update_at, Distinct}
use metrics_server_example.Control.{
  Selector, Control, in_group, Pool, zero_node, reset_all, reset_group, reset_zone, reset,
}
use metrics_server_example.Control.Selected.{
  Distinct-Alone, selects, zone_selects, All-true, chosen, chosen-append, chosen-none, Alone,
  zone_node-cases, Range-cases,
}

-- A node after a reset.
unfoldable pub zeroed_if : (RbNode → Bool) → RbNode → RbNode
zeroed_if P m = if P m then zero_node m else m

-- What a reset of the nodes of `P` makes of a tree and a count.
record Resets (P : RbNode → Bool) (t : Tree) (count : ℕ) (r : Tree × ℕ) : Type 0 where
  nodes : inorder r.0 ≡ map (zeroed_if P) (inorder t)
  counted : r.1 ≡ add64 count (length (chosen P (inorder t)))

Resets-nil :
    (P : RbNode → Bool) (count : ℕ) → count < u64_mod → Resets P sentinel count (sentinel, count)
unfolding inorder chosen
Resets-nil P count h = record { nodes = refl; counted = omega arith }

Resets-fork :
    (P : RbNode → Bool) (l r : Tree) (m : RbNode) (count : ℕ) (a b : Tree × ℕ)
    → Resets P l (if P m then add64 count 1 else count) a
    → Resets P r a.1 b
    → Resets P (fork l m r) count (fork a.0 (if P m then zero_node m else m) b.0, b.1)
unfolding inorder chosen zeroed_if
Resets-fork P l r m count a b p q = record {
  nodes = rw (p.nodes, q.nodes) (sym (map-append (zeroed_if P) (inorder l) (m ∷ inorder r)));
  counted = ground (
    arith,
    p.counted,
    q.counted,
    chosen-append P (inorder l) (m ∷ inorder r),
    length-append (chosen P (inorder l)) (chosen P (m ∷ inorder r)),
  );
}

reset_all-Resets :
    (t : Tree) (count : ℕ) → count < u64_mod → Resets (λ _. true) t count (reset_all t count)
unfolding reset_all
reset_all-Resets sentinel count h = Resets-nil (λ _. true) count h
reset_all-Resets (fork l m r) count h =
    let left = reset_all-Resets l (add64 count 1) (omega arith) in
    let a = reset_all l (add64 count 1) in
    Resets-fork (λ _. true) l r m count a (reset_all r a.1) left
      (reset_all-Resets r a.1 (omega (arith, left.counted)))

reset_group-Resets :
    (g : Selector) (t : Tree) (count : ℕ)
    → count < u64_mod
    → Resets (in_group g) t count (reset_group g t count)
unfolding reset_group
reset_group-Resets g sentinel count h = Resets-nil (in_group g) count h
reset_group-Resets g (fork l m r) count h =
    let start = if in_group g m then add64 count 1 else count in
    let small : start < u64_mod = ground arith in
    let left = reset_group-Resets g l start small in
    let a = reset_group g l start in
    Resets-fork (in_group g) l r m count a (reset_group g r a.1) left
      (reset_group-Resets g r a.1 (omega (arith, left.counted)))

-- Nodes that no reset is about stay.
zeroed-none :
    (P : RbNode → Bool) (ms : List RbNode) → All (λ x. P x ≡ false) ms → map (zeroed_if P) ms ≡ ms
unfolding zeroed_if
zeroed-none P [] h = refl
zeroed-none P (m ∷ ms) h = ap₂ ◌∷◌ (ground (arith, h.0)) (zeroed-none P ms h.1)

-- A write at the address of a node changes that node.
put-others :
    (a : ℕ) (v : Node) (ms : List RbNode) → All (λ x. x.addr ≢ a) ms → map (put a v) ms ≡ ms
put-others a v [] h = refl
put-others a v (m ∷ ms) h = ap₂ ◌∷◌ (ground (arith, h.0)) (put-others a v ms h.1)

put-zeroed :
    (P : RbNode → Bool) (m : RbNode) (ms : List RbNode)
    → Alone P m ms
    → Distinct ms
    → (map (put m.addr (Node.zero m.vtsn)) ms ≡ map (zeroed_if P) ms) × (length (chosen P ms) ≡ 1)
unfolding zeroed_if chosen
put-zeroed P m ms alone d =
    let f = put m.addr (Node.zero m.vtsn) in
    let (a, b) = Distinct-Alone alone.left m alone.right (subst Distinct alone.whole d) in
    (
      rw
          (
            alone.whole,
            map-append f alone.left (m ∷ alone.right),
            map-append (zeroed_if P) alone.left (m ∷ alone.right),
          )
          (ap₂ ◌++◌
            (put-others m.addr (Node.zero m.vtsn) alone.left a
              ∙ sym (zeroed-none P alone.left alone.before))
            (ap₂ ◌∷◌ (ground (arith, alone.hit)) (
              put-others m.addr (Node.zero m.vtsn) alone.right b
              ∙ sym (zeroed-none P alone.right alone.after)))),
      rw
          (
            alone.whole,
            chosen-append P alone.left (m ∷ alone.right),
            (chosen-none P alone.left alone.before).0,
          )
          (ground (arith, alone.hit, chosen-none P alone.right alone.after)),
    )

nothing-Resets :
    (P : RbNode → Bool) (t : Tree) (count : ℕ)
    → count < u64_mod
    → All (λ x. P x ≡ false) (inorder t)
    → Resets P t count (t, count)
nothing-Resets P t count h none_hit = record {
  nodes = sym (zeroed-none P (inorder t) none_hit);
  counted = rw (chosen-none P (inorder t) none_hit).0 (omega arith);
}

reset_zone-Resets :
    (ngx : Nginx) (c : Control) (pool : Pool) (t : Tree)
    → IsLawful ngx
    → Sorted ngx (inorder t)
    → Distinct (inorder t)
    → pool.key ≡ true
    → c.count < u64_mod
    → Resets (zone_selects ngx c) t c.count (reset_zone ngx c pool t)
unfolding reset_zone
reset_zone-Resets ngx c pool t law s d has small = elim (zone_node-cases ngx c pool t law s has) [
  | inl (missing, none_hit) ↦
      rw (reset_zone, missing) (nothing-Resets (zone_selects ngx c) t c.count small none_hit)
  | inr (m, there, alone) ↦
      let (same, one) = put-zeroed (zone_selects ngx c) m (inorder t) alone d in
      rw (reset_zone, there)
        (record {
          nodes = inorder-update_at m.addr (Node.zero m.vtsn) t ∙ same;
          counted = rw one refl;
        })
]

reset-Resets :
    (ngx : Nginx) (c : Control) (pool : Pool) (t : Tree)
    → IsLawful ngx
    → Sorted ngx (inorder t)
    → Distinct (inorder t)
    → pool.key ≡ true
    → c.count < u64_mod
    → Resets (selects ngx c) t c.count (reset ngx c pool t)
unfolding reset selects
reset-Resets ngx c pool t law s d has small = elim (Range-cases c.range) [
  | inl e ↦ rw e (nothing-Resets (λ _. false) t c.count small (All-true (inorder t)))
  | inr (inl e) ↦ rw e (reset_all-Resets t c.count small)
  | inr (inr (inl e)) ↦ rw e (reset_group-Resets c.selector t c.count small)
  | inr (inr (inr e)) ↦ rw e (reset_zone-Resets ngx c pool t law s d has small)
]

-- The command `reset` zeroes the counters of exactly the nodes of its range (all, those of its group,
-- or the one of its key), changes no other node and no place in the tree, and counts them, as a 64-bit
-- word. The tree is sorted, no two nodes share an address, there is memory for the key,
-- and the count so far is a word.
pub reset_lem :
    (ngx : Nginx) (c : Control) (pool : Pool) (t : Tree)
    → IsLawful ngx
    → Sorted ngx (inorder t)
    → Distinct (inorder t)
    → pool.key ≡ true
    → c.count < u64_mod
    → (inorder (reset ngx c pool t).0 ≡ map (zeroed_if (selects ngx c)) (inorder t))
      × ((reset ngx c pool t).1 ≡ add64 c.count (length (chosen (selects ngx c) (inorder t))))
reset_lem ngx c pool t law s d has small =
    let r = reset-Resets ngx c pool t law s d has small in (r.nodes, r.counted)
