-- ===== src/Zone/Cache.antt =====
-- The pointers `node_caches` of ngx_metric_module/src/ngx_http_vhost_traffic_status_node.c
-- (`find_node`) and their dependence on the tree.
use mathlib.Core.Path.{subst}
use metrics_server_example.Base.{
  ℕ, zero, suc, ◌≡◌, ◌≢◌, refl, ap, sym, ◌∙◌, inl, inr, Bool, true, false, Option, none, some, List,
  [], ◌∷◌, ◌==◌, arith, get_or, All, Bool-cases, Option-cases,
}
use metrics_server_example.Text.{Bytes}
use metrics_server_example.RbTree.{RbNode, inorder, name, Nginx, IsLawful, lookup}
use metrics_server_example.RbTree.Order.{Sorted, find}
use metrics_server_example.RbTree.Lookup.{lookup-find}
use metrics_server_example.Filter.Walk.{Member, Member-split}
use metrics_server_example.Zone.{Zone, dangling, of_lookup, find_addr, find_node}
use metrics_server_example.Zone.Update.{All-Member, find_addr-Member}
use metrics_server_example.RbTree.{Tree}
use metrics_server_example.Base.{length, ◌≤◌, ◌<◌}
use metrics_server_example.Base.Words.{u64_mod}
use metrics_server_example.Zone.Update.{Distinct}
use metrics_server_example.Control.{Control, Pool, delete}
use metrics_server_example.Control.Removal.{unchosen-All}
use metrics_server_example.Control.Delete.{delete_lem}
use metrics_server_example.Control.Selected.{
  selects, unchosen, is_key, find-none_key, find-Alone, Alone,
}

-- Every cached pointer is to a node of the tree.
abbrev pub Live : List RbNode → Option ℕ → Type 0
Live ms none = Unit
Live ms (some a) = (m : RbNode) × (find_addr a ms ≡ some m)

-- No other name has the hash.
abbrev pub NoCollision : ℕ → Bytes → List RbNode → Type 0
NoCollision h key = All (λ m. m.key ≡ h → name m ≡ key)

pub get_or-All {κ} :
    (P : Option ℕ → Type κ) (xs : List (Option ℕ)) (i : ℕ)
    → P none
    → All P xs
    → P (get_or xs i none)
get_or-All P [] i p h = p
get_or-All P (x ∷ xs) zero p h = h.0
get_or-All P (x ∷ xs) (suc i) p h = get_or-All P xs i p h.1

Alone-only :
    (P : RbNode → Bool) (m x : RbNode) (ms : List RbNode)
    → Alone P m ms
    → Member x ms
    → P x ≡ true
    → x ≡ m
Alone-only P m x ms alone i hit =
    elim (Member-split x alone.left (m ∷ alone.right) (subst (Member x) alone.whole i)) [
      | inl j ↦
          absurd
            (false-hit x (All-Member (λ (y : RbNode). P y ≡ false) alone.left x alone.before j) hit)
      | inr (inl same) ↦ sym same
      | inr (inr j) ↦
          absurd
            (false-hit x (All-Member (λ (y : RbNode). P y ≡ false) alone.right x alone.after j) hit)
    ]
  where
    false-hit : (y : RbNode) → P y ≡ false → P y ≡ true → ⊥
    false-hit y a b = cc

key_self : (ngx : Nginx) (m : RbNode) → IsLawful ngx → is_key ngx m.key (name m) m ≡ true
unfolding is_key
key_self ngx m law = ground (arith, law.cmp_refl (name m))

true-ne-false : true ≢ false
true-ne-false e = cc

-- A node with the hash and the name is the one that the walk finds.
lookup-Member :
    (ngx : Nginx) (z : Zone) (m : RbNode)
    → IsLawful ngx
    → Sorted ngx (inorder z.tree)
    → Member m (inorder z.tree)
    → lookup ngx z.tree (name m) m.key ≡ some m
lookup-Member ngx z m law s i =
    lookup-find ngx z.tree (name m) m.key law s
    ∙ elim (Option-cases (find ngx (inorder z.tree) (name m) m.key)) [
      | inl missing ↦
          let none_hit = find-none_key ngx law m.key (name m) (inorder z.tree) missing in
          let no =
            All-Member (λ (x : RbNode). is_key ngx m.key (name m) x ≡ false) (inorder z.tree) m
              none_hit i in
          absurd (true-ne-false (sym (key_self ngx m law) ∙ no))
      | inr (m', there) ↦
          there
          ∙ ap some (
              sym (
                Alone-only (is_key ngx m.key (name m)) m' m (inorder z.tree)
                  (find-Alone ngx law m.key (name m) (inorder z.tree) m' s there) i
                  (key_self ngx m law)))
    ]

find_addr-none : (a : ℕ) (ms : List RbNode) → All (λ x. x.addr ≢ a) ms → find_addr a ms ≡ none
unfolding find_addr
find_addr-none a [] h = refl
find_addr-none a (x ∷ ms) h = ground (arith, h.0, find_addr-none a ms h.1)

-- A node that is left out is no longer at its address.
find_addr-unchosen :
    (P : RbNode → Bool) (m : RbNode) (ms : List RbNode)
    → Distinct ms
    → Member m ms
    → P m ≡ true
    → find_addr m.addr (unchosen P ms) ≡ none
unfolding find_addr unchosen
find_addr-unchosen P m [] d i hit = refl
find_addr-unchosen P m (x ∷ ms) d (inl same) hit =
    let hit' : P x ≡ true = ap P same ∙ hit in
    let a : x.addr ≡ m.addr = ap (λ (y : RbNode). y.addr) same in
    let free = unchosen-All P x.addr ms d.0 in
    rw hit' (
      find_addr-none m.addr (unchosen P ms)
        (subst (λ n. All (λ (y : RbNode). y.addr ≢ n) (unchosen P ms)) a free))
find_addr-unchosen P m (x ∷ ms) d (inr i) hit =
    let other = All-Member (λ (y : RbNode). y.addr ≢ x.addr) ms m d.0 i in
    ground (arith, other, find_addr-unchosen P m ms d.1 i hit)

-- Where every cached pointer is to a node of the tree and no other name has the key's hash, `find_node`
-- gives what the walk through the sorted tree gives: the cache changes nothing.
pub find_node-lookup :
    (ngx : Nginx) (z : Zone) (key : Bytes) (type : ℕ)
    → IsLawful ngx
    → Sorted ngx (inorder z.tree)
    → All (Live (inorder z.tree)) z.node_caches
    → NoCollision (ngx.crc32_short key) key (inorder z.tree)
    → find_node ngx z key type 0 ≡ of_lookup (lookup ngx z.tree key (ngx.crc32_short key))
unfolding find_node
find_node-lookup ngx z key type law s live alone =
    elim (Option-cases (get_or z.node_caches type none)) [
      | inl nothing ↦ ground (arith, nothing)
      | inr (a, cached) ↦
          let (m, there) =
            subst (Live (inorder z.tree)) cached
              (get_or-All (Live (inorder z.tree)) z.node_caches type tt live) in
          let (i, at_a) = find_addr-Member a (inorder z.tree) m there in
          elim (Bool-cases (m.key == ngx.crc32_short key)) [
            | inr other ↦ ground (arith, cached, there, other)
            | inl same ↦
                let h : m.key ≡ ngx.crc32_short key = ground arith in
                let n =
                  All-Member (λ (x : RbNode). x.key ≡ ngx.crc32_short key → name x ≡ key)
                    (inorder z.tree) m alone i h in
                let walk : lookup ngx z.tree key (ngx.crc32_short key) ≡ some m =
                  rw (sym h, sym n) (lookup-Member ngx z m law s i) in
                ground (arith, cached, there, same, walk)
          ]
    ]

-- Once `delete` has unlinked a node that a group has cached, `find_node` in that group reads freed
-- memory, whatever the key: the commands leave `node_caches` as they are. The tree is sorted, no two
-- nodes share an address, there is memory for the command, and its count so far is a word.
pub find_node-delete :
    (ngx : Nginx) (c : Control) (pool : Pool) (z : Zone) (m : RbNode) (key : Bytes) (type h : ℕ)
    → IsLawful ngx
    → Sorted ngx (inorder z.tree)
    → Distinct (inorder z.tree)
    → pool.key ≡ true
    → pool.array ≡ true
    → length (inorder z.tree) ≤ pool.room
    → c.count < u64_mod
    → Member m (inorder z.tree)
    → selects ngx c m ≡ true
    → get_or z.node_caches type none ≡ some m.addr
    → (t' : Tree) × (count : ℕ) × (delete ngx c pool z.tree ≡ some (t', count))
      × (find_node ngx (record z { tree = t' }) key type h ≡ dangling)
unfolding find_node
find_node-delete ngx c pool z m key type h law s d k array room small i hit cached =
    let (t', run, left) = delete_lem ngx c pool z.tree law s d k array room small in
    let gone : find_addr m.addr (inorder t') ≡ none =
      ap (find_addr m.addr) left ∙ find_addr-unchosen (selects ngx c) m (inorder z.tree) d i hit in
    (t', _, run, ground (arith, cached, gone))
