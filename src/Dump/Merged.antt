-- ===== src/Dump/Merged.antt =====
-- The nodes that `dump_restore_add_node` of
-- ngx_metric_module/src/ngx_http_vhost_traffic_status_dump.c puts beside those that are there.
use Prim.Native.Nat.Ordering.{eq}
use mathlib.Core.Path.{subst}
use metrics_server_example.Base.{
  ℕ, ◌+◌, ◌≡◌, ◌≢◌, ◌≤◌, refl, sym, ap, ap₂, ◌∙◌, Option, none, some, List, [], ◌∷◌, arith, inl,
  inr, ◌⊎◌, length, take, take-all, Option-cases, Ordering-cases,
}
use metrics_server_example.Text.{Bytes, ok}
use metrics_server_example.Node.{Node}
use metrics_server_example.RbTree.{
  RbNode, Tree, sentinel, fork, inorder, name, Nginx, IsLawful, lookup, rbtree_insert,
}
use metrics_server_example.RbTree.Order.{
  Sorted, Sorted-append, order, find, find-append, find_above, find_below, or_else,
}
use metrics_server_example.RbTree.Lookup.{lookup-find, lookup-order}
use metrics_server_example.RbTree.Insert.{lookup-rbtree_insert}
use metrics_server_example.Filter.Walk.{preorder}
use metrics_server_example.Zone.{Zone}
use metrics_server_example.Dump.{Core, data_buf_size, restore_add_node}

-- A node of statistics with its text alone, without the memory behind it.
abbrev pub stored : RbNode → Node
stored m = record m.vtsn { name = name m }

abbrev pub stored? : Option RbNode → Option Node
stored? none = none
stored? (some m) = some (stored m)

-- A node that a dump can bring back: it has a text, which fits the buffer, and the hash of that text.
pub record IsRestorable (ngx : Nginx) (m : RbNode) : Type 0 where
  pub nonempty : name m ≢ []
  pub len : m.vtsn.len ≡ length (name m)
  pub short : m.vtsn.len ≤ data_buf_size
  pub hash : m.key ≡ ngx.crc32_short (name m)

-- The slab has memory.
abbrev pub HasMemory : Core → Type 0
HasMemory core = (t : Tree) (size : ℕ) → (addr : ℕ) × (core.slab_alloc t size ≡ some addr)

-- `t'` has the nodes of `t`, and for the other keys those of a list.
pub record Merges (ngx : Nginx) (t : Tree) (ms : List RbNode) (t' : Tree) : Type 0 where
  pub sorted : Sorted ngx (inorder t')
  pub finds :
      (k : Bytes) (h : ℕ)
      → stored? (lookup ngx t' k h)
        ≡ or_else (stored? (lookup ngx t k h)) (stored? (find ngx ms k h))

or_else-none : (o : Option Node) → or_else o none ≡ o
or_else-none none = refl
or_else-none (some v) = refl

or_else_assoc : (a b c : Option Node) → or_else (or_else a b) c ≡ or_else a (or_else b c)
or_else_assoc none b c = refl
or_else_assoc (some v) b c = refl

stored?-or_else : (a b : Option RbNode) → stored? (or_else a b) ≡ or_else (stored? a) (stored? b)
stored?-or_else none b = refl
stored?-or_else (some m) b = refl

list-cases : (bs : Bytes) → bs ≢ [] → (c : ℕ) × (cs : Bytes) × (bs ≡ c ∷ cs)
list-cases [] h = absurd (h refl)
list-cases (c ∷ cs) h = (c, cs, refl)

module _ (core : Core) (law : IsLawful core.nginx) where
  -- A list of one node, searched for a key.
  find-one :
      (k : Bytes) (h : ℕ) (m : RbNode)
      → ((find core.nginx (m ∷ []) k h ≡ none) × (order core.nginx h k m ≢ eq))
        ⊎ ((find core.nginx (m ∷ []) k h ≡ some m) × (h ≡ m.key) × (k ≡ name m))
  unfolding find
  find-one k h m = elim (Ordering-cases (order core.nginx h k m)) [
    | inl less ↦ inl (ground arith, λ e. ground arith)
    | inr (inr more) ↦ inl (ground arith, λ e. ground arith)
    | inr (inl here) ↦ inr (ground arith, ground arith, ground (arith, law.eq_of_cmp k (name m)))
  ]

  found-Merges :
      (t : Tree) (m x : RbNode)
      → Sorted core.nginx (inorder t)
      → lookup core.nginx t (name m) m.key ≡ some x
      → Merges core.nginx t (m ∷ []) t
  found-Merges t m x s there = record {
    sorted = s;
    finds = λ k h. elim (find-one k h m) [
      | inl (e, _) ↦ rw e (sym (or_else-none (stored? (lookup core.nginx t k h))))
      | inr (e, key, text) ↦ rw (key, text, there) refl
    ];
  }

  inserted-Merges :
      (t : Tree) (m n : RbNode)
      → Sorted core.nginx (inorder t)
      → lookup core.nginx t (name m) m.key ≡ none
      → n.key ≡ m.key
      → name n ≡ name m
      → stored n ≡ stored m
      → Merges core.nginx t (m ∷ []) (rbtree_insert core.nginx t n)
  inserted-Merges t m n s missing key text same =
      let missing_n : lookup core.nginx t (name n) n.key ≡ none = rw (text, key) missing in
      let fact = λ (k : Bytes) (h : ℕ). lookup-rbtree_insert core.nginx t n k h law s missing_n in
      record {
        sorted = (fact [] 0).0;
        finds = λ k h. elim (find-one k h m) [
          | inl (e, other) ↦
              let e' : lookup core.nginx (rbtree_insert core.nginx t n) k h
                  ≡ lookup core.nginx t k h =
                (fact k h).1 ∙ ground (arith, key, text, other, law.eq_of_cmp k (name n)) in
              rw (e, e') (sym (or_else-none (stored? (lookup core.nginx t k h))))
          | inr (e, key', text') ↦
              let e' : lookup core.nginx (rbtree_insert core.nginx t n) k h ≡ some n =
                (fact k h).1 ∙ ground (arith, key, text, key', text', law.cmp_refl (name n)) in
              let there : lookup core.nginx t k h ≡ none = rw (key', text') missing in
              rw (e', e, there) (ap some same)
        ];
      }

  pub Merges-nil : (t : Tree) → Sorted core.nginx (inorder t) → Merges core.nginx t [] t
  unfolding find
  Merges-nil t s = record {
    sorted = s;
    finds = λ k h. sym (or_else-none (stored? (lookup core.nginx t k h)));
  }

  pub Merges-cons :
      (t u v : Tree) (m : RbNode) (ms : List RbNode)
      → Merges core.nginx t (m ∷ []) u
      → Merges core.nginx u ms v
      → Merges core.nginx t (m ∷ ms) v
  Merges-cons t u v m ms p q = record {
    sorted = q.sorted;
    finds = λ k h.
        q.finds k h
        ∙ ap (λ o. or_else o (stored? (find core.nginx ms k h))) (p.finds k h)
        ∙ or_else_assoc (stored? (lookup core.nginx t k h)) (stored? (find core.nginx (m ∷ []) k h))
            (stored? (find core.nginx ms k h))
        ∙ ap (or_else (stored? (lookup core.nginx t k h))) (
            sym (
              ap stored? (find-append core.nginx law (m ∷ []) ms k h)
              ∙ stored?-or_else (find core.nginx (m ∷ []) k h) (find core.nginx ms k h)));
  }

  -- `v` is a copy of the node of `m`, with other memory behind it.
  restore_key-Merges :
      (node_offset : ℕ) (z : Zone) (m : RbNode) (v : Node) (b : ℕ) (bs : Bytes)
      → HasMemory core
      → Sorted core.nginx (inorder z.tree)
      → IsRestorable core.nginx m
      → name m ≡ b ∷ bs
      → record v { name = name m } ≡ stored m
      → ((restore_add_node core node_offset z v (b ∷ bs)).0 ≡ ok)
        × Merges core.nginx z.tree (m ∷ []) (restore_add_node core node_offset z v (b ∷ bs)).1.tree
  unfolding restore_add_node
  restore_key-Merges node_offset z m v b bs room s r text copy =
      let key = b ∷ bs in
      let hash = core.nginx.crc32_short key in
      let same_hash : hash ≡ m.key = ap core.nginx.crc32_short (sym text) ∙ sym r.hash in
      let (addr, got) = room z.tree (node_offset + length key) in
      let n : RbNode = record { addr = addr; key = hash; vtsn = record v { name = key } } in
      let len : v.len ≡ length key = ap (λ (w : Node). w.len) copy ∙ r.len ∙ ap length text in
      let named : name n ≡ key = ap (λ i. take i key) len ∙ take-all key in
      elim (Option-cases (lookup core.nginx z.tree key hash)) [
        | inr (x, there) ↦
            rw (restore_add_node, there)
              (refl, found-Merges z.tree m x s (rw (text, sym same_hash) there))
        | inl missing ↦
            rw (restore_add_node, missing, got)
              (
                refl,
                inserted-Merges z.tree m n s (rw (text, sym same_hash) missing) same_hash
                    (named ∙ sym text)
                    (ap (λ bs'. record v { name = bs' }) (named ∙ sym text) ∙ copy),
              )
      ]

  pub restore_add_node-Merges :
      (node_offset : ℕ) (z : Zone) (m : RbNode) (v : Node)
      → HasMemory core
      → Sorted core.nginx (inorder z.tree)
      → IsRestorable core.nginx m
      → record v { name = name m } ≡ stored m
      → ((restore_add_node core node_offset z v (name m)).0 ≡ ok)
        × Merges core.nginx z.tree (m ∷ []) (restore_add_node core node_offset z v (name m)).1.tree
  restore_add_node-Merges node_offset z m v room s r copy =
      let (b, bs, text) = list-cases (name m) r.nonempty in
      subst
        (λ key.
          ((restore_add_node core node_offset z v key).0 ≡ ok)
          × Merges core.nginx z.tree (m ∷ []) (restore_add_node core node_offset z v key).1.tree)
        (sym text) (restore_key-Merges node_offset z m v b bs room s r text copy)

  -- The order in which `dump_node_write` walks does not matter to a search.
  pub find-preorder :
      (t : Tree) (k : Bytes) (h : ℕ)
      → Sorted core.nginx (inorder t)
      → find core.nginx (preorder t) k h ≡ lookup core.nginx t k h
  unfolding preorder find
  find-preorder sentinel k h s = unfold lookup in refl
  find-preorder (fork l m r) k h s =
      let ngx = core.nginx in
      let (below, sl, above, sr) =
        Sorted-append ngx law (inorder l) m (inorder r) (unfold inorder in s) in
      let halves =
        find-append ngx law (preorder l) (preorder r) k h
        ∙ ap₂ or_else (find-preorder l k h sl) (find-preorder r k h sr) in
      rw (lookup-order ngx l r m k h) (elim (Ordering-cases (order ngx h k m)) [
        | inl less ↦
            let out = find_above ngx law m (inorder r) k h less above in
            ground (arith, less, halves, out, lookup-find ngx r k h law sr)
        | inr (inl same) ↦ ground (arith, same)
        | inr (inr more) ↦
            let out = find_below ngx law (inorder l) m k h more below in
            ground (arith, more, halves, out, lookup-find ngx l k h law sl)
      ])
