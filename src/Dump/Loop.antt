-- ===== src/Dump/Loop.antt =====
-- The loop of `dump_restore` of ngx_metric_module/src/ngx_http_vhost_traffic_status_dump.c, over a
-- file of any content.
use mathlib.Core.Path.{subst}
use metrics_server_example.Base.{
  ℕ, zero, suc, ◌+◌, ◌-◌, ◌≡◌, ◌≤◌, ◌<◌, refl, sym, ap, ◌∙◌, Bool, true, false, none, some, [], ◌∷◌,
  arith, inl, inr, ◌⊎◌, ltb, ◌==◌, length, take, drop, take-all, length-drop, length-take_le, ==→eq,
  Bool-cases, Option-cases,
}
use metrics_server_example.Text.{memcmp_eq, Bytes, Status-cases, strncmp_eq}
use metrics_server_example.Node.{Node}
use metrics_server_example.RbTree.{
  RbNode, Tree, inorder, name, Nginx, IsLawful, lookup, rbtree_insert,
}
use metrics_server_example.RbTree.Order.{Sorted}
use metrics_server_example.RbTree.Insert.{lookup-rbtree_insert}
use metrics_server_example.Zone.{Zone}
use metrics_server_example.Dump.{
  Layout, File, Files, IsWorking, DumpConf, Core, Round, done, next, read_exactly, restore_add_node,
  restore_node, restore_round, restore_loop, name_len, dump_restore, data_buf_size, data_pad,
  header_read,
}

-- The tree stays sorted, and every key that had a node still has that node.
pub record Extends (ngx : Nginx) (t t' : Tree) : Type 0 where
  pub sorted : Sorted ngx (inorder t')
  pub kept :
      (k : Bytes) (h : ℕ) (m : RbNode) → lookup ngx t k h ≡ some m → lookup ngx t' k h ≡ some m

pub Extends-refl : (ngx : Nginx) (t : Tree) → Sorted ngx (inorder t) → Extends ngx t t
Extends-refl ngx t s = record { sorted = s; kept = λ k h m e. e }

Extends-trans : (ngx : Nginx) (t u v : Tree) → Extends ngx t u → Extends ngx u v → Extends ngx t v
Extends-trans ngx t u v p q = record {
  sorted = q.sorted;
  kept = λ k h m e. q.kept k h m (p.kept k h m e);
}

module _ (core : Core) (law : IsLawful core.nginx) where
  -- A node of a key that the tree does not have.
  rbtree_insert-Extends :
      (t : Tree) (n : RbNode)
      → Sorted core.nginx (inorder t)
      → lookup core.nginx t (name n) n.key ≡ none
      → Extends core.nginx t (rbtree_insert core.nginx t n)
  rbtree_insert-Extends t n s e =
      let fact = λ (k : Bytes) (h : ℕ). lookup-rbtree_insert core.nginx t n k h law s e in
      record {
        sorted = (fact [] 0).0;
        kept = λ k h m there. (fact k h).1 ∙ ground (arith, there, e, law.eq_of_cmp k (name n));
      }

  restore_add_node-Extends :
      (node_offset : ℕ) (z : Zone) (v : Node) (key : Bytes)
      → v.len ≡ length key
      → Sorted core.nginx (inorder z.tree)
      → Extends core.nginx z.tree (restore_add_node core node_offset z v key).1.tree
  unfolding restore_add_node
  restore_add_node-Extends node_offset z v [] e s = Extends-refl core.nginx z.tree s
  restore_add_node-Extends node_offset z v (b ∷ bs) e s =
      let key = b ∷ bs in
      let hash = core.nginx.crc32_short key in
      elim (Option-cases (lookup core.nginx z.tree key hash)) [
        | inr (m, there) ↦ rw (restore_add_node, there) (Extends-refl core.nginx z.tree s)
        | inl missing ↦ elim (Option-cases (core.slab_alloc z.tree (node_offset + length key))) [
          | inl full ↦ rw (restore_add_node, missing, full) (Extends-refl core.nginx z.tree s)
          | inr (addr, got) ↦
              rw (restore_add_node, missing, got)
                (rbtree_insert-Extends z.tree
                  (record { addr = addr; key = hash; vtsn = record v { name = key } }) s
                  (ap (λ k. lookup core.nginx z.tree k hash) (ap (λ n. take n key) e ∙ take-all key)
                    ∙ missing))
        ]
      ]

pub read_exactly-cases :
    (os : Files) (f : File) (n offset : ℕ)
    → IsWorking os
    → (read_exactly os f n offset ≡ none)
      ⊎ ((bs : Bytes) × (read_exactly os f n offset ≡ some bs)
          × (length bs ≡ n)
          × (n ≤ length f.content - offset))
unfolding read_exactly
read_exactly-cases os f n offset working =
    let bs = take n (drop offset f.content) in
    rw (read_exactly, working.read_file_lem f n offset)
      (elim (Bool-cases (length bs == n)) [
        | inr short ↦ rw short (inl refl)
        | inl full ↦
            let size : length bs ≡ n = ==→eq (length bs) n full in
            let fits = length-take_le n (drop offset f.content) in
            rw full (inr (bs, refl, size, omega (arith, length-drop offset f.content, fits, size)))
      ])

Round-cases :
    (r : Round) → ((z : Zone) × (r ≡ done z)) ⊎ ((offset : ℕ) × (z : Zone) × (r ≡ next offset z))
Round-cases (done z) = inl (z, refl)
Round-cases (next offset z) = inr (offset, z, refl)

-- What a round leaves behind.
abbrev Progress : Nginx → File → ℕ → Zone → Round → Type 0
Progress ngx f offset z (done z') = Extends ngx z.tree z'.tree
Progress ngx f offset z (next offset' z') =
    Extends ngx z.tree z'.tree × (offset < length f.content) × (offset < offset')

module _ (layout : Layout) (os : Files) (core : Core) (law : IsLawful core.nginx) where
  restore_node-Progress :
      (f : File) (offset start : ℕ) (z : Zone) (v : Node) (key : Bytes)
      → v.len ≡ length key
      → Sorted core.nginx (inorder z.tree)
      → start < length f.content
      → start ≤ offset
      → Progress core.nginx f start z (restore_node layout os core f offset z v key)
  unfolding restore_node
  restore_node-Progress f offset start z v key e s inside after =
      elim (Option-cases (read_exactly os f (length data_pad) offset)) [
        | inl cut ↦ rw (restore_node, cut) (Extends-refl core.nginx z.tree s)
        | inr (pad, e') ↦ elim (Bool-cases (memcmp_eq data_pad pad)) [
          | inr other ↦ rw (restore_node, e', other) (Extends-refl core.nginx z.tree s)
          | inl same ↦
              let ext = restore_add_node-Extends core law layout.node_offset z v key e s in
              elim (Status-cases (restore_add_node core layout.node_offset z v key).0) [
                | inl fine ↦ rw (restore_node, e', same, fine) (ext, inside, omega arith)
                | inr failed ↦ rw (restore_node, e', same, failed) ext
              ]
        ]
      ]

  restore_round-Progress :
      (f : File) (offset : ℕ) (z : Zone)
      → IsWorking os
      → 0 < layout.node_size
      → Sorted core.nginx (inorder z.tree)
      → Progress core.nginx f offset z (restore_round layout os core f offset z)
  unfolding restore_round
  restore_round-Progress f offset z working some_size s =
      elim (read_exactly-cases os f layout.node_size offset working) [
        | inl short ↦ rw (restore_round, short) (Extends-refl core.nginx z.tree s)
        | inr (bs, e, size, fits) ↦
            let v = layout.to_node bs in
            elim (Bool-cases (ltb data_buf_size v.len)) [
              | inl long ↦
                  rw (restore_round, e, long)
                    (Extends-refl core.nginx z.tree s, omega arith, omega arith)
              | inr short ↦
                  elim (read_exactly-cases os f v.len (offset + layout.node_size) working) [
                    | inl cut ↦ rw (restore_round, e, short, cut) (Extends-refl core.nginx z.tree s)
                    | inr (key, e', size', _) ↦
                        rw (restore_round, e, short, e')
                          (restore_node-Progress f (offset + layout.node_size + v.len) offset z v
                            key (sym size') s (omega arith) (omega arith))
                  ]
            ]
      ]

  -- Behind the end of the file the loop stops; before it each round moves on.
  restore_loop-Extends :
      (fuel : ℕ) (f : File) (offset : ℕ) (z : Zone)
      → IsWorking os
      → 0 < layout.node_size
      → Sorted core.nginx (inorder z.tree)
      → length f.content < fuel + offset
      → 0 < fuel
      → (z' : Zone) × (restore_loop layout os core fuel f offset z ≡ some z')
        × Extends core.nginx z.tree z'.tree
  unfolding restore_loop
  restore_loop-Extends zero f offset z working some_size s enough more = absurd (omega arith)
  restore_loop-Extends (suc fuel) f offset z working some_size s enough more =
      let p = restore_round-Progress f offset z working some_size s in
      elim (Round-cases (restore_round layout os core f offset z)) [
        | inl (z', e) ↦ rw (restore_loop, e) (z', refl, subst (Progress core.nginx f offset z) e p)
        | inr (offset', z', e) ↦
            let (ext, inside, further) = subst (Progress core.nginx f offset z) e p in
            let (z'', e'', ext') =
              restore_loop-Extends fuel f offset' z' working some_size ext.sorted (omega arith)
                (omega arith) in
            rw (restore_loop, e)
              (z'', e'', Extends-trans core.nginx z.tree z'.tree z''.tree ext ext')
      ]

-- Whatever the dump file holds, `dump_restore` ends. The tree stays sorted, and every key that found a
-- node before finds the same node afterwards. This is for a lawful core, for calls on files that
-- succeed, for a size of a node that is not 0, and for a sorted tree.
pub dump_restore-Extends :
    (layout : Layout) (os : Files) (core : Core) (c : DumpConf) (memory : Bool) (disk : File)
    (z : Zone)
    → IsLawful core.nginx
    → IsWorking os
    → 0 < layout.node_size
    → Sorted core.nginx (inorder z.tree)
    → (z' : Zone) × (dump_restore layout os core c memory disk z
        ≡ some (record disk { is_open = false }, z'))
      × Extends core.nginx z.tree z'.tree
unfolding dump_restore
dump_restore-Extends layout os core c memory disk z law working some_size s =
    let f : File = record disk { is_open = true } in
    let same = Extends-refl core.nginx z.tree s in
    elim (Option-cases (header_read layout os f)) [
      | inl bad ↦
          rw (dump_restore, working.open_read_lem disk, bad, working.close_file_lem f)
            (z, refl, same)
      | inr (h, e) ↦ elim (Bool-cases (strncmp_eq (name_len c) c.shm_name h.name)) [
        | inr other ↦
            rw (dump_restore, working.open_read_lem disk, e, other, working.close_file_lem f)
              (z, refl, same)
        | inl named ↦ elim (Bool-cases memory) [
          | inr out ↦
              rw (dump_restore, working.open_read_lem disk, e, named, out, working.close_file_lem f)
                (z, refl, same)
          | inl got ↦
              let (z', e', ext) =
                restore_loop-Extends layout os core law (suc (length f.content)) f
                  layout.header_size z working some_size s (omega arith) (omega arith) in
              rw
                (
                  dump_restore,
                  working.open_read_lem disk,
                  e,
                  named,
                  got,
                  e',
                  working.close_file_lem f,
                )
                (z', refl, ext)
        ]
      ]
    ]
