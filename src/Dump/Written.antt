-- ===== src/Dump/Written.antt =====
-- What `dump_execute` writes and `dump_restore` reads back:
-- ngx_metric_module/src/ngx_http_vhost_traffic_status_dump.c.
use metrics_server_example.Base.{
  ℕ, zero, suc, ◌+◌, ◌≡◌, ◌≤◌, ◌<◌, refl, sym, ap, ap₂, ◌∙◌, true, false, none, some, List, [], ◌∷◌,
  ◌++◌, append_assoc, append-nil, arith, inl, inr, ltb, length, length-append, take, drop,
  take-append, drop-append, All,
}
use metrics_server_example.Text.{memcmp_eq, Bytes, Status, ok, error}
use metrics_server_example.Node.{Node}
use metrics_server_example.RbTree.{RbNode, Tree, sentinel, fork, inorder, name, IsLawful}
use metrics_server_example.RbTree.Order.{Sorted}
use metrics_server_example.Filter.Walk.{preorder}
use metrics_server_example.Zone.{Zone}
use metrics_server_example.Dump.{
  Layout, File, Files, IsWorking, Core, Round, done, next, data_pad, data_buf_size, read_exactly,
  node_write, restore_add_node, restore_node, restore_round, restore_loop,
}
use metrics_server_example.Dump.Loop.{read_exactly-cases}
use metrics_server_example.Dump.Merged.{
  IsRestorable, Merges, Merges-nil, Merges-cons, HasMemory, restore_add_node-Merges,
}

-- The layout keeps a node of statistics, but for the memory of its text.
pub record NodeFits (layout : Layout) (v : Node) : Type 0 where
  pub size : length (layout.of_node v) ≡ layout.node_size
  pub copy :
      (bs : Bytes)
      → record (layout.to_node (layout.of_node v)) { name = bs } ≡ record v { name = bs }

module _ (layout : Layout) where
  -- The bytes of one node, and of many.
  abbrev pub node_bytes : RbNode → Bytes
  node_bytes m = layout.of_node m.vtsn ++ (name m ++ data_pad)

  unfoldable pub all_bytes : List RbNode → Bytes
  all_bytes [] = []
  all_bytes (m ∷ ms) = node_bytes m ++ all_bytes ms

  all_bytes-append : (xs ys : List RbNode) → all_bytes (xs ++ ys) ≡ all_bytes xs ++ all_bytes ys
  unfolding all_bytes
  all_bytes-append [] ys = refl
  all_bytes-append (x ∷ xs) ys =
      ap (λ bs. node_bytes x ++ bs) (all_bytes-append xs ys)
      ∙ sym (append_assoc (node_bytes x) (all_bytes xs) (all_bytes ys))

module _ (layout : Layout) (os : Files) (working : IsWorking os) where
  write-content :
      (f : File) (bs : Bytes) → (os.write_fd f bs).0 ≡ record f { content = f.content ++ bs }
  write-content f bs = ap (λ p. p.0) (working.write_fd_lem f bs)

  pub node_write_lem :
      (t : Tree) (f : File)
      → node_write layout os t f ≡ record f { content = f.content ++ all_bytes layout (preorder t) }
  unfolding node_write preorder all_bytes
  node_write_lem sentinel f = ap (λ bs. record f { content = bs }) (sym (append-nil f.content))
  node_write_lem (fork l m r) f =
      let v = layout.of_node m.vtsn in
      let c₁ = f.content ++ v in
      let c₂ = c₁ ++ name m in
      let c₃ = c₂ ++ data_pad in
      let here : c₃ ≡ f.content ++ node_bytes layout m =
        append_assoc c₁ (name m) data_pad ∙ append_assoc f.content v (name m ++ data_pad) in
      let left = all_bytes layout (preorder l) in
      let right = all_bytes layout (preorder r) in
      rw
        (
          working.write_fd_lem f v,
          working.write_fd_lem (record f { content = c₁ }) (name m),
          working.write_fd_lem (record f { content = c₂ }) data_pad,
          node_write_lem l (record f { content = c₃ }),
          node_write_lem r (record f { content = c₃ ++ left }),
        )
        (ap (λ bs. record f { content = bs })
          (ap (λ bs. (bs ++ left) ++ right) here
            ∙ append_assoc (f.content ++ node_bytes layout m) left right
            ∙ append_assoc f.content (node_bytes layout m) (left ++ right)
            ∙ ap (λ bs. f.content ++ (node_bytes layout m ++ bs))
                (sym (all_bytes-append layout (preorder l) (preorder r)))))

  -- A read of bytes that stand at the offset.
  read_here :
      (f : File) (n offset : ℕ) (pre cur rest : Bytes)
      → f.content ≡ pre ++ (cur ++ rest)
      → offset ≡ length pre
      → n ≡ length cur
      → read_exactly os f n offset ≡ some cur
  unfolding read_exactly
  read_here f n offset pre cur rest e at size =
      let bs : take n (drop offset f.content) ≡ cur =
        ap₂ take size (ap₂ drop at e ∙ drop-append pre (cur ++ rest)) ∙ take-append cur rest in
      rw (read_exactly, working.read_file_lem f n offset, bs, size) (ground arith)

module _ (layout : Layout) (os : Files) (working : IsWorking os) (core : Core) where
  memcmp_pad : memcmp_eq data_pad data_pad ≡ true
  unfolding memcmp_eq
  memcmp_pad = refl

  -- How a round goes on that reads a node well.
  abbrev added : ℕ → Status × Zone → Round
  added offset r = elim r.0 [ error ↦ done r.1 | ok ↦ next offset r.1 ]

  restore_round_lem :
      (f : File) (offset : ℕ) (z : Zone) (m : RbNode) (pre rest : Bytes)
      → f.content ≡ pre ++ (node_bytes layout m ++ rest)
      → offset ≡ length pre
      → NodeFits layout m.vtsn
      → IsRestorable core.nginx m
      → restore_round layout os core f offset z
        ≡ added (offset + length (node_bytes layout m)) (
            restore_add_node core layout.node_offset z
              (layout.to_node (layout.of_node m.vtsn))
              (name m))
  unfolding restore_round restore_node
  restore_round_lem f offset z m pre rest e at fits r =
      let v = layout.of_node m.vtsn in
      let v' = layout.to_node v in
      let len : v'.len ≡ m.vtsn.len = ap (λ (w : Node). w.len) (fits.copy []) in
      let tail = data_pad ++ rest in
      let e₁ : f.content ≡ pre ++ (v ++ (name m ++ tail)) =
        e
        ∙ ap (λ bs. pre ++ bs)
            (append_assoc v (name m ++ data_pad) rest
              ∙ ap (λ bs. v ++ bs) (append_assoc (name m) data_pad rest)) in
      let e₂ : f.content ≡ (pre ++ v) ++ (name m ++ tail) =
        e₁ ∙ sym (append_assoc pre v (name m ++ tail)) in
      let e₃ : f.content ≡ ((pre ++ v) ++ name m) ++ tail =
        e₂ ∙ sym (append_assoc (pre ++ v) (name m) tail) in
      let l₁ = length-append pre v in
      let l₂ = length-append (pre ++ v) (name m) in
      let l₃ = length-append v (name m ++ data_pad) in
      let l₄ = length-append (name m) data_pad in
      let a =
        read_here layout os working f layout.node_size offset pre v (name m ++ tail) e₁ at
          (sym fits.size) in
      let b =
        read_here layout os working f v'.len (offset + layout.node_size) (pre ++ v) (name m) tail e₂
          (omega (arith, at, fits.size, l₁)) (len ∙ r.len) in
      let c =
        read_here layout os working f (length data_pad) (offset + layout.node_size + v'.len)
          ((pre ++ v) ++ name m) data_pad rest e₃ (omega (arith, at, fits.size, l₁, l₂, len, r.len))
          refl in
      let short : ltb data_buf_size v'.len ≡ false = ground (arith, len, r.short) in
      let end : offset + layout.node_size + v'.len + length data_pad
          ≡ offset + length (node_bytes layout m) =
        omega (arith, fits.size, l₃, l₄, len, r.len) in
      rw (restore_round, a, short, b, restore_node, c, memcmp_pad)
        (ap (λ o. added o (restore_add_node core layout.node_offset z v' (name m))) end)

  -- Each node takes some bytes of the file.
  pub length-all_bytes : (ms : List RbNode) → length ms ≤ length (all_bytes layout ms)
  unfolding all_bytes
  length-all_bytes [] = omega arith
  length-all_bytes (m ∷ ms) = omega (
    arith,
    length-all_bytes ms,
    length-append (node_bytes layout m) (all_bytes layout ms),
    length-append (layout.of_node m.vtsn) (name m ++ data_pad),
    length-append (name m) data_pad,
  )

  read_end :
      (f : File) (n offset : ℕ)
      → 0 < n
      → length f.content ≤ offset
      → read_exactly os f n offset ≡ none
  read_end f n offset some_size at = elim (read_exactly-cases os f n offset working) [
    | inl e ↦ e
    | inr (bs, e, size, fits) ↦ absurd (omega arith)
  ]

  module _ (law : IsLawful core.nginx) (room : HasMemory core)
      (some_size : 0 < layout.node_size) where
    pub restore_loop-Merges :
        (ms : List RbNode) (fuel : ℕ) (f : File) (offset : ℕ) (z : Zone) (pre : Bytes)
        → f.content ≡ pre ++ all_bytes layout ms
        → offset ≡ length pre
        → All (λ (m : RbNode). NodeFits layout m.vtsn) ms
        → All (IsRestorable core.nginx) ms
        → Sorted core.nginx (inorder z.tree)
        → length ms < fuel
        → (z' : Zone) × (restore_loop layout os core fuel f offset z ≡ some z')
          × Merges core.nginx z.tree ms z'.tree
    unfolding all_bytes restore_loop
    restore_loop-Merges ms zero f offset z pre e at fits r s enough = absurd (omega arith)
    restore_loop-Merges [] (suc fuel) f offset z pre e at fits r s enough =
        let over : length f.content ≤ offset =
          omega (arith, at, ap length e, length-append pre []) in
        rw (restore_loop, restore_round, read_end f layout.node_size offset some_size over)
          (z, refl, Merges-nil core law z.tree s)
    restore_loop-Merges (m ∷ ms) (suc fuel) f offset z pre e at fits r s enough =
        let v = layout.to_node (layout.of_node m.vtsn) in
        let bytes = node_bytes layout m in
        let after = restore_add_node core layout.node_offset z v (name m) in
        let round = restore_round_lem f offset z m pre (all_bytes layout ms) e at fits.0 r.0 in
        let (fine, here) =
          restore_add_node-Merges core law layout.node_offset z m v room s r.0
            (fits.0.copy (name m)) in
        let (z', e', rest) =
          restore_loop-Merges ms fuel f (offset + length bytes) after.1 (pre ++ bytes)
            (e ∙ sym (append_assoc pre bytes (all_bytes layout ms)))
            (omega (arith, at, length-append pre bytes)) fits.1 r.1 here.sorted (omega arith) in
        rw (restore_loop, round, fine)
          (z', e', Merges-cons core law z.tree after.1.tree z'.tree m ms here rest)
