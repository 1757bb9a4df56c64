-- ===== src/Dump/RoundTrip.antt =====
-- A dump and its restoration, one after the other:
-- ngx_metric_module/src/ngx_http_vhost_traffic_status_dump.c.
use metrics_server_example.Base.{
  ℕ, suc, ◌≡◌, ◌<◌, refl, sym, ap, ◌∙◌, true, some, arith, length, length-append, All,
}
use metrics_server_example.Text.{Bytes, ok}
use metrics_server_example.RbTree.{RbNode, Tree, inorder, IsLawful, lookup}
use metrics_server_example.RbTree.Order.{Sorted, or_else}
use metrics_server_example.Filter.Walk.{preorder, All-preorder}
use metrics_server_example.Zone.{Zone}
use metrics_server_example.Dump.{
  Layout, File, Files, IsWorking, DumpConf, Core, file_header, dump_execute, dump_restore,
}
use metrics_server_example.Dump.Merged.{stored?, IsRestorable, HasMemory, find-preorder}
use metrics_server_example.Dump.Written.{NodeFits, all_bytes, length-all_bytes, restore_loop-Merges}
use metrics_server_example.Dump.Headers.{
  HeaderFits, file_header-named, dumped, dump_execute_lem, header_read-header,
}

-- What the round trip takes for granted of a tree: it is sorted, and the layout keeps its nodes, which
-- have a text of at most 1024 bytes and the hash of that text.
pub record IsDumpable (layout : Layout) (core : Core) (t : Tree) : Type 0 where
  pub sorted : Sorted core.nginx (inorder t)
  pub fits : All (λ (m : RbNode). NodeFits layout m.vtsn) (inorder t)
  pub restorable : All (IsRestorable core.nginx) (inorder t)

-- `dump_restore` after `dump_execute` gives back what was there: both end well, the file is closed, and
-- in the tree afterwards, which is sorted, each key finds the node that the tree at the start of the
-- restoration had for it, or else a copy of the node that the dumped tree had for it. This is for a
-- lawful core, for calls on files and on memory that succeed, for a header and nodes that the layout
-- keeps, for nodes whose text is not empty, fits the buffer and has the hash that is the node's key, and
-- for sorted trees.
pub restore-execute :
    (layout : Layout) (os : Files) (core : Core) (c : DumpConf) (now : ℕ) (t : Tree) (disk : File)
    (z : Zone)
    → IsLawful core.nginx
    → IsWorking os
    → HasMemory core
    → 0 < layout.node_size
    → HeaderFits layout (file_header c now)
    → IsDumpable layout core t
    → Sorted core.nginx (inorder z.tree)
    → (disk' : File) × (z' : Zone) × (dump_execute layout os c now t disk ≡ (ok, disk'))
      × (dump_restore layout os core c true disk' z ≡ some (disk', z'))
      × Sorted core.nginx (inorder z'.tree)
      × ((k : Bytes) (h : ℕ)
          → stored? (lookup core.nginx z'.tree k h)
            ≡ or_else (stored? (lookup core.nginx z.tree k h)) (stored? (lookup core.nginx t k h)))
unfolding dump_restore
restore-execute layout os core c now t disk z law working room some_size fits d s =
    let ms = preorder t in
    let h = file_header c now in
    let closed = dumped layout os working c now t disk in
    let f : File = record closed { is_open = true } in
    let (z', e, merges) =
      restore_loop-Merges layout os working core law room some_size ms (suc (length f.content)) f
        layout.header_size z (layout.of_header h) refl (sym fits.size)
        (All-preorder (λ (m : RbNode). NodeFits layout m.vtsn) t d.fits)
        (All-preorder (IsRestorable core.nginx) t d.restorable) s
        (omega (
          arith,
          length-all_bytes layout os working core ms,
          length-append (layout.of_header h) (all_bytes layout ms),
        )) in
    let read = header_read-header layout os working h f (all_bytes layout ms) fits refl in
    (
      closed,
      z',
      dump_execute_lem layout os working c now t disk fits,
      rw
          (
            dump_restore,
            working.open_read_lem closed,
            read,
            file_header-named c now,
            e,
            working.close_file_lem f,
          )
          refl,
      merges.sorted,
      λ k g.
          merges.finds k g
          ∙ ap (λ o. or_else (stored? (lookup core.nginx z.tree k g)) (stored? o))
              (find-preorder core law t k g d.sorted),
    )
