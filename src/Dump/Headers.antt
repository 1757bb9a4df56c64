-- ===== src/Dump/Headers.antt =====
-- The header of a dump file: ngx_metric_module/src/ngx_http_vhost_traffic_status_dump.c.
use metrics_server_example.Base.{
  ℕ, zero, suc, ◌-◌, ◌≡◌, ◌≤◌, refl, sym, ap₂, ◌∙◌, true, false, some, [], ◌∷◌, ◌++◌, arith, length,
  take, replicate, take-append,
}
use metrics_server_example.Text.{Bytes, ok, strncmp_eq}
use metrics_server_example.RbTree.{Tree}
use metrics_server_example.Filter.Walk.{preorder}
use metrics_server_example.Dump.{
  Header, Layout, File, Files, IsWorking, DumpConf, name_len, file_header, header_read,
  header_write, dump_execute,
}
use metrics_server_example.Dump.Written.{all_bytes, node_write_lem}

-- The layout keeps a header.
pub record HeaderFits (layout : Layout) (h : Header) : Type 0 where
  pub size : length (layout.of_header h) ≡ layout.header_size
  pub copy : layout.to_header (layout.of_header h) ≡ h

strncmp_eq-take : (n : ℕ) (a r : Bytes) → n ≤ length a → strncmp_eq n a (take n a ++ r) ≡ true
unfolding strncmp_eq
strncmp_eq-take zero a r h = refl
strncmp_eq-take (suc n) [] r h = absurd (omega arith)
strncmp_eq-take (suc n) (b ∷ bs) r h = ground (arith, strncmp_eq-take n bs r)

-- A header carries the name of its zone.
pub file_header-named :
    (c : DumpConf) (now : ℕ) → strncmp_eq (name_len c) c.shm_name (file_header c now).name ≡ true
unfolding file_header
file_header-named c now =
    strncmp_eq-take (name_len c) c.shm_name (replicate (128 - name_len c) 0)
      (unfold name_len in ground arith)

module _ (layout : Layout) (os : Files) (working : IsWorking os) where
  -- The file behind a dump.
  abbrev pub dumped : DumpConf → ℕ → Tree → File → File
  dumped c now t disk = record {
    content = layout.of_header (file_header c now) ++ all_bytes layout (preorder t);
    locked = false;
    is_open = false;
  }

  pub dump_execute_lem :
      (c : DumpConf) (now : ℕ) (t : Tree) (disk : File)
      → HeaderFits layout (file_header c now)
      → dump_execute layout os c now t disk ≡ (ok, dumped c now t disk)
  unfolding dump_execute header_write
  dump_execute_lem c now t disk fits =
      let h = layout.of_header (file_header c now) in
      let opened : File = record disk { content = []; is_open = true } in
      let locked : File = record opened { locked = true } in
      let headed : File = record locked { content = h } in
      let whole : File = record headed { content = h ++ all_bytes layout (preorder t) } in
      rw
        (
          dump_execute,
          working.open_truncate_lem disk,
          header_write,
          working.lock_fd_lem opened,
          working.write_fd_lem locked h,
          fits.size,
          node_write_lem layout os working t headed,
          working.unlock_fd_lem whole,
          working.close_file_lem (record whole { locked = false }),
        )
        (ground arith)

  pub header_read-header :
      (h : Header) (f : File) (rest : Bytes)
      → HeaderFits layout h
      → f.content ≡ layout.of_header h ++ rest
      → header_read layout os f ≡ some h
  unfolding header_read
  header_read-header h f rest fits e =
      let bs : take layout.header_size f.content ≡ layout.of_header h =
        ap₂ take (sym fits.size) e ∙ take-append (layout.of_header h) rest in
      rw (header_read, working.read_file_lem f layout.header_size 0, bs, fits.size, fits.copy)
        (ground arith)
