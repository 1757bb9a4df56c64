-- ===== src/Dump.antt =====
-- The dump of the nodes to a file and their restoration:
-- ngx_metric_module/src/ngx_http_vhost_traffic_status_dump.c and .h. The structures that the source
-- writes as they lie in memory are turned into bytes and back by the compiler's layout, and files are
-- read and written by the operating system through nginx: both are parameters.
pub mod Loop
pub mod Written
pub mod Merged
pub mod Headers
pub mod Period
pub mod RoundTrip
use metrics_server_example.Base.{
  ℕ, zero, suc, ◌+◌, ◌-◌, ◌≡◌, Bool, true, false, ◌&&◌, Option, none, some, List, [], ◌∷◌, ◌++◌,
  leb, ltb, ◌==◌, if◌then◌else◌, length, take, drop, replicate,
}
use metrics_server_example.Base.Words.{sub64}
use metrics_server_example.Text.{Bytes, Status, ok, error, strncmp_eq, memcmp_eq}
use metrics_server_example.Node.{Node}
use metrics_server_example.RbTree.{RbNode, Tree, sentinel, fork, name, Nginx, lookup, rbtree_insert}
use metrics_server_example.Zone.{Zone}

-- `NGX_HTTP_VHOST_TRAFFIC_STATUS_DUMP_HEADER_NAME_SIZE` and `_DUMP_DATA_BUF_SIZE`.
abbrev pub header_name_size : ℕ
header_name_size = 128

abbrev pub data_buf_size : ℕ
data_buf_size = 1024

-- `NGX_HTTP_VHOST_TRAFFIC_STATUS_DUMP_DATA_PAD`
abbrev pub data_pad : Bytes
data_pad = 0x53 ∷ 0x54 ∷ 0x56 ∷ []

-- `dump_header_t`
pub record Header : Type 0 where
  pub name : Bytes
  pub time : ℕ
  pub version : ℕ

-- How the two structures lie in memory, and the bytes of a tree node in front of its text.
pub record Layout : Type 0 where
  pub header_size : ℕ
  pub of_header : Header → Bytes
  pub to_header : Bytes → Header
  pub node_size : ℕ
  pub of_node : Node → Bytes
  pub to_node : Bytes → Node
  pub node_offset : ℕ

-- The dump file: what it holds, whether a lock is on it, and whether the process has it open.
pub record File : Type 0 where
  pub content : Bytes
  pub locked : Bool
  pub is_open : Bool

-- nginx's calls on files: the file after the call, with its answer. `open_read` and `open_truncate`
-- answer `none` for `NGX_INVALID_FILE`; `write_fd` and `read_file` for `NGX_ERROR`. `read_file` takes
-- the size and the offset.
pub record Files : Type 0 where
  pub open_read : File → Option File
  pub open_truncate : File → Option File
  pub write_fd : File → Bytes → File × Option ℕ
  pub read_file : File → ℕ → ℕ → Option Bytes
  pub lock_fd : File → File
  pub unlock_fd : File → File
  pub close_file : File → File

-- The calls succeed: a file opened for a dump is empty, a write appends all of its bytes, a read gives
-- what the file has from the offset on, up to the size.
pub record IsWorking (os : Files) : Type 0 where
  pub open_read_lem : (f : File) → os.open_read f ≡ some (record f { is_open = true })
  pub open_truncate_lem :
      (f : File) → os.open_truncate f ≡ some (record f { content = []; is_open = true })
  pub write_fd_lem :
      (f : File) (bs : Bytes)
      → os.write_fd f bs ≡ (record f { content = f.content ++ bs }, some (length bs))
  pub read_file_lem :
      (f : File) (n offset : ℕ) → os.read_file f n offset ≡ some (take n (drop offset f.content))
  pub lock_fd_lem : (f : File) → os.lock_fd f ≡ record f { locked = true }
  pub unlock_fd_lem : (f : File) → os.unlock_fd f ≡ record f { locked = false }
  pub close_file_lem : (f : File) → os.close_file f ≡ record f { is_open = false }

-- The fields of the main configuration that these functions read, and `nginx_version`.
pub record DumpConf : Type 0 where
  pub shm_name : Bytes
  pub dump_period : ℕ
  pub nginx_version : ℕ

-- How many bytes of the zone's name go into a header.
unfoldable pub name_len : DumpConf → ℕ
name_len c =
    if leb header_name_size (length c.shm_name) then header_name_size - 1 else length c.shm_name

-- The header that `dump_header_write` fills in.
unfoldable pub file_header : DumpConf → ℕ → Header
unfolding name_len
file_header c now = record {
  name = take (name_len c) c.shm_name ++ replicate (header_name_size - name_len c) 0;
  time = now;
  version = c.nginx_version;
}

-- A number of bytes that a call returned, against the one wanted.
abbrev pub is_count : Option ℕ → ℕ → Bool
is_count none n = false
is_count (some m) n = m == n

module _ (layout : Layout) (os : Files) where
  -- `dump_header_read`; `none` where it does not return the size of a header.
  unfoldable pub header_read : File → Option Header
  header_read f = elim (os.read_file f layout.header_size 0) [
    | none ↦ none
    | some bs ↦ if length bs == layout.header_size then some (layout.to_header bs) else none
  ]

  -- `dump_header_write`
  unfoldable pub header_write : DumpConf → ℕ → File → File × Option ℕ
  unfolding file_header
  header_write c now f = os.write_fd f (layout.of_header (file_header c now))

  -- `dump_node_write`
  unfoldable pub node_write : Tree → File → File
  node_write sentinel f = f
  node_write (fork l m r) f =
      let f₁ = (os.write_fd f (layout.of_node m.vtsn)).0 in
      let f₂ = (os.write_fd f₁ (name m)).0 in
      let f₃ = (os.write_fd f₂ data_pad).0 in node_write r (node_write l f₃)

  -- `dump_execute`
  unfoldable pub dump_execute : DumpConf → ℕ → Tree → File → Status × File
  unfolding header_write node_write
  dump_execute c now t disk = elim (os.open_truncate disk) [
    | none ↦ (error, disk)
    | some f ↦
        let w = header_write c now (os.lock_fd f) in
        if is_count w.1 layout.header_size
        then (ok, os.close_file (os.unlock_fd (node_write t w.0)))
        else (error, os.close_file (os.unlock_fd w.0))
  ]

  -- `dump_update_valid`: `ok` where a dump is due.
  unfoldable pub update_valid : DumpConf → ℕ → File → Status × File
  unfolding header_read name_len strncmp_eq
  update_valid c now disk = elim (os.open_read disk) [
    | none ↦ (ok, disk)
    | some f ↦
        let closed = os.close_file f in
        elim (header_read f) [
          | none ↦ (ok, closed)
          | some h ↦
              if strncmp_eq (name_len c) c.shm_name h.name
              then (if ltb c.dump_period (sub64 now h.time) then (ok, closed) else (error, closed))
              else (ok, closed)
        ]
  ]

  -- `dump_handler`: whether nginx is exiting; the answer is whether the timer was set again.
  unfoldable pub dump_handler : DumpConf → Bool → ℕ → Tree → File → Bool × File
  unfolding update_valid dump_execute
  dump_handler c true now t disk = (false, disk)
  dump_handler c false now t disk =
      let v = update_valid c now disk in
      elim v.0 [ error ↦ (true, v.1) | ok ↦ (true, (dump_execute c now t v.1).1) ]

-- What nginx's core does for a restoration: its tree code, and `ngx_slab_alloc_locked`, which gives
-- an address for a size.
pub record Core : Type 0 where
  pub nginx : Nginx
  pub slab_alloc : Tree → ℕ → Option ℕ

-- `dump_restore_add_node`
unfoldable pub restore_add_node : Core → ℕ → Zone → Node → Bytes → Status × Zone
unfolding lookup rbtree_insert
restore_add_node core node_offset z v [] = (error, z)
restore_add_node core node_offset z v (b ∷ bs) =
    let key = b ∷ bs in
    let hash = core.nginx.crc32_short key in
    elim (lookup core.nginx z.tree key hash) [
      | some m ↦ (ok, record z { locked = false })
      | none ↦ elim (core.slab_alloc z.tree (node_offset + length key)) [
        | none ↦ (error, record z { locked = false })
        | some addr ↦
            let n : RbNode = record { addr = addr; key = hash; vtsn = record v { name = key } } in
            (ok, record z { tree = rbtree_insert core.nginx z.tree n; locked = false })
      ]
    ]

-- How a round of the loop of `dump_restore` ends: with `break`, or at the offset of the next one.
pub data Round : Type 0 where
  done : Zone → Round
  next : ℕ → Zone → Round

-- A read that returned the number of bytes that was asked for, and some.
unfoldable pub read_exactly : Files → File → ℕ → ℕ → Option Bytes
read_exactly os f n offset = elim (os.read_file f n offset) [
  | none ↦ none
  | some bs ↦ if length bs == n then some bs else none
]

module _ (layout : Layout) (os : Files) (core : Core) where
  -- The end of a round: the padding, and the node for the tree. `offset` is where the padding stands.
  unfoldable pub restore_node : File → ℕ → Zone → Node → Bytes → Round
  unfolding read_exactly restore_add_node memcmp_eq
  restore_node f offset z v key = elim (read_exactly os f (length data_pad) offset) [
    | none ↦ done z
    | some pad ↦
        if memcmp_eq data_pad pad
        then (let added = restore_add_node core layout.node_offset z v key in
            elim added.0 [ error ↦ done added.1 | ok ↦ next (offset + length data_pad) added.1 ])
        else done z
  ]

  -- One round of the loop of `dump_restore`.
  unfoldable pub restore_round : File → ℕ → Zone → Round
  unfolding read_exactly restore_node
  restore_round f offset z = elim (read_exactly os f layout.node_size offset) [
    | none ↦ done z
    | some bs ↦
        let v = layout.to_node bs in
        if ltb data_buf_size v.len
        then next (offset + (v.len + length data_pad)) z
        else elim (read_exactly os f v.len (offset + layout.node_size)) [
          | none ↦ done z
          | some key ↦ restore_node f (offset + layout.node_size + v.len) z v key
        ]
  ]

  -- The loop of `dump_restore`, on fuel.
  unfoldable pub restore_loop : ℕ → File → ℕ → Zone → Option Zone
  unfolding restore_round
  restore_loop zero f offset z = none
  restore_loop (suc fuel) f offset z = elim (restore_round f offset z) [
    | done z' ↦ some z'
    | next offset' z' ↦ restore_loop fuel f offset' z'
  ]

  -- `dump_restore`: whether the two calls of `ngx_pcalloc` gave memory. `none` would mean that the
  -- loop does not end.
  unfoldable pub dump_restore : DumpConf → Bool → File → Zone → Option (File × Zone)
  unfolding header_read name_len restore_loop strncmp_eq
  dump_restore c memory disk z = elim (os.open_read disk) [
    | none ↦ some (disk, z)
    | some f ↦ elim (header_read layout os f) [
      | none ↦ some (os.close_file f, z)
      | some h ↦
          if strncmp_eq (name_len c) c.shm_name h.name
          then elim memory [
            | false ↦ some (os.close_file f, z)
            | true ↦ elim (restore_loop (suc (length f.content)) f layout.header_size z) [
              | none ↦ none
              | some z' ↦ some (os.close_file f, z')
            ]
          ]
          else some (os.close_file f, z)
    ]
  ]
