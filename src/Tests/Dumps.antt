-- ===== src/Tests/Dumps.antt =====
-- The dump: files in memory, a layout of some fields, and a tree of one node.
use metrics_server_example.Base.{
  ℕ, ◌+◌, ◌≡◌, refl, true, false, some, [], ◌∷◌, ◌++◌, arith, ltb, if◌then◌else◌, get_or, length,
  take, drop,
}
use metrics_server_example.Text.{Bytes, ok}
use metrics_server_example.RbTree.{sentinel, inorder, lookup}
use metrics_server_example.RbTree.Order.{Sorted, or_else}
use metrics_server_example.Zone.{Zone}
use metrics_server_example.Dump.{
  Layout, File, Files, IsWorking, DumpConf, Core, name_len, file_header, dump_execute, dump_handler,
  dump_restore,
}
use metrics_server_example.Dump.Loop.{Extends, dump_restore-Extends}
use metrics_server_example.Dump.Merged.{stored?}
use metrics_server_example.Dump.Headers.{HeaderFits}
use metrics_server_example.Dump.Period.{handler-execute}
use metrics_server_example.Dump.RoundTrip.{IsDumpable, restore-execute}
use metrics_server_example.Tests.Instances.{test_nginx, test_nginx-IsLawful}
use metrics_server_example.Tests.Nodes.{test_memory}
use metrics_server_example.Tests.Trees.{one, one-Sorted}

abbrev memory_files : Files
memory_files = record {
  open_read = λ f. some (record f { is_open = true });
  open_truncate = λ f. some (record f { content = []; is_open = true });
  write_fd = λ f bs. (record f { content = f.content ++ bs }, some (length bs));
  read_file = λ f n offset. some (take n (drop offset f.content));
  lock_fd = λ f. record f { locked = true };
  unlock_fd = λ f. record f { locked = false };
  close_file = λ f. record f { is_open = false };
}

memory_files-IsWorking : IsWorking memory_files
memory_files-IsWorking = record {
  open_read_lem = λ f. refl;
  open_truncate_lem = λ f. refl;
  write_fd_lem = λ f bs. refl;
  read_file_lem = λ f n offset. refl;
  lock_fd_lem = λ f. refl;
  unlock_fd_lem = λ f. refl;
  close_file_lem = λ f. refl;
}

-- A header is its name and two words; of a node only two fields are kept.
abbrev test_layout : Layout
test_layout = record {
  header_size = 130;
  of_header = λ h. h.name ++ (h.time ∷ h.version ∷ []);
  to_header =
      λ bs. record { name = take 128 bs; time = get_or bs 128 0; version = get_or bs 129 0 };
  node_size = 2;
  of_node = λ v. v.request_time ∷ v.len ∷ [];
  to_node = λ bs. record test_memory { request_time = get_or bs 0 0; len = get_or bs 1 0 };
  node_offset = 5000;
}

abbrev test_core : Core
test_core = record { nginx = test_nginx; slab_alloc = λ t size. some 77 }

abbrev test_dump : DumpConf
test_dump = record { shm_name = b'v' ∷ b't' ∷ []; dump_period = 60; nginx_version = 1020001 }

abbrev no_file : File
no_file = record { content = []; locked = false; is_open = false }

abbrev empty_zone : Zone
empty_zone = record { tree = sentinel; node_caches = []; locked = false }

header-HeaderFits : HeaderFits test_layout (file_header test_dump 5)
unfolding file_header name_len
header-HeaderFits = record { size = refl; copy = refl }

one-IsDumpable : IsDumpable test_layout test_core one
unfolding inorder
one-IsDumpable = record {
  sorted = one-Sorted;
  fits = (record { size = refl; copy = λ bs. refl }, tt);
  restorable = (record { nonempty = λ e. cc; len = refl; short = omega arith; hash = refl }, tt);
}

restore-execute_example :
    (disk' : File) × (z' : Zone) × (dump_execute test_layout memory_files test_dump 5 one no_file
      ≡ (ok, disk'))
    × (dump_restore test_layout memory_files test_core test_dump true disk' empty_zone
        ≡ some (disk', z'))
    × Sorted test_nginx (inorder z'.tree)
    × ((k : Bytes) (h : ℕ)
        → stored? (lookup test_nginx z'.tree k h)
          ≡ or_else
              (stored? (lookup test_nginx sentinel k h))
              (stored? (lookup test_nginx one k h)))
restore-execute_example =
    restore-execute test_layout memory_files test_core test_dump 5 one no_file empty_zone
      test_nginx-IsLawful memory_files-IsWorking (λ t size. (77, refl)) (omega arith)
      header-HeaderFits one-IsDumpable (unfold inorder in tt)

-- A file that is cut off.
dump_restore-Extends_example :
    (z' : Zone) × (dump_restore test_layout memory_files test_core test_dump true
        (record no_file { content = b'v' ∷ b't' ∷ [] })
        (record empty_zone { tree = one })
      ≡ some (record no_file { content = b'v' ∷ b't' ∷ [] }, z'))
    × Extends test_nginx one z'.tree
dump_restore-Extends_example =
    dump_restore-Extends test_layout memory_files test_core test_dump true
      (record no_file { content = b'v' ∷ b't' ∷ [] }) (record empty_zone { tree = one })
      test_nginx-IsLawful memory_files-IsWorking (omega arith) one-Sorted

handler-execute_example :
    dump_handler test_layout memory_files test_dump false 66 sentinel
      (dump_execute test_layout memory_files test_dump 5 one no_file).1
    ≡ (
      true,
      if ltb (5 + 60) 66
          then (dump_execute test_layout memory_files test_dump 66 sentinel
              (dump_execute test_layout memory_files test_dump 5 one no_file).1).1
          else (dump_execute test_layout memory_files test_dump 5 one no_file).1,
    )
handler-execute_example =
    handler-execute test_layout memory_files test_dump 5 66 one sentinel no_file
      memory_files-IsWorking header-HeaderFits (omega arith) (omega arith)
