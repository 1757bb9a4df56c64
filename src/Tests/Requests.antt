-- ===== src/Tests/Requests.antt =====
-- Requests as they are logged.
use metrics_server_example.Base.{◌<◌}
use metrics_server_example.Text.{Bytes}
use metrics_server_example.Base.{
  ℕ, ◌≡◌, refl, arith, true, false, not, ◌||◌, none, some, [], ◌∷◌, All, length, if◌then◌else◌,
}
use metrics_server_example.Text.{Status}
use metrics_server_example.TimeQueue.Window.{init-IsFull}
use metrics_server_example.Node.{Node}
use metrics_server_example.RbTree.{inorder, remove}
use metrics_server_example.Filter
use metrics_server_example.Filter.{find_lru}
use metrics_server_example.Zone.{Zone, Memory, find_addr, evict, add_node}
use metrics_server_example.Base.{replicate, length-replicate, ◌^◌}
use metrics_server_example.RbTree.{lookup}
use metrics_server_example.Zone.{new_node}
use metrics_server_example.Zone.LongKey.{Short, lookup-new_node}
use metrics_server_example.Zone.Cache.{Live}
use metrics_server_example.Zone.Kept.{FreeAddr}
use metrics_server_example.Zone.Valid.{IsValid}
use metrics_server_example.Zone.Total.{add_node-IsValid}
use metrics_server_example.Key.{generate_key}
use metrics_server_example.RequestKeys.{Filter as RequestFilter, filter_target, upstream_target}
use metrics_server_example.Handler.{Logged, handler}
use metrics_server_example.Handler.Updates.{filter_updates, request_updates, add_all, handler_lem}
use metrics_server_example.Tests.Instances.{test_nginx, test_nginx-IsLawful, unlink}
use metrics_server_example.Tests.Nodes.{test_memory, test_conf, test_request}
use metrics_server_example.Tests.Trees.{one, node_a, one-Sorted, test_main}

one-IsValid : IsValid test_nginx (inorder one)
unfolding inorder
one-IsValid = record {
  sorted = one-Sorted;
  distinct = (tt, tt);
  queues = (
    record {
      requests = init-IsFull (record { times = []; front = 0; rear = 0; len = 0 });
      responses = init-IsFull (record { times = []; front = 0; rear = 0; len = 0 });
    },
    tt,
  );
}

abbrev start : Zone
start = record {
  tree = one;
  node_caches = none ∷ none ∷ none ∷ none ∷ some 10 ∷ [];
  locked = false;
}

start-Live : All (Live (inorder one)) start.node_caches
unfolding inorder find_addr
start-Live = (tt, (tt, (tt, (tt, ((node_a, refl), tt)))))

abbrev given : Memory
given = record { lru_info = true; slab = some (30, test_memory); error_info = true }

given-FreeAddr :
    (addr : ℕ) (memory : Node)
    → given.slab ≡ some (addr, memory)
    → FreeAddr addr (inorder (evict test_nginx one (find_lru test_main true one)))
unfolding evict find_lru unlink inorder remove Filter.counts
given-FreeAddr addr memory e = tt

-- A new key evicts the only node that counts.
add_node-IsValid_example :
    (rc : Status) × (z' : Zone) × (add_node test_nginx test_main test_conf test_request 0 given
        start
        (b'b' ∷ b'c' ∷ [])
        4
      ≡ some (rc, z'))
    × IsValid test_nginx (inorder z'.tree)
add_node-IsValid_example =
    add_node-IsValid test_nginx test_nginx-IsLawful test_main test_conf test_request 0 given start
      (b'b' ∷ b'c' ∷ []) 4 one-IsValid start-Live (omega arith) given-FreeAddr

abbrev by_country : RequestFilter
by_country = record {
  has_key = true;
  key = some (b'k' ∷ []);
  name = some (b'n' ∷ []);
  copy = true;
  generate = true;
  memory = given;
}

-- A request that no upstream served, with a filter whose first list cannot be evaluated.
abbrev logged : Logged
logged = record {
  enable = true;
  loc_enable = true;
  bypass_stats = false;
  shm_zone = true;
  names = record { filter = true; filter_host = false; host_header = []; server_name = b's' ∷ [] };
  generate = true;
  memory = given;
  upstream = record {
    states = none;
    state = false;
    resolved = none;
    configured = record { host = []; port = 0 };
    upstreams = [];
    peer = none;
    record_memory = true;
    copy = true;
    generate = true;
    memory = given;
  };
  main_filters = some (record by_country { key = none } ∷ by_country ∷ []);
  filters = some (by_country ∷ []);
}

handler_lem_example : handler test_nginx test_main test_conf test_request logged start ≡ (
    if not true || not true || false || not true
    then some start
    else add_all test_nginx test_main test_conf test_request logged (request_updates logged) start)
handler_lem_example = handler_lem test_nginx test_main test_conf test_request logged start

request_updates-logged : length (request_updates logged) ≡ 2
unfolding request_updates filter_updates filter_target upstream_target generate_key
request_updates-logged = refl

-- 300 letters.
abbrev long_key : Bytes
long_key = replicate 300 b'a'

one-Short : All Short (inorder one)
unfolding inorder
one-Short = (omega arith, tt)

lookup-new_node_example :
    ((new_node test_conf test_request long_key 4 test_memory).len < 2 ^ 8)
    × (lookup test_nginx one long_key 300 ≡ none)
lookup-new_node_example =
    lookup-new_node test_nginx test_nginx-IsLawful test_conf test_request 4 test_memory one long_key
      300 (omega (arith, length-replicate {A = ℕ} 300 b'a')) one-Short
