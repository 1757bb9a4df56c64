-- ===== src/Tests/Zones.antt =====
-- Updates of the shared memory.
use metrics_server_example.Base.{
  map, length, ℕ, ◌≤◌, ◌≡◌, refl, arith, true, false, none, some, [], ◌∷◌,
}
use metrics_server_example.Text.{ok, error}
use metrics_server_example.RbTree
use metrics_server_example.Filter
use metrics_server_example.RbTree.{Tree, sentinel, fork, inorder, remove, rbtree_insert}
use metrics_server_example.Node.{Node}
use metrics_server_example.Filter.{find_lru}
use metrics_server_example.Filter.Info.{filtered}
use metrics_server_example.Zone.{Zone, find_node, Memory, evict, new_node, update_at, add_node}
use metrics_server_example.Zone.Update.{Distinct}
use metrics_server_example.Zone.Locked.{leaks_lock, locked-add_node}
use metrics_server_example.Zone.Kept.{FreeAddr}
use metrics_server_example.Zone.Limit.{filtered-add_node}
use metrics_server_example.Base.Words.{add64}
use metrics_server_example.Key.{separator}
use metrics_server_example.RbTree.Order.{Sorted}
use metrics_server_example.Control.{group, Control, range_zone, Pool, reset, delete}
use metrics_server_example.Control.Selected.{selects, chosen, unchosen}
use metrics_server_example.Control.Reset.{zeroed_if, reset_lem}
use metrics_server_example.Control.Delete.{delete_lem}
use metrics_server_example.Tests.Instances.{test_nginx, test_nginx-IsLawful, cmp, unlink}
use metrics_server_example.Tests.Nodes.{test_memory, test_conf, test_request}
use metrics_server_example.Tests.Trees.{one, node_a, test_main, one-HasRequests, one-filtered}

abbrev start : Zone
start = record { tree = one; node_caches = none ∷ none ∷ none ∷ none ∷ none ∷ []; locked = false }

one-Distinct : Distinct (inorder one)
unfolding inorder
one-Distinct = (tt, tt)

abbrev exhausted : Memory
exhausted = record { lru_info = true; slab = none; error_info = false }

-- The key `b` with no memory to be had.
abbrev after_exhausted : Zone
after_exhausted = record start { tree = evict test_nginx one (some node_a); locked = true }

add_node-exhausted :
    add_node test_nginx test_main test_conf test_request 0 exhausted start (b'b' ∷ []) 4
    ≡ some (error, after_exhausted)
unfolding add_node cmp RbTree.lookup unlink find_lru remove Filter.counts
add_node-exhausted = refl

locked-add_node_example :
    after_exhausted.locked
    ≡ leaks_lock
        (find_node test_nginx start (b'b' ∷ []) 4 (test_nginx.crc32_short (b'b' ∷ [])))
        exhausted
locked-add_node_example =
    locked-add_node test_nginx test_main test_conf test_request 0 exhausted start after_exhausted
      (b'b' ∷ []) 4 error (omega arith) add_node-exhausted

abbrev given : Memory
given = record { lru_info = true; slab = some (30, test_memory); error_info = true }

-- The new node takes the place of the node that had to go.
abbrev after_given : Zone
after_given = record {
  tree = update_at 30 (new_node test_conf test_request (b'b' ∷ []) 4 test_memory) (
      rbtree_insert test_nginx (evict test_nginx one (some node_a)) (record {
        addr = 30;
        key = 1;
        vtsn = new_node test_conf test_request (b'b' ∷ []) 4 test_memory;
      }));
  node_caches = none ∷ none ∷ none ∷ none ∷ some 30 ∷ [];
  locked = false;
}

add_node-given :
    add_node test_nginx test_main test_conf test_request 0 given start (b'b' ∷ []) 4
    ≡ some (ok, after_given)
unfolding add_node cmp RbTree.lookup unlink find_lru remove Filter.counts
add_node-given = refl

given-FreeAddr :
    (addr : ℕ) (memory : Node)
    → given.slab ≡ some (addr, memory)
    → FreeAddr addr (inorder (evict test_nginx one (find_lru test_main true one)))
unfolding evict find_lru unlink inorder remove Filter.counts
given-FreeAddr addr memory e = tt

filtered-add_node_example : filtered test_main (inorder after_given.tree) ≤ 1
filtered-add_node_example =
    filtered-add_node test_nginx test_main test_nginx-IsLawful test_conf test_request 0 given start
      (b'b' ∷ []) 4 ok after_given one-Distinct one-HasRequests (omega arith)
      (omega (arith, one-filtered)) (omega arith) refl given-FreeAddr add_node-given

-- A command for the zone `a` of the group of filters. Its key is `FG`, the separator and `a`.
abbrev command : Control
command = record { selector = group 4; zone = b'a' ∷ []; range = range_zone; count = 0 }

abbrev pool : Pool
pool = record { array = true; room = 8; key = true }

-- The tree with the node of that key.
abbrev keyed : Tree
keyed =
    fork one
      (record {
        addr = 40;
        key = 4;
        vtsn = record test_memory { len = 4; name = b'F' ∷ b'G' ∷ separator ∷ b'a' ∷ [] };
      })
      sentinel

keyed-Sorted : Sorted test_nginx (inorder keyed)
unfolding inorder
keyed-Sorted = ((refl, tt), (tt, tt))

keyed-Distinct : Distinct (inorder keyed)
unfolding inorder
keyed-Distinct = ((omega arith, tt), (tt, tt))

reset_lem_example :
    (inorder (reset test_nginx command pool keyed).0
      ≡ map (zeroed_if (selects test_nginx command)) (inorder keyed))
    × ((reset test_nginx command pool keyed).1
        ≡ add64 0 (length (chosen (selects test_nginx command) (inorder keyed))))
reset_lem_example =
    reset_lem test_nginx command pool keyed test_nginx-IsLawful keyed-Sorted keyed-Distinct refl
      (omega arith)

delete_lem_example :
    (t' : Tree) × (delete test_nginx command pool keyed
      ≡ some (t', add64 0 (length (chosen (selects test_nginx command) (inorder keyed)))))
    × (inorder t' ≡ unchosen (selects test_nginx command) (inorder keyed))
delete_lem_example =
    delete_lem test_nginx command pool keyed test_nginx-IsLawful keyed-Sorted keyed-Distinct refl
      refl (unfold inorder in omega arith) (omega arith)
