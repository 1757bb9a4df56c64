-- ===== src/Tests/Trees.antt =====
-- The tree of nodes and the limit on filters.
use Prim.Native.Nat.Ordering.{eq}
use metrics_server_example.Base.{
  ◌≤◌, ◌<◌, ◌≡◌, refl, arith, true, none, some, [], ◌∷◌, All, ◌⊎◌, false,
}
use metrics_server_example.TimeQueue
use metrics_server_example.RbTree.{
  RbNode, Tree, sentinel, fork, inorder, name, lookup, rbtree_insert,
}
use metrics_server_example.RbTree.Order.{order, Sorted, find}
use metrics_server_example.RbTree.Lookup.{lookup-find}
use metrics_server_example.RbTree.Insert.{lookup-rbtree_insert}
use metrics_server_example.Filter.{MainConf, counts, find_lru}
use metrics_server_example.Filter.Info.{filtered}
use metrics_server_example.Filter.Lru.{HasRequests, IsVictim, find_lru_lem}
use metrics_server_example.Tests.Instances.{test_nginx, test_nginx-IsLawful, cmp}
use metrics_server_example.Tests.Nodes.{test_memory}

abbrev pub node_a : RbNode
node_a = record { addr = 10; key = 1; vtsn = test_memory }

-- Of the same hash, with another name.
abbrev pub node_b : RbNode
node_b = record { addr = 20; key = 1; vtsn = record test_memory { name = b'b' ∷ [] } }

abbrev pub one : Tree
one = fork sentinel node_a sentinel

pub one-Sorted : Sorted test_nginx (inorder one)
unfolding inorder
one-Sorted = (tt, tt)

lookup-find_example :
    lookup test_nginx one (b'a' ∷ []) 1 ≡ find test_nginx (inorder one) (b'a' ∷ []) 1
lookup-find_example = lookup-find test_nginx one (b'a' ∷ []) 1 test_nginx-IsLawful one-Sorted

lookup-node_b : lookup test_nginx one (name node_b) node_b.key ≡ none
unfolding lookup cmp
lookup-node_b = refl

lookup-rbtree_insert_example :
    Sorted test_nginx (inorder (rbtree_insert test_nginx one node_b))
    × (lookup test_nginx (rbtree_insert test_nginx one node_b) (b'b' ∷ []) 1
        ≡ elim (order test_nginx 1 (b'b' ∷ []) node_b) [
          | eq ↦ some node_b
          | _ ↦ lookup test_nginx one (b'b' ∷ []) 1
        ])
lookup-rbtree_insert_example =
    lookup-rbtree_insert test_nginx one node_b (b'b' ∷ []) 1 test_nginx-IsLawful one-Sorted
      lookup-node_b

-- A limit of one node, for all filters.
abbrev pub test_main : MainConf
test_main = record {
  filter_max_node = 1;
  filter_max_node_matches = none;
  shm_size = 1048576;
  node_offset = 5000;
}

pub one-HasRequests : All HasRequests (inorder one)
unfolding inorder TimeQueue.init
one-HasRequests = (omega arith, tt)

pub one-filtered : filtered test_main (inorder one) ≡ 1
unfolding inorder filtered counts
one-filtered = refl

find_lru_lem_example :
    ((test_main.filter_max_node ≡ 0)
        ⊎ (filtered test_main (inorder one) < test_main.filter_max_node)
      → find_lru test_main true one ≡ none)
    × (0 < test_main.filter_max_node
        → test_main.filter_max_node ≤ filtered test_main (inorder one)
        → (v : RbNode) × (find_lru test_main true one ≡ some v) × IsVictim test_main one v)
    × (find_lru test_main false one ≡ none)
find_lru_lem_example = find_lru_lem test_main one one-HasRequests (omega (arith, one-filtered))
